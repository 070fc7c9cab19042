-- ===== src/Spec.antt =====
-- cmd/crates/soroban-spec-tools/src: contract specs, and arguments and results as JSON.
pub mod Types
pub mod Json
pub mod Base
pub mod Find
pub mod Primitives
pub mod ToJson
pub mod FromJson
pub mod Output
pub mod Stands
pub mod Reading
pub mod RoundTrip
pub mod Names
pub mod Example
pub mod Examples
pub mod Termination
