-- ===== src/Snapshot.antt =====
-- cmd/soroban-cli/src/commands/snapshot/create.rs: the snapshot of a ledger from the buckets of a
-- history archive.
pub mod Entries
pub mod Search
pub mod Assets
pub mod Archive
pub mod Run
mod Newest
mod Advances
mod Steps
mod Streams
mod Rounds
mod Complete
mod Closed
mod Distinct
mod Examples
