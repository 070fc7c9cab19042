-- ===== src/Config.antt =====
-- cmd/soroban-cli/src/config: where the configuration lies on the disk, its identities, networks
-- and contract aliases, and how names are resolved to keys, networks and contracts.
pub mod Paths
pub mod Disk
pub mod Errors
pub mod Secrets
pub mod Keys
pub mod Directories
pub mod KeyTypes
pub mod Networks
pub mod Locator
pub mod Writes
pub mod KeyNames
pub mod Resolve
pub mod Meaning
pub mod Defaults
pub mod Machine
mod Examples
