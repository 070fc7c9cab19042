-- ===== src/Commands.antt =====
-- cmd/soroban-cli/src/commands: the parts of `events`, `contract extend` and `contract restore` that
-- decide something. The requests to the server, and the printing, are parameters or left out.
pub mod Events
pub mod Extend
pub mod Restore
mod Examples
