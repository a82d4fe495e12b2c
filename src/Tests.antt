-- ===== src/Tests.antt =====
-- Concrete runs: the third-party code as functions, and each theorem on an example.
pub mod Instances
mod Wire
mod Packets
mod Frames
mod Runs
mod Exchanges
mod Sessions
mod Logins
mod Tasks
mod Shutdowns
