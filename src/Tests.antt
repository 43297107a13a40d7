-- ===== src/Tests.antt =====
-- Runs of the code on concrete inputs, and the witnesses.
pub mod Data
pub mod Heaps
pub mod Queues
pub mod Logs
pub mod Managers
pub mod Apis
pub mod Runs
pub mod Servers
pub mod Reopens
