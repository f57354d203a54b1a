-- ===== src/Manager/Engine/Sound.antt =====
-- rystemd/src/manager/mod.rs: that each method of the job engine keeps what Follows says.
pub mod Timers
pub mod Types
pub mod Expand
pub mod Queue
pub mod Requests
pub mod Run
pub mod Spawn
pub mod Exits
pub mod Notify
