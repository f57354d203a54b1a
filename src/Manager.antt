-- ===== src/Manager.antt =====
-- rystemd/src/manager: the unit table, its timers and its dependency graph.
pub mod Timer
pub mod State
pub mod Deps
pub mod Action
pub mod Jobs
pub mod Engine
