-- ===== src/Unit.antt =====
-- rystemd/src/unit: unit files and what they say.
pub mod Process
pub mod Config
pub mod Parse
pub mod Words
pub mod Escapes
pub mod Exit
pub mod Tests
