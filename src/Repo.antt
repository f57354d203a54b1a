-- ===== src/Repo.antt =====
-- rystemd/src/repo: the repository of unit definitions.
pub mod Document
pub mod Definition
