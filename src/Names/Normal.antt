-- ===== src/Names/Normal.antt =====
-- What normalize_unit of names.rs gives.
