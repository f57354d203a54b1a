-- ===== src/Names/Tests.antt =====
-- A name without a suffix, on which names.rs is run.
use rystemd.Prelude.{◌≡◌, refl, false, text_eq, codes}
use rystemd.Names.{is_plain_unit_name}

is_plain_unit_name-slash : is_plain_unit_name (codes "../demo.service") ≡ false
unfolding is_plain_unit_name text_eq
is_plain_unit_name-slash = refl
