-- ===== src/Names.antt =====
-- rystemd/src/names.rs: names of units.
pub mod Normal
pub mod Tests
use rystemd.Prelude.{
  ℕ, Bool, true, false, not, ◌&&◌, [], ◌++◌, if◌then◌else◌, Text, text_eq, codes, contains_char,
  is_empty,
}

unfoldable pub normalize_unit : Text → Text
normalize_unit name = if contains_char b'.' name then name else name ++ codes ".service"

unfoldable pub is_plain_unit_name : Text → Bool
is_plain_unit_name name =
    not (is_empty name)
    && not (text_eq name (codes "."))
    && not (text_eq name (codes ".."))
    && not (contains_char b'/' name)
    && not (contains_char b'\\' name)
