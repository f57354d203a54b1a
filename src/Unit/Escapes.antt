-- ===== src/Unit/Escapes.antt =====
-- rystemd/src/unit/parse.rs: the C escapes and the quotes of a scalar value.
pub mod Doubled
use rystemd.Prelude.{
  ℕ, ◌+◌, ◌-◌, ◌*◌, Bool, true, false, ◌&&◌, Option, none, some, List, [], ◌∷◌, ◌++◌, ◌==◌, leb,
  if◌then◌else◌, Text, is_digit, Result, ok, strip_suffix,
}

-- The escapes that stand for one character.
abbrev pub simple_escape : ℕ → Option ℕ
simple_escape e =
    if e == b'a'
    then some 7
    else if e == b'b'
    then some 8
    else if e == b'f'
    then some 12
    else if e == b'n'
    then some 10
    else if e == b'r'
    then some 13
    else if e == b't'
    then some 9
    else if e == b'v'
    then some 11
    else if e == b's'
    then some 32
    else if e == b'\\'
    then some b'\\'
    else if e == b'"'
    then some b'"'
    else if e == b'\''
    then some b'\''
    else none

abbrev pub escape_text : ℕ → Text
escape_text e = elim (simple_escape e) [ some d ↦ d ∷ [] | none ↦ b'\\' ∷ e ∷ [] ]

abbrev hex_digit : ℕ → Option ℕ
hex_digit c =
    if is_digit c
    then some (c - b'0')
    else if leb b'a' c && leb c b'f'
    then some (c - b'a' + 10)
    else if leb b'A' c && leb c b'F'
    then some (c - b'A' + 10)
    else none

-- `u8::from_str_radix` of two characters, of which the first may be a plus.
abbrev from_hex : ℕ → ℕ → Option ℕ
from_hex a b = elim (hex_digit b) [
  | none ↦ none
  | some y ↦
      if a == b'+' then some y else elim (hex_digit a) [ none ↦ none | some x ↦ some (16 * x + y) ]
]

abbrev pub hex_text : ℕ → ℕ → Text
hex_text a b = elim (from_hex a b) [ some v ↦ v ∷ [] | none ↦ b'\\' ∷ b'x' ∷ a ∷ b ∷ [] ]

-- A clause for each number of characters that an escape finds behind it.
unfoldable pub cunescape : Text → Text
cunescape [] = []
cunescape (c ∷ []) = elim (c == b'\\') [ true ↦ b'\\' ∷ [] | false ↦ c ∷ [] ]
cunescape (c ∷ e ∷ []) = elim (c == b'\\') [
  | true ↦ elim (e == b'x') [ true ↦ b'\\' ∷ b'x' ∷ [] | false ↦ escape_text e ]
  | false ↦ c ∷ cunescape (e ∷ [])
]
cunescape (c ∷ e ∷ a ∷ []) = elim (c == b'\\') [
  | true ↦ elim (e == b'x') [
    | true ↦ b'\\' ∷ b'x' ∷ a ∷ []
    | false ↦ escape_text e ++ cunescape (a ∷ [])
  ]
  | false ↦ c ∷ cunescape (e ∷ a ∷ [])
]
cunescape (c ∷ e ∷ a ∷ b ∷ s) = elim (c == b'\\') [
  | true ↦ elim (e == b'x') [
    | true ↦ hex_text a b ++ cunescape s
    | false ↦ escape_text e ++ cunescape (a ∷ b ∷ s)
  ]
  | false ↦ c ∷ cunescape (e ∷ a ∷ b ∷ s)
]

-- The two tests on the last character are those of `strip_suffix`.
unfoldable pub strip_whole_quotes : Text → Option Text
unfolding cunescape
strip_whole_quotes [] = none
strip_whole_quotes (c ∷ s) =
    if c == b'"'
    then elim (strip_suffix b'"' s) [ some inner ↦ some (cunescape inner) | none ↦ none ]
    else if c == b'\''
    then strip_suffix b'\'' s
    else none

unfoldable pub unquote_scalar : Text → Result Text Text
unfolding strip_whole_quotes cunescape
unquote_scalar raw = elim (strip_whole_quotes raw) [
  | some inner ↦ ok inner
  | none ↦ ok (cunescape raw)
]
