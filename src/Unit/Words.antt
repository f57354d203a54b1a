-- ===== src/Unit/Words.antt =====
-- rystemd/src/unit/parse.rs: the escapes, the quotes and the words of a directive's value.
pub mod Quoted
use rystemd.Prelude.{
  ℕ, ◌+◌, ◌-◌, ◌*◌, Bool, true, false, ◌&&◌, ◌||◌, Option, none, some, List, [], ◌∷◌, ◌++◌, ◌==◌,
  leb, if◌then◌else◌, Text, codes, is_empty, is_digit, is_whitespace, Result, ok, err, length,
  strip_suffix, strip_prefix,
}

-- The escape of one character that `cunescape` and `tokenize` share; nothing where they differ.
abbrev control_escape : ℕ → Option ℕ
control_escape c =
    if c == b'a'
    then some 7
    else if c == b'b'
    then some 8
    else if c == b'f'
    then some 12
    else if c == b'n'
    then some 10
    else if c == b'r'
    then some 13
    else if c == b't'
    then some 9
    else if c == b'v'
    then some 11
    else if c == b's'
    then some 32
    else none

unfoldable pub unescape_one : ℕ → ℕ
unescape_one c = elim (control_escape c) [ some d ↦ d | none ↦ c ]

pub data Mode : Type 0 where
  unquoted single double : Mode

-- The arms of the match on a character outside quotes.
pub data Arm : Type 0 where
  to_single to_double space escape other : Arm

abbrev pub unquoted_arm : ℕ → Arm
unquoted_arm c =
    if c == b'\''
    then to_single
    else if c == b'"'
    then to_double
    else if is_whitespace c
    then space
    else if c == b'\\'
    then escape
    else other

abbrev pub single_arm : ℕ → Arm
single_arm c = if c == b'\'' then to_single else other

abbrev pub double_arm : ℕ → Arm
double_arm c = if c == b'"' then to_double else if c == b'\\' then escape else other

-- The current word among the words, unless it is empty.
abbrev pub flush : Text → List Text → List Text
flush [] words = words
flush (c ∷ cur) words = words ++ (c ∷ cur) ∷ []

-- The end of the text, behind the loop.
abbrev pub finish : Mode → Text → List Text → Result (List Text) Text
finish unquoted cur words = ok (flush cur words)
finish single cur words = err (codes "unbalanced single quote")
finish double cur words = err (codes "unbalanced double quote")

-- The loop; a last character is a clause of its own, since an escape takes the character behind it.
unfoldable pub tokenize_from : Mode → Text → List Text → Text → Result (List Text) Text
unfolding unescape_one
tokenize_from mode cur words [] = finish mode cur words
tokenize_from unquoted cur words (c ∷ []) = elim (unquoted_arm c) [
  | to_single ↦ finish single cur words
  | to_double ↦ finish double cur words
  | space ↦ finish unquoted [] (flush cur words)
  | escape ↦ finish unquoted (cur ++ b'\\' ∷ []) words
  | other ↦ finish unquoted (cur ++ c ∷ []) words
]
tokenize_from unquoted cur words (c ∷ e ∷ r) = elim (unquoted_arm c) [
  | to_single ↦ tokenize_from single cur words (e ∷ r)
  | to_double ↦ tokenize_from double cur words (e ∷ r)
  | space ↦ tokenize_from unquoted [] (flush cur words) (e ∷ r)
  | escape ↦ tokenize_from unquoted (cur ++ unescape_one e ∷ []) words r
  | other ↦ tokenize_from unquoted (cur ++ c ∷ []) words (e ∷ r)
]
tokenize_from single cur words (c ∷ s) = elim (single_arm c) [
  | to_single ↦ tokenize_from unquoted cur words s
  | _ ↦ tokenize_from single (cur ++ c ∷ []) words s
]
tokenize_from double cur words (c ∷ []) = elim (double_arm c) [
  | to_double ↦ finish unquoted cur words
  | escape ↦ finish double (cur ++ b'\\' ∷ []) words
  | _ ↦ finish double (cur ++ c ∷ []) words
]
tokenize_from double cur words (c ∷ e ∷ r) = elim (double_arm c) [
  | to_double ↦ tokenize_from unquoted cur words (e ∷ r)
  | escape ↦ tokenize_from double (cur ++ unescape_one e ∷ []) words r
  | _ ↦ tokenize_from double (cur ++ c ∷ []) words (e ∷ r)
]

unfoldable pub tokenize : Text → Result (List Text) Text
unfolding tokenize_from
tokenize raw = tokenize_from unquoted [] [] raw
