-- ===== src/Prelude/Lines.antt =====
-- The lines and the words of a text, as `str` cuts them.
use Prim.Native.Nat.{ℕ}
use native.Mathlib.Omega.{arith}
use mathlib.Core.Bool.{Bool, false, ◌&&◌, ◌||◌}
use mathlib.Core.Option.{Option, none, some}
use mathlib.Core.Path.{◌≡◌, refl}
use mathlib.Core.List.{◌++◌, List, [], ◌∷◌, map}
use rystemd.Prelude.Tests.{if◌then◌else◌, ◌==◌, leb}
use rystemd.Prelude.Texts.{split_once, contains_char, Text}

-- `char::is_whitespace`: the code points with the property White_Space.
abbrev pub is_whitespace : ℕ → Bool
is_whitespace c =
    leb 9 c && leb c 13
    || c == 32
    || c == 133
    || c == 160
    || c == 5760
    || leb 8192 c && leb c 8202
    || c == 8232
    || c == 8233
    || c == 8239
    || c == 8287
    || c == 12288

unfoldable pub trim_start : Text → Text
trim_start [] = []
trim_start (c ∷ s) = if is_whitespace c then trim_start s else c ∷ s

unfoldable pub trim_end : Text → Text
trim_end [] = []
trim_end (c ∷ s) = elim (trim_end s) [
  | [] ↦ if is_whitespace c then [] else c ∷ []
  | d ∷ t ↦ c ∷ d ∷ t
]

unfoldable pub trim : Text → Text
trim s = trim_start (trim_end s)

abbrev pub starts_with_char : ℕ → Text → Bool
starts_with_char c [] = false
starts_with_char c (d ∷ s) = d == c

-- `strip_prefix` and `strip_suffix` of one character.
abbrev pub strip_prefix : ℕ → Text → Option Text
strip_prefix c [] = none
strip_prefix c (d ∷ s) = if d == c then some s else none

unfoldable pub strip_suffix : ℕ → Text → Option Text
strip_suffix c [] = none
strip_suffix c (d ∷ s) = elim s [
  | [] ↦ if d == c then some [] else none
  | _ ∷ _ ↦ elim (strip_suffix c s) [ none ↦ none | some t ↦ some (d ∷ t) ]
]

pub strip_suffix_append : (c : ℕ) (l : Text) → strip_suffix c (l ++ c ∷ []) ≡ some l
unfolding strip_suffix
strip_suffix_append c [] = ground arith
strip_suffix_append c (d ∷ []) = ground arith
strip_suffix_append c (d ∷ e ∷ l) = rw (strip_suffix_append c (e ∷ l)) refl

pub split_once_absent : (c : ℕ) (s : Text) → contains_char c s ≡ false → split_once c s ≡ none
unfolding split_once
split_once_absent c [] h = refl
split_once_absent c (d ∷ s) h = ground (arith, split_once_absent c s)

pub split_once_append :
    (c : ℕ) (a b : Text) → contains_char c a ≡ false → split_once c (a ++ c ∷ b) ≡ some (a, b)
unfolding split_once
split_once_append c [] b h = ground arith
split_once_append c (d ∷ a) b h = ground (arith, split_once_append c a b)

abbrev pub or_else : Option Text → Text → Text
or_else none s = s
or_else (some t) s = t

-- A character in front of the first piece.
abbrev pub on_first : ℕ → List Text → List Text
on_first c [] = (c ∷ []) ∷ []
on_first c (l ∷ ls) = (c ∷ l) ∷ ls

-- `split_inclusive('\n')`: each piece ends behind its newline, and an empty rest is no piece.
unfoldable pub split_inclusive : Text → List Text
split_inclusive [] = []
split_inclusive (c ∷ s) =
    if c == 10 then (c ∷ []) ∷ split_inclusive s else on_first c (split_inclusive s)

-- A line without its `\n` or `\r\n`.
unfoldable pub strip_newline : Text → Text
unfolding strip_suffix
strip_newline piece = elim (strip_suffix 10 piece) [
  | none ↦ piece
  | some l ↦ or_else (strip_suffix 13 l) l
]

-- `str::lines`
unfoldable pub lines : Text → List Text
unfolding split_inclusive strip_newline
lines s = map strip_newline (split_inclusive s)
