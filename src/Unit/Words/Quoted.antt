-- ===== src/Unit/Words/Quoted.antt =====
-- Words in double quotes are read back.
use rystemd.Prelude.{
  ℕ, ◌≡◌, refl, ◌∙◌, ap, sym, true, false, ◌||◌, inl, inr, List, [], ◌∷◌, ◌++◌, ◌==◌, arith,
  if◌then◌else◌, Bool-cases, All, Text, is_empty, ok,
}
use mathlib.Core.List.{append_assoc, append-nil}
use rystemd.Unit.Words.{unquoted, double, tokenize_from, tokenize, unescape_one, flush}

-- A text with a backslash in front of each double quote and backslash.
abbrev escaped : Text → Text
escaped [] = []
escaped (c ∷ s) =
    let rest = escaped s in if c == b'"' || c == b'\\' then b'\\' ∷ c ∷ rest else c ∷ rest

-- The words, each in double quotes, with a space behind it.
abbrev pub quoted_words : List Text → Text
quoted_words [] = []
quoted_words (w ∷ ws) = b'"' ∷ escaped w ++ b'"' ∷ b' ' ∷ quoted_words ws

step-plain :
    (c : ℕ) (cur : Text) (words : List Text) (s : Text)
    → (c == b'"' || c == b'\\') ≡ false
    → tokenize_from double cur words (c ∷ s) ≡ tokenize_from double (cur ++ c ∷ []) words s
unfolding tokenize_from
step-plain c cur words [] h =
    let x : (c == b'"') ≡ false = ground arith in
    let y : (c == b'\\') ≡ false = ground arith in rw (x, y, tokenize_from) refl
step-plain c cur words (e ∷ r) h =
    let x : (c == b'"') ≡ false = ground arith in
    let y : (c == b'\\') ≡ false = ground arith in rw (x, y, tokenize_from) refl

step-escape :
    (c : ℕ) (cur : Text) (words : List Text) (s : Text)
    → (c == b'"' || c == b'\\') ≡ true
    → tokenize_from double cur words (b'\\' ∷ c ∷ s) ≡ tokenize_from double (cur ++ c ∷ []) words s
unfolding tokenize_from unescape_one
step-escape c cur words s h = elim (Bool-cases (c == b'"')) [
  | inl e ↦ let f : c ≡ b'"' = ground arith in rw f refl
  | inr e ↦ let f : c ≡ b'\\' = ground arith in rw f refl
]

-- Inside double quotes, an escaped text is read as itself.
tokenize_from-escaped :
    (w cur : Text) (words : List Text) (rest : Text)
    → tokenize_from double cur words (escaped w ++ rest)
      ≡ tokenize_from double (cur ++ w) words rest
tokenize_from-escaped [] cur words rest =
    ap (λ t. tokenize_from double t words rest) (sym (append-nil cur))
tokenize_from-escaped (c ∷ w) cur words rest = elim (Bool-cases (c == b'"' || c == b'\\')) [
  | inl e ↦ rw e (
      step-escape c cur words (escaped w ++ rest) e
      ∙ tokenize_from-escaped w (cur ++ c ∷ []) words rest
      ∙ ap (λ t. tokenize_from double t words rest) (append_assoc cur (c ∷ []) w))
  | inr e ↦ rw e (
      step-plain c cur words (escaped w ++ rest) e
      ∙ tokenize_from-escaped w (cur ++ c ∷ []) words rest
      ∙ ap (λ t. tokenize_from double t words rest) (append_assoc cur (c ∷ []) w))
]

open_quote :
    (words : List Text) (s : Text)
    → tokenize_from unquoted [] words (b'"' ∷ s) ≡ tokenize_from double [] words s
unfolding tokenize_from
open_quote words [] = refl
open_quote words (c ∷ s) = refl

close_quote :
    (cur : Text) (words : List Text) (s : Text)
    → tokenize_from double cur words (b'"' ∷ b' ' ∷ s)
      ≡ tokenize_from unquoted [] (flush cur words) s
unfolding tokenize_from
close_quote cur words [] = refl
close_quote cur words (c ∷ s) = refl

flush-word : (w : Text) (words : List Text) → is_empty w ≡ false → flush w words ≡ words ++ w ∷ []
flush-word [] words h = absurd (ground arith)
flush-word (c ∷ w) words h = refl

tokenize_from_nil : (words : List Text) → tokenize_from unquoted [] words [] ≡ ok words
unfolding tokenize_from
tokenize_from_nil words = refl

tokenize_from-quoted_words :
    (ws words : List Text)
    → All (λ w. is_empty w ≡ false) ws
    → tokenize_from unquoted [] words (quoted_words ws) ≡ ok (words ++ ws)
tokenize_from-quoted_words [] words v = tokenize_from_nil words ∙ ap ok (sym (append-nil words))
tokenize_from-quoted_words (w ∷ ws) words v =
    open_quote words (escaped w ++ b'"' ∷ b' ' ∷ quoted_words ws)
    ∙ tokenize_from-escaped w [] words (b'"' ∷ b' ' ∷ quoted_words ws)
    ∙ close_quote w words (quoted_words ws)
    ∙ ap (λ l. tokenize_from unquoted [] l (quoted_words ws)) (flush-word w words v.0)
    ∙ tokenize_from-quoted_words ws (words ++ w ∷ []) v.1
    ∙ ap ok (append_assoc words (w ∷ []) ws)

-- Words of any characters, none of them empty, each put in double quotes with a backslash in front of
-- its double quotes and backslashes, are the words that tokenize finds.
pub tokenize-quoted_words :
    (ws : List Text) → All (λ w. is_empty w ≡ false) ws → tokenize (quoted_words ws) ≡ ok ws
unfolding tokenize
tokenize-quoted_words ws v = tokenize_from-quoted_words ws [] v
