-- ===== src/Unit/Escapes/Doubled.antt =====
-- Values whose backslashes are doubled are read back.
use rystemd.Prelude.{
  strip_suffix_append, ℕ, ◌≡◌, refl, ◌∙◌, ap, false, ◌||◌, inl, inr, none, some, [], ◌∷◌, ◌++◌,
  ◌==◌, arith, if◌then◌else◌, Bool-cases, Text, ok, starts_with_char,
}
use rystemd.Unit.Escapes.{cunescape, strip_whole_quotes, unquote_scalar}

-- A text with each backslash doubled.
abbrev pub doubled : Text → Text
doubled [] = []
doubled (c ∷ s) = let rest = doubled s in if c == b'\\' then b'\\' ∷ b'\\' ∷ rest else c ∷ rest

cunescape-plain : (c : ℕ) (s : Text) → (c == b'\\') ≡ false → cunescape (c ∷ s) ≡ c ∷ cunescape s
unfolding cunescape
cunescape-plain c [] h = rw (h, cunescape) refl
cunescape-plain c (e ∷ []) h = rw (h, cunescape) refl
cunescape-plain c (e ∷ a ∷ []) h = rw (h, cunescape) refl
cunescape-plain c (e ∷ a ∷ b ∷ s) h = rw (h, cunescape) refl

cunescape-backslash : (s : Text) → cunescape (b'\\' ∷ b'\\' ∷ s) ≡ b'\\' ∷ cunescape s
unfolding cunescape
cunescape-backslash [] = refl
cunescape-backslash (a ∷ []) = refl
cunescape-backslash (a ∷ b ∷ s) = refl

cunescape-doubled : (s : Text) → cunescape (doubled s) ≡ s
unfolding cunescape
cunescape-doubled [] = refl
cunescape-doubled (c ∷ s) = elim (Bool-cases (c == b'\\')) [
  | inl e ↦
      let f : c ≡ b'\\' = ground arith in
      rw e (cunescape-backslash (doubled s) ∙ rw f (ap (λ t. b'\\' ∷ t) (cunescape-doubled s)))
  | inr e ↦ rw e (cunescape-plain c (doubled s) e ∙ ap (λ t. c ∷ t) (cunescape-doubled s))
]

bare :
    (s : Text)
    → (starts_with_char b'"' s || starts_with_char b'\'' s) ≡ false
    → strip_whole_quotes (doubled s) ≡ none
unfolding strip_whole_quotes
bare [] h = refl
bare (c ∷ s) h =
    let x : (c == b'"') ≡ false = ground arith in
    let y : (c == b'\'') ≡ false = ground arith in
    elim (Bool-cases (c == b'\\')) [ inl e ↦ rw e refl | inr e ↦ rw (e, x, y) refl ]

in_double : (s : Text) → strip_whole_quotes (b'"' ∷ (doubled s ++ b'"' ∷ [])) ≡ some s
unfolding strip_whole_quotes
in_double s =
    rw (strip_suffix_append b'"' (doubled s), strip_whole_quotes) (ap some (cunescape-doubled s))

in_single : (s : Text) → strip_whole_quotes (b'\'' ∷ (s ++ b'\'' ∷ [])) ≡ some s
unfolding strip_whole_quotes
in_single s = strip_suffix_append b'\'' s

unquote_scalar-some : (raw s : Text) → strip_whole_quotes raw ≡ some s → unquote_scalar raw ≡ ok s
unfolding unquote_scalar
unquote_scalar-some raw s e = rw (e, unquote_scalar) refl

unquote_scalar-none :
    (raw : Text) → strip_whole_quotes raw ≡ none → unquote_scalar raw ≡ ok (cunescape raw)
unfolding unquote_scalar
unquote_scalar-none raw e = rw (e, unquote_scalar) refl

-- A value in double quotes with its backslashes doubled, a value in single quotes as it is, and a
-- value with its backslashes doubled that begins with no quote are all read as the value.
pub unquote_scalar_lem :
    (s : Text)
    → (unquote_scalar (b'"' ∷ doubled s ++ b'"' ∷ []) ≡ ok s)
      × (unquote_scalar (b'\'' ∷ s ++ b'\'' ∷ []) ≡ ok s)
      × (((starts_with_char b'"' s || starts_with_char b'\'' s) ≡ false)
          → unquote_scalar (doubled s) ≡ ok s)
unquote_scalar_lem s = (
  unquote_scalar-some (b'"' ∷ doubled s ++ b'"' ∷ []) s (in_double s),
  unquote_scalar-some (b'\'' ∷ s ++ b'\'' ∷ []) s (in_single s),
  λ h. unquote_scalar-none (doubled s) (bare s h) ∙ ap ok (cunescape-doubled s),
)
