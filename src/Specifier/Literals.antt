-- ===== src/Specifier/Literals.antt =====
-- Expansion of texts that are put together from literals and specifiers.
use rystemd.Prelude.{
  ℕ, ◌≡◌, refl, ◌∙◌, ap, false, inl, inr, [], ◌∷◌, ◌++◌, ◌==◌, arith, if◌then◌else◌, Bool-cases,
  Text, contains_char,
}
use rystemd.Specifier.{SpecifierContext, specifier_text, expand}

-- A text with each percent sign doubled.
abbrev pub doubled : Text → Text
doubled [] = []
doubled (c ∷ s) = let rest = doubled s in if c == b'%' then b'%' ∷ b'%' ∷ rest else c ∷ rest

expand-plain :
    (ctx : SpecifierContext) (c : ℕ) (s : Text)
    → (c == b'%') ≡ false
    → expand ctx (c ∷ s) ≡ c ∷ expand ctx s
unfolding expand
expand-plain ctx c [] h = rw (h, expand) refl
expand-plain ctx c (d ∷ s) h = rw (h, expand) refl

expand-specifier :
    (ctx : SpecifierContext) (c : ℕ) (s : Text)
    → expand ctx (b'%' ∷ c ∷ s) ≡ specifier_text ctx c ++ expand ctx s
unfolding expand
expand-specifier ctx c s = refl

specifier_text-percent : (ctx : SpecifierContext) → specifier_text ctx b'%' ≡ b'%' ∷ []
unfolding specifier_text
specifier_text-percent ctx = refl

-- A literal with its percent signs doubled comes out as it is, a specifier behind it as its text, and
-- the rest is expanded in turn.
pub expand-doubled :
    (ctx : SpecifierContext) (literal : Text) (spec : ℕ) (rest : Text)
    → expand ctx (doubled literal ++ b'%' ∷ spec ∷ rest)
      ≡ literal ++ specifier_text ctx spec ++ expand ctx rest
expand-doubled ctx [] spec rest = expand-specifier ctx spec rest
expand-doubled ctx (c ∷ literal) spec rest = elim (Bool-cases (c == b'%')) [
  | inl e ↦
      let f : c ≡ b'%' = ground arith in
      rw e (
        expand-specifier ctx b'%' (doubled literal ++ b'%' ∷ spec ∷ rest)
        ∙ ap (λ t. t ++ expand ctx (doubled literal ++ b'%' ∷ spec ∷ rest))
            (specifier_text-percent ctx)
        ∙ rw f (ap (λ t. b'%' ∷ t) (expand-doubled ctx literal spec rest)))
  | inr e ↦ rw e (
      expand-plain ctx c (doubled literal ++ b'%' ∷ spec ∷ rest) e
      ∙ ap (λ t. c ∷ t) (expand-doubled ctx literal spec rest))
]

-- What a unit's name is made of, the type suffix left out: the name of a template's instance is a
-- prefix without `@`, the `@`, an instance without a dot, a dot and a type suffix without one; another
-- name is a stem without a dot, a dot and a type suffix, and has no `@`.
pub data IsMadeOf (ctx : SpecifierContext) : Text → Text → Type 0 where
  instantiated :
      (pre inst suffix : Text)
      → contains_char b'@' pre ≡ false
      → contains_char b'.' inst ≡ false
      → contains_char b'.' suffix ≡ false
      → ctx.unit_name ≡ pre ++ b'@' ∷ (inst ++ b'.' ∷ suffix)
      → IsMadeOf ctx pre inst
  plain :
      (stem suffix : Text)
      → contains_char b'.' stem ≡ false
      → contains_char b'@' (stem ++ b'.' ∷ suffix) ≡ false
      → ctx.unit_name ≡ stem ++ b'.' ∷ suffix
      → IsMadeOf ctx stem []
