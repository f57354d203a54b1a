-- ===== src/Prelude/Lists.antt =====
-- Lists measured by native numbers, membership by recursion (so that the tactics read it), and the
-- Boolean searches of the standard library's iterators.
use Prim.Native.Nat.{ℕ, zero, suc, ◌+◌}
use mathlib.Core.Path.{◌≡◌, refl, subst}
use mathlib.Core.Logic.{◌⊎◌, inl, inr}
use mathlib.Core.Bool.{Bool, true, false, ◌&&◌, ◌||◌}
use mathlib.Core.List.{List, [], ◌∷◌, ◌++◌}
use native.Mathlib.Omega.{arith}
use rystemd.Prelude.Tests.{if◌then◌else◌}

module _ {ℓ} {A : Type ℓ} where
  abbrev pub length : List A → ℕ
  length [] = 0
  length (x ∷ xs) = suc (length xs)

  abbrev pub drop : ℕ → List A → List A
  drop zero xs = xs
  drop (suc n) [] = []
  drop (suc n) (x ∷ xs) = drop n xs

  pub length-append : (xs ys : List A) → length (xs ++ ys) ≡ length xs + length ys
  length-append [] ys = omega arith
  length-append (x ∷ xs) ys = omega (arith, length-append xs ys)

  abbrev pub All {κ} : (A → Type κ) → List A → Type κ
  All P [] = Unit
  All P (x ∷ xs) = P x × All P xs

  -- `Iterator::any`, `Iterator::all` and `retain`.
  abbrev pub any : (A → Bool) → List A → Bool
  any p [] = false
  any p (x ∷ xs) = p x || any p xs

  abbrev pub all : (A → Bool) → List A → Bool
  all p [] = true
  all p (x ∷ xs) = p x && all p xs

  abbrev pub retain : (A → Bool) → List A → List A
  retain p [] = []
  retain p (x ∷ xs) = if p x then x ∷ retain p xs else retain p xs

module _ {ℓ} {A : Type ℓ} where
  pub any-append : (p : A → Bool) (a b : List A) → any p (a ++ b) ≡ (any p a || any p b)
  any-append p [] b = refl
  any-append p (c ∷ a) b = ground (arith, any-append p a b)

module _ {A : Type 0} where
  -- Membership, as an iterated sum.
  abbrev pub Has : A → List A → Type 0
  Has a [] = ⊥
  Has a (x ∷ xs) = (x ≡ a) ⊎ Has a xs

module _ {A : Type 0} (a : A) where
  pub Has-append_left : (xs ys : List A) → Has a xs → Has a (xs ++ ys)
  Has-append_left (x ∷ xs) ys (inl e) = inl e
  Has-append_left (x ∷ xs) ys (inr h) = inr (Has-append_left xs ys h)
  Has-append_left [] ys h = elim h [ ]

  pub Has-append_right : (xs ys : List A) → Has a ys → Has a (xs ++ ys)
  Has-append_right [] ys h = h
  Has-append_right (x ∷ xs) ys h = inr (Has-append_right xs ys h)

  pub Has-append : (xs ys : List A) → Has a (xs ++ ys) → Has a xs ⊎ Has a ys
  Has-append [] ys h = inr h
  Has-append (x ∷ xs) ys (inl e) = inl (inl e)
  Has-append (x ∷ xs) ys (inr h) = elim (Has-append xs ys h) [ inl l ↦ inl (inr l) | inr r ↦ inr r ]

  pub All-Has : (P : A → Type 0) (xs : List A) → All P xs → Has a xs → P a
  All-Has P (x ∷ xs) h (inl e) = subst P e h.0
  All-Has P (x ∷ xs) h (inr m) = All-Has P xs h.1 m
  All-Has P [] h m = elim m [ ]

module _ {A : Type 0} where
  pub All-of_Has : (P : A → Type 0) (xs : List A) → ((x : A) → Has x xs → P x) → All P xs
  All-of_Has P [] f = tt
  All-of_Has P (x ∷ xs) f = (f x (inl refl), All-of_Has P xs (λ y h. f y (inr h)))
