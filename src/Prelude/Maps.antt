-- ===== src/Prelude/Maps.antt =====
-- `HashMap` as a list of pairs with distinct keys. The laws hold for every order of the pairs.
use mathlib.Core.Path.{◌≡◌, refl}
use mathlib.Core.Logic.{◌↔◌, ◌⊎◌, inl, inr, ◌≢◌}
use mathlib.Core.Bool.{Bool, true, false}
use mathlib.Core.Option.{Option, none, some}
use mathlib.Core.List.{List, [], ◌∷◌}
use Prim.Native.Nat.{ℕ}
use native.Mathlib.Omega.{arith}
use rystemd.Prelude.Lists.{any}
use rystemd.Prelude.Tests.{Bool-cases, if◌then◌else◌, ◌==◌, ==_iff}
use rystemd.Prelude.Texts.{Text, text_eq, text_eq_iff}

-- Keys with a decided equality.
pub record Key {ℓ} (K : Type ℓ) : Type ℓ where
  pub eq : K → K → Bool
  pub eq_iff : (a b : K) → (eq a b ≡ true) ↔ (a ≡ b)

instance abbrev pub nat_key : Key ℕ
nat_key = record { eq = ◌==◌; eq_iff = ==_iff }

instance abbrev pub text_key : Key Text
text_key = record { eq = text_eq; eq_iff = text_eq_iff }

abbrev pub Map {ℓ κ} : Type ℓ → Type κ → Type (ℓ ⊔ κ)
Map K V = List (K × V)

-- `Option::filter`.
abbrev pub keep {ℓ} : {A : Type ℓ} → (A → Bool) → Option A → Option A
keep p none = none
keep p (some a) = if p a then some a else none

module _ {ℓ κ} {K : Type ℓ} {V : Type κ} ⦃e : Key K⦄ where
  unfoldable pub get : K → Map K V → Option V
  get k [] = none
  get k ((j, v) ∷ m) = if e.eq j k then some v else get k m

  unfoldable pub remove : K → Map K V → Map K V
  remove k [] = []
  remove k ((j, v) ∷ m) = if e.eq j k then remove k m else (j, v) ∷ remove k m

  unfoldable pub insert : K → V → Map K V → Map K V
  unfolding remove
  insert k v m = (k, v) ∷ remove k m

  unfoldable pub contains_key : K → Map K V → Bool
  unfolding get
  contains_key k m = elim (get k m) [ none ↦ false | some _ ↦ true ]

  abbrev pub Distinct : Map K V → Type κ
  Distinct [] = Unit
  Distinct ((k, v) ∷ m) = (get k m ≡ none) × Distinct m

  pub get-remove :
      (k j : K) (m : Map K V) → get j (remove k m) ≡ (if e.eq k j then none else get j m)
  unfolding get remove
  get-remove k j [] = ground arith
  get-remove k j ((i, v) ∷ m) =
      ground (arith, e.eq_iff i k, e.eq_iff i j, e.eq_iff k j, get-remove k j m)

  pub get-insert :
      (k j : K) (v : V) (m : Map K V)
      → get j (insert k v m) ≡ (if e.eq k j then some v else get j m)
  unfolding get insert
  get-insert k j v m = ground (arith, get-remove k j m)

  pub get-insert_cases :
      (k j : K) (v w : V) (m : Map K V)
      → get j (insert k v m) ≡ some w
      → ((k ≡ j) × (v ≡ w)) ⊎ ((k ≢ j) × (get j m ≡ some w))
  get-insert_cases k j v w m h = elim (Bool-cases (e.eq k j)) [
    | inl t ↦ inl ((e.eq_iff k j).0 t, ground (arith, get-insert k j v m))
    | inr f ↦ inr (λ p. ground (arith, e.eq_iff k j), ground (arith, get-insert k j v m))
  ]

  pub get-remove_cases :
      (k j : K) (w : V) (m : Map K V) → get j (remove k m) ≡ some w → (k ≢ j) × (get j m ≡ some w)
  get-remove_cases k j w m h =
      (λ p. ground (arith, e.eq_iff k j, get-remove k j m), ground (arith, get-remove k j m))

  pub remove-Distinct : (k : K) (m : Map K V) → Distinct m → Distinct (remove k m)
  unfolding remove
  remove-Distinct k [] d = tt
  remove-Distinct k ((j, v) ∷ m) d =
      ground (arith, get-remove k j m, e.eq_iff k j, remove-Distinct k m d.1)

  pub insert-Distinct : (k : K) (v : V) (m : Map K V) → Distinct m → Distinct (insert k v m)
  unfolding insert
  insert-Distinct k v m d = ground (arith, get-remove k k m, e.eq_iff k k, remove-Distinct k m d)

  -- `retain` with a test on the value.
  unfoldable pub retain_values : (V → Bool) → Map K V → Map K V
  retain_values p [] = []
  retain_values p ((k, v) ∷ m) = if p v then (k, v) ∷ retain_values p m else retain_values p m

  pub get-retain_values :
      (p : V → Bool) (k : K) (m : Map K V)
      → Distinct m
      → get k (retain_values p m) ≡ keep p (get k m)
  unfolding get retain_values
  get-retain_values p k [] d = refl
  get-retain_values p k ((j, v) ∷ m) d = ground (arith, e.eq_iff j k, get-retain_values p k m d.1)

  pub retain_values-Distinct :
      (p : V → Bool) (m : Map K V) → Distinct m → Distinct (retain_values p m)
  unfolding retain_values
  retain_values-Distinct p [] d = tt
  retain_values-Distinct p ((j, v) ∷ m) d =
      ground (arith, get-retain_values p j m d.1, retain_values-Distinct p m d.1)

-- `get_mut` with a write, and `values_mut` with one.
module _ {ℓ κ} {K : Type ℓ} {V : Type κ} ⦃e : Key K⦄ where
  unfoldable pub adjust : K → (V → V) → Map K V → Map K V
  adjust k f [] = []
  adjust k f ((j, v) ∷ m) = if e.eq j k then (j, f v) ∷ m else (j, v) ∷ adjust k f m

  pub get-adjust_same :
      (k : K) (f : V → V) (m : Map K V) (v : V)
      → get k m ≡ some v
      → get k (adjust k f m) ≡ some (f v)
  unfolding get adjust
  get-adjust_same k f [] v h = cc
  get-adjust_same k f ((j, w) ∷ m) v h = elim (Bool-cases (e.eq j k)) [
    | inl t ↦ rw t (ground arith)
    | inr n ↦ ground (arith, get-adjust_same k f m v)
  ]

  pub get-adjust_other :
      (k j : K) (f : V → V) (m : Map K V) → k ≢ j → get j (adjust k f m) ≡ get j m
  unfolding get adjust
  get-adjust_other k j f [] ne = refl
  get-adjust_other k j f ((i, w) ∷ m) ne =
      ground (arith, e.eq_iff i k, e.eq_iff i j, e.eq_iff k j, get-adjust_other k j f m ne)

  -- What is found behind a write was there, as it was or before the write.
  pub get-adjust_cases :
      (k j : K) (f : V → V) (m : Map K V) (w : V)
      → get j (adjust k f m) ≡ some w
      → (v : V) × (get j m ≡ some v) × ((w ≡ v) ⊎ (w ≡ f v))
  unfolding get adjust
  get-adjust_cases k j f [] w h = cc
  get-adjust_cases k j f ((i, u) ∷ m) w h = elim (Bool-cases (e.eq i k)) [
    | inl t ↦ elim (Bool-cases (e.eq i j)) [
      | inl q ↦ (u, rw q refl, inr (ground arith))
      | inr q ↦ (w, rw q (ground arith), inl refl)
    ]
    | inr t ↦ elim (Bool-cases (e.eq i j)) [
      | inl q ↦ (u, rw q refl, inl (ground arith))
      | inr q ↦ let (v, g, c) = get-adjust_cases k j f m w (ground arith) in (v, rw q g, c)
    ]
  ]

  pub get-adjust-none :
      (k j : K) (f : V → V) (m : Map K V) → get j m ≡ none → get j (adjust k f m) ≡ none
  unfolding get adjust
  get-adjust-none k j f [] h = refl
  get-adjust-none k j f ((i, w) ∷ m) h =
      ground (arith, e.eq_iff i k, e.eq_iff i j, get-adjust-none k j f m)

  unfoldable pub map_values : (V → V) → Map K V → Map K V
  map_values f [] = []
  map_values f ((j, v) ∷ m) = (j, f v) ∷ map_values f m

  pub get-map_values_cases :
      (f : V → V) (j : K) (m : Map K V) (w : V)
      → get j (map_values f m) ≡ some w
      → (v : V) × (get j m ≡ some v) × (w ≡ f v)
  unfolding get map_values
  get-map_values_cases f j [] w h = cc
  get-map_values_cases f j ((i, u) ∷ m) w h = elim (Bool-cases (e.eq i j)) [
    | inl q ↦ (u, rw q refl, ground arith)
    | inr q ↦ let (v, g, c) = get-map_values_cases f j m w (ground arith) in (v, rw q g, c)
  ]

  pub get-map_values :
      (f : V → V) (j : K) (m : Map K V) (v : V)
      → get j m ≡ some v
      → get j (map_values f m) ≡ some (f v)
  unfolding get map_values
  get-map_values f j [] v h = cc
  get-map_values f j ((i, u) ∷ m) v h = ground (arith, get-map_values f j m v)

  pub get-map_values-none :
      (f : V → V) (j : K) (m : Map K V) → get j m ≡ none → get j (map_values f m) ≡ none
  unfolding get map_values
  get-map_values-none f j [] h = refl
  get-map_values-none f j ((i, u) ∷ m) h = ground (arith, get-map_values-none f j m)

module _ {ℓ κ} {K : Type ℓ} {V : Type κ} where
  abbrev pub keys : Map K V → List K
  keys [] = []
  keys ((k, v) ∷ m) = k ∷ keys m

  abbrev pub values : Map K V → List V
  values [] = []
  values ((k, v) ∷ m) = v ∷ values m

-- A search of the values finds what `get` finds.
module _ {ℓ} {K : Type ℓ} {V : Type 0} ⦃e : Key K⦄ (p : V → Bool) where
  pub any-values-get :
      (m : Map K V)
      → Distinct m
      → any p (values m) ≡ true
      → (j : K) × (v : V) × (get j m ≡ some v) × (p v ≡ true)
  unfolding get
  any-values-get [] d h = cc
  any-values-get ((i, v) ∷ m) d h = elim (Bool-cases (p v)) [
    | inl t ↦ (i, v, ground (arith, e.eq_iff i i), t)
    | inr f ↦
        let (j, w, g, t) = any-values-get m d.1 (ground arith) in
        (j, w, ground (arith, e.eq_iff i j), t)
  ]

  pub get-any-values :
      (m : Map K V) (j : K) (v : V) → get j m ≡ some v → p v ≡ true → any p (values m) ≡ true
  unfolding get
  get-any-values [] j v g t = cc
  get-any-values ((i, w) ∷ m) j v g t = ground (arith, get-any-values m j v)
