-- ===== src/Prelude/Search.antt =====
-- `slice::binary_search` of the standard library: it halves the range while it is longer than one.
use Prim.Native.Nat.{ℕ, zero, suc, ◌+◌, ◌-◌, ◌/◌, ◌≤◌, ◌<◌}
use mathlib.Core.Path.{◌≡◌, refl, ap, subst, ◌∙◌}
use mathlib.Core.Logic.{◌↔◌, inl, inr}
use mathlib.Core.Bool.{Bool, true, false}
use mathlib.Core.Bool.{false≢true}
use mathlib.Core.List.{List, [], ◌∷◌}
use native.Mathlib.Omega.{arith}
use rystemd.Prelude.Tests.{if◌then◌else◌, ◌==◌, ==_iff, ltb, leb, Bool-cases}
use rystemd.Prelude.Lists.{length, Has, All, All-Has}

-- In ascending order, without duplicates.
abbrev pub Ascending : List ℕ → Type 0
Ascending [] = Unit
Ascending (x ∷ xs) = All (λ y. x < y) xs × Ascending xs

-- The element at an index, 0 behind the end.
unfoldable pub nth_or_zero : List ℕ → ℕ → ℕ
nth_or_zero [] i = 0
nth_or_zero (x ∷ xs) zero = x
nth_or_zero (x ∷ xs) (suc i) = nth_or_zero xs i

-- The loop, from the base and the size of the range; the number bounds its rounds.
unfoldable pub halve : ℕ → List ℕ → ℕ → ℕ → ℕ → ℕ
unfolding nth_or_zero
halve zero s v base size = base
halve (suc fuel) s v base size =
    let half = size / 2 in
    let rest =
      halve fuel s v (if ltb v (nth_or_zero s (base + half)) then base else base + half)
        (size - half) in
    if leb size 1 then base else rest

-- `binary_search(&v).is_ok()`; each round takes one at least from the size.
unfoldable pub binary_search : List ℕ → ℕ → Bool
unfolding halve
binary_search [] v = false
binary_search (x ∷ s) v =
    nth_or_zero (x ∷ s) (halve (length (x ∷ s)) (x ∷ s) v 0 (length (x ∷ s))) == v

Has-nth_or_zero : (s : List ℕ) (i : ℕ) → i < length s → Has (nth_or_zero s i) s
unfolding nth_or_zero
Has-nth_or_zero [] i l = absurd (omega arith)
Has-nth_or_zero (x ∷ s) zero l = inl refl
Has-nth_or_zero (x ∷ s) (suc i) l = inr (Has-nth_or_zero s i (omega arith))

index_of : (v : ℕ) (s : List ℕ) → Has v s → (i : ℕ) × (i < length s) × (nth_or_zero s i ≡ v)
unfolding nth_or_zero
index_of v [] h = absurd h
index_of v (x ∷ s) (inl e) = (0, omega arith, e)
index_of v (x ∷ s) (inr h) = let (i, l, e) = index_of v s h in (suc i, omega arith, e)

nth_or_zero-Ascending :
    (s : List ℕ) (i j : ℕ) → Ascending s → i < j → j < length s → nth_or_zero s i < nth_or_zero s j
unfolding nth_or_zero
nth_or_zero-Ascending [] i j a l m = absurd (omega arith)
nth_or_zero-Ascending (x ∷ s) i zero a l m = absurd (omega arith)
nth_or_zero-Ascending (x ∷ s) zero (suc j) a l m =
    All-Has (nth_or_zero s j) (λ y. x < y) s a.0 (Has-nth_or_zero s j (omega arith))
nth_or_zero-Ascending (x ∷ s) (suc i) (suc j) a l m =
    nth_or_zero-Ascending s i j a.1 (omega arith) (omega arith)

module _ (s : List ℕ) (v : ℕ) where
  halve_lt :
      (fuel base size : ℕ) → 1 ≤ size → base + size ≤ length s → halve fuel s v base size < length s
  unfolding halve
  halve_lt zero base size g l = omega arith
  halve_lt (suc fuel) base size g l = elim (Bool-cases (leb size 1)) [
    | inl e ↦ rw e (omega arith)
    | inr e ↦ rw e (elim (Bool-cases (ltb v (nth_or_zero s (base + size / 2)))) [
      | inl t ↦ rw t (halve_lt fuel base (size - size / 2) (ground arith) (ground arith))
      | inr t ↦
          rw t (halve_lt fuel (base + size / 2) (size - size / 2) (ground arith) (ground arith))
    ])
  ]

  below_mid :
      (base size i : ℕ)
      → Ascending s
      → nth_or_zero s i ≡ v
      → ltb v (nth_or_zero s (base + size / 2)) ≡ true
      → base + size ≤ length s
      → i < base + size
      → i < base + (size - size / 2)
  below_mid base size i a e u m l = elim (Bool-cases (ltb i (base + size / 2))) [
    | inl t ↦ ground (arith, t)
    | inr t ↦ elim (Bool-cases (i == base + size / 2)) [
      | inl q ↦
          let same = ap (nth_or_zero s) ((==_iff i (base + size / 2)).0 q) in absurd (ground arith)
      | inr q ↦
          let above = nth_or_zero-Ascending s (base + size / 2) i a (ground arith) (omega arith) in
          absurd (ground arith)
    ]
  ]

  above_mid :
      (base size i : ℕ)
      → Ascending s
      → nth_or_zero s i ≡ v
      → leb size 1 ≡ false
      → ltb v (nth_or_zero s (base + size / 2)) ≡ false
      → base + size ≤ length s
      → base + size / 2 ≤ i
  above_mid base size i a e t u m = elim (Bool-cases (ltb i (base + size / 2))) [
    | inl q ↦
        let below = nth_or_zero-Ascending s i (base + size / 2) a (ground arith) (ground arith) in
        absurd (ground arith)
    | inr q ↦ ground arith
  ]

  -- The range keeps the index of the value.
  halve_found :
      (fuel base size i : ℕ)
      → Ascending s
      → nth_or_zero s i ≡ v
      → base ≤ i
      → i < base + size
      → base + size ≤ length s
      → size ≤ fuel
      → halve fuel s v base size ≡ i
  unfolding halve
  halve_found zero base size i a e g l m f = absurd (omega arith)
  halve_found (suc fuel) base size i a e g l m f = elim (Bool-cases (leb size 1)) [
    | inl t ↦ rw t (ground arith)
    | inr t ↦ rw t (elim (Bool-cases (ltb v (nth_or_zero s (base + size / 2)))) [
      | inl u ↦ rw u (
          halve_found fuel base (size - size / 2) i a e g (below_mid base size i a e u m l)
            (ground arith) (ground arith))
      | inr u ↦ rw u (
          halve_found fuel (base + size / 2) (size - size / 2) i a e
            (above_mid base size i a e t u m) (ground arith) (ground arith) (ground arith))
    ])
  ]

-- On an ascending list it finds exactly the elements.
pub binary_search_iff : (s : List ℕ) (v : ℕ) → Ascending s → (binary_search s v ≡ true) ↔ Has v s
unfolding binary_search
binary_search_iff [] v a = (λ h. absurd (false≢true h), λ h. absurd h)
binary_search_iff (x ∷ s) v a =
    let l = halve_lt (x ∷ s) v (length (x ∷ s)) 0 (length (x ∷ s)) (omega arith) (omega arith) in
    (
      λ h.
          subst (λ w. Has w (x ∷ s)) ((==_iff _ v).0 h)
            (Has-nth_or_zero (x ∷ s) (halve (length (x ∷ s)) (x ∷ s) v 0 (length (x ∷ s))) l),
      λ h.
          let (i, m, e) = index_of v (x ∷ s) h in
          let f =
            halve_found (x ∷ s) v (length (x ∷ s)) 0 (length (x ∷ s)) i a e (omega arith)
              (omega arith) (omega arith) (omega arith) in
          (==_iff _ v).1 (ap (nth_or_zero (x ∷ s)) f ∙ e),
    )
