-- ===== src/Calendar/Values.antt =====
-- The values of a field of calendar.rs: ascending, and exactly the matching ones of a range.
use rystemd.Prelude.{
  Ascending, binary_search_iff, ℕ, zero, suc, ◌+◌, ◌-◌, ◌≤◌, ◌<◌, ◌≡◌, ◌↔◌, refl, Bool, true, ◌&&◌,
  inl, inr, List, [], ◌∷◌, arith, leb, ◌==◌, ==_iff, Bool-cases, retain, Has, All-of_Has, All-Has,
}
use rystemd.Calendar.{Field, any_value, set, matches, range_from, range_incl, values_ge}

-- A field as the parser leaves it: the values in ascending order.
abbrev pub IsField : Field → Type 0
IsField any_value = Unit
IsField (set s) = Ascending s

Has-range_from : (v a n : ℕ) → Has v (range_from a n) ↔ ((a ≤ v) × (v < a + n))
unfolding range_from
Has-range_from v a zero = (λ m. absurd m, λ (l, u). absurd (omega arith))
Has-range_from v a (suc n) =
    let ih = Has-range_from v (a + 1) n in
    (
      λ m. elim m [
        | inl e ↦ (omega arith, omega arith)
        | inr h ↦ let (l, u) = ih.0 h in (omega arith, omega arith)
      ],
      λ (l, u). elim (Bool-cases (a == v)) [
        | inl e ↦ inl ((==_iff a v).0 e)
        | inr e ↦ inr (ih.1 (ground arith, omega arith))
      ],
    )

range_from-Ascending : (a n : ℕ) → Ascending (range_from a n)
unfolding range_from
range_from-Ascending a zero = tt
range_from-Ascending a (suc n) = (
  All-of_Has (λ y. a < y) (range_from (a + 1) n)
      (λ y m. let r = (Has-range_from y (a + 1) n).0 m in omega arith),
  range_from-Ascending (a + 1) n,
)

pub range_incl-Ascending : (a b : ℕ) → Ascending (range_incl a b)
unfolding range_incl
range_incl-Ascending a b = range_from-Ascending a (b + 1 - a)

pub Has-range_incl : (v a b : ℕ) → Has v (range_incl a b) ↔ ((a ≤ v) × (v ≤ b))
unfolding range_incl
Has-range_incl v a b =
    let r = Has-range_from v a (b + 1 - a) in
    (λ m. let (l, u) = r.0 m in (l, omega arith), λ (l, u). r.1 (l, omega arith))

Has-retain : (p : ℕ → Bool) (v : ℕ) (xs : List ℕ) → Has v (retain p xs) ↔ (Has v xs × (p v ≡ true))
Has-retain p v [] = (λ m. absurd m, λ (m, e). absurd m)
Has-retain p v (x ∷ xs) = elim (Bool-cases (p x)) [
  | inl t ↦ rw t (
    λ m. elim m [
      | inl e ↦ (inl e, rw (← e) t)
      | inr h ↦ let (k, y) = (Has-retain p v xs).0 h in (inr k, y)
    ],
    λ (m, y). elim m [ inl e ↦ inl e | inr h ↦ inr ((Has-retain p v xs).1 (h, y)) ],
  )
  | inr f ↦ rw f (
    λ h. let (k, y) = (Has-retain p v xs).0 h in (inr k, y),
    λ (m, y). elim m [ inl e ↦ cc | inr h ↦ (Has-retain p v xs).1 (h, y) ],
  )
]

retain-Ascending : (p : ℕ → Bool) (xs : List ℕ) → Ascending xs → Ascending (retain p xs)
retain-Ascending p [] a = tt
retain-Ascending p (x ∷ xs) a = elim (Bool-cases (p x)) [
  | inl t ↦ rw t (
    All-of_Has (λ y. x < y) (retain p xs)
        (λ y m. All-Has y (λ z. x < z) xs a.0 ((Has-retain p y xs).0 m).0),
    retain-Ascending p xs a.1,
  )
  | inr f ↦ rw f (retain-Ascending p xs a.1)
]

-- The values that a field allows.
abbrev pub Allows : Field → ℕ → Type 0
Allows any_value v = Unit
Allows (set s) v = Has v s

pub matches_iff : (f : Field) (v : ℕ) → IsField f → (matches f v ≡ true) ↔ Allows f v
unfolding matches
matches_iff any_value v s = (λ h. tt, λ h. refl)
matches_iff (set s) v a = binary_search_iff s v a

pub values_ge-Ascending : (f : Field) (ge max : ℕ) → IsField f → Ascending (values_ge f ge max)
unfolding values_ge
values_ge-Ascending any_value ge max s = range_incl-Ascending ge max
values_ge-Ascending (set s) ge max a = retain-Ascending _ s a

-- The values that the loops go through are the matching ones from `ge` to `max`.
pub Has-values_ge :
    (f : Field) (v ge max : ℕ)
    → IsField f
    → Has v (values_ge f ge max) ↔ ((matches f v ≡ true) × (ge ≤ v) × (v ≤ max))
unfolding values_ge matches
Has-values_ge any_value v ge max s =
    let r = Has-range_incl v ge max in
    (λ m. let (l, u) = r.0 m in (refl, l, u), λ (_, l, u). r.1 (l, u))
Has-values_ge (set s) v ge max a =
    let r = Has-retain (λ w. leb ge w && leb w max) v s in
    let q = binary_search_iff s v a in
    (
      λ m. let (h, t) = r.0 m in (q.1 h, ground arith, ground arith),
      λ (t, l, u). r.1 (q.0 t, ground arith),
    )
