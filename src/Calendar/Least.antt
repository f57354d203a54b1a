-- ===== src/Calendar/Least.antt =====
-- Loops that return the first hit of an ascending search return the least hit.
use rystemd.Prelude.{
  Ascending, ℕ, ◌<◌, refl, sym, subst, inl, inr, Option, none, some, List, [], ◌∷◌, Option-cases,
  Has, All-Has,
}
use rystemd.Calendar.{find_map}

-- `o` is the least value with `Q`, or there is none.
abbrev pub Least : {R : Type 0} → (R → Type 0) → (R → R → Type 0) → Option R → Type 0
Least {R} Q Le none = (r : R) → ¬ Q r
Least {R} Q Le (some r) = Q r × ((s : R) → Q s → Le r s)

pub Least-iff :
    {R : Type 0} (P Q : R → Type 0) (Le : R → R → Type 0) (o : Option R)
    → ((r : R) → P r → Q r)
    → ((r : R) → Q r → P r)
    → Least P Le o
    → Least Q Le o
Least-iff P Q Le none f g h = λ r q. h r (g r q)
Least-iff P Q Le (some r) f g h = (f r h.0, λ s q. h.1 s (g s q))

module _ {R : Type 0} (f : ℕ → Option R) (Q : ℕ → R → Type 0) (Le : R → R → Type 0)
    (up : (x y : ℕ) (r s : R) → x < y → Q x r → Q y s → Le r s) where
  pub find_map-Least :
      (xs : List ℕ)
      → Ascending xs
      → ((x : ℕ) → Has x xs → Least (Q x) Le (f x))
      → Least (λ r. (x : ℕ) × Has x xs × Q x r) Le (find_map f xs)
  unfolding find_map
  find_map-Least [] a h = λ r (x, m, q). m
  find_map-Least (x ∷ xs) a h = elim (Option-cases (f x)) [
    | inl e ↦
        let miss : (r : R) → ¬ Q x r = subst (Least (Q x) Le) e (h x (inl refl)) in
        rw (e, find_map)
          (Least-iff _ _ Le (find_map f xs) (λ r (y, m, q). (y, inr m, q))
            (λ r (y, m, q). elim m [
              | inl p ↦ absurd (miss r (subst (λ z. Q z r) (sym p) q))
              | inr n ↦ (y, n, q)
            ])
            (find_map-Least xs a.1 (λ y m. h y (inr m))))
    | inr (r, e) ↦
        let hit : Q x r × ((s : R) → Q x s → Le r s) = subst (Least (Q x) Le) e (h x (inl refl)) in
        rw (e, find_map)
          (
            (x, inl refl, hit.0),
            λ s (y, m, q). elim m [
              | inl p ↦ hit.1 s (subst (λ z. Q z s) (sym p) q)
              | inr n ↦ up x y r s (All-Has y (λ z. x < z) xs a.0 n) hit.0 q
            ],
          )
  ]
