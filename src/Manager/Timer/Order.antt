-- ===== src/Manager/Timer/Order.antt =====
-- The heap of the timer wheel: pairs of a deadline and an id, in their lexicographic order.
use rystemd.Prelude.{
  ℕ, ◌≤◌, ◌≡◌, refl, true, false, ◌⊎◌, inl, inr, List, [], ◌∷◌, arith, Bool-cases, Has, All,
}
use rystemd.Manager.Timer.{pair_leb, heap_push}

-- `p` is popped no later than `q`.
abbrev pub ◌⊑◌ : ℕ × ℕ → ℕ × ℕ → Type 0
◌⊑◌ p q = pair_leb p q ≡ true

infix 50 ◌⊑◌
abbrev pub IsSorted : List (ℕ × ℕ) → Type 0
IsSorted [] = Unit
IsSorted (p ∷ h) = All (λ q. p ⊑ q) h × IsSorted h

pub ⊑_trans : (p q r : ℕ × ℕ) → p ⊑ q → q ⊑ r → p ⊑ r
⊑_trans (a, i) (b, j) (c, k) h l = ground arith

pub ⊑_total : (p q : ℕ × ℕ) → pair_leb p q ≡ false → q ⊑ p
⊑_total (a, i) (b, j) h = ground arith

pub ⊑→le : (p q : ℕ × ℕ) → p ⊑ q → p.0 ≤ q.0
⊑→le (a, i) (b, j) h = ground arith

All-⊑ : (p q : ℕ × ℕ) (h : List (ℕ × ℕ)) → p ⊑ q → All (λ r. q ⊑ r) h → All (λ r. p ⊑ r) h
All-⊑ p q [] l a = tt
All-⊑ p q (r ∷ h) l a = (⊑_trans p q r l a.0, All-⊑ p q h l a.1)

pub All-heap_push :
    (P : ℕ × ℕ → Type 0) (p : ℕ × ℕ) (h : List (ℕ × ℕ)) → P p → All P h → All P (heap_push p h)
unfolding heap_push
All-heap_push P p [] x a = (x, tt)
All-heap_push P p (q ∷ h) x a = elim (Bool-cases (pair_leb p q)) [
  | inl e ↦ rw e (x, a)
  | inr e ↦ rw e (a.0, All-heap_push P p h x a.1)
]

pub heap_push-IsSorted : (p : ℕ × ℕ) (h : List (ℕ × ℕ)) → IsSorted h → IsSorted (heap_push p h)
unfolding heap_push
heap_push-IsSorted p [] s = (tt, tt)
heap_push-IsSorted p (q ∷ h) s = elim (Bool-cases (pair_leb p q)) [
  | inl e ↦ rw e ((e, All-⊑ p q h e s.0), s)
  | inr e ↦ rw e (All-heap_push (λ r. q ⊑ r) p h (⊑_total p q e) s.0, heap_push-IsSorted p h s.1)
]

-- The heap holds what was pushed and what it held before.
pub Has-heap_push_self : (p : ℕ × ℕ) (h : List (ℕ × ℕ)) → Has p (heap_push p h)
unfolding heap_push
Has-heap_push_self p [] = inl refl
Has-heap_push_self p (q ∷ h) = elim (Bool-cases (pair_leb p q)) [
  | inl e ↦ rw e (inl refl)
  | inr e ↦ rw e (inr (Has-heap_push_self p h))
]

pub Has-heap_push_old : (p r : ℕ × ℕ) (h : List (ℕ × ℕ)) → Has r h → Has r (heap_push p h)
unfolding heap_push
Has-heap_push_old p r [] m = elim m [ ]
Has-heap_push_old p r (q ∷ h) m = elim (Bool-cases (pair_leb p q)) [
  | inl e ↦ rw e (inr m)
  | inr e ↦ rw e (elim m [ inl x ↦ inl x | inr x ↦ inr (Has-heap_push_old p r h x) ])
]

pub Has-heap_push : (p r : ℕ × ℕ) (h : List (ℕ × ℕ)) → Has r (heap_push p h) → (p ≡ r) ⊎ Has r h
unfolding heap_push
Has-heap_push p r [] m = m
Has-heap_push p r (q ∷ h) m = elim (Bool-cases (pair_leb p q)) [
  | inl e ↦ rw (e, heap_push) at m
  | inr e ↦ old (Has-heap_push p r h) (rw (e, heap_push) at m)
]
  where
    old :
        (Has r (heap_push p h) → (p ≡ r) ⊎ Has r h)
        → (q ≡ r) ⊎ Has r (heap_push p h)
        → (p ≡ r) ⊎ ((q ≡ r) ⊎ Has r h)
    old f (inl x) = inr (inl x)
    old f (inr x) = elim (f x) [ inl y ↦ inl y | inr y ↦ inr (inr y) ]
