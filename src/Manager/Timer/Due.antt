-- ===== src/Manager/Timer/Due.antt =====
-- `pop_due` and `next_deadline` of timer.rs against the set of live entries.
use rystemd.Prelude.{
  ◌≢◌, All-of_Has, ℕ, ◌≤◌, ◌≡◌, ◌↔◌, refl, sym, ap, subst, ◌∙◌, ◌⊎◌, inl, inr, Option, none, some,
  List, [], ◌∷◌, arith, ltb, ◌==◌, ==_iff, Bool-cases, Option-cases, Has, All, All-Has, Map, get,
  remove, nat_key, Distinct, keep, get-remove, get-remove_cases, remove-Distinct,
}
use rystemd.Manager.Timer.{TimerEntry, TimerWheel, push_found, due_loop, pop_due}
use rystemd.Manager.Timer.Order.{◌⊑◌, ⊑→le}
use rystemd.Manager.Timer.Invariant.{Covers, Inv}

-- A pop and the removal of its id leave a covered heap.
Covers-pop :
    (t i : ℕ) (h : List (ℕ × ℕ)) (m : Map ℕ TimerEntry)
    → Covers ((t, i) ∷ h) m
    → Covers h (remove i m)
Covers-pop t i h m c = record {
  sorted = c.sorted.1;
  listed = λ j e g.
      let (n, g') = get-remove_cases i j e m g in let r = c.listed j e g' in (later n r.0, r.1);
  agrees = λ j u e p g. c.agrees j u e (inr p) (get-remove_cases i j e m g).1;
}
  where
    later : {j u : ℕ} → ¬ (i ≡ j) → Has (u, j) ((t, i) ∷ h) → Has (u, j) h
    later n (inl x) = absurd (n (ap (λ (r : ℕ × ℕ). r.1) x))
    later n (inr x) = x

-- Nothing live is due before the head of the heap.
head_le :
    (t i : ℕ) (h : List (ℕ × ℕ)) (m : Map ℕ TimerEntry)
    → Covers ((t, i) ∷ h) m
    → (j : ℕ) (e : TimerEntry) → get j m ≡ some e
    → t ≤ e.when
head_le t i h m c j e g = elim (c.listed j e g).0 [
  | inl x ↦ let y = ap (λ (r : ℕ × ℕ). r.0) x in omega arith
  | inr x ↦ ⊑→le (t, i) (e.when, j) (All-Has (e.when, j) (λ q. (t, i) ⊑ q) h c.sorted.0 x)
]

-- The entries that stay are those with a later deadline.
due_loop-entries :
    (now : ℕ) (h : List (ℕ × ℕ)) (m : Map ℕ TimerEntry)
    → Covers h m
    → (j : ℕ) → get j (due_loop now h m).entries ≡ keep (λ e. ltb now e.when) (get j m)
unfolding due_loop
due_loop-entries now [] m c j = elim (Option-cases (get j m)) [
  | inl e ↦ rw e
  | inr (e, g) ↦ absurd (c.listed j e g).0
]
due_loop-entries now ((t, i) ∷ h) m c j = elim (Bool-cases (ltb now t)) [
  | inl late ↦ elim (Option-cases (get j m)) [
    | inl e ↦ ground arith
    | inr (e, g) ↦ ground (arith, head_le t i h m c j e g)
  ]
  | inr due ↦ elim (Option-cases (get j m)) [
    | inl e ↦
        ground
          (arith, due_loop-entries now h (remove i m) (Covers-pop t i h m c) j, get-remove i j m)
    | inr (e, g) ↦ elim (Bool-cases (i == j)) [
      | inl same ↦
          let k = c.agrees j t e (inl (ap (λ (x : ℕ). (t, x)) ((==_iff i j).0 same))) g in
          ground
            (arith, due_loop-entries now h (remove i m) (Covers-pop t i h m c) j, get-remove i j m)
      | inr other ↦
          ground
            (arith, due_loop-entries now h (remove i m) (Covers-pop t i h m c) j, get-remove i j m)
    ]
  ]
]

due_loop-Covers :
    (now : ℕ) (h : List (ℕ × ℕ)) (m : Map ℕ TimerEntry)
    → Covers h m
    → Covers (due_loop now h m).heap (due_loop now h m).entries
unfolding due_loop
due_loop-Covers now [] m c = c
due_loop-Covers now ((t, i) ∷ h) m c = elim (Bool-cases (ltb now t)) [
  | inl late ↦ rw late c
  | inr due ↦ rw due (due_loop-Covers now h (remove i m) (Covers-pop t i h m c))
]

push_found_cases :
    (o : Option TimerEntry) (e : TimerEntry) (out : List TimerEntry)
    → Has e (push_found o out)
    → (o ≡ some e) ⊎ Has e out
push_found_cases none e out x = inr x
push_found_cases (some f) e out (inl x) = inl (ap some x)
push_found_cases (some f) e out (inr x) = inr x

push_found_old :
    (o : Option TimerEntry) (e : TimerEntry) (out : List TimerEntry)
    → Has e out
    → Has e (push_found o out)
push_found_old none e out x = x
push_found_old (some f) e out x = inr x

-- What `pop_due` returns is live and due.
due_loop_sound :
    (now : ℕ) (h : List (ℕ × ℕ)) (m : Map ℕ TimerEntry) (e : TimerEntry)
    → Covers h m
    → Has e (due_loop now h m).out
    → (get e.id m ≡ some e) × (e.when ≤ now)
unfolding due_loop
due_loop_sound now [] m e c x = elim x [ ]
due_loop_sound now ((t, i) ∷ h) m e c x = elim (Bool-cases (ltb now t)) [
  | inl late ↦ absurd (rw (late, due_loop) at x)
  | inr due ↦ elim (push_found_cases (get i m) e _ (rw (due, due_loop) at x)) [
    | inl g ↦
        let named = (c.listed i e g).1 in
        let le = c.agrees i t e (inl refl) g in
        (subst (λ x. get x m ≡ some e) (sym named) g, ground arith)
    | inr y ↦
        let (g, l) = due_loop_sound now h (remove i m) e (Covers-pop t i h m c) y in
        ((get-remove_cases i e.id e m g).1, l)
  ]
]

-- What is live and due is returned.
due_loop_complete :
    (now : ℕ) (h : List (ℕ × ℕ)) (m : Map ℕ TimerEntry) (e : TimerEntry)
    → Covers h m
    → get e.id m ≡ some e
    → e.when ≤ now
    → Has e (due_loop now h m).out
unfolding due_loop
due_loop_complete now [] m e c g l = absurd (c.listed e.id e g).0
due_loop_complete now ((t, i) ∷ h) m e c g l = elim (Bool-cases (ltb now t)) [
  | inl late ↦ absurd (ground (arith, head_le t i h m c e.id e g))
  | inr due ↦ elim (Bool-cases (i == e.id)) [
    | inl same ↦ rw (due, (==_iff i e.id).0 same, g) (inl refl)
    | inr other ↦ rw due (
        push_found_old (get i m) e _ (
          due_loop_complete now h (remove i m) e (Covers-pop t i h m c)
            (ground (arith, get-remove i e.id m)) l))
  ]
]

-- Earlier deadlines first, then the older id, and none twice.
abbrev pub Before : TimerEntry → TimerEntry → Type 0
Before e f = ((e.when, e.id) ⊑ (f.when, f.id)) × (e.id ≢ f.id)

abbrev pub InOrder : List TimerEntry → Type 0
InOrder [] = Unit
InOrder (e ∷ es) = All (Before e) es × InOrder es

push_found-InOrder :
    (o : Option TimerEntry) (out : List TimerEntry)
    → ((e f : TimerEntry) → o ≡ some e → Has f out → Before e f)
    → InOrder out
    → InOrder (push_found o out)
push_found-InOrder none out first s = s
push_found-InOrder (some e) out first s = (All-of_Has (Before e) out (λ f. first e f refl), s)

due_loop-InOrder :
    (now : ℕ) (h : List (ℕ × ℕ)) (m : Map ℕ TimerEntry)
    → Covers h m
    → InOrder (due_loop now h m).out
unfolding due_loop
due_loop-InOrder now [] m c = tt
due_loop-InOrder now ((t, i) ∷ h) m c = elim (Bool-cases (ltb now t)) [
  | inl late ↦ rw late tt
  | inr due ↦ rw due (
      push_found-InOrder (get i m) _ first
        (due_loop-InOrder now h (remove i m) (Covers-pop t i h m c)))
]
  where
    rest : Covers h (remove i m)
    rest = Covers-pop t i h m c

    first :
        (e f : TimerEntry) → get i m ≡ some e → Has f (due_loop now h (remove i m)).out → Before e f
    first e f g x =
        let named = (c.listed i e g).1 in
        let at = c.agrees i t e (inl refl) g in
        let (n, k) = get-remove_cases i f.id f m (due_loop_sound now h (remove i m) f rest x).0 in
        let y = (rest.listed f.id f (due_loop_sound now h (remove i m) f rest x).0).0 in
        let z = All-Has (f.when, f.id) (λ q. (t, i) ⊑ q) h c.sorted.0 y in
        (rw (named, at) z, λ p. n (sym named ∙ p))

due_loop-fresh :
    (P : ℕ × ℕ → Type 0) (now : ℕ) (h : List (ℕ × ℕ)) (m : Map ℕ TimerEntry)
    → All P h
    → All P (due_loop now h m).heap
unfolding due_loop
due_loop-fresh P now [] m a = tt
due_loop-fresh P now ((t, i) ∷ h) m a = elim (Bool-cases (ltb now t)) [
  | inl late ↦ rw late a
  | inr due ↦ rw due (due_loop-fresh P now h (remove i m) a.1)
]

due_loop-Distinct :
    (now : ℕ) (h : List (ℕ × ℕ)) (m : Map ℕ TimerEntry)
    → Distinct m
    → Distinct (due_loop now h m).entries
unfolding due_loop
due_loop-Distinct now [] m d = d
due_loop-Distinct now ((t, i) ∷ h) m d = elim (Bool-cases (ltb now t)) [
  | inl late ↦ rw late d
  | inr due ↦ rw due (due_loop-Distinct now h (remove i m) (remove-Distinct i m d))
]

pub pop_due-Inv : (now : ℕ) (w : TimerWheel) → Inv w → Inv (pop_due now w).1
unfolding pop_due
pop_due-Inv now w v = record {
  covers = due_loop-Covers now w.heap w.entries v.covers;
  fresh = due_loop-fresh (λ p. p.1 ≤ w.next_id) now w.heap w.entries v.fresh;
  distinct = due_loop-Distinct now w.heap w.entries v.distinct;
}

-- For a wheel that satisfies the invariant, `pop_due now` returns exactly the live entries whose
-- deadline is at or before `now`, earliest first (the older id first at one deadline) and each id
-- once, and the entries that stay live are exactly those with a later deadline.
pub pop_due_lem :
    (now : ℕ) (w : TimerWheel)
    → Inv w
    → ((e : TimerEntry)
        → Has e (pop_due now w).0 ↔ ((get e.id w.entries ≡ some e) × (e.when ≤ now)))
      × InOrder (pop_due now w).0
      × ((j : ℕ) → get j (pop_due now w).1.entries ≡ keep (λ e. ltb now e.when) (get j w.entries))
unfolding pop_due
pop_due_lem now w v = (
  λ e. (
    due_loop_sound now w.heap w.entries e v.covers,
    λ (g, l). due_loop_complete now w.heap w.entries e v.covers g l,
  ),
  due_loop-InOrder now w.heap w.entries v.covers,
  due_loop-entries now w.heap w.entries v.covers,
)
