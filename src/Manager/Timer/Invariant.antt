-- ===== src/Manager/Timer/Invariant.antt =====
-- What holds of a timer wheel between two calls of timer.rs.
use rystemd.Prelude.{
  ap, subst, get-insert_cases, get-remove_cases, ℕ, ◌+◌, ◌%◌, ◌^◌, ◌≤◌, ◌<◌, ◌≡◌, refl, sym, ◌∙◌,
  Bool, inl, inr, some, List, [], ◌∷◌, arith, Has, All, All-Has, Text, Map, get, insert, nat_key,
  Distinct, keep, retain_values, get-retain_values, remove-Distinct, insert-Distinct,
  retain_values-Distinct,
}
use rystemd.Manager.Timer.{
  TimerKind, TimerEntry, TimerWheel, schedule, cancel, cancel_by_unit, cancel_by_kind, heap_push,
  default,
}
use rystemd.Manager.Timer.Order.{
  IsSorted, All-heap_push, heap_push-IsSorted, Has-heap_push_self, Has-heap_push_old, Has-heap_push,
}

-- Each live entry stands in the heap under its own id and deadline.
abbrev pub Listed : List (ℕ × ℕ) → Map ℕ TimerEntry → Type 0
Listed h m = (i : ℕ) (e : TimerEntry) → get i m ≡ some e → Has (e.when, i) h × (e.id ≡ i)

-- A pair of the heap whose id is live names that entry's deadline.
abbrev pub Agrees : List (ℕ × ℕ) → Map ℕ TimerEntry → Type 0
Agrees h m = (i t : ℕ) (e : TimerEntry) → Has (t, i) h → get i m ≡ some e → e.when ≡ t

pub record Covers (h : List (ℕ × ℕ)) (m : Map ℕ TimerEntry) : Type 0 where
  pub sorted : IsSorted h
  pub listed : Listed h m
  pub agrees : Agrees h m

pub record Inv (w : TimerWheel) : Type 0 where
  pub covers : Covers w.heap w.entries
  pub fresh : All (λ p. p.1 ≤ w.next_id) w.heap
  pub distinct : Distinct w.entries

-- A map with fewer entries is covered by the same heap.
pub Covers-mono :
    (h : List (ℕ × ℕ)) (m n : Map ℕ TimerEntry)
    → ((i : ℕ) (e : TimerEntry) → get i n ≡ some e → get i m ≡ some e)
    → Covers h m
    → Covers h n
Covers-mono h m n sub c = record {
  sorted = c.sorted;
  listed = λ i e g. c.listed i e (sub i e g);
  agrees = λ i t e p g. c.agrees i t e p (sub i e g);
}

pub default-Inv : Inv default
default-Inv = record {
  covers = record {
    sorted = tt;
    listed = λ i e g. unfold get in cc;
    agrees = λ i t e p g. elim p [ ];
  };
  fresh = tt;
  distinct = tt;
}

All-le : (n k : ℕ) (h : List (ℕ × ℕ)) → n ≤ k → All (λ p. p.1 ≤ n) h → All (λ p. p.1 ≤ k) h
All-le n k [] l a = tt
All-le n k (p ∷ h) l a = (omega arith, All-le n k h l a.1)

-- The id that `schedule` gives is above every id of the heap, as long as the counter does not wrap.
schedule-Covers :
    (when id : ℕ) (e : TimerEntry) (w : TimerWheel)
    → Inv w
    → w.next_id < id
    → e.when ≡ when
    → e.id ≡ id
    → Covers (heap_push (when, id) w.heap) (insert id e w.entries)
schedule-Covers when id e w v l p q = record {
  sorted = heap_push-IsSorted _ w.heap v.covers.sorted;
  listed = listed;
  agrees = agrees;
}
  where
    listed : Listed (heap_push (when, id) w.heap) (insert id e w.entries)
    listed i f g = elim (get-insert_cases id i e f w.entries g) [
      | inl (a, b) ↦
          (subst (λ x. Has x (heap_push (when, id) w.heap)) (cc) (Has-heap_push_self _ w.heap), cc)
      | inr (n, old) ↦ let r = v.covers.listed i f old in (Has-heap_push_old _ _ w.heap r.0, r.1)
    ]

    agrees : Agrees (heap_push (when, id) w.heap) (insert id e w.entries)
    agrees i t f h g = elim (Has-heap_push _ _ w.heap h) [
      | inl x ↦ elim (get-insert_cases id i e f w.entries g) [
        | inl (a, b) ↦ cc
        | inr (n, old) ↦ absurd (n (ap (λ (r : ℕ × ℕ). r.1) x))
      ]
      | inr old ↦ elim (get-insert_cases id i e f w.entries g) [
        | inl (a, b) ↦
            let below = All-Has (t, i) (λ r. r.1 ≤ w.next_id) w.heap v.fresh old in
            absurd (omega arith)
        | inr (n, kept) ↦ v.covers.agrees i t f old kept
      ]
    ]

pub schedule-Inv :
    (when : ℕ) (kind : TimerKind) (unit : Text) (w : TimerWheel)
    → Inv w
    → w.next_id + 1 < 2 ^ 64
    → Inv (schedule when kind unit w).1
unfolding schedule
schedule-Inv when kind unit w v l = record {
  covers = schedule-Covers when _ _ w v (omega arith) refl refl;
  fresh =
      All-heap_push _ (when, (w.next_id + 1) % 2 ^ 64) w.heap (omega arith)
        (All-le w.next_id _ w.heap (omega arith) v.fresh);
  distinct = insert-Distinct _ _ w.entries v.distinct;
}

pub cancel-Inv : (id : ℕ) (w : TimerWheel) → Inv w → Inv (cancel id w)
unfolding cancel
cancel-Inv id w v = record {
  covers =
      Covers-mono w.heap w.entries _ (λ i e g. (get-remove_cases id i e w.entries g).1) v.covers;
  fresh = v.fresh;
  distinct = remove-Distinct id w.entries v.distinct;
}

retain-Inv :
    (p : TimerEntry → Bool) (w : TimerWheel)
    → Inv w
    → Inv (record w { entries = retain_values p w.entries })
retain-Inv p w v = record {
  covers =
      Covers-mono w.heap w.entries _
        (λ i e g. kept i e (sym (get-retain_values p i w.entries v.distinct) ∙ g)) v.covers;
  fresh = v.fresh;
  distinct = retain_values-Distinct p w.entries v.distinct;
}
  where
    kept : (i : ℕ) (e : TimerEntry) → keep p (get i w.entries) ≡ some e → get i w.entries ≡ some e
    kept i e h = ground arith

pub cancel_by_unit-Inv : (unit : Text) (w : TimerWheel) → Inv w → Inv (cancel_by_unit unit w)
unfolding cancel_by_unit
cancel_by_unit-Inv unit w v = retain-Inv _ w v

pub cancel_by_kind-Inv :
    (unit : Text) (kind : TimerKind) (w : TimerWheel) → Inv w → Inv (cancel_by_kind unit kind w)
unfolding cancel_by_kind
cancel_by_kind-Inv unit kind w v = retain-Inv _ w v
