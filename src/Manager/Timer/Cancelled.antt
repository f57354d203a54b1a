-- ===== src/Manager/Timer/Cancelled.antt =====
-- What becomes of a cancelled timer of timer.rs, whatever is done with the wheel behind it.
use rystemd.Prelude.{
  ℕ, ◌+◌, ◌%◌, ◌^◌, ◌≤◌, ◌<◌, ◌≡◌, ◌≢◌, refl, sym, subst, ◌∙◌, Option, none, some, arith, Has, Text,
  get, nat_key, remove, get-insert, get-remove_cases, get-retain_values,
}
use mathlib.Core.Option.{some-ne-none}
use rystemd.Manager.Timer.{
  TimerKind, TimerEntry, TimerWheel, schedule, cancel, cancel_by_unit, cancel_by_kind, pop_due,
  next_deadline,
}
use rystemd.Manager.Timer.Invariant.{
  Inv, schedule-Inv, cancel-Inv, cancel_by_unit-Inv, cancel_by_kind-Inv,
}
use rystemd.Manager.Timer.Due.{pop_due-Inv, pop_due_lem}
use rystemd.Manager.Timer.Deadline.{next_deadline_lem}

-- The second wheel comes from the first by calls of timer.rs, before the counter wraps.
pub data Later (w : TimerWheel) : TimerWheel → Type 0 where
  same : Later w w
  scheduled :
      (when : ℕ) (kind : TimerKind) (unit : Text) (v : TimerWheel)
      → Later w v
      → v.next_id + 1 < 2 ^ 64
      → Later w (schedule when kind unit v).1
  cancelled : (id : ℕ) (v : TimerWheel) → Later w v → Later w (cancel id v)
  cancelled_unit : (unit : Text) (v : TimerWheel) → Later w v → Later w (cancel_by_unit unit v)
  cancelled_kind :
      (unit : Text) (kind : TimerKind) (v : TimerWheel)
      → Later w v
      → Later w (cancel_by_kind unit kind v)
  popped : (now : ℕ) (v : TimerWheel) → Later w v → Later w (pop_due now v).1
  looked : (v : TimerWheel) → Later w v → Later w (next_deadline v).1

-- The id was given, and no entry is live under it.
record IsGone (id : ℕ) (w : TimerWheel) : Type 0 where
  inv : Inv w
  given : id ≤ w.next_id
  absent : get id w.entries ≡ none

module _ (id : ℕ) (v : TimerWheel) (h : IsGone id v) where
  schedule-IsGone :
      (when : ℕ) (kind : TimerKind) (unit : Text)
      → v.next_id + 1 < 2 ^ 64
      → IsGone id (schedule when kind unit v).1
  unfolding schedule
  schedule-IsGone when kind unit fits = record {
    inv = schedule-Inv when kind unit v h.inv fits;
    given = omega (arith, h.given);
    absent =
        get-insert ((v.next_id + 1) % 2 ^ 64) id _ v.entries
        ∙ ground (arith, h.given, h.absent, fits);
  }

  live_no_more :
      (other : ℕ) (o : Option TimerEntry) → get id (remove other v.entries) ≡ o → o ≡ none
  live_no_more other none e = refl
  live_no_more other (some t) e =
      absurd (some-ne-none _ (sym (get-remove_cases other id t v.entries e).1 ∙ h.absent))

  remove-IsGone : (other : ℕ) → IsGone id (cancel other v)
  unfolding cancel
  remove-IsGone other = record {
    inv = cancel-Inv other v h.inv;
    given = h.given;
    absent = live_no_more other (get id (remove other v.entries)) refl;
  }

  cancel_by_unit-IsGone : (unit : Text) → IsGone id (cancel_by_unit unit v)
  unfolding cancel_by_unit
  cancel_by_unit-IsGone unit = record {
    inv = cancel_by_unit-Inv unit v h.inv;
    given = h.given;
    absent = get-retain_values _ id v.entries h.inv.distinct ∙ rw h.absent refl;
  }

  cancel_by_kind-IsGone : (unit : Text) (kind : TimerKind) → IsGone id (cancel_by_kind unit kind v)
  unfolding cancel_by_kind
  cancel_by_kind-IsGone unit kind = record {
    inv = cancel_by_kind-Inv unit kind v h.inv;
    given = h.given;
    absent = get-retain_values _ id v.entries h.inv.distinct ∙ rw h.absent refl;
  }

  pop_due-IsGone : (now : ℕ) → IsGone id (pop_due now v).1
  unfolding pop_due
  pop_due-IsGone now = record {
    inv = pop_due-Inv now v h.inv;
    given = h.given;
    absent = (pop_due_lem now v h.inv).2 id ∙ rw h.absent refl;
  }

  next_deadline-IsGone : IsGone id (next_deadline v).1
  unfolding next_deadline
  next_deadline-IsGone =
      let r = next_deadline_lem v h.inv in record { inv = r.2; given = h.given; absent = h.absent }

Later-IsGone : (id : ℕ) (w v : TimerWheel) → IsGone id w → Later w v → IsGone id v
Later-IsGone id w v g same = g
Later-IsGone id w _ g (scheduled when kind unit v l fits) =
    schedule-IsGone id v (Later-IsGone id w v g l) when kind unit fits
Later-IsGone id w _ g (cancelled other v l) = remove-IsGone id v (Later-IsGone id w v g l) other
Later-IsGone id w _ g (cancelled_unit unit v l) =
    cancel_by_unit-IsGone id v (Later-IsGone id w v g l) unit
Later-IsGone id w _ g (cancelled_kind unit kind v l) =
    cancel_by_kind-IsGone id v (Later-IsGone id w v g l) unit kind
Later-IsGone id w _ g (popped now v l) = pop_due-IsGone id v (Later-IsGone id w v g l) now
Later-IsGone id w _ g (looked v l) = next_deadline-IsGone id v (Later-IsGone id w v g l)

cancelled_self :
    (id : ℕ) (w : TimerWheel) (o : Option TimerEntry) → get id (remove id w.entries) ≡ o → o ≡ none
cancelled_self id w none e = refl
cancelled_self id w (some t) e = absurd ((get-remove_cases id id t w.entries e).0 refl)

cancel-IsGone : (id : ℕ) (w : TimerWheel) → Inv w → id ≤ w.next_id → IsGone id (cancel id w)
unfolding cancel
cancel-IsGone id w v l = record {
  inv = cancel-Inv id w v;
  given = l;
  absent = cancelled_self id w (get id (remove id w.entries)) refl;
}

-- In a wheel that satisfies the invariant, an id that was given and is cancelled never fires: whatever
-- is scheduled, cancelled, popped and looked up behind that, in whatever order and as long as the
-- counter does not wrap, `pop_due` returns no entry with this id.
pub cancel_lem :
    (id now : ℕ) (w v : TimerWheel) (e : TimerEntry)
    → Inv w
    → id ≤ w.next_id
    → Later (cancel id w) v
    → Has e (pop_due now v).0
    → id ≢ e.id
cancel_lem id now w v e i g l h p =
    let gone = Later-IsGone id (cancel id w) v (cancel-IsGone id w i g) l in
    let live = (((pop_due_lem now v gone.inv).0 e).0 h).0 in
    some-ne-none _ (sym (subst (λ k. get k v.entries ≡ some e) (sym p) live) ∙ gone.absent)
