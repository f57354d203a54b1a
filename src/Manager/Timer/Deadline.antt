-- ===== src/Manager/Timer/Deadline.antt =====
-- `next_deadline` and `has_service_timers` of timer.rs against the set of live entries.
use rystemd.Prelude.{
  any-values-get, get-any-values, ℕ, ◌≤◌, ◌≡◌, ◌↔◌, ◌⊎◌, refl, ap, true, inl, inr, Option, none,
  some, List, [], ◌∷◌, arith, Option-cases, Has, All, All-Has, Map, get, nat_key, subst,
}
use mathlib.Core.Bool.{false≢true}
use rystemd.Manager.Timer.{
  TimerKind, start_timeout, stop_timeout, restart_delay, calendar_elapse, monotonic_elapse,
  TimerEntry, TimerWheel, deadline_loop, next_deadline, is_service_timer, has_service_timers,
}
use rystemd.Manager.Timer.Order.{◌⊑◌, ⊑→le}
use rystemd.Manager.Timer.Invariant.{Covers, Inv}

-- `o` is the least deadline of the live entries, or there is none.
abbrev pub IsEarliest : Map ℕ TimerEntry → Option ℕ → Type 0
IsEarliest m none = (j : ℕ) → get j m ≡ none
IsEarliest m (some t) =
    ((j : ℕ) × (e : TimerEntry) × (get j m ≡ some e) × (e.when ≡ t))
    × ((j : ℕ) (e : TimerEntry) → get j m ≡ some e → t ≤ e.when)

-- A pair whose id is not live can go.
Covers-drop :
    (t i : ℕ) (h : List (ℕ × ℕ)) (m : Map ℕ TimerEntry)
    → get i m ≡ none
    → Covers ((t, i) ∷ h) m
    → Covers h m
Covers-drop t i h m z c = record {
  sorted = c.sorted.1;
  listed = λ j e g. let r = c.listed j e g in (later j e g r.0, r.1);
  agrees = λ j u e p g. c.agrees j u e (inr p) g;
}
  where
    later :
        (j : ℕ) (e : TimerEntry)
        → get j m ≡ some e
        → Has (e.when, j) ((t, i) ∷ h)
        → Has (e.when, j) h
    later j e g (inl x) =
        absurd (ground (arith, subst (λ k. get k m ≡ none) (ap (λ (r : ℕ × ℕ). r.1) x) z))
    later j e g (inr x) = x

deadline_loop_lem :
    (h : List (ℕ × ℕ)) (m : Map ℕ TimerEntry)
    → Covers h m
    → IsEarliest m (deadline_loop h m).0 × Covers (deadline_loop h m).1 m
unfolding deadline_loop
deadline_loop_lem [] m c = (none_live, c)
  where
    none_live : (j : ℕ) → get j m ≡ none
    none_live j = elim (Option-cases (get j m)) [
      | inl e ↦ e
      | inr (e, g) ↦ absurd (c.listed j e g).0
    ]
deadline_loop_lem ((t, i) ∷ h) m c = elim (Option-cases (get i m)) [
  | inl z ↦ rw (z, deadline_loop) (deadline_loop_lem h m (Covers-drop t i h m z c))
  | inr (e, g) ↦
      let at = c.agrees i t e (inl refl) g in
      rw (g, deadline_loop) (((i, e, g, refl), λ j f k. earliest j f e at (c.listed j f k).0), c)
]
  where
    earliest :
        (j : ℕ) (f e : TimerEntry) → e.when ≡ t → Has (f.when, j) ((t, i) ∷ h) → e.when ≤ f.when
    earliest j f e at (inl x) = let y = ap (λ (r : ℕ × ℕ). r.0) x in omega arith
    earliest j f e at (inr x) =
        let y = ⊑→le (t, i) (f.when, j) (All-Has (f.when, j) (λ q. (t, i) ⊑ q) h c.sorted.0 x) in
        omega arith

deadline_loop-fresh :
    (P : ℕ × ℕ → Type 0) (h : List (ℕ × ℕ)) (m : Map ℕ TimerEntry)
    → All P h
    → All P (deadline_loop h m).1
unfolding deadline_loop
deadline_loop-fresh P [] m a = tt
deadline_loop-fresh P ((t, i) ∷ h) m a = elim (Option-cases (get i m)) [
  | inl z ↦ rw (z, deadline_loop) (deadline_loop-fresh P h m a.1)
  | inr (e, g) ↦ rw (g, deadline_loop) a
]

-- For a wheel that satisfies the invariant, `next_deadline` returns the least deadline of the live
-- entries, or nothing where none is live; the entries stay as they are and the invariant holds.
pub next_deadline_lem :
    (w : TimerWheel)
    → Inv w
    → IsEarliest w.entries (next_deadline w).0
      × ((next_deadline w).1.entries ≡ w.entries)
      × Inv (next_deadline w).1
unfolding next_deadline
next_deadline_lem w v =
    let r = deadline_loop_lem w.heap w.entries v.covers in
    (
      r.0,
      refl,
      record {
        covers = r.1;
        fresh = deadline_loop-fresh (λ p. p.1 ≤ w.next_id) w.heap w.entries v.fresh;
        distinct = v.distinct;
      },
    )

-- The kind is an elapse of `OnCalendar=`, whichever, or a monotonic one.
abbrev pub IsElapse : TimerKind → Type 0
IsElapse k = ((i : ℕ) × (k ≡ calendar_elapse i)) ⊎ (k ≡ monotonic_elapse)

is_service_timer_iff : (k : TimerKind) → (is_service_timer k ≡ true) ↔ IsElapse k
unfolding is_service_timer
is_service_timer_iff start_timeout =
    (λ h. absurd (false≢true h), λ h. elim h [ inl (i, e) ↦ cc | inr e ↦ cc ])
is_service_timer_iff stop_timeout =
    (λ h. absurd (false≢true h), λ h. elim h [ inl (i, e) ↦ cc | inr e ↦ cc ])
is_service_timer_iff restart_delay =
    (λ h. absurd (false≢true h), λ h. elim h [ inl (i, e) ↦ cc | inr e ↦ cc ])
is_service_timer_iff (calendar_elapse i) = (λ h. inl (i, refl), λ h. refl)
is_service_timer_iff monotonic_elapse = (λ h. inr refl, λ h. refl)

-- For a wheel that satisfies the invariant, `has_service_timers` says whether some live entry is a
-- calendar or a monotonic elapse.
pub has_service_timers_iff :
    (w : TimerWheel)
    → Inv w
    → (has_service_timers w ≡ true)
      ↔ ((j : ℕ) × (e : TimerEntry) × (get j w.entries ≡ some e) × IsElapse e.kind)
unfolding has_service_timers
has_service_timers_iff w v = (
  λ h.
      let (j, e, g, t) = any-values-get (λ e. is_service_timer e.kind) w.entries v.distinct h in
      (j, e, g, (is_service_timer_iff e.kind).0 t),
  λ (j, e, g, t).
      get-any-values (λ e. is_service_timer e.kind) w.entries j e g
        ((is_service_timer_iff e.kind).1 t),
)
