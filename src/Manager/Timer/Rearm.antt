-- ===== src/Manager/Timer/Rearm.antt =====
-- `schedule` and the cancellations of timer.rs as changes of the set of live entries.
use rystemd.Prelude.{
  ℕ, ◌+◌, ◌%◌, ◌^◌, ◌≤◌, ◌<◌, ◌≡◌, ◌↔◌, Bool, true, not, ◌&&◌, ◌⊎◌, inl, inr, none, some, arith,
  if◌then◌else◌, Bool-cases, Option-cases, All-Has, get, nat_key, ◌==◌, Text, text_eq, text_eq_iff,
  keep, get-insert, get-retain_values,
}
use rystemd.Manager.Timer.{
  TimerKind, start_timeout, stop_timeout, restart_delay, calendar_elapse, monotonic_elapse,
  TimerEntry, TimerWheel, kind_eq, schedule, cancel_by_unit, cancel_by_kind,
}
use rystemd.Manager.Timer.Invariant.{Inv, cancel_by_kind-Inv}

pub kind_eq_iff : (k l : TimerKind) → (kind_eq k l ≡ true) ↔ (k ≡ l)
unfolding kind_eq
kind_eq_iff start_timeout _ = ground arith
kind_eq_iff stop_timeout _ = ground arith
kind_eq_iff restart_delay _ = ground arith
kind_eq_iff (calendar_elapse i) _ = ground arith
kind_eq_iff monotonic_elapse _ = ground arith

-- For a wheel that satisfies the invariant and a counter short of its wrap, `schedule` gives an id
-- that no live entry has, and makes exactly the new entry live under it.
pub schedule_lem :
    (when : ℕ) (kind : TimerKind) (unit : Text) (w : TimerWheel)
    → Inv w
    → w.next_id + 1 < 2 ^ 64
    → let (id, w') = schedule when kind unit w in
      (get id w.entries ≡ none)
      × ((j : ℕ)
          → get j w'.entries ≡ (
              if id == j
              then some (record { when = when; id = id; kind = kind; unit = unit })
              else get j w.entries))
unfolding schedule
schedule_lem when kind unit w v l = (unused, λ j. get-insert _ j _ w.entries)
  where
    unused : get ((w.next_id + 1) % 2 ^ 64) w.entries ≡ none
    unused = elim (Option-cases (get ((w.next_id + 1) % 2 ^ 64) w.entries)) [
      | inl e ↦ e
      | inr (e, g) ↦
          let below = All-Has _ (λ r. r.1 ≤ w.next_id) w.heap v.fresh (v.covers.listed _ e g).0 in
          absurd (omega arith)
    ]

-- After `cancel_by_unit` no entry of the unit is live, and the others are as before.
pub cancel_by_unit_lem :
    (unit : Text) (w : TimerWheel) (j : ℕ)
    → Inv w
    → get j (cancel_by_unit unit w).entries
      ≡ keep (λ e. not (text_eq e.unit unit)) (get j w.entries)
unfolding cancel_by_unit
cancel_by_unit_lem unit w j v = get-retain_values _ j w.entries v.distinct

abbrev pub OfPair : Text → TimerKind → TimerEntry → Type 0
OfPair unit kind e = (e.unit ≡ unit) × (e.kind ≡ kind)

cancel_by_kind-get :
    (unit : Text) (kind : TimerKind) (w : TimerWheel) (j : ℕ) (e : TimerEntry)
    → Inv w
    → (get j (cancel_by_kind unit kind w).entries ≡ some e)
      ↔ ((get j w.entries ≡ some e) × ¬ (OfPair unit kind e))
unfolding cancel_by_kind
cancel_by_kind-get unit kind w j e v = elim (Option-cases (get j w.entries)) [
  | inl z ↦
      let same = get-retain_values p j w.entries v.distinct in
      (λ g. ground arith, λ h. ground arith)
  | inr (f, z) ↦
      let same = get-retain_values p j w.entries v.distinct in
      (
        λ g. (
          ground arith,
          λ q. ground (
            arith,
            text_eq_iff e.unit unit,
            kind_eq_iff e.kind kind,
            text_eq_iff f.unit unit,
            kind_eq_iff f.kind kind,
          ),
        ),
        λ h. ground (arith, h.1, text_eq_iff f.unit unit, kind_eq_iff f.kind kind),
      )
]
  where
    p : TimerEntry → Bool
    p x = not (text_eq x.unit unit && kind_eq x.kind kind)

-- Re-arming a pair of a unit and a kind (`cancel_by_kind`, then `schedule`) leaves exactly one live
-- entry of the pair, the new one, and every entry of another unit or kind as it was.
pub rearm_unique :
    (when : ℕ) (kind : TimerKind) (unit : Text) (w : TimerWheel) (j : ℕ) (e : TimerEntry)
    → Inv w
    → w.next_id + 1 < 2 ^ 64
    → let (id, w') = schedule when kind unit (cancel_by_kind unit kind w) in
      (get j w'.entries ≡ some e) ↔ (
        ((j ≡ id) × (e ≡ record { when = when; id = id; kind = kind; unit = unit }))
        ⊎ ((get j w.entries ≡ some e) × ¬ (OfPair unit kind e)))
rearm_unique when kind unit w j e v l =
    let w' = cancel_by_kind unit kind w in
    let (unused, at) =
      schedule_lem when kind unit w' (cancel_by_kind-Inv unit kind w v)
        (unfold cancel_by_kind in l) in
    let kept = cancel_by_kind-get unit kind w j e v in
    (
      λ g. elim (Bool-cases ((schedule when kind unit w').0 == j)) [
        | inl t ↦ inl (ground arith, ground (arith, at j))
        | inr f ↦ inr (kept.0 (ground (arith, at j)))
      ],
      λ h. elim h [
        | inl (p, q) ↦ ground (arith, at j)
        | inr r ↦ let old = kept.1 r in ground (arith, at j)
      ],
    )
