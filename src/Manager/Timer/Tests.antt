-- ===== src/Manager/Timer/Tests.antt =====
-- A wheel with three timers, on which timer.rs is run.
use rystemd.Prelude.{
  ℕ, ◌≤◌, ◌≡◌, ◌↔◌, ◌≢◌, ◌⊎◌, inl, refl, true, none, some, [], ◌∷◌, arith, ltb, ◌==◌, if◌then◌else◌,
  Has, Text, codes, get, insert, remove, nat_key, keep,
}
use rystemd.Manager.Timer.{
  start_timeout, restart_delay, monotonic_elapse, TimerEntry, TimerWheel, default, heap_push,
  schedule, cancel, cancel_by_kind, pop_due, next_deadline, has_service_timers,
}
use rystemd.Manager.Timer.Invariant.{Inv, default-Inv, schedule-Inv}
use rystemd.Manager.Timer.Due.{InOrder, pop_due_lem}
use rystemd.Manager.Timer.Deadline.{IsElapse, IsEarliest, next_deadline_lem, has_service_timers_iff}
use rystemd.Manager.Timer.Rearm.{OfPair, schedule_lem, rearm_unique}
use rystemd.Manager.Timer.Cancelled.{Later, same, scheduled, cancel_lem}

abbrev web : Text
web = codes "web.service"

abbrev job : Text
job = codes "job.timer"

one : TimerWheel
one = (schedule 10 restart_delay web default).1

two : TimerWheel
unfolding one
two = (schedule 5 start_timeout web one).1

three : TimerWheel
unfolding two
three = (schedule 20 monotonic_elapse job two).1

small : Unit {0}
unfolding three schedule pop_due next_deadline heap_push get insert remove
small = tt

one-Inv : Inv one
unfolding one
one-Inv = schedule-Inv 10 restart_delay web default default-Inv (omega arith)

two-Inv : Inv two
unfolding two small
two-Inv = schedule-Inv 5 start_timeout web one one-Inv (omega arith)

three-Inv : Inv three
unfolding three small
three-Inv = schedule-Inv 20 monotonic_elapse job two two-Inv (omega arith)

-- The restart delay of the unit, and the start timeout before it.
abbrev delay : TimerEntry
delay = record { when = 10; id = 1; kind = restart_delay; unit = web }

abbrev timeout : TimerEntry
timeout = record { when = 5; id = 2; kind = start_timeout; unit = web }

pop_due-three : (pop_due 10 three).0 ≡ timeout ∷ delay ∷ []
unfolding small
pop_due-three = refl

next_deadline-three : (next_deadline (cancel 2 three)).0 ≡ some 10
unfolding small cancel
next_deadline-three = refl

pop_due_lem_example :
    ((e : TimerEntry)
      → Has e (pop_due 10 three).0 ↔ ((get e.id three.entries ≡ some e) × (e.when ≤ 10)))
    × InOrder (pop_due 10 three).0
    × ((j : ℕ)
        → get j (pop_due 10 three).1.entries ≡ keep (λ e. ltb 10 e.when) (get j three.entries))
pop_due_lem_example = pop_due_lem 10 three three-Inv

next_deadline_lem_example :
    IsEarliest three.entries (next_deadline three).0
    × ((next_deadline three).1.entries ≡ three.entries)
    × Inv (next_deadline three).1
next_deadline_lem_example = next_deadline_lem three three-Inv

has_service_timers_iff_example :
    (has_service_timers three ≡ true)
    ↔ ((j : ℕ) × (e : TimerEntry) × (get j three.entries ≡ some e) × IsElapse e.kind)
has_service_timers_iff_example = has_service_timers_iff three three-Inv

schedule_lem_example :
    (get 3 two.entries ≡ none)
    × ((j : ℕ)
        → get j (schedule 20 monotonic_elapse job two).1.entries ≡ (
            if 3 == j
            then some (record { when = 20; id = 3; kind = monotonic_elapse; unit = job })
            else get j two.entries))
unfolding small
schedule_lem_example = schedule_lem 20 monotonic_elapse job two two-Inv (omega arith)

-- The start timeout is cancelled, another one set.
later : Later (cancel 2 three) (schedule 30 start_timeout web (cancel 2 three)).1
unfolding small cancel
later = scheduled 30 start_timeout web (cancel 2 three) same (omega arith)

cancel_lem_example : ◌≢◌ {A = ℕ} 2 1
unfolding small cancel
cancel_lem_example =
    cancel_lem 2 10 three (schedule 30 start_timeout web (cancel 2 three)).1 delay three-Inv
      (omega arith) later (inl refl)

abbrev fresh_timeout : TimerEntry
fresh_timeout = record { when = 15; id = 4; kind = start_timeout; unit = web }

rearm_unique_example :
    (get 4 (schedule 15 start_timeout web (cancel_by_kind web start_timeout three)).1.entries
      ≡ some fresh_timeout)
    ↔ (((◌≡◌ {A = ℕ} 4 4) × (fresh_timeout ≡ fresh_timeout))
        ⊎ ((get 4 three.entries ≡ some fresh_timeout) × ¬ (OfPair web start_timeout fresh_timeout)))
unfolding small cancel_by_kind
rearm_unique_example =
    rearm_unique 15 start_timeout web three 4 fresh_timeout three-Inv (omega arith)
