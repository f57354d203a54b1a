-- ===== src/Manager/Engine/Endings/Main.antt =====
-- rystemd/src/manager/mod.rs: how `main_exit` ends for an active service, on every branch.
use rystemd.Prelude.{
  ℕ, ◌+◌, ◌-◌, ◌*◌, ◌^◌, ◌≤◌, ◌<◌, ◌≡◌, ◌≢◌, ◌↔◌, inl, inr, refl, sym, ap, ◌∙◌, Bool-cases, Option,
  some, [], ◌∷◌, ◌++◌, Text, text_key, nat_key, get, arith, Has,
}
use mathlib.Core.Bool.{false≢true}
use rystemd.Unit.Config.{ServiceConfig}
use rystemd.Manager.State.{ManagedUnit, ActiveState, set_active, service_cfg}
use rystemd.Manager.Timer.{TimerWheel, TimerEntry, restart_delay, schedule, pop_due}
use rystemd.Manager.Timer.Invariant.{Inv, schedule-Inv}
use rystemd.Manager.Timer.Due.{pop_due_lem}
use rystemd.Manager.Timer.Rearm.{schedule_lem}
use rystemd.Manager.Action.{pure}
use rystemd.Manager.Engine.{Manager, Outside, M}
use rystemd.Manager.Engine.Timers.{as_duration}
use rystemd.Manager.Engine.Calls.{Call}
use rystemd.Manager.Engine.Limit.{recent, start_window_cases}
use rystemd.Manager.Engine.Queue.{start_window_at}
use rystemd.Manager.Engine.Exits.{restart_delay_of, without_main, exit_ok, should_restart}
use rystemd.Manager.Engine.Endings
use rystemd.Manager.Engine.Endings.{IsWaiting, Ends}
use rystemd.Manager.Engine.Endings.Active
use rystemd.Manager.Engine.Endings.Policy.{exit_ok_iff, should_restart_iff}

-- A deadline that is set is popped from then on, under an id that was free; the others are as before.
module _ (when : ℕ) (name : Text) (w : TimerWheel) (v : Inv w) (room : w.next_id + 1 < 2 ^ 64) where
  abbrev set_wheel : TimerWheel
  set_wheel = (schedule when restart_delay name w).1

  abbrev set_id : ℕ
  set_id = (schedule when restart_delay name w).0

  abbrev set_entry : TimerEntry
  set_entry = record { when = when; id = set_id; kind = restart_delay; unit = name }

  set-pop_due : (t : ℕ) → Has set_entry (pop_due t set_wheel).0 ↔ (when ≤ t)
  set-pop_due t =
      let r =
        (pop_due_lem t set_wheel (schedule-Inv when restart_delay name w v room)).0 set_entry in
      let g = (schedule_lem when restart_delay name w v room).1 set_id in
      (λ h. (r.0 h).1, λ l. r.1 (ground (arith, g), l))

  set-others : (j : ℕ) → j ≢ set_id → get j set_wheel.entries ≡ get j w.entries
  set-others j n =
      let g = (schedule_lem when restart_delay name w v room).1 j in ground (arith, g, n)

restart_delay_finite :
    (sc : ServiceConfig)
    → sc.restart_sec < 2 ^ 64 - 1
    → restart_delay_of (some sc) ≡ sc.restart_sec * 1000
unfolding as_duration
restart_delay_finite sc l = ground (arith, l)

module _ (outside : Outside) (rec : Call → M Unit) (name : Text) (code : ℕ) (signal : Option ℕ)
    (sc : ServiceConfig) (u : ManagedUnit) (m : Manager) (h : get name m.units ≡ some u)
    (c : service_cfg u ≡ some sc) (a : u.active ≡ ActiveState.active) where
  abbrev gone : ManagedUnit
  gone = without_main code signal u

  abbrev there : Manager
  there = Endings.exited outside rec name code signal m

  restarting-IsWaiting :
      Inv m.wheel
      → m.wheel.next_id + 1 < 2 ^ 64
      → sc.restart_sec < 2 ^ 64 - 1
      → (start_window_at (outside.now m.asked) u.start_window).1
        ≡ recent (outside.now m.asked) u.start_window ++ outside.now m.asked ∷ []
      → IsWaiting outside rec name code signal sc u m
          (Endings.restarting outside rec name code signal (some sc) gone there)
  unfolding set_active
  restarting-IsWaiting v room finite window =
      let when = outside.now (m.asked + 1 + 1) + restart_delay_of (some sc) in
      record {
        unit =
            Endings.counted outside rec name code signal
              (Endings.waiting_unit outside rec name code signal (some sc) gone there);
        found =
            Endings.restarting-get outside rec name code signal (some sc) gone there
              (Endings.exited-get outside rec name code signal u m h);
        is_activating = refl;
        waits = refl;
        is_gone = refl;
        is_counted = refl;
        window = window;
        id = set_id when name m.wheel v room;
        is_fresh = (schedule_lem when restart_delay name m.wheel v room).0;
        fires = λ t. rw (← restart_delay_finite sc finite) (set-pop_due when name m.wheel v room t);
        others = set-others when name m.wheel v room;
        same_jobs = refl;
      }

  -- The main process of an active service exits, where the wheel satisfies its invariant and has ids
  -- left and RestartSec= is finite: main_exit leaves the service without a main process, every job as it
  -- was and every timer but the one named here, and goes on in one of four ways. After an exit that
  -- Restart= restarts after, with fewer than five starts in the ten seconds before it, the service is
  -- activating, its restart counted modulo 2 ^ 64 and its start noted, with a timer that is popped from
  -- RestartSec= after the exit on and not before, and main_exit returns; with five starts or more the
  -- service is failed, and poke_failed is called. After a clean exit that is not restarted after, the
  -- service is active where RemainAfterExit= is set and inactive otherwise, and complete_start_job and
  -- timer_dep_check are called; after any other it is failed, and poke_failed and fire_on_failure are
  -- called. An exit is clean with code 0 or with what SuccessExitStatus= lists; Restart= restarts always,
  -- never (no, on-watchdog), after a clean exit (on-success), after any other (on-failure), or after any
  -- signal (on-abnormal, on-abort).
  pub main_exit_lem :
      Inv m.wheel
      → m.wheel.next_id + 1 < 2 ^ 64
      → sc.restart_sec < 2 ^ 64 - 1
      → Ends outside rec name code signal sc u m
  unfolding pure
  main_exit_lem v room finite =
      let r = should_restart_iff sc.restart sc code signal in
      let g = exit_ok_iff sc code signal in
      let step = Active.main_step outside rec name code signal sc u m h c a in
      let p = Active.there-get outside rec name code signal sc u m h c a in
      let q = Active.gone_cfg outside rec name code signal sc u m h c a in
      elim (Bool-cases (should_restart sc.restart (exit_ok (some sc) code signal) signal)) [
        | inl t ↦ elim (start_window_cases (outside.now m.asked) u.start_window) [
          | inl (l, e) ↦ inr (
              inl (
                r.0 t,
                l,
                (
                  _,
                  step
                      ∙ Active.limit_step outside rec name code signal sc gone there p q t
                          (ap (λ x. x.0) e),
                  Active.hit-IsLeft outside rec name code signal sc u m h c a,
                ),
              ))
          | inr (l, e) ↦ inl (
            r.0 t,
            omega (arith, l),
            (
              _,
              step
                  ∙ Active.restart_step outside rec name code signal sc gone there p q t
                      (ap (λ x. x.0) e),
              restarting-IsWaiting v room finite (ap (λ x. x.1) e),
            ),
          )
        ]
        | inr f ↦ elim (Bool-cases (exit_ok (some sc) code signal)) [
          | inl k ↦ inr (
              inr (
                inl (
                  (λ y. false≢true (sym f ∙ r.1 y)),
                  g.0 k,
                  (
                    _,
                    step
                        ∙ Active.settle_step outside rec name code signal sc gone there p q
                            sc.remain_after_exit refl f k,
                    Active.settled-IsLeft outside rec name code signal sc u m h c a
                        sc.remain_after_exit,
                  ),
                )))
          | inr k ↦ inr (
              inr (
                inr (
                  (λ y. false≢true (sym f ∙ r.1 y)),
                  (λ y. false≢true (sym k ∙ g.1 y)),
                  (
                    _,
                    step ∙ Active.fail_step outside rec name code signal sc gone there p q f k,
                    Active.failed-IsLeft outside rec name code signal sc u m h c a,
                  ),
                )))
        ]
      ]
