-- ===== src/Manager/Engine/Sound/Timers.antt =====
-- rystemd/src/manager/mod.rs: the deadlines leave the jobs and the stamps of the units as they are.
use rystemd.Prelude.{ℕ, Option, List, [], ◌∷◌, Text}
use rystemd.Unit.Config.{TimerConfig}
use rystemd.Manager.State.{ManagedUnit}
use rystemd.Manager.Timer.{TimerKind}
use rystemd.Manager.Action.Keeps.{Keeps}
use rystemd.Manager.Engine.{Manager, Outside, M}
use rystemd.Manager.Engine.Timers.{
  schedule_in, arm_timeout, arm_start_timeout, arm_stop_timeout, next_monotonic_of,
  next_from_target, schedule_calendar, schedule_instant, schedule_monotonic, rearm_with,
  rearm_timer, timer_dep_check,
}
use rystemd.Manager.Engine.Follows.{Follows, follows_rules}

module _ (s : Manager) (outside : Outside) where
  pub schedule_in-Follows :
      (d : ℕ) (kind : TimerKind) (name : Text) → Keeps (Follows s) (schedule_in outside d kind name)
  unfolding schedule_in
  schedule_in-Follows d kind name = search follows_rules

  arm_timeout-Follows :
      (kind : TimerKind) (limit : Option ℕ) (name : Text)
      → Keeps (Follows s) (arm_timeout outside kind limit name)
  unfolding arm_timeout
  arm_timeout-Follows kind limit name = search (follows_rules, schedule_in-Follows)

  pub arm_start_timeout-Follows : (name : Text) → Keeps (Follows s) (arm_start_timeout outside name)
  unfolding arm_start_timeout
  arm_start_timeout-Follows name = search (follows_rules, arm_timeout-Follows)

  pub arm_stop_timeout-Follows : (name : Text) → Keeps (Follows s) (arm_stop_timeout outside name)
  unfolding arm_stop_timeout
  arm_stop_timeout-Follows name = search (follows_rules, arm_timeout-Follows)

  next_monotonic_of-Follows :
      (base : M ℕ) (spans : List ℕ) (next : Option ℕ)
      → Keeps (Follows s) base
      → Keeps (Follows s) (next_monotonic_of outside base spans next)
  unfolding next_monotonic_of
  next_monotonic_of-Follows base [] next k = search follows_rules
  next_monotonic_of-Follows base (ts ∷ spans) next k =
      search (follows_rules, next_monotonic_of-Follows base spans)

  next_from_target-Follows :
      (tc : TimerConfig) (target : Option ManagedUnit) (next : Option ℕ)
      → Keeps (Follows s) (next_from_target outside tc target next)
  unfolding next_from_target
  next_from_target-Follows tc target next = search (follows_rules, next_monotonic_of-Follows)

  schedule_calendar-Follows :
      (name : Text) (next : Option (ℕ × ℕ))
      → Keeps (Follows s) (schedule_calendar outside name next)
  unfolding schedule_calendar
  schedule_calendar-Follows name next = search (follows_rules, schedule_in-Follows)

  schedule_instant-Follows :
      (name : Text) (instant : ℕ) (display : Option ℕ)
      → Keeps (Follows s) (schedule_instant outside name instant display)
  unfolding schedule_instant
  schedule_instant-Follows name instant display = search follows_rules

  schedule_monotonic-Follows :
      (name : Text) (next display : Option ℕ)
      → Keeps (Follows s) (schedule_monotonic outside name next display)
  unfolding schedule_monotonic
  schedule_monotonic-Follows name next display = search (follows_rules, schedule_instant-Follows)

  rearm_with-Follows :
      (name : Text) (tc : TimerConfig) → Keeps (Follows s) (rearm_with outside name tc)
  unfolding rearm_with
  rearm_with-Follows name tc =
      search
        (
          follows_rules, next_monotonic_of-Follows, next_from_target-Follows,
          schedule_calendar-Follows, schedule_monotonic-Follows,
        )
        depth 20

  pub rearm_timer-Follows : (name : Text) → Keeps (Follows s) (rearm_timer outside name)
  unfolding rearm_timer
  rearm_timer-Follows name = search (follows_rules, rearm_with-Follows) depth 20

  pub timer_dep_check-Follows : Keeps (Follows s) (timer_dep_check outside)
  unfolding timer_dep_check
  timer_dep_check-Follows = search (follows_rules, rearm_timer-Follows)
