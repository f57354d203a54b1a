-- ===== src/Manager/Engine/Timers.antt =====
-- rystemd/src/manager/mod.rs: the deadlines that the manager puts on its wheel. What `rearm_timer`
-- logs is nothing; a time span is a number of microseconds, the largest 64-bit one for "infinity".
use rystemd.Prelude.{
  ℕ, ◌+◌, ◌-◌, ◌*◌, ◌^◌, Option, none, some, List, [], ◌∷◌, ◌++◌, ◌==◌, leb, ltb, map,
  if◌then◌else◌, map_option, Text, Map,
}
use rystemd.Calendar.{CalendarSpec, DateTime, next_elapse}
use rystemd.Unit.Config.{UnitKind, TimerConfig}
use rystemd.Manager.State.{TimerState, ManagedUnit, timer_cfg, service_cfg, activated_unit}
use rystemd.Manager.Timer.{
  TimerWheel, TimerKind, start_timeout, stop_timeout, calendar_elapse, monotonic_elapse, schedule,
  cancel_by_unit, cancel_by_kind,
}
use rystemd.Manager.Action.{pure, gets, modify, for_each, if_some, on_option, ◌>>=◌, ◌>>◌}
use rystemd.Manager.Engine.{Outside, M, ask, find_unit, the_unit, update_unit, is_active}

-- `TimeSpan::as_duration`, in nanoseconds.
unfoldable pub as_duration : ℕ → Option ℕ
as_duration usec = if usec == 2 ^ 64 - 1 then none else some (usec * 1000)

unfoldable pub change_wheel : (TimerWheel → TimerWheel) → M Unit
unfolding modify
change_wheel f = modify (λ m. record m { wheel = f m.wheel })

module _ (outside : Outside) where
  -- `self.wheel.schedule(Instant::now() + d, kind, name)`
  unfoldable pub schedule_in : ℕ → TimerKind → Text → M Unit
  unfolding ask change_wheel schedule ◌>>=◌
  schedule_in d kind name = do
    now ← ask outside.now
    change_wheel (λ w. (schedule (now + d) kind name w).1)

  unfoldable pub arm_timeout : TimerKind → Option ℕ → Text → M Unit
  unfolding if_some as_duration schedule_in change_wheel cancel_by_kind ◌>>=◌
  arm_timeout kind limit name = if_some limit λ ts.
      if_some (as_duration ts)
        λ d. do change_wheel (cancel_by_kind name kind); schedule_in d kind name

  unfoldable pub arm_start_timeout : Text → M Unit
  unfolding the_unit service_cfg arm_timeout ◌>>=◌
  arm_start_timeout name = do
    u ← the_unit name
    arm_timeout start_timeout (map_option (λ s. s.timeout_start_sec) (service_cfg u)) name

  unfoldable pub arm_stop_timeout : Text → M Unit
  unfolding the_unit service_cfg arm_timeout ◌>>=◌
  arm_stop_timeout name = do
    u ← the_unit name
    arm_timeout stop_timeout (map_option (λ s. s.timeout_stop_sec) (service_cfg u)) name

  -- The loop over the calendar expressions: the earliest epoch, with the index of its first
  -- expression.
  abbrev sooner : ℕ → ℕ → Option (ℕ × ℕ) → Option (ℕ × ℕ)
  sooner epoch i none = some (epoch, i)
  sooner epoch i (some (e, j)) = if ltb epoch e then some (epoch, i) else some (e, j)

  abbrev after_spec : Option DateTime → ℕ → Option (ℕ × ℕ) → Option (ℕ × ℕ)
  after_spec none i next = next
  after_spec (some dt) i next = sooner (outside.epoch dt) i next

  unfoldable pub next_calendar_of :
      DateTime → ℕ → List CalendarSpec → Option (ℕ × ℕ) → Option (ℕ × ℕ)
  unfolding next_elapse
  next_calendar_of now i [] next = next
  next_calendar_of now i (spec ∷ specs) next =
      next_calendar_of now (i + 1) specs (after_spec (next_elapse outside.chrono spec now) i next)

  unfoldable pub min_of : Option ℕ → ℕ → Option ℕ
  min_of none b = some b
  min_of (some a) b = some (if leb a b then a else b)

  -- The loop over the time spans of one directive, from the instant that they count from.
  unfoldable pub next_monotonic_of : M ℕ → List ℕ → Option ℕ → M (Option ℕ)
  unfolding pure on_option as_duration min_of ◌>>=◌
  next_monotonic_of base [] next = pure next
  next_monotonic_of base (ts ∷ spans) next =
      on_option (as_duration ts) (next_monotonic_of base spans next)
        λ d. do b ← base; next_monotonic_of base spans (min_of next (b + d))

  -- `OnUnitActiveSec=` of an active target, `OnUnitInactiveSec=` of one that was active before.
  unfoldable pub next_from_target : TimerConfig → Option ManagedUnit → Option ℕ → M (Option ℕ)
  unfolding pure on_option ask next_monotonic_of
  next_from_target tc target next = on_option target (pure next) λ u.
      if is_active (some u)
      then next_monotonic_of (ask outside.now) tc.on_active_sec next
      else on_option u.active_enter (pure next)
          λ _. next_monotonic_of (ask outside.now) tc.on_inactive_sec next

  -- The first deadline on the wheel, and its wall-clock time.
  unfoldable pub schedule_calendar : Text → Option (ℕ × ℕ) → M (Option ℕ)
  unfolding pure on_option ask schedule_in ◌>>=◌
  schedule_calendar name next = on_option next (pure none) λ (epoch, i). do
    now_epoch ← ask outside.local_timestamp
    let delta = if leb (epoch - now_epoch) 1 then 1 else epoch - now_epoch
    schedule_in (delta * 10 ^ 9) (calendar_elapse i) name
    pure (some (epoch * 10 ^ 9))

  -- The second, and the earlier of the two wall-clock times.
  unfoldable pub schedule_instant : Text → ℕ → Option ℕ → M (Option ℕ)
  unfolding pure ask change_wheel schedule min_of ◌>>=◌
  schedule_instant name instant display = do
    system_now ← ask outside.system_now
    now ← ask outside.now
    change_wheel (λ w. (schedule instant monotonic_elapse name w).1)
    pure (min_of display (system_now + (instant - now)))

  unfoldable pub schedule_monotonic : Text → Option ℕ → Option ℕ → M (Option ℕ)
  unfolding pure on_option ask schedule_instant ◌>>=◌
  schedule_monotonic name next display = on_option next (pure display) λ instant. do
    now ← ask outside.now
    if leb now instant then schedule_instant name instant display else pure display

  -- The state of a timer that has none yet.
  abbrev pub state_or_new : TimerConfig → Option TimerState → TimerState
  state_or_new tc (some st) = st
  state_or_new tc none = record {
    next_calendar = none;
    next_monotonic = none;
    last_trigger = none;
    last_trigger_calendar = none;
    last_trigger_monotonic = none;
    last_result = none;
    next_display = none;
    spec_strings = map outside.spec_text tc.on_calendar;
  }

  -- `rearm_timer` from where the configuration is known.
  unfoldable pub rearm_with : Text → TimerConfig → M Unit
  unfolding the_unit update_unit ask next_calendar_of next_monotonic_of find_unit activated_unit
      next_from_target schedule_calendar schedule_monotonic gets ◌>>=◌
  rearm_with name tc = do
    u ← the_unit name
    let st = state_or_new tc u.timer
    update_unit name (λ v. record v { timer = none })
    now_civil ← ask outside.local_now
    let next_calendar = next_calendar_of now_civil 0 tc.on_calendar none
    from_boot ←
        next_monotonic_of (gets (λ m. m.boot_instant)) (tc.on_boot_sec ++ tc.on_startup_sec) none
    v ← the_unit name
    target ← find_unit (activated_unit v)
    next_mono ← next_from_target tc target from_boot
    calendar_display ← schedule_calendar name next_calendar
    next_display ← schedule_monotonic name next_mono calendar_display
    update_unit name (λ v. record v { timer = some (record st { next_display = next_display }) })

  unfoldable pub rearm_timer : Text → M Unit
  unfolding change_wheel cancel_by_unit gets the_unit timer_cfg rearm_with pure if_some ◌>>=◌
  rearm_timer name = do
    change_wheel (cancel_by_unit name)
    down ← gets (λ m. m.shutting_down)
    if down then pure tt else do u ← the_unit name; if_some (timer_cfg u) (rearm_with name)

  -- The names of the timers.
  abbrev pub timers_of : Map Text ManagedUnit → List Text
  timers_of [] = []
  timers_of ((n, u) ∷ units) = elim u.kind [
    | UnitKind.timer ↦ n ∷ timers_of units
    | _ ↦ timers_of units
  ]

  unfoldable pub timer_dep_check : M Unit
  unfolding gets for_each rearm_timer ◌>>=◌
  timer_dep_check = do timers ← gets (λ m. timers_of m.units); for_each rearm_timer timers
