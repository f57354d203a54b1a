-- ===== src/Manager/Engine/Fire.antt =====
-- rystemd/src/manager/mod.rs: the timers that fire, and the reload of a service.
use rystemd.Prelude.{
  ℕ, ◌/◌, ◌^◌, Bool, true, false, not, Option, none, some, [], ◌∷◌, ◌++◌, if◌then◌else◌, map_option,
  Text, codes, text_key, Result, ok, err,
}
use rystemd.Unit.Config.{UnitKind, ServiceConfig}
use rystemd.Manager.State.{
  ActiveState, SubState, UnitResult, ControlCommand, ManagedUnit, TimerState, service_cfg,
  activated_unit,
}
use rystemd.Manager.Timer.{
  TimerKind, restart_delay, start_timeout, stop_timeout, calendar_elapse, monotonic_elapse,
}
use rystemd.Manager.Action.{pure, when, ◌>>=◌, ◌>>◌}
use rystemd.Manager.Engine.{Outside, M, ask, find_unit, the_unit, update_unit, has_unit}
use rystemd.Manager.Engine.Timers.{rearm_timer}
use rystemd.Manager.Engine.Calls.{Call}
use rystemd.Manager.Engine.Expand.{not_found}
use rystemd.Manager.Engine.Queue.{do_start}
use rystemd.Manager.Engine.Spawn.{fail_with, spawn_control}

abbrev waits_for_restart : Option ManagedUnit → Bool
waits_for_restart none = false
waits_for_restart (some u) = elim u.sub [ SubState.auto_restart ↦ true | _ ↦ false ]

abbrev pub is_activating : Option ManagedUnit → Bool
is_activating none = false
is_activating (some u) = elim u.active [ ActiveState.activating ↦ true | _ ↦ false ]

abbrev is_stopping : Option ManagedUnit → Bool
is_stopping none = false
is_stopping (some u) = elim u.active [ ActiveState.deactivating ↦ true | _ ↦ false ]

abbrev is_timer : Option ManagedUnit → Bool
is_timer none = false
is_timer (some u) = elim u.kind [ UnitKind.timer ↦ true | _ ↦ false ]

-- What `fire_timer` notes at the wall-clock time and the instant.
abbrev triggered : TimerKind → ℕ → ℕ → TimerState → TimerState
triggered (calendar_elapse i) system_now now ts = record ts {
  last_trigger = some system_now;
  last_trigger_calendar = some (system_now / 10 ^ 9, i);
}
triggered monotonic_elapse system_now now ts = record ts {
  last_trigger = some system_now;
  last_trigger_monotonic = some now;
}
triggered _ system_now now ts = record ts { last_trigger = some system_now }

abbrev reload_commands : Option ServiceConfig → Bool
reload_commands none = false
reload_commands (some sc) = elim sc.exec_reload [ [] ↦ false | _ ∷ _ ↦ true ]

module _ (outside : Outside) (rec : Call → M Unit) where
  unfoldable pub fire_service_timer : Text → TimerKind → M Unit
  unfolding find_unit when do_start spawn_control fail_with pure ◌>>=◌
  fire_service_timer name restart_delay = do
    found ← find_unit name
    when (waits_for_restart found)
        (do_start outside (spawn_control outside rec) rec name >> rec Call.process_jobs)
  fire_service_timer name start_timeout = do
    found ← find_unit name
    when (is_activating found)
        (fail_with outside rec name UnitResult.timeout (codes "start operation timed out"))
  fire_service_timer name stop_timeout = do
    found ← find_unit name
    when (is_stopping found) (rec (Call.finalize_stop name))
  fire_service_timer name _ = pure tt

  -- The part for a timer unit.
  unfoldable pub fire_unit_timer : Text → TimerKind → M Unit
  unfolding the_unit activated_unit ask update_unit rearm_timer ◌>>=◌
  fire_unit_timer name kind = do
    u ← the_unit name
    system_now ← ask outside.system_now
    now ← ask outside.now
    update_unit name (λ v. record v { timer = map_option (triggered kind system_now now) v.timer })
    rec (Call.start (activated_unit u))
    rearm_timer outside name
    rec Call.process_jobs

  unfoldable pub fire_timer : Text → TimerKind → M Unit
  unfolding find_unit fire_unit_timer fire_service_timer ◌>>=◌
  fire_timer name kind = do
    found ← find_unit name
    if is_timer found then fire_unit_timer name kind else fire_service_timer name kind

  unfoldable pub reload : Text → M (Result {0, 0} Unit Text)
  unfolding has_unit the_unit service_cfg spawn_control pure ◌>>=◌
  reload name = do
    known ← has_unit name
    if not known then pure (err (not_found name)) else do
      u ← the_unit name
      if not (reload_commands (service_cfg u))
          then pure (err (codes "Unit " ++ name ++ codes " has no ExecReload."))
          else do spawn_control outside rec name ControlCommand.reload 0; pure (ok tt)
