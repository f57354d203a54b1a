-- ===== src/Manager/Engine/Exits.antt =====
-- rystemd/src/manager/mod.rs: what the exit of a process does to its unit, and the timers of services.
-- The signals to what is left of a process group are left out: they change nothing of the manager.
use rystemd.Prelude.{
  ℕ, ◌+◌, ◌%◌, ◌^◌, Bool, true, false, not, ◌&&◌, ◌||◌, ◌==◌, Option, none, some, List, [], ◌∷◌,
  ◌++◌, if◌then◌else◌, Text, codes, text_key, nat_key, get, remove, length, ltb,
}
use rystemd.Unit.Config.{
  UnitKind, ServiceConfig, ServiceType, simple, oneshot, forking, ExecCommand, RestartPolicy, never,
  on_success, on_failure, on_abnormal, on_abort, on_watchdog, always, is_some,
}
use rystemd.Unit.Exit.{effective_exit_success, status_matches}
use rystemd.Manager.State.{
  ActiveState, SubState, UnitResult, success, ControlCommand, start_pre, start_post, stop, reload,
  kill, ManagedUnit, service_cfg,
}
use rystemd.Manager.Timer.{restart_delay}
use rystemd.Manager.Action.{pure, change, if_some, on_option, ◌>>=◌, ◌>>◌}
use rystemd.Manager.Jobs.{is_stop}
use rystemd.Manager.Engine.{Outside, M, ask, find_unit, the_unit, update_unit, enter}
use rystemd.Manager.Engine.Timers.{as_duration, schedule_in, timer_dep_check}
use rystemd.Manager.Engine.Calls.{Call}
use rystemd.Manager.Engine.Queue.{check_start_limit, release_bus_name_watch}
use rystemd.Manager.Engine.Requests.{current_job}
use rystemd.Manager.Engine.Spawn.{
  fail_with, put_pid, command_at, settle, remains, oneshot_done, run_main_start, spawn_control,
}

-- Whether an exit is a success; without a service, code 0 is.
unfoldable pub exit_ok : Option ServiceConfig → ℕ → Option ℕ → Bool
unfolding effective_exit_success status_matches
exit_ok (some sc) code (some sig) = status_matches (effective_exit_success sc) none (some sig)
exit_ok (some sc) code none = status_matches (effective_exit_success sc) (some code) none
exit_ok none code signal = code == 0 && not (is_some signal)

abbrev pub failure_result : Option ℕ → UnitResult
failure_result none = UnitResult.exit_code
failure_result (some _) = UnitResult.signal

unfoldable pub should_restart : RestartPolicy → Bool → Option ℕ → Bool
should_restart never good signal = false
should_restart always good signal = true
should_restart on_success good signal = good
should_restart on_failure good signal = not good
should_restart on_abnormal good signal = is_some signal
should_restart on_abort good signal = is_some signal
should_restart on_watchdog good signal = false

abbrev pub policy_of : Option ServiceConfig → RestartPolicy
policy_of none = never
policy_of (some sc) = sc.restart

abbrev zero_if_none : Option ℕ → ℕ
zero_if_none none = 0
zero_if_none (some d) = d

abbrev pub restart_delay_of : Option ServiceConfig → ℕ
restart_delay_of none = 0
restart_delay_of (some sc) = zero_if_none (as_duration sc.restart_sec)

-- Whether the failure of the start command at an index counts for nothing.
abbrev ignores_failure : Option ServiceConfig → Option ControlCommand → ℕ → Bool
ignores_failure (some sc) (some ControlCommand.start) idx =
    elim (command_at idx sc.exec_start) as (λ _. Bool) [ none ↦ false | some c ↦ c.ignore_failure ]
ignores_failure _ _ idx = false

abbrev commands_of : Option ServiceConfig → List ExecCommand
commands_of none = []
commands_of (some sc) = sc.exec_start

abbrev post_commands_of : Option ServiceConfig → List ExecCommand
post_commands_of none = []
post_commands_of (some sc) = sc.exec_start_post

abbrev type_of : Option ServiceConfig → ServiceType
type_of none = simple
type_of (some sc) = sc.service_type

abbrev has_some : List ExecCommand → Bool
has_some [] = false
has_some (_ ∷ _) = true

-- The unit without its main process, with the exit noted.
abbrev pub without_main : ℕ → Option ℕ → ManagedUnit → ManagedUnit
without_main code signal u = record u {
  main_pid = none;
  group_pid = none;
  last_exit_code = if is_some signal then none else some code;
  last_exit_signal = signal;
}

module _ (outside : Outside) (rec : Call → M Unit) where
  -- A restart, where the start limit is not hit.
  unfoldable pub restart_later : Text → Option ServiceConfig → M Unit
  unfolding check_start_limit update_unit enter schedule_in ◌>>=◌
  restart_later name sc = do
    limited ← check_start_limit outside rec name
    if limited
        then (do
          update_unit name (λ u. record u { result = UnitResult.start_limit_hit })
          enter name outside.system_now ActiveState.failed SubState.failed
              UnitResult.start_limit_hit
          rec (Call.poke_failed name))
        else do
          enter name outside.system_now ActiveState.activating SubState.auto_restart success
          update_unit name (λ u. record u { n_restarts = (u.n_restarts + 1) % 2 ^ 64 })
          schedule_in outside (restart_delay_of sc) restart_delay name

  unfoldable pub handle_active_exit : Text → ℕ → Option ℕ → M Unit
  unfolding the_unit service_cfg exit_ok should_restart restart_later settle timer_dep_check
      update_unit enter ◌>>=◌
  handle_active_exit name code signal = do
    u ← the_unit name
    let sc = service_cfg u
    let good = exit_ok sc code signal
    if should_restart (policy_of sc) good signal
        then restart_later name sc
        else if good
        then (do
          settle outside rec name (remains outside rec sc)
          rec (Call.complete_start_job name)
          timer_dep_check outside)
        else do
          update_unit name (λ v. record v { result = failure_result signal })
          enter name outside.system_now ActiveState.failed SubState.failed (failure_result signal)
          rec (Call.poke_failed name)
          rec (Call.fire_on_failure name)

  -- The main process of a unit that starts.
  unfoldable pub starting_exit : Text → Bool → ℕ → Option ℕ → M Unit
  unfolding release_bus_name_watch enter fail_with ◌>>=◌
  starting_exit name good code signal = do
    release_bus_name_watch outside rec name
    if good
        then enter name outside.system_now ActiveState.inactive SubState.dead success
        else fail_with outside rec name (failure_result signal) (outside.describe_exit code signal)

  unfoldable pub exit_in_state : ActiveState → Text → Bool → ℕ → Option ℕ → M Unit
  unfolding starting_exit handle_active_exit
  exit_in_state ActiveState.deactivating name good code signal = rec (Call.finalize_stop name)
  exit_in_state ActiveState.activating name good code signal = starting_exit name good code signal
  exit_in_state _ name good code signal = handle_active_exit name code signal

  unfoldable pub main_exit : Text → ℕ → Option ℕ → M Unit
  unfolding update_unit the_unit service_cfg exit_ok exit_in_state ◌>>=◌
  main_exit name code signal = do
    update_unit name (without_main code signal)
    u ← the_unit name
    exit_in_state u.active name (exit_ok (service_cfg u) code signal) code signal

  unfoldable pub run_start_post_or_finish : Text → M Unit
  unfolding the_unit service_cfg spawn_control oneshot_done ◌>>=◌
  run_start_post_or_finish name = do
    u ← the_unit name
    if has_some (post_commands_of (service_cfg u))
        then spawn_control outside rec name start_post 0
        else oneshot_done outside rec name

  abbrev pid_file_of : Option ServiceConfig → Option Text
  pid_file_of none = none
  pid_file_of (some sc) = sc.pid_file

  unfoldable pub read_forked_pidfile : Text → M (Option ℕ)
  unfolding the_unit service_cfg on_option ask pure ◌>>=◌
  read_forked_pidfile name = do
    u ← the_unit name
    on_option (pid_file_of (service_cfg u)) (pure none)
        λ path. ask (λ n. outside.read_pidfile n path)

  unfoldable pub handle_forking_start_done : Text → M Unit
  unfolding read_forked_pidfile if_some update_unit put_pid enter ◌>>=◌
  handle_forking_start_done name = do
    found ← read_forked_pidfile name
    if_some found λ pid. do
      update_unit name (λ u. record u { forked_main_pid = some pid; main_pid = some pid })
      put_pid pid name
    enter name outside.system_now ActiveState.active SubState.running success
    rec (Call.complete_start_job name)

  -- The next command of a oneshot, or what is behind its last one.
  unfoldable pub oneshot_exit : Text → Option ServiceConfig → ℕ → Bool → ℕ → Option ℕ → M Unit
  unfolding update_unit spawn_control run_start_post_or_finish fail_with ◌>>=◌
  oneshot_exit name sc idx good code signal =
      if not good
      then fail_with outside rec name UnitResult.exit_code
          (codes "ExecStart failed: " ++ outside.describe_exit code signal)
      else if ltb (idx + 1) (length (commands_of sc))
      then (update_unit name (λ u. record u { cmd_index = idx + 1 })
          >> spawn_control outside rec name ControlCommand.start (idx + 1))
      else update_unit name (λ u. record u { cmd_index = 0 }) >> run_start_post_or_finish name

  unfoldable pub start_exit :
      Text → Option ServiceConfig → ℕ → Bool → ℕ → Option ℕ → ServiceType → M Unit
  unfolding oneshot_exit handle_forking_start_done main_exit
  start_exit name sc idx good code signal oneshot = oneshot_exit name sc idx good code signal
  start_exit name sc idx good code signal forking = handle_forking_start_done name
  start_exit name sc idx good code signal _ = main_exit name code signal

  -- The `match ccmd`.
  unfoldable pub command_exit :
      Text → Option ServiceConfig → ℕ → Bool → ℕ → Option ℕ → Option ControlCommand → M Unit
  unfolding run_main_start fail_with start_exit settle main_exit pure ◌>>=◌
  command_exit name sc idx good code signal (some start_pre) =
      if good
      then run_main_start outside rec name 0
      else fail_with outside rec name UnitResult.exit_code
          (codes "ExecStartPre failed: " ++ outside.describe_exit code signal)
  command_exit name sc idx good code signal (some ControlCommand.start) =
      start_exit name sc idx good code signal (type_of sc)
  command_exit name sc idx good code signal (some start_post) = do
    settle outside rec name (remains outside rec sc)
    rec (Call.complete_start_job name)
  command_exit name sc idx good code signal (some stop) = rec (Call.finalize_stop name)
  command_exit name sc idx good code signal (some reload) = pure tt
  command_exit name sc idx good code signal (some kill) = pure tt
  command_exit name sc idx good code signal none = main_exit name code signal

  abbrev is_stop_exit : Option ControlCommand → Bool
  is_stop_exit (some stop) = true
  is_stop_exit _ = false

  abbrev is_deactivating : ActiveState → Bool
  is_deactivating ActiveState.deactivating = true
  is_deactivating _ = false

  -- Whether the unit's job is a stop.
  unfoldable pub has_stop_job : Text → M Bool
  unfolding current_job on_option pure ◌>>=◌
  has_stop_job name = do
    current ← current_job name
    on_option current (pure false) λ (id, job). pure (is_stop job.kind)

  unfoldable pub handle_control_exit : Text → ℕ → Option ℕ → M Unit
  unfolding the_unit service_cfg update_unit has_stop_job exit_ok command_exit pure ◌>>=◌
  handle_control_exit name code signal = do
    u ← the_unit name
    let sc = service_cfg u
    update_unit name
        (λ v. record v { control_pid = none; group_pid = none; control_command = none })
    stops ← has_stop_job name
    let good = exit_ok sc code signal || ignores_failure sc u.control_command u.cmd_index
    if is_stop_exit u.control_command && not stops
        then pure tt
        else if is_deactivating u.active
        then rec (Call.finalize_stop name)
        else command_exit name sc u.cmd_index good code signal u.control_command

  abbrev is_target : Option ManagedUnit → Bool
  is_target none = false
  is_target (some u) = elim u.kind [ UnitKind.target ↦ true | _ ↦ false ]

  abbrev is_control : Option ManagedUnit → ℕ → Bool
  is_control none pid = false
  is_control (some u) pid = elim u.control_pid as (λ _. Bool) [ none ↦ false | some p ↦ p == pid ]

  unfoldable pub handle_process_exit : Text → ℕ → ℕ → Option ℕ → M Unit
  unfolding find_unit handle_control_exit main_exit pure ◌>>=◌
  handle_process_exit name pid code signal = do
    found ← find_unit name
    if is_target found
        then pure tt
        else if is_control found pid
        then handle_control_exit name code signal
        else main_exit name code signal

  -- `pid_unit.remove(&pid)`
  unfoldable pub forget_pid : ℕ → M (Option Text)
  unfolding change
  forget_pid pid = change (λ m. (get pid m.pid_unit, record m { pid_unit = remove pid m.pid_unit }))

  -- The body of the loop of `reap`; the code of a process that a signal ended is 0.
  unfoldable pub reap_child : ℕ → ℕ → Option ℕ → M Unit
  unfolding forget_pid if_some handle_process_exit ◌>>=◌
  reap_child pid code signal = do
    found ← forget_pid pid
    if_some found λ name. handle_process_exit name pid code signal
