-- ===== src/Manager/Engine/Spawn.antt =====
-- rystemd/src/manager/mod.rs: `spawn_control`, which runs one command of a service, and what follows the
-- last command of a stage. The log file descriptors of the process are left out.
use rystemd.Prelude.{
  ℕ, zero, suc, Bool, true, false, not, ◌&&◌, Option, none, some, List, [], ◌∷◌, ◌++◌,
  if◌then◌else◌, Text, codes, text_key, nat_key, insert,
}
use rystemd.Unit.Config.{
  ServiceConfig, ServiceType, simple, exec, oneshot, forking, dbus, idle, ExecCommand,
}
use rystemd.Manager.State.{
  ActiveState, SubState, UnitResult, success, ControlCommand, start_pre, start_post, stop, reload,
  kill, service_cfg,
}
use rystemd.Manager.Action.{pure, modify, if_some, on_option, on_result, when, ◌>>=◌, ◌>>◌}
use rystemd.Manager.Engine.{Outside, M, ask, the_unit, update_unit, enter}
use rystemd.Manager.Engine.Timers.{arm_start_timeout}
use rystemd.Manager.Engine.Calls.{Call}

unfoldable pub exec_slice : ServiceConfig → ControlCommand → List ExecCommand
exec_slice sc start_pre = sc.exec_start_pre
exec_slice sc ControlCommand.start = sc.exec_start
exec_slice sc start_post = sc.exec_start_post
exec_slice sc stop = sc.exec_stop
exec_slice sc reload = sc.exec_reload
exec_slice sc kill = sc.exec_start

-- The command at an index.
unfoldable pub command_at : ℕ → List ExecCommand → Option ExecCommand
command_at i [] = none
command_at zero (c ∷ cs) = some c
command_at (suc i) (c ∷ cs) = command_at i cs

abbrev pub is_start_command : ControlCommand → Bool
is_start_command ControlCommand.start = true
is_start_command _ = false

abbrev pub is_stop_command : ControlCommand → Bool
is_stop_command stop = true
is_stop_command _ = false

-- Types whose start command is the main process, and those of them that are active at once.
abbrev pub runs_main : ServiceType → Bool
runs_main oneshot = false
runs_main forking = false
runs_main _ = true

abbrev pub is_up_at_once : ServiceType → Bool
is_up_at_once simple = true
is_up_at_once exec = true
is_up_at_once idle = true
is_up_at_once _ = false

abbrev pub is_dbus : ServiceType → Bool
is_dbus dbus = true
is_dbus _ = false

abbrev pub is_forking : ServiceType → Bool
is_forking forking = true
is_forking _ = false

abbrev unresolved : Text → Text → Text
unresolved what name = what ++ codes "=" ++ name ++ codes " could not be resolved"

-- `pid_unit.insert(pid, name)`
unfoldable pub put_pid : ℕ → Text → M Unit
unfolding modify
put_pid pid name = modify (λ m. record m { pid_unit = insert pid name m.pid_unit })

unfoldable pub watch_bus_name : Text → Text → M Unit
unfolding modify
watch_bus_name name bus_name =
    modify (λ m. record m { pending_bus_names = insert bus_name name m.pending_bus_names })

module _ (outside : Outside) (rec : Call → M Unit) where
  unfoldable pub fail_with : Text → UnitResult → Text → M Unit
  unfolding update_unit ◌>>=◌
  fail_with name result msg = do
    update_unit name (λ u. record u { result = result })
    rec (Call.fail_unit name msg)

  -- The group is made where the unit has none and the system has groups.
  unfoldable pub ensure_cgroup : Text → M Unit
  unfolding the_unit on_option ask if_some update_unit pure ◌>>=◌
  ensure_cgroup name = do
    u ← the_unit name
    on_option u.cgroup
        (do
          made ← ask (λ n. outside.create_cgroup n name)
          if_some made λ dir. update_unit name (λ v. record v { cgroup = some dir }))
        λ _. pure tt

  unfoldable pub begin_bus_name_wait : Text → Option Text → M Unit
  unfolding on_option fail_with update_unit watch_bus_name ◌>>=◌
  begin_bus_name_wait name bus_name =
      on_option bus_name (fail_with name UnitResult.protocol (codes "Type=dbus without BusName="))
        λ bn. do
          update_unit name (λ u. record u { sub = SubState.waiting_for_bus })
          watch_bus_name name bn

  -- The start command of a type whose main process it is.
  unfoldable pub main_spawned : Text → ServiceConfig → ℕ → M Unit
  unfolding update_unit enter when begin_bus_name_wait arm_start_timeout ◌>>=◌
  main_spawned name sc pid = do
    update_unit name
        (λ u. record u { control_pid = none; control_command = none; main_pid = some pid })
    if is_up_at_once sc.service_type
        then (enter name outside.system_now ActiveState.active SubState.running success
            >> rec (Call.complete_start_job name))
        else do
          when (is_dbus sc.service_type) (begin_bus_name_wait name sc.bus_name)
          arm_start_timeout outside name

  -- The branch of `spawn_control` for a process that runs.
  unfoldable pub spawned : Text → ControlCommand → ServiceConfig → ℕ → M Unit
  unfolding put_pid ask update_unit main_spawned when arm_start_timeout ◌>>=◌
  spawned name cmd sc pid = do
    put_pid pid name
    now ← ask outside.now
    update_unit name (λ u. record u {
      control_pid = some pid;
      control_command = some cmd;
      group_pid = some pid;
      control_start = some now;
    })
    if is_start_command cmd && runs_main sc.service_type then main_spawned name sc pid else do
      when (is_start_command cmd && not (is_forking sc.service_type))
          (update_unit name (λ u. record u { sub = SubState.start }))
      arm_start_timeout outside name

  unfoldable pub spawn_now :
      Text → ControlCommand → ServiceConfig → ExecCommand → (ControlCommand → M Unit) → M Unit
  unfolding ensure_cgroup ask on_result fail_with spawned ◌>>=◌
  spawn_now name cmd sc command stage_end = do
    ensure_cgroup name
    answer ← ask (λ n. outside.spawn n name cmd command)
    on_result answer
        (λ e.
          if command.ignore_failure && not (is_stop_command cmd)
          then stage_end cmd
          else fail_with name UnitResult.exec (codes "Failed to execute: " ++ e))
        λ pid. spawned name cmd sc pid

  -- A name that is configured and not resolved.
  unfoldable pub unresolved_name : (ℕ → Text → Bool) → Option Text → M (Option Text)
  unfolding on_option ask pure ◌>>=◌
  unresolved_name resolve configured =
      on_option configured (pure none)
        λ name. do found ← ask (λ n. resolve n name); pure (if found then none else some name)

  unfoldable pub spawn_resolved :
      Text → ControlCommand → ServiceConfig → ExecCommand → (ControlCommand → M Unit) → M Unit
  unfolding ask on_result fail_with spawn_now ◌>>=◌
  spawn_resolved name cmd sc command stage_end =
      if not (is_start_command cmd) then spawn_now name cmd sc command stage_end else do
        applied ← ask (λ n. outside.apply_directories n sc)
        on_result applied (fail_with name UnitResult.resources)
            λ _. spawn_now name cmd sc command stage_end

  unfoldable pub spawn_command :
      Text → ControlCommand → ServiceConfig → ExecCommand → (ControlCommand → M Unit) → M Unit
  unfolding unresolved_name on_option fail_with spawn_resolved ◌>>=◌
  spawn_command name cmd sc command stage_end = do
    no_user ← unresolved_name outside.resolve_user sc.user
    on_option no_user
        (do
          no_group ← unresolved_name outside.resolve_group sc.group
          on_option no_group (spawn_resolved name cmd sc command stage_end)
              λ group. fail_with name UnitResult.group (unresolved (codes "Group") group))
        λ user. fail_with name UnitResult.user (unresolved (codes "User") user)

  -- `spawn_control` over what it does at the end of the stage.
  unfoldable pub launch : Text → ControlCommand → ℕ → (ControlCommand → M Unit) → M Unit
  unfolding the_unit service_cfg on_option exec_slice command_at spawn_command ◌>>=◌
  launch name cmd idx stage_end = do
    u ← the_unit name
    on_option (service_cfg u) (stage_end cmd) λ sc.
        on_option (command_at idx (exec_slice sc cmd)) (stage_end cmd)
          λ command. spawn_command name cmd sc command stage_end

  abbrev pub remains : Option ServiceConfig → Bool
  remains none = false
  remains (some sc) = sc.remain_after_exit

  -- The state of a service whose commands are done.
  unfoldable pub settle : Text → Bool → M Unit
  unfolding enter
  settle name remain =
      if remain
      then enter name outside.system_now ActiveState.active SubState.exited success
      else enter name outside.system_now ActiveState.inactive SubState.dead success

  unfoldable pub oneshot_done : Text → M Unit
  unfolding the_unit service_cfg settle ◌>>=◌
  oneshot_done name = do
    u ← the_unit name
    settle name (remains (service_cfg u))
    rec (Call.complete_start_job name)

  unfoldable pub run_main_start : Text → ℕ → M Unit
  unfolding launch oneshot_done
  run_main_start name idx = launch name ControlCommand.start idx λ _. oneshot_done name

  unfoldable pub stage_done : Text → ControlCommand → M Unit
  unfolding run_main_start oneshot_done pure
  stage_done name start_pre = run_main_start name 0
  stage_done name ControlCommand.start = oneshot_done name
  stage_done name stop = rec (Call.finalize_stop name)
  stage_done name _ = pure tt

  unfoldable pub spawn_control : Text → ControlCommand → ℕ → M Unit
  unfolding launch stage_done
  spawn_control name cmd idx = launch name cmd idx (stage_done name)
