-- ===== src/Manager/Engine/Sound/Exits.antt =====
-- rystemd/src/manager/mod.rs: exits, timers and reloads keep what Follows says, where the calls that they
-- make do.
use rystemd.Prelude.{ℕ, refl, Bool, Option, none, some, Text}
use rystemd.Unit.Config.{
  ServiceConfig, ServiceType, simple, exec, oneshot, forking, notify, dbus, idle,
}
use rystemd.Manager.State.{ActiveState, ControlCommand, start_pre, start_post, stop, reload, kill}
use rystemd.Manager.Timer.{
  TimerKind, restart_delay, start_timeout, stop_timeout, calendar_elapse, monotonic_elapse,
}
use rystemd.Manager.Action.Keeps.{Keeps, Keeps-change, Keeps-pure}
use rystemd.Manager.Engine.{Manager, Outside, M}
use rystemd.Manager.Engine.Calls.{Call}
use rystemd.Manager.Engine.Exits.{
  restart_later, handle_active_exit, starting_exit, exit_in_state, main_exit,
  run_start_post_or_finish, read_forked_pidfile, handle_forking_start_done, oneshot_exit,
  start_exit, command_exit, has_stop_job, handle_control_exit, handle_process_exit, forget_pid,
  reap_child,
}
use rystemd.Manager.Engine.Fire
use rystemd.Manager.Engine.Fire.{fire_service_timer, fire_unit_timer, fire_timer}
use rystemd.Manager.Engine.Follows.{Follows, rest-Follows, follows_rules}
use rystemd.Manager.Engine.Sound.Timers.{
  schedule_in-Follows, timer_dep_check-Follows, rearm_timer-Follows,
}
use rystemd.Manager.Engine.Sound.Queue.{
  check_start_limit-Follows, release_bus_name_watch-Follows, do_start-Follows,
}
use rystemd.Manager.Engine.Sound.Requests.{current_job-Follows}
use rystemd.Manager.Engine.Sound.Spawn.{
  fail_with-Follows, put_pid-Follows, settle-Follows, oneshot_done-Follows, run_main_start-Follows,
  spawn_control-Follows,
}

ruleset exit_rules = (
  follows_rules, check_start_limit-Follows, schedule_in-Follows, timer_dep_check-Follows,
  rearm_timer-Follows, settle-Follows, fail_with-Follows, put_pid-Follows, oneshot_done-Follows,
  run_main_start-Follows, spawn_control-Follows, release_bus_name_watch-Follows,
  current_job-Follows, do_start-Follows,
)

module _ (s : Manager) (outside : Outside) (rec : Call → M Unit)
    (rec_keeps : (c : Call) → Keeps (Follows s) (rec c)) where
  restart_later-Follows :
      (name : Text) (sc : Option ServiceConfig)
      → Keeps (Follows s) (restart_later outside rec name sc)
  unfolding restart_later
  restart_later-Follows name sc = search (exit_rules, rec_keeps) depth 20

  handle_active_exit-Follows :
      (name : Text) (code : ℕ) (signal : Option ℕ)
      → Keeps (Follows s) (handle_active_exit outside rec name code signal)
  unfolding handle_active_exit
  handle_active_exit-Follows name code signal =
      search (exit_rules, rec_keeps, restart_later-Follows) depth 20

  starting_exit-Follows :
      (name : Text) (good : Bool) (code : ℕ) (signal : Option ℕ)
      → Keeps (Follows s) (starting_exit outside rec name good code signal)
  unfolding starting_exit
  starting_exit-Follows name good code signal = search (exit_rules, rec_keeps) depth 20

  exit_in_state-Follows :
      (state : ActiveState) (name : Text) (good : Bool) (code : ℕ) (signal : Option ℕ)
      → Keeps (Follows s) (exit_in_state outside rec state name good code signal)
  unfolding exit_in_state
  exit_in_state-Follows ActiveState.deactivating name good code signal =
      rec_keeps (Call.finalize_stop name)
  exit_in_state-Follows ActiveState.activating name good code signal =
      starting_exit-Follows name good code signal
  exit_in_state-Follows ActiveState.active name good code signal =
      handle_active_exit-Follows name code signal
  exit_in_state-Follows ActiveState.inactive name good code signal =
      handle_active_exit-Follows name code signal
  exit_in_state-Follows ActiveState.failed name good code signal =
      handle_active_exit-Follows name code signal

  main_exit-Follows :
      (name : Text) (code : ℕ) (signal : Option ℕ)
      → Keeps (Follows s) (main_exit outside rec name code signal)
  unfolding main_exit
  main_exit-Follows name code signal = search (exit_rules, exit_in_state-Follows) depth 20

  run_start_post_or_finish-Follows :
      (name : Text) → Keeps (Follows s) (run_start_post_or_finish outside rec name)
  unfolding run_start_post_or_finish
  run_start_post_or_finish-Follows name = search (exit_rules, rec_keeps) depth 20

  read_forked_pidfile-Follows :
      (name : Text) → Keeps (Follows s) (read_forked_pidfile outside rec name)
  unfolding read_forked_pidfile
  read_forked_pidfile-Follows name = search exit_rules depth 20

  handle_forking_start_done-Follows :
      (name : Text) → Keeps (Follows s) (handle_forking_start_done outside rec name)
  unfolding handle_forking_start_done
  handle_forking_start_done-Follows name =
      search (exit_rules, rec_keeps, read_forked_pidfile-Follows) depth 20

  oneshot_exit-Follows :
      (name : Text) (sc : Option ServiceConfig) (idx : ℕ) (good : Bool) (code : ℕ)
      (signal : Option ℕ)
      → Keeps (Follows s) (oneshot_exit outside rec name sc idx good code signal)
  unfolding oneshot_exit
  oneshot_exit-Follows name sc idx good code signal =
      search (exit_rules, rec_keeps, run_start_post_or_finish-Follows) depth 20

  start_exit-Follows :
      (name : Text) (sc : Option ServiceConfig) (idx : ℕ) (good : Bool) (code : ℕ)
      (signal : Option ℕ) (type : ServiceType)
      → Keeps (Follows s) (start_exit outside rec name sc idx good code signal type)
  unfolding start_exit
  start_exit-Follows name sc idx good code signal oneshot =
      oneshot_exit-Follows name sc idx good code signal
  start_exit-Follows name sc idx good code signal forking = handle_forking_start_done-Follows name
  start_exit-Follows name sc idx good code signal simple = main_exit-Follows name code signal
  start_exit-Follows name sc idx good code signal exec = main_exit-Follows name code signal
  start_exit-Follows name sc idx good code signal notify = main_exit-Follows name code signal
  start_exit-Follows name sc idx good code signal dbus = main_exit-Follows name code signal
  start_exit-Follows name sc idx good code signal idle = main_exit-Follows name code signal

  command_exit-Follows :
      (name : Text) (sc : Option ServiceConfig) (idx : ℕ) (good : Bool) (code : ℕ)
      (signal : Option ℕ) (cmd : Option ControlCommand)
      → Keeps (Follows s) (command_exit outside rec name sc idx good code signal cmd)
  unfolding command_exit
  command_exit-Follows name sc idx good code signal (some start_pre) =
      search (exit_rules, rec_keeps) depth 20
  command_exit-Follows name sc idx good code signal (some ControlCommand.start) =
      start_exit-Follows name sc idx good code signal _
  command_exit-Follows name sc idx good code signal (some start_post) =
      search (exit_rules, rec_keeps) depth 20
  command_exit-Follows name sc idx good code signal (some stop) =
      rec_keeps (Call.finalize_stop name)
  command_exit-Follows name sc idx good code signal (some reload) = Keeps-pure tt
  command_exit-Follows name sc idx good code signal (some kill) = Keeps-pure tt
  command_exit-Follows name sc idx good code signal none = main_exit-Follows name code signal

  has_stop_job-Follows : (name : Text) → Keeps (Follows s) (has_stop_job outside rec name)
  unfolding has_stop_job
  has_stop_job-Follows name = search exit_rules depth 20

  handle_control_exit-Follows :
      (name : Text) (code : ℕ) (signal : Option ℕ)
      → Keeps (Follows s) (handle_control_exit outside rec name code signal)
  unfolding handle_control_exit
  handle_control_exit-Follows name code signal =
      search (exit_rules, rec_keeps, has_stop_job-Follows, command_exit-Follows) depth 20

  handle_process_exit-Follows :
      (name : Text) (pid code : ℕ) (signal : Option ℕ)
      → Keeps (Follows s) (handle_process_exit outside rec name pid code signal)
  unfolding handle_process_exit
  handle_process_exit-Follows name pid code signal =
      search (exit_rules, handle_control_exit-Follows, main_exit-Follows) depth 20

  forget_pid-Follows : (pid : ℕ) → Keeps (Follows s) (forget_pid outside rec pid)
  unfolding forget_pid
  forget_pid-Follows pid = Keeps-change _ λ m v. rest-Follows s m _ v refl refl refl

  pub reap_child-Follows :
      (pid code : ℕ) (signal : Option ℕ)
      → Keeps (Follows s) (reap_child outside rec pid code signal)
  unfolding reap_child
  reap_child-Follows pid code signal =
      search (exit_rules, forget_pid-Follows, handle_process_exit-Follows) depth 20

  fire_service_timer-Follows :
      (name : Text) (kind : TimerKind)
      → Keeps (Follows s) (fire_service_timer outside rec name kind)
  unfolding fire_service_timer
  fire_service_timer-Follows name restart_delay = search (exit_rules, rec_keeps) depth 20
  fire_service_timer-Follows name start_timeout = search (exit_rules, rec_keeps) depth 20
  fire_service_timer-Follows name stop_timeout = search (exit_rules, rec_keeps) depth 20
  fire_service_timer-Follows name (calendar_elapse i) = Keeps-pure tt
  fire_service_timer-Follows name monotonic_elapse = Keeps-pure tt

  fire_unit_timer-Follows :
      (name : Text) (kind : TimerKind) → Keeps (Follows s) (fire_unit_timer outside rec name kind)
  unfolding fire_unit_timer
  fire_unit_timer-Follows name kind = search (exit_rules, rec_keeps) depth 20

  pub fire_timer-Follows :
      (name : Text) (kind : TimerKind) → Keeps (Follows s) (fire_timer outside rec name kind)
  unfolding fire_timer
  fire_timer-Follows name kind =
      search (exit_rules, fire_unit_timer-Follows, fire_service_timer-Follows) depth 20

  pub reload-Follows : (name : Text) → Keeps (Follows s) (Fire.reload outside rec name)
  unfolding Fire.reload
  reload-Follows name = search (exit_rules, rec_keeps) depth 20
