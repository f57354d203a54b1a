-- ===== src/Manager/Engine/Sound/Spawn.antt =====
-- rystemd/src/manager/mod.rs: `spawn_control` keeps what Follows says, where the calls that it makes do.
use rystemd.Prelude.{ℕ, refl, Bool, Option, Text}
use rystemd.Unit.Config.{ServiceConfig, ExecCommand}
use rystemd.Manager.State.{ControlCommand, start_pre, start_post, stop, reload, kill, UnitResult}
use rystemd.Manager.Action.Keeps.{Keeps, Keeps-modify, Keeps-pure}
use rystemd.Manager.Engine.{Manager, Outside, M}
use rystemd.Manager.Engine.Calls.{Call}
use rystemd.Manager.Engine.Spawn.{
  put_pid, watch_bus_name, fail_with, ensure_cgroup, begin_bus_name_wait, main_spawned, spawned,
  spawn_now, unresolved_name, spawn_resolved, spawn_command, launch, settle, oneshot_done,
  run_main_start, stage_done, spawn_control,
}
use rystemd.Manager.Engine.Follows.{Follows, rest-Follows, follows_rules}
use rystemd.Manager.Engine.Sound.Timers.{arm_start_timeout-Follows}
use rystemd.Manager.Engine.Sound.Run.{SpawnFollows}

module _ (s : Manager) where
  pub put_pid-Follows : (pid : ℕ) (name : Text) → Keeps (Follows s) (put_pid pid name)
  unfolding put_pid
  put_pid-Follows pid name = Keeps-modify _ λ m v. rest-Follows s m _ v refl refl refl

  watch_bus_name-Follows : (name bus_name : Text) → Keeps (Follows s) (watch_bus_name name bus_name)
  unfolding watch_bus_name
  watch_bus_name-Follows name bus_name = Keeps-modify _ λ m v. rest-Follows s m _ v refl refl refl

module _ (s : Manager) (outside : Outside) (rec : Call → M Unit)
    (rec_keeps : (c : Call) → Keeps (Follows s) (rec c)) where
  pub fail_with-Follows :
      (name : Text) (result : UnitResult) (msg : Text)
      → Keeps (Follows s) (fail_with outside rec name result msg)
  unfolding fail_with
  fail_with-Follows name result msg = search (follows_rules, rec_keeps) depth 20

  ensure_cgroup-Follows : (name : Text) → Keeps (Follows s) (ensure_cgroup outside rec name)
  unfolding ensure_cgroup
  ensure_cgroup-Follows name = search follows_rules depth 20

  begin_bus_name_wait-Follows :
      (name : Text) (bus_name : Option Text)
      → Keeps (Follows s) (begin_bus_name_wait outside rec name bus_name)
  unfolding begin_bus_name_wait
  begin_bus_name_wait-Follows name bus_name =
      search (follows_rules, fail_with-Follows, watch_bus_name-Follows) depth 20

  main_spawned-Follows :
      (name : Text) (sc : ServiceConfig) (pid : ℕ)
      → Keeps (Follows s) (main_spawned outside rec name sc pid)
  unfolding main_spawned
  main_spawned-Follows name sc pid =
      search (follows_rules, rec_keeps, begin_bus_name_wait-Follows, arm_start_timeout-Follows)
        depth 20

  spawned-Follows :
      (name : Text) (cmd : ControlCommand) (sc : ServiceConfig) (pid : ℕ)
      → Keeps (Follows s) (spawned outside rec name cmd sc pid)
  unfolding spawned
  spawned-Follows name cmd sc pid =
      search (follows_rules, put_pid-Follows, main_spawned-Follows, arm_start_timeout-Follows) depth
        20

  module _ (stage_end : ControlCommand → M Unit)
      (end_keeps : (cmd : ControlCommand) → Keeps (Follows s) (stage_end cmd)) where
    spawn_now-Follows :
        (name : Text) (cmd : ControlCommand) (sc : ServiceConfig) (command : ExecCommand)
        → Keeps (Follows s) (spawn_now outside rec name cmd sc command stage_end)
    unfolding spawn_now
    spawn_now-Follows name cmd sc command =
        search (follows_rules, end_keeps, ensure_cgroup-Follows, fail_with-Follows, spawned-Follows)
          depth 20

    unresolved_name-Follows :
        (resolve : ℕ → Text → Bool) (configured : Option Text)
        → Keeps (Follows s) (unresolved_name outside rec resolve configured)
    unfolding unresolved_name
    unresolved_name-Follows resolve configured = search follows_rules depth 20

    spawn_resolved-Follows :
        (name : Text) (cmd : ControlCommand) (sc : ServiceConfig) (command : ExecCommand)
        → Keeps (Follows s) (spawn_resolved outside rec name cmd sc command stage_end)
    unfolding spawn_resolved
    spawn_resolved-Follows name cmd sc command =
        search (follows_rules, fail_with-Follows, spawn_now-Follows) depth 20

    spawn_command-Follows :
        (name : Text) (cmd : ControlCommand) (sc : ServiceConfig) (command : ExecCommand)
        → Keeps (Follows s) (spawn_command outside rec name cmd sc command stage_end)
    unfolding spawn_command
    spawn_command-Follows name cmd sc command =
        search (follows_rules, unresolved_name-Follows, fail_with-Follows, spawn_resolved-Follows)
          depth 20

    launch-Follows :
        (name : Text) (cmd : ControlCommand) (idx : ℕ)
        → Keeps (Follows s) (launch outside rec name cmd idx stage_end)
    unfolding launch
    launch-Follows name cmd idx = search (follows_rules, end_keeps, spawn_command-Follows) depth 20

  pub settle-Follows :
      (name : Text) (remain : Bool) → Keeps (Follows s) (settle outside rec name remain)
  unfolding settle
  settle-Follows name remain = search follows_rules depth 20

  pub oneshot_done-Follows : (name : Text) → Keeps (Follows s) (oneshot_done outside rec name)
  unfolding oneshot_done
  oneshot_done-Follows name = search (follows_rules, rec_keeps, settle-Follows) depth 20

  pub run_main_start-Follows :
      (name : Text) (idx : ℕ) → Keeps (Follows s) (run_main_start outside rec name idx)
  unfolding run_main_start
  run_main_start-Follows name idx =
      launch-Follows (λ _. oneshot_done outside rec name) (λ _. oneshot_done-Follows name) name
        ControlCommand.start idx

  stage_done-Follows :
      (name : Text) (cmd : ControlCommand) → Keeps (Follows s) (stage_done outside rec name cmd)
  unfolding stage_done
  stage_done-Follows name start_pre = run_main_start-Follows name 0
  stage_done-Follows name ControlCommand.start = oneshot_done-Follows name
  stage_done-Follows name stop = rec_keeps (Call.finalize_stop name)
  stage_done-Follows name start_post = Keeps-pure tt
  stage_done-Follows name reload = Keeps-pure tt
  stage_done-Follows name kill = Keeps-pure tt

  pub spawn_control-Follows :
      (name : Text) (cmd : ControlCommand) (idx : ℕ)
      → Keeps (Follows s) (spawn_control outside rec name cmd idx)
  unfolding spawn_control
  spawn_control-Follows name cmd idx =
      launch-Follows (stage_done outside rec name) (stage_done-Follows name) name cmd idx

-- The engine's hypothesis on spawning, for what the source does.
pub spawn_control-SpawnFollows : (outside : Outside) → SpawnFollows (spawn_control outside)
spawn_control-SpawnFollows outside = record {
  spawning = λ s rec k name cmd i. spawn_control-Follows s outside rec k name cmd i;
}
