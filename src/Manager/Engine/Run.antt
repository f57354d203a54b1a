-- ===== src/Manager/Engine/Run.antt =====
-- rystemd/src/manager/mod.rs: the methods of the job engine tied together. The fuel bounds how deep the
-- calls are nested; a run that is not deeper has the same outcome for every larger fuel.
use rystemd.Prelude.{ℕ, zero, suc, none, Text}
use rystemd.Manager.State.{ControlCommand}
use rystemd.Manager.Action.{pure, no_more_fuel, ◌>>=◌, ◌>>◌}
use rystemd.Manager.Jobs.{replace}
use rystemd.Manager.Engine.{Outside, M}
use rystemd.Manager.Engine.Calls.{Call}
use rystemd.Manager.Engine.Expand
use rystemd.Manager.Engine.Queue
use rystemd.Manager.Engine.Requests

-- `spawn_control`, which may call the engine.
abbrev pub Spawn : Type 0
Spawn = (Call → M Unit) → Text → ControlCommand → ℕ → M Unit

module _ (outside : Outside) (spawn_control : Spawn) where
  -- The method of a call.
  unfoldable pub body : (Call → M Unit) → Call → M Unit
  unfolding pure ◌>>=◌ Expand.expand_start_job Queue.maybe_start_job Queue.maybe_stop_job
      Queue.finish_job Queue.finish_job_failed Queue.enqueue_stop_job_after_mode
      Requests.start_with_mode Queue.poke_failed Queue.fire_on_failure Queue.do_start Queue.do_stop
      Queue.complete_start_job Queue.finalize_stop Queue.process_jobs Queue.on_job_completed
      Queue.fail_unit
  body rec (Call.expand_start_job id) = Expand.expand_start_job outside rec id
  body rec (Call.maybe_start_job id) = Queue.maybe_start_job outside rec id
  body rec (Call.maybe_stop_job id) = Queue.maybe_stop_job outside rec id
  body rec (Call.finish_job id) = Queue.finish_job outside rec id
  body rec (Call.finish_job_failed id) = Queue.finish_job_failed outside rec id
  body rec (Call.enqueue_stop_job name) = do
    Queue.enqueue_stop_job_after_mode outside rec name none replace
    pure tt
  body rec (Call.start name) = do Requests.start_with_mode outside rec name replace; pure tt
  body rec (Call.poke_failed name) = Queue.poke_failed outside rec name
  body rec (Call.fire_on_failure name) = Queue.fire_on_failure outside rec name
  body rec (Call.do_start name) = Queue.do_start outside (spawn_control rec) rec name
  body rec (Call.do_stop name) = Queue.do_stop outside (spawn_control rec) rec name
  body rec (Call.complete_start_job name) = Queue.complete_start_job outside rec name
  body rec (Call.finalize_stop name) = Queue.finalize_stop outside rec name
  body rec Call.process_jobs = Queue.process_jobs outside rec
  body rec (Call.on_job_completed unit ok) = Queue.on_job_completed outside rec unit ok
  body rec (Call.fail_unit name msg) = Queue.fail_unit outside rec name msg

  unfoldable pub run : ℕ → Call → M Unit
  unfolding body no_more_fuel
  run zero call = no_more_fuel
  run (suc n) call = body (run n) call
