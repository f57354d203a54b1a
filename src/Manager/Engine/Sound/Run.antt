-- ===== src/Manager/Engine/Sound/Run.antt =====
-- rystemd/src/manager/mod.rs: whatever the job engine is asked to do, and however deep its calls go.
use rystemd.Prelude.{ℕ, zero, suc, Text, text_key, nat_key}
use rystemd.Manager.State.{ControlCommand}
use rystemd.Manager.Action.Keeps.{Keeps}
use rystemd.Manager.Engine.{Manager, Outside, M}
use rystemd.Manager.Engine.Calls.{Call}
use rystemd.Manager.Engine.Run.{Spawn, body, run}
use rystemd.Manager.Engine.Follows.{Follows, follows_rules}
use rystemd.Manager.Engine.Sound.Expand.{expand_start_job-Follows}
use rystemd.Manager.Engine.Sound.Queue.{
  maybe_start_job-Follows, maybe_stop_job-Follows, finish_job-Follows, finish_job_failed-Follows,
  enqueue_stop_job_after_mode-Follows, poke_failed-Follows, fire_on_failure-Follows,
  do_start-Follows, do_stop-Follows, complete_start_job-Follows, finalize_stop-Follows,
  process_jobs-Follows, on_job_completed-Follows, fail_unit-Follows,
}
use rystemd.Manager.Engine.Sound.Requests.{LoadsStamped, start_with_mode-Follows}

-- Spawning commands keeps what the calls that it makes keep.
pub record SpawnFollows (spawn_control : Spawn) : Type 0 where
  pub spawning :
      (s : Manager) (rec : Call → M Unit)
      → ((c : Call) → Keeps (Follows s) (rec c))
      → (name : Text) (cmd : ControlCommand) (i : ℕ)
      → Keeps (Follows s) (spawn_control rec name cmd i)

module _ (outside : Outside) (spawn_control : Spawn) (loads : LoadsStamped outside)
    (spawns : SpawnFollows spawn_control) (s : Manager) where
  module _ (rec : Call → M Unit) (k : (c : Call) → Keeps (Follows s) (rec c)) where
    body-Follows : (c : Call) → Keeps (Follows s) (body outside spawn_control rec c)
    unfolding body
    body-Follows (Call.expand_start_job id) = expand_start_job-Follows s outside rec k id
    body-Follows (Call.maybe_start_job id) = maybe_start_job-Follows s outside rec k id
    body-Follows (Call.maybe_stop_job id) = maybe_stop_job-Follows s outside rec k id
    body-Follows (Call.finish_job id) = finish_job-Follows s outside rec k id
    body-Follows (Call.finish_job_failed id) = finish_job_failed-Follows s outside rec k id
    body-Follows (Call.enqueue_stop_job name) =
        search (follows_rules, enqueue_stop_job_after_mode-Follows s outside rec k)
    body-Follows (Call.start name) =
        search (follows_rules, start_with_mode-Follows s outside rec k loads)
    body-Follows (Call.poke_failed name) = poke_failed-Follows s outside rec k name
    body-Follows (Call.fire_on_failure name) = fire_on_failure-Follows s outside rec k name
    body-Follows (Call.do_start name) =
        do_start-Follows s outside (spawn_control rec) rec k (spawns.spawning s rec k) name
    body-Follows (Call.do_stop name) =
        do_stop-Follows s outside (spawn_control rec) rec k (spawns.spawning s rec k) name
    body-Follows (Call.complete_start_job name) = complete_start_job-Follows s outside rec k name
    body-Follows (Call.finalize_stop name) = finalize_stop-Follows s outside rec k name
    body-Follows Call.process_jobs = process_jobs-Follows s outside rec k
    body-Follows (Call.on_job_completed unit ok) = on_job_completed-Follows s outside rec k unit ok
    body-Follows (Call.fail_unit name msg) = fail_unit-Follows s outside rec k name msg

  pub run-Follows : (n : ℕ) (c : Call) → Keeps (Follows s) (run outside spawn_control n c)
  unfolding run
  run-Follows zero c = search follows_rules
  run-Follows (suc n) c = body-Follows (run outside spawn_control n) (run-Follows n) c
