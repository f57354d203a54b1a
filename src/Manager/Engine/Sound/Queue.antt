-- ===== src/Manager/Engine/Sound/Queue.antt =====
-- rystemd/src/manager/mod.rs: how jobs advance, end and fail keeps what Follows says, where the calls
-- that are made do.
use rystemd.Prelude.{ℕ, refl, Option, false, Text, Bool}
use rystemd.Manager.State.{ControlCommand}
use rystemd.Manager.Action.Keeps.{Keeps, Keeps-modify, Keeps-pure}
use rystemd.Manager.Jobs.{JobKind, JobMode, Job}
use rystemd.Manager.Engine.{Manager, Outside, M}
use rystemd.Manager.Engine.Calls.{Call}
use rystemd.Manager.Engine.Queue.{
  check_start_limit, maybe_start_job, maybe_stop_job, stop_dependent, enqueue_stop_job_after_mode,
  advance_start, advance_stop, advance_by_kind, try_advance_job, advance_one, process_jobs,
  release_job, complete_for, on_job_completed, cancel_job, go_on, give_up, finish_job,
  finish_job_failed, poke_for, poke_failed, fire_on_failure, fail_job, fail_unit,
  complete_start_job, release_bus_name_watch, finalize_stop, do_start, do_stop,
}
use rystemd.Manager.Engine.Follows.{Follows, rest-Follows, follows_rules}
use rystemd.Manager.Engine.Sound.Timers.{timer_dep_check-Follows}
use rystemd.Manager.Engine.Sound.Types.{type_start-Follows, type_stop-Follows}
use rystemd.Manager.Engine.Sound.Expand.{enqueue_start_job_mode-Follows}

module _ (s : Manager) (outside : Outside) (rec : Call → M Unit)
    (rec_keeps : (c : Call) → Keeps (Follows s) (rec c)) where
  pub check_start_limit-Follows :
      (name : Text) → Keeps (Follows s) (check_start_limit outside rec name)
  unfolding check_start_limit
  check_start_limit-Follows name = search follows_rules depth 20

  pub maybe_start_job-Follows : (id : ℕ) → Keeps (Follows s) (maybe_start_job outside rec id)
  unfolding maybe_start_job
  maybe_start_job-Follows id = search (follows_rules, rec_keeps, check_start_limit-Follows) depth 30

  pub maybe_stop_job-Follows : (id : ℕ) → Keeps (Follows s) (maybe_stop_job outside rec id)
  unfolding maybe_stop_job
  maybe_stop_job-Follows id = search (follows_rules, rec_keeps) depth 30

  stop_dependent-Follows : (d : Text) → Keeps (Follows s) (stop_dependent outside rec d)
  unfolding stop_dependent
  stop_dependent-Follows d = search (follows_rules, rec_keeps) depth 20

  pub enqueue_stop_job_after_mode-Follows :
      (name : Text) (next : Option Text) (mode : JobMode)
      → Keeps (Follows s) (enqueue_stop_job_after_mode outside rec name next mode)
  unfolding enqueue_stop_job_after_mode
  enqueue_stop_job_after_mode-Follows name next mode =
      search (follows_rules, rec_keeps, stop_dependent-Follows) depth 30

  advance_start-Follows :
      (id : ℕ) (job : Job) → Keeps (Follows s) (advance_start outside rec id job)
  unfolding advance_start
  advance_start-Follows id job = search (follows_rules, rec_keeps) depth 20

  advance_stop-Follows : (id : ℕ) (job : Job) → Keeps (Follows s) (advance_stop outside rec id job)
  unfolding advance_stop
  advance_stop-Follows id job = search (follows_rules, rec_keeps) depth 20

  advance_by_kind-Follows :
      (id : ℕ) (job : Job) (kind : JobKind)
      → Keeps (Follows s) (advance_by_kind outside rec id job kind)
  unfolding advance_by_kind
  advance_by_kind-Follows id job JobKind.start = advance_start-Follows id job
  advance_by_kind-Follows id job JobKind.stop = advance_stop-Follows id job
  advance_by_kind-Follows id job JobKind.restart = Keeps-pure _

  try_advance_job-Follows : (id : ℕ) → Keeps (Follows s) (try_advance_job outside rec id)
  unfolding try_advance_job
  try_advance_job-Follows id = search (follows_rules, advance_by_kind-Follows) depth 20

  advance_one-Follows :
      (changed : Bool) (id : ℕ) → Keeps (Follows s) (advance_one outside rec changed id)
  unfolding advance_one
  advance_one-Follows changed id = search (follows_rules, try_advance_job-Follows) depth 20

  pub process_jobs-Follows : Keeps (Follows s) (process_jobs outside rec)
  unfolding process_jobs
  process_jobs-Follows = search (follows_rules, rec_keeps, advance_one-Follows) depth 20

  release_job-Follows :
      (unit : Text) (id : ℕ) (j : Job) → Keeps (Follows s) (release_job outside rec unit id j)
  unfolding release_job
  release_job-Follows unit id j = search (follows_rules, try_advance_job-Follows) depth 20

  complete_for-Follows :
      (unit : Text) (ok : Bool) (id : ℕ) → Keeps (Follows s) (complete_for outside rec unit ok id)
  unfolding complete_for
  complete_for-Follows unit ok id = search (follows_rules, release_job-Follows) depth 20

  pub on_job_completed-Follows :
      (unit : Text) (ok : Bool) → Keeps (Follows s) (on_job_completed outside rec unit ok)
  unfolding on_job_completed
  on_job_completed-Follows unit ok = search (follows_rules, complete_for-Follows) depth 20

  pub cancel_job-Follows :
      (id : ℕ) (message : Text) → Keeps (Follows s) (cancel_job outside rec id message)
  unfolding cancel_job
  cancel_job-Follows id message = search (follows_rules, rec_keeps) depth 20

  pub go_on-Follows : (job : Job) → Keeps (Follows s) (go_on outside rec job)
  unfolding go_on
  go_on-Follows job = search (follows_rules, rec_keeps, enqueue_start_job_mode-Follows) depth 30

  pub finish_job-Follows : (id : ℕ) → Keeps (Follows s) (finish_job outside rec id)
  unfolding finish_job
  finish_job-Follows id = search (follows_rules, go_on-Follows) depth 20

  pub give_up-Follows : (job : Job) → Keeps (Follows s) (give_up outside rec job)
  unfolding give_up
  give_up-Follows job = rec_keeps (Call.on_job_completed job.unit false)

  pub finish_job_failed-Follows : (id : ℕ) → Keeps (Follows s) (finish_job_failed outside rec id)
  unfolding finish_job_failed
  finish_job_failed-Follows id = search (follows_rules, give_up-Follows) depth 20

  poke_for-Follows : (name : Text) (id : ℕ) → Keeps (Follows s) (poke_for outside rec name id)
  unfolding poke_for
  poke_for-Follows name id = search (follows_rules, rec_keeps, release_job-Follows) depth 20

  pub poke_failed-Follows : (name : Text) → Keeps (Follows s) (poke_failed outside rec name)
  unfolding poke_failed
  poke_failed-Follows name = search (follows_rules, poke_for-Follows) depth 20

  pub fire_on_failure-Follows : (name : Text) → Keeps (Follows s) (fire_on_failure outside rec name)
  unfolding fire_on_failure
  fire_on_failure-Follows name = search (follows_rules, rec_keeps) depth 20

  fail_job-Follows : (name msg : Text) → Keeps (Follows s) (fail_job outside rec name msg)
  unfolding fail_job
  fail_job-Follows name msg = search (follows_rules, rec_keeps) depth 20

  pub fail_unit-Follows : (name msg : Text) → Keeps (Follows s) (fail_unit outside rec name msg)
  unfolding fail_unit
  fail_unit-Follows name msg = search (follows_rules, rec_keeps, fail_job-Follows) depth 30

  pub complete_start_job-Follows :
      (name : Text) → Keeps (Follows s) (complete_start_job outside rec name)
  unfolding complete_start_job
  complete_start_job-Follows name =
      search (follows_rules, rec_keeps, timer_dep_check-Follows) depth 20

  pub release_bus_name_watch-Follows :
      (name : Text) → Keeps (Follows s) (release_bus_name_watch outside rec name)
  unfolding release_bus_name_watch
  release_bus_name_watch-Follows name = Keeps-modify _ λ m v. rest-Follows s m _ v refl refl refl

  pub finalize_stop-Follows : (name : Text) → Keeps (Follows s) (finalize_stop outside rec name)
  unfolding finalize_stop
  finalize_stop-Follows name =
      search (follows_rules, rec_keeps, release_bus_name_watch-Follows, timer_dep_check-Follows)
        depth 30

module _ (s : Manager) (outside : Outside) (spawn_control : Text → ControlCommand → ℕ → M Unit)
    (rec : Call → M Unit) (rec_keeps : (c : Call) → Keeps (Follows s) (rec c))
    (spawn_keeps : (name : Text) (cmd : ControlCommand) (i : ℕ)
      → Keeps (Follows s) (spawn_control name cmd i)) where
  pub do_start-Follows : (name : Text) → Keeps (Follows s) (do_start outside spawn_control rec name)
  unfolding do_start
  do_start-Follows name =
      search (follows_rules, type_start-Follows s outside spawn_control rec rec_keeps spawn_keeps)
        depth 20

  pub do_stop-Follows : (name : Text) → Keeps (Follows s) (do_stop outside spawn_control rec name)
  unfolding do_stop
  do_stop-Follows name =
      search (follows_rules, type_stop-Follows s outside spawn_control rec rec_keeps spawn_keeps)
        depth 20
