-- ===== src/Manager/Engine/Calls.antt =====
-- rystemd/src/manager/mod.rs: the methods that call each other in circles, as the values that the
-- open recursion of Queue and Types is over. Run ties it.
use rystemd.Prelude.{ℕ, Bool, Text}

pub data Call : Type 0 where
  expand_start_job maybe_start_job maybe_stop_job finish_job finish_job_failed : ℕ → Call
  enqueue_stop_job start poke_failed fire_on_failure : Text → Call
  do_start do_stop complete_start_job finalize_stop : Text → Call
  process_jobs : Call
  on_job_completed : Text → Bool → Call
  fail_unit : Text → Text → Call
