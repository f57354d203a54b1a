-- ===== src/Manager/Engine/Results.antt =====
-- rystemd/src/manager/mod.rs: the results of jobs that end.
use rystemd.Prelude.{
  ℕ, zero, suc, ◌≡◌, subst, Bool, true, false, Option, none, some, ==_iff, Text, get, text_key,
  nat_key, get-insert, arith,
}
use rystemd.Manager.Action.{done, continue, ◌>>=◌, change, if_some, no_more_fuel}
use rystemd.Manager.Action.Keeps.{Keeps, Returned}
use rystemd.Manager.Jobs.{Job, JobTable, retire, record_job_result, remove_job}
use rystemd.Manager.Engine.{Manager, Outside, M, close_job, retire_found}
use rystemd.Manager.Engine.Calls.{Call}
use rystemd.Manager.Engine.Run.{Spawn, body, run}
use rystemd.Manager.Engine.Queue.{finish_job, finish_job_failed, go_on, give_up}
use rystemd.Manager.Engine.Follows.{Follows, close_job-Follows}
use rystemd.Manager.Engine.Sound.Requests.{LoadsStamped}
use rystemd.Manager.Engine.Sound.Run.{SpawnFollows, run-Follows}
use rystemd.Manager.Engine.Sound.Queue.{go_on-Follows, give_up-Follows}
use rystemd.Manager.Engine.Reach.{IsSound, Follows-start}

-- The state behind `close_job` of a job that is in the table.
abbrev closed : ℕ → Bool → Option Text → Job → Manager → Manager
closed id ok error job m = record m { table = retire id job.unit ok error m.table }

pub retire_result :
    (id : ℕ) (ok : Bool) (error : Option Text) (job : Job) (t : JobTable)
    → get id t.jobs ≡ some job
    → get id (retire id job.unit ok error t).completed_jobs
      ≡ some (record { id = id; unit = job.unit; ok = ok; error = error })
unfolding retire remove_job record_job_result
retire_result id ok error job t h =
    rw (h, retire, remove_job, record_job_result) ground
      (
        arith,
        get-insert id id (record { id = id; unit = job.unit; ok = ok; error = error })
            t.completed_jobs,
        ==_iff id id,
      )

module _ (outside : Outside) (spawn_control : Spawn) (loads : LoadsStamped outside)
    (spawns : SpawnFollows spawn_control) where
  -- The shared step: an action that starts by closing the job, and goes on in a way that keeps what
  -- Follows says.
  closing_lem :
      (s m' : Manager) (id : ℕ) (job : Job) (ok : Bool) (error : Job → Option Text)
      (k : Job → M Unit)
      → IsSound s
      → get id s.table.jobs ≡ some job
      → ((s' : Manager) (j : Job) → Keeps (Follows s') (k j))
      → (close_job id ok error >>= λ found. if_some found k) s ≡ done tt m'
      → (get id m'.table.completed_jobs
          ≡ some (record { id = id; unit = job.unit; ok = ok; error = error job }))
        × (get id m'.table.jobs ≡ none)
  unfolding close_job change ◌>>=◌ continue if_some
  closing_lem s m' id job ok error k v h keeps e =
      let s1 = closed id ok (error job) job s in
      let f0 : Follows s s1 =
        subst (λ o. Follows s (record s { table = retire_found id ok error o s.table })) h
          ((close_job-Follows s id ok error).at s (Follows-start s v.table)) in
      let e1 : k job s1 ≡ done tt m' =
        subst
          (λ o. if_some o k (record s { table = retire_found id ok error o s.table }) ≡ done tt m')
          h e in
      let f1 : Follows s1 m' =
        subst (Returned (Follows s1)) e1
          ((keeps s1 job).at s1 (Follows-start s1 f0.table.consistent)) in
      let r = f1.table.kept id _ (retire_result id ok (error job) job s.table h) in
      (r, f1.table.consistent.apart id _ r)

  -- From a sound state, where the job is in the table: when `finish_job` has returned, the job's result
  -- is recorded as a success and the job is gone; when `finish_job_failed` has, as a failure with the
  -- message of the job. Nothing that the calls behind it do, however deep, changes the result or puts
  -- the job back.
  pub finish_job_lem :
      (s m' : Manager) (n id : ℕ) (job : Job)
      → IsSound s
      → get id s.table.jobs ≡ some job
      → (run outside spawn_control n (Call.finish_job id) s ≡ done tt m'
          → (get id m'.table.completed_jobs
              ≡ some (record { id = id; unit = job.unit; ok = true; error = none }))
            × (get id m'.table.jobs ≡ none))
        × (run outside spawn_control n (Call.finish_job_failed id) s ≡ done tt m'
            → (get id m'.table.completed_jobs
                ≡ some (record { id = id; unit = job.unit; ok = false; error = job.failed_msg }))
              × (get id m'.table.jobs ≡ none))
  unfolding run body finish_job finish_job_failed no_more_fuel
  finish_job_lem s m' zero id job v h = (λ e. absurd (ground arith), λ e. absurd (ground arith))
  finish_job_lem s m' (suc n) id job v h =
      let rec = run outside spawn_control n in
      let k = λ (s' : Manager). run-Follows outside spawn_control loads spawns s' n in
      (
        λ e.
            closing_lem s m' id job true (λ _. none) (go_on outside rec) v h
              (λ s' j. go_on-Follows s' outside rec (k s') j) e,
        λ e.
            closing_lem s m' id job false (λ j. j.failed_msg) (give_up outside rec) v h
              (λ s' j. give_up-Follows s' outside rec (k s') j) e,
      )
