-- ===== src/Manager/Jobs/Follows.antt =====
-- How the job table of manager/mod.rs may change from one time to a later one.
use rystemd.Prelude.{
  ℕ, ◌≤◌, ◌≡◌, refl, Bool, Option, some, List, ==_iff, arith, Text, get, nat_key, text_key,
  get-insert,
}
use rystemd.Manager.Jobs.{
  JobKind, JobMode, WaitEntry, Job, JobStatus, JobTable, new_job, record_job_result, remove_job,
  retire, drop_job, change_job, release_waiting, point_unit,
}
use rystemd.Manager.Jobs.Invariant.{
  IsConsistent, new_job-IsConsistent, retire-IsConsistent, drop_job-IsConsistent,
  change_job-IsConsistent, release_waiting-IsConsistent, point_unit-IsConsistent,
}

-- The later table is consistent, its counter is not smaller, and a recorded result is as it was.
pub record TableFollows (s t : JobTable) : Type 0 where
  pub consistent : IsConsistent t
  pub counting : s.next_job ≤ t.next_job
  pub kept :
      (i : ℕ) (r : JobStatus) → get i s.completed_jobs ≡ some r → get i t.completed_jobs ≡ some r

pub TableFollows-start : (t : JobTable) → IsConsistent t → TableFollows t t
TableFollows-start t v = record { consistent = v; counting = omega arith; kept = λ i r h. h }

module _ (s t : JobTable) (v : TableFollows s t) where
  pub new_job-TableFollows :
      (kind : JobKind) (unit : Text) (waiting : List WaitEntry) (mode : JobMode)
      → TableFollows s (new_job kind unit waiting mode t)
  unfolding new_job
  new_job-TableFollows kind unit waiting mode = record {
    consistent = new_job-IsConsistent t v.consistent kind unit waiting mode;
    counting = omega (arith, v.counting);
    kept = v.kept;
  }

  pub drop_job-TableFollows :
      (id : ℕ) (unit : Text) → get unit t.unit_job ≡ some id → TableFollows s (drop_job id unit t)
  unfolding drop_job
  drop_job-TableFollows id unit h = record {
    consistent = drop_job-IsConsistent t v.consistent id unit h;
    counting = v.counting;
    kept = v.kept;
  }

  pub change_job-TableFollows :
      (id : ℕ) (f : Job → Job)
      → ((j : Job) → (f j).unit ≡ j.unit)
      → TableFollows s (change_job id f t)
  unfolding change_job
  change_job-TableFollows id f keeps = record {
    consistent = change_job-IsConsistent t v.consistent id f keeps;
    counting = v.counting;
    kept = v.kept;
  }

  pub release_waiting-TableFollows : (unit : Text) → TableFollows s (release_waiting unit t)
  unfolding release_waiting
  release_waiting-TableFollows unit = record {
    consistent = release_waiting-IsConsistent t v.consistent unit;
    counting = v.counting;
    kept = v.kept;
  }

  pub point_unit-TableFollows :
      (id : ℕ) (j : Job) → get id t.jobs ≡ some j → TableFollows s (point_unit j.unit id t)
  unfolding point_unit
  point_unit-TableFollows id j h = record {
    consistent = point_unit-IsConsistent t v.consistent j.unit id j h refl;
    counting = v.counting;
    kept = v.kept;
  }

  -- A job that is in the table has no result yet, so none is overwritten.
  pub retire-TableFollows :
      (id : ℕ) (job : Job) (ok : Bool) (error : Option Text)
      → get id t.jobs ≡ some job
      → TableFollows s (retire id job.unit ok error t)
  unfolding retire record_job_result remove_job
  retire-TableFollows id job ok error h = record {
    consistent = retire-IsConsistent t v.consistent id job ok error h;
    counting = rw (h, retire, remove_job, record_job_result) v.counting;
    kept = λ i r g.
        rw (h, retire, remove_job, record_job_result) ground
          (
            arith,
            get-insert id i (record { id = id; unit = job.unit; ok = ok; error = error })
                t.completed_jobs,
            ==_iff id i,
            v.kept i r g,
            v.consistent.apart i r,
          );
  }
