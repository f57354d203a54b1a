-- ===== src/Manager/Jobs/Invariant.antt =====
-- What holds of the job table of manager/mod.rs between two changes.
use rystemd.Prelude.{
  ℕ, ◌+◌, ◌≤◌, ◌≡◌, ◌≢◌, subst, Bool, inl, inr, Option, none, some, List, ◌==◌, ==_iff, arith,
  Bool-cases, Text, text_key, nat_key, get, adjust, get-insert, get-remove, get-insert_cases,
  get-remove_cases, get-adjust_same, get-adjust_other, get-adjust_cases, get-map_values,
  get-map_values_cases, get-map_values-none, get-adjust-none,
}
use rystemd.Manager.Jobs.{
  JobKind, JobMode, WaitEntry, Job, JobStatus, JobTable, new_job, record_job_result, is_id,
  remove_job, drop_job, fresh_job, is_id_iff, change_job, release_waiting, retire, point_unit,
}

-- The job that a unit is entered with is in the table and is a job of that unit; no id is beyond the
-- counter; and a job whose result is recorded is no longer in the table.
pub record IsConsistent (t : JobTable) : Type 0 where
  pub pointed :
      (n : Text) (i : ℕ)
      → get n t.unit_job ≡ some i
      → (j : Job) × (get i t.jobs ≡ some j) × (j.unit ≡ n)
  pub counted : (i : ℕ) (j : Job) → get i t.jobs ≡ some j → i ≤ t.next_job
  pub recorded : (i : ℕ) (s : JobStatus) → get i t.completed_jobs ≡ some s → i ≤ t.next_job
  pub apart : (i : ℕ) (s : JobStatus) → get i t.completed_jobs ≡ some s → get i t.jobs ≡ none

module _ (t : JobTable) (v : IsConsistent t) where
  pub new_job-IsConsistent :
      (kind : JobKind) (unit : Text) (waiting : List WaitEntry) (mode : JobMode)
      → IsConsistent (new_job kind unit waiting mode t)
  unfolding new_job
  new_job-IsConsistent kind unit waiting mode =
      let id = t.next_job + 1 in
      let j = fresh_job kind unit waiting mode in
      record {
        pointed = λ n i h. elim (get-insert_cases unit n id i t.unit_job h) [
          | inl (e, f) ↦ (j, ground (arith, get-insert id i j t.jobs, ==_iff id i), e)
          | inr (ne, g) ↦
              let (k, l, u) = v.pointed n i g in
              (k, ground (arith, v.counted i k l, get-insert id i j t.jobs, ==_iff id i), u)
        ];
        counted = λ i k h. elim (get-insert_cases id i j k t.jobs h) [
          | inl (e, f) ↦ ground arith
          | inr (ne, g) ↦ ground (arith, v.counted i k g)
        ];
        recorded = λ i s h. ground (arith, v.recorded i s h);
        apart = λ i s h.
            ground (arith, v.recorded i s h, v.apart i s h, get-insert id i j t.jobs, ==_iff id i);
      }

  pub drop_job-IsConsistent :
      (id : ℕ) (unit : Text) → get unit t.unit_job ≡ some id → IsConsistent (drop_job id unit t)
  unfolding drop_job
  drop_job-IsConsistent id unit here = record {
    pointed = λ n i h.
        let (ne, g) = get-remove_cases unit n i t.unit_job h in
        let (j, k, u) = v.pointed n i g in
        let (j', k', u') = v.pointed unit id here in
        (j, ground (arith, get-remove id i t.jobs, ==_iff id i), u);
    counted = λ i j h. v.counted i j (get-remove_cases id i j t.jobs h).1;
    recorded = v.recorded;
    apart = λ i s h. ground (arith, v.apart i s h, get-remove id i t.jobs);
  }

  pub point_unit-IsConsistent :
      (unit : Text) (id : ℕ) (j : Job)
      → get id t.jobs ≡ some j
      → j.unit ≡ unit
      → IsConsistent (point_unit unit id t)
  unfolding point_unit
  point_unit-IsConsistent unit id j here e = record {
    pointed = λ n i h. elim (get-insert_cases unit n id i t.unit_job h) [
      | inl (p, q) ↦ (j, ground arith, ground arith)
      | inr (ne, g) ↦ v.pointed n i g
    ];
    counted = v.counted;
    recorded = v.recorded;
    apart = v.apart;
  }

  pub release_waiting-IsConsistent : (unit : Text) → IsConsistent (release_waiting unit t)
  unfolding release_waiting
  release_waiting-IsConsistent unit = record {
    pointed = λ n i h. let (j, k, u) = v.pointed n i h in (_, get-map_values _ i t.jobs j k, u);
    counted = λ i j h. let (j', k, e) = get-map_values_cases _ i t.jobs j h in v.counted i j' k;
    recorded = v.recorded;
    apart = λ i s h. get-map_values-none _ i t.jobs (v.apart i s h);
  }

  pub change_job-IsConsistent :
      (id : ℕ) (f : Job → Job)
      → ((j : Job) → (f j).unit ≡ j.unit)
      → IsConsistent (change_job id f t)
  unfolding change_job
  change_job-IsConsistent id f keeps = record {
    pointed = λ n i h.
        let (j, k, u) = v.pointed n i h in
        elim (Bool-cases (id == i)) [
          | inl e ↦ (
            f j,
            subst (λ x. get x (adjust id f t.jobs) ≡ some (f j)) ((==_iff id i).0 e)
                (get-adjust_same id f t.jobs j (ground (arith, ==_iff id i))),
            ground (arith, keeps j),
          )
          | inr e ↦ (j, ground (arith, get-adjust_other id i f t.jobs, ==_iff id i), u)
        ];
    counted = λ i j h. let (j', k, c) = get-adjust_cases id i f t.jobs j h in v.counted i j' k;
    recorded = v.recorded;
    apart = λ i s h. get-adjust-none id i f t.jobs (v.apart i s h);
  }

  remove_job_pointed :
      (id : ℕ) (job : Job)
      → get id t.jobs ≡ some job
      → (n : Text) (i : ℕ) → get n (remove_job id job.unit t).unit_job ≡ some i
      → (get n t.unit_job ≡ some i) × (id ≢ i)
  unfolding remove_job
  remove_job_pointed id job here n i h = elim (Bool-cases (is_id id (get job.unit t.unit_job))) [
    | inl e ↦
        let (ne, g) = get-remove_cases job.unit n i t.unit_job (ground arith) in
        (g, λ p. let (j, k, u) = v.pointed n i g in ne (ground arith))
    | inr e ↦
        let g : get n t.unit_job ≡ some i = ground arith in
        (
          g,
          λ p.
              let (j, k, u) = v.pointed n i g in
              ground (arith, is_id_iff id (get job.unit t.unit_job)),
        )
  ]

  pub retire-IsConsistent :
      (id : ℕ) (job : Job) (ok : Bool) (error : Option Text)
      → get id t.jobs ≡ some job
      → IsConsistent (retire id job.unit ok error t)
  unfolding retire record_job_result remove_job
  retire-IsConsistent id job ok error here =
      rw (here, retire, remove_job, record_job_result)
        (record {
          pointed = λ n i h.
              let (g, ne) = remove_job_pointed id job here n i h in
              let (j, k, u) = v.pointed n i g in
              (j, ground (arith, get-remove id i t.jobs, ==_iff id i), u);
          counted = λ i j h. v.counted i j (get-remove_cases id i j t.jobs h).1;
          recorded = λ i s h. elim (get-insert_cases id i _ s t.completed_jobs h) [
            | inl (e, f) ↦ ground (arith, v.counted id job here)
            | inr (ne, g) ↦ v.recorded i s g
          ];
          apart = λ i s h. elim (get-insert_cases id i _ s t.completed_jobs h) [
            | inl (e, f) ↦ ground (arith, get-remove id i t.jobs, ==_iff id i)
            | inr (ne, g) ↦ ground (arith, get-remove id i t.jobs, v.apart i s g)
          ];
        })
