-- ===== src/Manager/Jobs.antt =====
-- rystemd/src/manager/mod.rs: the job table, which is the manager's jobs, completed_jobs, unit_job and
-- next_job. An id is handed out by counting up; where the counter is full there is no job here (see
-- the outcome `ids_used_up` of Action).
pub mod Invariant
pub mod Follows
use rystemd.Prelude.{
  ℕ, ◌+◌, ◌≡◌, ◌↔◌, ap, ==_iff, arith, Bool, true, false, not, Option, none, some, List, [], ◌∷◌,
  ◌==◌, if◌then◌else◌, Text, text_eq, text_key, nat_key, retain, Map, get, insert, remove, adjust,
  map_values,
}

pub data JobKind : Type 0 where
  start stop restart : JobKind

pub data JobMode : Type 0 where
  replace replace_irreversibly : JobMode

pub record WaitEntry : Type 0 where
  pub unit : Text
  pub required : Bool

pub record Job : Type 0 where
  pub unit : Text
  pub kind : JobKind
  pub mode : JobMode
  pub waiting : List WaitEntry
  pub started : Bool
  pub failed : Bool
  pub failed_msg : Option Text
  pub start_after_stop : Option Text
  pub expanding : Bool

-- The `state` of a completed job is always "done" and its `ok` always there.
pub record JobStatus : Type 0 where
  pub id : ℕ
  pub unit : Text
  pub ok : Bool
  pub error : Option Text

pub record JobTable : Type 0 where
  pub jobs : Map ℕ Job
  pub completed_jobs : Map ℕ JobStatus
  pub unit_job : Map Text ℕ
  pub next_job : ℕ

-- The job that `new_job` puts in the table.
abbrev pub fresh_job : JobKind → Text → List WaitEntry → JobMode → Job
fresh_job kind unit waiting mode = record {
  unit = unit;
  kind = kind;
  mode = mode;
  waiting = waiting;
  started = false;
  failed = false;
  failed_msg = none;
  start_after_stop = none;
  expanding = false;
}

-- `new_job`; the id is the table's new `next_job`.
unfoldable pub new_job : JobKind → Text → List WaitEntry → JobMode → JobTable → JobTable
new_job kind unit waiting mode t =
    let id = t.next_job + 1 in
    record t {
      next_job = id;
      jobs = insert id (fresh_job kind unit waiting mode) t.jobs;
      unit_job = insert unit id t.unit_job;
    }

unfoldable pub record_job_result : ℕ → Bool → Option Text → JobTable → JobTable
record_job_result id ok error t = elim (get id t.jobs) [
  | none ↦ t
  | some job ↦ record t {
    completed_jobs =
        insert id (record { id = id; unit = job.unit; ok = ok; error = error }) t.completed_jobs;
  }
]

abbrev pub is_id : ℕ → Option ℕ → Bool
is_id id none = false
is_id id (some i) = i == id

pub is_id_iff : (id : ℕ) (o : Option ℕ) → (is_id id o ≡ true) ↔ (o ≡ some id)
is_id_iff id none = (λ h. cc, λ h. cc)
is_id_iff id (some i) = (λ h. ap some ((==_iff i id).0 h), λ h. ground (arith, ==_iff i id))

-- `jobs.remove(&id)`, and the removal of the unit's entry where it names the job.
unfoldable pub remove_job : ℕ → Text → JobTable → JobTable
remove_job id unit t = record t {
  jobs = remove id t.jobs;
  unit_job = if is_id id (get unit t.unit_job) then remove unit t.unit_job else t.unit_job;
}

-- The step that `cancel_job`, `finish_job` and `finish_job_failed` share: the result is recorded and
-- the job removed.
unfoldable pub retire : ℕ → Text → Bool → Option Text → JobTable → JobTable
unfolding record_job_result remove_job
retire id unit ok error t = remove_job id unit (record_job_result id ok error t)

-- `unit_job.remove(name)` and `jobs.remove(&jid)`.
unfoldable pub drop_job : ℕ → Text → JobTable → JobTable
drop_job id unit t = record t { jobs = remove id t.jobs; unit_job = remove unit t.unit_job }

unfoldable pub change_job : ℕ → (Job → Job) → JobTable → JobTable
change_job id f t = record t { jobs = adjust id f t.jobs }

-- `waiting.retain(|w| w.unit != unit)`
abbrev pub without : Text → List WaitEntry → List WaitEntry
without unit waiting = retain (λ w. not (text_eq w.unit unit)) waiting

-- The same for every job.
unfoldable pub release_waiting : Text → JobTable → JobTable
release_waiting unit t = record t {
  jobs = map_values (λ j. record j { waiting = without unit j.waiting }) t.jobs;
}

-- `unit_job.insert(unit, id)`
unfoldable pub point_unit : Text → ℕ → JobTable → JobTable
point_unit unit id t = record t { unit_job = insert unit id t.unit_job }

-- The test on an optional kind.
abbrev pub is_start : JobKind → Bool
is_start start = true
is_start _ = false

abbrev pub is_stop : JobKind → Bool
is_stop stop = true
is_stop _ = false

abbrev pub mark_failed : Text → Job → Job
mark_failed msg j = record j { failed = true; failed_msg = some msg }

-- `waiting.iter().find(|w| w.unit == unit)`
unfoldable pub find_wait : Text → List WaitEntry → Option WaitEntry
find_wait unit [] = none
find_wait unit (w ∷ waiting) = if text_eq w.unit unit then some w else find_wait unit waiting

-- The entry is there and required.
abbrev pub is_required : Option WaitEntry → Bool
is_required none = false
is_required (some w) = w.required
