-- ===== src/Manager/Engine.antt =====
-- rystemd/src/manager/mod.rs: the manager's state, what its methods ask of the system, and the reads
-- and writes that the methods are built from. An instant is a number of nanoseconds since a start
-- that the clock chooses, a wall-clock time one since the epoch.
pub mod Timers
pub mod Calls
pub mod Types
pub mod Expand
pub mod Queue
pub mod Spawn
pub mod Requests
pub mod Exits
pub mod Fire
pub mod Notify
pub mod Endings
pub mod Run
pub mod Follows
pub mod Sound
pub mod Reload
pub mod Reach
pub mod History
pub mod Results
pub mod Limit
pub mod Targets
pub mod Errors
pub mod Samples
pub mod Tests
pub mod Runs
use rystemd.Prelude.{
  ℕ, ◌+◌, ◌^◌, Bool, true, false, Option, none, some, List, [], ◌∷◌, ◌==◌, if◌then◌else◌, Text,
  text_eq, text_key, nat_key, Map, get, insert, remove, adjust, Result, contains_key,
}
use rystemd.Calendar.{Chrono, DateTime, CalendarSpec}
use rystemd.Unit.Config.{FileTests, ConditionContext, ServiceConfig, UnitFile, ExecCommand}
use rystemd.Manager.State.{
  ActiveState, active, activating, SubState, UnitResult, ManagedUnit, ControlCommand, set_active,
}
use rystemd.Manager.Timer.{TimerWheel}
use rystemd.Manager.Action.{Action, pure, gets, change, no_more_ids, unwrap, modify, ◌>>=◌, ◌>>◌}
use rystemd.Manager.Jobs.{
  JobKind, JobMode, WaitEntry, Job, JobTable, new_job, retire, drop_job, change_job,
  release_waiting, point_unit,
}

-- `asked` counts the questions put to the system, `next_invocation` is the counter of state.rs.
pub record Manager : Type 0 where
  pub units : Map Text ManagedUnit
  pub table : JobTable
  pub wheel : TimerWheel
  pub pid_unit : Map ℕ Text
  pub socket_listeners : List ℕ
  pub socket_triggers : Map ℕ (Text × Text)
  pub pending_bus_names : Map Text Text
  pub shutting_down : Bool
  pub boot_instant : ℕ
  pub asked : ℕ
  pub next_invocation : ℕ

pub data ListenKind : Type 0 where
  stream datagram netlink sequential_packet : ListenKind

-- The answers of the system, each by the number of the question, and the configuration. `epoch` is
-- chrono's `and_utc().timestamp().max(0)`, `local_timestamp` its `Local::now().timestamp().max(0)`;
-- `load_unit` reads the repository; `spawn` also expands the arguments and sets up the process;
-- `describe_exit` prints an exit status or the name of a signal.
pub record Outside : Type 1 where
  pub now : ℕ → ℕ
  pub system_now : ℕ → ℕ
  pub local_now : ℕ → DateTime
  pub local_timestamp : ℕ → ℕ
  pub epoch : DateTime → ℕ
  pub chrono : Chrono
  pub spec_text : CalendarSpec → Text
  pub load_unit : ℕ → Text → Result (Option ManagedUnit) Text
  pub discover_names : ℕ → List Text
  pub devices : ℕ → List (Text × UnitFile)
  pub file_tests : ℕ → FileTests
  pub condition_context : ℕ → ConditionContext
  pub cgroup_is_empty : ℕ → Text → Bool
  pub bind : ℕ → ListenKind → Text → Result ℕ Text
  pub mount : ℕ → Option Text → Text → Text → Option Text → Result {0, 0} Unit Text
  pub unmount : ℕ → Text → Result {0, 0} Unit Text
  pub socket_activation : Bool
  pub resolve_user : ℕ → Text → Bool
  pub resolve_group : ℕ → Text → Bool
  pub apply_directories : ℕ → ServiceConfig → Result {0, 0} Unit Text
  pub create_cgroup : ℕ → Text → Option Text
  pub spawn : ℕ → Text → ControlCommand → ExecCommand → Result ℕ Text
  pub read_pidfile : ℕ → Text → Option ℕ
  pub describe_exit : ℕ → Option ℕ → Text

abbrev pub M : Type 0 → Type 0
M A = Action Manager A

-- An answer to the next question.
unfoldable pub ask : {A : Type 0} → (ℕ → A) → M A
unfolding change
ask f = change (λ m. (f m.asked, record m { asked = m.asked + 1 }))

unfoldable pub find_unit : Text → M (Option ManagedUnit)
unfolding gets
find_unit name = gets (λ m. get name m.units)

-- `self.units[name]`
unfoldable pub the_unit : Text → M ManagedUnit
unfolding find_unit unwrap ◌>>=◌
the_unit name = do found ← find_unit name; unwrap found

-- A write behind `self.units.get_mut(name).unwrap()`.
unfoldable pub update_unit : Text → (ManagedUnit → ManagedUnit) → M Unit
unfolding the_unit modify ◌>>=◌
update_unit name f = do the_unit name; modify (λ m. record m { units = adjust name f m.units })

-- The write of `set_active` at the time `now`, to the unit `u` of the name.
abbrev pub entered :
    Text → ℕ → ActiveState → SubState → UnitResult → ManagedUnit → Manager → Manager
entered name now state sub result u m = record m {
  units = adjust name (λ v. (set_active now m.next_invocation state sub result v).0) m.units;
  next_invocation = (set_active now m.next_invocation state sub result u).1;
}

-- `self.units.get_mut(name).unwrap().set_active(state, sub, result)`
unfoldable pub enter : Text → (ℕ → ℕ) → ActiveState → SubState → UnitResult → M Unit
unfolding the_unit ask modify ◌>>=◌
enter name system_now state sub result = do
  u ← the_unit name
  now ← ask system_now
  modify (entered name now state sub result u)

abbrev pub is_active : Option ManagedUnit → Bool
is_active none = false
is_active (some u) = elim u.active [ active ↦ true | _ ↦ false ]

abbrev pub is_operational : Option ManagedUnit → Bool
is_operational none = false
is_operational (some u) = elim u.active [ active ↦ true | activating ↦ true | _ ↦ false ]

unfoldable pub unit_active : Text → M Bool
unfolding gets
unit_active name = gets (λ m. is_active (get name m.units))

unfoldable pub unit_operational : Text → M Bool
unfolding gets
unit_operational name = gets (λ m. is_operational (get name m.units))

unfoldable pub has_unit : Text → M Bool
unfolding gets
has_unit name = gets (λ m. contains_key name m.units)

unfoldable pub find_job : ℕ → M (Option Job)
unfolding gets
find_job id = gets (λ m. get id m.table.jobs)

-- `self.jobs[&id]`
unfoldable pub the_job : ℕ → M Job
unfolding find_job unwrap ◌>>=◌
the_job id = do found ← find_job id; unwrap found

-- `self.unit_job.get(name).copied()`
unfoldable pub find_unit_job : Text → M (Option ℕ)
unfolding gets
find_unit_job name = gets (λ m. get name m.table.unit_job)

unfoldable pub change_table : (JobTable → JobTable) → M Unit
unfolding modify
change_table f = modify (λ m. record m { table = f m.table })

-- A write behind `if let Some(j) = self.jobs.get_mut(&id)`.
unfoldable pub update_job_if : ℕ → (Job → Job) → M Unit
unfolding change_table
update_job_if id f = change_table (change_job id f)

-- A write behind `self.jobs.get_mut(&id).unwrap()`.
unfoldable pub update_job : ℕ → (Job → Job) → M Unit
unfolding the_job update_job_if ◌>>=◌
update_job id f = do the_job id; update_job_if id f

-- `new_job`, and the id.
unfoldable pub put_job : JobKind → Text → List WaitEntry → JobMode → M ℕ
unfolding change
put_job kind unit waiting mode =
    change
      (λ m. (m.table.next_job + 1, record m { table = new_job kind unit waiting mode m.table }))

-- The same, where an id is left.
unfoldable pub create_job : JobKind → Text → List WaitEntry → JobMode → M ℕ
unfolding gets put_job no_more_ids ◌>>=◌
create_job kind unit waiting mode = do
  n ← gets (λ m. m.table.next_job)
  if n + 1 == 2 ^ 64 then no_more_ids else put_job kind unit waiting mode

abbrev pub retire_found : ℕ → Bool → (Job → Option Text) → Option Job → JobTable → JobTable
retire_found id ok error none t = t
retire_found id ok error (some job) t = retire id job.unit ok (error job) t

-- The job at the id, if it is there; its result is recorded and it is removed.
unfoldable pub close_job : ℕ → Bool → (Job → Option Text) → M (Option Job)
unfolding change
close_job id ok error = change (λ m.
    let found = get id m.table.jobs in
    (found, record m { table = retire_found id ok error found m.table }))

abbrev pub point_found : ℕ → Option Job → JobTable → JobTable
point_found id none t = t
point_found id (some job) t = point_unit job.unit id t

-- `unit_job.insert(unit, id)` with the unit of the job.
unfoldable pub point_job : ℕ → M Unit
unfolding change_table
point_job id = change_table (λ t. point_found id (get id t.jobs) t)

abbrev pub drop_found : Text → Option ℕ → JobTable → JobTable
drop_found name none t = t
drop_found name (some id) t = drop_job id name t

-- `if let Some(jid) = self.unit_job.remove(name)` with `self.jobs.remove(&jid)`.
unfoldable pub drop_unit_job : Text → M Unit
unfolding change_table
drop_unit_job name = change_table (λ t. drop_found name (get name t.unit_job) t)
