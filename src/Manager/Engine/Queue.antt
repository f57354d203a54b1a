-- ===== src/Manager/Engine/Queue.antt =====
-- rystemd/src/manager/mod.rs: how jobs advance, end and fail. The jobs come in the order of the table's
-- map where the source takes the keys of a `HashMap`. Log lines of the manager are left out.
use rystemd.Prelude.{
  ℕ, ◌-◌, ◌*◌, ◌^◌, Bool, true, false, not, ◌&&◌, ◌||◌, Option, none, some, List, [], ◌∷◌, ◌++◌,
  ◌==◌, leb, length, if◌then◌else◌, retain, map_option, Text, codes, text_eq, text_key, nat_key,
  keys,
}
use rystemd.Log.{push_chunk}
use rystemd.Manager.State.{ActiveState, deactivating, SubState, UnitResult, success, ControlCommand}
use rystemd.Manager.Deps.{stop_propagate, on_failure}
use rystemd.Manager.Action.{
  pure, gets, modify, for_each, if_some, on_option, fold_each, when, ◌>>=◌, ◌>>◌,
}
use rystemd.Manager.Jobs.{
  JobKind, JobMode, replace, Job, is_start, is_stop, mark_failed, without, find_wait, is_required,
}
use rystemd.Manager.Engine.{
  Outside, M, ask, find_unit, the_unit, update_unit, enter, unit_operational, find_job, the_job,
  find_unit_job, update_job, update_job_if, create_job, close_job, point_job,
}
use rystemd.Manager.Engine.Timers.{timer_dep_check}
use rystemd.Manager.Engine.Calls.{Call}
use rystemd.Manager.Engine.Types.{type_start, type_stop, is_empty}
use rystemd.Manager.Engine.Expand.{enqueue_start_job_mode}

-- The window of `check_start_limit`, and whether the limit is hit.
unfoldable pub start_window_at : ℕ → List ℕ → Bool × List ℕ
start_window_at now window =
    let kept = retain (λ t. leb (now - 10 * 10 ^ 9) t) window in
    if leb 5 (length kept) then (true, kept) else (false, kept ++ now ∷ [])

-- Whether a write to the waiting list takes an entry from it.
abbrev loses_entry : Text → Job → Bool
loses_entry unit j = not (length (without unit j.waiting) == length j.waiting)

abbrev dependency_failed : Text → Text
dependency_failed unit = codes "Dependency failed: " ++ unit

module _ (outside : Outside) (rec : Call → M Unit) where
  unfoldable pub check_start_limit : Text → M Bool
  unfolding the_unit ask update_unit start_window_at pure ◌>>=◌
  check_start_limit name = do
    now ← ask outside.now
    u ← the_unit name
    update_unit name (λ v. record v { start_window = (start_window_at now v.start_window).1 })
    pure (start_window_at now u.start_window).0

  unfoldable pub maybe_start_job : ℕ → M Unit
  unfolding the_job pure update_job check_start_limit update_unit ◌>>=◌
  maybe_start_job id = do
    job ← the_job id
    if job.failed
        then rec (Call.finish_job_failed id)
        else if not (is_empty job.waiting) || job.started
        then pure tt
        else do
          update_job id (λ j. record j { started = true })
          limited ← check_start_limit job.unit
          if not limited then rec (Call.do_start job.unit) else do
            update_unit job.unit (λ u. record u { result = UnitResult.start_limit_hit })
            update_job id
                (mark_failed (codes "Start request repeated too quickly (start-limit-hit)."))
            rec (Call.finish_job_failed id)

  unfoldable pub maybe_stop_job : ℕ → M Unit
  unfolding the_job unit_operational pure point_job update_job ◌>>=◌
  maybe_stop_job id = do
    job ← the_job id
    is_up ← unit_operational job.unit
    if not is_up then rec (Call.finish_job id) else if job.started then pure tt else do
      point_job id
      update_job id (λ j. record j { started = true })
      rec (Call.do_stop job.unit)

  -- The body of the loop over the dependents.
  unfoldable pub stop_dependent : Text → M Unit
  unfolding unit_operational find_unit_job on_option when pure ◌>>=◌
  stop_dependent d = do
    is_up ← unit_operational d
    has_job ← find_unit_job d
    when is_up (on_option has_job (rec (Call.enqueue_stop_job d)) λ _. pure tt)

  unfoldable pub enqueue_stop_job_after_mode : Text → Option Text → JobMode → M ℕ
  unfolding create_job if_some update_job_if gets stop_propagate for_each stop_dependent pure ◌>>=◌
  enqueue_stop_job_after_mode name start_after_stop mode = do
    id ← create_job JobKind.stop name [] mode
    if_some start_after_stop
        λ next. update_job_if id (λ j. record j { start_after_stop = some next })
    dependents ← gets (λ m. stop_propagate m.units name)
    for_each stop_dependent dependents
    rec (Call.maybe_stop_job id)
    pure id

  unfoldable pub advance_start : ℕ → Job → M Bool
  unfolding pure ◌>>=◌
  advance_start id job =
      if job.expanding
      then pure false
      else if job.failed
      then (rec (Call.finish_job_failed id) >> pure true)
      else if is_empty job.waiting && not job.started
      then (rec (Call.maybe_start_job id) >> pure true)
      else pure false

  unfoldable pub advance_stop : ℕ → Job → M Bool
  unfolding pure ◌>>=◌
  advance_stop id job =
      if job.started then pure false else rec (Call.maybe_stop_job id) >> pure true

  unfoldable pub advance_by_kind : ℕ → Job → JobKind → M Bool
  unfolding advance_start advance_stop pure
  advance_by_kind id job JobKind.start = advance_start id job
  advance_by_kind id job JobKind.stop = advance_stop id job
  advance_by_kind id job JobKind.restart = pure false

  unfoldable pub try_advance_job : ℕ → M Bool
  unfolding find_job on_option pure advance_by_kind ◌>>=◌
  try_advance_job id = do
    found ← find_job id
    on_option found (pure false) λ job. advance_by_kind id job job.kind

  -- `changed |= self.try_advance_job(id)`
  unfoldable pub advance_one : Bool → ℕ → M Bool
  unfolding try_advance_job pure ◌>>=◌
  advance_one changed id = do advanced ← try_advance_job id; pure (changed || advanced)

  -- One turn of the `loop`.
  unfoldable pub process_jobs : M Unit
  unfolding gets fold_each advance_one when ◌>>=◌
  process_jobs = do
    ids ← gets (λ m. keys m.table.jobs)
    changed ← fold_each advance_one false ids
    when changed (rec Call.process_jobs)

  -- `waiting.retain`, and an advance where it took an entry.
  unfoldable pub release_job : Text → ℕ → Job → M Unit
  unfolding update_job_if when try_advance_job pure ◌>>=◌
  release_job unit id j = do
    update_job_if id (λ k. record k { waiting = without unit k.waiting })
    when (loses_entry unit j) (try_advance_job id >> pure tt)

  -- The body of the loop of `on_job_completed`.
  unfoldable pub complete_for : Text → Bool → ℕ → M Unit
  unfolding find_job if_some find_wait update_job release_job ◌>>=◌
  complete_for unit ok id = do
    found ← find_job id
    if_some found λ j.
        if not ok && is_required (find_wait unit j.waiting)
        then update_job id (mark_failed (dependency_failed unit))
        else release_job unit id j

  unfoldable pub on_job_completed : Text → Bool → M Unit
  unfolding gets for_each complete_for ◌>>=◌
  on_job_completed unit ok = do
    ids ← gets (λ m. keys m.table.jobs)
    for_each (complete_for unit ok) ids

  unfoldable pub cancel_job : ℕ → Text → M Unit
  unfolding close_job if_some ◌>>=◌
  cancel_job id message = do
    found ← close_job id false (λ _. some message)
    if_some found λ job. rec (Call.on_job_completed job.unit false)

  -- What `finish_job` starts once a stop is done.
  abbrev next_start : Job → Option Text
  next_start job = if is_stop job.kind then job.start_after_stop else none

  -- What follows the end of a job: its unit's dependents go on, and a restarted unit is started.
  unfoldable pub go_on : Job → M Unit
  unfolding if_some enqueue_start_job_mode pure ◌>>=◌
  go_on job = do
    rec (Call.on_job_completed job.unit true)
    if_some (next_start job) λ next. do enqueue_start_job_mode outside rec next replace; pure tt

  unfoldable pub finish_job : ℕ → M Unit
  unfolding close_job if_some go_on ◌>>=◌
  finish_job id = do found ← close_job id true (λ _. none); if_some found go_on

  unfoldable pub give_up : Job → M Unit
  give_up job = rec (Call.on_job_completed job.unit false)

  unfoldable pub finish_job_failed : ℕ → M Unit
  unfolding close_job if_some give_up ◌>>=◌
  finish_job_failed id = do
    found ← close_job id false (λ job. job.failed_msg)
    if_some found give_up

  -- The body of the loop of `poke_failed`.
  unfoldable pub poke_for : Text → ℕ → M Unit
  unfolding find_job if_some find_wait update_job release_job ◌>>=◌
  poke_for name id = do
    found ← find_job id
    if_some found λ j.
        if is_required (find_wait name j.waiting)
        then update_job id (mark_failed (dependency_failed name)) >> rec (Call.finish_job_failed id)
        else release_job name id j

  unfoldable pub poke_failed : Text → M Unit
  unfolding gets for_each poke_for ◌>>=◌
  poke_failed name = do ids ← gets (λ m. keys m.table.jobs); for_each (poke_for name) ids

  unfoldable pub fire_on_failure : Text → M Unit
  unfolding the_unit on_failure for_each ◌>>=◌
  fire_on_failure name = do
    u ← the_unit name
    for_each (λ t. rec (Call.start t)) (on_failure u)
    rec Call.process_jobs

  abbrev failure_line : Text → Text
  failure_line msg = codes "rystemd: failed: " ++ msg ++ 10 ∷ []

  -- The end of a failed unit's job.
  unfoldable pub fail_job : Text → Text → M Unit
  unfolding find_unit_job on_option the_job update_job ◌>>=◌
  fail_job name msg = do
    found ← find_unit_job name
    on_option found (rec (Call.poke_failed name)) λ jid. do
      job ← the_job jid
      if is_start job.kind
          then update_job jid (λ j. record j { failed_msg = some msg })
            >> rec (Call.finish_job_failed jid)
          else rec (Call.poke_failed name)

  unfoldable pub fail_unit : Text → Text → M Unit
  unfolding the_unit update_unit push_chunk enter fail_job ◌>>=◌
  fail_unit name msg = do
    update_unit name (λ u. record u { log = push_chunk (failure_line msg) u.log })
    u ← the_unit name
    enter name outside.system_now ActiveState.failed SubState.failed u.result
    fail_job name msg
    rec (Call.fire_on_failure name)

  unfoldable pub complete_start_job : Text → M Unit
  unfolding find_unit_job if_some the_job when timer_dep_check ◌>>=◌
  complete_start_job name = do
    found ← find_unit_job name
    if_some found λ jid. do job ← the_job jid; when (is_start job.kind) (rec (Call.finish_job jid))
    timer_dep_check outside

  -- The names that wait for the unit are forgotten.
  unfoldable pub release_bus_name_watch : Text → M Unit
  unfolding modify
  release_bus_name_watch name = modify (λ m. record m {
    pending_bus_names = retain (λ p. not (text_eq p.1 name)) m.pending_bus_names;
  })

  unfoldable pub finalize_stop : Text → M Unit
  unfolding release_bus_name_watch update_unit enter find_unit_job if_some the_job when
      timer_dep_check ◌>>=◌
  finalize_stop name = do
    release_bus_name_watch name
    update_unit name (λ u. record u {
      main_pid = none;
      group_pid = none;
      cgroup = none;
      control_pid = none;
      control_command = none;
      cmd_index = 0;
      forked_main_pid = none;
      stop_started = none;
    })
    enter name outside.system_now ActiveState.inactive SubState.dead success
    found ← find_unit_job name
    if_some found
        λ jid. do job ← the_job jid; when (not (is_start job.kind)) (rec (Call.finish_job jid))
    timer_dep_check outside

module _ (outside : Outside) (spawn_control : Text → ControlCommand → ℕ → M Unit)
    (rec : Call → M Unit) where
  unfoldable pub do_start : Text → M Unit
  unfolding find_unit type_start ◌>>=◌
  do_start name = do
    found ← find_unit name
    type_start outside spawn_control rec (map_option (λ u. u.kind) found) name

  unfoldable pub do_stop : Text → M Unit
  unfolding enter ask update_unit find_unit type_stop ◌>>=◌
  do_stop name = do
    enter name outside.system_now deactivating SubState.stop success
    now ← ask outside.now
    update_unit name (λ u. record u { stop_started = some now })
    found ← find_unit name
    type_stop outside spawn_control rec (map_option (λ u. u.kind) found) name
