-- ===== src/Manager/Engine/Expand.antt =====
-- rystemd/src/manager/mod.rs: `expand_start_job`, which turns a start job into the transaction of its
-- dependencies, with the steps of its loops.
use rystemd.Prelude.{
  ℕ, Bool, true, false, not, ◌&&◌, ◌||◌, Option, none, some, List, [], ◌∷◌, ◌++◌, if◌then◌else◌,
  any, retain, Text, codes, text_eq, text_key, nat_key, Map, get, contains_key, Result, ok, err,
}
use rystemd.Unit.Config.{FileTests, ConditionContext, Condition, ConditionKind, evaluate}
use rystemd.Manager.State.{UnitResult, ManagedUnit}
use rystemd.Manager.Deps.{start_closure, closure_conflicts, after, contains}
use rystemd.Manager.Action.{
  pure, gets, for_each, on_option, on_result, try_each, fold_each, when, ◌>>=◌, ◌>>◌,
}
use rystemd.Manager.Jobs.{JobKind, JobMode, WaitEntry, Job, is_start, is_stop, mark_failed}
use rystemd.Manager.Engine.{
  Manager, Outside, M, ask, the_unit, update_unit, is_active, unit_active, unit_operational,
  has_unit, the_job, find_unit_job, update_job, update_job_if, create_job,
}
use rystemd.Manager.Engine.Calls.{Call}

unfoldable pub condition_name : ConditionKind → Text
condition_name ConditionKind.path_exists = codes "PathExists"
condition_name ConditionKind.file_not_empty = codes "FileNotEmpty"
condition_name ConditionKind.directory_not_empty = codes "DirectoryNotEmpty"
condition_name ConditionKind.path_is_read_write = codes "PathIsReadWrite"
condition_name ConditionKind.path_is_symbolic_link = codes "PathIsSymbolicLink"
condition_name ConditionKind.user = codes "User"
condition_name ConditionKind.group = codes "Group"
condition_name ConditionKind.host = codes "Host"

-- `conditions.iter().find(|c| !c.evaluate(&ctx))`
unfoldable pub find_failing : FileTests → ConditionContext → List Condition → Option Condition
unfolding evaluate
find_failing fs ctx [] = none
find_failing fs ctx (c ∷ cs) = if evaluate fs ctx c then find_failing fs ctx cs else some c

-- The job that the unit is entered with, where there is one, passes the test on its kind.
unfoldable pub pending : (JobKind → Bool) → Text → M Bool
unfolding find_unit_job on_option the_job pure ◌>>=◌
pending p name = do
  found ← find_unit_job name
  on_option found (pure false) λ jid. do j ← the_job jid; pure (p j.kind)

abbrev pub waits_for : Text → List WaitEntry → Bool
waits_for name waiting = any (λ w. text_eq w.unit name) waiting

abbrev wait_for : Text → Bool → List WaitEntry → List WaitEntry
wait_for name required waiting = waiting ++ record { unit = name; required = required } ∷ []

-- The list without what it has further up.
unfoldable pub distinct_from : List Text → List Text → List Text
distinct_from seen [] = seen
distinct_from seen (d ∷ ds) = distinct_from (if contains d seen then seen else seen ++ d ∷ []) ds

abbrev before_of : ManagedUnit → List Text
before_of u = elim u.file [ none ↦ [] | some f ↦ f.unit.before ]

abbrev pub conditions_of : ManagedUnit → List Condition
conditions_of u = elim u.file [ none ↦ [] | some f ↦ f.unit.conditions ]

-- The other units that name this one in their `Before=`.
unfoldable pub before_names : Map Text ManagedUnit → Text → List Text
before_names [] name = []
before_names ((other, u) ∷ units) name =
    let rest = before_names units name in
    if not (text_eq other name) && contains name (before_of u) then other ∷ rest else rest

abbrev pub not_found : Text → Text
not_found name = codes "Unit " ++ name ++ codes " not found."

abbrev assert_failure : ConditionKind → Text
assert_failure kind = codes "Assert " ++ condition_name kind ++ codes " failed, refusing to start."

abbrev pub mark_dependency : Option Text → Job → Job
mark_dependency none j = j
mark_dependency (some dep) j = mark_failed (codes "Dependency failed: " ++ dep) j

module _ (outside : Outside) (rec : Call → M Unit) where
  unfoldable pub enqueue_start_job_mode : Text → JobMode → M ℕ
  unfolding create_job pure ◌>>=◌
  enqueue_start_job_mode name mode = do
    id ← create_job JobKind.start name [] mode
    rec (Call.expand_start_job id)
    pure id

  -- The job is marked as failed, and `maybe_start_job` ends it.
  unfoldable pub refuse : ℕ → Text → M Unit
  unfolding update_job ◌>>=◌
  refuse id msg = do update_job id (mark_failed msg); rec (Call.maybe_start_job id)

  -- The body of the loop over `Requisite=`: an error where the unit is neither active nor starting.
  unfoldable pub wait_requisite : List WaitEntry → Text → M (Result (List WaitEntry) Text)
  unfolding pure unit_active pending ◌>>=◌
  wait_requisite waiting r = do
    is_up ← unit_active r
    if is_up then pure (ok waiting) else do
      starting ← pending is_start r
      pure (if starting then ok (wait_for r true waiting) else err r)

  -- The body of the loop over the conflicts.
  unfoldable pub stop_conflict : Text → M Unit
  unfolding pure unit_operational pending ◌>>=◌
  stop_conflict c = do
    is_up ← unit_operational c
    if not is_up then pure tt else do
      stopping ← pending is_stop c
      if stopping then pure tt else rec (Call.enqueue_stop_job c)

  -- The body of the loop over the dependencies that are pulled in: an error where a required unit is
  -- missing.
  unfoldable pub pull_in : List Text → List WaitEntry → Text → M (Result (List WaitEntry) Text)
  unfolding pure unit_active has_unit pending when enqueue_start_job_mode ◌>>=◌
  pull_in needs waiting d = do
    is_up ← unit_active d
    known ← has_unit d
    let required = contains d needs
    if is_up
        then pure (ok waiting)
        else if not known
        then pure (if required then err d else ok waiting)
        else do
          starting ← pending is_start d
          when (not starting) (enqueue_start_job_mode d JobMode.replace >> pure tt)
          pure (ok (wait_for d required waiting))

  -- The body of the loop over `After=`.
  unfoldable pub wait_after : List WaitEntry → Text → M (List WaitEntry)
  unfolding pure unit_active pending ◌>>=◌
  wait_after waiting a = do
    is_up ← unit_active a
    if is_up then pure waiting else do
      starting ← pending is_start a
      pure (if starting && not (waits_for a waiting) then wait_for a false waiting else waiting)

  -- The body of the loop over the units that are before this one.
  unfoldable pub wait_before : List WaitEntry → Text → M (List WaitEntry)
  unfolding pure unit_active pending ◌>>=◌
  wait_before waiting b = do
    is_up ← unit_active b
    if is_up || waits_for b waiting then pure waiting else do
      starting ← pending is_start b
      pure (if starting then wait_for b false waiting else waiting)

  -- A required entry whose job is gone while its unit is not active.
  abbrev pub find_sync_failed : Manager → List WaitEntry → Option Text
  find_sync_failed m [] = none
  find_sync_failed m (w ∷ waiting) =
      if w.required
        && (not (contains_key w.unit m.table.unit_job) && not (is_active (get w.unit m.units)))
      then some w.unit
      else find_sync_failed m waiting

  -- The end of `expand_start_job`, from where the entries are known.
  unfoldable pub commit : ℕ → List WaitEntry → M Unit
  unfolding gets update_job_if ◌>>=◌
  commit id waiting = do
    sync_failed ← gets (λ m. find_sync_failed m waiting)
    kept ← gets (λ m. retain (λ w. contains_key w.unit m.table.unit_job) waiting)
    update_job_if id
        (λ j. record (mark_dependency sync_failed j) { waiting = kept; expanding = false })
    rec (Call.maybe_start_job id)

  -- The loops over `After=` and `Before=`, and the end.
  unfoldable pub order : ℕ → Text → List WaitEntry → M Unit
  unfolding the_unit after fold_each wait_after gets before_names wait_before commit ◌>>=◌
  order id name waiting = do
    u ← the_unit name
    ordered ← fold_each wait_after waiting (after u)
    names ← gets (λ m. before_names m.units name)
    all_waiting ← fold_each wait_before ordered names
    commit id all_waiting

  -- The loops over the conflicts and the dependencies that are pulled in, and what is behind them.
  unfoldable pub gather : ℕ → Text → List Text → List Text → List WaitEntry → M Unit
  unfolding gets closure_conflicts for_each stop_conflict try_each pull_in distinct_from on_result
      refuse order ◌>>=◌
  gather id name needs weak requisites = do
    conflicts ← gets (λ m. closure_conflicts m.units name)
    for_each stop_conflict conflicts
    pulled ← try_each (pull_in needs) requisites (distinct_from [] (needs ++ weak))
    on_result pulled
        (λ d. refuse id (codes "Dependency failed: " ++ d ++ codes " (unit not found)."))
        (order id name)

  -- The part behind the conditions.
  unfoldable pub expand_dependencies : ℕ → Text → M Unit
  unfolding update_job gets start_closure try_each wait_requisite on_result refuse gather ◌>>=◌
  expand_dependencies id name = do
    update_job id (λ j. record j { expanding = true })
    (needs, weak, requisite) ← gets (λ m. start_closure m.units name)
    ready ← try_each wait_requisite [] requisite
    on_result ready
        (λ r. refuse id (codes "Required unit " ++ r ++ codes " is not active (requisite)."))
        (gather id name needs weak)

  -- What a failed condition does: an assert fails the unit, any other ends the job as if it was done.
  unfoldable pub refuse_condition : ℕ → Text → Condition → M Unit
  unfolding update_unit condition_name ◌>>=◌
  refuse_condition id name bad = if not bad.is_assert then rec (Call.finish_job id) else do
    update_unit name (λ u. record u { result = UnitResult.assert })
    rec (Call.fail_unit name (assert_failure bad.kind))

  unfoldable pub expand_start_job : ℕ → M Unit
  unfolding the_job has_unit refuse the_unit ask find_failing on_option expand_dependencies
      refuse_condition ◌>>=◌
  expand_start_job id = do
    job ← the_job id
    let name = job.unit
    known ← has_unit name
    if not known then refuse id (not_found name) else do
      u ← the_unit name
      fs ← ask outside.file_tests
      ctx ← ask outside.condition_context
      on_option (find_failing fs ctx (conditions_of u)) (expand_dependencies id name)
          λ bad. refuse_condition id name bad
