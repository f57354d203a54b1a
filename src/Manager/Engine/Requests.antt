-- ===== src/Manager/Engine/Requests.antt =====
-- rystemd/src/manager/mod.rs: what clients, timers and triggers ask of the manager: to start, stop and
-- restart a unit, and to shut down. `Result<_, String>` is the returned `Result`.
use rystemd.Prelude.{
  ℕ, ◌+◌, zero, suc, Bool, true, false, not, Option, none, some, List, [], ◌∷◌, ◌++◌, if◌then◌else◌,
  map_option, Text, codes, text_key, nat_key, Map, insert, Result, ok, err,
}
use rystemd.Unit.Config.{UnitKind}
use rystemd.Manager.State.{ActiveState, inactive, SubState, success, ManagedUnit, activated_service}
use rystemd.Manager.Timer.{default}
use rystemd.Manager.Action.{
  pure, gets, change, modify, no_more_fuel, for_each, if_some, on_option, on_result, when, ◌>>=◌,
  ◌>>◌,
}
use rystemd.Manager.Jobs.{
  JobKind, JobMode, replace, replace_irreversibly, Job, is_start, release_waiting,
}
use rystemd.Manager.Engine.{
  Manager, Outside, M, the_unit, enter, unit_active, unit_operational, has_unit, find_job,
  find_unit_job, update_job, create_job, change_table, drop_unit_job,
}
use rystemd.Manager.Engine.Calls.{Call}
use rystemd.Manager.Engine.Expand.{not_found, enqueue_start_job_mode}
use rystemd.Manager.Engine.Queue.{cancel_job, enqueue_stop_job_after_mode}

abbrev pub is_irreversible : JobMode → Bool
is_irreversible replace = false
is_irreversible replace_irreversibly = true

-- The job that the unit is entered with, where both are there.
unfoldable pub current_job : Text → M (Option (ℕ × Job))
unfolding find_unit_job find_job on_option pure ◌>>=◌
current_job name = do
  found ← find_unit_job name
  on_option found (pure none) λ jid. do job ← find_job jid; pure (map_option (λ j. (jid, j)) job)

module _ (outside : Outside) where
  -- What comes of the answer of `load_unit`.
  abbrev pub loaded :
      Text → Result (Option ManagedUnit) Text → Manager → Result {0, 0} Unit Text × Manager
  loaded name (err e) m = (err e, m)
  loaded name (ok none) m = (err (not_found name), m)
  loaded name (ok (some u)) m = (ok tt, record m { units = insert name u m.units })

  unfoldable pub load : Text → M (Result {0, 0} Unit Text)
  unfolding change
  load name =
      change (λ m. loaded name (outside.load_unit m.asked name) (record m { asked = m.asked + 1 }))

  unfoldable pub ensure_unit_loaded : Text → M (Result {0, 0} Unit Text)
  unfolding has_unit pure load ◌>>=◌
  ensure_unit_loaded name = do known ← has_unit name; if known then pure (ok tt) else load name

module _ (outside : Outside) (rec : Call → M Unit) where
  -- A start of a unit that has a stop job.
  unfoldable pub start_stopping : Text → ℕ → Job → M (Result (Option ℕ) Text)
  unfolding pure cancel_job enter ◌>>=◌
  start_stopping name jid job =
      if is_irreversible job.mode
      then pure (err (codes "Job for " ++ name ++ codes " is irreversible."))
      else do
        cancel_job outside rec jid (codes "Job canceled by a replacement start.")
        enter name outside.system_now ActiveState.active SubState.exited success
        pure (ok none)

  -- A start of a unit that is loaded and not active.
  unfoldable pub start_inactive : Text → JobMode → M (Result (Option ℕ) Text)
  unfolding current_job on_option enqueue_start_job_mode pure start_stopping ◌>>=◌
  start_inactive name mode = do
    current ← current_job name
    on_option current
        (do
          id ← enqueue_start_job_mode outside rec name mode
          rec Call.process_jobs
          pure (ok (some id)))
        λ (jid, job).
          if is_start job.kind then pure (ok (some jid)) else start_stopping name jid job

  unfoldable pub start_with_mode : Text → JobMode → M (Result (Option ℕ) Text)
  unfolding ensure_unit_loaded on_result gets has_unit unit_active start_inactive pure ◌>>=◌
  start_with_mode name mode = do
    ready ← ensure_unit_loaded outside name
    on_result ready (λ e. pure (err e))
        λ _. do
          down ← gets (λ m. m.shutting_down)
          known ← has_unit name
          is_up ← unit_active name
          if down
              then pure (ok none)
              else if not known
              then pure (err (not_found name))
              else if is_up
              then pure (ok none)
              else start_inactive name mode

  -- The job of the unit, and every wait for it, go without a result.
  unfoldable pub start_ignore_dependencies : Text → M (Result Unit Text)
  unfolding has_unit unit_active find_unit_job if_some drop_unit_job change_table create_job pure
      ◌>>=◌
  start_ignore_dependencies name = do
    known ← has_unit name
    is_up ← unit_active name
    if not known then pure (err (not_found name)) else if is_up then pure (ok tt) else do
      found ← find_unit_job name
      if_some found λ _. drop_unit_job name >> change_table (release_waiting name)
      id ← create_job JobKind.start name [] replace
      rec (Call.maybe_start_job id)
      rec Call.process_jobs
      pure (ok tt)

  -- A stop with no job, or behind a cancelled one.
  unfoldable pub stop_now : Text → JobMode → M (Result (Option ℕ) Text)
  unfolding enqueue_stop_job_after_mode pure ◌>>=◌
  stop_now name mode = do
    id ← enqueue_stop_job_after_mode outside rec name none mode
    rec Call.process_jobs
    pure (ok (some id))

  unfoldable pub stop_with_mode : Text → JobMode → M (Result (Option ℕ) Text)
  unfolding has_unit unit_operational current_job on_option cancel_job update_job when stop_now pure
      ◌>>=◌
  stop_with_mode name mode = do
    known ← has_unit name
    is_up ← unit_operational name
    if not known then pure (err (not_found name)) else if not is_up then pure (ok none) else do
      current ← current_job name
      on_option current (stop_now name mode) λ (jid, job).
          if is_start job.kind
          then cancel_job outside rec jid (codes "Job canceled by a replacement stop.")
            >> stop_now name mode
          else do
            when (is_irreversible mode) (update_job jid (λ j. record j { mode = mode }))
            pure (ok (some jid))

  abbrev is_restart : JobKind → Bool
  is_restart JobKind.restart = true
  is_restart _ = false

  -- The part of `restart` for a unit that is operational: whether it goes on to the service.
  unfoldable pub stop_then_start : Text → M Bool
  unfolding enqueue_stop_job_after_mode pure ◌>>=◌
  stop_then_start name = do
    enqueue_stop_job_after_mode outside rec name (some name) replace
    rec Call.process_jobs
    pure true

  unfoldable pub restart_operational : Text → M Bool
  unfolding current_job on_option when drop_unit_job stop_then_start pure ◌>>=◌
  restart_operational name = do
    current ← current_job name
    on_option current (stop_then_start name) λ (jid, job).
        if is_restart job.kind
        then pure false
        else do when (is_start job.kind) (drop_unit_job name); stop_then_start name

  abbrev forget : Result {0, 0} (Option ℕ) Text → Result {0, 0} Unit Text
  forget (ok _) = ok tt
  forget (err e) = err e

  -- The service of a socket.
  abbrev service_to_restart : ManagedUnit → Option Text
  service_to_restart u = elim u.kind [ UnitKind.socket ↦ some (activated_service u) | _ ↦ none ]

  -- The number bounds the chain of sockets and services.
  unfoldable pub restart : ℕ → Text → M (Result Unit Text)
  unfolding no_more_fuel has_unit the_unit unit_operational start_with_mode restart_operational
      activated_service on_option pure ◌>>=◌
  restart zero name = no_more_fuel
  restart (suc n) name = do
    known ← has_unit name
    is_up ← unit_operational name
    if not known
        then pure (err (not_found name))
        else if not is_up
        then (do r ← start_with_mode name replace; pure (forget r))
        else do
          u ← the_unit name
          goes_on ← restart_operational name
          on_option (if goes_on then service_to_restart u else none) (pure (ok tt)) λ service. do
            is_service_up ← unit_operational service
            if is_service_up then restart n service else pure (ok tt)

  -- The names of the units that are not inactive.
  abbrev not_inactive : Map Text ManagedUnit → List Text
  not_inactive [] = []
  not_inactive ((n, u) ∷ units) = elim u.active [
    | inactive ↦ not_inactive units
    | _ ↦ n ∷ not_inactive units
  ]

  unfoldable pub begin_shutdown : M Unit
  unfolding modify
  begin_shutdown = modify (λ m. record m { shutting_down = true; wheel = default })

  unfoldable pub shutdown : M Unit
  unfolding gets begin_shutdown for_each stop_with_mode pure ◌>>=◌
  shutdown = do
    down ← gets (λ m. m.shutting_down)
    if down then pure tt else do
      begin_shutdown
      names ← gets (λ m. not_inactive m.units)
      for_each (λ n. stop_with_mode n replace >> pure tt) names
      rec Call.process_jobs
