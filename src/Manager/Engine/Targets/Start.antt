-- ===== src/Manager/Engine/Targets/Start.antt =====
-- rystemd/src/manager/mod.rs: from the request to start a target without dependencies to its job.
use rystemd.Prelude.{
  ℕ, ◌+◌, ◌-◌, ◌^◌, ◌≤◌, suc, ◌≡◌, refl, subst, ◌∙◌, true, false, none, some, [], ◌∷◌, ◌==◌, Text,
  text_eq_iff, Map, get, insert, remove, keys, contains_key, text_key, nat_key, arith, get-insert,
  Option-cases, inl, inr, ok,
}
use rystemd.Unit.Config.{UnitKind}
use rystemd.Manager.State.{ManagedUnit}
use rystemd.Manager.Deps.{start_closure, closure_conflicts, after}
use rystemd.Manager.Action.{
  done, pure, gets, change, modify, unwrap, continue, for_each, on_option, on_result, when,
  fold_each, try_each, ◌>>=◌,
}
use rystemd.Manager.Jobs.{JobKind, JobMode, Job, JobTable, fresh_job, new_job, change_job}
use rystemd.Manager.Engine.{
  Manager, Outside, M, ask, find_unit, the_unit, has_unit, the_job, find_job, update_job,
  update_job_if, change_table, is_active, create_job, put_job, unit_active, find_unit_job,
}
use rystemd.Manager.Engine.Calls.{Call}
use rystemd.Manager.Engine.Expand.{
  expand_start_job, expand_dependencies, order, gather, commit, find_failing, conditions_of,
  before_names, enqueue_start_job_mode, distinct_from,
}
use rystemd.Manager.Engine.Queue.{process_jobs}
use rystemd.Manager.Engine.Reach.{IsSound}
use rystemd.Manager.Engine.Timers.{timers_of}
use rystemd.Manager.Engine.Requests.{
  start_with_mode, start_inactive, current_job, ensure_unit_loaded,
}
use rystemd.Manager.Engine.Run.{Spawn, body, run}
use rystemd.Manager.Engine.Targets.{
  Ready, IsFresh, get_alone, adjust_alone, Started, do_start_ends, maybe_start_step, counted,
  counted-Ready, begun, allowed,
}

-- The unit has no conditions, and nothing that it pulls in, that it conflicts with or that it is
-- ordered behind.
pub record StandsAlone (name : Text) (u : ManagedUnit) (units : Map Text ManagedUnit) : Type 0 where
  pub no_conditions : conditions_of u ≡ []
  pub no_dependencies : start_closure units name ≡ ([], [], [])
  pub no_conflicts : closure_conflicts units name ≡ []
  pub no_after : after u ≡ []
  pub no_before : before_names units name ≡ []

module _ (outside : Outside) (rec : Call → M Unit) (id : ℕ) where
  abbrev commits : Job → Job
  commits k = record k { waiting = []; expanding = false }

  commit_step :
      (m : Manager)
      → commit outside rec id [] m
        ≡ rec (Call.maybe_start_job id) (record m { table = change_job id commits m.table })
  unfolding commit update_job_if change_table modify gets ◌>>=◌ continue
  commit_step m = refl

  order_step :
      (name : Text) (u : ManagedUnit) (m : Manager)
      → get name m.units ≡ some u
      → after u ≡ []
      → before_names m.units name ≡ []
      → order outside rec id name [] m ≡ commit outside rec id [] m
  unfolding order the_unit find_unit fold_each gets unwrap pure ◌>>=◌ continue
  order_step name u m g a b = ground (arith, g, a, b)

  gather_step :
      (name : Text) (m : Manager)
      → closure_conflicts m.units name ≡ []
      → gather outside rec id name [] [] [] m ≡ order outside rec id name [] m
  unfolding gather for_each try_each on_result distinct_from gets pure ◌>>=◌ continue
  gather_step name m c = rw c refl

  abbrev expands : Job → Job
  expands k = record k { expanding = true }

  dependencies_step :
      (name : Text) (j : Job) (m : Manager)
      → get id m.table.jobs ≡ some j
      → start_closure m.units name ≡ ([], [], [])
      → expand_dependencies outside rec id name m
        ≡ gather outside rec id name [] [] [] (record m { table = change_job id expands m.table })
  unfolding expand_dependencies update_job update_job_if change_table the_job find_job try_each
      on_result modify gets unwrap pure ◌>>=◌ continue
  dependencies_step name j m h c = ground (arith, h, c)

  expand_step :
      (j : Job) (u : ManagedUnit) (m : Manager)
      → get id m.table.jobs ≡ some j
      → get j.unit m.units ≡ some u
      → conditions_of u ≡ []
      → expand_start_job outside rec id m
        ≡ expand_dependencies outside rec id j.unit (record m { asked = m.asked + 1 + 1 })
  unfolding expand_start_job the_job find_job has_unit contains_key the_unit find_unit ask change
      find_failing on_option gets unwrap pure ◌>>=◌ continue
  expand_step j u m h g c = ground (arith, h, g, c)

module _ (outside : Outside) (spawn_control : Spawn) (n : ℕ) where
  -- The call at the end of the transaction.
  maybe_start_ends :
      (id : ℕ) (j : Job) (u : ManagedUnit) (m : Manager)
      → Ready outside id j u m
      → IsFresh j u
      → (m' : Manager) × (run outside spawn_control
            (suc (suc (suc (suc (suc n)))))
            (Call.maybe_start_job id)
            m
          ≡ done tt m')
        × Started id j.unit m'
  unfolding run body
  maybe_start_ends id j u m r f =
      let rec = run outside spawn_control (suc (suc (suc (suc n)))) in
      let (m', e, g) =
        do_start_ends outside spawn_control n id (begun outside rec id j u m r f)
          (allowed outside rec m.asked u) (counted outside rec id j u m r f)
          (counted-Ready outside rec id j u m r f) in
      (m', maybe_start_step outside rec id j u m r f ∙ e, g)

  module _ (id : ℕ) (j : Job) (u : ManagedUnit) (m : Manager) (r : Ready outside id j u m)
      (f : IsFresh j u) (a : StandsAlone j.unit u m.units) where
    abbrev expanded : Manager
    expanded = record m {
      table =
          change_job id (λ k. record k { waiting = []; expanding = false })
            (change_job id (λ k. record k { expanding = true }) m.table);
      asked = m.asked + 1 + 1;
    }

    expanded-Ready : Ready outside id (record j { waiting = []; expanding = false }) u expanded
    unfolding change_job
    expanded-Ready = record {
      alone =
          adjust_alone id (λ k. record k { waiting = []; expanding = false })
            (record j { expanding = true })
            (change_job id (λ k. record k { expanding = true }) m.table)
            (adjust_alone id (λ k. record k { expanding = true }) j m.table r.alone);
      starts = r.starts;
      pointed = r.pointed;
      no_timers = r.no_timers;
      known = r.known;
      is_target = r.is_target;
    }

    expand_ends :
        (m' : Manager) × (run outside spawn_control
            (suc (suc (suc (suc (suc (suc n))))))
            (Call.expand_start_job id)
            m
          ≡ done tt m')
        × Started id j.unit m'
    unfolding run body
    expand_ends =
        let rec = run outside spawn_control (suc (suc (suc (suc (suc n))))) in
        let m1 = record m { asked = m.asked + 1 + 1 } in
        let m2 = record m1 { table = change_job id (λ k. record k { expanding = true }) m.table } in
        let g = get_alone id j m r.alone in
        let (m', e, s) =
          maybe_start_ends id (record j { waiting = []; expanding = false }) u expanded
            expanded-Ready
            (record {
              not_failed = f.not_failed;
              nothing_waits = refl;
              not_started = f.not_started;
              no_starts = f.no_starts;
            }) in
        (
          m',
          expand_step outside rec id j u m g r.known a.no_conditions
              ∙ dependencies_step outside rec id j.unit j m1 g a.no_dependencies
              ∙ gather_step outside rec id j.unit m2 a.no_conflicts
              ∙ order_step outside rec id j.unit u m2 r.known a.no_after a.no_before
              ∙ commit_step outside rec id m2
              ∙ e,
          s,
        )

  process_step :
      (m : Manager)
      → m.table.jobs ≡ []
      → run outside spawn_control (suc n) Call.process_jobs m ≡ done tt m
  unfolding run body process_jobs fold_each when gets pure ◌>>=◌ continue
  process_step m h = rw (h, keys) refl

module _ (outside : Outside) (rec : Call → M Unit) (name : Text) (mode : JobMode) (u : ManagedUnit)
    (m m' : Manager) where
  abbrev begins : Manager
  begins = record m { table = new_job JobKind.start name [] mode m.table }

  enqueue_step :
      (m.table.next_job + 1 == 2 ^ 64) ≡ false
      → rec (Call.expand_start_job (m.table.next_job + 1)) begins ≡ done tt m'
      → enqueue_start_job_mode outside rec name mode m ≡ done (m.table.next_job + 1) m'
  unfolding enqueue_start_job_mode create_job put_job change gets pure ◌>>=◌ continue
  enqueue_step h e = ground (arith, h, e)

  inactive_step :
      get name m.table.unit_job ≡ none
      → enqueue_start_job_mode outside rec name mode m ≡ done (m.table.next_job + 1) m'
      → rec Call.process_jobs m' ≡ done tt m'
      → start_inactive outside rec name mode m ≡ done (ok (some (m.table.next_job + 1))) m'
  unfolding start_inactive current_job find_unit_job on_option gets pure ◌>>=◌ continue
  inactive_step h e p = ground (arith, h, e, p)

  request_step :
      get name m.units ≡ some u
      → m.shutting_down ≡ false
      → is_active (some u) ≡ false
      → start_with_mode outside rec name mode m ≡ start_inactive outside rec name mode m
  unfolding start_with_mode ensure_unit_loaded has_unit contains_key unit_active on_result gets pure
      ◌>>=◌ continue
  request_step g d a = ground (arith, g, d, a)

new_job_alone :
    (name : Text) (mode : JobMode) (t : JobTable)
    → t.jobs ≡ []
    → (new_job JobKind.start name [] mode t).jobs
      ≡ (t.next_job + 1, fresh_job JobKind.start name [] mode) ∷ []
unfolding new_job insert remove
new_job_alone name mode t h = rw h refl

new_job_pointed :
    (name : Text) (mode : JobMode) (t : JobTable)
    → get name (new_job JobKind.start name [] mode t).unit_job ≡ some (t.next_job + 1)
unfolding new_job
new_job_pointed name mode t =
    ground (arith, get-insert name name (t.next_job + 1) t.unit_job, text_eq_iff name name)

no_unit_job :
    (m : Manager) (name : Text) → IsSound m → m.table.jobs ≡ [] → get name m.table.unit_job ≡ none
unfolding get
no_unit_job m name v h = elim (Option-cases (get name m.table.unit_job)) [
  | inl e ↦ e
  | inr (i, e) ↦ let (j, k, _) = v.table.pointed name i e in absurd (ground (arith, h, k))
]

abbrev deep : ℕ → ℕ
deep n = suc (suc (suc (suc (suc (suc n)))))

start_target_deep :
    (outside : Outside) (spawn_control : Spawn) (n : ℕ) (name : Text) (mode : JobMode)
    (u : ManagedUnit) (m : Manager)
    → IsSound m
    → m.table.jobs ≡ []
    → (m.table.next_job + 1 == 2 ^ 64) ≡ false
    → m.shutting_down ≡ false
    → timers_of outside m.units ≡ []
    → get name m.units ≡ some u
    → u.kind ≡ UnitKind.target
    → is_active (some u) ≡ false
    → u.start_window ≡ []
    → StandsAlone name u m.units
    → (m' : Manager) × (start_with_mode outside (run outside spawn_control (deep n)) name mode m
        ≡ done (ok (some (m.table.next_job + 1))) m')
      × Started (m.table.next_job + 1) name m'
start_target_deep outside spawn_control n name mode u m v no_jobs ids down no_timers known is_target
      inactive no_starts alone =
    let rec = run outside spawn_control (deep n) in
    let id = m.table.next_job + 1 in
    let j = fresh_job JobKind.start name [] mode in
    let r : Ready outside id j u (begins outside rec name mode u m m) = record {
      alone = new_job_alone name mode m.table no_jobs;
      starts = refl;
      pointed = new_job_pointed name mode m.table;
      no_timers = no_timers;
      known = known;
      is_target = is_target;
    } in
    let f : IsFresh j u = record {
      not_failed = refl;
      nothing_waits = refl;
      not_started = refl;
      no_starts = no_starts;
    } in
    let (m', e, s) =
      expand_ends outside spawn_control n id j u (begins outside rec name mode u m m) r f alone in
    let p = process_step outside spawn_control (suc (suc (suc (suc (suc n))))) m' s.no_jobs in
    (
      m',
      request_step outside rec name mode u m m' known down inactive
          ∙ inactive_step outside rec name mode u m m' (no_unit_job m name v no_jobs)
              (enqueue_step outside rec name mode u m m' ids e) p,
      s,
    )

-- In a sound state without jobs and timers, where ids are left and no shutdown has begun: a start of a
-- loaded target that is not active, that was not started before, and that has no conditions,
-- dependencies, conflicts and ordering returns where the fuel is six or more. It answers with the id of
-- the job; then the target is active, the job has succeeded and no job is left.
pub start_target_lem :
    (outside : Outside) (spawn_control : Spawn) (depth : ℕ) (name : Text) (mode : JobMode)
    (u : ManagedUnit) (m : Manager)
    → 6 ≤ depth
    → IsSound m
    → m.table.jobs ≡ []
    → (m.table.next_job + 1 == 2 ^ 64) ≡ false
    → m.shutting_down ≡ false
    → timers_of outside m.units ≡ []
    → get name m.units ≡ some u
    → u.kind ≡ UnitKind.target
    → is_active (some u) ≡ false
    → u.start_window ≡ []
    → StandsAlone name u m.units
    → (m' : Manager) × (start_with_mode outside (run outside spawn_control depth) name mode m
        ≡ done (ok (some (m.table.next_job + 1))) m')
      × Started (m.table.next_job + 1) name m'
start_target_lem outside spawn_control depth name mode u m le v no_jobs ids down no_timers known
      is_target inactive no_starts alone =
    let e : deep (depth - 6) ≡ depth = omega (arith, le) in
    subst
      (λ d.
        (m' : Manager) × (start_with_mode outside (run outside spawn_control d) name mode m
          ≡ done (ok (some (m.table.next_job + 1))) m')
        × Started (m.table.next_job + 1) name m')
      e
      (start_target_deep outside spawn_control (depth - 6) name mode u m v no_jobs ids down
        no_timers known is_target inactive no_starts alone)
