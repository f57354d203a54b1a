-- ===== src/Manager/Engine/Targets.antt =====
-- rystemd/src/manager/mod.rs, unit_type.rs: a target without dependencies starts, within a bound on the
-- depth of the calls.
pub mod Start
use rystemd.Prelude.{
  ℕ, ◌+◌, ◌^◌, suc, ◌≡◌, ◌≢◌, refl, sym, subst, ap, ◌∙◌, ◌⊎◌, inl, inr, Bool, true, false, not,
  Option, none, some, List, [], ◌∷◌, ◌++◌, ◌==◌, ==_iff, Text, text_eq, text_eq_iff, Map, get,
  insert, remove, adjust, keys, contains_key, text_key, nat_key, arith, if◌then◌else◌, map_option,
  get-adjust_same, get-insert, Bool-cases, Result, ok, err,
}
use rystemd.Unit.Config.{UnitKind}
use rystemd.Manager.State.{ManagedUnit, ActiveState, SubState, success, set_active}
use rystemd.Manager.Action.{
  done, pure, gets, change, modify, unwrap, continue, for_each, if_some, on_option, on_result, when,
  fold_each, try_each, ◌>>=◌, ◌>>◌,
}
use rystemd.Manager.Jobs.{
  JobKind, JobMode, Job, JobTable, retire, record_job_result, remove_job, is_id, new_job, is_stop,
  change_job,
}
use rystemd.Manager.Engine.{
  Manager, Outside, M, ask, find_unit, the_unit, enter, entered, find_unit_job, the_job, find_job,
  close_job, update_unit, update_job, update_job_if, change_table,
}
use rystemd.Manager.Engine.Calls.{Call}
use rystemd.Manager.Engine.Timers.{timers_of, timer_dep_check}
use rystemd.Manager.Engine.Queue.{
  start_window_at, check_start_limit, maybe_start_job, on_job_completed, finish_job, go_on,
  complete_start_job, do_start,
}
use rystemd.Manager.Engine.Types.{type_start, start_at_once}
use rystemd.Manager.Engine.Run.{Spawn, body, run}
use rystemd.Manager.Engine.Results.{retire_result}

retire_alone :
    (id : ℕ) (j : Job) (unit : Text) (ok : Bool) (error : Option Text) (t : JobTable)
    → t.jobs ≡ (id, j) ∷ []
    → (retire id unit ok error t).jobs ≡ []
unfolding retire remove_job record_job_result remove get
retire_alone id j unit good error t h = ground (arith, h, ==_iff id id)

-- The name's unit is active, its job has succeeded, and no job is left.
pub record Started (id : ℕ) (name : Text) (m : Manager) : Type 0 where
  pub no_jobs : m.table.jobs ≡ []
  pub result :
      get id m.table.completed_jobs
      ≡ some (record { id = id; unit = name; ok = true; error = none })
  pub is_up : (u : ManagedUnit) × (get name m.units ≡ some u) × (u.active ≡ ActiveState.active)

pub adjust_alone :
    (id : ℕ) (f : Job → Job) (j : Job) (t : JobTable)
    → t.jobs ≡ (id, j) ∷ []
    → (change_job id f t).jobs ≡ (id, f j) ∷ []
unfolding change_job adjust
adjust_alone id f j t h = ground (arith, h, ==_iff id id)

module _ (outside : Outside) where
  timers_of-adjust :
      (name : Text) (f : ManagedUnit → ManagedUnit) (units : Map Text ManagedUnit)
      → ((u : ManagedUnit) → (f u).kind ≡ u.kind)
      → timers_of outside (adjust name f units) ≡ timers_of outside units
  unfolding adjust
  timers_of-adjust name f [] k = refl
  timers_of-adjust name f ((n, u) ∷ units) k = elim (Bool-cases (text_eq n name)) [
    | inl e ↦ rw e ground (arith, k u)
    | inr e ↦ rw e ground (arith, timers_of-adjust name f units k)
  ]

-- The only job is a start job of the unit, which is a target; there are no timers.
pub record Ready (outside : Outside) (id : ℕ) (j : Job) (u : ManagedUnit) (m : Manager)
    : Type 0 where
  alone : m.table.jobs ≡ (id, j) ∷ []
  starts : j.kind ≡ JobKind.start
  pointed : get j.unit m.table.unit_job ≡ some id
  no_timers : timers_of outside m.units ≡ []
  known : get j.unit m.units ≡ some u
  is_target : u.kind ≡ UnitKind.target

pub get_alone :
    (id : ℕ) (j : Job) (m : Manager) → m.table.jobs ≡ (id, j) ∷ [] → get id m.table.jobs ≡ some j
unfolding get
get_alone id j m h = ground (arith, h, ==_iff id id)

abbrev finished : ℕ → Job → Manager → Manager
finished id j m = record m { table = retire id j.unit true none m.table }

module _ (outside : Outside) (id : ℕ) (j : Job) (u : ManagedUnit) (m : Manager)
    (r : Ready outside id j u m) where
  abbrev activated : Manager
  activated =
      entered j.unit (outside.system_now m.asked) ActiveState.active SubState.dead success u
        (record m { asked = m.asked + 1 })

  activated-Started : Started id j.unit (finished id j activated)
  unfolding set_active
  activated-Started = record {
    no_jobs = retire_alone id j j.unit true none m.table r.alone;
    result = retire_result id true none j m.table (get_alone id j m r.alone);
    is_up = (_, get-adjust_same j.unit _ m.units u r.known, refl);
  }

  activated-timers : timers_of outside activated.units ≡ []
  unfolding set_active
  activated-timers = timers_of-adjust outside j.unit _ m.units (λ v. refl) ∙ r.no_timers

module _ (outside : Outside) (spawn_control : Spawn) where
  completed_step :
      (n : ℕ) (unit : Text) (ok : Bool) (m : Manager)
      → m.table.jobs ≡ []
      → run outside spawn_control (suc n) (Call.on_job_completed unit ok) m ≡ done tt m
  unfolding run body on_job_completed for_each gets pure ◌>>=◌ continue
  completed_step n unit good m h = rw (h, keys) refl

  module _ (n id : ℕ) (j : Job) (m : Manager) (alone : m.table.jobs ≡ (id, j) ∷ [])
      (starts : j.kind ≡ JobKind.start) where
    finish_step :
        run outside spawn_control (suc (suc n)) (Call.finish_job id) m ≡ done tt (finished id j m)
    unfolding run body finish_job close_job change if_some go_on pure ◌>>=◌ continue
    finish_step = ground (
      arith,
      get_alone id j m alone,
      starts,
      completed_step n j.unit true (finished id j m)
          (retire_alone id j j.unit true none m.table alone),
    )

    complete_step :
        get j.unit m.table.unit_job ≡ some id
        → timers_of outside m.units ≡ []
        → run outside spawn_control (suc (suc (suc n))) (Call.complete_start_job j.unit) m
          ≡ done tt (finished id j m)
    unfolding run body complete_start_job find_unit_job the_job find_job gets unwrap if_some when
        timer_dep_check for_each pure ◌>>=◌ continue
    complete_step p t = ground (arith, p, t, get_alone id j m alone, starts, finish_step)

  module _ (n id : ℕ) (j : Job) (u : ManagedUnit) (m : Manager) (r : Ready outside id j u m) where
    do_start_step :
        run outside spawn_control (suc (suc (suc (suc n)))) (Call.do_start j.unit) m
        ≡ run outside spawn_control
            (suc (suc (suc n)))
            (Call.complete_start_job j.unit)
            (activated outside id j u m r)
    unfolding run body do_start find_unit type_start start_at_once enter the_unit ask change modify
        gets unwrap if_some pure ◌>>=◌ continue
    do_start_step = ground (arith, r.known, r.is_target)

    pub do_start_ends :
        (m' : Manager) × (run outside spawn_control
            (suc (suc (suc (suc n))))
            (Call.do_start j.unit)
            m
          ≡ done tt m')
        × Started id j.unit m'
    do_start_ends = (
      finished id j (activated outside id j u m r),
      do_start_step
          ∙ complete_step n id j (activated outside id j u m r) r.alone r.starts r.pointed
              (activated-timers outside id j u m r),
      activated-Started outside id j u m r,
    )

-- A job on its way: nothing failed, nothing to wait for, not started; and no start of its unit before.
pub record IsFresh (j : Job) (u : ManagedUnit) : Type 0 where
  not_failed : j.failed ≡ false
  nothing_waits : j.waiting ≡ []
  not_started : j.started ≡ false
  no_starts : u.start_window ≡ []

module _ (outside : Outside) (rec : Call → M Unit) where
  abbrev pub allowed : ℕ → ManagedUnit → ManagedUnit
  allowed i v = record v { start_window = (start_window_at (outside.now i) v.start_window).1 }

  limit_step :
      (name : Text) (u : ManagedUnit) (m : Manager)
      → get name m.units ≡ some u
      → u.start_window ≡ []
      → check_start_limit outside rec name m
        ≡ done false
            (record m { asked = m.asked + 1; units = adjust name (allowed m.asked) m.units })
  unfolding check_start_limit update_unit the_unit find_unit ask change modify gets unwrap
      start_window_at pure ◌>>=◌ continue
  limit_step name u m g e = ground (arith, g, e)

  module _ (id : ℕ) (j : Job) (u : ManagedUnit) (m : Manager) (r : Ready outside id j u m)
      (f : IsFresh j u) where
    abbrev pub begun : Job
    begun = record j { started = true }

    abbrev pub begun_state : Manager
    begun_state = record m { table = change_job id (λ k. record k { started = true }) m.table }

    abbrev pub counted : Manager
    counted = record begun_state {
      asked = m.asked + 1;
      units = adjust j.unit (allowed m.asked) m.units;
    }

    pub counted-Ready : Ready outside id begun (allowed m.asked u) counted
    unfolding change_job
    counted-Ready = record {
      alone = adjust_alone id (λ k. record k { started = true }) j m.table r.alone;
      starts = r.starts;
      pointed = r.pointed;
      no_timers =
          timers_of-adjust outside j.unit (allowed m.asked) m.units (λ v. refl) ∙ r.no_timers;
      known = get-adjust_same j.unit (allowed m.asked) m.units u r.known;
      is_target = r.is_target;
    }

    pub maybe_start_step : maybe_start_job outside rec id m ≡ rec (Call.do_start j.unit) counted
    unfolding maybe_start_job update_job update_job_if change_table the_job find_job modify gets
        unwrap pure ◌>>=◌ continue
    maybe_start_step = ground (
      arith,
      get_alone id j m r.alone,
      f.not_failed,
      f.nothing_waits,
      f.not_started,
      limit_step j.unit u begun_state r.known f.no_starts,
    )
