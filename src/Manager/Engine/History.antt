-- ===== src/Manager/Engine/History.antt =====
-- rystemd/src/manager/mod.rs: what holds of the jobs in every state that requests and reloads lead to.
use rystemd.Prelude.{
  ℕ, ◌≡◌, ◌≤◌, refl, sym, subst, true, some, List, [], ◌∷◌, err, Map, Text, text_key, get, nat_key,
  arith,
}
use rystemd.Unit.Config.{UnitFile}
use rystemd.Manager.State.{ManagedUnit}
use rystemd.Manager.Timer.{TimerWheel}
use rystemd.Manager.Action.{done, pure, for_each, ◌>>=◌, ◌>>◌}
use rystemd.Manager.Action.Keeps.{
  Keeps, Returned, Keeps-pure, Keeps-gets, Keeps-change, Keeps-modify, Keeps-bind, Keeps-if,
  Keeps-for_each, Keeps-fold_each, Keeps-on_option, Keeps-on_result, Keeps-unwrap,
}
use rystemd.Manager.Action
use rystemd.Manager.Jobs.{JobStatus}
use rystemd.Manager.Jobs.Invariant.{IsConsistent}
use rystemd.Manager.Engine.{Manager, Outside, M, ask, find_unit, the_unit, has_unit, update_unit}
use rystemd.Manager.Engine.Timers.{change_wheel, rearm_timer}
use rystemd.Manager.Engine.Expand.{not_found}
use rystemd.Manager.Engine.Follows.{Follows}
use rystemd.Manager.Engine.Sound.Timers.{rearm_timer-Follows}
use rystemd.Manager.Engine.Sound.Requests.{LoadsStamped}
use rystemd.Manager.Engine.Reload.{
  put_unit, replace_units, remove_unit, rearm_all_timers, load_into, register, load_all, reset,
  reset_failed_units,
}
use rystemd.Manager.Engine.Reach.{Request, handle, handle-Follows, Follows-start}

-- The jobs of `m` behind those of `s`: the table is consistent, no id is given again, a recorded result
-- stays, and a shutdown stays on.
pub record JobsFollow (s m : Manager) : Type 0 where
  pub consistent : IsConsistent m.table
  pub counting : s.table.next_job ≤ m.table.next_job
  pub kept :
      (i : ℕ) (r : JobStatus)
      → get i s.table.completed_jobs ≡ some r
      → get i m.table.completed_jobs ≡ some r
  pub down : s.shutting_down ≡ true → m.shutting_down ≡ true

pub data Event : Type 0 where
  requested : Request → Event
  daemon_reload : Event
  reset_failed : List Text → Event
  device_added : Text × UnitFile → Event
  device_removed : List Text → Event

module _ (outside : Outside) where
  unfoldable pub handle_event : ℕ → Event → M Unit
  unfolding handle load_all reset_failed_units register remove_unit for_each pure ◌>>=◌
  handle_event n (requested r) = handle outside n r
  handle_event n daemon_reload = load_all outside >> pure tt
  handle_event n (reset_failed names) = reset_failed_units names >> pure tt
  handle_event n (device_added device) = register outside device
  handle_event n (device_removed names) = for_each remove_unit names

  -- The second state comes from the first by events whose handling returns.
  pub data Happened (s : Manager) : Manager → Type 0 where
    nothing : Happened s s
    then_event :
        (n : ℕ) (e : Event) (m m' : Manager)
        → Happened s m
        → handle_event n e m ≡ done tt m'
        → Happened s m'

-- What follows from every state follows from one behind another.
module _ (s : Manager) where
  JobsFollow-Follows :
      {A : Type 0} (f : M A) → ((m : Manager) → Keeps (Follows m) f) → Keeps (JobsFollow s) f
  JobsFollow-Follows f k = record {
    at = λ m v. later m v (f m) ((k m).at m (Follows-start m v.consistent));
  }
    where
      later :
          {A : Type 0} (m : Manager)
          → JobsFollow s m
          → (o : Action.Outcome Manager A) → Returned (Follows m) o
          → Returned (JobsFollow s) o
      later m v (done a t) w = record {
        consistent = w.table.consistent;
        counting = omega (arith, v.counting, w.table.counting);
        kept = λ i r h. w.table.kept i r (v.kept i r h);
        down = λ h. w.down (v.down h);
      }
      later m v Action.panicked w = tt
      later m v Action.ids_used_up w = tt
      later m v Action.out_of_fuel w = tt

  -- A write of the units, the wheel or the counters leaves the jobs.
  same-JobsFollow :
      (m m' : Manager)
      → m'.table ≡ m.table
      → m'.shutting_down ≡ m.shutting_down
      → JobsFollow s m
      → JobsFollow s m'
  same-JobsFollow m m' t d v = record {
    consistent = subst IsConsistent (sym t) v.consistent;
    counting = subst (λ x. s.table.next_job ≤ x.next_job) (sym t) v.counting;
    kept = λ i r h. subst (λ x. get i x.completed_jobs ≡ some r) (sym t) (v.kept i r h);
    down = λ h. subst (λ x. x ≡ true) (sym d) (v.down h);
  }

  ask-JobsFollow : {A : Type 0} (f : ℕ → A) → Keeps (JobsFollow s) (ask f)
  unfolding ask
  ask-JobsFollow f = Keeps-change _ λ m v. same-JobsFollow m _ refl refl v

  has_unit-JobsFollow : (n : Text) → Keeps (JobsFollow s) (has_unit n)
  unfolding has_unit
  has_unit-JobsFollow n = Keeps-gets _

  update_unit-JobsFollow :
      (n : Text) (f : ManagedUnit → ManagedUnit) → Keeps (JobsFollow s) (update_unit n f)
  unfolding update_unit the_unit find_unit
  update_unit-JobsFollow n f =
      Keeps-bind _ _ (search (Keeps-bind, Keeps-gets, Keeps-unwrap))
        λ _. Keeps-modify _ λ m v. same-JobsFollow m _ refl refl v

  put_unit-JobsFollow : (n : Text) (u : ManagedUnit) (i : ℕ) → Keeps (JobsFollow s) (put_unit n u i)
  unfolding put_unit
  put_unit-JobsFollow n u i = Keeps-modify _ λ m v. same-JobsFollow m _ refl refl v

  replace_units-JobsFollow :
      (units : Map Text ManagedUnit) → Keeps (JobsFollow s) (replace_units units)
  unfolding replace_units
  replace_units-JobsFollow units = Keeps-modify _ λ m v. same-JobsFollow m _ refl refl v

  remove_unit-JobsFollow : (n : Text) → Keeps (JobsFollow s) (remove_unit n)
  unfolding remove_unit
  remove_unit-JobsFollow n = Keeps-modify _ λ m v. same-JobsFollow m _ refl refl v

  change_wheel-JobsFollow : (f : TimerWheel → TimerWheel) → Keeps (JobsFollow s) (change_wheel f)
  unfolding change_wheel
  change_wheel-JobsFollow f = Keeps-modify _ λ m v. same-JobsFollow m _ refl refl v

ruleset history_rules = (
  Keeps-pure, Keeps-gets, Keeps-bind, Keeps-if, Keeps-for_each, Keeps-fold_each, Keeps-on_option,
  Keeps-on_result, ask-JobsFollow, has_unit-JobsFollow, update_unit-JobsFollow, put_unit-JobsFollow,
  replace_units-JobsFollow, remove_unit-JobsFollow, change_wheel-JobsFollow,
)

module _ (s : Manager) (outside : Outside) where
  rearm_timer-JobsFollow : (n : Text) → Keeps (JobsFollow s) (rearm_timer outside n)
  rearm_timer-JobsFollow n =
      JobsFollow-Follows s (rearm_timer outside n) λ m. rearm_timer-Follows m outside n

  rearm_all_timers-JobsFollow : Keeps (JobsFollow s) (rearm_all_timers outside)
  unfolding rearm_all_timers
  rearm_all_timers-JobsFollow = search (history_rules, rearm_timer-JobsFollow) depth 20

  load_into-JobsFollow :
      (old : Map Text ManagedUnit) (b : Map Text ManagedUnit × List Text) (n : Text)
      → Keeps (JobsFollow s) (load_into outside old b n)
  unfolding load_into
  load_into-JobsFollow old b n = search history_rules depth 20

  register-JobsFollow : (d : Text × UnitFile) → Keeps (JobsFollow s) (register outside d)
  unfolding register
  register-JobsFollow d = search history_rules depth 20

  load_all-JobsFollow : Keeps (JobsFollow s) (load_all outside)
  unfolding load_all
  load_all-JobsFollow =
      search (history_rules, load_into-JobsFollow, register-JobsFollow, rearm_all_timers-JobsFollow)
        depth 20

  reset_failed_units-JobsFollow :
      (names : List Text) → Keeps (JobsFollow s) (reset_failed_units names)
  unfolding reset_failed_units
  reset_failed_units-JobsFollow [] = Keeps-pure _
  reset_failed_units-JobsFollow (n ∷ names) =
      Keeps-bind (has_unit n) _ (has_unit-JobsFollow s n) λ known.
        Keeps-if known _ _
          (Keeps-bind (update_unit n reset) _ (update_unit-JobsFollow s n reset)
            λ _. reset_failed_units-JobsFollow names)
          (Keeps-pure (err (not_found n)))

  handle_event-JobsFollow :
      LoadsStamped outside → (n : ℕ) (e : Event) → Keeps (JobsFollow s) (handle_event outside n e)
  unfolding handle_event
  handle_event-JobsFollow l n (requested r) =
      JobsFollow-Follows s (handle outside n r) λ m. handle-Follows outside l m n r
  handle_event-JobsFollow l n daemon_reload = search (history_rules, load_all-JobsFollow) depth 20
  handle_event-JobsFollow l n (reset_failed names) =
      search (history_rules, reset_failed_units-JobsFollow) depth 20
  handle_event-JobsFollow l n (device_added d) = register-JobsFollow d
  handle_event-JobsFollow l n (device_removed names) = search history_rules depth 20

-- From a state whose job table is consistent, where loaded units have stamps that agree with their states:
-- in every state that starts, stops, restarts, reloads of services, shutdowns, exits of processes,
-- notifications, owners of D-Bus names, timers, daemon-reloads, reset-failed and devices that come and go
-- lead to, in whatever order, the job table is consistent; the id counter is not smaller; the result of
-- a job that was recorded is as it was; and a shutdown that had begun is still on.
pub happened_lem :
    (outside : Outside) (s m : Manager)
    → LoadsStamped outside
    → IsConsistent s.table
    → Happened outside s m
    → JobsFollow s m
happened_lem outside s m l v nothing = record {
  consistent = v;
  counting = omega arith;
  kept = λ i r h. h;
  down = λ h. h;
}
happened_lem outside s m l v (then_event n e t _ h q) =
    subst (Returned (JobsFollow s)) q
      ((handle_event-JobsFollow s outside l n e).at t (happened_lem outside s t l v h))
