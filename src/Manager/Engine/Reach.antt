-- ===== src/Manager/Engine/Reach.antt =====
-- rystemd/src/manager/mod.rs: the requests to the job engine, one after the other, and what holds of
-- every state that they lead to.
use rystemd.Prelude.{Bool, Option, ℕ, ◌≡◌, ◌≤◌, subst, true, some, Text, get, text_key, nat_key}
use rystemd.Manager.State.{ManagedUnit}
use rystemd.Manager.State.Active.{IsStamped}
use rystemd.Manager.Action.{done, pure, ◌>>=◌, ◌>>◌}
use rystemd.Manager.Action.Keeps.{Keeps, Returned}
use rystemd.Manager.Jobs.{JobMode, JobStatus}
use rystemd.Manager.Jobs.Invariant.{IsConsistent}
use rystemd.Manager.Jobs.Follows.{TableFollows-start}
use rystemd.Manager.Engine.{Manager, Outside, M}
use rystemd.Manager.Engine.Calls.{Call}
use rystemd.Manager.Engine.Run.{run}
use rystemd.Manager.Engine.Requests
use rystemd.Manager.Engine.Fire
use rystemd.Manager.Engine.Exits.{reap_child}
use rystemd.Manager.Engine.Notify.{notified, name_acquired}
use rystemd.Manager.Engine.Sound.Notify.{notified-Follows, name_acquired-Follows}
use rystemd.Manager.Engine.Spawn.{spawn_control}
use rystemd.Manager.Timer.{TimerKind}
use rystemd.Manager.Engine.Sound.Spawn.{spawn_control-SpawnFollows}
use rystemd.Manager.Engine.Sound.Exits.{reap_child-Follows, fire_timer-Follows, reload-Follows}
use rystemd.Manager.Engine.Follows.{Follows, follows_rules}
use rystemd.Manager.Engine.Sound.Requests.{
  LoadsStamped, start_with_mode-Follows, stop_with_mode-Follows, restart-Follows,
  start_ignore_dependencies-Follows, shutdown-Follows,
}
use rystemd.Manager.Engine.Sound.Run.{run-Follows}

-- What clients ask for, and the calls that timers, exits and triggers make.
pub data Request : Type 0 where
  start stop : Text → JobMode → Request
  start_ignore_dependencies restart : Text → Request
  shutdown : Request
  reload : Text → Request
  event : Call → Request
  exited : ℕ → ℕ → Option ℕ → Request
  fired : Text → TimerKind → Request
  ready : Bool → Option ℕ → Request
  acquired : Text → Request

-- The engine with the source's `spawn_control`.
abbrev pub engine : Outside → ℕ → Call → M Unit
engine outside n call = run outside (spawn_control outside) n call

module _ (outside : Outside) where
  unfoldable pub handle : ℕ → Request → M Unit
  unfolding Requests.start_with_mode Requests.stop_with_mode Requests.start_ignore_dependencies
      Requests.restart Requests.shutdown Fire.reload reap_child Fire.fire_timer notified
      name_acquired run pure ◌>>=◌
  handle n (start name mode) =
      Requests.start_with_mode outside (engine outside n) name mode >> pure tt
  handle n (stop name mode) =
      Requests.stop_with_mode outside (engine outside n) name mode >> pure tt
  handle n (start_ignore_dependencies name) =
      Requests.start_ignore_dependencies outside (engine outside n) name >> pure tt
  handle n (restart name) = Requests.restart outside (engine outside n) n name >> pure tt
  handle n shutdown = Requests.shutdown outside (engine outside n)
  handle n (reload name) = Fire.reload outside (engine outside n) name >> pure tt
  handle n (event call) = engine outside n call
  handle n (exited pid code signal) = reap_child outside (engine outside n) pid code signal
  handle n (fired name kind) = Fire.fire_timer outside (engine outside n) name kind
  handle n (ready is_ready main_pid) = notified outside (engine outside n) is_ready main_pid
  handle n (acquired bus_name) = name_acquired outside (engine outside n) bus_name

  -- The second state comes from the first by requests that return.
  pub data Reach (s : Manager) : Manager → Type 0 where
    here : Reach s s
    next :
        (n : ℕ) (r : Request) (m m' : Manager) → Reach s m → handle n r m ≡ done tt m' → Reach s m'

-- The job table is consistent, and the units' stamps agree with their states.
pub record IsSound (m : Manager) : Type 0 where
  pub table : IsConsistent m.table
  pub stamped : (n : Text) (u : ManagedUnit) → get n m.units ≡ some u → IsStamped u

pub Follows-start : (m : Manager) → IsConsistent m.table → Follows m m
Follows-start m v = record {
  table = TableFollows-start m.table v;
  stamped = λ a. a;
  known = λ n u h. (u, h);
  down = λ h. h;
}

module _ (outside : Outside) (loads : LoadsStamped outside) where
  engine-Follows : (s : Manager) (n : ℕ) (c : Call) → Keeps (Follows s) (engine outside n c)
  engine-Follows s n c =
      run-Follows outside (spawn_control outside) loads (spawn_control-SpawnFollows outside) s n c

  pub handle-Follows : (s : Manager) (n : ℕ) (r : Request) → Keeps (Follows s) (handle outside n r)
  unfolding handle
  handle-Follows s n (start name mode) =
      let k = start_with_mode-Follows s outside (engine outside n) (engine-Follows s n) loads in
      search (follows_rules, k)
  handle-Follows s n (stop name mode) =
      let k = stop_with_mode-Follows s outside (engine outside n) (engine-Follows s n) loads in
      search (follows_rules, k)
  handle-Follows s n (start_ignore_dependencies name) =
      let k =
        start_ignore_dependencies-Follows s outside (engine outside n) (engine-Follows s n) loads in
      search (follows_rules, k)
  handle-Follows s n (restart name) =
      let k = restart-Follows s outside (engine outside n) (engine-Follows s n) loads in
      search (follows_rules, k)
  handle-Follows s n shutdown =
      shutdown-Follows s outside (engine outside n) (engine-Follows s n) loads
  handle-Follows s n (reload name) =
      let k = reload-Follows s outside (engine outside n) (engine-Follows s n) in
      search (follows_rules, k)
  handle-Follows s n (event call) = engine-Follows s n call
  handle-Follows s n (exited pid code signal) =
      reap_child-Follows s outside (engine outside n) (engine-Follows s n) pid code signal
  handle-Follows s n (fired name kind) =
      fire_timer-Follows s outside (engine outside n) (engine-Follows s n) name kind
  handle-Follows s n (ready is_ready main_pid) =
      notified-Follows s outside (engine outside n) (engine-Follows s n) is_ready main_pid
  handle-Follows s n (acquired bus_name) =
      name_acquired-Follows s outside (engine outside n) (engine-Follows s n) bus_name

  reach-Follows : (s m : Manager) → IsConsistent s.table → Reach outside s m → Follows s m
  reach-Follows s m v here = Follows-start s v
  reach-Follows s m v (next n r m0 m1 h e) =
      subst (Returned (Follows s)) e ((handle-Follows s n r).at m0 (reach-Follows s m0 v h))

  -- From a state whose job table is consistent and whose units have stamps that agree with their
  -- states, where loaded units have such stamps, and with no daemon-reload, reset-failed or removed device
  -- in between: in every state that starts, stops, restarts, reloads of services, shutdowns, exits of
  -- processes, notifications, owners of D-Bus names and timers lead to, the job table is consistent and
  -- the stamps agree with the states; every unit is still there; the id counter is not smaller; the result
  -- of a job that was recorded is as it was; and a shutdown that had begun is still on.
  pub reach_lem :
      (s m : Manager)
      → IsSound s
      → Reach outside s m
      → IsSound m
        × ((n : Text) (u : ManagedUnit)
            → get n s.units ≡ some u
            → (u' : ManagedUnit) × (get n m.units ≡ some u'))
        × (s.table.next_job ≤ m.table.next_job)
        × ((i : ℕ) (r : JobStatus)
            → get i s.table.completed_jobs ≡ some r
            → get i m.table.completed_jobs ≡ some r)
        × (s.shutting_down ≡ true → m.shutting_down ≡ true)
  reach_lem s m v h =
      let f = reach-Follows s m v.table h in
      (
        record { table = f.table.consistent; stamped = f.stamped v.stamped },
        f.known,
        f.table.counting,
        f.table.kept,
        f.down,
      )
