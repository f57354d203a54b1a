-- ===== src/Manager/Engine/Samples.antt =====
-- Managers with a few targets, and a quiet system, on which the job engine of manager/mod.rs is run.
use rystemd.Prelude.{
  ℕ, ◌^◌, ◌≡◌, refl, subst, inl, inr, true, false, Bool-cases, none, some, [], ◌∷◌, Text, codes,
  Map, get, text_key, nat_key, text_eq, ok, err, arith,
}
use rystemd.Calendar.{DateTime}
use rystemd.Unit.Config.{UnitConfig, target}
use rystemd.Manager.State.{ManagedUnit}
use rystemd.Manager.State.Active.{IsStamped, new_unit-IsStamped}
use rystemd.Manager.Timer.{default}
use rystemd.Manager.Action.Keeps.{Keeps-pure}
use rystemd.Manager.Jobs.{JobTable}
use rystemd.Manager.Jobs.Invariant.{IsConsistent}
use rystemd.Manager.Engine.{Manager, Outside}
use rystemd.Manager.Engine.Run.{Spawn}
use rystemd.Manager.Engine.Follows.{stamps-IsStamped}
use rystemd.Manager.Engine.Sound.Requests.{LoadsStamped}
use rystemd.Manager.Engine.Sound.Run.{SpawnFollows}
use rystemd.Manager.Engine.Reach.{IsSound}
use rystemd.Manager.Action.{pure}
use rystemd.Manager.State.{new_unit}

abbrev pub day : DateTime
day = record { year = 2025; month = 1; day = 1; hour = 0; minute = 0; second = 0; nanosecond = 0 }

-- A system on which time stands still, nothing exists and every unit is loaded already.
abbrev pub quiet : Outside
quiet = record {
  now = λ n. 10 ^ 11;
  system_now = λ n. 7;
  local_now = λ n. day;
  local_timestamp = λ n. 0;
  epoch = λ t. 0;
  chrono = record {
    NaiveDate = ℕ;
    from_ymd_opt = λ y m d. none;
    num_days_from_monday = λ d. 0;
    and_hms_opt = λ d h m s. none;
  };
  spec_text = λ spec. [];
  load_unit = λ n name. ok none;
  discover_names = λ n. [];
  devices = λ n. [];
  file_tests = λ n. record {
    exists = λ p. false;
    is_nonempty_file = λ p. false;
    is_nonempty_directory = λ p. false;
    is_read_write = λ p. false;
    is_symlink = λ p. false;
  };
  condition_context = λ n. record {
    user_manager = false;
    username = [];
    uid = [];
    groupname = [];
    gid = [];
    hostname = [];
  };
  cgroup_is_empty = λ n dir. true;
  bind = λ n kind spec. err [];
  mount = λ n what target fs_type options. ok tt;
  unmount = λ n target. ok tt;
  socket_activation = true;
  resolve_user = λ n name. true;
  resolve_group = λ n name. true;
  apply_directories = λ n sc. ok tt;
  create_cgroup = λ n name. none;
  spawn = λ n name cmd exec. ok n;
  read_pidfile = λ n path. none;
  describe_exit = λ code signal. [];
}

abbrev pub no_spawn : Spawn
no_spawn rec name cmd i = pure tt

abbrev pub no_config : UnitConfig
no_config = record {
  description = [];
  after = [];
  before = [];
  requires = [];
  requisite = [];
  wants = [];
  conflicts = [];
  on_failure = [];
  part_of = [];
  binds_to = [];
  default_dependencies = true;
  documentation = [];
  conditions = [];
}

abbrev pub target_with : Text → UnitConfig → ManagedUnit
target_with name config = record (new_unit 0 name target) {
  file = some (record {
    path = none;
    unit = config;
    service = none;
    timer = none;
    path_unit = none;
    socket = none;
    mount = none;
    install = record { wanted_by = []; required_by = []; also = []; alias = [] };
  });
}

abbrev pub a : Text
a = codes "a.target"

abbrev pub b : Text
b = codes "b.target"

abbrev pub no_jobs : JobTable
no_jobs = record { jobs = []; completed_jobs = []; unit_job = []; next_job = 0 }

abbrev pub manager_of : Map Text ManagedUnit → Manager
manager_of units = record {
  units = units;
  table = no_jobs;
  wheel = default;
  pid_unit = [];
  socket_listeners = [];
  socket_triggers = [];
  pending_bus_names = [];
  shutting_down = false;
  boot_instant = 0;
  asked = 0;
  next_invocation = 0;
}

-- The first requires the second and is ordered after it.
abbrev pub chain : Manager
chain = manager_of (
    (a, target_with a (record no_config { requires = b ∷ []; after = b ∷ [] }))
    ∷ (b, target_with b no_config)
    ∷ [])

abbrev pub AllStamped : Map Text ManagedUnit → Type 0
AllStamped [] = Unit
AllStamped ((n, u) ∷ units) = IsStamped u × AllStamped units

pub get-AllStamped :
    (units : Map Text ManagedUnit) (n : Text) (u : ManagedUnit)
    → AllStamped units
    → get n units ≡ some u
    → IsStamped u
unfolding get
get-AllStamped [] n u v h = cc
get-AllStamped ((k, w) ∷ units) n u v h = elim (Bool-cases (text_eq k n)) [
  | inl e ↦ subst IsStamped (ground arith) v.0
  | inr e ↦ get-AllStamped units n u v.1 (ground arith)
]

pub no_jobs-IsConsistent : IsConsistent no_jobs
unfolding get
no_jobs-IsConsistent = record {
  pointed = λ n i h. cc;
  counted = λ i j h. cc;
  recorded = λ i r h. cc;
  apart = λ i r h. cc;
}

pub target_with-IsStamped :
    (name : Text) (config : UnitConfig) → IsStamped (target_with name config)
unfolding new_unit
target_with-IsStamped name config =
    stamps-IsStamped (new_unit 0 name target) (target_with name config) refl
      (new_unit-IsStamped 0 name target)

pub chain-IsSound : IsSound chain
chain-IsSound = record {
  table = no_jobs-IsConsistent;
  stamped = λ n u h.
      get-AllStamped chain.units n u
        (target_with-IsStamped a _, (target_with-IsStamped b no_config, tt)) h;
}

pub quiet-LoadsStamped : LoadsStamped quiet
quiet-LoadsStamped = record { loaded = λ n name u e. absurd (ground arith) }

pub no_spawn-SpawnFollows : SpawnFollows no_spawn
no_spawn-SpawnFollows = record { spawning = λ s rec k name cmd i. Keeps-pure tt }
