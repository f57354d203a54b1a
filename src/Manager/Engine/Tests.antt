-- ===== src/Manager/Engine/Tests.antt =====
-- The job engine of manager/mod.rs on the managers of Samples.
use rystemd.Prelude.{
  ◌+◌, ◌≤◌, ◌≡◌, refl, true, none, some, [], ◌∷◌, Text, codes, get, text_key, nat_key, text_eq, ok,
  arith, length, ◌↔◌,
}
use rystemd.Unit.Tests.{daemon}
use rystemd.Unit.Config.{service}
use rystemd.Manager.State.{ManagedUnit, ActiveState, SubState, service_cfg}
use rystemd.Manager.Engine.Endings.{Ends}
use rystemd.Manager.Engine.Endings.Main.{main_exit_lem}
use rystemd.Manager.Timer.Invariant.{default-Inv}
use rystemd.Manager.Action.{done}
use rystemd.Manager.Jobs.{replace}
use rystemd.Manager.Engine.Limit.{recent, Attempts, none_yet, attempt, check_start_limit_lem}
use rystemd.Manager.Engine.Targets.{Started}
use rystemd.Manager.Engine.Targets.Start.{StandsAlone, start_target_lem}
use rystemd.Manager.Engine.{Manager}
use rystemd.Manager.Engine.Reach.{IsSound}
use rystemd.Manager.Deps.{
  requires, wants, requisite, conflicts, after, visit_dep, visit_deps, closure_loop, closure,
  start_closure, closure_conflicts,
}
use rystemd.Manager.State.{new_unit}
use rystemd.Manager.Engine.Expand.{before_names}
use rystemd.Manager.Engine.Queue.{start_window_at}
use rystemd.Manager.Engine.Requests.{start_with_mode}
use rystemd.Manager.Engine.Run.{run}
use rystemd.Manager.Engine.Samples.{
  quiet, no_spawn, no_config, target_with, b, manager_of, get-AllStamped, no_jobs-IsConsistent,
  target_with-IsStamped,
}

one_attempt : Attempts 100 (100 ∷ []) (100 ∷ [])
unfolding start_window_at
one_attempt = attempt 0 100 [] [] none_yet (omega arith)

check_start_limit_lem_example :
    (100 ∷ [] ≡ recent 100 (100 ∷ []))
    × (length (recent 100 (100 ∷ [])) ≤ 5)
    × (((start_window_at 200 (100 ∷ [])).0 ≡ true) ↔ (length (recent 200 (100 ∷ [])) ≡ 5))
check_start_limit_lem_example =
    check_start_limit_lem 100 200 (100 ∷ []) (100 ∷ []) one_attempt (omega arith)

-- The second unit alone.
abbrev single : Manager
single = manager_of ((b, target_with b no_config) ∷ [])

single-IsSound : IsSound single
single-IsSound = record {
  table = no_jobs-IsConsistent;
  stamped = λ n u h. get-AllStamped single.units n u (target_with-IsStamped b no_config, tt) h;
}

single-StandsAlone : StandsAlone b (target_with b no_config) single.units
unfolding start_closure closure closure_loop visit_dep visit_deps closure_conflicts requires wants
    requisite conflicts after get text_eq before_names new_unit
single-StandsAlone = record {
  no_conditions = refl;
  no_dependencies = refl;
  no_conflicts = refl;
  no_after = refl;
  no_before = refl;
}

single_known : get b single.units ≡ some (target_with b no_config)
unfolding get text_eq
single_known = refl

start_target_lem_example :
    (m' : Manager) × (start_with_mode quiet (run quiet no_spawn 9) b replace single
      ≡ done (ok (some (0 + 1))) m')
    × Started (0 + 1) b m'
unfolding new_unit
start_target_lem_example =
    start_target_lem quiet no_spawn 9 b replace (target_with b no_config) single (omega arith)
      single-IsSound refl refl refl refl single_known refl refl refl single-StandsAlone

abbrev d : Text
d = codes "d.service"

-- A service that runs.
abbrev running : ManagedUnit
running = record (new_unit 0 d service) {
  active = ActiveState.active;
  sub = SubState.running;
  main_pid = some 42;
  file = some (record {
    path = none;
    unit = no_config;
    service = some daemon;
    timer = none;
    path_unit = none;
    socket = none;
    mount = none;
    install = record { wanted_by = []; required_by = []; also = []; alias = [] };
  });
}

abbrev serving : Manager
serving = manager_of ((d, running) ∷ [])

main_exit_lem_example : Ends quiet (run quiet no_spawn 9) d 1 none daemon running serving
unfolding get text_eq service_cfg new_unit
main_exit_lem_example =
    main_exit_lem quiet (run quiet no_spawn 9) d 1 none daemon running serving refl refl refl
      default-Inv (omega arith) (omega arith)
