-- ===== src/Manager/Deps/Tests.antt =====
-- Three units that require each other in a ring, on which deps.rs is run.
use rystemd.Prelude.{
  ◌≡◌, ◌≢◌, ◌↔◌, refl, none, some, [], ◌∷◌, true, Has, List, Text, Map, text_key, get, text_eq,
  codes,
}
use rystemd.Unit.Config.{service}
use rystemd.Manager.State.{ManagedUnit, new_unit}
use rystemd.Manager.Deps.{requires, closure, closure_loop, closure_fuel, stop_propagate, visit_deps}
use rystemd.Manager.Deps.Closure.{Reach, closure_lem}
use rystemd.Manager.Deps.Propagate.{Holds, DependsOn, stop_propagate_iff}

-- A unit that requires another.
abbrev requiring : Text → Text → ManagedUnit
requiring name dep = record (new_unit 0 name service) {
  file = some (record {
    path = none;
    unit = record {
      description = [];
      after = [];
      before = [];
      requires = dep ∷ [];
      requisite = [];
      wants = [];
      conflicts = [];
      on_failure = [];
      part_of = [];
      binds_to = [];
      default_dependencies = true;
      documentation = [];
      conditions = [];
    };
    service = none;
    timer = none;
    path_unit = none;
    socket = none;
    mount = none;
    install = record { wanted_by = []; required_by = []; also = []; alias = [] };
  });
}

abbrev a : Text
a = codes "a.service"

abbrev b : Text
b = codes "b.service"

abbrev ring : Map Text ManagedUnit
ring = (a, requiring a b) ∷ (b, requiring b a) ∷ []

closure-ring : closure ring requires a ≡ b ∷ a ∷ []
unfolding closure visit_deps get requires new_unit text_eq
closure-ring = refl

stop_propagate-ring : stop_propagate ring a ≡ b ∷ []
unfolding stop_propagate requires new_unit text_eq
stop_propagate-ring = refl

closure_lem_example :
    ((out : List Text) × (closure_loop ring requires
          (closure_fuel ring requires)
          (record { seen = []; queue = a ∷ []; out = [] })
        ≡ some out))
    × (Has b (closure ring requires a) ↔ Reach ring requires a b)
closure_lem_example = closure_lem ring requires a b

stop_propagate_iff_example :
    Has b (stop_propagate ring a) ↔ ((u : ManagedUnit) × Holds ring b u × (b ≢ a) × DependsOn u a)
stop_propagate_iff_example = stop_propagate_iff ring a b
