-- ===== src/Manager/Deps.antt =====
-- rystemd/src/manager/deps.rs: the dependency graph over the unit table. The table is a map from names
-- to units; what the source computes by iterating over it comes in the order of the map.
pub mod Walk
pub mod Closure
pub mod Propagate
pub mod Tests
use rystemd.Prelude.{
  ℕ, zero, suc, Bool, true, false, Option, none, some, List, [], ◌∷◌, ◌++◌, if◌then◌else◌, any,
  length, Text, text_eq, text_key, Map, get, values,
}
use rystemd.Unit.Config.{UnitFile}
use rystemd.Manager.State.{ManagedUnit}

-- A list of the `[Unit]` section, empty without a file.
abbrev pub of_file : (UnitFile → List Text) → Option UnitFile → List Text
of_file f none = []
of_file f (some file) = f file

unfoldable pub requires : ManagedUnit → List Text
requires u = of_file (λ f. f.unit.requires ++ f.unit.binds_to) u.file

unfoldable pub wants : ManagedUnit → List Text
wants u = of_file (λ f. f.unit.wants) u.file

unfoldable pub requisite : ManagedUnit → List Text
requisite u = of_file (λ f. f.unit.requisite) u.file

unfoldable pub conflicts : ManagedUnit → List Text
conflicts u = of_file (λ f. f.unit.conflicts) u.file

unfoldable pub after : ManagedUnit → List Text
after u = of_file (λ f. f.unit.after) u.file

unfoldable pub on_failure : ManagedUnit → List Text
on_failure u = of_file (λ f. f.unit.on_failure) u.file

abbrev pub contains : Text → List Text → Bool
contains d ds = any (λ x. text_eq x d) ds

-- The variables of `closure`. The queue's head is the end of the vector, where it pops and pushes.
pub record Search : Type 0 where
  pub seen : List Text
  pub queue : List Text
  pub out : List Text

-- The body of the loop over the edges of `n`.
unfoldable pub visit_dep : Text → Text → Search → Search
visit_dep n d s =
    if text_eq d n
    then s
    else if contains d s.seen
    then s
    else record { seen = d ∷ s.seen; queue = d ∷ s.queue; out = s.out ++ d ∷ [] }

unfoldable pub visit_deps : Text → List Text → Search → Search
unfolding visit_dep
visit_deps n [] s = s
visit_deps n (d ∷ ds) s = visit_deps n ds (visit_dep n d s)

-- The edges of a unit, none for a name without a unit.
abbrev pub edges_of : (ManagedUnit → List Text) → Option ManagedUnit → List Text
edges_of edge none = []
edges_of edge (some u) = edge u

abbrev pub targets : (ManagedUnit → List Text) → List ManagedUnit → List Text
targets edge [] = []
targets edge (u ∷ us) = edge u ++ targets edge us

module _ (units : Map Text ManagedUnit) (edge : ManagedUnit → List Text) where
  -- The `while let` loop; nothing where the fuel runs out.
  unfoldable pub closure_loop : ℕ → Search → Option (List Text)
  unfolding visit_deps
  closure_loop zero s = none
  closure_loop (suc fuel) s = elim s.queue [
    | [] ↦ some s.out
    | n ∷ rest ↦
        closure_loop fuel (visit_deps n (edges_of edge (get n units)) (record s { queue = rest }))
  ]

  -- Each round pops a name, and each name of the table's edges is pushed at most once.
  abbrev pub closure_fuel : ℕ
  closure_fuel = suc (suc (length (targets edge (values units))))

  abbrev unwrapped : Option (List Text) → List Text
  unwrapped none = []
  unwrapped (some out) = out

  unfoldable pub closure : Text → List Text
  unfolding closure_loop
  closure start =
      unwrapped (closure_loop closure_fuel (record { seen = []; queue = start ∷ []; out = [] }))

unfoldable pub start_closure : Map Text ManagedUnit → Text → List Text × List Text × List Text
unfolding closure
start_closure units name =
    (closure units requires name, closure units wants name, closure units requisite name)

unfoldable pub closure_conflicts : Map Text ManagedUnit → Text → List Text
unfolding closure
closure_conflicts units name = closure units conflicts name

unfoldable pub stop_propagate : Map Text ManagedUnit → Text → List Text
unfolding requires
stop_propagate [] name = []
stop_propagate ((n, u) ∷ units) name =
    let out = stop_propagate units name in
    if text_eq n name then out else if contains name (requires u) then n ∷ out else out
