-- ===== src/Manager/Engine/Reload.antt =====
-- rystemd/src/manager/mod.rs and ops.rs: what replaces or resets units: `load_all`, which a daemon-reload
-- calls, `reset_failed_units`, and the arrival and removal of devices. The table of the devices themselves
-- is a parameter.
use rystemd.Prelude.{
  ℕ, Bool, true, false, Option, none, some, List, [], ◌∷◌, ◌++◌, if◌then◌else◌, Text, codes,
  text_key, Map, get, insert, remove, Result, ok, err,
}
use rystemd.Unit.Config.{UnitFile, UnitKind, from_unit_name}
use rystemd.Manager.State.{
  ManagedUnit, ActiveState, SubState, success, LoadState, new_unit, set_active,
}
use rystemd.Manager.Timer.{default}
use rystemd.Manager.Action.{
  pure, gets, modify, for_each, fold_each, on_option, on_result, ◌>>=◌, ◌>>◌,
}
use rystemd.Manager.Engine.{Outside, M, ask, has_unit, update_unit}
use rystemd.Manager.Engine.Timers.{change_wheel, rearm_timer}
use rystemd.Manager.Engine.Expand.{not_found}

-- The new unit with the runtime state of the old one, where that is not inactive.
abbrev keep_runtime : Option ManagedUnit → ManagedUnit → ManagedUnit
keep_runtime none u = u
keep_runtime (some old) u =
    let kept : ManagedUnit = record u {
      main_pid = old.main_pid;
      group_pid = old.group_pid;
      cgroup = old.cgroup;
      control_pid = old.control_pid;
      control_command = old.control_command;
      active = old.active;
      sub = old.sub;
      log = old.log;
    } in
    elim old.active [ ActiveState.inactive ↦ u | _ ↦ kept ]

abbrev unit_kind_of : Text → UnitKind
unit_kind_of name = elim (from_unit_name name) [ none ↦ UnitKind.service | some k ↦ k ]

-- A unit that could not be loaded.
abbrev broken : ℕ → Text → Text → ManagedUnit
broken now name e = record (new_unit now name (unit_kind_of name)) {
  load = LoadState.error;
  load_error = some e;
}

-- The names of the timer units.
abbrev timer_names : Map Text ManagedUnit → List Text
timer_names [] = []
timer_names ((n, u) ∷ units) =
    let rest = timer_names units in elim u.kind [ UnitKind.timer ↦ n ∷ rest | _ ↦ rest ]

unfoldable pub put_unit : Text → ManagedUnit → ℕ → M Unit
unfolding modify
put_unit name u i = modify (λ m. record m { units = insert name u m.units; next_invocation = i })

unfoldable pub replace_units : Map Text ManagedUnit → M Unit
unfolding modify
replace_units units = modify (λ m. record m { units = units })

unfoldable pub remove_unit : Text → M Unit
unfolding modify
remove_unit name = modify (λ m. record m { units = remove name m.units })

module _ (outside : Outside) where
  unfoldable pub rearm_all_timers : M Unit
  unfolding change_wheel gets for_each rearm_timer ◌>>=◌
  rearm_all_timers = do
    change_wheel (λ w. default)
    names ← gets (λ m. timer_names m.units)
    for_each (rearm_timer outside) names

  -- The body of the loop of `load_all`: the new table and the errors.
  unfoldable pub load_into :
      Map Text ManagedUnit
      → Map Text ManagedUnit × List Text
      → Text
      → M (Map Text ManagedUnit × List Text)
  unfolding ask on_result on_option pure ◌>>=◌
  load_into old (next, errors) name = do
    answer ← ask (λ n. outside.load_unit n name)
    on_result answer
        (λ e. do
          now ← ask outside.system_now
          pure (insert name (broken now name e) next, errors ++ (name ++ codes ": " ++ e) ∷ []))
        λ found.
          on_option found (pure (next, errors))
            λ u. pure (insert name (keep_runtime (get name old) u) next, errors)

  -- One name of `udev_register`.
  unfoldable pub register : Text × UnitFile → M Unit
  unfolding has_unit ask gets put_unit pure ◌>>=◌
  register (name, file) = do
    known ← has_unit name
    if known then pure tt else do
      now ← ask outside.system_now
      entered_at ← ask outside.system_now
      seq ← gets (λ m. m.next_invocation)
      let u : ManagedUnit = record (new_unit now name UnitKind.device) {
        load = LoadState.loaded;
        file = some file;
      }
      let r = set_active entered_at seq ActiveState.active SubState.dead success u
      put_unit name r.0 r.1

  unfoldable pub load_all : M (List Text)
  unfolding gets ask fold_each load_into replace_units for_each register rearm_all_timers pure ◌>>=◌
  load_all = do
    old ← gets (λ m. m.units)
    names ← ask outside.discover_names
    loaded ← fold_each (load_into old) ([], []) names
    replace_units loaded.0
    devices ← ask outside.devices
    for_each register devices
    rearm_all_timers
    pure loaded.1

abbrev is_failed : ActiveState → Bool
is_failed ActiveState.failed = true
is_failed _ = false

abbrev pub reset : ManagedUnit → ManagedUnit
reset u =
    if is_failed u.active
    then record u { active = ActiveState.inactive; sub = SubState.dead; result = success }
    else u

-- The loop stops at the first name without a unit.
unfoldable pub reset_failed_units : List Text → M (Result {0, 0} Unit Text)
unfolding has_unit update_unit pure ◌>>=◌
reset_failed_units [] = pure (ok tt)
reset_failed_units (n ∷ names) =
    let rest = reset_failed_units names in
    do known ← has_unit n; if known then update_unit n reset >> rest else pure (err (not_found n))
