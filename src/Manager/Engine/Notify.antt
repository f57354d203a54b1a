-- ===== src/Manager/Engine/Notify.antt =====
-- rystemd/src/manager/mod.rs: what READY=1 and the owner of a D-Bus name do to the unit that waits for
-- them. The text of a notification is read before: whether it has READY=1, and its MAINPID=.
use rystemd.Prelude.{
  ℕ, Bool, true, false, ◌&&◌, Option, none, some, List, [], ◌∷◌, if◌then◌else◌, Text, text_eq,
  text_key, nat_key, Map, get, remove,
}
use rystemd.Unit.Config.{ServiceConfig, notify}
use rystemd.Manager.State.{
  ManagedUnit, ActiveState, active, activating, SubState, success, service_cfg,
}
use rystemd.Manager.Action.{gets, change, if_some, when, ◌>>=◌, ◌>>◌}
use rystemd.Manager.Engine.{Manager, Outside, M, find_unit, enter}
use rystemd.Manager.Engine.Calls.{Call}
use rystemd.Manager.Engine.Fire.{is_activating}

abbrev is_notify : Option ServiceConfig → Bool
is_notify none = false
is_notify (some sc) = elim sc.service_type [ notify ↦ true | _ ↦ false ]

abbrev is_up_or_starting : ActiveState → Bool
is_up_or_starting active = true
is_up_or_starting activating = true
is_up_or_starting _ = false

-- The services that may send notifications.
unfoldable pub candidates : Map Text ManagedUnit → List Text
unfolding service_cfg
candidates [] = []
candidates ((n, u) ∷ units) =
    if is_notify (service_cfg u) && is_up_or_starting u.active
    then n ∷ candidates units
    else candidates units

abbrev first : List Text → Option Text
first [] = none
first (n ∷ names) = some n

abbrev is_owner : Option Text → Text → Bool
is_owner none name = false
is_owner (some n) name = text_eq n name

-- `find(…).or_else(first)`
unfoldable pub owner_or_first : Option Text → List Text → List Text → Option Text
owner_or_first owner all [] = first all
owner_or_first owner all (n ∷ names) =
    if is_owner owner n then some n else owner_or_first owner all names

abbrev target_of : Option ℕ → Manager → Option Text
target_of none m = first (candidates m.units)
target_of (some pid) m =
    owner_or_first (get pid m.pid_unit) (candidates m.units) (candidates m.units)

-- `pending_bus_names.remove(&bus_name)`
unfoldable pub take_bus_name : Text → M (Option Text)
unfolding change
take_bus_name bus_name = change (λ m. (
  get bus_name m.pending_bus_names,
  record m { pending_bus_names = remove bus_name m.pending_bus_names },
))

module _ (outside : Outside) (rec : Call → M Unit) where
  unfoldable pub becomes_ready : Text → M Unit
  unfolding find_unit enter when ◌>>=◌
  becomes_ready name = do
    found ← find_unit name
    when (is_activating found) (do
      enter name outside.system_now ActiveState.active SubState.running success
      rec (Call.complete_start_job name))

  unfoldable pub notified : Bool → Option ℕ → M Unit
  unfolding gets if_some becomes_ready when ◌>>=◌
  notified ready main_pid = do
    target ← gets (target_of main_pid)
    if_some target λ unit. when ready (becomes_ready unit)

  -- The event NameAcquired; the other one does nothing.
  unfoldable pub name_acquired : Text → M Unit
  unfolding take_bus_name if_some becomes_ready ◌>>=◌
  name_acquired bus_name = do unit ← take_bus_name bus_name; if_some unit becomes_ready
