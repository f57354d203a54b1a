-- ===== src/Manager/Engine/Sound/Notify.antt =====
-- rystemd/src/manager/mod.rs: READY=1 and the owner of a D-Bus name keep what Follows says, where the calls
-- that they make do.
use rystemd.Prelude.{ℕ, refl, Bool, Option, Text}
use rystemd.Manager.Action.Keeps.{Keeps, Keeps-change}
use rystemd.Manager.Engine.{Manager, Outside, M}
use rystemd.Manager.Engine.Calls.{Call}
use rystemd.Manager.Engine.Notify.{take_bus_name, becomes_ready, notified, name_acquired}
use rystemd.Manager.Engine.Follows.{Follows, rest-Follows, follows_rules}

module _ (s : Manager) (outside : Outside) (rec : Call → M Unit)
    (rec_keeps : (c : Call) → Keeps (Follows s) (rec c)) where
  becomes_ready-Follows : (name : Text) → Keeps (Follows s) (becomes_ready outside rec name)
  unfolding becomes_ready
  becomes_ready-Follows name = search (follows_rules, rec_keeps) depth 20

  pub notified-Follows :
      (ready : Bool) (main_pid : Option ℕ) → Keeps (Follows s) (notified outside rec ready main_pid)
  unfolding notified
  notified-Follows ready main_pid = search (follows_rules, becomes_ready-Follows) depth 20

  take_bus_name-Follows : (bus_name : Text) → Keeps (Follows s) (take_bus_name bus_name)
  unfolding take_bus_name
  take_bus_name-Follows bus_name = Keeps-change _ λ m v. rest-Follows s m _ v refl refl refl

  pub name_acquired-Follows :
      (bus_name : Text) → Keeps (Follows s) (name_acquired outside rec bus_name)
  unfolding name_acquired
  name_acquired-Follows bus_name =
      search (follows_rules, becomes_ready-Follows, take_bus_name-Follows) depth 20
