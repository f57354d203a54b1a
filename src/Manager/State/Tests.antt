-- ===== src/Manager/State/Tests.antt =====
-- A new unit that is started, on which state.rs is run.
use rystemd.Prelude.{◌+◌, ◌%◌, ◌^◌, ◌≡◌, ◌≢◌, some, codes}
use rystemd.Unit.Config.{service}
use rystemd.Manager.State.{ManagedUnit, activating, start_pre, success, new_unit, set_active}
use rystemd.Manager.State.Active.{IsStamped, new_unit-IsStamped, set_active_lem}

abbrev web : ManagedUnit
web = new_unit 7 (codes "web.service") service

set_active_lem_example :
    let (u', seq') = set_active 9 4 activating start_pre success web in
    IsStamped u'
    × (u'.active ≡ activating)
    × (u'.sub ≡ start_pre)
    × (success ≡ success → u'.result ≡ web.result)
    × (success ≢ success → u'.result ≡ success)
    × (activating ≡ activating → (u'.invocation_id ≡ some 4) × (seq' ≡ (4 + 1) % 2 ^ 64))
set_active_lem_example =
    set_active_lem 9 4 activating start_pre success web
      (new_unit-IsStamped 7 (codes "web.service") service)
