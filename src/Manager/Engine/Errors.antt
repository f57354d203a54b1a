-- ===== src/Manager/Engine/Errors.antt =====
-- rystemd/src/manager/mod.rs: the requests that are answered with an error.
pub mod Rules
use rystemd.Prelude.{Bool, true, false, Option, text_key, nat_key, if◌then◌else◌}
use rystemd.Manager.Action.{Outcome, panicked, ids_used_up, out_of_fuel, on_option, on_result}
use rystemd.Manager.Action.Keeps.{Keeps, Keeps-pure, Keeps-gets, Keeps-bind, Keeps-on_option}
use rystemd.Manager.Engine.{Manager, unit_active, unit_operational, find_unit_job, find_job}
use rystemd.Manager.Engine.Requests.{current_job}
