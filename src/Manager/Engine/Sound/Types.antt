-- ===== src/Manager/Engine/Sound/Types.antt =====
-- rystemd/src/manager/unit_type.rs: starting and stopping a unit of each type keeps what Follows says,
-- where the calls that they make do.
use rystemd.Prelude.{ℕ, refl, Option, none, some, List, Text}
use rystemd.Unit.Config.{UnitKind}
use rystemd.Manager.State.{ControlCommand, SubState}
use rystemd.Manager.Action.Keeps.{Keeps, Keeps-modify}
use rystemd.Manager.Engine.{Manager, Outside, ListenKind, M}
use rystemd.Manager.Engine.Calls.{Call}
use rystemd.Manager.Engine.Types.{
  start_at_once, unit_has_processes, start_service, stop_service, bound_socket, closed_socket,
  listen_at, listen, listen_all, fail_resources, become_active, start_socket, stop_socket,
  start_mount, stop_mount, type_start, type_stop,
}
use rystemd.Manager.Engine.Follows.{Follows, rest-Follows, follows_rules}
use rystemd.Manager.Engine.Sound.Timers.{arm_stop_timeout-Follows}

module _ (s : Manager) (outside : Outside) (spawn_control : Text → ControlCommand → ℕ → M Unit)
    (rec : Call → M Unit) (rec_keeps : (c : Call) → Keeps (Follows s) (rec c))
    (spawn_keeps : (name : Text) (cmd : ControlCommand) (i : ℕ)
      → Keeps (Follows s) (spawn_control name cmd i)) where
  start_at_once-Follows :
      (name : Text) → Keeps (Follows s) (start_at_once outside spawn_control rec name)
  unfolding start_at_once
  start_at_once-Follows name = search (follows_rules, rec_keeps) depth 20

  unit_has_processes-Follows :
      (name : Text) → Keeps (Follows s) (unit_has_processes outside spawn_control rec name)
  unfolding unit_has_processes
  unit_has_processes-Follows name = search follows_rules depth 20

  start_service-Follows :
      (name : Text) → Keeps (Follows s) (start_service outside spawn_control rec name)
  unfolding start_service
  start_service-Follows name = search (follows_rules, spawn_keeps) depth 20

  stop_service-Follows :
      (name : Text) → Keeps (Follows s) (stop_service outside spawn_control rec name)
  unfolding stop_service
  stop_service-Follows name =
      search
        (
          follows_rules, rec_keeps, spawn_keeps, unit_has_processes-Follows,
          arm_stop_timeout-Follows,
        )
        depth 20

  bound_socket-Follows :
      (fd : ℕ) (name service : Text) → Keeps (Follows s) (bound_socket fd name service)
  unfolding bound_socket
  bound_socket-Follows fd name service = Keeps-modify _ λ m v. rest-Follows s m _ v refl refl refl

  closed_socket-Follows : (fd : ℕ) → Keeps (Follows s) (closed_socket fd)
  unfolding closed_socket
  closed_socket-Follows fd = Keeps-modify _ λ m v. rest-Follows s m _ v refl refl refl

  listen_at-Follows :
      (name service : Text) (kind : ListenKind) (spec : Text)
      → Keeps (Follows s) (listen_at outside spawn_control rec name service kind spec)
  unfolding listen_at
  listen_at-Follows name service kind spec = search (follows_rules, bound_socket-Follows) depth 20

  listen-Follows :
      (name service : Text) (kind : ListenKind) (specs : List Text)
      → Keeps (Follows s) (listen outside spawn_control rec name service kind specs)
  unfolding listen
  listen-Follows name service kind specs = search (follows_rules, listen_at-Follows)

  listen_all-Follows :
      (name service : Text) (all : List (ListenKind × List Text))
      → Keeps (Follows s) (listen_all outside spawn_control rec name service all)
  unfolding listen_all
  listen_all-Follows name service all = search (follows_rules, listen-Follows)

  fail_resources-Follows :
      (name msg : Text) → Keeps (Follows s) (fail_resources outside spawn_control rec name msg)
  unfolding fail_resources
  fail_resources-Follows name msg = search (follows_rules, rec_keeps) depth 20

  become_active-Follows :
      (name : Text) (sub : SubState)
      → Keeps (Follows s) (become_active outside spawn_control rec name sub)
  unfolding become_active
  become_active-Follows name sub = search (follows_rules, rec_keeps) depth 20

  start_socket-Follows :
      (name : Text) → Keeps (Follows s) (start_socket outside spawn_control rec name)
  unfolding start_socket
  start_socket-Follows name =
      search (follows_rules, listen_all-Follows, become_active-Follows, fail_resources-Follows)
        depth 20

  stop_socket-Follows :
      (name : Text) → Keeps (Follows s) (stop_socket outside spawn_control rec name)
  unfolding stop_socket
  stop_socket-Follows name = search (follows_rules, rec_keeps, closed_socket-Follows) depth 20

  start_mount-Follows :
      (name : Text) → Keeps (Follows s) (start_mount outside spawn_control rec name)
  unfolding start_mount
  start_mount-Follows name =
      search (follows_rules, rec_keeps, become_active-Follows, fail_resources-Follows) depth 20

  stop_mount-Follows : (name : Text) → Keeps (Follows s) (stop_mount outside spawn_control rec name)
  unfolding stop_mount
  stop_mount-Follows name = search (follows_rules, rec_keeps, fail_resources-Follows) depth 20

  pub type_start-Follows :
      (kind : Option UnitKind) (name : Text)
      → Keeps (Follows s) (type_start outside spawn_control rec kind name)
  unfolding type_start
  type_start-Follows none name = start_service-Follows name
  type_start-Follows (some UnitKind.service) name = start_service-Follows name
  type_start-Follows (some UnitKind.timer) name = start_at_once-Follows name
  type_start-Follows (some UnitKind.target) name = start_at_once-Follows name
  type_start-Follows (some UnitKind.path) name = start_at_once-Follows name
  type_start-Follows (some UnitKind.socket) name = start_socket-Follows name
  type_start-Follows (some UnitKind.device) name = start_at_once-Follows name
  type_start-Follows (some UnitKind.mount) name = start_mount-Follows name

  pub type_stop-Follows :
      (kind : Option UnitKind) (name : Text)
      → Keeps (Follows s) (type_stop outside spawn_control rec kind name)
  unfolding type_stop
  type_stop-Follows none name = stop_service-Follows name
  type_stop-Follows (some UnitKind.service) name = stop_service-Follows name
  type_stop-Follows (some UnitKind.timer) name = rec_keeps (Call.finalize_stop name)
  type_stop-Follows (some UnitKind.target) name = rec_keeps (Call.finalize_stop name)
  type_stop-Follows (some UnitKind.path) name = rec_keeps (Call.finalize_stop name)
  type_stop-Follows (some UnitKind.socket) name = stop_socket-Follows name
  type_stop-Follows (some UnitKind.device) name = rec_keeps (Call.finalize_stop name)
  type_stop-Follows (some UnitKind.mount) name = stop_mount-Follows name
