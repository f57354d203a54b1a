-- ===== src/Manager/Engine/Types.antt =====
-- rystemd/src/manager/unit_type.rs, with start_socket, stop_socket, start_mount and stop_mount of
-- manager/mod.rs: how each type of unit starts and stops. Spawning a service's commands is an argument
-- (`spawn_control`). Signals, log messages and the directories of `MakeDirectory=` leave the
-- manager's state as it is, and are left out.
use rystemd.Prelude.{
  ℕ, Bool, true, false, not, ◌||◌, Option, none, some, List, [], ◌∷◌, ◌++◌, if◌then◌else◌, retain,
  Text, codes, text_eq, nat_key, text_key, Map, insert, remove, ◌==◌,
}
use rystemd.Unit.Config.{UnitKind, MountConfig, is_some}
use rystemd.Manager.State.{
  ActiveState, activating, SubState, UnitResult, success, ControlCommand, ManagedUnit, service_cfg,
  socket_cfg, activated_service,
}
use rystemd.Manager.Action.{
  pure, gets, modify, for_each, if_some, on_option, on_result, until_some, ◌>>=◌, ◌>>◌,
}
use rystemd.Manager.Engine.{
  Outside, ListenKind, stream, datagram, netlink, sequential_packet, M, ask, find_unit, the_unit,
  update_unit, enter,
}
use rystemd.Manager.Engine.Timers.{arm_stop_timeout}
use rystemd.Manager.Engine.Calls.{Call}

abbrev pub is_empty : {A : Type 0} → List A → Bool
is_empty [] = true
is_empty (_ ∷ _) = false

-- A listener and its trigger are put in, and are taken out.
unfoldable pub bound_socket : ℕ → Text → Text → M Unit
unfolding modify
bound_socket fd name service = modify (λ m. record m {
  socket_listeners = fd ∷ retain (λ i. not (i == fd)) m.socket_listeners;
  socket_triggers = insert fd (name, service) m.socket_triggers;
})

unfoldable pub closed_socket : ℕ → M Unit
unfolding modify
closed_socket fd = modify (λ m. record m {
  socket_listeners = retain (λ i. not (i == fd)) m.socket_listeners;
  socket_triggers = remove fd m.socket_triggers;
})

module _ (outside : Outside) (spawn_control : Text → ControlCommand → ℕ → M Unit)
    (rec : Call → M Unit) where
  -- `mgr.units.get_mut(name)` with a return where it is missing, then a unit active at once.
  unfoldable pub start_at_once : Text → M Unit
  unfolding find_unit if_some enter ◌>>=◌
  start_at_once name = do
    found ← find_unit name
    if_some found λ _. do
      enter name outside.system_now ActiveState.active SubState.dead success
      rec (Call.complete_start_job name)

  unfoldable pub unit_has_processes : Text → M Bool
  unfolding the_unit pure ask ◌>>=◌
  unit_has_processes name = do
    u ← the_unit name
    if is_some u.main_pid || is_some u.group_pid
        then pure true
        else on_option u.cgroup (pure false)
            λ dir. do empty ← ask (λ n. outside.cgroup_is_empty n dir); pure (not empty)

  -- `ServiceUnit::start`.
  unfoldable pub start_service : Text → M Unit
  unfolding find_unit if_some update_unit enter the_unit service_cfg ◌>>=◌
  start_service name = do
    found ← find_unit name
    if_some found λ _. do
      update_unit name (λ u. record u {
        main_pid = none;
        group_pid = none;
        control_pid = none;
        control_command = none;
        cmd_index = 0;
        forked_main_pid = none;
        result = success;
      })
      enter name outside.system_now activating SubState.start_pre success
      u ← the_unit name
      let has_pre = elim (service_cfg u) as (λ _. Bool) [
        | none ↦ false
        | some s ↦ not (is_empty s.exec_start_pre)
      ]
      spawn_control name (if has_pre then ControlCommand.start_pre else ControlCommand.start) 0

  -- `ServiceUnit::stop`.
  unfoldable pub stop_service : Text → M Unit
  unfolding unit_has_processes the_unit update_unit arm_stop_timeout service_cfg ◌>>=◌
  stop_service name = do
    has_main ← unit_has_processes name
    u ← the_unit name
    let no_exec_stop = elim (service_cfg u) as (λ _. Bool) [
      | none ↦ true
      | some s ↦ is_empty s.exec_stop
    ]
    if has_main
        then (update_unit name (λ v. record v { sub = SubState.stop_sigterm })
            >> arm_stop_timeout outside name)
        else if no_exec_stop
        then rec (Call.finalize_stop name)
        else (update_unit name (λ v. record v { sub = SubState.stop })
            >> spawn_control name ControlCommand.stop 0)

  abbrev bind_failure : Text → Text → Text
  bind_failure spec e = codes "Failed to bind socket " ++ spec ++ codes ": " ++ e

  -- The text of the failure to bind an address, where it fails.
  unfoldable pub listen_at : Text → Text → ListenKind → Text → M (Option Text)
  unfolding pure ask on_result bound_socket ◌>>=◌
  listen_at name service kind spec = do
    bound ← ask (λ n. outside.bind n kind spec)
    on_result bound (λ e. pure (some (bind_failure spec e)))
        λ fd. do bound_socket fd name service; pure none

  -- The loop over the addresses of one directive, which a failure ends.
  unfoldable pub listen : Text → Text → ListenKind → List Text → M (Option Text)
  unfolding until_some listen_at
  listen name service kind specs = until_some (listen_at name service kind) specs

  -- The four loops.
  unfoldable pub listen_all : Text → Text → List (ListenKind × List Text) → M (Option Text)
  unfolding until_some listen
  listen_all name service all = until_some (λ (kind, specs). listen name service kind specs) all

  unfoldable pub fail_resources : Text → Text → M Unit
  unfolding update_unit ◌>>=◌
  fail_resources name msg = do
    update_unit name (λ u. record u { result = UnitResult.resources })
    rec (Call.fail_unit name msg)

  -- `set_active` and `complete_start_job`.
  unfoldable pub become_active : Text → SubState → M Unit
  unfolding enter ◌>>=◌
  become_active name sub = do
    enter name outside.system_now ActiveState.active sub success
    rec (Call.complete_start_job name)

  unfoldable pub start_socket : Text → M Unit
  unfolding the_unit socket_cfg activated_service on_option become_active listen_all fail_resources
      ◌>>=◌
  start_socket name = do
    u ← the_unit name
    on_option (socket_cfg u) (become_active name SubState.dead) λ scfg.
        if not outside.socket_activation then become_active name SubState.dead else do
          refused ← listen_all name (activated_service u) (
              (stream, scfg.listen_stream)
              ∷ (datagram, scfg.listen_datagram)
              ∷ (netlink, scfg.listen_netlink)
              ∷ (sequential_packet, scfg.listen_sequential_packet)
              ∷ [])
          on_option refused (become_active name SubState.running) λ e. fail_resources name e

  -- The ids whose trigger is of the unit.
  abbrev triggers_of : Text → Map ℕ (Text × Text) → List ℕ
  triggers_of name [] = []
  triggers_of name ((fd, (unit, service)) ∷ m) =
      if text_eq unit name then fd ∷ triggers_of name m else triggers_of name m

  unfoldable pub stop_socket : Text → M Unit
  unfolding gets for_each closed_socket ◌>>=◌
  stop_socket name = do
    fds ← gets (λ m. triggers_of name m.socket_triggers)
    for_each closed_socket fds
    rec (Call.finalize_stop name)

  abbrev mount_cfg : ManagedUnit → Option MountConfig
  mount_cfg u = elim u.file [ none ↦ none | some f ↦ f.mount ]

  abbrev not_empty : Option Text → Option Text
  not_empty none = none
  not_empty (some t) = if is_empty t then none else some t

  unfoldable pub start_mount : Text → M Unit
  unfolding the_unit on_option ask on_result become_active fail_resources ◌>>=◌
  start_mount name = do
    u ← the_unit name
    on_option (mount_cfg u) (rec (Call.fail_unit name (codes "missing [Mount] section"))) λ cfg.
        on_option (not_empty cfg.mount_point)
          (rec (Call.fail_unit name (codes "no Where= mount point")))
          λ target.
            on_option (not_empty cfg.fs_type)
              (rec (Call.fail_unit name (codes "no Type= filesystem type")))
              λ fs_type. do
                mounted ← ask (λ n. outside.mount n cfg.what target fs_type cfg.options)
                on_result mounted
                    (λ e. fail_resources name (codes "mount " ++ target ++ codes " failed: " ++ e))
                    λ _. become_active name SubState.mounted

  unfoldable pub stop_mount : Text → M Unit
  unfolding the_unit on_option ask on_result fail_resources ◌>>=◌
  stop_mount name = do
    u ← the_unit name
    on_option
        (elim (mount_cfg u) as (λ _. Option Text) [
          | none ↦ none
          | some cfg ↦ not_empty cfg.mount_point
        ])
        (rec (Call.finalize_stop name))
        λ target. do
          unmounted ← ask (λ n. outside.unmount n target)
          on_result unmounted
              (λ e. fail_resources name (codes "unmount " ++ target ++ codes " failed: " ++ e))
              λ _. rec (Call.finalize_stop name)

  -- `unit_type` with `start`; a name without a unit is a service's.
  unfoldable pub type_start : Option UnitKind → Text → M Unit
  unfolding start_at_once start_socket start_mount start_service
  type_start (some UnitKind.timer) name = start_at_once name
  type_start (some UnitKind.target) name = start_at_once name
  type_start (some UnitKind.path) name = start_at_once name
  type_start (some UnitKind.socket) name = start_socket name
  type_start (some UnitKind.device) name = start_at_once name
  type_start (some UnitKind.mount) name = start_mount name
  type_start _ name = start_service name

  -- `unit_type` with `stop`.
  unfoldable pub type_stop : Option UnitKind → Text → M Unit
  unfolding stop_socket stop_mount stop_service
  type_stop (some UnitKind.timer) name = rec (Call.finalize_stop name)
  type_stop (some UnitKind.target) name = rec (Call.finalize_stop name)
  type_stop (some UnitKind.path) name = rec (Call.finalize_stop name)
  type_stop (some UnitKind.socket) name = stop_socket name
  type_stop (some UnitKind.device) name = rec (Call.finalize_stop name)
  type_stop (some UnitKind.mount) name = stop_mount name
  type_stop _ name = stop_service name
