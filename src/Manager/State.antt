-- ===== src/Manager/State.antt =====
-- rystemd/src/manager/state.rs: the active-state machine and the runtime state of a unit. Instants
-- and wall-clock times are numbers, a pid is its bit pattern, and an invocation id is the number of
-- which the source keeps the sixteen hexadecimal digits.
pub mod Active
pub mod Tests
use rystemd.Prelude.{
  ℕ, ◌+◌, ◌%◌, ◌^◌, Bool, true, false, Option, none, some, List, [], ◌∷◌, ◌++◌, Text, codes,
  rsplit_once,
}
use rystemd.Log.{LogRing, new_ring}
use rystemd.Unit.Config.{
  UnitKind, UnitFile, ServiceConfig, TimerConfig, PathConfig, SocketConfig, is_some,
}

pub data ActiveState : Type 0 where
  inactive activating active deactivating failed : ActiveState

pub data SubState : Type 0 where
  dead start_pre start post running mounted exited waiting_for_bus : SubState
  stop stop_sigterm stop_sigkill stop_post final_sigterm final_sigkill : SubState
  auto_restart failed : SubState

pub data UnitResult : Type 0 where
  success exit_code signal timeout start_limit_hit dependency assert : UnitResult
  resources protocol watchdog exec user group unknown : UnitResult

pub data LoadState : Type 0 where
  loaded not_found error : LoadState

pub data ControlCommand : Type 0 where
  start_pre start start_post stop reload kill : ControlCommand

pub record TimerState : Type 0 where
  pub next_calendar : Option (ℕ × ℕ)
  pub next_monotonic : Option ℕ
  pub last_trigger : Option ℕ
  pub last_trigger_calendar : Option (ℕ × ℕ)
  pub last_trigger_monotonic : Option ℕ
  pub last_result : Option UnitResult
  pub next_display : Option ℕ
  pub spec_strings : List Text

pub record PathState : Type 0 where
  pub armed_mtimes : List (Text × Option ℕ)
  pub triggered : Bool

pub record ManagedUnit : Type 0 where
  pub name : Text
  pub kind : UnitKind
  pub file : Option UnitFile
  pub load : LoadState
  pub path : Option Text
  pub load_error : Option Text
  pub active : ActiveState
  pub sub : SubState
  pub result : UnitResult
  pub main_pid : Option ℕ
  pub group_pid : Option ℕ
  pub cgroup : Option Text
  pub cmd_index : ℕ
  pub control_pid : Option ℕ
  pub control_command : Option ControlCommand
  pub forked_main_pid : Option ℕ
  pub active_enter : Option ℕ
  pub inactive_enter : Option ℕ
  pub invocation_id : Option ℕ
  pub n_restarts : ℕ
  pub control_start : Option ℕ
  pub stop_started : Option ℕ
  pub last_exit_code : Option ℕ
  pub last_exit_signal : Option ℕ
  pub stop_sent_kill : Bool
  pub log : LogRing
  pub restart_at : Option ℕ
  pub start_window : List ℕ
  pub notify_fd : Option ℕ
  pub notify_ready : Bool
  pub timer : Option TimerState
  pub path_state : Option PathState

-- `Unit::new`, at the wall-clock time `now`.
unfoldable pub new_unit : ℕ → Text → UnitKind → ManagedUnit
unfolding new_ring
new_unit now name kind = record {
  name = name;
  kind = kind;
  file = none;
  load = not_found;
  path = none;
  load_error = none;
  active = inactive;
  sub = dead;
  result = success;
  main_pid = none;
  group_pid = none;
  cgroup = none;
  cmd_index = 0;
  control_pid = none;
  control_command = none;
  forked_main_pid = none;
  active_enter = none;
  inactive_enter = some now;
  invocation_id = none;
  n_restarts = 0;
  control_start = none;
  stop_started = none;
  last_exit_code = none;
  last_exit_signal = none;
  stop_sent_kill = false;
  log = new_ring 200;
  restart_at = none;
  start_window = [];
  notify_fd = none;
  notify_ready = false;
  timer = none;
  path_state = none;
}

-- `NEXT_INVOCATION_ID.fetch_add(1)` on the counter.
abbrev pub fetch_add : ℕ → ℕ
fetch_add n = (n + 1) % 2 ^ 64

abbrev pub sticky_result : UnitResult → UnitResult → UnitResult
sticky_result success old = old
sticky_result new old = new

-- The invocation id, and the counter, when a unit becomes active.
abbrev pub keep_invocation : Option ℕ → ℕ → ℕ × ℕ
keep_invocation none seq = (seq, fetch_add seq)
keep_invocation (some i) seq = (i, seq)

-- The `match state` of `set_active`, with the guard on `active_enter`.
abbrev pub stamp : ℕ → ℕ → ActiveState → ManagedUnit → ManagedUnit × ℕ
stamp now seq activating u =
    (record u { invocation_id = some seq; restart_at = none }, fetch_add seq)
stamp now seq active u =
    let (i, seq') = keep_invocation u.invocation_id seq in
    (
      record u {
        invocation_id = some i;
        active_enter = some now;
        inactive_enter = none;
        restart_at = none;
      },
      seq',
    )
stamp now seq _ u = (
  record u { inactive_enter = elim u.active_enter [ none ↦ u.inactive_enter | some _ ↦ some now ] },
  seq,
)

-- `now` is the wall clock and `seq` the counter of invocation ids; the counter is returned.
unfoldable pub set_active :
    ℕ → ℕ → ActiveState → SubState → UnitResult → ManagedUnit → ManagedUnit × ℕ
set_active now seq state sub result u =
    stamp now seq state
      (record u { active = state; sub = sub; result = sticky_result result u.result })

unfoldable pub service_cfg : ManagedUnit → Option ServiceConfig
service_cfg u = elim u.file [ none ↦ none | some f ↦ f.service ]

unfoldable pub timer_cfg : ManagedUnit → Option TimerConfig
timer_cfg u = elim u.file [ none ↦ none | some f ↦ f.timer ]

unfoldable pub path_cfg : ManagedUnit → Option PathConfig
path_cfg u = elim u.file [ none ↦ none | some f ↦ f.path_unit ]

unfoldable pub socket_cfg : ManagedUnit → Option SocketConfig
socket_cfg u = elim u.file [ none ↦ none | some f ↦ f.socket ]

-- The name up to its last dot, with `.service` behind it.
unfoldable pub service_of : Text → Text
service_of name = elim (rsplit_once b'.' name) [
  | none ↦ name ++ codes ".service"
  | some (prefix, _) ↦ prefix ++ codes ".service"
]

abbrev pub named_or : Option Text → Text → Text
named_or (some u) name = u
named_or none name = service_of name

unfoldable pub activated_unit : ManagedUnit → Text
unfolding timer_cfg service_of
activated_unit u = elim (timer_cfg u) [ none ↦ service_of u.name | some t ↦ named_or t.unit u.name ]

unfoldable pub activated_service : ManagedUnit → Text
unfolding socket_cfg service_of
activated_service u = elim (socket_cfg u) [
  | none ↦ service_of u.name
  | some s ↦ named_or s.service u.name
]

unfoldable pub activated_path_target : ManagedUnit → Text
unfolding path_cfg service_of
activated_path_target u = elim (path_cfg u) [
  | none ↦ service_of u.name
  | some p ↦ named_or p.unit u.name
]
