-- ===== src/Unit/Config.antt =====
-- rystemd/src/unit/mod.rs, the typed unit file. A time span is its number of microseconds, a path is a
-- text, a signed number is its bit pattern, and the numbers of a user and a group are their decimals.
pub mod Kinds
use rystemd.Prelude.{
  ℕ, Bool, true, false, not, ◌&&◌, ◌||◌, Option, none, some, List, [], ◌∷◌, ◌==◌, Text, text_eq,
  codes, rsplit_once, if◌then◌else◌,
}
use rystemd.Unit.Process.{Rlimit, CgroupLimits, SandboxConfig, StdioTarget, DirectorySpec}
use rystemd.Calendar.{CalendarSpec}

pub data UnitKind : Type 0 where
  service timer target path socket device mount : UnitKind

unfoldable pub suffix : UnitKind → Text
suffix service = codes "service"
suffix timer = codes "timer"
suffix target = codes "target"
suffix path = codes "path"
suffix socket = codes "socket"
suffix device = codes "device"
suffix mount = codes "mount"

unfoldable pub from_suffix : Text → Option UnitKind
from_suffix s =
    if text_eq s (codes "service")
    then some service
    else if text_eq s (codes "timer")
    then some timer
    else if text_eq s (codes "target")
    then some target
    else if text_eq s (codes "path")
    then some path
    else if text_eq s (codes "socket")
    then some socket
    else if text_eq s (codes "device")
    then some device
    else if text_eq s (codes "mount")
    then some mount
    else none

unfoldable pub from_unit_name : Text → Option UnitKind
from_unit_name name = elim (rsplit_once b'.' name) [
  | none ↦ none
  | some (prefix, rest) ↦ from_suffix rest
]

pub record ExecCommand : Type 0 where
  pub argv : List Text
  pub ignore_failure : Bool

pub data ServiceType : Type 0 where
  simple exec oneshot forking notify dbus idle : ServiceType

pub data RestartPolicy : Type 0 where
  never on_success on_failure on_abnormal on_abort on_watchdog always : RestartPolicy

pub data KillMode : Type 0 where
  control_group process : KillMode

-- Inclusive ranges of codes; an `i32` code or signal is its bit pattern.
pub record ExitCodeSet : Type 0 where
  pub codes : List (ℕ × ℕ)
  pub signals : List ℕ

pub data ConditionKind : Type 0 where
  path_exists file_not_empty directory_not_empty path_is_read_write : ConditionKind
  path_is_symbolic_link user group host : ConditionKind

pub record Condition : Type 0 where
  pub kind : ConditionKind
  pub value : Text
  pub negate : Bool
  pub is_assert : Bool

pub record ConditionContext : Type 0 where
  pub user_manager : Bool
  pub username : Text
  pub uid : Text
  pub groupname : Text
  pub gid : Text
  pub hostname : Text

-- What the conditions ask of the file system.
pub record FileTests : Type 0 where
  pub exists : Text → Bool
  pub is_nonempty_file : Text → Bool
  pub is_nonempty_directory : Text → Bool
  pub is_read_write : Text → Bool
  pub is_symlink : Text → Bool

unfoldable pub match_base : FileTests → ConditionContext → ConditionKind → Text → Bool
match_base fs ctx path_exists v = fs.exists v
match_base fs ctx file_not_empty v = fs.is_nonempty_file v
match_base fs ctx directory_not_empty v = fs.is_nonempty_directory v
match_base fs ctx path_is_read_write v = fs.is_read_write v
match_base fs ctx path_is_symbolic_link v = fs.is_symlink v
match_base fs ctx user v =
    if ctx.user_manager
    then text_eq v ctx.username || text_eq v ctx.uid
    else text_eq v (codes "root") || text_eq v (codes "0")
match_base fs ctx group v =
    if ctx.user_manager
    then text_eq v ctx.groupname || text_eq v ctx.gid
    else text_eq v (codes "root") || text_eq v (codes "0")
match_base fs ctx host v = text_eq v ctx.hostname

unfoldable pub evaluate : FileTests → ConditionContext → Condition → Bool
unfolding match_base
evaluate fs ctx c =
    let base = match_base fs ctx c.kind c.value in if c.negate then not base else base

pub record UnitConfig : Type 0 where
  pub description : Text
  pub after : List Text
  pub before : List Text
  pub requires : List Text
  pub requisite : List Text
  pub wants : List Text
  pub conflicts : List Text
  pub on_failure : List Text
  pub part_of : List Text
  pub binds_to : List Text
  pub default_dependencies : Bool
  pub documentation : List Text
  pub conditions : List Condition

pub record ServiceConfig : Type 0 where
  pub service_type : ServiceType
  pub remain_after_exit : Bool
  pub exec_start_pre : List ExecCommand
  pub exec_start : List ExecCommand
  pub exec_start_post : List ExecCommand
  pub exec_stop : List ExecCommand
  pub exec_reload : List ExecCommand
  pub restart : RestartPolicy
  pub restart_sec : ℕ
  pub restart_randomized_delay_sec : ℕ
  pub timeout_start_sec : ℕ
  pub timeout_stop_sec : ℕ
  pub environment : List (Text × Text)
  pub environment_files : List (Text × Bool)
  pub working_directory : Option (Text × Bool)
  pub user : Option Text
  pub group : Option Text
  pub nice : Option ℕ
  pub umask : Option ℕ
  pub kill_signal : Option ℕ
  pub kill_mode : KillMode
  pub send_sigkill : Bool
  pub success_exit_status : Option ExitCodeSet
  pub pid_file : Option Text
  pub bus_name : Option Text
  pub rlimits : List Rlimit
  pub cgroup_limits : CgroupLimits
  pub sandbox : SandboxConfig
  pub std_output : StdioTarget
  pub std_error : StdioTarget
  pub std_input : Bool
  pub directories : List DirectorySpec

pub record TimerConfig : Type 0 where
  pub on_calendar : List CalendarSpec
  pub on_boot_sec : List ℕ
  pub on_startup_sec : List ℕ
  pub on_active_sec : List ℕ
  pub on_inactive_sec : List ℕ
  pub persistent : Bool
  pub accuracy_sec : ℕ
  pub randomized_delay_sec : ℕ
  pub unit : Option Text
  pub remain_after_elapse : Bool
  pub wake_system : Bool

pub record PathConfig : Type 0 where
  pub path_exists : List Text
  pub path_exists_glob : List Text
  pub path_changed : List Text
  pub directory_not_empty : List Text
  pub unit : Option Text
  pub make_directory : Bool

pub record SocketConfig : Type 0 where
  pub listen_stream : List Text
  pub listen_datagram : List Text
  pub listen_netlink : List Text
  pub listen_sequential_packet : List Text
  pub accept : Bool
  pub service : Option Text

pub record MountConfig : Type 0 where
  pub what : Option Text
  pub mount_point : Option Text
  pub fs_type : Option Text
  pub options : Option Text

pub record InstallConfig : Type 0 where
  pub wanted_by : List Text
  pub required_by : List Text
  pub also : List Text
  pub alias : List Text

pub record UnitFile : Type 0 where
  pub path : Option Text
  pub unit : UnitConfig
  pub service : Option ServiceConfig
  pub timer : Option TimerConfig
  pub path_unit : Option PathConfig
  pub socket : Option SocketConfig
  pub mount : Option MountConfig
  pub install : InstallConfig

abbrev pub is_some {ℓ} : {A : Type ℓ} → Option A → Bool
is_some none = false
is_some (some _) = true

unfoldable pub file_kind : UnitFile → UnitKind
file_kind f =
    if is_some f.service
    then UnitKind.service
    else if is_some f.timer
    then UnitKind.timer
    else if is_some f.path_unit
    then UnitKind.path
    else if is_some f.socket
    then UnitKind.socket
    else if is_some f.mount
    then UnitKind.mount
    else UnitKind.target
