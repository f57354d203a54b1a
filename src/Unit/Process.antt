-- ===== src/Unit/Process.antt =====
-- rystemd/src/unit/mod.rs, what a unit file says of the processes of a service: limits, sandbox,
-- standard streams and directories. A floating-point number is its bit pattern.
use rystemd.Prelude.{ℕ, Bool, true, false, not, ◌||◌, Option, List, Text, is_empty}

pub data RlimitResource : Type 0 where
  no_file n_proc core address_space : RlimitResource

pub record Rlimit : Type 0 where
  pub resource : RlimitResource
  pub soft : ℕ
  pub hard : ℕ

pub record CgroupLimits : Type 0 where
  pub memory_max : Option ℕ
  pub memory_high : Option ℕ
  pub cpu_weight : Option ℕ
  pub cpu_quota : Option ℕ
  pub io_weight : Option ℕ
  pub io_device_weights : List (Text × ℕ)
  pub tasks_max : Option ℕ

pub data ProtectMode : Type 0 where
  no read_only tmpfs : ProtectMode

pub data ProtectSystemLevel : Type 0 where
  no yes full strict : ProtectSystemLevel

pub record SandboxConfig : Type 0 where
  pub no_new_privileges : Bool
  pub private_tmp : Bool
  pub private_devices : Bool
  pub protect_home : ProtectMode
  pub protect_system : ProtectSystemLevel
  pub read_only_paths : List Text
  pub bounding_invert : Bool
  pub bounding_set : List Text
  pub ambient_set : List Text
  pub syscall_deny : Bool
  pub syscall_nrs : List ℕ
  pub syscall_errno : ℕ
  pub restrict_realtime : Bool
  pub lock_personality : Bool
  pub restrict_suidsgid : Bool
  pub af_present : Bool
  pub af_deny : Bool
  pub af_families : List ℕ
  pub af_deny_all : Bool
  pub memory_deny_write_execute : Bool
  pub compat : List (Text × Text)

abbrev protects_home : ProtectMode → Bool
protects_home ProtectMode.no = false
protects_home _ = true

abbrev protects_system : ProtectSystemLevel → Bool
protects_system ProtectSystemLevel.no = false
protects_system _ = true

unfoldable pub has_sandbox : SandboxConfig → Bool
has_sandbox s =
    s.no_new_privileges
    || s.private_tmp
    || s.private_devices
    || protects_home s.protect_home
    || protects_system s.protect_system
    || not (is_empty s.read_only_paths)
    || s.bounding_invert
    || not (is_empty s.bounding_set)
    || not (is_empty s.ambient_set)
    || not (is_empty s.syscall_nrs)
    || s.restrict_realtime
    || s.lock_personality
    || s.restrict_suidsgid
    || s.af_present
    || s.memory_deny_write_execute

unfoldable pub compat_warnings : SandboxConfig → List (Text × Text)
compat_warnings s = s.compat

pub data StdioTarget : Type 0 where
  journal inherit discard : StdioTarget
  file : Text → StdioTarget

pub data DirectoryKind : Type 0 where
  runtime state cache logs configuration : DirectoryKind

pub record DirectorySpec : Type 0 where
  pub kind : DirectoryKind
  pub name : Text
  pub mode : Option ℕ
  pub recursive : Bool
