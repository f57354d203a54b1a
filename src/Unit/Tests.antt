-- ===== src/Unit/Tests.antt =====
-- A unit name and a service, on which unit/mod.rs is run.
use rystemd.Prelude.{
  refl, ok, starts_with_char, List, ◌≡◌, ◌↔◌, ◌||◌, ◌&&◌, true, false, none, some, [], ◌∷◌, ◌++◌,
  leb, ◌==◌, any, Text, codes,
}
use rystemd.Unit.Config.{
  ServiceConfig, simple, on_failure, control_group, service, suffix, from_unit_name,
}
use rystemd.Repo.Document.{parse_document}
use rystemd.Unit.Parse.{from_repository_document, parse}
use rystemd.Unit.Parse.Same.{Agree, parse_same}
use rystemd.Unit.Words.{tokenize}
use rystemd.Unit.Words.Quoted.{quoted_words, tokenize-quoted_words}
use rystemd.Unit.Escapes.{unquote_scalar}
use rystemd.Unit.Escapes.Doubled.{doubled, unquote_scalar_lem}
use rystemd.Unit.Process.{ProtectMode, ProtectSystemLevel, journal}
use rystemd.Unit.Config.Kinds.{from_unit_name_iff}
use rystemd.Unit.Exit.{
  status_matches, effective_exit_success, added_codes, added_signals, effective_exit_success_lem,
}

abbrev pub daemon : ServiceConfig
daemon = record {
  service_type = simple;
  remain_after_exit = false;
  exec_start_pre = [];
  exec_start = [];
  exec_start_post = [];
  exec_stop = [];
  exec_reload = [];
  restart = on_failure;
  restart_sec = 100000;
  restart_randomized_delay_sec = 0;
  timeout_start_sec = 90000000;
  timeout_stop_sec = 90000000;
  environment = [];
  environment_files = [];
  working_directory = none;
  user = none;
  group = none;
  nice = none;
  umask = none;
  kill_signal = none;
  kill_mode = control_group;
  send_sigkill = true;
  success_exit_status = some (record { codes = (2, 2) ∷ []; signals = 9 ∷ [] });
  pid_file = none;
  bus_name = none;
  rlimits = [];
  cgroup_limits = record {
    memory_max = none;
    memory_high = none;
    cpu_weight = none;
    cpu_quota = none;
    io_weight = none;
    io_device_weights = [];
    tasks_max = none;
  };
  sandbox = record {
    no_new_privileges = false;
    private_tmp = false;
    private_devices = false;
    protect_home = ProtectMode.no;
    protect_system = ProtectSystemLevel.no;
    read_only_paths = [];
    bounding_invert = false;
    bounding_set = [];
    ambient_set = [];
    syscall_deny = false;
    syscall_nrs = [];
    syscall_errno = 0;
    restrict_realtime = false;
    lock_personality = false;
    restrict_suidsgid = false;
    af_present = false;
    af_deny = false;
    af_families = [];
    af_deny_all = false;
    memory_deny_write_execute = false;
    compat = [];
  };
  std_output = journal;
  std_error = journal;
  std_input = false;
  directories = [];
}

from_unit_name_iff_example :
    (from_unit_name (codes "a.b.service") ≡ some service)
    ↔ ((prefix : Text) × (codes "a.b.service" ≡ prefix ++ b'.' ∷ suffix service))
from_unit_name_iff_example = from_unit_name_iff (codes "a.b.service") service

effective_exit_success_lem_example :
    (status_matches (effective_exit_success daemon) (some 2) none
      ≡ (2 == 0 || any (λ r. leb r.0 2 && leb 2 r.1) (added_codes daemon.success_exit_status)))
    × (status_matches (effective_exit_success daemon) none (some 9)
        ≡ any (λ t. t == 9) (added_signals daemon.success_exit_status))
    × (status_matches (effective_exit_success daemon) (some 2) (some 9) ≡ false)
    × (status_matches (effective_exit_success daemon) none none ≡ false)
effective_exit_success_lem_example = effective_exit_success_lem daemon 2 9

parse_same_example :
    Agree
      (λ d f. f ≡ from_repository_document d)
      (parse_document (codes "[Unit]\nA=1\n"))
      (parse (codes "[Unit]\nA=1\n"))
parse_same_example = parse_same (codes "[Unit]\nA=1\n")

abbrev exec_start : List Text
exec_start = codes "/bin/echo" ∷ codes "a \"b\"" ∷ []

tokenize-exec_start :
    tokenize (codes "/bin/foo --bar 'x y' a\\ b")
    ≡ ok (codes "/bin/foo" ∷ codes "--bar" ∷ codes "x y" ∷ codes "a b" ∷ [])
unfolding tokenize
tokenize-exec_start = refl

tokenize-quoted_words_example : tokenize (quoted_words exec_start) ≡ ok exec_start
tokenize-quoted_words_example = tokenize-quoted_words exec_start (refl, (refl, tt))

unquote_scalar_lem_example :
    (unquote_scalar (b'"' ∷ doubled (codes "a\\b") ++ b'"' ∷ []) ≡ ok (codes "a\\b"))
    × (unquote_scalar (b'\'' ∷ codes "a\\b" ++ b'\'' ∷ []) ≡ ok (codes "a\\b"))
    × (((starts_with_char b'"' (codes "a\\b") || starts_with_char b'\'' (codes "a\\b")) ≡ false)
        → unquote_scalar (doubled (codes "a\\b")) ≡ ok (codes "a\\b"))
unquote_scalar_lem_example = unquote_scalar_lem (codes "a\\b")
