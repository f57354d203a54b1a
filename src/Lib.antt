-- ===== src/Lib.antt =====
-- rystemd, an implementation of systemd's init in Rust: its data and its decisions as functions,
-- with the theorems that make them correct. Paths are from the root of the repository.
--
-- The manager (rystemd/src/manager) keeps a table of units and a queue of jobs. Unit files are read by
-- rystemd/src/repo and rystemd/src/unit and become records that the table holds; the dependency graph
-- is computed from these records; timers, both the calendar ones and the timeouts of services, are
-- entries of one wheel that the main loop empties.
--
-- Which file models which part:
--   Prelude            tests on numbers, lists, texts, lines and the maps that stand for HashMap
--   Log                log.rs, LogRing: the last lines of a unit's output
--   Calendar           calendar.rs, OnCalendar= expressions: matches, days_in_month, day_ok,
--                      next_time and next_elapse
--   Expand             expand.rs, variables in arguments: expand_env_token
--   Names              names.rs, normalize_unit and is_plain_unit_name
--   Repo.Document      repo/domain.rs, UnitDocument: parse (parse_document here) and to_text
--   Repo.Definition    repo/domain.rs, UnitDefinition: parse (parse_definition here) and to_text,
--                      and UnitType, whose functions begin with type_ here
--   Specifier          specifier.rs, SpecifierContext: prefix, instance (instance_name) and expand
--   Unit.Config        unit/mod.rs, the records of a typed unit file, conditions and unit kinds
--   Unit.Process       unit/mod.rs, limits, sandbox, streams and directories of a service
--   Unit.Exit          unit/mod.rs, ExitCodeSet: which statuses count as success
--   Unit.Parse         unit/parse.rs, the structural parser: parse, scalar, list
--   Unit.Words         unit/parse.rs, tokenize
--   Unit.Escapes       unit/parse.rs, cunescape and unquote_scalar
--   Manager.State      manager/state.rs, Unit (ManagedUnit here) and set_active
--   Manager.Deps       manager/deps.rs, closure, start_closure and stop_propagate
--   Manager.Timer      manager/timer.rs, TimerWheel: schedule, cancel, next_deadline and pop_due
--   Manager.Jobs       manager/mod.rs, the job table: jobs, completed_jobs, unit_job and next_job
--   Manager.Action     the control flow of methods on &mut self: writes, returns and panics
--   Manager.Engine     manager/mod.rs, Manager, and the reads and writes that its methods are built
--                      from; what is asked of the system is the record Outside
--     Engine.Expand    manager/mod.rs, expand_start_job, from a start job to its transaction
--     Engine.Queue     manager/mod.rs, process_jobs, on_job_completed, finish_job, fail_unit, do_start,
--                      do_stop, finalize_stop and what is between
--     Engine.Types     manager/unit_type.rs, the start and stop of each unit type, with start_socket
--                      and start_mount
--     Engine.Timers    manager/mod.rs, rearm_timer and the timeouts of services
--     Engine.Requests  manager/mod.rs, start_with_mode, stop_with_mode, restart, shutdown
--     Engine.Spawn     manager/mod.rs, spawn_control and what follows the last command of a stage
--     Engine.Exits     manager/mod.rs, reap: the exits of control and main processes, restarts
--     Engine.Fire      manager/mod.rs, fire_timer and reload
--     Engine.Notify    manager/mod.rs, handle_notify_datagram behind its parser, handle_dbus_event
--     Engine.Reload    manager/mod.rs, load_all (daemon-reload) and devices; manager/ops.rs,
--                      reset_failed_units
--     Engine.Run       the methods above tied together
--
-- Conventions. A text is the list of its code points, and an index into it counts code points. A
-- HashMap is an association list with distinct keys, and an iteration over it comes in the order of
-- the list. Mutated state is passed on as a record, and an error is a value of Result or Option.
-- Instants and wall-clock times are numbers. What chrono knows of dates is a parameter of Calendar
-- with its documented laws as hypotheses; what the file system answers to conditions is a record of
-- functions.
--
-- Bounds and fuel. The search of deps.rs is a loop on fuel, one more round than there are edges in
-- the table and one for the start; each name is pushed once, which is why it is enough. The calendar
-- search is bounded by the years that the source bounds it by. The expansion of variables is a loop
-- on the length of the token, of which each round takes a character at least. The binary heap of the
-- wheel is the list of what it pops, in order. The methods of the job engine call each other in
-- circles; they are written over an argument for the calls and tied on fuel, which bounds the depth
-- of the calls. A chain of failures (OnFailure=) can be as deep as the units allow and without end on
-- a cycle, so what is proved of the engine holds for every fuel. Job ids are 64-bit; where they are
-- used up the model stops (ids_used_up), as does the source in a checked build.
--
-- Parameters. The engine takes the clock, the answers of the file system and of bind and mount, and
-- what the repository loads as a record of functions (Outside), indexed by the number of the question,
-- so that two questions may have two answers. What a process does once it is spawned is not known: its
-- exit is an event that may come at any time with any code and signal, and so is a timer that is due.
--
-- Not modelled: log lines and signals, which leave the manager's state as it is; the parsing of a
-- notification and the polling of paths (manager/mod.rs); the calendar and time span parsers; the
-- operating system's side (platform), D-Bus, the control protocol, and the clients rystemctl and
-- rystemd-tui, which are I/O and glue. What is read from the disk and from udev is a parameter.
pub mod Prelude
pub mod Expand
pub mod Log
pub mod Names
pub mod Calendar
pub mod Repo
pub mod Specifier
pub mod Unit
pub mod Manager
