-- ===== src/Manager/Engine/Runs.antt =====
-- Whole runs of the job engine of manager/mod.rs on the managers of Samples.
use rystemd.Prelude.{
  ℕ, ◌≤◌, ◌≡◌, refl, true, false, none, some, [], Text, get, insert, remove, adjust, contains_key,
  text_key, nat_key, text_eq,
}
use rystemd.Manager.State.{ManagedUnit}
use rystemd.Manager.Action.{Outcome, done}
use rystemd.Manager.Jobs.{JobKind, Job, JobStatus, replace, fresh_job}
use rystemd.Manager.Engine.Results.{finish_job_lem}
use rystemd.Manager.Jobs.Invariant.{new_job-IsConsistent}
use rystemd.Manager.Engine.{Manager}
use rystemd.Manager.Engine.Calls.{Call}
use rystemd.Manager.Engine.Reach.{Request, Reach, here, next, IsSound, reach_lem}
use rystemd.Manager.Action.{
  pure, gets, change, panic, no_more_ids, no_more_fuel, unwrap, continue, ◌>>=◌, modify, when,
  for_each, if_some, on_option, on_result, until_some, fold_each, try_each,
}
use rystemd.Manager.Jobs.{
  new_job, record_job_result, remove_job, retire, drop_job, change_job, release_waiting, point_unit,
  find_wait,
}
use rystemd.Manager.Deps.{
  requires, wants, requisite, conflicts, after, on_failure, visit_dep, visit_deps, closure_loop,
  closure, start_closure, closure_conflicts, stop_propagate,
}
use rystemd.Manager.State.{new_unit, set_active}
use rystemd.Manager.Engine.{
  ask, find_unit, the_unit, update_unit, enter, unit_active, unit_operational, has_unit, find_job,
  the_job, find_unit_job, change_table, update_job_if, update_job, put_job, create_job, close_job,
  point_job, drop_unit_job,
}
use rystemd.Manager.Engine.Timers.{
  as_duration, change_wheel, schedule_in, arm_timeout, arm_start_timeout, arm_stop_timeout,
  next_calendar_of, min_of, next_monotonic_of, next_from_target, schedule_calendar,
  schedule_instant, schedule_monotonic, rearm_with, rearm_timer, timer_dep_check,
}
use rystemd.Manager.Engine.Types.{
  bound_socket, closed_socket, start_at_once, unit_has_processes, start_service, stop_service,
  listen_at, listen, listen_all, fail_resources, become_active, start_socket, stop_socket,
  start_mount, stop_mount, type_start, type_stop,
}
use rystemd.Manager.Engine.Expand.{
  condition_name, find_failing, pending, distinct_from, before_names, enqueue_start_job_mode,
  refuse, wait_requisite, stop_conflict, pull_in, wait_after, wait_before, commit,
  expand_dependencies, refuse_condition, expand_start_job,
}
use rystemd.Manager.Engine.Queue.{
  start_window_at, check_start_limit, maybe_start_job, maybe_stop_job, stop_dependent,
  enqueue_stop_job_after_mode, advance_start, advance_stop, advance_by_kind, try_advance_job,
  advance_one, process_jobs, release_job, complete_for, on_job_completed, cancel_job, go_on,
  finish_job, give_up, finish_job_failed, poke_for, poke_failed, fire_on_failure, fail_job,
  fail_unit, complete_start_job, release_bus_name_watch, finalize_stop, do_start, do_stop,
}
use rystemd.Manager.Engine.Requests.{
  current_job, load, ensure_unit_loaded, start_stopping, start_inactive, start_with_mode,
  start_ignore_dependencies, stop_now, stop_with_mode, stop_then_start, restart_operational,
  restart, begin_shutdown, shutdown,
}
use rystemd.Manager.Engine.Run.{body, run}
use rystemd.Manager.Engine.Reach.{handle}
use rystemd.Manager.Engine.Reload.{load_all, load_into, replace_units, register, rearm_all_timers}
use rystemd.Manager.Engine.History.{
  Event, handle_event, Happened, nothing, then_event, JobsFollow, happened_lem,
}
use rystemd.Manager.Engine.Samples.{
  quiet, no_spawn, a, b, no_jobs, chain, no_jobs-IsConsistent, chain-IsSound, quiet-LoadsStamped,
  no_spawn-SpawnFollows,
}

abbrev state_of : Outcome Manager Unit → Manager
state_of (done r m) = m
state_of _ = chain

-- The state behind the start of the first unit.
abbrev running : Manager
running = state_of (handle quiet 8 (Request.start a replace) chain)

chain_started : handle quiet 8 (Request.start a replace) chain ≡ done tt running
unfolding pure gets change panic no_more_ids no_more_fuel unwrap continue ◌>>=◌ modify when for_each
    if_some on_option on_result until_some fold_each try_each new_job record_job_result remove_job
    retire drop_job change_job release_waiting point_unit find_wait ask find_unit the_unit
    update_unit enter unit_active unit_operational has_unit find_job the_job find_unit_job
    change_table update_job_if update_job put_job create_job close_job point_job drop_unit_job
    as_duration change_wheel schedule_in arm_timeout arm_start_timeout arm_stop_timeout
    next_calendar_of min_of next_monotonic_of next_from_target schedule_calendar schedule_instant
    schedule_monotonic rearm_with rearm_timer timer_dep_check bound_socket closed_socket
    start_at_once unit_has_processes start_service stop_service listen_at listen listen_all
    fail_resources become_active start_socket stop_socket start_mount stop_mount type_start
    type_stop condition_name find_failing pending distinct_from before_names enqueue_start_job_mode
    refuse wait_requisite stop_conflict pull_in wait_after wait_before commit expand_dependencies
    refuse_condition expand_start_job start_window_at check_start_limit maybe_start_job
    maybe_stop_job stop_dependent enqueue_stop_job_after_mode advance_start advance_stop
    advance_by_kind try_advance_job advance_one process_jobs release_job complete_for
    on_job_completed cancel_job go_on finish_job give_up finish_job_failed poke_for poke_failed
    fire_on_failure fail_job fail_unit complete_start_job release_bus_name_watch finalize_stop
    do_start do_stop current_job load ensure_unit_loaded start_stopping start_inactive
    start_with_mode start_ignore_dependencies stop_now stop_with_mode stop_then_start
    restart_operational restart begin_shutdown shutdown body run handle start_closure closure
    closure_loop visit_dep visit_deps closure_conflicts stop_propagate requires wants requisite
    conflicts after on_failure set_active new_unit get insert remove adjust contains_key text_eq
chain_started = refl

chain-running : Reach quiet chain running
chain-running = next 8 (Request.start a replace) chain running here chain_started

-- A daemon-reload behind the start.
abbrev reloaded : Manager
reloaded = state_of (handle_event quiet 8 Event.daemon_reload running)

chain-reloaded : Happened quiet chain reloaded
unfolding handle_event load_all gets ask change modify fold_each load_into replace_units for_each
    register rearm_all_timers change_wheel pure ◌>>=◌ continue
chain-reloaded =
    then_event 8 Event.daemon_reload running reloaded
      (then_event 8 (Event.requested (Request.start a replace)) chain running nothing chain_started)
      refl

happened_lem_example : JobsFollow chain reloaded
happened_lem_example =
    happened_lem quiet chain reloaded quiet-LoadsStamped no_jobs-IsConsistent chain-reloaded

-- Both units are active, each by a job that succeeded, the required one first.
running_jobs :
    (get 1 running.table.completed_jobs
      ≡ some (record { id = 1; unit = a; ok = true; error = none }))
    × (get 2 running.table.completed_jobs
        ≡ some (record { id = 2; unit = b; ok = true; error = none }))
unfolding pure gets change panic no_more_ids no_more_fuel unwrap continue ◌>>=◌ modify when for_each
    if_some on_option on_result until_some fold_each try_each new_job record_job_result remove_job
    retire drop_job change_job release_waiting point_unit find_wait ask find_unit the_unit
    update_unit enter unit_active unit_operational has_unit find_job the_job find_unit_job
    change_table update_job_if update_job put_job create_job close_job point_job drop_unit_job
    as_duration change_wheel schedule_in arm_timeout arm_start_timeout arm_stop_timeout
    next_calendar_of min_of next_monotonic_of next_from_target schedule_calendar schedule_instant
    schedule_monotonic rearm_with rearm_timer timer_dep_check bound_socket closed_socket
    start_at_once unit_has_processes start_service stop_service listen_at listen listen_all
    fail_resources become_active start_socket stop_socket start_mount stop_mount type_start
    type_stop condition_name find_failing pending distinct_from before_names enqueue_start_job_mode
    refuse wait_requisite stop_conflict pull_in wait_after wait_before commit expand_dependencies
    refuse_condition expand_start_job start_window_at check_start_limit maybe_start_job
    maybe_stop_job stop_dependent enqueue_stop_job_after_mode advance_start advance_stop
    advance_by_kind try_advance_job advance_one process_jobs release_job complete_for
    on_job_completed cancel_job go_on finish_job give_up finish_job_failed poke_for poke_failed
    fire_on_failure fail_job fail_unit complete_start_job release_bus_name_watch finalize_stop
    do_start do_stop current_job load ensure_unit_loaded start_stopping start_inactive
    start_with_mode start_ignore_dependencies stop_now stop_with_mode stop_then_start
    restart_operational restart begin_shutdown shutdown body run handle start_closure closure
    closure_loop visit_dep visit_deps closure_conflicts stop_propagate requires wants requisite
    conflicts after on_failure set_active new_unit get insert remove adjust contains_key text_eq
running_jobs = (refl, refl)

reach_lem_example :
    IsSound running
    × ((n : Text) (u : ManagedUnit)
        → get n chain.units ≡ some u
        → (u' : ManagedUnit) × (get n running.units ≡ some u'))
    × (chain.table.next_job ≤ running.table.next_job)
    × ((i : ℕ) (r : JobStatus)
        → get i chain.table.completed_jobs ≡ some r
        → get i running.table.completed_jobs ≡ some r)
    × (chain.shutting_down ≡ true → running.shutting_down ≡ true)
reach_lem_example = reach_lem quiet quiet-LoadsStamped chain running chain-IsSound chain-running

-- A start job of the second unit that is in the table.
abbrev queued : Manager
queued = record chain { table = new_job JobKind.start b [] replace no_jobs }

queued-IsSound : IsSound queued
queued-IsSound = record {
  table = new_job-IsConsistent no_jobs no_jobs-IsConsistent JobKind.start b [] replace;
  stamped = chain-IsSound.stamped;
}

abbrev the_job_of_b : Job
the_job_of_b = fresh_job JobKind.start b [] replace

queued_job : get 1 queued.table.jobs ≡ some the_job_of_b
unfolding new_job get insert remove
queued_job = refl

finish_job_lem_example :
    let m = state_of (run quiet no_spawn 3 (Call.finish_job 1) queued) in
    (run quiet no_spawn 3 (Call.finish_job 1) queued ≡ done tt m
      → (get 1 m.table.completed_jobs ≡ some (record { id = 1; unit = b; ok = true; error = none }))
        × (get 1 m.table.jobs ≡ none))
    × (run quiet no_spawn 3 (Call.finish_job_failed 1) queued ≡ done tt m
        → (get 1 m.table.completed_jobs
            ≡ some (record { id = 1; unit = b; ok = false; error = none }))
          × (get 1 m.table.jobs ≡ none))
finish_job_lem_example =
    finish_job_lem quiet no_spawn quiet-LoadsStamped no_spawn-SpawnFollows queued
      (state_of (run quiet no_spawn 3 (Call.finish_job 1) queued)) 3 1 the_job_of_b queued-IsSound
      queued_job

-- It does return.
finish_job_returns :
    run quiet no_spawn 3 (Call.finish_job 1) queued
    ≡ done tt (state_of (run quiet no_spawn 3 (Call.finish_job 1) queued))
unfolding pure gets change panic no_more_ids no_more_fuel unwrap continue ◌>>=◌ modify when for_each
    if_some on_option on_result until_some fold_each try_each new_job record_job_result remove_job
    retire drop_job change_job release_waiting point_unit find_wait ask find_unit the_unit
    update_unit enter unit_active unit_operational has_unit find_job the_job find_unit_job
    change_table update_job_if update_job put_job create_job close_job point_job drop_unit_job
    as_duration change_wheel schedule_in arm_timeout arm_start_timeout arm_stop_timeout
    next_calendar_of min_of next_monotonic_of next_from_target schedule_calendar schedule_instant
    schedule_monotonic rearm_with rearm_timer timer_dep_check bound_socket closed_socket
    start_at_once unit_has_processes start_service stop_service listen_at listen listen_all
    fail_resources become_active start_socket stop_socket start_mount stop_mount type_start
    type_stop condition_name find_failing pending distinct_from before_names enqueue_start_job_mode
    refuse wait_requisite stop_conflict pull_in wait_after wait_before commit expand_dependencies
    refuse_condition expand_start_job start_window_at check_start_limit maybe_start_job
    maybe_stop_job stop_dependent enqueue_stop_job_after_mode advance_start advance_stop
    advance_by_kind try_advance_job advance_one process_jobs release_job complete_for
    on_job_completed cancel_job go_on finish_job give_up finish_job_failed poke_for poke_failed
    fire_on_failure fail_job fail_unit complete_start_job release_bus_name_watch finalize_stop
    do_start do_stop current_job load ensure_unit_loaded start_stopping start_inactive
    start_with_mode start_ignore_dependencies stop_now stop_with_mode stop_then_start
    restart_operational restart begin_shutdown shutdown body run handle start_closure closure
    closure_loop visit_dep visit_deps closure_conflicts stop_propagate requires wants requisite
    conflicts after on_failure set_active new_unit get insert remove adjust contains_key text_eq
finish_job_returns = refl
