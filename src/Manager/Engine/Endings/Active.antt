-- ===== src/Manager/Engine/Endings/Active.antt =====
-- rystemd/src/manager/mod.rs: the end of the main process of an active service, by `main_exit`.
use rystemd.Prelude.{
  ℕ, ◌+◌, ◌≡◌, refl, ◌∙◌, Bool, true, false, Option, some, Text, text_key, nat_key, get,
  get-adjust_same, arith, if◌then◌else◌,
}
use rystemd.Unit.Config.{ServiceConfig}
use rystemd.Manager.State.{
  ManagedUnit, ActiveState, SubState, UnitResult, success, set_active, service_cfg,
}
use rystemd.Manager.Action.{done, gets, unwrap, continue, ◌>>=◌, ◌>>◌}
use rystemd.Manager.Engine.{Manager, Outside, M, find_unit, the_unit, entered}
use rystemd.Manager.Engine.Timers.{timer_dep_check}
use rystemd.Manager.Engine.Calls.{Call}
use rystemd.Manager.Engine.Queue.{start_window_at}
use rystemd.Manager.Engine.Spawn.{settle}
use rystemd.Manager.Engine.Exits.{
  exit_ok, main_exit, exit_in_state, without_main, should_restart, restart_later,
  handle_active_exit, failure_result,
}
use rystemd.Manager.Engine.Endings
use rystemd.Manager.Engine.Endings.{IsWaiting, IsLeft, Ends}

module _ (outside : Outside) (rec : Call → M Unit) (name : Text) (code : ℕ)
    (signal : Option ℕ) where
  module _ (sc : ServiceConfig) (u : ManagedUnit) (m : Manager) (h : get name m.units ≡ some u)
      (c : service_cfg u ≡ some sc) where
    abbrev hit : Manager
    hit =
        Endings.marked outside rec name code signal
          (Endings.with_result outside rec name code signal UnitResult.start_limit_hit)
          ActiveState.failed SubState.failed UnitResult.start_limit_hit
          (Endings.windowed outside rec name code signal (outside.now m.asked) u)
          (Endings.in_window outside rec name code signal (some sc) u m)
          (get-adjust_same name _ m.units u h)

    pub restart_step :
        should_restart sc.restart (exit_ok (some sc) code signal) signal ≡ true
        → (start_window_at (outside.now m.asked) u.start_window).0 ≡ false
        → handle_active_exit outside rec name code signal m
          ≡ done tt (Endings.restarting outside rec name code signal (some sc) u m)
    unfolding handle_active_exit the_unit find_unit gets unwrap ◌>>=◌ continue
    restart_step r l = ground (
      arith,
      h,
      c,
      r,
      l,
      Endings.restart_later_step outside rec name code signal (some sc) u m h l,
    )

    pub limit_step :
        should_restart sc.restart (exit_ok (some sc) code signal) signal ≡ true
        → (start_window_at (outside.now m.asked) u.start_window).0 ≡ true
        → handle_active_exit outside rec name code signal m ≡ rec (Call.poke_failed name) hit
    unfolding handle_active_exit restart_later the_unit find_unit gets unwrap ◌>>=◌ continue
    limit_step r l = ground (
      arith,
      h,
      c,
      r,
      l,
      Endings.check_start_limit_step outside rec name code signal u m h,
      Endings.marked_step outside rec name code signal
          (Endings.with_result outside rec name code signal UnitResult.start_limit_hit)
          ActiveState.failed SubState.failed UnitResult.start_limit_hit
          (Endings.windowed outside rec name code signal (outside.now m.asked) u)
          (Endings.in_window outside rec name code signal (some sc) u m)
          (get-adjust_same name _ m.units u h) (rec (Call.poke_failed name)),
    )

    abbrev failed : Manager
    failed =
        Endings.marked outside rec name code signal
          (Endings.with_result outside rec name code signal (failure_result signal))
          ActiveState.failed SubState.failed (failure_result signal) u m h

    pub fail_step :
        should_restart sc.restart (exit_ok (some sc) code signal) signal ≡ false
        → exit_ok (some sc) code signal ≡ false
        → handle_active_exit outside rec name code signal m
          ≡ (rec (Call.poke_failed name) >> rec (Call.fire_on_failure name)) failed
    unfolding handle_active_exit the_unit find_unit gets unwrap ◌>>=◌ continue
    fail_step r g = ground (
      arith,
      h,
      c,
      r,
      g,
      Endings.marked_step outside rec name code signal
          (Endings.with_result outside rec name code signal (failure_result signal))
          ActiveState.failed SubState.failed (failure_result signal) u m h
          (rec (Call.poke_failed name) >> rec (Call.fire_on_failure name)),
    )

    abbrev settled : ActiveState → SubState → Manager
    settled state sub =
        entered name (outside.system_now m.asked) state sub success u
          (record m { asked = m.asked + 1 })

    pub settle_step :
        (remain : Bool)
        → sc.remain_after_exit ≡ remain
        → should_restart sc.restart (exit_ok (some sc) code signal) signal ≡ false
        → exit_ok (some sc) code signal ≡ true
        → handle_active_exit outside rec name code signal m
          ≡ (rec (Call.complete_start_job name) >> timer_dep_check outside) (
              if remain
              then settled ActiveState.active SubState.exited
              else settled ActiveState.inactive SubState.dead)
    unfolding handle_active_exit settle the_unit find_unit gets unwrap ◌>>=◌ continue
    settle_step true p r g = ground (
      arith,
      h,
      c,
      p,
      r,
      g,
      Endings.enter_step outside rec name code signal ActiveState.active SubState.exited success u m
          h,
    )
    settle_step false p r g = ground (
      arith,
      h,
      c,
      p,
      r,
      g,
      Endings.enter_step outside rec name code signal ActiveState.inactive SubState.dead success u m
          h,
    )

  module _ (sc : ServiceConfig) (u : ManagedUnit) (m : Manager) (h : get name m.units ≡ some u)
      (c : service_cfg u ≡ some sc) (a : u.active ≡ ActiveState.active) where
    -- The unit and the state that `handle_active_exit` finds.
    abbrev gone : ManagedUnit
    gone = without_main code signal u

    abbrev there : Manager
    there = Endings.exited outside rec name code signal m

    pub there-get : get name there.units ≡ some gone
    there-get = Endings.exited-get outside rec name code signal u m h

    pub gone_cfg : service_cfg gone ≡ some sc
    unfolding service_cfg
    gone_cfg = c

    pub main_step :
        main_exit outside rec name code signal m
        ≡ handle_active_exit outside rec name code signal there
    unfolding exit_in_state
    main_step = Endings.main_exit_step outside rec name code signal u m h ∙ ground (arith, a)

    pub hit-IsLeft :
        IsLeft outside rec name code signal ActiveState.failed m
          (hit sc gone there there-get gone_cfg)
    unfolding set_active
    hit-IsLeft = record {
      unit = _;
      found =
          Endings.marked-get outside rec name code signal
            (Endings.with_result outside rec name code signal UnitResult.start_limit_hit)
            ActiveState.failed SubState.failed UnitResult.start_limit_hit
            (Endings.windowed outside rec name code signal (outside.now there.asked) gone)
            (Endings.in_window outside rec name code signal (some sc) gone there)
            (get-adjust_same name _ there.units gone there-get);
      is_in = refl;
      is_gone = refl;
      same_wheel = refl;
      same_jobs = refl;
    }

    pub failed-IsLeft :
        IsLeft outside rec name code signal ActiveState.failed m
          (failed sc gone there there-get gone_cfg)
    unfolding set_active
    failed-IsLeft = record {
      unit = _;
      found =
          Endings.marked-get outside rec name code signal
            (Endings.with_result outside rec name code signal (failure_result signal))
            ActiveState.failed SubState.failed (failure_result signal) gone there there-get;
      is_in = refl;
      is_gone = refl;
      same_wheel = refl;
      same_jobs = refl;
    }

    pub settled-IsLeft :
        (remain : Bool)
        → IsLeft outside rec name code signal
            (if remain then ActiveState.active else ActiveState.inactive)
            m
            (if remain
              then settled sc gone there there-get gone_cfg ActiveState.active SubState.exited
              else settled sc gone there there-get gone_cfg ActiveState.inactive SubState.dead)
    unfolding set_active
    settled-IsLeft true = record {
      unit = _;
      found = get-adjust_same name _ there.units gone there-get;
      is_in = refl;
      is_gone = refl;
      same_wheel = refl;
      same_jobs = refl;
    }
    settled-IsLeft false = record {
      unit = _;
      found = get-adjust_same name _ there.units gone there-get;
      is_in = refl;
      is_gone = refl;
      same_wheel = refl;
      same_jobs = refl;
    }
