-- ===== src/Manager/Engine/Endings.antt =====
-- rystemd/src/manager/mod.rs: what the end of a main process does to its unit.
pub mod Policy
pub mod Active
pub mod Main
use rystemd.Prelude.{
  ℕ, ◌+◌, ◌*◌, ◌%◌, ◌^◌, ◌≤◌, ◌<◌, ◌≡◌, ◌≢◌, ◌↔◌, ◌⊎◌, inl, inr, refl, sym, ◌∙◌, true, false,
  Bool-cases, Option, none, some, [], ◌∷◌, ◌++◌, Text, text_key, nat_key, get, adjust,
  get-adjust_same, arith, Has, length, if◌then◌else◌, get-insert,
}
use rystemd.Manager.Engine.Endings.Policy.{IsClean, Restarts, exit_ok_iff, should_restart_iff}
use rystemd.Manager.Engine.Limit.{recent, start_window_cases}
use rystemd.Unit.Config.{ServiceConfig}
use rystemd.Manager.State.{
  ManagedUnit, ActiveState, SubState, UnitResult, success, set_active, service_cfg,
}
use rystemd.Manager.Timer.{restart_delay, schedule, pop_due}
use rystemd.Manager.Action.{done, change, modify, gets, unwrap, pure, continue, ◌>>=◌, ◌>>◌}
use rystemd.Manager.Engine.{
  Manager, Outside, M, ask, find_unit, the_unit, update_unit, enter, entered,
}
use rystemd.Manager.Engine.Timers.{as_duration, change_wheel, schedule_in, timer_dep_check}
use rystemd.Manager.Engine.Calls.{Call}
use rystemd.Manager.Engine.Queue.{start_window_at, check_start_limit}
use rystemd.Manager.Engine.Exits.{
  exit_ok, main_exit, exit_in_state, without_main, should_restart, restart_later, restart_delay_of,
  handle_active_exit,
}

module _ (outside : Outside) (rec : Call → M Unit) (name : Text) (code : ℕ)
    (signal : Option ℕ) where
  pub updated :
      (f : ManagedUnit → ManagedUnit) (u : ManagedUnit) (m : Manager)
      → get name m.units ≡ some u
      → update_unit name f m ≡ done tt (record m { units = adjust name f m.units })
  unfolding update_unit the_unit find_unit modify gets unwrap ◌>>=◌ continue
  updated f u m h = ground (arith, h)

  abbrev pub exited : Manager → Manager
  exited m = record m { units = adjust name (without_main code signal) m.units }

  -- The unit with the start counted in the window of the start limit.
  abbrev pub windowed : ℕ → ManagedUnit → ManagedUnit
  windowed now u = record u { start_window = (start_window_at now u.start_window).1 }

  abbrev pub counted : ManagedUnit → ManagedUnit
  counted u = record u { n_restarts = (u.n_restarts + 1) % 2 ^ 64 }

  pub check_start_limit_step :
      (u : ManagedUnit) (m : Manager)
      → get name m.units ≡ some u
      → check_start_limit outside rec name m
        ≡ done (start_window_at (outside.now m.asked) u.start_window).0 (record m {
          asked = m.asked + 1;
          units = adjust name (windowed (outside.now m.asked)) m.units;
        })
  unfolding check_start_limit ask change update_unit the_unit find_unit modify gets unwrap pure
      ◌>>=◌ continue
  check_start_limit_step u m h = ground (arith, h)

  pub enter_step :
      (state : ActiveState) (sub : SubState) (result : UnitResult) (u : ManagedUnit) (m : Manager)
      → get name m.units ≡ some u
      → enter name outside.system_now state sub result m
        ≡ done tt (
            entered name
              (outside.system_now m.asked)
              state
              sub
              result
              u
              (record m { asked = m.asked + 1 }))
  unfolding enter ask change the_unit find_unit modify gets unwrap ◌>>=◌ continue
  enter_step state sub result u m h = ground (arith, h)

  pub main_exit_step :
      (u : ManagedUnit) (m : Manager)
      → get name m.units ≡ some u
      → main_exit outside rec name code signal m
        ≡ exit_in_state outside rec u.active name
            (exit_ok (service_cfg u) code signal)
            code
            signal
            (exited m)
  unfolding main_exit the_unit find_unit gets unwrap service_cfg ◌>>=◌ continue
  main_exit_step u m h = ground (
    arith,
    updated (without_main code signal) u m h,
    get-adjust_same name (without_main code signal) m.units u h,
  )

  module _ (sc : Option ServiceConfig) (u : ManagedUnit) (m : Manager) where
    abbrev pub in_window : Manager
    in_window = record m {
      asked = m.asked + 1;
      units = adjust name (windowed (outside.now m.asked)) m.units;
    }

    abbrev pub waiting_unit : ManagedUnit
    waiting_unit =
        (set_active (outside.system_now (m.asked + 1)) m.next_invocation ActiveState.activating
          SubState.auto_restart success (windowed (outside.now m.asked) u)).0

    abbrev waiting : Manager
    waiting =
        entered name (outside.system_now (m.asked + 1)) ActiveState.activating SubState.auto_restart
          success (windowed (outside.now m.asked) u) (record in_window { asked = m.asked + 1 + 1 })

    abbrev counting : Manager
    counting = record waiting { units = adjust name counted waiting.units }

    abbrev pub restarting : Manager
    restarting = record counting {
      asked = m.asked + 1 + 1 + 1;
      wheel =
          (schedule (outside.now (m.asked + 1 + 1) + restart_delay_of sc) restart_delay name
            m.wheel).1;
    }

    pub waiting-get : get name m.units ≡ some u → get name waiting.units ≡ some waiting_unit
    waiting-get h =
        get-adjust_same name
          (λ v.
            (set_active (outside.system_now (m.asked + 1)) m.next_invocation ActiveState.activating
              SubState.auto_restart success v).0)
          in_window.units _ (get-adjust_same name (windowed (outside.now m.asked)) m.units u h)

    pub restarting-get :
        get name m.units ≡ some u → get name restarting.units ≡ some (counted waiting_unit)
    restarting-get h = get-adjust_same name counted waiting.units _ (waiting-get h)

    pub restart_later_step :
        get name m.units ≡ some u
        → (start_window_at (outside.now m.asked) u.start_window).0 ≡ false
        → restart_later outside rec name sc m ≡ done tt restarting
    unfolding restart_later schedule_in change_wheel ask change modify update_unit the_unit
        find_unit gets unwrap ◌>>=◌ continue
    restart_later_step h l = ground (
      arith,
      h,
      l,
      check_start_limit_step u m h,
      enter_step ActiveState.activating SubState.auto_restart success
          (windowed (outside.now m.asked) u) in_window
          (get-adjust_same name (windowed (outside.now m.asked)) m.units u h),
      waiting-get h,
    )

  -- The unit changed and entered into a state, as in the branches that do not restart it.
  module _ (f : ManagedUnit → ManagedUnit) (state : ActiveState) (sub : SubState)
      (result : UnitResult) (u : ManagedUnit) (m : Manager) (h : get name m.units ≡ some u) where
    abbrev pub marked : Manager
    marked =
        entered name (outside.system_now m.asked) state sub result (f u)
          (record m { units = adjust name f m.units; asked = m.asked + 1 })

    pub marked-get :
        get name marked.units
        ≡ some (set_active (outside.system_now m.asked) m.next_invocation state sub result (f u)).0
    marked-get =
        get-adjust_same name
          (λ v. (set_active (outside.system_now m.asked) m.next_invocation state sub result v).0)
          (adjust name f m.units) _ (get-adjust_same name f m.units u h)

    pub marked_step :
        (next : M Unit)
        → (update_unit name f >>= λ _. enter name outside.system_now state sub result >>= λ _. next)
            m
          ≡ next marked
    unfolding ◌>>=◌ continue
    marked_step next = ground (
      arith,
      updated f u m h,
      enter_step state sub result (f u) (record m { units = adjust name f m.units })
          (get-adjust_same name f m.units u h),
    )

  abbrev pub with_result : UnitResult → ManagedUnit → ManagedUnit
  with_result r u = record u { result = r }

  -- The state `m'` in which a service waits for its restart; it was `u` in the state `m`. It is popped
  -- from the wheel at the times from its delay after the exit on, and at no other.
  pub record IsWaiting (sc : ServiceConfig) (u : ManagedUnit) (m m' : Manager) : Type 0 where
    pub unit : ManagedUnit
    pub found : get name m'.units ≡ some unit
    pub is_activating : unit.active ≡ ActiveState.activating
    pub waits : unit.sub ≡ SubState.auto_restart
    pub is_gone : unit.main_pid ≡ none
    pub is_counted : unit.n_restarts ≡ (u.n_restarts + 1) % 2 ^ 64
    pub window :
        unit.start_window ≡ recent (outside.now m.asked) u.start_window ++ outside.now m.asked ∷ []
    pub id : ℕ
    pub is_fresh : get id m.wheel.entries ≡ none
    pub fires :
        (t : ℕ)
        → Has
            (record {
              when = outside.now (m.asked + 1 + 1) + sc.restart_sec * 1000;
              id = id;
              kind = restart_delay;
              unit = name;
            })
            (pop_due t m'.wheel).0
          ↔ (outside.now (m.asked + 1 + 1) + sc.restart_sec * 1000 ≤ t)
    pub others : (j : ℕ) → j ≢ id → get j m'.wheel.entries ≡ get j m.wheel.entries
    pub same_jobs : m'.table ≡ m.table

  -- The state in which a service is left, with no process, no timer and no job changed.
  pub record IsLeft (state : ActiveState) (m m' : Manager) : Type 0 where
    pub unit : ManagedUnit
    pub found : get name m'.units ≡ some unit
    pub is_in : unit.active ≡ state
    pub is_gone : unit.main_pid ≡ none
    pub same_wheel : m'.wheel ≡ m.wheel
    pub same_jobs : m'.table ≡ m.table

  pub exited-get :
      (u : ManagedUnit) (m : Manager)
      → get name m.units ≡ some u
      → get name (exited m).units ≡ some (without_main code signal u)
  exited-get u m h = get-adjust_same name (without_main code signal) m.units u h

  module _ (sc : ServiceConfig) (u : ManagedUnit) (m : Manager) where
    -- `main_exit` goes on as `next` does in the state.
    abbrev pub GoesOn : M Unit → Manager → Type 0
    GoesOn next m' = main_exit outside rec name code signal m ≡ next m'

    abbrev pub Clean : Type 0
    Clean = IsClean sc code signal

    abbrev pub ToRestart : Type 0
    ToRestart = Restarts sc.restart Clean signal

    abbrev pub starts : ℕ
    starts = length (recent (outside.now m.asked) u.start_window)

    -- The four ends of a main process of an active service.
    abbrev pub Ends : Type 0
    Ends =
        (ToRestart × (starts < 5) × ((m' : Manager) × GoesOn (pure tt) m' × IsWaiting sc u m m'))
        ⊎ (ToRestart
            × (5 ≤ starts)
            × ((m' : Manager) × GoesOn (rec (Call.poke_failed name)) m'
                × IsLeft ActiveState.failed m m'))
        ⊎ ((¬ ToRestart)
            × Clean
            × ((m' : Manager) × GoesOn
                  (rec (Call.complete_start_job name) >> timer_dep_check outside) m'
                × IsLeft (if sc.remain_after_exit then ActiveState.active else ActiveState.inactive)
                    m m'))
        ⊎ ((¬ ToRestart)
            × (¬ Clean)
            × ((m' : Manager) × GoesOn
                  (rec (Call.poke_failed name) >> rec (Call.fire_on_failure name)) m'
                × IsLeft ActiveState.failed m m'))
