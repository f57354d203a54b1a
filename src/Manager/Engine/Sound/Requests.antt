-- ===== src/Manager/Engine/Sound/Requests.antt =====
-- rystemd/src/manager/mod.rs: starting, stopping and restarting a unit, and the shutdown, keep what
-- Follows says, where the calls that they make do and a unit that is loaded has sound stamps.
use rystemd.Prelude.{
  ℕ, ◌+◌, zero, suc, ◌≡◌, refl, subst, Option, none, some, Text, Result, ok, err, inl, inr, insert,
  text_key, text_eq, get-insert, get-insert_cases, Bool-cases, arith,
}
use rystemd.Manager.State.{ManagedUnit}
use rystemd.Manager.State.Active.{IsStamped}
use rystemd.Manager.Action.Keeps.{Keeps, Keeps-modify, Keeps-change}
use rystemd.Manager.Jobs.{JobMode, Job}
use rystemd.Manager.Engine.{Manager, Outside, M}
use rystemd.Manager.Engine.Calls.{Call}
use rystemd.Manager.Engine.Requests.{
  current_job, loaded, load, ensure_unit_loaded, start_stopping, start_inactive, start_with_mode,
  start_ignore_dependencies, stop_now, stop_with_mode, stop_then_start, restart_operational,
  restart, begin_shutdown, shutdown,
}
use rystemd.Manager.Engine.Follows.{Follows, rest-Follows, follows_rules}
use rystemd.Manager.Engine.Sound.Expand.{enqueue_start_job_mode-Follows}
use rystemd.Manager.Engine.Sound.Queue.{cancel_job-Follows, enqueue_stop_job_after_mode-Follows}

-- Every unit that is read from the repository has stamps that agree with its state.
pub record LoadsStamped (outside : Outside) : Type 0 where
  pub loaded :
      (n : ℕ) (name : Text) (u : ManagedUnit) → outside.load_unit n name ≡ ok (some u) → IsStamped u

module _ (s : Manager) where
  pub current_job-Follows : (name : Text) → Keeps (Follows s) (current_job name)
  unfolding current_job
  current_job-Follows name = search follows_rules depth 20

module _ (s : Manager) (outside : Outside) where
  put_unit-Follows :
      (m : Manager) (name : Text) (u : ManagedUnit) (n : ℕ)
      → IsStamped u
      → Follows s m
      → Follows s (record m { units = insert name u m.units; asked = n })
  put_unit-Follows m name u n st v = record {
    table = v.table;
    stamped = λ a k w h. elim (get-insert_cases name k u w m.units h) [
      | inl (_, e) ↦ subst IsStamped e st
      | inr (_, g) ↦ v.stamped a k w g
    ];
    known = λ k w h.
        let (w', g) = v.known k w h in
        elim (Bool-cases (text_eq name k)) [
          | inl e ↦ (u, ground (arith, get-insert name k u m.units))
          | inr e ↦ (w', ground (arith, get-insert name k u m.units))
        ];
    down = v.down;
  }

  loaded-Follows :
      (m : Manager) (name : Text) (answer : Result (Option ManagedUnit) Text)
      → ((u : ManagedUnit) → answer ≡ ok (some u) → IsStamped u)
      → Follows s m
      → Follows s (loaded outside name answer (record m { asked = m.asked + 1 })).1
  loaded-Follows m name (err e) st v = rest-Follows s m _ v refl refl refl
  loaded-Follows m name (ok none) st v = rest-Follows s m _ v refl refl refl
  loaded-Follows m name (ok (some u)) st v = put_unit-Follows m name u _ (st u refl) v

  load-Follows : LoadsStamped outside → (name : Text) → Keeps (Follows s) (load outside name)
  unfolding load
  load-Follows l name = Keeps-change _ λ m v.
      loaded-Follows m name (outside.load_unit m.asked name) (λ u e. l.loaded m.asked name u e) v

module _ (s : Manager) (outside : Outside) (rec : Call → M Unit)
    (rec_keeps : (c : Call) → Keeps (Follows s) (rec c)) (loads : LoadsStamped outside) where
  ensure_unit_loaded-Follows : (name : Text) → Keeps (Follows s) (ensure_unit_loaded outside name)
  unfolding ensure_unit_loaded
  ensure_unit_loaded-Follows name = search (follows_rules, load-Follows s outside loads) depth 20

  start_stopping-Follows :
      (name : Text) (jid : ℕ) (job : Job)
      → Keeps (Follows s) (start_stopping outside rec name jid job)
  unfolding start_stopping
  start_stopping-Follows name jid job =
      search (follows_rules, cancel_job-Follows s outside rec rec_keeps) depth 20

  start_inactive-Follows :
      (name : Text) (mode : JobMode) → Keeps (Follows s) (start_inactive outside rec name mode)
  unfolding start_inactive
  start_inactive-Follows name mode =
      search
        (
          follows_rules,
          rec_keeps,
          current_job-Follows,
          start_stopping-Follows,
          enqueue_start_job_mode-Follows s outside rec rec_keeps,
        )
        depth 20

  pub start_with_mode-Follows :
      (name : Text) (mode : JobMode) → Keeps (Follows s) (start_with_mode outside rec name mode)
  unfolding start_with_mode
  start_with_mode-Follows name mode =
      search (follows_rules, ensure_unit_loaded-Follows, start_inactive-Follows) depth 30

  pub start_ignore_dependencies-Follows :
      (name : Text) → Keeps (Follows s) (start_ignore_dependencies outside rec name)
  unfolding start_ignore_dependencies
  start_ignore_dependencies-Follows name = search (follows_rules, rec_keeps) depth 30

  stop_now-Follows :
      (name : Text) (mode : JobMode) → Keeps (Follows s) (stop_now outside rec name mode)
  unfolding stop_now
  stop_now-Follows name mode =
      search (follows_rules, rec_keeps, enqueue_stop_job_after_mode-Follows s outside rec rec_keeps)
        depth 20

  pub stop_with_mode-Follows :
      (name : Text) (mode : JobMode) → Keeps (Follows s) (stop_with_mode outside rec name mode)
  unfolding stop_with_mode
  stop_with_mode-Follows name mode =
      search
        (
          follows_rules,
          current_job-Follows,
          stop_now-Follows,
          cancel_job-Follows s outside rec rec_keeps,
        )
        depth 30

  stop_then_start-Follows : (name : Text) → Keeps (Follows s) (stop_then_start outside rec name)
  unfolding stop_then_start
  stop_then_start-Follows name =
      search (follows_rules, rec_keeps, enqueue_stop_job_after_mode-Follows s outside rec rec_keeps)
        depth 20

  restart_operational-Follows :
      (name : Text) → Keeps (Follows s) (restart_operational outside rec name)
  unfolding restart_operational
  restart_operational-Follows name =
      search (follows_rules, current_job-Follows, stop_then_start-Follows) depth 20

  pub restart-Follows : (n : ℕ) (name : Text) → Keeps (Follows s) (restart outside rec n name)
  unfolding restart
  restart-Follows zero name = search follows_rules
  restart-Follows (suc n) name =
      search
        (follows_rules, start_with_mode-Follows, restart_operational-Follows, restart-Follows n)
        depth 30

  begin_shutdown-Follows : Keeps (Follows s) (begin_shutdown outside rec)
  unfolding begin_shutdown
  begin_shutdown-Follows =
      Keeps-modify _
        λ m v. record { table = v.table; stamped = v.stamped; known = v.known; down = λ h. refl }

  pub shutdown-Follows : Keeps (Follows s) (shutdown outside rec)
  unfolding shutdown
  shutdown-Follows =
      search (follows_rules, rec_keeps, begin_shutdown-Follows, stop_with_mode-Follows) depth 30
