-- ===== src/Manager/Engine/Endings/Policy.antt =====
-- Which exits are clean and which call for a restart, as unit files configure it, beside the tests of
-- manager/mod.rs.
use rystemd.Prelude.{
  ℕ, ◌≤◌, ◌≡◌, ◌↔◌, ◌⊎◌, refl, inl, inr, true, ◌&&◌, ◌==◌, leb, any, Option, none, some, List, [],
  ◌∷◌, Has, arith, Bool-cases,
}
use mathlib.Core.Bool.{false≢true}
use rystemd.Unit.Config.{
  ServiceConfig, RestartPolicy, never, on_success, on_failure, on_abnormal, on_abort, on_watchdog,
  always,
}
use rystemd.Unit.Exit.{added_codes, added_signals, effective_exit_success_lem}
use rystemd.Manager.Engine.Exits.{exit_ok, should_restart}

-- The code is in one of the ranges.
abbrev pub InRange : ℕ → List (ℕ × ℕ) → Type 0
InRange c [] = ⊥
InRange c (r ∷ rs) = ((r.0 ≤ c) × (c ≤ r.1)) ⊎ InRange c rs

-- An exit with code 0, or with a code or a signal that `SuccessExitStatus=` lists.
abbrev pub IsClean : ServiceConfig → ℕ → Option ℕ → Type 0
IsClean sc code none = (code ≡ 0) ⊎ InRange code (added_codes sc.success_exit_status)
IsClean sc code (some sig) = Has sig (added_signals sc.success_exit_status)

abbrev pub IsSignal : Option ℕ → Type 0
IsSignal signal = (sig : ℕ) × (signal ≡ some sig)

-- The exits after which `Restart=` restarts.
abbrev pub Restarts : RestartPolicy → Type 0 → Option ℕ → Type 0
Restarts never Clean signal = ⊥
Restarts always Clean signal = Unit
Restarts on_success Clean signal = Clean
Restarts on_failure Clean signal = ¬ Clean
Restarts on_abnormal Clean signal = IsSignal signal
Restarts on_abort Clean signal = IsSignal signal
Restarts on_watchdog Clean signal = ⊥

InRange-any :
    (c : ℕ) (rs : List (ℕ × ℕ)) → (any (λ r. leb r.0 c && leb c r.1) rs ≡ true) ↔ InRange c rs
InRange-any c [] = (λ h. absurd (false≢true h), λ h. absurd h)
InRange-any c (r ∷ rs) = ground (arith, InRange-any c rs)

Has-signals : (sig : ℕ) (ss : List ℕ) → (any (λ t. t == sig) ss ≡ true) ↔ Has sig ss
Has-signals sig [] = (λ h. absurd (false≢true h), λ h. absurd h)
Has-signals sig (s ∷ ss) = ground (arith, Has-signals sig ss)

pub exit_ok_iff :
    (sc : ServiceConfig) (code : ℕ) (signal : Option ℕ)
    → (exit_ok (some sc) code signal ≡ true) ↔ IsClean sc code signal
unfolding exit_ok
exit_ok_iff sc code none =
    let e = (effective_exit_success_lem sc code 0).0 in
    let r = InRange-any code (added_codes sc.success_exit_status) in ground (arith, e, r)
exit_ok_iff sc code (some sig) =
    let e = (effective_exit_success_lem sc code sig).1 in
    let r = Has-signals sig (added_signals sc.success_exit_status) in ground (arith, e, r)

pub should_restart_iff :
    (policy : RestartPolicy) (sc : ServiceConfig) (code : ℕ) (signal : Option ℕ)
    → (should_restart policy (exit_ok (some sc) code signal) signal ≡ true)
      ↔ Restarts policy (IsClean sc code signal) signal
unfolding should_restart
should_restart_iff never sc code signal = (λ h. absurd (false≢true h), λ h. absurd h)
should_restart_iff always sc code signal = (λ h. tt, λ h. refl)
should_restart_iff on_success sc code signal = exit_ok_iff sc code signal
should_restart_iff on_failure sc code signal =
    let r = exit_ok_iff sc code signal in
    (
      λ h. λ c. absurd (ground (arith, h, r.1 c)),
      λ n. elim (Bool-cases (exit_ok (some sc) code signal)) [
        | inl t ↦ absurd (n (r.0 t))
        | inr f ↦ rw f refl
      ],
    )
should_restart_iff on_abnormal sc code none =
    (λ h. absurd (false≢true h), λ h. absurd (ground (arith, h.1)))
should_restart_iff on_abnormal sc code (some sig) = (λ h. (sig, refl), λ h. refl)
should_restart_iff on_abort sc code none =
    (λ h. absurd (false≢true h), λ h. absurd (ground (arith, h.1)))
should_restart_iff on_abort sc code (some sig) = (λ h. (sig, refl), λ h. refl)
should_restart_iff on_watchdog sc code signal = (λ h. absurd (false≢true h), λ h. absurd h)
