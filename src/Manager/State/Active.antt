-- ===== src/Manager/State/Active.antt =====
-- What `set_active` of state.rs keeps true of a unit.
use rystemd.Prelude.{◌+◌, ◌%◌, ◌^◌, ℕ, ◌≡◌, ◌≢◌, ◌⊎◌, refl, Option, none, some, arith, Text}
use rystemd.Unit.Config.{UnitKind}
use rystemd.Manager.State.{
  ActiveState, inactive, activating, active, deactivating, SubState, UnitResult, success,
  ManagedUnit, new_unit, set_active,
}

-- The stamps of a unit agree with its state: an active or starting unit has an invocation and no
-- pending restart; an active one has the time at which it became active and none at which it left;
-- an inactive or failed one has the time at which it left, and so has one that was never active.
pub record IsStamped (u : ManagedUnit) : Type 0 where
  pub invoked : (u.active ≡ active) ⊎ (u.active ≡ activating) → (i : ℕ) × (u.invocation_id ≡ some i)
  pub not_restarting : (u.active ≡ active) ⊎ (u.active ≡ activating) → u.restart_at ≡ none
  pub entered : u.active ≡ active → (t : ℕ) × (u.active_enter ≡ some t) × (u.inactive_enter ≡ none)
  pub never_entered : u.active_enter ≡ none → (t : ℕ) × (u.inactive_enter ≡ some t)
  pub left :
      (u.active ≡ inactive) ⊎ (u.active ≡ ActiveState.failed)
      → (t : ℕ) × (u.inactive_enter ≡ some t)

pub new_unit-IsStamped :
    (now : ℕ) (name : Text) (kind : UnitKind) → IsStamped (new_unit now name kind)
unfolding new_unit
new_unit-IsStamped now name kind = record {
  invoked = λ e. absurd (ground arith);
  not_restarting = λ e. refl;
  entered = λ e. absurd (ground arith);
  never_entered = λ e. (now, refl);
  left = λ e. (now, refl);
}

module _ (now seq : ℕ) (sub : SubState) (result : UnitResult) (u : ManagedUnit)
    (v : IsStamped u) where
  -- The stamp of a unit that leaves.
  abbrev left_at : Option ℕ → Option ℕ
  left_at none = u.inactive_enter
  left_at (some _) = some now

  left_stamp :
      (o : Option ℕ)
      → u.active_enter ≡ o
      → (t : ℕ) × (elim u.active_enter as (λ _. Option ℕ) [
        | none ↦ u.inactive_enter
        | some _ ↦ some now
      ]
          ≡ some t)
  left_stamp none e = let (t, f) = v.never_entered e in (t, ground arith)
  left_stamp (some a) e = (now, ground arith)

  pub set_active-IsStamped : (s : ActiveState) → IsStamped (set_active now seq s sub result u).0
  unfolding set_active
  set_active-IsStamped activating = record {
    invoked = λ e. (seq, refl);
    not_restarting = λ e. refl;
    entered = λ e. absurd (ground arith);
    never_entered = v.never_entered;
    left = λ e. absurd (ground arith);
  }
  set_active-IsStamped active = record {
    invoked = λ e. (_, refl);
    not_restarting = λ e. refl;
    entered = λ e. (now, refl, refl);
    never_entered = λ e. absurd (ground arith);
    left = λ e. absurd (ground arith);
  }
  set_active-IsStamped inactive = record {
    invoked = λ e. absurd (ground arith);
    not_restarting = λ e. absurd (ground arith);
    entered = λ e. absurd (ground arith);
    never_entered = λ e. left_stamp u.active_enter refl;
    left = λ e. left_stamp u.active_enter refl;
  }
  set_active-IsStamped ActiveState.failed = record {
    invoked = λ e. absurd (ground arith);
    not_restarting = λ e. absurd (ground arith);
    entered = λ e. absurd (ground arith);
    never_entered = λ e. left_stamp u.active_enter refl;
    left = λ e. left_stamp u.active_enter refl;
  }
  set_active-IsStamped deactivating = record {
    invoked = λ e. absurd (ground arith);
    not_restarting = λ e. absurd (ground arith);
    entered = λ e. absurd (ground arith);
    never_entered = λ e. left_stamp u.active_enter refl;
    left = λ e. absurd (ground arith);
  }

-- For a unit whose stamps agree with its state, `set_active` gives it the new state and substate and
-- stamps that agree with them; a success leaves the recorded result and any other result replaces it;
-- and a start takes the next invocation id of the counter.
pub set_active_lem :
    (now seq : ℕ) (s : ActiveState) (sub : SubState) (result : UnitResult) (u : ManagedUnit)
    → IsStamped u
    → let (u', seq') = set_active now seq s sub result u in
      IsStamped u'
      × (u'.active ≡ s)
      × (u'.sub ≡ sub)
      × (result ≡ success → u'.result ≡ u.result)
      × (result ≢ success → u'.result ≡ result)
      × (s ≡ activating → (u'.invocation_id ≡ some seq) × (seq' ≡ (seq + 1) % 2 ^ 64))
unfolding set_active
set_active_lem now seq s sub result u v = (
  set_active-IsStamped now seq sub result u v s,
  ground arith,
  ground arith,
  λ e. ground arith,
  λ e. ground arith,
  λ e. ground arith,
)
