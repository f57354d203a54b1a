-- ===== src/Manager/Engine/Errors/Rules.antt =====
-- Rules, one for each way to build an action, for the states that errors of manager/mod.rs come with.
use rystemd.Prelude.{
  ◌≡◌, Bool, true, false, Option, none, some, Text, get, text_key, nat_key, Result, ok, err,
  if◌then◌else◌,
}
use rystemd.Manager.State.{ManagedUnit}
use rystemd.Manager.Action.{
  Outcome, done, panicked, ids_used_up, out_of_fuel, pure, continue, on_option, on_result, ◌>>=◌,
}
use rystemd.Manager.Action.Keeps.{
  Keeps, Returned, Keeps-pure, Keeps-gets, Keeps-bind, Keeps-on_option,
}
use rystemd.Manager.Engine.{
  Manager, M, has_unit, unit_active, unit_operational, find_unit_job, find_job,
}
use rystemd.Manager.Engine.Requests.{current_job}

-- No job, timer, process or unit of `m` is changed in `s`; a unit may have been loaded.
pub record IsSame (m s : Manager) : Type 0 where
  pub jobs : s.table ≡ m.table
  pub timers : s.wheel ≡ m.wheel
  pub processes : s.pid_unit ≡ m.pid_unit
  pub invocations : s.next_invocation ≡ m.next_invocation
  pub down : s.shutting_down ≡ m.shutting_down
  pub units : (n : Text) (u : ManagedUnit) → get n m.units ≡ some u → get n s.units ≡ some u

-- Where the action returns an error, the state is the same.
abbrev pub Refused : {A : Type 0} → Manager → Outcome Manager (Result A Text) → Type 0
Refused m (done (err e) s) = IsSame m s
Refused m (done (ok a) s) = Unit
Refused m panicked = Unit
Refused m ids_used_up = Unit
Refused m out_of_fuel = Unit

pub record Safe {A : Type 0} (m : Manager) (f : M (Result A Text)) : Type 0 where
  pub at : (s : Manager) → IsSame m s → Refused m (f s)

-- No error is returned.
abbrev pub NoError : {A : Type 0} → Outcome Manager (Result A Text) → Type 0
NoError (done (err e) s) = ⊥
NoError (done (ok a) s) = Unit
NoError panicked = Unit
NoError ids_used_up = Unit
NoError out_of_fuel = Unit

pub record Answers {A : Type 0} (f : M (Result A Text)) : Type 0 where
  pub at : (s : Manager) → NoError (f s)

module _ {A : Type 0} where
  pub Answers-ok : (a : A) → Answers (pure (ok a))
  unfolding pure
  Answers-ok a = record { at = λ s. tt }

  pub Answers-if :
      (b : Bool) (f g : M (Result A Text)) → Answers f → Answers g → Answers (if b then f else g)
  Answers-if true f g p q = p
  Answers-if false f g p q = q

module _ {A B : Type 0} where
  pub continue-NoError :
      (k : B → M (Result A Text)) (o : Outcome Manager B)
      → ((b : B) → Answers (k b))
      → NoError (continue k o)
  unfolding continue
  continue-NoError k (done b s) h = (h b).at s
  continue-NoError k panicked h = tt
  continue-NoError k ids_used_up h = tt
  continue-NoError k out_of_fuel h = tt

  pub Answers-bind :
      (f : M B) (k : B → M (Result A Text)) → ((b : B) → Answers (k b)) → Answers (f >>= k)
  unfolding ◌>>=◌
  Answers-bind f k h = record { at = λ s. continue-NoError k (f s) h }

pub Refused-NoError :
    {A : Type 0} (m : Manager) (o : Outcome Manager (Result A Text)) → NoError o → Refused m o
Refused-NoError m (done (err e) s) h = absurd h
Refused-NoError m (done (ok a) s) h = tt
Refused-NoError m panicked h = tt
Refused-NoError m ids_used_up h = tt
Refused-NoError m out_of_fuel h = tt

module _ {A : Type 0} {m : Manager} where
  pub Safe-Answers : (f : M (Result A Text)) → Answers f → Safe m f
  Safe-Answers f h = record { at = λ s v. Refused-NoError m (f s) (h.at s) }

  pub Safe-err : (e : Text) → Safe m (pure {A = Result A Text} (err e))
  unfolding pure
  Safe-err e = record { at = λ s v. v }

  pub Safe-if :
      (b : Bool) (f g : M (Result A Text)) → Safe m f → Safe m g → Safe m (if b then f else g)
  Safe-if true f g p q = p
  Safe-if false f g p q = q

module _ {A B : Type 0} {m : Manager} where
  pub continue-Refused :
      (k : B → M (Result A Text)) (o : Outcome Manager B)
      → ((b : B) → Safe m (k b))
      → Returned (IsSame m) o
      → Refused m (continue k o)
  unfolding continue
  continue-Refused k (done b s) h v = (h b).at s v
  continue-Refused k panicked h v = tt
  continue-Refused k ids_used_up h v = tt
  continue-Refused k out_of_fuel h v = tt

  pub Safe-bind :
      (f : M B) (k : B → M (Result A Text))
      → Keeps (IsSame m) f
      → ((b : B) → Safe m (k b))
      → Safe m (f >>= k)
  unfolding ◌>>=◌
  Safe-bind f k p q = record { at = λ s v. continue-Refused k (f s) q (p.at s v) }

  pub Safe-on_option :
      (o : Option B) (f : M (Result A Text)) (k : B → M (Result A Text))
      → Safe m f
      → ((b : B) → Safe m (k b))
      → Safe m (on_option o f k)
  unfolding on_option
  Safe-on_option none f k p q = p
  Safe-on_option (some b) f k p q = q b

  pub Safe-on_result :
      (r : Result B Text) (f : Text → M (Result A Text)) (k : B → M (Result A Text))
      → ((e : Text) → Safe m (f e))
      → ((b : B) → Safe m (k b))
      → Safe m (on_result r f k)
  unfolding on_result
  Safe-on_result (err e) f k p q = p e
  Safe-on_result (ok b) f k p q = q b

module _ (m : Manager) where
  pub has_unit-IsSame : (n : Text) → Keeps (IsSame m) (has_unit n)
  unfolding has_unit
  has_unit-IsSame n = Keeps-gets _

  pub unit_active-IsSame : (n : Text) → Keeps (IsSame m) (unit_active n)
  unfolding unit_active
  unit_active-IsSame n = Keeps-gets _

  pub unit_operational-IsSame : (n : Text) → Keeps (IsSame m) (unit_operational n)
  unfolding unit_operational
  unit_operational-IsSame n = Keeps-gets _

  pub current_job-IsSame : (n : Text) → Keeps (IsSame m) (current_job n)
  unfolding current_job find_unit_job find_job
  current_job-IsSame n = search (Keeps-gets, Keeps-pure, Keeps-bind, Keeps-on_option) depth 20

pub ruleset error_rules = (
  Safe-err, Safe-if, Safe-bind, Safe-on_option, Safe-on_result, Safe-Answers, Answers-ok,
  Answers-if, Answers-bind, Keeps-gets, Keeps-pure, has_unit-IsSame, unit_active-IsSame,
  unit_operational-IsSame, current_job-IsSame,
)
