-- ===== src/Manager/Action/Keeps.antt =====
-- Invariants of actions, one rule for each way to build an action. An action that does not return
-- leaves no state behind, so nothing is asked of it.
use rystemd.Prelude.{
  Bool, true, false, Option, none, some, List, [], ◌∷◌, if◌then◌else◌, Result, ok, err,
}
use rystemd.Manager.Action.{
  Outcome, done, panicked, ids_used_up, out_of_fuel, Action, pure, gets, change, panic, no_more_ids,
  no_more_fuel, unwrap, continue, ◌>>=◌, modify, when, for_each, if_some, on_option, on_result,
  until_some, fold_each, try_each,
}

abbrev pub Returned {ℓ κ} : {S A : Type ℓ} → (S → Type κ) → Outcome S A → Type κ
Returned P (done a s) = P s
Returned P panicked = Unit
Returned P ids_used_up = Unit
Returned P out_of_fuel = Unit

-- Where `m` returns, it keeps `P`.
pub record Keeps {ℓ κ} {S A : Type ℓ} (P : S → Type κ) (m : Action S A) : Type (ℓ ⊔ κ) where
  pub at : (s : S) → P s → Returned P (m s)

module _ {ℓ κ} {S A : Type ℓ} {P : S → Type κ} where
  pub Keeps-pure : (a : A) → Keeps P (pure a)
  unfolding pure
  Keeps-pure a = record { at = λ s h. h }

  pub Keeps-gets : (f : S → A) → Keeps P (gets f)
  unfolding gets
  Keeps-gets f = record { at = λ s h. h }

  pub Keeps-change : (f : S → A × S) → ((s : S) → P s → P (f s).1) → Keeps P (change f)
  unfolding change
  Keeps-change f k = record { at = k }

  pub Keeps-panic : Keeps P (panic {A = A})
  unfolding panic
  Keeps-panic = record { at = λ s h. tt }

  pub Keeps-no_more_ids : Keeps P (no_more_ids {A = A})
  unfolding no_more_ids
  Keeps-no_more_ids = record { at = λ s h. tt }

  pub Keeps-no_more_fuel : Keeps P (no_more_fuel {A = A})
  unfolding no_more_fuel
  Keeps-no_more_fuel = record { at = λ s h. tt }

  pub Keeps-unwrap : (o : Option A) → Keeps P (unwrap o)
  unfolding unwrap
  Keeps-unwrap none = record { at = λ s h. tt }
  Keeps-unwrap (some a) = record { at = λ s h. h }

  pub Keeps-if :
      (b : Bool) (m n : Action S A) → Keeps P m → Keeps P n → Keeps P (if b then m else n)
  Keeps-if true m n km kn = km
  Keeps-if false m n km kn = kn

module _ {ℓ κ} {S A B : Type ℓ} {P : S → Type κ} where
  continue-Returned :
      (f : A → Action S B) (o : Outcome S A)
      → ((a : A) → Keeps P (f a))
      → Returned P o
      → Returned P (continue f o)
  unfolding continue
  continue-Returned f (done a s) kf h = (kf a).at s h
  continue-Returned f panicked kf h = tt
  continue-Returned f ids_used_up kf h = tt
  continue-Returned f out_of_fuel kf h = tt

  pub Keeps-bind :
      (m : Action S A) (f : A → Action S B)
      → Keeps P m
      → ((a : A) → Keeps P (f a))
      → Keeps P (m >>= f)
  unfolding ◌>>=◌
  Keeps-bind m f km kf = record { at = λ s h. continue-Returned f (m s) kf (km.at s h) }

module _ {κ} {S : Type 0} {P : S → Type κ} where
  pub Keeps-modify : (f : S → S) → ((s : S) → P s → P (f s)) → Keeps P (modify f)
  unfolding modify
  Keeps-modify f k = record { at = k }

  pub Keeps-when : (b : Bool) (m : Action S Unit) → Keeps P m → Keeps P (when b m)
  unfolding when
  Keeps-when b m k = Keeps-if b m (pure tt) k (Keeps-pure tt)

module _ {κ} {S A : Type 0} {P : S → Type κ} where
  pub Keeps-for_each :
      (f : A → Action S Unit) (xs : List A) → ((a : A) → Keeps P (f a)) → Keeps P (for_each f xs)
  unfolding for_each
  Keeps-for_each f [] k = Keeps-pure tt
  Keeps-for_each f (x ∷ xs) k =
      Keeps-bind (f x) (λ _. for_each f xs) (k x) λ _. Keeps-for_each f xs k

  pub Keeps-if_some :
      (o : Option A) (f : A → Action S Unit) → ((a : A) → Keeps P (f a)) → Keeps P (if_some o f)
  unfolding if_some
  Keeps-if_some none f k = Keeps-pure tt
  Keeps-if_some (some a) f k = k a

module _ {κ} {S A B : Type 0} {P : S → Type κ} where
  pub Keeps-on_option :
      (o : Option A) (m : Action S B) (f : A → Action S B)
      → Keeps P m
      → ((a : A) → Keeps P (f a))
      → Keeps P (on_option o m f)
  unfolding on_option
  Keeps-on_option none m f km kf = km
  Keeps-on_option (some a) m f km kf = kf a

module _ {κ} {S A B E : Type 0} {P : S → Type κ} where
  pub Keeps-on_result :
      (r : Result A E) (m : E → Action S B) (f : A → Action S B)
      → ((e : E) → Keeps P (m e))
      → ((a : A) → Keeps P (f a))
      → Keeps P (on_result r m f)
  unfolding on_result
  Keeps-on_result (err e) m f km kf = km e
  Keeps-on_result (ok a) m f km kf = kf a

module _ {κ} {S A B : Type 0} {P : S → Type κ} where
  pub Keeps-until_some :
      (f : A → Action S (Option B)) (xs : List A)
      → ((a : A) → Keeps P (f a))
      → Keeps P (until_some f xs)
  unfolding until_some
  Keeps-until_some f [] k = Keeps-pure none
  Keeps-until_some f (x ∷ xs) k =
      Keeps-bind (f x) (λ found. on_option found (until_some f xs) λ b. pure (some b)) (k x)
        λ found.
          Keeps-on_option found (until_some f xs) (λ b. pure (some b)) (Keeps-until_some f xs k)
            λ b. Keeps-pure (some b)

  pub Keeps-fold_each :
      (f : B → A → Action S B) (b : B) (xs : List A)
      → ((c : B) (a : A) → Keeps P (f c a))
      → Keeps P (fold_each f b xs)
  unfolding fold_each
  Keeps-fold_each f b [] k = Keeps-pure b
  Keeps-fold_each f b (x ∷ xs) k =
      Keeps-bind (f b x) (λ c. fold_each f c xs) (k b x) λ c. Keeps-fold_each f c xs k

module _ {κ} {S A B E : Type 0} {P : S → Type κ} where
  pub Keeps-try_each :
      (f : B → A → Action S (Result B E)) (b : B) (xs : List A)
      → ((c : B) (a : A) → Keeps P (f c a))
      → Keeps P (try_each f b xs)
  unfolding try_each
  Keeps-try_each f b [] k = Keeps-pure (ok b)
  Keeps-try_each f b (x ∷ xs) k =
      Keeps-bind (f b x) (λ r. on_result r (λ e. pure (err e)) λ c. try_each f c xs) (k b x)
        λ r.
          Keeps-on_result r (λ e. pure (err e)) (λ c. try_each f c xs) (λ e. Keeps-pure (err e))
            λ c. Keeps-try_each f c xs k

pub ruleset keeps_rules = (
  Keeps-pure, Keeps-gets, Keeps-panic, Keeps-no_more_ids, Keeps-no_more_fuel, Keeps-unwrap,
  Keeps-if, Keeps-bind, Keeps-when, Keeps-for_each, Keeps-if_some, Keeps-on_option, Keeps-on_result,
  Keeps-until_some, Keeps-fold_each, Keeps-try_each,
)
