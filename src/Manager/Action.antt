-- ===== src/Manager/Action.antt =====
-- The control flow of manager/mod.rs: a method on `&mut self` is a function from a state to an
-- outcome. Beside the return there are a panic (`unwrap`, an index with a missing key, a subtraction
-- of instants), the end of the job ids, and the end of the fuel that bounds the depth of the calls.
pub mod Keeps
use rystemd.Prelude.{
  Bool, true, false, Option, none, some, List, [], ◌∷◌, if◌then◌else◌, Result, ok, err,
}

pub data Outcome {ℓ} (S A : Type ℓ) : Type ℓ where
  done : A → S → Outcome S A
  panicked : Outcome S A
  ids_used_up : Outcome S A
  out_of_fuel : Outcome S A

abbrev pub Action {ℓ} : Type ℓ → Type ℓ → Type ℓ
Action S A = S → Outcome S A

module _ {ℓ} {S A : Type ℓ} where
  unfoldable pub pure : A → Action S A
  pure a s = done a s

  unfoldable pub gets : (S → A) → Action S A
  gets f s = done (f s) s

  -- A write of the state that also returns a value.
  unfoldable pub change : (S → A × S) → Action S A
  change f s = let (a, s') = f s in done a s'

  unfoldable pub panic : Action S A
  panic s = panicked

  unfoldable pub no_more_ids : Action S A
  no_more_ids s = ids_used_up

  unfoldable pub no_more_fuel : Action S A
  no_more_fuel s = out_of_fuel

  -- `unwrap`, or the value at an index.
  unfoldable pub unwrap : Option A → Action S A
  unwrap (some a) s = done a s
  unwrap none s = panicked

module _ {ℓ} {S A B : Type ℓ} where
  unfoldable pub continue : (A → Action S B) → Outcome S A → Outcome S B
  continue f (done a s) = f a s
  continue f panicked = panicked
  continue f ids_used_up = ids_used_up
  continue f out_of_fuel = out_of_fuel

  infixl 10 ◌>>=◌ ◌>>◌
  unfoldable pub ◌>>=◌ : Action S A → (A → Action S B) → Action S B
  unfolding continue
  ◌>>=◌ m f s = continue f (m s)

  abbrev pub ◌>>◌ : Action S A → Action S B → Action S B
  m >> n = m >>= λ _. n

module _ {S : Type 0} where
  -- A write.
  unfoldable pub modify : (S → S) → Action S Unit
  modify f s = done tt (f s)

  unfoldable pub when : Bool → Action S Unit → Action S Unit
  unfolding pure
  when b m = if b then m else pure tt

module _ {S A : Type 0} where
  unfoldable pub for_each : (A → Action S Unit) → List A → Action S Unit
  unfolding pure ◌>>=◌
  for_each f [] = pure tt
  for_each f (x ∷ xs) = f x >> for_each f xs

  -- `if let Some(a) = o { … }`
  unfoldable pub if_some : Option A → (A → Action S Unit) → Action S Unit
  unfolding pure
  if_some none f = pure tt
  if_some (some a) f = f a

module _ {S A B : Type 0} where
  -- A `match` on an option.
  unfoldable pub on_option : Option A → Action S B → (A → Action S B) → Action S B
  on_option none m f = m
  on_option (some a) m f = f a

module _ {S A B E : Type 0} where
  -- A `match` on a result.
  unfoldable pub on_result : Result A E → (E → Action S B) → (A → Action S B) → Action S B
  on_result (err e) m f = m e
  on_result (ok a) m f = f a

module _ {S A B : Type 0} where
  -- A loop that returns at the first value that its body gives.
  unfoldable pub until_some : (A → Action S (Option B)) → List A → Action S (Option B)
  unfolding pure ◌>>=◌ on_option
  until_some f [] = pure none
  until_some f (x ∷ xs) = f x >>= λ found. on_option found (until_some f xs) λ b. pure (some b)

module _ {S A B : Type 0} where
  -- A loop over a variable.
  unfoldable pub fold_each : (B → A → Action S B) → B → List A → Action S B
  unfolding pure ◌>>=◌
  fold_each f b [] = pure b
  fold_each f b (x ∷ xs) = f b x >>= λ c. fold_each f c xs

module _ {S A B E : Type 0} where
  -- The same, which an error ends.
  unfoldable pub try_each : (B → A → Action S (Result B E)) → B → List A → Action S (Result B E)
  unfolding pure ◌>>=◌ on_result
  try_each f b [] = pure (ok b)
  try_each f b (x ∷ xs) = f b x >>= λ r. on_result r (λ e. pure (err e)) λ c. try_each f c xs
