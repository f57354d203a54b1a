-- ===== src/Expand/Variables.antt =====
-- The expansion of expand.rs ends, and expands each reference.
use rystemd.Prelude.{
  ℕ, zero, suc, ◌≤◌, ◌<◌, ◌≡◌, refl, sym, ap, ◌∙◌, true, false, inl, inr, Option, none, some, [],
  ◌∷◌, ◌++◌, ◌==◌, length, ◌⊎◌, arith, Bool-cases, Option-cases, Text, text_key, Map, get,
  split_once, split_once_append, contains_char,
}
use rystemd.Expand.{span_name, reference, value_or_empty, expand_loop, expand_env_token}

span_name-length : (s : Text) → length (span_name s).1 ≤ length s
unfolding span_name
span_name-length [] = omega arith
span_name-length (c ∷ s) = ground (arith, span_name-length s)

split_once-length : (c : ℕ) (s a b : Text) → split_once c s ≡ some (a, b) → length b ≤ length s
unfolding split_once
split_once-length c [] a b h = absurd cc
split_once-length c (d ∷ s) a b h = elim (Bool-cases (d == c)) [
  | inl e ↦ ground arith
  | inr e ↦ elim (Option-cases (split_once c s)) [
    | inl n ↦ absurd (ground arith)
    | inr ((x, y), q) ↦ let l = split_once-length c s x y q in ground arith
  ]
]

braced_length :
    (s b : Text) (o : Option (Text × Text))
    → length b ≤ length s
    → split_once b'}' b ≡ o
    → length (elim o as (λ _. Text × Text) [ some (n, r) ↦ (n, r) | none ↦ ([], []) ]).1 ≤ length s
braced_length s b none h e = omega arith
braced_length s b (some (n, r)) h e = let l = split_once-length b'}' b n r e in omega arith

reference-length : (s : Text) → length (reference s).1 ≤ length s
unfolding reference
reference-length [] = omega arith
reference-length (c ∷ s) = elim (Bool-cases (c == b'{')) [
  | inl e ↦ rw (e, reference) (braced_length (c ∷ s) s (split_once b'}' s) (omega arith) refl)
  | inr e ↦ rw (e, reference) (span_name-length (c ∷ s))
]

module _ (env : Map Text Text) where
  list_cases : (s : Text) → (s ≡ []) ⊎ ((d : ℕ) × (t : Text) × (s ≡ d ∷ t))
  list_cases [] = inl refl
  list_cases (d ∷ t) = inr (d, t, refl)

  expand_loop_plain :
      (fuel c : ℕ) (s : Text)
      → (c == b'$') ≡ false
      → expand_loop env (suc fuel) (c ∷ s)
        ≡ (elim (expand_loop env fuel s) [ none ↦ none | some out ↦ some (c ∷ out) ])
  unfolding expand_loop
  expand_loop_plain fuel c s e = rw (e, expand_loop) refl

  expand_loop_stop :
      (fuel c : ℕ) (s : Text)
      → (c == b'$') ≡ true
      → (reference s).0 ≡ []
      → expand_loop env (suc fuel) (c ∷ s) ≡ some (b'$' ∷ s)
  unfolding expand_loop
  expand_loop_stop fuel c s e q = rw (e, expand_loop, q) refl

  expand_loop_name :
      (fuel c d : ℕ) (s t : Text)
      → (c == b'$') ≡ true
      → (reference s).0 ≡ d ∷ t
      → expand_loop env (suc fuel) (c ∷ s) ≡ (elim (expand_loop env fuel (reference s).1) [
        | none ↦ none
        | some out ↦ some (value_or_empty (get (d ∷ t) env) ++ out)
      ])
  unfolding expand_loop
  expand_loop_name fuel c d s t e q = rw (e, expand_loop, q) refl

  -- With fuel beyond the length the loop ends, and the fuel does not matter.
  expand_loop_total :
      (f g : ℕ) (tok : Text)
      → length tok < f
      → length tok < g
      → (out : Text) × (expand_loop env f tok ≡ some out) × (expand_loop env g tok ≡ some out)
  unfolding expand_loop
  expand_loop_total zero g tok h k = absurd (omega arith)
  expand_loop_total (suc f) zero tok h k = absurd (omega arith)
  expand_loop_total (suc f) (suc g) [] h k = ([], refl, refl)
  expand_loop_total (suc f) (suc g) (c ∷ s) h k = elim (Bool-cases (c == b'$')) [
    | inr e ↦
        let (out, a, b) = expand_loop_total f g s (omega (arith, h)) (omega (arith, k)) in
        (c ∷ out, expand_loop_plain f c s e ∙ rw a refl, expand_loop_plain g c s e ∙ rw b refl)
    | inl e ↦ elim (list_cases (reference s).0) [
      | inl q ↦ (b'$' ∷ s, expand_loop_stop f c s e q, expand_loop_stop g c s e q)
      | inr (d, t, q) ↦
          let l = reference-length s in
          let (out, a, b) =
            expand_loop_total f g (reference s).1 (omega (arith, h, l)) (omega (arith, k, l)) in
          (
            value_or_empty (get (d ∷ t) env) ++ out,
            expand_loop_name f c d s t e q ∙ rw a refl,
            expand_loop_name g c d s t e q ∙ rw b refl,
          )
    ]
  ]

  -- Any fuel beyond the length gives the token's expansion.
  expand_env_token_at :
      (f : ℕ) (tok : Text)
      → length tok < f
      → expand_loop env f tok ≡ some (expand_env_token tok env)
  unfolding expand_env_token
  expand_env_token_at f tok h =
      let (out, a, b) = expand_loop_total f (suc (length tok)) tok h (omega arith) in
      a ∙ ap (λ o. some (value_or_empty o)) (sym b)

  some_inj : (a b : Text) → Option.some a ≡ some b → a ≡ b
  some_inj a b e = cc

  expand_env_token_plain :
      (c : ℕ) (s : Text)
      → (c == b'$') ≡ false
      → expand_env_token (c ∷ s) env ≡ c ∷ expand_env_token s env
  expand_env_token_plain c s e = some_inj _ _ (
      sym (expand_env_token_at (suc (suc (length s))) (c ∷ s) (omega arith))
      ∙ expand_loop_plain (suc (length s)) c s e
      ∙ rw (expand_env_token_at (suc (length s)) s (omega arith)) refl)

  reference-braced :
      (name rest : Text)
      → contains_char b'}' name ≡ false
      → reference (b'{' ∷ (name ++ b'}' ∷ rest)) ≡ (name, rest)
  unfolding reference
  reference-braced name rest h = rw (split_once_append b'}' name rest h, reference) refl

  expand_env_token_braced :
      (d : ℕ) (name rest : Text)
      → contains_char b'}' (d ∷ name) ≡ false
      → expand_env_token (b'$' ∷ b'{' ∷ (d ∷ name ++ b'}' ∷ rest)) env
        ≡ value_or_empty (get (d ∷ name) env) ++ expand_env_token rest env
  expand_env_token_braced d name rest h =
      let behind = b'{' ∷ (d ∷ name ++ b'}' ∷ rest) in
      let fuel = suc (length behind) in
      let q = reference-braced (d ∷ name) rest h in
      let l = reference-length behind in
      some_inj _ _ (
        sym (expand_env_token_at (suc fuel) (b'$' ∷ behind) (omega arith))
        ∙ expand_loop_name fuel b'$' d behind name refl (ap (λ r. r.0) q)
        ∙ rw (expand_env_token_at fuel (reference behind).1 (omega (arith, l)))
            (ap (λ r. some (value_or_empty (get (d ∷ name) env) ++ expand_env_token r.1 env)) q))

-- For every environment: the loop ends on every token within its fuel; and where a reference in braces
-- to a name follows a literal without a dollar sign, the literal comes out as it is, the reference as
-- the value of the name or as nothing where it is unset, and the rest of the token is expanded in turn.
pub expand_env_token-braced :
    (env : Map Text Text) (literal : Text) (d : ℕ) (name rest : Text)
    → contains_char b'$' literal ≡ false
    → contains_char b'}' (d ∷ name) ≡ false
    → ((tok : Text) → (out : Text) × (expand_loop env (suc (length tok)) tok ≡ some out))
      × (expand_env_token (literal ++ b'$' ∷ b'{' ∷ (d ∷ name ++ b'}' ∷ rest)) env
          ≡ literal ++ (value_or_empty (get (d ∷ name) env) ++ expand_env_token rest env))
expand_env_token-braced env literal d name rest h k =
    (λ tok. (_, expand_env_token_at env (suc (length tok)) tok (omega arith)), go literal h)
  where
    go :
        (l : Text)
        → contains_char b'$' l ≡ false
        → expand_env_token (l ++ b'$' ∷ b'{' ∷ (d ∷ name ++ b'}' ∷ rest)) env
          ≡ l ++ (value_or_empty (get (d ∷ name) env) ++ expand_env_token rest env)
    go [] h = expand_env_token_braced env d name rest k
    go (c ∷ l) h =
        expand_env_token_plain env c (l ++ b'$' ∷ b'{' ∷ (d ∷ name ++ b'}' ∷ rest)) (ground arith)
        ∙ ap (λ t. c ∷ t) (go l (ground arith))
