-- ===== src/Expand.antt =====
-- rystemd/src/expand.rs: environment variables in arguments. A token is a list of code points, so that
-- the loop takes a character where the source takes its bytes; what is left of the token stands for
-- the index, and the environment is a map.
pub mod Variables
pub mod Tests
use rystemd.Prelude.{
  ℕ, zero, suc, Bool, true, false, not, ◌||◌, Option, none, some, List, [], ◌∷◌, ◌++◌, ◌==◌, length,
  map, if◌then◌else◌, Text, text_key, Map, get, is_alnum, split_once, strip_prefix,
}

-- The longest front of characters of names, and what is behind it.
unfoldable pub span_name : Text → Text × Text
span_name [] = ([], [])
span_name (c ∷ s) =
    let rest = span_name s in if is_alnum c || c == b'_' then (c ∷ rest.0, rest.1) else ([], c ∷ s)

-- The name behind a dollar sign, and what is behind its reference.
unfoldable pub reference : Text → Text × Text
unfolding span_name
reference rest = elim (strip_prefix b'{' rest) [
  | some braced ↦ elim (split_once b'}' braced) [
    | some (name, behind) ↦ (name, behind)
    | none ↦ ([], [])
  ]
  | none ↦ span_name rest
]

abbrev pub value_or_empty : Option Text → Text
value_or_empty none = []
value_or_empty (some v) = v

-- The loop, on fuel; nothing where the fuel runs out.
unfoldable pub expand_loop : Map Text Text → ℕ → Text → Option Text
unfolding reference
expand_loop env zero tok = none
expand_loop env (suc fuel) [] = some []
expand_loop env (suc fuel) (c ∷ rest) = elim (c == b'$') [
  | false ↦ elim (expand_loop env fuel rest) [ none ↦ none | some out ↦ some (c ∷ out) ]
  | true ↦ elim (reference rest).0 [
    | [] ↦ some (b'$' ∷ rest)
    | d ∷ name ↦ elim (expand_loop env fuel (reference rest).1) [
      | none ↦ none
      | some out ↦ some (value_or_empty (get (d ∷ name) env) ++ out)
    ]
  ]
]

unfoldable pub expand_env_token : Text → Map Text Text → Text
unfolding expand_loop
expand_env_token tok env = value_or_empty (expand_loop env (suc (length tok)) tok)

unfoldable pub expand_env_argv : List Text → Map Text Text → List Text
unfolding expand_env_token
expand_env_argv argv env = map (λ t. expand_env_token t env) argv
