-- ===== src/Expand/Tests.antt =====
-- An environment with two variables, on which expand.rs is run.
use rystemd.Prelude.{
  suc, length, some, ◌++◌, text_key, ◌≡◌, refl, Text, codes, Map, ◌∷◌, [], get, split_once, text_eq,
}
use rystemd.Expand.Variables.{expand_env_token-braced}
use rystemd.Expand.{value_or_empty, expand_env_token, expand_loop}

abbrev env : Map Text Text
env = (codes "FOO", codes "x") ∷ (codes "A_B", codes "2") ∷ []

expand_env_token-env : expand_env_token (codes "pre$FOO/${A_B}$MISSING.$!") env ≡ codes "prex/2.$!"
unfolding expand_env_token split_once get text_eq
expand_env_token-env = refl

expand_env_token-braced_example :
    ((tok : Text) → (out : Text) × (expand_loop env (suc (length tok)) tok ≡ some out))
    × (expand_env_token
          (codes "pre" ++ b'$' ∷ b'{' ∷ (b'F' ∷ codes "OO" ++ b'}' ∷ codes "/$A_B"))
          env
        ≡ codes "pre"
          ++ (value_or_empty (get (b'F' ∷ codes "OO") env) ++ expand_env_token (codes "/$A_B") env))
expand_env_token-braced_example =
    expand_env_token-braced env (codes "pre") b'F' (codes "OO") (codes "/$A_B") refl refl
