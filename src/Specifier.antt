-- ===== src/Specifier.antt =====
-- rystemd/src/specifier.rs: the `%` specifiers of unit files.
pub mod Literals
pub mod Tests
use rystemd.Prelude.{
  ℕ, Bool, true, false, Option, none, some, List, [], ◌∷◌, ◌++◌, ◌==◌, ◌||◌, if◌then◌else◌, Text,
  split_once,
}

pub record SpecifierContext : Type 0 where
  pub unit_name : Text
  pub runtime_dir : Text
  pub user_name : Text
  pub uid : Text
  pub home : Text
  pub hostname : Text
  pub machine_id : Text

-- The slice up to the first `c`, or the whole.
abbrev before : ℕ → Text → Text
before c s = elim (split_once c s) [ none ↦ s | some (a, _) ↦ a ]

unfoldable pub prefix : SpecifierContext → Text
prefix ctx = elim (split_once b'@' ctx.unit_name) [
  | some (a, _) ↦ a
  | none ↦ before b'.' ctx.unit_name
]

unfoldable pub instance_name : SpecifierContext → Text
instance_name ctx = elim (split_once b'@' ctx.unit_name) [
  | none ↦ []
  | some (_, rest) ↦ elim (split_once b'.' rest) [ none ↦ [] | some (a, _) ↦ a ]
]

-- What the character behind a `%` pushes.
unfoldable pub specifier_text : SpecifierContext → ℕ → Text
unfolding prefix instance_name
specifier_text ctx spec =
    if spec == b'%'
    then b'%' ∷ []
    else if spec == b'n' || spec == b'N'
    then ctx.unit_name
    else if spec == b'p' || spec == b'P'
    then prefix ctx
    else if spec == b'i' || spec == b'I'
    then instance_name ctx
    else if spec == b't'
    then ctx.runtime_dir
    else if spec == b'u'
    then ctx.user_name
    else if spec == b'U'
    then ctx.uid
    else if spec == b'h'
    then ctx.home
    else if spec == b'H'
    then ctx.hostname
    else if spec == b'm'
    then ctx.machine_id
    else b'%' ∷ spec ∷ []

unfoldable pub expand : SpecifierContext → Text → Text
unfolding specifier_text
expand ctx [] = []
expand ctx (c ∷ []) = elim (c == b'%') [ true ↦ b'%' ∷ [] | false ↦ c ∷ [] ]
expand ctx (c ∷ spec ∷ s) = elim (c == b'%') [
  | true ↦ specifier_text ctx spec ++ expand ctx s
  | false ↦ c ∷ expand ctx (spec ∷ s)
]
