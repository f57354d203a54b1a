-- ===== src/Log.antt =====
-- rystemd/src/log.rs: the bounded ring of a unit's output lines. The lines are texts.
pub mod Ring
pub mod Tests
use rystemd.Prelude.{
  split_inclusive, ℕ, ◌-◌, Bool, true, false, Option, none, some, List, [], ◌∷◌, ◌++◌, leb, ◌==◌,
  if◌then◌else◌, length, drop, Text,
}

pub record LogRing : Type 0 where
  pub max_lines : ℕ
  pub lines : List Text

unfoldable pub new_ring : ℕ → LogRing
new_ring max_lines = record { max_lines = max_lines; lines = [] }

abbrev pub pop_front : List Text → List Text
pop_front [] = []
pop_front (_ ∷ ls) = ls

unfoldable pub push : Text → LogRing → LogRing
push line r = if r.max_lines == 0 then r else record r {
  lines = (if leb r.max_lines (length r.lines) then pop_front r.lines else r.lines) ++ line ∷ [];
}

-- `trim_end_matches('\n')`
unfoldable pub trim_newlines : Text → Text
trim_newlines [] = []
trim_newlines (c ∷ s) = elim (trim_newlines s) [
  | [] ↦ if c == 10 then [] else c ∷ []
  | d ∷ t ↦ c ∷ d ∷ t
]

unfoldable pub push_all : List Text → LogRing → LogRing
unfolding push trim_newlines
push_all [] r = r
push_all (l ∷ ls) r = push_all ls (push (trim_newlines l) r)

unfoldable pub push_chunk : Text → LogRing → LogRing
unfolding push_all split_inclusive
push_chunk chunk r = push_all (split_inclusive chunk) r

unfoldable pub snapshot : LogRing → List Text
snapshot r = r.lines
