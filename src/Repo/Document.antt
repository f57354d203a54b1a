-- ===== src/Repo/Document.antt =====
-- rystemd/src/repo/domain.rs: unit documents, their parser and their printer; and the error type of
-- rystemd/src/repo/error.rs, where an I/O error is its message.
pub mod Lines
pub mod Entries
pub mod RoundTrip
pub mod Tests
use rystemd.Prelude.{
  ℕ, suc, Bool, true, false, not, ◌&&◌, ◌||◌, Option, none, some, List, [], ◌∷◌, ◌++◌, ◌==◌, all,
  if◌then◌else◌, Text, codes, is_empty, is_alnum, split_once, trim, trim_start, strip_prefix,
  strip_suffix, starts_with_char, or_else, lines, Result, ok, err, length,
}

pub data RepoError : Type 0 where
  io : Text → RepoError
  invalid_name : Text → RepoError
  parse : ℕ → Text → RepoError
  already_exists : Text → RepoError
  not_found : Text → RepoError

pub record UnitEntry : Type 0 where
  pub key : Text
  pub value : Text

pub record UnitSection : Type 0 where
  pub name : Text
  pub entries : List UnitEntry

pub record UnitDocument : Type 0 where
  pub sections : List UnitSection

-- The parser's variables.
pub record Parser : Type 0 where
  pub document : UnitDocument
  pub current : Option ℕ

abbrev pub is_key_char : ℕ → Bool
is_key_char c = is_alnum c || c == b'_' || c == b'-' || c == b'.'

-- `sections[index].entries.push(entry)`
abbrev pub push_entry : ℕ → UnitEntry → List UnitSection → List UnitSection
push_entry i e [] = []
push_entry ℕ.zero e (s ∷ ss) = record s { entries = s.entries ++ e ∷ [] } ∷ ss
push_entry (suc i) e (s ∷ ss) = s ∷ push_entry i e ss

-- `format!` around one argument, in backquotes.
abbrev pub quoted : Text → Text → Text → Text
quoted before s behind = before ++ b'`' ∷ s ++ b'`' ∷ behind

-- A line that begins with `[`; `rest` is what follows the bracket.
unfoldable pub parse_header : ℕ → Text → Text → Parser → Result Parser RepoError
parse_header line trimmed rest p = elim (split_once b']' rest) [
  | none ↦ err (parse line (codes "section header missing closing `]`"))
  | some (inside, trailing) ↦
      let name = trim inside in
      if is_empty name || not (is_empty (trim trailing))
      then err (parse line (quoted (codes "invalid section header ") trimmed []))
      else ok (record {
        document = record {
          sections = p.document.sections ++ record { name = name; entries = [] } ∷ [];
        };
        current = some (length p.document.sections);
      })
]

-- A line with a key and a value.
unfoldable pub parse_pair : ℕ → Text → Text → Parser → Result Parser RepoError
parse_pair line key value p =
    if is_empty key || not (all is_key_char key)
    then err (parse line (quoted (codes "invalid key ") key []))
    else elim p.current [
      | none ↦ err (parse line (b'`' ∷ key ++ codes "=` appears before any [Section] header"))
      | some section ↦ ok (record p {
        document = record {
          sections = push_entry section (record { key = key; value = value }) p.document.sections;
        };
      })
    ]

unfoldable pub parse_entry : ℕ → Text → Parser → Result Parser RepoError
unfolding parse_pair
parse_entry line trimmed p = elim (split_once b'=' trimmed) [
  | none ↦ err (parse line (quoted (codes "invalid line ") trimmed []))
  | some (key, value) ↦ parse_pair line (trim key) (trim_start value) p
]

-- The body of the loop over the lines, behind the trimming.
unfoldable pub parse_trimmed : ℕ → Text → Parser → Result Parser RepoError
unfolding parse_header parse_entry
parse_trimmed line trimmed p =
    if is_empty trimmed || starts_with_char b'#' trimmed || starts_with_char b';' trimmed
    then ok p
    else elim (strip_prefix b'[' trimmed) [
      | some rest ↦ parse_header line trimmed rest p
      | none ↦ parse_entry line trimmed p
    ]

unfoldable pub parse_line : ℕ → Text → Parser → Result Parser RepoError
unfolding parse_trimmed
parse_line line raw p = parse_trimmed line (trim (or_else (strip_suffix 13 raw) raw)) p

unfoldable pub parse_lines : ℕ → List Text → Parser → Result Parser RepoError
unfolding parse_line
parse_lines index [] p = ok p
parse_lines index (raw ∷ rest) p = elim (parse_line (suc index) raw p) [
  | ok q ↦ parse_lines (suc index) rest q
  | err e ↦ err e
]

abbrev pub of_parser : Result Parser RepoError → Result UnitDocument RepoError
of_parser (ok p) = ok p.document
of_parser (err e) = err e

unfoldable pub parse_document : Text → Result UnitDocument RepoError
unfolding parse_lines
parse_document text =
    of_parser
      (parse_lines 0 (lines text) (record { document = record { sections = [] }; current = none }))

unfoldable pub entries_text : List UnitEntry → Text
entries_text [] = []
entries_text (e ∷ es) = e.key ++ b'=' ∷ e.value ++ 10 ∷ entries_text es

unfoldable pub section_text : UnitSection → Text
unfolding entries_text
section_text s = b'[' ∷ s.name ++ b']' ∷ 10 ∷ entries_text s.entries

-- The sections behind the first.
unfoldable pub more_text : List UnitSection → Text
unfolding section_text
more_text [] = []
more_text (s ∷ ss) = 10 ∷ section_text s ++ more_text ss

unfoldable pub to_text : UnitDocument → Text
unfolding section_text more_text
to_text d = elim d.sections [ [] ↦ [] | s ∷ ss ↦ section_text s ++ more_text ss ]
