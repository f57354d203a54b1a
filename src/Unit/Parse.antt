-- ===== src/Unit/Parse.antt =====
-- rystemd/src/unit/parse.rs: the syntax of unit files. A text is a list of code points, so that an
-- index counts them and not bytes.
pub mod Same
use rystemd.Prelude.{
  ℕ, zero, suc, Bool, true, false, not, ◌&&◌, ◌||◌, Option, none, some, List, [], ◌∷◌, ◌++◌, ◌==◌,
  ◌+◌, ◌-◌, all, map, if◌then◌else◌, Text, codes, is_empty, is_alnum, trim, trim_start,
  strip_suffix, text_eq, length, drop, or_else, lines, Result, ok, err,
}
use rystemd.Repo.Document.{UnitDocument, UnitSection, UnitEntry, quoted}

pub record ParseError : Type 0 where
  pub line : ℕ
  pub msg : Text

pub record RawSection : Type 0 where
  pub name : Text
  pub entries : List (Text × Text)

pub record RawUnitFile : Type 0 where
  pub sections : List RawSection

abbrev pub raw_section : UnitSection → RawSection
raw_section s = record { name = s.name; entries = map (λ e. (e.key, e.value)) s.entries }

unfoldable pub from_repository_document : UnitDocument → RawUnitFile
from_repository_document d = record { sections = map raw_section d.sections }

-- `entries`, for all the sections of a name.
abbrev entries_of : Text → List RawSection → List (Text × Text)
entries_of section [] = []
entries_of section (s ∷ ss) =
    let rest = entries_of section ss in if text_eq s.name section then s.entries ++ rest else rest

unfoldable pub entries : Text → RawUnitFile → List (Text × Text)
entries section f = entries_of section f.sections

abbrev values_of : Text → List (Text × Text) → List Text
values_of key [] = []
values_of key ((k, v) ∷ es) =
    let rest = values_of key es in if text_eq k key then v ∷ rest else rest

unfoldable pub list : Text → Text → RawUnitFile → List Text
unfolding entries
list section key f = values_of key (entries section f)

abbrev last_of : List Text → Option Text
last_of [] = none
last_of (v ∷ vs) = elim (last_of vs) [ none ↦ some v | some w ↦ some w ]

unfoldable pub scalar : Text → Text → RawUnitFile → Option Text
unfolding entries
scalar section key f = last_of (values_of key (entries section f))

unfoldable pub valid_key : Text → Bool
valid_key key =
    not (is_empty key) && all (λ c. is_alnum c || c == b'_' || c == b'-' || c == b'.') key

-- `str::find` of a character, and the slices of a text.
abbrev pub find : ℕ → Text → Option ℕ
find c [] = none
find c (d ∷ s) = if d == c then some 0 else elim (find c s) [ none ↦ none | some i ↦ some (suc i) ]

abbrev pub take : ℕ → Text → Text
take zero s = []
take (suc n) [] = []
take (suc n) (c ∷ s) = c ∷ take n s

-- The parser's variables.
pub record RawParser : Type 0 where
  pub file : RawUnitFile
  pub current : Option ℕ

abbrev pub push_raw : ℕ → Text × Text → List RawSection → List RawSection
push_raw i e [] = []
push_raw zero e (s ∷ ss) = record s { entries = s.entries ++ e ∷ [] } ∷ ss
push_raw (suc i) e (s ∷ ss) = s ∷ push_raw i e ss

unfoldable pub raw_header : ℕ → Text → RawParser → Result RawParser ParseError
raw_header line trimmed p = elim (find b']' trimmed) [
  | none ↦ err (record { line = line; msg = codes "section header missing closing ']'" })
  | some close ↦
      let name = trim (drop 1 (take close trimmed)) in
      if not (is_empty (trim (drop (close + 1) trimmed)))
      then err (record {
        line = line;
        msg = codes "trailing garbage after section header `[" ++ name ++ codes "]`";
      })
      else if is_empty name
      then err (record { line = line; msg = codes "empty section name" })
      else ok (record {
        file = record { sections = p.file.sections ++ record { name = name; entries = [] } ∷ [] };
        current = some (length p.file.sections);
      })
]

-- A line with a key and a value.
unfoldable pub raw_pair : ℕ → Text → Text → RawParser → Result RawParser ParseError
unfolding valid_key
raw_pair line key value p =
    if not (valid_key key)
    then err (record { line = line; msg = quoted (codes "invalid key ") key [] })
    else elim p.current [
      | some sec ↦
          ok (record p { file = record { sections = push_raw sec (key, value) p.file.sections } })
      | none ↦ err (record {
        line = line;
        msg = b'`' ∷ key ++ codes "=` appears before any [Section] header";
      })
    ]

unfoldable pub raw_entry : ℕ → Text → RawParser → Result RawParser ParseError
unfolding raw_pair
raw_entry line trimmed p = elim (find b'=' trimmed) [
  | none ↦ err (record { line = line; msg = quoted (codes "invalid line ") trimmed [] })
  | some eq ↦ raw_pair line (trim (take eq trimmed)) (trim_start (drop (eq + 1) trimmed)) p
]

-- The body of the loop over the lines, behind the trimming.
unfoldable pub raw_trimmed : ℕ → Text → RawParser → Result RawParser ParseError
unfolding raw_header raw_entry
raw_trimmed line [] p = ok p
raw_trimmed line (first ∷ rest) p =
    if first == b'#' || first == b';'
    then ok p
    else if first == b'['
    then raw_header line (first ∷ rest) p
    else raw_entry line (first ∷ rest) p

unfoldable pub raw_line : ℕ → Text → RawParser → Result RawParser ParseError
unfolding raw_trimmed
raw_line line raw p = raw_trimmed line (trim (or_else (strip_suffix 13 raw) raw)) p

unfoldable pub raw_lines : ℕ → List Text → RawParser → Result RawParser ParseError
unfolding raw_line
raw_lines idx [] p = ok p
raw_lines idx (raw ∷ rest) p = elim (raw_line (suc idx) raw p) [
  | ok q ↦ raw_lines (suc idx) rest q
  | err e ↦ err e
]

abbrev pub of_raw_parser : Result RawParser ParseError → Result RawUnitFile ParseError
of_raw_parser (ok p) = ok p.file
of_raw_parser (err e) = err e

unfoldable pub parse : Text → Result RawUnitFile ParseError
unfolding raw_lines
parse text =
    of_raw_parser
      (raw_lines 0 (lines text) (record { file = record { sections = [] }; current = none }))
