-- ===== src/Repo/Document/Entries.antt =====
-- How the lines that the printer of domain.rs writes are parsed.
use rystemd.Prelude.{
  any-append, split_once_append, ℕ, suc, ◌≡◌, refl, ap, ◌∙◌, true, false, ◌||◌, some, List, [], ◌∷◌,
  ◌++◌, ◌==◌, all, All, arith, Text, contains_char, is_empty, split_once, trim, trim_start,
  trim_end, or_else, lines, ok, length,
}
use mathlib.Core.List.{append_assoc, append-nil}
use rystemd.Repo.Document.{
  UnitSection, UnitEntry, Parser, is_key_char, push_entry, parse_header, parse_pair, parse_entry,
  parse_trimmed, parse_line, parse_lines, entries_text,
}
use rystemd.Repo.Document.Lines.{
  IsTrimmed, lines-append, trim_end_append, trim_end_cons, all-IsTrimmed, all-contains_char,
  trim_end-strip_suffix, is_key_char-is_whitespace,
}

-- The entries and sections that the text form can hold.
pub record IsEntry (e : UnitEntry) : Type 0 where
  pub has_key : is_empty e.key ≡ false
  pub key_chars : all is_key_char e.key ≡ true
  pub value_trimmed : IsTrimmed e.value
  pub value_line : contains_char 10 e.value ≡ false

pub record IsSection (s : UnitSection) : Type 0 where
  pub has_name : is_empty s.name ≡ false
  pub name_trimmed : IsTrimmed s.name
  pub name_plain : contains_char b']' s.name ≡ false
  pub name_line : contains_char 10 s.name ≡ false
  pub all_entries : All IsEntry s.entries

trim_of_IsTrimmed : (s : Text) → IsTrimmed s → trim s ≡ s
unfolding trim
trim_of_IsTrimmed s v = rw v.back v.front

parse_line_at :
    (n : ℕ) (l : Text) (p : Parser) → IsTrimmed l → parse_line n l p ≡ parse_trimmed n l p
unfolding parse_line
parse_line_at n l p v =
    ap (λ o. parse_trimmed n (trim (or_else o l)) p) (trim_end-strip_suffix l v.back)
    ∙ ap (λ t. parse_trimmed n t p) (trim_of_IsTrimmed l v)

parse_lines_cons :
    (n : ℕ) (l : Text) (ls : List Text) (p q : Parser)
    → parse_line (suc n) l p ≡ ok q
    → parse_lines n (l ∷ ls) p ≡ parse_lines (suc n) ls q
unfolding parse_lines
parse_lines_cons n l ls p q e = rw (e, parse_lines) refl

-- A trimmed line reaches the parser as it is.
pub parse_lines-line :
    (n : ℕ) (l rest : Text) (p q : Parser)
    → contains_char 10 l ≡ false
    → IsTrimmed l
    → ((k : ℕ) → parse_trimmed k l p ≡ ok q)
    → parse_lines n (lines (l ++ 10 ∷ rest)) p ≡ parse_lines (suc n) (lines rest) q
parse_lines-line n l rest p q h v e =
    ap (λ ls. parse_lines n ls p) (lines-append l rest h v.back)
    ∙ parse_lines_cons n l (lines rest) p q (parse_line_at (suc n) l p v ∙ e (suc n))

entry_line : UnitEntry → Text
entry_line e = e.key ++ b'=' ∷ e.value

-- The parser in the section `s`, behind `ss`.
abbrev pub at_section : List UnitSection → UnitSection → Parser
at_section ss s = record {
  document = record { sections = ss ++ s ∷ [] };
  current = some (length ss);
}

push_entry_last :
    (ss : List UnitSection) (s : UnitSection) (e : UnitEntry)
    → push_entry (length ss) e (ss ++ s ∷ [])
      ≡ ss ++ record s { entries = s.entries ++ e ∷ [] } ∷ []
push_entry_last [] s e = refl
push_entry_last (x ∷ ss) s e = ap (λ l. x ∷ l) (push_entry_last ss s e)

parse_pair_last :
    (k : ℕ) (ss : List UnitSection) (s : UnitSection) (e : UnitEntry)
    → IsEntry e
    → parse_pair k e.key e.value (at_section ss s)
      ≡ ok (at_section ss (record s { entries = s.entries ++ e ∷ [] }))
unfolding parse_pair
parse_pair_last k ss s e v = rw (v.has_key, v.key_chars, push_entry_last ss s e) refl

entry_line-contains : (e : UnitEntry) → IsEntry e → contains_char 10 (entry_line e) ≡ false
unfolding entry_line
entry_line-contains e v =
    let k = all-contains_char 10 e.key refl v.key_chars in
    rw (any-append (λ d. d == 10) e.key (b'=' ∷ e.value), k) v.value_line

trim_start_key :
    (k t : Text) → is_empty k ≡ false → all is_key_char k ≡ true → trim_start (k ++ t) ≡ k ++ t
unfolding trim_start
trim_start_key [] t n h = absurd (ground arith)
trim_start_key (c ∷ k) t n h = rw (is_key_char-is_whitespace c (ground arith)) refl

entry_line-IsTrimmed : (e : UnitEntry) → IsEntry e → IsTrimmed (entry_line e)
unfolding entry_line
entry_line-IsTrimmed e v = record {
  front = trim_start_key e.key (b'=' ∷ e.value) v.has_key v.key_chars;
  back = trim_end_append e.key e.value b'=' (trim_end_cons b'=' e.value refl v.value_trimmed.back);
}

is_key_char_plain : (c : ℕ) → is_key_char c ≡ true → (c == b'[' || c == b'#' || c == b';') ≡ false
is_key_char_plain c h = ground arith

-- A line that begins with a character of keys is taken for an entry.
parse_trimmed_key :
    (n : ℕ) (k t : Text) (p : Parser)
    → is_empty k ≡ false
    → all is_key_char k ≡ true
    → parse_trimmed n (k ++ t) p ≡ parse_entry n (k ++ t) p
unfolding parse_trimmed
parse_trimmed_key n [] t p e h = absurd (ground arith)
parse_trimmed_key n (c ∷ k) t p e h =
    let plain = is_key_char_plain c (ground arith) in
    let x : (c == b'[') ≡ false = ground arith in
    let y : (c == b'#') ≡ false = ground arith in
    let z : (c == b';') ≡ false = ground arith in rw (x, y, z) refl

parse_entry_at :
    (n : ℕ) (t a b : Text) (p : Parser)
    → split_once b'=' t ≡ some (a, b)
    → parse_entry n t p ≡ parse_pair n (trim a) (trim_start b) p
unfolding parse_entry
parse_entry_at n t a b p e = rw (e, parse_entry) refl

parse_entry_line :
    (k : ℕ) (ss : List UnitSection) (s : UnitSection) (e : UnitEntry)
    → IsEntry e
    → parse_trimmed k (entry_line e) (at_section ss s)
      ≡ ok (at_section ss (record s { entries = s.entries ++ e ∷ [] }))
unfolding entry_line
parse_entry_line k ss s e v =
    let cut =
      split_once_append b'=' e.key e.value (all-contains_char b'=' e.key refl v.key_chars) in
    parse_trimmed_key k e.key (b'=' ∷ e.value) (at_section ss s) v.has_key v.key_chars
    ∙ parse_entry_at k (e.key ++ b'=' ∷ e.value) e.key e.value (at_section ss s) cut
    ∙ rw (trim_of_IsTrimmed e.key (all-IsTrimmed e.key v.key_chars), v.value_trimmed.front)
        (parse_pair_last k ss s e v)

pub parse_header_line :
    (k : ℕ) (s : UnitSection) (p : Parser)
    → IsSection s
    → parse_trimmed k (b'[' ∷ s.name ++ b']' ∷ []) p
      ≡ ok (at_section p.document.sections (record { name = s.name; entries = [] }))
unfolding parse_trimmed parse_header trim trim_start trim_end
parse_header_line k s p v =
    rw
      (
        split_once_append b']' s.name [] v.name_plain,
        parse_header,
        v.name_trimmed.back,
        v.name_trimmed.front,
        v.has_name,
      )
      refl

unfoldable pub header_line : UnitSection → Text
header_line s = b'[' ∷ s.name ++ b']' ∷ []

pub header_line-IsTrimmed : (s : UnitSection) → IsTrimmed (header_line s)
unfolding header_line trim_start trim_end
header_line-IsTrimmed s = record {
  front = refl;
  back = trim_end_append (b'[' ∷ s.name) [] b']' refl;
}

pub header_line-contains :
    (s : UnitSection) → IsSection s → contains_char 10 (header_line s) ≡ false
unfolding header_line
header_line-contains s v = rw (any-append (λ d. d == 10) s.name (b']' ∷ []), v.name_line) refl

entries_text_cons :
    (e : UnitEntry) (es : List UnitEntry) (rest : Text)
    → entries_text (e ∷ es) ++ rest ≡ entry_line e ++ 10 ∷ (entries_text es ++ rest)
unfolding entries_text entry_line
entries_text_cons e es rest = simp append_assoc

-- The entries of a section, in front of any text.
pub parse_lines-entries :
    (n : ℕ) (es : List UnitEntry) (rest : Text) (ss : List UnitSection) (s : UnitSection)
    → All IsEntry es
    → (m : ℕ) × (parse_lines n (lines (entries_text es ++ rest)) (at_section ss s)
        ≡ parse_lines m (lines rest) (at_section ss (record s { entries = s.entries ++ es })))
unfolding entries_text
parse_lines-entries n [] rest ss s v = (n, rw append-nil refl)
parse_lines-entries n (e ∷ es) rest ss s v =
    let (m, ih) =
      parse_lines-entries (suc n) es rest ss (record s { entries = s.entries ++ e ∷ [] }) v.1 in
    let first =
      parse_lines-line n (entry_line e) (entries_text es ++ rest) (at_section ss s) _
        (entry_line-contains e v.0) (entry_line-IsTrimmed e v.0)
        (λ k. parse_entry_line k ss s e v.0) in
    (
      m,
      ap (λ t. parse_lines n (lines t) (at_section ss s)) (entries_text_cons e es rest)
          ∙ first
          ∙ ih
          ∙ ap (λ l. parse_lines m (lines rest) (at_section ss (record s { entries = l })))
              (append_assoc s.entries (e ∷ []) es),
    )
