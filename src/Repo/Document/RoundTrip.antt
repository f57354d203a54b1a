-- ===== src/Repo/Document/RoundTrip.antt =====
-- What the printer of domain.rs writes, its parser reads.
use rystemd.Prelude.{
  ℕ, suc, ◌≡◌, refl, ap, ◌∙◌, none, List, [], ◌∷◌, ◌++◌, All, Text, trim_start, trim_end, lines, ok,
  split_inclusive,
}
use mathlib.Core.List.{append_assoc}
use rystemd.Repo.Document.{
  UnitDocument, UnitSection, Parser, parse_trimmed, parse_lines, of_parser, parse_document,
  entries_text, section_text, more_text, to_text,
}
use rystemd.Repo.Document.Lines.{IsTrimmed}
use rystemd.Repo.Document.Entries.{
  IsSection, parse_lines-line, at_section, parse_header_line, header_line, header_line-IsTrimmed,
  header_line-contains, parse_lines-entries,
}

header-text :
    (s : UnitSection) (rest : Text)
    → section_text s ++ rest ≡ header_line s ++ 10 ∷ (entries_text s.entries ++ rest)
unfolding section_text header_line
header-text s rest = simp append_assoc

parse_lines-section :
    (n : ℕ) (s : UnitSection) (rest : Text) (p : Parser)
    → IsSection s
    → (m : ℕ) × (parse_lines n (lines (section_text s ++ rest)) p
        ≡ parse_lines m (lines rest) (at_section p.document.sections s))
unfolding header_line
parse_lines-section n s rest p v =
    let (m, es) =
      parse_lines-entries (suc n) s.entries rest p.document.sections
        (record { name = s.name; entries = [] }) v.all_entries in
    let first =
      parse_lines-line n (header_line s) (entries_text s.entries ++ rest) p _
        (header_line-contains s v) (header_line-IsTrimmed s) (λ k. parse_header_line k s p v) in
    (m, ap (λ t. parse_lines n (lines t) p) (header-text s rest) ∙ first ∙ es)

empty-IsTrimmed : IsTrimmed []
unfolding trim_start trim_end
empty-IsTrimmed = record { front = refl; back = refl }

parse_trimmed_nil : (k : ℕ) (p : Parser) → parse_trimmed k [] p ≡ ok p
unfolding parse_trimmed
parse_trimmed_nil k p = refl

lines_nil : lines [] ≡ []
unfolding lines split_inclusive
lines_nil = refl

parse_lines_nil : (n : ℕ) (p : Parser) → parse_lines n [] p ≡ ok p
unfolding parse_lines
parse_lines_nil n p = refl

-- The sections behind the section `s`, which stands behind `done`.
parse_lines-more :
    (n : ℕ) (ss done : List UnitSection) (s : UnitSection)
    → All IsSection ss
    → of_parser (parse_lines n (lines (more_text ss)) (at_section done s))
      ≡ ok (record { sections = done ++ s ∷ ss })
unfolding more_text
parse_lines-more n [] done s v =
    ap (λ ls. of_parser (parse_lines n ls (at_section done s))) lines_nil
    ∙ ap of_parser (parse_lines_nil n (at_section done s))
parse_lines-more n (t ∷ ss) done s v =
    let blank =
      parse_lines-line n [] (section_text t ++ more_text ss) (at_section done s) (at_section done s)
        refl empty-IsTrimmed (λ k. parse_trimmed_nil k (at_section done s)) in
    let (m, next) = parse_lines-section (suc n) t (more_text ss) (at_section done s) v.0 in
    let rest = parse_lines-more m ss (done ++ s ∷ []) t v.1 in
    ap of_parser (blank ∙ next)
    ∙ rest
    ∙ ap (λ l. ok (record { sections = l })) (append_assoc done (s ∷ []) (t ∷ ss))

-- A document whose names, keys and values are trimmed, on one line and of the characters that the
-- syntax allows is read back from its text as it was.
pub parse_document-to_text :
    (d : UnitDocument) → All IsSection d.sections → parse_document (to_text d) ≡ ok d
unfolding parse_document to_text
parse_document-to_text d v = go d.sections v
  where
    go :
        (ss : List UnitSection)
        → All IsSection ss
        → parse_document (to_text (record { sections = ss })) ≡ ok (record { sections = ss })
    go [] v =
        ap
          (λ ls.
            of_parser
              (parse_lines 0 ls (record { document = record { sections = [] }; current = none })))
          lines_nil
        ∙ ap of_parser
            (parse_lines_nil 0 (record { document = record { sections = [] }; current = none }))
    go (s ∷ ss) v =
        let (m, first) =
          parse_lines-section 0 s (more_text ss)
            (record { document = record { sections = [] }; current = none }) v.0 in
        ap of_parser first ∙ parse_lines-more m ss [] s v.1
