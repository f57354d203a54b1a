-- ===== src/Unit/Parse/Same.antt =====
-- The two parsers of unit files, unit/parse.rs and repo/domain.rs, compared.
use rystemd.Prelude.{
  ℕ, zero, suc, ◌+◌, ◌≡◌, refl, sym, ap, subst, ◌∙◌, Option, none, some, List, [], ◌∷◌, ◌++◌, ◌==◌,
  all, map, inl, inr, arith, Bool-cases, Option-cases, Text, is_empty, trim, trim_start,
  strip_suffix, or_else, split_once, lines, Result, ok, err, length, drop,
}
use rystemd.Repo.Document.{
  RepoError, UnitSection, UnitEntry, Parser, push_entry, parse_header, parse_pair, parse_entry,
  parse_trimmed, parse_line, parse_lines, of_parser, parse_document, is_key_char,
}
use rystemd.Unit.Parse.{
  ParseError, RawParser, raw_section, from_repository_document, find, take, push_raw, raw_header,
  raw_pair, raw_entry, raw_trimmed, raw_line, raw_lines, of_raw_parser, parse, valid_key,
}

-- Both succeed with results in a relation, or both fail at the same line.
abbrev pub Agree :
    {A B : Type 0} → (A → B → Type 0) → Result A RepoError → Result B ParseError → Type 0
Agree R (ok a) (ok b) = R a b
Agree R (err (RepoError.parse line _)) (err e) = e.line ≡ line
Agree R _ _ = ⊥

-- The slices at the first `c` are the two parts of `split_once`.
abbrev Cut : ℕ → Text → Option ℕ → Option (Text × Text) → Type 0
Cut c s none none = Unit
Cut c s (some i) (some (a, b)) = (take i s ≡ a) × (drop (i + 1) s ≡ b)
Cut c s _ _ = ⊥

drop-suc : (i d : ℕ) (s : Text) → drop (suc i + 1) (d ∷ s) ≡ drop (i + 1) s
drop-suc i d s = let e : suc i + 1 ≡ suc (i + 1) = omega arith in rw e refl

Cut-cons :
    (c d : ℕ) (s : Text) (i : Option ℕ) (p : Option (Text × Text))
    → Cut c s i p
    → Cut c
        (d ∷ s)
        (elim i [ none ↦ none | some n ↦ some (suc n) ])
        (elim p [ none ↦ none | some (a, b) ↦ some (d ∷ a, b) ])
Cut-cons c d s none none h = tt
Cut-cons c d s (some i) (some (a, b)) h = (ap (λ t. d ∷ t) h.0, drop-suc i d s ∙ h.1)
Cut-cons c d s none (some q) h = absurd h
Cut-cons c d s (some i) none h = absurd h

find-split_once : (c : ℕ) (s : Text) → Cut c s (find c s) (split_once c s)
unfolding split_once
find-split_once c [] = tt
find-split_once c (d ∷ s) = elim (Bool-cases (d == c)) [
  | inl e ↦ rw e (refl, refl)
  | inr e ↦ rw e (Cut-cons c d s (find c s) (split_once c s) (find-split_once c s))
]

map-append : {A B : Type 0} → (f : A → B) (xs ys : List A) → map f (xs ++ ys) ≡ map f xs ++ map f ys
map-append f [] ys = refl
map-append f (x ∷ xs) ys = ap (λ l. f x ∷ l) (map-append f xs ys)

length-map : {A B : Type 0} → (f : A → B) (xs : List A) → length (map f xs) ≡ length xs
length-map f [] = refl
length-map f (x ∷ xs) = ap suc (length-map f xs)

push_raw-map :
    (i : ℕ) (e : UnitEntry) (ss : List UnitSection)
    → push_raw i (e.key, e.value) (map raw_section ss) ≡ map raw_section (push_entry i e ss)
push_raw-map i e [] = refl
push_raw-map zero e (s ∷ ss) =
    ap (λ l. record { name = s.name; entries = l } ∷ map raw_section ss)
      (sym (map-append (λ x. (x.key, x.value)) s.entries (e ∷ [])))
push_raw-map (suc i) e (s ∷ ss) = ap (λ l. raw_section s ∷ l) (push_raw-map i e ss)

-- The variables of the one parser, given those of the other.
abbrev raw_of : Parser → RawParser
raw_of p = record {
  file = record { sections = map raw_section p.document.sections };
  current = p.current;
}

abbrev Same : Result Parser RepoError → Result RawParser ParseError → Type 0
Same = Agree (λ p q. q ≡ raw_of p)

header-Same :
    (line : ℕ) (rest : Text) (p : Parser)
    → Same (parse_header line (b'[' ∷ rest) rest p) (raw_header line (b'[' ∷ rest) (raw_of p))
unfolding parse_header raw_header
header-Same line rest p =
    go (find b']' rest) (split_once b']' rest) (find-split_once b']' rest) refl refl
  where
    go :
        (i : Option ℕ) (c : Option (Text × Text))
        → Cut b']' rest i c
        → find b']' rest ≡ i
        → split_once b']' rest ≡ c
        → Same (parse_header line (b'[' ∷ rest) rest p) (raw_header line (b'[' ∷ rest) (raw_of p))
    go none none h e f = rw (e, f, parse_header, raw_header) refl
    go none (some c) h e f = absurd h
    go (some i) none h e f = absurd h
    go (some i) (some (a, b)) h e f =
        let k : drop (suc i + 1) (b'[' ∷ rest) ≡ b = drop-suc i b'[' rest ∙ h.1 in
        elim (Bool-cases (is_empty (trim a))) [
          | inl x ↦ elim (Bool-cases (is_empty (trim b))) [
            | inl y ↦ rw (e, f, parse_header, raw_header, h.0, k, x, y) refl
            | inr y ↦ rw (e, f, parse_header, raw_header, h.0, k, x, y) refl
          ]
          | inr x ↦ elim (Bool-cases (is_empty (trim b))) [
            | inl y ↦
                rw (e, f, parse_header, raw_header, h.0, k, x, y)
                  (λ j. record {
                    file = record {
                      sections =
                          sym
                            (map-append raw_section p.document.sections
                              (record { name = trim a; entries = [] } ∷ []))
                            j;
                    };
                    current = some (length-map raw_section p.document.sections j);
                  })
            | inr y ↦ rw (e, f, parse_header, raw_header, h.0, k, x, y) refl
          ]
        ]

pair-Same :
    (line : ℕ) (key value : Text) (p : Parser)
    → Same (parse_pair line key value p) (raw_pair line key value (raw_of p))
unfolding parse_pair raw_pair valid_key
pair-Same line key value p = elim (Bool-cases (is_empty key)) [
  | inl x ↦ rw x refl
  | inr x ↦ elim (Bool-cases (all is_key_char key)) [
    | inl y ↦ elim (Option-cases p.current) [
      | inl z ↦ rw (x, y, z) refl
      | inr (n, z) ↦
          rw (x, y, z)
            (λ j. record {
              file = record {
                sections =
                    push_raw-map n (record { key = key; value = value }) p.document.sections j;
              };
              current = p.current;
            })
    ]
    | inr y ↦ rw (x, y) refl
  ]
]

parse_entry_at :
    (line : ℕ) (t a b : Text) (p : Parser)
    → split_once b'=' t ≡ some (a, b)
    → parse_entry line t p ≡ parse_pair line (trim a) (trim_start b) p
unfolding parse_entry
parse_entry_at line t a b p e = rw (e, parse_entry) refl

raw_entry_at :
    (line : ℕ) (t : Text) (i : ℕ) (p : RawParser)
    → find b'=' t ≡ some i
    → raw_entry line t p ≡ raw_pair line (trim (take i t)) (trim_start (drop (i + 1) t)) p
unfolding raw_entry
raw_entry_at line t i p e = rw (e, raw_entry) refl

entry_none-Same :
    (line : ℕ) (t : Text) (p : Parser)
    → find b'=' t ≡ none
    → split_once b'=' t ≡ none
    → Same (parse_entry line t p) (raw_entry line t (raw_of p))
unfolding parse_entry raw_entry
entry_none-Same line t p e f = rw (e, f, parse_entry, raw_entry) refl

entry-Same :
    (line : ℕ) (t : Text) (p : Parser) → Same (parse_entry line t p) (raw_entry line t (raw_of p))
entry-Same line t p = go (find b'=' t) (split_once b'=' t) (find-split_once b'=' t) refl refl
  where
    go :
        (i : Option ℕ) (c : Option (Text × Text))
        → Cut b'=' t i c
        → find b'=' t ≡ i
        → split_once b'=' t ≡ c
        → Same (parse_entry line t p) (raw_entry line t (raw_of p))
    go none none h e f = entry_none-Same line t p e f
    go none (some c) h e f = absurd h
    go (some i) none h e f = absurd h
    go (some i) (some (a, b)) h e f =
        rw (parse_entry_at line t a b p f, raw_entry_at line t i (raw_of p) e, h.0, h.1)
          (pair-Same line (trim a) (trim_start b) p)

trimmed-Same :
    (line : ℕ) (t : Text) (p : Parser)
    → Same (parse_trimmed line t p) (raw_trimmed line t (raw_of p))
unfolding parse_trimmed raw_trimmed
trimmed-Same line [] p = refl
trimmed-Same line (c ∷ t) p = elim (Bool-cases (c == b'#')) [
  | inl x ↦ rw x refl
  | inr x ↦ elim (Bool-cases (c == b';')) [
    | inl y ↦ rw (x, y) refl
    | inr y ↦ elim (Bool-cases (c == b'[')) [
      | inl z ↦
          let f : c ≡ b'[' = ground arith in
          rw (x, y, z)
            (subst (λ d. Same (parse_header line (d ∷ t) t p) (raw_header line (d ∷ t) (raw_of p)))
              (sym f) (header-Same line t p))
      | inr z ↦ rw (x, y, z) (entry-Same line (c ∷ t) p)
    ]
  ]
]

lines-Same :
    (n : ℕ) (ls : List Text) (p : Parser) → Same (parse_lines n ls p) (raw_lines n ls (raw_of p))
unfolding parse_lines raw_lines parse_line raw_line
lines-Same n [] p = refl
lines-Same n (l ∷ ls) p =
    go (parse_line (suc n) l p) (raw_line (suc n) l (raw_of p))
      (trimmed-Same (suc n) (trim (or_else (strip_suffix 13 l) l)) p) (λ q. lines-Same (suc n) ls q)
  where
    go :
        (a : Result Parser RepoError) (b : Result RawParser ParseError)
        → Same a b
        → ((q : Parser) → Same (parse_lines (suc n) ls q) (raw_lines (suc n) ls (raw_of q)))
        → Same
            (elim a [ ok q ↦ parse_lines (suc n) ls q | err e ↦ err e ])
            (elim b [ ok q ↦ raw_lines (suc n) ls q | err e ↦ err e ])
    go (ok a) (ok b) h ih = rw h (ih a)
    go (err (RepoError.parse k m)) (err b) h ih = h
    go a b h ih = absurd h

of_Same :
    (a : Result Parser RepoError) (b : Result RawParser ParseError)
    → Same a b
    → Agree (λ d f. f ≡ from_repository_document d) (of_parser a) (of_raw_parser b)
unfolding from_repository_document
of_Same (ok a) (ok b) h = ap (λ q. q.file) h
of_Same (err (RepoError.parse k m)) (err b) h = h
of_Same a b h = absurd h

-- On every text, the two parsers succeed together, with the same sections and entries, or fail at the
-- same line.
pub parse_same :
    (text : Text) → Agree (λ d f. f ≡ from_repository_document d) (parse_document text) (parse text)
unfolding parse_document parse
parse_same text =
    of_Same _ _
      (lines-Same 0 (lines text) (record { document = record { sections = [] }; current = none }))
