-- ===== src/Repo/Document/Lines.antt =====
-- How the lines and the parts of a printed text are found again.
use rystemd.Prelude.{
  strip_suffix_append, ℕ, ◌≡◌, refl, sym, ap, subst, ◌∙◌, true, false, inl, inr, none, [], ◌∷◌,
  ◌++◌, ◌==◌, all, arith, if◌then◌else◌, Bool-cases, Text, contains_char, is_whitespace, trim_start,
  trim_end, strip_suffix, lines, split_inclusive, strip_newline,
}
use rystemd.Repo.Document.{is_key_char}

-- No white space at either end.
pub record IsTrimmed (s : Text) : Type 0 where
  pub front : trim_start s ≡ s
  pub back : trim_end s ≡ s

split_inclusive_line :
    (l rest : Text)
    → contains_char 10 l ≡ false
    → split_inclusive (l ++ 10 ∷ rest) ≡ (l ++ 10 ∷ []) ∷ split_inclusive rest
unfolding split_inclusive
split_inclusive_line [] rest h = refl
split_inclusive_line (c ∷ l) rest h =
    let ne : (c == 10) ≡ false = ground arith in
    rw (ne, split_inclusive_line l rest (ground arith)) refl

end_of : ℕ → Text → Text
end_of c [] = if is_whitespace c then [] else c ∷ []
end_of c (d ∷ t) = c ∷ d ∷ t

trim_end-step : (c : ℕ) (s : Text) → trim_end (c ∷ s) ≡ end_of c (trim_end s)
unfolding trim_end end_of
trim_end-step c s = go (trim_end s) refl
  where
    go : (t : Text) → trim_end s ≡ t → trim_end (c ∷ s) ≡ end_of c (trim_end s)
    go [] e = rw (e, trim_end) refl
    go (d ∷ t) e = rw (e, trim_end) refl

trim_end_tail : (c : ℕ) (s : Text) → trim_end (c ∷ s) ≡ c ∷ s → trim_end s ≡ s
unfolding end_of
trim_end_tail c s h = go (trim_end s) refl
  where
    go : (t : Text) → trim_end s ≡ t → trim_end s ≡ s
    go [] e = elim (Bool-cases (is_whitespace c)) [
      | inl w ↦ let k : [] ≡ c ∷ s = rw (trim_end-step c s, e, w) at h in absurd (cc)
      | inr w ↦ let k : c ∷ [] ≡ c ∷ s = rw (trim_end-step c s, e, w) at h in cc
    ]
    go (d ∷ t) e = let k : c ∷ d ∷ t ≡ c ∷ s = rw (trim_end-step c s, e) at h in cc

trim_end_return : (c : ℕ) → (c == 13) ≡ true → trim_end (c ∷ []) ≡ []
unfolding trim_end
trim_end_return c e =
    let f : c ≡ 13 = ground arith in subst (λ d. trim_end (d ∷ []) ≡ []) (sym f) refl

strip_suffix_nil : (c : ℕ) → strip_suffix c [] ≡ none
unfolding strip_suffix
strip_suffix_nil c = refl

strip_suffix_one : (c d : ℕ) → (d == c) ≡ false → strip_suffix c (d ∷ []) ≡ none
unfolding strip_suffix
strip_suffix_one c d e = rw e refl

strip_suffix_more :
    (c d e : ℕ) (s : Text) → strip_suffix c (e ∷ s) ≡ none → strip_suffix c (d ∷ e ∷ s) ≡ none
unfolding strip_suffix
strip_suffix_more c d e s h = rw h refl

-- The end of a trimmed text is no carriage return.
pub trim_end-strip_suffix : (l : Text) → trim_end l ≡ l → strip_suffix 13 l ≡ none
trim_end-strip_suffix [] h = strip_suffix_nil 13
trim_end-strip_suffix (c ∷ []) h = elim (Bool-cases (c == 13)) [
  | inl e ↦ let k = sym (trim_end_return c e) ∙ h in absurd cc
  | inr e ↦ strip_suffix_one 13 c e
]
trim_end-strip_suffix (c ∷ d ∷ l) h =
    strip_suffix_more 13 c d l (trim_end-strip_suffix (d ∷ l) (trim_end_tail c (d ∷ l) h))

pub lines-append :
    (l rest : Text)
    → contains_char 10 l ≡ false
    → trim_end l ≡ l
    → lines (l ++ 10 ∷ rest) ≡ l ∷ lines rest
unfolding lines strip_newline
lines-append l rest h e =
    rw
      (
        split_inclusive_line l rest h,
        strip_suffix_append 10 l,
        trim_end-strip_suffix l e,
        strip_newline,
      )
      refl

-- What ends without white space does so behind any front.
pub trim_end_append :
    (a b : Text) (c : ℕ) → trim_end (c ∷ b) ≡ c ∷ b → trim_end (a ++ c ∷ b) ≡ a ++ c ∷ b
unfolding end_of
trim_end_append [] b c h = h
trim_end_append (x ∷ a) b c h = grown (a ++ c ∷ b) (trim_end_append a b c h) (append_cons a)
  where
    append_cons : (a : Text) → (d : ℕ) × (t : Text) × (a ++ c ∷ b ≡ d ∷ t)
    append_cons [] = (c, b, refl)
    append_cons (d ∷ a) = (d, a ++ c ∷ b, refl)

    grown :
        (s : Text)
        → trim_end s ≡ s
        → ((d : ℕ) × (t : Text) × (s ≡ d ∷ t))
        → trim_end (x ∷ s) ≡ x ∷ s
    grown s e (d, t, f) = trim_end-step x s ∙ ap (end_of x) (e ∙ f) ∙ ap (λ r. x ∷ r) (sym f)

pub trim_end_cons :
    (c : ℕ) (s : Text) → is_whitespace c ≡ false → trim_end s ≡ s → trim_end (c ∷ s) ≡ c ∷ s
unfolding trim_end
trim_end_cons c [] w h = rw w refl
trim_end_cons c (d ∷ s) w h = rw h refl

pub is_key_char-is_whitespace : (c : ℕ) → is_key_char c ≡ true → is_whitespace c ≡ false
is_key_char-is_whitespace c h = ground arith

pub all-IsTrimmed : (k : Text) → all is_key_char k ≡ true → IsTrimmed k
unfolding trim_start trim_end
all-IsTrimmed [] h = record { front = refl; back = refl }
all-IsTrimmed (c ∷ k) h =
    let w = is_key_char-is_whitespace c (ground arith) in
    let v = all-IsTrimmed k (ground arith) in
    record { front = rw w refl; back = trim_end_cons c k w v.back }

pub all-contains_char :
    (d : ℕ) (k : Text)
    → is_key_char d ≡ false
    → all is_key_char k ≡ true
    → contains_char d k ≡ false
all-contains_char d [] n h = refl
all-contains_char d (c ∷ k) n h =
    let ih = all-contains_char d k n (ground arith) in
    elim (Bool-cases (c == d)) [
      | inl e ↦ let f : c ≡ d = ground arith in absurd (ground arith)
      | inr e ↦ rw e ih
    ]
