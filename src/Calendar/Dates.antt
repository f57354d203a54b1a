-- ===== src/Calendar/Dates.antt =====
-- The civil calendar: months and leap years independently of calendar.rs, what the crate `chrono`
-- documents of its constructors, and the order of dates and times.
use rystemd.Prelude.{
  ℕ, zero, suc, ◌%◌, ◌≤◌, ◌<◌, ◌≡◌, refl, Bool, true, false, not, ◌&&◌, ◌||◌, ◌⊎◌, some, List, [],
  ◌∷◌, ◌++◌, arith, ◌==◌, if◌then◌else◌, length,
}
use rystemd.Calendar.{Chrono, lex_ltb, days_in_month}

-- The Gregorian rule.
abbrev pub is_leap : ℕ → Bool
is_leap y = y % 4 == 0 && (not (y % 100 == 0) || y % 400 == 0)

abbrev pub month_lengths : ℕ → List ℕ
month_lengths y =
    31 ∷ (if is_leap y then 29 else 28) ∷ 31 ∷ 30 ∷ 31 ∷ 30 ∷ 31 ∷ 31 ∷ 30 ∷ 31 ∷ 30 ∷ 31 ∷ []

abbrev pub nth : ℕ → List ℕ → ℕ
nth n [] = 0
nth zero (x ∷ xs) = x
nth (suc n) (x ∷ xs) = nth n xs

-- Months count from 1.
abbrev pub month_length : ℕ → ℕ → ℕ
month_length y m = nth m (0 ∷ month_lengths y)

-- `days_in_month` is the length of the month in the Gregorian calendar, for the months 1 to 12.
pub days_in_month_lem : (y m : ℕ) → 1 ≤ m → m ≤ 12 → days_in_month y m ≡ month_length y m
unfolding days_in_month
days_in_month_lem y zero l u = absurd (omega arith)
days_in_month_lem y (suc zero) l u = refl
days_in_month_lem y (suc (suc zero)) l u = ground arith
days_in_month_lem y (suc (suc (suc zero))) l u = refl
days_in_month_lem y (suc (suc (suc (suc zero)))) l u = refl
days_in_month_lem y (suc (suc (suc (suc (suc zero))))) l u = refl
days_in_month_lem y (suc (suc (suc (suc (suc (suc zero)))))) l u = refl
days_in_month_lem y (suc (suc (suc (suc (suc (suc (suc zero))))))) l u = refl
days_in_month_lem y (suc (suc (suc (suc (suc (suc (suc (suc zero)))))))) l u = refl
days_in_month_lem y (suc (suc (suc (suc (suc (suc (suc (suc (suc zero))))))))) l u = refl
days_in_month_lem y (suc (suc (suc (suc (suc (suc (suc (suc (suc (suc zero)))))))))) l u = refl
days_in_month_lem y (suc (suc (suc (suc (suc (suc (suc (suc (suc (suc (suc zero))))))))))) l u =
    refl
days_in_month_lem y (suc (suc (suc (suc (suc (suc (suc (suc (suc (suc (suc (suc zero)))))))))))) l
      u =
    refl
days_in_month_lem y (suc (suc (suc (suc (suc (suc (suc (suc (suc (suc (suc (suc (suc m)))))))))))))
      l u =
    absurd (omega arith)

-- What `chrono` documents: a date of the Gregorian calendar up to its last year exists, a time of
-- day can be put to it, and the result has these fields.
pub record IsGregorian (chrono : Chrono) (max_year : ℕ) : Type 0 where
  pub date_some :
      (y m d : ℕ)
      → y ≤ max_year
      → 1 ≤ m
      → m ≤ 12
      → 1 ≤ d
      → d ≤ month_length y m
      → (date : chrono.NaiveDate) × (chrono.from_ymd_opt y m d ≡ some date)
  pub time_some :
      (y m d h mi s : ℕ) (date : chrono.NaiveDate)
      → chrono.from_ymd_opt y m d ≡ some date
      → h ≤ 23
      → mi ≤ 59
      → s ≤ 59
      → chrono.and_hms_opt date h mi s
        ≡ some (record {
          year = y;
          month = m;
          day = d;
          hour = h;
          minute = mi;
          second = s;
          nanosecond = 0;
        })

pub lex_same : {a b : ℕ} (s t : List ℕ) → a ≡ b → lex_ltb (a ∷ s) (b ∷ t) ≡ lex_ltb s t
lex_same s t e = ground arith

pub lex_lt : {a b : ℕ} (s t : List ℕ) → a < b → lex_ltb (a ∷ s) (b ∷ t) ≡ true
lex_lt s t l = ground arith

pub lex_gt : {a b : ℕ} (s t : List ℕ) → b < a → lex_ltb (a ∷ s) (b ∷ t) ≡ false
lex_gt s t l = ground arith

pub lex_cases :
    (a b : ℕ) (s t : List ℕ)
    → lex_ltb (a ∷ s) (b ∷ t) ≡ true
    → (a < b) ⊎ ((a ≡ b) × (lex_ltb s t ≡ true))
lex_cases a b s t h = ground arith

-- A last field of zero on the right makes the last field on the left irrelevant.
pub lex_last :
    (n : ℕ) (s t : List ℕ)
    → length s ≡ length t
    → lex_ltb (s ++ n ∷ []) (t ++ 0 ∷ []) ≡ lex_ltb (s ++ 0 ∷ []) (t ++ 0 ∷ [])
lex_last n [] [] e = ground arith
lex_last n [] (b ∷ t) e = absurd (omega arith)
lex_last n (a ∷ s) [] e = absurd (omega arith)
lex_last n (a ∷ s) (b ∷ t) e = ground (arith, lex_last n s t (omega arith))
