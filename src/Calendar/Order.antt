-- ===== src/Calendar/Order.antt =====
-- Where the search of calendar.rs can stop, and the order of the instants that the search compares.
use rystemd.Prelude.{ℕ, ◌≤◌, ◌<◌, ◌≡◌, sym, ◌∙◌, true, false, ◌⊎◌, inl, inr, List, [], ◌∷◌, arith}
use rystemd.Calendar.{matches, CalendarSpec, DateTime, lex_ltb, time_fields, fields, Chrono, day_ok}
use rystemd.Calendar.Times.{IsTime}
use rystemd.Calendar.Dates.{month_length, lex_same, lex_gt, lex_cases}

-- The search can stop at `t`: a whole second of an existing day, by the tests of calendar.rs.
pub record IsHit (chrono : Chrono) (spec : CalendarSpec) (t : DateTime) : Type 0 where
  pub year : matches spec.year t.year ≡ true
  pub month : matches spec.month t.month ≡ true
  pub month_ge : 1 ≤ t.month
  pub month_le : t.month ≤ 12
  pub day : day_ok chrono spec t.year t.month t.day ≡ true
  pub day_ge : 1 ≤ t.day
  pub day_le : t.day ≤ month_length t.year t.month
  pub time : IsTime spec false (0, 0, 0) (t.hour, t.minute, t.second)
  pub whole : t.nanosecond ≡ 0

abbrev pub Later : DateTime → DateTime → Type 0
Later from t = lex_ltb (fields from) (fields t) ≡ true

-- `t` is no earlier than `s`.
abbrev pub NotEarlier : DateTime → DateTime → Type 0
NotEarlier s t = lex_ltb (fields t) (fields s) ≡ false

abbrev pub clock : DateTime → ℕ × ℕ × ℕ
clock t = (t.hour, t.minute, t.second)

abbrev pub clock_fields : DateTime → List ℕ
clock_fields t = t.hour ∷ t.minute ∷ t.second ∷ t.nanosecond ∷ []

abbrev pub day_fields : DateTime → List ℕ
day_fields t = t.day ∷ clock_fields t

abbrev pub month_fields : DateTime → List ℕ
month_fields t = t.month ∷ day_fields t

-- On the day of `from` the time decides.
pub same_date :
    (s t : DateTime)
    → s.year ≡ t.year
    → s.month ≡ t.month
    → s.day ≡ t.day
    → s.nanosecond ≡ t.nanosecond
    → lex_ltb (fields s) (fields t) ≡ lex_ltb (time_fields (clock s)) (time_fields (clock t))
same_date s t y m d n =
    lex_same (month_fields s) (month_fields t) y
    ∙ lex_same (day_fields s) (day_fields t) m
    ∙ lex_same (clock_fields s) (clock_fields t) d
    ∙ same_clock
  where
    same_clock :
        lex_ltb (clock_fields s) (clock_fields t)
        ≡ lex_ltb (time_fields (clock s)) (time_fields (clock t))
    same_clock = ground arith

module _ (from : DateTime) where
  -- A later instant of the same year is of the same month or a later one, and so for the days.
  pub month_reached : (t : DateTime) → from.year ≡ t.year → Later from t → from.month ≤ t.month
  month_reached t e l =
      elim (lex_cases from.month t.month (day_fields from) (day_fields t)
        (sym (lex_same (month_fields from) (month_fields t) e) ∙ l)) [
          | inl x ↦ omega arith
          | inr (x, _) ↦ omega arith
        ]

  pub day_reached :
      (t : DateTime) → from.year ≡ t.year → from.month ≡ t.month → Later from t → from.day ≤ t.day
  day_reached t e f l =
      elim (lex_cases from.day t.day (clock_fields from) (clock_fields t) (
        sym (
          lex_same (month_fields from) (month_fields t) e
          ∙ lex_same (day_fields from) (day_fields t) f)
        ∙ l)) [ inl x ↦ omega arith | inr (x, _) ↦ omega arith ]

  pub year_reached : (t : DateTime) → Later from t → from.year ≤ t.year
  year_reached t l = elim (lex_cases from.year t.year (month_fields from) (month_fields t) l) [
    | inl x ↦ omega arith
    | inr (x, _) ↦ omega arith
  ]

-- The days that the search visits: those of `from` and after.
abbrev pub Reached : DateTime → ℕ → ℕ → ℕ → Type 0
Reached from y m d =
    (from.year < y) ⊎ ((from.year ≡ y) × ((from.month < m) ⊎ ((from.month ≡ m) × (from.day ≤ d))))

module _ (chrono : Chrono) (spec : CalendarSpec) (from : DateTime) where
  abbrev pub Next : DateTime → Type 0
  Next t = IsHit chrono spec t × Later from t

  abbrev pub OnDay : ℕ → ℕ → ℕ → DateTime → Type 0
  OnDay y m d t = (t.year ≡ y) × (t.month ≡ m) × (t.day ≡ d) × Next t

  abbrev pub InMonth : ℕ → ℕ → DateTime → Type 0
  InMonth y m t = (t.year ≡ y) × (t.month ≡ m) × Next t

  abbrev pub InYear : ℕ → DateTime → Type 0
  InYear y t = (t.year ≡ y) × Next t

  pub earlier_day :
      (y m d e : ℕ) (r s : DateTime) → d < e → OnDay y m d r → OnDay y m e s → NotEarlier r s
  earlier_day y m d e r s l p q =
      lex_same (month_fields s) (month_fields r) (q.0 ∙ sym p.0)
      ∙ lex_same (day_fields s) (day_fields r) (q.1 ∙ sym p.1)
      ∙ lex_gt {a = s.day} {b = r.day} (clock_fields s) (clock_fields r) (omega (arith, p.2, q.2))

  pub earlier_month :
      (y m n : ℕ) (r s : DateTime) → m < n → InMonth y m r → InMonth y n s → NotEarlier r s
  earlier_month y m n r s l p q =
      lex_same (month_fields s) (month_fields r) (q.0 ∙ sym p.0)
      ∙ lex_gt {a = s.month} {b = r.month} (day_fields s) (day_fields r) (omega (arith, p.1, q.1))

  pub earlier_year : (y z : ℕ) (r s : DateTime) → y < z → InYear y r → InYear z s → NotEarlier r s
  earlier_year y z r s l p q =
      lex_gt {a = s.year} {b = r.year} (month_fields s) (month_fields r) (omega (arith, p.0, q.0))
