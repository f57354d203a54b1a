-- ===== src/Calendar.antt =====
-- rystemd/src/calendar.rs: calendar expressions and the search for the next elapse. Years are
-- natural numbers here, since the manager's clock starts at 1970.
pub mod Least
pub mod Values
pub mod Times
pub mod Dates
pub mod Order
pub mod Day
pub mod Elapse
pub mod Occurs
mod Tests
use rystemd.Prelude.{
  ℕ, zero, suc, ◌+◌, ◌-◌, ◌%◌, Bool, true, false, not, ◌&&◌, ◌||◌, Option, none, some, List, [],
  ◌∷◌, ltb, leb, ◌==◌, if◌then◌else◌, binary_search, retain,
}

pub data Field : Type 0 where
  any_value : Field
  set : List ℕ → Field

unfoldable pub matches : Field → ℕ → Bool
unfolding binary_search
matches any_value v = true
matches (set s) v = binary_search s v

-- `(ge..=max)`, by its first value and its length.
unfoldable pub range_from : ℕ → ℕ → List ℕ
range_from a zero = []
range_from a (suc n) = a ∷ range_from (a + 1) n

unfoldable pub range_incl : ℕ → ℕ → List ℕ
unfolding range_from
range_incl a b = range_from a (b + 1 - a)

unfoldable pub values_ge : Field → ℕ → ℕ → List ℕ
unfolding range_incl
values_ge any_value ge max = range_incl ge max
values_ge (set s) ge max = retain (λ v. leb ge v && leb v max) s

pub record CalendarSpec : Type 0 where
  pub year : Field
  pub month : Field
  pub day : Field
  pub dow : Field
  pub hour : Field
  pub minute : Field
  pub second : Field

abbrev pub any_time : CalendarSpec
any_time = record {
  year = any_value;
  month = any_value;
  day = any_value;
  dow = any_value;
  hour = any_value;
  minute = any_value;
  second = any_value;
}

unfoldable pub days_in_month : ℕ → ℕ → ℕ
days_in_month y m =
    if m == 2
    then (if (y % 4 == 0 && not (y % 100 == 0)) || y % 400 == 0 then 29 else 28)
    else if m == 4 || (m == 6 || (m == 9 || m == 11))
    then 30
    else 31

-- A loop that returns at the first value for which its body does.
unfoldable pub find_map {ℓ} : {R : Type ℓ} → (ℕ → Option R) → List ℕ → Option R
find_map f [] = none
find_map f (x ∷ xs) = elim (f x) [ some r ↦ some r | none ↦ find_map f xs ]

-- The civil fields of `chrono::NaiveDateTime`, and its order.
pub record DateTime : Type 0 where
  pub year : ℕ
  pub month : ℕ
  pub day : ℕ
  pub hour : ℕ
  pub minute : ℕ
  pub second : ℕ
  pub nanosecond : ℕ

abbrev pub lex_ltb : List ℕ → List ℕ → Bool
lex_ltb (a ∷ s) (b ∷ t) = ltb a b || (a == b && lex_ltb s t)
lex_ltb _ _ = false

abbrev pub time_fields : ℕ × ℕ × ℕ → List ℕ
time_fields t = t.0 ∷ t.1 ∷ t.2 ∷ []

abbrev pub fields : DateTime → List ℕ
fields t = t.year ∷ t.month ∷ t.day ∷ t.hour ∷ t.minute ∷ t.second ∷ t.nanosecond ∷ []

-- What the program uses of the crate `chrono`.
pub record Chrono : Type 1 where
  pub NaiveDate : Type 0
  pub from_ymd_opt : ℕ → ℕ → ℕ → Option NaiveDate
  pub num_days_from_monday : NaiveDate → ℕ
  pub and_hms_opt : NaiveDate → ℕ → ℕ → ℕ → Option DateTime

abbrev pub same_time : ℕ × ℕ × ℕ → ℕ × ℕ × ℕ → Bool
same_time s t = s.0 == t.0 && (s.1 == t.1 && s.2 == t.2)

-- The loop over the seconds in `next_time`.
unfoldable pub second_loop : CalendarSpec → Bool → ℕ × ℕ × ℕ → ℕ → ℕ → Option (ℕ × ℕ × ℕ)
unfolding find_map values_ge
second_loop spec force_gt t0 h mi =
    find_map (λ s. if not force_gt || not (same_time (h, mi, s) t0) then some (h, mi, s) else none)
      (values_ge spec.second (if force_gt && (h == t0.0 && mi == t0.1) then t0.2 else 0) 59)

unfoldable pub minute_loop : CalendarSpec → Bool → ℕ × ℕ × ℕ → ℕ → Option (ℕ × ℕ × ℕ)
unfolding second_loop find_map values_ge
minute_loop spec force_gt t0 h =
    find_map (second_loop spec force_gt t0 h)
      (values_ge spec.minute (if force_gt && h == t0.0 then t0.1 else 0) 59)

unfoldable pub next_time : CalendarSpec → ℕ × ℕ × ℕ → Bool → Option (ℕ × ℕ × ℕ)
unfolding minute_loop find_map values_ge
next_time spec t0 force_gt =
    find_map (minute_loop spec force_gt t0) (values_ge spec.hour (if force_gt then t0.0 else 0) 23)

unfoldable pub local_second : DateTime → DateTime
local_second dt = record dt { nanosecond = 0 }

abbrev pub max_search_years : ℕ
max_search_years = 6

-- `nt > from`
abbrev pub after_from : DateTime → Option DateTime → Option DateTime
after_from from none = none
after_from from (some nt) = if lex_ltb (fields from) (fields nt) then some nt else none

abbrev pub same_day : DateTime → ℕ → ℕ → ℕ → Bool
same_day from y m d = y == from.year && (m == from.month && d == from.day)

module _ (chrono : Chrono) (spec : CalendarSpec) where
  unfoldable pub weekday_number : ℕ → ℕ → ℕ → Option ℕ
  weekday_number y m d = elim (chrono.from_ymd_opt y m d) [
    | none ↦ none
    | some date ↦ some (chrono.num_days_from_monday date + 1)
  ]

  -- `match (&self.day, &self.dow)`
  unfoldable pub day_matches : Field → Field → ℕ → ℕ → Bool
  unfolding matches
  day_matches any_value any_value d dow = true
  day_matches any_value (set w) d dow = matches (set w) dow
  day_matches (set s) any_value d dow = matches (set s) d
  day_matches (set s) (set w) d dow = matches (set s) d || matches (set w) dow

  unfoldable pub day_ok : ℕ → ℕ → ℕ → Bool
  unfolding weekday_number day_matches
  day_ok y m d = elim (weekday_number y m d) [
    | none ↦ false
    | some dow ↦ day_matches spec.day spec.dow d dow
  ]

  -- `NaiveDate::from_ymd_opt(y, m, d).and_then(|dt| dt.and_hms_opt(h, mi, s))`
  unfoldable pub at : ℕ → ℕ → ℕ → ℕ × ℕ × ℕ → Option DateTime
  at y m d t = elim (chrono.from_ymd_opt y m d) [
    | none ↦ none
    | some date ↦ chrono.and_hms_opt date t.0 t.1 t.2
  ]

  abbrev pub at_time : DateTime → ℕ → ℕ → ℕ → Option (ℕ × ℕ × ℕ) → Option DateTime
  at_time from y m d none = none
  at_time from y m d (some t) = after_from from (at y m d t)

  -- The body of the loop over the days.
  unfoldable pub day_body : DateTime → ℕ → ℕ → ℕ → Option DateTime
  unfolding day_ok at next_time
  day_body from y m d =
      if day_ok y m d
      then at_time from y m d
          (next_time spec (from.hour, from.minute, from.second) (same_day from y m d))
      else none

  unfoldable pub month_body : DateTime → ℕ → ℕ → Option DateTime
  unfolding day_body find_map range_incl matches days_in_month
  month_body from y m =
      if matches spec.month m
      then find_map (day_body from y m) (
          range_incl (if y == from.year && m == from.month then from.day else 1)
            (days_in_month y m))
      else none

  unfoldable pub year_body : DateTime → ℕ → Option DateTime
  unfolding month_body find_map range_incl matches
  year_body from y =
      if matches spec.year y
      then find_map (month_body from y) (range_incl (if y == from.year then from.month else 1) 12)
      else none

  unfoldable pub next_elapse : DateTime → Option DateTime
  unfolding year_body find_map range_incl local_second
  next_elapse dt =
      let from = local_second dt in
      find_map (year_body from) (range_incl from.year (from.year + max_search_years))
