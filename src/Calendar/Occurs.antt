-- ===== src/Calendar/Occurs.antt =====
-- When a calendar expression occurs, described without the tests of calendar.rs.
use rystemd.Prelude.{
  ℕ, ◌+◌, ◌≤◌, ◌≡◌, ◌↔◌, ◌⊎◌, refl, Bool, true, ◌||◌, inl, inr, some, Has, Option-cases, arith,
}
use rystemd.Calendar.{
  Field, any_value, set, matches, CalendarSpec, DateTime, Chrono, weekday_number, day_matches,
  day_ok, next_elapse, max_search_years,
}
use rystemd.Calendar.Least.{Least, Least-iff}
use rystemd.Calendar.Values.{IsField, Allows, matches_iff}
use rystemd.Calendar.Dates.{month_length, IsGregorian}
use rystemd.Calendar.Order.{IsHit, Later, NotEarlier}
use rystemd.Calendar.Elapse.{next_elapse-IsHit}

-- Every set of the expression is in ascending order.
pub record IsSpec (spec : CalendarSpec) : Type 0 where
  pub year : IsField spec.year
  pub month : IsField spec.month
  pub day : IsField spec.day
  pub dow : IsField spec.dow
  pub hour : IsField spec.hour
  pub minute : IsField spec.minute
  pub second : IsField spec.second

-- A day of the month and a day of the week: each on its own where only one is given, and one of the two
-- where both are.
abbrev pub AllowsDay : Field → Field → ℕ → ℕ → Type 0
AllowsDay any_value any_value d dow = Unit
AllowsDay any_value (set w) d dow = Has dow w
AllowsDay (set s) any_value d dow = Has d s
AllowsDay (set s) (set w) d dow = Has d s ⊎ Has dow w

-- The expression occurs at `t`: a whole second of an existing day, each field of which it allows. The
-- days of the week are counted from Monday, which is 1.
pub record Occurs (chrono : Chrono) (spec : CalendarSpec) (t : DateTime) : Type 0 where
  pub year : Allows spec.year t.year
  pub month : Allows spec.month t.month
  pub month_ge : 1 ≤ t.month
  pub month_le : t.month ≤ 12
  pub date : chrono.NaiveDate
  pub exists : chrono.from_ymd_opt t.year t.month t.day ≡ some date
  pub day : AllowsDay spec.day spec.dow t.day (chrono.num_days_from_monday date + 1)
  pub day_ge : 1 ≤ t.day
  pub day_le : t.day ≤ month_length t.year t.month
  pub hour : Allows spec.hour t.hour
  pub hour_le : t.hour ≤ 23
  pub minute : Allows spec.minute t.minute
  pub minute_le : t.minute ≤ 59
  pub second : Allows spec.second t.second
  pub second_le : t.second ≤ 59
  pub whole : t.nanosecond ≡ 0

or_iff : (a b : Bool) → ((a || b) ≡ true) ↔ ((a ≡ true) ⊎ (b ≡ true))
or_iff a b = ground arith

day_matches_iff :
    (chrono : Chrono) (spec : CalendarSpec) (f g : Field) (d dow : ℕ)
    → IsField f
    → IsField g
    → (day_matches chrono spec f g d dow ≡ true) ↔ AllowsDay f g d dow
unfolding day_matches
day_matches_iff chrono spec any_value any_value d dow s t = (λ h. tt, λ h. refl)
day_matches_iff chrono spec any_value (set w) d dow s t = matches_iff (set w) dow t
day_matches_iff chrono spec (set x) any_value d dow s t = matches_iff (set x) d s
day_matches_iff chrono spec (set x) (set w) d dow s t =
    let p = matches_iff (set x) d s in
    let q = matches_iff (set w) dow t in
    let r = or_iff (matches (set x) d) (matches (set w) dow) in
    (
      λ h. elim (r.0 h) [ inl a ↦ inl (p.0 a) | inr b ↦ inr (q.0 b) ],
      λ h. r.1 (elim h [ inl a ↦ inl (p.1 a) | inr b ↦ inr (q.1 b) ]),
    )

module _ (chrono : Chrono) (spec : CalendarSpec) (sorted : IsSpec spec) where
  day_ok_iff :
      (y m d : ℕ) (date : chrono.NaiveDate)
      → chrono.from_ymd_opt y m d ≡ some date
      → (day_ok chrono spec y m d ≡ true)
        ↔ AllowsDay spec.day spec.dow d (chrono.num_days_from_monday date + 1)
  unfolding day_ok weekday_number
  day_ok_iff y m d date e =
      rw (e, day_ok, weekday_number)
        (day_matches_iff chrono spec spec.day spec.dow d _ sorted.day sorted.dow)

  day_ok-date :
      (y m d : ℕ)
      → day_ok chrono spec y m d ≡ true
      → (date : chrono.NaiveDate) × (chrono.from_ymd_opt y m d ≡ some date)
  unfolding day_ok weekday_number
  day_ok-date y m d h = elim (Option-cases (chrono.from_ymd_opt y m d)) [
    | inl e ↦ absurd (ground (arith, e, h))
    | inr (date, e) ↦ (date, e)
  ]

  IsHit-Occurs : (t : DateTime) → IsHit chrono spec t → Occurs chrono spec t
  IsHit-Occurs t h =
      let (date, e) = day_ok-date t.year t.month t.day h.day in
      record {
        year = (matches_iff spec.year t.year sorted.year).0 h.year;
        month = (matches_iff spec.month t.month sorted.month).0 h.month;
        month_ge = h.month_ge;
        month_le = h.month_le;
        date = date;
        exists = e;
        day = (day_ok_iff t.year t.month t.day date e).0 h.day;
        day_ge = h.day_ge;
        day_le = h.day_le;
        hour = (matches_iff spec.hour t.hour sorted.hour).0 h.time.hour;
        hour_le = h.time.hour_le;
        minute = (matches_iff spec.minute t.minute sorted.minute).0 h.time.minute;
        minute_le = h.time.minute_le;
        second = (matches_iff spec.second t.second sorted.second).0 h.time.second;
        second_le = h.time.second_le;
        whole = h.whole;
      }

  Occurs-IsHit : (t : DateTime) → Occurs chrono spec t → IsHit chrono spec t
  Occurs-IsHit t o = record {
    year = (matches_iff spec.year t.year sorted.year).1 o.year;
    month = (matches_iff spec.month t.month sorted.month).1 o.month;
    month_ge = o.month_ge;
    month_le = o.month_le;
    day = (day_ok_iff t.year t.month t.day o.date o.exists).1 o.day;
    day_ge = o.day_ge;
    day_le = o.day_le;
    time = record {
      hour = (matches_iff spec.hour t.hour sorted.hour).1 o.hour;
      hour_le = o.hour_le;
      minute = (matches_iff spec.minute t.minute sorted.minute).1 o.minute;
      minute_le = o.minute_le;
      second = (matches_iff spec.second t.second sorted.second).1 o.second;
      second_le = o.second_le;
      later = λ f. cc;
    };
    whole = o.whole;
  }

-- For a chrono that knows the Gregorian dates up to `max_year` and an expression whose sets are all in
-- ascending order: `next_elapse` from a date at least six years before `max_year` returns the least
-- instant after it at which the expression occurs, if there is one up to six years later, and nothing
-- otherwise. Where a day of the month and a day of the week are both given, one of them is enough.
pub next_elapse_lem :
    (chrono : Chrono) (spec : CalendarSpec) (dt : DateTime) (max_year : ℕ)
    → IsGregorian chrono max_year
    → IsSpec spec
    → dt.year + max_search_years ≤ max_year
    → 1 ≤ dt.month
    → 1 ≤ dt.day
    → Least
        (λ t. Occurs chrono spec t × Later dt t × (t.year ≤ dt.year + max_search_years))
        NotEarlier
        (next_elapse chrono spec dt)
next_elapse_lem chrono spec dt max_year g s room vm vd =
    Least-iff _ _ NotEarlier _ (λ t (h, l, u). (IsHit-Occurs chrono spec s t h, l, u))
      (λ t (o, l, u). (Occurs-IsHit chrono spec s t o, l, u))
      (next_elapse-IsHit chrono spec dt max_year g
        (record { hour = s.hour; minute = s.minute; second = s.second }) room vm vd)
