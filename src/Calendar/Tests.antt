-- ===== src/Calendar/Tests.antt =====
-- Expressions and instants on which calendar.rs is run, with a concrete civil calendar.
use rystemd.Prelude.{
  ℕ, ◌+◌, ◌-◌, ◌/◌, ◌%◌, ◌≤◌, ◌≡◌, refl, ◌&&◌, none, some, [], ◌∷◌, arith, ltb, leb, if◌then◌else◌,
}
use rystemd.Calendar.{set, CalendarSpec, any_time, DateTime, Chrono, next_elapse, max_search_years}
use rystemd.Calendar.Least.{Least}
use rystemd.Calendar.Dates.{month_length, nth, IsGregorian}
use rystemd.Calendar.Order.{Later, NotEarlier}
use rystemd.Calendar.Occurs.{Occurs, next_elapse_lem}

-- The day of the week by Sakamoto's rule, counted from Monday.
abbrev weekday : ℕ → ℕ → ℕ → ℕ
weekday y m d =
    let z : ℕ = if ltb m 3 then y - 1 else y in
    (z
      + z / 4
      + z / 400
      + nth (m - 1) (0 ∷ 3 ∷ 2 ∷ 5 ∷ 0 ∷ 3 ∷ 5 ∷ 1 ∷ 4 ∷ 6 ∷ 2 ∷ 4 ∷ [])
      + d
      + 6
      - z / 100)
    % 7

abbrev civil : Chrono
civil = record {
  NaiveDate = ℕ × ℕ × ℕ;
  from_ymd_opt = λ y m d.
      if leb 1 m && (leb m 12 && (leb 1 d && leb d (month_length y m)))
      then some (y, m, d)
      else none;
  num_days_from_monday = λ t. weekday t.0 t.1 t.2;
  and_hms_opt = λ t h mi s.
      if leb h 23 && (leb mi 59 && leb s 59)
      then some (record {
        year = t.0;
        month = t.1;
        day = t.2;
        hour = h;
        minute = mi;
        second = s;
        nanosecond = 0;
      })
      else none;
}

civil-IsGregorian : IsGregorian civil 262142
civil-IsGregorian = record {
  date_some = λ y m d ly gm lm gd ld. ((y, m, d), ground arith);
  time_some = λ y m d h mi s date e lh lm ls. ground arith;
}

-- `Mon 09:00:00`
abbrev monday_nine : CalendarSpec
monday_nine = record any_time {
  dow = set (1 ∷ []);
  hour = set (9 ∷ []);
  minute = set (0 ∷ []);
  second = set (0 ∷ []);
}

-- Thursday, 26 November 2026, 16:36:16.5
abbrev thursday : DateTime
thursday = record {
  year = 2026;
  month = 11;
  day = 26;
  hour = 16;
  minute = 36;
  second = 16;
  nanosecond = 500000000;
}

abbrev next_monday : DateTime
next_monday = record {
  year = 2026;
  month = 11;
  day = 30;
  hour = 9;
  minute = 0;
  second = 0;
  nanosecond = 0;
}

next_elapse-monday : next_elapse civil monday_nine thursday ≡ some next_monday
unfolding next_elapse
next_elapse-monday = refl

-- `Mon *-*-1,27 09:00:00`: the twenty-seventh, a Friday, comes before the Monday.
abbrev both : CalendarSpec
both = record monday_nine { day = set (1 ∷ 27 ∷ []) }

next_elapse-both : next_elapse civil both thursday ≡ some (record next_monday { day = 27 })
unfolding next_elapse
next_elapse-both = refl

next_elapse_lem_example :
    Least
      (λ t. Occurs civil both t × Later thursday t × (t.year ≤ 2026 + max_search_years))
      NotEarlier
      (next_elapse civil both thursday)
next_elapse_lem_example =
    next_elapse_lem civil both thursday 262142 civil-IsGregorian
      (record {
        year = tt;
        month = tt;
        day = ((omega arith, tt), (tt, tt));
        dow = (tt, tt);
        hour = (tt, tt);
        minute = (tt, tt);
        second = (tt, tt);
      })
      (omega arith) (omega arith) (omega arith)
