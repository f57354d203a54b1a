-- ===== src/Calendar/Day.antt =====
-- The days of the search: the least matching instant of one day.
use rystemd.Prelude.{
  ℕ, ◌≤◌, ◌≡◌, refl, sym, subst, ◌∙◌, true, inl, inr, Option, none, some, arith, ◌==◌, Bool-cases,
}
use mathlib.Core.Bool.{false≢true}
use rystemd.Calendar.{
  matches, CalendarSpec, DateTime, Chrono, day_ok, at, at_time, same_day, day_body,
}
use rystemd.Calendar.Least.{Least}
use rystemd.Calendar.Times.{NotAfter, IsTime, IsTimeSpec, next_time-Least}
use rystemd.Calendar.Dates.{month_length, IsGregorian, lex_same, lex_lt}
use rystemd.Calendar.Order.{
  IsHit, Later, NotEarlier, clock, clock_fields, day_fields, month_fields, same_date, Reached,
  OnDay,
}

module _ (chrono : Chrono) (spec : CalendarSpec) (from : DateTime) (max_year : ℕ)
    (gregorian : IsGregorian chrono max_year) (sorted : IsTimeSpec spec)
    (from_whole : from.nanosecond ≡ 0) where
  module _ (y m d : ℕ) (my : matches spec.year y ≡ true) (ly : y ≤ max_year)
      (mm : matches spec.month m ≡ true) (gm : 1 ≤ m) (lm : m ≤ 12) (gd : 1 ≤ d)
      (ld : d ≤ month_length y m) (reached : Reached from y m d) where
    abbrev at_clock : ℕ × ℕ × ℕ → DateTime
    at_clock t = record {
      year = y;
      month = m;
      day = d;
      hour = t.0;
      minute = t.1;
      second = t.2;
      nanosecond = 0;
    }

    -- On the day of `from`, and on no other, the time has to be later.
    OnDay-IsTime :
        (t : DateTime)
        → OnDay chrono spec from y m d t
        → IsTime spec (same_day from y m d) (clock from) (clock t)
    OnDay-IsTime t (ey, em, ed, (o, l)) = record {
      hour = o.time.hour;
      hour_le = o.time.hour_le;
      minute = o.time.minute;
      minute_le = o.time.minute_le;
      second = o.time.second;
      second_le = o.time.second_le;
      later = λ f.
          sym (
            same_date from t (ground arith) (ground arith) (ground arith) (ground (arith, o.whole)))
          ∙ l;
    }

    IsTime-Later :
        (t : ℕ × ℕ × ℕ) → IsTime spec (same_day from y m d) (clock from) t → Later from (at_clock t)
    IsTime-Later t q = elim reached [
      | inl l ↦ lex_lt (month_fields from) (month_fields (at_clock t)) l
      | inr (ey, inl l) ↦
          lex_same (month_fields from) (month_fields (at_clock t)) ey
          ∙ lex_lt (day_fields from) (day_fields (at_clock t)) l
      | inr (ey, inr (em, l)) ↦ elim (Bool-cases (d == from.day)) [
        | inl e ↦
            same_date from (at_clock t) ey em (ground arith) from_whole ∙ q.later (ground arith)
        | inr e ↦
            lex_same (month_fields from) (month_fields (at_clock t)) ey
            ∙ lex_same (day_fields from) (day_fields (at_clock t)) em
            ∙ lex_lt {a = from.day} {b = d} (clock_fields from) (clock_fields (at_clock t))
                (ground arith)
      ]
    ]

    at-eq_some :
        (t : ℕ × ℕ × ℕ)
        → t.0 ≤ 23
        → t.1 ≤ 59
        → t.2 ≤ 59
        → at chrono spec y m d t ≡ some (at_clock t)
    unfolding at
    at-eq_some t l0 l1 l2 =
        let (date, e) = gregorian.date_some y m d ly gm lm gd ld in
        rw (e, at) (gregorian.time_some y m d t.0 t.1 t.2 date e l0 l1 l2)

    at_time-Least :
        (o : Option (ℕ × ℕ × ℕ))
        → day_ok chrono spec y m d ≡ true
        → Least (IsTime spec (same_day from y m d) (clock from)) NotAfter o
        → Least (OnDay chrono spec from y m d) NotEarlier (at_time chrono spec from y m d o)
    at_time-Least none ok h = λ t q. h (clock t) (OnDay-IsTime t q)
    at_time-Least (some t) ok (q, least) =
        rw (at-eq_some t q.hour_le q.minute_le q.second_le, IsTime-Later t q)
          (
            (refl, refl, refl, (occurs, IsTime-Later t q)),
            λ s o.
                same_date s (at_clock t) o.0 o.1 o.2 o.3.0.whole
                ∙ least (clock s) (OnDay-IsTime s o),
          )
      where
        occurs : IsHit chrono spec (at_clock t)
        occurs = record {
          year = my;
          month = mm;
          month_ge = gm;
          month_le = lm;
          day = ok;
          day_ge = gd;
          day_le = ld;
          time = record {
            hour = q.hour;
            hour_le = q.hour_le;
            minute = q.minute;
            minute_le = q.minute_le;
            second = q.second;
            second_le = q.second_le;
            later = λ f. cc;
          };
          whole = refl;
        }

    on_day : (t : DateTime) → OnDay chrono spec from y m d t → day_ok chrono spec y m d ≡ true
    on_day t (ey, em, ed, (o, l)) =
        subst (λ x. day_ok chrono spec x m d ≡ true) ey
          (subst (λ x. day_ok chrono spec t.year x d ≡ true) em
            (subst (λ x. day_ok chrono spec t.year t.month x ≡ true) ed o.day))

    pub day_body-Least :
        Least (OnDay chrono spec from y m d) NotEarlier (day_body chrono spec from y m d)
    unfolding day_body
    day_body-Least = elim (Bool-cases (day_ok chrono spec y m d)) [
      | inl ok ↦
          rw ok
            (at_time-Least _ ok (next_time-Least spec (same_day from y m d) (clock from) sorted))
      | inr bad ↦ rw bad (λ t q. false≢true (sym bad ∙ on_day t q))
    ]
