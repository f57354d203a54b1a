-- ===== src/Calendar/Elapse.antt =====
-- `next_elapse` of calendar.rs finds the next instant that passes the tests of the search.
use rystemd.Prelude.{
  ℕ, ◌+◌, ◌≤◌, ◌≡◌, refl, sym, subst, ◌∙◌, true, false, ◌&&◌, inl, inr, List, [], ◌∷◌, arith, ◌==◌,
  if◌then◌else◌, Bool-cases, Has,
}
use mathlib.Core.Bool.{false≢true}
use rystemd.Calendar.{
  matches, range_incl, CalendarSpec, days_in_month, find_map, DateTime, lex_ltb, fields, Chrono,
  local_second, max_search_years, day_body, month_body, year_body, next_elapse,
}
use rystemd.Calendar.Least.{Least, Least-iff, find_map-Least}
use rystemd.Calendar.Values.{range_incl-Ascending, Has-range_incl}
use rystemd.Calendar.Times.{IsTimeSpec}
use rystemd.Calendar.Dates.{days_in_month_lem, IsGregorian, lex_last}
use rystemd.Calendar.Day.{day_body-Least}
use rystemd.Calendar.Order.{
  IsHit, Later, NotEarlier, month_reached, day_reached, year_reached, Next, OnDay, InMonth, InYear,
  earlier_day, earlier_month, earlier_year,
}

module _ (chrono : Chrono) (spec : CalendarSpec) (from : DateTime) (max_year : ℕ)
    (gregorian : IsGregorian chrono max_year) (sorted : IsTimeSpec spec)
    (from_whole : from.nanosecond ≡ 0) where
  module _ (y : ℕ) (my : matches spec.year y ≡ true) (ly : y ≤ max_year) (gy : from.year ≤ y) where
    month_body-Least :
        (m : ℕ)
        → 1 ≤ m
        → m ≤ 12
        → 1 ≤ from.day
        → (from.year ≡ y → from.month ≤ m)
        → Least (InMonth chrono spec from y m) NotEarlier (month_body chrono spec from y m)
    unfolding month_body
    month_body-Least m gm lm valid reached = elim (Bool-cases (matches spec.month m)) [
      | inl mm ↦ rw mm (
          Least-iff _ (InMonth chrono spec from y m) NotEarlier _ (λ t (d, h, q). (q.0, q.1, q.3))
            back
            (find_map-Least _ (OnDay chrono spec from y m) NotEarlier
              (earlier_day chrono spec from y m) _ (range_incl-Ascending _ _) (inner mm)))
      | inr bad ↦
          rw bad
            (λ t q. false≢true (sym bad ∙ subst (λ x. matches spec.month x ≡ true) q.1 q.2.0.month))
    ]
      where
        start : ℕ
        start = if y == from.year && m == from.month then from.day else 1

        inner :
            matches spec.month m ≡ true
            → (d : ℕ) → Has d (range_incl start (days_in_month y m))
            → Least (OnDay chrono spec from y m d) NotEarlier (day_body chrono spec from y m d)
        inner mm d h =
            let (l, u) = (Has-range_incl d start (days_in_month y m)).0 h in
            day_body-Least chrono spec from max_year gregorian sorted from_whole y m d my ly mm gm
              lm (ground arith) (omega (arith, days_in_month_lem y m gm lm))
              (ground (arith, reached))

        back :
            (t : DateTime)
            → InMonth chrono spec from y m t
            → (d : ℕ) × Has d (range_incl start (days_in_month y m))
              × OnDay chrono spec from y m d t
        back t (ey, em, (o, l)) = (
          t.day,
          (Has-range_incl t.day start (days_in_month y m)).1 (from_start, length_le),
          (ey, em, refl, (o, l)),
        )
          where
            from_start : start ≤ t.day
            from_start = ground (arith, o.day_ge, day_reached from t)

            length_le : t.day ≤ days_in_month y m
            length_le = rw (days_in_month_lem y m gm lm, ← ey, ← em) o.day_le

    year_body-Least :
        1 ≤ from.month
        → 1 ≤ from.day
        → Least (InYear chrono spec from y) NotEarlier (year_body chrono spec from y)
    unfolding year_body
    year_body-Least valid_month valid_day = rw my (
        Least-iff _ (InYear chrono spec from y) NotEarlier _ (λ t (m, h, q). (q.0, q.2)) back
          (find_map-Least _ (InMonth chrono spec from y) NotEarlier
            (earlier_month chrono spec from y) _ (range_incl-Ascending start 12) inner))
      where
        start : ℕ
        start = if y == from.year then from.month else 1

        inner :
            (m : ℕ)
            → Has m (range_incl start 12)
            → Least (InMonth chrono spec from y m) NotEarlier (month_body chrono spec from y m)
        inner m h =
            let (l, u) = (Has-range_incl m start 12).0 h in
            month_body-Least m (ground arith) u valid_day (λ e. ground arith)

        back :
            (t : DateTime)
            → InYear chrono spec from y t
            → (m : ℕ) × Has m (range_incl start 12) × InMonth chrono spec from y m t
        back t (ey, (o, l)) = (
          t.month,
          (Has-range_incl t.month start 12).1 (from_start, o.month_le),
          (ey, refl, (o, l)),
        )
          where
            from_start : start ≤ t.month
            from_start = ground (arith, o.month_ge, month_reached from t)

  year_body_skip :
      (y : ℕ)
      → matches spec.year y ≡ false
      → Least (InYear chrono spec from y) NotEarlier (year_body chrono spec from y)
  unfolding year_body
  year_body_skip y bad =
      rw bad (λ t q. false≢true (sym bad ∙ subst (λ x. matches spec.year x ≡ true) q.0 q.1.0.year))

  year_loop-Least :
      from.year + max_search_years ≤ max_year
      → 1 ≤ from.month
      → 1 ≤ from.day
      → Least
          (λ t. Next chrono spec from t × (t.year ≤ from.year + max_search_years))
          NotEarlier
          (find_map
            (year_body chrono spec from)
            (range_incl from.year (from.year + max_search_years)))
  year_loop-Least room valid_month valid_day =
      Least-iff _ (λ t. Next chrono spec from t × (t.year ≤ from.year + max_search_years))
        NotEarlier _ there back
        (find_map-Least _ (InYear chrono spec from) NotEarlier (earlier_year chrono spec from) _
          (range_incl-Ascending _ _) inner)
    where
      years : List ℕ
      years = range_incl from.year (from.year + max_search_years)

      inner :
          (y : ℕ)
          → Has y years
          → Least (InYear chrono spec from y) NotEarlier (year_body chrono spec from y)
      inner y h =
          let (l, u) = (Has-range_incl y from.year (from.year + max_search_years)).0 h in
          elim (Bool-cases (matches spec.year y)) [
            | inl my ↦ year_body-Least y my (omega arith) l valid_month valid_day
            | inr bad ↦ year_body_skip y bad
          ]

      there :
          (t : DateTime)
          → (y : ℕ) × Has y years × InYear chrono spec from y t
          → Next chrono spec from t × (t.year ≤ from.year + max_search_years)
      there t (y, h, (e, n)) =
          let (l, u) = (Has-range_incl y from.year (from.year + max_search_years)).0 h in
          (n, omega arith)

      back :
          (t : DateTime)
          → Next chrono spec from t × (t.year ≤ from.year + max_search_years)
          → (y : ℕ) × Has y years × InYear chrono spec from y t
      back t (n, u) = (
        t.year,
        (Has-range_incl t.year from.year (from.year + max_search_years)).1
            (year_reached from t n.1, u),
        (refl, n),
      )

pub next_elapse-IsHit :
    (chrono : Chrono) (spec : CalendarSpec) (dt : DateTime) (max_year : ℕ)
    → IsGregorian chrono max_year
    → IsTimeSpec spec
    → dt.year + max_search_years ≤ max_year
    → 1 ≤ dt.month
    → 1 ≤ dt.day
    → Least
        (λ t. IsHit chrono spec t × Later dt t × (t.year ≤ dt.year + max_search_years))
        NotEarlier
        (next_elapse chrono spec dt)
unfolding next_elapse
next_elapse-IsHit chrono spec dt max_year g s room vm vd =
    Least-iff _ _ NotEarlier _ (λ t (n, u). (n.0, sym (same t n.0.whole) ∙ n.1, u))
      (λ t (o, l, u). ((o, same t o.whole ∙ l), u))
      (year_loop-Least chrono spec (local_second dt) max_year g s refl room vm vd)
  where
    before : DateTime → List ℕ
    before t = t.year ∷ t.month ∷ t.day ∷ t.hour ∷ t.minute ∷ t.second ∷ []

    same :
        (t : DateTime)
        → t.nanosecond ≡ 0
        → lex_ltb (fields (local_second dt)) (fields t) ≡ lex_ltb (fields dt) (fields t)
    same t e = rw e (sym (lex_last dt.nanosecond (before dt) (before t) refl))
