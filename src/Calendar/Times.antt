-- ===== src/Calendar/Times.antt =====
-- `next_time` of calendar.rs finds the least matching time of a day.
use rystemd.Prelude.{
  ℕ, ◌≤◌, ◌≡◌, refl, Bool, true, false, not, ◌&&◌, ◌||◌, inl, inr, none, some, arith, ◌==◌,
  if◌then◌else◌, Bool-cases, Has,
}
use rystemd.Calendar.{
  matches, values_ge, CalendarSpec, lex_ltb, time_fields, same_time, second_loop, minute_loop,
  next_time,
}
use rystemd.Calendar.Least.{Least, Least-iff, find_map-Least}
use rystemd.Calendar.Values.{IsField, values_ge-Ascending, Has-values_ge}

-- `s` is no earlier than `r`.
abbrev pub NotAfter : ℕ × ℕ × ℕ → ℕ × ℕ × ℕ → Type 0
NotAfter r s = lex_ltb (time_fields s) (time_fields r) ≡ false

-- A time of day that the expression allows, later than `t0` where that is forced.
pub record IsTime (spec : CalendarSpec) (force_gt : Bool) (t0 : ℕ × ℕ × ℕ) (t : ℕ × ℕ × ℕ)
    : Type 0 where
  pub hour : matches spec.hour t.0 ≡ true
  pub hour_le : t.0 ≤ 23
  pub minute : matches spec.minute t.1 ≡ true
  pub minute_le : t.1 ≤ 59
  pub second : matches spec.second t.2 ≡ true
  pub second_le : t.2 ≤ 59
  pub later : force_gt ≡ true → lex_ltb (time_fields t0) (time_fields t) ≡ true

pub record IsTimeSpec (spec : CalendarSpec) : Type 0 where
  pub hour : IsField spec.hour
  pub minute : IsField spec.minute
  pub second : IsField spec.second

module _ (spec : CalendarSpec) (force_gt : Bool) (t0 : ℕ × ℕ × ℕ) (sorted : IsTimeSpec spec) where
  abbrev At1 : ℕ → ℕ × ℕ × ℕ → Type 0
  At1 h t = (t.0 ≡ h) × IsTime spec force_gt t0 t

  abbrev At2 : ℕ → ℕ → ℕ × ℕ × ℕ → Type 0
  At2 h mi t = (t.0 ≡ h) × (t.1 ≡ mi) × IsTime spec force_gt t0 t

  -- The one candidate of the innermost loop.
  abbrev Pick : ℕ → ℕ → ℕ → ℕ × ℕ × ℕ → Type 0
  Pick h mi s t = (t ≡ (h, mi, s)) × (force_gt ≡ true → same_time (h, mi, s) t0 ≡ false)

  NotAfter-refl : (t : ℕ × ℕ × ℕ) → NotAfter t t
  NotAfter-refl (h, mi, s) = ground arith

  Pick-Least :
      (h mi s : ℕ)
      → Least
          (Pick h mi s)
          NotAfter
          (if not force_gt || not (same_time (h, mi, s) t0) then some (h, mi, s) else none)
  Pick-Least h mi s = elim (Bool-cases (not force_gt || not (same_time (h, mi, s) t0))) [
    | inl t ↦ rw t ((refl, λ f. ground arith), λ r (e, g). rw e (NotAfter-refl (h, mi, s)))
    | inr f ↦ rw f (λ r (e, g). ground (arith, g))
  ]

  -- What the bounds of the two inner loops mean.
  abbrev Past1 : ℕ → Type 0
  Past1 h = force_gt ≡ true → t0.0 ≤ h

  abbrev Past2 : ℕ → ℕ → Type 0
  Past2 h mi = force_gt ≡ true → t0.0 ≡ h → t0.1 ≤ mi

  second_loop-Least :
      (h mi : ℕ)
      → matches spec.hour h ≡ true
      → h ≤ 23
      → matches spec.minute mi ≡ true
      → mi ≤ 59
      → Past1 h
      → Past2 h mi
      → Least (At2 h mi) NotAfter (second_loop spec force_gt t0 h mi)
  unfolding second_loop
  second_loop-Least h mi mh lh mm lm p1 p2 = Least-iff _ (At2 h mi) NotAfter _ there back (
      find_map-Least _ (Pick h mi) NotAfter (λ x y r s l q q'. ground arith) _
        (values_ge-Ascending spec.second _ 59 sorted.second) (λ s _. Pick-Least h mi s))
    where
      start : ℕ
      start = if force_gt && (h == t0.0 && mi == t0.1) then t0.2 else 0

      there :
          (t : ℕ × ℕ × ℕ)
          → (s : ℕ) × Has s (values_ge spec.second start 59) × Pick h mi s t
          → At2 h mi t
      there t (s, m, (e, g)) =
          let (ms, ls, us) = (Has-values_ge spec.second s start 59 sorted.second).0 m in
          rw e (
            refl,
            refl,
            record {
              hour = mh;
              hour_le = lh;
              minute = mm;
              minute_le = lm;
              second = ms;
              second_le = us;
              later = λ f. ground (arith, g f, p1 f, p2 f);
            },
          )

      back :
          (t : ℕ × ℕ × ℕ)
          → At2 h mi t
          → (s : ℕ) × Has s (values_ge spec.second start 59) × Pick h mi s t
      back t (e, f, q) = (
        t.2,
        (Has-values_ge spec.second t.2 start 59 sorted.second).1
            (q.second, from_start, q.second_le),
        ((λ i. (e i, f i, t.2)), λ g. let l = q.later g in ground arith),
      )
        where
          from_start : start ≤ t.2
          from_start = elim (Bool-cases force_gt) [
            | inl g ↦ let l = q.later g in ground arith
            | inr g ↦ ground arith
          ]

  minute_loop-Least :
      (h : ℕ)
      → matches spec.hour h ≡ true
      → h ≤ 23
      → Past1 h
      → Least (At1 h) NotAfter (minute_loop spec force_gt t0 h)
  unfolding minute_loop
  minute_loop-Least h mh lh p1 =
      Least-iff _ (At1 h) NotAfter _ (λ t (mi, m, q). (q.0, q.2)) back
        (find_map-Least _ (At2 h) NotAfter (λ x y r s l q q'. ground arith) _
          (values_ge-Ascending spec.minute _ 59 sorted.minute) inner)
    where
      start : ℕ
      start = if force_gt && h == t0.0 then t0.1 else 0

      inner :
          (mi : ℕ)
          → Has mi (values_ge spec.minute start 59)
          → Least (At2 h mi) NotAfter (second_loop spec force_gt t0 h mi)
      inner mi m =
          let (mm, gm, lm) = (Has-values_ge spec.minute mi start 59 sorted.minute).0 m in
          second_loop-Least h mi mh lh mm lm p1 (λ f e. ground arith)

      back :
          (t : ℕ × ℕ × ℕ)
          → At1 h t
          → (mi : ℕ) × Has mi (values_ge spec.minute start 59) × At2 h mi t
      back t (e, q) = (
        t.1,
        (Has-values_ge spec.minute t.1 start 59 sorted.minute).1
            (q.minute, from_start, q.minute_le),
        (e, refl, q),
      )
        where
          from_start : start ≤ t.1
          from_start = elim (Bool-cases force_gt) [
            | inl g ↦ let l = q.later g in ground arith
            | inr g ↦ ground arith
          ]

  pub next_time-Least : Least (IsTime spec force_gt t0) NotAfter (next_time spec t0 force_gt)
  unfolding next_time
  next_time-Least =
      Least-iff _ (IsTime spec force_gt t0) NotAfter _ (λ t (h, m, q). q.1) back
        (find_map-Least _ At1 NotAfter (λ x y r s l q q'. ground arith) _
          (values_ge-Ascending spec.hour _ 23 sorted.hour) inner)
    where
      start : ℕ
      start = if force_gt then t0.0 else 0

      inner :
          (h : ℕ)
          → Has h (values_ge spec.hour start 23)
          → Least (At1 h) NotAfter (minute_loop spec force_gt t0 h)
      inner h m =
          let (mh, gh, lh) = (Has-values_ge spec.hour h start 23 sorted.hour).0 m in
          minute_loop-Least h mh lh (λ f. ground arith)

      back :
          (t : ℕ × ℕ × ℕ)
          → IsTime spec force_gt t0 t
          → (h : ℕ) × Has h (values_ge spec.hour start 23) × At1 h t
      back t q = (
        t.0,
        (Has-values_ge spec.hour t.0 start 23 sorted.hour).1 (q.hour, from_start, q.hour_le),
        (refl, q),
      )
        where
          from_start : start ≤ t.0
          from_start = elim (Bool-cases force_gt) [
            | inl g ↦ let l = q.later g in ground arith
            | inr g ↦ ground arith
          ]
