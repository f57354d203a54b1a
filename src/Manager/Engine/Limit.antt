-- ===== src/Manager/Engine/Limit.antt =====
-- rystemd/src/manager/mod.rs: what `check_start_limit` promises over the starts of a unit.
use rystemd.Prelude.{
  ℕ, ◌+◌, ◌-◌, ◌*◌, ◌^◌, ◌≤◌, ◌≡◌, ◌↔◌, refl, sym, ◌∙◌, ap, subst, Bool, true, false, List, [], ◌∷◌,
  ◌++◌, ◌⊎◌, inl, inr, leb, length, length-append, retain, Bool-cases, arith,
}
use rystemd.Manager.Engine.Queue.{start_window_at}

-- The times that are at most ten seconds before `now`.
abbrev pub recent : ℕ → List ℕ → List ℕ
recent now ts = retain (λ t. leb (now - 10 * 10 ^ 9) t) ts

-- The starts that are granted, behind one that is asked for.
abbrev pub grant : Bool → ℕ → List ℕ → List ℕ
grant true now granted = granted
grant false now granted = granted ++ now ∷ []

-- Starts that are asked for one after the other, the last at the first index; those that were granted;
-- and the window that `check_start_limit` leaves.
pub data Attempts : ℕ → List ℕ → List ℕ → Type 0 where
  none_yet : Attempts 0 [] []
  attempt :
      (last now : ℕ) (granted window : List ℕ)
      → Attempts last granted window
      → last ≤ now
      → Attempts now
          (grant (start_window_at now window).0 now granted)
          (start_window_at now window).1

recent-recent :
    (last now : ℕ) (ts : List ℕ) → last ≤ now → recent now (recent last ts) ≡ recent now ts
recent-recent last now [] h = refl
recent-recent last now (t ∷ ts) h = ground (arith, recent-recent last now ts h)

recent-append : (now : ℕ) (ts : List ℕ) → recent now (ts ++ now ∷ []) ≡ recent now ts ++ now ∷ []
recent-append now [] = ground arith
recent-append now (t ∷ ts) = ground (arith, recent-append now ts)

length-recent : (now : ℕ) (ts : List ℕ) → length (recent now ts) ≤ length ts
length-recent now [] = omega arith
length-recent now (t ∷ ts) = ground (arith, length-recent now ts)

-- The two outcomes of an attempt.
pub start_window_cases :
    (now : ℕ) (window : List ℕ)
    → ((5 ≤ length (recent now window)) × (start_window_at now window ≡ (true, recent now window)))
      ⊎ ((length (recent now window) + 1 ≤ 5)
          × (start_window_at now window ≡ (false, recent now window ++ now ∷ [])))
unfolding start_window_at
start_window_cases now window = elim (Bool-cases (leb 5 (length (recent now window)))) [
  | inl e ↦ inl (ground arith, rw e refl)
  | inr e ↦ inr (ground arith, rw e refl)
]

abbrev Fits : ℕ → List ℕ → List ℕ → Type 0
Fits now granted window = (window ≡ recent now granted) × (length (recent now granted) ≤ 5)

attempt-Fits :
    (last now : ℕ) (granted window : List ℕ) (r : Bool × List ℕ)
    → last ≤ now
    → Fits last granted window
    → ((5 ≤ length (recent now window)) × (r ≡ (true, recent now window)))
      ⊎ ((length (recent now window) + 1 ≤ 5) × (r ≡ (false, recent now window ++ now ∷ [])))
    → Fits now (grant r.0 now granted) r.1
attempt-Fits last now granted window r h (same, few) (inl (full, e)) =
    let q : recent now window ≡ recent now granted =
      ap (recent now) same ∙ recent-recent last now granted h in
    subst (λ p. Fits now (grant p.0 now granted) p.1) (sym e)
      (q, ground (arith, length-recent now window, ap length q, ap length same))
attempt-Fits last now granted window r h (same, few) (inr (free, e)) =
    let q : recent now window ≡ recent now granted =
      ap (recent now) same ∙ recent-recent last now granted h in
    subst (λ p. Fits now (grant p.0 now granted) p.1) (sym e)
      (
        ap (λ x. x ++ now ∷ []) q ∙ sym (recent-append now granted),
        omega (
          arith,
          ap length (recent-append now granted),
          length-append (recent now granted) (now ∷ []),
          ap length q,
        ),
      )

Attempts-Fits :
    (now : ℕ) (granted window : List ℕ) → Attempts now granted window → Fits now granted window
Attempts-Fits now granted window none_yet = (refl, omega arith)
Attempts-Fits now granted window (attempt last _ g w before h) =
    attempt-Fits last now g w (start_window_at now w) h (Attempts-Fits last g w before)
      (start_window_cases now w)

-- However starts are asked for, one not before the other: at every attempt, at most five starts were
-- granted in the ten seconds before it, itself included; the window is exactly these; and a later
-- attempt is refused exactly where five are in the ten seconds before it.
pub check_start_limit_lem :
    (now later : ℕ) (granted window : List ℕ)
    → Attempts now granted window
    → now ≤ later
    → (window ≡ recent now granted)
      × (length (recent now granted) ≤ 5)
      × (((start_window_at later window).0 ≡ true) ↔ (length (recent later granted) ≡ 5))
check_start_limit_lem now later granted window h le =
    let (same, few) = Attempts-Fits now granted window h in
    let q : recent later window ≡ recent later granted =
      ap (recent later) same ∙ recent-recent now later granted le in
    let c = start_window_cases later window in
    (
      same,
      few,
      (
        λ e. elim c [
          | inl (full, p) ↦
              omega (arith, ap length q, full, length-recent later window, ap length same, few)
          | inr (free, p) ↦ absurd (ground (arith, ap (λ x. x.0) p))
        ],
        λ e. elim c [
          | inl (full, p) ↦ ap (λ x. x.0) p
          | inr (free, p) ↦ absurd (omega (arith, ap length q, free, e))
        ],
      ),
    )
