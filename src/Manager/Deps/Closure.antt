-- ===== src/Manager/Deps/Closure.antt =====
-- `closure` of deps.rs: it ends, and finds exactly the names that edges lead to.
use rystemd.Prelude.{
  ℕ, zero, suc, ◌+◌, ◌≤◌, ◌<◌, ◌≡◌, ◌↔◌, ◌≢◌, refl, sym, subst, ◌∙◌, false, not, ◌⊎◌, inl, inr,
  some, List, [], ◌∷◌, ◌++◌, arith, retain, length, Bool-cases, Has, Has-append_left,
  Has-append_right, Text, text_eq, text_eq_iff, text_key, Map, get, values,
}
use rystemd.Manager.State.{ManagedUnit}
use rystemd.Manager.Deps.{
  contains, Search, visit_deps, edges_of, targets, closure_loop, closure_fuel, closure,
}
use rystemd.Manager.Deps.Walk.{Visited, visit_deps-Visited}

-- The names of `T` that are not seen.
unseen : List Text → List Text → ℕ
unseen seen T = length (retain (λ d. not (contains d seen)) T)

unseen_le : (d : Text) (seen T : List Text) → unseen (d ∷ seen) T ≤ unseen seen T
unfolding unseen
unseen_le d seen [] = omega arith
unseen_le d seen (x ∷ T) = ground (arith, unseen_le d seen T)

-- A name that is seen for the first time leaves fewer.
unseen_lt :
    (d : Text) (seen T : List Text)
    → contains d seen ≡ false
    → Has d T
    → unseen (d ∷ seen) T < unseen seen T
unfolding unseen
unseen_lt d seen [] c m = absurd m
unseen_lt d seen (x ∷ T) c (inl e) =
    ground
      (arith, unseen_le d seen T, text_eq_iff d x, subst (λ y. contains y seen ≡ false) (sym e) c)
unseen_lt d seen (x ∷ T) c (inr m) = ground (arith, unseen_lt d seen T c m)

work : List Text → Search → ℕ
work T s = length s.queue + unseen s.seen T

abbrev pushed : Text → Search → Search
pushed d s = record { seen = d ∷ s.seen; queue = d ∷ s.queue; out = s.out ++ d ∷ [] }

work-pushed :
    (T : List Text) (d : Text) (s : Search)
    → contains d s.seen ≡ false
    → Has d T
    → work T (pushed d s) ≤ work T s
unfolding work
work-pushed T d s c m = omega (arith, unseen_lt d s.seen T c m)

visit_deps-work :
    (T : List Text) (n : Text) (ds : List Text) (s : Search)
    → ((d : Text) → Has d ds → Has d T)
    → work T (visit_deps n ds s) ≤ work T s
unfolding visit_deps
visit_deps-work T n [] s h = omega arith
visit_deps-work T n (d ∷ ds) s h = elim (Bool-cases (text_eq d n)) [
  | inl e ↦ rw e (visit_deps-work T n ds s (λ x m. h x (inr m)))
  | inr e ↦ elim (Bool-cases (contains d s.seen)) [
    | inl c ↦ rw (e, c) (visit_deps-work T n ds s (λ x m. h x (inr m)))
    | inr c ↦
        let ih = visit_deps-work T n ds (pushed d s) (λ x m. h x (inr m)) in
        let step = work-pushed T d s c (h d (inl refl)) in rw (e, c) (omega (arith, ih, step))
  ]
]

module _ (units : Map Text ManagedUnit) (edge : ManagedUnit → List Text) where
  -- An edge from the unit of a name to another name.
  abbrev pub Edge : Text → Text → Type 0
  Edge n d = Has d (edges_of edge (get n units)) × (d ≢ n)

  -- Edges, at least one, lead from `start` to a name.
  pub data Reach (start : Text) : Text → Type 0 where
    one : {d : Text} → Edge start d → Reach start d
    more : {n d : Text} → Reach start n → Edge n d → Reach start d

Has-targets :
    (edge : ManagedUnit → List Text) (units : Map Text ManagedUnit) (n d : Text)
    → Has d (edges_of edge (get n units))
    → Has d (targets edge (values units))
unfolding get
Has-targets edge [] n d m = absurd m
Has-targets edge ((j, u) ∷ units) n d m = elim (Bool-cases (text_eq j n)) [
  | inl e ↦ Has-append_left d (edge u) _ (rw (e, get) at m)
  | inr e ↦ Has-append_right d (edge u) _ (Has-targets edge units n d (rw (e, get) at m))
]

module _ (units : Map Text ManagedUnit) (edge : ManagedUnit → List Text) (start : Text) where
  record Inv (s : Search) : Type 0 where
    sound : (x : Text) → Has x s.seen → Reach units edge start x
    queued : (x : Text) → Has x s.queue → (x ≡ start) ⊎ Has x s.seen
    closed :
        (x : Text)
        → (x ≡ start) ⊎ Has x s.seen
        → Has x s.queue ⊎ ((d : Text) → Edge units edge x d → Has d s.seen)
    same : (x : Text) → Has x s.out ↔ Has x s.seen

  -- With nothing queued, what is seen is what is reached.
  Inv-Reach :
      (s : Search)
      → Inv s
      → ((x : Text) → ¬ Has x s.queue)
      → {d : Text} → Reach units edge start d
      → Has d s.seen
  Inv-Reach s v empty (one {d = d} e) = elim (v.closed start (inl refl)) [
    | inl q ↦ absurd (empty start q)
    | inr c ↦ c d e
  ]
  Inv-Reach s v empty (more {n = n} {d = d} r e) = elim (v.closed n (inr (Inv-Reach s v empty r))) [
    | inl q ↦ absurd (empty n q)
    | inr c ↦ c d e
  ]

  Inv-visit :
      (s : Search) (n : Text) (rest : List Text)
      → s.queue ≡ n ∷ rest
      → Inv s
      → Inv (visit_deps n (edges_of edge (get n units)) (record s { queue = rest }))
  Inv-visit s n rest q v = record {
    sound = sound;
    queued = λ x m. elim (w.queue_from x m) [
      | inl k ↦ elim (v.queued x (rw q (inr k))) [ inl e ↦ inl e | inr g ↦ inr (w.seen_kept x g) ]
      | inr k ↦ inr k
    ];
    closed = λ x m. elim m [
      | inl e ↦ old x (v.closed x (inl e))
      | inr g ↦ elim (w.seen_from x g) [
        | inl k ↦ old x (v.closed x (inr k))
        | inr (_, _, k) ↦ inl k
      ]
    ];
    same = w.out_seen v.same;
  }
    where
      ds : List Text
      ds = edges_of edge (get n units)

      w : Visited n ds (record s { queue = rest }) (visit_deps n ds (record s { queue = rest }))
      w = visit_deps-Visited n ds (record s { queue = rest })

      from_n : (x : Text) → Edge units edge n x → Reach units edge start x
      from_n x e = elim (v.queued n (rw q (inl refl))) [
        | inl f ↦ one (subst (λ y. Edge units edge y x) f e)
        | inr m ↦ more (v.sound n m) e
      ]

      sound :
          (x : Text)
          → Has x (visit_deps n ds (record s { queue = rest })).seen
          → Reach units edge start x
      sound x m = elim (w.seen_from x m) [ inl k ↦ v.sound x k | inr (k, ne, _) ↦ from_n x (k, ne) ]

      t : Search
      t = visit_deps n ds (record s { queue = rest })

      -- What the state before had queued or expanded.
      old :
          (x : Text)
          → Has x s.queue ⊎ ((d : Text) → Edge units edge x d → Has d s.seen)
          → Has x t.queue ⊎ ((d : Text) → Edge units edge x d → Has d t.seen)
      old x (inr c) = inr (λ d e. w.seen_kept d (c d e))
      old x (inl m) = elim (rw q at m) [
        | inl e ↦ inr (
            subst (λ y. (d : Text) → Edge units edge y d → Has d t.seen) e
              (λ d g. w.all_seen d g.0 g.1))
        | inr k ↦ inl (w.queue_kept x k)
      ]

  closure_loop_step :
      (fuel : ℕ) (s : Search) (n : Text) (rest : List Text)
      → s.queue ≡ n ∷ rest
      → closure_loop units edge (suc fuel) s
        ≡ closure_loop units edge fuel
            (visit_deps n (edges_of edge (get n units)) (record s { queue = rest }))
  unfolding closure_loop
  closure_loop_step fuel s n rest q = rw q refl

  -- With fuel beyond the work left, the loop ends with what is reached.
  closure_loop_total :
      (fuel : ℕ) (s : Search)
      → Inv s
      → work (targets edge (values units)) s < fuel
      → (out : List Text) × (closure_loop units edge fuel s ≡ some out)
        × ((d : Text) → Has d out ↔ Reach units edge start d)
  unfolding closure_loop work
  closure_loop_total zero s v h = absurd (omega (arith, h))
  closure_loop_total (suc fuel) s v h = elim (list_cases s.queue) [
    | inl q ↦ (
      s.out,
      rw q refl,
      λ d.
          (λ m. v.sound d ((v.same d).0 m), λ r. (v.same d).1 (Inv-Reach s v (λ x m. rw q at m) r)),
    )
    | inr (n, rest, q) ↦
        let ih = closure_loop_total fuel _ (Inv-visit s n rest q v) (round n rest q) in
        (ih.0, closure_loop_step fuel s n rest q ∙ ih.1, ih.2)
  ]
    where
      list_cases :
          (xs : List Text) → (xs ≡ []) ⊎ ((n : Text) × (rest : List Text) × (xs ≡ n ∷ rest))
      list_cases [] = inl refl
      list_cases (x ∷ xs) = inr (x, xs, refl)

      round :
          (n : Text) (rest : List Text)
          → s.queue ≡ n ∷ rest
          → work
              (targets edge (values units))
              (visit_deps n (edges_of edge (get n units)) (record s { queue = rest }))
            < fuel
      round n rest q =
          let l =
            visit_deps-work (targets edge (values units)) n (edges_of edge (get n units))
              (record s { queue = rest }) (λ d m. Has-targets edge units n d m) in
          omega (arith, l, rw q at h)

unseen_bound : (seen T : List Text) → unseen seen T ≤ length T
unfolding unseen
unseen_bound seen [] = omega arith
unseen_bound seen (x ∷ T) = ground (arith, unseen_bound seen T)

work_start :
    (T : List Text) (start : Text)
    → work T (record { seen = []; queue = start ∷ []; out = [] }) < suc (suc (length T))
unfolding work
work_start T start = omega (arith, unseen_bound [] T)

Inv-start :
    (units : Map Text ManagedUnit) (edge : ManagedUnit → List Text) (start : Text)
    → Inv units edge start (record { seen = []; queue = start ∷ []; out = [] })
Inv-start units edge start = record {
  sound = λ x m. absurd m;
  queued = λ x m. elim m [ inl e ↦ inl (sym e) | inr z ↦ absurd z ];
  closed = λ x m. elim m [ inl e ↦ inl (inl (sym e)) | inr z ↦ absurd z ];
  same = λ x. (λ m. m, λ m. m);
}

-- For every table and every selector of edges, the loop of closure ends within its fuel, and the
-- names found are exactly those that one or more edges lead to from the start, an edge from a unit to
-- itself left out.
pub closure_lem :
    (units : Map Text ManagedUnit) (edge : ManagedUnit → List Text) (start d : Text)
    → ((out : List Text) × (closure_loop units edge
            (closure_fuel units edge)
            (record { seen = []; queue = start ∷ []; out = [] })
          ≡ some out))
      × (Has d (closure units edge start) ↔ Reach units edge start d)
unfolding closure
closure_lem units edge start d =
    let total =
      closure_loop_total units edge start (closure_fuel units edge)
        (record { seen = []; queue = start ∷ []; out = [] }) (Inv-start units edge start)
        (work_start (targets edge (values units)) start) in
    ((total.0, total.1), rw total.1 (total.2 d))
