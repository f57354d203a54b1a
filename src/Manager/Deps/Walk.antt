-- ===== src/Manager/Deps/Walk.antt =====
-- The search of deps.rs finds exactly the names that edges lead to.
use rystemd.Prelude.{
  ◌≡◌, ◌↔◌, ◌≢◌, sym, subst, ◌∙◌, true, ◌⊎◌, inl, inr, List, [], ◌∷◌, ◌++◌, arith, Bool-cases, Has,
  Has-append, Has-append_left, Has-append_right, Text, text_eq, text_eq_iff, text_key,
}
use rystemd.Manager.Deps.{contains, Search, visit_deps}

pub contains_iff : (d : Text) (ds : List Text) → (contains d ds ≡ true) ↔ Has d ds
contains_iff d [] = (λ e. cc, λ m. absurd m)
contains_iff d (x ∷ ds) =
    let ih = contains_iff d ds in
    (
      λ e. elim (Bool-cases (text_eq x d)) [
        | inl t ↦ inl ((text_eq_iff x d).0 t)
        | inr f ↦ inr (ih.0 (ground arith))
      ],
      λ m. elim m [
        | inl e ↦ let t = (text_eq_iff x d).1 e in ground arith
        | inr h ↦ let t = ih.1 h in ground arith
      ],
    )

-- What the expansion of `n` with the edges `ds` does to the variables.
pub record Visited (n : Text) (ds : List Text) (s t : Search) : Type 0 where
  pub all_seen : (d : Text) → Has d ds → d ≢ n → Has d t.seen
  pub seen_kept : (x : Text) → Has x s.seen → Has x t.seen
  pub queue_kept : (x : Text) → Has x s.queue → Has x t.queue
  pub seen_from : (x : Text) → Has x t.seen → Has x s.seen ⊎ (Has x ds × (x ≢ n) × Has x t.queue)
  pub queue_from : (x : Text) → Has x t.queue → Has x s.queue ⊎ Has x t.seen
  pub out_seen : ((x : Text) → Has x s.out ↔ Has x s.seen) → (x : Text) → Has x t.out ↔ Has x t.seen

Visited-skip :
    (n d : Text) (ds : List Text) (s t : Search)
    → (d ≢ n → Has d s.seen)
    → Visited n ds s t
    → Visited n (d ∷ ds) s t
Visited-skip n d ds s t h v = record {
  all_seen = λ x m ne. elim m [
    | inl e ↦ v.seen_kept x (subst (λ y. Has y s.seen) e (h (λ f. ne (sym e ∙ f))))
    | inr k ↦ v.all_seen x k ne
  ];
  seen_kept = v.seen_kept;
  queue_kept = v.queue_kept;
  seen_from = λ x m. elim (v.seen_from x m) [ inl k ↦ inl k | inr (k, ne, q) ↦ inr (inr k, ne, q) ];
  queue_from = v.queue_from;
  out_seen = v.out_seen;
}

abbrev pushed : Text → Search → Search
pushed d s = record { seen = d ∷ s.seen; queue = d ∷ s.queue; out = s.out ++ d ∷ [] }

Visited-push :
    (n d : Text) (ds : List Text) (s t : Search)
    → d ≢ n
    → Visited n ds (pushed d s) t
    → Visited n (d ∷ ds) s t
Visited-push n d ds s t ne v = record {
  all_seen = λ x m other. elim m [ inl e ↦ v.seen_kept x (inl e) | inr k ↦ v.all_seen x k other ];
  seen_kept = λ x m. v.seen_kept x (inr m);
  queue_kept = λ x m. v.queue_kept x (inr m);
  seen_from = λ x m. elim (v.seen_from x m) [
    | inl (inl e) ↦ inr (inl e, (λ f. ne (e ∙ f)), v.queue_kept x (inl e))
    | inl (inr k) ↦ inl k
    | inr (k, other, q) ↦ inr (inr k, other, q)
  ];
  queue_from = λ x m. elim (v.queue_from x m) [
    | inl (inl e) ↦ inr (v.seen_kept x (inl e))
    | inl (inr k) ↦ inl k
    | inr k ↦ inr k
  ];
  out_seen = λ h. v.out_seen (λ x. (
    λ m. elim (Has-append x s.out (d ∷ []) m) [
      | inl k ↦ inr ((h x).0 k)
      | inr (inl e) ↦ inl e
      | inr (inr z) ↦ absurd z
    ],
    λ m. elim m [
      | inl e ↦ Has-append_right x s.out (d ∷ []) (inl e)
      | inr k ↦ Has-append_left x s.out (d ∷ []) ((h x).1 k)
    ],
  ));
}

pub visit_deps-Visited :
    (n : Text) (ds : List Text) (s : Search) → Visited n ds s (visit_deps n ds s)
unfolding visit_deps
visit_deps-Visited n [] s = record {
  all_seen = λ d m ne. absurd m;
  seen_kept = λ x m. m;
  queue_kept = λ x m. m;
  seen_from = λ x m. inl m;
  queue_from = λ x m. inl m;
  out_seen = λ h. h;
}
visit_deps-Visited n (d ∷ ds) s = elim (Bool-cases (text_eq d n)) [
  | inl e ↦ rw e (
      Visited-skip n d ds s _ (λ ne. absurd (ne ((text_eq_iff d n).0 e)))
        (visit_deps-Visited n ds s))
  | inr e ↦ elim (Bool-cases (contains d s.seen)) [
    | inl c ↦
        rw (e, c)
          (Visited-skip n d ds s _ (λ ne. (contains_iff d s.seen).0 c) (visit_deps-Visited n ds s))
    | inr c ↦
        rw (e, c)
          (Visited-push n d ds s _ (λ f. ground (arith, text_eq_iff d n))
            (visit_deps-Visited n ds (pushed d s)))
  ]
]
