-- ===== src/Manager/Deps/Propagate.antt =====
-- Which units stop with a unit, by deps.rs.
use rystemd.Prelude.{
  ◌≡◌, refl, ◌≢◌, ◌↔◌, ◌⊎◌, some, none, Option, ◌++◌, Has-append, Has-append_left, Has-append_right,
  sym, subst, ◌∙◌, inl, inr, [], ◌∷◌, arith, Has, Bool-cases, Text, text_eq, text_eq_iff, text_key,
  Map,
}
use mathlib.Core.Option.{none-ne-some, some-injective}
use rystemd.Unit.Config.{UnitFile}
use rystemd.Manager.State.{ManagedUnit}
use rystemd.Manager.Deps.{contains, of_file, requires, stop_propagate}
use rystemd.Manager.Deps.Walk.{contains_iff}

-- An entry of the table.
abbrev pub Holds : Map Text ManagedUnit → Text → ManagedUnit → Type 0
Holds units n u = Has (n, u) units

stop_propagate-requires :
    (units : Map Text ManagedUnit) (name n : Text)
    → Has n (stop_propagate units name)
      ↔ ((u : ManagedUnit) × Holds units n u × (n ≢ name) × Has name (requires u))
unfolding stop_propagate
stop_propagate-requires [] name n = (λ m. absurd m, λ (u, h, ne, r). absurd h)
stop_propagate-requires ((k, u) ∷ units) name n =
    let ih = stop_propagate-requires units name n in
    elim (Bool-cases (text_eq k name)) [
      | inl e ↦ rw e (
        λ m. let (v, h, ne, r) = ih.0 m in (v, inr h, ne, r),
        λ (v, h, ne, r). elim h [
          | inl same ↦ absurd (ne (sym (λ i. (same i).0) ∙ (text_eq_iff k name).0 e))
          | inr old ↦ ih.1 (v, old, ne, r)
        ],
      )
      | inr e ↦ elim (Bool-cases (contains name (requires u))) [
        | inl c ↦
            rw (e, c)
              (
                λ m. elim m [
                  | inl same ↦ (
                    u,
                    inl (λ i. (same i, u)),
                    (λ f. ground (arith, text_eq_iff k name, same ∙ f)),
                    (contains_iff name (requires u)).0 c,
                  )
                  | inr old ↦ let (v, h, ne, r) = ih.0 old in (v, inr h, ne, r)
                ],
                λ (v, h, ne, r). elim h [
                  | inl same ↦ inl (λ i. (same i).0)
                  | inr old ↦ inr (ih.1 (v, old, ne, r))
                ],
              )
        | inr c ↦
            rw (e, c)
              (
                λ m. let (v, h, ne, r) = ih.0 m in (v, inr h, ne, r),
                λ (v, h, ne, r). elim h [
                  | inl same ↦
                      let t =
                        (contains_iff name (requires u)).1
                          (subst (λ w. Has name (requires w)) (sym (λ i. (same i).1)) r) in
                      absurd (ground arith)
                  | inr old ↦ ih.1 (v, old, ne, r)
                ],
              )
      ]
    ]

-- The unit has a file that names the other one in `Requires=` or in `BindsTo=`.
abbrev pub DependsOn : ManagedUnit → Text → Type 0
DependsOn u name =
    (f : UnitFile) × (u.file ≡ some f) × (Has name f.unit.requires ⊎ Has name f.unit.binds_to)

requires_iff : (u : ManagedUnit) (name : Text) → Has name (requires u) ↔ DependsOn u name
unfolding requires
requires_iff u name = of_option u.file
  where
    of_option :
        (o : Option UnitFile)
        → Has name (of_file (λ f. f.unit.requires ++ f.unit.binds_to) o)
          ↔ ((f : UnitFile) × (o ≡ some f) × (Has name f.unit.requires ⊎ Has name f.unit.binds_to))
    of_option none = (λ h. absurd h, λ (f, e, h). absurd (none-ne-some _ e))
    of_option (some f) = (
      λ h. (f, refl, Has-append name f.unit.requires f.unit.binds_to h),
      λ (g, e, h). elim h [
        | inl l ↦
            Has-append_left name f.unit.requires f.unit.binds_to
              (subst (λ x. Has name x.unit.requires) (sym (some-injective _ _ e)) l)
        | inr r ↦
            Has-append_right name f.unit.requires f.unit.binds_to
              (subst (λ x. Has name x.unit.binds_to) (sym (some-injective _ _ e)) r)
      ],
    )

-- The units that stop with `name` are exactly the other units of the table whose files name it in
-- Requires= or BindsTo=.
pub stop_propagate_iff :
    (units : Map Text ManagedUnit) (name n : Text)
    → Has n (stop_propagate units name)
      ↔ ((u : ManagedUnit) × Holds units n u × (n ≢ name) × DependsOn u name)
stop_propagate_iff units name n =
    let r = stop_propagate-requires units name n in
    (
      λ h. let (u, p, q, d) = r.0 h in (u, p, q, (requires_iff u name).0 d),
      λ (u, p, q, d). r.1 (u, p, q, (requires_iff u name).1 d),
    )
