-- ===== src/Unit/Config/Kinds.antt =====
-- Unit kinds and the suffixes of unit names.
use rystemd.Prelude.{
  ℕ, ◌≡◌, ◌↔◌, refl, ap, ◌∙◌, false, inl, inr, none, some, [], ◌∷◌, ◌++◌, arith, Text, text_eq,
  text_eq_iff, codes, rsplit_once, contains_char, Option-cases,
}
use rystemd.Unit.Config.{
  UnitKind, service, timer, target, path, socket, device, mount, suffix, from_suffix,
  from_unit_name,
}

rsplit_once_absent : (c : ℕ) (s : Text) → contains_char c s ≡ false → rsplit_once c s ≡ none
unfolding rsplit_once
rsplit_once_absent c [] h = refl
rsplit_once_absent c (d ∷ s) h = ground (arith, rsplit_once_absent c s)

-- The last `c` of `p ++ c ∷ s` is the one in front of `s`, if `s` has none.
pub rsplit_once_last :
    (c : ℕ) (p s : Text) → contains_char c s ≡ false → rsplit_once c (p ++ c ∷ s) ≡ some (p, s)
unfolding rsplit_once
rsplit_once_last c [] s h = ground (arith, rsplit_once_absent c s)
rsplit_once_last c (d ∷ p) s h = ground (arith, rsplit_once_last c p s)

from_suffix-suffix : (k : UnitKind) → from_suffix (suffix k) ≡ some k
unfolding from_suffix suffix text_eq
from_suffix-suffix service = refl
from_suffix-suffix timer = refl
from_suffix-suffix target = refl
from_suffix-suffix path = refl
from_suffix-suffix socket = refl
from_suffix-suffix device = refl
from_suffix-suffix mount = refl

suffix_plain : (k : UnitKind) → contains_char b'.' (suffix k) ≡ false
unfolding suffix
suffix_plain service = refl
suffix_plain timer = refl
suffix_plain target = refl
suffix_plain path = refl
suffix_plain socket = refl
suffix_plain device = refl
suffix_plain mount = refl

from_suffix_inv : (s : Text) (k : UnitKind) → from_suffix s ≡ some k → s ≡ suffix k
unfolding from_suffix suffix
from_suffix_inv s k h = ground (
  arith,
  text_eq_iff s (codes "service"),
  text_eq_iff s (codes "timer"),
  text_eq_iff s (codes "target"),
  text_eq_iff s (codes "path"),
  text_eq_iff s (codes "socket"),
  text_eq_iff s (codes "device"),
  text_eq_iff s (codes "mount"),
)

rsplit_once_inv : (c : ℕ) (t p s : Text) → rsplit_once c t ≡ some (p, s) → t ≡ p ++ c ∷ s
unfolding rsplit_once
rsplit_once_inv c [] p s h = cc
rsplit_once_inv c (d ∷ t) p s h = elim (Option-cases (rsplit_once c t)) [
  | inl e ↦ ground arith
  | inr ((a, b), e) ↦ ground (arith, rsplit_once_inv c t a b e)
]

-- A name is recognised exactly if it ends in a dot and the suffix of a kind, and then as that kind.
pub from_unit_name_iff :
    (name : Text) (k : UnitKind)
    → (from_unit_name name ≡ some k) ↔ ((prefix : Text) × (name ≡ prefix ++ b'.' ∷ suffix k))
unfolding from_unit_name
from_unit_name_iff name k = (there, back)
  where
    there : from_unit_name name ≡ some k → (prefix : Text) × (name ≡ prefix ++ b'.' ∷ suffix k)
    there h = elim (Option-cases (rsplit_once b'.' name)) [
      | inl e ↦ absurd (ground arith)
      | inr ((a, b), e) ↦ (
        a,
        rsplit_once_inv b'.' name a b e
            ∙ ap (λ t. a ++ b'.' ∷ t) (from_suffix_inv b k (rw (e, from_unit_name) at h)),
      )
    ]

    back : ((prefix : Text) × (name ≡ prefix ++ b'.' ∷ suffix k)) → from_unit_name name ≡ some k
    back (prefix, e) =
        rw (e, rsplit_once_last b'.' prefix (suffix k) (suffix_plain k), from_unit_name)
          (from_suffix-suffix k)
