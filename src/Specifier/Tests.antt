-- ===== src/Specifier/Tests.antt =====
-- A templated unit, on which specifier.rs is run.
use rystemd.Prelude.{split_once, ◌≡◌, refl, ◌∷◌, ◌++◌, codes}
use rystemd.Specifier.{SpecifierContext, specifier_text, expand}
use rystemd.Specifier.Literals.{doubled, expand-doubled}

abbrev backup : SpecifierContext
backup = record {
  unit_name = codes "backup@home.service";
  runtime_dir = codes "/run";
  user_name = codes "alice";
  uid = codes "1000";
  home = codes "/home/alice";
  hostname = codes "box";
  machine_id = codes "abcd";
}

expand-backup : expand backup (codes "100%% %p a%zc %") ≡ codes "100% backup a%zc %"
unfolding expand split_once
expand-backup = refl

expand-doubled_example :
    expand backup (doubled (codes "5% ") ++ b'%' ∷ b'u' ∷ codes "/%H")
    ≡ codes "5% " ++ specifier_text backup b'u' ++ expand backup (codes "/%H")
expand-doubled_example = expand-doubled backup (codes "5% ") b'u' (codes "/%H")
