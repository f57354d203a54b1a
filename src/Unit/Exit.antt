-- ===== src/Unit/Exit.antt =====
-- rystemd/src/unit/mod.rs, which exit statuses count as success.
use rystemd.Prelude.{
  ℕ, ◌≡◌, refl, Bool, false, ◌&&◌, ◌||◌, Option, none, some, List, [], ◌∷◌, ◌++◌, arith, leb, ◌==◌,
  any, is_empty,
}
use rystemd.Unit.Config.{ExitCodeSet, ServiceConfig}

abbrev pub default_success : ExitCodeSet
default_success = record { codes = (0, 0) ∷ []; signals = [] }

-- `self.matches(code, signal)`
unfoldable pub status_matches : ExitCodeSet → Option ℕ → Option ℕ → Bool
status_matches s (some c) none =
    any (λ r. leb r.0 c && leb c r.1) s.codes || (is_empty s.codes && c == 0)
status_matches s none (some sig) = any (λ t. t == sig) s.signals
status_matches s _ _ = false

-- `success_exit_status` added to the default set.
abbrev pub extend_success : Option ExitCodeSet → ExitCodeSet
extend_success none = default_success
extend_success (some s) = record {
  codes = default_success.codes ++ s.codes;
  signals = default_success.signals ++ s.signals;
}

unfoldable pub effective_exit_success : ServiceConfig → ExitCodeSet
effective_exit_success sc = extend_success sc.success_exit_status

abbrev pub added_codes : Option ExitCodeSet → List (ℕ × ℕ)
added_codes none = []
added_codes (some s) = s.codes

abbrev pub added_signals : Option ExitCodeSet → List ℕ
added_signals none = []
added_signals (some s) = s.signals

-- For every service, exit code 0 is a success, and `SuccessExitStatus=` only adds to it: a code is a
-- success if it is 0 or in a listed range, a signal if it is listed, and nothing else is.
pub effective_exit_success_lem :
    (sc : ServiceConfig) (c sig : ℕ)
    → let s = effective_exit_success sc in
      (status_matches s (some c) none
        ≡ (c == 0 || any (λ r. leb r.0 c && leb c r.1) (added_codes sc.success_exit_status)))
      × (status_matches s none (some sig)
          ≡ any (λ t. t == sig) (added_signals sc.success_exit_status))
      × (status_matches s (some c) (some sig) ≡ false)
      × (status_matches s none none ≡ false)
unfolding effective_exit_success status_matches
effective_exit_success_lem sc c sig = split sc.success_exit_status
  where
    split :
        (o : Option ExitCodeSet)
        → (status_matches (extend_success o) (some c) none
            ≡ (c == 0 || any (λ r. leb r.0 c && leb c r.1) (added_codes o)))
          × (status_matches (extend_success o) none (some sig)
              ≡ any (λ t. t == sig) (added_signals o))
          × (status_matches (extend_success o) (some c) (some sig) ≡ false)
          × (status_matches (extend_success o) none none ≡ false)
    split none = (ground arith, refl, refl, refl)
    split (some s) = (ground arith, refl, refl, refl)
