-- ===== src/Tests/Limits.antt =====
-- The free tier's theorems and those of the configuration at work: src/ratelimit.rs, src/config.rs.
use sui_x402_verifier.Base.{
  ◌≡◌, ◌≤◌, ◌⊎◌, refl, Text, some, true, false, none, [], ◌∷◌, codes, arith, All, starts_with, ok,
  lookup, text_eq, parse_uint, utf8_len, is_empty, trim, is_whitespace,
}
use sui_x402_verifier.RateLimit
use sui_x402_verifier.RateLimit.{Window, hit, judge, roll, estimate, entry_of, check_at}
use sui_x402_verifier.RateLimit.Address.{IpAddr, v4}
use sui_x402_verifier.RateLimit.Limits.{admitted, admitted-le, hit-refused}
use sui_x402_verifier.Config.{
  RouteOverride, policy_for, route_for, defaults, apply_to, is_unknown_policy,
}
use sui_x402_verifier.Config.Validate.{validate}
use sui_x402_verifier.Config.Validated.{IsUsable, policy_for-IsUsable}
use sui_x402_verifier.Config.Policies.{Has, Matches, NoLonger, policy_for-cases}
use sui_x402_verifier.Tests.Fixtures.{test_crypto, test_config}

abbrev someone : IpAddr
someone = v4 10 0 0 1

no_entry : (entry_of [] (RateLimit.key_for (codes "p") someone) 120 60).start ≤ 120
unfolding entry_of lookup
no_entry = omega arith

admitted-le_example : admitted [] (codes "p") someone 2 60 (121 ∷ 122 ∷ 130 ∷ []) ≤ 2
admitted-le_example =
    admitted-le [] (codes "p") someone 2 60 120 (121 ∷ 122 ∷ 130 ∷ []) (omega arith) no_entry
      (refl, (refl, (refl, tt)))

-- A client that has used up its two requests.
abbrev used_up : Window
used_up = record { start = 120; current = 2; previous = 0; window_secs = 60 }

refused_lem : (hit used_up 2 60 130).1.allowed ≡ false
unfolding hit judge roll estimate
refused_lem = refl

hit-refused_example : hit (hit used_up 2 60 130).0 2 60 200 ≡ hit used_up 2 60 200
hit-refused_example =
    hit-refused used_up 2 60 130 200 (omega arith) refl (omega arith) (omega arith) refused_lem

pub test_config-valid : validate test_crypto test_config ≡ ok tt
unfolding validate text_eq sui_x402_verifier.Config.Validate.bad_amount? parse_uint
    sui_x402_verifier.Config.Validate.validate_pay_to utf8_len
    sui_x402_verifier.Config.Validate.is_ascii_hexdigit
    sui_x402_verifier.Config.Validate.validate_free sui_x402_verifier.Config.Validate.validate_paid
    sui_x402_verifier.Config.Validate.validate_discovery_metadata
    sui_x402_verifier.Config.Validate.validate_policies
    sui_x402_verifier.Config.Validate.validate_routes is_empty trim is_whitespace
test_config-valid = refl

policy_for-IsUsable_example : IsUsable (policy_for test_config (codes "/x") none)
policy_for-IsUsable_example =
    policy_for-IsUsable test_crypto test_config test_config-valid (codes "/x") none

-- A policy that the configuration does not know.
unknown_lem :
    (name : Text) → some (codes "q") ≡ some name → is_unknown_policy test_config name ≡ true
unfolding is_unknown_policy lookup
unknown_lem name h = refl

policy_for-cases_example :
    (All (λ s. starts_with (codes "/x") s.path_prefix ≡ false) test_config.routes
      × (policy_for test_config (codes "/x") (some (codes "q")) ≡ defaults test_config))
    ⊎ ((r : RouteOverride) × Has r test_config.routes
        × Matches (codes "/x") r
        × NoLonger (codes "/x") r test_config.routes
        × (policy_for test_config (codes "/x") (some (codes "q"))
            ≡ record (apply_to r.overrides (defaults test_config)) { label = r.path_prefix }))
policy_for-cases_example = policy_for-cases test_config (codes "/x") (some (codes "q")) unknown_lem
