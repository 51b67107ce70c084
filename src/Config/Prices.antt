-- ===== src/Config/Prices.antt =====
-- The prices that startup checks are the prices that requests pay: src/config.rs.
use sui_x402_verifier.Base.{
  ℕ, ◌≡◌, ◌<◌, sym, ap, subst, ◌⊎◌, inl, inr, true, some, List, [], ◌∷◌, Text, text_eq, text_eq_iff,
  Map, lookup, Bool-cases, arith, parse_uint,
}
use sui_x402_verifier.Config.{
  Config, PaymentOverride, policy_for, named_override, apply_to, or_keep,
}
use sui_x402_verifier.Config.Validate.{max_u128}
use sui_x402_verifier.Config.Load.{
  Priced, priced_policies, override_prices, below_the_gasless_floor, warned,
  gasless_minimum_base_units,
}

-- The list has an entry under this name with this amount and these decimals.
abbrev pub Lists : Text → Text → ℕ → List Priced → Type 0
Lists name amount decimals [] = ⊥
Lists name amount decimals (p ∷ ps) =
    ((p.name ≡ name) × (p.amount ≡ amount) × (p.decimals ≡ decimals))
    ⊎ Lists name amount decimals ps

override_prices-Lists :
    (config : Config) (policies : Map PaymentOverride) (name : Text) (over : PaymentOverride)
    → lookup name policies ≡ some over
    → Lists name
        (or_keep over.amount config.payment.amount)
        (or_keep over.asset_decimals config.payment.asset_decimals)
        (override_prices config policies)
unfolding lookup override_prices
override_prices-Lists config [] name over h = cc
override_prices-Lists config ((j, o) ∷ rest) name over h = elim (Bool-cases (text_eq j name)) [
  | inl same ↦
      let e : o ≡ over = ground arith in
      inl (
        (text_eq_iff j name).0 same,
        ap (λ (x : PaymentOverride). or_keep x.amount config.payment.amount) e,
        ap (λ (x : PaymentOverride). or_keep x.asset_decimals config.payment.asset_decimals) e,
      )
  | inr differ ↦ inr (override_prices-Lists config rest name over (ground arith))
]

warned_lem :
    (p : Priced) (value : ℕ)
    → parse_uint max_u128 p.amount ≡ some value
    → 0 < value
    → value < gasless_minimum_base_units p.decimals
    → warned p ≡ true
unfolding warned
warned_lem p value h a b = ground arith

kept-Lists :
    (ps : List Priced) (name amount : Text) (decimals value : ℕ)
    → Lists name amount decimals ps
    → parse_uint max_u128 amount ≡ some value
    → 0 < value
    → value < gasless_minimum_base_units decimals
    → Lists name amount decimals (below_the_gasless_floor ps)
unfolding below_the_gasless_floor
kept-Lists [] name amount decimals value l h a b = l
kept-Lists (p ∷ ps) name amount decimals value (inl (n, m, d)) h a b =
    let w : warned p ≡ true =
      warned_lem p value (subst (λ t. parse_uint max_u128 t ≡ some value) (sym m) h) a
        (subst (λ k. value < gasless_minimum_base_units k) (sym d) b) in
    rw (w) (inl (n, m, d))
kept-Lists (p ∷ ps) name amount decimals value (inr l) h a b =
    let ih = kept-Lists ps name amount decimals value l h a b in
    elim (Bool-cases (warned p)) [ inl w ↦ rw w (inr ih) | inr w ↦ rw w ih ]

-- No configured policy is sold below the floor unnoticed: if the price that a request under the
-- policy resolves to, in the decimals of the asset that it resolves to, is above zero and below
-- the smallest gasless transfer, then startup warns about that policy at that price.
pub policy_for-warned :
    (config : Config) (path name : Text) (over : PaymentOverride) (value : ℕ)
    → lookup name config.policies ≡ some over
    → parse_uint max_u128 (policy_for config path (some name)).payment.amount ≡ some value
    → 0 < value
    → value < gasless_minimum_base_units (policy_for config path (some name)).payment.asset_decimals
    → Lists name
        (policy_for config path (some name)).payment.amount
        (policy_for config path (some name)).payment.asset_decimals
        (below_the_gasless_floor (priced_policies config))
unfolding policy_for named_override apply_to priced_policies
policy_for-warned config path name over value h p a b =
    let amount = or_keep over.amount config.payment.amount in
    let decimals = or_keep over.asset_decimals config.payment.asset_decimals in
    rw (h, policy_for, named_override)
      (kept-Lists (priced_policies config) name amount decimals value
        (inr (override_prices-Lists config config.policies name over h))
        (rw (h, policy_for, named_override) at p) a (rw (h, policy_for, named_override) at b))
