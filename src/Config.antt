-- ===== src/Config.antt =====
-- The configuration and the terms that it resolves a request to: src/config.rs. Listen addresses
-- are left out.
pub mod Validate
pub mod Policies
pub mod Validated
pub mod Load
pub mod Loaded
pub mod Prices
use sui_x402_verifier.Base.{
  ℕ, ◌≤◌, Bool, true, false, not, ◌&&◌, Option, none, some, List, [], ◌∷◌, ◌++◌, leb, if◌then◌else◌,
  Text, codes, Map, lookup, starts_with, utf8_len,
}

pub data VerificationMode : Type 0 where
  stub_accept_all sui_grpc : VerificationMode

pub record PaymentConfig : Type 0 where
  pub scheme : Text
  pub network : Text
  pub amount : Text
  pub asset : Text
  pub asset_decimals : ℕ
  pub pay_to : Text
  pub max_timeout_seconds : ℕ
  pub description : Text
  pub service_name : Option Text
  pub tags : List Text
  pub icon_url : Option Text
  pub gas_station : Option Text

pub record FreeTierConfig : Type 0 where
  pub max_requests : ℕ
  pub window_secs : ℕ

pub record PaidTierConfig : Type 0 where
  pub quota : ℕ
  pub duration_secs : ℕ

pub record PaymentOverride : Type 0 where
  pub pay_to : Option Text
  pub amount : Option Text
  pub asset : Option Text
  pub asset_decimals : Option ℕ
  pub description : Option Text
  pub free_tier : Option FreeTierConfig
  pub paid_tier : Option PaidTierConfig

pub record ResolvedPolicy : Type 0 where
  pub label : Text
  pub payment : PaymentConfig
  pub free_tier : FreeTierConfig
  pub paid_tier : PaidTierConfig

pub record RouteOverride : Type 0 where
  pub path_prefix : Text
  pub overrides : PaymentOverride

pub data StoreBackend : Type 0 where
  memory redis : StoreBackend

pub record StoreConfig : Type 0 where
  pub backend : StoreBackend
  pub redis_url : Text

pub record Config : Type 0 where
  pub sui_grpc_url : Text
  pub sui_chain : Text
  pub verification_mode : VerificationMode
  pub payment : PaymentConfig
  pub policies : Map PaymentOverride
  pub routes : List RouteOverride
  pub free_tier : FreeTierConfig
  pub paid_tier : PaidTierConfig
  pub store : StoreConfig
  pub session_hmac_secret : Text

abbrev pub default_policy_label : Text
default_policy_label = codes "default"

-- What an override leaves in place of a default.
abbrev pub or_keep {ℓ} : {A : Type ℓ} → Option A → A → A
or_keep none a = a
or_keep (some b) a = b

unfoldable pub apply_to : PaymentOverride → ResolvedPolicy → ResolvedPolicy
apply_to over resolved = record resolved {
  payment = record (resolved.payment) {
    pay_to = or_keep over.pay_to resolved.payment.pay_to;
    amount = or_keep over.amount resolved.payment.amount;
    asset = or_keep over.asset resolved.payment.asset;
    asset_decimals = or_keep over.asset_decimals resolved.payment.asset_decimals;
    description = or_keep over.description resolved.payment.description;
  };
  free_tier = or_keep over.free_tier resolved.free_tier;
  paid_tier = or_keep over.paid_tier resolved.paid_tier;
}

-- `max_by_key` keeps the last of the greatest: whether a route takes the place of the best so far.
unfoldable pub beats : Option RouteOverride → RouteOverride → Bool
beats none route = true
beats (some best) route = leb (utf8_len best.path_prefix) (utf8_len route.path_prefix)

-- `routes.iter().filter(matches).max_by_key(prefix length)`, from the best so far.
unfoldable pub longest_match :
    Text → Option RouteOverride → List RouteOverride → Option RouteOverride
unfolding beats
longest_match path best [] = best
longest_match path best (route ∷ routes) =
    longest_match path
      (if starts_with path route.path_prefix && beats best route then some route else best) routes

-- The terms that no policy and no route changes.
unfoldable pub defaults : Config → ResolvedPolicy
defaults config = record {
  label = default_policy_label;
  payment = config.payment;
  free_tier = config.free_tier;
  paid_tier = config.paid_tier;
}

-- The named policy, if the request has one that is configured.
unfoldable pub named_override : Config → Option Text → Option (Text × PaymentOverride)
named_override config none = none
named_override config (some name) = elim (lookup name config.policies) [
  | none ↦ none
  | some over ↦ some (name, over)
]

unfoldable pub route_for : Config → Text → ResolvedPolicy
unfolding longest_match apply_to defaults
route_for config path = elim (longest_match path none config.routes) [
  | none ↦ defaults config
  | some route ↦ record (apply_to route.overrides (defaults config)) { label = route.path_prefix }
]

unfoldable pub policy_for : Config → Text → Option Text → ResolvedPolicy
unfolding named_override apply_to defaults route_for
policy_for config path policy = elim (named_override config policy) [
  | some (name, over) ↦ record (apply_to over (defaults config)) { label = name }
  | none ↦ route_for config path
]

unfoldable pub is_unknown_policy : Config → Text → Bool
is_unknown_policy config policy = elim (lookup policy config.policies) [
  | none ↦ true
  | some _ ↦ false
]
