-- ===== src/Config/Load.antt =====
-- Loading the configuration, and the prices that startup warns about: src/config.rs. The file
-- system, the YAML parser and the environment are the parameter `Sources`.
use sui_x402_verifier.Base.{
  ℕ, ◌-◌, ◌/◌, ◌^◌, min, Bool, false, ◌&&◌, Option, none, some, List, [], ◌∷◌, ◌++◌, map, ltb, leb,
  ◌==◌, if◌then◌else◌, Text, codes, Map, parse_uint, Result, ok, err, ◌>>=◌,
}
use sui_x402_verifier.Session.{Crypto}
use sui_x402_verifier.Config.{Config, PaymentOverride, or_keep, default_policy_label}
use sui_x402_verifier.Config.Validate.{ConfigError, validate, max_u128}

abbrev pub env_hmac_secret : Text
env_hmac_secret = codes "X402_SESSION_HMAC_SECRET"

abbrev pub env_pay_to : Text
env_pay_to = codes "X402_PAY_TO"

unfoldable pub to_ascii_uppercase : ℕ → ℕ
to_ascii_uppercase c = if leb b'a' c && leb c b'z' then c - 32 else c

-- A character of the variable's name.
abbrev env_char : ℕ → ℕ
env_char c = if to_ascii_uppercase c == b'-' then b'_' else to_ascii_uppercase c

unfoldable pub pay_to_env_var : Text → Text
unfolding to_ascii_uppercase
pay_to_env_var policy = codes "X402_PAY_TO_" ++ map env_char policy

-- A text of the file, of the parser, or what validation found.
pub data LoadError : Type 0 where
  reading parsing : Text → LoadError
  invalid : ConfigError → LoadError

pub record Sources : Type 0 where
  pub read_to_string : Text → Result Text Text
  pub from_yaml : Text → Result Text Config
  pub var : Text → Option Text

abbrev pub override_pay_to : Option Text → PaymentOverride → PaymentOverride
override_pay_to none over = over
override_pay_to (some pay_to) over = record over { pay_to = some pay_to }

unfoldable pub override_policies : (Text → Option Text) → Map PaymentOverride → Map PaymentOverride
unfolding pay_to_env_var
override_policies var [] = []
override_policies var ((name, policy) ∷ rest) =
    (name, override_pay_to (var (pay_to_env_var name)) policy) ∷ override_policies var rest

-- The environment wins over the file.
unfoldable pub apply_environment : (Text → Option Text) → Config → Config
unfolding override_policies
apply_environment var config = record config {
  session_hmac_secret = or_keep (var env_hmac_secret) config.session_hmac_secret;
  payment = record (config.payment) { pay_to = or_keep (var env_pay_to) config.payment.pay_to };
  policies = override_policies var config.policies;
}

abbrev pub failing {ℓ} :
    {A : Type ℓ} {E : Type 0} → (E → LoadError) → Result E A → Result LoadError A
failing f (ok a) = ok a
failing f (err e) = err (f e)

abbrev pub when_valid : Result ConfigError (Unit {0}) → Config → Result LoadError Config
when_valid (ok u) config = ok config
when_valid (err e) config = err (invalid e)

-- `Config::load`
unfoldable pub load : Crypto → Sources → Text → Result LoadError Config
unfolding apply_environment
load crypto sources path = do
  raw ← failing reading (sources.read_to_string path)
  config ← failing parsing (sources.from_yaml raw)
  when_valid (validate crypto (apply_environment sources.var config))
      (apply_environment sources.var config)

-- `10u128.saturating_pow(decimals) / 100`
unfoldable pub gasless_minimum_base_units : ℕ → ℕ
gasless_minimum_base_units decimals = min (10 ^ decimals) max_u128 / 100

pub record Priced : Type 0 where
  pub name : Text
  pub amount : Text
  pub decimals : ℕ

unfoldable pub override_prices : Config → Map PaymentOverride → List Priced
override_prices config [] = []
override_prices config ((name, over) ∷ rest) =
    record {
      name = name;
      amount = or_keep over.amount config.payment.amount;
      decimals = or_keep over.asset_decimals config.payment.asset_decimals;
    }
    ∷ override_prices config rest

unfoldable pub priced_policies : Config → List Priced
unfolding override_prices
priced_policies config =
    record {
      name = default_policy_label;
      amount = config.payment.amount;
      decimals = config.payment.asset_decimals;
    }
    ∷ override_prices config config.policies

-- Whether a price is above zero and below the floor.
unfoldable pub warned : Priced → Bool
unfolding gasless_minimum_base_units
warned priced = elim (parse_uint max_u128 priced.amount) [
  | none ↦ false
  | some value ↦ ltb 0 value && ltb value (gasless_minimum_base_units priced.decimals)
]

-- `warn_if_below_the_gasless_floor`: the policies that it warns about.
unfoldable pub below_the_gasless_floor : List Priced → List Priced
unfolding warned
below_the_gasless_floor [] = []
below_the_gasless_floor (p ∷ ps) =
    let rest = below_the_gasless_floor ps in if warned p then p ∷ rest else rest
