-- ===== src/Tests/Starts.antt =====
-- The theorems on loading and on startup at work: src/config.rs, src/main.rs.
use sui_x402_verifier.Base.{
  ℕ, zero, suc, ◌≡◌, refl, none, some, [], ◌∷◌, if◌then◌else◌, Text, codes, text_eq, ok, err,
  lookup, parse_uint, utf8_len, is_empty, trim, is_whitespace, eq_ignore_ascii_case,
}
use sui_x402_verifier.Config.{Config, PaymentOverride, policy_for, sui_grpc}
use sui_x402_verifier.Config.Validated.{IsUsable}
use sui_x402_verifier.Config.Validate.{validate, hmac_key}
use sui_x402_verifier.Config.Load.{Sources, load, apply_environment, pay_to_env_var}
use sui_x402_verifier.Config.Loaded.{load-pay_to}
use sui_x402_verifier.Session.Memory
use sui_x402_verifier.Session.Memory.{MemorySessionStore}
use sui_x402_verifier.Facilitator
use sui_x402_verifier.Facilitator.{verify_chain}
use sui_x402_verifier.Sui.{check_chain}
use sui_x402_verifier.Main.{Connections, Service, in_memory, start, start_with}
use sui_x402_verifier.Main.Started.{broadcasts_of, IsOnChain, start-ready}
use sui_x402_verifier.Tests.Fixtures.{
  test_crypto, test_config, test_node, test_wallet, chain_facilitator,
}

-- An override that says nothing, and one that names the wallet.
abbrev silent : PaymentOverride
silent = record {
  pay_to = none;
  amount = none;
  asset = none;
  asset_decimals = none;
  description = none;
  free_tier = none;
  paid_tier = none;
}

abbrev file_config : Config
file_config = record test_config {
  verification_mode = sui_grpc;
  policies = (codes "p", silent) ∷ [];
}

abbrev loaded_config : Config
loaded_config = record file_config {
  policies = (codes "p", record silent { pay_to = some test_wallet }) ∷ [];
}

abbrev test_sources : Sources
test_sources = record {
  read_to_string = λ path. ok (codes "yaml");
  from_yaml = λ raw. ok file_config;
  var = λ name. if text_eq name (codes "X402_PAY_TO_P") then some test_wallet else none;
}

applied_lem : apply_environment test_sources.var file_config ≡ loaded_config
unfolding apply_environment sui_x402_verifier.Config.Load.override_policies pay_to_env_var
    sui_x402_verifier.Config.Load.to_ascii_uppercase text_eq
applied_lem = refl

valid_lem : validate test_crypto loaded_config ≡ ok tt
unfolding validate text_eq sui_x402_verifier.Config.Validate.bad_amount? parse_uint
    sui_x402_verifier.Config.Validate.validate_pay_to utf8_len
    sui_x402_verifier.Config.Validate.is_ascii_hexdigit
    sui_x402_verifier.Config.Validate.validate_free sui_x402_verifier.Config.Validate.validate_paid
    sui_x402_verifier.Config.Validate.validate_discovery_metadata
    sui_x402_verifier.Config.Validate.validate_policies
    sui_x402_verifier.Config.Validate.validate_override
    sui_x402_verifier.Config.Validate.validate_routes is_empty trim is_whitespace
valid_lem = refl

loaded_lem : load test_crypto test_sources (codes "config.yaml") ≡ ok loaded_config
unfolding load
loaded_lem = rw (applied_lem, valid_lem) refl

named_lem :
    lookup (codes "p") loaded_config.policies ≡ some (record silent { pay_to = some test_wallet })
unfolding lookup text_eq
named_lem = refl

variable_lem : test_sources.var (pay_to_env_var (codes "p")) ≡ some test_wallet
unfolding text_eq pay_to_env_var
variable_lem = refl

load-pay_to_example :
    ((policy_for loaded_config (codes "/x") (some (codes "p"))).payment.pay_to ≡ test_wallet)
    × IsUsable (policy_for loaded_config (codes "/x") (some (codes "p")))
load-pay_to_example =
    load-pay_to test_crypto test_sources (codes "config.yaml") loaded_config (codes "/x")
      (codes "p") test_wallet (record silent { pay_to = some test_wallet }) loaded_lem named_lem
      variable_lem

abbrev test_connections : Connections ℕ ℕ
test_connections = record {
  fullnode = λ url. ok tt;
  redis_sessions = λ url key. err (codes "refused");
  redis_limiter = λ url. err (codes "refused");
}

-- The key that the secret of the configuration decodes to.
abbrev zeros : ℕ → Text
zeros zero = []
zeros (suc n) = 0 ∷ zeros n

abbrev started : Service ℕ ℕ
started = in_memory (record {
  config = loaded_config;
  breaker = [];
  sessions = Memory.new (zeros 64) 600;
  limiter = [];
  facilitator = chain_facilitator;
  broadcasts = [];
})

started_with_lem : start_with test_connections test_crypto test_node loaded_config ≡ ok started
unfolding start_with hmac_key is_empty text_eq trim is_whitespace verify_chain check_chain
    eq_ignore_ascii_case sui_x402_verifier.Sui.reported_chain Facilitator.new Memory.new
started_with_lem = refl

started_lem :
    start test_connections test_crypto test_node test_sources (codes "config.yaml") ≡ ok started
unfolding start
started_lem = rw (loaded_lem, started_with_lem) refl

start-ready_example :
    IsUsable (policy_for loaded_config (codes "/x") none)
    × (chain_facilitator ≡ Facilitator.new sui_grpc loaded_config.payment.network)
    × (broadcasts_of started ≡ [])
    × IsOnChain sui_grpc test_node (codes "testnet")
start-ready_example =
    start-ready test_connections test_crypto test_node test_sources (codes "config.yaml")
      (codes "/x") none started started_lem
