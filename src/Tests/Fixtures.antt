-- ===== src/Tests/Fixtures.antt =====
-- Concrete inputs: a crypto library whose digits are tallies, a fullnode that knows one transaction,
-- a configuration, and a request that carries a payment.
use sui_x402_verifier.Base.{
  ℕ, zero, suc, ◌+◌, ◌≡◌, refl, ap, ◌∙◌, true, false, Option, none, some, [], ◌∷◌, ◌==◌,
  if◌then◌else◌, Text, codes, length, All, ok, arith, is_whitespace,
}
use sui_x402_verifier.Json.{string}
use sui_x402_verifier.Config.{Config, PaymentConfig, memory, stub_accept_all, sui_grpc}
use sui_x402_verifier.Session.{Crypto, HexLaws, is_hex_digit}
use sui_x402_verifier.Session.Token.RoundTrip.{IsField}
use sui_x402_verifier.Session.Memory.{MemorySessionStore}
use sui_x402_verifier.RateLimit.{MemoryRateLimiter}
use sui_x402_verifier.Sui.{Node, Transaction, Executed, programmable, immutable_or_owned, found}
use sui_x402_verifier.X402.{PaymentPayload, PaymentRequirements, SuiExactPayload}
use sui_x402_verifier.Facilitator.{Codec, Facilitator}
use sui_x402_verifier.Auth.{AppState, Wire}
use sui_x402_verifier.Auth.Outcomes.{Request}

-- A number as that many `a`, and an `f` behind them.
abbrev tally : ℕ → Text → Text
tally zero rest = b'f' ∷ rest
tally (suc n) rest = b'a' ∷ tally n rest

abbrev pub tallies : Text → Text
tallies [] = []
tallies (n ∷ s) = tally n (tallies s)

abbrev add_first : ℕ → Option Text → Option Text
add_first n none = none
add_first n (some s) = some (n ∷ s)

abbrev count : ℕ → Text → Option Text
count n [] = if n == 0 then some [] else none
count n (c ∷ s) =
    let ended = add_first n (count 0 s) in
    let longer = count (n + 1) s in if c == b'f' then ended else longer

count-tally : (m n : ℕ) (s : Text) → count m (tally n s) ≡ add_first (m + n) (count 0 s)
count-tally m zero s = ground arith
count-tally m (suc n) s = count-tally (m + 1) n s ∙ ap (λ k. add_first k (count 0 s)) (omega arith)

count-tallies : (s : Text) → count 0 (tallies s) ≡ some s
count-tallies [] = refl
count-tallies (n ∷ s) =
    count-tally 0 n (tallies s)
    ∙ ap (λ k. add_first k (count 0 (tallies s))) (omega arith)
    ∙ ap (add_first n) (count-tallies s)

tally-digits :
    (n : ℕ) (s : Text)
    → All (λ c. is_hex_digit c ≡ true) s
    → All (λ c. is_hex_digit c ≡ true) (tally n s)
tally-digits zero s h = (refl, h)
tally-digits (suc n) s h = (refl, tally-digits n s h)

tallies-digits : (s : Text) → All (λ c. is_hex_digit c ≡ true) (tallies s)
tallies-digits [] = tt
tallies-digits (n ∷ s) = tally-digits n (tallies s) (tallies-digits s)

abbrev pub test_crypto : Crypto
test_crypto = record {
  mac = λ key part. length key ∷ length part ∷ [];
  hex_encode = tallies;
  hex_decode = count 0;
}

pub test_crypto-HexLaws : HexLaws test_crypto
test_crypto-HexLaws = record { decode-encode = count-tallies; encode-digits = tallies-digits }

-- A wallet that is not the zero address.
abbrev pub test_wallet : Text
test_wallet = codes "0x1234567890123456789012345678901234567890123456789012345678901234"

abbrev pub test_asset : Text
test_asset = codes "0x2::sui::SUI"

abbrev pub test_payment : PaymentConfig
test_payment = record {
  scheme = codes "exact";
  network = codes "sui:testnet";
  amount = codes "1000";
  asset = test_asset;
  asset_decimals = 9;
  pay_to = test_wallet;
  max_timeout_seconds = 60;
  description = codes "rpc";
  service_name = none;
  tags = [];
  icon_url = none;
  gas_station = none;
}

abbrev pub test_config : Config
test_config = record {
  sui_grpc_url = codes "http://node";
  sui_chain = codes "testnet";
  verification_mode = stub_accept_all;
  payment = test_payment;
  policies = [];
  routes = [];
  free_tier = record { max_requests = 2; window_secs = 60 };
  paid_tier = record { quota = 3; duration_secs = 600 };
  store = record { backend = memory; redis_url = [] };
  session_hmac_secret = codes "ffffffffffffffffffffffffffffffffffffffffffffffffffffffffffffffff";
}

abbrev pub test_terms : PaymentRequirements
test_terms = record {
  scheme = codes "exact";
  network = codes "sui:testnet";
  amount = codes "1000";
  asset = test_asset;
  pay_to = test_wallet;
  max_timeout_seconds = 60;
  extra = none;
}

abbrev pub test_sui : SuiExactPayload
test_sui = record { signature = codes "sig"; transaction = codes "tx" }

abbrev pub test_payload : PaymentPayload
test_payload = record {
  x402_version = 2;
  resource = none;
  accepted = test_terms;
  payload = string [];
  extensions = none;
}

abbrev pub test_codec : Codec
test_codec = record {
  parse_payload = λ json. ok test_sui;
  b64_decode = λ text. some text;
  sha256_hex = λ bytes. bytes;
}

abbrev pub test_executed : Executed
test_executed = record {
  digest = some (codes "digest");
  status = some (record { success = some true; description = none });
  balance_changes =
      record {
        address = some test_wallet;
        coin_type = some test_asset;
        amount = some (codes "1000");
      }
      ∷ [];
}

abbrev pub test_transaction : Transaction
test_transaction = record {
  sender = codes "0xpayer";
  kind = programmable (immutable_or_owned (codes "coin") 7 ∷ []);
  gas_objects = [];
}

abbrev pub test_node : Node
test_node = record {
  b64_decode = λ text. ok text;
  parse_transaction = λ bytes. ok test_transaction;
  parse_signature = λ bytes. ok bytes;
  verify_signature = λ bytes signature sender. ok (record { is_valid = some true; reason = none });
  simulate = λ bytes. ok (some test_executed);
  get_object = λ id. found (some 7);
  execute = λ bytes signature. ok (some test_executed);
  service_chain = ok (some (codes "testnet"));
}

abbrev pub test_facilitator : Facilitator
test_facilitator = record { mode = stub_accept_all; network = codes "sui:testnet"; has_sui = false }

abbrev pub chain_facilitator : Facilitator
chain_facilitator = record { mode = sui_grpc; network = codes "sui:testnet"; has_sui = true }

abbrev pub test_wire : Wire
test_wire = record {
  decode_payment = λ value. ok test_payload;
  encode_challenge = λ c. some (codes "challenge");
  encode_receipt = λ r. some (codes "receipt");
  challenge_body = λ c. some (codes "body");
  error_text = λ e. codes "error";
}

abbrev pub test_sessions : MemorySessionStore
test_sessions = record {
  sessions = [];
  seen_payments = [];
  hmac_key = codes "key";
  replay_retention_secs = 600;
}

abbrev pub test_state : AppState MemorySessionStore MemoryRateLimiter
test_state = record {
  config = test_config;
  breaker = [];
  sessions = test_sessions;
  limiter = [];
  facilitator = test_facilitator;
  broadcasts = [];
}

-- A request that carries a payment, and one that carries nothing.
abbrev pub paying_request : Request
paying_request = record {
  headers = (codes "payment-signature", codes "abc") ∷ [];
  client_ip = none;
  path = codes "/x";
  policy = none;
  resource_url = codes "/x";
}

pub p-IsField : IsField (codes "p")
unfolding is_whitespace
p-IsField = ground arith
