-- ===== src/Tests/Clients.antt =====
-- The payment client's theorems at work: src/payclient.rs. The test encoder accepts one payment
-- only, whose header is a fixed text.
use sui_x402_verifier.Base.{
  ℕ, ◌≤◌, ◌==◌, ap, ◌≡◌, ◌≢◌, inl, inr, refl, ◌∙◌, sym, Bool, true, false, ◌&&◌, Option, none, some,
  [], ◌∷◌, if◌then◌else◌, Text, codes, text_eq, text_eq_iff, trim, trim_start, trim_end, is_empty,
  is_whitespace, parse_uint, max_u64, ok, err, arith, lookup, Bool-cases,
}
use sui_x402_verifier.Json.{Json, null, bool, number, string, array, object, get, as_str, get_field}
use sui_x402_verifier.X402.Decode.{payload_of, sui_of}
use sui_x402_verifier.X402.{PaymentPayload, from_config}
use sui_x402_verifier.Facilitator.{Codec}
use sui_x402_verifier.Auth
use sui_x402_verifier.Auth.{free_meter}
use sui_x402_verifier.Auth.Headers.{meter_headers}
use sui_x402_verifier.Payclient.{default_payment_paths, Funding}
use sui_x402_verifier.Payclient.Build.{Chain, Draft, OwnedObject, build_payment, funding}
use sui_x402_verifier.Payclient.Keys.{Key}
use sui_x402_verifier.Payclient.Wire.{
  Encoder, PaymentRequirements, payload_json, signed_json, accepted_json, build_payment_header,
}
use sui_x402_verifier.Payclient.Reader.{read_meter}
use sui_x402_verifier.Payclient.Paths.{IsBuilt, build_payment-IsBuilt}
use sui_x402_verifier.Payclient.Written.{written_payload, payload_of-payload_json}
use sui_x402_verifier.Payclient.Honest.{
  Interop, IsAccepted, client_terms, build_payment_header-IsAccepted,
}
use sui_x402_verifier.Payclient.Metered.{Delivers, Shows, read_meter-meter_headers}
use sui_x402_verifier.Tests.Fixtures.{
  test_codec, test_wire, test_payment, test_wallet, test_asset, test_terms, test_facilitator,
}

abbrev coin : OwnedObject
coin = record {
  balance = some 20000000;
  object_id = some (codes "0xc0");
  version = some 7;
  digest = some (codes "d");
}

-- A chain on which the payer holds one coin of each type, and no address balance.
abbrev test_chain : Chain
test_chain = record {
  connect = ok tt;
  get_balance = λ owner coin_type. ok (
      some
        (record { balance = some 20000000; address_balance = none; coin_balance = some 20000000 }));
  list_owned_objects = λ owner object_type. ok (coin ∷ []);
  epoch = ok (some 9);
  reference_gas_price = ok (some 750);
  chain_id = ok (some (codes "chain"));
  parse_address = λ text. ok text;
  parse_digest = λ text. ok text;
  parse_type = λ text. ok text;
  try_build = λ draft. ok draft;
  to_bcs = λ draft. ok (codes "tx");
}

abbrev test_key : Key
test_key = record { address = codes "0xpayer"; sign = λ draft. ok (codes "sig") }

abbrev test_funds : Funding
test_funds = record { address_balance = 0; coin_balance = 20000000 }

funding_lem : funding test_chain (codes "0xpayer") test_asset ≡ ok test_funds
unfolding funding
funding_lem = refl

build_payment-IsBuilt_example :
    IsBuilt test_chain
      (λ n. n)
      (codes "0xpayer")
      test_wallet
      test_asset
      1000
      none
      (build_payment test_chain
        (λ n. n)
        (codes "0xpayer")
        test_wallet
        test_asset
        1000
        default_payment_paths
        none)
      test_funds
      default_payment_paths
build_payment-IsBuilt_example =
    build_payment-IsBuilt test_chain (λ n. n) (codes "0xpayer") test_wallet test_asset 1000 none
      test_funds default_payment_paths funding_lem

-- A text under a field, and an object under one.
abbrev text_of : Option Json → Text
text_of none = []
text_of (some json) = elim (as_str json) [ none ↦ [] | some text ↦ text ]

abbrev text_at : Option Json → Text → Text
text_at none name = []
text_at (some json) name = text_of (get json name)

abbrev is_number : ℕ → Option Json → Bool
is_number m (some (number n)) = n == m
is_number m (some null) = false
is_number m (some (bool b)) = false
is_number m (some (string s)) = false
is_number m (some (array items)) = false
is_number m (some (object fields)) = false
is_number m none = false

abbrev number_at : ℕ → Option Json → Text → Bool
number_at m none name = false
number_at m (some json) name = is_number m (get json name)

abbrev has_terms : Option Json → Bool
has_terms accepted =
    text_eq (text_at accepted (codes "scheme")) test_terms.scheme
    && text_eq (text_at accepted (codes "network")) test_terms.network
    && text_eq (text_at accepted (codes "amount")) test_terms.amount
    && text_eq (text_at accepted (codes "asset")) test_terms.asset
    && text_eq (text_at accepted (codes "payTo")) test_terms.pay_to
    && number_at 60 accepted (codes "maxTimeoutSeconds")

abbrev has_body : Option Json → Bool
has_body body =
    text_eq (text_at body (codes "signature")) (codes "Asig")
    && text_eq (text_at body (codes "transaction")) (codes "Atx")

abbrev known : Json → Bool
known json =
    has_terms (get json (codes "accepted"))
    && (has_body (get json (codes "payload"))
        && text_eq (text_at (get json (codes "resource")) (codes "url")) (codes "/x"))

-- Base64 here puts one letter in front.
abbrev test_encoder : Encoder
test_encoder = record {
  b64 = λ bytes. b'A' ∷ bytes;
  header = λ json. if known json then ok (codes "h") else err (codes "unknown");
}

abbrev client_payload : PaymentPayload
client_payload =
    written_payload test_encoder (codes "/x") (client_terms (from_config test_payment))
      (codes "sig") (codes "tx")

abbrev client_wire : Auth.Wire
client_wire = record test_wire { decode_payment = λ value. ok client_payload }

abbrev client_codec : Codec
client_codec = record test_codec { parse_payload = sui_of }

shows_lem : (bytes : Text) → is_empty (trim (b'A' ∷ bytes)) ≡ false
unfolding trim trim_start trim_end is_empty is_whitespace
shows_lem bytes =
    elim (trim_end bytes)
      as (λ r. is_empty (elim r [ [] ↦ b'A' ∷ [] | d ∷ s ↦ b'A' ∷ d ∷ s ]) ≡ false) [
        | [] ↦ refl
        | d ∷ r ↦ refl
      ]

abbrev terms_match : PaymentRequirements → Bool
terms_match terms =
    text_eq terms.scheme test_terms.scheme
    && text_eq terms.network test_terms.network
    && text_eq terms.amount test_terms.amount
    && text_eq terms.asset test_terms.asset
    && text_eq terms.pay_to test_terms.pay_to
    && terms.max_timeout_seconds == 60

abbrev body_matches : Text → Text → Text → Bool
body_matches url signature transaction =
    (text_eq signature (codes "sig") && text_eq transaction (codes "tx"))
    && text_eq url (codes "/x")

-- What the encoder accepts are these terms, signed so, for this resource.
known_lem :
    (url signature transaction : Text) (terms : PaymentRequirements)
    → known (payload_json test_encoder url terms signature transaction)
      ≡ (terms_match terms && body_matches url signature transaction)
unfolding payload_json get get_field as_str text_eq accepted_json signed_json
known_lem url signature transaction terms = refl

both : (a b : Bool) → (a && b) ≡ true → (a ≡ true) × (b ≡ true)
both a b h = ground arith

known-client :
    (url signature transaction : Text) (terms : PaymentRequirements)
    → known (payload_json test_encoder url terms signature transaction) ≡ true
    → written_payload test_encoder url terms signature transaction ≡ client_payload
unfolding from_config
known-client url signature transaction terms h =
    let (t, b) =
      both (terms_match terms) (body_matches url signature transaction)
        (sym (known_lem url signature transaction terms) ∙ h) in
    let scheme : text_eq terms.scheme test_terms.scheme ≡ true = ground arith in
    let network : text_eq terms.network test_terms.network ≡ true = ground arith in
    let amount : text_eq terms.amount test_terms.amount ≡ true = ground arith in
    let asset : text_eq terms.asset test_terms.asset ≡ true = ground arith in
    let pay_to : text_eq terms.pay_to test_terms.pay_to ≡ true = ground arith in
    let lasts : terms.max_timeout_seconds ≡ 60 = ground arith in
    let (sx, u) =
      both (text_eq signature (codes "sig") && text_eq transaction (codes "tx"))
        (text_eq url (codes "/x")) b in
    let (s, x) = both (text_eq signature (codes "sig")) (text_eq transaction (codes "tx")) sx in
    cc (
      (text_eq_iff terms.scheme test_terms.scheme).0 scheme,
      (text_eq_iff terms.network test_terms.network).0 network,
      (text_eq_iff terms.amount test_terms.amount).0 amount,
      (text_eq_iff terms.asset test_terms.asset).0 asset,
      (text_eq_iff terms.pay_to test_terms.pay_to).0 pay_to,
      lasts,
      (text_eq_iff url (codes "/x")).0 u,
      (text_eq_iff signature (codes "sig")).0 s,
      (text_eq_iff transaction (codes "tx")).0 x,
    )

header_lem :
    (url signature transaction header : Text) (terms : PaymentRequirements)
    → test_encoder.header (payload_json test_encoder url terms signature transaction) ≡ ok header
    → known (payload_json test_encoder url terms signature transaction) ≡ true
header_lem url signature transaction header terms h =
    elim (Bool-cases (known (payload_json test_encoder url terms signature transaction))) [
      | inl e ↦ e
      | inr e ↦ absurd (failed (rw e at h))
    ]
  where
    failed : err (codes "unknown") ≢ ok header
    failed h = cc

decodes_lem :
    (url signature transaction header : Text) (terms : PaymentRequirements)
    (payload : PaymentPayload)
    → test_encoder.header (payload_json test_encoder url terms signature transaction) ≡ ok header
    → payload_of (payload_json test_encoder url terms signature transaction) ≡ ok payload
    → client_wire.decode_payment header ≡ ok payload
unfolding from_config
decodes_lem url signature transaction header terms payload h p =
    let e =
      known-client url signature transaction terms
        (header_lem url signature transaction header terms h) in
    let word : terms.max_timeout_seconds ≤ max_u64 =
      omega (arith, ap (λ (q : PaymentPayload). q.accepted.max_timeout_seconds) e) in
    sym (ap ok e)
    ∙ sym (payload_of-payload_json test_encoder url terms signature transaction word)
    ∙ p

signed_lem : (d : Draft) (s : Text) → test_key.sign d ≡ ok s → s ≢ []
signed_lem d s h e = cc

written_lem : (d : Draft) (s : Text) → test_chain.to_bcs d ≡ ok s → s ≢ []
written_lem d s h e = cc

faithful : (d t : Draft) → test_chain.try_build d ≡ ok t → t ≡ d
faithful d t h = ground arith

client_interop : Interop client_codec client_wire test_encoder test_chain test_key
client_interop = record {
  decodes = λ url terms signature transaction header payload h p.
      decodes_lem url signature transaction header terms payload h p;
  parses = λ json sui h. h;
  shows = λ bytes h. shows_lem bytes;
  signs = signed_lem;
  writes = written_lem;
}

header_example :
    build_payment_header test_chain test_encoder
      (λ n. n)
      test_key
      (codes "/x")
      (client_terms (from_config test_payment))
      default_payment_paths
    ≡ some (ok (codes "h"))
unfolding build_payment_header parse_uint from_config text_eq get as_str
header_example = refl

price_lem : parse_uint max_u64 test_payment.amount ≡ some 1000
unfolding parse_uint
price_lem = refl

build_payment_header-IsAccepted_example :
    IsAccepted client_codec client_wire test_encoder test_chain test_key client_interop
      test_facilitator test_payment test_wallet 1000
      (codes "h")
build_payment_header-IsAccepted_example =
    build_payment_header-IsAccepted client_codec client_wire test_encoder test_chain test_key
      client_interop test_facilitator test_payment (λ n. n) (codes "/x") test_wallet (codes "h")
      1000 default_payment_paths refl (omega arith) price_lem refl faithful header_example

delivered :
    Delivers
      (λ name. lookup name (meter_headers (free_meter 3 10 45)))
      (meter_headers (free_meter 3 10 45))
unfolding meter_headers lookup text_eq
delivered = (refl, (refl, (refl, tt)))

read_meter-meter_headers_example :
    Shows
      (free_meter 3 10 45)
      (read_meter (λ name. lookup name (meter_headers (free_meter 3 10 45))))
read_meter-meter_headers_example =
    read_meter-meter_headers (λ name. lookup name (meter_headers (free_meter 3 10 45)))
      (free_meter 3 10 45) (omega arith, omega arith, omega arith) delivered
