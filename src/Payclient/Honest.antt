-- ===== src/Payclient/Honest.antt =====
-- A payment of the client's meets the terms that the server advertised: src/payclient.rs and
-- src/x402.rs. The two sides' JSON and base64 are libraries; `Interop` is what is relied on.
use sui_x402_verifier.Base.{
  ℕ, ◌≤◌, ◌≡◌, ◌≢◌, refl, sym, ap, ◌∙◌, inl, inr, some, List, [], Text, trim, is_empty, false,
  parse_uint, max_u64, ok, err, Option-cases, arith, >>=-eq-ok, codes,
}
use sui_x402_verifier.Config.{PaymentConfig}
use sui_x402_verifier.X402.{PaymentPayload, SuiExactPayload, x402_version, from_config}
use sui_x402_verifier.X402
use sui_x402_verifier.X402.Decode.{payload_of, sui_of}
use sui_x402_verifier.Json.{Json}
use sui_x402_verifier.Facilitator.{Codec, Facilitator, check_terms}
use sui_x402_verifier.Facilitator.Terms.{TermsAgree, TermsAgree-check_terms}
use sui_x402_verifier.Auth
use sui_x402_verifier.Payclient.{PaymentPath}
use sui_x402_verifier.Payclient.Build.{Chain, Draft, context, build_payment}
use sui_x402_verifier.Payclient.Keys.{Key}
use sui_x402_verifier.Payclient.Wire.{
  PaymentRequirements, Encoder, payload_json, signed_json, build_payment_header, signed_header,
  price_and_payee, advertised_gas_station,
}
use sui_x402_verifier.Payclient.Written.{
  written_payload, payload_of-payload_json, sui_of-signed_json,
}
use sui_x402_verifier.Payclient.Pays.{IsPayment, build_payment-IsPayment, context-ok}

-- The advertised terms as the client reads them.
abbrev pub client_terms : X402.PaymentRequirements → PaymentRequirements
client_terms terms = record {
  scheme = terms.scheme;
  network = terms.network;
  amount = terms.amount;
  asset = terms.asset;
  pay_to = terms.pay_to;
  max_timeout_seconds = terms.max_timeout_seconds;
  extra = terms.extra;
}

-- The payload that the client's JSON stands for, on the server.
pub record Stands (encoder : Encoder) (terms : PaymentRequirements) (signature transaction : Text)
    (payload : PaymentPayload) : Type 0 where
  pub version : payload.x402_version ≡ x402_version
  pub scheme : payload.accepted.scheme ≡ terms.scheme
  pub network : payload.accepted.network ≡ terms.network
  pub amount : payload.accepted.amount ≡ terms.amount
  pub asset : payload.accepted.asset ≡ terms.asset
  pub pay_to : payload.accepted.pay_to ≡ terms.pay_to
  pub inner : payload.payload ≡ signed_json encoder signature transaction

-- Base64 and serde_json hand the server the JSON value that the client handed to them, so that the
-- server reads its fields in it; and nothing that is signed or encoded is empty.
pub record Interop (codec : Codec) (wire : Auth.Wire) (encoder : Encoder) (chain : Chain)
    (key : Key) : Type 0 where
  pub decodes :
      (url : Text) (terms : PaymentRequirements) (signature transaction header : Text)
      (payload : PaymentPayload)
      → encoder.header (payload_json encoder url terms signature transaction) ≡ ok header
      → payload_of (payload_json encoder url terms signature transaction) ≡ ok payload
      → wire.decode_payment header ≡ ok payload
  pub parses :
      (json : Json) (sui : SuiExactPayload)
      → sui_of json ≡ ok sui
      → codec.parse_payload json ≡ ok sui
  pub shows : (bytes : Text) → bytes ≢ [] → is_empty (trim (encoder.b64 bytes)) ≡ false
  pub signs : (d : Draft) (s : Text) → key.sign d ≡ ok s → s ≢ []
  pub writes : (d : Draft) (bytes : Text) → chain.to_bcs d ≡ ok bytes → bytes ≢ []

-- A header that was built has a transaction that was built for it.
header-signed :
    (chain : Chain) (encoder : Encoder) (key : Key) (xor_random : ℕ → ℕ) (url payee header : Text)
    (amount : ℕ) (terms : PaymentRequirements) (paths : List PaymentPath)
    → price_and_payee chain encoder terms ≡ ok (amount, payee)
    → build_payment_header chain encoder xor_random key url terms paths ≡ some (ok header)
    → (t : Draft) × (build_payment chain xor_random key.address payee terms.asset amount paths
          (advertised_gas_station terms)
        ≡ some (ok t))
      × (signed_header chain encoder key url terms t ≡ ok header)
unfolding build_payment_header
header-signed chain encoder key xor_random url payee header amount terms paths p h =
    let answer =
      build_payment chain xor_random key.address payee terms.asset amount paths
        (advertised_gas_station terms) in
    elim (Option-cases answer) [
      | inl q ↦ absurd (ground arith)
      | inr (err e, q) ↦ absurd (ground arith)
      | inr (ok t, q) ↦ (t, q, ground arith)
    ]

module _ (codec : Codec) (wire : Auth.Wire) (encoder : Encoder) (chain : Chain) (key : Key)
    (interop : Interop codec wire encoder chain key) where
  terms-Stands :
      (facilitator : Facilitator) (payment : PaymentConfig) (signature transaction : Text)
      (payload : PaymentPayload)
      → facilitator.network ≡ payment.network
      → Stands encoder (client_terms (from_config payment)) signature transaction payload
      → TermsAgree facilitator payload (from_config payment)
  unfolding from_config
  terms-Stands facilitator payment signature transaction payload chains s = record {
    chain = sym chains;
    version = s.version;
    scheme = s.scheme;
    network = s.network;
    amount = s.amount;
    asset = s.asset;
    pay_to = s.pay_to;
  }

  -- The terms pass when the payload stands for what the client wrote about them.
  check_terms-Stands :
      (facilitator : Facilitator) (payment : PaymentConfig) (signature transaction : Text)
      (payload : PaymentPayload)
      → facilitator.network ≡ payment.network
      → Stands encoder (client_terms (from_config payment)) signature transaction payload
      → signature ≢ []
      → transaction ≢ []
      → check_terms codec facilitator payload (from_config payment)
        ≡ ok (record { signature = encoder.b64 signature; transaction = encoder.b64 transaction })
  check_terms-Stands facilitator payment signature transaction payload chains s signed written =
      TermsAgree-check_terms codec facilitator payload (from_config payment)
        (record { signature = encoder.b64 signature; transaction = encoder.b64 transaction })
        (terms-Stands facilitator payment signature transaction payload chains s)
        (ap codec.parse_payload s.inner
          ∙ interop.parses (signed_json encoder signature transaction) _
              (sui_of-signed_json encoder signature transaction))
        (interop.shows transaction written) (interop.shows signature signed)

  -- What the server has in the end: a payload that passes the terms, whose transaction is the
  -- encoding of one that pays the payee.
  pub record IsAccepted (facilitator : Facilitator) (payment : PaymentConfig) (payee : Text)
      (amount : ℕ) (header : Text) : Type 0 where
    pub payload : PaymentPayload
    pub decoded : wire.decode_payment header ≡ ok payload
    pub transaction : Draft
    pub is_payment : IsPayment key.address payee amount transaction
    pub signature : Text
    pub signed : key.sign transaction ≡ ok signature
    pub bytes : Text
    pub encoded : chain.to_bcs transaction ≡ ok bytes
    pub passes :
        check_terms codec facilitator payload (from_config payment)
        ≡ ok (record { signature = encoder.b64 signature; transaction = encoder.b64 bytes })

  signed_header-IsAccepted :
      (facilitator : Facilitator) (payment : PaymentConfig) (payee url : Text) (amount : ℕ)
      (transaction : Draft) (header : Text)
      → facilitator.network ≡ payment.network
      → (client_terms (from_config payment)).max_timeout_seconds ≤ max_u64
      → IsPayment key.address payee amount transaction
      → signed_header chain encoder key url (client_terms (from_config payment)) transaction
        ≡ ok header
      → IsAccepted facilitator payment payee amount header
  unfolding signed_header
  signed_header-IsAccepted facilitator payment payee url amount transaction header chains word p h =
      let (signature, s, h1) =
        >>=-eq-ok (context (key.sign transaction) (codes "signing the payment")) _ h in
      let (bytes, b, h2) = >>=-eq-ok (chain.to_bcs transaction) _ h1 in
      let signed = context-ok (key.sign transaction) (codes "signing the payment") signature s in
      let payload =
        written_payload encoder url (client_terms (from_config payment)) signature bytes in
      let stands : Stands encoder (client_terms (from_config payment)) signature bytes payload =
        record {
          version = refl;
          scheme = refl;
          network = refl;
          amount = refl;
          asset = refl;
          pay_to = refl;
          inner = refl;
        } in
      let d =
        interop.decodes url (client_terms (from_config payment)) signature bytes header payload h2 (
          payload_of-payload_json encoder url (client_terms (from_config payment)) signature bytes
            word) in
      record {
        payload = payload;
        decoded = d;
        transaction = transaction;
        is_payment = p;
        signature = signature;
        signed = signed;
        bytes = bytes;
        encoded = b;
        passes =
            check_terms-Stands facilitator payment signature bytes payload chains stands
              (interop.signs transaction signature signed) (interop.writes transaction bytes b);
      }

  price_and_payee_lem :
      (payment : PaymentConfig) (payee : Text) (amount : ℕ)
      → parse_uint max_u64 payment.amount ≡ some amount
      → chain.parse_address payment.pay_to ≡ ok payee
      → price_and_payee chain encoder (client_terms (from_config payment)) ≡ ok (amount, payee)
  unfolding price_and_payee from_config
  price_and_payee_lem payment payee amount priced parsed = rw (priced, parsed) refl

  -- The terms that the server advertises are the terms that it accepts: a client that builds its
  -- payment header from the advertised requirements has built a payment that decodes and passes
  -- every check of the terms, and the transaction in it is sent by the client's key and gives the
  -- advertised payee the advertised amount. The facilitator is on the policy's network, the
  -- timeout is a 64-bit word, the amount and the payee parse, base64 and JSON arrive as they were
  -- sent, what is signed or encoded is not empty, and the SDK's builder returns the transaction that
  -- was drafted.
  pub build_payment_header-IsAccepted :
      (facilitator : Facilitator) (payment : PaymentConfig) (xor_random : ℕ → ℕ)
      (url payee header : Text) (amount : ℕ) (paths : List PaymentPath)
      → facilitator.network ≡ payment.network
      → payment.max_timeout_seconds ≤ max_u64
      → parse_uint max_u64 payment.amount ≡ some amount
      → chain.parse_address payment.pay_to ≡ ok payee
      → ((d t : Draft) → chain.try_build d ≡ ok t → t ≡ d)
      → build_payment_header chain encoder xor_random key url
          (client_terms (from_config payment))
          paths
        ≡ some (ok header)
      → IsAccepted facilitator payment payee amount header
  unfolding build_payment_header from_config
  build_payment_header-IsAccepted facilitator payment xor_random url payee header amount paths
        chains word priced parsed faithful h =
      let (transaction, built, signed) =
        header-signed chain encoder key xor_random url payee header amount
          (client_terms (from_config payment)) paths
          (price_and_payee_lem payment payee amount priced parsed) h in
      signed_header-IsAccepted facilitator payment payee url amount transaction header chains word
        (build_payment-IsPayment chain xor_random key.address payee
          (client_terms (from_config payment)).asset amount faithful paths
          (advertised_gas_station (client_terms (from_config payment))) transaction built)
        signed
