-- ===== src/Payclient/Wire.antt =====
-- The client's own wire types and the `PAYMENT-SIGNATURE` header: src/payclient.rs. Base64 and
-- `serde_json` are the parameter `Encoder`.
use sui_x402_verifier.Base.{
  ℕ, Bool, Option, none, some, List, ◌++◌, Text, codes, show_u64, parse_uint, max_u64, Result, ok,
  err, ◌>>=◌,
}
use sui_x402_verifier.Json.{Json, number, string, object, field, end, get, as_str}
use sui_x402_verifier.Payclient.{PaymentPath}
use sui_x402_verifier.Payclient.Build.{Draft, Chain, context, build_payment}
use sui_x402_verifier.Payclient.Keys.{Key}

pub record ResourceInfo : Type 0 where
  pub url : Text

pub record PaymentRequirements : Type 0 where
  pub scheme : Text
  pub network : Text
  pub amount : Text
  pub asset : Text
  pub pay_to : Text
  pub max_timeout_seconds : ℕ
  pub extra : Option Json

pub record PaymentRequired : Type 0 where
  pub resource : ResourceInfo
  pub accepts : List PaymentRequirements

pub record SettlementResponse : Type 0 where
  pub success : Bool
  pub error_reason : Option Text
  pub transaction : Text
  pub network : Text

-- `b64` encodes bytes, `header` a JSON value as the text of a header.
pub record Encoder : Type 0 where
  pub b64 : Text → Text
  pub header : Json → Result Text Text

abbrev station_of : Option Json → Option Text
station_of none = none
station_of (some extra) = elim (get extra (codes "gasStation")) [
  | none ↦ none
  | some station ↦ as_str station
]

unfoldable pub advertised_gas_station : PaymentRequirements → Option Text
advertised_gas_station terms = station_of terms.extra

-- The terms that the client says it accepted.
unfoldable pub accepted_json : PaymentRequirements → Json
accepted_json terms = object (
    field (codes "scheme") (string terms.scheme) (
      field (codes "network") (string terms.network) (
        field (codes "amount") (string terms.amount) (
          field (codes "asset") (string terms.asset) (
            field (codes "payTo") (string terms.pay_to)
              (field (codes "maxTimeoutSeconds") (number terms.max_timeout_seconds) end))))))

unfoldable pub signed_json : Encoder → Text → Text → Json
signed_json encoder signature transaction = object (
    field (codes "signature") (string (encoder.b64 signature))
      (field (codes "transaction") (string (encoder.b64 transaction)) end))

unfoldable pub payload_json : Encoder → Text → PaymentRequirements → Text → Text → Json
unfolding accepted_json signed_json
payload_json encoder resource_url terms signature transaction = object (
    field (codes "x402Version") (number 2) (
      field (codes "resource") (object (field (codes "url") (string resource_url) end)) (
        field (codes "accepted") (accepted_json terms)
          (field (codes "payload") (signed_json encoder signature transaction) end))))

abbrev or_no_integer : Option ℕ → Text → Result Text ℕ
or_no_integer none amount = err (codes "amount \"" ++ amount ++ codes "\" is not an integer")
or_no_integer (some n) amount = ok n

module _ (chain : Chain) (encoder : Encoder) where
  -- The signed transaction as a header.
  unfoldable pub signed_header : Key → Text → PaymentRequirements → Draft → Result Text Text
  unfolding payload_json
  signed_header key resource_url terms transaction = do
    signature ← context (key.sign transaction) (codes "signing the payment")
    bytes ← chain.to_bcs transaction
    encoder.header (payload_json encoder resource_url terms signature bytes)

  -- The amount and the payee that the terms name.
  unfoldable pub price_and_payee : PaymentRequirements → Result Text (ℕ × Text)
  price_and_payee terms = do
    amount ← or_no_integer (parse_uint max_u64 terms.amount) terms.amount
    payee ←
        context (chain.parse_address terms.pay_to)
          (codes "payTo \"" ++ terms.pay_to ++ codes "\" is not a Sui address")
    ok (amount, payee)

  -- `build_payment_header`; `none` is a panic.
  unfoldable pub build_payment_header :
      (ℕ → ℕ) → Key → Text → PaymentRequirements → List PaymentPath → Option (Result Text Text)
  unfolding build_payment advertised_gas_station signed_header price_and_payee
  build_payment_header xor_random key resource_url terms paths = elim (price_and_payee terms) [
    | err e ↦ some (err e)
    | ok (amount, payee) ↦
        elim (build_payment chain xor_random key.address payee terms.asset amount paths
          (advertised_gas_station terms)) [
            | none ↦ none
            | some (err e) ↦ some (
                err (
                  codes "building the payment transaction for "
                  ++ show_u64 amount
                  ++ codes " of "
                  ++ terms.asset
                  ++ codes ": "
                  ++ e))
            | some (ok transaction) ↦ some (signed_header key resource_url terms transaction)
          ]
  ]
