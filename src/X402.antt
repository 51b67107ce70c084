-- ===== src/X402.antt =====
-- The x402 wire types, error codes and session extension: src/x402.rs. `Facilitator` has the
-- verifier and settler, `Sui` what it asks of the chain.
pub mod Extensions
pub mod Decode
use sui_x402_verifier.Base.{ℕ, ℤ, Bool, true, false, Option, none, some, List, [], ◌∷◌, Text, codes}
use sui_x402_verifier.Json.{Json, object, string, field, end}
use sui_x402_verifier.Config.{PaymentConfig}

abbrev pub x402_version : ℕ
x402_version = 2

abbrev pub header_payment_signature : Text
header_payment_signature = codes "payment-signature"

abbrev pub header_payment_session : Text
header_payment_session = codes "x-payment-session"

abbrev pub header_payment_required : Text
header_payment_required = codes "PAYMENT-REQUIRED"

abbrev pub header_payment_response : Text
header_payment_response = codes "PAYMENT-RESPONSE"

pub record ResourceInfo : Type 0 where
  pub url : Text
  pub description : Option Text
  pub mime_type : Option Text
  pub service_name : Option Text
  pub tags : Option (List Text)
  pub icon_url : Option Text

pub record PaymentRequirements : Type 0 where
  pub scheme : Text
  pub network : Text
  pub amount : Text
  pub asset : Text
  pub pay_to : Text
  pub max_timeout_seconds : ℕ
  pub extra : Option Json

abbrev gas_station_extra : Option Text → Option Json
gas_station_extra none = none
gas_station_extra (some url) = some (object (field (codes "gasStation") (string url) end))

unfoldable pub from_config : PaymentConfig → PaymentRequirements
from_config payment = record {
  scheme = payment.scheme;
  network = payment.network;
  amount = payment.amount;
  asset = payment.asset;
  pay_to = payment.pay_to;
  max_timeout_seconds = payment.max_timeout_seconds;
  extra = gas_station_extra payment.gas_station;
}

pub record PaymentRequired : Type 0 where
  pub x402_version : ℕ
  pub error : Option Text
  pub resource : ResourceInfo
  pub accepts : List PaymentRequirements
  pub extensions : Option Json

-- `PaymentRequired::new`, with the extensions that every caller sets on it.
unfoldable pub challenge : Text → ResourceInfo → PaymentRequirements → Option Json → PaymentRequired
challenge error resource requirements extensions = record {
  x402_version = 2;
  error = some error;
  resource = resource;
  accepts = requirements ∷ [];
  extensions = extensions;
}

pub record SuiExactPayload : Type 0 where
  pub signature : Text
  pub transaction : Text

pub record PaymentPayload : Type 0 where
  pub x402_version : ℕ
  pub resource : Option ResourceInfo
  pub accepted : PaymentRequirements
  pub payload : Json
  pub extensions : Option Json

pub record SettlementResponse : Type 0 where
  pub success : Bool
  pub error_reason : Option Text
  pub payer : Option Text
  pub transaction : Text
  pub network : Text
  pub amount : Option Text
  pub extensions : Option Json

pub record VerifyResponse : Type 0 where
  pub is_valid : Bool
  pub invalid_reason : Option Text
  pub payer : Option Text

pub data FacilitatorError : Type 0 where
  version_mismatch : ℕ → ℕ → FacilitatorError
  scheme_mismatch network_mismatch chain_mismatch : Text → Text → FacilitatorError
  amount_mismatch asset_mismatch recipient_mismatch : Text → Text → FacilitatorError
  malformed_payload : Text → Text → FacilitatorError
  empty_transaction missing_signature : FacilitatorError
  replay : ℕ → FacilitatorError
  replay_cache_unavailable : FacilitatorError
  rpc invalid_signature simulation_failed : Text → FacilitatorError
  stale_input : Text → ℕ → Option ℕ → FacilitatorError
  settlement_failed invalid_requirements : Text → FacilitatorError
  amount_not_credited : Text → ℤ → Text → Text → FacilitatorError
  authorization_expired : ℕ → ℕ → FacilitatorError

unfoldable pub code : FacilitatorError → Text
code (version_mismatch g e) = codes "invalid_x402_version"
code (scheme_mismatch g e) = codes "invalid_scheme"
code (network_mismatch g e) = codes "invalid_network"
code (chain_mismatch r c) = codes "invalid_network"
code (amount_mismatch g e) = codes "invalid_payment_requirements"
code (asset_mismatch g e) = codes "invalid_payment_requirements"
code (recipient_mismatch g e) = codes "invalid_payment_requirements"
code (malformed_payload s d) = codes "invalid_payload"
code empty_transaction = codes "invalid_payload"
code missing_signature = codes "invalid_payload"
code (replay t) = codes "invalid_transaction_state"
code replay_cache_unavailable = codes "unexpected_verify_error"
code (rpc d) = codes "unexpected_verify_error"
code (invalid_signature d) = codes "invalid_payload"
code (simulation_failed d) = codes "invalid_transaction_state"
code (stale_input o p c) = codes "invalid_transaction_state"
code (settlement_failed d) = codes "unexpected_settle_error"
code (invalid_requirements d) = codes "invalid_payment_requirements"
code (amount_not_credited e c p a) = codes "invalid_payment_requirements"
code (authorization_expired t w) = codes "invalid_transaction_state"
