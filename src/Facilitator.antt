-- ===== src/Facilitator.antt =====
-- The facilitator: src/x402.rs. `serde_json`, base64, SHA-256 and the fullnode are the parameters
-- `Codec` and `Node`; a call that may reach the chain also returns what it broadcast.
pub mod Terms
pub mod Settlement
use sui_x402_verifier.Base.{
  ℕ, Bool, true, false, not, Option, none, some, List, [], ◌∷◌, ◌++◌, ◌==◌, if◌then◌else◌, Text,
  codes, text_eq, trim, is_empty, Result, ok, err, ◌>>=◌, ◌>>◌, bail_if,
}
use sui_x402_verifier.Json.{Json}
use sui_x402_verifier.Config.{VerificationMode, stub_accept_all, sui_grpc}
use sui_x402_verifier.Sui.{Node, ChainCheck, not_reported, check_chain, reported_chain, Broadcast}
use sui_x402_verifier.Sui
use sui_x402_verifier.X402.{
  PaymentPayload, PaymentRequirements, SuiExactPayload, SettlementResponse, FacilitatorError,
  version_mismatch, scheme_mismatch, network_mismatch, amount_mismatch, asset_mismatch,
  recipient_mismatch, malformed_payload, empty_transaction, missing_signature, rpc, x402_version,
}

-- The libraries that read a payload and identify it.
pub record Codec : Type 0 where
  pub parse_payload : Json → Result Text SuiExactPayload
  pub b64_decode : Text → Option Text
  pub sha256_hex : Text → Text

-- The client of the fullnode, if there is one: its presence is what matters.
pub record Facilitator : Type 0 where
  pub mode : VerificationMode
  pub network : Text
  pub has_sui : Bool

-- `Facilitator::new`, once the connection is made.
unfoldable pub new : VerificationMode → Text → Facilitator
new stub_accept_all network = record { mode = stub_accept_all; network = network; has_sui = false }
new sui_grpc network = record { mode = sui_grpc; network = network; has_sui = true }

unfoldable pub verify_chain : Facilitator → Node → Text → Result FacilitatorError ChainCheck
verify_chain facilitator node expected =
    if facilitator.has_sui
    then (do reported ← reported_chain node; check_chain expected reported)
    else ok not_reported

-- Receipt for a payment that was refused.
unfoldable pub failure_receipt : Facilitator → Text → SettlementResponse
failure_receipt facilitator code = record {
  success = false;
  error_reason = some code;
  payer = none;
  transaction = [];
  network = facilitator.network;
  amount = none;
  extensions = none;
}

unfoldable pub success_receipt :
    Facilitator → PaymentRequirements → Text → Text → SettlementResponse
success_receipt facilitator requirements payer transaction = record {
  success = true;
  error_reason = none;
  payer = some payer;
  transaction = transaction;
  network = facilitator.network;
  amount = some requirements.amount;
  extensions = none;
}

abbrev no_client : FacilitatorError
no_client = rpc (codes "sui-grpc mode selected but no fullnode client was built")

-- A field of the accepted terms must be the advertised one.
abbrev same_text :
    Text → Text → (Text → Text → FacilitatorError) → Result FacilitatorError (Unit {0})
same_text got expected mismatch = bail_if (not (text_eq got expected)) (mismatch got expected)

module _ (codec : Codec) where
  abbrev parse_sui : PaymentPayload → PaymentRequirements → Result FacilitatorError SuiExactPayload
  parse_sui payload requirements = elim (codec.parse_payload payload.payload) [
    | ok sui ↦ ok sui
    | err e ↦ err (malformed_payload requirements.scheme e)
  ]

  -- `check_terms`
  unfoldable pub check_terms :
      Facilitator → PaymentPayload → PaymentRequirements → Result FacilitatorError SuiExactPayload
  check_terms facilitator payload requirements = do
    same_text requirements.network facilitator.network network_mismatch
    bail_if (not (payload.x402_version == x402_version))
        (version_mismatch payload.x402_version x402_version)
    same_text payload.accepted.scheme requirements.scheme scheme_mismatch
    same_text payload.accepted.network requirements.network network_mismatch
    same_text payload.accepted.amount requirements.amount amount_mismatch
    same_text payload.accepted.asset requirements.asset asset_mismatch
    same_text payload.accepted.pay_to requirements.pay_to recipient_mismatch
    sui ← parse_sui payload requirements
    bail_if (is_empty (trim sui.transaction)) empty_transaction
    bail_if (is_empty (trim sui.signature)) missing_signature
    ok sui

  abbrev decoded_or : Option Text → Text → Text
  decoded_or none d = d
  decoded_or (some b) d = b

  unfoldable pub stub_payer : Text → Text
  stub_payer transaction =
      codes "0x"
      ++ codec.sha256_hex (decoded_or (codec.b64_decode (trim transaction)) (trim transaction))

  -- Stable identifier of a payment: the hash of its decoded transaction.
  unfoldable pub payment_id : PaymentPayload → Option Text
  payment_id payload = elim (codec.parse_payload payload.payload) [
    | err e ↦ none
    | ok sui ↦ elim (codec.b64_decode (trim sui.transaction)) [
      | none ↦ none
      | some bytes ↦ some (codec.sha256_hex bytes)
    ]
  ]

  -- Checks an authorization without executing it, once its terms are checked.
  unfoldable pub verify_sui :
      Facilitator → Node → SuiExactPayload → PaymentRequirements → Result FacilitatorError Text
  unfolding stub_payer
  verify_sui facilitator node sui requirements = elim (facilitator.mode) [
    | stub_accept_all ↦ ok (stub_payer sui.transaction)
    | sui_grpc ↦
        if facilitator.has_sui
        then (do verified ← Sui.verify node sui requirements; ok verified.payer)
        else err no_client
  ]

  unfoldable pub verify :
      Facilitator → Node → PaymentPayload → PaymentRequirements → Result FacilitatorError Text
  unfolding check_terms verify_sui
  verify facilitator node payload requirements = do
    sui ← check_terms facilitator payload requirements
    verify_sui facilitator node sui requirements

  -- The receipt of a broadcast transaction.
  abbrev receipt_of :
      Facilitator → PaymentRequirements → Text → Broadcast Text → Broadcast SettlementResponse
  receipt_of facilitator requirements payer sent = record {
    sent = sent.sent;
    result = (do digest ← sent.result; ok (success_receipt facilitator requirements payer digest));
  }

  abbrev refused : FacilitatorError → Broadcast SettlementResponse
  refused e = record { sent = []; result = err e }

  -- Verifies, and broadcasts only what verified.
  unfoldable pub settle_verified :
      Facilitator → Node → SuiExactPayload → PaymentRequirements → Broadcast SettlementResponse
  unfolding success_receipt
  settle_verified facilitator node sui requirements = elim (Sui.verify node sui requirements) [
    | err e ↦ refused e
    | ok verified ↦ receipt_of facilitator requirements verified.payer (Sui.settle node sui)
  ]

  unfoldable pub settle_sui :
      Facilitator → Node → SuiExactPayload → PaymentRequirements → Broadcast SettlementResponse
  unfolding stub_payer settle_verified success_receipt
  settle_sui facilitator node sui requirements = elim (facilitator.mode) [
    | stub_accept_all ↦ record {
      sent = [];
      result = ok (
          success_receipt facilitator requirements (stub_payer sui.transaction)
            (codes "stub-not-settled-on-chain"));
    }
    | sui_grpc ↦
        if facilitator.has_sui
        then settle_verified facilitator node sui requirements
        else refused no_client
  ]

  unfoldable pub settle :
      Facilitator → Node → PaymentPayload → PaymentRequirements → Broadcast SettlementResponse
  unfolding check_terms settle_sui
  settle facilitator node payload requirements =
      elim (check_terms facilitator payload requirements) [
        | err e ↦ refused e
        | ok sui ↦ settle_sui facilitator node sui requirements
      ]
