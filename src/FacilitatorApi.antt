-- ===== src/FacilitatorApi.antt =====
-- The facilitator's HTTP endpoints: src/facilitator_api.rs. Its state is shared with the gateway, so
-- the handlers work on `AppState`; the clock's reading comes last. An `err` is a 400 answer.
pub mod Settling
pub mod Table
use sui_x402_verifier.Base.{
  ℕ, Bool, true, false, not, Option, none, some, List, [], ◌∷◌, ◌++◌, ◌==◌, if◌then◌else◌, Text,
  codes, show_u64, Result, ok, err, bail_if,
}
use sui_x402_verifier.Json.{Json}
use sui_x402_verifier.Sui.{Node}
use sui_x402_verifier.Facilitator.{Codec, Facilitator, failure_receipt, payment_id}
use sui_x402_verifier.Facilitator
use sui_x402_verifier.Session.{PaymentClaim, fresh, replay, backend}
use sui_x402_verifier.X402.{
  PaymentPayload, PaymentRequirements, SettlementResponse, VerifyResponse, FacilitatorError,
  replay_cache_unavailable, code, x402_version,
}
use sui_x402_verifier.X402
use sui_x402_verifier.X402.Extensions.{session_extension}
use sui_x402_verifier.Auth.{Store, Limiter, AppState, replay_ttl}

pub record FacilitatorRequest : Type 0 where
  pub x402_version : ℕ
  pub payment_payload : PaymentPayload
  pub payment_requirements : PaymentRequirements

-- The code in the body, and the detail in a header.
pub record BadRequest : Type 0 where
  pub reason : Text
  pub detail : Text

-- The body of a 400 answer.
unfoldable pub into_response : BadRequest → VerifyResponse
into_response bad = record { is_valid = false; invalid_reason = some bad.reason; payer = none }

unfoldable pub check_version : FacilitatorRequest → Result BadRequest (Unit {0})
check_version request = bail_if (not (request.x402_version == x402_version)) (record {
  reason = codes "invalid_x402_version";
  detail =
      codes "request declares x402Version "
      ++ show_u64 request.x402_version
      ++ codes ", this facilitator speaks 2";
})

pub record SupportedKind : Type 0 where
  pub x402_version : ℕ
  pub scheme : Text
  pub network : Text
  pub extra : Option Json

pub record SupportedResponse : Type 0 where
  pub kinds : List SupportedKind
  pub extensions : List Text
  pub signers : List (Text × List Text)

-- `GET /supported`
unfoldable pub supported : Facilitator → SupportedResponse
supported facilitator = record {
  kinds =
      record {
        x402_version = 2;
        scheme = codes "exact";
        network = facilitator.network;
        extra = none;
      }
      ∷ [];
  extensions = session_extension ∷ [];
  signers = [];
}

-- Why a claim refuses the payment, if it does: this surface knows no expired authorization.
unfoldable pub claim_error : PaymentClaim → Option FacilitatorError
claim_error fresh = none
claim_error (replay first_seen) = some (X402.replay first_seen)
claim_error backend = some replay_cache_unavailable

module _ (store : Store) (limiter : Limiter) (codec : Codec) (node : Node) where
  abbrev pub State : Type 0
  State = AppState store.State limiter.State

  -- What `/verify` says of a payment.
  unfoldable pub verify_answer : Facilitator → FacilitatorRequest → VerifyResponse
  verify_answer facilitator request =
      elim (Facilitator.verify codec facilitator node request.payment_payload
        request.payment_requirements) [
          | ok payer ↦ record { is_valid = true; invalid_reason = none; payer = some payer }
          | err e ↦ record { is_valid = false; invalid_reason = some (code e); payer = none }
        ]

  -- `POST /verify`
  unfoldable pub verify : State → FacilitatorRequest → Result BadRequest VerifyResponse
  unfolding check_version verify_answer
  verify state request = elim (check_version request) [
    | err bad ↦ err bad
    | ok _ ↦ ok (verify_answer state.facilitator request)
  ]

  abbrev pub release_claim : store.State → Option Text → store.State
  release_claim sessions none = sessions
  release_claim sessions (some id) = store.release sessions id

  -- Once the payment is claimed: settle it, and release it if that failed.
  unfoldable pub settle_claimed : State → FacilitatorRequest → State × SettlementResponse
  settle_claimed state request =
      let sent =
        Facilitator.settle codec state.facilitator node request.payment_payload
          request.payment_requirements in
      let state' : State = record state { broadcasts = state.broadcasts ++ sent.sent } in
      elim sent.result [
        | ok receipt ↦ (state', receipt)
        | err e ↦ (
          record state' {
            sessions = release_claim state'.sessions (payment_id codec request.payment_payload);
          },
          failure_receipt state'.facilitator (code e),
        )
      ]

  -- Claim, and settle what was claimed as fresh.
  unfoldable pub claim_and_settle : State → FacilitatorRequest → ℕ → State × SettlementResponse
  unfolding claim_error settle_claimed
  claim_and_settle state request now = elim (payment_id codec request.payment_payload) [
    | none ↦ settle_claimed state request
    | some id ↦
        let (sessions, claim) =
          store.claim state.sessions id
            (replay_ttl request.payment_requirements.max_timeout_seconds) now in
        let claimed : State = record state { sessions = sessions } in
        elim (claim_error claim) [
          | some e ↦ (claimed, failure_receipt claimed.facilitator (code e))
          | none ↦ settle_claimed claimed request
        ]
  ]

  -- `POST /settle`
  unfoldable pub settle :
      State → FacilitatorRequest → ℕ → State × Result BadRequest SettlementResponse
  unfolding check_version claim_and_settle
  settle state request now = elim (check_version request) [
    | err bad ↦ (state, err bad)
    | ok _ ↦ let (state', receipt) = claim_and_settle state request now in (state', ok receipt)
  ]
