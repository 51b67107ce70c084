-- ===== src/Auth.antt =====
-- The tier policy's types and labels: src/auth.rs. `Outcomes` has what a request presents and what
-- becomes of it, `Decide` the policy itself, `Backends` the in-memory stores behind it; `Policy`,
-- `Paid`, `Total` and `Once` have the theorems.
pub mod Headers
pub mod Outcomes
pub mod Decide
pub mod Backends
pub mod Policy
pub mod Paid
pub mod Response
pub mod Check
pub mod Denials
pub mod Total
pub mod Once
use sui_x402_verifier.Base.{
  ℕ, max, Bool, true, false, Option, none, some, List, [], ◌∷◌, Text, codes, saturating_mul, Result,
}
use sui_x402_verifier.Json.{Json}
use sui_x402_verifier.Config.{Config, VerificationMode, stub_accept_all, sui_grpc}
use sui_x402_verifier.Breaker.{SettlementBreaker}
use sui_x402_verifier.RateLimit.{Allowance}
use sui_x402_verifier.RateLimit.Address.{IpAddr}
use sui_x402_verifier.Facilitator.{Facilitator}
use sui_x402_verifier.Session.{
  SessionOutcome, PaymentClaim, fresh, replay, backend, SessionRejection, malformed, expired,
  unknown, wrong_policy, quota_exhausted,
}
use sui_x402_verifier.Session
use sui_x402_verifier.X402.{
  PaymentPayload, PaymentRequirements, PaymentRequired, SettlementResponse, FacilitatorError,
}

pub data SettlePolicy : Type 0 where
  immediate deferred : SettlePolicy

pub record PendingPayment : Type 0 where
  pub payload : PaymentPayload
  pub requirements : PaymentRequirements
  pub payment_id : Option Text

pub data Tier : Type 0 where
  free paid : Tier

unfoldable pub tier_str : Tier → Text
tier_str free = codes "free"
tier_str paid = codes "paid"

-- What the requester has left.
pub data Meter : Type 0 where
  free_meter session_meter : ℕ → ℕ → ℕ → Meter
  unknown_meter : Meter

pub record Allowed : Type 0 where
  pub tier : Tier
  pub payer : Option Text
  pub session_token : Option Text
  pub settlement : Option SettlementResponse
  pub pending : Option PendingPayment
  pub meter : Meter

pub record Denied : Type 0 where
  pub challenge : PaymentRequired
  pub receipt : Option SettlementResponse
  pub meter : Meter

pub data Decision : Type 0 where
  allow : Allowed → Decision
  deny : Denied → Decision

-- A session store, in memory or in Redis: consume a token, claim and release a payment, and create
-- a session, which may fail. The clock's reading comes last, and random bytes behind it.
pub record Store : Type 1 where
  pub State : Type 0
  pub consume : State → Text → Option Text → ℕ → State × SessionOutcome
  pub claim : State → Text → ℕ → ℕ → State × PaymentClaim
  pub release : State → Text → State
  pub create : State → Text → Option Text → ℕ → ℕ → ℕ → Text → State × Option Text

-- A rate limiter; `none` is a panic.
pub record Limiter : Type 1 where
  pub State : Type 0
  pub check : State → Text → IpAddr → ℕ → ℕ → ℕ → Option (State × Allowance)

-- The service's state. `broadcasts` is what it has sent to the chain, newest last.
pub record AppState (S L : Type 0) : Type 0 where
  pub config : Config
  pub breaker : SettlementBreaker
  pub sessions : S
  pub limiter : L
  pub facilitator : Facilitator
  pub broadcasts : List Text

-- `serde_json` behind base64 for headers, and the texts that `thiserror` derives.
pub record Wire : Type 0 where
  pub decode_payment : Text → Result Text PaymentPayload
  pub encode_challenge : PaymentRequired → Option Text
  pub encode_receipt : SettlementResponse → Option Text
  pub challenge_body : PaymentRequired → Option Text
  pub error_text : FacilitatorError → Text

-- How long a payment stays claimed.
unfoldable pub replay_ttl : ℕ → ℕ
replay_ttl max_timeout_seconds = max (saturating_mul max_timeout_seconds 10) 300

unfoldable pub policy_label : Option Text → Text
policy_label none = codes "default"
policy_label (some policy) = policy

unfoldable pub replay_claim_label : PaymentClaim → Text
replay_claim_label fresh = codes "fresh"
replay_claim_label (replay t) = codes "replay"
replay_claim_label backend = codes "backend_error"

unfoldable pub mode_label : VerificationMode → Text
mode_label stub_accept_all = codes "stub"
mode_label sui_grpc = codes "sui-grpc"

unfoldable pub session_rejection_label : SessionRejection → Text
session_rejection_label malformed = codes "malformed"
session_rejection_label expired = codes "expired"
session_rejection_label unknown = codes "unknown"
session_rejection_label wrong_policy = codes "wrong_policy"
session_rejection_label quota_exhausted = codes "quota_exhausted"
session_rejection_label Session.backend = codes "backend"
