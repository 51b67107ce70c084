-- ===== src/Auth/Outcomes.antt =====
-- What a request presents to `decide`, and what becomes of it in each case: src/auth.rs.
use sui_x402_verifier.Base.{
  ℕ, ◌-◌, Option, none, some, List, [], ◌∷◌, ltb, if◌then◌else◌, Text, codes, Map, Result, ok, err,
}
use sui_x402_verifier.Config.{ResolvedPolicy, PaymentConfig, PaidTierConfig}
use sui_x402_verifier.RateLimit.{Allowance}
use sui_x402_verifier.RateLimit.Address.{IpAddr}
use sui_x402_verifier.Facilitator.{Facilitator, failure_receipt}
use sui_x402_verifier.Session.{
  SessionOutcome, accepted, rejected, PaymentClaim, fresh, replay, backend,
}
use sui_x402_verifier.X402.{
  ResourceInfo, PaymentPayload, PaymentRequirements, PaymentRequired, SettlementResponse,
  FacilitatorError, authorization_expired, replay_cache_unavailable, from_config, challenge, code,
  header_payment_signature, header_payment_session,
}
use sui_x402_verifier.X402
use sui_x402_verifier.X402.Extensions.{
  session_extension_advertisement, session_extension_grant, session_token_from_extensions,
}
use sui_x402_verifier.Auth.{
  free, paid, Meter, free_meter, session_meter, unknown_meter, Allowed, Decision, allow, deny,
  Store, Wire,
}
use sui_x402_verifier.Auth.Headers.{get_header}

-- The arguments of `decide` that come with the request.
pub record Request : Type 0 where
  pub headers : Map Text
  pub client_ip : Option IpAddr
  pub path : Text
  pub policy : Option Text
  pub resource_url : Text

abbrev tags_or_absent : List Text → Option (List Text)
tags_or_absent [] = none
tags_or_absent (t ∷ ts) = some (t ∷ ts)

unfoldable pub resource_info : PaymentConfig → Text → ResourceInfo
resource_info payment resource_url = record {
  url = resource_url;
  description = some payment.description;
  mime_type = some (codes "application/json");
  service_name = payment.service_name;
  tags = tags_or_absent payment.tags;
  icon_url = payment.icon_url;
}

-- The challenge that a refusal on these terms carries, with its reason.
unfoldable pub challenge_of : ResolvedPolicy → Text → Text → PaymentRequired
unfolding resource_info
challenge_of resolved resource_url reason =
    challenge reason (resource_info resolved.payment resource_url) (from_config resolved.payment) (
      some (
        session_extension_advertisement resolved.paid_tier.quota resolved.paid_tier.duration_secs
          header_payment_session))

-- A payment was attempted and refused: the challenge with a receipt that names the error's code.
unfoldable pub refuse_payment : Facilitator → ResolvedPolicy → Text → Text → Text → Decision
unfolding challenge_of
refuse_payment facilitator resolved resource_url reason error_code = deny (record {
  challenge = challenge_of resolved resource_url reason;
  receipt = some (failure_receipt facilitator error_code);
  meter = unknown_meter;
})

-- Why a claim refuses the payment, if it does.
unfoldable pub refusal_of_claim : PaymentClaim → ℕ → ℕ → Option FacilitatorError
refusal_of_claim fresh max_timeout now = none
refusal_of_claim (replay first_seen) max_timeout now =
    if ltb max_timeout (now - first_seen)
    then some (authorization_expired first_seen max_timeout)
    else some (X402.replay first_seen)
refusal_of_claim backend max_timeout now = some replay_cache_unavailable

-- What an accepted session allows.
unfoldable pub session_allows : SessionOutcome → ℕ → Option Allowed
session_allows (accepted payer remaining quota expires_at) now = some (record {
  tier = paid;
  payer = some payer;
  session_token = none;
  settlement = none;
  pending = none;
  meter = session_meter remaining quota (expires_at - now);
})
session_allows (rejected reason) now = none

-- The payment that the headers carry, decoded.
unfoldable pub presented_payment : Wire → Request → Option (Result Text PaymentPayload)
presented_payment wire request = elim (get_header request.headers header_payment_signature) [
  | none ↦ none
  | some value ↦ some (wire.decode_payment value)
]

abbrev echoed_token : Option (Result Text PaymentPayload) → Option Text
echoed_token none = none
echoed_token (some (err e)) = none
echoed_token (some (ok payload)) = session_token_from_extensions payload.extensions

-- The token echoed in the payment's extensions, or else the one in the header.
unfoldable pub presented_token : Wire → Request → Option Text
unfolding presented_payment
presented_token wire request = elim (echoed_token (presented_payment wire request)) [
  | some token ↦ some token
  | none ↦ get_header request.headers header_payment_session
]

-- The allowance's meter and verdict as a decision.
unfoldable pub free_decision : ResolvedPolicy → Text → Allowance → Decision
unfolding challenge_of
free_decision resolved resource_url allowance =
    let meter = free_meter allowance.remaining allowance.limit allowance.reset_secs in
    if allowance.allowed
    then allow (record {
      tier = free;
      payer = none;
      session_token = none;
      settlement = none;
      pending = none;
      meter = meter;
    })
    else deny (record {
      challenge =
          challenge_of resolved resource_url
            (codes "free tier rate limit exceeded; pay to unlock a higher limit");
      receipt = none;
      meter = meter;
    })

-- The session that a settled payment buys, if it names a payer and the store takes it.
unfoldable pub buy_session :
    (store : Store)
    → store.State
    → Option Text
    → Option Text
    → PaidTierConfig
    → ℕ
    → Text
    → store.State × Option Text
buy_session store sessions none policy tier now raw = (sessions, none)
buy_session store sessions (some payer) policy tier now raw =
    store.create sessions payer policy tier.quota tier.duration_secs now raw

-- The receipt with the token in its extensions.
unfoldable pub grant : SettlementResponse → PaidTierConfig → Option Text → SettlementResponse
grant settlement tier none = settlement
grant settlement tier (some token) = record settlement {
  extensions = some (session_extension_grant token tier.quota tier.duration_secs);
}

-- A brand-new session has spent nothing yet.
unfoldable pub bought_meter : PaidTierConfig → Option Text → Meter
bought_meter tier none = unknown_meter
bought_meter tier (some token) = session_meter tier.quota tier.quota tier.duration_secs
