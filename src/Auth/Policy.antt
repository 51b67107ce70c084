-- ===== src/Auth/Policy.antt =====
-- The free tier and the deferred policy in `decide`, over any stores: src/auth.rs.
use sui_x402_verifier.Base.{
  ℕ, ◌≡◌, inl, inr, refl, Option, none, some, Text, Result, ok, err, Option-cases, Result-cases,
  arith,
}
use sui_x402_verifier.Config.{ResolvedPolicy, policy_for}
use sui_x402_verifier.RateLimit.{Allowance}
use sui_x402_verifier.RateLimit.Address.{IpAddr}
use sui_x402_verifier.Sui.{Node}
use sui_x402_verifier.Facilitator.{Codec, Facilitator, payment_id}
use sui_x402_verifier.Facilitator
use sui_x402_verifier.X402.{PaymentPayload, PaymentRequirements, from_config}
use sui_x402_verifier.Auth.{
  SettlePolicy, immediate, deferred, paid, Allowed, Decision, allow, deny, Store, Limiter, AppState,
  Wire,
}
use sui_x402_verifier.Auth.Decide.{
  try_session, claim_payment, reject, verify_payment, settle_payment, charge, serve_free,
  decide_unsessioned, decide,
}
use sui_x402_verifier.Auth.Outcomes.{
  Request, refuse_payment, presented_payment, presented_token, free_decision, session_allows,
}

-- The decision serves nobody from the free tier.
abbrev pub IsNotFree : Decision → Type 0
IsNotFree (allow a) = a.tier ≡ paid
IsNotFree (deny d) = Unit {0}

-- The decision carries no session token and no receipt of a settlement.
abbrev pub IsUnsettled : Decision → Type 0
IsUnsettled (allow a) = (a.session_token ≡ none) × (a.settlement ≡ none)
IsUnsettled (deny d) = Unit {0}

module _ (store : Store) (limiter : Limiter) (codec : Codec) (wire : Wire) (node : Node) where
  abbrev Here : Type 0
  Here = AppState store.State limiter.State

  session-NotFree :
      (state : Here) (token policy : Option Text) (now : ℕ) (a : Allowed)
      → (try_session store limiter codec wire node state token policy now).1 ≡ some a
      → a.tier ≡ paid
  unfolding try_session session_allows
  session-NotFree state none policy now a h = cc
  session-NotFree state (some token) policy now a h = ground arith

  -- The parts of the state that claims and sessions leave alone.
  abbrev pub Keeps : Here → Here → Type 0
  Keeps s t =
      (s.limiter ≡ t.limiter)
      × (s.broadcasts ≡ t.broadcasts)
      × (s.facilitator ≡ t.facilitator)
      × (s.config ≡ t.config)

  pub try_session-Keeps :
      (state : Here) (token policy : Option Text) (now : ℕ)
      → Keeps (try_session store limiter codec wire node state token policy now).0 state
  unfolding try_session
  try_session-Keeps state none policy now = (refl, refl, refl, refl)
  try_session-Keeps state (some token) policy now = (refl, refl, refl, refl)

  pub claim-Keeps :
      (state : Here) (payload : PaymentPayload) (r : PaymentRequirements) (now : ℕ)
      → Keeps (claim_payment store limiter codec wire node state payload r now).0 state
  unfolding claim_payment
  claim-Keeps state payload r now = elim (Option-cases (payment_id codec payload)) [
    | inl q ↦ ground arith
    | inr (i, q) ↦ ground arith
  ]

  verify-NotFree :
      (state : Here) (resolved : ResolvedPolicy) (url : Text) (payload : PaymentPayload)
      → IsNotFree (verify_payment store limiter codec wire node state resolved url payload)
        × IsUnsettled (verify_payment store limiter codec wire node state resolved url payload)
  unfolding verify_payment reject refuse_payment
  verify-NotFree state resolved url payload =
      elim (Result-cases
        (Facilitator.verify codec state.facilitator node payload (from_config resolved.payment))) [
          | inl (v, q) ↦ ground arith
          | inr (f, q) ↦ ground arith
        ]

  settle-NotFree :
      (state : Here) (resolved : ResolvedPolicy) (request : Request) (payload : PaymentPayload)
      (now : ℕ) (raw : Text)
      → IsNotFree
          (settle_payment store limiter codec wire node state resolved request payload now raw).1
        × ((settle_payment store limiter codec wire node state resolved request payload now
              raw).0.limiter
            ≡ state.limiter)
  unfolding settle_payment reject refuse_payment
  settle-NotFree state resolved request payload now raw =
      elim (Result-cases
        (Facilitator.settle codec state.facilitator node payload
          (from_config resolved.payment)).result) [
            | inl (v, q) ↦ ground arith
            | inr (f, q) ↦ ground arith
          ]

  charge-NotFree :
      (state : Here) (resolved : ResolvedPolicy) (request : Request) (settle : SettlePolicy)
      (decoded : Result Text PaymentPayload) (now : ℕ) (raw : Text)
      → IsNotFree
          (charge store limiter codec wire node state resolved request settle decoded now raw).1
        × ((charge store limiter codec wire node state resolved request settle decoded now
              raw).0.limiter
            ≡ state.limiter)
  unfolding charge refuse_payment reject
  charge-NotFree state resolved request settle (err e) now raw = (tt, refl)
  charge-NotFree state resolved request immediate (ok payload) now raw = ground (
    arith,
    claim-Keeps state payload (from_config resolved.payment) now,
    settle-NotFree
        (claim_payment store limiter codec wire node state payload (from_config resolved.payment)
          now).0
        resolved request payload now raw,
  )
  charge-NotFree state resolved request deferred (ok payload) now raw = ground (
    arith,
    claim-Keeps state payload (from_config resolved.payment) now,
    verify-NotFree
        (claim_payment store limiter codec wire node state payload (from_config resolved.payment)
          now).0
        resolved request.resource_url payload,
  )

  charge-deferred :
      (state : Here) (resolved : ResolvedPolicy) (request : Request)
      (decoded : Result Text PaymentPayload) (now : ℕ) (raw : Text)
      → IsUnsettled
          (charge store limiter codec wire node state resolved request deferred decoded now raw).1
        × ((charge store limiter codec wire node state resolved request deferred decoded now
              raw).0.broadcasts
            ≡ state.broadcasts)
  unfolding charge refuse_payment reject
  charge-deferred state resolved request (err e) now raw = (tt, refl)
  charge-deferred state resolved request (ok payload) now raw = ground (
    arith,
    claim-Keeps state payload (from_config resolved.payment) now,
    verify-NotFree
        (claim_payment store limiter codec wire node state payload (from_config resolved.payment)
          now).0
        resolved request.resource_url payload,
  )

  -- The answer of the limiter, as `decide` asks it.
  abbrev free_check :
      Here → Request → ResolvedPolicy → ℕ → IpAddr → Option (limiter.State × Allowance)
  free_check state request resolved now ip =
      limiter.check state.limiter resolved.label ip resolved.free_tier.max_requests
        resolved.free_tier.window_secs now

  free-IsUnsettled :
      (state s : Here) (resolved : ResolvedPolicy) (request : Request) (now : ℕ) (d : Decision)
      → serve_free store limiter codec wire node state resolved request now ≡ some (s, d)
      → IsUnsettled d × (s.broadcasts ≡ state.broadcasts)
  unfolding serve_free free_decision
  free-IsUnsettled state s resolved request now d h = elim (Option-cases request.client_ip) [
    | inl q ↦ ground arith
    | inr (ip, q) ↦ elim (Option-cases (free_check state request resolved now ip)) [
      | inl e ↦ ground arith
      | inr ((l, a), e) ↦ ground arith
    ]
  ]

  session-IsUnsettled :
      (state : Here) (token policy : Option Text) (now : ℕ) (a : Allowed)
      → (try_session store limiter codec wire node state token policy now).1 ≡ some a
      → (a.session_token ≡ none) × (a.settlement ≡ none)
  unfolding try_session session_allows
  session-IsUnsettled state none policy now a h = cc
  session-IsUnsettled state (some token) policy now a h = ground arith

  -- A request that presents a payment is never served from the free tier, nor counted against it:
  -- whatever becomes of the payment, the request is allowed as paid or denied, and the limiter is
  -- left as it was.
  pub decide-NotFree :
      (state s : Here) (request : Request) (settle : SettlePolicy) (now : ℕ) (raw : Text)
      (d : Decision) (decoded : Result Text PaymentPayload)
      → presented_payment wire request ≡ some decoded
      → decide store limiter codec wire node state request settle now raw ≡ some (s, d)
      → IsNotFree d × (s.limiter ≡ state.limiter)
  unfolding decide decide_unsessioned
  decide-NotFree state s request settle now raw d decoded p h =
      let tried =
        try_session store limiter codec wire node state (presented_token wire request)
          request.policy now in
      elim (Option-cases tried.1) [
        | inl q ↦ ground (
          arith,
          try_session-Keeps state (presented_token wire request) request.policy now,
          charge-NotFree tried.0 (policy_for tried.0.config request.path request.policy) request
              settle decoded now raw,
        )
        | inr (a, q) ↦ ground (
          arith,
          try_session-Keeps state (presented_token wire request) request.policy now,
          session-NotFree state (presented_token wire request) request.policy now a q,
        )
      ]

  -- Under the deferred policy nothing is charged: `decide` broadcasts nothing, and its decision
  -- carries no session token and no settlement.
  pub decide-deferred :
      (state s : Here) (request : Request) (now : ℕ) (raw : Text) (d : Decision)
      → decide store limiter codec wire node state request deferred now raw ≡ some (s, d)
      → IsUnsettled d × (s.broadcasts ≡ state.broadcasts)
  unfolding decide decide_unsessioned
  decide-deferred state s request now raw d h =
      let tried =
        try_session store limiter codec wire node state (presented_token wire request)
          request.policy now in
      let resolved = policy_for tried.0.config request.path request.policy in
      let keeps = try_session-Keeps state (presented_token wire request) request.policy now in
      elim (Option-cases tried.1) [
        | inl q ↦ elim (Option-cases (presented_payment wire request)) [
          | inl p ↦ ground (arith, keeps, free-IsUnsettled tried.0 s resolved request now d)
          | inr (decoded, p) ↦
              ground (arith, keeps, charge-deferred tried.0 resolved request decoded now raw)
        ]
        | inr (a, q) ↦ ground (
          arith,
          keeps,
          session-IsUnsettled state (presented_token wire request) request.policy now a q,
        )
      ]
