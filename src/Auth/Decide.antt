-- ===== src/Auth/Decide.antt =====
-- `X402Auth::decide`: src/auth.rs. The clock is read once for a request, and `raw` is the random
-- bytes of the session that the request may create; `none` is a panic of the limiter.
use sui_x402_verifier.Base.{ℕ, Option, none, some, ◌++◌, Text, codes, Result, ok, err}
use sui_x402_verifier.Config.{ResolvedPolicy, policy_for}
use sui_x402_verifier.Sui.{Node}
use sui_x402_verifier.Facilitator.{Codec, Facilitator, failure_receipt, payment_id}
use sui_x402_verifier.Facilitator
use sui_x402_verifier.X402.{
  PaymentPayload, PaymentRequirements, FacilitatorError, from_config, code,
}
use sui_x402_verifier.Auth.{
  SettlePolicy, immediate, deferred, paid, unknown_meter, Allowed, Decision, allow, deny, Store,
  Limiter, AppState, Wire, replay_ttl,
}
use sui_x402_verifier.Auth.Outcomes.{
  Request, challenge_of, refuse_payment, refusal_of_claim, session_allows, presented_payment,
  presented_token, free_decision, buy_session, grant, bought_meter,
}

module _ (store : Store) (limiter : Limiter) (codec : Codec) (wire : Wire) (node : Node) where
  abbrev pub State : Type 0
  State = AppState store.State limiter.State

  -- 1. An existing session.
  unfoldable pub try_session : State → Option Text → Option Text → ℕ → State × Option Allowed
  unfolding session_allows
  try_session state none policy now = (state, none)
  try_session state (some token) policy now =
      let (sessions, outcome) = store.consume state.sessions token policy now in
      (record state { sessions = sessions }, session_allows outcome now)

  -- The claim of a payment that has an identifier, and why it refuses the payment.
  unfoldable pub claim_payment :
      State → PaymentPayload → PaymentRequirements → ℕ → State × Option FacilitatorError
  unfolding refusal_of_claim
  claim_payment state payload requirements now = elim (payment_id codec payload) [
    | none ↦ (state, none)
    | some id ↦
        let (sessions, claim) =
          store.claim state.sessions id (replay_ttl requirements.max_timeout_seconds) now in
        (
          record state { sessions = sessions },
          refusal_of_claim claim requirements.max_timeout_seconds now,
        )
  ]

  -- `payment rejected: {error}`
  unfoldable pub reject : State → ResolvedPolicy → Text → FacilitatorError → Decision
  unfolding refuse_payment
  reject state resolved resource_url error =
      refuse_payment state.facilitator resolved resource_url
        (codes "payment rejected: " ++ wire.error_text error) (code error)

  -- Deferred: verify only, and leave the payment pending.
  unfoldable pub verify_payment : State → ResolvedPolicy → Text → PaymentPayload → Decision
  unfolding reject
  verify_payment state resolved resource_url payload =
      elim (Facilitator.verify codec state.facilitator node payload
        (from_config resolved.payment)) [
          | ok payer ↦ allow (record {
            tier = paid;
            payer = some payer;
            session_token = none;
            settlement = none;
            pending = some (record {
              payload = payload;
              requirements = from_config resolved.payment;
              payment_id = payment_id codec payload;
            });
            meter = unknown_meter;
          })
          | err e ↦ reject state resolved resource_url e
        ]

  -- Immediate: settle, and sell a session.
  unfoldable pub settle_payment :
      State → ResolvedPolicy → Request → PaymentPayload → ℕ → Text → State × Decision
  unfolding reject buy_session grant bought_meter
  settle_payment state resolved request payload now raw =
      let sent =
        Facilitator.settle codec state.facilitator node payload (from_config resolved.payment) in
      let state' : State = record state { broadcasts = state.broadcasts ++ sent.sent } in
      elim sent.result [
        | ok settlement ↦
            let (sessions, token) =
              buy_session store state'.sessions settlement.payer request.policy resolved.paid_tier
                now raw in
            (
              record state' { sessions = sessions },
              allow (record {
                tier = paid;
                payer = settlement.payer;
                session_token = token;
                settlement = some (grant settlement resolved.paid_tier token);
                pending = none;
                meter = bought_meter resolved.paid_tier token;
              }),
            )
        | err e ↦ (state', reject state' resolved request.resource_url e)
      ]

  -- 2. A new payment.
  unfoldable pub charge :
      State
      → ResolvedPolicy
      → Request
      → SettlePolicy
      → Result Text PaymentPayload
      → ℕ
      → Text
      → State × Decision
  unfolding refuse_payment claim_payment reject verify_payment settle_payment
  charge state resolved request settle (err e) now raw = (
    state,
    refuse_payment state.facilitator resolved request.resource_url
        (codes "malformed payment-signature header: " ++ e) (codes "invalid_payload"),
  )
  charge state resolved request settle (ok payload) now raw =
      let (claimed, refusal) = claim_payment state payload (from_config resolved.payment) now in
      elim refusal [
        | some error ↦ (claimed, reject claimed resolved request.resource_url error)
        | none ↦ elim settle [
          | deferred ↦ (claimed, verify_payment claimed resolved request.resource_url payload)
          | immediate ↦ settle_payment claimed resolved request payload now raw
        ]
      ]

  -- 3. The anonymous free tier.
  unfoldable pub serve_free : State → ResolvedPolicy → Request → ℕ → Option (State × Decision)
  unfolding challenge_of free_decision
  serve_free state resolved request now = elim request.client_ip [
    | none ↦ some (
      state,
      deny (record {
        challenge =
            challenge_of resolved request.resource_url
              (codes "client address unavailable; free tier cannot be metered");
        receipt = none;
        meter = unknown_meter;
      }),
    )
    | some ip ↦
        elim (limiter.check state.limiter resolved.label ip resolved.free_tier.max_requests
          resolved.free_tier.window_secs now) [
            | none ↦ none
            | some (l, allowance) ↦ some (
              record state { limiter = l },
              free_decision resolved request.resource_url allowance,
            )
          ]
  ]

  -- What a request without an accepted session comes to.
  unfoldable pub decide_unsessioned :
      State → Request → SettlePolicy → ℕ → Text → Option (State × Decision)
  unfolding charge serve_free presented_payment
  decide_unsessioned state request settle now raw =
      let resolved = policy_for state.config request.path request.policy in
      elim (presented_payment wire request) [
        | some decoded ↦ some (charge state resolved request settle decoded now raw)
        | none ↦ serve_free state resolved request now
      ]

  -- `decide`
  unfoldable pub decide : State → Request → SettlePolicy → ℕ → Text → Option (State × Decision)
  unfolding try_session presented_token decide_unsessioned
  decide state request settle now raw =
      let (tried, served) = try_session state (presented_token wire request) request.policy now in
      elim served [
        | some allowed ↦ some (tried, allow allowed)
        | none ↦ decide_unsessioned tried request settle now raw
      ]
