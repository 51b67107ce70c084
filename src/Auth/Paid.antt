-- ===== src/Auth/Paid.antt =====
-- What stands behind a request that `decide` serves as paid: src/auth.rs.
use sui_x402_verifier.Base.{
  ℕ, ◌≡◌, ◌≢◌, ◌⊎◌, inl, inr, refl, subst, Option, none, some, Text, ok, err, Option-cases,
  Result-cases, arith,
}
use sui_x402_verifier.Config.{ResolvedPolicy, policy_for}
use sui_x402_verifier.Sui.{Node}
use sui_x402_verifier.Facilitator.{Codec, Facilitator, payment_id}
use sui_x402_verifier.Facilitator
use sui_x402_verifier.Facilitator.Settlement.{settle-refused}
use sui_x402_verifier.X402.{PaymentPayload, PaymentRequirements, SettlementResponse, from_config}
use sui_x402_verifier.Auth.{
  SettlePolicy, immediate, deferred, paid, Allowed, allow, Store, Limiter, AppState, Wire,
}
use sui_x402_verifier.Auth.Decide.{
  try_session, claim_payment, reject, verify_payment, settle_payment, charge, serve_free,
  decide_unsessioned, decide,
}
use sui_x402_verifier.Auth.Outcomes.{
  Request, refuse_payment, presented_payment, presented_token, free_decision, session_allows,
}
use sui_x402_verifier.Auth.Policy.{try_session-Keeps, claim-Keeps}

module _ (store : Store) (limiter : Limiter) (codec : Codec) (wire : Wire) (node : Node) where
  abbrev Here : Type 0
  Here = AppState store.State limiter.State

  -- The state once the request's session token, if any, was tried.
  abbrev pub tried : Here → Request → ℕ → Here
  tried state request now =
      (try_session store limiter codec wire node state (presented_token wire request) request.policy
        now).0

  -- The request's terms.
  abbrev pub terms : Here → Request → PaymentRequirements
  terms state request = from_config (policy_for state.config request.path request.policy).payment

  -- The facilitator finds the payment good, and names its payer.
  abbrev pub Verifies : Facilitator → PaymentPayload → PaymentRequirements → Type 0
  Verifies facilitator payload r =
      (payer : Text) × (Facilitator.verify codec facilitator node payload r ≡ ok payer)

  -- The store accepted the request's session token, and the decision is what that allows.
  pub record HasSession (state : Here) (request : Request) (now : ℕ) (a : Allowed) : Type 0 where
    pub token : Text
    pub presented : presented_token wire request ≡ some token
    pub accepts :
        session_allows (store.consume state.sessions token request.policy now).1 now ≡ some a

  -- The request carries a payment that was not claimed before and verifies against the terms.
  pub record HasPayment (state : Here) (request : Request) (now : ℕ) : Type 0 where
    pub payload : PaymentPayload
    pub presented : presented_payment wire request ≡ some (ok payload)
    pub claimed :
        (claim_payment store limiter codec wire node
          (tried state request now)
          payload
          (terms state request)
          now).1
        ≡ none
    pub verifies : Verifies state.facilitator payload (terms state request)

  session-accepts :
      (state : Here) (token policy : Option Text) (now : ℕ) (a : Allowed)
      → (try_session store limiter codec wire node state token policy now).1 ≡ some a
      → (t : Text) × (token ≡ some t)
        × (session_allows (store.consume state.sessions t policy now).1 now ≡ some a)
  unfolding try_session
  session-accepts state none policy now a h = cc
  session-accepts state (some t) policy now a h = (t, refl, h)

  -- Only what verifies settles.
  settled-verified :
      (facilitator : Facilitator) (payload : PaymentPayload) (r : PaymentRequirements)
      (receipt : SettlementResponse)
      → (Facilitator.settle codec facilitator node payload r).result ≡ ok receipt
      → Verifies facilitator payload r
  settled-verified facilitator payload r receipt h =
      elim (Result-cases (Facilitator.verify codec facilitator node payload r)) [
        | inl (v, q) ↦ (v, q)
        | inr (e, q) ↦ absurd (ground (arith, settle-refused codec facilitator node payload r e q))
      ]

  allowed-verified :
      (state : Here) (resolved : ResolvedPolicy) (url : Text) (payload : PaymentPayload)
      (a : Allowed)
      → verify_payment store limiter codec wire node state resolved url payload ≡ allow a
      → Verifies state.facilitator payload (from_config resolved.payment)
  unfolding verify_payment reject refuse_payment
  allowed-verified state resolved url payload a h =
      elim (Result-cases
        (Facilitator.verify codec state.facilitator node payload (from_config resolved.payment))) [
          | inl (v, q) ↦ (v, q)
          | inr (f, q) ↦ absurd (ground arith)
        ]

  allowed-settled :
      (state : Here) (resolved : ResolvedPolicy) (request : Request) (payload : PaymentPayload)
      (now : ℕ) (raw : Text) (a : Allowed)
      → (settle_payment store limiter codec wire node state resolved request payload now raw).1
        ≡ allow a
      → Verifies state.facilitator payload (from_config resolved.payment)
  unfolding settle_payment reject refuse_payment
  allowed-settled state resolved request payload now raw a h =
      elim (Result-cases
        (Facilitator.settle codec state.facilitator node payload
          (from_config resolved.payment)).result) [
            | inl (v, q) ↦
                settled-verified state.facilitator payload (from_config resolved.payment) v q
            | inr (f, q) ↦ absurd (ground arith)
          ]

  charge-Verifies :
      (state : Here) (resolved : ResolvedPolicy) (request : Request) (settle : SettlePolicy)
      (payload : PaymentPayload) (now : ℕ) (raw : Text) (a : Allowed)
      → (charge store limiter codec wire node state resolved request settle (ok payload) now raw).1
        ≡ allow a
      → ((claim_payment store limiter codec wire node state payload
            (from_config resolved.payment)
            now).1
          ≡ none)
        × Verifies state.facilitator payload (from_config resolved.payment)
  unfolding charge reject refuse_payment
  charge-Verifies state resolved request immediate payload now raw a h =
      let claim =
        claim_payment store limiter codec wire node state payload (from_config resolved.payment)
          now in
      let (_, _, same, _) =
        claim-Keeps store limiter codec wire node state payload (from_config resolved.payment)
          now in
      elim (Option-cases claim.1) [
        | inr (e, q) ↦ absurd (ground arith)
        | inl q ↦ (
          q,
          subst (λ f. Verifies f payload (from_config resolved.payment)) same
              (allowed-settled claim.0 resolved request payload now raw a (ground arith)),
        )
      ]
  charge-Verifies state resolved request deferred payload now raw a h =
      let claim =
        claim_payment store limiter codec wire node state payload (from_config resolved.payment)
          now in
      let (_, _, same, _) =
        claim-Keeps store limiter codec wire node state payload (from_config resolved.payment)
          now in
      elim (Option-cases claim.1) [
        | inr (e, q) ↦ absurd (ground arith)
        | inl q ↦ (
          q,
          subst (λ f. Verifies f payload (from_config resolved.payment)) same
              (allowed-verified claim.0 resolved request.resource_url payload a (ground arith)),
        )
      ]

  charge-malformed :
      (state : Here) (resolved : ResolvedPolicy) (request : Request) (settle : SettlePolicy)
      (e : Text) (now : ℕ) (raw : Text) (a : Allowed)
      → (charge store limiter codec wire node state resolved request settle (err e) now raw).1
        ≢ allow a
  unfolding charge refuse_payment
  charge-malformed state resolved request settle e now raw a h = ground arith

  free-NotPaid :
      (state s : Here) (resolved : ResolvedPolicy) (request : Request) (now : ℕ) (a : Allowed)
      → serve_free store limiter codec wire node state resolved request now ≡ some (s, allow a)
      → a.tier ≢ paid
  unfolding serve_free free_decision
  free-NotPaid state s resolved request now a h = elim (Option-cases request.client_ip) [
    | inl q ↦ ground arith
    | inr (ip, q) ↦
        elim (Option-cases (
          limiter.check state.limiter resolved.label ip resolved.free_tier.max_requests
            resolved.free_tier.window_secs now)) [
              | inl e ↦ ground arith
              | inr ((l, allowance), e) ↦ ground arith
            ]
  ]

  -- What a request that no session covers must have for the paid tier.
  unsessioned-HasPayment :
      (state s : Here) (request : Request) (settle : SettlePolicy) (now : ℕ) (raw : Text)
      (a : Allowed)
      → decide_unsessioned store limiter codec wire node
          (tried state request now)
          request
          settle
          now
          raw
        ≡ some (s, allow a)
      → a.tier ≡ paid
      → HasPayment state request now
  unfolding decide_unsessioned
  unsessioned-HasPayment state s request settle now raw a h t =
      let (_, _, facilitator, config) =
        try_session-Keeps store limiter codec wire node state (presented_token wire request)
          request.policy now in
      let resolved = policy_for (tried state request now).config request.path request.policy in
      elim (Option-cases (presented_payment wire request)) [
        | inl q ↦
            absurd
              (free-NotPaid (tried state request now) s resolved request now a (ground arith) t)
        | inr (err e, q) ↦ absurd (
            charge-malformed (tried state request now) resolved request settle e now raw a
              (ground arith))
        | inr (ok payload, q) ↦
            let (claimed, verifies) =
              charge-Verifies (tried state request now) resolved request settle payload now raw a
                (ground arith) in
            record {
              payload = payload;
              presented = q;
              claimed = rw (config) at claimed;
              verifies = rw (facilitator, config) at verifies;
            }
      ]

  -- Nobody is served as paid without having paid: an allowed request of the paid tier presents
  -- either a session token that the store accepts, or a payment that is not refused as claimed
  -- before and that the facilitator verifies against the terms of the request's own policy.
  pub decide-paid :
      (state s : Here) (request : Request) (settle : SettlePolicy) (now : ℕ) (raw : Text)
      (a : Allowed)
      → decide store limiter codec wire node state request settle now raw ≡ some (s, allow a)
      → a.tier ≡ paid
      → HasSession state request now a ⊎ HasPayment state request now
  unfolding decide
  decide-paid state s request settle now raw a h t =
      let served =
        try_session store limiter codec wire node state (presented_token wire request)
          request.policy now in
      elim (Option-cases served.1) [
        | inl q ↦ inr (unsessioned-HasPayment state s request settle now raw a (ground arith) t)
        | inr (b, q) ↦
            let (token, p, e) =
              session-accepts state (presented_token wire request) request.policy now a
                (ground arith) in
            inl (record { token = token; presented = p; accepts = e })
      ]
