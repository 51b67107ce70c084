-- ===== src/FacilitatorApi/Settling.antt =====
-- `/settle` beside `/verify` and beside the gateway: src/facilitator_api.rs with src/auth.rs.
use mathlib.Core.List.{append-nil}
use sui_x402_verifier.Base.{
  ℕ, ◌-◌, ◌≤◌, ◌<◌, ◌≡◌, inl, inr, refl, ap, sym, subst, ◌∙◌, true, false, Option, none, some, List,
  All, Text, ok, err, Option-cases, Result-cases, arith, lookup,
}
use sui_x402_verifier.Config.{policy_for}
use sui_x402_verifier.Sui.{Node}
use sui_x402_verifier.Facilitator.{Codec, Facilitator, failure_receipt, payment_id}
use sui_x402_verifier.Facilitator
use sui_x402_verifier.Facilitator.Settlement.{settle-refused, settle-success}
use sui_x402_verifier.Session.{Crypto, PaymentClaim, fresh}
use sui_x402_verifier.Session.Memory.{MemorySessionStore, claim_payment_at}
use sui_x402_verifier.Session.Memory.Replay.{
  Event, IsWithin, apply_all, release-lookup, absent-fresh,
}
use sui_x402_verifier.X402.{
  PaymentPayload, SettlementResponse, VerifyResponse, FacilitatorError, code,
}
use sui_x402_verifier.Auth.{SettlePolicy, Store, Limiter, AppState, Wire, replay_ttl}
use sui_x402_verifier.Auth.Backends.{memory_store}
use sui_x402_verifier.Auth.Outcomes.{Request, presented_payment, presented_token}
use sui_x402_verifier.Auth.Decide.{decide, try_session}
use sui_x402_verifier.Auth.Once.{IsRefused, decide-once}
use sui_x402_verifier.FacilitatorApi.{
  FacilitatorRequest, check_version, verify, verify_answer, claim_error, settle, settle_claimed,
  claim_and_settle,
}

-- A receipt that reports a failure with this reason.
abbrev pub ReportsFailure : Option Text → SettlementResponse → Type 0
ReportsFailure reason receipt = (receipt.success ≡ false) × (receipt.error_reason ≡ reason)

module _ (store : Store) (limiter : Limiter) (codec : Codec) (node : Node) where
  abbrev Here : Type 0
  Here = AppState store.State limiter.State

  settle_claimed-refused :
      (state : Here) (request : FacilitatorRequest) (e : FacilitatorError)
      → Facilitator.verify codec state.facilitator node request.payment_payload
          request.payment_requirements
        ≡ err e
      → let (s, receipt) = settle_claimed store limiter codec node state request in
        ReportsFailure (some (code e)) receipt × (s.broadcasts ≡ state.broadcasts)
  unfolding settle_claimed failure_receipt
  settle_claimed-refused state request e h = ground (
    arith,
    settle-refused codec state.facilitator node request.payment_payload request.payment_requirements
        e h,
    append-nil state.broadcasts,
  )

  claim-refused :
      (state : Here) (request : FacilitatorRequest) (now : ℕ) (e : FacilitatorError)
      → Facilitator.verify codec state.facilitator node request.payment_payload
          request.payment_requirements
        ≡ err e
      → let (s, receipt) = claim_and_settle store limiter codec node state request now in
        (receipt.success ≡ false) × (s.broadcasts ≡ state.broadcasts)
  unfolding claim_and_settle claim_error failure_receipt
  claim-refused state request now e h =
      elim (Option-cases (payment_id codec request.payment_payload)) [
        | inl q ↦ ground (arith, settle_claimed-refused state request e h)
        | inr (id, q) ↦
            let claimed =
              store.claim state.sessions id
                (replay_ttl request.payment_requirements.max_timeout_seconds) now in
            ground
              (arith, settle_claimed-refused (record state { sessions = claimed.0 }) request e h)
      ]

  -- `/settle` agrees with `/verify`: for a payment that `/verify` answers to be invalid, `/settle`
  -- reports a failure and broadcasts nothing, whatever the replay cache says.
  pub settle-verify :
      (state : Here) (request : FacilitatorRequest) (now : ℕ) (answer : VerifyResponse)
      → verify store limiter codec node state request ≡ ok answer
      → answer.is_valid ≡ false
      → let (s, result) = settle store limiter codec node state request now in
        (receipt : SettlementResponse) × (result ≡ ok receipt)
        × (receipt.success ≡ false)
        × (s.broadcasts ≡ state.broadcasts)
  unfolding verify settle verify_answer
  settle-verify state request now answer h bad =
      elim (Result-cases (
        Facilitator.verify codec state.facilitator node request.payment_payload
          request.payment_requirements)) [
            | inl (v, q) ↦ absurd (ground arith)
            | inr (e, q) ↦ elim (Result-cases (check_version request)) [
              | inr (b, w) ↦ absurd (ground arith)
              | inl (u, w) ↦
                  let done = claim-refused state request now e q in
                  (
                    (claim_and_settle store limiter codec node state request now).1,
                    rw (w, settle) refl,
                    done.0,
                    rw (w, settle) done.1,
                  )
            ]
          ]

module _ (crypto : Crypto) (limiter : Limiter) (codec : Codec) (node : Node) where
  abbrev Gateway : Type 0
  Gateway = AppState MemorySessionStore limiter.State

  claimed-released :
      (state : Gateway) (request : FacilitatorRequest) (id : Text)
      → payment_id codec request.payment_payload ≡ some id
      → let (s, receipt) = settle_claimed (memory_store crypto) limiter codec node state request in
        receipt.success ≡ false → lookup id s.sessions.seen_payments ≡ none
  unfolding settle_claimed
  claimed-released state request id i failed =
      elim (Result-cases
        (Facilitator.settle codec state.facilitator node request.payment_payload
          request.payment_requirements).result) [
            | inl (v, q) ↦ absurd (
                ground (
                  arith,
                  settle-success codec state.facilitator node request.payment_payload
                      request.payment_requirements v q,
                ))
            | inr (e, q) ↦ ground (arith, release-lookup state.sessions id)
          ]

  claimed-kept :
      (state : Gateway) (request : FacilitatorRequest)
      → let (s, receipt) = settle_claimed (memory_store crypto) limiter codec node state request in
        receipt.success ≡ true → s.sessions ≡ state.sessions
  unfolding settle_claimed failure_receipt
  claimed-kept state request done =
      elim (Result-cases
        (Facilitator.settle codec state.facilitator node request.payment_payload
          request.payment_requirements).result) [
            | inl (v, q) ↦ ground arith
            | inr (e, q) ↦ absurd (ground arith)
          ]

  -- The claim that `/settle` makes, and the state with it.
  abbrev claim_of : Gateway → FacilitatorRequest → Text → ℕ → MemorySessionStore × PaymentClaim
  claim_of state request id now =
      claim_payment_at state.sessions id
        (replay_ttl request.payment_requirements.max_timeout_seconds) now

  abbrev claimed : Gateway → FacilitatorRequest → Text → ℕ → Gateway
  claimed state request id now = record state { sessions = (claim_of state request id now).0 }

  settle-fresh :
      (state : Gateway) (request : FacilitatorRequest) (id : Text) (now : ℕ)
      (receipt : SettlementResponse)
      → payment_id codec request.payment_payload ≡ some id
      → (claim_of state request id now).1 ≡ fresh
      → (settle (memory_store crypto) limiter codec node state request now).1 ≡ ok receipt
      → settle (memory_store crypto) limiter codec node state request now ≡ (
        (settle_claimed
            (memory_store crypto)
            limiter
            codec
            node
            (claimed state request id now)
            request).0,
        ok
            (settle_claimed
              (memory_store crypto)
              limiter
              codec
              node
              (claimed state request id now)
              request).1,
      )
  unfolding settle claim_and_settle claim_error
  settle-fresh state request id now receipt i f h = elim (Result-cases (check_version request)) [
    | inl (u, w) ↦ ground arith
    | inr (b, w) ↦ absurd (ground arith)
  ]

  settle-success-fresh :
      (state : Gateway) (request : FacilitatorRequest) (id : Text) (now : ℕ)
      (receipt : SettlementResponse)
      → payment_id codec request.payment_payload ≡ some id
      → (settle (memory_store crypto) limiter codec node state request now).1 ≡ ok receipt
      → receipt.success ≡ true
      → (claim_of state request id now).1 ≡ fresh
  unfolding settle claim_and_settle claim_error failure_receipt
  settle-success-fresh state request id now receipt i h done =
      elim (Result-cases (check_version request)) [
        | inl (u, w) ↦ ground arith
        | inr (b, w) ↦ absurd (ground arith)
      ]

  -- A payment whose settlement failed can be tried again: with the in-memory store, if `/settle` claimed it as fresh and then
  -- reports a failure, the next claim of it is fresh, on whatever terms and at whatever time.
  pub settle-released :
      (state s : Gateway) (request : FacilitatorRequest) (id : Text) (now : ℕ)
      (receipt : SettlementResponse) (ttl later : ℕ)
      → payment_id codec request.payment_payload ≡ some id
      → (claim_of state request id now).1 ≡ fresh
      → settle (memory_store crypto) limiter codec node state request now ≡ (s, ok receipt)
      → receipt.success ≡ false
      → (claim_payment_at s.sessions id ttl later).1 ≡ fresh
  settle-released state s request id now receipt ttl later i f h failed =
      let same = sym h ∙ settle-fresh state request id now receipt i f (ap (λ r. r.1) h) in
      absent-fresh s.sessions id ttl later (
        subst (λ x. lookup id x.sessions.seen_payments ≡ none) (sym (ap (λ r. r.0) same))
          (claimed-released (claimed state request id now) request id i (ground (arith, same))))

  -- A payment that was spent through `/settle` cannot be spent again through the gateway: with the
  -- in-memory store, if `/settle` reports a success for it at `t` and since then the replay cache saw
  -- claims and releases of other payments at any time, and sweeps and claims of it less than `ttl`
  -- seconds after `t` only, then a request that presents it to the gateway within that time, without
  -- an accepted session, is denied with a receipt and nothing is broadcast for it. The claims of it
  -- and the policy's own last for `ttl` or longer, and the store keeps its records that long.
  pub settle-decide :
      (wire : Wire) (state s later : Gateway) (spent : FacilitatorRequest) (id : Text) (t : ℕ)
      (receipt : SettlementResponse) (ttl : ℕ) (es : List Event) (request : Request)
      (policy : SettlePolicy) (now : ℕ) (raw : Text) (payload : PaymentPayload)
      → payment_id codec spent.payment_payload ≡ some id
      → settle (memory_store crypto) limiter codec node state spent t ≡ (s, ok receipt)
      → receipt.success ≡ true
      → ttl ≤ state.sessions.replay_retention_secs
      → All (IsWithin id t ttl) es
      → later.sessions.seen_payments ≡ (apply_all s.sessions es).seen_payments
      → now - t < ttl
      → ttl
        ≤ replay_ttl
            (policy_for later.config request.path request.policy).payment.max_timeout_seconds
      → presented_payment wire request ≡ some (ok payload)
      → payment_id codec payload ≡ some id
      → (try_session
          (memory_store crypto)
          limiter
          codec
          wire
          node
          later
          (presented_token wire request)
          request.policy
          now).1
        ≡ none
      → IsRefused later.broadcasts
          (decide (memory_store crypto) limiter codec wire node later request policy now raw)
  settle-decide wire state s later spent id t receipt ttl es request policy now raw payload i h done
        kept within sessions lt lasts presented same unserved =
      let f = settle-success-fresh state spent id t receipt i (ap (λ r. r.1) h) done in
      let e = sym h ∙ settle-fresh state spent id t receipt i f (ap (λ r. r.1) h) in
      decide-once crypto limiter codec wire node state.sessions id
        (replay_ttl spent.payment_requirements.max_timeout_seconds) t ttl es later request policy
        now raw payload kept f within lt
        (sessions
          ∙ ap (λ c. (apply_all c es).seen_payments)
              (ap (λ r. r.0.sessions) e
                ∙ claimed-kept (claimed state spent id t) spent (ground (arith, e))))
        lasts presented same unserved
