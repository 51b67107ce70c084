-- ===== src/Auth/Once.antt =====
-- Payments that are presented again: src/auth.rs with the replay cache of src/session.rs.
use sui_x402_verifier.Base.{
  ℕ, ◌-◌, ◌≤◌, ◌<◌, ◌≡◌, ◌≢◌, refl, subst, ◌∙◌, inl, inr, Option, none, some, List, Text, ok,
  Option-cases, Result-cases, arith, All, lookup,
}
use sui_x402_verifier.Config.{ResolvedPolicy, policy_for}
use sui_x402_verifier.Session.{Crypto, PaymentClaim, fresh, replay}
use sui_x402_verifier.Session
use sui_x402_verifier.Session.Token.{verify}
use sui_x402_verifier.Session.Memory.{
  MemorySessionStore, claim_payment_at, consume_at, spend_session,
}
use sui_x402_verifier.Session.Memory.Replay.{Event, apply_all, IsWithin, claim_payment_at-replay}
use sui_x402_verifier.Sui.{Node}
use sui_x402_verifier.Facilitator.{Codec, payment_id}
use sui_x402_verifier.X402.{PaymentPayload, from_config}
use sui_x402_verifier.Auth.{
  SettlePolicy, Decision, allow, deny, Limiter, AppState, Wire, replay_ttl,
}
use sui_x402_verifier.Auth.Backends.{memory_store}
use sui_x402_verifier.Auth.Decide.{
  try_session, claim_payment, reject, charge, decide_unsessioned, decide,
}
use sui_x402_verifier.Auth.Outcomes.{
  Request, refuse_payment, refusal_of_claim, presented_payment, presented_token,
}
use sui_x402_verifier.Auth.Policy.{try_session-Keeps}
use sui_x402_verifier.Auth.Paid.{tried}

claim-seen :
    (s r : MemorySessionStore) (id : Text) (ttl now : ℕ)
    → s.seen_payments ≡ r.seen_payments
    → (claim_payment_at s id ttl now).1 ≡ (claim_payment_at r id ttl now).1
unfolding claim_payment_at
claim-seen s r id ttl now h = ground arith

spend-seen :
    (s : MemorySessionStore) (id : Text) (session : Session.Session) (policy : Option Text)
    (now : ℕ)
    → (spend_session s id session policy now).0.seen_payments ≡ s.seen_payments
unfolding spend_session
spend-seen s id session policy now = ground arith

consume-seen :
    (crypto : Crypto) (s : MemorySessionStore) (token : Text) (policy : Option Text) (now : ℕ)
    → (consume_at crypto s token policy now).0.seen_payments ≡ s.seen_payments
unfolding consume_at
consume-seen crypto s token policy now = elim (Result-cases (verify crypto s.hmac_key token now)) [
  | inr (e, q) ↦ ground arith
  | inl (claims, q) ↦ elim (Option-cases (lookup claims.session_id s.sessions)) [
    | inl n ↦ ground arith
    | inr (session, f) ↦ ground (arith, spend-seen s claims.session_id session policy now)
  ]
]

-- The request is denied with a receipt, and nothing is broadcast.
abbrev pub IsRefused :
    {L : Type 0} → List Text → Option (AppState MemorySessionStore L × Decision) → Type 0
IsRefused sent none = ⊥
IsRefused sent (some (s, allow a)) = ⊥
IsRefused sent (some (s, deny d)) = (d.receipt ≢ none) × (s.broadcasts ≡ sent)

module _ (crypto : Crypto) (limiter : Limiter) (codec : Codec) (wire : Wire) (node : Node) where
  abbrev Here : Type 0
  Here = AppState MemorySessionStore limiter.State

  try-seen :
      (state : Here) (token policy : Option Text) (now : ℕ)
      → (try_session
          (memory_store crypto)
          limiter
          codec
          wire
          node
          state
          token
          policy
          now).0.sessions.seen_payments
        ≡ state.sessions.seen_payments
  unfolding try_session
  try-seen state none policy now = refl
  try-seen state (some token) policy now = consume-seen crypto state.sessions token policy now

  -- A replayed payment is refused, whichever way it is to be settled.
  charge-replayed :
      (state : Here) (resolved : ResolvedPolicy) (request : Request) (settle : SettlePolicy)
      (payload : PaymentPayload) (id : Text) (t now : ℕ) (raw : Text)
      → payment_id codec payload ≡ some id
      → (claim_payment_at state.sessions id (replay_ttl resolved.payment.max_timeout_seconds) now).1
        ≡ replay t
      → IsRefused state.broadcasts (
          some (
            charge
              (memory_store crypto)
              limiter
              codec
              wire
              node
              state
              resolved
              request
              settle
              (ok payload)
              now
              raw))
  unfolding charge claim_payment refusal_of_claim reject refuse_payment from_config
  charge-replayed state resolved request settle payload id t now raw i h = ground arith

  -- Without an accepted session, a payment that can be decoded is charged.
  decide-charge :
      (state : Here) (request : Request) (settle : SettlePolicy) (now : ℕ) (raw : Text)
      (payload : PaymentPayload)
      → (try_session
          (memory_store crypto)
          limiter
          codec
          wire
          node
          state
          (presented_token wire request)
          request.policy
          now).1
        ≡ none
      → presented_payment wire request ≡ some (ok payload)
      → decide (memory_store crypto) limiter codec wire node state request settle now raw
        ≡ some (
            charge
              (memory_store crypto)
              limiter
              codec
              wire
              node
              (tried (memory_store crypto) limiter codec wire node state request now)
              (policy_for
                (tried (memory_store crypto) limiter codec wire node state request now).config
                request.path
                request.policy)
              request
              settle
              (ok payload)
              now
              raw)
  unfolding decide decide_unsessioned
  decide-charge state request settle now raw payload unserved presented =
      ground (arith, unserved, presented)

  -- A payment buys once. Suppose that the replay cache claimed the payment at `t` as fresh, and that
  -- since then the cache saw claims and releases of other payments at any time, and sweeps and claims
  -- of it less than `ttl` seconds after `t` only, where no claim of it is for less than `ttl`, the store
  -- keeps records for `ttl` and the policy's own claims last for `ttl`. Then a request within that
  -- time that presents the payment again and has no session that is accepted is denied with a
  -- receipt, under either settlement policy, and nothing is broadcast for it.
  pub decide-once :
      (first : MemorySessionStore) (id : Text) (l t ttl : ℕ) (es : List Event) (state : Here)
      (request : Request) (settle : SettlePolicy) (now : ℕ) (raw : Text) (payload : PaymentPayload)
      → ttl ≤ first.replay_retention_secs
      → (claim_payment_at first id l t).1 ≡ fresh
      → All (IsWithin id t ttl) es
      → now - t < ttl
      → state.sessions.seen_payments
        ≡ (apply_all (claim_payment_at first id l t).0 es).seen_payments
      → ttl
        ≤ replay_ttl
            (policy_for state.config request.path request.policy).payment.max_timeout_seconds
      → presented_payment wire request ≡ some (ok payload)
      → payment_id codec payload ≡ some id
      → (try_session
          (memory_store crypto)
          limiter
          codec
          wire
          node
          state
          (presented_token wire request)
          request.policy
          now).1
        ≡ none
      → IsRefused state.broadcasts
          (decide (memory_store crypto) limiter codec wire node state request settle now raw)
  decide-once first id l t ttl es state request settle now raw payload kept h within lt sessions
        lasts presented i unserved =
      let s =
        (try_session (memory_store crypto) limiter codec wire node state
          (presented_token wire request) request.policy now).0 in
      let (_, broadcasts, _, config) =
        try_session-Keeps (memory_store crypto) limiter codec wire node state
          (presented_token wire request) request.policy now in
      let max = (policy_for s.config request.path request.policy).payment.max_timeout_seconds in
      let seen = try-seen state (presented_token wire request) request.policy now in
      let replayed : (claim_payment_at s.sessions id (replay_ttl max) now).1 ≡ replay t =
        claim-seen s.sessions (apply_all (claim_payment_at first id l t).0 es) id (replay_ttl max)
          now (seen ∙ sessions)
        ∙ claim_payment_at-replay first id t ttl l now es kept h within lt (replay_ttl max)
            (rw (config) lasts) in
      rw (decide-charge state request settle now raw payload unserved presented) (
        subst
          (λ b. IsRefused b (
            some (
              charge (memory_store crypto) limiter codec wire node s
                (policy_for s.config request.path request.policy) request settle (ok payload) now
                raw)))
          broadcasts
          (charge-replayed s (policy_for s.config request.path request.policy) request settle
            payload id t now raw i replayed))
