-- ===== src/ExtProc/Charging.antt =====
-- When a client is charged: src/ext_proc.rs.
use sui_x402_verifier.Base.{
  ℕ, ◌≡◌, refl, inl, inr, Bool, true, false, none, some, List, [], ◌∷◌, ◌++◌, Text, codes,
  Option-cases, Result-cases, Bool-cases, arith, All,
}
use sui_x402_verifier.Breaker.{state_at}
use sui_x402_verifier.Sui.{Node}
use sui_x402_verifier.Facilitator.{Codec}
use sui_x402_verifier.Facilitator
use sui_x402_verifier.Auth.{PendingPayment, Store, Limiter, AppState, Wire, deferred}
use sui_x402_verifier.Auth.Decide.{decide}
use sui_x402_verifier.Auth.Policy.{decide-deferred}
use sui_x402_verifier.ExtProc.{StreamState, RawHeader, Reply, Incoming}
use sui_x402_verifier.ExtProc.Headers.{header_map, value_or_empty, is_success}
use sui_x402_verifier.ExtProc.Request.{
  handle_request_headers, breaker_label, is_refused, request_of,
}
use sui_x402_verifier.ExtProc.Response.{
  handle_response_headers, settle_pending, discard_pending, after_settlement,
  after_failed_settlement, release_if, taken,
}
use sui_x402_verifier.ExtProc.Stream.{
  Phase, request_headers, response_headers, other, Message, handle, process,
}

-- The status that a response's headers carry.
abbrev pub served : List RawHeader → Bool
served headers = is_success (value_or_empty (header_map [] headers) (codes ":status"))

module _ (store : Store) (limiter : Limiter) (codec : Codec) (wire : Wire)
    (unavailable : Text) where
  abbrev Here : Type 0
  Here = AppState store.State limiter.State

  pub request-unbroadcast :
      (node : Node) (state s : Here) (stream t : StreamState) (incoming : Incoming) (now : ℕ)
      (raw ms : Text) (r : Reply)
      → handle_request_headers store limiter codec wire unavailable node state stream incoming now
          raw ms
        ≡ some (s, t, r)
      → s.broadcasts ≡ state.broadcasts
  unfolding handle_request_headers
  request-unbroadcast node state s stream t incoming now raw ms r h =
      let map = header_map [] incoming.headers in
      let (breaker, answer) = state_at state.breaker (breaker_label incoming.policy) now in
      let asked : Here = record state { breaker = breaker } in
      let decided =
        decide store limiter codec wire node asked (request_of incoming map) deferred now raw in
      elim (Bool-cases (is_refused store limiter codec wire unavailable answer map)) [
        | inl q ↦ ground arith
        | inr q ↦ elim (Option-cases decided) [
          | inl e ↦ ground arith
          | inr ((s', d), e) ↦ ground (
            arith,
            decide-deferred store limiter codec wire node asked s' (request_of incoming map) now raw
                d e,
          )
        ]
      ]

  -- If the upstream did not succeed: nothing is broadcast, the breaker and the
  -- limiter are left as they were, the payment's claim is released so that the client may present it
  -- again, and the stream forgets the payment.
  pub handle_response_headers-unserved :
      (node : Node) (state : Here) (stream : StreamState) (pending : PendingPayment)
      (headers : List RawHeader) (now : ℕ) (raw ms : Text)
      → stream.pending ≡ some pending
      → served headers ≡ false
      → let (s, t, r) =
          handle_response_headers store limiter codec wire node state stream headers now raw ms in
        (s.broadcasts ≡ state.broadcasts)
        × (s.breaker ≡ state.breaker)
        × (s.limiter ≡ state.limiter)
        × (s.sessions ≡ release_if store state.sessions pending.payment_id)
        × (t.pending ≡ none)
  unfolding handle_response_headers discard_pending
  handle_response_headers-unserved node state stream pending headers now raw ms p q = ground arith

  pub settle-broadcasts :
      (node : Node) (state : Here) (stream : StreamState) (pending : PendingPayment) (now : ℕ)
      (raw ms : Text)
      → (settle_pending store limiter codec wire node state stream pending now raw ms).0.broadcasts
        ≡ state.broadcasts
          ++ (Facilitator.settle codec state.facilitator node pending.payload
              pending.requirements).sent
  unfolding settle_pending after_settlement after_failed_settlement
  settle-broadcasts node state stream pending now raw ms =
      elim (Result-cases
        (Facilitator.settle codec state.facilitator node pending.payload
          pending.requirements).result) [ inl (v, q) ↦ ground arith | inr (f, q) ↦ ground arith ]

  -- If the upstream succeeded: exactly the pending payment is settled: what is broadcast is what the
  -- facilitator's settlement of that payload on those terms sends, and the stream forgets the payment.
  pub handle_response_headers-served :
      (node : Node) (state : Here) (stream : StreamState) (pending : PendingPayment)
      (headers : List RawHeader) (now : ℕ) (raw ms : Text)
      → stream.pending ≡ some pending
      → served headers ≡ true
      → let (s, t, r) =
          handle_response_headers store limiter codec wire node state stream headers now raw ms in
        (s.broadcasts
          ≡ state.broadcasts
            ++ (Facilitator.settle codec state.facilitator node pending.payload
                pending.requirements).sent)
        × (t.pending ≡ none)
  unfolding handle_response_headers
  handle_response_headers-served node state stream pending headers now raw ms p q =
      ground (arith, settle-broadcasts node state (taken stream) pending now raw ms)

  -- The message is no response that reports a success.
  abbrev pub IsUnserved : Message → Type 0
  IsUnserved message = elim message.phase [
    | request_headers incoming ↦ Unit {0}
    | response_headers headers ↦ served headers ≡ false
    | other ↦ Unit {0}
  ]

  pub response-unbroadcast :
      (node : Node) (state : Here) (stream : StreamState) (headers : List RawHeader) (now : ℕ)
      (raw ms : Text)
      → served headers ≡ false
      → (handle_response_headers store limiter codec wire node state stream headers now raw
          ms).0.broadcasts
        ≡ state.broadcasts
  unfolding handle_response_headers discard_pending
  response-unbroadcast node state stream headers now raw ms q = elim (Option-cases stream.pending) [
    | inl p ↦ ground arith
    | inr (x, p) ↦ ground arith
  ]

  handle-unbroadcast :
      (state s : Here) (stream t : StreamState) (message : Message) (r : Reply)
      → IsUnserved message
      → handle store limiter codec wire unavailable state stream message ≡ some (s, t, r)
      → s.broadcasts ≡ state.broadcasts
  unfolding handle
  handle-unbroadcast state s stream t message r u h = go message.phase refl
    where
      go : (p : Phase) → message.phase ≡ p → s.broadcasts ≡ state.broadcasts
      go (request_headers incoming) e =
          request-unbroadcast message.node state s stream t incoming message.now message.raw
            message.elapsed_ms r (ground (arith, e))
      go (response_headers headers) e =
          let unserved : served headers ≡ false = rw (e) at u in
          ground (
            arith,
            e,
            response-unbroadcast message.node state stream headers message.now message.raw
                message.elapsed_ms unserved,
          )
      go other e = ground (arith, e)

  -- Nobody is charged for what was not served: a stream in which no response reports a success, in
  -- whatever order its messages come, broadcasts nothing.
  pub process-unserved :
      (state : Here) (stream : StreamState) (messages : List Message)
      → All IsUnserved messages
      → (process store limiter codec wire unavailable state stream messages).0.broadcasts
        ≡ state.broadcasts
  unfolding process
  process-unserved state stream [] u = refl
  process-unserved state stream (m ∷ ms) u =
      elim (Option-cases (handle store limiter codec wire unavailable state stream m)) [
        | inl e ↦ ground arith
        | inr ((s, t, r), e) ↦
            ground
              (arith, handle-unbroadcast state s stream t m r u.0 e, process-unserved s t ms u.1)
      ]
