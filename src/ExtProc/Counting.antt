-- ===== src/ExtProc/Counting.antt =====
-- How often a stream settles: src/ext_proc.rs.
use sui_x402_verifier.Base.{
  ℕ, ◌+◌, ◌≤◌, ◌≡◌, refl, inl, inr, none, some, List, [], ◌∷◌, length, length-append, Text,
  Option-cases, Result-cases, Bool-cases, arith,
}
use sui_x402_verifier.Sui.{Node}
use sui_x402_verifier.Sui
use sui_x402_verifier.X402.{PaymentPayload, PaymentRequirements, SuiExactPayload}
use sui_x402_verifier.Facilitator.{
  Codec, Facilitator, check_terms, settle_sui, settle_verified, settle,
}
use sui_x402_verifier.Auth.{Store, Limiter, AppState, Wire}
use sui_x402_verifier.ExtProc.{StreamState, default_stream, RawHeader, Reply}
use sui_x402_verifier.ExtProc.Response.{handle_response_headers, taken}
use sui_x402_verifier.ExtProc.Stream.{
  Phase, request_headers, response_headers, other, Message, handle, process,
}
use sui_x402_verifier.ExtProc.Charging.{
  served, request-unbroadcast, settle-broadcasts, handle_response_headers-unserved,
}

settle-length : (node : Node) (sui : SuiExactPayload) → length (Sui.settle node sui).sent ≤ 1
unfolding Sui.settle
settle-length node sui = elim (Result-cases (Sui.settle_request node sui)) [
  | inl (b, q) ↦ ground arith
  | inr (e, q) ↦ ground arith
]

settle_sui-length :
    (codec : Codec) (facilitator : Facilitator) (node : Node) (sui : SuiExactPayload)
    (r : PaymentRequirements)
    → length (settle_sui codec facilitator node sui r).sent ≤ 1
unfolding settle_sui settle_verified
settle_sui-length codec facilitator node sui r = elim (Result-cases (Sui.verify node sui r)) [
  | inl (v, q) ↦ ground (arith, settle-length node sui)
  | inr (e, q) ↦ ground arith
]

sent-length :
    (codec : Codec) (facilitator : Facilitator) (node : Node) (payload : PaymentPayload)
    (r : PaymentRequirements)
    → length (settle codec facilitator node payload r).sent ≤ 1
unfolding settle
sent-length codec facilitator node payload r =
    elim (Result-cases (check_terms codec facilitator payload r)) [
      | inr (e, q) ↦ ground arith
      | inl (sui, q) ↦ ground (arith, settle_sui-length codec facilitator node sui r)
    ]

-- How many messages of a stream are requests.
abbrev pub requests : List Message → ℕ
requests [] = 0
requests (m ∷ ms) =
    elim m.phase [ request_headers i ↦ 1 | response_headers h ↦ 0 | other ↦ 0 ] + requests ms

-- One for a payment that pends.
abbrev pendings : StreamState → ℕ
pendings stream = elim stream.pending [ none ↦ 0 | some p ↦ 1 ]

module _ (store : Store) (limiter : Limiter) (codec : Codec) (wire : Wire)
    (unavailable : Text) where
  abbrev Here : Type 0
  Here = AppState store.State limiter.State

  -- What was broadcast, and what may yet be.
  abbrev weight : Here → StreamState → ℕ
  weight state stream = length state.broadcasts + pendings stream

  response-weight :
      (node : Node) (state : Here) (stream : StreamState) (headers : List RawHeader) (now : ℕ)
      (raw ms : Text)
      → let (s, t, r) =
          handle_response_headers store limiter codec wire node state stream headers now raw ms in
        weight s t ≤ weight state stream
  unfolding handle_response_headers
  response-weight node state stream headers now raw ms = elim (Option-cases stream.pending) [
    | inl q ↦ ground arith
    | inr (p, q) ↦ elim (Bool-cases (served headers)) [
      | inl v ↦ ground (
        arith,
        settle-broadcasts store limiter codec wire unavailable node state (taken stream) p now raw
            ms,
        sent-length codec state.facilitator node p.payload p.requirements,
        length-append state.broadcasts
            (settle codec state.facilitator node p.payload p.requirements).sent,
      )
      | inr v ↦ ground (
        arith,
        handle_response_headers-unserved store limiter codec wire unavailable node state stream p
            headers now raw ms,
      )
    ]
  ]

  pendings-le : (stream : StreamState) → pendings stream ≤ 1
  pendings-le stream = elim (Option-cases stream.pending) [
    | inl q ↦ ground arith
    | inr (p, q) ↦ ground arith
  ]

  handle-weight :
      (state s : Here) (stream t : StreamState) (m : Message) (r : Reply)
      → handle store limiter codec wire unavailable state stream m ≡ some (s, t, r)
      → weight s t ≤ weight state stream + requests (m ∷ [])
  unfolding handle
  handle-weight state s stream t m r h = go m.phase refl
    where
      go : (p : Phase) → m.phase ≡ p → weight s t ≤ weight state stream + requests (m ∷ [])
      go (request_headers incoming) e = ground (
        arith,
        e,
        pendings-le t,
        request-unbroadcast store limiter codec wire unavailable m.node state s stream t incoming
            m.now m.raw m.elapsed_ms r (ground (arith, e)),
      )
      go (response_headers headers) e =
          ground (arith, e, response-weight m.node state stream headers m.now m.raw m.elapsed_ms)
      go other e = ground (arith, e)

  process-weight :
      (state : Here) (stream : StreamState) (ms : List Message)
      → length (process store limiter codec wire unavailable state stream ms).0.broadcasts
        ≤ weight state stream + requests ms
  unfolding process
  process-weight state stream [] = omega arith
  process-weight state stream (m ∷ ms) =
      elim (Option-cases (handle store limiter codec wire unavailable state stream m)) [
        | inl e ↦ ground arith
        | inr ((s, t, r), e) ↦
            ground (arith, handle-weight state s stream t m r e, process-weight s t ms)
      ]

  -- A stream charges at most once for a request: however its messages are ordered and whatever the
  -- upstream answers, a stream that starts afresh broadcasts no more transactions than it has
  -- requests.
  pub process-requests :
      (state : Here) (ms : List Message)
      → length (process store limiter codec wire unavailable state default_stream ms).0.broadcasts
        ≤ length state.broadcasts + requests ms
  process-requests state ms = omega (arith, process-weight state default_stream ms)
