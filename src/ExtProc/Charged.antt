-- ===== src/ExtProc/Charged.antt =====
-- What a response does to a pending payment: src/ext_proc.rs.
use sui_x402_verifier.Base.{
  ℕ, ◌≡◌, ◌≢◌, ok, inl, inr, true, false, some, List, Text, codes, Option-cases, Result-cases,
  Bool-cases, arith,
}
use mathlib.Core.List.{append-nil}
use sui_x402_verifier.Session.{Crypto, fresh}
use sui_x402_verifier.Session.Memory.{MemorySessionStore, claim_payment_at, release_payment}
use sui_x402_verifier.Session.Memory.Replay.{absent-fresh, release-lookup}
use sui_x402_verifier.Auth.Backends.{memory_store}
use sui_x402_verifier.Facilitator.Settlement.{settle-refused}
use sui_x402_verifier.Sui.{Node}
use sui_x402_verifier.Facilitator.{Codec}
use sui_x402_verifier.Facilitator
use sui_x402_verifier.Auth.{PendingPayment, Store, Limiter, AppState, Wire}
use sui_x402_verifier.ExtProc.{StreamState, RawHeader}
use sui_x402_verifier.ExtProc.Response.{handle_response_headers, discard_pending, taken}
use sui_x402_verifier.ExtProc.Charging.{served, settle-broadcasts}

-- Whoever is charged was served, and had a payment that verified: if a response changes what was
-- broadcast, then it reports a success, the stream had a payment pending, and the facilitator verifies
-- that payment against its own terms at that time.
pub handle_response_headers-charged :
    (store : Store) (limiter : Limiter) (codec : Codec) (wire : Wire) (node : Node)
    (state : AppState store.State limiter.State) (stream : StreamState) (headers : List RawHeader)
    (now : ℕ) (raw ms : Text)
    → (handle_response_headers store limiter codec wire node state stream headers now raw
        ms).0.broadcasts
      ≢ state.broadcasts
    → (served headers ≡ true)
      × ((pending : PendingPayment) × (stream.pending ≡ some pending)
          × ((payer : Text) × (Facilitator.verify codec state.facilitator node pending.payload
                  pending.requirements
                ≡ ok payer)))
unfolding handle_response_headers discard_pending
handle_response_headers-charged store limiter codec wire node state stream headers now raw ms h =
    elim (Option-cases stream.pending) [
      | inl p ↦ absurd (h (ground arith))
      | inr (pending, p) ↦ elim (Bool-cases (served headers)) [
        | inr q ↦ absurd (h (ground arith))
        | inl q ↦
            elim (Result-cases (
              Facilitator.verify codec state.facilitator node pending.payload
                pending.requirements)) [
                  | inl (v, e) ↦ (q, (pending, p, (v, e)))
                  | inr (e, r) ↦ absurd (
                      h (
                        ground (
                          arith,
                          settle-broadcasts store limiter codec wire (codes "") node state
                              (taken stream) pending now raw ms,
                          settle-refused codec state.facilitator node pending.payload
                              pending.requirements e r,
                          append-nil state.broadcasts,
                        )))
                ]
      ]
    ]

-- A payment that bought nothing can be presented again: with the in-memory store, once a response
-- without success was seen by a stream whose pending payment has this identity, the next claim of
-- it is fresh, on whatever terms and at whatever time, and nothing was broadcast.
pub handle_response_headers-released :
    (crypto : Crypto) (limiter : Limiter) (codec : Codec) (wire : Wire) (node : Node)
    (state : AppState MemorySessionStore limiter.State) (stream : StreamState)
    (pending : PendingPayment) (id : Text) (headers : List RawHeader) (now : ℕ) (raw ms : Text)
    (ttl later : ℕ)
    → stream.pending ≡ some pending
    → pending.payment_id ≡ some id
    → served headers ≡ false
    → let (s, t, r) =
        handle_response_headers
          (memory_store crypto)
          limiter
          codec
          wire
          node
          state
          stream
          headers
          now
          raw
          ms in
      ((claim_payment_at s.sessions id ttl later).1 ≡ fresh) × (s.broadcasts ≡ state.broadcasts)
unfolding handle_response_headers discard_pending
handle_response_headers-released crypto limiter codec wire node state stream pending id headers now
      raw ms ttl later p i q =
    let gone =
      absent-fresh (release_payment state.sessions id) id ttl later
        (release-lookup state.sessions id) in
    ground (arith, gone)
