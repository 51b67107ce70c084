-- ===== src/ExtProc/Response.antt =====
-- The response phase: `handle_response_headers` of src/ext_proc.rs. `settle_ms` is how long the
-- settlement took, as printed.
use sui_x402_verifier.Base.{
  ℕ, true, false, Option, none, some, List, [], ◌∷◌, ◌++◌, if◌then◌else◌, Text, codes, starts_with,
  ok, err,
}
use sui_x402_verifier.Config.{PaidTierConfig, policy_for}
use sui_x402_verifier.Breaker.{record_at}
use sui_x402_verifier.Sui.{Node}
use sui_x402_verifier.Facilitator.{Codec, failure_receipt}
use sui_x402_verifier.Facilitator
use sui_x402_verifier.X402.{
  SettlementResponse, FacilitatorError, code, header_payment_session, header_payment_response,
}
use sui_x402_verifier.Auth.{PendingPayment, session_meter, Store, Limiter, AppState, Wire}
use sui_x402_verifier.Auth.Headers.{meter_headers}
use sui_x402_verifier.Auth.Outcomes.{buy_session, grant}
use sui_x402_verifier.ExtProc.{StreamState, RawHeader, SetHeader, Reply, response_continue}
use sui_x402_verifier.ExtProc.Headers.{header_map, value_or_empty, is_success, phase}
use sui_x402_verifier.ExtProc.Request.{breaker_label, header_if}

-- `Server-Timing` of the first phase, and of both.
abbrev decide_timing : Text → SetHeader
decide_timing decide_ms = (codes "server-timing", phase (codes "x402-decide") decide_ms)

abbrev both_timing : Text → Text → SetHeader
both_timing decide_ms settle_ms = (
  codes "server-timing",
  phase (codes "x402-decide") decide_ms ++ codes ", " ++ phase (codes "x402-settle") settle_ms,
)

-- The reply when nothing is settled.
unfoldable pub unsettled_reply : StreamState → Reply
unsettled_reply stream =
    response_continue (meter_headers stream.meter ++ decide_timing stream.decide_ms ∷ [])

-- `mutations.retain(..)`: what is not a free-tier meter stays.
unfoldable pub drop_free : List SetHeader → List SetHeader
drop_free [] = []
drop_free ((key, value) ∷ rest) =
    let kept = drop_free rest in
    if starts_with key (codes "x-x402-free-") then kept else (key, value) ∷ kept

-- The headers once a session was bought.
unfoldable pub session_mutations : List SetHeader → PaidTierConfig → Option Text → List SetHeader
unfolding drop_free
session_mutations mutations tier none = mutations
session_mutations mutations tier (some token) =
    drop_free (mutations ++ (header_payment_session, token) ∷ [])
    ++ meter_headers (session_meter tier.quota tier.quota tier.duration_secs)

-- `stream_state.pending.take()`
abbrev pub taken : StreamState → StreamState
taken stream = record stream { pending = none }

abbrev pub release_if : (store : Store) → store.State → Option Text → store.State
release_if store sessions none = sessions
release_if store sessions (some id) = store.release sessions id

module _ (store : Store) (limiter : Limiter) (codec : Codec) (wire : Wire) where
  abbrev pub State : Type 0
  State = AppState store.State limiter.State

  -- The settlement landed: the breaker hears of it, and a session is sold.
  unfoldable pub after_settlement :
      State → StreamState → SettlementResponse → ℕ → Text → Text → State × Reply
  unfolding breaker_label record_at session_mutations policy_for buy_session grant
  after_settlement state stream settlement now raw settle_ms =
      let tier = (policy_for state.config stream.path stream.policy).paid_tier in
      let (sessions, token) =
        buy_session store state.sessions settlement.payer stream.policy tier now raw in
      (
        record state {
          breaker = record_at state.breaker (breaker_label stream.policy) false now;
          sessions = sessions;
        },
        response_continue (
            session_mutations
              (meter_headers stream.meter ++ both_timing stream.decide_ms settle_ms ∷ []) tier token
            ++ header_if header_payment_response
                (wire.encode_receipt (grant settlement tier token))),
      )

  -- The settlement failed once the resource was served: the breaker hears of it.
  unfoldable pub after_failed_settlement :
      State → StreamState → FacilitatorError → ℕ → Text → State × Reply
  unfolding breaker_label record_at failure_receipt
  after_failed_settlement state stream e now settle_ms = (
    record state { breaker = record_at state.breaker (breaker_label stream.policy) true now },
    response_continue (
        meter_headers stream.meter
        ++ both_timing stream.decide_ms settle_ms
          ∷ header_if header_payment_response
              (wire.encode_receipt (failure_receipt state.facilitator (code e)))),
  )

  -- The upstream delivered, so the pending payment is settled.
  unfoldable pub settle_pending :
      Node → State → StreamState → PendingPayment → ℕ → Text → Text → State × Reply
  unfolding after_settlement after_failed_settlement
  settle_pending node state stream pending now raw settle_ms =
      let sent =
        Facilitator.settle codec state.facilitator node pending.payload pending.requirements in
      let state' : State = record state { broadcasts = state.broadcasts ++ sent.sent } in
      elim sent.result [
        | ok settlement ↦ after_settlement state' stream settlement now raw settle_ms
        | err e ↦ after_failed_settlement state' stream e now settle_ms
      ]

  -- The upstream failed: the authorization is freed, and nobody is charged.
  unfoldable pub discard_pending : State → StreamState → PendingPayment → State × Reply
  unfolding unsettled_reply
  discard_pending state stream pending = (
    record state { sessions = release_if store state.sessions pending.payment_id },
    unsettled_reply stream,
  )

  -- `handle_response_headers`
  unfoldable pub handle_response_headers :
      Node → State → StreamState → List RawHeader → ℕ → Text → Text → State × StreamState × Reply
  unfolding unsettled_reply header_map is_success settle_pending discard_pending
  handle_response_headers node state stream headers now raw settle_ms = elim stream.pending [
    | none ↦ (state, taken stream, unsettled_reply stream)
    | some pending ↦
        let (state', reply) =
          if is_success (value_or_empty (header_map [] headers) (codes ":status"))
          then settle_pending node state (taken stream) pending now raw settle_ms
          else discard_pending state (taken stream) pending in
        (state', taken stream, reply)
  ]
