-- ===== src/ExtProc/Request.antt =====
-- The request phase: `handle_request_headers` of src/ext_proc.rs. The breaker and the stores read
-- the same clock reading; `none` is a panic of the limiter.
use sui_x402_verifier.Base.{
  ℕ, Bool, true, false, not, ◌&&◌, Option, none, some, List, [], ◌∷◌, ◌++◌, if◌then◌else◌, Text,
  codes, Map,
}
use sui_x402_verifier.Config.{default_policy_label}
use sui_x402_verifier.Breaker.{BreakerState, state_at, accepts_payment}
use sui_x402_verifier.Sui.{Node}
use sui_x402_verifier.Facilitator.{Codec}
use sui_x402_verifier.X402.{
  SettlementResponse, header_payment_signature, header_payment_session, header_payment_required,
  header_payment_response,
}
use sui_x402_verifier.Auth.{
  deferred, tier_str, Allowed, Denied, Decision, allow, deny, Store, Limiter, AppState, Wire,
}
use sui_x402_verifier.Auth.Headers.{get_header, meter_headers}
use sui_x402_verifier.Auth.Outcomes
use sui_x402_verifier.Auth.Decide.{decide}
use sui_x402_verifier.ExtProc.{
  StreamState, SetHeader, Reply, request_continue, immediate_response, Incoming,
}
use sui_x402_verifier.ExtProc.Headers.{
  header_map, value_or_empty, resource_url, grpc_timeout_for, phase, settlement_unavailable,
}

-- `policy.unwrap_or_else(|| DEFAULT_POLICY_LABEL)`
unfoldable pub breaker_label : Option Text → Text
breaker_label none = default_policy_label
breaker_label (some policy) = policy

-- A header that is set if its value is there.
abbrev pub header_if : Text → Option Text → List SetHeader
header_if name none = []
header_if name (some value) = (name, value) ∷ []

abbrev pub encoded_receipt : Wire → Option SettlementResponse → Option Text
encoded_receipt wire none = none
encoded_receipt wire (some receipt) = wire.encode_receipt receipt

abbrev or_empty : Option Text → Text
or_empty none = []
or_empty (some t) = t

-- What an allowed request leaves to the response phase.
unfoldable pub remember : Allowed → Incoming → Text → Text → StreamState
remember allowed incoming path decide_ms = record {
  pending = allowed.pending;
  policy = incoming.policy;
  path = path;
  meter = allowed.meter;
  decide_ms = decide_ms;
}

-- The reply to an allowed request.
unfoldable pub continue_request : Allowed → Map Text → Reply
continue_request allowed map =
    request_continue
      ((codes "x-x402-tier", tier_str allowed.tier) ∷ header_if (codes "x-x402-payer") allowed.payer
        ++ header_if (codes "grpc-timeout") (grpc_timeout_for allowed.meter map))
      (header_payment_signature ∷ header_payment_session ∷ [])

-- The reply to a denied request.
unfoldable pub payment_required : Wire → Denied → Text → Reply
payment_required wire denied decide_ms =
    immediate_response 402
      (header_if header_payment_required (wire.encode_challenge denied.challenge)
        ++ header_if header_payment_response (encoded_receipt wire denied.receipt)
        ++ meter_headers denied.meter
        ++ (codes "server-timing", phase (codes "x402-decide") decide_ms)
          ∷ (codes "content-type", codes "application/json")
          ∷ [])
      (or_empty (wire.challenge_body denied.challenge))

abbrev is_some : Option Text → Bool
is_some none = false
is_some (some t) = true

-- The request as `decide` takes it.
unfoldable pub request_of : Incoming → Map Text → Outcomes.Request
request_of incoming map =
    let path = value_or_empty map (codes ":path") in
    record {
      headers = map;
      client_ip = incoming.client_ip;
      path = path;
      policy = incoming.policy;
      resource_url = resource_url map path;
    }

module _ (store : Store) (limiter : Limiter) (codec : Codec) (wire : Wire)
    (unavailable : Text) where
  -- What follows a decision: the stream's new state and the reply.
  unfoldable pub reply_to_decision :
      StreamState → Incoming → Map Text → Text → Decision → StreamState × Reply
  unfolding remember continue_request payment_required
  reply_to_decision stream incoming map decide_ms (allow allowed) = (
    remember allowed incoming (value_or_empty map (codes ":path")) decide_ms,
    continue_request allowed map,
  )
  reply_to_decision stream incoming map decide_ms (deny denied) =
      (stream, payment_required wire denied decide_ms)

  -- A payment that arrives while the breaker does not accept any.
  unfoldable pub is_refused : BreakerState → Map Text → Bool
  is_refused s map = not (accepts_payment s) && is_some (get_header map header_payment_signature)

  -- `handle_request_headers`
  unfoldable pub handle_request_headers :
      Node
      → AppState store.State limiter.State
      → StreamState
      → Incoming
      → ℕ
      → Text
      → Text
      → Option (AppState store.State limiter.State × StreamState × Reply)
  unfolding header_map request_of breaker_label state_at is_refused settlement_unavailable decide
      reply_to_decision
  handle_request_headers node state stream incoming now raw decide_ms =
      let map = header_map [] incoming.headers in
      let (breaker, answer) = state_at state.breaker (breaker_label incoming.policy) now in
      let asked : AppState store.State limiter.State = record state { breaker = breaker } in
      let decided =
        decide store limiter codec wire node asked (request_of incoming map) deferred now raw in
      if is_refused answer map
      then some
          (asked, stream, settlement_unavailable unavailable (value_or_empty map (codes ":path")))
      else elim decided [
        | none ↦ none
        | some (state', decision) ↦
            let (stream', reply) = reply_to_decision stream incoming map decide_ms decision in
            some (state', stream', reply)
      ]
