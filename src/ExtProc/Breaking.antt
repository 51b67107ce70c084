-- ===== src/ExtProc/Breaking.antt =====
-- The circuit breaker in front of payments: src/ext_proc.rs with src/breaker.rs.
use sui_x402_verifier.Base.{
  ℕ, ◌≡◌, ◌≢◌, refl, inl, inr, Option, none, some, [], ◌∷◌, Text, codes, Result, ok, err,
  Option-cases, Bool-cases, arith,
}
use sui_x402_verifier.Config.{ResolvedPolicy, policy_for}
use sui_x402_verifier.Breaker.{SettlementBreaker, open_state, half_open, state_at}
use sui_x402_verifier.Breaker.Probe.{half_open-ask_all, ask_all}
use sui_x402_verifier.Sui.{Node}
use sui_x402_verifier.Facilitator.{Codec, payment_id}
use sui_x402_verifier.X402.{
  PaymentPayload, PaymentRequirements, from_config, header_payment_signature,
}
use sui_x402_verifier.Auth.{Store, Limiter, AppState, Wire, deferred, Decision}
use sui_x402_verifier.Auth.Headers.{get_header}
use sui_x402_verifier.Auth.Decide.{
  try_session, claim_payment, charge, serve_free, decide_unsessioned, decide,
}
use sui_x402_verifier.Auth.Outcomes.{Request, presented_payment, presented_token}
use sui_x402_verifier.ExtProc.{StreamState, Reply, Incoming}
use sui_x402_verifier.ExtProc.Headers.{header_map, value_or_empty, settlement_unavailable}
use sui_x402_verifier.ExtProc.Request.{
  handle_request_headers, breaker_label, is_refused, request_of,
}

-- The request carries a payment.
abbrev pub HasPaymentHeader : Incoming → Type 0
HasPaymentHeader incoming =
    get_header (header_map [] incoming.headers) header_payment_signature ≢ none

module _ (store : Store) (limiter : Limiter) (codec : Codec) (wire : Wire)
    (unavailable : Text) where
  abbrev Here : Type 0
  Here = AppState store.State limiter.State

  -- While the breaker of the request's policy refuses payments, a request that carries one is
  -- answered that settlement is unavailable, before anything else is done: the payment is not
  -- claimed, nothing is broadcast, the limiter and the stream are left as they were.
  pub handle_request_headers-refused :
      (node : Node) (state : Here) (stream : StreamState) (incoming : Incoming) (now : ℕ)
      (raw ms : Text)
      → (state_at state.breaker (breaker_label incoming.policy) now).1 ≡ open_state
      → HasPaymentHeader incoming
      → handle_request_headers store limiter codec wire unavailable node state stream incoming now
          raw ms
        ≡ some (
          record state { breaker = (state_at state.breaker (breaker_label incoming.policy) now).0 },
          stream,
          settlement_unavailable unavailable
              (value_or_empty (header_map [] incoming.headers) (codes ":path")),
        )
  unfolding handle_request_headers is_refused
  handle_request_headers-refused node state stream incoming now raw ms h p = ground arith

  try-breaker :
      (node : Node) (state : Here) (token policy : Option Text) (now : ℕ)
      → (try_session store limiter codec wire node state token policy now).0.breaker ≡ state.breaker
  unfolding try_session
  try-breaker node state none policy now = refl
  try-breaker node state (some token) policy now = refl

  claim-breaker :
      (node : Node) (state : Here) (payload : PaymentPayload) (r : PaymentRequirements) (now : ℕ)
      → (claim_payment store limiter codec wire node state payload r now).0.breaker ≡ state.breaker
  unfolding claim_payment
  claim-breaker node state payload r now = elim (Option-cases (payment_id codec payload)) [
    | inl q ↦ ground arith
    | inr (i, q) ↦ ground arith
  ]

  charge-breaker :
      (node : Node) (state : Here) (resolved : ResolvedPolicy) (request : Request)
      (decoded : Result Text PaymentPayload) (now : ℕ) (raw : Text)
      → (charge store limiter codec wire node state resolved request deferred decoded now
          raw).0.breaker
        ≡ state.breaker
  unfolding charge
  charge-breaker node state resolved request (err e) now raw = refl
  charge-breaker node state resolved request (ok payload) now raw =
      ground (arith, claim-breaker node state payload (from_config resolved.payment) now)

  free-breaker :
      (node : Node) (state s : Here) (resolved : ResolvedPolicy) (request : Request) (now : ℕ)
      (d : Decision)
      → serve_free store limiter codec wire node state resolved request now ≡ some (s, d)
      → s.breaker ≡ state.breaker
  unfolding serve_free
  free-breaker node state s resolved request now d h = elim (Option-cases request.client_ip) [
    | inl q ↦ ground arith
    | inr (ip, q) ↦
        elim (Option-cases (
          limiter.check state.limiter resolved.label ip resolved.free_tier.max_requests
            resolved.free_tier.window_secs now)) [
              | inl e ↦ ground arith
              | inr ((l, a), e) ↦ ground arith
            ]
  ]

  -- A decision does not touch the breaker.
  decide-breaker :
      (node : Node) (state s : Here) (request : Request) (now : ℕ) (raw : Text) (d : Decision)
      → decide store limiter codec wire node state request deferred now raw ≡ some (s, d)
      → s.breaker ≡ state.breaker
  unfolding decide decide_unsessioned
  decide-breaker node state s request now raw d h =
      let tried =
        try_session store limiter codec wire node state (presented_token wire request)
          request.policy now in
      let resolved = policy_for tried.0.config request.path request.policy in
      let same = try-breaker node state (presented_token wire request) request.policy now in
      elim (Option-cases tried.1) [
        | inr (a, q) ↦ ground (arith, same)
        | inl q ↦ elim (Option-cases (presented_payment wire request)) [
          | inl p ↦ ground (arith, same, free-breaker node tried.0 s resolved request now d)
          | inr (decoded, p) ↦
              ground (arith, same, charge-breaker node tried.0 resolved request decoded now raw)
        ]
      ]

  request-breaker :
      (node : Node) (state s : Here) (stream t : StreamState) (incoming : Incoming) (now : ℕ)
      (raw ms : Text) (r : Reply)
      → handle_request_headers store limiter codec wire unavailable node state stream incoming now
          raw ms
        ≡ some (s, t, r)
      → s.breaker ≡ (state_at state.breaker (breaker_label incoming.policy) now).0
  unfolding handle_request_headers
  request-breaker node state s stream t incoming now raw ms r h =
      let map = header_map [] incoming.headers in
      let (breaker, answer) = state_at state.breaker (breaker_label incoming.policy) now in
      let asked : Here = record state { breaker = breaker } in
      let decided =
        decide store limiter codec wire node asked (request_of incoming map) deferred now raw in
      elim (Bool-cases (is_refused store limiter codec wire unavailable answer map)) [
        | inl q ↦ ground arith
        | inr q ↦ elim (Option-cases decided) [
          | inl e ↦ ground arith
          | inr ((s', d), e) ↦
              ground (arith, decide-breaker node asked s' (request_of incoming map) now raw d e)
        ]
      ]

  answered-open :
      (b : SettlementBreaker) (policy : Text) (now later : ℕ)
      → (state_at b policy now).1 ≡ half_open
      → (state_at (state_at b policy now).0 policy later).1 ≡ open_state
  unfolding ask_all
  answered-open b policy now later h = (half_open-ask_all b policy now (later ∷ []) h).0

  -- A request without any payment can take the half-open probe: if the breaker answers it with
  -- `HalfOpen`, the next request on its policy that carries a payment is answered that settlement is
  -- unavailable, however late it comes.
  pub handle_request_headers-probe_lost :
      (node : Node) (state s : Here) (stream t : StreamState) (visit : Incoming) (now : ℕ)
      (raw ms : Text) (r : Reply) (node' : Node) (other : StreamState) (incoming : Incoming)
      (later : ℕ) (raw' ms' : Text)
      → get_header (header_map [] visit.headers) header_payment_signature ≡ none
      → (state_at state.breaker (breaker_label visit.policy) now).1 ≡ half_open
      → handle_request_headers store limiter codec wire unavailable node state stream visit now raw
          ms
        ≡ some (s, t, r)
      → incoming.policy ≡ visit.policy
      → HasPaymentHeader incoming
      → handle_request_headers store limiter codec wire unavailable node' s other incoming later
          raw' ms'
        ≡ some (
          record s { breaker = (state_at s.breaker (breaker_label incoming.policy) later).0 },
          other,
          settlement_unavailable unavailable
              (value_or_empty (header_map [] incoming.headers) (codes ":path")),
        )
  handle_request_headers-probe_lost node state s stream t visit now raw ms r node' other incoming
        later raw' ms' n half h same p =
      handle_request_headers-refused node' s other incoming later raw' ms' shut p
    where
      shut : (state_at s.breaker (breaker_label incoming.policy) later).1 ≡ open_state
      shut =
          rw (same, request-breaker node state s stream t visit now raw ms r h)
            (answered-open state.breaker (breaker_label visit.policy) now later half)
