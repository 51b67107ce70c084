-- ===== src/Auth/Total.antt =====
-- The panic that `decide` can run into: src/auth.rs, src/ratelimit.rs, src/config.rs.
use sui_x402_verifier.Base.{ℕ, ◌<◌, ◌≡◌, ◌≢◌, inl, inr, none, Text, ok, Option-cases, arith}
use sui_x402_verifier.Config.{ResolvedPolicy, policy_for}
use sui_x402_verifier.Config.Validate.{validate}
use sui_x402_verifier.Config.Validated.{policy_for-IsUsable}
use sui_x402_verifier.Session.{Crypto}
use sui_x402_verifier.RateLimit.{MemoryRateLimiter, check_at}
use sui_x402_verifier.RateLimit.Address.{IpAddr}
use sui_x402_verifier.Sui.{Node}
use sui_x402_verifier.Facilitator.{Codec}
use sui_x402_verifier.Auth.{SettlePolicy, Store, AppState, Wire}
use sui_x402_verifier.Auth.Backends.{memory_limiter}
use sui_x402_verifier.Auth.Decide.{try_session, serve_free, decide_unsessioned, decide}
use sui_x402_verifier.Auth.Outcomes.{Request, presented_payment, presented_token}
use sui_x402_verifier.Auth.Policy.{try_session-Keeps}

check_at-returns :
    (limiter : MemoryRateLimiter) (label : Text) (ip : IpAddr) (max_requests window_secs now : ℕ)
    → 0 < window_secs
    → check_at limiter label ip max_requests window_secs now ≢ none
unfolding check_at
check_at-returns limiter label ip max_requests window_secs now h e = ground arith

module _ (store : Store) (codec : Codec) (wire : Wire) (node : Node) where
  abbrev Here : Type 0
  Here = AppState store.State MemoryRateLimiter

  serve_free-returns :
      (state : Here) (resolved : ResolvedPolicy) (request : Request) (now : ℕ)
      → 0 < resolved.free_tier.window_secs
      → serve_free store memory_limiter codec wire node state resolved request now ≢ none
  unfolding serve_free
  serve_free-returns state resolved request now h e = elim (Option-cases request.client_ip) [
    | inl q ↦ ground arith
    | inr (ip, q) ↦
        elim (Option-cases (
          check_at state.limiter resolved.label ip resolved.free_tier.max_requests
            resolved.free_tier.window_secs now)) [
              | inl c ↦
                  check_at-returns state.limiter resolved.label ip resolved.free_tier.max_requests
                    resolved.free_tier.window_secs now h c
              | inr (r, c) ↦ ground arith
            ]
  ]

  -- With a configuration that passed validation and the in-memory limiter, `decide` always returns
  -- a decision: the limiter's assertion on the window never fails.
  pub decide-returns :
      (crypto : Crypto) (state : Here) (request : Request) (settle : SettlePolicy) (now : ℕ)
      (raw : Text)
      → validate crypto state.config ≡ ok tt
      → decide store memory_limiter codec wire node state request settle now raw ≢ none
  unfolding decide decide_unsessioned
  decide-returns crypto state request settle now raw valid e =
      let served =
        try_session store memory_limiter codec wire node state (presented_token wire request)
          request.policy now in
      let (_, _, _, config) =
        try_session-Keeps store memory_limiter codec wire node state (presented_token wire request)
          request.policy now in
      let usable = policy_for-IsUsable crypto state.config valid request.path request.policy in
      elim (Option-cases served.1) [
        | inr (a, q) ↦ ground arith
        | inl q ↦ elim (Option-cases (presented_payment wire request)) [
          | inr (decoded, p) ↦ ground arith
          | inl p ↦
              serve_free-returns served.0 (policy_for served.0.config request.path request.policy)
                request now (rw (config) (usable.window)) (ground arith)
        ]
      ]
