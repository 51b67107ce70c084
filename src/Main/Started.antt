-- ===== src/Main/Started.antt =====
-- What is true of a service that has started: src/main.rs, src/config.rs and src/sui.rs.
use sui_x402_verifier.Base.{
  ◌≡◌, ◌⊎◌, inl, inr, refl, sym, subst, true, Option, none, some, List, [], Text, trim, is_empty,
  eq_ignore_ascii_case, Result, ok, err, >>=-eq-ok, Bool-cases, arith,
}
use sui_x402_verifier.Config.{
  Config, VerificationMode, stub_accept_all, sui_grpc, StoreBackend, memory, redis, policy_for,
}
use sui_x402_verifier.Config.Validate.{hmac_key}
use sui_x402_verifier.Config.Validated.{IsUsable, policy_for-IsUsable}
use sui_x402_verifier.Config.Load.{Sources, load}
use sui_x402_verifier.Config.Loaded.{load-valid}
use sui_x402_verifier.Session.{Crypto}
use sui_x402_verifier.Sui.{Node, ChainCheck, check_chain, reported_chain}
use sui_x402_verifier.Facilitator.{Facilitator, verify_chain}
use sui_x402_verifier.Facilitator
use sui_x402_verifier.Main.{
  Connections, Service, in_memory, on_redis, StartError, fail_as, initial_state,
  connect_facilitator, open_store, start_with, start, configuration, hmac, wrong_chain,
  redis_unreachable,
}

abbrev pub config_of : {S L : Type 0} → Service S L → Config
config_of (in_memory state) = state.config
config_of (on_redis state) = state.config

abbrev pub facilitator_of : {S L : Type 0} → Service S L → Facilitator
facilitator_of (in_memory state) = state.facilitator
facilitator_of (on_redis state) = state.facilitator

abbrev pub broadcasts_of : {S L : Type 0} → Service S L → List Text
broadcasts_of (in_memory state) = state.broadcasts
broadcasts_of (on_redis state) = state.broadcasts

-- The node names no chain, or the configured one.
abbrev pub Confirms : Text → Option Text → Type 0
Confirms configured none = Unit {0}
Confirms configured (some chain) =
    (is_empty (trim chain) ≡ true) ⊎ (eq_ignore_ascii_case (trim chain) (trim configured) ≡ true)

-- Where payments are checked against a node, that node's chain was confirmed.
abbrev pub IsOnChain : VerificationMode → Node → Text → Type 0
IsOnChain stub_accept_all node chain = Unit {0}
IsOnChain sui_grpc node chain =
    (reported : Option Text) × (node.service_chain ≡ ok reported) × Confirms chain reported

check_chain-Confirms :
    (configured : Text) (reported : Option Text) (c : ChainCheck)
    → check_chain configured reported ≡ ok c
    → Confirms configured reported
unfolding check_chain
check_chain-Confirms configured none c h = tt
check_chain-Confirms configured (some chain) c h = elim (Bool-cases (is_empty (trim chain))) [
  | inl e ↦ inl e
  | inr e ↦ elim (Bool-cases (eq_ignore_ascii_case (trim chain) (trim configured))) [
    | inl q ↦ inr q
    | inr q ↦ absurd (ground arith)
  ]
]

fail_as-ok {ℓ} :
    {A : Type ℓ} {E : Type 0} (f : E → StartError) (r : Result E A) (a : A)
    → fail_as f r ≡ ok a
    → r ≡ ok a
fail_as-ok f (ok b) a h = ground arith
fail_as-ok f (err e) a h = cc

reported_lem :
    (node : Node) (reported : Option Text)
    → reported_chain node ≡ ok reported
    → node.service_chain ≡ ok reported
unfolding reported_chain
reported_lem node reported h = ground arith

verify_chain-IsOnChain :
    (mode : VerificationMode) (network chain : Text) (node : Node) (c : ChainCheck)
    → verify_chain (Facilitator.new mode network) node chain ≡ ok c
    → IsOnChain mode node chain
unfolding verify_chain Facilitator.new
verify_chain-IsOnChain stub_accept_all network chain node c h = tt
verify_chain-IsOnChain sui_grpc network chain node c h =
    let (reported, r, q) = >>=-eq-ok (reported_chain node) _ h in
    (reported, reported_lem node reported r, check_chain-Confirms chain reported c q)

module _ {RedisSessions RedisLimiter : Type 0}
    (connections : Connections RedisSessions RedisLimiter) where
  connect_lem :
      (mode : VerificationMode) (url network : Text) (facilitator : Facilitator)
      → connect_facilitator connections mode url network ≡ ok facilitator
      → facilitator ≡ Facilitator.new mode network
  unfolding connect_facilitator
  connect_lem stub_accept_all url network facilitator h = ground arith
  connect_lem sui_grpc url network facilitator h = ground arith

  -- The service holds what it was opened with, and has sent nothing.
  abbrev Holds : Service RedisSessions RedisLimiter → Config → Facilitator → Type 0
  Holds service config facilitator =
      (config_of service ≡ config)
      × (facilitator_of service ≡ facilitator)
      × (broadcasts_of service ≡ [])

  open_store-Holds :
      (backend : StoreBackend) (config : Config) (facilitator : Facilitator) (key : Text)
      (service : Service RedisSessions RedisLimiter)
      → open_store connections backend config facilitator key ≡ ok service
      → Holds service config facilitator
  unfolding open_store initial_state
  open_store-Holds memory config facilitator key (in_memory s) h =
      (ground arith, ground arith, ground arith)
  open_store-Holds memory config facilitator key (on_redis s) h = absurd (ground arith)
  open_store-Holds redis config facilitator key service h =
      let (sessions, _, h1) =
        >>=-eq-ok
          (fail_as redis_unreachable (connections.redis_sessions config.store.redis_url key)) _ h in
      let (limiter, _, h2) =
        >>=-eq-ok (fail_as redis_unreachable (connections.redis_limiter config.store.redis_url)) _
          h1 in
      let same : on_redis (initial_state config facilitator sessions limiter) ≡ service =
        ground arith in
      subst (λ s. Holds s config facilitator) same (refl, refl, refl)

  -- A service that starts is ready to sell. Every request, whatever its path and policy, resolves
  -- to terms that passed validation; the facilitator has the configured mode, and the network that
  -- the default terms advertise; nothing has been broadcast; and where payments are checked
  -- against a fullnode, that node answered, and named either no chain or the configured one.
  pub start-ready :
      (crypto : Crypto) (node : Node) (sources : Sources) (file_path path : Text)
      (policy : Option Text) (service : Service RedisSessions RedisLimiter)
      → start connections crypto node sources file_path ≡ ok service
      → IsUsable (policy_for (config_of service) path policy)
        × (facilitator_of service
            ≡ Facilitator.new
                (config_of service).verification_mode
                (config_of service).payment.network)
        × (broadcasts_of service ≡ [])
        × IsOnChain (config_of service).verification_mode node (config_of service).sui_chain
  unfolding start start_with
  start-ready crypto node sources file_path path policy service h =
      let (config, l, h1) = >>=-eq-ok (fail_as configuration (load crypto sources file_path)) _ h in
      let loaded = fail_as-ok configuration (load crypto sources file_path) config l in
      let (key, _, h2) = >>=-eq-ok (fail_as hmac (hmac_key crypto config)) _ h1 in
      let connecting =
        connect_facilitator connections config.verification_mode config.sui_grpc_url
          config.payment.network in
      let (facilitator, f, h3) = >>=-eq-ok (fail_as StartError.fullnode connecting) _ h2 in
      let same =
        connect_lem config.verification_mode config.sui_grpc_url config.payment.network facilitator
          (fail_as-ok StartError.fullnode connecting facilitator f) in
      let checking = verify_chain facilitator node config.sui_chain in
      let (chain, c, h4) = >>=-eq-ok (fail_as wrong_chain checking) _ h3 in
      let checked = fail_as-ok wrong_chain checking chain c in
      let (holds, holds_facilitator, nothing) =
        open_store-Holds config.store.backend config facilitator key service h4 in
      subst
        (λ k.
          IsUsable (policy_for k path policy)
          × (facilitator_of service ≡ Facilitator.new k.verification_mode k.payment.network)
          × (broadcasts_of service ≡ [])
          × IsOnChain k.verification_mode node k.sui_chain)
        (sym holds)
        (
          policy_for-IsUsable crypto config (load-valid crypto sources file_path config loaded).0
              path policy,
          rw (holds_facilitator) same,
          nothing,
          verify_chain-IsOnChain config.verification_mode config.payment.network config.sui_chain
              node chain
              (subst (λ g. verify_chain g node config.sui_chain ≡ ok chain) same checked),
        )
