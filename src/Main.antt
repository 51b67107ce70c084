-- ===== src/Main.antt =====
-- How the service starts, and what its timer does: src/main.rs. The metrics exporter, the log, the
-- listeners and the shutdown signals are left out; the connections to a fullnode and to Redis are
-- the parameter `Connections`.
pub mod Started
use sui_x402_verifier.Base.{
  ℕ, Option, none, some, List, [], ◌++◌, Text, codes, Result, ok, err, ◌>>=◌,
}
use sui_x402_verifier.Config.{
  Config, VerificationMode, stub_accept_all, sui_grpc, StoreBackend, memory, redis,
}
use sui_x402_verifier.Config.Validate.{ConfigError, hmac_key}
use sui_x402_verifier.Config.Load.{LoadError, Sources, load}
use sui_x402_verifier.Session.{Crypto}
use sui_x402_verifier.Session.Memory.{MemorySessionStore, cleanup_expired_at}
use sui_x402_verifier.Session.Memory
use sui_x402_verifier.RateLimit.{MemoryRateLimiter, cleanup_idle_at}
use sui_x402_verifier.X402.{FacilitatorError}
use sui_x402_verifier.Sui.{Node, ChainCheck}
use sui_x402_verifier.Facilitator.{Facilitator, verify_chain}
use sui_x402_verifier.Facilitator
use sui_x402_verifier.Auth.{AppState}

-- The connections that startup makes: to the fullnode, and to Redis for its two stores.
pub record Connections (RedisSessions RedisLimiter : Type 0) : Type 0 where
  pub fullnode : Text → Result FacilitatorError (Unit {0})
  pub redis_sessions : Text → Text → Result Text RedisSessions
  pub redis_limiter : Text → Result Text RedisLimiter

pub data StartError : Type 0 where
  configuration : LoadError → StartError
  hmac : ConfigError → StartError
  fullnode : FacilitatorError → StartError
  wrong_chain : FacilitatorError → StartError
  redis_unreachable : Text → StartError

-- The running service on either backend.
pub data Service (RedisSessions RedisLimiter : Type 0) : Type 0 where
  in_memory : AppState MemorySessionStore MemoryRateLimiter → Service RedisSessions RedisLimiter
  on_redis : AppState RedisSessions RedisLimiter → Service RedisSessions RedisLimiter

abbrev pub fail_as {ℓ} :
    {A : Type ℓ} {E : Type 0} → (E → StartError) → Result E A → Result StartError A
fail_as f (ok a) = ok a
fail_as f (err e) = err (f e)

-- The state of a service that has served nothing yet.
unfoldable pub initial_state : {S L : Type 0} → Config → Facilitator → S → L → AppState S L
initial_state config facilitator sessions limiter = record {
  config = config;
  breaker = [];
  sessions = sessions;
  limiter = limiter;
  facilitator = facilitator;
  broadcasts = [];
}

module _ {RedisSessions RedisLimiter : Type 0}
    (connections : Connections RedisSessions RedisLimiter) where
  -- `Facilitator::new`, which connects in the mode that needs a fullnode.
  unfoldable pub connect_facilitator :
      VerificationMode → Text → Text → Result FacilitatorError Facilitator
  unfolding Facilitator.new
  connect_facilitator stub_accept_all grpc_url network =
      ok (Facilitator.new stub_accept_all network)
  connect_facilitator sui_grpc grpc_url network = do
    connected ← connections.fullnode grpc_url
    ok (Facilitator.new sui_grpc network)

  -- `match config.store.backend`
  unfoldable pub open_store :
      StoreBackend
      → Config
      → Facilitator
      → Text
      → Result StartError (Service RedisSessions RedisLimiter)
  unfolding Memory.new initial_state
  open_store memory config facilitator key = ok (
      in_memory
        (initial_state config facilitator (Memory.new key config.paid_tier.duration_secs) []))
  open_store redis config facilitator key = do
    sessions ← fail_as redis_unreachable (connections.redis_sessions config.store.redis_url key)
    limiter ← fail_as redis_unreachable (connections.redis_limiter config.store.redis_url)
    ok (on_redis (initial_state config facilitator sessions limiter))

  -- The start of a service from a configuration that was loaded.
  unfoldable pub start_with :
      Crypto → Node → Config → Result StartError (Service RedisSessions RedisLimiter)
  unfolding connect_facilitator open_store
  start_with crypto node config = do
    key ← fail_as hmac (hmac_key crypto config)
    facilitator ←
        fail_as StartError.fullnode
          (connect_facilitator config.verification_mode config.sui_grpc_url config.payment.network)
    chain ← fail_as wrong_chain (verify_chain facilitator node config.sui_chain)
    open_store config.store.backend config facilitator key

  -- `main`, up to the point where it serves.
  unfoldable pub start :
      Crypto → Node → Sources → Text → Result StartError (Service RedisSessions RedisLimiter)
  unfolding start_with
  start crypto node sources path = do
    config ← fail_as configuration (load crypto sources path)
    start_with crypto node config

-- One tick of the cleanup timer, with the numbers of what it reaped. Redis expires its own keys.
unfoldable pub tick :
    {RedisSessions RedisLimiter : Type 0}
    → Service RedisSessions RedisLimiter
    → ℕ
    → Service RedisSessions RedisLimiter × (ℕ × ℕ)
tick (in_memory state) now =
    let (sessions, expired) = cleanup_expired_at state.sessions now in
    let (limiter, idle) = cleanup_idle_at state.limiter now in
    (in_memory (record state { sessions = sessions; limiter = limiter }), (expired, idle))
tick (on_redis state) now = (on_redis state, (0, 0))
