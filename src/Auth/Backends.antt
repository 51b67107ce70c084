-- ===== src/Auth/Backends.antt =====
-- The in-memory backends of the session store and the limiter: src/session.rs, src/ratelimit.rs.
use sui_x402_verifier.Base.{some}
use sui_x402_verifier.Session.{Crypto}
use sui_x402_verifier.Session.Memory.{
  MemorySessionStore, consume_at, claim_payment_at, release_payment, create_session_at,
}
use sui_x402_verifier.RateLimit.{MemoryRateLimiter, check_at}
use sui_x402_verifier.Auth.{Store, Limiter}

-- `MemorySessionStore` never fails to create a session.
abbrev pub memory_store : Crypto → Store
memory_store crypto = record {
  State = MemorySessionStore;
  consume = consume_at crypto;
  claim = claim_payment_at;
  release = release_payment;
  create = λ s payer policy quota ttl now raw.
      let (s', token) = create_session_at crypto s payer policy quota ttl now raw in
      (s', some token);
}

abbrev pub memory_limiter : Limiter
memory_limiter = record { State = MemoryRateLimiter; check = check_at }
