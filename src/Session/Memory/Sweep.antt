-- ===== src/Session/Memory/Sweep.antt =====
-- The sweep of the replay cache: src/session.rs.
use sui_x402_verifier.Base.{
  ℕ, ◌-◌, ◌≤◌, ◌≡◌, some, ltb, Text, lookup, lookup-retain_dropped, IsUnique, arith,
}
use sui_x402_verifier.Session.{fresh}
use sui_x402_verifier.Session.Memory.{MemorySessionStore, claim_payment_at, cleanup_expired_at}

-- The sweep forgets a payment once its record is as old as the store's retention, however long the
-- payment is to stay claimed: the next claim of it is fresh again.
pub cleanup_expired_at-forgets :
    (s : MemorySessionStore) (id : Text) (t ttl now : ℕ)
    → IsUnique s.seen_payments
    → lookup id s.seen_payments ≡ some t
    → s.replay_retention_secs ≤ now - t
    → (claim_payment_at (cleanup_expired_at s now).0 id ttl now).1 ≡ fresh
unfolding claim_payment_at cleanup_expired_at
cleanup_expired_at-forgets s id t ttl now u h old = ground (
  arith,
  lookup-retain_dropped (λ (f : ℕ). ltb (now - f) s.replay_retention_secs) id t s.seen_payments u h,
)
