-- ===== src/Session/Memory.antt =====
-- `MemorySessionStore`: src/session.rs. The clock's reading and the random bytes of a session id
-- are arguments; an operation returns the store that it leaves.
pub mod Quota
pub mod Replay
pub mod Sweep
use sui_x402_verifier.Base.{
  ℕ, ◌+◌, ◌-◌, Bool, true, false, not, Option, none, some, List, [], ◌∷◌, length, ltb, leb, ◌==◌,
  if◌then◌else◌, saturating_add, Text, Map, lookup, insert, remove, retain, Result, ok, err,
}
use sui_x402_verifier.Session.{
  Crypto, Session, SessionRejection, SessionOutcome, TokenClaims, PaymentClaim, policy_eq, accepted,
  rejected, expired, unknown, wrong_policy, quota_exhausted, fresh, replay,
}
use sui_x402_verifier.Session.Token.{mint, verify}

pub record MemorySessionStore : Type 0 where
  pub sessions : Map Session
  pub seen_payments : Map ℕ
  pub hmac_key : Text
  pub replay_retention_secs : ℕ

unfoldable pub new : Text → ℕ → MemorySessionStore
new hmac_key replay_retention_secs = record {
  sessions = [];
  seen_payments = [];
  hmac_key = hmac_key;
  replay_retention_secs = replay_retention_secs;
}

unfoldable pub len : MemorySessionStore → ℕ
len store = length store.sessions

-- `spend_one` as it runs when no other thread interferes; `Spend` has the compare-exchange loop.
unfoldable pub spend_one : ℕ → Option ℕ
spend_one counter = if counter == 0 then none else some (counter - 1)

-- `claim_payment_at`
unfoldable pub claim_payment_at :
    MemorySessionStore → Text → ℕ → ℕ → MemorySessionStore × PaymentClaim
claim_payment_at store payment_id ttl_secs now = elim (lookup payment_id store.seen_payments) [
  | some first_seen ↦
      if leb ttl_secs (now - first_seen)
      then (record store { seen_payments = insert payment_id now store.seen_payments }, fresh)
      else (store, replay first_seen)
  | none ↦ (record store { seen_payments = insert payment_id now store.seen_payments }, fresh)
]

unfoldable pub release_payment : MemorySessionStore → Text → MemorySessionStore
release_payment store payment_id = record store {
  seen_payments = remove payment_id store.seen_payments;
}

-- `cleanup_expired_at`, with the number of sessions that it reaped.
unfoldable pub cleanup_expired_at : MemorySessionStore → ℕ → MemorySessionStore × ℕ
cleanup_expired_at store now =
    let live = retain (λ (s : Session). ltb now s.expires_at) store.sessions in
    let seen =
      retain (λ (first_seen : ℕ). ltb (now - first_seen) store.replay_retention_secs)
        store.seen_payments in
    (record store { sessions = live; seen_payments = seen }, length store.sessions - length live)

-- The part of `consume_at` behind the lookup.
unfoldable pub spend_session :
    MemorySessionStore → Text → Session → Option Text → ℕ → MemorySessionStore × SessionOutcome
unfolding spend_one
spend_session store session_id session policy now =
    if leb session.expires_at now
    then (store, rejected expired)
    else if not (policy_eq session.policy policy)
    then (store, rejected wrong_policy)
    else elim (spend_one session.quota_remaining) [
      | some remaining ↦ (
        record store {
          sessions =
              insert session_id (record session { quota_remaining = remaining }) store.sessions;
        },
        accepted session.payer remaining session.quota session.expires_at,
      )
      | none ↦ (store, rejected quota_exhausted)
    ]

module _ (crypto : Crypto) where
  -- `create_session_at`; the token goes to the client.
  unfoldable pub create_session_at :
      MemorySessionStore → Text → Option Text → ℕ → ℕ → ℕ → Text → MemorySessionStore × Text
  create_session_at store payer policy quota ttl_secs now raw =
      let session_id = crypto.hex_encode raw in
      let expires_at = saturating_add now ttl_secs in
      let session : Session = record {
        payer = payer;
        policy = policy;
        expires_at = expires_at;
        quota = quota;
        quota_remaining = quota;
      } in
      (
        record store { sessions = insert session_id session store.sessions },
        mint crypto store.hmac_key payer expires_at session_id,
      )

  -- `consume_at`
  unfoldable pub consume_at :
      MemorySessionStore → Text → Option Text → ℕ → MemorySessionStore × SessionOutcome
  unfolding spend_session
  consume_at store token policy now = elim (verify crypto store.hmac_key token now) [
    | err rejection ↦ (store, rejected rejection)
    | ok claims ↦ elim (lookup claims.session_id store.sessions) [
      | none ↦ (store, rejected unknown)
      | some session ↦ spend_session store claims.session_id session policy now
    ]
  ]
