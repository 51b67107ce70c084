-- ===== src/Session/Redis/Sales.antt =====
-- Sessions that are sold on Redis against those in memory: src/session.rs.
use sui_x402_verifier.Base.{
  ℕ, pos, ◌^◌, ◌<◌, ◌≤◌, ◌≡◌, ◌≢◌, refl, sym, subst, ◌∙◌, ap, List, ◌*◌, ◌+◌, Option-cases, inl,
  inr, Option, none, some, saturating_add, Text, codes, text_eq, show_u64, arith,
}
use sui_x402_verifier.Session.{Crypto, HexLaws, TokenClaims}
use sui_x402_verifier.Session.Token.{mint}
use sui_x402_verifier.Session.Token.RoundTrip.{IsField, hex-IsField, verify-mint}
use sui_x402_verifier.Session.Memory.{MemorySessionStore, create_session_at}
use sui_x402_verifier.Session.Memory.Quota.{consume_all, create_session_at-countdown}
use sui_x402_verifier.Session.Redis.{
  Redis, answered, session_key, or_empty, as_i64, create_session, write_fields, write_session,
}
use sui_x402_verifier.Session.Redis.Laws.{NumberLaws, HashLaws, differ_lem}
use sui_x402_verifier.Session.Redis.Sessions.{
  IsHeld, InTime, InTime-before, verifier_times, redis_consume_all, redis_consume_all-countdown,
  quota-ne-payer,
}

granted-ne-payer : codes "granted" ≢ codes "payer"
unfolding text_eq
granted-ne-payer = differ_lem (codes "granted") (codes "payer") refl

granted-ne-quota : codes "granted" ≢ codes "quota"
unfolding text_eq
granted-ne-quota = differ_lem (codes "granted") (codes "quota") refl

policy-ne-payer : codes "policy" ≢ codes "payer"
unfolding text_eq
policy-ne-payer = differ_lem (codes "policy") (codes "payer") refl

policy-ne-quota : codes "policy" ≢ codes "quota"
unfolding text_eq
policy-ne-quota = differ_lem (codes "policy") (codes "quota") refl

policy-ne-granted : codes "policy" ≢ codes "granted"
unfolding text_eq
policy-ne-granted = differ_lem (codes "policy") (codes "granted") refl

none-ne-some : (s : Text) → none ≢ some s
none-ne-some s h = cc

some-same : (s t : Text) → some s ≡ some t → s ≡ t
some-same s t h = ground arith

as_i64-short : (n : ℕ) → n < 2 ^ 63 → as_i64 n ≡ pos n
unfolding as_i64
as_i64-short n h = ground arith

module _ (redis : Redis) (numbers : NumberLaws redis) (laws : HashLaws redis) where
  -- The fields of a session just written, and the session once its lifetime is set.
  module _ (db : redis.Data) (key payer policy : Text) (quota at : ℕ) where
    write_fields-lem :
        (redis.hget (write_fields redis db key payer policy quota at) key (codes "payer") at
          ≡ some payer)
        × (redis.hget (write_fields redis db key payer policy quota at) key (codes "policy") at
            ≡ some policy)
        × (redis.hget (write_fields redis db key payer policy quota at) key (codes "quota") at
            ≡ some (show_u64 quota))
        × (redis.hget (write_fields redis db key payer policy quota at) key (codes "granted") at
            ≡ some (show_u64 quota))
    unfolding write_fields
    write_fields-lem = (
      laws.hget-hset_other d3 key (codes "policy") (codes "payer") policy at policy-ne-payer
          ∙ laws.hget-hset_other d2 key (codes "granted") (codes "payer") (show_u64 quota) at
              granted-ne-payer
          ∙ laws.hget-hset_other d1 key (codes "quota") (codes "payer") (show_u64 quota) at
              quota-ne-payer
          ∙ laws.hget-hset db key (codes "payer") payer at,
      laws.hget-hset d3 key (codes "policy") policy at,
      laws.hget-hset_other d3 key (codes "policy") (codes "quota") policy at policy-ne-quota
          ∙ laws.hget-hset_other d2 key (codes "granted") (codes "quota") (show_u64 quota) at
              granted-ne-quota
          ∙ laws.hget-hset d1 key (codes "quota") (show_u64 quota) at,
      laws.hget-hset_other d3 key (codes "policy") (codes "granted") policy at policy-ne-granted
          ∙ laws.hget-hset d2 key (codes "granted") (show_u64 quota) at,
    )
      where
        d1 : redis.Data
        d1 = redis.hset db key (codes "payer") payer at

        d2 : redis.Data
        d2 = redis.hset d1 key (codes "quota") (show_u64 quota) at

        d3 : redis.Data
        d3 = redis.hset d2 key (codes "granted") (show_u64 quota) at

    expire-IsHeld :
        (ttl : ℕ) (db' : redis.Data)
        → redis.expire (write_fields redis db key payer policy quota at) key (pos ttl) at ≡ some db'
        → IsHeld redis db' key payer policy quota quota at (at + 1000 * ttl)
    expire-IsHeld ttl db' set =
        let (a, b, c, d) = write_fields-lem in
        let written = write_fields redis db key payer policy quota at in
        let kept : (name : Text) (t : ℕ)
            → at ≤ t
            → t < at + 1000 * ttl
            → redis.hget db' key name t ≡ redis.hget written key name at =
          λ name t p q. laws.hget-expire written db' key name ttl at t set p q in
        record {
          held_payer = λ t p q. kept (codes "payer") t p q ∙ a;
          held_policy = λ t p q. kept (codes "policy") t p q ∙ b;
          held_quota = λ t p q. kept (codes "quota") t p q ∙ c;
          held_granted = λ t p q. kept (codes "granted") t p q ∙ d;
        }

  -- A sale that was answered with a token.
  create_session-IsHeld :
      (crypto : Crypto) (hmac_key : Text) (db db' : redis.Data) (payer raw sold : Text)
      (policy : Option Text) (quota ttl now at : ℕ)
      → ttl < 2 ^ 63
      → create_session redis crypto hmac_key answered db payer policy quota ttl now at raw
        ≡ (db', some sold)
      → (sold ≡ mint crypto hmac_key payer (saturating_add now ttl) (crypto.hex_encode raw))
        × IsHeld redis db'
            (session_key (crypto.hex_encode raw))
            payer
            (or_empty policy)
            quota
            quota
            at
            (at + 1000 * ttl)
  unfolding create_session write_session
  create_session-IsHeld crypto hmac_key db db' payer raw sold policy quota ttl now at word h =
      let key = session_key (crypto.hex_encode raw) in
      let written = write_fields redis db key payer (or_empty policy) quota at in
      elim (Option-cases (redis.expire written key (pos ttl) at)) [
        | inl e ↦ absurd (
            let s = rw (as_i64-short ttl word, create_session, write_session, e) at h in
            none-ne-some sold (ap (λ r. r.1) s))
        | inr (d, e) ↦
            let s = rw (as_i64-short ttl word, create_session, write_session, e) at h in
            (
              sym (some-same _ sold (ap (λ r. r.1) s)),
              subst
                  (λ x. IsHeld redis x key payer (or_empty policy) quota quota at (at + 1000 * ttl))
                  (ap (λ r. r.0) s) (expire-IsHeld db key payer (or_empty policy) quota at ttl d e),
            )
      ]

-- A session sold on Redis is the session sold in memory: if the sale is answered with a token, it is
-- the token that the in-memory store mints for the same sale, and any requests with it under the
-- policy that it was bought for get the same answers from both stores, each request before the
-- token's deadline by the verifier's clock and, on Redis, before the lifetime is over by the
-- server's. Every round trip is answered, Redis keeps what it documents, the quota is below 2 ^ 53,
-- the lifetime below 2 ^ 63 seconds, and the payer free of colons and whitespace.
pub create_session-create_session_at :
    (redis : Redis) (numbers : NumberLaws redis) (laws : HashLaws redis) (crypto : Crypto)
    (hex : HexLaws crypto) (db db' : redis.Data) (store : MemorySessionStore)
    (payer raw sold : Text) (policy : Option Text) (quota ttl now at : ℕ) (times : List (ℕ × ℕ))
    → IsField payer
    → quota < 2 ^ 53
    → ttl < 2 ^ 63
    → create_session redis crypto store.hmac_key answered db payer policy quota ttl now at raw
      ≡ (db', some sold)
    → InTime (saturating_add now ttl) (at + 1000 * ttl) at times
    → let (store', token) = create_session_at crypto store payer policy quota ttl now raw in
      (sold ≡ token)
      × (redis_consume_all redis crypto store.hmac_key db' token policy times
          ≡ consume_all crypto store' token policy (verifier_times times))
unfolding create_session_at
create_session-create_session_at redis numbers laws crypto hex db db' store payer raw sold policy
      quota ttl now at times field small short h order =
    let (token, held) =
      create_session-IsHeld redis numbers laws crypto store.hmac_key db db' payer raw sold policy
        quota ttl now at short h in
    let claims : TokenClaims = record {
      payer = payer;
      expires_at = saturating_add now ttl;
      session_id = sid;
    } in
    (
      token,
      redis_consume_all-countdown redis numbers laws crypto store.hmac_key
            (mint crypto store.hmac_key payer (saturating_add now ttl) sid) payer policy quota
            (saturating_add now ttl) (at + 1000 * ttl) claims refl
            (λ later before.
              verify-mint crypto hex store.hmac_key payer sid (saturating_add now ttl) later field
                (hex-IsField sid (hex.encode-digits raw)) (omega arith)
              ∙ ground (arith, before))
            small db' quota at times held (omega arith) order
          ∙ sym (
              create_session_at-countdown crypto hex store payer raw policy quota ttl now
                (verifier_times times) field
                (InTime-before (saturating_add now ttl) (at + 1000 * ttl) at times order)),
    )
  where
    sid : Text
    sid = crypto.hex_encode raw
