-- ===== src/Session/Redis.antt =====
-- The Redis session store and replay cache: src/session.rs. Redis is the parameter `Redis`; a script
-- and a `MULTI` block run whole, but what ran before a command that fails is kept. `Link` says what
-- becomes of one round trip. There are two clocks: `now` is the verifier's, in seconds, and `at` is
-- the Redis server's, in milliseconds, by which keys expire.
pub mod Laws
pub mod Claims
pub mod Sessions
pub mod Sales
use sui_x402_verifier.Base.{
  ℕ, ℤ, pos, negsuc, pos_part, sub_ℕ, ◌+ℤ◌, ◌-◌, ◌^◌, zero, suc, Bool, true, false, not, Option,
  none, some, List, [], ◌∷◌, ◌++◌, ltb, leb, ◌==◌, if◌then◌else◌, Text, codes, text_eq, show_u64,
  parse_uint, max_u64, saturating_add, Result, ok, err,
}
use sui_x402_verifier.Session.{
  Crypto, SessionOutcome, accepted, rejected, PaymentClaim, fresh, replay, backend, unknown,
  wrong_policy, quota_exhausted, TokenClaims,
}
use sui_x402_verifier.Session
use sui_x402_verifier.Session.Token.{mint, verify}

-- The commands that the source gives, at a time of the server's clock: `hdecr` is `HINCRBY` by -1,
-- and `tonumber` is Lua's. `set_ex` and `expire` may refuse their number of seconds.
pub record Redis : Type 1 where
  pub Data : Type 0
  pub get : Data → Text → ℕ → Option Text
  pub set_ex : Data → Text → Text → ℤ → ℕ → Option Data
  pub del : Data → Text → Data
  pub hget : Data → Text → Text → ℕ → Option Text
  pub hset : Data → Text → Text → Text → ℕ → Data
  pub hdecr : Data → Text → Text → ℕ → Data
  pub incr : Data → Text → ℕ → Data
  pub expire : Data → Text → ℤ → ℕ → Option Data
  pub tonumber : Text → Option ℤ

-- A round trip is answered, never reaches the server, or is carried out and its answer is lost.
pub data Link : Type 0 where
  answered unsent unanswered : Link

abbrev pub over {ℓ} : {D : Type 0} {A : Type ℓ} → Link → D → D × A → D × Option A
over answered d (d', a) = (d', some a)
over unsent d (d', a) = (d, none)
over unanswered d (d', a) = (d', none)

-- An answer that never came, or was an error.
abbrev pub flattened {ℓ} : {A : Type ℓ} → Option (Option A) → Option A
flattened none = none
flattened (some reply) = reply

abbrev pub replay_key : Text → Text
replay_key payment_id = codes "x402:seen:" ++ payment_id

abbrev pub session_key : Text → Text
session_key session_id = codes "x402:sess:" ++ session_id

-- `ttl_secs as i64`
unfoldable pub as_i64 : ℕ → ℤ
as_i64 n = if ltb n (2 ^ 63) then pos n else sub_ℕ n (2 ^ 64)

-- What is at most zero.
abbrev pub is_spent : ℤ → Bool
is_spent (pos n) = n == 0
is_spent (negsuc n) = true

abbrev pub minus_one : ℤ → ℤ
minus_one z = z +ℤ negsuc 0

abbrev pub or_empty : Option Text → Text
or_empty none = []
or_empty (some t) = t

module _ (redis : Redis) where
  -- `SET key value EX tonumber(ttl)`
  unfoldable pub set_for : redis.Data → Text → Text → Text → ℕ → Option redis.Data
  set_for db key value ttl_text at = elim (redis.tonumber ttl_text) [
    | none ↦ none
    | some ttl ↦ redis.set_ex db key value ttl at
  ]

  -- `CLAIM_SCRIPT`: the key, then the two arguments; no reply is an error.
  unfoldable pub claim_script : redis.Data → Text → Text → Text → ℕ → redis.Data × Option (ℕ × Text)
  unfolding set_for
  claim_script db key now_text ttl_text at = elim (redis.get db key at) [
    | some existing ↦ (db, some (0, existing))
    | none ↦ elim (set_for db key now_text ttl_text at) [
      | none ↦ (db, none)
      | some db' ↦ (db', some (1, now_text))
    ]
  ]

  -- The reply as `(i64, u64)`, and what it means.
  unfoldable pub claim_of : Option (ℕ × Text) → PaymentClaim
  claim_of none = backend
  claim_of (some (code, seen)) = elim (parse_uint max_u64 seen) [
    | none ↦ backend
    | some first_seen ↦ if code == 1 then fresh else replay first_seen
  ]

  unfoldable pub claim_payment : Link → redis.Data → Text → ℕ → ℕ → ℕ → redis.Data × PaymentClaim
  unfolding claim_script claim_of
  claim_payment link db payment_id ttl_secs now at =
      let (db', reply) =
        over link db
          (claim_script db (replay_key payment_id) (show_u64 now) (show_u64 ttl_secs) at) in
      (db', claim_of (flattened reply))

  unfoldable pub release_payment : Link → redis.Data → Text → redis.Data
  release_payment link db payment_id =
      (over {A = Unit {0}} link db (redis.del db (replay_key payment_id), tt)).0

  -- The third number of a spent request: what was granted, or else the quota.
  abbrev pub granted_or : Option Text → ℤ → ℤ
  granted_or none quota = quota
  granted_or (some text) quota = elim (redis.tonumber text) [ none ↦ quota | some n ↦ n ]

  abbrev pub as_number : Option Text → Option ℤ
  as_number none = none
  as_number (some text) = redis.tonumber text

  -- `SPEND_SCRIPT`, behind the look at the payer.
  abbrev pub spend_quota : redis.Data → Text → Text → Option ℤ → ℕ → redis.Data × (ℤ × Text × ℤ)
  spend_quota db key payer none at = (db, (negsuc 0, payer, pos 0))
  spend_quota db key payer (some quota) at =
      if is_spent quota then (db, (negsuc 0, payer, pos 0)) else (
        redis.hdecr db key (codes "quota") at,
        (
          minus_one quota,
          payer,
          granted_or (redis.hget (redis.hdecr db key (codes "quota") at) key (codes "granted") at)
              quota,
        ),
      )

  unfoldable pub spend_script : redis.Data → Text → Text → ℕ → redis.Data × (ℤ × Text × ℤ)
  spend_script db key policy at = elim (redis.hget db key (codes "payer") at) [
    | none ↦ (db, (negsuc 1, [], pos 0))
    | some payer ↦
        if not (text_eq (or_empty (redis.hget db key (codes "policy") at)) policy)
        then (db, (negsuc 2, payer, pos 0))
        else spend_quota db key payer (as_number (redis.hget db key (codes "quota") at)) at
  ]

  -- The reply as `(i64, String, u64)`, and what it means for a token with this deadline.
  unfoldable pub outcome_of : Option (ℤ × Text × ℤ) → ℕ → SessionOutcome
  outcome_of none expires_at = rejected Session.SessionRejection.backend
  outcome_of (some (remaining, payer, negsuc n)) expires_at =
      rejected Session.SessionRejection.backend
  outcome_of (some (negsuc zero, payer, pos quota)) expires_at = rejected quota_exhausted
  outcome_of (some (negsuc (suc zero), payer, pos quota)) expires_at = rejected unknown
  outcome_of (some (negsuc (suc (suc zero)), payer, pos quota)) expires_at = rejected wrong_policy
  outcome_of (some (negsuc (suc (suc (suc n))), payer, pos quota)) expires_at =
      accepted payer 0 quota expires_at
  outcome_of (some (pos remaining, payer, pos quota)) expires_at =
      accepted payer remaining quota expires_at

  -- The fields of a new session.
  unfoldable pub write_fields : redis.Data → Text → Text → Text → ℕ → ℕ → redis.Data
  write_fields db key payer policy quota at =
      let d1 = redis.hset db key (codes "payer") payer at in
      let d2 = redis.hset d1 key (codes "quota") (show_u64 quota) at in
      let d3 = redis.hset d2 key (codes "granted") (show_u64 quota) at in
      redis.hset d3 key (codes "policy") policy at

  -- The `MULTI` block of a new session: an `EXPIRE` that fails leaves the fields behind.
  unfoldable pub write_session :
      redis.Data → Text → Text → Text → ℕ → ℕ → ℕ → redis.Data × Option (Unit {0})
  unfolding as_i64 write_fields
  write_session db key payer policy quota ttl_secs at =
      let written = write_fields db key payer policy quota at in
      elim (redis.expire written key (as_i64 ttl_secs) at) [
        | none ↦ (written, none)
        | some db' ↦ (db', some tt)
      ]

  abbrev pub token_if : Option (Unit {0}) → Text → Option Text
  token_if none token = none
  token_if (some u) token = some token

  module _ (crypto : Crypto) (hmac_key : Text) where
    unfoldable pub consume :
        Link → redis.Data → Text → Option Text → ℕ → ℕ → redis.Data × SessionOutcome
    unfolding spend_script outcome_of
    consume link db token policy now at = elim (verify crypto hmac_key token now) [
      | err rejection ↦ (db, rejected rejection)
      | ok claims ↦
          let (db', reply) =
            over link db (spend_script db (session_key claims.session_id) (or_empty policy) at) in
          (db', outcome_of reply claims.expires_at)
    ]

    -- `create_session`; `raw` are the random bytes of its identifier.
    unfoldable pub create_session :
        Link → redis.Data → Text → Option Text → ℕ → ℕ → ℕ → ℕ → Text → redis.Data × Option Text
    unfolding write_session
    create_session link db payer policy quota ttl_secs now at raw =
        let session_id = crypto.hex_encode raw in
        let (db', done) =
          over link db
            (write_session db (session_key session_id) payer (or_empty policy) quota ttl_secs at) in
        (
          db',
          token_if (flattened done)
              (mint crypto hmac_key payer (saturating_add now ttl_secs) session_id),
        )
