-- ===== src/Tests/Hashes.antt =====
-- A session on Redis at work: src/session.rs. The test server keeps, for each field of each hash,
-- what it reads as at each time.
use sui_x402_verifier.Base.{
  saturating_add, List, [], ◌∷◌, ◌+◌, ◌*◌, ℕ, ℤ, pos, negsuc, suc, ◌-◌, ◌^◌, ◌<◌, ◌≡◌, refl, Option,
  none, some, ltb, if◌then◌else◌, Text, codes, text_eq, text_eq-false, text_eq_refl, show_u64,
  parse_uint, parse_uint-show_u64, max_u64, arith,
}
use sui_x402_verifier.Session.Token.{mint}
use sui_x402_verifier.Session.Memory.{create_session_at}
use sui_x402_verifier.Session.Memory.Quota.{consume_all}
use sui_x402_verifier.Session.Redis.{Redis, answered, create_session, write_session, as_i64}
use sui_x402_verifier.Session.Redis.Laws.{NumberLaws, HashLaws}
use sui_x402_verifier.Session.Redis.Sessions.{verifier_times, redis_consume_all}
use sui_x402_verifier.Session.Redis.Sales.{create_session-create_session_at}
use sui_x402_verifier.Tests.Fixtures.{p-IsField, test_crypto, test_crypto-HexLaws, test_sessions}

abbrev Hashes : Type 0
Hashes = Text → Text → ℕ → Option Text

abbrev down : Option ℕ → Option Text
down none = none
down (some n) = some (show_u64 (n - 1))

abbrev decreased : Option Text → Option Text
decreased none = none
decreased (some text) = down (parse_uint max_u64 text)

abbrev as_pos : Option ℕ → Option ℤ
as_pos none = none
as_pos (some n) = some (pos n)

abbrev kept_for : Hashes → Text → ℕ → ℕ → Hashes
kept_for db key ttl at = λ k name t.
    if text_eq key k then (if ltb t (at + 1000 * ttl) then db k name at else none) else db k name t

abbrev lasting : Hashes → Text → ℤ → ℕ → Option Hashes
lasting db key (negsuc n) at = none
lasting db key (pos ttl) at = some (kept_for db key ttl at)

some-same : (a b : Hashes) → some a ≡ some b → a ≡ b
some-same a b h = ground arith

-- A server of hashes only.
abbrev hash_redis : Redis
hash_redis = record {
  Data = Hashes;
  get = λ db key at. none;
  set_ex = λ db key value ttl at. none;
  del = λ db key. db;
  hget = λ db key name at. db key name at;
  hset = λ db key name value at. λ k n t.
      if text_eq key k then (if text_eq name n then some value else db k n t) else db k n t;
  hdecr = λ db key name at. λ k n t.
      if text_eq key k
      then (if text_eq name n then decreased (db k n t) else db k n t)
      else db k n t;
  incr = λ db key at. db;
  expire = lasting;
  tonumber = λ text. as_pos (parse_uint max_u64 text);
}

hash_redis-NumberLaws : NumberLaws hash_redis
hash_redis-NumberLaws = record {
  tonumber-show_u64 = λ n h. rw (parse_uint-show_u64 n (omega (arith, h))) refl;
}

decreased_lem : (n : ℕ) → suc n < 2 ^ 63 → decreased (some (show_u64 (suc n))) ≡ some (show_u64 n)
decreased_lem n h = rw (parse_uint-show_u64 (suc n) (omega (arith, h))) (ground arith)

lasting_lem :
    (db db' : Hashes) (key name : Text) (ttl at later : ℕ)
    → lasting db key (pos ttl) at ≡ some db'
    → later < at + 1000 * ttl
    → db' key name later ≡ db key name at
lasting_lem db db' key name ttl at later h q =
    rw (← some-same (kept_for db key ttl at) db' h, text_eq_refl key) (ground (arith, q))

hash_redis-HashLaws : HashLaws hash_redis
hash_redis-HashLaws = record {
  hget-hset = λ db key name value at. rw (text_eq_refl key, text_eq_refl name) refl;
  hget-hset_other =
      λ db key name other value at h. rw (text_eq_refl key, text_eq-false name other h) refl;
  hget-expire = λ db db' key name ttl at later h p q. lasting_lem db db' key name ttl at later h q;
  hget-hdecr = λ db key name n at later word p h e.
      rw (text_eq_refl key, text_eq_refl name, e) (decreased_lem n word);
  hget-hdecr_other = λ db key name other value at later h p e.
      rw (text_eq_refl key, text_eq-false name other h) refl;
}

abbrev session_times : List (ℕ × ℕ)
session_times = (150, 150300) ∷ (200, 200700) ∷ (699, 699100) ∷ []

sale :
    create_session hash_redis test_crypto test_sessions.hmac_key answered
      (λ k n t. none)
      (codes "p")
      none
      2
      600
      100
      100500
      (codes "r")
    ≡ (
      (create_session hash_redis test_crypto test_sessions.hmac_key answered
          (λ k n t. none)
          (codes "p")
          none
          2
          600
          100
          100500
          (codes "r")).0,
      some (
          mint test_crypto test_sessions.hmac_key
            (codes "p")
            (saturating_add 100 600)
            (test_crypto.hex_encode (codes "r"))),
    )
unfolding create_session write_session as_i64
sale = refl

-- Three requests with a session of two.
create_session-create_session_at_example :
    let (store', token) =
      create_session_at test_crypto test_sessions (codes "p") none 2 600 100 (codes "r") in
    (mint test_crypto test_sessions.hmac_key
        (codes "p")
        (saturating_add 100 600)
        (test_crypto.hex_encode (codes "r"))
      ≡ token)
    × (redis_consume_all hash_redis test_crypto test_sessions.hmac_key
          (create_session hash_redis test_crypto test_sessions.hmac_key answered
            (λ k n t. none)
            (codes "p")
            none
            2
            600
            100
            100500
            (codes "r")).0
          token
          none
          session_times
        ≡ consume_all test_crypto store' token none (verifier_times session_times))
create_session-create_session_at_example =
    create_session-create_session_at hash_redis hash_redis-NumberLaws hash_redis-HashLaws
      test_crypto test_crypto-HexLaws (λ k n t. none) _ test_sessions (codes "p") (codes "r") _ none
      2 600 100 100500 session_times p-IsField (omega arith) (omega arith) sale
      (
        omega arith,
        omega arith,
        omega arith,
        (omega arith, omega arith, omega arith, (omega arith, omega arith, omega arith, tt)),
      )
