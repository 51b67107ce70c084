-- ===== src/Tests/Stores.antt =====
-- The replay cache on Redis at work: src/session.rs. The test server keeps each value with the time
-- and the lifetime that it was given, and has plain keys only.
use sui_x402_verifier.Base.{
  ℕ, ℤ, pos, negsuc, ◌+◌, ◌*◌, ◌≡◌, ◌≢◌, ◌<◌, refl, inl, inr, Option, none, some, List, [], ◌∷◌,
  ltb, if◌then◌else◌, Text, codes, text_eq-false, text_eq_refl, Map, lookup, insert, remove,
  lookup-insert, lookup-remove, parse_uint, parse_uint-show_u64, show_u64, max_u64, text_eq, arith,
}
use sui_x402_verifier.Session.{fresh, replay}
use sui_x402_verifier.Session.Redis.{Redis, answered, unsent, unanswered, claim_payment}
use sui_x402_verifier.Session.Redis.Laws.{NumberLaws, KeyLaws, differ_lem}
use sui_x402_verifier.Session.Redis.Claims.{
  Event, claims, releases, apply_all, claim_payment-replayed,
}

abbrev Entry : Type 0
Entry = Text × (ℕ × ℕ)

-- What is left of an entry.
abbrev live : Option Entry → ℕ → Option Text
live none at = none
live (some (value, (since, ttl))) at = if ltb at (since + 1000 * ttl) then some value else none

abbrev set : Map Entry → Text → Text → ℤ → ℕ → Option (Map Entry)
set db key value (pos ttl) at = some (insert key (value, (at, ttl)) db)
set db key value (negsuc n) at = none

abbrev pub as_pos : Option ℕ → Option ℤ
as_pos none = none
as_pos (some n) = some (pos n)

abbrev test_redis : Redis
test_redis = record {
  Data = Map Entry;
  get = λ db key at. live (lookup key db) at;
  set_ex = set;
  del = λ db key. remove key db;
  hget = λ db key name at. none;
  hset = λ db key name value at. db;
  hdecr = λ db key name at. db;
  incr = λ db key at. db;
  expire = λ db key ttl at. some db;
  tonumber = λ text. as_pos (parse_uint max_u64 text);
}

test_redis-NumberLaws : NumberLaws test_redis
test_redis-NumberLaws = record {
  tonumber-show_u64 = λ n h. rw (parse_uint-show_u64 n (omega (arith, h))) refl;
}

some-same : (a b : Map Entry) → some a ≡ some b → a ≡ b
some-same a b h = ground arith

set_lem :
    (db db' : Map Entry) (key value : Text) (ttl at later : ℕ)
    → set db key value (pos ttl) at ≡ some db'
    → later < at + 1000 * ttl
    → live (lookup key db') later ≡ some value
set_lem db db' key value ttl at later h q =
    rw
      (
        ← some-same (insert key (value, (at, ttl)) db) db' h,
        lookup-insert key key (value, (at, ttl)) db,
        text_eq_refl key,
      )
      (ground (arith, q))

set_other_lem :
    (db db' : Map Entry) (key other value : Text) (ttl : ℤ) (at later : ℕ)
    → set db key value ttl at ≡ some db'
    → key ≢ other
    → live (lookup other db') later ≡ live (lookup other db) later
set_other_lem db db' key other value (pos ttl) at later h ne =
    rw
      (
        ← some-same (insert key (value, (at, ttl)) db) db' h,
        lookup-insert key other (value, (at, ttl)) db,
        text_eq-false key other ne,
      )
      refl
set_other_lem db db' key other value (negsuc n) at later h ne = cc

del_other_lem :
    (db : Map Entry) (key other : Text) (later : ℕ)
    → key ≢ other
    → live (lookup other (remove key db)) later ≡ live (lookup other db) later
del_other_lem db key other later ne =
    rw (lookup-remove key other db, text_eq-false key other ne) refl

test_redis-KeyLaws : KeyLaws test_redis
test_redis-KeyLaws = record {
  get-set_ex = λ db db' key value ttl at later h p q. set_lem db db' key value ttl at later h q;
  get-set_ex_other = set_other_lem;
  get-del_other = del_other_lem;
}

-- A claim of another payment for less, with its answer lost, a replay, and a release elsewhere.
abbrev meanwhile : List Event
meanwhile =
    claims (codes "q") 60 100 100000 unanswered
    ∷ claims (codes "p") 60 101 100900 answered
    ∷ releases (codes "q") unsent
    ∷ []

fresh_lem : (claim_payment test_redis answered [] (codes "p") 300 100 100500).1 ≡ fresh
unfolding claim_payment lookup parse_uint show_u64
fresh_lem = refl

other_lem : codes "q" ≢ codes "p"
unfolding text_eq
other_lem = differ_lem (codes "q") (codes "p") refl

claim_payment-replayed_example :
    (claim_payment test_redis answered
      (apply_all test_redis
        (claim_payment test_redis answered [] (codes "p") 300 100 100500).0
        meanwhile)
      (codes "p")
      300
      400
      400200).1
    ≡ replay 100
claim_payment-replayed_example =
    claim_payment-replayed test_redis test_redis-NumberLaws test_redis-KeyLaws [] (codes "p") 300
      100 100500 meanwhile 300 400 400200 (omega arith) (omega arith) fresh_lem
      (inl other_lem, (inr (omega arith, omega arith), (other_lem, tt))) (omega arith) (omega arith)
