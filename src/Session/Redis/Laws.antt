-- ===== src/Session/Redis/Laws.antt =====
-- What the store of src/session.rs relies on of Redis and of Lua's numbers. A key with a lifetime
-- is read until the lifetime is over by the server's own clock; what it reads as at the last
-- millisecond is left open.
use sui_x402_verifier.Base.{
  ℕ, ℤ, pos, suc, ◌+◌, ◌*◌, ◌^◌, ◌<◌, ◌≤◌, ◌≡◌, ◌≢◌, ap, false, some, [], ◌∷◌, ◌++◌, Text, codes,
  text_eq, text_eq_iff, show_u64, arith,
}
use sui_x402_verifier.Session.Redis.{Redis, replay_key}

-- Lua's `tonumber` on what a double holds exactly.
pub record NumberLaws (redis : Redis) : Type 0 where
  pub tonumber-show_u64 : (n : ℕ) → n < 2 ^ 53 → redis.tonumber (show_u64 n) ≡ some (pos n)

-- `GET`, `SET key value EX seconds` when it is carried out, and `DEL`.
pub record KeyLaws (redis : Redis) : Type 0 where
  pub get-set_ex :
      (db db' : redis.Data) (key value : Text) (ttl at later : ℕ)
      → redis.set_ex db key value (pos ttl) at ≡ some db'
      → at ≤ later
      → later < at + 1000 * ttl
      → redis.get db' key later ≡ some value
  pub get-set_ex_other :
      (db db' : redis.Data) (key other value : Text) (ttl : ℤ) (at later : ℕ)
      → redis.set_ex db key value ttl at ≡ some db'
      → key ≢ other
      → redis.get db' other later ≡ redis.get db other later
  pub get-del_other :
      (db : redis.Data) (key other : Text) (later : ℕ)
      → key ≢ other
      → redis.get (redis.del db key) other later ≡ redis.get db other later

-- `HGET`, `HSET`, `HINCRBY key field -1` and `EXPIRE` when it is carried out. `HINCRBY` leaves the
-- lifetime of its key as it is.
pub record HashLaws (redis : Redis) : Type 0 where
  pub hget-hset :
      (db : redis.Data) (key name value : Text) (at : ℕ)
      → redis.hget (redis.hset db key name value at) key name at ≡ some value
  pub hget-hset_other :
      (db : redis.Data) (key name other value : Text) (at : ℕ)
      → name ≢ other
      → redis.hget (redis.hset db key name value at) key other at ≡ redis.hget db key other at
  pub hget-expire :
      (db db' : redis.Data) (key name : Text) (ttl at later : ℕ)
      → redis.expire db key (pos ttl) at ≡ some db'
      → at ≤ later
      → later < at + 1000 * ttl
      → redis.hget db' key name later ≡ redis.hget db key name at
  pub hget-hdecr :
      (db : redis.Data) (key name : Text) (n at later : ℕ)
      → suc n < 2 ^ 63
      → at ≤ later
      → redis.hget db key name at ≡ some (show_u64 (suc n))
      → redis.hget db key name later ≡ some (show_u64 (suc n))
      → redis.hget (redis.hdecr db key name at) key name later ≡ some (show_u64 n)
  pub hget-hdecr_other :
      (db : redis.Data) (key name other value : Text) (at later : ℕ)
      → name ≢ other
      → at ≤ later
      → redis.hget db key name at ≡ some value
      → redis.hget (redis.hdecr db key name at) key other later ≡ redis.hget db key other later

append-cancel : (p s t : Text) → p ++ s ≡ p ++ t → s ≡ t
append-cancel [] s t h = h
append-cancel (c ∷ p) s t h = append-cancel p s t (ap tail h)
  where
    tail : Text → Text
    tail [] = []
    tail (c ∷ s) = s

pub replay_key-ne : (id other : Text) → id ≢ other → replay_key id ≢ replay_key other
replay_key-ne id other h e = h (append-cancel (codes "x402:seen:") id other e)

pub differ_lem : (s t : Text) → text_eq s t ≡ false → s ≢ t
differ_lem s t h e = ground (arith, text_eq_iff s t)
