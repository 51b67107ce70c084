-- ===== src/RateLimit/Redis.antt =====
-- The limiter on Redis: src/ratelimit.rs. Redis is the parameter of the session store's model. The
-- weight of the previous window is an exact fraction here, as in memory; a counter that Lua does
-- not read as a natural number fails the script. `at` is the Redis server's clock.
use sui_x402_verifier.Base.{
  ℕ, pos, negsuc, ◌+◌, ◌-◌, ◌*◌, ◌%◌, false, Option, none, some, ◌++◌, leb, ◌==◌, if◌then◌else◌,
  u64_mod, Text, codes, show_u64, ℤ,
}
use sui_x402_verifier.Session.Redis.{Redis, Link, over, flattened}
use sui_x402_verifier.RateLimit.{Allowance, key_for, remaining_after}
use sui_x402_verifier.RateLimit.Address.{IpAddr}

abbrev natural : Option ℤ → Option ℕ
natural none = none
natural (some (pos n)) = some n
natural (some (negsuc n)) = none

abbrev counter_key : Text → ℕ → Text
counter_key key window_start = codes "x402:rl:" ++ key ++ codes ":" ++ show_u64 window_start

module _ (redis : Redis) where
  -- `tonumber(redis.call('GET', key) or '0')`
  abbrev counter : redis.Data → Text → ℕ → Option ℕ
  counter db key at = elim (redis.get db key at) [
    | none ↦ some 0
    | some text ↦ natural (redis.tonumber text)
  ]

  -- `CHECK_SCRIPT`, once both counters are read: the weight is `carry` over `window_secs`.
  unfoldable pub admit : redis.Data → Text → ℕ → ℕ → ℕ → ℕ → ℕ → ℕ → ℕ → redis.Data × Option (ℕ × ℕ)
  unfolding remaining_after
  admit db key cur prev limit ttl window_secs carry at =
      let est = cur * window_secs + prev * carry in
      let counted = redis.incr db key at in
      if leb (limit * window_secs) est
      then (db, some (0, 0))
      else (elim (redis.expire counted key (pos ttl) at) [
        | none ↦ (counted, none)
        | some db' ↦ (db', some (1, remaining_after limit (est + window_secs) window_secs))
      ])

  -- `CHECK_SCRIPT`; `none` is an error of Lua's.
  unfoldable pub check_script :
      redis.Data → Text → Text → ℕ → ℕ → ℕ → ℕ → ℕ → redis.Data × Option (ℕ × ℕ)
  unfolding admit
  check_script db key previous limit ttl window_secs carry at = elim (counter db key at) [
    | none ↦ (db, none)
    | some cur ↦ elim (counter db previous at) [
      | none ↦ (db, none)
      | some prev ↦ admit db key cur prev limit ttl window_secs carry at
    ]
  ]

  -- The reply as `(i64, u64)`, and the allowance that it means.
  unfoldable pub allowance_of : Option (ℕ × ℕ) → ℕ → ℕ → Allowance
  allowance_of none max_requests reset_secs = record {
    allowed = false;
    remaining = 0;
    limit = max_requests;
    reset_secs = reset_secs;
  }
  allowance_of (some (allowed, remaining)) max_requests reset_secs = record {
    allowed = allowed == 1;
    remaining = (if allowed == 1 then remaining else 0);
    limit = max_requests;
    reset_secs = reset_secs;
  }

  -- `check_at`; `none` is the panic of its assertion.
  unfoldable pub check_at :
      Link → redis.Data → Text → IpAddr → ℕ → ℕ → ℕ → ℕ → Option (redis.Data × Allowance)
  unfolding check_script allowance_of
  check_at link db policy ip max_requests window_secs now at =
      let key = key_for policy ip in
      let window_start = now - now % window_secs in
      let reset_secs = window_secs - (now - window_start) in
      let (db', reply) = over link db (
        check_script db (counter_key key window_start)
          (counter_key key (window_start - window_secs)) max_requests (window_secs * 2 % u64_mod)
          window_secs reset_secs at) in
      if window_secs == 0
      then none
      else some (db', allowance_of (flattened reply) max_requests reset_secs)
