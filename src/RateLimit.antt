-- ===== src/RateLimit.antt =====
-- Free-tier rate limiting: src/ratelimit.rs. `f64` weights are exact fractions over the window
-- length here: the counts of a window are far below 2^53, and rounding is left out.
pub mod Address
pub mod Metering
pub mod Limits
pub mod Redis
use sui_x402_verifier.Base.{
  ℕ, ◌+◌, ◌-◌, ◌*◌, ◌/◌, ◌%◌, Bool, true, false, Option, none, some, List, [], ◌∷◌, ◌++◌, length,
  ltb, leb, ◌==◌, if◌then◌else◌, wrapping_sub, u64_mod, Text, Map, lookup, insert, retain,
}
use Address.{IpAddr, bucket, show_ip}

-- What the free tier had left after considering one request.
pub record Allowance : Type 0 where
  pub allowed : Bool
  pub remaining : ℕ
  pub limit : ℕ
  pub reset_secs : ℕ

pub record Window : Type 0 where
  pub start : ℕ
  pub current : ℕ
  pub previous : ℕ
  pub window_secs : ℕ

-- `format!("{policy}|{}", bucket(ip))`
unfoldable pub key_for : Text → IpAddr → Text
key_for policy ip = policy ++ b'|' ∷ show_ip (bucket ip)

-- `remaining_after(limit, estimated)`, with the estimate given as a numerator over `window_secs`.
unfoldable pub remaining_after : ℕ → ℕ → ℕ → ℕ
remaining_after limit estimated window_secs = limit - (estimated + (window_secs - 1)) / window_secs

-- The entry moved on to the window that starts at `window_start`.
unfoldable pub roll : Window → ℕ → ℕ → Window
roll entry window_start window_secs =
    if ltb entry.start window_start
    then record {
      start = window_start;
      current = 0;
      previous = (if window_start - entry.start == window_secs then entry.current else 0);
      window_secs = entry.window_secs;
    }
    else entry

-- The estimate, times `window_secs`.
unfoldable pub estimate : Window → ℕ → ℕ → ℕ
estimate entry window_secs carry = entry.current * window_secs + entry.previous * carry

-- The decision on an entry that has been rolled; `carry` is what is left of its window.
unfoldable pub judge : Window → ℕ → ℕ → ℕ → Window × Allowance
unfolding estimate remaining_after
judge entry max_requests window_secs carry =
    let estimated = estimate entry window_secs carry in
    if leb (max_requests * window_secs) estimated
    then (
      entry,
      record { allowed = false; remaining = 0; limit = max_requests; reset_secs = carry },
    )
    else (
      record entry { current = entry.current + 1 },
      record {
        allowed = true;
        remaining = remaining_after max_requests (estimated + window_secs) window_secs;
        limit = max_requests;
        reset_secs = carry;
      },
    )

-- The body of `check_at` on the key's entry. Subtraction wraps, as in a release build.
unfoldable pub hit : Window → ℕ → ℕ → ℕ → Window × Allowance
hit stored max_requests window_secs now =
    let entry =
      roll (record stored { window_secs = window_secs }) (now - now % window_secs) window_secs in
    judge entry max_requests window_secs (wrapping_sub window_secs (wrapping_sub now entry.start))

abbrev pub MemoryRateLimiter : Type 0
MemoryRateLimiter = Map Window

-- `entry(key).or_insert(..)`
unfoldable pub entry_of : MemoryRateLimiter → Text → ℕ → ℕ → Window
entry_of limiter key window_start window_secs = elim (lookup key limiter) [
  | none ↦ record { start = window_start; current = 0; previous = 0; window_secs = window_secs }
  | some w ↦ w
]

-- `check_at`; `none` is the panic of its assertion.
unfoldable pub check_at :
    MemoryRateLimiter → Text → IpAddr → ℕ → ℕ → ℕ → Option (MemoryRateLimiter × Allowance)
check_at limiter policy ip max_requests window_secs now =
    let key = key_for policy ip in
    let stored = entry_of limiter key (now - now % window_secs) window_secs in
    let (entry, allowance) = hit stored max_requests window_secs now in
    if window_secs == 0 then none else some (insert key entry limiter, allowance)

-- `cleanup_idle_at`, with the number of keys that it dropped.
unfoldable pub cleanup_idle_at : MemoryRateLimiter → ℕ → MemoryRateLimiter × ℕ
cleanup_idle_at limiter now =
    let live = retain (λ (w : Window). leb (now - w.window_secs * 2 % u64_mod) w.start) limiter in
    (live, length limiter - length live)
