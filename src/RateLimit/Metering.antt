-- ===== src/RateLimit/Metering.antt =====
-- What the sliding window admits: src/ratelimit.rs.
use native.Mathlib.Nat.{mod-lt}
use native.Mathlib.Decide.{dec_lt}
use sui_x402_verifier.Base.{
  ℕ, ◌+◌, ◌-◌, ◌*◌, ◌/◌, ◌%◌, ◌≤◌, ◌<◌, ◌≡◌, refl, ◌⊎◌, true, false, leb, wrapping_sub, u64_mod,
  arith, inl, inr, Bool-cases,
}
use sui_x402_verifier.RateLimit.{Window, roll, judge, hit}

-- The entry that a request at `now` is judged by.
abbrev pub rolled : Window → ℕ → ℕ → Window
rolled w window_secs now =
    roll (record w { window_secs = window_secs }) (now - now % window_secs) window_secs

-- What is left of the window, where the clock has not gone back behind its start.
carry-lem :
    (start window_secs now : ℕ)
    → start ≤ now
    → now < start + window_secs
    → now < u64_mod
    → window_secs < u64_mod
    → wrapping_sub window_secs (wrapping_sub now start) ≡ start + window_secs - now
carry-lem start window_secs now h k b c = omega arith

pub roll-start :
    (w : Window) (window_secs now : ℕ)
    → w.start ≤ now - now % window_secs
    → (rolled w window_secs now).start ≡ now - now % window_secs
unfolding roll
roll-start w window_secs now h = ground arith

window_bounds :
    (window_secs now : ℕ)
    → 0 < window_secs
    → (now - now % window_secs ≤ now) × (now < now - now % window_secs + window_secs)
window_bounds window_secs now p = grind (arith, mod-lt)

hit-reset :
    (w : Window) (max_requests window_secs now : ℕ)
    → (hit w max_requests window_secs now).1.reset_secs
      ≡ wrapping_sub window_secs (wrapping_sub now (rolled w window_secs now).start)
unfolding hit judge
hit-reset w max_requests window_secs now = ground arith

-- A reported reset lies in the window: between one second and the window's length.
hit-reset_bounds :
    (w : Window) (max_requests window_secs now : ℕ)
    → 0 < window_secs
    → window_secs < u64_mod
    → now < u64_mod
    → w.start ≤ now - now % window_secs
    → (1 ≤ (hit w max_requests window_secs now).1.reset_secs)
      × ((hit w max_requests window_secs now).1.reset_secs ≤ window_secs)
hit-reset_bounds w max_requests window_secs now p q b h =
    let bounds = window_bounds window_secs now p in
    rw (hit-reset w max_requests window_secs now, roll-start w window_secs now h)
      (omega (arith, carry-lem (now - now % window_secs) window_secs now bounds.0 bounds.1 b q))

times_lt : (a b w x : ℕ) → a * w + x < b * w → a < b
times_lt a b w x h = elim (dec_lt a b) [ yes lt ↦ lt | no ge ↦ absurd (grind arith) ]

div_pos : (n d : ℕ) → 0 < d → 1 ≤ (n + d + (d - 1)) / d
div_pos n d h = grind arith

judge_lem :
    (entry : Window) (max_requests window_secs carry : ℕ)
    → 0 < window_secs
    → let (after, allowance) = judge entry max_requests window_secs carry in
      ((allowance.allowed ≡ true)
        × (entry.current < max_requests)
        × (allowance.remaining < max_requests)
        × (after ≡ record entry { current = entry.current + 1 }))
      ⊎ ((allowance.allowed ≡ false) × (allowance.remaining ≡ 0) × (after ≡ entry))
unfolding judge
judge_lem entry max_requests window_secs carry p =
    elim (Bool-cases
      (leb (max_requests * window_secs) (entry.current * window_secs + entry.previous * carry))) [
        | inl full ↦ inr (rw full refl, rw full refl, rw full refl)
        | inr room ↦
            let lt : entry.current < max_requests =
              times_lt entry.current max_requests window_secs (entry.previous * carry)
                (ground arith) in
            inl (
              rw room refl,
              lt,
              rw room (
                  omega (
                    arith,
                    lt,
                    div_pos (entry.current * window_secs + entry.previous * carry) window_secs p,
                  )),
              rw room refl,
            )
      ]

-- What a request does: admitted, it is counted once, and there was room for it; refused, nothing
-- is counted and nothing is left.
pub hit_lem :
    (w : Window) (max_requests window_secs now : ℕ)
    → 0 < window_secs
    → let entry = rolled w window_secs now in
      let (after, allowance) = hit w max_requests window_secs now in
      ((allowance.allowed ≡ true)
        × (entry.current < max_requests)
        × (allowance.remaining < max_requests)
        × (after ≡ record entry { current = entry.current + 1 }))
      ⊎ ((allowance.allowed ≡ false) × (allowance.remaining ≡ 0) × (after ≡ entry))
unfolding hit
hit_lem w max_requests window_secs now p =
    judge_lem (rolled w window_secs now) max_requests window_secs _ p
