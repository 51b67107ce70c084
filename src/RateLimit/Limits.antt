-- ===== src/RateLimit/Limits.antt =====
-- The free tier over runs of requests: src/ratelimit.rs.
use native.Mathlib.Nat.{mod-lt, div-add-mod}
use native.Mathlib.Decide.{dec_lt}
use sui_x402_verifier.Base.{
  ℕ, suc, max, ◌+◌, ◌-◌, ◌*◌, ◌/◌, ◌%◌, ◌≤◌, ◌<◌, ◌≡◌, refl, ap, ◌∙◌, ◌⊎◌, true, false, Option,
  none, some, List, [], ◌∷◌, ◌==◌, if◌then◌else◌, wrapping_sub, Text, lookup, insert,
  lookup-insert_self, arith, inl, inr, All,
}
use sui_x402_verifier.RateLimit.Address.{IpAddr}
use sui_x402_verifier.RateLimit.{
  Allowance, Window, MemoryRateLimiter, roll, judge, hit, entry_of, key_for, check_at, estimate,
}
use sui_x402_verifier.RateLimit.Metering.{rolled, roll-start, hit_lem}

-- The request falls in the window that starts at `start`.
abbrev pub IsIn : ℕ → ℕ → ℕ → Type 0
IsIn start window_secs now = now - now % window_secs ≡ start

-- How many of a key's requests are admitted, one after the other.
unfoldable pub hits_admitted : Window → ℕ → ℕ → List ℕ → ℕ
hits_admitted w m ws [] = 0
hits_admitted w m ws (now ∷ nows) =
    (if (hit w m ws now).1.allowed then 1 else 0) + hits_admitted (hit w m ws now).0 m ws nows

rolled_again :
    (w : Window) (ws now : ℕ)
    → w.start ≡ now - now % ws
    → ((rolled w ws now).current ≡ w.current) × ((rolled w ws now).start ≡ w.start)
unfolding roll
rolled_again w ws now h = ground arith

hit-start :
    (w : Window) (m ws now : ℕ)
    → 0 < ws
    → w.start ≤ now - now % ws
    → (hit w m ws now).0.start ≡ now - now % ws
hit-start w m ws now p h = ground (arith, hit_lem w m ws now p, roll-start w ws now h)

hits_admitted-le :
    (w : Window) (m ws start now : ℕ) (nows : List ℕ)
    → 0 < ws
    → w.start ≤ start
    → IsIn start ws now
    → All (IsIn start ws) nows
    → hits_admitted w m ws (now ∷ nows) + (rolled w ws now).current
      ≤ max (rolled w ws now).current m
unfolding hits_admitted
hits_admitted-le w m ws start now [] p h i is = ground (arith, hit_lem w m ws now p)
hits_admitted-le w m ws start now (next ∷ nows) p h i (j, js) =
    let began : (hit w m ws now).0.start ≡ now - now % ws = hit-start w m ws now p (omega arith) in
    ground (
      arith,
      hit_lem w m ws now p,
      hits_admitted-le (hit w m ws now).0 m ws start next nows p (omega arith) j js,
      rolled_again (hit w m ws now).0 ws next (omega arith),
    )

-- Counts an admitted request, and goes on with the limiter that it leaves.
abbrev tally : Option (MemoryRateLimiter × Allowance) → (MemoryRateLimiter → ℕ) → ℕ
tally none rest = 0
tally (some (l, a)) rest = (if a.allowed then 1 else 0) + rest l

-- The number of requests of one client under one policy that are admitted, one after the other.
unfoldable pub admitted : MemoryRateLimiter → Text → IpAddr → ℕ → ℕ → List ℕ → ℕ
admitted l policy ip m ws [] = 0
admitted l policy ip m ws (now ∷ nows) =
    tally (check_at l policy ip m ws now) (λ l'. admitted l' policy ip m ws nows)

entry_of-insert :
    (l : MemoryRateLimiter) (key : Text) (w : Window) (start ws : ℕ)
    → entry_of (insert key w l) key start ws ≡ w
unfolding entry_of
entry_of-insert l key w start ws = rw (lookup-insert_self key w l, entry_of) refl

check_at_lem :
    (l : MemoryRateLimiter) (policy : Text) (ip : IpAddr) (m ws start now : ℕ)
    → 0 < ws
    → IsIn start ws now
    → let h = hit (entry_of l (key_for policy ip) start ws) m ws now in
      check_at l policy ip m ws now ≡ some (insert (key_for policy ip) h.0 l, h.1)
unfolding check_at
check_at_lem l policy ip m ws start now p i =
    let positive : (ws == 0) ≡ false = ground arith in rw (positive, i) refl

admitted-hits :
    (l : MemoryRateLimiter) (policy : Text) (ip : IpAddr) (m ws start : ℕ) (nows : List ℕ)
    → 0 < ws
    → All (IsIn start ws) nows
    → admitted l policy ip m ws nows
      ≡ hits_admitted (entry_of l (key_for policy ip) start ws) m ws nows
unfolding admitted hits_admitted
admitted-hits l policy ip m ws start [] p is = refl
admitted-hits l policy ip m ws start (now ∷ nows) p (i, is) =
    ap (λ r. tally r (λ l'. admitted l' policy ip m ws nows))
      (check_at_lem l policy ip m ws start now p i)
    ∙ ap (λ n. (if h.1.allowed then 1 else 0) + n)
        (admitted-hits (insert (key_for policy ip) h.0 l) policy ip m ws start nows p is
          ∙ ap (λ w. hits_admitted w m ws nows)
              (entry_of-insert l (key_for policy ip) h.0 start ws))
  where
    h : Window × Allowance
    h = hit (entry_of l (key_for policy ip) start ws) m ws now

hits_admitted-le_max :
    (w : Window) (m ws start : ℕ) (nows : List ℕ)
    → 0 < ws
    → w.start ≤ start
    → All (IsIn start ws) nows
    → hits_admitted w m ws nows ≤ m
hits_admitted-le_max w m ws start [] p h is = unfold hits_admitted in omega arith
hits_admitted-le_max w m ws start (now ∷ nows) p h (i, is) =
    omega (arith, hits_admitted-le w m ws start now nows p h i is)

-- In one window of the clock no client gets more than `max_requests` free requests under one
-- policy, however many it makes and whatever was counted before, provided that the clock has not
-- gone back behind the window that the client's counter is in.
pub admitted-le :
    (l : MemoryRateLimiter) (policy : Text) (ip : IpAddr) (m ws start : ℕ) (nows : List ℕ)
    → 0 < ws
    → (entry_of l (key_for policy ip) start ws).start ≤ start
    → All (IsIn start ws) nows
    → admitted l policy ip m ws nows ≤ m
admitted-le l policy ip m ws start nows p h is =
    rw (admitted-hits l policy ip m ws start nows p is)
      (hits_admitted-le_max (entry_of l (key_for policy ip) start ws) m ws start nows p h is)

times_pos : (a b : ℕ) → 0 < a → 0 < b → 0 < a * b
times_pos a b h k = grind arith

hit-recovers :
    (w : Window) (m ws now : ℕ)
    → 0 < ws
    → 0 < m
    → w.start + 2 * ws ≤ now - now % ws
    → (hit w m ws now).1.allowed ≡ true
unfolding hit judge roll estimate
hit-recovers w m ws now p q h = ground (arith, times_pos m ws q p)

-- Two windows of silence clear the history: the next request is admitted if any is allowed at all.
pub check_at-recovers :
    (l : MemoryRateLimiter) (policy : Text) (ip : IpAddr) (m ws now : ℕ) {w : Window}
    → 0 < ws
    → 0 < m
    → lookup (key_for policy ip) l ≡ some w
    → w.start + 2 * ws ≤ now - now % ws
    → (r : MemoryRateLimiter × Allowance) × (check_at l policy ip m ws now ≡ some r)
      × (r.1.allowed ≡ true)
unfolding entry_of
check_at-recovers l policy ip m ws now {w} p q e h = (
  (insert (key_for policy ip) (hit w m ws now).0 l, (hit w m ws now).1),
  check_at_lem l policy ip m ws (now - now % ws) now p refl ∙ rw (e, entry_of) refl,
  hit-recovers w m ws now p q h,
)

mul_mono : (w i j : ℕ) → i ≤ j → w * i ≤ w * j
mul_mono w i j h = grind arith

multiples : (ws i j : ℕ) → ws * i ≤ ws * j → (ws * i ≡ ws * j) ⊎ (ws * i + ws ≤ ws * j)
multiples ws i j h = elim (dec_lt i j) [
  | yes lt ↦ inr (omega (arith, mul_mono ws (suc i) j lt))
  | no ge ↦ inl (omega (arith, mul_mono ws j i (omega arith)))
]

-- Two starts of windows are equal, or a window apart at least.
apart : (ws x y : ℕ) → 0 < ws → x % ws ≡ 0 → y % ws ≡ 0 → x ≤ y → (x ≡ y) ⊎ (x + ws ≤ y)
apart ws x y p hx hy le = omega (
  arith,
  div-add-mod x ws,
  div-add-mod y ws,
  multiples ws (x / ws) (y / ws) (omega (arith, div-add-mod x ws, div-add-mod y ws)),
)

window_aligned : (ws now : ℕ) → 0 < ws → (now - now % ws) % ws ≡ 0
window_aligned ws now p = grind arith

starts_mono : (ws now later : ℕ) → 0 < ws → now ≤ later → now - now % ws ≤ later - later % ws
starts_mono ws now later p le = elim (dec_lt (later - later % ws) (now - now % ws)) [
  | no ge ↦ omega arith
  | yes lt ↦ absurd (
      omega (
        arith,
        apart ws (later - later % ws) (now - now % ws) p (window_aligned ws later p)
            (window_aligned ws now p) (omega arith),
        mod-lt later {m = ws} p,
      ))
]

roll_twice :
    (w : Window) (ws a b : ℕ)
    → 0 < ws
    → (w.start ≡ a) ⊎ (w.start + ws ≤ a)
    → (a ≡ b) ⊎ (a + ws ≤ b)
    → roll (record (roll (record w { window_secs = ws }) a ws) { window_secs = ws }) b ws
      ≡ roll (record w { window_secs = ws }) b ws
unfolding roll
roll_twice w ws a b p h k = ground arith

-- A client that is refused loses nothing by asking: whatever it is told later, it would have been
-- told without the refused request, on an entry that stands at a window of this length.
pub hit-refused :
    (w : Window) (m ws now later : ℕ)
    → 0 < ws
    → w.start % ws ≡ 0
    → w.start ≤ now - now % ws
    → now ≤ later
    → (hit w m ws now).1.allowed ≡ false
    → hit (hit w m ws now).0 m ws later ≡ hit w m ws later
unfolding hit
hit-refused w m ws now later p a s le h =
    ap (λ e. judge e m ws (wrapping_sub ws (wrapping_sub later e.start)))
      (ap (λ x. rolled x ws later) kept ∙ twice)
  where
    kept : (hit w m ws now).0 ≡ rolled w ws now
    kept = ground (arith, hit_lem w m ws now p)

    twice : rolled (rolled w ws now) ws later ≡ rolled w ws later
    twice =
        roll_twice w ws (now - now % ws) (later - later % ws) p
          (apart ws w.start (now - now % ws) p a (window_aligned ws now p) s)
          (apart ws (now - now % ws) (later - later % ws) p (window_aligned ws now p)
            (window_aligned ws later p) (starts_mono ws now later p le))
