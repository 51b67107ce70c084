-- ===== src/Breaker.antt =====
-- The settlement circuit breaker: src/breaker.rs.
pub mod Invariant
pub mod Refinement
pub mod Probe
use sui_x402_verifier.Base.{
  ℕ, ◌+◌, ◌-◌, ◌*◌, Bool, true, false, not, ◌&&◌, Option, none, some, List, [], ◌∷◌, ◌++◌, length,
  ltb, leb, if◌then◌else◌, Text, codes, Map, lookup, insert,
}

-- Outcomes remembered per policy.
abbrev pub window_size : ℕ
window_size = 20

-- Outcomes before the breaker may trip.
abbrev pub min_samples : ℕ
min_samples = 5

-- Seconds that the breaker stays open before it lets a probe through.
abbrev pub cooldown_secs : ℕ
cooldown_secs = 30

pub data BreakerState : Type 0 where
  closed open_state half_open : BreakerState

abbrev pub accepts_payment : BreakerState → Bool
accepts_payment closed = true
accepts_payment open_state = false
accepts_payment half_open = true

unfoldable pub as_str : BreakerState → Text
as_str closed = codes "closed"
as_str open_state = codes "open"
as_str half_open = codes "half_open"

pub record Window : Type 0 where
  pub outcomes : List Bool
  pub opened_at : Option ℕ
  pub probing : Bool

abbrev pub new_window : Window
new_window = record { outcomes = []; opened_at = none; probing = false }

abbrev pub SettlementBreaker : Type 0
SettlementBreaker = Map Window

abbrev pub new : SettlementBreaker
new = []

-- `entry(policy).or_default()`
unfoldable pub window_of : SettlementBreaker → Text → Window
window_of b policy = elim (lookup policy b) [ none ↦ new_window | some w ↦ w ]

-- The body of `state_at`, on the policy's window.
unfoldable pub ask : Window → ℕ → Window × BreakerState
ask w now = elim w.opened_at [
  | none ↦ (w, closed)
  | some opened_at ↦
      if ltb (now - opened_at) cooldown_secs
      then (w, open_state)
      else if w.probing
      then (w, open_state)
      else (record w { probing = true }, half_open)
]

unfoldable pub state_at : SettlementBreaker → Text → ℕ → SettlementBreaker × BreakerState
unfolding window_of ask
state_at b policy now = let (w, s) = ask (window_of b policy) now in (insert policy w b, s)

-- `while outcomes.len() > WINDOW { outcomes.pop_front(); }`
unfoldable pub bound : List Bool → List Bool
bound [] = []
bound (o ∷ os) = let rest = bound os in if ltb window_size (length (o ∷ os)) then rest else o ∷ os

-- `outcomes.iter().filter(|f| **f).count()`
unfoldable pub count_failures : List Bool → ℕ
count_failures [] = 0
count_failures (o ∷ os) = (if o then 1 else 0) + count_failures os

-- `failures as f64 / total as f64 >= 0.5`, exact for counts this small.
abbrev trips : List Bool → Bool
trips os = leb min_samples (length os) && leb (length os) (2 * count_failures os)

-- The body of `record_at` on a failure, once its outcome is pushed.
unfoldable pub after_failure : Window → ℕ → Window
after_failure w now = elim w.opened_at [
  | some _ ↦ record w { opened_at = some now }
  | none ↦ if trips w.outcomes then record w { opened_at = some now } else w
]

-- A failure's own outcome, pushed and bounded; the probe is over.
abbrev pub pushed : Window → Window
pushed w = record w { outcomes = bound (w.outcomes ++ true ∷ []); probing = false }

unfoldable pub note : Window → Bool → ℕ → Window
unfolding bound after_failure
note w failed now =
    if not failed
    then record { outcomes = []; opened_at = none; probing = false }
    else after_failure (pushed w) now

unfoldable pub record_at : SettlementBreaker → Text → Bool → ℕ → SettlementBreaker
unfolding window_of note
record_at b policy failed now = insert policy (note (window_of b policy) failed now) b

-- A call on one policy, with the clock's reading.
pub data Call : Type 0 where
  asks : ℕ → Call
  records : Bool → ℕ → Call

unfoldable pub step : Window → Call → Window
unfolding ask note
step w (asks now) = (ask w now).0
step w (records failed now) = note w failed now

unfoldable pub run : Window → List Call → Window
unfolding step
run w [] = w
run w (c ∷ cs) = run (step w c) cs
