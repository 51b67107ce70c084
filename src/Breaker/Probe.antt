-- ===== src/Breaker/Probe.antt =====
-- Who gets the half-open probe, and what one policy's calls do to another: src/breaker.rs.
use sui_x402_verifier.Base.{
  ℕ, ◌-◌, ◌≡◌, ◌≢◌, ap, sym, subst, ◌<◌, Bool, true, false, none, List, [], ◌∷◌, Text, text_eq,
  text_eq_iff, text_eq_refl, lookup-insert, arith, if◌then◌else◌,
}
use sui_x402_verifier.Breaker.{
  Window, SettlementBreaker, BreakerState, closed, open_state, half_open, window_of, ask, note,
  after_failure, state_at, record_at, cooldown_secs,
}

-- A policy's window after a call.
window_of-state_at :
    (b : SettlementBreaker) (p q : Text) (now : ℕ)
    → window_of (state_at b p now).0 q
      ≡ (if text_eq p q then (ask (window_of b p) now).0 else window_of b q)
unfolding window_of state_at
window_of-state_at b p q now = ground (arith, lookup-insert p q (ask (window_of b p) now).0 b)

window_of-record_at :
    (b : SettlementBreaker) (p q : Text) (failed : Bool) (now : ℕ)
    → window_of (record_at b p failed now) q
      ≡ (if text_eq p q then note (window_of b p) failed now else window_of b q)
unfolding window_of record_at
window_of-record_at b p q failed now =
    ground (arith, lookup-insert p q (note (window_of b p) failed now) b)

-- One policy's breaker is untouched by what happens on another: asking or recording for `p`
-- leaves every answer for `q` as it was.
state_at-isolation :
    (b : SettlementBreaker) (p q : Text) (failed : Bool) (now later : ℕ)
    → p ≢ q
    → ((state_at (state_at b p now).0 q later).1 ≡ (state_at b q later).1)
      × ((state_at (record_at b p failed now) q later).1 ≡ (state_at b q later).1)
unfolding state_at
state_at-isolation b p q failed now later ne =
    ground
      (arith, text_eq_iff p q, window_of-state_at b p q now, window_of-record_at b p q failed now)

-- A probe is out.
abbrev pub IsProbing : Window → Type 0
IsProbing w = (w.probing ≡ true) × (w.opened_at ≢ none)

ask-IsProbing : (w : Window) (now : ℕ) → IsProbing w → (ask w now ≡ (w, open_state))
unfolding ask
ask-IsProbing w now h = ground arith

ask-half_open : (w : Window) (now : ℕ) → (ask w now).1 ≡ half_open → IsProbing (ask w now).0
unfolding ask
ask-half_open w now h = ground arith

-- The answers to a list of questions about one policy, and the breaker after them.
unfoldable pub ask_all : SettlementBreaker → Text → List ℕ → List BreakerState
unfolding state_at
ask_all b p [] = []
ask_all b p (now ∷ nows) = let (b', s) = state_at b p now in s ∷ ask_all b' p nows

-- Every answer refuses payments.
abbrev pub AllRefuse : List BreakerState → Type 0
AllRefuse [] = Unit {0}
AllRefuse (s ∷ ss) = (s ≡ open_state) × AllRefuse ss

ask_all-AllRefuse :
    (b : SettlementBreaker) (p : Text) (nows : List ℕ)
    → IsProbing (window_of b p)
    → AllRefuse (ask_all b p nows)
unfolding ask_all
ask_all-AllRefuse b p [] h = tt
ask_all-AllRefuse b p (now ∷ nows) h = (
  ap (λ r. r.1) out,
  ask_all-AllRefuse (state_at b p now).0 p nows (subst IsProbing (sym same) h),
)
  where
    out : ask (window_of b p) now ≡ (window_of b p, open_state)
    out = ask-IsProbing (window_of b p) now h

    same : window_of (state_at b p now).0 p ≡ window_of b p
    same = ground (arith, window_of-state_at b p p now, text_eq_refl p, out)

-- Once a question has been answered `HalfOpen`, every later question about that policy is answered
-- `Open`, at whatever time, until an outcome is recorded: at most one caller holds the probe, and
-- a probe whose outcome is never recorded refuses the policy's payments for good.
pub half_open-ask_all :
    (b : SettlementBreaker) (p : Text) (now : ℕ) (nows : List ℕ)
    → (state_at b p now).1 ≡ half_open
    → AllRefuse (ask_all (state_at b p now).0 p nows)
unfolding state_at
half_open-ask_all b p now nows h =
    ask_all-AllRefuse (state_at b p now).0 p nows
      (subst IsProbing (sym same) (ask-half_open (window_of b p) now h))
  where
    same : window_of (state_at b p now).0 p ≡ (ask (window_of b p) now).0
    same = ground (arith, window_of-state_at b p p now, text_eq_refl p)

-- A success closes the breaker at once, whatever came before, and until the next failure it stays
-- closed at every time.
record_at_closes :
    (b : SettlementBreaker) (p : Text) (now later : ℕ)
    → (state_at (record_at b p false now) p later).1 ≡ closed
unfolding state_at note ask
record_at_closes b p now later = ground (arith, text_eq_refl p, window_of-record_at b p p false now)

-- A failure on an open breaker, such as that of the probe, keeps payments out for another cooldown.
pub record_at_reopens :
    (b : SettlementBreaker) (p : Text) (now later : ℕ)
    → (window_of b p).opened_at ≢ none
    → later - now < cooldown_secs
    → (state_at (record_at b p true now) p later).1 ≡ open_state
unfolding state_at note ask after_failure
record_at_reopens b p now later o h =
    ground (arith, text_eq_refl p, window_of-record_at b p p true now)
