-- ===== src/Breaker/Refinement.antt =====
-- The breaker against a specification by streaks of failures: src/breaker.rs.
use sui_x402_verifier.Base.{
  ℕ, suc, min, ◌-◌, ◌≡◌, refl, ap, ap₂, Bool, true, false, ◌||◌, none, some, List, [], ◌∷◌, length,
  All, ltb, if◌then◌else◌, arith,
}
use sui_x402_verifier.Breaker.{
  Window, new_window, BreakerState, closed, open_state, half_open, Call, asks, records, ask,
  after_failure, pushed, step, run, window_size, min_samples, cooldown_secs,
}
use sui_x402_verifier.Breaker.Invariant.{
  IsValid, new-IsValid, step-IsValid, count_failures-length, pushed-failures, length-pushed,
}

-- What the breaker is meant to remember: the failures since the last success, when the last one
-- was, and whether a probe is out.
pub record Health : Type 0 where
  pub streak : ℕ
  pub last : ℕ
  pub probe : Bool

abbrev pub healthy : Health
healthy = record { streak = 0; last = 0; probe = false }

unfoldable pub spec_answer : Health → ℕ → BreakerState
spec_answer h now =
    if ltb h.streak min_samples
    then closed
    else if ltb (now - h.last) cooldown_secs || h.probe
    then open_state
    else half_open

abbrev starts_probe : BreakerState → Bool → Bool
starts_probe half_open p = true
starts_probe closed p = p
starts_probe open_state p = p

unfoldable pub spec_step : Health → Call → Health
unfolding spec_answer
spec_step h (asks now) = record h { probe = starts_probe (spec_answer h now) h.probe }
spec_step h (records false now) = record { streak = 0; last = h.last; probe = false }
spec_step h (records true now) = record { streak = suc h.streak; last = now; probe = false }

unfoldable pub spec_run : Health → List Call → Health
unfolding spec_step
spec_run h [] = h
spec_run h (c ∷ cs) = spec_run (spec_step h c) cs

-- The answers that the calls get, in order.
unfoldable pub answers : Window → List Call → List BreakerState
unfolding step ask
answers w [] = []
answers w (asks now ∷ cs) = (ask w now).1 ∷ answers (step w (asks now)) cs
answers w (records f now ∷ cs) = answers (step w (records f now)) cs

unfoldable pub spec_answers : Health → List Call → List BreakerState
unfolding spec_step
spec_answers h [] = []
spec_answers h (asks now ∷ cs) = spec_answer h now ∷ spec_answers (spec_step h (asks now)) cs
spec_answers h (records f now ∷ cs) = spec_answers (spec_step h (records f now)) cs

-- A window stands for a health.
pub record Abstracts (w : Window) (h : Health) : Type 0 where
  pub valid : IsValid w
  pub size : length w.outcomes ≡ min h.streak window_size
  pub opened : w.opened_at ≡ (if ltb h.streak min_samples then none else some h.last)
  pub probe : w.probing ≡ h.probe

new-Abstracts : Abstracts new_window healthy
new-Abstracts = record { valid = new-IsValid; size = omega arith; opened = refl; probe = refl }

ask-answer : (w : Window) (h : Health) (now : ℕ) → Abstracts w h → (ask w now).1 ≡ spec_answer h now
unfolding ask spec_answer
ask-answer w h now a = ground arith

ask-Abstracts :
    (w : Window) (h : Health) (now : ℕ)
    → Abstracts w h
    → Abstracts (step w (asks now)) (spec_step h (asks now))
unfolding step spec_step
ask-Abstracts w h now a = record {
  valid = step-IsValid w (asks now) a.valid;
  size = ground arith;
  opened = ground arith;
  probe = ground arith;
}

failure-opened :
    (w : Window) (h : Health) (now : ℕ)
    → All (λ o. o ≡ true) w.outcomes
    → length w.outcomes ≡ min (suc h.streak) window_size
    → w.opened_at ≡ (if ltb h.streak min_samples then none else some h.last)
    → (after_failure w now).opened_at ≡ (if ltb (suc h.streak) min_samples then none else some now)
unfolding after_failure
failure-opened w h now f l o = ground (arith, count_failures-length w.outcomes f)

after_failure-rest :
    (w : Window) (now : ℕ)
    → ((after_failure w now).outcomes ≡ w.outcomes) × ((after_failure w now).probing ≡ w.probing)
unfolding after_failure
after_failure-rest w now = ground arith

failure-Abstracts :
    (w : Window) (h : Health) (now : ℕ)
    → Abstracts w h
    → Abstracts (step w (records true now)) (spec_step h (records true now))
unfolding step spec_step
failure-Abstracts w h now a = record {
  valid = step-IsValid w (records true now) a.valid;
  size =
      omega
        (arith, ap length (after_failure-rest (pushed w) now).0, length-pushed w a.valid, a.size);
  opened =
      failure-opened (pushed w) h now (pushed-failures w a.valid)
        (omega (arith, length-pushed w a.valid, a.size)) a.opened;
  probe = (after_failure-rest (pushed w) now).1;
}

step-Abstracts :
    (w : Window) (h : Health) (c : Call) → Abstracts w h → Abstracts (step w c) (spec_step h c)
unfolding step spec_step
step-Abstracts w h (asks now) a = ask-Abstracts w h now a
step-Abstracts w h (records true now) a = failure-Abstracts w h now a
step-Abstracts w h (records false now) a = record {
  valid = new-IsValid;
  size = omega arith;
  opened = refl;
  probe = refl;
}

answers-spec_answers :
    (w : Window) (h : Health) (cs : List Call) → Abstracts w h → answers w cs ≡ spec_answers h cs
unfolding answers spec_answers
answers-spec_answers w h [] a = refl
answers-spec_answers w h (asks now ∷ cs) a = ap₂ ◌∷◌ (ask-answer w h now a) (
    answers-spec_answers (step w (asks now)) (spec_step h (asks now)) cs
      (step-Abstracts w h (asks now) a))
answers-spec_answers w h (records f now ∷ cs) a =
    answers-spec_answers (step w (records f now)) (spec_step h (records f now)) cs
      (step-Abstracts w h (records f now) a)

-- On every history of calls the breaker gives the answers of its specification: closed up to four
-- failures in a row, open for 30 seconds after the last failure and while a probe is out, and
-- otherwise half open.
pub answers_lem : (cs : List Call) → answers new_window cs ≡ spec_answers healthy cs
answers_lem cs = answers-spec_answers new_window healthy cs new-Abstracts

run-Abstracts :
    (w : Window) (h : Health) (cs : List Call)
    → Abstracts w h
    → Abstracts (run w cs) (spec_run h cs)
unfolding run spec_run
run-Abstracts w h [] a = a
run-Abstracts w h (c ∷ cs) a = run-Abstracts (step w c) (spec_step h c) cs (step-Abstracts w h c a)

-- After any history of calls the breaker is open exactly if the last five settlements or more
-- failed, and then it counts its cooldown from the last failure.
pub run-opened_at :
    (cs : List Call)
    → (run new_window cs).opened_at ≡ (
        if ltb (spec_run healthy cs).streak min_samples
        then none
        else some (spec_run healthy cs).last)
run-opened_at cs = (run-Abstracts new_window healthy cs new-Abstracts).opened
