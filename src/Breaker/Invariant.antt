-- ===== src/Breaker/Invariant.antt =====
-- The window of a policy in every state that calls lead to: src/breaker.rs.
use sui_x402_verifier.Base.{
  ℕ, suc, min, ◌+◌, ◌≤◌, ◌<◌, ◌≡◌, ◌≢◌, refl, Bool, true, false, none, List, [], ◌∷◌, ◌++◌, length,
  length-append, All, All-append, arith,
}
use sui_x402_verifier.Breaker.{
  Window, new_window, Call, asks, records, after_failure, bound, count_failures, step, run,
  window_size, min_samples,
}

-- The outcomes are failures only, at most twenty of them; the breaker is open exactly where there
-- are five or more, and a probe is out only while it is open.
pub record IsValid (w : Window) : Type 0 where
  pub failures_only : All (λ o. o ≡ true) w.outcomes
  pub bounded : length w.outcomes ≤ window_size
  pub closed_few : w.opened_at ≡ none → length w.outcomes < min_samples
  pub open_many : w.opened_at ≢ none → min_samples ≤ length w.outcomes
  pub probing_open : w.probing ≡ true → w.opened_at ≢ none

pub new-IsValid : IsValid new_window
new-IsValid = record {
  failures_only = tt;
  bounded = omega arith;
  closed_few = λ _. omega arith;
  open_many = λ h. absurd (h refl);
  probing_open = λ h. cc;
}

pub bound-le : (os : List Bool) → length os ≤ window_size → bound os ≡ os
unfolding bound
bound-le [] h = refl
bound-le (o ∷ os) h = ground arith

pub length-bound-le : (os : List Bool) → length (bound os) ≤ window_size
unfolding bound
length-bound-le [] = omega arith
length-bound-le (o ∷ os) = ground (arith, length-bound-le os)

pub length-bound :
    (os : List Bool) → length os ≤ suc window_size → length (bound os) ≡ min window_size (length os)
unfolding bound
length-bound [] h = omega arith
length-bound (o ∷ os) h = ground (arith, bound-le os)

pub bound-failures : (os : List Bool) → All (λ o. o ≡ true) os → All (λ o. o ≡ true) (bound os)
unfolding bound
bound-failures [] h = tt
bound-failures (o ∷ os) h = ground (arith, bound-failures os h.1)

pub count_failures-length :
    (os : List Bool) → All (λ o. o ≡ true) os → count_failures os ≡ length os
unfolding count_failures
count_failures-length [] h = refl
count_failures-length (o ∷ os) h = ground (arith, count_failures-length os h.1)

-- What a failure's own outcome makes of the window.
pub pushed-failures :
    (w : Window) → IsValid w → All (λ o. o ≡ true) (bound (w.outcomes ++ true ∷ []))
pushed-failures w v = bound-failures _ (All-append _ w.outcomes _ v.failures_only (refl, tt))

pub length-pushed :
    (w : Window)
    → IsValid w
    → length (bound (w.outcomes ++ true ∷ [])) ≡ min window_size (length w.outcomes + 1)
length-pushed w v = omega (
  arith,
  length-append w.outcomes (true ∷ []),
  v.bounded,
  length-bound (w.outcomes ++ true ∷ [])
      (omega (arith, length-append w.outcomes (true ∷ []), v.bounded)),
)

after_failure-IsValid :
    (w : Window) (now : ℕ)
    → All (λ o. o ≡ true) w.outcomes
    → length w.outcomes ≤ window_size
    → (w.opened_at ≢ none → min_samples ≤ length w.outcomes)
    → w.probing ≡ false
    → IsValid (after_failure w now)
unfolding after_failure
after_failure-IsValid w now f b o p = ground (arith, count_failures-length w.outcomes f)

-- Asking and recording keep the window well formed.
pub step-IsValid : (w : Window) (c : Call) → IsValid w → IsValid (step w c)
unfolding step
step-IsValid w (asks now) v = ground arith
step-IsValid w (records false now) v = new-IsValid
step-IsValid w (records true now) v =
    after_failure-IsValid _ now (pushed-failures w v) (length-bound-le (w.outcomes ++ true ∷ []))
      (λ h. omega (arith, v.open_many h, length-pushed w v)) refl

-- Every history of calls keeps the window well formed: its outcomes are failures only, twenty at
-- most, it is open exactly where there are five or more, and a probe is out only while it is open.
pub run-IsValid : (w : Window) (cs : List Call) → IsValid w → IsValid (run w cs)
unfolding run
run-IsValid w [] v = v
run-IsValid w (c ∷ cs) v = run-IsValid (step w c) cs (step-IsValid w c v)
