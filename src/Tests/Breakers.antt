-- ===== src/Tests/Breakers.antt =====
-- The circuit breaker's theorems on short histories of calls: src/breaker.rs.
use sui_x402_verifier.Base.{◌≡◌, true, none, some, List, [], ◌∷◌, ltb, if◌then◌else◌}
use sui_x402_verifier.Breaker.{new_window, run, Call, asks, records, min_samples}
use sui_x402_verifier.Breaker.Invariant.{IsValid, new-IsValid, run-IsValid}
use sui_x402_verifier.Breaker.Refinement.{
  answers, spec_answers, spec_run, healthy, answers_lem, run-opened_at,
}

-- Five failures, and a question half a minute later.
abbrev outage : List Call
outage =
    records true 10
    ∷ records true 11
    ∷ records true 12
    ∷ records true 13
    ∷ records true 14
    ∷ asks 44
    ∷ []

run-IsValid_example : IsValid (run new_window outage)
run-IsValid_example = run-IsValid new_window outage new-IsValid

answers_lem_example : answers new_window outage ≡ spec_answers healthy outage
answers_lem_example = answers_lem outage

run-opened_at_example : (run new_window outage).opened_at ≡ (
    if ltb (spec_run healthy outage).streak min_samples
    then none
    else some (spec_run healthy outage).last)
run-opened_at_example = run-opened_at outage
