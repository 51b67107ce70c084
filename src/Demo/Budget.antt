-- ===== src/Demo/Budget.antt =====
-- What the demo's wallet can lose: src/bin/x402-demo.rs.
use sui_x402_verifier.Base.{
  ℕ, ◌+◌, ◌≡◌, ◌≤◌, ◌<◌, refl, ap, ◌∙◌, inl, inr, List, [], ◌∷◌, leb, ◌==◌, if◌then◌else◌, Text, ok,
  err, lookup, ◌++◌, ◌/◌, Option-cases, Result-cases, Bool-cases, arith,
}
use sui_x402_verifier.ExtProc.Attributes.{trim_end_matches}
use sui_x402_verifier.Payclient.Reader.{Attempt}
use sui_x402_verifier.Demo.{
  Args, Target, AppState, Visit, World, Outcome, served, failed, panicked, target, count_visitor,
  entry_of, is_settled, finish, wallet, pay_and_retry, challenged, send, request_headers,
  grpc_web_body, unpaid_result,
}

-- How many settlements an outcome reports, and the outcomes of a run.
abbrev pub settlements : Outcome → ℕ
settlements (served r) = if r.settled then 1 else 0
settlements (failed e) = 0
settlements panicked = 0

abbrev pub all_settlements : List Outcome → ℕ
all_settlements [] = 0
all_settlements (o ∷ os) = settlements o + all_settlements os

-- The visits of a run, one after another, each with what the outside answers it.
unfoldable pub serve_all :
    {Float : Type 0} → List Target → AppState → List (World Float × Visit) → AppState × List Outcome
unfolding send
serve_all targets state [] = (state, [])
serve_all targets state ((world, visit) ∷ visits) =
    let (state', outcome) = send world targets state visit in
    let (last, outcomes) = serve_all targets state' visits in (last, outcome ∷ outcomes)

-- What a step does to the budget: it counts what it reports as settled, within the limit.
abbrev Counts : AppState → AppState × Outcome → Type 0
Counts state step =
    (step.0.spent ≡ state.spent + settlements step.1)
    × (step.0.args ≡ state.args)
    × (step.0.spent ≤ state.args.max_plays)

count_visitor-same :
    (state : AppState) (peer : Text) (hour : ℕ)
    → ((count_visitor state peer hour).0.spent ≡ state.spent)
      × ((count_visitor state peer hour).0.args ≡ state.args)
unfolding count_visitor
count_visitor-same state peer hour =
    elim (Bool-cases
      (leb state.args.plays_per_ip_hourly (entry_of (lookup peer state.per_ip) hour).1)) [
        | inl full ↦ rw full (refl, refl)
        | inr room ↦ rw room (refl, refl)
      ]

module _ {Float : Type 0} where
  finish-Counts :
      (state : AppState) (t : Target) (visit : Visit) (paid : Attempt Float)
      → state.spent < state.args.max_plays
      → Counts state (finish state t visit paid)
  unfolding finish
  finish-Counts state t visit paid room = elim (Bool-cases (is_settled paid.payment_response)) [
    | inl moved ↦ rw moved (refl, refl, omega (arith, room))
    | inr kept ↦ rw kept (omega arith, refl, omega (arith, room))
  ]

  pay_and_retry-Counts :
      (world : World Float) (state : AppState) (t : Target) (visit : Visit) (url : Text)
      (first : Attempt Float)
      → state.spent ≤ state.args.max_plays
      → Counts state (pay_and_retry world state t visit url first)
  unfolding pay_and_retry
  pay_and_retry-Counts world state t visit url first within =
      elim (Bool-cases (leb state.args.max_plays state.spent)) [
        | inl full ↦ rw full (omega arith, refl, within)
        | inr room ↦ elim (Option-cases (wallet world first.payment_required)) [
          | inl q ↦ rw (room, q, pay_and_retry) (omega arith, refl, within)
          | inr (err e, q) ↦ rw (room, q, pay_and_retry) (omega arith, refl, within)
          | inr (ok payment, q) ↦
              elim (Result-cases
                (world.paid t.method url (request_headers t visit) (grpc_web_body t) payment)) [
                  | inl (paid, p) ↦
                      rw (room, q, pay_and_retry, p)
                        (finish-Counts state t visit paid (ground arith))
                  | inr (e, p) ↦ rw (room, q, pay_and_retry, p) (omega arith, refl, within)
                ]
        ]
      ]

  challenged-Counts :
      (world : World Float) (state : AppState) (t : Target) (visit : Visit) (url : Text)
      (first : Attempt Float)
      → state.spent ≤ state.args.max_plays
      → Counts state (challenged world state t visit url first)
  unfolding challenged
  challenged-Counts world state t visit url first within =
      let counting = count_visitor state visit.peer (visit.now / 3600) in
      let (spent, args) = count_visitor-same state visit.peer (visit.now / 3600) in
      let max = ap (λ (a : Args). a.max_plays) args in
      elim (Bool-cases counting.1) [
        | inl through ↦
            let (a, b, c) =
              pay_and_retry-Counts world counting.0 t visit url first
                (omega (arith, spent, max, within)) in
            rw through (omega (arith, a, spent), b ∙ args, omega (arith, c, max))
        | inr blocked ↦ rw blocked (omega (arith, spent), args, omega (arith, spent, within))
      ]

  send-Counts :
      (targets : List Target) (world : World Float) (state : AppState) (visit : Visit)
      → state.spent ≤ state.args.max_plays
      → Counts state (send world targets state visit)
  unfolding send unpaid_result
  send-Counts targets world state visit within =
      elim (Option-cases (target targets visit.request.target)) [
        | inl q ↦ rw (q, send) (omega arith, refl, within)
        | inr (t, q) ↦
            let url = trim_end_matches state.args.gateway b'/' ++ t.path in
            elim (Result-cases
              (world.first t.method url (request_headers t visit) (grpc_web_body t))) [
                | inr (e, p) ↦ rw (q, send, p) (omega arith, refl, within)
                | inl (first, p) ↦ elim (Bool-cases (first.status == 402)) [
                  | inl asked ↦
                      rw (q, send, p, asked)
                        (challenged-Counts world state t visit url first within)
                  | inr free ↦ rw (q, send, p, free) (omega arith, refl, within)
                ]
              ]
      ]

  -- The wallet's budget holds over every run of visits, whatever the gateway and the wallet answer:
  -- the demo counts as spent exactly the settlements that it reports, and never more than the
  -- ceiling that it was started with.
  pub serve_all-budget :
      (targets : List Target) (state : AppState) (visits : List (World Float × Visit))
      → state.spent ≤ state.args.max_plays
      → ((serve_all targets state visits).0.spent
          ≡ state.spent + all_settlements (serve_all targets state visits).1)
        × ((serve_all targets state visits).0.spent ≤ state.args.max_plays)
  unfolding serve_all
  serve_all-budget targets state [] within = (omega arith, within)
  serve_all-budget targets state ((world, visit) ∷ visits) within =
      let (counted, args, kept) = send-Counts targets world state visit within in
      let max = ap (λ (a : Args). a.max_plays) args in
      let (sum, bound) =
        serve_all-budget targets (send world targets state visit).0 visits
          (omega (arith, kept, max)) in
      (omega (arith, sum, counted), omega (arith, bound, max))
