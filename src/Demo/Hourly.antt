-- ===== src/Demo/Hourly.antt =====
-- What one visitor can make the demo's wallet pay in an hour: src/bin/x402-demo.rs.
use sui_x402_verifier.Base.{
  ℕ, ◌+◌, ◌-◌, ◌≡◌, ◌≤◌, refl, ap, ◌∙◌, inl, inr, true, false, some, none, Option, Map, Bool, subst,
  sym, text_eq_iff, List, [], ◌∷◌, leb, ◌==◌, if◌then◌else◌, Text, ok, err, lookup, insert,
  lookup-insert, text_eq, ◌++◌, ◌/◌, All, Option-cases, Result-cases, Bool-cases, arith,
}
use sui_x402_verifier.ExtProc.Attributes.{trim_end_matches}
use sui_x402_verifier.Payclient.Reader.{Attempt}
use sui_x402_verifier.Demo.{
  Target, AppState, Visit, World, Outcome, target, count_visitor, entry_of, is_settled, finish,
  wallet, pay_and_retry, challenged, send, request_headers, grpc_web_body, unpaid_result,
}
use sui_x402_verifier.Demo.Budget.{settlements, serve_all}

-- The settlements that the outcomes of a run report to one visitor.
abbrev pub settlements_for : {Float : Type 0} → Text → List (World Float × Visit) → List Outcome → ℕ
settlements_for peer [] outcomes = 0
settlements_for peer (visit ∷ visits) [] = 0
settlements_for peer ((world, visit) ∷ visits) (outcome ∷ outcomes) =
    (if text_eq visit.peer peer then settlements outcome else 0)
    + settlements_for peer visits outcomes

-- What the counter of a visitor has left in this hour.
abbrev pub plays_left : AppState → Text → ℕ → ℕ
plays_left state peer hour =
    state.args.plays_per_ip_hourly - (entry_of (lookup peer state.per_ip) hour).1

entry_of-hour : (e : Option (ℕ × ℕ)) (hour : ℕ) → (entry_of e hour).0 ≡ hour
entry_of-hour none hour = refl
entry_of-hour (some (h, n)) hour = ground arith

entry_of-current : (h n hour : ℕ) → h ≡ hour → (entry_of (some (h, n)) hour).1 ≡ n
entry_of-current h n hour e = ground arith

entry_of-insert :
    (m : Map (ℕ × ℕ)) (peer other : Text) (hour n : ℕ)
    → (entry_of (lookup other (insert peer ((entry_of (lookup peer m) hour).0, n) m)) hour).1
      ≡ (if text_eq peer other then n else (entry_of (lookup other m) hour).1)
entry_of-insert m peer other hour n = elim (Bool-cases (text_eq peer other)) [
  | inl same ↦
      rw (lookup-insert peer other ((entry_of (lookup peer m) hour).0, n) m, same)
        (entry_of-current (entry_of (lookup peer m) hour).0 n hour
          (entry_of-hour (lookup peer m) hour))
  | inr different ↦
      rw (lookup-insert peer other ((entry_of (lookup peer m) hour).0, n) m, different) refl
]

entry_of-same :
    (m : Map (ℕ × ℕ)) (peer other : Text) (hour : ℕ)
    → text_eq peer other ≡ true
    → (entry_of (lookup other m) hour).1 ≡ (entry_of (lookup peer m) hour).1
entry_of-same m peer other hour same =
    ap (λ k. (entry_of (lookup k m) hour).1) (sym ((text_eq_iff peer other).0 same))

-- A visitor who is let through is one play down, and had one.
count_visitor-left :
    (state : AppState) (peer other : Text) (hour : ℕ)
    → (if (count_visitor state peer hour).1 then (if text_eq peer other then 1 else 0) else 0)
        + plays_left (count_visitor state peer hour).0 other hour
      ≤ plays_left state other hour
unfolding count_visitor
count_visitor-left state peer other hour =
    let used = (entry_of (lookup peer state.per_ip) hour).1 in
    elim (Bool-cases (leb state.args.plays_per_ip_hourly used)) [
      | inl full ↦ elim (Bool-cases (text_eq peer other)) [
        | inl same ↦
            rw (full, entry_of-insert state.per_ip peer other hour used, same)
              (omega (arith, entry_of-same state.per_ip peer other hour same))
        | inr different ↦
            rw (full, entry_of-insert state.per_ip peer other hour used, different) (omega arith)
      ]
      | inr room ↦ elim (Bool-cases (text_eq peer other)) [
        | inl same ↦
            rw (room, entry_of-insert state.per_ip peer other hour (used + 1), same)
              (ground (arith, entry_of-same state.per_ip peer other hour same, room))
        | inr different ↦
            rw (room, entry_of-insert state.per_ip peer other hour (used + 1), different)
              (omega arith)
      ]
    ]

count_visitor-args :
    (state : AppState) (peer : Text) (hour : ℕ)
    → (count_visitor state peer hour).0.args ≡ state.args
unfolding count_visitor
count_visitor-args state peer hour =
    elim (Bool-cases
      (leb state.args.plays_per_ip_hourly (entry_of (lookup peer state.per_ip) hour).1)) [
        | inl full ↦ rw full refl
        | inr room ↦ rw room refl
      ]

-- What one visit takes of what every visitor has left.
abbrev Meters : Text → ℕ → AppState → Visit → AppState × Outcome → Type 0
Meters peer hour state visit step =
    (step.0.args ≡ state.args)
    × ((if text_eq visit.peer peer then settlements step.1 else 0) + plays_left step.0 peer hour
        ≤ plays_left state peer hour)

plays_left-same :
    (a b : AppState) (peer : Text) (hour : ℕ)
    → a.per_ip ≡ b.per_ip
    → a.args ≡ b.args
    → plays_left a peer hour ≡ plays_left b peer hour
plays_left-same a b peer hour p q = rw (p, q) refl

step_lem :
    (same : Bool) (s a b : ℕ)
    → s ≤ 1
    → (if same then 1 else 0) + a ≤ b
    → (if same then s else 0) + a ≤ b
step_lem true s a b most h = omega (arith, most, h)
step_lem false s a b most h = h

none_lem : (same : Bool) (a b : ℕ) → a ≤ b → (if same then 0 else 0) + a ≤ b
none_lem true a b h = omega (arith, h)
none_lem false a b h = omega (arith, h)

module _ {Float : Type 0} where
  finish-same :
      (state : AppState) (t : Target) (visit : Visit) (paid : Attempt Float)
      → let (state', outcome) = finish state t visit paid in
        (state'.per_ip ≡ state.per_ip) × (state'.args ≡ state.args) × (settlements outcome ≤ 1)
  unfolding finish
  finish-same state t visit paid = elim (Bool-cases (is_settled paid.payment_response)) [
    | inl moved ↦ rw moved (refl, refl, omega arith)
    | inr kept ↦ rw kept (refl, refl, omega arith)
  ]

  pay_and_retry-same :
      (world : World Float) (state : AppState) (t : Target) (visit : Visit) (url : Text)
      (first : Attempt Float)
      → let (state', outcome) = pay_and_retry world state t visit url first in
        (state'.per_ip ≡ state.per_ip) × (state'.args ≡ state.args) × (settlements outcome ≤ 1)
  unfolding pay_and_retry
  pay_and_retry-same world state t visit url first =
      elim (Bool-cases (leb state.args.max_plays state.spent)) [
        | inl full ↦ rw full (refl, refl, omega arith)
        | inr room ↦ elim (Option-cases (wallet world first.payment_required)) [
          | inl q ↦ rw (room, q, pay_and_retry) (refl, refl, omega arith)
          | inr (err e, q) ↦ rw (room, q, pay_and_retry) (refl, refl, omega arith)
          | inr (ok payment, q) ↦
              elim (Result-cases
                (world.paid t.method url (request_headers t visit) (grpc_web_body t) payment)) [
                  | inl (paid, p) ↦ rw (room, q, pay_and_retry, p) (finish-same state t visit paid)
                  | inr (e, p) ↦ rw (room, q, pay_and_retry, p) (refl, refl, omega arith)
                ]
        ]
      ]

  challenged-Meters :
      (peer : Text) (world : World Float) (state : AppState) (t : Target) (visit : Visit)
      (url : Text) (first : Attempt Float)
      → Meters peer (visit.now / 3600) state visit (challenged world state t visit url first)
  unfolding challenged
  challenged-Meters peer world state t visit url first =
      let hour = visit.now / 3600 in
      let counting = count_visitor state visit.peer hour in
      let left = count_visitor-left state visit.peer peer hour in
      elim (Bool-cases counting.1) [
        | inl through ↦
            let (per_ip, args, most) = pay_and_retry-same world counting.0 t visit url first in
            let step = pay_and_retry world counting.0 t visit url first in
            let kept = plays_left-same step.0 counting.0 peer hour per_ip args in
            let taken =
              subst
                (λ b.
                  (if b then (if text_eq visit.peer peer then 1 else 0) else 0)
                    + plays_left counting.0 peer hour
                  ≤ plays_left state peer hour)
                through left in
            rw through (
              args ∙ count_visitor-args state visit.peer hour,
              step_lem (text_eq visit.peer peer) (settlements step.1) (plays_left step.0 peer hour)
                  (plays_left state peer hour) most
                  (subst
                    (λ n.
                      (if text_eq visit.peer peer then 1 else 0) + n ≤ plays_left state peer hour)
                    (sym kept) taken),
            )
        | inr blocked ↦
            let taken =
              subst
                (λ b.
                  (if b then (if text_eq visit.peer peer then 1 else 0) else 0)
                    + plays_left counting.0 peer hour
                  ≤ plays_left state peer hour)
                blocked left in
            rw blocked (
              count_visitor-args state visit.peer hour,
              none_lem (text_eq visit.peer peer) (plays_left counting.0 peer hour)
                  (plays_left state peer hour) (omega (arith, taken)),
            )
      ]

  -- A visit that is not challenged reports no settlement.
  send-Meters :
      (peer : Text) (targets : List Target) (world : World Float) (state : AppState) (visit : Visit)
      → Meters peer (visit.now / 3600) state visit (send world targets state visit)
  unfolding send unpaid_result
  send-Meters peer targets world state visit =
      let left = plays_left state peer (visit.now / 3600) in
      let same = text_eq visit.peer peer in
      elim (Option-cases (target targets visit.request.target)) [
        | inl q ↦ rw (q, send) (refl, none_lem same left left (omega arith))
        | inr (t, q) ↦
            let url = trim_end_matches state.args.gateway b'/' ++ t.path in
            elim (Result-cases
              (world.first t.method url (request_headers t visit) (grpc_web_body t))) [
                | inr (e, p) ↦ rw (q, send, p) (refl, none_lem same left left (omega arith))
                | inl (first, p) ↦ elim (Bool-cases (first.status == 402)) [
                  | inl asked ↦
                      rw (q, send, p, asked) (challenged-Meters peer world state t visit url first)
                  | inr free ↦ rw (q, send, p, free) (refl, none_lem same left left (omega arith))
                ]
              ]
      ]

  -- Over a run of visits in one hour the settlements that the demo reports to one visitor are no
  -- more than its counter had left for them in that hour, whatever the gateway and the wallet
  -- answer and whoever else visits.
  pub serve_all-hourly :
      (peer : Text) (hour : ℕ) (targets : List Target) (state : AppState)
      (visits : List (World Float × Visit))
      → All (λ (v : World Float × Visit). v.1.now / 3600 ≡ hour) visits
      → settlements_for peer visits (serve_all targets state visits).1
        ≤ state.args.plays_per_ip_hourly - (entry_of (lookup peer state.per_ip) hour).1
  unfolding serve_all
  serve_all-hourly peer hour targets state [] within = omega arith
  serve_all-hourly peer hour targets state ((world, visit) ∷ visits) (now, within) =
      let step =
        subst (λ h. Meters peer h state visit (send world targets state visit)) now
          (send-Meters peer targets world state visit) in
      omega (
        arith,
        step.1,
        serve_all-hourly peer hour targets (send world targets state visit).0 visits within,
      )
