-- ===== src/Tests/Demos.antt =====
-- The demo's budget at work: src/bin/x402-demo.rs.
use sui_x402_verifier.Base.{
  ℕ, ◌≡◌, ◌+◌, ◌-◌, ◌≤◌, refl, true, none, some, List, [], ◌∷◌, codes, ok, arith, text_eq, lookup,
  starts_with, insert,
}
use sui_x402_verifier.Payclient.Reader.{Attempt, Meter}
use sui_x402_verifier.Payclient.Wire.{PaymentRequirements}
use sui_x402_verifier.Demo.{AppState, Target, Visit, World}
use sui_x402_verifier.Demo.Budget.{all_settlements, serve_all, serve_all-budget}
use sui_x402_verifier.Demo.Hourly.{settlements_for, serve_all-hourly}

abbrev spin : Target
spin = record {
  id = codes "spin";
  path = codes "/spin";
  method = codes "POST";
  content_type = codes "application/json";
  body = codes "{}";
}

abbrev no_meter : Meter
no_meter = record {
  tier = none;
  free_remaining = none;
  free_limit = none;
  free_reset = none;
  session_remaining = none;
  session_quota = none;
  session_expires = none;
}

abbrev test_requirements : PaymentRequirements
test_requirements = record {
  scheme = codes "exact";
  network = codes "sui:testnet";
  amount = codes "1000";
  asset = codes "USDC";
  pay_to = codes "0x1";
  max_timeout_seconds = 60;
  extra = none;
}

-- A 402, and the answer to a payment that settled; durations are numbers here.
abbrev challenged : Attempt ℕ
challenged = record {
  status = 402;
  body = [];
  payment_required =
      some (record { resource = record { url = codes "/spin" }; accepts = test_requirements ∷ [] });
  payment_response = none;
  session = none;
  meter = no_meter;
  elapsed_ms = 1;
  server_timing = [];
  upstream_ms = none;
}

abbrev paid : Attempt ℕ
paid = record challenged {
  status = 200;
  payment_required = none;
  payment_response = some (record {
    success = true;
    error_reason = none;
    transaction = codes "digest";
    network = codes "sui:testnet";
  });
}

abbrev test_world : World ℕ
test_world = record {
  first = λ method url headers body. ok challenged;
  load_key = ok (record { address = codes "0x2"; sign = λ draft. ok (codes "sig") });
  build_payment_header = λ key url terms paths. some (ok (codes "payment"));
  paid = λ method url headers body payment. ok paid;
}

abbrev test_visit : Visit
test_visit = record {
  peer = codes "10.0.0.1";
  x_forwarded_host = none;
  x_forwarded_proto = none;
  now = 7200;
  request = record { target = codes "spin"; session = none };
}

-- A wallet that may pay once.
abbrev test_demo : AppState
test_demo = record {
  args = record { max_plays = 1; plays_per_ip_hourly = 20; gateway = codes "http://gate/" };
  spent = 0;
  per_ip = [];
}

abbrev two_visits : List (World ℕ × Visit)
two_visits = (test_world, test_visit) ∷ (test_world, test_visit) ∷ []

serve_all-budget_example :
    ((serve_all (spin ∷ []) test_demo two_visits).0.spent
      ≡ 0 + all_settlements (serve_all (spin ∷ []) test_demo two_visits).1)
    × ((serve_all (spin ∷ []) test_demo two_visits).0.spent ≤ 1)
serve_all-budget_example = serve_all-budget (spin ∷ []) test_demo two_visits (omega arith)

-- The second visit is refused: the budget is spent.
two_visits_lem : (serve_all (spin ∷ []) test_demo two_visits).0.spent ≡ 1
unfolding serve_all text_eq lookup starts_with insert
two_visits_lem = refl

serve_all-hourly_example :
    settlements_for (codes "10.0.0.1") two_visits (serve_all (spin ∷ []) test_demo two_visits).1
    ≤ 20 - 0
unfolding lookup
serve_all-hourly_example =
    serve_all-hourly (codes "10.0.0.1") 2 (spin ∷ []) test_demo two_visits (refl, (refl, tt))
