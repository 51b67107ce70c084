-- ===== src/Tests/Decisions.antt =====
-- The tier policy's theorems at work: src/auth.rs.
use sui_x402_verifier.Base.{
  ap, ◌≡◌, ◌≢◌, ◌⊎◌, refl, none, some, [], ◌∷◌, codes, arith, ok, lookup, text_eq, is_empty, trim,
  is_whitespace, eq_ignore_ascii_case, insert,
}
use sui_x402_verifier.Session.{fresh}
use sui_x402_verifier.Session.Memory.{MemorySessionStore, claim_payment_at}
use sui_x402_verifier.RateLimit.{MemoryRateLimiter}
use sui_x402_verifier.Facilitator.{payment_id}
use sui_x402_verifier.Auth.{
  Allowed, Decision, allow, deny, paid, unknown_meter, deferred, immediate, AppState, replay_ttl,
}
use sui_x402_verifier.Auth.Backends.{memory_store, memory_limiter}
use sui_x402_verifier.Auth.Decide.{decide, try_session}
use sui_x402_verifier.Auth.Outcomes.{presented_payment, presented_token}
use sui_x402_verifier.Auth.Policy.{IsNotFree, IsUnsettled, decide-NotFree, decide-deferred}
use sui_x402_verifier.Auth.Paid.{HasSession, HasPayment, decide-paid}
use sui_x402_verifier.Auth.Once.{IsRefused, decide-once}
use sui_x402_verifier.Auth.Total.{decide-returns}
use sui_x402_verifier.Config.{policy_for}
use sui_x402_verifier.Tests.Fixtures.{
  test_crypto, test_codec, test_wire, test_node, test_state, test_sessions, test_payload,
  test_terms, paying_request,
}
use sui_x402_verifier.Tests.Limits.{test_config-valid}

-- The payment is claimed, and pends.
abbrev claimed : MemorySessionStore
claimed = record test_sessions { seen_payments = (codes "tx", 100) ∷ [] }

abbrev pub after_paying : AppState MemorySessionStore MemoryRateLimiter
after_paying = record test_state { sessions = claimed }

abbrev served : Allowed
served = record {
  tier = paid;
  payer = some (codes "0xtx");
  session_token = none;
  settlement = none;
  pending = some (record {
    payload = test_payload;
    requirements = test_terms;
    payment_id = some (codes "tx");
  });
  meter = unknown_meter;
}

paying_lem :
    decide
      (memory_store test_crypto)
      memory_limiter
      test_codec
      test_wire
      test_node
      test_state
      paying_request
      deferred
      100
      (codes "r")
    ≡ some (after_paying, allow served)
unfolding decide sui_x402_verifier.Auth.Headers.get_header lookup text_eq is_empty trim
    is_whitespace sui_x402_verifier.X402.Extensions.session_token_from_extensions
    eq_ignore_ascii_case payment_id claim_payment_at insert sui_x402_verifier.Facilitator.verify
    sui_x402_verifier.X402.from_config policy_for
paying_lem = refl

pub presented_lem : presented_payment test_wire paying_request ≡ some (ok test_payload)
unfolding presented_payment sui_x402_verifier.Auth.Headers.get_header lookup text_eq is_empty trim
    is_whitespace
presented_lem = refl

decide-paid_example :
    HasSession
      (memory_store test_crypto)
      memory_limiter
      test_codec
      test_wire
      test_node
      test_state
      paying_request
      100
      served
    ⊎ HasPayment
        (memory_store test_crypto)
        memory_limiter
        test_codec
        test_wire
        test_node
        test_state
        paying_request
        100
decide-paid_example =
    decide-paid (memory_store test_crypto) memory_limiter test_codec test_wire test_node test_state
      after_paying paying_request deferred 100 (codes "r") served paying_lem refl

decide-NotFree_example : IsNotFree (allow served) × (after_paying.limiter ≡ test_state.limiter)
decide-NotFree_example =
    decide-NotFree (memory_store test_crypto) memory_limiter test_codec test_wire test_node
      test_state after_paying paying_request deferred 100 (codes "r") (allow served)
      (ok test_payload) presented_lem paying_lem

decide-deferred_example :
    IsUnsettled (allow served) × (after_paying.broadcasts ≡ test_state.broadcasts)
decide-deferred_example =
    decide-deferred (memory_store test_crypto) memory_limiter test_codec test_wire test_node
      test_state after_paying paying_request 100 (codes "r") (allow served) paying_lem

decide-returns_example :
    decide
      (memory_store test_crypto)
      memory_limiter
      test_codec
      test_wire
      test_node
      test_state
      paying_request
      deferred
      100
      (codes "r")
    ≢ none
decide-returns_example =
    decide-returns (memory_store test_crypto) test_codec test_wire test_node test_crypto test_state
      paying_request deferred 100 (codes "r") test_config-valid

claims_lem : (claim_payment_at test_sessions (codes "tx") 600 100).1 ≡ fresh
unfolding claim_payment_at lookup
claims_lem = refl

stored_lem : after_paying.sessions ≡ (claim_payment_at test_sessions (codes "tx") 600 100).0
unfolding claim_payment_at lookup insert
stored_lem = refl

pub id_lem : payment_id test_codec test_payload ≡ some (codes "tx")
unfolding payment_id trim is_whitespace
id_lem = refl

pub window_lem :
    600
    ≡ replay_ttl
        (policy_for after_paying.config paying_request.path
          paying_request.policy).payment.max_timeout_seconds
unfolding replay_ttl policy_for
window_lem = refl

pub unserved_lem :
    (try_session
      (memory_store test_crypto)
      memory_limiter
      test_codec
      test_wire
      test_node
      after_paying
      (presented_token test_wire paying_request)
      paying_request.policy
      200).1
    ≡ none
unfolding try_session presented_token sui_x402_verifier.Auth.Headers.get_header lookup text_eq
    is_empty trim is_whitespace sui_x402_verifier.X402.Extensions.session_token_from_extensions
    eq_ignore_ascii_case
unserved_lem = refl

decide-once_example : IsRefused [] (
    decide
      (memory_store test_crypto)
      memory_limiter
      test_codec
      test_wire
      test_node
      after_paying
      paying_request
      immediate
      200
      (codes "s"))
unfolding sui_x402_verifier.Session.Memory.Replay.apply_all claim_payment_at
decide-once_example =
    decide-once test_crypto memory_limiter test_codec test_wire test_node test_sessions (codes "tx")
      600 100 600 [] after_paying paying_request immediate 200 (codes "s") test_payload
      (omega arith) claims_lem tt (omega arith) (ap (λ s. s.seen_payments) stored_lem)
      (omega (arith, window_lem)) presented_lem id_lem unserved_lem
