-- ===== src/Tests/Facilitation.antt =====
-- The theorems on the facilitator's HTTP endpoints and on denials at work:
-- src/facilitator_api.rs, src/auth.rs.
use sui_x402_verifier.Base.{
  ◌≡◌, refl, false, none, some, [], ◌∷◌, codes, arith, ok, bytes, lookup, insert, remove, text_eq,
  trim, is_whitespace, is_empty,
}
use sui_x402_verifier.Session.{fresh}
use sui_x402_verifier.Session.Memory.{
  MemorySessionStore, claim_payment_at, release_payment, cleanup_expired_at,
}
use sui_x402_verifier.Session.Memory.Replay.{sweeps, apply_all}
use sui_x402_verifier.RateLimit.{MemoryRateLimiter}
use sui_x402_verifier.X402.{PaymentRequirements, VerifyResponse, SettlementResponse}
use sui_x402_verifier.Facilitator.{failure_receipt, success_receipt, payment_id}
use sui_x402_verifier.FacilitatorApi.{FacilitatorRequest, verify, settle}
use sui_x402_verifier.FacilitatorApi.Settling.{settle-verify, settle-released, settle-decide}
use sui_x402_verifier.Auth
use sui_x402_verifier.Auth.{immediate, replay_ttl}
use sui_x402_verifier.Auth.Backends.{memory_store, memory_limiter}
use sui_x402_verifier.Auth.Decide.{decide}
use sui_x402_verifier.Auth.Once.{IsRefused}
use sui_x402_verifier.Auth.Response.{grpc_message}
use sui_x402_verifier.Auth.Denials.{percent_decode, IsPrintable, grpc_message-decodes}
use sui_x402_verifier.Tests.Fixtures.{
  test_crypto, test_codec, test_wire, test_node, test_state, test_payload, test_terms,
  test_facilitator, paying_request,
}
use sui_x402_verifier.Tests.Decisions.{
  after_paying, presented_lem, id_lem, window_lem, unserved_lem,
}

abbrev good_request : FacilitatorRequest
good_request = record {
  x402_version = 2;
  payment_payload = test_payload;
  payment_requirements = test_terms;
}

-- Terms on another network than the facilitator's.
abbrev bad_request : FacilitatorRequest
bad_request = record good_request {
  payment_requirements = record test_terms { network = codes "sui:mainnet" };
}

abbrev bad_answer : VerifyResponse
bad_answer = record {
  is_valid = false;
  invalid_reason = some (codes "invalid_network");
  payer = none;
}

bad_answer_lem :
    verify (memory_store test_crypto) memory_limiter test_codec test_node test_state bad_request
    ≡ ok bad_answer
unfolding verify sui_x402_verifier.Facilitator.verify text_eq sui_x402_verifier.X402.code
bad_answer_lem = refl

settle-verify_example :
    (receipt : SettlementResponse) × ((settle
        (memory_store test_crypto)
        memory_limiter
        test_codec
        test_node
        test_state
        bad_request
        100).1
      ≡ ok receipt)
    × (receipt.success ≡ false)
    × ((settle
          (memory_store test_crypto)
          memory_limiter
          test_codec
          test_node
          test_state
          bad_request
          100).0.broadcasts
        ≡ [])
settle-verify_example =
    settle-verify (memory_store test_crypto) memory_limiter test_codec test_node test_state
      bad_request 100 bad_answer bad_answer_lem refl

abbrev bad_receipt : SettlementResponse
bad_receipt = failure_receipt test_facilitator (codes "invalid_network")

bad_fresh : (claim_payment_at test_state.sessions (codes "tx") (replay_ttl 60) 100).1 ≡ fresh
unfolding claim_payment_at lookup
bad_fresh = refl

bad_settled :
    settle (memory_store test_crypto) memory_limiter test_codec test_node test_state bad_request 100
    ≡ (test_state, ok bad_receipt)
unfolding settle payment_id failure_receipt claim_payment_at lookup
    sui_x402_verifier.Facilitator.settle text_eq release_payment sui_x402_verifier.X402.code remove
    insert trim is_whitespace
bad_settled = refl

settle-released_example : (claim_payment_at test_state.sessions (codes "tx") 600 101).1 ≡ fresh
unfolding failure_receipt
settle-released_example =
    settle-released test_crypto memory_limiter test_codec test_node test_state test_state
      bad_request (codes "tx") 100 bad_receipt 600 101 id_lem bad_fresh bad_settled refl

abbrev good_receipt : SettlementResponse
good_receipt =
    success_receipt test_facilitator test_terms (codes "0xtx") (codes "stub-not-settled-on-chain")

good_settled :
    settle
      (memory_store test_crypto)
      memory_limiter
      test_codec
      test_node
      test_state
      good_request
      100
    ≡ (after_paying, ok good_receipt)
unfolding settle payment_id success_receipt claim_payment_at lookup
    sui_x402_verifier.Facilitator.settle text_eq is_empty trim is_whitespace insert
good_settled = refl

-- The gateway after a sweep, with the payment on record.
abbrev swept : Auth.AppState MemorySessionStore MemoryRateLimiter
swept = record after_paying { sessions = (cleanup_expired_at after_paying.sessions 150).0 }

settle-decide_example : IsRefused [] (
    decide
      (memory_store test_crypto)
      memory_limiter
      test_codec
      test_wire
      test_node
      swept
      paying_request
      immediate
      200
      (codes "s"))
unfolding success_receipt apply_all cleanup_expired_at sui_x402_verifier.Base.retain
settle-decide_example =
    settle-decide test_crypto memory_limiter test_codec test_node test_wire test_state after_paying
      swept good_request (codes "tx") 100 good_receipt 600 (sweeps 150 ∷ []) paying_request
      immediate 200 (codes "s") test_payload id_lem good_settled refl (omega arith)
      (omega arith, tt) refl (omega arith) (omega (arith, window_lem)) presented_lem id_lem
      unserved_lem

grpc_message-decodes_example :
    (percent_decode (grpc_message (codes "é%")) ≡ bytes (codes "é%"))
    × IsPrintable (grpc_message (codes "é%"))
grpc_message-decodes_example = grpc_message-decodes (codes "é%") (omega arith, (omega arith, tt))
