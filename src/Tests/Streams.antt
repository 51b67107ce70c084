-- ===== src/Tests/Streams.antt =====
-- The external processor's theorems at work: src/ext_proc.rs.
use sui_x402_verifier.Base.{
  length, ◌≤◌, ◌≡◌, ◌≢◌, ok, ◌∙◌, sym, ◌++◌, refl, true, false, none, some, List, [], ◌∷◌, Text,
  codes, arith, lookup, parse_uint, insert, text_eq, to_ascii_lowercase, is_empty, trim,
  is_whitespace, show_u64,
}
use sui_x402_verifier.Breaker.{SettlementBreaker, state_at, half_open}
use sui_x402_verifier.Session.{fresh}
use sui_x402_verifier.Session.Memory.{MemorySessionStore, claim_payment_at}
use sui_x402_verifier.RateLimit.{MemoryRateLimiter}
use sui_x402_verifier.RateLimit.Address.{v4}
use sui_x402_verifier.Facilitator
use sui_x402_verifier.X402.{header_payment_signature, header_payment_session}
use sui_x402_verifier.Auth.{AppState, PendingPayment, free_meter}
use sui_x402_verifier.Auth.Headers.{get_header}
use sui_x402_verifier.Auth.Backends.{memory_store, memory_limiter}
use sui_x402_verifier.ExtProc.{
  StreamState, default_stream, RawHeader, Incoming, Reply, request_continue,
}
use sui_x402_verifier.ExtProc.Headers.{header_map, value_or_empty, settlement_unavailable}
use sui_x402_verifier.ExtProc.Request.{handle_request_headers, breaker_label}
use sui_x402_verifier.ExtProc.Response.{handle_response_headers}
use sui_x402_verifier.ExtProc.Stream.{Message, request_headers, response_headers, process}
use sui_x402_verifier.ExtProc.Charging.{served, handle_response_headers-served, process-unserved}
use sui_x402_verifier.ExtProc.Charged.{
  handle_response_headers-charged, handle_response_headers-released,
}
use sui_x402_verifier.ExtProc.Counting.{process-requests}
use sui_x402_verifier.ExtProc.Breaking.{HasPaymentHeader, handle_request_headers-probe_lost}
use sui_x402_verifier.Tests.Fixtures.{
  test_crypto, test_codec, test_wire, test_node, test_state, test_payload, test_terms,
  chain_facilitator,
}

abbrev plain : Text → Text → RawHeader
plain key value = record { key = key; value = value; raw_value = [] }

abbrev status_200 : List RawHeader
status_200 = plain (codes ":status") (codes "200") ∷ []

abbrev status_500 : List RawHeader
status_500 = plain (codes ":status") (codes "500") ∷ []

-- A stream whose payment pends, on a gateway that settles on chain.
abbrev pending_payment : PendingPayment
pending_payment = record {
  payload = test_payload;
  requirements = test_terms;
  payment_id = some (codes "tx");
}

abbrev waiting : StreamState
waiting = record default_stream { pending = some pending_payment }

abbrev on_chain : AppState MemorySessionStore MemoryRateLimiter
on_chain = record test_state { facilitator = chain_facilitator }

served_lem : served status_200 ≡ true
unfolding header_map sui_x402_verifier.ExtProc.Headers.is_success parse_uint lookup insert text_eq
    to_ascii_lowercase is_empty
served_lem = refl

unserved_lem : served status_500 ≡ false
unfolding header_map sui_x402_verifier.ExtProc.Headers.is_success parse_uint lookup insert text_eq
    to_ascii_lowercase is_empty
unserved_lem = refl

some-ne-nothing : (b : Text) → b ∷ [] ≢ []
some-ne-nothing b h = cc

-- The settlement reaches the chain.
sent_lem :
    (Facilitator.settle test_codec chain_facilitator test_node test_payload test_terms).sent
    ≡ codes "tx" ∷ []
unfolding Facilitator.settle text_eq is_empty trim is_whitespace lookup sui_x402_verifier.Sui.verify
    sui_x402_verifier.Base.parse_int sui_x402_verifier.Base.◌+ℤ◌ sui_x402_verifier.Session.policy_eq
    sui_x402_verifier.Sui.settle
sent_lem = refl

charged_lem :
    (handle_response_headers
      (memory_store test_crypto)
      memory_limiter
      test_codec
      test_wire
      test_node
      on_chain
      waiting
      status_200
      200
      (codes "r")
      (codes "1.0")).0.broadcasts
    ≢ on_chain.broadcasts
charged_lem h = some-ne-nothing (codes "tx") (
    sym sent_lem
    ∙ sym
        (handle_response_headers-served (memory_store test_crypto) memory_limiter test_codec
          test_wire (codes "unavailable") test_node on_chain waiting pending_payment status_200 200
          (codes "r") (codes "1.0") refl served_lem).0
    ∙ h)

handle_response_headers-charged_example :
    (served status_200 ≡ true)
    × ((pending : PendingPayment) × (waiting.pending ≡ some pending)
        × ((payer : Text) × (Facilitator.verify test_codec chain_facilitator test_node
                pending.payload pending.requirements
              ≡ ok payer)))
handle_response_headers-charged_example =
    handle_response_headers-charged (memory_store test_crypto) memory_limiter test_codec test_wire
      test_node on_chain waiting status_200 200 (codes "r") (codes "1.0") charged_lem

handle_response_headers-released_example :
    let (s, t, r) =
      handle_response_headers
        (memory_store test_crypto)
        memory_limiter
        test_codec
        test_wire
        test_node
        on_chain
        waiting
        status_500
        200
        (codes "r")
        (codes "1.0") in
    ((claim_payment_at s.sessions (codes "tx") 600 201).1 ≡ fresh)
    × (s.broadcasts ≡ on_chain.broadcasts)
handle_response_headers-released_example =
    handle_response_headers-released test_crypto memory_limiter test_codec test_wire test_node
      on_chain waiting pending_payment (codes "tx") status_500 200 (codes "r") (codes "1.0") 600 201
      refl refl unserved_lem

-- A paying client and one from the street.
abbrev paying : Incoming
paying = record {
  headers = plain (codes "payment-signature") (codes "abc") ∷ [];
  client_ip = none;
  policy = none;
}

abbrev visiting : Incoming
visiting = record { headers = []; client_ip = some (v4 10 0 0 1); policy = none }

-- The request, and the answer of an upstream that fails.
abbrev failed_visit : List Message
failed_visit =
    record {
      phase = request_headers paying;
      node = test_node;
      now = 100;
      raw = codes "r";
      elapsed_ms = codes "1.0";
    }
    ∷ record {
      phase = response_headers status_500;
      node = test_node;
      now = 101;
      raw = codes "s";
      elapsed_ms = codes "1.0";
    }
    ∷ []

process-unserved_example :
    (process
      (memory_store test_crypto)
      memory_limiter
      test_codec
      test_wire
      (codes "unavailable")
      on_chain
      default_stream
      failed_visit).0.broadcasts
    ≡ []
process-unserved_example =
    process-unserved (memory_store test_crypto) memory_limiter test_codec test_wire
      (codes "unavailable") on_chain default_stream failed_visit (tt, (unserved_lem, tt))

-- A breaker that was tripped at 10.
abbrev tripped : SettlementBreaker
tripped =
    (
      codes "default",
      record {
        outcomes = true ∷ true ∷ true ∷ true ∷ true ∷ [];
        opened_at = some 10;
        probing = false;
      },
    )
    ∷ []

abbrev tripped_state : AppState MemorySessionStore MemoryRateLimiter
tripped_state = record test_state { breaker = tripped }

half_open_lem : (state_at tripped (breaker_label visiting.policy) 50).1 ≡ half_open
unfolding state_at breaker_label lookup text_eq
half_open_lem = refl

found_lem : get_header (header_map [] paying.headers) header_payment_signature ≡ some (codes "abc")
unfolding header_map get_header lookup insert text_eq to_ascii_lowercase is_empty trim is_whitespace
found_lem = refl

paying_lem : HasPaymentHeader paying
paying_lem h = ground (arith, found_lem)

-- What the visit at 50 leaves, which takes the probe.
abbrev visited : AppState MemorySessionStore MemoryRateLimiter
visited = record test_state {
  breaker =
      (
        codes "default",
        record {
          outcomes = true ∷ true ∷ true ∷ true ∷ true ∷ [];
          opened_at = some 10;
          probing = true;
        },
      )
      ∷ [];
  limiter =
      (codes "default|10.0.0.1", record { start = 0; current = 1; previous = 0; window_secs = 60 })
      ∷ [];
}

abbrev visit_stream : StreamState
visit_stream = record {
  pending = none;
  policy = none;
  path = [];
  meter = free_meter 1 2 10;
  decide_ms = codes "1.0";
}

abbrev visit_reply : Reply
visit_reply =
    request_continue ((codes "x-x402-tier", codes "free") ∷ [])
      (header_payment_signature ∷ header_payment_session ∷ [])

visit_lem :
    handle_request_headers
      (memory_store test_crypto)
      memory_limiter
      test_codec
      test_wire
      (codes "unavailable")
      test_node
      tripped_state
      default_stream
      visiting
      50
      (codes "r")
      (codes "1.0")
    ≡ some (visited, visit_stream, visit_reply)
unfolding handle_request_headers lookup text_eq get_header sui_x402_verifier.RateLimit.check_at
    sui_x402_verifier.Config.policy_for insert sui_x402_verifier.RateLimit.hit
    sui_x402_verifier.RateLimit.key_for sui_x402_verifier.RateLimit.judge
    sui_x402_verifier.RateLimit.Address.show_ip sui_x402_verifier.RateLimit.roll
    sui_x402_verifier.RateLimit.Address.bucket show_u64 sui_x402_verifier.RateLimit.entry_of
    sui_x402_verifier.Auth.tier_str sui_x402_verifier.ExtProc.Headers.grpc_timeout_for
visit_lem = refl

no_payment_lem : get_header (header_map [] visiting.headers) header_payment_signature ≡ none
unfolding header_map get_header lookup
no_payment_lem = refl

handle_request_headers-probe_lost_example :
    handle_request_headers
      (memory_store test_crypto)
      memory_limiter
      test_codec
      test_wire
      (codes "unavailable")
      test_node
      visited
      default_stream
      paying
      9999
      (codes "s")
      (codes "2.0")
    ≡ some (
      record visited { breaker = (state_at visited.breaker (breaker_label paying.policy) 9999).0 },
      default_stream,
      settlement_unavailable
          (codes "unavailable")
          (value_or_empty (header_map [] paying.headers) (codes ":path")),
    )
handle_request_headers-probe_lost_example =
    handle_request_headers-probe_lost (memory_store test_crypto) memory_limiter test_codec test_wire
      (codes "unavailable") test_node tripped_state visited default_stream visit_stream visiting 50
      (codes "r") (codes "1.0") visit_reply test_node default_stream paying 9999 (codes "s")
      (codes "2.0") no_payment_lem half_open_lem visit_lem refl paying_lem

-- The same request, and the answers of an upstream that succeeds, twice.
abbrev served_visit : List Message
served_visit =
    record {
      phase = request_headers paying;
      node = test_node;
      now = 100;
      raw = codes "r";
      elapsed_ms = codes "1.0";
    }
    ∷ record {
      phase = response_headers status_200;
      node = test_node;
      now = 101;
      raw = codes "s";
      elapsed_ms = codes "1.0";
    }
    ∷ record {
      phase = response_headers status_200;
      node = test_node;
      now = 102;
      raw = codes "t";
      elapsed_ms = codes "1.0";
    }
    ∷ []

process-requests_example :
    length
      (process
        (memory_store test_crypto)
        memory_limiter
        test_codec
        test_wire
        (codes "unavailable")
        on_chain
        default_stream
        served_visit).0.broadcasts
    ≤ 1
process-requests_example =
    process-requests (memory_store test_crypto) memory_limiter test_codec test_wire
      (codes "unavailable") on_chain served_visit
