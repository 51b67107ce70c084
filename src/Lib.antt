-- ===== src/Lib.antt =====
-- sui-x402-verifier: a gateway beside Envoy that meters anonymous clients, sells paid access for x402
-- payments on Sui, and settles a payment on chain only once the upstream has served the request.
--
-- The parts, and the files that model them (paths from the repository's root):
--
-- src/breaker.rs: Breaker has the circuit breaker, a `Window` per policy in an association list.
--   `state_at` and `record_at` are `ask` and `note` on the policy's window. Breaker/Invariant
--   has their well-formedness, Breaker/Refinement a specification that only remembers the current streak
--   of failures, Breaker/Probe the half-open probe.
-- src/session.rs: Session has the types, Session/Token the signed tokens, Session/Memory the in-memory
--   store with its replay cache, and Session/Spend the compare-exchange loop of `spend_one`, a step of
--   some thread at a time, with exchanges that may fail for no reason. Their children have the theorems.
--   Session/Redis has the store on Redis with its scripts, Session/Redis/Laws what Redis documents;
--   Session/Redis/Claims is about its replay cache, and Session/Redis/Sessions and Session/Redis/Sales
--   set its sessions beside those in memory.
-- src/ratelimit.rs: RateLimit has the sliding window of the in-memory limiter, RateLimit/Address what
--   an address is metered under, RateLimit/Metering and RateLimit/Limits its theorems; RateLimit/Redis
--   the limiter on Redis.
-- src/config.rs: Config has the configuration, overrides and `policy_for`; Config/Validate what startup
--   checks; Config/Policies and Config/Validated what follows for every request. Config/Load has the
--   loading, with what the environment overrides, and the prices that startup warns about;
--   Config/Loaded and Config/Prices are about them.
-- src/x402.rs: X402 has the wire types and error codes, X402/Extensions the session extension,
--   X402/Decode how a payment is read out of a JSON object,
--   Facilitator `check_terms`, `verify` and `settle`, over Json, the values that `serde_json` has.
-- src/sui.rs: Sui asks a fullnode to check, simulate and execute a transaction; Sui/Verified.
-- src/auth.rs: Auth has the types and the interfaces `Store` and `Limiter`; Auth/Decide is `decide`, cut
--   at its numbered steps (session, payment, free tier), over the cases in Auth/Outcomes; Auth/Backends
--   has the in-memory instances. Auth/Policy and Auth/Paid are about every store, Auth/Once and
--   Auth/Total about the in-memory ones. Auth/Check is the ext_authz service, Auth/Response the answer
--   that it builds of a decision, and Auth/Denials is about the message of a denial.
-- src/ext_proc.rs: ExtProc has a stream's state and the replies, ExtProc/Headers the reading of headers,
--   ExtProc/Attributes that of Envoy's attributes (whose results a stream's first message brings),
--   ExtProc/Request and ExtProc/Response the two phases, ExtProc/Stream the loop over messages;
--   ExtProc/Charging, ExtProc/Charged, ExtProc/Counting and
--   ExtProc/Breaking the theorems.
-- src/facilitator_api.rs: FacilitatorApi has the endpoints on the gateway's own state,
--   FacilitatorApi/Table the table of policies, FacilitatorApi/Settling the theorems.
-- src/main.rs: Main starts the service and ticks its timer; Main/Started.
-- src/payclient.rs: Payclient has the ways to fund a payment, Payclient/Build the transactions,
--   Payclient/Keys the key, Payclient/Wire the header that presents a payment, Payclient/Reader what a
--   response says. Payclient/Paths, Payclient/Pays, Payclient/Written, Payclient/Honest and
--   Payclient/Metered are about them.
-- src/bin/x402-demo.rs: Demo has the handler that pays for visitors, Demo/Budget what it can lose,
--   Demo/Hourly what one visitor can make it pay.
-- Base has texts, maps, results, decimals and the tests on numbers that all of these share, and Tests
-- the theorems at work on concrete inputs.
--
-- How the parts interact: ExtProc asks Breaker, then has Auth decide; `decide` resolves terms with
-- Config, consumes a session or claims a payment in the Store, verifies it with Facilitator (which asks
-- Sui), or meters the client with the Limiter. ExtProc keeps a verified payment in its stream's state
-- until the response, and settles or releases it then. The HTTP endpoints work on the same state as the
-- gateway. The client answers the gateway's challenge with a payment of its own building.
--
-- Conventions. Texts are lists of code points. Numbers are natural numbers, with the wrap and the
-- saturation of u64 written out where the code has them. A handler takes the state and returns it. The
-- clock is an argument, read once for a request, and so are the random bytes of a session id. An
-- operation that may panic returns an Option. `broadcasts`, in the service's state, is no field of the
-- program: it is what was sent to the chain. Recursion is structural everywhere, so no fuel is needed.
--
-- Parameters, for code that the repository only calls: `Crypto` (HMAC-SHA256 and hex, with the two laws
-- `HexLaws`), `Codec` (serde_json, base64 and SHA-256 on payments), `Wire` (headers as base64 of JSON,
-- and error texts), and `Node` (the fullnode and BCS), whose answers are arbitrary. `Redis` has the
-- commands of a Redis server, with the laws `KeyLaws` for plain keys, `HashLaws` for hashes and
-- `NumberLaws` for Lua's numbers; its clock is its own, in milliseconds, a command may refuse a lifetime,
-- and a `Link` says whether a round trip is answered.
-- `Sources` has the files and the environment, `Connections` what startup connects to. On the client's
-- side `Chain` is the fullnode and the SDK's builder, `Key` a private key, `Encoder` base64 and
-- serde_json, `Http` the HTTP client, `Environment` the keystore, and `World` what a visit to the demo
-- is answered; `Interop` says that base64 and JSON arrive as sent.
--
-- Not modelled: logs, metrics, listeners and signals; the timings, the pages and the proxies of the
-- demo, and the command line around the client; the rounding of f64 in the rate limiter.
pub mod Base
pub mod Breaker
pub mod Session
pub mod RateLimit
pub mod Config
pub mod Json
pub mod X402
pub mod Sui
pub mod Facilitator
pub mod Auth
pub mod Demo
pub mod ExtProc
pub mod FacilitatorApi
pub mod Main
pub mod Payclient
pub mod Tests
