-- ===== src/ExtProc/Stream.antt =====
-- One stream of the external processor, which is one request of a client: the loop of `process` in
-- src/ext_proc.rs. Each message carries what its handling takes from outside: the fullnode, the
-- clock, random bytes, and how long the phase took.
use sui_x402_verifier.Base.{ℕ, Option, none, some, List, [], ◌∷◌, Text}
use sui_x402_verifier.Sui.{Node}
use sui_x402_verifier.Facilitator.{Codec}
use sui_x402_verifier.Auth.{Store, Limiter, AppState, Wire}
use sui_x402_verifier.ExtProc.{StreamState, RawHeader, Reply, acknowledge, Incoming}
use sui_x402_verifier.ExtProc.Request.{handle_request_headers}
use sui_x402_verifier.ExtProc.Response.{handle_response_headers}

pub data Phase : Type 0 where
  request_headers : Incoming → Phase
  response_headers : List RawHeader → Phase
  other : Phase

pub record Message : Type 0 where
  pub phase : Phase
  pub node : Node
  pub now : ℕ
  pub raw : Text
  pub elapsed_ms : Text

module _ (store : Store) (limiter : Limiter) (codec : Codec) (wire : Wire)
    (unavailable : Text) where
  abbrev pub State : Type 0
  State = AppState store.State limiter.State

  -- The reply to one message.
  unfoldable pub handle : State → StreamState → Message → Option (State × StreamState × Reply)
  unfolding handle_request_headers handle_response_headers
  handle state stream message = elim message.phase [
    | request_headers incoming ↦
        handle_request_headers store limiter codec wire unavailable message.node state stream
          incoming message.now message.raw message.elapsed_ms
    | response_headers headers ↦ some (
        handle_response_headers store limiter codec wire message.node state stream headers
          message.now message.raw message.elapsed_ms)
    | other ↦ some (state, stream, acknowledge)
  ]

  -- `process`, on the messages of a stream; it ends early if a handler panics.
  unfoldable pub process : State → StreamState → List Message → State × StreamState × List Reply
  unfolding handle
  process state stream [] = (state, stream, [])
  process state stream (message ∷ messages) = elim (handle state stream message) [
    | none ↦ (state, stream, [])
    | some (state', stream', reply) ↦
        let (last, end, replies) = process state' stream' messages in (last, end, reply ∷ replies)
  ]
