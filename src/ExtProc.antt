-- ===== src/ExtProc.antt =====
-- Envoy's external processor: src/ext_proc.rs. This file has a stream's state and its messages;
-- `Headers` reads and builds headers, `Request` and `Response` are the two phases, `Stream` runs
-- them in order, and `Charging`, `Charged`, `Counting` and `Breaking` have the theorems.
pub mod Headers
pub mod Attributes
pub mod Request
pub mod Response
pub mod Stream
pub mod Charging
pub mod Charged
pub mod Breaking
pub mod Counting
use sui_x402_verifier.Base.{ℕ, Option, none, List, [], Text}
use sui_x402_verifier.RateLimit.Address.{IpAddr}
use sui_x402_verifier.Auth.{PendingPayment, Meter, unknown_meter}

-- What the response phase needs of the request phase. `decide_ms` is the duration as printed.
pub record StreamState : Type 0 where
  pub pending : Option PendingPayment
  pub policy : Option Text
  pub path : Text
  pub meter : Meter
  pub decide_ms : Text

abbrev pub default_stream : StreamState
default_stream = record {
  pending = none;
  policy = none;
  path = [];
  meter = unknown_meter;
  decide_ms = [];
}

-- A header as Envoy sends it, with its raw value decoded.
pub record RawHeader : Type 0 where
  pub key : Text
  pub value : Text
  pub raw_value : Text

-- A header that Envoy is to overwrite.
abbrev pub SetHeader : Type 0
SetHeader = Text × Text

pub data Reply : Type 0 where
  -- The headers to set on the request, and those to remove.
  request_continue : List SetHeader → List Text → Reply
  -- The headers to set on the response.
  response_continue : List SetHeader → Reply
  -- Status, headers and body.
  immediate_response : ℕ → List SetHeader → Text → Reply
  acknowledge : Reply

-- What a request brings: its headers, and what Envoy's attributes say.
pub record Incoming : Type 0 where
  pub headers : List RawHeader
  pub client_ip : Option IpAddr
  pub policy : Option Text
