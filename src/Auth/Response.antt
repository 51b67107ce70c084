-- ===== src/Auth/Response.antt =====
-- What Envoy is told of a decision, through `ext_authz`: src/auth.rs. Envoy drops a header that is
-- set to an empty value.
use sui_x402_verifier.Base.{
  ℕ, ◌/◌, ◌%◌, Bool, true, false, not, ◌&&◌, Option, none, some, List, [], ◌∷◌, ◌++◌, leb, ◌==◌,
  if◌then◌else◌, Text, codes, Map, insert, bytes, hex_upper,
}
use sui_x402_verifier.RateLimit.Address.{IpAddr, show_ip}
use sui_x402_verifier.X402.{
  SettlementResponse, header_payment_signature, header_payment_session, header_payment_required,
  header_payment_response,
}
use sui_x402_verifier.Auth.{Tier, tier_str, Allowed, Denied, Decision, allow, deny, Wire}
use sui_x402_verifier.Auth.Headers.{meter_headers}

-- A header with its append action: whether it overwrites what is there.
pub record HeaderOption : Type 0 where
  pub key : Text
  pub value : Text
  pub overwrite : Bool

pub data HttpResponse : Type 0 where
  -- The headers set on the request, those removed from it, and those set on the response.
  ok_response : List HeaderOption → List Text → List HeaderOption → HttpResponse
  -- Status, headers and body.
  denied_response : ℕ → List HeaderOption → Option Text → HttpResponse

-- `denial` is the message of a status that is not OK.
pub record CheckResponse : Type 0 where
  pub denial : Option Text
  pub http : HttpResponse
  pub metadata : Option (Map Text)

-- A byte as it may stand in `grpc-message`.
unfoldable pub percent_byte : ℕ → Text
percent_byte b =
    if leb b' ' b && leb b b'~' && not (b == b'%')
    then b ∷ []
    else b'%' ∷ hex_upper (b / 16) ∷ hex_upper (b % 16) ∷ []

unfoldable pub percent_bytes : List ℕ → Text
unfolding percent_byte
percent_bytes [] = []
percent_bytes (b ∷ bs) = percent_byte b ++ percent_bytes bs

unfoldable pub grpc_message : Text → Text
unfolding percent_bytes
grpc_message reason = percent_bytes (bytes reason)

abbrev insert_if : Text → Option Text → Map Text → Map Text
insert_if key none m = m
insert_if key (some value) m = insert key value m

abbrev shown_ip : Option IpAddr → Option Text
shown_ip none = none
shown_ip (some ip) = some (show_ip ip)

unfoldable pub rate_limit_metadata : Tier → Option Text → Option IpAddr → Map Text
rate_limit_metadata tier payer client_ip =
    insert_if (codes "source_ip") (shown_ip client_ip)
      (insert_if (codes "payer") payer (insert (codes "tier") (tier_str tier) []))

-- Headers that overwrite, and headers that do not say.
abbrev pub overwriting : List (Text × Text) → List HeaderOption
overwriting [] = []
overwriting ((key, value) ∷ rest) =
    record { key = key; value = value; overwrite = true } ∷ overwriting rest

abbrev pub plain : List (Text × Text) → List HeaderOption
plain [] = []
plain ((key, value) ∷ rest) = record { key = key; value = value; overwrite = false } ∷ plain rest

abbrev pub or_empty : Option Text → Text
or_empty none = []
or_empty (some t) = t

abbrev pub one_if : Text → Option Text → List (Text × Text)
one_if name none = []
one_if name (some value) = (name, value) ∷ []

abbrev pub receipt_text : Wire → Option SettlementResponse → Option Text
receipt_text wire none = none
receipt_text wire (some receipt) = wire.encode_receipt receipt

unfoldable pub allow_response : Wire → Allowed → Option IpAddr → CheckResponse
unfolding rate_limit_metadata
allow_response wire allowed client_ip = record {
  denial = none;
  http =
      ok_response
        (overwriting (
          (codes "x-x402-tier", tier_str allowed.tier)
          ∷ (codes "x-x402-payer", or_empty allowed.payer)
          ∷ []))
        (header_payment_signature ∷ header_payment_session ∷ [])
        (overwriting (
          one_if header_payment_session allowed.session_token
          ++ one_if header_payment_response (receipt_text wire allowed.settlement)
          ++ meter_headers allowed.meter));
  metadata = some (rate_limit_metadata allowed.tier allowed.payer client_ip);
}

-- The headers of a denial that do not depend on how it is framed.
unfoldable pub denied_headers : Wire → Denied → List (Text × Text)
denied_headers wire denied =
    one_if header_payment_response (receipt_text wire denied.receipt)
    ++ one_if header_payment_required (wire.encode_challenge denied.challenge)
    ++ meter_headers denied.meter

-- A denial for a gRPC client: trailers only, with the status in them.
unfoldable pub grpc_denial : Wire → Denied → HttpResponse
unfolding denied_headers grpc_message
grpc_denial wire denied =
    denied_response 200
      (plain (
        denied_headers wire denied
        ++ (codes "content-type", codes "application/grpc")
          ∷ (codes "grpc-status", codes "8")
          ∷ (codes "grpc-message", grpc_message (or_empty denied.challenge.error))
          ∷ []))
      none

abbrev json_type : Option Text → List (Text × Text)
json_type none = []
json_type (some body) = (codes "content-type", codes "application/json") ∷ []

unfoldable pub http_denial : Wire → Denied → HttpResponse
unfolding denied_headers
http_denial wire denied =
    let body = wire.challenge_body denied.challenge in
    denied_response 402 (plain (denied_headers wire denied ++ json_type body)) body

-- `decision_to_response`
unfoldable pub decision_to_response : Wire → Decision → Option IpAddr → Bool → CheckResponse
unfolding allow_response grpc_denial http_denial
decision_to_response wire (allow allowed) client_ip grpc = allow_response wire allowed client_ip
decision_to_response wire (deny denied) client_ip grpc = record {
  denial = some (or_empty denied.challenge.error);
  http = (if grpc then grpc_denial wire denied else http_denial wire denied);
  metadata = none;
}
