-- ===== src/Payclient/Reader.antt =====
-- What the client makes of a response: src/payclient.rs. A duration is an `f64`, whose parser is a
-- parameter, as are the decoders of the two payment headers.
use sui_x402_verifier.Base.{
  ℕ, Option, none, some, List, [], ◌∷◌, ◌++◌, if◌then◌else◌, Text, codes, trim, split, is_empty,
  parse_uint, max_u64, Result, ok, ◌>>=◌,
}
use sui_x402_verifier.ExtProc.Headers.{strip_prefix}
use sui_x402_verifier.Payclient.Build.{context}
use sui_x402_verifier.Payclient.Wire.{PaymentRequired, SettlementResponse}

pub record Meter : Type 0 where
  pub tier : Option Text
  pub free_remaining : Option ℕ
  pub free_limit : Option ℕ
  pub free_reset : Option ℕ
  pub session_remaining : Option ℕ
  pub session_quota : Option ℕ
  pub session_expires : Option ℕ

pub record Attempt (Float : Type 0) : Type 0 where
  pub status : ℕ
  pub body : Text
  pub payment_required : Option PaymentRequired
  pub payment_response : Option SettlementResponse
  pub session : Option Text
  pub meter : Meter
  pub elapsed_ms : Float
  pub server_timing : List (Text × Float)
  pub upstream_ms : Option Float

-- A response: `header` finds the first value under a name, where that value is text.
pub record Response : Type 0 where
  pub status : ℕ
  pub header : Text → Option Text
  pub body : Option Text

pub record Outgoing : Type 0 where
  pub method : Text
  pub url : Text
  pub headers : List (Text × Text)
  pub body : Option Text

-- The HTTP client, `serde_json` behind base64, and the parser of `f64`.
pub record Http (Float : Type 0) : Type 0 where
  pub parse_method : Text → Result Text Text
  pub perform : Outgoing → Result Text Response
  pub parse_f64 : Text → Option Float
  pub decode_challenge : Text → Option PaymentRequired
  pub decode_receipt : Text → Option SettlementResponse

abbrev number_of : Option Text → Option ℕ
number_of none = none
number_of (some v) = parse_uint max_u64 (trim v)

unfoldable pub read_number : (Text → Option Text) → Text → Option ℕ
read_number header name = number_of (header name)

unfoldable pub read_meter : (Text → Option Text) → Meter
unfolding read_number
read_meter header = record {
  tier = header (codes "x-x402-tier");
  free_remaining = read_number header (codes "x-x402-free-remaining");
  free_limit = read_number header (codes "x-x402-free-limit");
  free_reset = read_number header (codes "x-x402-free-reset");
  session_remaining = read_number header (codes "x-x402-session-remaining");
  session_quota = read_number header (codes "x-x402-session-quota");
  session_expires = read_number header (codes "x-x402-session-expires");
}

abbrev body_unless_empty : Text → Option Text
body_unless_empty body = if is_empty body then none else some body

abbrev payment_header : Option Text → List (Text × Text)
payment_header none = []
payment_header (some payment) = (codes "payment-signature", payment) ∷ []

abbrev decoded {ℓ} : {A : Type ℓ} → (Text → Option A) → Option Text → Option A
decoded decode none = none
decoded decode (some raw) = decode (trim raw)

module _ {Float : Type 0} (parse_f64 : Text → Option Float) where
  -- `p.trim().strip_prefix("dur=")?.parse::<f64>().ok()`
  unfoldable pub duration : Text → Option Float
  unfolding strip_prefix
  duration part = elim (strip_prefix (trim part) (codes "dur=")) [
    | none ↦ none
    | some raw ↦ parse_f64 raw
  ]

  -- `parts.find_map(..)`
  unfoldable pub first_duration : List Text → Option Float
  unfolding duration
  first_duration [] = none
  first_duration (part ∷ parts) =
      let later = first_duration parts in
      elim (duration part) [ none ↦ later | some dur ↦ some dur ]

  -- One metric: its name, and the first duration among its parts.
  unfoldable pub metric : List Text → Option (Text × Float)
  unfolding first_duration
  metric [] = none
  metric (name ∷ parts) = elim (first_duration parts) [
    | none ↦ none
    | some dur ↦ some (trim name, dur)
  ]

  unfoldable pub metrics : List Text → List (Text × Float)
  unfolding metric
  metrics [] = []
  metrics (m ∷ ms) =
      let rest = metrics ms in
      elim (metric (split m b';')) [ none ↦ rest | some pair ↦ pair ∷ rest ]

  unfoldable pub parse_server_timing : Text → List (Text × Float)
  unfolding metrics
  parse_server_timing raw = metrics (split raw b',')

  abbrev timings : Option Text → List (Text × Float)
  timings none = []
  timings (some raw) = parse_server_timing raw

  abbrev float_of : Option Text → Option Float
  float_of none = none
  float_of (some v) = parse_f64 (trim v)

abbrev body_or_empty : Option Text → Text
body_or_empty none = []
body_or_empty (some body) = body

module _ {Float : Type 0} (http : Http Float) where
  -- The attempt that a response tells of.
  unfoldable pub read_response : Response → Float → Attempt Float
  unfolding read_meter parse_server_timing
  read_response response elapsed_ms = record {
    status = response.status;
    body = body_or_empty response.body;
    payment_required = decoded http.decode_challenge (response.header (codes "payment-required"));
    payment_response = decoded http.decode_receipt (response.header (codes "payment-response"));
    session = response.header (codes "x-payment-session");
    meter = read_meter response.header;
    elapsed_ms = elapsed_ms;
    server_timing = timings http.parse_f64 (response.header (codes "server-timing"));
    upstream_ms = float_of http.parse_f64 (response.header (codes "x-envoy-upstream-service-time"));
  }

  unfoldable pub outgoing : Text → Text → List (Text × Text) → Text → Option Text → Outgoing
  outgoing method url headers body payment = record {
    method = method;
    url = url;
    headers = headers ++ payment_header payment;
    body = body_unless_empty body;
  }

  -- `send`
  unfoldable pub send :
      Text → Text → List (Text × Text) → Text → Option Text → Float → Result Text (Attempt Float)
  unfolding read_response outgoing
  send method url headers body payment elapsed_ms = do
    parsed ← context (http.parse_method method) (codes "invalid HTTP method")
    response ←
        context (http.perform (outgoing parsed url headers body payment))
          (codes "sending the request")
    ok (read_response response elapsed_ms)
