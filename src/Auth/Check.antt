-- ===== src/Auth/Check.antt =====
-- The `ext_authz` service: `check` of src/auth.rs. A text is parsed as an address by the standard
-- library, the parameter `parse_ip`.
use sui_x402_verifier.Base.{
  ℕ, Bool, false, Option, none, some, [], ◌++◌, if◌then◌else◌, Text, codes, is_empty, starts_with,
  Map, lookup,
}
use sui_x402_verifier.RateLimit.Address.{IpAddr}
use sui_x402_verifier.Sui.{Node}
use sui_x402_verifier.Facilitator.{Codec}
use sui_x402_verifier.Auth.{Store, Limiter, AppState, Wire, immediate}
use sui_x402_verifier.Auth.Headers.{get_header}
use sui_x402_verifier.Auth.Outcomes.{Request}
use sui_x402_verifier.Auth.Decide.{decide}
use sui_x402_verifier.Auth.Response.{CheckResponse, decision_to_response}

pub record HttpRequest : Type 0 where
  pub path : Text
  pub host : Text
  pub scheme : Text

pub record CheckRequest : Type 0 where
  pub client_headers : Option (Map Text)
  pub client_address : Option Text
  pub http : Option HttpRequest
  pub context_extensions : Map Text

-- `resource_url` of src/auth.rs
unfoldable pub authz_resource_url : Option HttpRequest → Text
authz_resource_url none = []
authz_resource_url (some http) =
    if is_empty http.host
    then http.path
    else (if is_empty http.scheme then codes "https" else http.scheme)
      ++ codes "://"
      ++ http.host
      ++ http.path

unfoldable pub is_grpc : Map Text → Bool
is_grpc headers = elim (get_header headers (codes "content-type")) [
  | none ↦ false
  | some ct ↦ starts_with ct (codes "application/grpc")
]

abbrev or_no_headers : Option (Map Text) → Map Text
or_no_headers none = []
or_no_headers (some headers) = headers

abbrev path_of : Option HttpRequest → Text
path_of none = []
path_of (some http) = http.path

abbrev parsed : (Text → Option IpAddr) → Option Text → Option IpAddr
parsed parse_ip none = none
parsed parse_ip (some address) = parse_ip address

-- The request as `decide` takes it.
unfoldable pub authz_request : (Text → Option IpAddr) → CheckRequest → Request
unfolding authz_resource_url
authz_request parse_ip request = record {
  headers = or_no_headers request.client_headers;
  client_ip = parsed parse_ip request.client_address;
  path = path_of request.http;
  policy = lookup (codes "x402_policy") request.context_extensions;
  resource_url = authz_resource_url request.http;
}

module _ (store : Store) (limiter : Limiter) (codec : Codec) (wire : Wire) (node : Node)
    (parse_ip : Text → Option IpAddr) where
  -- `check`
  unfoldable pub check :
      AppState store.State limiter.State
      → CheckRequest
      → ℕ
      → Text
      → Option (AppState store.State limiter.State × CheckResponse)
  unfolding authz_request is_grpc decide decision_to_response
  check state request now raw =
      let incoming = authz_request parse_ip request in
      elim (decide store limiter codec wire node state incoming immediate now raw) [
        | none ↦ none
        | some (state', decision) ↦ some (
          state',
          decision_to_response wire decision incoming.client_ip (is_grpc incoming.headers),
        )
      ]
