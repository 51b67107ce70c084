-- ===== src/Payclient/Written.antt =====
-- The client's JSON as the server reads it: src/payclient.rs, src/x402.rs.
use sui_x402_verifier.Base.{
  ◌≤◌, leb, true, none, text_eq, ◌≡◌, refl, some, Text, max_u64, ok, arith,
}
use sui_x402_verifier.X402.{PaymentPayload}
use sui_x402_verifier.X402.Decode.{payload_of, sui_of}
use sui_x402_verifier.Json.{get, get_field, as_str}
use sui_x402_verifier.Payclient.Wire.{PaymentRequirements, Encoder, payload_json, signed_json}

-- The payload that the server reads in the client's JSON.
abbrev pub written_payload : Encoder → Text → PaymentRequirements → Text → Text → PaymentPayload
written_payload encoder url terms signature transaction = record {
  x402_version = 2;
  resource = some (record {
    url = url;
    description = none;
    mime_type = none;
    service_name = none;
    tags = none;
    icon_url = none;
  });
  accepted = record {
    scheme = terms.scheme;
    network = terms.network;
    amount = terms.amount;
    asset = terms.asset;
    pay_to = terms.pay_to;
    max_timeout_seconds = terms.max_timeout_seconds;
    extra = none;
  };
  payload = signed_json encoder signature transaction;
  extensions = none;
}

pub payload_of-payload_json :
    (encoder : Encoder) (url : Text) (terms : PaymentRequirements) (signature transaction : Text)
    → terms.max_timeout_seconds ≤ max_u64
    → payload_of (payload_json encoder url terms signature transaction)
      ≡ ok (written_payload encoder url terms signature transaction)
unfolding payload_of payload_json get get_field text_eq as_str
payload_of-payload_json encoder url terms signature transaction word =
    let fits : leb terms.max_timeout_seconds max_u64 ≡ true = ground arith in rw fits refl

pub sui_of-signed_json :
    (encoder : Encoder) (signature transaction : Text)
    → sui_of (signed_json encoder signature transaction)
      ≡ ok (record { signature = encoder.b64 signature; transaction = encoder.b64 transaction })
unfolding sui_of signed_json get get_field text_eq as_str
sui_of-signed_json encoder signature transaction = refl
