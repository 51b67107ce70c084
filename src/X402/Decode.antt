-- ===== src/X402/Decode.antt =====
-- How the derived `Deserialize` of src/x402.rs reads a payment out of a JSON object: the fields by
-- their camelCase names, those that are no `Option` required, a missing or null `Option` as none. An
-- error is the name of the field. No key is there twice.
use sui_x402_verifier.Base.{
  ℕ, ◌-◌, ◌^◌, Option, none, some, List, [], ◌∷◌, leb, if◌then◌else◌, Text, codes, max_u64, Result,
  ok, err, ◌>>=◌,
}
use sui_x402_verifier.Json.{
  Json, Items, null, bool, number, string, array, object, nil, item, get, as_str,
}
use sui_x402_verifier.X402.{ResourceInfo, PaymentRequirements, SuiExactPayload, PaymentPayload}

abbrev max_u32 : ℕ
max_u32 = 2 ^ 32 - 1

-- A field that is there, and as what it is there.
abbrev required {ℓ} : {A : Type ℓ} → Text → Option A → Result Text A
required name none = err name
required name (some a) = ok a

abbrev within : ℕ → Option Json → Option ℕ
within max (some (number n)) = if leb n max then some n else none
within max (some null) = none
within max (some (bool b)) = none
within max (some (string s)) = none
within max (some (array items)) = none
within max (some (object fields)) = none
within max none = none

abbrev text_of : Option Json → Option Text
text_of none = none
text_of (some json) = as_str json

abbrev not_null : Option Json → Option Json
not_null none = none
not_null (some null) = none
not_null (some (bool b)) = some (bool b)
not_null (some (number n)) = some (number n)
not_null (some (string s)) = some (string s)
not_null (some (array items)) = some (array items)
not_null (some (object fields)) = some (object fields)

-- An `Option<String>`.
abbrev optional_text : Text → Option Json → Result Text (Option Text)
optional_text name none = ok none
optional_text name (some json) = elim (as_str json) [ none ↦ err name | some s ↦ ok (some s) ]

unfoldable pub texts_of : Items → Option (List Text)
texts_of nil = some []
texts_of (item json items) = elim (texts_of items) [
  | none ↦ none
  | some rest ↦ elim (as_str json) [ none ↦ none | some s ↦ some (s ∷ rest) ]
]

abbrev items_of : Json → Option Items
items_of (array items) = some items
items_of null = none
items_of (bool b) = none
items_of (number n) = none
items_of (string s) = none
items_of (object fields) = none

-- An `Option<Vec<String>>`.
abbrev optional_texts : Text → Option Json → Result Text (Option (List Text))
optional_texts name none = ok none
optional_texts name (some json) = elim (items_of json) [
  | none ↦ err name
  | some items ↦ elim (texts_of items) [ none ↦ err name | some texts ↦ ok (some texts) ]
]

abbrev text_field : Json → Text → Result Text Text
text_field json name = required name (text_of (get json name))

unfoldable pub resource_of : Json → Result Text ResourceInfo
resource_of json = do
  url ← text_field json (codes "url")
  description ← optional_text (codes "description") (not_null (get json (codes "description")))
  mime_type ← optional_text (codes "mimeType") (not_null (get json (codes "mimeType")))
  service_name ← optional_text (codes "serviceName") (not_null (get json (codes "serviceName")))
  tags ← optional_texts (codes "tags") (not_null (get json (codes "tags")))
  icon_url ← optional_text (codes "iconUrl") (not_null (get json (codes "iconUrl")))
  ok (record {
    url = url;
    description = description;
    mime_type = mime_type;
    service_name = service_name;
    tags = tags;
    icon_url = icon_url;
  })

abbrev optional_resource : Option Json → Result Text (Option ResourceInfo)
optional_resource none = ok none
optional_resource (some json) = do resource ← resource_of json; ok (some resource)

unfoldable pub requirements_of : Json → Result Text PaymentRequirements
requirements_of json = do
  scheme ← text_field json (codes "scheme")
  network ← text_field json (codes "network")
  amount ← text_field json (codes "amount")
  asset ← text_field json (codes "asset")
  pay_to ← text_field json (codes "payTo")
  max_timeout_seconds ←
      required (codes "maxTimeoutSeconds") (within max_u64 (get json (codes "maxTimeoutSeconds")))
  ok (record {
    scheme = scheme;
    network = network;
    amount = amount;
    asset = asset;
    pay_to = pay_to;
    max_timeout_seconds = max_timeout_seconds;
    extra = not_null (get json (codes "extra"));
  })

unfoldable pub sui_of : Json → Result Text SuiExactPayload
sui_of json = do
  signature ← text_field json (codes "signature")
  transaction ← text_field json (codes "transaction")
  ok (record { signature = signature; transaction = transaction })

unfoldable pub payload_of : Json → Result Text PaymentPayload
unfolding resource_of requirements_of
payload_of json = do
  x402_version ← required (codes "x402Version") (within max_u32 (get json (codes "x402Version")))
  resource ← optional_resource (not_null (get json (codes "resource")))
  accepted_json ← required (codes "accepted") (get json (codes "accepted"))
  accepted ← requirements_of accepted_json
  payload ← required (codes "payload") (get json (codes "payload"))
  ok (record {
    x402_version = x402_version;
    resource = resource;
    accepted = accepted;
    payload = payload;
    extensions = not_null (get json (codes "extensions"));
  })
