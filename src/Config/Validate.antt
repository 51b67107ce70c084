-- ===== src/Config/Validate.antt =====
-- Validation at startup: src/config.rs.
use sui_x402_verifier.Base.{
  ℕ, ◌-◌, ◌^◌, Bool, true, false, not, ◌&&◌, ◌||◌, Option, none, some, List, [], ◌∷◌, ltb, leb,
  ◌==◌, if◌then◌else◌, Text, codes, text_eq, Map, starts_with, utf8_len, is_empty, trim, parse_uint,
  all, length, Result, ok, err, ◌>>=◌, ◌>>◌, bail_if,
}
use sui_x402_verifier.Session.{Crypto}
use sui_x402_verifier.Config.{
  Config, PaymentOverride, FreeTierConfig, PaidTierConfig, RouteOverride, StoreBackend, redis,
  memory,
}

pub data ConfigError : Type 0 where
  unsupported_scheme bad_amount pay_to_no_prefix pay_to_bad_hex pay_to_zero : ConfigError
  zero_window zero_duration zero_quota : ConfigError
  bad_service_name too_many_tags bad_tag icon_too_long icon_not_http : ConfigError
  empty_path_prefix no_redis_url : ConfigError
  secret_empty secret_placeholder secret_not_hex secret_short : ConfigError

abbrev pub sui_address_hex_len : ℕ
sui_address_hex_len = 64

abbrev pub min_hmac_key_bytes : ℕ
min_hmac_key_bytes = 32

abbrev pub max_u128 : ℕ
max_u128 = 2 ^ 128 - 1

abbrev pub Checked : Type 0
Checked = Result ConfigError (Unit {0})

unfoldable pub is_ascii_hexdigit : ℕ → Bool
is_ascii_hexdigit c =
    (leb b'0' c && leb c b'9') || (leb b'a' c && leb c b'f') || (leb b'A' c && leb c b'F')

-- `strip_prefix("0x")`
unfoldable pub strip_0x : Text → Option Text
strip_0x [] = none
strip_0x (a ∷ []) = none
strip_0x (a ∷ b ∷ s) = if (a == b'0') && (b == b'x') then some s else none

unfoldable pub validate_hex_part : Text → Checked
validate_hex_part hex_part = do
  bail_if (not (utf8_len hex_part == sui_address_hex_len) || not (all is_ascii_hexdigit hex_part))
      pay_to_bad_hex
  bail_if (all (λ c. c == b'0') hex_part) pay_to_zero
  ok tt

unfoldable pub validate_pay_to : Text → Checked
unfolding strip_0x validate_hex_part
validate_pay_to pay_to = elim (strip_0x pay_to) [
  | none ↦ err pay_to_no_prefix
  | some hex_part ↦ validate_hex_part hex_part
]

-- `amount.parse::<u128>().is_err()`
unfoldable pub bad_amount? : Text → Bool
bad_amount? amount = elim (parse_uint max_u128 amount) [ none ↦ true | some _ ↦ false ]

unfoldable pub validate_free : FreeTierConfig → Checked
validate_free tier = do bail_if (tier.window_secs == 0) zero_window; ok tt

unfoldable pub validate_paid : PaidTierConfig → Checked
validate_paid tier = do
  bail_if (tier.duration_secs == 0) zero_duration
  bail_if (tier.quota == 0) zero_quota
  ok tt

-- Runs a check on an optional field.
abbrev pub if_some {ℓ} : {A : Type ℓ} → Option A → (A → Checked) → Checked
if_some none check = ok tt
if_some (some a) check = check a

abbrev pub check_amount : Text → Checked
check_amount amount = bail_if (bad_amount? amount) bad_amount

unfoldable pub validate_override : PaymentOverride → Checked
unfolding validate_pay_to bad_amount? validate_free validate_paid
validate_override over = do
  if_some over.pay_to validate_pay_to
  if_some over.amount check_amount
  if_some over.free_tier validate_free
  if_some over.paid_tier validate_paid

unfoldable pub is_ascii : Text → Bool
is_ascii = all (λ c. ltb c 0x80)

abbrev max_field : ℕ
max_field = 32

abbrev bad_field : Text → Bool
bad_field s = ltb max_field (utf8_len s) || not (is_ascii s)

unfoldable pub validate_tags : List Text → Checked
validate_tags [] = ok tt
validate_tags (tag ∷ tags) = do bail_if (bad_field tag) bad_tag; validate_tags tags

abbrev check_icon : Text → Checked
check_icon icon = do
  bail_if (ltb 2048 (utf8_len icon)) icon_too_long
  bail_if (not (starts_with icon (codes "http://")) && not (starts_with icon (codes "https://")))
      icon_not_http

unfoldable pub validate_discovery_metadata : Config → Checked
unfolding validate_tags is_ascii
validate_discovery_metadata config = do
  if_some config.payment.service_name (λ name. bail_if (bad_field name) bad_service_name)
  bail_if (ltb 5 (length config.payment.tags)) too_many_tags
  validate_tags config.payment.tags
  if_some config.payment.icon_url check_icon

unfoldable pub validate_policies : Map PaymentOverride → Checked
validate_policies [] = ok tt
validate_policies ((name, over) ∷ rest) = do validate_override over; validate_policies rest

unfoldable pub validate_routes : List RouteOverride → Checked
validate_routes [] = ok tt
validate_routes (route ∷ routes) = do
  bail_if (is_empty route.path_prefix) empty_path_prefix
  validate_override route.overrides
  validate_routes routes

abbrev is_redis : StoreBackend → Bool
is_redis memory = false
is_redis redis = true

-- The placeholder of the example configuration.
abbrev pub placeholder_hmac_secret : Text
placeholder_hmac_secret = codes "abababababababababababababababababababababababababababababababab"

module _ (crypto : Crypto) where
  unfoldable pub hmac_key : Config → Result ConfigError Text
  hmac_key config = do
    bail_if (is_empty config.session_hmac_secret) secret_empty
    bail_if (text_eq (trim config.session_hmac_secret) placeholder_hmac_secret) secret_placeholder
    elim (crypto.hex_decode config.session_hmac_secret) [
      | none ↦ err secret_not_hex
      | some key ↦ do bail_if (ltb (length key) min_hmac_key_bytes) secret_short; ok key
    ]

  unfoldable pub validate : Config → Checked
  unfolding hmac_key
  validate config = do
    bail_if (not (text_eq config.payment.scheme (codes "exact"))) unsupported_scheme
    bail_if (bad_amount? config.payment.amount) bad_amount
    validate_pay_to config.payment.pay_to
    validate_free config.free_tier
    validate_paid config.paid_tier
    validate_discovery_metadata config
    validate_policies config.policies
    validate_routes config.routes
    bail_if (is_redis config.store.backend && is_empty config.store.redis_url) no_redis_url
    _ ← hmac_key config
    ok tt
