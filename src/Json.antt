-- ===== src/Json.antt =====
-- JSON values as `serde_json::Value` has them, and the accessors that src/x402.rs uses.
use sui_x402_verifier.Base.{ℕ, Bool, Option, none, some, Text, text_eq, if◌then◌else◌}

mutual
  pub data Json : Type 0 where
    null : Json
    bool : Bool → Json
    number : ℕ → Json
    string : Text → Json
    array : Items → Json
    object : Fields → Json

  pub data Items : Type 0 where
    nil : Items
    item : Json → Items → Items

  pub data Fields : Type 0 where
    end : Fields
    field : Text → Json → Fields → Fields

unfoldable pub get_field : Text → Fields → Option Json
get_field key end = none
get_field key (field k v rest) = if text_eq k key then some v else get_field key rest

-- `value.get(key)`
unfoldable pub get : Json → Text → Option Json
unfolding get_field
get (object fields) key = get_field key fields
get null key = none
get (bool b) key = none
get (number n) key = none
get (string s) key = none
get (array items) key = none

unfoldable pub as_str : Json → Option Text
as_str (string s) = some s
as_str null = none
as_str (bool b) = none
as_str (number n) = none
as_str (array items) = none
as_str (object fields) = none
