-- ===== src/X402/Extensions.antt =====
-- The session extension of challenges and receipts: src/x402.rs.
use sui_x402_verifier.Base.{ℕ, ◌≡◌, refl, Option, some, Text, codes, text_eq}
use sui_x402_verifier.Base.Options.{◌>>=◌}
use Prim.Native.String.{String}
use sui_x402_verifier.Json.{
  Json, Fields, object, string, number, array, field, end, item, nil, get, as_str,
}

abbrev pub session_extension : Text
session_extension = codes "sui-x402-verifier.session.v1"

abbrev text : String → Json
text s = string (codes s)

abbrev entry : String → Json → Fields → Fields
entry key value rest = field (codes key) value rest

-- `{ "type": "integer", "minimum": 0 }`
abbrev count_schema : Json
count_schema = object (entry "type" (text "integer") (entry "minimum" (number 0) end))

abbrev token_schema : Json
token_schema = object (
    entry "type" (text "string") (
      entry "description"
        (text
          "Opaque session token. Present it on later                                         requests to reuse the paid tier.")
        end))

abbrev session_schema : Json
session_schema = object (
    entry "$schema" (text "https://json-schema.org/draft/2020-12/schema") (
      entry "type" (text "object") (
        entry "required" (array (item (text "token") nil)) (
          entry "properties"
            (object (
              entry "token" token_schema
                (entry "quota" count_schema (entry "durationSeconds" count_schema end))))
            end))))

unfoldable pub session_extension_advertisement : ℕ → ℕ → Text → Json
session_extension_advertisement quota duration_secs header = object (
    field session_extension
      (object (
        entry "info"
          (object (
            entry "description"
              (text
                "A settled payment mints a reusable session token                                 covering many requests, returned in the                                 PAYMENT-RESPONSE extensions and presented on                                 subsequent requests.")
              (entry "header" (string header) (
                entry "quota" (number quota)
                  (entry "durationSeconds" (number duration_secs) end)))))
          (entry "schema" session_schema end)))
      end)

unfoldable pub session_extension_grant : Text → ℕ → ℕ → Json
session_extension_grant token quota duration_secs = object (
    field session_extension
      (object (
        field (codes "info")
          (object (
            field (codes "token") (string token) (
              field (codes "quota") (number quota)
                (field (codes "durationSeconds") (number duration_secs) end))))
          end))
      end)

unfoldable pub session_token_from_extensions : Option Json → Option Text
session_token_from_extensions extensions = do
  root ← extensions
  extension ← get root session_extension
  info ← get extension (codes "info")
  token ← get info (codes "token")
  as_str token

-- A client that echoes the extensions of its receipt presents the token that it was granted.
pub session_token-grant :
    (token : Text) (quota duration_secs : ℕ)
    → session_token_from_extensions (some (session_extension_grant token quota duration_secs))
      ≡ some token
unfolding session_token_from_extensions session_extension_grant get text_eq as_str
session_token-grant token quota duration_secs = refl
