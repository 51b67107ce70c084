-- ===== src/Session/Token.antt =====
-- `TokenCodec`: src/session.rs.
pub mod RoundTrip
pub mod Authentic
use sui_x402_verifier.Base.{
  ℕ, Bool, true, false, Option, none, some, List, [], ◌∷◌, ◌++◌, leb, if◌then◌else◌, Text, text_eq,
  trim, split, show_u64, parse_uint, max_u64, Result, ok, err,
}
use sui_x402_verifier.Session.{Crypto, TokenClaims, SessionRejection, malformed, expired}

abbrev pub colon : ℕ
colon = b':'

-- `{payer}:{expires}:{session_id}`, the part that the MAC covers.
abbrev pub signed_part : Text → Text → Text → Text
signed_part payer expires session_id = payer ++ colon ∷ (expires ++ colon ∷ session_id)

module _ (crypto : Crypto) (hmac_key : Text) where
  unfoldable pub mint : Text → ℕ → Text → Text
  mint payer expires_at session_id =
      let part = signed_part payer (show_u64 expires_at) session_id in
      part ++ colon ∷ crypto.hex_encode (crypto.mac hmac_key part)

  -- After the split into four fields.
  unfoldable pub verify_fields : Text → Text → Text → Text → ℕ → Result SessionRejection TokenClaims
  verify_fields payer expires_raw session_id mac_hex now = elim (crypto.hex_decode mac_hex) [
    | none ↦ err malformed
    | some presented_mac ↦
        if text_eq presented_mac (crypto.mac hmac_key (signed_part payer expires_raw session_id))
        then elim (parse_uint max_u64 expires_raw) [
          | none ↦ err malformed
          | some expires_at ↦
              if leb expires_at now
              then err expired
              else ok (record { payer = payer; expires_at = expires_at; session_id = session_id })
        ]
        else err malformed
  ]

  -- Exactly four parts.
  abbrev with_parts : List Text → ℕ → Result SessionRejection TokenClaims
  with_parts (payer ∷ expires_raw ∷ session_id ∷ mac_hex ∷ []) now =
      verify_fields payer expires_raw session_id mac_hex now
  with_parts _ now = err malformed

  unfoldable pub verify : Text → ℕ → Result SessionRejection TokenClaims
  unfolding verify_fields
  verify token now = with_parts (split (trim token) colon) now
