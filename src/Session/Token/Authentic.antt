-- ===== src/Session/Token/Authentic.antt =====
-- What an honoured token proves: src/session.rs.
use mathlib.Core.List.{append_assoc}
use sui_x402_verifier.Base.{
  ℕ, ◌≡◌, ◌<◌, sym, ap, ◌∙◌, some, List, [], ◌∷◌, ◌++◌, inl, inr, Option-cases, Text, text_eq_iff,
  trim, split, join-split, join, parse_uint, max_u64, ok, arith,
}
use sui_x402_verifier.Session.{Crypto, TokenClaims}
use sui_x402_verifier.Session.Token.{colon, signed_part, verify, verify_fields, with_parts}

module _ (crypto : Crypto) (hmac_key : Text) where
  open crypto use {mac, hex_decode}

  -- The raw expiry and the MAC of a token that carries these claims.
  abbrev pub Authenticates : Text → TokenClaims → ℕ → Text → Text → Type 0
  Authenticates token claims now raw mac_hex =
      (trim token ≡ signed_part claims.payer raw claims.session_id ++ colon ∷ mac_hex)
      × (hex_decode mac_hex ≡ some (mac hmac_key (signed_part claims.payer raw claims.session_id)))
      × (parse_uint max_u64 raw ≡ some claims.expires_at)
      × (now < claims.expires_at)

  fields_lem :
      (payer raw sid mac_hex : Text) (now : ℕ) {claims : TokenClaims}
      → verify_fields crypto hmac_key payer raw sid mac_hex now ≡ ok claims
      → (claims.payer ≡ payer)
        × (claims.session_id ≡ sid)
        × (hex_decode mac_hex ≡ some (mac hmac_key (signed_part payer raw sid)))
        × (parse_uint max_u64 raw ≡ some claims.expires_at)
        × (now < claims.expires_at)
  unfolding verify_fields
  fields_lem payer raw sid mac_hex now h = elim (Option-cases (hex_decode mac_hex)) [
    | inl e ↦ ground arith
    | inr (m, e) ↦ elim (Option-cases (parse_uint max_u64 raw)) [
      | inl f ↦ ground arith
      | inr (x, f) ↦ ground (arith, text_eq_iff m (mac hmac_key (signed_part payer raw sid)))
    ]
  ]

  parts_lem :
      (token : Text) (ps : List Text) (now : ℕ) {claims : TokenClaims}
      → join ps colon ≡ trim token
      → with_parts crypto hmac_key ps now ≡ ok claims
      → (raw : Text) × (mac_hex : Text) × Authenticates token claims now raw mac_hex
  parts_lem token (payer ∷ raw ∷ sid ∷ mac_hex ∷ []) now {claims} j h =
      let (p, s, d, x, lt) = fields_lem payer raw sid mac_hex now h in
      let whole : trim token ≡ signed_part payer raw sid ++ colon ∷ mac_hex =
        sym j
        ∙ sym (
            append_assoc payer (colon ∷ (raw ++ colon ∷ sid)) (colon ∷ mac_hex)
            ∙ ap (λ t. payer ++ colon ∷ t) (append_assoc raw (colon ∷ sid) (colon ∷ mac_hex))) in
      (raw, mac_hex, (rw (p, s) whole, rw (p, s) d, x, lt))
  parts_lem token _ now j h = cc

  -- A token is honoured only if it is, up to whitespace at its ends, the claims and an expiry text
  -- with the right MAC over them behind it, the expiry text parses to the claimed deadline, and
  -- that deadline lies ahead.
  pub verify-Authenticates :
      (token : Text) (now : ℕ) {claims : TokenClaims}
      → verify crypto hmac_key token now ≡ ok claims
      → (raw : Text) × (mac_hex : Text) × Authenticates token claims now raw mac_hex
  unfolding verify
  verify-Authenticates token now h =
      parts_lem token (split (trim token) colon) now (join-split (trim token) colon) h
