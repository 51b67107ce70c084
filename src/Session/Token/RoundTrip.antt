-- ===== src/Session/Token/RoundTrip.antt =====
-- Tokens from minting to verification: src/session.rs.
use mathlib.Core.List.{append_assoc}
use sui_x402_verifier.Base.{
  ℕ, ◌≡◌, refl, true, false, [], ◌∷◌, ◌++◌, leb, ◌≤◌, if◌then◌else◌, Text, text_eq_refl, trim,
  trim_start, trim_end, is_whitespace, split, split-Lacks, split-append, Lacks, show_u64,
  show_u64-IsDigits, IsDigits, parse_uint-show_u64, max_u64, ok, err, All, All-append, arith,
}
use sui_x402_verifier.Session.{Crypto, HexLaws, is_hex_digit, expired}
use sui_x402_verifier.Session.Token.{colon, signed_part, mint, verify, verify_fields}

-- No character is whitespace, so trimming changes nothing.
abbrev pub IsSolid : Text → Type 0
IsSolid = All (λ c. is_whitespace c ≡ false)

trim_start-IsSolid : (s : Text) → IsSolid s → trim_start s ≡ s
unfolding trim_start
trim_start-IsSolid [] h = refl
trim_start-IsSolid (c ∷ s) h = ground arith

trim_end-IsSolid : (s : Text) → IsSolid s → trim_end s ≡ s
unfolding trim_end
trim_end-IsSolid [] h = refl
trim_end-IsSolid (c ∷ []) h = ground arith
trim_end-IsSolid (c ∷ d ∷ s) h = rw (trim_end-IsSolid (d ∷ s) h.1, trim_end)

trim-IsSolid : (s : Text) → IsSolid s → trim s ≡ s
unfolding trim
trim-IsSolid s h = rw (trim_start-IsSolid s h) (trim_end-IsSolid s h)

-- A field that a token can carry: it holds no delimiter and no whitespace.
abbrev pub IsField : Text → Type 0
IsField s = Lacks colon s × IsSolid s

digits-IsField : (s : Text) → IsDigits s → IsField s
unfolding is_whitespace
digits-IsField [] h = (tt, tt)
digits-IsField (c ∷ s) h = ground (arith, digits-IsField s h.1)

pub hex-IsField : (s : Text) → All (λ c. is_hex_digit c ≡ true) s → IsField s
unfolding is_whitespace
hex-IsField [] h = (tt, tt)
hex-IsField (c ∷ s) h = ground (arith, hex-IsField s h.1)

colon-solid : is_whitespace colon ≡ false
unfolding is_whitespace
colon-solid = refl

-- Four fields with colons between them.
joined-IsSolid : (s t : Text) → IsSolid s → IsSolid t → IsSolid (s ++ colon ∷ t)
joined-IsSolid s t hs ht = All-append _ s (colon ∷ t) hs (colon-solid, ht)

module _ (crypto : Crypto) (laws : HexLaws crypto) (hmac_key : Text) where
  open crypto use {mac, hex_encode}

  mint_split :
      (payer e sid : Text)
      → IsField payer
      → IsField e
      → IsField sid
      → (h : Text) → IsField h
      → split (trim (signed_part payer e sid ++ colon ∷ h)) colon ≡ payer ∷ e ∷ sid ∷ h ∷ []
  mint_split payer e sid (lp, sp) (le, se) (ls, ss) h (lh, sh) = rw (
    append_assoc payer (colon ∷ (e ++ colon ∷ sid)) (colon ∷ h),
    append_assoc e (colon ∷ sid) (colon ∷ h),
    trim-IsSolid _ (joined-IsSolid payer _ sp (joined-IsSolid e _ se (joined-IsSolid sid h ss sh))),
    split-append payer (e ++ colon ∷ (sid ++ colon ∷ h)) colon lp,
    split-append e (sid ++ colon ∷ h) colon le,
    split-append sid h colon ls,
    split-Lacks h colon lh,
  )

  -- A token that the codec minted for a payer and a session id without delimiters verifies to the
  -- claims that it was minted with while its deadline lies ahead, and is refused as expired from
  -- the deadline on.
  pub verify-mint :
      (payer sid : Text) (expires_at now : ℕ)
      → IsField payer
      → IsField sid
      → expires_at ≤ max_u64
      → verify crypto hmac_key (mint crypto hmac_key payer expires_at sid) now ≡ (
          if leb expires_at now
          then err expired
          else ok (record { payer = payer; expires_at = expires_at; session_id = sid }))
  unfolding verify mint verify_fields
  verify-mint payer sid expires_at now fp fs h =
      rw
        (mint_split payer (show_u64 expires_at) sid fp
          (digits-IsField _ (show_u64-IsDigits expires_at)) fs (hex_encode signed)
          (hex-IsField _ (laws.encode-digits signed)))
        (ground
          (arith, laws.decode-encode signed, text_eq_refl signed, parse_uint-show_u64 expires_at h))
    where
      signed : Text
      signed = mac hmac_key (signed_part payer (show_u64 expires_at) sid)
