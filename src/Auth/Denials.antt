-- ===== src/Auth/Denials.antt =====
-- How a denial reads, through either filter: src/auth.rs, src/ext_proc.rs.
use sui_x402_verifier.Base.{
  ℕ, ◌+◌, ◌*◌, ◌/◌, ◌%◌, ◌≤◌, ◌<◌, ◌≡◌, ◌≢◌, refl, ap, ◌∙◌, inl, inr, not, ◌&&◌, List, [], ◌∷◌,
  ◌++◌, leb, ◌==◌, if◌then◌else◌, Text, All, Bool-cases, arith, bytes, bytes-AreBytes, AreBytes,
  IsText, hex_upper, hex_value, All-append,
}
use sui_x402_verifier.Auth.Response.{percent_byte, percent_bytes, grpc_message}

-- The bytes that a percent-encoded text stands for.
unfoldable pub percent_decode : Text → List ℕ
percent_decode [] = []
percent_decode (c ∷ []) = c ∷ []
percent_decode (c ∷ d ∷ []) = c ∷ d ∷ []
percent_decode (c ∷ d ∷ e ∷ s) =
    let escaped = percent_decode s in
    let plain = percent_decode (d ∷ e ∷ s) in
    if c == b'%' then (hex_value d * 16 + hex_value e) ∷ escaped else c ∷ plain

-- A printable ASCII character.
abbrev pub IsPrintable : Text → Type 0
IsPrintable = All (λ c. (b' ' ≤ c) × (c ≤ b'~'))

decode_plain : (c : ℕ) (s : Text) → c ≢ b'%' → percent_decode (c ∷ s) ≡ c ∷ percent_decode s
unfolding percent_decode
decode_plain c [] h = refl
decode_plain c (d ∷ []) h = refl
decode_plain c (d ∷ e ∷ s) h = ground arith

decode_escaped :
    (b : ℕ) (s : Text)
    → b < 256
    → percent_decode (b'%' ∷ hex_upper (b / 16) ∷ hex_upper (b % 16) ∷ s) ≡ b ∷ percent_decode s
unfolding percent_decode
decode_escaped b s h = ap (λ c. c ∷ percent_decode s) (ground arith)

decode-percent_byte :
    (b : ℕ) (s : Text) → b < 256 → percent_decode (percent_byte b ++ s) ≡ b ∷ percent_decode s
unfolding percent_byte
decode-percent_byte b s h = elim (Bool-cases (leb b' ' b && leb b b'~' && not (b == b'%'))) [
  | inl e ↦ rw e (decode_plain b s (ground arith))
  | inr e ↦ rw e (decode_escaped b s h)
]

decode-percent_bytes : (bs : List ℕ) → AreBytes bs → percent_decode (percent_bytes bs) ≡ bs
unfolding percent_bytes percent_decode
decode-percent_bytes [] h = refl
decode-percent_bytes (b ∷ bs) (h, k) =
    decode-percent_byte b (percent_bytes bs) h ∙ ap (λ r. b ∷ r) (decode-percent_bytes bs k)

percent_byte-IsPrintable : (b : ℕ) → b < 256 → IsPrintable (percent_byte b)
unfolding percent_byte
percent_byte-IsPrintable b h = ground arith

percent_bytes-IsPrintable : (bs : List ℕ) → AreBytes bs → IsPrintable (percent_bytes bs)
unfolding percent_bytes
percent_bytes-IsPrintable [] h = tt
percent_bytes-IsPrintable (b ∷ bs) (h, k) =
    All-append _ (percent_byte b) (percent_bytes bs) (percent_byte-IsPrintable b h)
      (percent_bytes-IsPrintable bs k)

-- Whatever the reason of a denial says, its `grpc-message` is printable ASCII, and decoding it gives
-- the reason's UTF-8 back.
pub grpc_message-decodes :
    (reason : Text)
    → IsText reason
    → (percent_decode (grpc_message reason) ≡ bytes reason) × IsPrintable (grpc_message reason)
unfolding grpc_message
grpc_message-decodes reason h = (
  decode-percent_bytes (bytes reason) (bytes-AreBytes reason h),
  percent_bytes-IsPrintable (bytes reason) (bytes-AreBytes reason h),
)
