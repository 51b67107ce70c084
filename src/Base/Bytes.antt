-- ===== src/Base/Bytes.antt =====
-- UTF-8 bytes of a text, and percent encoding.
use Prim.Native.Nat.{ℕ, ◌+◌, ◌-◌, ◌/◌, ◌%◌, ◌<◌}
use mathlib.Core.List.{List, [], ◌∷◌, ◌++◌}
use native.Mathlib.Omega.{arith}
use sui_x402_verifier.Base.Tests.{ltb, leb, if◌then◌else◌}
use sui_x402_verifier.Base.Texts.{Text}
use sui_x402_verifier.Base.Lists.{All, All-append}

-- The bytes of one code point, below 0x110000.
abbrev pub utf8_bytes : ℕ → List ℕ
utf8_bytes c =
    if ltb c 0x80
    then c ∷ []
    else if ltb c 0x800
    then (0xc0 + c / 0x40) ∷ (0x80 + c % 0x40) ∷ []
    else if ltb c 0x10000
    then (0xe0 + c / 0x1000) ∷ (0x80 + c / 0x40 % 0x40) ∷ (0x80 + c % 0x40) ∷ []
    else (0xf0 + c / 0x40000)
      ∷ (0x80 + c / 0x1000 % 0x40)
      ∷ (0x80 + c / 0x40 % 0x40)
      ∷ (0x80 + c % 0x40)
      ∷ []

-- `s.bytes()`
unfoldable pub bytes : Text → List ℕ
bytes [] = []
bytes (c ∷ s) = utf8_bytes c ++ bytes s

abbrev pub AreBytes : List ℕ → Type 0
AreBytes = All (λ b. b < 256)

abbrev pub IsText : Text → Type 0
IsText = All (λ c. c < 0x110000)

utf8_bytes-AreBytes : (c : ℕ) → c < 0x110000 → AreBytes (utf8_bytes c)
utf8_bytes-AreBytes c h = ground arith

pub bytes-AreBytes : (s : Text) → IsText s → AreBytes (bytes s)
unfolding bytes
bytes-AreBytes [] h = tt
bytes-AreBytes (c ∷ s) (h, k) =
    All-append (λ b. b < 256) (utf8_bytes c) (bytes s) (utf8_bytes-AreBytes c h)
      (bytes-AreBytes s k)

-- An upper-case hexadecimal digit, and the value of one.
abbrev pub hex_upper : ℕ → ℕ
hex_upper n = if ltb n 10 then b'0' + n else b'A' + (n - 10)

abbrev pub hex_value : ℕ → ℕ
hex_value c = if leb c b'9' then c - b'0' else c - b'A' + 10
