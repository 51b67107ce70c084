-- ===== src/Payclient/Metered.antt =====
-- The client reads the meter that the server publishes: src/payclient.rs and src/auth.rs.
use sui_x402_verifier.Base.{
  ℕ, ◌≡◌, refl, ◌≤◌, ◌∷◌, false, Option, some, List, [], Text, codes, All, trim, trim_start,
  trim_end, is_whitespace, show_u64, parse_uint-show_u64, IsDigits, show_u64-IsDigits, max_u64,
  arith,
}
use sui_x402_verifier.Auth
use sui_x402_verifier.Auth.{free_meter, session_meter, unknown_meter}
use sui_x402_verifier.Auth.Headers.{meter_headers}
use sui_x402_verifier.Payclient.Reader.{Meter, read_meter, read_number}

abbrev pub IsSolid : Text → Type 0
IsSolid = All (λ c. is_whitespace c ≡ false)

trim_end-solid : (s : Text) → IsSolid s → trim_end s ≡ s
unfolding trim_end
trim_end-solid [] h = refl
trim_end-solid (c ∷ []) h = ground (arith, h.0)
trim_end-solid (c ∷ d ∷ s) h = rw (trim_end-solid (d ∷ s) h.1) refl

pub trim-solid : (s : Text) → IsSolid s → trim s ≡ s
unfolding trim trim_start
trim-solid [] h = trim_end-solid [] h
trim-solid (c ∷ s) h = rw (h.0) (trim_end-solid (c ∷ s) h)

digit_lem : (c : ℕ) → b'0' ≤ c → c ≤ b'9' → is_whitespace c ≡ false
unfolding is_whitespace
digit_lem c a b = ground arith

digits-IsSolid : (s : Text) → IsDigits s → IsSolid s
digits-IsSolid [] h = tt
digits-IsSolid (c ∷ s) h = (digit_lem c h.0.0 h.0.1, digits-IsSolid s h.1)

-- Every header of the list arrives.
abbrev pub Delivers : (Text → Option Text) → List (Text × Text) → Type 0
Delivers header = All (λ h. header h.0 ≡ some h.1)

-- What the client knows of the server's meter.
abbrev pub Shows : Auth.Meter → Meter → Type 0
Shows (free_meter remaining limit reset_secs) m =
    (m.free_remaining ≡ some remaining)
    × (m.free_limit ≡ some limit)
    × (m.free_reset ≡ some reset_secs)
Shows (session_meter remaining quota expires_in_secs) m =
    (m.session_remaining ≡ some remaining)
    × (m.session_quota ≡ some quota)
    × (m.session_expires ≡ some expires_in_secs)
Shows unknown_meter m = Unit {0}

-- The numbers of a meter are machine words.
abbrev pub InRange : Auth.Meter → Type 0
InRange (free_meter a b c) = (a ≤ max_u64) × (b ≤ max_u64) × (c ≤ max_u64)
InRange (session_meter a b c) = (a ≤ max_u64) × (b ≤ max_u64) × (c ≤ max_u64)
InRange unknown_meter = Unit {0}

read_number-show_u64 :
    (header : Text → Option Text) (name : Text) (n : ℕ)
    → header name ≡ some (show_u64 n)
    → n ≤ max_u64
    → read_number header name ≡ some n
unfolding read_number
read_number-show_u64 header name n h b =
    rw (h, trim-solid (show_u64 n) (digits-IsSolid (show_u64 n) (show_u64-IsDigits n)))
      (parse_uint-show_u64 n b)

-- The client reads the meter that the server publishes: if the headers of a meter whose numbers
-- are 64-bit words all arrive, the client has each of its numbers, remaining, limit or quota, and
-- reset or expiry, of the tier that the meter is of.
pub read_meter-meter_headers :
    (header : Text → Option Text) (meter : Auth.Meter)
    → InRange meter
    → Delivers header (meter_headers meter)
    → Shows meter (read_meter header)
unfolding meter_headers read_meter
read_meter-meter_headers header (free_meter remaining limit reset_secs) r (a, (b, (c, _))) = (
  read_number-show_u64 header (codes "x-x402-free-remaining") remaining a r.0,
  read_number-show_u64 header (codes "x-x402-free-limit") limit b r.1,
  read_number-show_u64 header (codes "x-x402-free-reset") reset_secs c r.2,
)
read_meter-meter_headers header (session_meter remaining quota expires_in_secs) r (a, (b, (c, _))) =
    (
      read_number-show_u64 header (codes "x-x402-session-remaining") remaining a r.0,
      read_number-show_u64 header (codes "x-x402-session-quota") quota b r.1,
      read_number-show_u64 header (codes "x-x402-session-expires") expires_in_secs c r.2,
    )
read_meter-meter_headers header unknown_meter r d = tt
