-- ===== src/RateLimit/Address.antt =====
-- Client addresses, the unit that they are metered by, and their text: src/ratelimit.rs and the
-- standard library's `Display` for addresses.
use sui_x402_verifier.Base.{
  ℕ, zero, suc, ◌+◌, ◌-◌, ◌/◌, ◌%◌, ◌≡◌, refl, ◌&&◌, List, [], ◌∷◌, ◌++◌, ltb, ◌==◌, if◌then◌else◌,
  Text, codes, show_u64, join, map,
}

-- Four octets, or eight segments.
pub data IpAddr : Type 0 where
  v4 : ℕ → ℕ → ℕ → ℕ → IpAddr
  v6 : ℕ → ℕ → ℕ → ℕ → ℕ → ℕ → ℕ → ℕ → IpAddr

-- IPv4 is metered per address, IPv6 per /64.
unfoldable pub bucket : IpAddr → IpAddr
bucket (v4 a b c d) = v4 a b c d
bucket (v6 s0 s1 s2 s3 s4 s5 s6 s7) = v6 s0 s1 s2 s3 0 0 0 0

hex_digit : ℕ → ℕ
hex_digit n = if ltb n 10 then b'0' + n else b'a' + (n - 10)

-- `{:x}` of a segment, at most four digits.
hex_digits : ℕ → ℕ → Text → Text
hex_digits zero n out = out
hex_digits (suc f) n out =
    let rest = hex_digits f (n / 16) (hex_digit (n % 16) ∷ out) in
    if ltb n 16 then hex_digit n ∷ out else rest

show_segments : List ℕ → Text
unfolding hex_digits hex_digit
show_segments ss = join (map (λ s. hex_digits 4 s []) ss) b':'

-- The first longest run of zero segments, as its start and length, from the run that is being
-- read and the best so far.
longest_zeros : ℕ → ℕ → ℕ → ℕ → List ℕ → ℕ × ℕ
longest_zeros i len best_start best_len [] = (best_start, best_len)
longest_zeros i len best_start best_len (s ∷ ss) =
    let len' : ℕ = (if s == 0 then len + 1 else 0) in
    longest_zeros (i + 1) len' (if ltb best_len len' then i + 1 - len' else best_start)
      (if ltb best_len len' then len' else best_len) ss

take : ℕ → List ℕ → List ℕ
take zero ss = []
take (suc n) [] = []
take (suc n) (s ∷ ss) = s ∷ take n ss

drop : ℕ → List ℕ → List ℕ
drop zero ss = ss
drop (suc n) [] = []
drop (suc n) (s ∷ ss) = drop n ss

show_v6 : List ℕ → Text
unfolding longest_zeros take drop show_segments
show_v6 ss =
    let (start, len) = longest_zeros 0 0 0 0 ss in
    if ltb 1 len
    then show_segments (take start ss) ++ codes "::" ++ show_segments (drop (start + len) ss)
    else show_segments ss

show_v4 : List ℕ → Text
show_v4 octets = join (map show_u64 octets) b'.'

unfoldable pub show_ip : IpAddr → Text
unfolding show_v6 show_v4
show_ip (v4 a b c d) = show_v4 (a ∷ b ∷ c ∷ d ∷ [])
show_ip (v6 s0 s1 s2 s3 s4 s5 s6 s7) =
    if (s0 == 0) && (s1 == 0) && (s2 == 0) && (s3 == 0) && (s4 == 0) && (s5 == 0xffff)
    then codes "::ffff:" ++ show_v4 (s6 / 256 ∷ s6 % 256 ∷ s7 / 256 ∷ s7 % 256 ∷ [])
    else show_v6 (s0 ∷ s1 ∷ s2 ∷ s3 ∷ s4 ∷ s5 ∷ s6 ∷ s7 ∷ [])

show_bucket_example : show_ip (bucket (v6 0x2001 0xdb8 1 2 0 0 0 1)) ≡ codes "2001:db8:1:2::"
unfolding show_ip bucket
show_bucket_example = refl

show_mapped_example : show_ip (v6 0 0 0 0 0 0xffff 0x0a00 0x0001) ≡ codes "::ffff:10.0.0.1"
unfolding show_ip show_u64
show_mapped_example = refl
