-- ===== src/Base/Decimal.antt =====
-- Decimal print and parse of unsigned integers, as `to_string` and `str::parse` do them.
use Prim.Native.Nat.{ℕ, zero, suc, ◌+◌, ◌-◌, ◌*◌, ◌/◌, ◌%◌, ◌≤◌, ◌<◌}
use mathlib.Core.Path.{◌≡◌, refl, sym, ap, ◌∙◌}
use mathlib.Core.Bool.{◌||◌}
use mathlib.Core.List.{[], ◌∷◌}
use mathlib.Core.Option.{Option, none, some}
use mathlib.Core.Logic.{inl, inr, ◌≢◌}
use native.Mathlib.Omega.{arith}
use sui_x402_verifier.Base.Tests.{ltb, ◌==◌, if◌then◌else◌, max_u64, Bool-cases}
use sui_x402_verifier.Base.Texts.{Text, codes}
use sui_x402_verifier.Base.Lists.{All}
use sui_x402_verifier.Base.Int.{ℤ, pos, sub_ℕ}

-- Twenty digits are enough for a `u64`.
abbrev max_digits : ℕ
max_digits = 20

digits : ℕ → ℕ → Text → Text
digits zero n out = out
digits (suc f) n out =
    let rest = digits f (n / 10) ((b'0' + n % 10) ∷ out) in
    if ltb n 10 then (b'0' + n % 10) ∷ out else rest

unfoldable pub show_u64 : ℕ → Text
unfolding digits
show_u64 n = digits max_digits n []

-- The digits of a number, none of which may push it past the largest `bound`.
scan : ℕ → Text → ℕ → Option ℕ
scan bound [] n = some n
scan bound (c ∷ s) n =
    let rest = scan bound s (n * 10 + (c - b'0')) in
    if ltb c b'0' || ltb b'9' c || ltb bound (n * 10 + (c - b'0')) then none else rest

-- `s.parse::<uN>()`, where `bound` is the largest value: a leading `+` is allowed, no digit at all
-- is not.
unfoldable pub parse_uint : ℕ → Text → Option ℕ
unfolding scan
parse_uint bound [] = none
parse_uint bound (c ∷ []) = if c == b'+' then none else scan bound (c ∷ []) 0
parse_uint bound (c ∷ d ∷ s) = if c == b'+' then scan bound (d ∷ s) 0 else scan bound (c ∷ d ∷ s) 0

abbrev pow10 : ℕ → ℕ
pow10 zero = 1
pow10 (suc f) = 10 * pow10 f

scan-digits :
    (bound f n : ℕ) (out : Text)
    → n < pow10 f
    → n ≤ bound
    → scan bound (digits f n out) 0 ≡ scan bound out n
unfolding digits scan
scan-digits bound zero n out h b = let e : n ≡ 0 = omega arith in rw e
scan-digits bound (suc f) n out h b = elim (Bool-cases (ltb n 10)) [
  | inl small ↦ ground arith
  | inr large ↦ rw large (
      scan-digits bound f (n / 10) ((b'0' + n % 10) ∷ out) (omega arith) (omega arith)
      ∙ ground arith)
]

-- The first character of a printed number is a digit.
digits-head :
    (f n : ℕ) (out : Text) → 0 < f → (c : ℕ) × (s : Text) × (digits f n out ≡ c ∷ s) × (c ≢ b'+')
unfolding digits
digits-head zero n out h = absurd (omega arith)
digits-head (suc zero) n out h = (b'0' + n % 10, out, ground arith, omega arith)
digits-head (suc (suc f)) n out h = elim (Bool-cases (ltb n 10)) [
  | inl small ↦ (b'0' + n % 10, out, rw small, omega arith)
  | inr large ↦
      let ih = digits-head (suc f) (n / 10) ((b'0' + n % 10) ∷ out) (omega arith) in
      (ih.0, ih.1, rw large ih.2, ih.3)
]

parse_uint-scan :
    (bound c : ℕ) (s : Text) → c ≢ b'+' → parse_uint bound (c ∷ s) ≡ scan bound (c ∷ s) 0
unfolding parse_uint
parse_uint-scan bound c [] h = ground arith
parse_uint-scan bound c (d ∷ s) h = ground arith

pub parse_uint-show_u64 : (n : ℕ) → n ≤ max_u64 → parse_uint max_u64 (show_u64 n) ≡ some n
unfolding show_u64
parse_uint-show_u64 n h =
    let first = digits-head max_digits n [] (omega arith) in
    ap (parse_uint max_u64) first.2
    ∙ parse_uint-scan max_u64 first.0 first.1 first.3
    ∙ ap (λ t. scan max_u64 t 0) (sym first.2)
    ∙ scan-digits max_u64 max_digits n [] (omega arith) h
    ∙ unfold scan in refl

-- A printed number holds digits only.
abbrev pub IsDigits : Text → Type 0
IsDigits = All (λ c. (b'0' ≤ c) × (c ≤ b'9'))

digits-IsDigits : (f n : ℕ) (out : Text) → IsDigits out → IsDigits (digits f n out)
unfolding digits
digits-IsDigits zero n out h = h
digits-IsDigits (suc f) n out h =
    ground
      (arith, digits-IsDigits f (n / 10) ((b'0' + n % 10) ∷ out) ((omega arith, omega arith), h))

pub show_u64-IsDigits : (n : ℕ) → IsDigits (show_u64 n)
unfolding show_u64
show_u64-IsDigits n = digits-IsDigits max_digits n [] tt

parse_example : parse_uint max_u64 (codes "+18446744073709551615") ≡ some max_u64
unfolding parse_uint
parse_example = refl

parse_overflow : parse_uint max_u64 (codes "18446744073709551616") ≡ none
unfolding parse_uint
parse_overflow = refl

abbrev as_pos : Option ℕ → Option ℤ
as_pos none = none
as_pos (some n) = some (pos n)

abbrev as_neg : Option ℕ → Option ℤ
as_neg none = none
as_neg (some n) = some (sub_ℕ 0 n)

-- `s.parse::<iN>()`, where the values go from `-(bound + 1)` to `bound`.
unfoldable pub parse_int : ℕ → Text → Option ℤ
unfolding scan
parse_int bound [] = none
parse_int bound (c ∷ []) =
    if (c == b'-') || (c == b'+') then none else as_pos (scan bound (c ∷ []) 0)
parse_int bound (c ∷ d ∷ s) =
    if c == b'-'
    then as_neg (scan (bound + 1) (d ∷ s) 0)
    else if c == b'+'
    then as_pos (scan bound (d ∷ s) 0)
    else as_pos (scan bound (c ∷ d ∷ s) 0)
