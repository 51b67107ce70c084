-- ===== src/Config/Validated.antt =====
-- What validation at startup guarantees of every request's terms: src/config.rs.
use sui_x402_verifier.Base.{
  ℕ, ◌<◌, ◌≤◌, ◌==◌, ◌&&◌, ◌||◌, ◌≡◌, ◌⊎◌, refl, ◌∙◌, sym, subst, inl, inr, All, all, utf8_len,
  parse_uint, Bool, true, false, not, Option, none, some, List, [], ◌∷◌, Text, text_eq, is_empty,
  Map, lookup, arith, Option-cases, ok, err, ◌>>◌, bail_if,
}
use sui_x402_verifier.Session.{Crypto}
use sui_x402_verifier.Config.{
  Config, PaymentOverride, RouteOverride, ResolvedPolicy, FreeTierConfig, PaidTierConfig, apply_to,
  defaults, named_override, route_for, policy_for, or_keep,
}
use sui_x402_verifier.Config.Policies.{Has, route_for-cases}
use sui_x402_verifier.Config.Validate.{
  ConfigError, Checked, validate, validate_pay_to, validate_override, validate_free, validate_paid,
  validate_policies, validate_routes, validate_discovery_metadata, bad_amount?, check_amount,
  if_some, max_u128, strip_0x, is_ascii_hexdigit, validate_hex_part,
}

-- A chain of checks passes only if each one does.
>>-ok : (a b : Checked) → (a >> b) ≡ ok tt → (a ≡ ok tt) × (b ≡ ok tt)
>>-ok (ok tt) b h = (refl, h)
>>-ok (err e) b h = cc

bail_if-ok : (b : Bool) (e : ConfigError) → bail_if b e ≡ ok tt → b ≡ false
bail_if-ok true e h = cc
bail_if-ok false e h = refl

true≢false : ¬ true ≡ false
true≢false h = cc

abbrev pub IsHexDigit : ℕ → Type 0
IsHexDigit c = ((b'0' ≤ c) × (c ≤ b'9')) ⊎ (((b'a' ≤ c) × (c ≤ b'f')) ⊎ ((b'A' ≤ c) × (c ≤ b'F')))

-- `0x` and 64 hexadecimal digits, not all of them zero.
pub record IsWallet (pay_to hex : Text) : Type 0 where
  pub prefixed : pay_to ≡ b'0' ∷ b'x' ∷ hex
  pub sized : utf8_len hex ≡ 64
  pub digits : All IsHexDigit hex
  pub nonzero : ¬ All (λ c. c ≡ b'0') hex

-- The terms are usable: the wallet is an address and not the zero address, the price is a number,
-- the free tier's window is not empty, and a payment buys at least one request and one second.
pub record IsUsable (r : ResolvedPolicy) : Type 0 where
  pub wallet : (hex : Text) × IsWallet r.payment.pay_to hex
  pub priced : (price : ℕ) × (parse_uint max_u128 r.payment.amount ≡ some price)
  pub window : 0 < r.free_tier.window_secs
  pub lasts : 0 < r.paid_tier.duration_secs
  pub grants : 0 < r.paid_tier.quota

-- The checks of validation, on resolved terms.
record Passes (r : ResolvedPolicy) : Type 0 where
  wallet : validate_pay_to r.payment.pay_to ≡ ok tt
  priced : bad_amount? r.payment.amount ≡ false
  window : 0 < r.free_tier.window_secs
  lasts : 0 < r.paid_tier.duration_secs
  grants : 0 < r.paid_tier.quota

digit_lem : (c : ℕ) → is_ascii_hexdigit c ≡ true → IsHexDigit c
unfolding is_ascii_hexdigit
digit_lem c h = ground arith

both : (a b : Bool) → (a && b) ≡ true → (a ≡ true) × (b ≡ true)
both a b h = ground arith

all-IsHexDigit : (s : Text) → all is_ascii_hexdigit s ≡ true → All IsHexDigit s
all-IsHexDigit [] h = tt
all-IsHexDigit (c ∷ s) h =
    let (one, others) = both (is_ascii_hexdigit c) (all is_ascii_hexdigit s) h in
    (digit_lem c one, all-IsHexDigit s others)

all-zeros : (s : Text) → All (λ c. c ≡ b'0') s → all (λ c. c == b'0') s ≡ true
all-zeros [] h = refl
all-zeros (c ∷ s) h = ground (arith, all-zeros s h.1)

strip_0x-some : (t hex : Text) → strip_0x t ≡ some hex → t ≡ b'0' ∷ b'x' ∷ hex
unfolding strip_0x
strip_0x-some [] hex h = cc
strip_0x-some (a ∷ []) hex h = cc
strip_0x-some (a ∷ b ∷ s) hex h = ground arith

validate_hex_part-IsWallet :
    (hex : Text) → validate_hex_part hex ≡ ok tt → IsWallet (b'0' ∷ b'x' ∷ hex) hex
unfolding validate_hex_part
validate_hex_part-IsWallet hex h =
    let (shaped, h1) =
      >>-ok (bail_if (not (utf8_len hex == 64) || not (all is_ascii_hexdigit hex)) _) _ h in
    let (filled, _) = >>-ok (bail_if (all (λ c. c == b'0') hex) _) _ h1 in
    let shape = bail_if-ok (not (utf8_len hex == 64) || not (all is_ascii_hexdigit hex)) _ shaped in
    record {
      prefixed = refl;
      sized = ground (arith, shape);
      digits = all-IsHexDigit hex (ground (arith, shape));
      nonzero = λ zeros.
          true≢false (sym (all-zeros hex zeros) ∙ bail_if-ok (all (λ c. c == b'0') hex) _ filled);
    }

validate_pay_to-IsWallet : (t : Text) → validate_pay_to t ≡ ok tt → (hex : Text) × IsWallet t hex
unfolding validate_pay_to
validate_pay_to-IsWallet t h = elim (Option-cases (strip_0x t)) [
  | inl q ↦ absurd (ground arith)
  | inr (hex, q) ↦ (
    hex,
    subst (λ w. IsWallet w hex) (sym (strip_0x-some t hex q))
        (validate_hex_part-IsWallet hex (ground arith)),
  )
]

bad_amount?-price :
    (t : Text) → bad_amount? t ≡ false → (price : ℕ) × (parse_uint max_u128 t ≡ some price)
unfolding bad_amount?
bad_amount?-price t h = elim (Option-cases (parse_uint max_u128 t)) [
  | inl q ↦ absurd (ground arith)
  | inr (price, q) ↦ (price, q)
]

Passes-IsUsable : (r : ResolvedPolicy) → Passes r → IsUsable r
Passes-IsUsable r p = record {
  wallet = validate_pay_to-IsWallet r.payment.pay_to p.wallet;
  priced = bad_amount?-price r.payment.amount p.priced;
  window = p.window;
  lasts = p.lasts;
  grants = p.grants;
}

free_lem : (t : FreeTierConfig) → validate_free t ≡ ok tt → 0 < t.window_secs
unfolding validate_free
free_lem t h = ground arith

paid_lem : (t : PaidTierConfig) → validate_paid t ≡ ok tt → (0 < t.duration_secs) × (0 < t.quota)
unfolding validate_paid
paid_lem t h = ground arith

record OverrideChecks (over : PaymentOverride) : Type 0 where
  pay_to : if_some over.pay_to validate_pay_to ≡ ok tt
  amount : if_some over.amount check_amount ≡ ok tt
  free : if_some over.free_tier validate_free ≡ ok tt
  paid : if_some over.paid_tier validate_paid ≡ ok tt

override_lem : (over : PaymentOverride) → validate_override over ≡ ok tt → OverrideChecks over
unfolding validate_override
override_lem over h =
    let (a, h1) = >>-ok (if_some over.pay_to validate_pay_to) _ h in
    let (b, h2) = >>-ok (if_some over.amount check_amount) _ h1 in
    let (c, d) = >>-ok (if_some over.free_tier validate_free) _ h2 in
    record { pay_to = a; amount = b; free = c; paid = d }

kept-pay_to :
    (o : Option Text) (d : Text)
    → if_some o validate_pay_to ≡ ok tt
    → validate_pay_to d ≡ ok tt
    → validate_pay_to (or_keep o d) ≡ ok tt
kept-pay_to none d h k = k
kept-pay_to (some a) d h k = h

kept-amount :
    (o : Option Text) (d : Text)
    → if_some o check_amount ≡ ok tt
    → bad_amount? d ≡ false
    → bad_amount? (or_keep o d) ≡ false
kept-amount none d h k = k
kept-amount (some a) d h k = bail_if-ok (bad_amount? a) _ h

kept-free :
    (o : Option FreeTierConfig) (d : FreeTierConfig)
    → if_some o validate_free ≡ ok tt
    → 0 < d.window_secs
    → 0 < (or_keep o d).window_secs
kept-free none d h k = k
kept-free (some t) d h k = free_lem t h

kept-paid :
    (o : Option PaidTierConfig) (d : PaidTierConfig)
    → if_some o validate_paid ≡ ok tt
    → (0 < d.duration_secs) × (0 < d.quota)
    → (0 < (or_keep o d).duration_secs) × (0 < (or_keep o d).quota)
kept-paid none d h k = k
kept-paid (some t) d h k = paid_lem t h

apply_to-Passes :
    (over : PaymentOverride) (r : ResolvedPolicy) (label : Text)
    → validate_override over ≡ ok tt
    → Passes r
    → Passes (record (apply_to over r) { label = label })
unfolding apply_to
apply_to-Passes over r label h u =
    let checks = override_lem over h in
    let paid = kept-paid over.paid_tier r.paid_tier checks.paid (u.lasts, u.grants) in
    record {
      wallet = kept-pay_to over.pay_to r.payment.pay_to checks.pay_to u.wallet;
      priced = kept-amount over.amount r.payment.amount checks.amount u.priced;
      window = kept-free over.free_tier r.free_tier checks.free u.window;
      lasts = paid.0;
      grants = paid.1;
    }

policies_lem :
    (m : Map PaymentOverride) (name : Text) (over : PaymentOverride)
    → validate_policies m ≡ ok tt
    → lookup name m ≡ some over
    → validate_override over ≡ ok tt
unfolding validate_policies lookup
policies_lem [] name over h e = cc
policies_lem ((n, o) ∷ rest) name over h e =
    let (one, others) = >>-ok (validate_override o) (validate_policies rest) h in
    ground (arith, one, policies_lem rest name over others)

routes_lem :
    (routes : List RouteOverride) (r : RouteOverride)
    → validate_routes routes ≡ ok tt
    → Has r routes
    → validate_override r.overrides ≡ ok tt
unfolding validate_routes
routes_lem [] r h m = absurd m
routes_lem (s ∷ routes) r h (inl e) =
    let (_, h1) = >>-ok (bail_if (is_empty s.path_prefix) _) _ h in
    rw e (>>-ok (validate_override s.overrides) _ h1).0
routes_lem (s ∷ routes) r h (inr m) =
    let (_, h1) = >>-ok (bail_if (is_empty s.path_prefix) _) _ h in
    routes_lem routes r (>>-ok (validate_override s.overrides) _ h1).1 m

-- What a configuration that passed validation satisfies.
record ConfigChecks (config : Config) : Type 0 where
  base : Passes (defaults config)
  policies : validate_policies config.policies ≡ ok tt
  routes : validate_routes config.routes ≡ ok tt

module _ (crypto : Crypto) (config : Config) (valid : validate crypto config ≡ ok tt) where
  checks_lem : ConfigChecks config
  unfolding validate defaults
  checks_lem =
      let (_, h1) = >>-ok (bail_if (not (text_eq config.payment.scheme _)) _) _ valid in
      let (amount, h2) = >>-ok (check_amount config.payment.amount) _ h1 in
      let (pay_to, h3) = >>-ok (validate_pay_to config.payment.pay_to) _ h2 in
      let (free, h4) = >>-ok (validate_free config.free_tier) _ h3 in
      let (paid, h5) = >>-ok (validate_paid config.paid_tier) _ h4 in
      let (_, h6) = >>-ok (validate_discovery_metadata config) _ h5 in
      let (policies, h7) = >>-ok (validate_policies config.policies) _ h6 in
      let (routes, _) = >>-ok (validate_routes config.routes) _ h7 in
      record {
        base = record {
          wallet = pay_to;
          priced = bail_if-ok (bad_amount? config.payment.amount) _ amount;
          window = free_lem config.free_tier free;
          lasts = (paid_lem config.paid_tier paid).0;
          grants = (paid_lem config.paid_tier paid).1;
        };
        policies = policies;
        routes = routes;
      }

  route_for-Passes : (path : Text) → Passes (route_for config path)
  route_for-Passes path = elim (route_for-cases config path) [
    | inl (_, e) ↦ rw e checks_lem.base
    | inr (r, has, _, _, e) ↦ rw e (
        apply_to-Passes r.overrides (defaults config) r.path_prefix
          (routes_lem config.routes r checks_lem.routes has) checks_lem.base)
  ]

  policy_for-Passes : (path : Text) (policy : Option Text) → Passes (policy_for config path policy)
  unfolding policy_for named_override
  policy_for-Passes path none = route_for-Passes path
  policy_for-Passes path (some name) = elim (Option-cases (lookup name config.policies)) [
    | inl e ↦ rw (e, policy_for, named_override) (route_for-Passes path)
    | inr (over, e) ↦
        rw (e, policy_for, named_override)
          (apply_to-Passes over (defaults config) name
            (policies_lem config.policies name over checks_lem.policies e) checks_lem.base)
  ]

  -- With a configuration that passed validation every request, whatever its path and policy, is
  -- resolved to usable terms: a wallet of `0x` and 64 hexadecimal
  -- digits that are not all zero, a numeric price, a free window that is not empty, and
  -- a session that lasts and grants something.
  pub policy_for-IsUsable :
      (path : Text) (policy : Option Text) → IsUsable (policy_for config path policy)
  policy_for-IsUsable path policy =
      Passes-IsUsable (policy_for config path policy) (policy_for-Passes path policy)
