-- ===== src/Payclient/Paths.antt =====
-- Which path a payment takes, and what the built transaction does: src/payclient.rs.
use sui_x402_verifier.Base.{
  ℕ, ◌≡◌, ◌⊎◌, inl, inr, refl, ap, ◌≤◌, Option, none, some, List, [], ◌∷◌, ◌++◌, Text, Result, ok,
  err, All, Option-cases, arith,
}
use sui_x402_verifier.Payclient.{
  PaymentPath, gasless, sponsored, coin_object, Skipped, Funding, check, gasless_minimum,
}
use sui_x402_verifier.Payclient.Build.{Chain, Draft, build_path, try_paths, build_payment, funding}

-- The payer can fund the amount in this way.
abbrev pub Affords : PaymentPath → ℕ → Funding → Type 0
Affords gasless amount funds = (gasless_minimum ≤ amount) × (amount ≤ funds.address_balance)
Affords sponsored amount funds = ⊥
Affords coin_object amount funds = amount ≤ funds.coin_balance

check-none :
    (path : PaymentPath) (amount : ℕ) (funds : Funding) (station : Option Text)
    → check path amount funds station ≡ none
    → Affords path amount funds
unfolding check
check-none gasless amount funds station h = (ground arith, ground arith)
check-none sponsored amount funds none h = cc
check-none sponsored amount funds (some s) h = cc
check-none coin_object amount funds station h = ground arith

check-some :
    (path : PaymentPath) (amount : ℕ) (funds : Funding) (station : Option Text) (why : Skipped)
    → check path amount funds station ≡ some why
    → ¬ Affords path amount funds
unfolding check
check-some gasless amount funds station why h (a, b) = ground arith
check-some sponsored amount funds station why h a = a
check-some coin_object amount funds station why h a = ground arith

-- No path of the list can be afforded.
abbrev pub NoneAfforded : ℕ → Funding → List PaymentPath → Type 0
NoneAfforded amount funds = All (λ p. ¬ Affords p amount funds)

-- The first path of a list that can be afforded.
pub record FirstAfforded (amount : ℕ) (funds : Funding) (paths : List PaymentPath) : Type 0 where
  pub path : PaymentPath
  pub before : List PaymentPath
  pub after : List PaymentPath
  pub splits : paths ≡ before ++ path ∷ after
  pub passed_over : NoneAfforded amount funds before
  pub affords : Affords path amount funds

module _ (chain : Chain) (xor_random : ℕ → ℕ) (sender payee asset : Text) (amount : ℕ)
    (station : Option Text) where
  -- The payment is built on the first affordable path, or else refused.
  abbrev pub IsBuilt : Option (Result Text Draft) → Funding → List PaymentPath → Type 0
  IsBuilt answer funds paths =
      ((first : FirstAfforded amount funds paths) × (r : Result Text Draft) × (build_path chain
            xor_random first.path sender payee asset amount
          ≡ some r)
        × (answer ≡ some r))
      ⊎ (NoneAfforded amount funds paths × (e : Text) × (answer ≡ some (err e)))

  build_path-Affords :
      (path : PaymentPath) (funds : Funding)
      → Affords path amount funds
      → (r : Result Text Draft) × (build_path chain xor_random path sender payee asset amount
          ≡ some r)
  unfolding build_path
  build_path-Affords gasless funds a = (_, refl)
  build_path-Affords sponsored funds a = absurd a
  build_path-Affords coin_object funds a = (_, refl)

  try_paths-IsBuilt :
      (funds : Funding) (paths : List PaymentPath) (skipped : List (PaymentPath × Skipped))
      → IsBuilt
          (try_paths chain xor_random sender payee asset amount station funds paths skipped)
          funds
          paths
  unfolding try_paths
  try_paths-IsBuilt funds [] skipped = inr (tt, _, refl)
  try_paths-IsBuilt funds (path ∷ paths) skipped =
      elim (Option-cases (check path amount funds station)) [
        | inl q ↦
            let affords = check-none path amount funds station q in
            let (r, built) = build_path-Affords path funds affords in
            inl (
              record {
                path = path;
                before = [];
                after = paths;
                splits = refl;
                passed_over = tt;
                affords = affords;
              },
              r,
              built,
              ground arith,
            )
        | inr (why, q) ↦
            let cannot = check-some path amount funds station why q in
            elim (try_paths-IsBuilt funds paths (skipped ++ (path, why) ∷ [])) [
              | inl (first, r, built, answer) ↦ inl (
                record {
                  path = first.path;
                  before = path ∷ first.before;
                  after = first.after;
                  splits = ap (λ ps. path ∷ ps) first.splits;
                  passed_over = (cannot, first.passed_over);
                  affords = first.affords;
                },
                r,
                built,
                ground arith,
              )
              | inr (rest, e, answer) ↦ inr ((cannot, rest), e, ground arith)
            ]
      ]

  -- A payer whose balance is read pays on the first path of the list that it can afford (gasless
  -- from the floor on, out of the address balance; a coin object out of the coin balance; never
  -- sponsored), whatever was skipped before it. The answer is then that path's own build, success
  -- or error, with no falling through to a later path; with no such path it is an error. It never
  -- panics.
  pub build_payment-IsBuilt :
      (funds : Funding) (paths : List PaymentPath)
      → funding chain sender asset ≡ ok funds
      → IsBuilt (build_payment chain xor_random sender payee asset amount paths station) funds paths
  unfolding build_payment
  build_payment-IsBuilt funds paths h = rw (h, build_payment) (try_paths-IsBuilt funds paths [])
