-- ===== src/Payclient/Pays.antt =====
-- What a built payment does: src/payclient.rs.
use sui_x402_verifier.Base.{
  ℕ, ◌≡◌, inl, inr, refl, sym, subst, Option, some, List, [], ◌∷◌, ◌++◌, Text, codes, Result, ok,
  err, Option-cases, Result-cases, arith, >>=-eq-ok, show_u64,
}
use sui_x402_verifier.Payclient.{
  PaymentPath, gasless, sponsored, coin_object, Skipped, Funding, check, gas_budget,
}
use sui_x402_verifier.Payclient.Build.{
  Chain, Draft, Expiration, Command, send_funds, split_and_transfer, build_path, try_paths,
  build_payment, funding, build_gasless_payment, build_coin_object_payment, context, or_err,
  current_epoch_expiration, pick_coin, gas_price, gasless_draft, coin_draft,
}

-- The command gives this payee this amount.
abbrev pub Pays : Text → ℕ → Command → Type 0
Pays payee amount (send_funds coin_type a p) = (a ≡ amount) × (p ≡ payee)
Pays payee amount (split_and_transfer coin a p) = (a ≡ amount) × (p ≡ payee)

-- A withdrawal costs no gas and is good for one epoch; a coin's piece is paid for in gas.
abbrev pub GasOf : Draft → Command → Type 0
GasOf d (send_funds coin_type a p) =
    (d.gas_price ≡ 0)
    × (d.gas_budget ≡ 0)
    × (d.gas_objects ≡ [])
    × (e : Expiration) × (d.expiration ≡ some e)
    × (e.min_epoch ≡ e.max_epoch)
GasOf d (split_and_transfer coin a p) = d.gas_budget ≡ gas_budget

pub record IsPayment (sender payee : Text) (amount : ℕ) (d : Draft) : Type 0 where
  pub from : d.sender ≡ sender
  pub pays : Pays payee amount d.command
  pub gas : GasOf d d.command

pub context-ok {ℓ} :
    {A : Type ℓ} (r : Result Text A) (what : Text) (a : A) → context r what ≡ ok a → r ≡ ok a
context-ok (ok b) what a h = h
context-ok (err e) what a h = cc

module _ (chain : Chain) (xor_random : ℕ → ℕ) (sender payee asset : Text) (amount : ℕ)
    (faithful : (d t : Draft) → chain.try_build d ≡ ok t → t ≡ d) where
  expiration_lem :
      (salt : ℕ) (e : Expiration)
      → current_epoch_expiration chain xor_random salt ≡ ok e
      → e.min_epoch ≡ e.max_epoch
  unfolding current_epoch_expiration
  expiration_lem salt e h =
      let (a, _, h1) = >>=-eq-ok (context chain.epoch (codes "GetEpoch")) _ h in
      let (epoch, _, h2) = >>=-eq-ok (or_err a (codes "node returned no epoch")) _ h1 in
      let (b, _, h3) = >>=-eq-ok (context chain.chain_id (codes "GetServiceInfo")) _ h2 in
      let (named, _, h4) = >>=-eq-ok (or_err b (codes "node returned no chain id")) _ h3 in
      let (digest, _, h5) =
        >>=-eq-ok (context (chain.parse_digest named) (codes "chain id is not a digest")) _ h4 in
      ground arith

  gasless-IsPayment :
      (tx : Draft)
      → build_gasless_payment chain xor_random sender payee asset amount ≡ ok tx
      → IsPayment sender payee amount tx
  unfolding build_gasless_payment
  gasless-IsPayment tx h =
      let (_, _, h1) = >>=-eq-ok chain.connect _ h in
      let (coin_type, _, h2) =
        >>=-eq-ok
          (context (chain.parse_type asset)
            (codes "asset \"" ++ asset ++ codes "\" is not a Move type tag"))
          _ h1 in
      let (expiration, made, h3) =
        >>=-eq-ok (current_epoch_expiration chain xor_random amount) _ h2 in
      let drafted = gasless_draft sender payee coin_type amount expiration in
      let (built, b, h4) =
        >>=-eq-ok (context (chain.try_build drafted) (codes "building the gasless transaction")) _
          h3 in
      let same =
        faithful drafted built (
          context-ok (chain.try_build drafted) (codes "building the gasless transaction") built
            b) in
      let e : record built { gas_objects = [] } ≡ tx = ground arith in
      let good : IsPayment sender payee amount (record drafted { gas_objects = [] }) = record {
        from = refl;
        pays = (refl, refl);
        gas = (refl, refl, refl, expiration, refl, expiration_lem amount expiration made);
      } in
      subst (IsPayment sender payee amount) e
        (subst (λ t. IsPayment sender payee amount (record t { gas_objects = [] })) (sym same) good)

  coin_object-IsPayment :
      (tx : Draft)
      → build_coin_object_payment chain sender payee asset amount ≡ ok tx
      → IsPayment sender payee amount tx
  unfolding build_coin_object_payment
  coin_object-IsPayment tx h =
      let (_, _, h1) = >>=-eq-ok chain.connect _ h in
      let (payment_coin, _, h2) =
        >>=-eq-ok
          (context (pick_coin chain sender asset amount)
            (codes "finding a " ++ asset ++ codes " coin worth at least " ++ show_u64 amount))
          _ h1 in
      let (gas_coin, _, h3) =
        >>=-eq-ok
          (context (pick_coin chain sender (codes "0x2::sui::SUI") gas_budget)
            (codes "finding a SUI coin for gas"))
          _ h2 in
      let (price, _, h4) = >>=-eq-ok (gas_price chain) _ h3 in
      let drafted = coin_draft sender payee payment_coin gas_coin amount price in
      let same : tx ≡ drafted =
        faithful drafted tx
          (context-ok (chain.try_build drafted) (codes "building the transaction") tx h4) in
      let good : IsPayment sender payee amount drafted = record {
        from = refl;
        pays = (refl, refl);
        gas = refl;
      } in
      subst (IsPayment sender payee amount) (sym same) good

  build_path-IsPayment :
      (path : PaymentPath) (tx : Draft)
      → build_path chain xor_random path sender payee asset amount ≡ some (ok tx)
      → IsPayment sender payee amount tx
  unfolding build_path
  build_path-IsPayment gasless tx h = gasless-IsPayment tx (ground arith)
  build_path-IsPayment coin_object tx h = coin_object-IsPayment tx (ground arith)
  build_path-IsPayment sponsored tx h = cc

  try_paths-IsPayment :
      (station : Option Text) (funds : Funding) (paths : List PaymentPath)
      (skipped : List (PaymentPath × Skipped)) (tx : Draft)
      → try_paths chain xor_random sender payee asset amount station funds paths skipped
        ≡ some (ok tx)
      → IsPayment sender payee amount tx
  unfolding try_paths
  try_paths-IsPayment station funds [] skipped tx h = cc
  try_paths-IsPayment station funds (path ∷ paths) skipped tx h =
      elim (Option-cases (check path amount funds station)) [
        | inl q ↦ build_path-IsPayment path tx (ground arith)
        | inr (why, q) ↦
            try_paths-IsPayment station funds paths (skipped ++ (path, why) ∷ []) tx (ground arith)
      ]

  -- Every transaction that the client builds, whichever path it took, is sent by the payer and
  -- gives the payee exactly the amount. Where it withdraws from the address balance it costs no
  -- gas (price and budget zero, no gas object) and is good for one epoch only. The SDK's builder
  -- is taken to return the transaction that was drafted.
  pub build_payment-IsPayment :
      (paths : List PaymentPath) (station : Option Text) (tx : Draft)
      → build_payment chain xor_random sender payee asset amount paths station ≡ some (ok tx)
      → IsPayment sender payee amount tx
  unfolding build_payment
  build_payment-IsPayment paths station tx h = elim (Result-cases (funding chain sender asset)) [
    | inl (funds, q) ↦ try_paths-IsPayment station funds paths [] tx (ground arith)
    | inr (e, q) ↦ absurd (ground arith)
  ]
