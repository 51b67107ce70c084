-- ===== src/Payclient/Build.antt =====
-- How a payment is built and signed: src/payclient.rs. The fullnode, the SDK's transaction builder,
-- its parsers and BCS are the parameter `Chain`, the key is `Key`; the random number of a nonce
-- is an argument.
use sui_x402_verifier.Base.{
  ℕ, ◌%◌, ◌^◌, Option, none, some, List, [], ◌∷◌, ◌++◌, ltb, if◌then◌else◌, Text, codes, show_u64,
  Result, ok, err, ◌>>=◌,
}
use sui_x402_verifier.Payclient.{
  PaymentPath, gasless, sponsored, coin_object, Skipped, Funding, check, no_path_available,
  gas_budget,
}

-- The balance of an address: the total, and where it lives.
pub record Balance : Type 0 where
  pub balance : Option ℕ
  pub address_balance : Option ℕ
  pub coin_balance : Option ℕ

pub record OwnedObject : Type 0 where
  pub balance : Option ℕ
  pub object_id : Option Text
  pub version : Option ℕ
  pub digest : Option Text

pub record ObjectRef : Type 0 where
  pub id : Text
  pub version : ℕ
  pub digest : Text

-- What the transaction does: the two commands that the client builds.
pub data Command : Type 0 where
  -- Withdraw from the sender's address balance and `0x2::coin::send_funds` it: type, amount, payee.
  send_funds : Text → ℕ → Text → Command
  -- Split this much off the coin and transfer the piece to the payee.
  split_and_transfer : ObjectRef → ℕ → Text → Command

-- `ValidDuring` from an epoch to an epoch, on a chain, with a nonce.
pub record Expiration : Type 0 where
  pub min_epoch : ℕ
  pub max_epoch : ℕ
  pub chain : Text
  pub nonce : ℕ

pub record Draft : Type 0 where
  pub sender : Text
  pub gas_price : ℕ
  pub gas_budget : ℕ
  pub gas_objects : List ObjectRef
  pub command : Command
  pub expiration : Option Expiration

-- The fullnode at one moment, and the SDK. `try_build` gives the transaction of a draft.
pub record Chain : Type 0 where
  pub connect : Result Text (Unit {0})
  pub get_balance : Text → Text → Result Text (Option Balance)
  pub list_owned_objects : Text → Text → Result Text (List OwnedObject)
  pub epoch : Result Text (Option ℕ)
  pub reference_gas_price : Result Text (Option ℕ)
  pub chain_id : Result Text (Option Text)
  pub parse_address : Text → Result Text Text
  pub parse_digest : Text → Result Text Text
  pub parse_type : Text → Result Text Text
  pub try_build : Draft → Result Text Draft
  pub to_bcs : Draft → Result Text Text

abbrev pub context {ℓ} : {A : Type ℓ} → Result Text A → Text → Result Text A
context (ok a) what = ok a
context (err e) what = err (what ++ codes ": " ++ e)

abbrev pub or_err {ℓ} : {A : Type ℓ} → Option A → Text → Result Text A
or_err none e = err e
or_err (some a) e = ok a

abbrev pub or_zero : Option ℕ → ℕ
or_zero none = 0
or_zero (some n) = n

abbrev no_balance : Option Balance → Balance
no_balance none = record { balance = none; address_balance = none; coin_balance = none }
no_balance (some b) = b

abbrev zero_ref : ObjectRef
zero_ref = record { id = codes "0x0"; version = 0; digest = codes "0" }

-- What the builder is given on the gasless path: no gas, and a placeholder for its object.
abbrev pub gasless_draft : Text → Text → Text → ℕ → Expiration → Draft
gasless_draft sender payee coin_type amount expiration = record {
  sender = sender;
  gas_price = 0;
  gas_budget = 0;
  gas_objects = zero_ref ∷ [];
  command = send_funds coin_type amount payee;
  expiration = some expiration;
}

-- What it is given on the legacy path.
abbrev pub coin_draft : Text → Text → ObjectRef → ObjectRef → ℕ → ℕ → Draft
coin_draft sender payee payment_coin gas_coin amount price = record {
  sender = sender;
  gas_price = price;
  gas_budget = gas_budget;
  gas_objects = gas_coin ∷ [];
  command = split_and_transfer payment_coin amount payee;
  expiration = none;
}

-- `salt as u32`, and the exclusive or with it of a random `u32`, which is the parameter.
unfoldable pub nonce : (ℕ → ℕ) → ℕ → ℕ
nonce xor_random salt = xor_random (salt % 2 ^ 32)

module _ (chain : Chain) where
  unfoldable pub funding : Text → Text → Result Text Funding
  funding owner coin_type = do
    connected ← context chain.connect (codes "connecting to the fullnode")
    response ← context (chain.get_balance owner coin_type) (codes "GetBalance")
    ok (record {
      address_balance = or_zero (no_balance response).address_balance;
      coin_balance = or_zero (no_balance response).coin_balance;
    })

  -- `balance`
  unfoldable pub balance : Text → Text → Result Text ℕ
  balance owner coin_type = do
    connected ← context chain.connect (codes "connecting to the fullnode")
    response ← context (chain.get_balance owner coin_type) (codes "GetBalance")
    ok (or_zero (no_balance response).balance)

  unfoldable pub current_epoch_expiration : (ℕ → ℕ) → ℕ → Result Text Expiration
  unfolding nonce
  current_epoch_expiration xor_random salt = do
    answer ← context chain.epoch (codes "GetEpoch")
    epoch_id ← or_err answer (codes "node returned no epoch")
    service ← context chain.chain_id (codes "GetServiceInfo")
    named ← or_err service (codes "node returned no chain id")
    digest ← context (chain.parse_digest named) (codes "chain id is not a digest")
    ok (record {
      min_epoch = epoch_id;
      max_epoch = epoch_id;
      chain = digest;
      nonce = nonce xor_random salt;
    })

  unfoldable pub build_gasless_payment : (ℕ → ℕ) → Text → Text → Text → ℕ → Result Text Draft
  unfolding current_epoch_expiration
  build_gasless_payment xor_random sender payee asset amount = do
    connected ← chain.connect
    coin_type ←
        context (chain.parse_type asset)
          (codes "asset \"" ++ asset ++ codes "\" is not a Move type tag")
    expiration ← current_epoch_expiration xor_random amount
    transaction ←
        context (chain.try_build (gasless_draft sender payee coin_type amount expiration))
          (codes "building the gasless transaction")
    ok (record transaction { gas_objects = [] })

  -- The first listed coin that holds enough and is fully described.
  unfoldable pub first_coin : List OwnedObject → ℕ → Text → Result Text ObjectRef
  first_coin [] at_least missing = err missing
  first_coin (object ∷ objects) at_least missing =
      let later = first_coin objects at_least missing in
      if ltb (or_zero object.balance) at_least then later else elim object.object_id [
        | none ↦ later
        | some id ↦ elim object.version [
          | none ↦ later
          | some version ↦ elim object.digest [
            | none ↦ later
            | some digest ↦ do
              i ← context (chain.parse_address id) (codes "object id")
              d ← context (chain.parse_digest digest) (codes "digest")
              ok (record { id = i; version = version; digest = d })
          ]
        ]
      ]

  unfoldable pub pick_coin : Text → Text → ℕ → Result Text ObjectRef
  unfolding first_coin
  pick_coin owner coin_type at_least = do
    objects ←
        context
          (chain.list_owned_objects owner (codes "0x2::coin::Coin<" ++ coin_type ++ codes ">"))
          (codes "ListOwnedObjects")
    first_coin objects at_least (
        codes "no "
        ++ coin_type
        ++ codes " coin owned by "
        ++ owner
        ++ codes " holds at least "
        ++ show_u64 at_least
        ++ codes ". Fund it — USDC at https://faucet.circle.com (Sui Testnet), SUI via "
        ++ codes "`sui client faucet`.")

  -- `reference_gas_price`
  unfoldable pub gas_price : Result Text ℕ
  gas_price = do
    answer ← context chain.reference_gas_price (codes "GetEpoch")
    ok (elim answer [ none ↦ 1000 | some price ↦ price ])

  unfoldable pub build_coin_object_payment : Text → Text → Text → ℕ → Result Text Draft
  unfolding pick_coin gas_price
  build_coin_object_payment sender payee asset amount = do
    connected ← chain.connect
    payment_coin ←
        context (pick_coin sender asset amount)
          (codes "finding a " ++ asset ++ codes " coin worth at least " ++ show_u64 amount)
    gas_coin ←
        context (pick_coin sender (codes "0x2::sui::SUI") gas_budget)
          (codes "finding a SUI coin for gas")
    price ← gas_price
    context (chain.try_build (coin_draft sender payee payment_coin gas_coin amount price))
        (codes "building the transaction")

  -- The build of a path whose preconditions hold; `none` is the panic of `unreachable!`.
  unfoldable pub build_path :
      (ℕ → ℕ) → PaymentPath → Text → Text → Text → ℕ → Option (Result Text Draft)
  unfolding build_gasless_payment build_coin_object_payment
  build_path xor_random gasless sender payee asset amount =
      some (build_gasless_payment xor_random sender payee asset amount)
  build_path xor_random coin_object sender payee asset amount =
      some (build_coin_object_payment sender payee asset amount)
  build_path xor_random sponsored sender payee asset amount = none

  -- The loop over the paths, with those skipped so far.
  unfoldable pub try_paths :
      (ℕ → ℕ)
      → Text
      → Text
      → Text
      → ℕ
      → Option Text
      → Funding
      → List PaymentPath
      → List (PaymentPath × Skipped)
      → Option (Result Text Draft)
  unfolding build_path check no_path_available
  try_paths xor_random sender payee asset amount gas_station funds [] skipped =
      some (err (no_path_available asset amount funds skipped))
  try_paths xor_random sender payee asset amount gas_station funds (path ∷ paths) skipped =
      elim (check path amount funds gas_station) [
        | none ↦ build_path xor_random path sender payee asset amount
        | some reason ↦
            try_paths xor_random sender payee asset amount gas_station funds paths
              (skipped ++ (path, reason) ∷ [])
      ]

  -- `build_payment`
  unfoldable pub build_payment :
      (ℕ → ℕ) → Text → Text → Text → ℕ → List PaymentPath → Option Text → Option (Result Text Draft)
  unfolding funding try_paths
  build_payment xor_random sender payee asset amount paths gas_station =
      elim (context (funding sender asset)
        (codes "reading " ++ sender ++ codes "'s " ++ asset ++ codes " balance")) [
          | err e ↦ some (err e)
          | ok funds ↦ try_paths xor_random sender payee asset amount gas_station funds paths []
        ]
