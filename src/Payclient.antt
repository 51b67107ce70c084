-- ===== src/Payclient.antt =====
-- The payment client: src/payclient.rs. Here are the ways to fund a payment and what each needs;
-- `Build` builds and signs, `Reader` reads a response, `Paths`, `Honest` and `Metered` have the
-- theorems. An error is its text, with its context in front of it.
pub mod Build
pub mod Keys
pub mod Wire
pub mod Reader
pub mod Paths
pub mod Pays
pub mod Written
pub mod Honest
pub mod Metered
use sui_x402_verifier.Base.{
  ℕ, Bool, true, false, not, ◌&&◌, ◌||◌, Option, none, some, List, [], ◌∷◌, ◌++◌, map, ltb, ◌==◌,
  if◌then◌else◌, Text, codes, text_eq, trim, is_empty, split, show_u64, Result, ok, err, ◌>>=◌, ◌-◌,
  zero, suc, length,
}

abbrev pub gas_budget : ℕ
gas_budget = 10000000

abbrev pub gasless_minimum : ℕ
gasless_minimum = 10000

pub data PaymentPath : Type 0 where
  gasless sponsored coin_object : PaymentPath

unfoldable pub name : PaymentPath → Text
name gasless = codes "gasless"
name sponsored = codes "sponsored"
name coin_object = codes "coin-object"

unfoldable pub parse_path : Text → Result Text PaymentPath
parse_path p =
    if text_eq p (codes "gasless")
    then ok gasless
    else if text_eq p (codes "sponsored")
    then ok sponsored
    else if text_eq p (codes "coin-object") || text_eq p (codes "coin_object")
    then ok coin_object
    else err (
        codes "unknown payment path \""
        ++ p
        ++ codes "\"; expected gasless, sponsored or coin-object")

-- `.filter(..).map(..).collect()` on the parts: the first error ends it.
unfoldable pub parse_paths : List Text → Result Text (List PaymentPath)
unfolding parse_path
parse_paths [] = ok []
parse_paths (p ∷ ps) =
    let rest = parse_paths ps in
    if is_empty p then rest else (do path ← parse_path p; paths ← rest; ok (path ∷ paths))

-- `PaymentPath::parse_list`
unfoldable pub parse_list : Text → Result Text (List PaymentPath)
unfolding parse_paths
parse_list s = parse_paths (map trim (split s b','))

abbrev pub default_payment_paths : List PaymentPath
default_payment_paths = gasless ∷ sponsored ∷ coin_object ∷ []

pub data Skipped : Type 0 where
  below_gasless_floor address_balance_short : ℕ → ℕ → Skipped
  no_gas_station_advertised sponsorship_not_implemented : Skipped
  coin_objects_short : ℕ → ℕ → Skipped

unfoldable pub describe : Skipped → Text
describe (below_gasless_floor amount floor) =
    codes "price "
    ++ show_u64 amount
    ++ codes " is below the gasless floor of "
    ++ show_u64 floor
    ++ codes "; Sui will not execute a gasless transfer that small"
describe (address_balance_short have need) =
    codes "address balance holds "
    ++ show_u64 have
    ++ codes ", needs "
    ++ show_u64 need
    ++ codes ". Coin objects do not count — move funds across once with "
    ++ codes "`0x2::coin::send_funds` (costs gas once)"
describe no_gas_station_advertised = codes "the server advertised no extra.gasStation"
describe sponsorship_not_implemented =
    codes "a gas station was advertised but the interactive sponsorship "
    ++ codes "protocol is not implemented here"
describe (coin_objects_short have need) =
    codes "Coin objects hold " ++ show_u64 have ++ codes ", needs " ++ show_u64 need

pub record Funding : Type 0 where
  pub address_balance : ℕ
  pub coin_balance : ℕ

-- The preconditions of one path.
unfoldable pub check : PaymentPath → ℕ → Funding → Option Text → Option Skipped
check gasless amount funds gas_station =
    if ltb amount gasless_minimum
    then some (below_gasless_floor amount gasless_minimum)
    else if ltb funds.address_balance amount
    then some (address_balance_short funds.address_balance amount)
    else none
check sponsored amount funds none = some no_gas_station_advertised
check sponsored amount funds (some station) = some sponsorship_not_implemented
check coin_object amount funds gas_station =
    if ltb funds.coin_balance amount
    then some (coin_objects_short funds.coin_balance amount)
    else none

abbrev spaces : ℕ → Text
spaces zero = []
spaces (suc n) = b' ' ∷ spaces n

-- `{:<12}`
abbrev padded : Text → Text
padded t = t ++ spaces (12 - length t)

unfoldable pub skipped_lines : List (PaymentPath × Skipped) → Text
unfolding name describe
skipped_lines [] = []
skipped_lines ((path, why) ∷ rest) =
    codes "\n  " ++ padded (name path) ++ codes " " ++ describe why ++ skipped_lines rest

abbrev nothing_held : Funding → Text
nothing_held funds =
    if (funds.address_balance == 0) && (funds.coin_balance == 0)
    then codes "\n  This address holds none of this coin. Fund it at "
      ++ codes "https://faucet.circle.com (Sui Testnet)."
    else []

unfoldable pub no_path_available : Text → ℕ → Funding → List (PaymentPath × Skipped) → Text
unfolding skipped_lines
no_path_available asset amount funds skipped =
    codes "no usable payment path for "
    ++ show_u64 amount
    ++ codes " of "
    ++ asset
    ++ codes ". Holdings: "
    ++ show_u64 funds.address_balance
    ++ codes " in the address balance, "
    ++ show_u64 funds.coin_balance
    ++ codes " in Coin objects."
    ++ skipped_lines skipped
    ++ nothing_held funds
