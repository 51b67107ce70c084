-- ===== src/Payclient/Keys.antt =====
-- The signing key: `load_key` of src/payclient.rs. The environment, the file system and the key
-- libraries are the parameter `Environment`; bytes are lists of numbers.
use sui_x402_verifier.Base.{
  ℕ, not, if◌then◌else◌, ◌||◌, text_eq, is_empty, Option, none, some, List, [], ◌∷◌, ◌++◌, ◌==◌,
  Text, codes, trim, show_u64, length, Result, ok, err, ◌>>=◌, ◌>>◌, bail_if,
}
use sui_x402_verifier.Payclient.Build.{Draft, context, or_err}

-- A private key: its address and what it signs.
pub record Key : Type 0 where
  pub address : Text
  pub sign : Draft → Result Text Text

pub record Environment : Type 0 where
  pub private_key : Option Text
  pub keystore_path : Option Text
  pub home : Option Text
  pub read_to_string : Text → Result Text Text
  pub parse_keystore : Text → Result Text (List Text)
  pub b64_decode : Text → Result Text (List ℕ)
  pub from_suiprivkey : Text → Result Text Key
  pub from_bytes : List ℕ → Key

-- The last character of a text, as a text.
abbrev last_of : Text → Text
last_of [] = []
last_of (c ∷ []) = c ∷ []
last_of (c ∷ d ∷ s) = last_of (d ∷ s)

-- `PathBuf::join` puts a slash between the parts where there is none, and none behind nothing.
unfoldable pub join_path : Text → Text → Text
join_path base rest =
    if is_empty base || text_eq (last_of base) (codes "/")
    then base ++ rest
    else base ++ codes "/" ++ rest

abbrev or_empty : Option Text → Text
or_empty none = []
or_empty (some t) = t

unfoldable pub keystore_path : Environment → Text
unfolding join_path
keystore_path env = elim env.keystore_path [
  | some path ↦ path
  | none ↦ join_path (or_empty env.home) (codes ".sui/sui_config/sui.keystore")
]

-- The key in a keystore entry: `flag || private key`, with flag 0 for ed25519.
unfoldable pub entry_key : Environment → List ℕ → Result Text Key
entry_key env [] = err (codes "keystore entry is empty")
entry_key env (flag ∷ key) = do
  bail_if (not (flag == 0)) (
      codes "the first keystore entry is not ed25519 (scheme flag "
      ++ show_u64 flag
      ++ codes "); set X402_SUI_PRIVATE_KEY")
  bail_if (not (length key == 32)) (codes "keystore entry is not a 32-byte ed25519 key")
  ok (env.from_bytes key)

abbrev first_entry : List Text → Option Text
first_entry [] = none
first_entry (entry ∷ rest) = some entry

unfoldable pub keystore_key : Environment → Result Text Key
unfolding keystore_path entry_key
keystore_key env = do
  raw ← context (env.read_to_string (keystore_path env)) (
      codes "reading "
      ++ keystore_path env
      ++ codes ". Set X402_SUI_PRIVATE_KEY, or install the sui CLI and create an address.")
  entries ← context (env.parse_keystore raw) (codes "parsing the sui keystore")
  first ← or_err (first_entry entries) (codes "the sui keystore is empty")
  bytes ← context (env.b64_decode first) (codes "keystore entry is not base64")
  entry_key env bytes

-- `load_key`: the variable wins over the keystore.
unfoldable pub load_key : Environment → Result Text Key
unfolding keystore_key
load_key env = elim env.private_key [
  | some encoded ↦
      context (env.from_suiprivkey (trim encoded))
        (codes "X402_SUI_PRIVATE_KEY is not a suiprivkey")
  | none ↦ keystore_key env
]
