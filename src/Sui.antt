-- ===== src/Sui.antt =====
-- Verification and settlement against a Sui fullnode: src/sui.rs. The node's answers, and the
-- decoders of base64 and BCS, are the parameter `Node`; balance sums stay in the range of `i128`.
pub mod Verified
use sui_x402_verifier.Base.{
  ℕ, ℤ, pos, ◌+ℤ◌, eq_ℤ, ◌-◌, ◌^◌, Bool, true, false, not, ◌&&◌, Option, none, some, List, [], ◌∷◌,
  ◌++◌, ◌==◌, if◌then◌else◌, Text, codes, text_eq, trim, is_empty, eq_ignore_ascii_case, parse_int,
  Result, ok, err, ◌>>=◌, ◌>>◌, bail_if,
}
use sui_x402_verifier.Session.{policy_eq}
use sui_x402_verifier.X402.{
  PaymentRequirements, SuiExactPayload, FacilitatorError, malformed_payload, rpc, invalid_signature,
  simulation_failed, stale_input, settlement_failed, invalid_requirements, amount_not_credited,
  chain_mismatch,
}

pub data Input : Type 0 where
  immutable_or_owned receiving : Text → ℕ → Input
  shared other_input : Input

pub data TransactionKind : Type 0 where
  programmable : List Input → TransactionKind
  other_kind : TransactionKind

pub record Transaction : Type 0 where
  pub sender : Text
  pub kind : TransactionKind
  pub gas_objects : List (Text × ℕ)

pub record BalanceChange : Type 0 where
  pub address : Option Text
  pub coin_type : Option Text
  pub amount : Option Text

pub record ExecutionStatus : Type 0 where
  pub success : Option Bool
  pub description : Option Text

pub record Executed : Type 0 where
  pub digest : Option Text
  -- The status in the effects, where both are there.
  pub status : Option ExecutionStatus
  pub balance_changes : List BalanceChange

pub data ObjectAnswer : Type 0 where
  -- The version of the object, if the answer has one.
  found : Option ℕ → ObjectAnswer
  not_found : ObjectAnswer
  failed : Text → ObjectAnswer

pub record SignatureAnswer : Type 0 where
  pub is_valid : Option Bool
  pub reason : Option Text

-- The fullnode and the decoding libraries at one moment; an error is its text.
pub record Node : Type 0 where
  pub b64_decode : Text → Result Text Text
  pub parse_transaction : Text → Result Text Transaction
  pub parse_signature : Text → Result Text Text
  pub verify_signature : Text → Text → Text → Result Text SignatureAnswer
  pub simulate : Text → Result Text (Option Executed)
  pub get_object : Text → ObjectAnswer
  pub execute : Text → Text → Result Text (Option Executed)
  pub service_chain : Result Text (Option Text)

pub record VerifiedPayment : Type 0 where
  pub payer : Text
  pub digest : Text

abbrev pub Checked : Type 0
Checked = Result FacilitatorError (Unit {0})

-- `map_err`
abbrev pub map_err {ℓ} :
    {A : Type ℓ} → Result Text A → (Text → FacilitatorError) → Result FacilitatorError A
map_err (ok a) f = ok a
map_err (err e) f = err (f e)

abbrev pub unwrap_or {ℓ} : {A : Type ℓ} → Option A → A → A
unwrap_or none d = d
unwrap_or (some a) d = a

abbrev malformed : Text → Text → FacilitatorError
malformed what e = malformed_payload (codes "exact") (what ++ e)

-- The objects that a transaction pins, with their versions.
unfoldable pub pinned_inputs : List Input → List (Text × ℕ)
pinned_inputs [] = []
pinned_inputs (immutable_or_owned id version ∷ inputs) = (id, version) ∷ pinned_inputs inputs
pinned_inputs (receiving id version ∷ inputs) = (id, version) ∷ pinned_inputs inputs
pinned_inputs (shared ∷ inputs) = pinned_inputs inputs
pinned_inputs (other_input ∷ inputs) = pinned_inputs inputs

abbrev kind_inputs : TransactionKind → List Input
kind_inputs (programmable inputs) = inputs
kind_inputs other_kind = []

unfoldable pub pinned : Transaction → List (Text × ℕ)
unfolding pinned_inputs
pinned transaction = pinned_inputs (kind_inputs transaction.kind) ++ transaction.gas_objects

-- The version that the chain has, an absent object having none.
unfoldable pub current_version : Text → ObjectAnswer → Result FacilitatorError (Option ℕ)
current_version id (found version) = ok version
current_version id not_found = ok none
current_version id (failed e) = err (rpc (codes "GetObject(" ++ id ++ codes "): " ++ e))

abbrev is_version : ℕ → Option ℕ → Bool
is_version version none = false
is_version version (some current) = current == version

unfoldable pub assert_live : Node → List (Text × ℕ) → Checked
unfolding current_version
assert_live node [] = ok tt
assert_live node ((id, version) ∷ rest) = do
  current ← current_version id (node.get_object id)
  bail_if (not (is_version version current)) (stale_input id version current)
  assert_live node rest

unfoldable pub assert_inputs_are_live : Node → Transaction → Checked
unfolding assert_live pinned
assert_inputs_are_live node transaction = assert_live node (pinned transaction)

abbrev pub max_i128 : ℕ
max_i128 = 2 ^ 127 - 1

-- What one balance change adds to the recipient's credit.
unfoldable pub credit_of : PaymentRequirements → BalanceChange → ℤ
credit_of requirements change =
    if policy_eq change.address (some requirements.pay_to)
      && policy_eq change.coin_type (some requirements.asset)
    then elim change.amount [
      | none ↦ pos 0
      | some amount ↦ unwrap_or (parse_int max_i128 amount) (pos 0)
    ]
    else pos 0

unfoldable pub credited : PaymentRequirements → List BalanceChange → ℤ
unfolding credit_of
credited requirements [] = pos 0
credited requirements (change ∷ changes) =
    credit_of requirements change +ℤ credited requirements changes

unfoldable pub assert_credits : List BalanceChange → PaymentRequirements → Checked
unfolding credited
assert_credits changes requirements = elim (parse_int max_i128 requirements.amount) [
  | none ↦ err (
      invalid_requirements
        (codes "amount \"" ++ requirements.amount ++ codes "\" is not an integer"))
  | some expected ↦ bail_if (not (eq_ℤ (credited requirements changes) expected)) (
      amount_not_credited requirements.amount (credited requirements changes) requirements.pay_to
        requirements.asset)
]

-- A status that is there and is no success.
abbrev pub failure_of : Executed → Text → Option Text
failure_of executed default = elim executed.status [
  | none ↦ none
  | some status ↦
      if unwrap_or status.success false then none else some (unwrap_or status.description default)
]

abbrev fail_with : Option Text → (Text → FacilitatorError) → Checked
fail_with none f = ok tt
fail_with (some e) f = err (f e)

abbrev or_fail {ℓ} : {A : Type ℓ} → Option A → FacilitatorError → Result FacilitatorError A
or_fail none e = err e
or_fail (some a) e = ok a

unfoldable pub decode : Node → SuiExactPayload → Result FacilitatorError (Text × Text)
decode node payload = do
  transaction ←
      map_err (node.b64_decode (trim payload.transaction))
        (malformed (codes "transaction is not valid base64: "))
  signature ←
      map_err (node.b64_decode (trim payload.signature))
        (malformed (codes "signature is not valid base64: "))
  ok (transaction, signature)

abbrev parse_signature : Node → Text → Result FacilitatorError Text
parse_signature node bytes =
    map_err (node.parse_signature bytes)
      (malformed (codes "signature is not a valid Sui user signature: "))

-- Step 2: the signature is valid over these bytes.
unfoldable pub check_signature : Node → Text → Text → Text → Checked
check_signature node bytes signature sender = do
  response ←
      map_err (node.verify_signature bytes signature sender)
        (λ e. rpc (codes "VerifySignature: " ++ e))
  bail_if (not (unwrap_or response.is_valid false))
      (invalid_signature (unwrap_or response.reason (codes "signature did not verify")))

-- Step 3: it would execute.
unfoldable pub simulate : Node → Text → Result FacilitatorError Executed
simulate node bytes = do
  simulation ← map_err (node.simulate bytes) (λ e. rpc (codes "SimulateTransaction: " ++ e))
  executed ← or_fail simulation (simulation_failed (codes "simulation returned no transaction"))
  fail_with (failure_of executed (codes "transaction would not succeed")) simulation_failed
  ok executed

-- `SuiVerifier::verify`
unfoldable pub verify :
    Node → SuiExactPayload → PaymentRequirements → Result FacilitatorError VerifiedPayment
unfolding decode check_signature simulate assert_inputs_are_live assert_credits
verify node payload requirements = do
  decoded ← decode node payload
  transaction ←
      map_err (node.parse_transaction decoded.0)
        (malformed (codes "transaction is not valid BCS TransactionData: "))
  signature ← parse_signature node decoded.1
  check_signature node decoded.0 signature transaction.sender
  executed ← simulate node decoded.0
  assert_inputs_are_live node transaction
  assert_credits executed.balance_changes requirements
  ok (record { payer = transaction.sender; digest = unwrap_or executed.digest [] })

-- What was sent to the chain, and how it ended.
pub record Broadcast (A : Type 0) : Type 0 where
  pub sent : List Text
  pub result : Result FacilitatorError A

-- The transaction bytes and the signature that `settle` is to send.
unfoldable pub settle_request : Node → SuiExactPayload → Result FacilitatorError (Text × Text)
unfolding decode
settle_request node payload = do
  decoded ← decode node payload
  signature ← parse_signature node decoded.1
  ok (decoded.0, signature)

unfoldable pub settle_result : Node → Text → Text → Result FacilitatorError Text
settle_result node bytes signature = do
  response ←
      map_err (node.execute bytes signature)
        (λ e. settlement_failed (codes "ExecuteTransaction: " ++ e))
  executed ← or_fail response (settlement_failed (codes "execution returned no transaction"))
  fail_with (failure_of executed (codes "transaction failed on chain")) settlement_failed
  ok (unwrap_or executed.digest [])

-- `SuiVerifier::settle`: one broadcast, once the payload decodes.
unfoldable pub settle : Node → SuiExactPayload → Broadcast Text
unfolding settle_request settle_result
settle node payload = elim (settle_request node payload) [
  | err e ↦ record { sent = []; result = err e }
  | ok (bytes, signature) ↦ record {
    sent = bytes ∷ [];
    result = settle_result node bytes signature;
  }
]

pub data ChainCheck : Type 0 where
  matches not_reported : ChainCheck

-- `reported.map(str::trim).filter(|c| !c.is_empty())`
abbrev named_chain : Option Text → Option Text
named_chain none = none
named_chain (some chain) = if is_empty (trim chain) then none else some (trim chain)

unfoldable pub check_chain : Text → Option Text → Result FacilitatorError ChainCheck
check_chain configured reported = elim (named_chain reported) [
  | none ↦ ok not_reported
  | some chain ↦
      if eq_ignore_ascii_case chain (trim configured)
      then ok matches
      else err (chain_mismatch chain configured)
]

unfoldable pub reported_chain : Node → Result FacilitatorError (Option Text)
reported_chain node = map_err node.service_chain (λ e. rpc (codes "GetServiceInfo: " ++ e))
