-- ===== src/Tests/Payments.antt =====
-- The theorems on verification and settlement at work: src/sui.rs, src/x402.rs.
use sui_x402_verifier.Base.{◌≡◌, refl, none, Text, codes, ok, text_eq, ◌+ℤ◌, parse_int}
use sui_x402_verifier.Sui.{
  Node, VerifiedPayment, Transaction, SignatureAnswer, Executed, failure_of, decode,
  check_signature, simulate,
}
use sui_x402_verifier.Sui
use sui_x402_verifier.Sui.Verified.{IsVerified, verify-IsVerified}
use sui_x402_verifier.Tests.Fixtures.{test_node, test_sui, test_terms}

verified_lem :
    Sui.verify test_node test_sui test_terms
    ≡ ok (record { payer = codes "0xpayer"; digest = codes "digest" })
unfolding Sui.verify parse_int ◌+ℤ◌ sui_x402_verifier.Session.policy_eq text_eq
verified_lem = refl

verify-IsVerified_example :
    (bytes : Text) × (signature : Text) × (transaction : Transaction) × (answer : SignatureAnswer)
    × (executed : Executed) × IsVerified test_node test_sui test_terms bytes signature transaction
        answer executed
    × (failure_of executed (codes "transaction would not succeed") ≡ none)
    × (codes "0xpayer" ≡ transaction.sender)
verify-IsVerified_example = verify-IsVerified test_node test_sui test_terms verified_lem
