-- ===== src/Facilitator/Settlement.antt =====
-- What reaches the chain, and what identifies a payment: src/x402.rs.
use sui_x402_verifier.Base.{true, ◌≡◌, refl, inl, inr, [], trim, ok, err, Result-cases, arith}
use sui_x402_verifier.Sui.{Node, Broadcast, VerifiedPayment}
use sui_x402_verifier.Sui
use sui_x402_verifier.X402.{
  SettlementResponse, PaymentPayload, PaymentRequirements, SuiExactPayload, FacilitatorError,
}
use sui_x402_verifier.Facilitator.{
  success_receipt, Codec, Facilitator, check_terms, payment_id, verify, verify_sui, settle,
  settle_sui, settle_verified,
}

module _ (codec : Codec) (facilitator : Facilitator) (node : Node) (sui : SuiExactPayload)
    (requirements : PaymentRequirements) where
  sui_refused :
      (e : FacilitatorError)
      → verify_sui codec facilitator node sui requirements ≡ err e
      → ((settle_sui codec facilitator node sui requirements).sent ≡ [])
        × ((settle_sui codec facilitator node sui requirements).result ≡ err e)
  unfolding verify_sui settle_sui settle_verified
  sui_refused e h = elim (Result-cases (Sui.verify node sui requirements)) [
    | inl (v, q) ↦ ground arith
    | inr (f, q) ↦ ground arith
  ]

module _ (codec : Codec) (facilitator : Facilitator) (node : Node) (payload : PaymentPayload)
    (requirements : PaymentRequirements) where
  -- A payment that does not verify is not settled either: settlement fails with the very same
  -- error, and nothing is sent to the chain.
  pub settle-refused :
      (e : FacilitatorError)
      → verify codec facilitator node payload requirements ≡ err e
      → ((settle codec facilitator node payload requirements).sent ≡ [])
        × ((settle codec facilitator node payload requirements).result ≡ err e)
  unfolding verify settle
  settle-refused e h = elim (Result-cases (check_terms codec facilitator payload requirements)) [
    | inl (s, q) ↦
        let low = sui_refused codec facilitator node s requirements e (rw (q, verify) at h) in
        rw (q, settle) low
    | inr (f, q) ↦ ground arith
  ]

  -- Only a success is a receipt of the settlement itself.
  sui_success :
      (sui : SuiExactPayload) (receipt : SettlementResponse)
      → (settle_sui codec facilitator node sui requirements).result ≡ ok receipt
      → receipt.success ≡ true
  unfolding settle_sui settle_verified success_receipt
  sui_success sui receipt h = elim (Result-cases (Sui.verify node sui requirements)) [
    | inl (v, q) ↦ elim (Result-cases (Sui.settle node sui).result) [
      | inl (d, r) ↦ ground arith
      | inr (f, r) ↦ ground arith
    ]
    | inr (f, q) ↦ ground arith
  ]

  -- Whatever settles is reported as a success.
  pub settle-success :
      (receipt : SettlementResponse)
      → (settle codec facilitator node payload requirements).result ≡ ok receipt
      → receipt.success ≡ true
  unfolding settle
  settle-success receipt h =
      elim (Result-cases (check_terms codec facilitator payload requirements)) [
        | inl (s, q) ↦ sui_success s receipt (rw (q, settle) at h)
        | inr (f, q) ↦ ground arith
      ]

-- The replay key of a payment is that of its transaction alone: payloads whose transactions differ
-- in surrounding whitespace only have the same key.
pub payment_id-trim :
    (codec : Codec) (payload other : PaymentPayload) {sui sui' : SuiExactPayload}
    → codec.parse_payload payload.payload ≡ ok sui
    → codec.parse_payload other.payload ≡ ok sui'
    → trim sui.transaction ≡ trim sui'.transaction
    → payment_id codec payload ≡ payment_id codec other
unfolding payment_id
payment_id-trim codec payload other p q h = rw (p, q, h, payment_id) refl
