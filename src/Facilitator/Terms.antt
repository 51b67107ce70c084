-- ===== src/Facilitator/Terms.antt =====
-- The terms of a payment against the advertised ones: src/x402.rs.
use sui_x402_verifier.Base.{◌≡◌, refl, false, text_eq_iff, trim, is_empty, ok, arith}
use sui_x402_verifier.X402.{PaymentPayload, PaymentRequirements, SuiExactPayload, x402_version}
use sui_x402_verifier.Facilitator.{Codec, Facilitator, check_terms, parse_sui}

-- The accepted terms are the advertised ones, on the chain that the facilitator serves.
pub record TermsAgree (facilitator : Facilitator) (payload : PaymentPayload)
    (requirements : PaymentRequirements) : Type 0 where
  pub chain : requirements.network ≡ facilitator.network
  pub version : payload.x402_version ≡ x402_version
  pub scheme : payload.accepted.scheme ≡ requirements.scheme
  pub network : payload.accepted.network ≡ requirements.network
  pub amount : payload.accepted.amount ≡ requirements.amount
  pub asset : payload.accepted.asset ≡ requirements.asset
  pub pay_to : payload.accepted.pay_to ≡ requirements.pay_to

module _ (codec : Codec) (facilitator : Facilitator) (payload : PaymentPayload)
    (requirements : PaymentRequirements) where
  parse_sui-ok :
      (sui : SuiExactPayload)
      → codec.parse_payload payload.payload ≡ ok sui
      → parse_sui codec payload requirements ≡ ok sui
  parse_sui-ok sui h = ground arith

  -- Terms that agree pass, with what the payload reads as.
  pub TermsAgree-check_terms :
      (sui : SuiExactPayload)
      → TermsAgree facilitator payload requirements
      → codec.parse_payload payload.payload ≡ ok sui
      → is_empty (trim sui.transaction) ≡ false
      → is_empty (trim sui.signature) ≡ false
      → check_terms codec facilitator payload requirements ≡ ok sui
  unfolding check_terms
  TermsAgree-check_terms sui t h i j =
      rw
        (
          (text_eq_iff requirements.network facilitator.network).1 t.chain,
          t.version,
          (text_eq_iff payload.accepted.scheme requirements.scheme).1 t.scheme,
          (text_eq_iff payload.accepted.network requirements.network).1 t.network,
          (text_eq_iff payload.accepted.amount requirements.amount).1 t.amount,
          (text_eq_iff payload.accepted.asset requirements.asset).1 t.asset,
          (text_eq_iff payload.accepted.pay_to requirements.pay_to).1 t.pay_to,
          parse_sui-ok sui h,
          i,
          j,
        )
        refl
