-- ===== src/Session.antt =====
-- Paid sessions: src/session.rs. This file has the shared types; the children have the token
-- codec, the in-memory store and the atomic quota counter, with their theorems.
pub mod Token
pub mod Memory
pub mod Spend
pub mod Redis
use sui_x402_verifier.Base.{
  ℕ, ◌≡◌, Bool, true, false, Option, none, some, Text, text_eq, text_eq_iff, All, leb, ◌&&◌, ◌||◌,
  ◌↔◌, refl, arith,
}

pub record Session : Type 0 where
  pub payer : Text
  pub policy : Option Text
  pub expires_at : ℕ
  pub quota : ℕ
  pub quota_remaining : ℕ

pub data SessionRejection : Type 0 where
  malformed expired unknown wrong_policy quota_exhausted backend : SessionRejection

pub data SessionOutcome : Type 0 where
  -- The payer, what is left, what was granted, and the deadline.
  accepted : Text → ℕ → ℕ → ℕ → SessionOutcome
  rejected : SessionRejection → SessionOutcome

pub record TokenClaims : Type 0 where
  pub payer : Text
  pub expires_at : ℕ
  pub session_id : Text

pub data PaymentClaim : Type 0 where
  fresh : PaymentClaim
  replay : ℕ → PaymentClaim
  backend : PaymentClaim

-- HMAC-SHA256 and the `hex` crate, which the source only calls.
pub record Crypto : Type 0 where
  pub mac : Text → Text → Text
  pub hex_encode : Text → Text
  pub hex_decode : Text → Option Text

abbrev pub is_hex_digit : ℕ → Bool
is_hex_digit c = (leb b'0' c && leb c b'9') || (leb b'a' c && leb c b'f')

-- What `hex` documents: encoding gives lower-case hex digits, and decoding undoes it.
pub record HexLaws (crypto : Crypto) : Type 0 where
  pub decode-encode : (b : Text) → crypto.hex_decode (crypto.hex_encode b) ≡ some b
  pub encode-digits : (b : Text) → All (λ c. is_hex_digit c ≡ true) (crypto.hex_encode b)

-- `session.policy.as_deref() == policy`
unfoldable pub policy_eq : Option Text → Option Text → Bool
policy_eq none none = true
policy_eq none (some q) = false
policy_eq (some p) none = false
policy_eq (some p) (some q) = text_eq p q

pub policy_eq_iff : (p q : Option Text) → (policy_eq p q ≡ true) ↔ (p ≡ q)
unfolding policy_eq
policy_eq_iff none none = (λ _. refl, λ _. refl)
policy_eq_iff none (some q) = (λ h. cc, λ h. cc)
policy_eq_iff (some p) none = (λ h. cc, λ h. cc)
policy_eq_iff (some p) (some q) = ground (arith, text_eq_iff p q)
