-- ===== src/Session/Memory/Quota.antt =====
-- A session is spent request by request: src/session.rs.
use sui_x402_verifier.Base.{
  ℕ, zero, suc, List, [], ◌∷◌, All, ap, ap₂, ◌<◌, ◌≡◌, refl, ◌∙◌, Option, some, saturating_add,
  Text, lookup, insert, lookup-insert_self, arith, inl, inr, ok, Result-cases,
}
use sui_x402_verifier.Session.{
  Crypto, HexLaws, Session, TokenClaims, SessionRejection, SessionOutcome, policy_eq_iff, accepted,
  rejected, quota_exhausted,
}
use sui_x402_verifier.Session.Token.{mint, verify}
use sui_x402_verifier.Session.Token.RoundTrip.{IsField, hex-IsField, verify-mint}
use sui_x402_verifier.Session.Memory.{MemorySessionStore, consume_at, create_session_at}

module _ (crypto : Crypto) (store : MemorySessionStore) (token : Text) (policy : Option Text)
    (now : ℕ) where
  -- A token that is not honoured costs nothing: the store is as it was.
  pub consume_at-rejected :
      (r : SessionRejection)
      → (consume_at crypto store token policy now).1 ≡ rejected r
      → (consume_at crypto store token policy now).0 ≡ store
  unfolding consume_at
  consume_at-rejected r h = elim (Result-cases (verify crypto store.hmac_key token now)) [
    | inr (e, q) ↦ rw (q, consume_at) refl
    | inl (c, q) ↦ ground arith
  ]

-- The token verifies until the session's deadline, and the session is held, was bought for this
-- policy, and has `left` of its requests unspent.
pub record IsLive (crypto : Crypto) (store : MemorySessionStore) (token : Text)
    (policy : Option Text) (session : Session) (claims : TokenClaims) (left : ℕ) : Type 0 where
  pub verified :
      (now : ℕ) → now < session.expires_at → verify crypto store.hmac_key token now ≡ ok claims
  pub held :
      lookup claims.session_id store.sessions ≡ some (record session { quota_remaining = left })
  pub bought : session.policy ≡ policy

-- The answers to requests with the token, at these times.
unfoldable pub consume_all :
    Crypto → MemorySessionStore → Text → Option Text → List ℕ → List SessionOutcome
unfolding consume_at
consume_all crypto store token policy [] = []
consume_all crypto store token policy (now ∷ times) =
    let (store', outcome) = consume_at crypto store token policy now in
    outcome ∷ consume_all crypto store' token policy times

-- What a session with `left` of its requests unspent owes to as many requests as there are times.
unfoldable pub countdown : Text → ℕ → ℕ → ℕ → List ℕ → List SessionOutcome
countdown payer quota expires_at left [] = []
countdown payer quota expires_at zero (now ∷ times) =
    rejected quota_exhausted ∷ countdown payer quota expires_at zero times
countdown payer quota expires_at (suc left) (now ∷ times) =
    accepted payer left quota expires_at ∷ countdown payer quota expires_at left times

module _ (crypto : Crypto) (token : Text) (policy : Option Text) (session : Session)
    (claims : TokenClaims) where
  consume_at-live :
      (store : MemorySessionStore) (left now : ℕ)
      → now < session.expires_at
      → IsLive crypto store token policy session claims (suc left)
      → consume_at crypto store token policy now ≡ (
        record store {
          sessions =
              insert claims.session_id (record session { quota_remaining = left }) store.sessions;
        },
        accepted session.payer left session.quota session.expires_at,
      )
  unfolding consume_at
  consume_at-live store left now h v =
      ground (arith, policy_eq_iff session.policy policy, v.verified now h, v.held, v.bought)

  consume_at-IsLive :
      (store : MemorySessionStore) (left now : ℕ)
      → now < session.expires_at
      → IsLive crypto store token policy session claims (suc left)
      → IsLive crypto (consume_at crypto store token policy now).0 token policy session claims left
  consume_at-IsLive store left now h v = rw (consume_at-live store left now h v) (record {
    verified = v.verified;
    held =
        lookup-insert_self claims.session_id (record session { quota_remaining = left })
          store.sessions;
    bought = v.bought;
  })

  consume_at-spent :
      (store : MemorySessionStore) (now : ℕ)
      → now < session.expires_at
      → IsLive crypto store token policy session claims 0
      → consume_at crypto store token policy now ≡ (store, rejected quota_exhausted)
  unfolding consume_at
  consume_at-spent store now h v =
      ground (arith, policy_eq_iff session.policy policy, v.verified now h, v.held, v.bought)

  -- Before its deadline a session is counted down request by request, and then it is exhausted,
  -- whatever time passes between the requests.
  pub consume_all-countdown :
      (store : MemorySessionStore) (left : ℕ) (times : List ℕ)
      → IsLive crypto store token policy session claims left
      → All (λ now. now < session.expires_at) times
      → consume_all crypto store token policy times
        ≡ countdown session.payer session.quota session.expires_at left times
  unfolding consume_all countdown
  consume_all-countdown store left [] v h = refl
  consume_all-countdown store zero (now ∷ times) v (h, rest) =
      rw (consume_at-spent store now h v)
        (ap (λ os. rejected quota_exhausted ∷ os) (consume_all-countdown store zero times v rest))
  consume_all-countdown store (suc left) (now ∷ times) v (h, rest) =
      let live = consume_at-IsLive store left now h v in
      ap₂ (λ o os. o ∷ os) (ap (λ r. r.1) (consume_at-live store left now h v))
        (consume_all-countdown (consume_at crypto store token policy now).0 left times live rest)

-- A new session is worth exactly what was paid for: of the requests with its token that come before
-- its deadline, at whatever times and under the policy that it was bought for, as many as the quota
-- says are accepted, each told what remains, and every later one is refused as exhausted. The payer
-- is free of colons and whitespace.
pub create_session_at-countdown :
    (crypto : Crypto) (laws : HexLaws crypto) (store : MemorySessionStore) (payer raw : Text)
    (policy : Option Text) (quota ttl now : ℕ) (times : List ℕ)
    → IsField payer
    → All (λ later. later < saturating_add now ttl) times
    → let (store', token) = create_session_at crypto store payer policy quota ttl now raw in
      consume_all crypto store' token policy times
      ≡ countdown payer quota (saturating_add now ttl) quota times
unfolding create_session_at
create_session_at-countdown crypto laws store payer raw policy quota ttl now times f h =
    consume_all-countdown crypto (mint crypto store.hmac_key payer (saturating_add now ttl) sid)
      policy
      (record {
        payer = payer;
        policy = policy;
        expires_at = saturating_add now ttl;
        quota = quota;
        quota_remaining = quota;
      })
      (record { payer = payer; expires_at = saturating_add now ttl; session_id = sid })
      (create_session_at crypto store payer policy quota ttl now raw).0 quota times
      (record {
        verified = λ later before.
            verify-mint crypto laws store.hmac_key payer sid (saturating_add now ttl) later f
              (hex-IsField sid (laws.encode-digits raw)) (omega arith)
            ∙ ground (arith, before);
        held = lookup-insert_self sid _ store.sessions;
        bought = refl;
      })
      h
  where
    sid : Text
    sid = crypto.hex_encode raw
