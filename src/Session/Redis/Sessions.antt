-- ===== src/Session/Redis/Sessions.antt =====
-- Sessions on Redis against those in memory: src/session.rs.
use sui_x402_verifier.Base.{
  ℕ, ℤ, ◌+ℤ◌, pos, negsuc, zero, suc, ◌^◌, ◌<◌, ◌≤◌, ◌≡◌, ◌≢◌, refl, ◌∙◌, ap, List, [], ◌∷◌, All,
  Option, some, Text, codes, text_eq, text_eq_refl, show_u64, arith, ok, false,
}
use sui_x402_verifier.Session.{
  Crypto, SessionOutcome, TokenClaims, accepted, rejected, quota_exhausted,
}
use sui_x402_verifier.Session.Token.{verify}
use sui_x402_verifier.Session.Memory.Quota.{countdown}
use sui_x402_verifier.Session.Redis.{
  Redis, answered, session_key, or_empty, spend_script, outcome_of, consume, granted_or, minus_one,
  is_spent,
}
use sui_x402_verifier.Session.Redis.Laws.{NumberLaws, HashLaws, differ_lem}

-- The hash of a session with `left` of its requests unspent, at every time of the server from `from`
-- to before `until`.
pub record IsHeld (redis : Redis) (db : redis.Data) (key payer policy : Text)
    (quota left from until : ℕ) : Type 0 where
  pub held_payer : (t : ℕ) → from ≤ t → t < until → redis.hget db key (codes "payer") t ≡ some payer
  pub held_policy :
      (t : ℕ) → from ≤ t → t < until → redis.hget db key (codes "policy") t ≡ some policy
  pub held_quota :
      (t : ℕ) → from ≤ t → t < until → redis.hget db key (codes "quota") t ≡ some (show_u64 left)
  pub held_granted :
      (t : ℕ) → from ≤ t → t < until → redis.hget db key (codes "granted") t ≡ some (show_u64 quota)

-- A request is at a time of the verifier's clock and one of the server's: before the token's deadline
-- on the one, and in order and before the session's end on the other.
abbrev pub InTime : ℕ → ℕ → ℕ → List (ℕ × ℕ) → Type 0
InTime expires_at until from [] = Unit {0}
InTime expires_at until from ((now, at) ∷ times) =
    (now < expires_at) × (from ≤ at) × (at < until) × InTime expires_at until at times

abbrev pub verifier_times : List (ℕ × ℕ) → List ℕ
verifier_times [] = []
verifier_times ((now, at) ∷ times) = now ∷ verifier_times times

-- The answers to requests with the token, at these times.
unfoldable pub redis_consume_all :
    (redis : Redis)
    → Crypto
    → Text
    → redis.Data
    → Text
    → Option Text
    → List (ℕ × ℕ)
    → List SessionOutcome
unfolding consume
redis_consume_all redis crypto key db token policy [] = []
redis_consume_all redis crypto key db token policy ((now, at) ∷ times) =
    let (db', outcome) = consume redis crypto key answered db token policy now at in
    outcome ∷ redis_consume_all redis crypto key db' token policy times

quota-ne-granted : codes "quota" ≢ codes "granted"
unfolding text_eq
quota-ne-granted = differ_lem (codes "quota") (codes "granted") refl

pub quota-ne-payer : codes "quota" ≢ codes "payer"
unfolding text_eq
quota-ne-payer = differ_lem (codes "quota") (codes "payer") refl

quota-ne-policy : codes "quota" ≢ codes "policy"
unfolding text_eq
quota-ne-policy = differ_lem (codes "quota") (codes "policy") refl

minus_one-suc : (n : ℕ) → minus_one (pos (suc n)) ≡ pos n
unfolding ◌+ℤ◌
minus_one-suc n = ground arith

is_spent-suc : (n : ℕ) → is_spent (pos (suc n)) ≡ false
is_spent-suc n = ground arith

pub InTime-before :
    (expires_at until from : ℕ) (times : List (ℕ × ℕ))
    → InTime expires_at until from times
    → All (λ now. now < expires_at) (verifier_times times)
InTime-before expires_at until from [] h = tt
InTime-before expires_at until from ((now, at) ∷ times) (h, _, _, rest) =
    (h, InTime-before expires_at until at times rest)

module _ (redis : Redis) (numbers : NumberLaws redis) (laws : HashLaws redis) where
  granted_or-some :
      (text : Text) (n quota : ℤ)
      → redis.tonumber text ≡ some n
      → granted_or redis (some text) quota ≡ n
  granted_or-some text n quota h = ground arith

  module _ (db : redis.Data) (key payer policy : Text) (quota from until at : ℕ) (begun : from ≤ at)
      (live : at < until) where
    spend_script-live :
        (left : ℕ)
        → IsHeld redis db key payer policy quota (suc left) from until
        → quota < 2 ^ 53
        → suc left ≤ quota
        → spend_script redis db key policy at
          ≡ (redis.hdecr db key (codes "quota") at, (pos left, payer, pos quota))
    unfolding spend_script
    spend_script-live left h small within =
        let unspent = h.held_quota at begun live in
        let granted =
          laws.hget-hdecr_other db key (codes "quota") (codes "granted") (show_u64 (suc left)) at at
            quota-ne-granted (omega arith) unspent
          ∙ h.held_granted at begun live in
        rw
          (
            h.held_payer at begun live,
            spend_script,
            h.held_policy at begun live,
            text_eq_refl policy,
            unspent,
            numbers.tonumber-show_u64 (suc left) (omega (arith, small, within)),
            is_spent-suc left,
            minus_one-suc left,
            granted,
            granted_or-some (show_u64 quota) (pos quota) (pos (suc left))
                (numbers.tonumber-show_u64 quota small),
          )
          refl

    spend_script-spent :
        IsHeld redis db key payer policy quota 0 from until
        → spend_script redis db key policy at ≡ (db, (negsuc 0, payer, pos 0))
    unfolding spend_script
    spend_script-spent h =
        rw
          (
            h.held_payer at begun live,
            spend_script,
            h.held_policy at begun live,
            text_eq_refl policy,
            h.held_quota at begun live,
            numbers.tonumber-show_u64 0 (omega arith),
          )
          refl

    spent-IsHeld :
        (left : ℕ)
        → suc left < 2 ^ 63
        → IsHeld redis db key payer policy quota (suc left) from until
        → IsHeld redis (redis.hdecr db key (codes "quota") at) key payer policy quota left at until
    spent-IsHeld left word h = record {
      held_payer = λ t p q. other (codes "payer") quota-ne-payer t p ∙ h.held_payer t (later t p) q;
      held_policy =
          λ t p q. other (codes "policy") quota-ne-policy t p ∙ h.held_policy t (later t p) q;
      held_quota = λ t p q.
          laws.hget-hdecr db key (codes "quota") left at t word p (h.held_quota at begun live)
            (h.held_quota t (later t p) q);
      held_granted =
          λ t p q. other (codes "granted") quota-ne-granted t p ∙ h.held_granted t (later t p) q;
    }
      where
        later : (t : ℕ) → at ≤ t → from ≤ t
        later t p = omega (arith, begun, p)

        other :
            (name : Text)
            → codes "quota" ≢ name
            → (t : ℕ) → at ≤ t
            → redis.hget (redis.hdecr db key (codes "quota") at) key name t
              ≡ redis.hget db key name t
        other name ne t p =
            laws.hget-hdecr_other db key (codes "quota") name (show_u64 (suc left)) at t ne p
              (h.held_quota at begun live)

  module _ (crypto : Crypto) (hmac_key token payer : Text) (policy : Option Text)
      (quota expires_at until : ℕ) (claims : TokenClaims) (same : claims.expires_at ≡ expires_at)
      (verified : (now : ℕ) → now < expires_at → verify crypto hmac_key token now ≡ ok claims)
      (small : quota < 2 ^ 53) where
    abbrev HeldAt : redis.Data → ℕ → ℕ → Type 0
    HeldAt db left from =
        IsHeld redis db (session_key claims.session_id) payer (or_empty policy) quota left from
          until

    consume-live :
        (db : redis.Data) (left from now at : ℕ)
        → HeldAt db (suc left) from
        → suc left ≤ quota
        → now < expires_at
        → from ≤ at
        → at < until
        → consume redis crypto hmac_key answered db token policy now at ≡ (
          redis.hdecr db (session_key claims.session_id) (codes "quota") at,
          accepted payer left quota expires_at,
        )
    unfolding consume outcome_of
    consume-live db left from now at h within before begun live =
        rw
          (
            verified now before,
            consume,
            spend_script-live db (session_key claims.session_id) payer (or_empty policy) quota from
                until at begun live left h small within,
            same,
          )
          refl

    consume-spent :
        (db : redis.Data) (from now at : ℕ)
        → HeldAt db 0 from
        → now < expires_at
        → from ≤ at
        → at < until
        → consume redis crypto hmac_key answered db token policy now at
          ≡ (db, rejected quota_exhausted)
    unfolding consume outcome_of
    consume-spent db from now at h before begun live =
        rw
          (
            verified now before,
            consume,
            spend_script-spent db (session_key claims.session_id) payer (or_empty policy) quota from
                until at begun live h,
          )
          refl

    pub redis_consume_all-countdown :
        (db : redis.Data) (left from : ℕ) (times : List (ℕ × ℕ))
        → HeldAt db left from
        → left ≤ quota
        → InTime expires_at until from times
        → redis_consume_all redis crypto hmac_key db token policy times
          ≡ countdown payer quota expires_at left (verifier_times times)
    unfolding redis_consume_all countdown
    redis_consume_all-countdown db left from [] h within w = refl
    redis_consume_all-countdown db zero from ((now, at) ∷ times) h within (a, b, c, w) =
        let kept : HeldAt db zero at = record {
          held_payer = λ t p q. h.held_payer t (omega (arith, b, p)) q;
          held_policy = λ t p q. h.held_policy t (omega (arith, b, p)) q;
          held_quota = λ t p q. h.held_quota t (omega (arith, b, p)) q;
          held_granted = λ t p q. h.held_granted t (omega (arith, b, p)) q;
        } in
        rw (consume-spent db from now at h a b c) (
          ap (λ os. rejected quota_exhausted ∷ os)
            (redis_consume_all-countdown db zero at times kept within w))
    redis_consume_all-countdown db (suc left) from ((now, at) ∷ times) h within (a, b, c, w) =
        rw (consume-live db left from now at h within a b c) (
          ap (λ os. accepted payer left quota expires_at ∷ os)
            (redis_consume_all-countdown
              (redis.hdecr db (session_key claims.session_id) (codes "quota") at) left at times
              (spent-IsHeld db (session_key claims.session_id) payer (or_empty policy) quota from
                until at b c left (omega (arith, within, small)) h)
              (omega (arith, within)) w))
