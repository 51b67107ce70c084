-- ===== src/Session/Redis/Claims.antt =====
-- The replay cache on Redis over a history of claims and releases: src/session.rs. Each event has
-- the fate of its round trip and the time of the Redis server.
use sui_x402_verifier.Base.{
  ℕ, ◌+◌, ◌*◌, ◌^◌, ◌≡◌, ◌≢◌, ◌≤◌, ◌<◌, ◌⊎◌, inl, inr, refl, sym, ◌∙◌, none, some, List, [], ◌∷◌,
  Text, show_u64, parse_uint-show_u64, max_u64, All, Option-cases, pos, arith, subst, text_eq,
  text_eq_iff, Bool-cases,
}
use sui_x402_verifier.Session.{fresh, replay}
use sui_x402_verifier.Session.Redis.{
  Redis, Link, answered, unsent, unanswered, replay_key, set_for, claim_script, claim_of,
  claim_payment, release_payment,
}
use sui_x402_verifier.Session.Redis.Laws.{NumberLaws, KeyLaws, replay_key-ne, differ_lem}

-- A claim of a payment for some seconds, at a time of the verifier's clock and one of the server's;
-- and a release.
pub data Event : Type 0 where
  claims : Text → ℕ → ℕ → ℕ → Link → Event
  releases : Text → Link → Event

unfoldable pub apply_all : (redis : Redis) → redis.Data → List Event → redis.Data
unfolding claim_payment release_payment
apply_all redis db [] = db
apply_all redis db (claims id ttl now at link ∷ es) =
    apply_all redis (claim_payment redis link db id ttl now at).0 es
apply_all redis db (releases id link ∷ es) = apply_all redis (release_payment redis link db id) es

-- What does not end a claim of the payment that lasts from `from` to before `until` on the server:
-- anything that is asked about another payment, and a claim of it in that time.
abbrev pub IsWithin : Text → ℕ → ℕ → Event → Type 0
IsWithin id from until (claims i l now at link) = (i ≢ id) ⊎ ((from ≤ at) × (at < until))
IsWithin id from until (releases i link) = i ≢ id

module _ (redis : Redis) (numbers : NumberLaws redis) (keys : KeyLaws redis) (id : Text)
    (first from until : ℕ) where
  -- The payment is on record, all that time.
  abbrev Holds : redis.Data → Type 0
  Holds db =
      (later : ℕ)
      → from ≤ later
      → later < until
      → redis.get db (replay_key id) later ≡ some (show_u64 first)

  script-present :
      (db : redis.Data) (now_text ttl_text : Text) (at : ℕ)
      → Holds db
      → from ≤ at
      → at < until
      → claim_script redis db (replay_key id) now_text ttl_text at ≡ (db, some (0, show_u64 first))
  unfolding claim_script
  script-present db now_text ttl_text at held p q = rw (held at p q, claim_script) refl

  set_for-other :
      (db db' : redis.Data) (i value ttl_text : Text) (at : ℕ)
      → i ≢ id
      → set_for redis db (replay_key i) value ttl_text at ≡ some db'
      → Holds db
      → Holds db'
  unfolding set_for
  set_for-other db db' i value ttl_text at ne h held later p q =
      elim (Option-cases (redis.tonumber ttl_text)) [
        | inl n ↦ absurd (ground arith)
        | inr (ttl, n) ↦
            keys.get-set_ex_other db db' (replay_key i) (replay_key id) value ttl at later
              (ground arith) (replay_key-ne i id ne)
            ∙ held later p q
      ]

  script-other :
      (db : redis.Data) (i now_text ttl_text : Text) (at : ℕ)
      → i ≢ id
      → Holds db
      → Holds (claim_script redis db (replay_key i) now_text ttl_text at).0
  unfolding claim_script
  script-other db i now_text ttl_text at ne held =
      elim (Option-cases (redis.get db (replay_key i) at)) [
        | inr (existing, g) ↦ rw (g, claim_script) held
        | inl g ↦ elim (Option-cases (set_for redis db (replay_key i) now_text ttl_text at)) [
          | inl s ↦ rw (g, claim_script, s) held
          | inr (db', s) ↦
              rw (g, claim_script, s) (set_for-other db db' i now_text ttl_text at ne s held)
        ]
      ]

  script-Holds :
      (db : redis.Data) (i now_text ttl_text : Text) (at : ℕ)
      → (i ≢ id) ⊎ ((from ≤ at) × (at < until))
      → Holds db
      → Holds (claim_script redis db (replay_key i) now_text ttl_text at).0
  script-Holds db i now_text ttl_text at (inl ne) held =
      script-other db i now_text ttl_text at ne held
  script-Holds db i now_text ttl_text at (inr (p, q)) held = elim (Bool-cases (text_eq i id)) [
    | inr differ ↦ script-other db i now_text ttl_text at (differ_lem i id differ) held
    | inl same ↦
        subst (λ k. Holds (claim_script redis db (replay_key k) now_text ttl_text at).0)
          (sym ((text_eq_iff i id).0 same))
          (rw (script-present db now_text ttl_text at held p q) held)
  ]

  claim-Holds :
      (link : Link) (db : redis.Data) (i : Text) (l now at : ℕ)
      → (i ≢ id) ⊎ ((from ≤ at) × (at < until))
      → Holds db
      → Holds (claim_payment redis link db i l now at).0
  unfolding claim_payment
  claim-Holds answered db i l now at w held =
      script-Holds db i (show_u64 now) (show_u64 l) at w held
  claim-Holds unsent db i l now at w held = held
  claim-Holds unanswered db i l now at w held =
      script-Holds db i (show_u64 now) (show_u64 l) at w held

  release-Holds :
      (link : Link) (db : redis.Data) (i : Text)
      → i ≢ id
      → Holds db
      → Holds (release_payment redis link db i)
  unfolding release_payment
  release-Holds answered db i ne held later p q =
      keys.get-del_other db (replay_key i) (replay_key id) later (replay_key-ne i id ne)
      ∙ held later p q
  release-Holds unsent db i ne held later p q = held later p q
  release-Holds unanswered db i ne held later p q =
      keys.get-del_other db (replay_key i) (replay_key id) later (replay_key-ne i id ne)
      ∙ held later p q

  apply_all-Holds :
      (db : redis.Data) (es : List Event)
      → All (IsWithin id from until) es
      → Holds db
      → Holds (apply_all redis db es)
  unfolding apply_all
  apply_all-Holds db [] w held = held
  apply_all-Holds db (claims i l now at link ∷ es) (w, ws) held =
      apply_all-Holds (claim_payment redis link db i l now at).0 es ws
        (claim-Holds link db i l now at w held)
  apply_all-Holds db (releases i link ∷ es) (w, ws) held =
      apply_all-Holds (release_payment redis link db i) es ws (release-Holds link db i w held)

  claim-present :
      (db : redis.Data) (l now at : ℕ)
      → first ≤ max_u64
      → Holds db
      → from ≤ at
      → at < until
      → (claim_payment redis answered db id l now at).1 ≡ replay first
  unfolding claim_payment claim_of
  claim-present db l now at word held p q =
      rw (script-present db (show_u64 now) (show_u64 l) at held p q)
        (rw (parse_uint-show_u64 first word, claim_of) refl)

  set_for-seconds :
      (db : redis.Data) (key value : Text) (ttl at : ℕ)
      → ttl < 2 ^ 53
      → set_for redis db key value (show_u64 ttl) at ≡ redis.set_ex db key value (pos ttl) at
  unfolding set_for
  set_for-seconds db key value ttl at h = rw (numbers.tonumber-show_u64 ttl h, set_for) refl

  seen_lem : (existing : Text) → claim_of redis (some (0, existing)) ≢ fresh
  unfolding claim_of
  seen_lem existing h = ground arith

  failed_lem : claim_of redis none ≢ fresh
  unfolding claim_of
  failed_lem h = cc

  -- A claim that was answered as fresh is on record for its lifetime.
  fresh-Holds :
      (db : redis.Data) (ttl : ℕ)
      → ttl < 2 ^ 53
      → until ≡ from + 1000 * ttl
      → first ≤ max_u64
      → (claim_payment redis answered db id ttl first from).1 ≡ fresh
      → Holds (claim_payment redis answered db id ttl first from).0
  unfolding claim_payment claim_script claim_of
  fresh-Holds db ttl small ends word h = elim (Option-cases (redis.get db (replay_key id) from)) [
    | inr (existing, g) ↦ absurd (seen_lem existing (rw (g, claim_payment, claim_script) at h))
    | inl g ↦
        elim (Option-cases
          (set_for redis db (replay_key id) (show_u64 first) (show_u64 ttl) from)) [
            | inl s ↦ absurd (failed_lem (rw (g, claim_payment, claim_script, s) at h))
            | inr (db', s) ↦
                rw (g, claim_payment, claim_script, s)
                  (λ later p q.
                    keys.get-set_ex db db' (replay_key id) (show_u64 first) ttl from later
                      (sym (set_for-seconds db (replay_key id) (show_u64 first) ttl from small) ∙ s)
                      p (omega (arith, q, ends)))
          ]
  ]

-- A payment is claimed once on Redis: after a claim that was answered as fresh, any later claim of it
-- is answered as a replay, with the time of the first, until the first claim's lifetime is over by
-- the Redis server's clock. Whatever is claimed and released meanwhile, on whichever replica's clock
-- and whether the round trips are answered, lost or carried out without an answer, if the payment
-- itself is not released and Redis keeps what it documents; the lifetime is below 2 ^ 53 seconds.
pub claim_payment-replayed :
    (redis : Redis) (numbers : NumberLaws redis) (keys : KeyLaws redis) (db : redis.Data)
    (id : Text) (ttl first from : ℕ) (es : List Event) (l now at : ℕ)
    → ttl < 2 ^ 53
    → first ≤ max_u64
    → (claim_payment redis answered db id ttl first from).1 ≡ fresh
    → All (IsWithin id from (from + 1000 * ttl)) es
    → from ≤ at
    → at < from + 1000 * ttl
    → (claim_payment redis answered
        (apply_all redis (claim_payment redis answered db id ttl first from).0 es)
        id
        l
        now
        at).1
      ≡ replay first
claim_payment-replayed redis numbers keys db id ttl first from es l now at small word h w p q =
    let until = from + 1000 * ttl in
    let db' = (claim_payment redis answered db id ttl first from).0 in
    claim-present redis numbers keys id first from until (apply_all redis db' es) l now at word
      (apply_all-Holds redis numbers keys id first from until db' es w
        (fresh-Holds redis numbers keys id first from until db ttl small refl word h))
      p q
