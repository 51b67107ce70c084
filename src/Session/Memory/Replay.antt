-- ===== src/Session/Memory/Replay.antt =====
-- The replay cache over a sequence of events: src/session.rs.
use sui_x402_verifier.Base.{
  ℕ, none, refl, text_eq_refl, ◌⊎◌, inl, inr, ◌-◌, ◌≤◌, ◌<◌, ◌≡◌, ◌≢◌, some, List, [], ◌∷◌, ltb,
  Text, text_eq_iff, text_eq-false, lookup, lookup-insert, lookup-insert_self, lookup-remove,
  lookup-retain, arith, All,
}
use sui_x402_verifier.Session.{fresh, replay}
use sui_x402_verifier.Session.Memory.{
  MemorySessionStore, claim_payment_at, release_payment, cleanup_expired_at,
}

-- What the rest of the service does to the replay cache, with the clock's reading.
pub data Event : Type 0 where
  claims : Text → ℕ → ℕ → Event
  releases : Text → Event
  sweeps : ℕ → Event

unfoldable pub apply : MemorySessionStore → Event → MemorySessionStore
apply store (claims id ttl now) = (claim_payment_at store id ttl now).0
apply store (releases id) = release_payment store id
apply store (sweeps now) = (cleanup_expired_at store now).0

unfoldable pub apply_all : MemorySessionStore → List Event → MemorySessionStore
unfolding apply
apply_all store [] = store
apply_all store (e ∷ es) = apply_all (apply store e) es

-- What does not end a claim of the payment made at `t` for `ttl`: any claim of another payment; a
-- claim of it less than `ttl` seconds later that is for `ttl` or longer; a release of another
-- payment; and a sweep less than `ttl` seconds later.
abbrev pub IsWithin : Text → ℕ → ℕ → Event → Type 0
IsWithin id t ttl (claims i l now) = (i ≢ id) ⊎ ((now - t < ttl) × (ttl ≤ l))
IsWithin id t ttl (releases i) = i ≢ id
IsWithin id t ttl (sweeps now) = now - t < ttl

-- The payment is on record as first seen at `t`, and records are kept for `ttl` at least.
abbrev pub Holds : Text → ℕ → ℕ → MemorySessionStore → Type 0
Holds id t ttl s = (lookup id s.seen_payments ≡ some t) × (ttl ≤ s.replay_retention_secs)

claim-Holds :
    (s : MemorySessionStore) (id i : Text) (t ttl l now : ℕ)
    → IsWithin id t ttl (claims i l now)
    → Holds id t ttl s
    → Holds id t ttl (claim_payment_at s i l now).0
unfolding claim_payment_at
claim-Holds s id i t ttl l now (inl other) (held, kept) =
    let differ = text_eq-false i id other in ground (arith, lookup-insert i id now s.seen_payments)
claim-Holds s id i t ttl l now (inr (h, k)) (held, kept) =
    ground (arith, text_eq_iff i id, lookup-insert i id now s.seen_payments)

apply-Holds :
    (s : MemorySessionStore) (id : Text) (t ttl : ℕ) (e : Event)
    → IsWithin id t ttl e
    → Holds id t ttl s
    → Holds id t ttl (apply s e)
unfolding apply release_payment cleanup_expired_at
apply-Holds s id t ttl (claims i l now) h held = claim-Holds s id i t ttl l now h held
apply-Holds s id t ttl (releases i) h (held, kept) =
    (rw (lookup-remove i id s.seen_payments, text_eq-false i id h) held, kept)
apply-Holds s id t ttl (sweeps now) h (held, kept) = (
  lookup-retain (λ (f : ℕ). ltb (now - f) s.replay_retention_secs) id t s.seen_payments held
      (ground arith),
  kept,
)

apply_all-Holds :
    (s : MemorySessionStore) (id : Text) (t ttl : ℕ) (es : List Event)
    → All (IsWithin id t ttl) es
    → Holds id t ttl s
    → Holds id t ttl (apply_all s es)
unfolding apply_all
apply_all-Holds s id t ttl [] h held = held
apply_all-Holds s id t ttl (e ∷ es) h held =
    apply_all-Holds (apply s e) id t ttl es h.1 (apply-Holds s id t ttl e h.0 held)

fresh-Holds :
    (s : MemorySessionStore) (id : Text) (t ttl l : ℕ)
    → ttl ≤ s.replay_retention_secs
    → (claim_payment_at s id l t).1 ≡ fresh
    → Holds id t ttl (claim_payment_at s id l t).0
unfolding claim_payment_at
fresh-Holds s id t ttl l k h = ground (arith, lookup-insert_self id t s.seen_payments)

-- A payment is claimed once: after a fresh claim at `t`, whatever is claimed, released or swept in
-- the next `ttl` seconds, a second claim of the same payment in that time is a replay of `t`. The
-- payment itself must not be released meanwhile, every claim of it is for `ttl` or longer, and the
-- store keeps its records for `ttl` or longer.
pub claim_payment_at-replay :
    (s : MemorySessionStore) (id : Text) (t ttl l now : ℕ) (es : List Event)
    → ttl ≤ s.replay_retention_secs
    → (claim_payment_at s id l t).1 ≡ fresh
    → All (IsWithin id t ttl) es
    → now - t < ttl
    → (m : ℕ) → ttl ≤ m
    → (claim_payment_at (apply_all (claim_payment_at s id l t).0 es) id m now).1 ≡ replay t
unfolding claim_payment_at
claim_payment_at-replay s id t ttl l now es k h w lt m le = ground (
  arith,
  (apply_all-Holds (claim_payment_at s id l t).0 id t ttl es w (fresh-Holds s id t ttl l k h)).0,
)

-- The replay cache after a release.
pub release-lookup :
    (s : MemorySessionStore) (id : Text) → lookup id (release_payment s id).seen_payments ≡ none
unfolding release_payment
release-lookup s id = rw (lookup-remove id id s.seen_payments, text_eq_refl id) refl

pub absent-fresh :
    (s : MemorySessionStore) (id : Text) (ttl now : ℕ)
    → lookup id s.seen_payments ≡ none
    → (claim_payment_at s id ttl now).1 ≡ fresh
unfolding claim_payment_at
absent-fresh s id ttl now h = ground arith
