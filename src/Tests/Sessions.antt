-- ===== src/Tests/Sessions.antt =====
-- The theorems on sessions and on the replay cache at work: src/session.rs.
use sui_x402_verifier.Base.{
  IsUnique, inr, text_eq, some, ℕ, ◌+◌, ◌≡◌, min, refl, Bool, false, none, List, [], ◌∷◌, Text,
  codes, leb, if◌then◌else◌, arith, All, saturating_add, ok, err, lookup, is_whitespace,
}
use sui_x402_verifier.Session.{expired, fresh, replay}
use sui_x402_verifier.Session.Token.{mint, verify}
use sui_x402_verifier.Session.Token.RoundTrip.{IsField, verify-mint}
use sui_x402_verifier.Session.Token.Authentic.{Authenticates, verify-Authenticates}
use sui_x402_verifier.Session.Memory.Sweep.{cleanup_expired_at-forgets}
use sui_x402_verifier.Session.Memory.{
  MemorySessionStore, cleanup_expired_at, claim_payment_at, create_session_at,
}
use sui_x402_verifier.Session.Memory.Quota.{consume_all, countdown, create_session_at-countdown}
use sui_x402_verifier.Session.Memory.Replay.{claims, sweeps, apply_all, claim_payment_at-replay}
use sui_x402_verifier.Session.Spend
use sui_x402_verifier.Session.Spend.{run, starting, granted, run-granted, run-IsDone}
use sui_x402_verifier.Tests.Fixtures.{p-IsField, test_crypto, test_crypto-HexLaws, test_sessions}

sid-IsField : IsField (codes "af")
unfolding is_whitespace
sid-IsField = ground arith

verify-mint_example :
    verify test_crypto (codes "key") (mint test_crypto (codes "key") (codes "p") 100 (codes "af")) 5
    ≡ (if leb 100 5
        then err expired
        else ok (record { payer = codes "p"; expires_at = 100; session_id = codes "af" }))
verify-mint_example =
    verify-mint test_crypto test_crypto-HexLaws (codes "key") (codes "p") (codes "af") 100 5
      p-IsField sid-IsField (omega arith)

verify-Authenticates_example :
    (raw : Text) × (mac_hex : Text) × Authenticates test_crypto
      (codes "key")
      (mint test_crypto (codes "key") (codes "p") 100 (codes "af"))
      (record { payer = codes "p"; expires_at = 100; session_id = codes "af" })
      5
      raw
      mac_hex
verify-Authenticates_example =
    verify-Authenticates test_crypto (codes "key")
      (mint test_crypto (codes "key") (codes "p") 100 (codes "af")) 5
      (verify-mint test_crypto test_crypto-HexLaws (codes "key") (codes "p") (codes "af") 100 5
        p-IsField sid-IsField (omega arith))

create_session_at-countdown_example :
    let (store', token) =
      create_session_at test_crypto test_sessions (codes "p") none 2 600 100 (codes "r") in
    consume_all test_crypto store' token none (150 ∷ 200 ∷ 699 ∷ [])
    ≡ countdown (codes "p") 2 (saturating_add 100 600) 2 (150 ∷ 200 ∷ 699 ∷ [])
create_session_at-countdown_example =
    create_session_at-countdown test_crypto test_crypto-HexLaws test_sessions (codes "p")
      (codes "r") none 2 600 100 (150 ∷ 200 ∷ 699 ∷ []) p-IsField
      (omega arith, (omega arith, (omega arith, tt)))

fresh_lem : (claim_payment_at test_sessions (codes "id") 600 100).1 ≡ fresh
unfolding claim_payment_at lookup
fresh_lem = refl

claim_payment_at-replay_example :
    (claim_payment_at
      (apply_all
        (claim_payment_at test_sessions (codes "id") 600 100).0
        (sweeps 150 ∷ claims (codes "id") 600 160 ∷ []))
      (codes "id")
      600
      200).1
    ≡ replay 100
claim_payment_at-replay_example =
    claim_payment_at-replay test_sessions (codes "id") 100 300 600 200
      (sweeps 150 ∷ claims (codes "id") 600 160 ∷ []) (omega arith) fresh_lem
      (omega arith, (inr (omega arith, omega arith), tt)) (omega arith) 600 (omega arith)

abbrev race : List (ℕ × Bool)
race = (0, false) ∷ (1, false) ∷ (0, false) ∷ (1, false) ∷ (1, false) ∷ (1, false) ∷ []

run-granted_example : (run race 1 (starting 2)).0 + granted (run race 1 (starting 2)).1 ≡ 1
run-granted_example = run-granted race 1 2

done_lem : All Spend.IsDone (run race 1 (starting 2)).1
unfolding run starting
done_lem = (tt, (tt, tt))

run-IsDone_example : granted (run race 1 (starting 2)).1 ≡ min 2 1
run-IsDone_example = run-IsDone race 1 2 done_lem

-- A payment that was claimed at 100, in a store that keeps records for 600 seconds.
abbrev old_store : MemorySessionStore
old_store = record test_sessions { seen_payments = (codes "id", 100) ∷ [] }

unique_lem : IsUnique old_store.seen_payments
unfolding lookup
unique_lem = (refl, tt)

held_lem : lookup (codes "id") old_store.seen_payments ≡ some 100
unfolding lookup text_eq
held_lem = refl

cleanup_expired_at-forgets_example :
    (claim_payment_at (cleanup_expired_at old_store 700).0 (codes "id") 900 700).1 ≡ fresh
cleanup_expired_at-forgets_example =
    cleanup_expired_at-forgets old_store (codes "id") 100 900 700 unique_lem held_lem (omega arith)
