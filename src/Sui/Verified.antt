-- ===== src/Sui/Verified.antt =====
-- What a verified payment has been checked for: src/sui.rs.
use sui_x402_verifier.Base.{
  ℕ, eq_ℤ_iff, ◌≡◌, inl, inr, refl, ap, ◌∙◌, Bool, true, false, not, Option, none, some, List, [],
  ◌∷◌, Text, codes, parse_int, All, Result, ok, err, bail_if, >>=-eq-ok, arith, Option-cases, trim,
}
use sui_x402_verifier.X402.{PaymentRequirements, SuiExactPayload, FacilitatorError}
use sui_x402_verifier.Sui.{
  Node, Transaction, Executed, SignatureAnswer, ObjectAnswer, found, not_found, failed,
  VerifiedPayment, decode, pinned, current_version, assert_live, assert_inputs_are_live, credited,
  assert_credits, check_signature, simulate, verify, max_i128, unwrap_or, is_version, failure_of,
  fail_with, map_err, or_fail, parse_signature,
}

-- The chain has the pinned object at the pinned version.
abbrev pub IsLiveAt : Node → Text × ℕ → Type 0
IsLiveAt node (id, version) = node.get_object id ≡ found (some version)

is_version-eq : (version : ℕ) (o : Option ℕ) → not (is_version version o) ≡ false → o ≡ some version
is_version-eq version none h = cc
is_version-eq version (some c) h = ground arith

bail-ok : (b : Bool) (e : FacilitatorError) → bail_if b e ≡ ok tt → b ≡ false
bail-ok true e h = cc
bail-ok false e h = refl

current_version-some :
    (id : Text) (a : ObjectAnswer) (v : ℕ) → current_version id a ≡ ok (some v) → a ≡ found (some v)
unfolding current_version
current_version-some id (found o) v h = ground arith
current_version-some id not_found v h = cc
current_version-some id (failed e) v h = cc

assert_live-IsLiveAt :
    (node : Node) (objects : List (Text × ℕ))
    → assert_live node objects ≡ ok tt
    → All (IsLiveAt node) objects
unfolding assert_live
assert_live-IsLiveAt node [] h = tt
assert_live-IsLiveAt node ((id, version) ∷ rest) h =
    let (current, e, h1) = >>=-eq-ok (current_version id (node.get_object id)) _ h in
    let (_, b, h2) = >>=-eq-ok (bail_if (not (is_version version current)) _) _ h1 in
    (
      current_version-some id (node.get_object id) version
          (rw (← is_version-eq version current (bail-ok _ _ b)) e),
      assert_live-IsLiveAt node rest h2,
    )

credits_lem :
    (executed : Executed) (requirements : PaymentRequirements)
    → assert_credits executed.balance_changes requirements ≡ ok tt
    → parse_int max_i128 requirements.amount ≡ some (credited requirements executed.balance_changes)
unfolding assert_credits
credits_lem executed requirements h = elim (Option-cases (parse_int max_i128 requirements.amount)) [
  | inl e ↦ ground arith
  | inr (x, e) ↦ ground (arith, eq_ℤ_iff (credited requirements executed.balance_changes) x)
]

-- What has been checked of a payment whose transaction is `transaction` and whose simulation gave
-- `executed`.
pub record IsVerified (node : Node) (payload : SuiExactPayload) (requirements : PaymentRequirements)
    (bytes signature : Text) (transaction : Transaction) (answer : SignatureAnswer)
    (executed : Executed) : Type 0 where
  pub decoded : node.b64_decode (trim payload.transaction) ≡ ok bytes
  pub presented :
      (raw : Text) × (node.b64_decode (trim payload.signature) ≡ ok raw)
      × (node.parse_signature raw ≡ ok signature)
  pub parsed : node.parse_transaction bytes ≡ ok transaction
  pub asked : node.verify_signature bytes signature transaction.sender ≡ ok answer
  pub signed : answer.is_valid ≡ some true
  pub simulated : node.simulate bytes ≡ ok (some executed)
  pub live : All (IsLiveAt node) (pinned transaction)
  pub exact :
      parse_int max_i128 requirements.amount ≡ some (credited requirements executed.balance_changes)

map_err-ok {ℓ} :
    {A : Type ℓ} (r : Result Text A) (f : Text → FacilitatorError) {a : A}
    → map_err r f ≡ ok a
    → r ≡ ok a
map_err-ok (ok b) f g = ground arith
map_err-ok (err e) f g = cc

signature_lem :
    (node : Node) (bytes signature sender : Text)
    → check_signature node bytes signature sender ≡ ok tt
    → (a : SignatureAnswer) × (node.verify_signature bytes signature sender ≡ ok a)
      × (a.is_valid ≡ some true)
unfolding check_signature
signature_lem node bytes signature sender h =
    let (a, e, b) = >>=-eq-ok (map_err (node.verify_signature bytes signature sender) _) _ h in
    (a, map_err-ok _ _ e, valid a.is_valid (bail-ok _ _ b))
  where
    valid : (o : Option Bool) → not (unwrap_or o false) ≡ false → o ≡ some true
    valid none g = cc
    valid (some true) g = refl
    valid (some false) g = cc

or_fail-ok {ℓ} :
    {A : Type ℓ} (o : Option A) (e : FacilitatorError) {a : A} → or_fail o e ≡ ok a → o ≡ some a
or_fail-ok none e h = cc
or_fail-ok (some b) e h = ground arith

simulate_lem :
    (node : Node) (bytes : Text) (executed : Executed)
    → simulate node bytes ≡ ok executed
    → (node.simulate bytes ≡ ok (some executed))
      × (failure_of executed (codes "transaction would not succeed") ≡ none)
unfolding simulate
simulate_lem node bytes executed h =
    let (o, e, h1) = >>=-eq-ok (map_err (node.simulate bytes) _) _ h in
    let (x, e1, h2) = >>=-eq-ok (or_fail o _) _ h1 in
    let (_, f, same) = >>=-eq-ok (fail_with (failure_of x _) _) _ h2 in
    let eq : x ≡ executed = ground arith in
    (map_err-ok _ _ e ∙ ap ok (or_fail-ok o _ e1 ∙ ap some eq), rw (← eq) (passes _ _ f))
  where
    passes : (o : Option Text) (f : Text → FacilitatorError) → fail_with o f ≡ ok tt → o ≡ none
    passes none g r = refl
    passes (some t) g r = cc

decode_lem :
    (node : Node) (payload : SuiExactPayload) (d : Text × Text)
    → decode node payload ≡ ok d
    → (node.b64_decode (trim payload.transaction) ≡ ok d.0)
      × (node.b64_decode (trim payload.signature) ≡ ok d.1)
unfolding decode
decode_lem node payload d h =
    let (t, e, h1) = >>=-eq-ok (map_err (node.b64_decode (trim payload.transaction)) _) _ h in
    let (s, e1, h2) = >>=-eq-ok (map_err (node.b64_decode (trim payload.signature)) _) _ h1 in
    (map_err-ok _ _ e ∙ ap ok (ground arith), map_err-ok _ _ e1 ∙ ap ok (ground arith))

-- A payment verifies only if the node says that the signature in its payload is valid over the very
-- bytes of the transaction in its payload for the transaction's own sender, the simulation of these bytes did not fail, every
-- object that the transaction pins is still on the chain at the pinned version, and the recipient
-- is credited with exactly the required amount; the payer is then the transaction's sender.
pub verify-IsVerified :
    (node : Node) (payload : SuiExactPayload) (requirements : PaymentRequirements)
    {paid : VerifiedPayment}
    → verify node payload requirements ≡ ok paid
    → (bytes : Text) × (signature : Text) × (transaction : Transaction) × (answer : SignatureAnswer)
      × (executed : Executed) × IsVerified node payload requirements bytes signature transaction
          answer executed
      × (failure_of executed (codes "transaction would not succeed") ≡ none)
      × (paid.payer ≡ transaction.sender)
unfolding verify assert_inputs_are_live
verify-IsVerified node payload requirements h =
    let (d, e, h1) = >>=-eq-ok (decode node payload) _ h in
    let (t, e1, h2) = >>=-eq-ok (map_err (node.parse_transaction d.0) _) _ h1 in
    let (s, e2, h3) = >>=-eq-ok (parse_signature node d.1) _ h2 in
    let (_, e3, h4) = >>=-eq-ok (check_signature node d.0 s t.sender) _ h3 in
    let (x, e4, h5) = >>=-eq-ok (simulate node d.0) _ h4 in
    let (_, e5, h6) = >>=-eq-ok (assert_live node (pinned t)) _ h5 in
    let (_, e6, h7) = >>=-eq-ok (assert_credits x.balance_changes requirements) _ h6 in
    let (a, asked, signed) = signature_lem node d.0 s t.sender e3 in
    let (simulated, passed) = simulate_lem node d.0 x e4 in
    (
      d.0,
      s,
      t,
      a,
      x,
      record {
        decoded = (decode_lem node payload d e).0;
        presented = (d.1, (decode_lem node payload d e).1, map_err-ok _ _ e2);
        parsed = map_err-ok _ _ e1;
        asked = asked;
        signed = signed;
        simulated = simulated;
        live = assert_live-IsLiveAt node (pinned t) e5;
        exact = credits_lem x requirements e6;
      },
      passed,
      ground arith,
    )
