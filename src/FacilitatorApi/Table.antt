-- ===== src/FacilitatorApi/Table.antt =====
-- `GET /policies`: the table of the named policies, of src/facilitator_api.rs.
use sui_x402_verifier.Base.{
  ℕ, Bool, true, false, some, List, [], ◌∷◌, ltb, ◌==◌, ◌||◌, ◌&&◌, if◌then◌else◌, Text, Map,
}
use sui_x402_verifier.Config.{Config, PaymentOverride, policy_for}

pub record PolicyView : Type 0 where
  pub name : Text
  pub amount : Text
  pub asset : Text
  pub pay_to : Text
  pub network : Text
  pub description : Text
  pub free_requests : ℕ
  pub free_window_secs : ℕ
  pub session_quota : ℕ
  pub session_duration_secs : ℕ

-- `a.cmp(b)` is not greater: code points compare as their UTF-8 does.
unfoldable pub text_le : Text → Text → Bool
text_le [] t = true
text_le (c ∷ s) [] = false
text_le (c ∷ s) (d ∷ t) = ltb c d || (c == d && text_le s t)

unfoldable pub policy_view : Config → Text → PolicyView
unfolding policy_for
policy_view config name =
    let resolved = policy_for config [] (some name) in
    record {
      name = name;
      amount = resolved.payment.amount;
      asset = resolved.payment.asset;
      pay_to = resolved.payment.pay_to;
      network = resolved.payment.network;
      description = resolved.payment.description;
      free_requests = resolved.free_tier.max_requests;
      free_window_secs = resolved.free_tier.window_secs;
      session_quota = resolved.paid_tier.quota;
      session_duration_secs = resolved.paid_tier.duration_secs;
    }

-- A row put before the first one of a name that is not smaller.
unfoldable pub insert_row : PolicyView → List PolicyView → List PolicyView
unfolding text_le
insert_row row [] = row ∷ []
insert_row row (other ∷ rows) =
    let later = insert_row row rows in
    if text_le row.name other.name then row ∷ other ∷ rows else other ∷ later

-- The rows of the configured policies in the order of their names, which are distinct.
unfoldable pub rows_of : Config → Map PaymentOverride → List PolicyView
unfolding policy_view insert_row
rows_of config [] = []
rows_of config ((name, over) ∷ rest) = insert_row (policy_view config name) (rows_of config rest)

-- `policies`
unfoldable pub policies : Config → List PolicyView
unfolding rows_of
policies config = rows_of config config.policies
