-- ===== src/Demo.antt =====
-- The demo that pays for its visitors: src/bin/x402-demo.rs. Its timings, the trace of an exchange
-- and the copies of the wire that it shows are left out; the table of targets is an argument. A
-- visitor's exchange with the outside (the gateway, the wallet) is the parameter `World`.
pub mod Budget
pub mod Hourly
use sui_x402_verifier.Base.{
  ℕ, ◌+◌, ◌-◌, ◌/◌, Bool, true, false, not, ◌&&◌, ◌||◌, Option, none, some, List, [], ◌∷◌, ◌++◌,
  any, ltb, leb, ◌==◌, if◌then◌else◌, Text, codes, text_eq, is_empty, starts_with, utf8_len,
  show_u64, Map, lookup, insert, Result, ok, err, ◌>>=◌,
}
use sui_x402_verifier.ExtProc.Attributes.{trim_end_matches}
use sui_x402_verifier.Payclient.{PaymentPath, default_payment_paths}
use sui_x402_verifier.Payclient.Keys.{Key}
use sui_x402_verifier.Payclient.Wire.{PaymentRequired, PaymentRequirements, SettlementResponse}
use sui_x402_verifier.Payclient.Reader.{Attempt, Meter}

-- The limits and the addresses that the command line sets.
pub record Args : Type 0 where
  pub max_plays : ℕ
  pub plays_per_ip_hourly : ℕ
  pub gateway : Text

pub record Target : Type 0 where
  pub id : Text
  pub path : Text
  pub method : Text
  pub content_type : Text
  pub body : Text

pub record AppState : Type 0 where
  pub args : Args
  pub spent : ℕ
  -- The hour and the paid requests in it, by the peer's address as text.
  pub per_ip : Map (ℕ × ℕ)

pub record SendRequest : Type 0 where
  pub target : Text
  pub session : Option Text

pub record ApiError : Type 0 where
  pub error : Text
  pub detail : Text

pub record SendResult : Type 0 where
  pub target : Text
  pub status : ℕ
  pub paid : Bool
  pub session : Option Text
  pub meter : Meter
  pub transaction : Text
  pub network : Text
  pub body : Text
  pub plays_remaining : ℕ
  pub settled : Bool

-- What the outside answers: the first attempt, the key, the payment header and the paid attempt.
pub record World (Float : Type 0) : Type 0 where
  pub first : Text → Text → List (Text × Text) → Text → Result Text (Attempt Float)
  pub load_key : Result Text Key
  pub build_payment_header :
      Key → Text → PaymentRequirements → List PaymentPath → Option (Result Text Text)
  pub paid : Text → Text → List (Text × Text) → Text → Text → Result Text (Attempt Float)

pub record Visit : Type 0 where
  pub peer : Text
  pub x_forwarded_host : Option Text
  pub x_forwarded_proto : Option Text
  pub now : ℕ
  pub request : SendRequest

pub data Outcome : Type 0 where
  served : SendResult → Outcome
  failed : ApiError → Outcome
  panicked : Outcome

unfoldable pub target : List Target → Text → Option Target
target [] id = none
target (t ∷ ts) id = let later = target ts id in if text_eq t.id id then some t else later

abbrev one : Text → Option Text → List (Text × Text)
one name none = []
one name (some value) = (name, value) ∷ []

unfoldable pub forwarded : Visit → List (Text × Text)
forwarded visit =
    one (codes "x-forwarded-host") visit.x_forwarded_host
    ++ one (codes "x-forwarded-proto") visit.x_forwarded_proto

abbrev is_grpc_web : Target → Bool
is_grpc_web t = starts_with t.content_type (codes "application/grpc-web")

unfoldable pub grpc_web_body : Target → Text
grpc_web_body t = if is_grpc_web t then 0 ∷ 0 ∷ 0 ∷ 0 ∷ 0 ∷ [] else t.body

-- A control character that is no line break and no tab.
abbrev is_binary : ℕ → Bool
is_binary c =
    (ltb c 32 || (leb 127 c && leb c 159))
    && not (c == b'\n')
    && not (c == b'\r')
    && not (c == b'\t')

-- What is in front of the last character that starts at the limit or before, from this offset.
unfoldable pub cut_at : ℕ → ℕ → Text → Text
cut_at limit offset [] = []
cut_at limit offset (c ∷ s) =
    let next = offset + utf8_len (c ∷ []) in
    let rest = cut_at limit next s in if is_empty s || ltb limit next then [] else c ∷ rest

unfoldable pub trim_body : Text → Text
unfolding cut_at
trim_body body =
    if any is_binary body
    then codes "<" ++ show_u64 (utf8_len body) ++ codes " bytes of grpc-web frames>"
    else if leb (utf8_len body) 600
    then body
    else cut_at 600 0 body ++ codes "…"

unfoldable pub request_headers : Target → Visit → List (Text × Text)
unfolding forwarded
request_headers t visit =
    (codes "content-type", t.content_type) ∷ forwarded visit
    ++ one (codes "x-payment-session") visit.request.session
    ++ (if is_grpc_web t then (codes "x-grpc-web", codes "1") ∷ [] else [])

abbrev refuse : Text → Text → Outcome
refuse error detail = failed (record { error = error; detail = detail })

abbrev pub entry_of : Option (ℕ × ℕ) → ℕ → ℕ × ℕ
entry_of none hour = (hour, 0)
entry_of (some (h, n)) hour = if h == hour then (h, n) else (hour, 0)

-- The hourly counter of the peer, which a request that is let through counts in at once.
unfoldable pub count_visitor : AppState → Text → ℕ → AppState × Bool
count_visitor state peer hour =
    let entry = entry_of (lookup peer state.per_ip) hour in
    if leb state.args.plays_per_ip_hourly entry.1
    then (record state { per_ip = insert peer entry state.per_ip }, false)
    else (record state { per_ip = insert peer (entry.0, entry.1 + 1) state.per_ip }, true)

-- A receipt of money that moved.
unfoldable pub is_settled : Option SettlementResponse → Bool
is_settled none = false
is_settled (some r) = r.success && not (starts_with r.transaction (codes "stub-"))

abbrev or_else : Option Text → Option Text → Option Text
or_else none other = other
or_else (some t) other = some t

abbrev transaction_of : Option SettlementResponse → Text
transaction_of none = []
transaction_of (some r) = r.transaction

abbrev network_of : Option SettlementResponse → Text
network_of none = []
network_of (some r) = r.network

abbrev rate_limited : AppState → Outcome
rate_limited state = refuse (codes "rate_limited") (
    codes "this demo pays from one small testnet wallet, so it allows "
    ++ show_u64 state.args.plays_per_ip_hourly
    ++ codes " paid requests per hour per visitor. Try again next hour, or point your own "
    ++ codes "wallet at the same gateway.")

module _ {Float : Type 0} where
  unfoldable pub unpaid_result : AppState → Target → Visit → Attempt Float → SendResult
  unfolding trim_body
  unpaid_result state t visit first = record {
    target = t.id;
    status = first.status;
    paid = false;
    session = visit.request.session;
    meter = first.meter;
    transaction = [];
    network = [];
    body = trim_body first.body;
    plays_remaining = state.args.max_plays - state.spent;
    settled = false;
  }

  -- The paid attempt came back: a settlement is counted.
  unfoldable pub finish : AppState → Target → Visit → Attempt Float → AppState × Outcome
  unfolding is_settled trim_body
  finish state t visit paid =
      let settled = is_settled paid.payment_response in
      let state' = (if settled then record state { spent = state.spent + 1 } else state) in
      (
        state',
        served (record {
          target = t.id;
          status = paid.status;
          paid = true;
          session = or_else paid.session visit.request.session;
          meter = paid.meter;
          transaction = transaction_of paid.payment_response;
          network = network_of paid.payment_response;
          body = trim_body paid.body;
          plays_remaining = state.args.max_plays - state'.spent;
          settled = settled;
        }),
      )

  -- What the wallet pays with: the signed header, or the error that ends the request.
  unfoldable pub wallet : World Float → Option PaymentRequired → Option (Result ApiError Text)
  wallet world none = some (
      err (record {
        error = codes "malformed_challenge";
        detail = codes "402 without a PAYMENT-REQUIRED header";
      }))
  wallet world (some challenge) = elim challenge.accepts [
    | [] ↦ some (
        err (record {
          error = codes "malformed_challenge";
          detail = codes "challenge advertised no payment options";
        }))
    | terms ∷ _ ↦ elim world.load_key [
      | err e ↦ some (err (record { error = codes "no_wallet"; detail = e }))
      | ok key ↦
          elim (world.build_payment_header key challenge.resource.url terms default_payment_paths) [
            | none ↦ none
            | some (err e) ↦ some (err (record { error = codes "payment_failed"; detail = e }))
            | some (ok payment) ↦ some (ok payment)
          ]
    ]
  ]

  -- Behind the visitor's own limit, with the lock on the budget held.
  unfoldable pub pay_and_retry :
      World Float → AppState → Target → Visit → Text → Attempt Float → AppState × Outcome
  unfolding wallet finish request_headers grpc_web_body
  pay_and_retry world state t visit url first =
      if leb state.args.max_plays state.spent
      then (
        state,
        refuse (codes "budget_exhausted") (
            codes "the demo wallet's gas budget for this run is spent. Testnet SUI is free — top "
            ++ codes "it up with `sui client faucet` and restart."),
      )
      else elim (wallet world first.payment_required) [
        | none ↦ (state, panicked)
        | some (err e) ↦ (state, failed e)
        | some (ok payment) ↦
            elim (world.paid t.method url (request_headers t visit) (grpc_web_body t) payment) [
              | err e ↦ (state, refuse (codes "gateway_unreachable") e)
              | ok paid ↦ finish state t visit paid
            ]
      ]

  -- A challenged request: the spend controls come first.
  unfoldable pub challenged :
      World Float → AppState → Target → Visit → Text → Attempt Float → AppState × Outcome
  unfolding count_visitor pay_and_retry
  challenged world state t visit url first =
      let (counted, let_through) = count_visitor state visit.peer (visit.now / 3600) in
      if let_through
      then pay_and_retry world counted t visit url first
      else (counted, rate_limited state)

  -- `send`
  unfoldable pub send : World Float → List Target → AppState → Visit → AppState × Outcome
  unfolding target request_headers grpc_web_body unpaid_result challenged
  send world targets state visit = elim (target targets visit.request.target) [
    | none ↦ (
      state,
      refuse (codes "unknown_target")
          (codes "no target named \"" ++ visit.request.target ++ codes "\""),
    )
    | some t ↦
        let url = trim_end_matches state.args.gateway b'/' ++ t.path in
        elim (world.first t.method url (request_headers t visit) (grpc_web_body t)) [
          | err e ↦ (state, refuse (codes "gateway_unreachable") e)
          | ok first ↦
              if first.status == 402
              then challenged world state t visit url first
              else (state, served (unpaid_result state t visit first))
        ]
  ]
