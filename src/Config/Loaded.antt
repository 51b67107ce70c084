-- ===== src/Config/Loaded.antt =====
-- What a loaded configuration charges, and to whom: src/config.rs.
use sui_x402_verifier.Base.{
  ◌≡◌, refl, sym, subst, inl, inr, Option, some, [], ◌∷◌, Text, text_eq, text_eq_iff, Map, lookup,
  Result, ok, err, Bool-cases, arith, >>=-eq-ok,
}
use sui_x402_verifier.Session.{Crypto}
use sui_x402_verifier.Config.{Config, PaymentOverride, policy_for, named_override, apply_to}
use sui_x402_verifier.Config.Validate.{ConfigError, validate}
use sui_x402_verifier.Config.Validated.{IsUsable, policy_for-IsUsable}
use sui_x402_verifier.Config.Load.{
  Sources, load, apply_environment, override_policies, override_pay_to, pay_to_env_var, when_valid,
  failing, reading, parsing,
}

when_valid-ok :
    (checked : Result ConfigError (Unit {0})) (config loaded : Config)
    → when_valid checked config ≡ ok loaded
    → (checked ≡ ok tt) × (config ≡ loaded)
when_valid-ok (ok tt) config loaded h = (refl, ground arith)
when_valid-ok (err e) config loaded h = cc

-- What was loaded passed validation, with the environment's values in it.
pub load-valid :
    (crypto : Crypto) (sources : Sources) (path : Text) (config : Config)
    → load crypto sources path ≡ ok config
    → (validate crypto config ≡ ok tt)
      × (file : Config) × (config ≡ apply_environment sources.var file)
unfolding load
load-valid crypto sources path config h =
    let (raw, _, h1) = >>=-eq-ok (failing reading (sources.read_to_string path)) _ h in
    let (file, _, h2) = >>=-eq-ok (failing parsing (sources.from_yaml raw)) _ h1 in
    let (valid, same) =
      when_valid-ok (validate crypto (apply_environment sources.var file))
        (apply_environment sources.var file) config h2 in
    (subst (λ c. validate crypto c ≡ ok tt) same valid, file, sym same)

override_policies_lem :
    (var : Text → Option Text) (policies : Map PaymentOverride) (name wallet : Text)
    (over : PaymentOverride)
    → lookup name (override_policies var policies) ≡ some over
    → var (pay_to_env_var name) ≡ some wallet
    → over.pay_to ≡ some wallet
unfolding lookup override_policies
override_policies_lem var [] name wallet over h v = cc
override_policies_lem var ((j, policy) ∷ rest) name wallet over h v =
    elim (Bool-cases (text_eq j name)) [
      | inl same ↦
          let e : override_pay_to (var (pay_to_env_var j)) policy ≡ over = ground arith in
          let w : var (pay_to_env_var j) ≡ some wallet =
            subst (λ n. var (pay_to_env_var n) ≡ some wallet) (sym ((text_eq_iff j name).0 same))
              v in
          subst (λ o. o.pay_to ≡ some wallet) e (rw w refl)
      | inr differ ↦ override_policies_lem var rest name wallet over (ground arith) v
    ]

-- The wallet that the environment names for a policy is the one that its terms advertise: once a
-- configuration is loaded, a request under a configured policy whose variable is set is charged to
-- that variable's wallet, whatever its path and whatever the file says, and those terms are
-- usable: that wallet itself passed validation.
pub load-pay_to :
    (crypto : Crypto) (sources : Sources) (file_path : Text) (config : Config)
    (path name wallet : Text) (over : PaymentOverride)
    → load crypto sources file_path ≡ ok config
    → lookup name config.policies ≡ some over
    → sources.var (pay_to_env_var name) ≡ some wallet
    → ((policy_for config path (some name)).payment.pay_to ≡ wallet)
      × IsUsable (policy_for config path (some name))
unfolding policy_for named_override apply_to apply_environment
load-pay_to crypto sources file_path config path name wallet over h l v =
    let (valid, file, same) = load-valid crypto sources file_path config h in
    let found : lookup name (override_policies sources.var file.policies) ≡ some over =
      subst (λ c. lookup name c.policies ≡ some over) same l in
    let paid = override_policies_lem sources.var file.policies name wallet over found v in
    (
      rw (l, policy_for, named_override, paid) refl,
      policy_for-IsUsable crypto config valid path (some name),
    )
