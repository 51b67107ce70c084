-- ===== src/Base/Maps.antt =====
-- A hash map keyed by texts, as an association list; the source's `DashMap` and `HashMap`.
use Prim.Native.Nat.{◌≤◌}
use mathlib.Core.Path.{◌≡◌, refl, subst}
use mathlib.Core.Logic.{inl, inr}
use mathlib.Core.Bool.{Bool, true, false}
use mathlib.Core.List.{List, [], ◌∷◌}
use mathlib.Core.Option.{Option, none, some}
use native.Mathlib.Omega.{arith}
use sui_x402_verifier.Base.Tests.{if◌then◌else◌, Bool-cases}
use sui_x402_verifier.Base.Lists.{length}
use sui_x402_verifier.Base.Texts.{Text, text_eq, text_eq_iff, text_eq_refl}

abbrev pub Map {ℓ} : Type ℓ → Type ℓ
Map V = List (Text × V)

module _ {ℓ} {V : Type ℓ} where
  unfoldable pub lookup : Text → Map V → Option V
  lookup k [] = none
  lookup k ((j, v) ∷ m) = if text_eq j k then some v else lookup k m

  unfoldable pub insert : Text → V → Map V → Map V
  insert k v [] = (k, v) ∷ []
  insert k v ((j, w) ∷ m) = if text_eq j k then (k, v) ∷ m else (j, w) ∷ insert k v m

  unfoldable pub remove : Text → Map V → Map V
  remove k [] = []
  remove k ((j, w) ∷ m) = let rest = remove k m in if text_eq j k then rest else (j, w) ∷ rest

  -- `retain(|_, v| keep(v))`
  unfoldable pub retain : (V → Bool) → Map V → Map V
  retain keep [] = []
  retain keep ((j, w) ∷ m) = let rest = retain keep m in if keep w then (j, w) ∷ rest else rest

  pub lookup-insert :
      (k j : Text) (v : V) (m : Map V)
      → lookup j (insert k v m) ≡ (if text_eq k j then some v else lookup j m)
  unfolding lookup insert
  lookup-insert k j v [] = refl
  lookup-insert k j v ((i, w) ∷ m) =
      ground (arith, text_eq_iff k j, text_eq_iff i k, text_eq_iff i j, lookup-insert k j v m)

  pub lookup-remove :
      (k j : Text) (m : Map V) → lookup j (remove k m) ≡ (if text_eq k j then none else lookup j m)
  unfolding lookup remove
  lookup-remove k j [] = ground arith
  lookup-remove k j ((i, w) ∷ m) =
      ground (arith, text_eq_iff k j, text_eq_iff i k, text_eq_iff i j, lookup-remove k j m)

  pub lookup-insert_self : (k : Text) (v : V) (m : Map V) → lookup k (insert k v m) ≡ some v
  lookup-insert_self k v m = rw (lookup-insert k k v m, text_eq_refl k)

  -- An entry that the sweep keeps is found as before.
  pub lookup-retain :
      (keep : V → Bool) (k : Text) (v : V) (m : Map V)
      → lookup k m ≡ some v
      → keep v ≡ true
      → lookup k (retain keep m) ≡ some v
  unfolding lookup retain
  lookup-retain keep k v [] e h = cc
  lookup-retain keep k v ((i, w) ∷ m) e h = ground (arith, lookup-retain keep k v m)

  pub length-retain-le : (keep : V → Bool) (m : Map V) → length (retain keep m) ≤ length m
  unfolding retain
  length-retain-le keep [] = omega arith
  length-retain-le keep ((i, w) ∷ m) = ground (arith, length-retain-le keep m)

  -- No key stands twice, as in every map that is built by `insert`.
  abbrev pub IsUnique : Map V → Type ℓ
  IsUnique [] = Unit {ℓ}
  IsUnique ((j, w) ∷ m) = (lookup j m ≡ none) × IsUnique m

  pub insert-IsUnique : (k : Text) (v : V) (m : Map V) → IsUnique m → IsUnique (insert k v m)
  unfolding lookup insert
  insert-IsUnique k v [] u = (refl, tt)
  insert-IsUnique k v ((j, w) ∷ m) u = elim (Bool-cases (text_eq j k)) [
    | inl e ↦ rw e (subst (λ i. lookup i m ≡ none) ((text_eq_iff j k).0 e) u.0, u.1)
    | inr e ↦ rw e (
      rw (lookup-insert k j v m) (ground (arith, text_eq_iff k j, text_eq_iff j k, u.0)),
      insert-IsUnique k v m u.1,
    )
  ]

  lookup-retain-none :
      (keep : V → Bool) (k : Text) (m : Map V) → lookup k m ≡ none → lookup k (retain keep m) ≡ none
  unfolding lookup retain
  lookup-retain-none keep k [] e = refl
  lookup-retain-none keep k ((i, w) ∷ m) e = ground (arith, lookup-retain-none keep k m)

  -- An entry that the sweep drops is gone.
  pub lookup-retain_dropped :
      (keep : V → Bool) (k : Text) (v : V) (m : Map V)
      → IsUnique m
      → lookup k m ≡ some v
      → keep v ≡ false
      → lookup k (retain keep m) ≡ none
  unfolding lookup retain
  lookup-retain_dropped keep k v [] u e h = cc
  lookup-retain_dropped keep k v ((i, w) ∷ m) u e h = elim (Bool-cases (text_eq i k)) [
    | inl q ↦ ground (
      arith,
      lookup-retain-none keep k m (subst (λ j. lookup j m ≡ none) ((text_eq_iff i k).0 q) u.0),
    )
    | inr q ↦ ground (arith, lookup-retain_dropped keep k v m u.1)
  ]
