-- ===== src/Base/Map.antt =====
-- `BTreeMap` and `BTreeSet`: entries in the order of their keys.
use mathlib.Core.Path.{◌≡◌, refl}
use mathlib.Core.Logic.{ite, ◌≢◌}
use mathlib.Core.Bool.{Bool, true, false}
use mathlib.Core.Option.{Option, none, some}
use mathlib.Core.List.{List, [], ◌∷◌}
use native.Mathlib.Omega.{arith}
use Prim.Native.String.{String}
use forme_agent.Base.Tests.{if◌then◌else◌}
use forme_agent.Base.Text.{string_discrete, string_less}

-- `Ord` of a key: equality is decided, and `less` says where a key is put.
pub record Ord {ℓ} (K : Type ℓ) : Type ℓ where
  pub discrete : Discrete K
  pub less : K → K → Bool

instance abbrev pub string_ord : Ord String
string_ord = record { discrete = string_discrete; less = string_less }

abbrev pub Map {ℓ} : Type ℓ → Type ℓ → Type ℓ
Map K V = List (K × V)

module _ {ℓ} {K V : Type ℓ} ⦃o : Ord K⦄ where
  unfoldable pub lookup : K → Map K V → Option V
  lookup k [] = none
  lookup k ((j, v) ∷ m) = ite (o.discrete j k) (some v) (lookup k m)

  unfoldable pub remove : K → Map K V → Map K V
  remove k [] = []
  remove k ((j, v) ∷ m) = ite (o.discrete j k) (remove k m) ((j, v) ∷ remove k m)

  -- In a list that is in order the key is in one place at most, and `remove` has nothing to do.
  unfoldable pub insert : K → V → Map K V → Map K V
  unfolding remove
  insert k v [] = (k, v) ∷ []
  insert k v ((j, w) ∷ m) =
      ite (o.discrete j k) ((k, v) ∷ m)
        (if o.less k j then (k, v) ∷ (j, w) ∷ remove k m else (j, w) ∷ insert k v m)

  pub lookup-remove :
      (j k : K) (m : Map K V) → lookup j (remove k m) ≡ ite (o.discrete k j) none (lookup j m)
  unfolding lookup remove
  lookup-remove j k [] = ground arith
  lookup-remove j k ((i, w) ∷ m) = ground (arith, lookup-remove j k m)

  pub lookup-insert :
      (j k : K) (v : V) (m : Map K V)
      → lookup j (insert k v m) ≡ ite (o.discrete k j) (some v) (lookup j m)
  unfolding lookup insert
  lookup-insert j k v [] = refl
  lookup-insert j k v ((i, w) ∷ m) = ground (arith, lookup-insert j k v m, lookup-remove j k m)

  unfoldable pub contains_key : K → Map K V → Bool
  contains_key k m = elim (lookup k m) [ none ↦ false | some _ ↦ true ]

  unfoldable pub values : Map K V → List V
  values [] = []
  values ((k, v) ∷ m) = v ∷ values m

  -- No key stands twice.
  unfoldable pub Distinct : Map K V → Type ℓ
  Distinct [] = Unit
  Distinct ((k, v) ∷ m) = (lookup k m ≡ none) × Distinct m

  pub remove-Distinct : (k : K) (m : Map K V) → Distinct m → Distinct (remove k m)
  unfolding Distinct remove lookup
  remove-Distinct k [] d = d
  remove-Distinct k ((j, w) ∷ m) (n, d) =
      elim (o.discrete j k) as (λ x. Distinct (ite x (remove k m) ((j, w) ∷ remove k m))) [
        | yes p ↦ remove-Distinct k m d
        | no p ↦ (ground (arith, n, lookup-remove j k m), remove-Distinct k m d)
      ]

  pub insert-Distinct : (k : K) (v : V) (m : Map K V) → Distinct m → Distinct (insert k v m)
  unfolding Distinct insert lookup
  insert-Distinct k v [] d = (refl, tt)
  insert-Distinct k v ((j, w) ∷ m) (n, d) =
      elim (o.discrete j k)
        as (λ x. Distinct (
          ite x ((k, v) ∷ m)
            (if o.less k j then (k, v) ∷ (j, w) ∷ remove k m else (j, w) ∷ insert k v m))) [
              | yes p ↦ (ground (arith, n, p), d)
              | no p ↦ placed p (insert-Distinct k v m d) (o.less k j)
            ]
    where
      placed :
          j ≢ k
          → Distinct (insert k v m)
          → (b : Bool)
          → Distinct (if b then (k, v) ∷ (j, w) ∷ remove k m else (j, w) ∷ insert k v m)
      placed p r true = (
        ground (arith, lookup-remove k k m, p),
        (ground (arith, n, lookup-remove j k m), remove-Distinct k m d),
      )
      placed p r false = (ground (arith, n, lookup-insert j k v m, p), r)
