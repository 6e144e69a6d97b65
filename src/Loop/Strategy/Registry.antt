-- ===== src/Loop/Strategy/Registry.antt =====
-- The registry over any sequence of registrations.
use forme_agent.Base.{
  List, [], ◌∷◌, none, some, ◌≡◌, ◌≢◌, inl, inr, sym, ap, ◌∙◌, subst, ok, arith, Result-cases,
  Option-cases, string_eq,
}
use forme_agent.Base.Map.{lookup, insert, string_ord, lookup-insert}
use forme_agent.Base.Text.{string_discrete}
use forme_agent.Protocol.Kinds.{Ref}
use forme_agent.Loop.Strategy.{
  LoopStrategySpec, Specs, register, resolve, with_seed, validate_strategy, strategy_eq,
  strategy_discrete,
}

unfoldable pub register_all : List LoopStrategySpec → Specs → Specs
register_all [] specs = specs
register_all (x ∷ xs) specs = register_all xs (register x specs).0

-- What a registration leaves.
data RegisterCase (spec : LoopStrategySpec) (specs : Specs) : Type 0 where
  unchanged :
      (register spec specs).0 ≡ specs → (register spec specs).1 ≢ ok tt → RegisterCase spec specs
  known :
      (register spec specs).0 ≡ specs
      → lookup spec.version specs ≡ some spec
      → RegisterCase spec specs
  added :
      lookup spec.version specs ≡ none
      → validate_strategy spec ≡ ok tt
      → (register spec specs).0 ≡ insert spec.version spec specs
      → RegisterCase spec specs

register-RegisterCase : (spec : LoopStrategySpec) (specs : Specs) → RegisterCase spec specs
unfolding register
register-RegisterCase spec specs = elim (Result-cases (validate_strategy spec)) [
  | inr (e, p) ↦ unchanged (ground (arith, p)) (λ h. ground (arith, p, h))
  | inl (tt, p) ↦ elim (Option-cases (lookup spec.version specs)) [
    | inl n ↦ added n p (ground (arith, p, n))
    | inr (found, f) ↦ elim (strategy_discrete found spec) [
      | yes q ↦ known (ground (arith, p, f)) (f ∙ ap some q)
      | no q ↦ unchanged (ground (arith, p, f)) (λ h. ground (arith, p, f, q, h))
    ]
  ]
]

-- Every strategy on file is valid and stands under its own version.
abbrev pub Sound : Specs → Type 0
Sound specs =
    (v : Ref) (spec : LoopStrategySpec)
    → lookup v specs ≡ some spec
    → (spec.version ≡ v) × (validate_strategy spec ≡ ok tt)

register_keeps :
    (spec : LoopStrategySpec) (specs : Specs) (v : Ref) (old : LoopStrategySpec)
    → lookup v specs ≡ some old
    → lookup v (register spec specs).0 ≡ some old
register_keeps spec specs v old e = split (register-RegisterCase spec specs)
  where
    split : RegisterCase spec specs → lookup v (register spec specs).0 ≡ some old
    split (unchanged p q) = ground (arith, p, e)
    split (known p q) = ground (arith, p, e)
    split (added n valid p) = ground (arith, p, n, e, lookup-insert v spec.version spec specs)

register-Sound :
    (spec : LoopStrategySpec) (specs : Specs) → Sound specs → Sound (register spec specs).0
register-Sound spec specs s = split (register-RegisterCase spec specs)
  where
    split : RegisterCase spec specs → Sound (register spec specs).0
    split (unchanged p q) = subst Sound (sym p) s
    split (known p q) = subst Sound (sym p) s
    split (added n valid p) = subst Sound (sym p) λ v x e. elim (string_discrete spec.version v) [
      | yes q ↦
          let same : spec ≡ x = ground (arith, q, e, lookup-insert v spec.version spec specs) in
          subst (λ y. (y.version ≡ v) × (validate_strategy y ≡ ok tt)) same (q, valid)
      | no q ↦ s v x (ground (arith, q, e, lookup-insert v spec.version spec specs))
    ]

all_keep :
    (xs : List LoopStrategySpec) (specs : Specs) (v : Ref) (old : LoopStrategySpec)
    → lookup v specs ≡ some old
    → lookup v (register_all xs specs) ≡ some old
unfolding register_all
all_keep [] specs v old e = e
all_keep (x ∷ xs) specs v old e =
    all_keep xs (register x specs).0 v old (register_keeps x specs v old e)

all-Sound :
    (xs : List LoopStrategySpec) (specs : Specs) → Sound specs → Sound (register_all xs specs)
unfolding register_all
all-Sound [] specs s = s
all-Sound (x ∷ xs) specs s = all-Sound xs (register x specs).0 (register-Sound x specs s)

seed-Sound : (seed : LoopStrategySpec) (specs : Specs) → with_seed seed ≡ ok specs → Sound specs
unfolding with_seed insert lookup
seed-Sound seed specs made v x e = elim (Result-cases (validate_strategy seed)) [
  | inr (y, p) ↦ absurd (ground (arith, p, made))
  | inl (tt, p) ↦
      let only : specs ≡ (seed.version, seed) ∷ [] = ground (arith, p, made) in
      let found : (seed.version ≡ v) × (seed ≡ x) =
        (ground (arith, only, e), ground (arith, only, e)) in
      subst (λ y. (y.version ≡ v) × (validate_strategy y ≡ ok tt)) found.1 (found.0, p)
]

registered :
    (spec : LoopStrategySpec) (specs : Specs)
    → (register spec specs).1 ≡ ok tt
    → lookup spec.version (register spec specs).0 ≡ some spec
registered spec specs h = split (register-RegisterCase spec specs)
  where
    split : RegisterCase spec specs → lookup spec.version (register spec specs).0 ≡ some spec
    split (unchanged p q) = absurd (q h)
    split (known p q) = ground (arith, p, q)
    split (added n valid p) = ground (arith, p, lookup-insert spec.version spec.version spec specs)

-- After a strategy was registered, its version resolves to it, whatever is registered later: a version
-- is never bound to other content.
pub register-resolve :
    (spec : LoopStrategySpec) (specs : Specs) (later : List LoopStrategySpec)
    → (register spec specs).1 ≡ ok tt
    → resolve spec.version (register_all later (register spec specs).0) ≡ ok spec
unfolding resolve
register-resolve spec specs later h =
    ground
      (arith, all_keep later (register spec specs).0 spec.version spec (registered spec specs h))

-- What a version resolves to is a valid strategy of that version, whatever was registered after the
-- seed.
pub resolve-Sound :
    (seed : LoopStrategySpec) (specs : Specs) (later : List LoopStrategySpec) (v : Ref)
    (spec : LoopStrategySpec)
    → with_seed seed ≡ ok specs
    → resolve v (register_all later specs) ≡ ok spec
    → (spec.version ≡ v) × (validate_strategy spec ≡ ok tt)
unfolding resolve
resolve-Sound seed specs later v spec made h =
    all-Sound later specs (seed-Sound seed specs made) v spec (ground arith)
