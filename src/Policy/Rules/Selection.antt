-- ===== src/Policy/Rules/Selection.antt =====
-- What the loop over layers and rules selects.
use forme_agent.Base.{
  Bool, true, false, List, [], ◌∷◌, none, some, ◌≡◌, ◌⊎◌, inl, inr, refl, sym, subst, arith, ◌≤◌,
  ltb, if◌then◌else◌, ◌&&◌,
}
use forme_agent.Base.Members.{Member}
use forme_agent.Protocol.Kinds.{PolicyDecision}
use forme_agent.Protocol.Actions.{ActionIntent}
use forme_agent.Policy.Rules.{
  PolicyLayerSource, PolicyRule, PolicyLayer, decision_rank, applies, Selected, consider,
  select_rules, select,
}

-- A rule of a layer that applies, with its effect.
abbrev pub Offers : ActionIntent → List PolicyLayer → PolicyDecision → Type 0
Offers intent layers d =
    (l : PolicyLayer) × (r : PolicyRule) × Member l layers
    × Member r l.rules
    × (applies intent r ≡ true)
    × (r.effect ≡ d)

-- A choice is at least as strict as another one.
abbrev pub AtLeast : Selected → PolicyDecision → Type 0
AtLeast none d = ⊥
AtLeast (some (e, _)) d = decision_rank d ≤ decision_rank e

consider_keeps :
    (intent : ActionIntent) (source : PolicyLayerSource) (r : PolicyRule) (s : Selected)
    (d : PolicyDecision)
    → AtLeast s d
    → AtLeast (consider intent source r s) d
unfolding consider
consider_keeps intent source r none d h = elim h [ ]
consider_keeps intent source r (some (e, k)) d h =
    go (applies intent r && ltb (decision_rank e) (decision_rank r.effect)) refl
  where
    go :
        (b : Bool)
        → (applies intent r && ltb (decision_rank e) (decision_rank r.effect)) ≡ b
        → AtLeast (if b then some (r.effect, source) else some (e, k)) d
    go true q = ground (arith, h, q)
    go false q = h

consider_takes :
    (intent : ActionIntent) (source : PolicyLayerSource) (r : PolicyRule) (s : Selected)
    → applies intent r ≡ true
    → AtLeast (consider intent source r s) r.effect
unfolding consider
consider_takes intent source r none a =
    subst (λ b. AtLeast (if b && true then some (r.effect, source) else none) r.effect) (sym a)
      (omega arith)
consider_takes intent source r (some (e, k)) a =
    go (applies intent r && ltb (decision_rank e) (decision_rank r.effect)) refl
  where
    go :
        (b : Bool)
        → (applies intent r && ltb (decision_rank e) (decision_rank r.effect)) ≡ b
        → AtLeast (if b then some (r.effect, source) else some (e, k)) r.effect
    go true q = omega arith
    go false q = ground (arith, a, q)

rules_keep :
    (intent : ActionIntent) (source : PolicyLayerSource) (rs : List PolicyRule) (s : Selected)
    (d : PolicyDecision)
    → AtLeast s d
    → AtLeast (select_rules intent source rs s) d
unfolding select_rules
rules_keep intent source [] s d h = h
rules_keep intent source (r ∷ rs) s d h =
    rules_keep intent source rs (consider intent source r s) d
      (consider_keeps intent source r s d h)

rules_take :
    (intent : ActionIntent) (source : PolicyLayerSource) (rs : List PolicyRule) (s : Selected)
    (r : PolicyRule)
    → Member r rs
    → applies intent r ≡ true
    → AtLeast (select_rules intent source rs s) r.effect
unfolding select_rules
rules_take intent source [] s r m a = elim m [ ]
rules_take intent source (q ∷ rs) s r (inl p) a =
    subst (λ x. AtLeast (select_rules intent source rs (consider intent source q s)) x.effect) p
      (rules_keep intent source rs (consider intent source q s) q.effect
        (consider_takes intent source q s (subst (λ x. applies intent x ≡ true) (sym p) a)))
rules_take intent source (q ∷ rs) s r (inr m) a =
    rules_take intent source rs (consider intent source q s) r m a

select_keeps :
    (intent : ActionIntent) (ls : List PolicyLayer) (s : Selected) (d : PolicyDecision)
    → AtLeast s d
    → AtLeast (select intent ls s) d
unfolding select
select_keeps intent [] s d h = h
select_keeps intent (l ∷ ls) s d h =
    select_keeps intent ls (select_rules intent l.source l.rules s) d
      (rules_keep intent l.source l.rules s d h)

pub select_takes :
    (intent : ActionIntent) (ls : List PolicyLayer) (s : Selected) (d : PolicyDecision)
    → Offers intent ls d
    → AtLeast (select intent ls s) d
unfolding select
select_takes intent [] s d (l, r, m, _, _, _) = elim m [ ]
select_takes intent (k ∷ ks) s d (l, r, inl p, n, a, e) =
    select_keeps intent ks (select_rules intent k.source k.rules s) d (
      subst (AtLeast (select_rules intent k.source k.rules s)) e
        (rules_take intent k.source k.rules s r (subst (λ x. Member r x.rules) (sym p) n) a))
select_takes intent (k ∷ ks) s d (l, r, inr m, n, a, e) =
    select_takes intent ks (select_rules intent k.source k.rules s) d (l, r, m, n, a, e)

consider_offers :
    (intent : ActionIntent) (source : PolicyLayerSource) (r : PolicyRule) (s : Selected)
    (c : PolicyDecision × PolicyLayerSource)
    → consider intent source r s ≡ some c
    → (s ≡ some c) ⊎ ((applies intent r ≡ true) × (r.effect ≡ c.0))
unfolding consider
consider_offers intent source r s c e = ground arith

rules_offer :
    (intent : ActionIntent) (source : PolicyLayerSource) (rs : List PolicyRule) (s : Selected)
    (c : PolicyDecision × PolicyLayerSource)
    → select_rules intent source rs s ≡ some c
    → (s ≡ some c) ⊎ ((r : PolicyRule) × Member r rs × (applies intent r ≡ true) × (r.effect ≡ c.0))
unfolding select_rules
rules_offer intent source [] s c e = inl e
rules_offer intent source (r ∷ rs) s c e =
    elim (rules_offer intent source rs (consider intent source r s) c e) [
      | inr x ↦ let (q, m, a, f) = x in inr (q, inr m, a, f)
      | inl f ↦ elim (consider_offers intent source r s c f) [
        | inl g ↦ inl g
        | inr x ↦ let (a, g) = x in inr (r, inl refl, a, g)
      ]
    ]

pub select-Offers :
    (intent : ActionIntent) (ls : List PolicyLayer) (s : Selected)
    (c : PolicyDecision × PolicyLayerSource)
    → select intent ls s ≡ some c
    → (s ≡ some c) ⊎ Offers intent ls c.0
unfolding select
select-Offers intent [] s c e = inl e
select-Offers intent (l ∷ ls) s c e =
    elim (select-Offers intent ls (select_rules intent l.source l.rules s) c e) [
      | inr x ↦ let (k, q, m, n, a, f) = x in inr (k, q, inr m, n, a, f)
      | inl f ↦ elim (rules_offer intent l.source l.rules s c f) [
        | inl g ↦ inl g
        | inr x ↦ let (r, n, a, g) = x in inr (l, r, inl refl, n, a, g)
      ]
    ]
