-- ===== src/Policy/Rules/Strictest.antt =====
-- The selected decision is the strictest of the rules that apply, in any order of the layers.
use forme_agent.Base.{
  Bool, true, false, List, [], ◌∷◌, none, some, ◌≡◌, ◌⊎◌, inl, inr, refl, sym, subst, arith, ◌≤◌,
  leb, if◌then◌else◌,
}
use forme_agent.Base.Members.{Member}
use forme_agent.Protocol.Kinds.{PolicyDecision}
use forme_agent.Protocol.Actions.{ActionIntent}
use forme_agent.Policy.Rules.{
  PolicyLayerSource, PolicyLayer, rank, place_layer, sort_layers, merge, decision_rank, Selected,
  select, decided, rule_decision,
}
use forme_agent.Policy.Rules.Selection.{Offers, AtLeast, select_takes, select-Offers}

-- Sorting keeps the layers.
place_member :
    (l k : PolicyLayer) (ls : List PolicyLayer) → Member k (place_layer l ls) → Member k (l ∷ ls)
unfolding place_layer
place_member l k [] m = m
place_member l k (j ∷ js) m = split (leb (rank l.source) (rank j.source)) m (place_member l k js)
  where
    split :
        (b : Bool)
        → Member k (if b then l ∷ j ∷ js else j ∷ place_layer l js)
        → (Member k (place_layer l js) → Member k (l ∷ js))
        → Member k (l ∷ j ∷ js)
    split true m h = m
    split false (inl p) h = inr (inl p)
    split false (inr n) h = elim (h n) [ inl p ↦ inl p | inr i ↦ inr (inr i) ]

member_placed :
    (l k : PolicyLayer) (ls : List PolicyLayer) → Member k (l ∷ ls) → Member k (place_layer l ls)
unfolding place_layer
member_placed l k [] m = m
member_placed l k (j ∷ js) m = split (leb (rank l.source) (rank j.source)) m (member_placed l k js)
  where
    split :
        (b : Bool)
        → Member k (l ∷ j ∷ js)
        → (Member k (l ∷ js) → Member k (place_layer l js))
        → Member k (if b then l ∷ j ∷ js else j ∷ place_layer l js)
    split true m h = m
    split false (inl p) h = inr (h (inl p))
    split false (inr (inl p)) h = inl p
    split false (inr (inr i)) h = inr (h (inr i))

sort_member : (ls : List PolicyLayer) (k : PolicyLayer) → Member k (sort_layers ls) → Member k ls
unfolding sort_layers
sort_member [] k m = m
sort_member (l ∷ ls) k m = elim (place_member l k (sort_layers ls) m) [
  | inl p ↦ inl p
  | inr i ↦ inr (sort_member ls k i)
]

member_sorted : (ls : List PolicyLayer) (k : PolicyLayer) → Member k ls → Member k (sort_layers ls)
unfolding sort_layers
member_sorted [] k m = m
member_sorted (l ∷ ls) k (inl p) = member_placed l k (sort_layers ls) (inl p)
member_sorted (l ∷ ls) k (inr i) = member_placed l k (sort_layers ls) (inr (member_sorted ls k i))

-- The decision over the merged layers is at least as strict as each rule of the layers that applies; it
-- is the effect of one of these rules, or, where no rule applies, a denial.
pub rule-decision_strictest :
    (layers : List PolicyLayer) (intent : ActionIntent)
    → ((d : PolicyDecision)
        → Offers intent layers d
        → decision_rank d ≤ decision_rank (rule_decision (merge layers) intent))
      × (Offers intent layers (rule_decision (merge layers) intent)
          ⊎ (((d : PolicyDecision) → ¬ Offers intent layers d)
              × (rule_decision (merge layers) intent ≡ PolicyDecision.deny)))
unfolding rule_decision merge decided
rule-decision_strictest layers intent = by_choice (select intent (sort_layers layers) none) refl
  where
    taken :
        (d : PolicyDecision)
        → Offers intent layers d
        → AtLeast (select intent (sort_layers layers) none) d
    taken d (l, r, m, n, a, e) =
        select_takes intent (sort_layers layers) none d (l, r, member_sorted layers l m, n, a, e)

    offered :
        (c : PolicyDecision × PolicyLayerSource)
        → select intent (sort_layers layers) none ≡ some c
        → Offers intent layers c.0
    offered c e = elim (select-Offers intent (sort_layers layers) none c e) [
      | inl f ↦ cc
      | inr x ↦ let (l, r, m, n, a, f) = x in (l, r, sort_member layers l m, n, a, f)
    ]

    by_choice :
        (s : Selected)
        → select intent (sort_layers layers) none ≡ s
        → ((d : PolicyDecision)
            → Offers intent layers d
            → decision_rank d ≤ decision_rank (decided (select intent (sort_layers layers) none)))
          × (Offers intent layers (decided (select intent (sort_layers layers) none))
              ⊎ (((d : PolicyDecision) → ¬ Offers intent layers d)
                  × (decided (select intent (sort_layers layers) none) ≡ PolicyDecision.deny)))
    by_choice none e = (
      (λ d o. elim (subst (λ x. AtLeast x d) e (taken d o)) [ ]),
      inr ((λ d o. subst (λ x. AtLeast x d) e (taken d o)), ground (arith, e)),
    )
    by_choice (some (d', k)) e = (
      (λ d o.
          subst (λ x. decision_rank d ≤ decision_rank (decided x)) (sym e)
            (subst (λ x. AtLeast x d) e (taken d o))),
      inl (subst (λ x. Offers intent layers (decided x)) (sym e) (offered (d', k) e)),
    )
