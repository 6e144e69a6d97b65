-- ===== src/Policy/Rules.antt =====
-- crates/policy/src/lib.rs: layers of rules, `merge`, and the rule that `evaluate_detailed` selects.
pub mod Selection
pub mod Strictest
use forme_agent.Base.{
  ℕ, String, Bool, true, false, not, ◌&&◌, ◌||◌, List, [], ◌∷◌, Option, none, some, ◌==◌, string_eq,
  nat_eq, if◌then◌else◌, ltb, leb, is_none_or,
}
use forme_agent.Base.Text.{codes}
use forme_agent.Protocol.Kinds.{Ref, Version, PolicyDecision}
use forme_agent.Protocol.Actions.{ActionIntent}
use forme_agent.Policy.Matcher.{ActionMatcher, action_matches}

pub data PolicyLayerSource : Type 0 where
  managed user workspace agent surface session skill_tool_plugin hook final : PolicyLayerSource

unfoldable pub rank : PolicyLayerSource → ℕ
rank managed = 0
rank user = 1
rank workspace = 2
rank agent = 3
rank surface = 4
rank session = 5
rank skill_tool_plugin = 6
rank hook = 7
rank final = 8

unfoldable pub as_str : PolicyLayerSource → String
as_str managed = "managed"
as_str user = "user"
as_str workspace = "workspace"
as_str agent = "agent"
as_str surface = "surface"
as_str session = "session"
as_str skill_tool_plugin = "skill-tool-plugin"
as_str hook = "hook"
as_str final = "final"

pub record PolicyRule : Type 0 where
  pub schema_version : Version
  pub matcher : ActionMatcher
  pub effect : PolicyDecision
  pub scope : Ref

pub record PolicyLayer : Type 0 where
  pub schema_version : Version
  pub source : PolicyLayerSource
  pub rules : List PolicyRule

pub record EffectivePolicy : Type 0 where
  pub schema_version : Version
  pub layers : List PolicyLayer

-- `sort_by_key` is stable: a layer goes before those of a greater rank.
unfoldable pub place_layer : PolicyLayer → List PolicyLayer → List PolicyLayer
place_layer l [] = l ∷ []
place_layer l (k ∷ ks) =
    let rest = place_layer l ks in
    if leb (rank l.source) (rank k.source) then l ∷ k ∷ ks else k ∷ rest

unfoldable pub sort_layers : List PolicyLayer → List PolicyLayer
unfolding place_layer
sort_layers [] = []
sort_layers (l ∷ ls) = place_layer l (sort_layers ls)

unfoldable pub merge : List PolicyLayer → EffectivePolicy
unfolding sort_layers
merge layers = record { schema_version = 1; layers = sort_layers layers }

unfoldable pub decision_rank : PolicyDecision → ℕ
decision_rank PolicyDecision.allow = 0
decision_rank PolicyDecision.ask = 1
decision_rank PolicyDecision.deny = 2

-- `requested.strip_prefix(granted)` goes on with a colon or a slash.
unfoldable pub narrows : List ℕ → List ℕ → Bool
narrows [] [] = false
narrows [] (c ∷ requested) = c == b':' || c == b'/'
narrows (d ∷ granted) [] = false
narrows (d ∷ granted) (c ∷ requested) = d == c && narrows granted requested

unfoldable pub scope_contains : Ref → Ref → Bool
unfolding narrows
scope_contains granted requested =
    granted == "*" || granted == requested || narrows (codes granted) (codes requested)

unfoldable pub applies : ActionIntent → PolicyRule → Bool
unfolding scope_contains action_matches
applies intent rule = scope_contains rule.scope intent.scope && action_matches rule.matcher intent

abbrev pub Selected : Type 0
Selected = Option (PolicyDecision × PolicyLayerSource)

-- One round of the inner loop.
unfoldable pub consider : ActionIntent → PolicyLayerSource → PolicyRule → Selected → Selected
unfolding applies decision_rank
consider intent source rule selected =
    if applies intent rule
      && is_none_or selected (λ s. ltb (decision_rank s.0) (decision_rank rule.effect))
    then some (rule.effect, source)
    else selected

unfoldable pub select_rules :
    ActionIntent → PolicyLayerSource → List PolicyRule → Selected → Selected
unfolding consider
select_rules intent source [] selected = selected
select_rules intent source (r ∷ rs) selected =
    select_rules intent source rs (consider intent source r selected)

unfoldable pub select : ActionIntent → List PolicyLayer → Selected → Selected
unfolding select_rules
select intent [] selected = selected
select intent (l ∷ ls) selected = select intent ls (select_rules intent l.source l.rules selected)

-- The end of `evaluate_detailed`: without a rule the action is denied.
unfoldable pub decided : Selected → PolicyDecision
decided none = PolicyDecision.deny
decided (some (decision, _)) = decision

unfoldable pub rule_decision : EffectivePolicy → ActionIntent → PolicyDecision
unfolding select decided
rule_decision policy intent = decided (select intent policy.layers none)
