-- ===== src/Policy/Tests.antt =====
-- Rules and envelopes at concrete inputs.
use forme_agent.Base.{List, [], ◌∷◌, none, false, ◌≡◌, ◌⊎◌, refl, ◌≤◌, ℕ_discrete, all, contains}
use forme_agent.Base.Int.{pos}
use forme_agent.Base.Text.{string_discrete}
use forme_agent.Protocol.Kinds.{
  PolicyDecision, Risk, ActionType, BackendKind, Source, ExpectedEffect, Actor,
  action_type_discrete,
}
use forme_agent.Protocol.Actions.{ActionIntent, ActionParameters}
use forme_agent.Protocol.Actions as Actions
use forme_agent.Protocol.Envelopes.{AutonomyEnvelope, ApprovalRule, approval_rule_discrete}
use forme_agent.Policy.Matcher.{any, matches}
use forme_agent.Policy.Rules.{
  PolicyLayer, PolicyRule, PolicyLayerSource, merge, rule_decision, decision_rank, rank,
  scope_contains,
}
use forme_agent.Policy.Rules.Selection.{Offers}
use forme_agent.Policy.Rules.Strictest.{rule-decision_strictest}
use forme_agent.Policy.Envelope.{
  DelegationGrant, DelegationSubject, enforce_envelope, within, needs_approval, rollback_satisfies,
}
use forme_agent.Policy.Envelope.Bounds.{Fits, enforce-envelope_within}

abbrev read_intent : ActionIntent
read_intent = record {
  schema_version = 1;
  intent_id = "intent:1";
  source = Source.user_turn;
  goal = "goal:1";
  backend_hint = BackendKind.file;
  capability_ref = "capability:file";
  action_type = ActionType.observe;
  scope = "workspace:main";
  risk_hint = Risk.low;
  expected_effect = ExpectedEffect.internal;
  rollback_expectation = "none";
  parameters = Actions.file Actions.FileOperation.read "/srv/a" none;
  requested_permissions = "file.read" ∷ [];
  requested_at = pos 5;
  estimated_output_bytes = 10;
  estimated_duration = 10;
}

abbrev rule_with : PolicyDecision → PolicyRule
rule_with effect = record {
  schema_version = 1;
  matcher = record { backend = none; capability = none; action_type = none; parameters = any };
  effect = effect;
  scope = "workspace";
}

abbrev layer_with : PolicyLayerSource → PolicyDecision → PolicyLayer
layer_with source effect = record {
  schema_version = 1;
  source = source;
  rules = rule_with effect ∷ [];
}

abbrev two_layers : List PolicyLayer
two_layers =
    layer_with PolicyLayerSource.session PolicyDecision.allow
    ∷ layer_with PolicyLayerSource.user PolicyDecision.ask
    ∷ []

two_layers_ask : rule_decision (merge two_layers) read_intent ≡ PolicyDecision.ask
unfolding rule_decision merge string_discrete rank ℕ_discrete matches
two_layers_ask = refl

rule-decision_strictest_example :
    ((d : PolicyDecision)
      → Offers read_intent two_layers d
      → decision_rank d ≤ decision_rank (rule_decision (merge two_layers) read_intent))
    × (Offers read_intent two_layers (rule_decision (merge two_layers) read_intent)
        ⊎ (((d : PolicyDecision) → ¬ Offers read_intent two_layers d)
            × (rule_decision (merge two_layers) read_intent ≡ PolicyDecision.deny)))
rule-decision_strictest_example = rule-decision_strictest two_layers read_intent

abbrev envelope_with : ApprovalRule → AutonomyEnvelope
envelope_with rule = record {
  schema_version = 1;
  scope = "workspace";
  capability = record {
    schema_version = 1;
    capabilities = "capability:file" ∷ [];
    permissions = "file.read" ∷ "file.write" ∷ [];
  };
  action_type = ActionType.observe ∷ [];
  risk_limit = Risk.medium;
  approval_rule = rule;
  budget = "units:5";
  timebox = record { schema_version = 1; starts_at = pos 0; expires_at = pos 9; max_turns = 3 };
  rollback = record { schema_version = 1; required = false; boundary = none };
}

abbrev owner_grant : DelegationGrant
owner_grant = record {
  schema_version = 1;
  subject = DelegationSubject.owner;
  envelope = envelope_with ApprovalRule.allow;
  granted_by = Actor.owner;
  audit_ref = "event:1";
}

read_within : enforce_envelope owner_grant (envelope_with ApprovalRule.allow) read_intent ≡ within
unfolding enforce_envelope string_discrete all contains scope_contains ℕ_discrete
    action_type_discrete rollback_satisfies approval_rule_discrete
read_within = refl

enforce-envelope_within_example :
    Fits (envelope_with ApprovalRule.allow) read_intent
    × Fits (envelope_with ApprovalRule.allow) read_intent
    × (ApprovalRule.allow ≡ ApprovalRule.allow)
    × (ApprovalRule.allow ≡ ApprovalRule.allow)
enforce-envelope_within_example =
    (enforce-envelope_within owner_grant (envelope_with ApprovalRule.allow) read_intent).0
      read_within

read_asks :
    enforce_envelope owner_grant (envelope_with ApprovalRule.ask) read_intent ≡ needs_approval
unfolding enforce_envelope string_discrete all contains scope_contains ℕ_discrete
    action_type_discrete rollback_satisfies approval_rule_discrete
read_asks = refl
