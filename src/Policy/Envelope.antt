-- ===== src/Policy/Envelope.antt =====
-- crates/policy/src/lib.rs: `enforce_envelope` and the tests that it uses.
pub mod Bounds
use forme_agent.Base.{
  ℕ, String, Bool, true, false, not, ◌&&◌, ◌||◌, List, Option, some, none, ◌≡◌, ◌≢◌, ◌↔◌, ◌==◌,
  ◌!=◌, string_eq, nat_eq, if◌then◌else◌, ltb, all, contains, is_none_or, arith, ◌<◌, refl,
}
use forme_agent.Base.Int.{leb_ℤ}
use forme_agent.Base.Members.{
  Member, Covers, contains-Member, Member-contains, all-Covers, Covers-all,
}
use forme_agent.Protocol.Kinds.{Ref, Timestamp, Version, Actor, Risk, ActionType, action_type_eq}
use forme_agent.Protocol.Actions.{ActionIntent}
use forme_agent.Protocol.Envelopes.{
  AutonomyEnvelope, ApprovalRule, Timebox, RollbackReq, approval_rule_eq,
}
use forme_agent.Policy.Rules.{scope_contains}

pub data DelegationSubject : Type 0 where
  owner agent : DelegationSubject
  subagent external : Ref → DelegationSubject

pub record DelegationGrant : Type 0 where
  pub schema_version : Version
  pub subject : DelegationSubject
  pub envelope : AutonomyEnvelope
  pub granted_by : Actor
  pub audit_ref : Ref

pub data EnvelopeDecision : Type 0 where
  within out_of_scope needs_approval : EnvelopeDecision

unfoldable pub permissions_contain : List Ref → List Ref → Bool
permissions_contain granted requested = all (contains granted) requested

-- `Risk` is ordered as it is declared.
unfoldable pub risk_order : Risk → ℕ
risk_order Risk.low = 0
risk_order Risk.medium = 1
risk_order Risk.high = 2

unfoldable pub timebox_contains : Timebox → Timestamp → Bool
timebox_contains t now = ltb 0 t.max_turns && leb_ℤ t.starts_at now && leb_ℤ now t.expires_at

unfoldable pub rollback_satisfies : RollbackReq → ActionIntent → Bool
rollback_satisfies r intent =
    if not r.required
    then true
    else (if intent.rollback_expectation == "" || intent.rollback_expectation == "none"
        then false
        else is_none_or r.boundary (λ boundary. boundary == intent.rollback_expectation))

unfoldable pub exceeds : Risk → Risk → Bool
unfolding risk_order
exceeds hint limit = ltb (risk_order limit) (risk_order hint)

-- The test of permissions, which comes first.
unfoldable pub unpermitted : AutonomyEnvelope → AutonomyEnvelope → ActionIntent → Bool
unfolding permissions_contain
unpermitted granted runtime intent =
    not (permissions_contain granted.capability.permissions intent.requested_permissions)
    || not (permissions_contain runtime.capability.permissions intent.requested_permissions)

unfoldable pub outside : AutonomyEnvelope → AutonomyEnvelope → ActionIntent → Bool
unfolding exceeds timebox_contains
outside granted runtime intent =
    not (contains granted.capability.capabilities intent.capability_ref)
    || not (contains runtime.capability.capabilities intent.capability_ref)
    || not (scope_contains granted.scope intent.scope)
    || not (scope_contains runtime.scope intent.scope)
    || not (contains granted.action_type intent.action_type)
    || not (contains runtime.action_type intent.action_type)
    || exceeds intent.risk_hint granted.risk_limit
    || exceeds intent.risk_hint runtime.risk_limit
    || not (timebox_contains granted.timebox intent.requested_at)
    || not (timebox_contains runtime.timebox intent.requested_at)
    || granted.budget == ""
    || runtime.budget == ""
    || not (rollback_satisfies granted.rollback intent)
    || not (rollback_satisfies runtime.rollback intent)

unfoldable pub by_rules : ApprovalRule → ApprovalRule → EnvelopeDecision
by_rules granted runtime =
    if granted == ApprovalRule.deny || runtime == ApprovalRule.deny
    then out_of_scope
    else (if granted == ApprovalRule.ask || runtime == ApprovalRule.ask
        then needs_approval
        else within)

unfoldable pub enforce_envelope :
    DelegationGrant → AutonomyEnvelope → ActionIntent → EnvelopeDecision
unfolding unpermitted outside by_rules
enforce_envelope grant runtime intent =
    if unpermitted grant.envelope runtime intent
    then out_of_scope
    else (if outside grant.envelope runtime intent
        then out_of_scope
        else by_rules grant.envelope.approval_rule runtime.approval_rule)
