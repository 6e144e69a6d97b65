-- ===== src/Policy/Envelope/Bounds.antt =====
-- Both envelopes bound what a delegated action may do.
use forme_agent.Base.{
  Bool, true, false, ◌≡◌, ◌≢◌, ◌⊎◌, ◌↔◌, ◌==◌, string_eq, nat_eq, if◌then◌else◌, contains, arith,
  ◌<◌, ◌≤◌, refl,
}
use forme_agent.Base.Int.{◌≤ℤ◌}
use forme_agent.Base.Members.{
  Member, Covers, contains-Member, Member-contains, all-Covers, Covers-all,
}
use forme_agent.Protocol.Kinds.{action_type_eq}
use forme_agent.Protocol.Actions.{ActionIntent}
use forme_agent.Protocol.Envelopes.{AutonomyEnvelope, ApprovalRule, approval_rule_eq}
use forme_agent.Policy.Rules.{scope_contains}
use forme_agent.Policy.Envelope.{
  DelegationGrant, EnvelopeDecision, enforce_envelope, permissions_contain, risk_order, exceeds,
  unpermitted, outside, by_rules, timebox_contains, rollback_satisfies, within, out_of_scope,
  needs_approval,
}

-- The action stays inside one envelope.
pub record Fits (e : AutonomyEnvelope) (intent : ActionIntent) : Type 0 where
  pub permissions : Covers e.capability.permissions intent.requested_permissions
  pub capability : Member intent.capability_ref e.capability.capabilities
  pub scope : scope_contains e.scope intent.scope ≡ true
  pub action : Member intent.action_type e.action_type
  pub risk : risk_order intent.risk_hint ≤ risk_order e.risk_limit
  pub turns : 0 < e.timebox.max_turns
  pub begun : e.timebox.starts_at ≤ℤ intent.requested_at
  pub not_expired : intent.requested_at ≤ℤ e.timebox.expires_at
  pub budgeted : e.budget ≢ ""
  pub rollback : rollback_satisfies e.rollback intent ≡ true

-- The tests of one envelope, each passed.
record Passes (e : AutonomyEnvelope) (intent : ActionIntent) : Type 0 where
  pub permitted : permissions_contain e.capability.permissions intent.requested_permissions ≡ true
  pub capable : contains e.capability.capabilities intent.capability_ref ≡ true
  pub scoped : scope_contains e.scope intent.scope ≡ true
  pub typed : contains e.action_type intent.action_type ≡ true
  pub moderate : exceeds intent.risk_hint e.risk_limit ≡ false
  pub timely : timebox_contains e.timebox intent.requested_at ≡ true
  pub budgeted : (e.budget == "") ≡ false
  pub rollback : rollback_satisfies e.rollback intent ≡ true

Passes-Fits : (e : AutonomyEnvelope) (intent : ActionIntent) → Passes e intent → Fits e intent
unfolding permissions_contain timebox_contains exceeds
Passes-Fits e intent p = record {
  permissions = all-Covers e.capability.permissions intent.requested_permissions p.permitted;
  capability = contains-Member e.capability.capabilities intent.capability_ref p.capable;
  scope = p.scoped;
  action = contains-Member e.action_type intent.action_type p.typed;
  risk = ground (arith, p.moderate);
  turns = ground (arith, p.timely);
  begun = ground (arith, p.timely);
  not_expired = ground (arith, p.timely);
  budgeted = ground (arith, p.budgeted);
  rollback = p.rollback;
}

Fits-Passes : (e : AutonomyEnvelope) (intent : ActionIntent) → Fits e intent → Passes e intent
unfolding permissions_contain timebox_contains exceeds
Fits-Passes e intent f = record {
  permitted = Covers-all e.capability.permissions intent.requested_permissions f.permissions;
  capable = Member-contains e.capability.capabilities intent.capability_ref f.capability;
  scoped = f.scope;
  typed = Member-contains e.action_type intent.action_type f.action;
  moderate = ground (arith, f.risk);
  timely = ground (arith, f.turns, f.begun, f.not_expired);
  budgeted = ground (arith, f.budgeted);
  rollback = f.rollback;
}

both_pass :
    (g r : AutonomyEnvelope) (intent : ActionIntent)
    → unpermitted g r intent ≡ false
    → outside g r intent ≡ false
    → Passes g intent × Passes r intent
unfolding unpermitted outside
both_pass g r intent h k = (
  record {
    permitted = ground (arith, h);
    capable = ground (arith, k);
    scoped = ground (arith, k);
    typed = ground (arith, k);
    moderate = ground (arith, k);
    timely = ground (arith, k);
    budgeted = ground (arith, k);
    rollback = ground (arith, k);
  },
  record {
    permitted = ground (arith, h);
    capable = ground (arith, k);
    scoped = ground (arith, k);
    typed = ground (arith, k);
    moderate = ground (arith, k);
    timely = ground (arith, k);
    budgeted = ground (arith, k);
    rollback = ground (arith, k);
  },
)

pass_both :
    (g r : AutonomyEnvelope) (intent : ActionIntent)
    → Passes g intent
    → Passes r intent
    → (unpermitted g r intent ≡ false) × (outside g r intent ≡ false)
unfolding unpermitted outside
pass_both g r intent p q = (
  ground (arith, p.permitted, q.permitted),
  ground (
    arith, p.capable, q.capable, p.scoped, q.scoped, p.typed, q.typed, p.moderate, q.moderate,
    p.timely, q.timely, p.budgeted, q.budgeted, p.rollback, q.rollback,
  ),
)

not_refused :
    (u o : Bool) (x : EnvelopeDecision)
    → (if u then out_of_scope else (if o then out_of_scope else x)) ≢ out_of_scope
    → (u ≡ false) × (o ≡ false)
not_refused true o x h = absurd (h refl)
not_refused false true x h = absurd (h refl)
not_refused false false x h = (refl, refl)

-- Both fit when the decision is not a refusal.
both_fit :
    (grant : DelegationGrant) (runtime : AutonomyEnvelope) (intent : ActionIntent)
    → enforce_envelope grant runtime intent ≢ out_of_scope
    → Passes grant.envelope intent × Passes runtime intent
unfolding enforce_envelope
both_fit grant runtime intent h =
    let (u, o) =
      not_refused (unpermitted grant.envelope runtime intent)
        (outside grant.envelope runtime intent)
        (by_rules grant.envelope.approval_rule runtime.approval_rule) h in
    both_pass grant.envelope runtime intent u o

rules_decide :
    (grant : DelegationGrant) (runtime : AutonomyEnvelope) (intent : ActionIntent)
    → Passes grant.envelope intent
    → Passes runtime intent
    → enforce_envelope grant runtime intent
      ≡ by_rules grant.envelope.approval_rule runtime.approval_rule
unfolding enforce_envelope
rules_decide grant runtime intent p q =
    let (h, k) = pass_both grant.envelope runtime intent p q in ground (arith, h, k)

-- An action is within the delegation exactly when it fits both envelopes and both approval rules allow
-- it.
pub enforce-envelope_within :
    (grant : DelegationGrant) (runtime : AutonomyEnvelope) (intent : ActionIntent)
    → (enforce_envelope grant runtime intent ≡ within) ↔ (
        Fits grant.envelope intent
        × Fits runtime intent
        × (grant.envelope.approval_rule ≡ ApprovalRule.allow)
        × (runtime.approval_rule ≡ ApprovalRule.allow))
unfolding by_rules
enforce-envelope_within grant runtime intent = (forward, backward)
  where
    forward :
        enforce_envelope grant runtime intent ≡ within
        → Fits grant.envelope intent
          × Fits runtime intent
          × (grant.envelope.approval_rule ≡ ApprovalRule.allow)
          × (runtime.approval_rule ≡ ApprovalRule.allow)
    forward h =
        let (f, g) = both_fit grant runtime intent (λ e. cc) in
        (
          Passes-Fits grant.envelope intent f,
          Passes-Fits runtime intent g,
          ground (arith, h, rules_decide grant runtime intent f g),
          ground (arith, h, rules_decide grant runtime intent f g),
        )

    backward :
        Fits grant.envelope intent
          × Fits runtime intent
          × (grant.envelope.approval_rule ≡ ApprovalRule.allow)
          × (runtime.approval_rule ≡ ApprovalRule.allow)
        → enforce_envelope grant runtime intent ≡ within
    backward (f, g, a, b) = ground (
      arith,
      a,
      b,
      rules_decide grant runtime intent (Fits-Passes grant.envelope intent f)
          (Fits-Passes runtime intent g),
    )

-- Approval is asked for exactly when the action fits both envelopes, neither approval rule denies, and
-- one of them asks.
pub enforce-envelope_asks :
    (grant : DelegationGrant) (runtime : AutonomyEnvelope) (intent : ActionIntent)
    → (enforce_envelope grant runtime intent ≡ needs_approval) ↔ (
        Fits grant.envelope intent
        × Fits runtime intent
        × (grant.envelope.approval_rule ≢ ApprovalRule.deny)
        × (runtime.approval_rule ≢ ApprovalRule.deny)
        × ((grant.envelope.approval_rule ≡ ApprovalRule.ask)
            ⊎ (runtime.approval_rule ≡ ApprovalRule.ask)))
unfolding by_rules
enforce-envelope_asks grant runtime intent = (forward, backward)
  where
    forward :
        enforce_envelope grant runtime intent ≡ needs_approval
        → Fits grant.envelope intent
          × Fits runtime intent
          × (grant.envelope.approval_rule ≢ ApprovalRule.deny)
          × (runtime.approval_rule ≢ ApprovalRule.deny)
          × ((grant.envelope.approval_rule ≡ ApprovalRule.ask)
              ⊎ (runtime.approval_rule ≡ ApprovalRule.ask))
    forward h =
        let (f, g) = both_fit grant runtime intent (λ e. cc) in
        (
          Passes-Fits grant.envelope intent f,
          Passes-Fits runtime intent g,
          ground (arith, h, rules_decide grant runtime intent f g),
          ground (arith, h, rules_decide grant runtime intent f g),
          ground (arith, h, rules_decide grant runtime intent f g),
        )

    backward :
        Fits grant.envelope intent
          × Fits runtime intent
          × (grant.envelope.approval_rule ≢ ApprovalRule.deny)
          × (runtime.approval_rule ≢ ApprovalRule.deny)
          × ((grant.envelope.approval_rule ≡ ApprovalRule.ask)
              ⊎ (runtime.approval_rule ≡ ApprovalRule.ask))
        → enforce_envelope grant runtime intent ≡ needs_approval
    backward (f, g, a, b, c) = ground (
      arith,
      a,
      b,
      c,
      rules_decide grant runtime intent (Fits-Passes grant.envelope intent f)
          (Fits-Passes runtime intent g),
    )
