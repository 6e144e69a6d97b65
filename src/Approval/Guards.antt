-- ===== src/Approval/Guards.antt =====
-- What each guard of the broker lets through.
use forme_agent.Protocol.Actions.{ActionIntent}
use forme_agent.Policy.Matcher.{matches}
use forme_agent.Base.Text.{is_blank}
use forme_agent.Base.{◌≡◌, ok, arith, string_eq, nat_eq, Bool, false, true, refl, List, ◌↔◌}
use forme_agent.Base.Int.{◌<ℤ◌, max_ℤ, ◌≤ℤ◌}
use forme_agent.Base.Members.{
  Covers, all-Covers, Covers-all, Member, contains-Member, Member-contains,
}
use forme_agent.Protocol.Kinds.{Timestamp, ApprovalOutcome, Ref}
use forme_agent.Approval.{
  ApprovalAuthorization, ActiveGrant, check_active, ApprovalRequest, ApprovalGrant, GrantScope,
  one_shot, param_pattern, use_grant, validate_grant,
}

-- Neither the grant nor its request has run out.
pub record IsOpen (now : Timestamp) (active : ActiveGrant) : Type 0 where
  pub grant_open : now <ℤ active.grant.use_by
  pub request_open : now <ℤ active.request.expires_at

-- The authorization is for exactly what was requested and granted.
pub record Binds (a : ApprovalAuthorization) (active : ActiveGrant) : Type 0 where
  pub outcome : active.grant.outcome ≡ ApprovalOutcome.granted
  pub session : a.session ≡ active.request.session
  pub scope : a.scope ≡ active.request.scope
  pub intent_scope : a.intent.scope ≡ active.request.scope
  pub grant_digest : a.plan_digest ≡ active.grant.bound_plan_digest
  pub request_digest : a.plan_digest ≡ active.request.plan_digest
  pub grant_policy : a.policy_version ≡ active.grant.policy_version
  pub request_policy : a.policy_version ≡ active.request.policy_version
  pub grant_tool : a.tool_schema_version ≡ active.grant.tool_schema_version
  pub request_tool : a.tool_schema_version ≡ active.request.tool_schema_version
  pub permissions : Covers active.request.requested_permissions a.intent.requested_permissions

pub check_active-Binds :
    (now : Timestamp) (a : ApprovalAuthorization) (active : ActiveGrant)
    → check_active now a active ≡ ok tt
    → IsOpen now active × Binds a active
unfolding check_active
check_active-Binds now a active h =
    ground (arith, all-Covers active.request.requested_permissions a.intent.requested_permissions)

pub Binds-check_active :
    (now : Timestamp) (a : ApprovalAuthorization) (active : ActiveGrant)
    → IsOpen now active
    → Binds a active
    → check_active now a active ≡ ok tt
unfolding check_active
Binds-check_active now a active o b = ground (
  arith,
  Covers-all active.request.requested_permissions a.intent.requested_permissions b.permissions,
)

-- The later of two times is within the limits exactly when both are.
pub IsOpen-max :
    (m n : Timestamp) (active : ActiveGrant)
    → IsOpen (max_ℤ m n) active ↔ (IsOpen m active × IsOpen n active)
unfolding max_ℤ
IsOpen-max m n active = (λ o. ground (arith, o.grant_open, o.request_open), λ o. ground arith)

-- The granted scope still covers the action.
abbrev pub Usable : GrantScope → Bool → ActionIntent → Type 0
Usable one_shot consumed intent = consumed ≡ false
Usable GrantScope.session consumed intent = Unit {0}
Usable (param_pattern pattern) consumed intent = matches pattern intent ≡ true

abbrev pub used : GrantScope → Bool → Bool
used one_shot consumed = true
used _ consumed = consumed

pub use_grant-Usable :
    (g : GrantScope) (c : Bool) (i : ActionIntent) {d : Bool}
    → use_grant g c i ≡ ok d
    → Usable g c i × (d ≡ used g c)
unfolding use_grant
use_grant-Usable one_shot true i h = cc
use_grant-Usable one_shot false i h = ground arith
use_grant-Usable GrantScope.session c i h = ground arith
use_grant-Usable (param_pattern p) c i h = ground arith

pub Usable-use_grant :
    (g : GrantScope) (c : Bool) (i : ActionIntent) → Usable g c i → use_grant g c i ≡ ok (used g c)
unfolding use_grant
Usable-use_grant one_shot c i h = ground arith
Usable-use_grant GrantScope.session c i h = refl
Usable-use_grant (param_pattern p) c i h = ground arith

-- What a grant must satisfy to resolve a pending request.
pub record Resolves (now : Timestamp) (r : ApprovalRequest) (ticket : Ref) (g : ApprovalGrant)
    (used : List Ref) : Type 0 where
  pub request_open : now <ℤ r.expires_at
  pub ticket_matches : ticket ≡ r.approval_id
  pub id_matches : g.approval_id ≡ r.approval_id
  pub approver_named : is_blank g.approver ≡ false
  pub digest : g.bound_plan_digest ≡ r.plan_digest
  pub policy : g.policy_version ≡ r.policy_version
  pub tool : g.tool_schema_version ≡ r.tool_schema_version
  pub nonce_named : is_blank g.nonce ≡ false
  pub nonce_fresh : ¬ Member g.nonce used
  pub use_open : now <ℤ g.use_by
  pub use_within : g.use_by ≤ℤ r.expires_at

pub validate_grant-Resolves :
    (r : ApprovalRequest) (t : Ref) (g : ApprovalGrant) (now : Timestamp) (used : List Ref)
    → validate_grant r t g now used ≡ ok tt
    → Resolves now r t g used
unfolding validate_grant
validate_grant-Resolves r t g now used h = ground (arith, Member-contains used g.nonce)

pub Resolves-validate_grant :
    (r : ApprovalRequest) (t : Ref) (g : ApprovalGrant) (now : Timestamp) (used : List Ref)
    → Resolves now r t g used
    → validate_grant r t g now used ≡ ok tt
unfolding validate_grant
Resolves-validate_grant r t g now used h = ground (arith, contains-Member used g.nonce)
