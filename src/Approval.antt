-- ===== src/Approval.antt =====
-- crates/approval/src/lib.rs: requests, grants, and the operations of `InMemoryApprovalBroker`.
-- A lock is never found poisoned, since no operation panics while it holds the lock.
pub mod Guards
pub mod Authorize
pub mod Resolution
pub mod History
mod Tests
pub mod Invariant
use forme_agent.Base.{
  String, Bool, true, false, not, ◌||◌, List, [], ◌∷◌, ◌++◌, Option, none, some, ◌==◌, ◌!=◌,
  if◌then◌else◌, Result, ok, err, ◌>>=◌, ◌>>◌, reject, all, contains, filter, string_eq, nat_eq,
}
use forme_agent.Base.Int.{ltb_ℤ, leb_ℤ, max_ℤ}
use forme_agent.Base.Text.{is_blank}
use forme_agent.Base.Map.{Map, lookup, insert, remove, values, string_ord}
use forme_agent.Protocol.Kinds.{Ref, Timestamp, Version, Risk, ApprovalOutcome, outcome_eq}
use forme_agent.Protocol.Actions.{ActionIntent}
use forme_agent.Protocol.Events.{EventPayload}
use forme_agent.Policy.Matcher.{ArgMatcher, matches}
use Prim.Native.String.{◌++◌ as concat}

pub record ApprovalRequest : Type 0 where
  pub schema_version : Version
  pub approval_id : Ref
  pub session : Ref
  pub action_summary : String
  pub risk_level : Risk
  pub scope : Ref
  pub requested_permissions : List Ref
  pub affected_resources : List Ref
  pub rollback_boundary : Ref
  pub expires_at : Timestamp
  pub choices : List Ref
  pub plan_digest : Ref
  pub policy_version : Version
  pub tool_schema_version : Version

pub data ApprovalScope : Type 0 where
  all_sessions : ApprovalScope
  session : Ref → ApprovalScope

pub data GrantScope : Type 0 where
  one_shot session : GrantScope
  param_pattern : ArgMatcher → GrantScope

pub record ApprovalGrant : Type 0 where
  pub schema_version : Version
  pub approval_id : Ref
  pub outcome : ApprovalOutcome
  pub granted_scope : GrantScope
  pub approver : Ref
  pub bound_plan_digest : Ref
  pub policy_version : Version
  pub tool_schema_version : Version
  pub nonce : Ref
  pub use_by : Timestamp

pub record ApprovalAuthorization : Type 0 where
  pub approval_id : Ref
  pub session : Ref
  pub scope : Ref
  pub plan_digest : Ref
  pub policy_version : Version
  pub tool_schema_version : Version
  pub now : Timestamp
  pub intent : ActionIntent

pub record ActiveGrant : Type 0 where
  pub request : ApprovalRequest
  pub grant : ApprovalGrant
  pub consumed : Bool

pub record BrokerState : Type 0 where
  pub pending : Map Ref ApprovalRequest
  pub active : Map Ref ActiveGrant
  pub known_ids : List Ref
  pub nonces : List Ref
  pub events : List EventPayload

-- One constructor for each message.
pub data Error : Type 0 where
  not_active outcome_refuses grant_expired scope_mismatch plan_changed version_changed : Error
  permission_unapproved already_consumed pattern_exceeded : Error
  request_expired request_incomplete id_used not_pending : Error
  expired_before_resolution wrong_target no_principal binding_mismatch nonce_invalid : Error
  expiry_exceeds : Error

unfoldable pub new : BrokerState
new = record { pending = []; active = []; known_ids = []; nonces = []; events = [] }

-- The `match` on the granted scope: whether the grant is consumed afterwards.
pub use_grant : GrantScope → Bool → ActionIntent → Result Error Bool
use_grant one_shot true intent = err already_consumed
use_grant one_shot false intent = ok true
use_grant GrantScope.session consumed intent = ok consumed
use_grant (param_pattern pattern) consumed intent =
    if matches pattern intent then ok consumed else err pattern_exceeded

-- The checks of `authorize` on the active grant, in the order of the source.
pub check_active : Timestamp → ApprovalAuthorization → ActiveGrant → Result Error (Unit {0})
check_active now a active = do
  reject (g.outcome != ApprovalOutcome.granted) outcome_refuses
  reject (leb_ℤ g.use_by now || leb_ℤ r.expires_at now) grant_expired
  reject (a.session != r.session || a.scope != r.scope || a.intent.scope != r.scope) scope_mismatch
  reject (a.plan_digest != g.bound_plan_digest || a.plan_digest != r.plan_digest) plan_changed
  reject
      (a.policy_version != g.policy_version
        || a.policy_version != r.policy_version
        || a.tool_schema_version != g.tool_schema_version
        || a.tool_schema_version != r.tool_schema_version)
      version_changed
  reject (not (all (contains r.requested_permissions) a.intent.requested_permissions))
      permission_unapproved
  ok tt
  where
    open active use {request as r, grant as g}

pub authorize_active : Timestamp → ApprovalAuthorization → ActiveGrant → Result Error ActiveGrant
unfolding check_active use_grant
authorize_active now a active = do
  check_active now a active
  consumed ← use_grant active.grant.granted_scope active.consumed a.intent
  ok (record active { consumed = consumed })

-- A call returns the state that it leaves and its result.
pub authorize :
    Timestamp → ApprovalAuthorization → BrokerState → BrokerState × Result Error (Unit {0})
unfolding authorize_active max_ℤ
authorize clock_now a s = elim (lookup a.approval_id s.active) [
  | none ↦ (s, err not_active)
  | some active ↦ elim (authorize_active (max_ℤ clock_now a.now) a active) [
    | err e ↦ (s, err e)
    | ok used ↦ (record s { active = insert a.approval_id used s.active }, ok tt)
  ]
]

pub take_events : BrokerState → BrokerState × List EventPayload
take_events s = (record s { events = [] }, s.events)

requested_event : ApprovalRequest → EventPayload
requested_event r = EventPayload.approval_requested (record {
  approval_id = r.approval_id;
  action_summary = r.action_summary;
  risk = r.risk_level;
  scope = r.scope;
  rollback_boundary = r.rollback_boundary;
  expires_at = r.expires_at;
  choices = r.choices;
  requested_permissions = r.requested_permissions;
  affected_resources = r.affected_resources;
})

is_empty {ℓ} : {A : Type ℓ} → List A → Bool
is_empty [] = true
is_empty (_ ∷ _) = false

pub check_request : Timestamp → ApprovalRequest → Result Error (Unit {0})
unfolding is_empty
check_request now r = do
  reject (leb_ℤ r.expires_at now) request_expired
  reject (is_blank r.action_summary || is_empty r.choices || is_blank r.plan_digest)
      request_incomplete
  ok tt

pub enqueued : ApprovalRequest → BrokerState → BrokerState
unfolding requested_event
enqueued r s = record s {
  known_ids = r.approval_id ∷ s.known_ids;
  events = s.events ++ (requested_event r ∷ []);
  pending = insert r.approval_id r s.pending;
}

pub request : Timestamp → ApprovalRequest → BrokerState → BrokerState × Result Error Ref
unfolding check_request enqueued
request now r s = elim (check_request now r) [
  | err e ↦ (s, err e)
  | ok _ ↦
      if contains s.known_ids r.approval_id
      then (s, err id_used)
      else (enqueued r s, ok r.approval_id)
]

pub validate_grant :
    ApprovalRequest → Ref → ApprovalGrant → Timestamp → List Ref → Result Error (Unit {0})
validate_grant r ticket g now used_nonces = do
  reject (leb_ℤ r.expires_at now) expired_before_resolution
  reject (ticket != r.approval_id || g.approval_id != r.approval_id) wrong_target
  reject (is_blank g.approver) no_principal
  reject
      (g.bound_plan_digest != r.plan_digest
        || g.policy_version != r.policy_version
        || g.tool_schema_version != r.tool_schema_version)
      binding_mismatch
  reject (is_blank g.nonce || contains used_nonces g.nonce) nonce_invalid
  reject (leb_ℤ g.use_by now || ltb_ℤ r.expires_at g.use_by) expiry_exceeds
  ok tt

grant_ref : ApprovalGrant → Option Ref
grant_ref g =
    if g.outcome == ApprovalOutcome.granted
    then some (concat "approval-grant:" g.approval_id)
    else none

pub activate : ApprovalRequest → ApprovalGrant → Map Ref ActiveGrant → Map Ref ActiveGrant
activate r g active =
    if g.outcome == ApprovalOutcome.granted
    then insert g.approval_id (record { request = r; grant = g; consumed = false }) active
    else active

pub resolved : ApprovalRequest → Ref → ApprovalGrant → BrokerState → BrokerState
unfolding activate grant_ref
resolved r ticket g s = record s {
  pending = remove ticket s.pending;
  nonces = g.nonce ∷ s.nonces;
  active = activate r g s.active;
  events =
      s.events
      ++ (EventPayload.approval_resolved
            (record { approval_id = g.approval_id; outcome = g.outcome; grant_ref = grant_ref g })
          ∷ []);
}

pub resolve : Timestamp → Ref → ApprovalGrant → BrokerState → BrokerState × Result Error (Unit {0})
unfolding validate_grant resolved
resolve now ticket g s = elim (lookup ticket s.pending) [
  | none ↦ (s, err not_pending)
  | some r ↦ elim (validate_grant r ticket g now s.nonces) [
    | err e ↦ (s, err e)
    | ok _ ↦ (resolved r ticket g s, ok tt)
  ]
]

in_scope : ApprovalScope → ApprovalRequest → Bool
in_scope all_sessions r = true
in_scope (ApprovalScope.session s) r = r.session == s

pub pending : Timestamp → ApprovalScope → BrokerState → List ApprovalRequest
unfolding in_scope
pending now scope s =
    filter (in_scope scope) (filter (λ r. ltb_ℤ now r.expires_at) (values s.pending))
