-- ===== src/Protocol/Remote.antt =====
-- crates/protocol/src/m4.rs: what travels between the authority and a remote executor.
use forme_agent.Base.{ℕ, List, Option, Eq}
use forme_agent.Protocol.Kinds.{Ref, Timestamp, Version, BackendKind, ActionType, ExpectedEffect}
use forme_agent.Protocol.Actions.{ActionParameters, RemoteHeader}

pub record RemoteOperation : Type 0 where
  pub schema_version : Version
  pub backend : BackendKind
  pub parameters : ActionParameters
  pub capability : Ref
  pub scope : Ref
  pub action_type : ActionType
  pub expected_effect : ExpectedEffect
  pub rollback_boundary : Ref
  pub credential_slot : Option Ref
  pub digest : Ref

pub record RemotePlacementPlan : Type 0 where
  pub schema_version : Version
  pub executor : Ref
  pub peer_grant : Ref
  pub grant_version : ℕ
  pub authority_epoch : ℕ
  pub executor_profile : Ref
  pub operation : RemoteOperation
  pub digest : Ref

pub record RemoteActionSpec : Type 0 where
  pub schema_version : Version
  pub placement : RemotePlacementPlan

-- The specification that `ActionParameters.remote` holds.
unfoldable pub spec_of : RemoteHeader → ActionParameters → RemoteActionSpec
spec_of h parameters = record {
  schema_version = h.spec_version;
  placement = record {
    schema_version = h.plan_version;
    executor = h.executor;
    peer_grant = h.peer_grant;
    grant_version = h.grant_version;
    authority_epoch = h.authority_epoch;
    executor_profile = h.executor_profile;
    operation = record {
      schema_version = h.operation_version;
      backend = h.backend;
      parameters = parameters;
      capability = h.capability;
      scope = h.scope;
      action_type = h.action_type;
      expected_effect = h.expected_effect;
      rollback_boundary = h.rollback_boundary;
      credential_slot = h.credential_slot;
      digest = h.operation_digest;
    };
    digest = h.plan_digest;
  };
}

pub data RemoteLeaseState : Type 0 where
  reserved acquired released expired fenced : RemoteLeaseState

unfoldable pub lease_state_discrete : Discrete RemoteLeaseState
lease_state_discrete = hlevel

instance abbrev pub lease_state_eq : Eq RemoteLeaseState
lease_state_eq = record { discrete = lease_state_discrete }

pub record RemoteExecutionLease : Type 0 where
  pub schema_version : Version
  pub lease : Ref
  pub dispatch : Ref
  pub intent : Ref
  pub plan_digest : Ref
  pub placement : Ref
  pub executor : Ref
  pub peer_grant : Ref
  pub grant_version : ℕ
  pub authority_epoch : ℕ
  pub fence : ℕ
  pub expires_at : Timestamp
  pub state : RemoteLeaseState

pub data FederatedPeerRole : Type 0 where
  owner_client executor replica : FederatedPeerRole

unfoldable pub role_discrete : Discrete FederatedPeerRole
role_discrete = hlevel

instance abbrev pub role_eq : Eq FederatedPeerRole
role_eq = record { discrete = role_discrete }

pub record FederatedPeerGrant : Type 0 where
  pub schema_version : Version
  pub peer : Ref
  pub owner : Ref
  pub roles : List FederatedPeerRole
  pub scopes : List Ref
  pub capabilities : List Ref
  pub transport_identity : Ref
  pub authority_epoch : ℕ
  pub grant_version : ℕ
  pub expires_at : Timestamp
  pub created_by : Ref

pub record RemoteAdmission : Type 0 where
  pub schema_version : Version
  pub admission : Ref
  pub plan : RemotePlacementPlan
  pub lease : RemoteExecutionLease

-- `accepted` has one value and is left out.
pub record RemoteDispatchAcceptance : Type 0 where
  pub schema_version : Version
  pub dispatch : Ref
  pub lease : Ref
  pub receipt : Ref
  pub authority_epoch : ℕ
  pub fence : ℕ

pub data RemoteProbeOutcome : Type 0 where
  not_dispatched completed failed unknown : RemoteProbeOutcome

pub record RemoteProbeResult : Type 0 where
  pub schema_version : Version
  pub lease : Ref
  pub outcome : RemoteProbeOutcome
  pub receipt : Option Ref
  pub evidence : List Ref

pub data RemoteCancelOutcome : Type 0 where
  not_dispatched cancelled already_completed unknown : RemoteCancelOutcome

pub record RemoteCancelResult : Type 0 where
  pub schema_version : Version
  pub lease : Ref
  pub outcome : RemoteCancelOutcome
  pub evidence : List Ref
