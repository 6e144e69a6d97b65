-- ===== src/Execution/Remote/Dispatch.antt =====
-- crates/execution/src/remote.rs: `RemoteExecutorBackend`. The transport, the clock and the digest of
-- an execution plan are trait objects or serialise; what they answer is an argument of the call.
pub mod Guards
pub mod OneShot
use forme_agent.Base.{
  ℕ, String, Bool, true, false, not, ◌&&◌, ◌||◌, List, [], ◌∷◌, Option, none, some, ◌==◌, ◌!=◌,
  nat_eq, string_eq, if◌then◌else◌, Result, ok, err, ◌>>=◌, ◌>>◌, reject, Eq,
}
use Prim.Native.String.{◌++◌ as concat}
use forme_agent.Base.Int.{leb_ℤ}
use forme_agent.Protocol.Kinds.{
  Ref, Version, Timestamp, BackendKind, backend_eq, ActionType, action_type_eq, ExpectedEffect,
  TrustTier,
}
use forme_agent.Protocol.Actions.{ActionIntent, ActionParameters, FileOperation}
use forme_agent.Protocol.Remote.{
  RemotePlacementPlan, RemoteActionSpec, RemoteExecutionLease, RemoteLeaseState, lease_state_eq,
  RemoteOperation, RemoteDispatchAcceptance, RemoteCancelOutcome, spec_of,
}
use forme_agent.Execution.Ledger.{Error}
use forme_agent.Execution.Remote.{
  Digests, validate_spec, validate_acceptance, plan_reference, parameters_match_backend, nonzero,
}
use forme_agent.Execution.Remote.Leases.{Bindings, take, active}

pub record OutputBudget : Type 0 where
  pub schema_version : Version
  pub max_bytes : ℕ
  pub truncate : Bool

pub record ExecutionPlan : Type 0 where
  pub schema_version : Version
  pub digest : Ref
  pub intent : ActionIntent
  pub backend : BackendKind
  pub scope : Ref
  pub approval_ref : Option Ref
  pub verify_ref : Option Ref
  pub rollback_boundary : Ref
  pub budget : OutputBudget
  pub timeout : ℕ

pub data ActionStatus : Type 0 where
  completed failed cancelled unknown : ActionStatus

pub data EffectStatus : Type 0 where
  observed committed unknown : EffectStatus

pub record ExternalActionReceipt : Type 0 where
  pub schema_version : Version
  pub action : Ref
  pub content_ref : Option Ref
  pub content_digest : Option Ref
  pub trust : TrustTier
  pub effect : EffectStatus
  pub probe_hint : Option Ref

pub record CapabilityEvidence : Type 0 where
  pub schema_version : Version
  pub capability : Ref
  pub outcome : Ref
  pub reliability : Ref

-- `diff` and `rollback` are of the file backend and left out.
pub record ActionResult : Type 0 where
  pub schema_version : Version
  pub result_ref : Ref
  pub status : ActionStatus
  pub output_ref : Ref
  pub output : String
  pub truncated : Bool
  pub evidence : CapabilityEvidence
  pub external_receipt : Option ExternalActionReceipt

pub record ActionStartedPayload : Type 0 where
  pub intent_id : Ref
  pub backend : BackendKind
  pub scope : Ref
  pub remote_lease : Option Ref

unfoldable pub effect_discrete : Discrete ExpectedEffect
effect_discrete = hlevel

instance abbrev pub effect_eq : Eq ExpectedEffect
effect_eq = record { discrete = effect_discrete }

-- `validate_backend_parameters` of crates/execution/src/planner.rs.
unfoldable pub backend_parameters : BackendKind → ActionParameters → Bool
backend_parameters BackendKind.remote (ActionParameters.remote _ _) = true
backend_parameters backend parameters = parameters_match_backend backend parameters

-- `validate_plan_for`, over `digest_plan`.
unfoldable pub validate_plan_for :
    (ExecutionPlan → Result Error Ref) → ExecutionPlan → BackendKind → Result Error (Unit {0})
validate_plan_for digest_plan plan backend = do
  expected ← digest_plan plan
  reject (expected != plan.digest) Error.digest_mismatch
  reject
      (plan.backend != backend
        || plan.intent.backend_hint != backend
        || plan.scope != plan.intent.scope)
      Error.wrong_backend
  reject (not (backend_parameters plan.intent.backend_hint plan.intent.parameters))
      Error.parameters_disagree

-- The operation is the one that the authority decided on.
unfoldable pub operation_fits : ActionIntent → RemoteOperation → Bool
operation_fits intent operation =
    operation.capability == intent.capability_ref
    && operation.scope == intent.scope
    && operation.action_type == intent.action_type
    && operation.expected_effect == intent.expected_effect
    && operation.rollback_boundary == intent.rollback_expectation

-- The lease still matches the approved plan.
unfoldable pub lease_fits :
    Timestamp → ExecutionPlan → RemotePlacementPlan → Ref → RemoteExecutionLease → Bool
lease_fits now plan placement reference lease =
    lease.state == RemoteLeaseState.acquired
    && lease.intent == plan.intent.intent_id
    && lease.plan_digest == plan.digest
    && lease.placement == reference
    && lease.executor == placement.executor
    && lease.peer_grant == placement.peer_grant
    && lease.grant_version == placement.grant_version
    && lease.authority_epoch == placement.authority_epoch
    && not (leb_ℤ lease.expires_at now)

-- What the world outside does in one call of the backend.
pub record Surroundings : Type 0 where
  pub digest_plan : ExecutionPlan → Result Error Ref
  pub now : Timestamp
  pub is_cancelled : Bool
  pub dispatch : RemotePlacementPlan → RemoteExecutionLease → Result Error RemoteDispatchAcceptance
  pub emit : ActionStartedPayload → Result Error (Unit {0})

-- The bindings, what was handed to the transport, and the events in the sink, latest first.
pub record BackendState : Type 0 where
  pub bindings : Bindings
  pub sent : List RemoteExecutionLease
  pub emitted : List ActionStartedPayload

has_approval : Option Ref → Bool
has_approval none = false
has_approval (some _) = true

pending_result : ExecutionPlan → RemoteExecutionLease → RemoteDispatchAcceptance → ActionResult
pending_result plan lease acceptance = record {
  schema_version = 1;
  result_ref = concat "remote-pending:" plan.intent.intent_id;
  status = ActionStatus.unknown;
  output_ref = concat "remote-receipt:" acceptance.receipt;
  output = "remote outcome awaits authority verification";
  truncated = false;
  evidence = record {
    schema_version = 1;
    capability = plan.intent.capability_ref;
    outcome = "unverified";
    reliability = "remote-observation";
  };
  external_receipt = some (record {
    schema_version = 1;
    action = plan.intent.intent_id;
    content_ref = some acceptance.receipt;
    content_digest = none;
    trust = TrustTier.untrusted;
    effect = EffectStatus.unknown;
    probe_hint = some (concat "probe:" lease.lease);
  });
}

module _ (g : Digests) where
  spec_in : ActionParameters → Result Error RemoteActionSpec
  spec_in (ActionParameters.remote header parameters) = ok (spec_of header parameters)
  spec_in _ = err Error.wrong_backend

  -- `remote_spec`.
  unfoldable pub remote_spec : ActionIntent → Result Error RemoteActionSpec
  unfolding spec_in
  remote_spec intent = do
    spec ← spec_in intent.parameters
    validate_spec g spec
    reject (not (operation_fits intent spec.placement.operation)) Error.intent_mismatch
    ok spec

  -- `execute`, up to the lease: the specification and its reference.
  unfoldable pub checked : Surroundings → ExecutionPlan → Result Error RemoteActionSpec
  unfolding has_approval
  checked w plan = do
    validate_plan_for w.digest_plan plan BackendKind.remote
    spec ← remote_spec plan.intent
    reject (not (has_approval plan.approval_ref)) Error.no_approval
    reject w.is_cancelled Error.cancelled_early
    ok spec

  unfoldable pub emitted :
      ActionStartedPayload → BackendState → Result Error (Unit {0}) → BackendState
  emitted event s (ok _) = record s { emitted = event ∷ s.emitted }
  emitted event s (err e) = s

  unfoldable pub started_event : ExecutionPlan → RemoteExecutionLease → ActionStartedPayload
  started_event plan lease = record {
    intent_id = plan.intent.intent_id;
    backend = BackendKind.remote;
    scope = plan.scope;
    remote_lease = some lease.lease;
  }

  -- What the transport answered.
  unfoldable pub accepted :
      Surroundings
      → ExecutionPlan
      → RemoteExecutionLease
      → BackendState
      → Result Error RemoteDispatchAcceptance
      → BackendState × Result Error ActionResult
  unfolding emitted started_event pending_result
  accepted w plan lease s (err e) = (s, err e)
  accepted w plan lease s (ok acceptance) = elim (validate_acceptance acceptance lease) [
    | err e ↦ (s, err e)
    | ok _ ↦ (
      emitted (started_event plan lease) s (w.emit (started_event plan lease)),
      do w.emit (started_event plan lease); ok (pending_result plan lease acceptance),
    )
  ]

  -- The lease is taken; the plan goes to the transport if the lease fits.
  unfoldable pub dispatched :
      Surroundings
      → ExecutionPlan
      → RemoteActionSpec
      → RemoteExecutionLease
      → BackendState
      → BackendState × Result Error ActionResult
  unfolding accepted
  dispatched w plan spec lease s = elim (plan_reference g spec.placement) [
    | err e ↦ (s, err e)
    | ok reference ↦
        if lease_fits w.now plan spec.placement reference lease
        then accepted w plan lease (record s { sent = lease ∷ s.sent })
            (w.dispatch spec.placement lease)
        else (s, err Error.lease_mismatch)
  ]

  unfoldable pub taken :
      Surroundings
      → ExecutionPlan
      → RemoteActionSpec
      → BackendState
      → Bindings × Result Error RemoteExecutionLease
      → BackendState × Result Error ActionResult
  unfolding dispatched
  taken w plan spec s (bindings, err e) = (record s { bindings = bindings }, err e)
  taken w plan spec s (bindings, ok lease) =
      dispatched w plan spec lease (record s { bindings = bindings })

  -- `execute`.
  unfoldable pub execute :
      Surroundings → ExecutionPlan → BackendState → BackendState × Result Error ActionResult
  unfolding taken
  execute w plan s = elim (checked w plan) [
    | err e ↦ (s, err e)
    | ok spec ↦ taken w plan spec s (take plan.intent.intent_id plan.digest s.bindings)
  ]

is_unknown : RemoteCancelOutcome → Bool
is_unknown RemoteCancelOutcome.unknown = true
is_unknown _ = false

-- `cancel`, over what the transport answers for the lease.
unfoldable pub cancel :
    (RemoteExecutionLease → Result Error RemoteCancelOutcome)
    → Ref
    → Bindings
    → Result Error (Unit {0})
unfolding is_unknown
cancel transport action s = elim (active action s) [
  | none ↦ err Error.not_active
  | some lease ↦ do outcome ← transport lease; reject (is_unknown outcome) Error.cancel_unknown
]
