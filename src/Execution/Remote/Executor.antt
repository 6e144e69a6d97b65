-- ===== src/Execution/Remote/Executor.antt =====
-- crates/execution/src/remote.rs: `GuardedRemoteExecutor`. The credentials, the driver and the clock
-- are trait objects there, and what they answer in one call is an argument of the call here.
pub mod Admission
pub mod History
pub mod Answers
pub mod Portable
pub mod Safety
use forme_agent.Base.{
  ℕ, Bool, true, false, not, ◌&&◌, ◌||◌, List, [], ◌∷◌, Option, none, some, ◌==◌, ◌!=◌, nat_eq,
  string_eq, leb, ite, if◌then◌else◌, Result, ok, err, ◌>>=◌, ◌>>◌, reject, contains,
}
use Prim.Native.String.{◌++◌ as concat}
use forme_agent.Base.Int.{leb_ℤ}
use forme_agent.Base.Text.{is_blank, string_discrete}
use forme_agent.Protocol.Kinds.{Ref, Version, Timestamp, BackendKind, backend_eq}
use forme_agent.Protocol.Remote.{
  RemoteOperation, RemotePlacementPlan, RemoteExecutionLease, RemoteLeaseState, lease_state_eq,
  RemoteAdmission, FederatedPeerGrant, FederatedPeerRole, role_eq, RemoteProbeResult,
  RemoteProbeOutcome, RemoteCancelResult, RemoteCancelOutcome,
}
use forme_agent.Execution.Ledger.{
  RemoteDriverReceipt, RemoteReceiptOutcome, Decision, Error, Records, required, is_empty,
  validate_receipt, completed, new,
}
use forme_agent.Execution.Ledger.Queries.{receipt_for_lease, pending, receipt}
use forme_agent.Execution.Remote.{
  Digests, nonzero, validate_plan, validate_lease, validate_admission, validate_grant,
  plan_reference, grant_reference, is_some,
}
use forme_agent.Execution.Remote.Ledgers.{ReplayLedger}

pub record ExecutorAdmissionProfile : Type 0 where
  pub schema_version : Version
  pub peer : Ref
  pub grant : FederatedPeerGrant
  pub profile : Ref
  pub authority_epoch : ℕ
  pub minimum_fence : ℕ
  pub enabled_backends : List BackendKind

-- `ExecutorAdmissionProfile::validate`.
unfoldable pub validate_profile : Digests → ExecutorAdmissionProfile → Result Error (Unit {0})
validate_profile g profile = do
  validate_grant g profile.grant
  reject
      (profile.schema_version == 0
        || profile.peer != profile.grant.peer
        || is_blank profile.profile
        || profile.authority_epoch == 0
        || profile.minimum_fence == 0
        || not (contains profile.grant.roles FederatedPeerRole.executor)
        || is_empty profile.enabled_backends
        || contains profile.enabled_backends BackendKind.remote)
      Error.profile_incomplete

pub record RemoteInnerOutcome : Type 0 where
  pub outcome : RemoteReceiptOutcome
  pub result_digest : Option Ref
  pub observations : List Ref

-- The plan names this executor, its grant, its epoch and its profile.
unfoldable pub plan_bound : ExecutorAdmissionProfile → Ref → RemotePlacementPlan → Bool
plan_bound profile grant_ref plan =
    plan.executor == profile.peer
    && plan.peer_grant == grant_ref
    && plan.grant_version == profile.grant.grant_version
    && plan.authority_epoch == profile.authority_epoch
    && plan.executor_profile == profile.profile

-- The lease is for the plan, acquired, unexpired and not fenced off.
unfoldable pub lease_bound :
    ExecutorAdmissionProfile → Timestamp → Ref → RemotePlacementPlan → RemoteExecutionLease → Bool
lease_bound profile now reference plan lease =
    lease.executor == plan.executor
    && lease.peer_grant == plan.peer_grant
    && lease.grant_version == plan.grant_version
    && lease.authority_epoch == plan.authority_epoch
    && leb profile.minimum_fence lease.fence
    && lease.placement == reference
    && lease.state == RemoteLeaseState.acquired
    && not (leb_ℤ lease.expires_at now)

-- The profile enables the operation's backend, and the grant its scope and capability.
unfoldable pub operation_granted : ExecutorAdmissionProfile → RemoteOperation → Bool
operation_granted profile operation =
    contains profile.enabled_backends operation.backend
    && contains profile.grant.scopes operation.scope
    && contains profile.grant.capabilities operation.capability

module _ (g : Digests) where
  -- `admit`.
  unfoldable pub admit :
      ExecutorAdmissionProfile
      → Timestamp
      → RemotePlacementPlan
      → RemoteExecutionLease
      → Result Error RemoteAdmission
  admit profile now plan lease = do
    validate_plan g plan
    validate_lease g lease
    grant_ref ← grant_reference g profile.grant
    reference ← plan_reference g plan
    reject
        (not (plan_bound profile grant_ref plan)
          || not (lease_bound profile now reference plan lease)
          || not (operation_granted profile plan.operation))
        Error.admission_rejected
    ok (record { schema_version = 1; admission = lease.dispatch; plan = plan; lease = lease })

-- What the world outside does in one `execute`.
pub record Outside (World Secret : Type 0) : Type 0 where
  pub resolve : Ref → Ref → Ref → Result Error Secret
  pub drive : RemoteOperation → Option Secret → Result Error RemoteInnerOutcome
  pub now : Timestamp
  pub at_begin : World
  pub at_complete : World

credential_of :
    {Secret : Type 0}
    → (Ref → Ref → Ref → Result Error Secret)
    → RemotePlacementPlan
    → Option Ref
    → Result Error (Option Secret)
credential_of resolve plan none = ok none
credential_of resolve plan (some slot) = do
  secret ← resolve plan.executor plan.operation.scope slot
  ok (some secret)

unfoldable pub receipt_from : RemoteAdmission → RemoteInnerOutcome → Timestamp → RemoteDriverReceipt
receipt_from admission outcome now = record {
  schema_version = 1;
  receipt = concat "driver-receipt:" admission.lease.dispatch;
  lease = admission.lease.lease;
  dispatch = admission.lease.dispatch;
  intent = admission.lease.intent;
  plan_digest = admission.lease.plan_digest;
  operation_digest = admission.plan.operation.digest;
  executor = admission.plan.executor;
  authority_epoch = admission.lease.authority_epoch;
  fence = admission.lease.fence;
  outcome = outcome.outcome;
  result_digest = outcome.result_digest;
  observations = outcome.observations;
  observed_at = now;
}

-- A dispatch that was given to the driver.
pub record Run : Type 0 where
  pub dispatch : Ref
  pub lease : Ref

unfoldable pub run_discrete : Discrete Run
run_discrete = hlevel string_discrete

-- One occurrence is taken away.
unfoldable pub drop_run : Run → List Run → List Run
drop_run r [] = []
drop_run r (q ∷ qs) = ite (run_discrete q r) qs (q ∷ drop_run r qs)

unfoldable pub run_of : RemoteAdmission → Run
run_of admission = record { dispatch = admission.lease.dispatch; lease = admission.lease.lease }

-- The ledger; the calls of `execute` that were told to run the driver and have not done so; and the
-- runs of the driver so far, latest first. The last two are no fields of the source: they say where
-- its threads stand and what they did.
pub record ExecutorState (L : Type 0) : Type 0 where
  pub ledger : L
  pub cleared : List Run
  pub runs : List Run

pub data Started (Secret : Type 0) : Type 0 where
  answered : RemoteDriverReceipt → Started Secret
  clear : Option Secret → Ref → Started Secret

-- What `complete` left, and the answer of `execute`.
unfoldable pub recorded :
    {L : Type 0}
    → RemoteDriverReceipt
    → ExecutorState L
    → L × Result Error (Unit {0})
    → ExecutorState L × Result Error RemoteDriverReceipt
recorded x s (ledger, err e) = (record s { ledger = ledger }, err e)
recorded x s (ledger, ok _) = (record s { ledger = ledger }, ok x)

module _ (g : Digests) (l : ReplayLedger) {Secret : Type 0} where
  open l use {World, State}

  -- `execute`, up to the ledger.
  unfoldable pub prepare :
      Outside World Secret → RemoteAdmission → Result Error (Option Secret × Ref)
  unfolding credential_of
  prepare o admission = do
    validate_admission g admission
    credential ← credential_of o.resolve admission.plan admission.plan.operation.credential_slot
    semantics ← g.semantics admission.plan admission.lease
    ok (credential, semantics)

  -- What the answer of the ledger leads to.
  unfoldable pub decided :
      RemoteAdmission
      → Option Secret
      → Ref
      → ExecutorState State
      → State × Result Error Decision
      → ExecutorState State × Result Error (Started Secret)
  decided admission credential semantics s (ledger, err e) = (record s { ledger = ledger }, err e)
  decided admission credential semantics s (ledger, ok (completed receipt)) =
      (record s { ledger = ledger }, ok (answered receipt))
  decided admission credential semantics s (ledger, ok Decision.pending) =
      (record s { ledger = ledger }, err Error.probe_required)
  decided admission credential semantics s (ledger, ok new) = (
    record s { ledger = ledger; cleared = run_of admission ∷ s.cleared },
    ok (clear credential semantics),
  )

  started :
      Outside World Secret
      → RemoteAdmission
      → ExecutorState State
      → Result Error (Option Secret × Ref)
      → ExecutorState State × Result Error (Started Secret)
  unfolding decided
  started o admission s (err e) = (s, err e)
  started o admission s (ok (credential, semantics)) =
      decided admission credential semantics s
        (l.begin o.at_begin admission.lease.dispatch admission.lease.lease semantics s.ledger)

  -- `execute`, up to and with `begin`.
  unfoldable pub start :
      Outside World Secret
      → RemoteAdmission
      → ExecutorState State
      → ExecutorState State × Result Error (Started Secret)
  unfolding started
  start o admission s = started o admission s (prepare o admission)

  -- The call of the driver.
  unfoldable pub run :
      Outside World Secret
      → RemoteAdmission
      → Option Secret
      → ExecutorState State
      → ExecutorState State × Result Error RemoteInnerOutcome
  run o admission credential s = (
    record s { cleared = drop_run (run_of admission) s.cleared; runs = run_of admission ∷ s.runs },
    o.drive admission.plan.operation credential,
  )

  -- The rest of `execute`, after the driver.
  unfoldable pub finish :
      Outside World Secret
      → RemoteAdmission
      → Ref
      → ExecutorState State
      → Result Error RemoteInnerOutcome
      → ExecutorState State × Result Error RemoteDriverReceipt
  unfolding recorded
  finish o admission semantics s (err e) = (s, err e)
  finish o admission semantics s (ok outcome) =
      if is_empty outcome.observations
      then (s, err Error.no_observation)
      else elim (validate_receipt (receipt_from admission outcome o.now)) [
        | err e ↦ (s, err e)
        | ok _ ↦ recorded (receipt_from admission outcome o.now) s (
            l.complete o.at_complete admission.lease.dispatch semantics
              (receipt_from admission outcome o.now) s.ledger)
      ]

  unfoldable pub ran :
      Outside World Secret
      → RemoteAdmission
      → Ref
      → ExecutorState State × Result Error RemoteInnerOutcome
      → ExecutorState State × Result Error RemoteDriverReceipt
  unfolding finish
  ran o admission semantics (s, outcome) = finish o admission semantics s outcome

  unfoldable pub continued :
      Outside World Secret
      → RemoteAdmission
      → ExecutorState State × Result Error (Started Secret)
      → ExecutorState State × Result Error RemoteDriverReceipt
  unfolding ran
  continued o admission (s, err e) = (s, err e)
  continued o admission (s, ok (answered receipt)) = (s, ok receipt)
  continued o admission (s, ok (clear credential semantics)) =
      ran o admission semantics (run o admission credential s)

  -- `execute`.
  unfoldable pub execute :
      Outside World Secret
      → RemoteAdmission
      → ExecutorState State
      → ExecutorState State × Result Error RemoteDriverReceipt
  unfolding continued
  execute o admission s = continued o admission (start o admission s)

-- `probe` and `cancel` read the ledger only.
probe_outcome : Option RemoteDriverReceipt → Bool → RemoteProbeOutcome
probe_outcome (some receipt) waiting = elim receipt.outcome [
  | RemoteReceiptOutcome.completed ↦ RemoteProbeOutcome.completed
  | RemoteReceiptOutcome.failed ↦ RemoteProbeOutcome.failed
  | RemoteReceiptOutcome.cancelled ↦ RemoteProbeOutcome.failed
  | RemoteReceiptOutcome.unknown ↦ RemoteProbeOutcome.unknown
]
probe_outcome none true = RemoteProbeOutcome.unknown
probe_outcome none false = RemoteProbeOutcome.not_dispatched

receipt_name : Option RemoteDriverReceipt → Option Ref
receipt_name none = none
receipt_name (some receipt) = some receipt.receipt

unfoldable pub probe : Ref → Records → RemoteProbeResult
unfolding probe_outcome receipt_name
probe lease records = record {
  schema_version = 1;
  lease = lease;
  outcome = probe_outcome (receipt_for_lease lease records) (pending lease records);
  receipt = receipt_name (receipt_for_lease lease records);
  evidence = [];
}

cancel_outcome : Option RemoteDriverReceipt → Bool → RemoteCancelOutcome
cancel_outcome (some _) waiting = RemoteCancelOutcome.already_completed
cancel_outcome none true = RemoteCancelOutcome.unknown
cancel_outcome none false = RemoteCancelOutcome.not_dispatched

observations_of : Option RemoteDriverReceipt → List Ref
observations_of none = []
observations_of (some receipt) = receipt.observations

unfoldable pub cancel : Ref → Records → RemoteCancelResult
unfolding cancel_outcome observations_of
cancel lease records = record {
  schema_version = 1;
  lease = lease;
  outcome = cancel_outcome (receipt_for_lease lease records) (pending lease records);
  evidence = observations_of (receipt_for_lease lease records);
}

fetched : Option RemoteDriverReceipt → Result Error RemoteDriverReceipt
fetched none = err Error.receipt_missing
fetched (some x) = ok x

-- `fetch_receipt`.
unfoldable pub fetch_receipt : Ref → Records → Result Error RemoteDriverReceipt
unfolding fetched
fetch_receipt id records = fetched (receipt id records)
