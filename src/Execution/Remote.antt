-- ===== src/Execution/Remote.antt =====
-- crates/execution/src/remote.rs: the guarded executor and the backend that dispatches to it;
-- crates/protocol/src/m4.rs: when what they exchange is valid. The digests, which serialise their
-- argument, are parameters.
pub mod Ledgers
pub mod Leases
pub mod Executor
pub mod Dispatch
mod Tests
use forme_agent.Base.{
  ℕ, String, Bool, true, false, not, ◌&&◌, ◌||◌, List, [], ◌∷◌, map, Option, none, some, Eq, ◌==◌,
  ◌!=◌, nat_eq, string_eq, Result, ok, err, ◌>>=◌, ◌>>◌, reject, any, contains, leb, is_none_or,
}
use forme_agent.Base.Int.{pos, leb_ℤ}
use forme_agent.Base.Text.{codes, string_less}
use forme_agent.Policy.Path.{Name, split, name_eq}
use forme_agent.Protocol.Kinds.{Ref, BackendKind, ActionType, ExpectedEffect, backend_eq}
use forme_agent.Protocol.Actions.{
  ActionParameters, ExternalInput, BrowserOperation, ComputerOperation, AppApiOperation,
}
use forme_agent.Protocol.Remote.{
  RemoteOperation, RemotePlacementPlan, RemoteActionSpec, RemoteExecutionLease, RemoteLeaseState,
  lease_state_eq, RemoteAdmission, RemoteDispatchAcceptance, FederatedPeerGrant, FederatedPeerRole,
}
use forme_agent.Execution.Ledger.{Error, required, is_empty}

-- `parameters_match_backend`.
unfoldable pub parameters_match_backend : BackendKind → ActionParameters → Bool
parameters_match_backend BackendKind.shell (ActionParameters.shell _ _ _ _) = true
parameters_match_backend BackendKind.file (ActionParameters.file _ _ _) = true
parameters_match_backend BackendKind.mcp (ActionParameters.mcp _ _ _ _ _ _) = true
parameters_match_backend BackendKind.notification (ActionParameters.notification _ _ _ _) = true
parameters_match_backend BackendKind.browser (ActionParameters.browser _) = true
parameters_match_backend BackendKind.computer (ActionParameters.computer _) = true
parameters_match_backend BackendKind.pty (ActionParameters.pty _) = true
parameters_match_backend BackendKind.app_api (ActionParameters.app_api _) = true
parameters_match_backend _ _ = false

unfoldable pub input_has_secret : ExternalInput → Bool
input_has_secret (ExternalInput.secret _) = true
input_has_secret _ = false

optional_secret : Option ExternalInput → Bool
unfolding input_has_secret
optional_secret none = false
optional_secret (some input) = input_has_secret input

browser_secret : BrowserOperation → Bool
unfolding input_has_secret
browser_secret (BrowserOperation.type _ input) = input_has_secret input
browser_secret _ = false

computer_secret : ComputerOperation → Bool
unfolding input_has_secret
computer_secret (ComputerOperation.type input) = input_has_secret input
computer_secret _ = false

api_secret : AppApiOperation → Bool
unfolding optional_secret
api_secret AppApiOperation.read = false
api_secret (AppApiOperation.mutation _ body _) = optional_secret body

is_some : {A : Type 0} → Option A → Bool
is_some none = false
is_some (some _) = true

-- `contains_secret`.
unfoldable pub contains_secret : ActionParameters → Bool
unfolding browser_secret computer_secret optional_secret api_secret is_some is_empty
contains_secret (ActionParameters.shell _ _ _ _) = false
contains_secret (ActionParameters.file _ _ _) = false
contains_secret (ActionParameters.notification _ _ _ _) = false
contains_secret (ActionParameters.browser spec) = browser_secret spec.operation
contains_secret (ActionParameters.computer spec) = computer_secret spec.operation
contains_secret (ActionParameters.pty spec) =
    optional_secret spec.input || not (is_empty spec.environment)
contains_secret (ActionParameters.app_api spec) =
    is_some spec.credential || api_secret spec.operation
contains_secret (ActionParameters.mcp _ _ _ _ _ _) = false
contains_secret (ActionParameters.remote _ parameters) = contains_secret parameters

is_absolute : List ℕ → Bool
is_absolute [] = false
is_absolute (c ∷ cs) = c == b'/'

is_parent : Name → Bool
is_parent name = name == b'.' ∷ b'.' ∷ []

-- `std::path::Path` on Unix: a path is absolute when it starts at the root, and no other path has
-- a root or a prefix.
unfoldable pub unsafe_path : String → Bool
unfolding is_absolute is_parent split
unsafe_path value = is_absolute (codes value) || any is_parent (split (codes value))

optional_path : Option String → Bool
unfolding unsafe_path
optional_path none = false
optional_path (some path) = unsafe_path path

-- `contains_host_path`.
unfoldable pub contains_host_path : ActionParameters → Bool
unfolding optional_path
contains_host_path (ActionParameters.shell _ _ cwd _) = optional_path cwd
contains_host_path (ActionParameters.file _ path _) = unsafe_path path
contains_host_path (ActionParameters.pty spec) = unsafe_path spec.cwd
contains_host_path (ActionParameters.remote _ parameters) = contains_host_path parameters
contains_host_path _ = false

-- An action that only looks does not declare an effect outside.
only_looks : ActionType → Bool
only_looks ActionType.observe = true
only_looks ActionType.analyze = true
only_looks _ = false

is_outward : ExpectedEffect → Bool
is_outward ExpectedEffect.outward = true
is_outward ExpectedEffect.internal = false

-- `canonical_digest` of each of the structs that are digested.
pub record Digests : Type 0 where
  pub operation : RemoteOperation → Result Error Ref
  pub plan : RemotePlacementPlan → Result Error Ref
  pub grant : FederatedPeerGrant → Result Error Ref
  pub semantics : RemotePlacementPlan → RemoteExecutionLease → Result Error Ref

pub nonzero : ℕ → Error → Result Error (Unit {0})
nonzero n = reject (n == 0)

module _ (g : Digests) where
  -- `RemoteOperation::validate`.
  unfoldable pub validate_operation : RemoteOperation → Result Error (Unit {0})
  unfolding required only_looks is_outward
  validate_operation op = do
    reject (op.schema_version == 0 || op.backend == BackendKind.remote) Error.operation_backend
    required op.capability
    required op.scope
    required op.rollback_boundary
    required op.digest
    reject (not (parameters_match_backend op.backend op.parameters)) Error.parameters_disagree
    reject (contains_secret op.parameters) Error.central_secret
    reject (contains_host_path op.parameters) Error.host_path
    reject (is_outward op.expected_effect && only_looks op.action_type) Error.observed_outward
    digest ← g.operation (record op { digest = "" })
    reject (op.digest != digest) Error.digest_mismatch

  -- `RemotePlacementPlan::validate`.
  unfoldable pub validate_plan : RemotePlacementPlan → Result Error (Unit {0})
  unfolding nonzero
  validate_plan plan = do
    reject (plan.schema_version == 0 || plan.authority_epoch == 0) Error.plan_incomplete
    required plan.executor
    required plan.peer_grant
    required plan.executor_profile
    nonzero plan.grant_version Error.version_invalid
    validate_operation plan.operation
    required plan.digest
    digest ← g.plan (record plan { digest = "" })
    reject (plan.digest != digest) Error.digest_mismatch

  unfoldable pub plan_reference : RemotePlacementPlan → Result Error Ref
  plan_reference plan = do validate_plan plan; ok plan.digest

  unfoldable pub validate_spec : RemoteActionSpec → Result Error (Unit {0})
  unfolding nonzero
  validate_spec spec = do
    nonzero spec.schema_version Error.spec_schema
    validate_plan spec.placement

  -- `RemoteExecutionLease::validate`.
  unfoldable pub validate_lease : RemoteExecutionLease → Result Error (Unit {0})
  unfolding nonzero
  validate_lease lease = do
    reject (lease.schema_version == 0 || leb_ℤ lease.expires_at (pos 0)) Error.lease_incomplete
    required lease.lease
    required lease.dispatch
    required lease.intent
    required lease.plan_digest
    required lease.placement
    required lease.executor
    required lease.peer_grant
    nonzero lease.grant_version Error.version_invalid
    nonzero lease.authority_epoch Error.epoch_invalid
    nonzero lease.fence Error.fence_invalid

  -- `RemoteAdmission::validate`.
  unfoldable pub validate_admission : RemoteAdmission → Result Error (Unit {0})
  unfolding nonzero
  validate_admission admission = do
    nonzero admission.schema_version Error.admission_schema
    validate_plan admission.plan
    validate_lease admission.lease
    placement ← plan_reference admission.plan
    reject
        (admission.lease.state != RemoteLeaseState.acquired
          || admission.lease.placement != placement)
        Error.admission_unbound
    required admission.admission

  -- `windows(2).any(|pair| pair[0] >= pair[1])`.
  unordered : {A : Type 0} → (A → A → Bool) → List A → Bool
  unordered less [] = false
  unordered less (x ∷ []) = false
  unordered less (x ∷ y ∷ xs) = not (less x y) || unordered less (y ∷ xs)

  role_less : FederatedPeerRole → FederatedPeerRole → Bool
  role_less FederatedPeerRole.owner_client FederatedPeerRole.owner_client = false
  role_less FederatedPeerRole.owner_client _ = true
  role_less FederatedPeerRole.executor FederatedPeerRole.replica = true
  role_less _ _ = false

  -- `FederatedPeerGrant::validate`.
  unfoldable pub validate_grant : FederatedPeerGrant → Result Error (Unit {0})
  unfolding nonzero unordered role_less
  validate_grant grant = do
    reject
        (grant.schema_version == 0
          || is_empty grant.roles
          || is_empty grant.scopes
          || grant.authority_epoch == 0
          || leb_ℤ grant.expires_at (pos 0))
        Error.grant_incomplete
    required grant.peer
    required grant.owner
    required grant.transport_identity
    required grant.created_by
    nonzero grant.grant_version Error.version_invalid
    reject
        (unordered role_less grant.roles
          || unordered string_less grant.scopes
          || unordered string_less grant.capabilities)
        Error.grant_unsorted

  unfoldable pub grant_reference : FederatedPeerGrant → Result Error Ref
  grant_reference grant = do validate_grant grant; g.grant grant

-- `RemoteDispatchAcceptance::validate_for`.
unfoldable pub validate_acceptance :
    RemoteDispatchAcceptance → RemoteExecutionLease → Result Error (Unit {0})
validate_acceptance acceptance lease = do
  reject
      (acceptance.schema_version == 0
        || acceptance.dispatch != lease.dispatch
        || acceptance.lease != lease.lease
        || acceptance.authority_epoch != lease.authority_epoch
        || acceptance.fence != lease.fence)
      Error.acceptance_unbound
  required acceptance.receipt
