-- ===== src/Execution/Remote/Tests.antt =====
-- The remote executor and its backend at concrete inputs.
use forme_agent.Base.{
  find, ◌+◌, ◌≤◌, false, List, [], ◌∷◌, none, some, ◌≡◌, ◌≢◌, ◌↔◌, refl, inl, ok, err, ℕ_discrete,
  arith, any, contains, string_eq,
}
use forme_agent.Base.Int.{pos}
use forme_agent.Base.Map.{lookup, insert, remove, values, string_ord, contains_key}
use forme_agent.Base.Members.{Member}
use forme_agent.Base.Text.{string_discrete, is_blank}
use forme_agent.Protocol.Kinds.{
  Ref, BackendKind, ActionType, ExpectedEffect, Source, Risk, backend_discrete,
  action_type_discrete,
}
use forme_agent.Policy.Path.{split, name_discrete}
use forme_agent.Protocol.Actions.{ActionParameters, FileOperation, RemoteHeader}
use forme_agent.Protocol.Remote.{
  RemoteOperation, RemotePlacementPlan, RemoteExecutionLease, RemoteLeaseState, RemoteAdmission,
  FederatedPeerRole, role_discrete, lease_state_discrete, RemoteProbeOutcome, spec_of,
}
use forme_agent.Execution.Ledger.{
  Error, required, is_empty, begin, complete, replay, validate_receipt, validate_record, Records,
  RemoteDriverReceipt, RemoteReceiptOutcome,
}
use forme_agent.Execution.Ledger.Queries.{receipt_for_lease, pending}
use forme_agent.Execution.Remote.{
  Digests, validate_admission, validate_lease, validate_plan, validate_operation,
  parameters_match_backend, contains_secret, contains_host_path, unsafe_path, plan_reference,
  grant_reference, validate_grant, validate_spec,
}
use forme_agent.Execution.Remote.Ledgers.{memory_ledger}
use forme_agent.Execution.Remote.Leases.{
  ExecutorCredentialBinding, new_resolver, bind, take, key_of, pair_ord, pair_discrete, slot_of,
  slot_ord, index_bindings,
}
use forme_agent.Execution.Remote.Executor.{
  ExecutorAdmissionProfile, Outside, ExecutorState, admit, prepare, execute, probe, receipt_from,
  start, finish, run, continued, plan_bound, lease_bound, operation_granted, run_of,
}
use forme_agent.Execution.Remote.Executor.Admission.{
  Admits, admission_of, admit_iff, admit-validate_admission,
}
use forme_agent.Execution.Remote.Executor.History.{
  dispatches, here, opened, opened-Inv, driver_once,
}
use forme_agent.Execution.Remote.Executor.Answers.{
  execute-Reach, execute_replays, probe-not_dispatched,
}
use forme_agent.Execution.Remote.Executor.Portable.{Portable}
use forme_agent.Execution.Remote.Executor.Safety.{execute-Portable}
use forme_agent.Execution.Remote.Dispatch
use forme_agent.Execution.Remote.Dispatch.{Surroundings, ExecutionPlan, BackendState, OutputBudget}
use forme_agent.Execution.Remote.Dispatch.Guards.{Cleared, sent-Cleared}
use forme_agent.Execution.Remote.Dispatch.OneShot.{
  Call, executes, run_calls, waiting, sent_for, binds_for, sent_bounded, bind_replaces,
}

abbrev digests : Digests
digests = record {
  operation = λ op. ok "sha256:operation";
  plan = λ p. ok "sha256:placement";
  grant = λ g. ok "grant:1";
  semantics = λ p l. ok "sha256:semantics";
}

abbrev operation : RemoteOperation
operation = record {
  schema_version = 1;
  backend = BackendKind.file;
  parameters = ActionParameters.file FileOperation.write "notes.txt" none;
  capability = "file.write";
  scope = "workspace";
  action_type = ActionType.write;
  expected_effect = ExpectedEffect.outward;
  rollback_boundary = "snapshot";
  credential_slot = none;
  digest = "sha256:operation";
}

abbrev plan : RemotePlacementPlan
plan = record {
  schema_version = 1;
  executor = "peer:1";
  peer_grant = "grant:1";
  grant_version = 1;
  authority_epoch = 1;
  executor_profile = "profile:1";
  operation = operation;
  digest = "sha256:placement";
}

abbrev lease : RemoteExecutionLease
lease = record {
  schema_version = 1;
  lease = "lease:1";
  dispatch = "dispatch:1";
  intent = "intent:1";
  plan_digest = "sha256:plan";
  placement = "sha256:placement";
  executor = "peer:1";
  peer_grant = "grant:1";
  grant_version = 1;
  authority_epoch = 1;
  fence = 2;
  expires_at = pos 50;
  state = RemoteLeaseState.acquired;
}

abbrev profile : ExecutorAdmissionProfile
profile = record {
  schema_version = 1;
  peer = "peer:1";
  grant = record {
    schema_version = 1;
    peer = "peer:1";
    owner = "owner";
    roles = FederatedPeerRole.executor ∷ [];
    scopes = "workspace" ∷ [];
    capabilities = "file.write" ∷ [];
    transport_identity = "sha256:tls";
    authority_epoch = 1;
    grant_version = 1;
    expires_at = pos 100;
    created_by = "owner:1";
  };
  profile = "profile:1";
  authority_epoch = 1;
  minimum_fence = 2;
  enabled_backends = BackendKind.file ∷ [];
}

abbrev admission : RemoteAdmission
admission = admission_of plan lease

abbrev outside : Outside Unit Ref
outside = record {
  resolve = λ peer scope slot. err Error.slot_missing;
  drive = λ op secret. ok (record {
    outcome = RemoteReceiptOutcome.completed;
    result_digest = none;
    observations = "evidence:1" ∷ [];
  });
  now = pos 20;
  at_begin = tt;
  at_complete = tt;
}

abbrev empty_ledger : Records
empty_ledger = []

abbrev idle : ExecutorState Records
idle = record { ledger = empty_ledger; cleared = []; runs = [] }

abbrev first_receipt : RemoteDriverReceipt
first_receipt =
    receipt_from admission
      (record {
        outcome = RemoteReceiptOutcome.completed;
        result_digest = none;
        observations = "evidence:1" ∷ [];
      })
      (pos 20)

admitted : admit digests profile (pos 20) plan lease ≡ ok admission
unfolding admit validate_plan validate_operation validate_lease required is_blank ℕ_discrete
    backend_discrete parameters_match_backend contains_secret contains_host_path unsafe_path any
    name_discrete string_discrete split lease_state_discrete plan_reference grant_reference
    validate_grant is_empty contains plan_bound lease_bound operation_granted role_discrete
admitted = refl

admit_iff_example :
    (admit digests profile (pos 20) plan lease ≡ ok (admission_of plan lease))
    ↔ Admits digests profile (pos 20) plan lease
admit_iff_example = admit_iff digests profile (pos 20) plan lease

admit-validate_admission_example : validate_admission digests admission ≡ ok tt
admit-validate_admission_example =
    admit-validate_admission digests profile (pos 20) plan lease admission admitted

executed : (execute digests memory_ledger outside admission idle).1 ≡ ok first_receipt
unfolding execute start prepare validate_admission validate_plan validate_operation validate_lease
    required is_blank ℕ_discrete backend_discrete parameters_match_backend contains_secret
    contains_host_path unsafe_path any name_discrete string_discrete split lease_state_discrete
    plan_reference finish receipt_from begin complete replay validate_receipt validate_record lookup
    insert run
executed = refl

prepared : prepare digests memory_ledger outside admission ≡ ok (none, "sha256:semantics")
unfolding prepare validate_admission validate_plan validate_operation validate_lease required
    is_blank ℕ_discrete backend_discrete parameters_match_backend contains_secret contains_host_path
    unsafe_path any name_discrete string_discrete split lease_state_discrete plan_reference
prepared = refl

ran_once : (execute digests memory_ledger outside admission idle).0.runs ≢ idle.runs
unfolding execute start prepare validate_admission validate_plan validate_operation validate_lease
    required is_blank ℕ_discrete backend_discrete parameters_match_backend contains_secret
    contains_host_path unsafe_path any name_discrete string_discrete split lease_state_discrete
    plan_reference finish receipt_from begin complete replay validate_receipt validate_record lookup
    insert run continued
ran_once h = ground (arith, h)

abbrev start_state : ExecutorState Records
start_state = opened digests memory_ledger Ref empty_ledger

driver_once_example :
    dispatches "dispatch:1" (execute digests memory_ledger outside admission start_state).0.runs ≤ 1
driver_once_example =
    driver_once digests memory_ledger Ref empty_ledger
      (execute digests memory_ledger outside admission start_state).0 "dispatch:1" tt
      (execute-Reach digests memory_ledger Ref outside admission start_state)

execute_replays_example :
    execute digests memory_ledger outside admission
      (execute digests memory_ledger outside admission idle).0
    ≡ ((execute digests memory_ledger outside admission idle).0, ok first_receipt)
unfolding opened
execute_replays_example =
    execute_replays digests memory_ledger Ref outside outside admission first_receipt idle
      (execute digests memory_ledger outside admission idle).0 none "sha256:semantics"
      (opened-Inv digests memory_ledger Ref empty_ledger tt) executed here prepared

not_there :
    (probe "lease:9" (execute digests memory_ledger outside admission start_state).0.ledger).outcome
    ≡ RemoteProbeOutcome.not_dispatched
unfolding probe receipt_for_lease pending find values opened execute start prepare
    validate_admission validate_plan validate_operation validate_lease required is_blank ℕ_discrete
    backend_discrete parameters_match_backend contains_secret contains_host_path unsafe_path any
    name_discrete string_discrete split lease_state_discrete plan_reference finish receipt_from
    begin complete replay validate_receipt validate_record lookup insert run continued
not_there = refl

was_run :
    Member (run_of admission) (execute digests memory_ledger outside admission start_state).0.runs
unfolding opened run_of execute start prepare validate_admission validate_plan validate_operation
    validate_lease required is_blank ℕ_discrete backend_discrete parameters_match_backend
    contains_secret contains_host_path unsafe_path any name_discrete string_discrete split
    lease_state_discrete plan_reference finish receipt_from begin complete replay validate_receipt
    validate_record lookup insert run continued
was_run = inl refl

probe-not_dispatched_example : (run_of admission).lease ≢ "lease:9"
probe-not_dispatched_example =
    probe-not_dispatched digests memory_ledger Ref empty_ledger
      (execute digests memory_ledger outside admission start_state).0 "lease:9" tt
      (execute-Reach digests memory_ledger Ref outside admission start_state) not_there
      (run_of admission) (inl was_run)

execute-Portable_example :
    (admission.lease.state ≡ RemoteLeaseState.acquired)
    × (admission.lease.placement ≡ admission.plan.digest)
    × Portable admission.plan.operation
execute-Portable_example = execute-Portable digests memory_ledger outside admission idle ran_once

abbrev header : RemoteHeader
header = record {
  spec_version = 1;
  plan_version = 1;
  executor = "peer:1";
  peer_grant = "grant:1";
  grant_version = 1;
  authority_epoch = 1;
  executor_profile = "profile:1";
  plan_digest = "sha256:placement";
  operation_version = 1;
  backend = BackendKind.file;
  capability = "file.write";
  scope = "workspace";
  action_type = ActionType.write;
  expected_effect = ExpectedEffect.outward;
  rollback_boundary = "snapshot";
  credential_slot = none;
  operation_digest = "sha256:operation";
}

abbrev execution_plan : ExecutionPlan
execution_plan = record {
  schema_version = 1;
  digest = "sha256:plan";
  intent = record {
    schema_version = 1;
    intent_id = "intent:1";
    source = Source.user_turn;
    goal = "goal:1";
    backend_hint = BackendKind.remote;
    capability_ref = "file.write";
    action_type = ActionType.write;
    scope = "workspace";
    risk_hint = Risk.high;
    expected_effect = ExpectedEffect.outward;
    rollback_expectation = "snapshot";
    parameters = ActionParameters.remote header operation.parameters;
    requested_permissions = [];
    requested_at = pos 1;
    estimated_output_bytes = 0;
    estimated_duration = 10;
  };
  backend = BackendKind.remote;
  scope = "workspace";
  approval_ref = some "approval:1";
  verify_ref = none;
  rollback_boundary = "snapshot";
  budget = record { schema_version = 1; max_bytes = 10; truncate = false };
  timeout = 10;
}

abbrev surroundings : Surroundings
surroundings = record {
  digest_plan = λ p. ok "sha256:plan";
  now = pos 20;
  is_cancelled = false;
  dispatch = λ p l. err Error.transport_failed;
  emit = λ e. ok tt;
}

abbrev one_bound : BackendState
one_bound = record {
  bindings = record { pending = (("intent:1", "sha256:plan"), lease) ∷ []; active = [] };
  sent = [];
  emitted = [];
}

went_out : (Dispatch.execute digests surroundings execution_plan one_bound).0.sent ≡ lease ∷ []
unfolding Dispatch.execute Dispatch.checked Dispatch.validate_plan_for Dispatch.backend_parameters
    Dispatch.remote_spec validate_spec spec_of validate_plan validate_operation validate_lease
    required is_blank ℕ_discrete backend_discrete parameters_match_backend contains_secret
    contains_host_path unsafe_path any name_discrete string_discrete split lease_state_discrete
    plan_reference lookup Dispatch.operation_fits Dispatch.effect_discrete action_type_discrete take
    remove insert Dispatch.dispatched Dispatch.lease_fits pair_discrete
went_out = refl

sent-Cleared_example : Cleared digests surroundings execution_plan one_bound lease
sent-Cleared_example = sent-Cleared digests surroundings execution_plan one_bound lease went_out

abbrev twice : List Call
twice = executes surroundings execution_plan ∷ executes surroundings execution_plan ∷ []

sent_bounded_example :
    waiting ("intent:1", "sha256:plan") (run_calls digests twice one_bound).bindings
      + sent_for ("intent:1", "sha256:plan") (run_calls digests twice one_bound).sent
    ≤ waiting ("intent:1", "sha256:plan") one_bound.bindings
      + sent_for ("intent:1", "sha256:plan") one_bound.sent
      + binds_for digests ("intent:1", "sha256:plan") twice
sent_bounded_example = sent_bounded digests ("intent:1", "sha256:plan") twice one_bound

lease_valid : validate_lease digests lease ≡ ok tt
unfolding validate_lease required is_blank ℕ_discrete
lease_valid = refl

bound_there : lookup (key_of lease) one_bound.bindings.pending ≡ some lease
unfolding lookup key_of pair_discrete string_discrete
bound_there = refl

bind_replaces_example :
    ((bind digests lease one_bound.bindings).1 ≡ err Error.lease_bound)
    × (lookup (key_of lease) (bind digests lease one_bound.bindings).0.pending ≡ some lease)
bind_replaces_example =
    bind_replaces digests lease lease one_bound.bindings lease_valid refl bound_there

abbrev slot_binding : ExecutorCredentialBinding
slot_binding = record { peer = "peer:1"; scope = "workspace"; slot = "api"; secret = "secret:1" }

resolver_made :
    new_resolver (slot_binding ∷ []) ≡ ok ((("peer:1", "workspace", "api"), "secret:1") ∷ [])
unfolding new_resolver index_bindings is_blank is_empty contains_key lookup insert slot_of
resolver_made = refl
