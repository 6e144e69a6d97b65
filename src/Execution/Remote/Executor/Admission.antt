-- ===== src/Execution/Remote/Executor/Admission.antt =====
-- What the executor admits.
use forme_agent.Base.{
  ◌≤◌, true, false, ◌≡◌, ◌↔◌, sym, subst, ok, arith, Result-cases, inl, inr, string_eq, nat_eq,
}
use forme_agent.Base.Int.{leb_ℤ}
use forme_agent.Base.Members.{Member, contains-Member, Member-contains}
use forme_agent.Protocol.Kinds.{Ref, Timestamp, backend_eq}
use forme_agent.Protocol.Remote.{
  RemoteOperation, RemotePlacementPlan, RemoteExecutionLease, RemoteLeaseState, lease_state_eq,
  RemoteAdmission,
}
use forme_agent.Execution.Ledger.{required}
use forme_agent.Execution.Remote.{
  Digests, nonzero, validate_plan, validate_lease, validate_admission, plan_reference,
  grant_reference,
}
use forme_agent.Execution.Remote.Executor.{
  ExecutorAdmissionProfile, admit, plan_bound, lease_bound, operation_granted,
}

pub record PlanBound (profile : ExecutorAdmissionProfile) (grant_ref : Ref)
    (plan : RemotePlacementPlan) : Type 0 where
  pub executor : plan.executor ≡ profile.peer
  pub grant : plan.peer_grant ≡ grant_ref
  pub version : plan.grant_version ≡ profile.grant.grant_version
  pub epoch : plan.authority_epoch ≡ profile.authority_epoch
  pub profile_ref : plan.executor_profile ≡ profile.profile

pub record LeaseBound (profile : ExecutorAdmissionProfile) (now : Timestamp)
    (plan : RemotePlacementPlan) (lease : RemoteExecutionLease) : Type 0 where
  pub executor : lease.executor ≡ plan.executor
  pub grant : lease.peer_grant ≡ plan.peer_grant
  pub version : lease.grant_version ≡ plan.grant_version
  pub epoch : lease.authority_epoch ≡ plan.authority_epoch
  pub fence : profile.minimum_fence ≤ lease.fence
  pub placement : lease.placement ≡ plan.digest
  pub state : lease.state ≡ RemoteLeaseState.acquired
  pub unexpired : leb_ℤ lease.expires_at now ≡ false

pub record OperationGranted (profile : ExecutorAdmissionProfile) (operation : RemoteOperation)
    : Type 0 where
  pub backend : Member operation.backend profile.enabled_backends
  pub scope : Member operation.scope profile.grant.scopes
  pub capability : Member operation.capability profile.grant.capabilities

-- All that `admit` asks for.
pub record Admits (g : Digests) (profile : ExecutorAdmissionProfile) (now : Timestamp)
    (plan : RemotePlacementPlan) (lease : RemoteExecutionLease) : Type 0 where
  pub plan_valid : validate_plan g plan ≡ ok tt
  pub lease_valid : validate_lease g lease ≡ ok tt
  pub grant_ref : Ref
  pub grant : grant_reference g profile.grant ≡ ok grant_ref
  pub plan_fits : PlanBound profile grant_ref plan
  pub lease_fits : LeaseBound profile now plan lease
  pub operation : OperationGranted profile plan.operation

plan_bound-PlanBound :
    (profile : ExecutorAdmissionProfile) (r : Ref) (plan : RemotePlacementPlan)
    → (plan_bound profile r plan ≡ true) ↔ PlanBound profile r plan
unfolding plan_bound
plan_bound-PlanBound profile r plan = (
  λ h. record {
    executor = ground arith;
    grant = ground arith;
    version = ground arith;
    epoch = ground arith;
    profile_ref = ground arith;
  },
  λ b. ground (arith, b.executor, b.grant, b.version, b.epoch, b.profile_ref),
)

lease_bound-LeaseBound :
    (profile : ExecutorAdmissionProfile) (now : Timestamp) (plan : RemotePlacementPlan)
    (lease : RemoteExecutionLease)
    → (lease_bound profile now plan.digest plan lease ≡ true) ↔ LeaseBound profile now plan lease
unfolding lease_bound
lease_bound-LeaseBound profile now plan lease = (
  λ h. record {
    executor = ground arith;
    grant = ground arith;
    version = ground arith;
    epoch = ground arith;
    fence = ground arith;
    placement = ground arith;
    state = ground arith;
    unexpired = ground arith;
  },
  λ b.
      ground (
        arith, b.executor, b.grant, b.version, b.epoch, b.fence, b.placement, b.state, b.unexpired,
      ),
)

operation_granted-OperationGranted :
    (profile : ExecutorAdmissionProfile) (op : RemoteOperation)
    → (operation_granted profile op ≡ true) ↔ OperationGranted profile op
unfolding operation_granted
operation_granted-OperationGranted profile op = (
  λ h. record {
    backend = contains-Member profile.enabled_backends op.backend (ground arith);
    scope = contains-Member profile.grant.scopes op.scope (ground arith);
    capability = contains-Member profile.grant.capabilities op.capability (ground arith);
  },
  λ b. ground (
    arith,
    Member-contains profile.enabled_backends op.backend b.backend,
    Member-contains profile.grant.scopes op.scope b.scope,
    Member-contains profile.grant.capabilities op.capability b.capability,
  ),
)

-- What `admit` gives.
abbrev pub admission_of : RemotePlacementPlan → RemoteExecutionLease → RemoteAdmission
admission_of plan lease = record {
  schema_version = 1;
  admission = lease.dispatch;
  plan = plan;
  lease = lease;
}

module _ (g : Digests) where
  plan_reference_valid :
      (plan : RemotePlacementPlan)
      → validate_plan g plan ≡ ok tt
      → plan_reference g plan ≡ ok plan.digest
  unfolding plan_reference
  plan_reference_valid plan h = ground (arith, h)

  -- The tests of `admit` that passed.
  record Passes (profile : ExecutorAdmissionProfile) (now : Timestamp) (plan : RemotePlacementPlan)
      (lease : RemoteExecutionLease) (a : RemoteAdmission) : Type 0 where
    plan_valid : validate_plan g plan ≡ ok tt
    lease_valid : validate_lease g lease ≡ ok tt
    grant_ref : Ref
    grant : grant_reference g profile.grant ≡ ok grant_ref
    plan_fits : plan_bound profile grant_ref plan ≡ true
    lease_fits : lease_bound profile now plan.digest plan lease ≡ true
    operation : operation_granted profile plan.operation ≡ true
    result : a ≡ admission_of plan lease

  admit-Passes :
      (profile : ExecutorAdmissionProfile) (now : Timestamp) (plan : RemotePlacementPlan)
      (lease : RemoteExecutionLease) (a : RemoteAdmission)
      → admit g profile now plan lease ≡ ok a
      → Passes profile now plan lease a
  unfolding admit
  admit-Passes profile now plan lease a h = elim (Result-cases (validate_plan g plan)) [
    | inr (e, p) ↦ absurd (ground (arith, p, h))
    | inl (tt, p) ↦ elim (Result-cases (validate_lease g lease)) [
      | inr (e, q) ↦ absurd (ground (arith, p, q, h))
      | inl (tt, q) ↦ elim (Result-cases (grant_reference g profile.grant)) [
        | inr (e, r) ↦ absurd (ground (arith, p, q, r, h))
        | inl (grant_ref, r) ↦ record {
          plan_valid = p;
          lease_valid = q;
          grant_ref = grant_ref;
          grant = r;
          plan_fits = ground (arith, p, q, r, plan_reference_valid plan p, h);
          lease_fits = ground (arith, p, q, r, plan_reference_valid plan p, h);
          operation = ground (arith, p, q, r, plan_reference_valid plan p, h);
          result = ground (arith, p, q, r, plan_reference_valid plan p, h);
        }
      ]
    ]
  ]

  -- `admit` succeeds exactly when plan and lease are valid, the plan names this executor with its
  -- grant, epoch and profile, the lease is for that plan, acquired, unexpired and not fenced off, and
  -- the backend, scope and capability of the operation are granted.
  pub admit_iff :
      (profile : ExecutorAdmissionProfile) (now : Timestamp) (plan : RemotePlacementPlan)
      (lease : RemoteExecutionLease)
      → (admit g profile now plan lease ≡ ok (admission_of plan lease))
        ↔ Admits g profile now plan lease
  unfolding admit
  admit_iff profile now plan lease = (
    λ h.
        let x = admit-Passes profile now plan lease (admission_of plan lease) h in
        record {
          plan_valid = x.plan_valid;
          lease_valid = x.lease_valid;
          grant_ref = x.grant_ref;
          grant = x.grant;
          plan_fits = (plan_bound-PlanBound profile x.grant_ref plan).0 x.plan_fits;
          lease_fits = (lease_bound-LeaseBound profile now plan lease).0 x.lease_fits;
          operation = (operation_granted-OperationGranted profile plan.operation).0 x.operation;
        },
    λ b. ground (
      arith,
      b.plan_valid,
      b.lease_valid,
      b.grant,
      plan_reference_valid plan b.plan_valid,
      (plan_bound-PlanBound profile b.grant_ref plan).1 b.plan_fits,
      (lease_bound-LeaseBound profile now plan lease).1 b.lease_fits,
      (operation_granted-OperationGranted profile plan.operation).1 b.operation,
    ),
  )

  valid-dispatch :
      (lease : RemoteExecutionLease)
      → validate_lease g lease ≡ ok tt
      → required lease.dispatch ≡ ok tt
  unfolding validate_lease
  valid-dispatch lease h = ground arith

  -- What `admit` returns passes the check that `execute` starts with.
  pub admit-validate_admission :
      (profile : ExecutorAdmissionProfile) (now : Timestamp) (plan : RemotePlacementPlan)
      (lease : RemoteExecutionLease) (a : RemoteAdmission)
      → admit g profile now plan lease ≡ ok a
      → validate_admission g a ≡ ok tt
  unfolding validate_admission nonzero
  admit-validate_admission profile now plan lease a h =
      let x = admit-Passes profile now plan lease a h in
      let b = (lease_bound-LeaseBound profile now plan lease).0 x.lease_fits in
      let valid : validate_admission g (admission_of plan lease) ≡ ok tt = ground (
        arith,
        x.plan_valid,
        x.lease_valid,
        plan_reference_valid plan x.plan_valid,
        b.state,
        b.placement,
        valid-dispatch lease x.lease_valid,
      ) in
      subst (λ y. validate_admission g y ≡ ok tt) (sym x.result) valid
