-- ===== src/Execution/Remote/Executor/Safety.antt =====
-- What the guarded executor gives to its driver.
use forme_agent.Base.{Option, ◌≡◌, ◌≢◌, ok, arith, Result-cases, inl, inr, string_eq, nat_eq}
use forme_agent.Protocol.Kinds.{Ref, backend_eq}
use forme_agent.Protocol.Remote.{
  RemoteAdmission, RemotePlacementPlan, RemoteLeaseState, lease_state_eq,
}
use forme_agent.Execution.Remote.{
  Digests, validate_operation, validate_plan, validate_admission, plan_reference,
}
use forme_agent.Execution.Remote.Executor.Portable.{Portable, valid-Portable}
use forme_agent.Execution.Remote.Ledgers.{ReplayLedger}
use forme_agent.Execution.Remote.Executor.{Outside, ExecutorState, prepare, start, execute}

module _ (g : Digests) where
  plan-valid :
      (plan : RemotePlacementPlan)
      → validate_plan g plan ≡ ok tt
      → validate_operation g plan.operation ≡ ok tt
  unfolding validate_plan
  plan-valid plan h = ground arith

  admission-valid :
      (a : RemoteAdmission)
      → validate_admission g a ≡ ok tt
      → (validate_plan g a.plan ≡ ok tt)
        × (a.lease.state ≡ RemoteLeaseState.acquired)
        × (a.lease.placement ≡ a.plan.digest)
  unfolding validate_admission plan_reference
  admission-valid a h = (ground arith, ground arith, ground arith)

  prepared-valid :
      (l : ReplayLedger) {Secret : Type 0} (o : Outside l.World Secret) (a : RemoteAdmission)
      (x : Option Secret × Ref)
      → prepare g l o a ≡ ok x
      → validate_admission g a ≡ ok tt
  unfolding prepare
  prepared-valid l o a x h = ground arith

  -- When a call of `execute` runs the driver, the lease of its admission is acquired and for its
  -- plan, and the operation that is run is for a backend other than `Remote`, the one that its
  -- parameters are for. They refer to no secret and no credential of an app, and the file or the
  -- working directory that they name is a relative path without a component `..`. Programs, their
  -- arguments, texts and the environment of an MCP server are not looked at.
  pub execute-Portable :
      (l : ReplayLedger) {Secret : Type 0} (o : Outside l.World Secret) (a : RemoteAdmission)
      (s : ExecutorState l.State)
      → (execute g l o a s).0.runs ≢ s.runs
      → (a.lease.state ≡ RemoteLeaseState.acquired)
        × (a.lease.placement ≡ a.plan.digest)
        × Portable a.plan.operation
  unfolding execute start
  execute-Portable l o a s h = elim (Result-cases (prepare g l o a)) [
    | inr (e, p) ↦ absurd (h (ground (arith, p)))
    | inl (x, p) ↦
        let (valid, acquired, bound) = admission-valid a (prepared-valid l o a x p) in
        (acquired, bound, valid-Portable g a.plan.operation (plan-valid a.plan valid))
  ]
