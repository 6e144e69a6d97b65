-- ===== src/Execution/Remote/Dispatch/Guards.antt =====
-- When the backend hands a plan to the transport.
use forme_agent.Base.{
  true, false, List, ◌∷◌, none, some, ◌≡◌, ◌≢◌, inl, inr, refl, sym, ap, ◌∙◌, subst, string_eq,
  Result, ok, err, arith, Result-cases, Bool-cases, Option-cases, nat_eq, length,
}
use forme_agent.Base.Int.{leb_ℤ}
use forme_agent.Base.Map.{lookup, string_ord}
use forme_agent.Protocol.Kinds.{Ref, Timestamp, BackendKind, backend_eq}
use forme_agent.Protocol.Remote.{
  RemoteActionSpec, RemoteExecutionLease, RemotePlacementPlan, RemoteLeaseState,
  RemoteDispatchAcceptance,
}
use forme_agent.Execution.Ledger.{Error}
use forme_agent.Execution.Remote.{Digests, plan_reference, validate_acceptance}
use forme_agent.Execution.Remote.Leases.{pair_ord, take}
use forme_agent.Execution.Remote.Dispatch.{
  Surroundings, ExecutionPlan, BackendState, validate_plan_for, remote_spec, checked, lease_fits,
  emitted, started_event, ActionStartedPayload, accepted, dispatched, taken, execute,
}

pub record LeaseFits (now : Timestamp) (plan : ExecutionPlan) (placement : RemotePlacementPlan)
    (reference : Ref) (lease : RemoteExecutionLease) : Type 0 where
  pub state : lease.state ≡ RemoteLeaseState.acquired
  pub intent : lease.intent ≡ plan.intent.intent_id
  pub plan_digest : lease.plan_digest ≡ plan.digest
  pub placement_ref : lease.placement ≡ reference
  pub executor : lease.executor ≡ placement.executor
  pub peer_grant : lease.peer_grant ≡ placement.peer_grant
  pub grant_version : lease.grant_version ≡ placement.grant_version
  pub authority_epoch : lease.authority_epoch ≡ placement.authority_epoch
  pub unexpired : leb_ℤ lease.expires_at now ≡ false

pub lease_fits-LeaseFits :
    (now : Timestamp) (plan : ExecutionPlan) (placement : RemotePlacementPlan) (reference : Ref)
    (lease : RemoteExecutionLease)
    → lease_fits now plan placement reference lease ≡ true
    → LeaseFits now plan placement reference lease
unfolding lease_fits
lease_fits-LeaseFits now plan placement reference lease h = record {
  state = ground arith;
  intent = ground arith;
  plan_digest = ground arith;
  placement_ref = ground arith;
  executor = ground arith;
  peer_grant = ground arith;
  grant_version = ground arith;
  authority_epoch = ground arith;
  unexpired = ground arith;
}

longer : {A : Type 0} (x : A) (xs : List A) → x ∷ xs ≢ xs
longer x xs h = absurd (ground (arith, ap length h))

module _ (g : Digests) where
  -- What holds when `lease` goes out for `plan`.
  pub record Cleared (w : Surroundings) (plan : ExecutionPlan) (s : BackendState)
      (lease : RemoteExecutionLease) : Type 0 where
    pub spec : RemoteActionSpec
    pub plan_valid : validate_plan_for w.digest_plan plan BackendKind.remote ≡ ok tt
    pub spec_of_plan : remote_spec g plan.intent ≡ ok spec
    pub approved : plan.approval_ref ≢ none
    pub running : w.is_cancelled ≡ false
    pub bound : lookup (plan.intent.intent_id, plan.digest) s.bindings.pending ≡ some lease
    pub fits : LeaseFits w.now plan spec.placement spec.placement.digest lease

  record Checks (w : Surroundings) (plan : ExecutionPlan) (spec : RemoteActionSpec) : Type 0 where
    valid : validate_plan_for w.digest_plan plan BackendKind.remote ≡ ok tt
    from_plan : remote_spec g plan.intent ≡ ok spec
    approved : plan.approval_ref ≢ none
    running : w.is_cancelled ≡ false

  checked-Checks :
      (w : Surroundings) (plan : ExecutionPlan) (spec : RemoteActionSpec)
      → checked g w plan ≡ ok spec
      → Checks w plan spec
  unfolding checked
  checked-Checks w plan spec h =
      elim (Result-cases (validate_plan_for w.digest_plan plan BackendKind.remote)) [
        | inr (e, p) ↦ absurd (ground (arith, p, h))
        | inl (tt, p) ↦ elim (Result-cases (remote_spec g plan.intent)) [
          | inr (e, q) ↦ absurd (ground (arith, p, q, h))
          | inl (found, q) ↦
              let same : found ≡ spec = ground (arith, p, q, h) in
              record {
                valid = p;
                from_plan = q ∙ ap ok same;
                approved = λ n. ground (arith, p, q, h, n);
                running = ground (arith, p, q, h);
              }
        ]
      ]

  plan_reference_digest :
      (plan : RemotePlacementPlan) (r : Ref) → plan_reference g plan ≡ ok r → r ≡ plan.digest
  unfolding plan_reference
  plan_reference_digest plan r h = ground arith

  -- Nothing goes out, or the lease that was taken does.
  pub data SentOutcome (w : Surroundings) (plan : ExecutionPlan) (s : BackendState) : Type 0 where
    stays : (execute g w plan s).0 ≡ s → SentOutcome w plan s
    takes :
        (execute g w plan s).0.sent ≡ s.sent
        → (execute g w plan s).0.bindings ≡ (take plan.intent.intent_id plan.digest s.bindings).0
        → SentOutcome w plan s
    sends :
        (lease : RemoteExecutionLease)
        → Cleared w plan s lease
        → (execute g w plan s).0.sent ≡ lease ∷ s.sent
        → (execute g w plan s).0.bindings ≡ (take plan.intent.intent_id plan.digest s.bindings).0
        → SentOutcome w plan s

  emitted_sent :
      (event : ActionStartedPayload) (s : BackendState) (r : Result Error (Unit {0}))
      → ((emitted g event s r).sent ≡ s.sent) × ((emitted g event s r).bindings ≡ s.bindings)
  unfolding emitted
  emitted_sent event s (ok _) = (refl, refl)
  emitted_sent event s (err e) = (refl, refl)

  accepted_sent :
      (w : Surroundings) (plan : ExecutionPlan) (lease : RemoteExecutionLease) (s : BackendState)
      (answer : Result Error RemoteDispatchAcceptance)
      → ((accepted g w plan lease s answer).0.sent ≡ s.sent)
        × ((accepted g w plan lease s answer).0.bindings ≡ s.bindings)
  unfolding accepted
  accepted_sent w plan lease s (err e) = (refl, refl)
  accepted_sent w plan lease s (ok acceptance) =
      elim (Result-cases (validate_acceptance acceptance lease)) [
        | inr (e, p) ↦ (ground (arith, p), ground (arith, p))
        | inl (_, p) ↦ (
          ground (
            arith,
            p,
            (emitted_sent (started_event g plan lease) s (w.emit (started_event g plan lease))).0,
          ),
          ground (
            arith,
            p,
            (emitted_sent (started_event g plan lease) s (w.emit (started_event g plan lease))).1,
          ),
        )
      ]

  taken_outcome :
      (w : Surroundings) (plan : ExecutionPlan) (spec : RemoteActionSpec) (s : BackendState)
      → checked g w plan ≡ ok spec
      → SentOutcome w plan s
  unfolding execute taken dispatched take
  taken_outcome w plan spec s h =
      let c = checked-Checks w plan spec h in
      elim (Option-cases (lookup (plan.intent.intent_id, plan.digest) s.bindings.pending)) [
        | inl n ↦ takes (ground (arith, h, n)) (ground (arith, h, n))
        | inr (lease, f) ↦ elim (Result-cases (plan_reference g spec.placement)) [
          | inr (e, p) ↦ takes (ground (arith, h, f, p)) (ground (arith, h, f, p))
          | inl (reference, p) ↦
              elim (Bool-cases (lease_fits w.now plan spec.placement reference lease)) [
                | inr b ↦ takes (ground (arith, h, f, p, b)) (ground (arith, h, f, p, b))
                | inl b ↦
                    let out =
                      accepted_sent w plan lease
                        (record s {
                          bindings = (take plan.intent.intent_id plan.digest s.bindings).0;
                          sent = lease ∷ s.sent;
                        })
                        (w.dispatch spec.placement lease) in
                    sends lease
                      (record {
                        spec = spec;
                        plan_valid = c.valid;
                        spec_of_plan = c.from_plan;
                        approved = c.approved;
                        running = c.running;
                        bound = f;
                        fits =
                            subst (λ r. LeaseFits w.now plan spec.placement r lease)
                              (plan_reference_digest spec.placement reference p)
                              (lease_fits-LeaseFits w.now plan spec.placement reference lease b);
                      })
                      (ground (arith, h, f, p, b, out.0)) (ground (arith, h, f, p, b, out.1))
              ]
        ]
      ]

  pub execute-SentOutcome :
      (w : Surroundings) (plan : ExecutionPlan) (s : BackendState) → SentOutcome w plan s
  unfolding execute
  execute-SentOutcome w plan s = elim (Result-cases (checked g w plan)) [
    | inr (e, h) ↦ stays (ground (arith, h))
    | inl (spec, h) ↦ taken_outcome w plan spec s h
  ]

  -- A lease that `execute` hands to the transport is the one bound to the intent and the digest of
  -- the plan; the plan is valid, approved and not cancelled, its operation is the one of the intent,
  -- and the lease is acquired, unexpired and for the same placement, executor, grant and epoch.
  pub sent-Cleared :
      (w : Surroundings) (plan : ExecutionPlan) (s : BackendState) (lease : RemoteExecutionLease)
      → (execute g w plan s).0.sent ≡ lease ∷ s.sent
      → Cleared w plan s lease
  sent-Cleared w plan s lease h = split (execute-SentOutcome w plan s)
    where
      split : SentOutcome w plan s → Cleared w plan s lease
      split (stays p) = absurd (longer lease s.sent (sym h ∙ ap (λ x. x.sent) p))
      split (takes p q) = absurd (longer lease s.sent (sym h ∙ p))
      split (sends other c p q) = subst (Cleared w plan s) (ground (arith, p, h)) c
