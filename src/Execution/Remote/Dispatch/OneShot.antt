-- ===== src/Execution/Remote/Dispatch/OneShot.antt =====
-- The lease bindings over any sequence of calls: a lease that is bound goes out once.
use forme_agent.Base.{
  ℕ, ◌+◌, ◌≤◌, List, [], ◌∷◌, Option, none, some, ◌≡◌, ap, ◌∙◌, string_eq, ok, err, ite, arith,
  Result-cases, Option-cases, inl, inr,
}
use forme_agent.Base.Map.{lookup, contains_key, string_ord, lookup-insert, lookup-remove}
use forme_agent.Protocol.Kinds.{Ref}
use forme_agent.Protocol.Remote.{RemoteExecutionLease, RemoteLeaseState, lease_state_eq}
use forme_agent.Execution.Ledger.{Error}
use forme_agent.Execution.Remote.{Digests, validate_lease}
use forme_agent.Execution.Remote.Leases.{Bindings, pair_ord, pair_discrete, key_of, bind, take}
use forme_agent.Execution.Remote.Dispatch.{Surroundings, ExecutionPlan, BackendState, execute}
use forme_agent.Execution.Remote.Dispatch.Guards.{
  SentOutcome, stays, takes, sends, execute-SentOutcome,
}

-- One, if the key is the same.
hit : Ref × Ref → Ref × Ref → ℕ
hit k j = ite (pair_discrete j k) 1 0

unfoldable pub sent_for : Ref × Ref → List RemoteExecutionLease → ℕ
unfolding hit
sent_for k [] = 0
sent_for k (x ∷ xs) = hit k (key_of x) + sent_for k xs

bound_for : Option RemoteExecutionLease → ℕ
bound_for none = 0
bound_for (some _) = 1

-- How many leases for the pair may still go out.
unfoldable pub waiting : Ref × Ref → Bindings → ℕ
unfolding bound_for
waiting k s = bound_for (lookup k s.pending)

pub data Call : Type 0 where
  binds : RemoteExecutionLease → Call
  executes : Surroundings → ExecutionPlan → Call

same_key :
    (k : Ref × Ref) (lease : RemoteExecutionLease) (intent plan : Ref)
    → lease.intent ≡ intent
    → lease.plan_digest ≡ plan
    → hit k (key_of lease) ≡ hit k (intent, plan)
unfolding key_of
same_key k lease intent plan p q =
    ap (λ i. hit k (i, lease.plan_digest)) p ∙ ap (λ d. hit k (intent, d)) q

module _ (g : Digests) where
  unfoldable pub after : Call → BackendState → BackendState
  after (binds lease) s = record s { bindings = (bind g lease s.bindings).0 }
  after (executes w plan) s = (execute g w plan s).0

  unfoldable pub run_calls : List Call → BackendState → BackendState
  unfolding after
  run_calls [] s = s
  run_calls (c ∷ cs) s = run_calls cs (after c s)

  -- The calls of `bind` for the pair.
  unfoldable pub binds_for : Ref × Ref → List Call → ℕ
  unfolding hit
  binds_for k [] = 0
  binds_for k (binds lease ∷ cs) = hit k (key_of lease) + binds_for k cs
  binds_for k (executes _ _ ∷ cs) = binds_for k cs

  waiting-bind :
      (k : Ref × Ref) (lease : RemoteExecutionLease) (s : Bindings)
      → waiting k (bind g lease s).0 ≤ waiting k s + hit k (key_of lease)
  unfolding bind waiting hit bound_for
  waiting-bind k lease s = elim (Result-cases (validate_lease g lease)) [
    | inr (e, p) ↦ ground (arith, p)
    | inl (tt, p) ↦ ground (arith, p, lookup-insert k (key_of lease) lease s.pending)
  ]

  waiting-take :
      (k : Ref × Ref) (intent plan : Ref) (s : Bindings) (lease : RemoteExecutionLease)
      → lookup (intent, plan) s.pending ≡ some lease
      → waiting k (take intent plan s).0 + hit k (intent, plan) ≡ waiting k s
  unfolding take waiting hit bound_for
  waiting-take k intent plan s lease e = ground (arith, e, lookup-remove k (intent, plan) s.pending)

  take_fewer :
      (k : Ref × Ref) (intent plan : Ref) (s : Bindings)
      → waiting k (take intent plan s).0 ≤ waiting k s
  unfolding take waiting bound_for
  take_fewer k intent plan s = elim (Option-cases (lookup (intent, plan) s.pending)) [
    | inl n ↦ ground (arith, n, lookup-remove k (intent, plan) s.pending)
    | inr (lease, e) ↦ ground (arith, e, lookup-remove k (intent, plan) s.pending)
  ]

  sent_key :
      (k : Ref × Ref) (w : Surroundings) (plan : ExecutionPlan) (s : BackendState)
      → waiting k (execute g w plan s).0.bindings + sent_for k (execute g w plan s).0.sent
        ≤ waiting k s.bindings + sent_for k s.sent
  unfolding sent_for
  sent_key k w plan s = split (execute-SentOutcome g w plan s)
    where
      split :
          SentOutcome g w plan s
          → waiting k (execute g w plan s).0.bindings + sent_for k (execute g w plan s).0.sent
            ≤ waiting k s.bindings + sent_for k s.sent
      split (stays p) = ground (arith, p)
      split (takes p q) =
          ground (arith, p, q, take_fewer k plan.intent.intent_id plan.digest s.bindings)
      split (sends lease c p q) =
          let one = waiting-take k plan.intent.intent_id plan.digest s.bindings lease c.bound in
          let key : hit k (key_of lease) ≡ hit k (plan.intent.intent_id, plan.digest) =
            same_key k lease plan.intent.intent_id plan.digest c.fits.intent c.fits.plan_digest in
          ground (arith, p, q, one, key)

  -- From any state: over any calls of `bind` and `execute`, the plans that go out for an intent and a
  -- plan digest are at most those that went out before, the lease that was bound, and the calls of
  -- `bind` for the pair.
  pub sent_bounded :
      (k : Ref × Ref) (cs : List Call) (s : BackendState)
      → waiting k (run_calls cs s).bindings + sent_for k (run_calls cs s).sent
        ≤ waiting k s.bindings + sent_for k s.sent + binds_for k cs
  unfolding run_calls binds_for
  sent_bounded k [] s = omega arith
  sent_bounded k (binds lease ∷ cs) s =
      omega (arith, sent_bounded k cs (after (binds lease) s), waiting-bind k lease s.bindings)
  sent_bounded k (executes w plan ∷ cs) s =
      omega (arith, sent_bounded k cs (after (executes w plan) s), sent_key k w plan s)

  -- Where a lease waits for the intent and the plan digest of an acquired, valid one, `bind` of that
  -- one reports that the pair is bound, and yet the new lease takes the place of the old.
  pub bind_replaces :
      (lease old : RemoteExecutionLease) (s : Bindings)
      → validate_lease g lease ≡ ok tt
      → lease.state ≡ RemoteLeaseState.acquired
      → lookup (key_of lease) s.pending ≡ some old
      → ((bind g lease s).1 ≡ err Error.lease_bound)
        × (lookup (key_of lease) (bind g lease s).0.pending ≡ some lease)
  unfolding bind contains_key
  bind_replaces lease old s v a e = (
    ground (arith, v, a, e),
    ground (arith, v, a, lookup-insert (key_of lease) (key_of lease) lease s.pending),
  )
