-- ===== src/Coordination/Runtime/Attempts.antt =====
-- A node is started at most as often as its retry policy allows, and at least once.
use forme_agent.Base.{
  ℕ, String, Bool, List, [], ◌∷◌, some, Result, ok, err, ◌≡◌, ◌⊎◌, inl, inr, sym, subst, arith,
  string_eq, ◌+◌, ◌≤◌, ◌<◌, ◌%◌, ◌^◌, max,
}
use forme_agent.Base.Map.{lookup, insert, string_ord, lookup-insert, Distinct}
use forme_agent.Base.Text.{string_discrete}
use forme_agent.Protocol.Kinds.{Ref}
use forme_agent.Coordination.Route.{
  RouteNode, ExecutionRoute, NodeState, RouteStatus, Error, policy_eq,
}
use forme_agent.Coordination.Budget.{or_zero}
use forme_agent.Coordination.Runtime.{
  RouteRuntime, fresh, start, started, complete, fail, retry, retry_fresh, mark, cancel_parent,
  cancel_unfinished, node,
}
use forme_agent.Coordination.Runtime.Start.{StartOutcome, refused, begun, start-StartOutcome}
use forme_agent.Coordination.Runtime.Calls.{
  Call, starts, completes, fails, retries_node, cancels_parent, step, run, step-Follows,
  run-Follows,
}
use forme_agent.Coordination.Runtime.Moves.{Moves-Distinct}
use forme_agent.Coordination.Runtime.Order.{fresh-Distinct}
use forme_agent.Coordination.Runtime.Quiet.{
  attempts_of, allowed_starts, Bounded, Quiet-Bounded, Quiet-trans, cancel-Quiet, with_status,
  complete-Quiet, fail-Quiet,
}

-- The route's limits fit into 32 bits.
abbrev pub Narrow : RouteRuntime → Type 0
Narrow s = (k : String) → allowed_starts s k < 2 ^ 32

start-Bounded : (id : String) (s : RouteRuntime) → Narrow s → Bounded s → Bounded (start id s).0
unfolding started attempts_of or_zero allowed_starts node
start-Bounded id s w b = split (start-StartOutcome id s)
  where
    counted :
        (k : String) (limit : ℕ)
        → limit < 2 ^ 32
        → lookup id s.states ≡ some NodeState.pending
        → (attempts_of k s ≤ limit)
          × (lookup k s.states ≡ some NodeState.pending → attempts_of k s < limit)
        → (or_zero (lookup k (insert id ((or_zero (lookup id s.attempts) + 1) % 2 ^ 32) s.attempts))
            ≤ limit)
          × (lookup k (insert id NodeState.running s.states) ≡ some NodeState.pending
              → or_zero
                  (lookup k (insert id ((or_zero (lookup id s.attempts) + 1) % 2 ^ 32) s.attempts))
                < limit)
    counted k limit w p (most, less) = (
      ground (
        arith,
        w,
        p,
        most,
        less,
        lookup-insert k id ((or_zero (lookup id s.attempts) + 1) % 2 ^ 32) s.attempts,
      ),
      (λ h. ground (
        arith,
        h,
        less,
        lookup-insert k id ((or_zero (lookup id s.attempts) + 1) % 2 ^ 32) s.attempts,
        lookup-insert k id NodeState.running s.states,
      )),
    )

    split : StartOutcome id s → Bounded (start id s).0
    split (refused e r) = subst (λ x. Bounded x.0) (sym r) b
    split (begun n amount p r) =
        subst (λ x. Bounded x.0) (sym r)
          (λ k. counted k (allowed_starts s k) (w k) p.node_pending (b k))

retry_effect :
    (id : String) (intent : Ref) (absent : Bool) (s : RouteRuntime)
    → ((retry id intent absent s).0.attempts ≡ s.attempts)
      × ((retry id intent absent s).0.route ≡ s.route)
      × (((retry id intent absent s).0.states ≡ s.states)
          ⊎ ((retry id intent absent s).0.states ≡ insert id NodeState.outcome_unknown s.states)
          ⊎ (((retry id intent absent s).0.states ≡ insert id NodeState.pending s.states)
              × (attempts_of id s < allowed_starts s id)))
unfolding retry retry_fresh mark attempts_of allowed_starts node
retry_effect id intent absent s = (ground arith, ground arith, ground arith)

retry-Bounded :
    (id : String) (intent : Ref) (absent : Bool) (s : RouteRuntime)
    → Bounded s
    → Bounded (retry id intent absent s).0
unfolding attempts_of allowed_starts node
retry-Bounded id intent absent s b k =
    let (attempts, route, states) = retry_effect id intent absent s in
    (
      ground (arith, (b k).0, attempts, route),
      (λ h. put_back (retry id intent absent s).0 attempts route states h),
    )
  where
    again :
        (t : RouteRuntime)
        → t.attempts ≡ s.attempts
        → t.route ≡ s.route
        → id ≡ k
        → attempts_of id s < allowed_starts s id
        → attempts_of k t < allowed_starts t k
    again t a r p few =
        let here : attempts_of k s < allowed_starts s k =
          subst (λ j. attempts_of j s < allowed_starts s j) p few in
        ground (arith, a, r, here)

    put_back :
        (t : RouteRuntime)
        → t.attempts ≡ s.attempts
        → t.route ≡ s.route
        → (t.states ≡ s.states)
          ⊎ (t.states ≡ insert id NodeState.outcome_unknown s.states)
          ⊎ ((t.states ≡ insert id NodeState.pending s.states)
              × (attempts_of id s < allowed_starts s id))
        → lookup k t.states ≡ some NodeState.pending
        → attempts_of k t < allowed_starts t k
    put_back t a r (inl e) h = ground (arith, a, r, e, h, b k)
    put_back t a r (inr (inl e)) h =
        ground (arith, a, r, e, h, b k, lookup-insert k id NodeState.outcome_unknown s.states)
    put_back t a r (inr (inr (e, few))) h = elim (string_discrete id k) [
      | yes p ↦ again t a r p few
      | no n ↦ ground (arith, a, r, e, h, n, b k, lookup-insert k id NodeState.pending s.states)
    ]

step-Bounded : (c : Call) (s : RouteRuntime) → Narrow s → Bounded s → Bounded (step c s)
unfolding step cancel_parent
step-Bounded (starts id) s w b = start-Bounded id s w b
step-Bounded (completes id r) s w b = Quiet-Bounded s (complete id r s).0 (complete-Quiet id r s) b
step-Bounded (fails id) s w b = Quiet-Bounded s (fail id s).0 (fail-Quiet id s) b
step-Bounded (retries_node id intent absent) s w b = retry-Bounded id intent absent s b
step-Bounded cancels_parent s w b =
    let t : RouteRuntime = record s { status = RouteStatus.cancelled } in
    Quiet-Bounded s (cancel_unfinished t)
      (Quiet-trans s t (cancel_unfinished t) (with_status s RouteStatus.cancelled) (cancel-Quiet t))
      b

run-Bounded :
    (cs : List Call) (s : RouteRuntime)
    → Distinct s.states
    → Narrow s
    → Bounded s
    → Bounded (run cs s)
unfolding run allowed_starts node
run-Bounded [] s d w b = b
run-Bounded (c ∷ cs) s d w b =
    let (route, m) = step-Follows c s d in
    run-Bounded cs (step c s) (Moves-Distinct m d) (λ k. ground (arith, w k, route))
      (step-Bounded c s w b)

fresh-Bounded : (route : ExecutionRoute) (total : ℕ) → Bounded (fresh route total)
unfolding fresh attempts_of allowed_starts or_zero lookup
fresh-Bounded route total k = (omega arith, λ p. positive (node (fresh route total) k))
  where
    positive :
        (r : Result Error RouteNode) → 0 < elim r [ ok n ↦ max 1 n.retry.max_attempts | err _ ↦ 1 ]
    positive (ok n) = omega arith
    positive (err e) = omega arith

-- After any calls on a new runtime whose limits fit into 32 bits: the attempts counted for a node are no
-- more than its policy allows, where a limit of zero and an unknown node count as one.
pub run_attempts :
    (route : ExecutionRoute) (total : ℕ) (cs : List Call) (k : String)
    → ((j : String) → allowed_starts (fresh route total) j < 2 ^ 32)
    → attempts_of k (run cs (fresh route total)) ≤ allowed_starts (fresh route total) k
unfolding allowed_starts node
run_attempts route total cs k narrow =
    let start : RouteRuntime = fresh route total in
    ground (
      arith,
      (run-Bounded cs start (fresh-Distinct route total) narrow (fresh-Bounded route total) k).0,
      (run-Follows cs start (fresh-Distinct route total)).0,
    )
