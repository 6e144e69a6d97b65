-- ===== src/Coordination/Runtime/Calls.antt =====
-- Every call of the runtime is a chain of steps of one node each.
use forme_agent.Base.{
  String, Bool, true, false, List, [], ◌∷◌, some, ok, err, ◌≡◌, ◌⊎◌, inl, inr, refl, sym, subst,
  arith, Bool-cases, string_eq, contains,
}
use forme_agent.Base.Map.{lookup, insert, string_ord, Distinct}
use forme_agent.Protocol.Kinds.{Ref}
use forme_agent.Coordination.Route.{
  NodeState, RouteStatus, FailurePolicy, policy_eq, Error, node_state_eq,
}
use forme_agent.Coordination.Runtime.{
  RouteRuntime, start, started, complete, completed, fail, retry, retry_fresh, mark, cancel_parent,
  settle, cancel_unfinished, cancel_all, unfinished, after_failure, require_running, has_state,
  is_nil, runnable, policies, all_terminal_with_tolerated_failures,
}
use forme_agent.Coordination.Runtime.Start.{
  StartOutcome, refused, begun, start-StartOutcome, charged, reserve_fits,
}
use forme_agent.Coordination.Runtime.Moves.{
  snapshot, Move, begins, ends, retries, Moves, stay, move, Moves-trans, finishes, breaks, again,
  unknown, cancel-unfinished_Moves, Moves-Distinct, Move-Distinct,
}

pub data Call : Type 0 where
  starts : String → Call
  completes : String → Ref → Call
  fails : String → Call
  retries_node : String → Ref → Bool → Call
  cancels_parent : Call

unfoldable pub step : Call → RouteRuntime → RouteRuntime
step (starts id) s = (start id s).0
step (completes id r) s = (complete id r s).0
step (fails id) s = (fail id s).0
step (retries_node id intent absent) s = (retry id intent absent s).0
step cancels_parent s = cancel_parent s

unfoldable pub run : List Call → RouteRuntime → RouteRuntime
run [] s = s
run (c ∷ cs) s = run cs (step c s)

-- A chain of steps along the edges of a route that does not change.
abbrev pub Follows : RouteRuntime → RouteRuntime → Type 0
Follows s t = (t.route ≡ s.route) × Moves s.route.edges (snapshot s) (snapshot t)

start-Follows : (id : String) (s : RouteRuntime) → Follows s (start id s).0
unfolding started charged
start-Follows id s = split (start-StartOutcome id s)
  where
    split : StartOutcome id s → Follows s (start id s).0
    split (refused e r) = subst (λ x. Follows s x.0) (sym r) (refl, stay)
    split (begun n amount p r) =
        subst (λ x. Follows s x.0) (sym r)
          (
            refl,
            move
                (begins id amount p.node_pending p.ready
                  (reserve_fits id amount s.budget p.positive p.unreserved p.fits))
                stay,
          )

pub require-running_cases :
    (id : String) (s : RouteRuntime)
    → ((require_running id s ≡ ok tt) × (lookup id s.states ≡ some NodeState.running))
      ⊎ (require_running id s ≡ err Error.not_running)
unfolding require_running has_state
require-running_cases id s = ground arith

completed-Follows : (s t : RouteRuntime) → Follows s t → Follows s (completed t)
unfolding completed
completed-Follows s t (r, p) = (
  ground (arith, r),
  elim (Bool-cases (all_terminal_with_tolerated_failures t.route.edges t.states)) [
    | inl e ↦ subst (λ x. Moves s.route.edges (snapshot s) (snapshot x)) (sym (whole t e)) p
    | inr e ↦ subst (λ x. Moves s.route.edges (snapshot s) (snapshot x)) (sym (same t e)) p
  ],
)
  where
    whole :
        (t : RouteRuntime)
        → all_terminal_with_tolerated_failures t.route.edges t.states ≡ true
        → completed t ≡ record t { status = RouteStatus.completed }
    whole t e = ground (arith, e)

    same :
        (t : RouteRuntime)
        → all_terminal_with_tolerated_failures t.route.edges t.states ≡ false
        → completed t ≡ t
    same t e = ground (arith, e)

complete-Follows : (id : String) (r : Ref) (s : RouteRuntime) → Follows s (complete id r s).0
unfolding complete settle
complete-Follows id r s = elim (require-running_cases id s) [
  | inr e ↦
      let stop : complete id r s ≡ (s, err Error.not_running) = ground (arith, e) in
      subst (λ x. Follows s x.0) (sym stop) (refl, stay)
  | inl (e, running) ↦
      let t : RouteRuntime = record (settle id NodeState.done s) {
        results = insert id r s.results;
      } in
      let go : complete id r s ≡ (completed t, ok tt) = ground (arith, e) in
      subst (λ x. Follows s x.0) (sym go)
        (completed-Follows s t (refl, move (ends id running finishes) stay))
]

cancel-all_route : (ids : List String) (s : RouteRuntime) → (cancel_all ids s).route ≡ s.route
unfolding cancel_all settle
cancel-all_route [] s = refl
cancel-all_route (id ∷ ids) s = cancel-all_route ids (settle id NodeState.cancelled s)

cancel-Follows : (s : RouteRuntime) → Distinct s.states → Follows s (cancel_unfinished s)
unfolding cancel_unfinished
cancel-Follows s d = (cancel-all_route (unfinished s.states) s, cancel-unfinished_Moves s d)

after-failure_Follows :
    (ps : List FailurePolicy) (s : RouteRuntime)
    → Distinct s.states
    → Follows s (after_failure ps s)
unfolding after_failure
after-failure_Follows ps s d = elim (Bool-cases (contains ps FailurePolicy.abort_route)) [
  | inl e ↦
      let t : RouteRuntime = record s { status = RouteStatus.failed } in
      let eq : after_failure ps s ≡ cancel_unfinished t = ground (arith, e) in
      subst (Follows s) (sym eq) (cancel-Follows t d)
  | inr e ↦ elim (Bool-cases (contains ps FailurePolicy.replan)) [
    | inl f ↦
        let t : RouteRuntime = record s { status = RouteStatus.replan_requested } in
        let eq : after_failure ps s ≡ cancel_unfinished t = ground (arith, e, f) in
        subst (Follows s) (sym eq) (cancel-Follows t d)
    | inr f ↦ elim (Bool-cases (is_nil (runnable s))) [
      | inl g ↦
          let eq : after_failure ps s ≡ record s { status = RouteStatus.failed } =
            ground (arith, e, f, g) in
          subst (Follows s) (sym eq) (refl, stay)
      | inr g ↦
          let eq : after_failure ps s ≡ s = ground (arith, e, f, g) in
          subst (Follows s) (sym eq) (refl, stay)
    ]
  ]
]

Follows-trans : (s t u : RouteRuntime) → Follows s t → Follows t u → Follows s u
Follows-trans s t u (r, p) (q, m) =
    (ground (arith, r, q), Moves-trans p (subst (λ x. Moves x.edges (snapshot t) (snapshot u)) r m))

fail-Follows : (id : String) (s : RouteRuntime) → Distinct s.states → Follows s (fail id s).0
unfolding fail settle
fail-Follows id s d = elim (require-running_cases id s) [
  | inr e ↦
      let stop : fail id s ≡ (s, err Error.not_running) = ground (arith, e) in
      subst (λ x. Follows s x.0) (sym stop) (refl, stay)
  | inl (e, running) ↦
      let t : RouteRuntime = settle id NodeState.failed s in
      let ps : List FailurePolicy = policies s.route.edges id in
      let go : fail id s ≡ (after_failure ps t, ok tt) = ground (arith, e) in
      let one : Move s.route.edges (snapshot s) (snapshot t) = ends id running breaks in
      subst (λ x. Follows s x.0) (sym go)
        (Follows-trans s t (after_failure ps t) (refl, move one stay)
          (after-failure_Follows ps t (Move-Distinct one d)))
]

retry_effect :
    (id : String) (intent : Ref) (absent : Bool) (s : RouteRuntime)
    → ((retry id intent absent s).0.route ≡ s.route)
      × ((snapshot (retry id intent absent s).0 ≡ snapshot s)
          ⊎ ((lookup id s.states ≡ some NodeState.failed)
              × ((snapshot (retry id intent absent s).0
                    ≡ (insert id NodeState.pending s.states, s.budget))
                  ⊎ (snapshot (retry id intent absent s).0
                      ≡ (insert id NodeState.outcome_unknown s.states, s.budget)))))
unfolding retry retry_fresh mark has_state
retry_effect id intent absent s = ground arith

retry-Follows :
    (id : String) (intent : Ref) (absent : Bool) (s : RouteRuntime)
    → Follows s (retry id intent absent s).0
retry-Follows id intent absent s = split (retry_effect id intent absent s).1
  where
    split :
        (snapshot (retry id intent absent s).0 ≡ snapshot s)
          ⊎ ((lookup id s.states ≡ some NodeState.failed)
              × ((snapshot (retry id intent absent s).0
                    ≡ (insert id NodeState.pending s.states, s.budget))
                  ⊎ (snapshot (retry id intent absent s).0
                      ≡ (insert id NodeState.outcome_unknown s.states, s.budget))))
        → Follows s (retry id intent absent s).0
    split (inl e) =
        ((retry_effect id intent absent s).0, subst (Moves s.route.edges (snapshot s)) (sym e) stay)
    split (inr (f, inl e)) = (
      (retry_effect id intent absent s).0,
      subst (Moves s.route.edges (snapshot s)) (sym e) (move (retries id f again) stay),
    )
    split (inr (f, inr e)) = (
      (retry_effect id intent absent s).0,
      subst (Moves s.route.edges (snapshot s)) (sym e) (move (retries id f unknown) stay),
    )

-- Every call keeps the route, and moves nodes only by the legal steps.
pub step-Follows : (c : Call) (s : RouteRuntime) → Distinct s.states → Follows s (step c s)
unfolding step cancel_parent
step-Follows (starts id) s d = start-Follows id s
step-Follows (completes id r) s d = complete-Follows id r s
step-Follows (fails id) s d = fail-Follows id s d
step-Follows (retries_node id intent absent) s d = retry-Follows id intent absent s
step-Follows cancels_parent s d = cancel-Follows (record s { status = RouteStatus.cancelled }) d

pub run-Follows : (cs : List Call) (s : RouteRuntime) → Distinct s.states → Follows s (run cs s)
unfolding run
run-Follows [] s d = (refl, stay)
run-Follows (c ∷ cs) s d =
    let (r, m) = step-Follows c s d in
    Follows-trans s (step c s) (run cs (step c s)) (r, m)
      (run-Follows cs (step c s) (Moves-Distinct m d))
