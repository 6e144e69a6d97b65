-- ===== src/Coordination/Runtime/Completion.antt =====
-- When a route counts as completed.
use forme_agent.Base.{
  ℕ, String, Bool, true, ◌&&◌, List, [], ◌∷◌, some, ok, err, ◌≡◌, ◌≢◌, ◌⊎◌, inl, inr, refl, sym,
  subst, arith, string_eq, ◌==◌, all, eq_of_test,
}
use forme_agent.Base.Map.{Map, lookup, insert, string_ord}
use forme_agent.Base.Members.{Member, all-filter}
use forme_agent.Base.Text.{string_discrete}
use forme_agent.Protocol.Kinds.{Ref}
use forme_agent.Coordination.Route.{
  RouteEdge, ExecutionRoute, NodeState, FailurePolicy, RouteStatus, Error, policy_eq, status_eq,
  node_state_eq,
}
use forme_agent.Coordination.Runtime.{
  RouteRuntime, tolerates, fresh, all_pending, first_status, start, complete, completed, fail,
  retry, retry_fresh, cancel_parent, cancel_unfinished, unfinished, settle, after_failure, mark,
  tolerated, all_terminal_with_tolerated_failures, started, policies,
}
use forme_agent.Coordination.Runtime.Start.{StartOutcome, refused, begun, start-StartOutcome}
use forme_agent.Coordination.Runtime.Calls.{
  Call, starts, completes, fails, retries_node, cancels_parent, step, run, require-running_cases,
  run-Follows,
}
use forme_agent.Coordination.Runtime.Order.{fresh-Distinct}
use forme_agent.Coordination.Runtime.Stops.{cancel-all_frame}

all-lookup :
    (p : String × NodeState → Bool) (m : Map String NodeState) (k : String) (x : NodeState)
    → all p m ≡ true
    → lookup k m ≡ some x
    → p (k, x) ≡ true
unfolding all lookup
all-lookup p [] k x h e = cc
all-lookup p ((j, y) ∷ m) k x h e = elim (string_discrete j k) [
  | yes q ↦ subst (λ i. p i ≡ true) (ground (arith, q)) (all-head h)
  | no n ↦ all-lookup p m k x (ground (arith, h)) (ground (arith, n))
]
  where
    all-head : (p (j, y) && all p m) ≡ true → p (j, y) ≡ true
    all-head h = ground arith

-- Every node is done, or failed where no edge minds.
abbrev Complete : RouteRuntime → Type 0
Complete s = all_terminal_with_tolerated_failures s.route.edges s.states ≡ true

abbrev Sound : RouteRuntime → Type 0
Sound s = s.status ≡ RouteStatus.completed → Complete s

Complete-idle :
    (s : RouteRuntime) (id : String) → Complete s → lookup id s.states ≢ some NodeState.running
unfolding all_terminal_with_tolerated_failures tolerated
Complete-idle s id c e =
    let t : tolerated s.route.edges id NodeState.running ≡ true =
      all-lookup (λ i. tolerated s.route.edges i.0 i.1) s.states id NodeState.running c e in
    cc

start-Sound : (id : String) (s : RouteRuntime) → Sound s → Sound (start id s).0
unfolding started
start-Sound id s v = split (start-StartOutcome id s)
  where
    split : StartOutcome id s → Sound (start id s).0
    split (refused e r) = subst (λ x. Sound x.0) (sym r) v
    split (begun n amount p r) =
        subst (λ x. Sound x.0) (sym r) (λ h. absurd (ground (arith, p.route_running, h)))

completed-Sound : (t : RouteRuntime) → t.status ≢ RouteStatus.completed → Sound (completed t)
unfolding completed
completed-Sound t n h = ground arith

complete-Sound : (id : String) (r : Ref) (s : RouteRuntime) → Sound s → Sound (complete id r s).0
unfolding complete settle
complete-Sound id r s v = elim (require-running_cases id s) [
  | inr e ↦
      let stop : complete id r s ≡ (s, err Error.not_running) = ground (arith, e) in
      subst (λ x. Sound x.0) (sym stop) v
  | inl (e, running) ↦
      let t : RouteRuntime = record (settle id NodeState.done s) {
        results = insert id r s.results;
      } in
      let go : complete id r s ≡ (completed t, ok tt) = ground (arith, e) in
      subst (λ x. Sound x.0) (sym go) (completed-Sound t (λ c. Complete-idle s id (v c) running))
]

after-failure_status :
    (ps : List FailurePolicy) (t : RouteRuntime)
    → (after_failure ps t).status ≡ RouteStatus.completed
    → t.status ≡ RouteStatus.completed
unfolding after_failure cancel_unfinished
after-failure_status ps t h = ground (
  arith,
  (cancel-all_frame (unfinished t.states) (record t { status = RouteStatus.failed })).0,
  (cancel-all_frame (unfinished t.states) (record t { status = RouteStatus.replan_requested })).0,
)

fail-Sound : (id : String) (s : RouteRuntime) → Sound s → Sound (fail id s).0
unfolding fail settle
fail-Sound id s v = elim (require-running_cases id s) [
  | inr e ↦
      let stop : fail id s ≡ (s, err Error.not_running) = ground (arith, e) in
      subst (λ x. Sound x.0) (sym stop) v
  | inl (e, running) ↦
      let t : RouteRuntime = settle id NodeState.failed s in
      let ps : List FailurePolicy = policies s.route.edges id in
      let go : fail id s ≡ (after_failure ps t, ok tt) = ground (arith, e) in
      subst (λ x. Sound x.0) (sym go)
        (λ c. absurd (Complete-idle s id (v (after-failure_status ps t c)) running))
]

retry_completed :
    (id : String) (intent : Ref) (absent : Bool) (s : RouteRuntime)
    → (retry id intent absent s).0.status ≡ RouteStatus.completed
    → (s.status ≡ RouteStatus.completed)
      × ((retry id intent absent s).0.states ≡ s.states)
      × ((retry id intent absent s).0.route ≡ s.route)
unfolding retry retry_fresh mark
retry_completed id intent absent s h = ground arith

step-Sound : (c : Call) (s : RouteRuntime) → Sound s → Sound (step c s)
unfolding step cancel_parent cancel_unfinished
step-Sound (starts id) s v = start-Sound id s v
step-Sound (completes id r) s v = complete-Sound id r s v
step-Sound (fails id) s v = fail-Sound id s v
step-Sound (retries_node id intent absent) s v = λ h.
    let (c, states, route) = retry_completed id intent absent s h in
    ground (arith, v c, states, route)
step-Sound cancels_parent s v = λ h. absurd (
    ground (
      arith,
      h,
      (cancel-all_frame (unfinished s.states) (record s { status = RouteStatus.cancelled })).0,
    ))

run-Sound : (cs : List Call) (s : RouteRuntime) → Sound s → Sound (run cs s)
unfolding run
run-Sound [] s v = v
run-Sound (c ∷ cs) s v = run-Sound cs (step c s) (step-Sound c s v)

fresh-Sound : (route : ExecutionRoute) (total : ℕ) → Sound (fresh route total)
unfolding fresh first_status all_terminal_with_tolerated_failures all
fresh-Sound route total = empty (all_pending route.nodes)
  where
    empty :
        (m : Map String NodeState)
        → first_status m ≡ RouteStatus.completed
        → all_terminal_with_tolerated_failures route.edges m ≡ true
    empty [] h = refl
    empty (_ ∷ _) h = cc

tolerated_reads :
    (edges : List RouteEdge) (k : String) (x : NodeState)
    → tolerated edges k x ≡ true
    → (x ≡ NodeState.done)
      ⊎ ((x ≡ NodeState.failed)
          × ((e : RouteEdge)
              → Member e edges
              → e.source ≡ k
              → e.on_failure ≡ FailurePolicy.continue_route))
unfolding tolerated tolerates
tolerated_reads edges k NodeState.done h = inl refl
tolerated_reads edges k NodeState.failed h = inr (
  refl,
  λ e m p.
      eq_of_test e.on_failure FailurePolicy.continue_route
        (all-filter tolerates (λ e. e.source == k) edges e h m (ground (arith, p))),
)
tolerated_reads edges k NodeState.pending h = cc
tolerated_reads edges k NodeState.running h = cc
tolerated_reads edges k NodeState.cancelled h = cc
tolerated_reads edges k NodeState.outcome_unknown h = cc

-- After any calls on a new runtime: where the route is completed, each node is done, or failed and every
-- edge from it tolerates failure.
pub run-completed :
    (route : ExecutionRoute) (total : ℕ) (cs : List Call) (k : String) (x : NodeState)
    → (run cs (fresh route total)).status ≡ RouteStatus.completed
    → lookup k (run cs (fresh route total)).states ≡ some x
    → (x ≡ NodeState.done)
      ⊎ ((x ≡ NodeState.failed)
          × ((e : RouteEdge)
              → Member e route.edges
              → e.source ≡ k
              → e.on_failure ≡ FailurePolicy.continue_route))
unfolding fresh all_terminal_with_tolerated_failures
run-completed route total cs k x h e = tolerated_reads route.edges k x (
    subst (λ r. tolerated r.edges k x ≡ true)
      (run-Follows cs (fresh route total) (fresh-Distinct route total)).0
      (all-lookup (λ i. tolerated (run cs (fresh route total)).route.edges i.0 i.1)
        (run cs (fresh route total)).states k x
        (run-Sound cs (fresh route total) (fresh-Sound route total) h) e))
