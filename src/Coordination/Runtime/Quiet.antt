-- ===== src/Coordination/Runtime/Quiet.antt =====
-- Calls that neither start a node nor put one back, and the bound that they keep.
use forme_agent.Base.{
  ℕ, String, List, some, ok, err, ◌≡◌, ◌≢◌, inl, inr, refl, sym, subst, arith, string_eq, ◌≤◌, ◌<◌,
  max, contains, Bool-cases,
}
use forme_agent.Base.Map.{lookup, insert, string_ord, lookup-insert}
use forme_agent.Protocol.Kinds.{Ref}
use forme_agent.Coordination.Route.{NodeState, RouteStatus, FailurePolicy, Error, policy_eq}
use forme_agent.Coordination.Budget.{or_zero}
use forme_agent.Coordination.Runtime.{
  RouteRuntime, complete, completed, fail, cancel_unfinished, unfinished, settle, after_failure,
  policies, node, is_nil, runnable,
}
use forme_agent.Coordination.Runtime.Calls.{require-running_cases}
use forme_agent.Coordination.Runtime.Stops.{cancel-all_frame, cancel-all_state}

unfoldable pub attempts_of : String → RouteRuntime → ℕ
attempts_of k s = or_zero (lookup k s.attempts)

-- The starts that the route allows a node.
unfoldable pub allowed_starts : RouteRuntime → String → ℕ
allowed_starts s k = elim (node s k) [ ok n ↦ max 1 n.retry.max_attempts | err _ ↦ 1 ]

-- Started at most as often as allowed, and less often while it is pending.
abbrev pub Bounded : RouteRuntime → Type 0
Bounded s =
    (k : String)
    → (attempts_of k s ≤ allowed_starts s k)
      × (lookup k s.states ≡ some NodeState.pending → attempts_of k s < allowed_starts s k)

-- Nothing is started or put back.
pub record Quiet (s t : RouteRuntime) : Type 0 where
  pub attempts : t.attempts ≡ s.attempts
  pub route : t.route ≡ s.route
  pub pending :
      (k : String)
      → lookup k t.states ≡ some NodeState.pending
      → lookup k s.states ≡ some NodeState.pending

pub Quiet-Bounded : (s t : RouteRuntime) → Quiet s t → Bounded s → Bounded t
unfolding attempts_of allowed_starts node
Quiet-Bounded s t q b k = (
  ground (arith, (b k).0, q.attempts, q.route),
  (λ p. ground (arith, (b k).1 (q.pending k p), q.attempts, q.route)),
)

Quiet-refl : (s : RouteRuntime) → Quiet s s
Quiet-refl s = record { attempts = refl; route = refl; pending = λ k p. p }

pub Quiet-trans : (s t u : RouteRuntime) → Quiet s t → Quiet t u → Quiet s u
Quiet-trans s t u p q = record {
  attempts = ground (arith, p.attempts, q.attempts);
  route = ground (arith, p.route, q.route);
  pending = λ k h. p.pending k (q.pending k h);
}

settle-Quiet :
    (id : String) (x : NodeState) (s : RouteRuntime)
    → x ≢ NodeState.pending
    → Quiet s (settle id x s)
unfolding settle
settle-Quiet id x s n = record {
  attempts = refl;
  route = refl;
  pending = λ k h. ground (arith, h, n, lookup-insert k id x s.states);
}

pub cancel-Quiet : (s : RouteRuntime) → Quiet s (cancel_unfinished s)
unfolding cancel_unfinished
cancel-Quiet s =
    let (_, route, attempts, _) = cancel-all_frame (unfinished s.states) s in
    record {
      attempts = attempts;
      route = route;
      pending = λ k h. ground (arith, h, cancel-all_state (unfinished s.states) s k);
    }

pub with_status : (s : RouteRuntime) (x : RouteStatus) → Quiet s (record s { status = x })
with_status s x = record { attempts = refl; route = refl; pending = λ k p. p }

completed-Quiet : (s : RouteRuntime) → Quiet s (completed s)
unfolding completed
completed-Quiet s = record {
  attempts = ground arith;
  route = ground arith;
  pending = λ k h. ground arith;
}

after-failure_Quiet : (ps : List FailurePolicy) (s : RouteRuntime) → Quiet s (after_failure ps s)
unfolding after_failure
after-failure_Quiet ps s = elim (Bool-cases (contains ps FailurePolicy.abort_route)) [
  | inl e ↦
      let t : RouteRuntime = record s { status = RouteStatus.failed } in
      let eq : after_failure ps s ≡ cancel_unfinished t = ground (arith, e) in
      subst (Quiet s) (sym eq)
        (Quiet-trans s t (cancel_unfinished t) (with_status s RouteStatus.failed) (cancel-Quiet t))
  | inr e ↦ elim (Bool-cases (contains ps FailurePolicy.replan)) [
    | inl f ↦
        let t : RouteRuntime = record s { status = RouteStatus.replan_requested } in
        let eq : after_failure ps s ≡ cancel_unfinished t = ground (arith, e, f) in
        subst (Quiet s) (sym eq) (
          Quiet-trans s t (cancel_unfinished t) (with_status s RouteStatus.replan_requested)
            (cancel-Quiet t))
    | inr f ↦ elim (Bool-cases (is_nil (runnable s))) [
      | inl g ↦
          let eq : after_failure ps s ≡ record s { status = RouteStatus.failed } =
            ground (arith, e, f, g) in
          subst (Quiet s) (sym eq) (with_status s RouteStatus.failed)
      | inr g ↦
          let eq : after_failure ps s ≡ s = ground (arith, e, f, g) in
          subst (Quiet s) (sym eq) (Quiet-refl s)
    ]
  ]
]

pub complete-Quiet : (id : String) (r : Ref) (s : RouteRuntime) → Quiet s (complete id r s).0
unfolding complete settle
complete-Quiet id r s = elim (require-running_cases id s) [
  | inr e ↦
      let stop : complete id r s ≡ (s, err Error.not_running) = ground (arith, e) in
      subst (λ x. Quiet s x.0) (sym stop) (Quiet-refl s)
  | inl (e, running) ↦
      let t : RouteRuntime = record (settle id NodeState.done s) {
        results = insert id r s.results;
      } in
      let go : complete id r s ≡ (completed t, ok tt) = ground (arith, e) in
      let one : Quiet s (settle id NodeState.done s) = settle-Quiet id NodeState.done s (λ p. cc) in
      let same : Quiet s t = record {
        attempts = one.attempts;
        route = one.route;
        pending = one.pending;
      } in
      subst (λ x. Quiet s x.0) (sym go) (Quiet-trans s t (completed t) same (completed-Quiet t))
]

pub fail-Quiet : (id : String) (s : RouteRuntime) → Quiet s (fail id s).0
unfolding fail
fail-Quiet id s = elim (require-running_cases id s) [
  | inr e ↦
      let stop : fail id s ≡ (s, err Error.not_running) = ground (arith, e) in
      subst (λ x. Quiet s x.0) (sym stop) (Quiet-refl s)
  | inl (e, running) ↦
      let t : RouteRuntime = settle id NodeState.failed s in
      let ps : List FailurePolicy = policies s.route.edges id in
      let go : fail id s ≡ (after_failure ps t, ok tt) = ground (arith, e) in
      subst (λ x. Quiet s x.0) (sym go)
        (Quiet-trans s t (after_failure ps t) (settle-Quiet id NodeState.failed s (λ p. cc))
          (after-failure_Quiet ps t))
]
