-- ===== src/Coordination/Runtime/Liveness.antt =====
-- A route that is going on can always start another node, if its budget allows each node.
use forme_agent.Base.{
  ℕ, String, List, [], ◌∷◌, none, some, ok, ◌≡◌, ◌≢◌, ◌⊎◌, inl, inr, refl, sym, subst, arith,
  string_eq, ◌==◌, ◌<◌, ◌≤◌, ◌^◌, find,
}
use forme_agent.Base.Map.{Map, lookup, string_ord, lookup-insert}
use forme_agent.Base.Members.{Member}
use forme_agent.Base.Text.{string_discrete}
use forme_agent.Coordination.Route.{RouteEdge, RouteNode, ExecutionRoute, NodeState, RouteStatus}
use forme_agent.Coordination.Budget.{parse_budget_units}
use forme_agent.Coordination.Budget.Conservation.{reserved}
use forme_agent.Coordination.Runtime.{RouteRuntime, fresh, all_pending, start, node}
use forme_agent.Coordination.Runtime.Start.{start_iff, is-runnable_reads}
use forme_agent.Coordination.Runtime.Moves.{
  Snapshot, Move, begins, ends, retries, Moves, stay, move,
}
use forme_agent.Coordination.Runtime.Calls.{Call, run, run-Follows}
use forme_agent.Coordination.Runtime.Order.{fresh-Distinct}
use forme_agent.Coordination.Runtime.Accounts.{run-Accounts}
use forme_agent.Coordination.Runtime.Progress.{is-runnable_progress}
use forme_agent.Coordination.Validation.Correct.{IsValid, node_ids}

Move-absent :
    {edges : List RouteEdge} {x y : Snapshot} (k : String)
    → Move edges x y
    → lookup k x.0 ≡ none
    → lookup k y.0 ≡ none
Move-absent k (begins {m = m} id n f _ _) h =
    ground (arith, f, lookup-insert k id NodeState.running m)
Move-absent k (ends {m = m} id {y = y} f _) h = ground (arith, f, lookup-insert k id y m)
Move-absent k (retries {m = m} id {y = y} f _) h = ground (arith, f, lookup-insert k id y m)

Moves-absent :
    {edges : List RouteEdge} {x y : Snapshot} (k : String)
    → Moves edges x y
    → lookup k x.0 ≡ none
    → lookup k y.0 ≡ none
Moves-absent k stay h = h
Moves-absent k (move m p) h = Moves-absent k p (Move-absent k m h)

all-pending_key :
    (ns : List RouteNode) (k : String) → (lookup k (all_pending ns) ≡ none) ⊎ Member k (node_ids ns)
unfolding all_pending lookup node_ids
all-pending_key [] k = inl refl
all-pending_key (n ∷ ns) k = elim (all-pending_key ns k) [
  | inr m ↦ inr (inr m)
  | inl e ↦ elim (string_discrete n.subtask.id k) [
    | yes p ↦ inr (inl p)
    | no p ↦
        inl (ground (arith, p, e, lookup-insert k n.subtask.id NodeState.pending (all_pending ns)))
  ]
]

-- Every key of the states is a node of the route.
state_key :
    (route : ExecutionRoute) (total : ℕ) (cs : List Call) (k : String)
    → lookup k (run cs (fresh route total)).states ≢ none
    → Member k (node_ids route.nodes)
unfolding fresh
state_key route total cs k h = elim (all-pending_key route.nodes k) [
  | inr m ↦ m
  | inl e ↦
      absurd
        (h (Moves-absent k (run-Follows cs (fresh route total) (fresh-Distinct route total)).1 e))
]

found_node :
    (ns : List RouteNode) (k : String)
    → Member k (node_ids ns)
    → (n : RouteNode) × (find (λ x. x.subtask.id == k) ns ≡ some n) × Member n ns
unfolding find node_ids
found_node [] k m = elim m [ ]
found_node (n ∷ ns) k m = elim (string_discrete n.subtask.id k) [
  | yes p ↦ (n, ground (arith, p), inl refl)
  | no p ↦ elim m [
    | inl e ↦ absurd (p e)
    | inr i ↦ let (x, f, j) = found_node ns k i in (x, ground (arith, p, f), inr j)
  ]
]

none-reserved : (m : Map String ℕ) → ((k : String) → lookup k m ≡ none) → reserved m ≡ 0
unfolding reserved lookup
none-reserved [] h = refl
none-reserved ((k, n) ∷ m) h = absurd (ground (arith, h k))

-- The price of each node is positive and within the budget of the route.
abbrev pub Priced : ExecutionRoute → ℕ → Type 0
Priced route total =
    (n : RouteNode)
    → Member n route.nodes
    → (amount : ℕ) × (parse_budget_units n.role.budget ≡ ok amount)
      × (0 < amount)
      × (amount ≤ total)

idle_unreserved :
    (route : ExecutionRoute) (total : ℕ) (cs : List Call)
    → total < 2 ^ 64
    → ((w : String)
        → Member w (node_ids route.nodes)
        → lookup w (run cs (fresh route total)).states ≢ some NodeState.running)
    → ((k : String) → lookup k (run cs (fresh route total)).budget.reservations ≡ none)
      × ((run cs (fresh route total)).budget.remaining ≡ total)
idle_unreserved route total cs small idle =
    let s = run cs (fresh route total) in
    let accounts = run-Accounts route total cs small in
    let free : (k : String) → lookup k s.budget.reservations ≡ none = λ k.
      accounts.others_hold_none k
        λ r. idle k (state_key route total cs k (λ e. ground (arith, e, r))) r in
    (free, omega (arith, accounts.conserved, none-reserved s.budget.reservations free))

-- With nothing reserved, a node that is runnable can be paid for.
start-some :
    (s : RouteRuntime) (v : String)
    → IsValid s.route
    → Priced s.route s.budget.remaining
    → ((k : String) → lookup k s.budget.reservations ≡ none)
    → ((k : String) → lookup k s.states ≢ none → Member k (node_ids s.route.nodes))
    → s.status ≡ RouteStatus.running
    → ((w : String)
        → Member w (node_ids s.route.nodes)
        → (lookup w s.states ≡ some NodeState.pending) ⊎ (lookup w s.states ≡ some NodeState.done))
    → lookup v s.states ≡ some NodeState.pending
    → (w : String) × ((start w s).1 ≡ ok tt)
unfolding node
start-some s v valid prices free key running each p =
    let (w, r) =
      is-runnable_progress s v valid running each (key v (λ e. ground (arith, e, p))) p in
    let (_, pending, ready) = is-runnable_reads w s r in
    let (n, found, inside) = found_node s.route.nodes w (key w (λ e. ground (arith, e, pending))) in
    let (amount, priced, positive, fits) = prices n inside in
    (
      w,
      (start_iff w s).1 (
        n,
        amount,
        record {
          route_running = running;
          node_pending = pending;
          ready = ready;
          known = ground (arith, found);
          priced = priced;
          positive = positive;
          unreserved = free w;
          fits = fits;
        },
      ),
    )

-- After any calls on a new runtime of a valid route with a 64-bit budget, in which the price of each
-- node is positive and within that budget: as long as the route is running, its nodes are all pending or
-- done and one of them is pending, the start of some node succeeds.
pub start_progress :
    (route : ExecutionRoute) (total : ℕ) (cs : List Call) (v : String)
    → total < 2 ^ 64
    → IsValid route
    → Priced route total
    → (run cs (fresh route total)).status ≡ RouteStatus.running
    → ((w : String)
        → Member w (node_ids route.nodes)
        → (lookup w (run cs (fresh route total)).states ≡ some NodeState.pending)
          ⊎ (lookup w (run cs (fresh route total)).states ≡ some NodeState.done))
    → lookup v (run cs (fresh route total)).states ≡ some NodeState.pending
    → (w : String) × ((start w (run cs (fresh route total))).1 ≡ ok tt)
unfolding fresh
start_progress route total cs v small valid prices running each p =
    let s = run cs (fresh route total) in
    let same = sym (run-Follows cs (fresh route total) (fresh-Distinct route total)).0 in
    let (free, whole) =
      idle_unreserved route total cs small (λ w m r. elim (each w m) [
        | inl e ↦ ground (arith, e, r)
        | inr e ↦ ground (arith, e, r)
      ]) in
    start-some s v (subst IsValid same valid)
      (subst (λ r. Priced r s.budget.remaining) same (subst (Priced route) (sym whole) prices)) free
      (subst (λ r. (k : String) → lookup k s.states ≢ none → Member k (node_ids r.nodes)) same
        (state_key route total cs))
      running
      (subst
        (λ r.
          (w : String)
          → Member w (node_ids r.nodes)
          → (lookup w s.states ≡ some NodeState.pending)
            ⊎ (lookup w s.states ≡ some NodeState.done))
        same each)
      p
