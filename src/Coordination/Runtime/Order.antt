-- ===== src/Coordination/Runtime/Order.antt =====
-- The order in which nodes run, and the states that they never leave.
use forme_agent.Base.{
  ℕ, String, Bool, true, false, List, [], ◌∷◌, Option, some, ◌≡◌, ◌≢◌, ◌⊎◌, inl, inr, refl, subst,
  arith, string_eq, ◌==◌,
}
use forme_agent.Base.Map.{Map, lookup, insert, string_ord, lookup-insert, Distinct, insert-Distinct}
use forme_agent.Base.Members.{Member, all-filter}
use forme_agent.Base.Text.{string_discrete}
use forme_agent.Coordination.Route.{
  RouteEdge, RouteNode, ExecutionRoute, NodeState, FailurePolicy, policy_eq,
}
use forme_agent.Coordination.Runtime.{
  RouteRuntime, fresh, all_pending, dependencies_satisfied, satisfied, tolerates,
}
use forme_agent.Coordination.Runtime.Moves.{
  Snapshot, Move, begins, ends, retries, Moves, stay, move, finishes, breaks, stops, drops, again,
  unknown,
}
use forme_agent.Coordination.Runtime.Calls.{Call, run, run-Follows}

-- The node was started and was not put back.
unfoldable pub has_worked : Option NodeState → Bool
has_worked (some NodeState.running) = true
has_worked (some NodeState.done) = true
has_worked (some NodeState.failed) = true
has_worked (some NodeState.outcome_unknown) = true
has_worked _ = false

abbrev pub Ordered : List RouteEdge → Map String NodeState → Type 0
Ordered edges m =
    (e : RouteEdge)
    → Member e edges
    → e.on_failure ≢ FailurePolicy.continue_route
    → has_worked (lookup e.target m) ≡ true
    → lookup e.source m ≡ some NodeState.done

satisfied_done :
    (e : RouteEdge) (o : Option NodeState)
    → satisfied e o ≡ true
    → e.on_failure ≢ FailurePolicy.continue_route
    → o ≡ some NodeState.done
unfolding satisfied tolerates
satisfied_done e o h n = ground arith

dependency_done :
    (edges : List RouteEdge) (m : Map String NodeState) (e : RouteEdge)
    → dependencies_satisfied edges m e.target ≡ true
    → Member e edges
    → e.on_failure ≢ FailurePolicy.continue_route
    → lookup e.source m ≡ some NodeState.done
unfolding dependencies_satisfied
dependency_done edges m e h k n =
    satisfied_done e (lookup e.source m)
      (all-filter (λ d. satisfied d (lookup d.source m)) (λ d. d.target == e.target) edges e h k
        (ground arith))
      n

-- A node that is not done gets a new state, and has worked afterwards only if it had before or its
-- dependencies are satisfied.
insert-Ordered :
    (edges : List RouteEdge) (m : Map String NodeState) (id : String) (x y : NodeState)
    → lookup id m ≡ some x
    → x ≢ NodeState.done
    → (has_worked (some y) ≡ has_worked (some x))
      ⊎ (dependencies_satisfied edges m id ≡ true)
      ⊎ (has_worked (some y) ≡ false)
    → Ordered edges m
    → Ordered edges (insert id y m)
insert-Ordered edges m id x y f n w o e k c h =
    ground (arith, f, n, earlier, lookup-insert e.source id y m)
  where
    earlier : lookup e.source m ≡ some NodeState.done
    earlier = elim (string_discrete id e.target) [
      | no p ↦ o e k c (ground (arith, p, lookup-insert e.target id y m))
      | yes p ↦ elim w [
        | inl same ↦ o e k c (ground (arith, p, f, same, lookup-insert e.target id y m))
        | inr w' ↦ elim w' [
          | inl ready ↦
              dependency_done edges m e
                (subst (λ j. dependencies_satisfied edges m j ≡ true) p ready) k c
          | inr idle ↦ absurd (ground (arith, p, idle, lookup-insert e.target id y m))
        ]
      ]
    ]

Move-Ordered :
    {edges : List RouteEdge} {x y : Snapshot}
    → Move edges x y
    → Ordered edges x.0
    → Ordered edges y.0
unfolding has_worked
Move-Ordered {edges} (begins {m = m} id n f ready _) o =
    insert-Ordered edges m id NodeState.pending NodeState.running f (λ p. cc) (inr (inl ready)) o
Move-Ordered {edges} (ends {m = m} id f finishes) o =
    insert-Ordered edges m id NodeState.running NodeState.done f (λ p. cc) (inl refl) o
Move-Ordered {edges} (ends {m = m} id f breaks) o =
    insert-Ordered edges m id NodeState.running NodeState.failed f (λ p. cc) (inl refl) o
Move-Ordered {edges} (ends {m = m} id f stops) o =
    insert-Ordered edges m id NodeState.running NodeState.cancelled f (λ p. cc) (inr (inr refl)) o
Move-Ordered {edges} (ends {m = m} id f drops) o =
    insert-Ordered edges m id NodeState.pending NodeState.cancelled f (λ p. cc) (inl refl) o
Move-Ordered {edges} (retries {m = m} id f again) o =
    insert-Ordered edges m id NodeState.failed NodeState.pending f (λ p. cc) (inr (inr refl)) o
Move-Ordered {edges} (retries {m = m} id f unknown) o =
    insert-Ordered edges m id NodeState.failed NodeState.outcome_unknown f (λ p. cc) (inl refl) o

Moves-Ordered :
    {edges : List RouteEdge} {x y : Snapshot}
    → Moves edges x y
    → Ordered edges x.0
    → Ordered edges y.0
Moves-Ordered stay o = o
Moves-Ordered (move m p) o = Moves-Ordered p (Move-Ordered m o)

pub all-pending_state :
    (ns : List RouteNode) (id : String) → has_worked (lookup id (all_pending ns)) ≡ false
unfolding all_pending lookup has_worked
all-pending_state [] id = refl
all-pending_state (n ∷ ns) id = ground (
  arith,
  all-pending_state ns id,
  lookup-insert id n.subtask.id NodeState.pending (all_pending ns),
)

all-pending_Distinct : (ns : List RouteNode) → Distinct (all_pending ns)
unfolding all_pending Distinct
all-pending_Distinct [] = tt
all-pending_Distinct (n ∷ ns) =
    insert-Distinct n.subtask.id NodeState.pending (all_pending ns) (all-pending_Distinct ns)

pub fresh-Distinct : (route : ExecutionRoute) (total : ℕ) → Distinct (fresh route total).states
unfolding fresh
fresh-Distinct route total = all-pending_Distinct route.nodes

fresh-Ordered :
    (route : ExecutionRoute) (total : ℕ) → Ordered route.edges (fresh route total).states
unfolding fresh
fresh-Ordered route total e k c h = ground (arith, all-pending_state route.nodes e.target)

-- After any calls on a new runtime: where an edge does not tolerate failure and its target is running,
-- done, failed or of unknown outcome, the source of the edge is done.
pub run_ordered :
    (route : ExecutionRoute) (total : ℕ) (cs : List Call) (e : RouteEdge)
    → Member e route.edges
    → e.on_failure ≢ FailurePolicy.continue_route
    → has_worked (lookup e.target (run cs (fresh route total)).states) ≡ true
    → lookup e.source (run cs (fresh route total)).states ≡ some NodeState.done
unfolding fresh
run_ordered route total cs =
    Moves-Ordered (run-Follows cs (fresh route total) (fresh-Distinct route total)).1
      (fresh-Ordered route total)

-- Done, cancelled, or of unknown outcome.
pub data Final : NodeState → Type 0 where
  is_done : Final NodeState.done
  is_cancelled : Final NodeState.cancelled
  is_unknown : Final NodeState.outcome_unknown

insert_final :
    (id k : String) (x y z : NodeState) (m : Map String NodeState)
    → lookup id m ≡ some x
    → x ≢ z
    → lookup k m ≡ some z
    → lookup k (insert id y m) ≡ some z
insert_final id k x y z m f n h = ground (arith, lookup-insert k id y m)

pending_not-Final : {z : NodeState} → Final z → NodeState.pending ≢ z
pending_not-Final is_done p = cc
pending_not-Final is_cancelled p = cc
pending_not-Final is_unknown p = cc

running_not-Final : {z : NodeState} → Final z → NodeState.running ≢ z
running_not-Final is_done p = cc
running_not-Final is_cancelled p = cc
running_not-Final is_unknown p = cc

failed_not-Final : {z : NodeState} → Final z → NodeState.failed ≢ z
failed_not-Final is_done p = cc
failed_not-Final is_cancelled p = cc
failed_not-Final is_unknown p = cc

Move-Final :
    {edges : List RouteEdge} {x y : Snapshot} (k : String) (z : NodeState)
    → Final z
    → Move edges x y
    → lookup k x.0 ≡ some z
    → lookup k y.0 ≡ some z
Move-Final k z f (begins {m = m} id n e _ _) h =
    insert_final id k NodeState.pending NodeState.running z m e (pending_not-Final f) h
Move-Final k z f (ends {m = m} id e finishes) h =
    insert_final id k NodeState.running NodeState.done z m e (running_not-Final f) h
Move-Final k z f (ends {m = m} id e breaks) h =
    insert_final id k NodeState.running NodeState.failed z m e (running_not-Final f) h
Move-Final k z f (ends {m = m} id e stops) h =
    insert_final id k NodeState.running NodeState.cancelled z m e (running_not-Final f) h
Move-Final k z f (ends {m = m} id e drops) h =
    insert_final id k NodeState.pending NodeState.cancelled z m e (pending_not-Final f) h
Move-Final k z f (retries {m = m} id {y = y} e _) h =
    insert_final id k NodeState.failed y z m e (failed_not-Final f) h

Moves-Final :
    {edges : List RouteEdge} {x y : Snapshot} (k : String) (z : NodeState)
    → Final z
    → Moves edges x y
    → lookup k x.0 ≡ some z
    → lookup k y.0 ≡ some z
Moves-Final k z f stay h = h
Moves-Final k z f (move m p) h = Moves-Final k z f p (Move-Final k z f m h)

-- Once a node is done, cancelled or of unknown outcome, no calls change that, in a runtime whose
-- nodes are listed once.
pub run-Final :
    (cs : List Call) (s : RouteRuntime) (k : String) (z : NodeState)
    → Distinct s.states
    → Final z
    → lookup k s.states ≡ some z
    → lookup k (run cs s).states ≡ some z
run-Final cs s k z d f h = Moves-Final k z f (run-Follows cs s d).1 h
