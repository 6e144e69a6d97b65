-- ===== src/Coordination/Runtime/Moves.antt =====
-- What the calls of the runtime do to the nodes and to the budget, as steps of one node each.
use forme_agent.Base.{ℕ, String, true, List, [], ◌∷◌, some, none, ok, ◌≡◌, inr, arith, string_eq}
use forme_agent.Base.Map.{Map, lookup, insert, string_ord, lookup-insert, Distinct, insert-Distinct}
use forme_agent.Base.Members.{Member}
use forme_agent.Coordination.Route.{RouteEdge, NodeState}
use forme_agent.Coordination.Budget.{BudgetState, reserve, release}
use forme_agent.Coordination.Runtime.{
  RouteRuntime, dependencies_satisfied, settle, cancel_all, unfinished, is_unfinished,
  cancel_unfinished,
}

-- Ways for a node to give its budget back, and states in which a retried node rests.
pub data Ends : NodeState → NodeState → Type 0 where
  finishes : Ends NodeState.running NodeState.done
  breaks : Ends NodeState.running NodeState.failed
  stops : Ends NodeState.running NodeState.cancelled
  drops : Ends NodeState.pending NodeState.cancelled

pub data Rests : NodeState → Type 0 where
  again : Rests NodeState.pending
  unknown : Rests NodeState.outcome_unknown

abbrev pub Snapshot : Type 0
Snapshot = Map String NodeState × BudgetState

pub data Move (edges : List RouteEdge) : Snapshot → Snapshot → Type 0 where
  begins :
      {m : Map String NodeState} {b b' : BudgetState} (id : String) (n : ℕ)
      → lookup id m ≡ some NodeState.pending
      → dependencies_satisfied edges m id ≡ true
      → reserve id n b ≡ (b', ok tt)
      → Move edges (m, b) (insert id NodeState.running m, b')
  ends :
      {m : Map String NodeState} {b : BudgetState} (id : String) {x y : NodeState}
      → lookup id m ≡ some x
      → Ends x y
      → Move edges (m, b) (insert id y m, (release id b).0)
  retries :
      {m : Map String NodeState} {b : BudgetState} (id : String) {y : NodeState}
      → lookup id m ≡ some NodeState.failed
      → Rests y
      → Move edges (m, b) (insert id y m, b)

pub data Moves (edges : List RouteEdge) : Snapshot → Snapshot → Type 0 where
  stay : {x : Snapshot} → Moves edges x x
  move : {x y z : Snapshot} → Move edges x y → Moves edges y z → Moves edges x z

pub Moves-trans :
    {edges : List RouteEdge} {x y z : Snapshot}
    → Moves edges x y
    → Moves edges y z
    → Moves edges x z
Moves-trans stay q = q
Moves-trans (move m p) q = move m (Moves-trans p q)

abbrev pub snapshot : RouteRuntime → Snapshot
snapshot s = (s.states, s.budget)

-- The nodes are pairwise different, and each can still be cancelled.
abbrev pub Waiting : Map String NodeState → List String → Type 0
Waiting m [] = Unit
Waiting m (id ∷ ids) =
    ((x : NodeState) × (lookup id m ≡ some x) × Ends x NodeState.cancelled)
    × (¬ Member id ids)
    × Waiting m ids

Waiting-insert :
    (id : String) (y : NodeState) (m : Map String NodeState) (ids : List String)
    → (¬ Member id ids)
    → Waiting m ids
    → Waiting (insert id y m) ids
Waiting-insert id y m [] n w = tt
Waiting-insert id y m (j ∷ js) n ((x, e, c), out, w) = (
  (x, ground (arith, lookup-insert j id y m, n), c),
  out,
  Waiting-insert id y m js (λ k. n (inr k)) w,
)

cancel-all_Moves :
    (ids : List String) (s : RouteRuntime)
    → Waiting s.states ids
    → Moves s.route.edges (snapshot s) (snapshot (cancel_all ids s))
unfolding cancel_all settle
cancel-all_Moves [] s w = stay
cancel-all_Moves (id ∷ ids) s ((x, e, c), out, w) = move (ends id e c) (
    cancel-all_Moves ids (settle id NodeState.cancelled s)
      (Waiting-insert id NodeState.cancelled s.states ids out w))

-- The unfinished nodes are there, and each once.
unfinished_listed :
    (id : String) (m : Map String NodeState) → lookup id m ≡ none → ¬ Member id (unfinished m)
unfolding unfinished lookup is_unfinished
unfinished_listed id [] e k = elim k [ ]
unfinished_listed id ((j, x) ∷ m) e k = ground (arith, unfinished_listed id m)

Waiting-weaken :
    (j : String) (y : NodeState) (m : Map String NodeState) (ids : List String)
    → lookup j m ≡ none
    → Waiting m ids
    → Waiting ((j, y) ∷ m) ids
unfolding lookup
Waiting-weaken j y m [] e w = tt
Waiting-weaken j y m (id ∷ ids) e ((x, f, c), out, w) =
    ((x, ground (arith, e, f), c), out, Waiting-weaken j y m ids e w)

unfinished-Waiting : (m : Map String NodeState) → Distinct m → Waiting m (unfinished m)
unfolding unfinished Distinct is_unfinished lookup
unfinished-Waiting [] d = tt
unfinished-Waiting ((id, NodeState.pending) ∷ m) (n, d) = (
  (NodeState.pending, ground arith, drops),
  unfinished_listed id m n,
  Waiting-weaken id NodeState.pending m (unfinished m) n (unfinished-Waiting m d),
)
unfinished-Waiting ((id, NodeState.running) ∷ m) (n, d) = (
  (NodeState.running, ground arith, stops),
  unfinished_listed id m n,
  Waiting-weaken id NodeState.running m (unfinished m) n (unfinished-Waiting m d),
)
unfinished-Waiting ((id, NodeState.done) ∷ m) (n, d) =
    Waiting-weaken id NodeState.done m (unfinished m) n (unfinished-Waiting m d)
unfinished-Waiting ((id, NodeState.failed) ∷ m) (n, d) =
    Waiting-weaken id NodeState.failed m (unfinished m) n (unfinished-Waiting m d)
unfinished-Waiting ((id, NodeState.cancelled) ∷ m) (n, d) =
    Waiting-weaken id NodeState.cancelled m (unfinished m) n (unfinished-Waiting m d)
unfinished-Waiting ((id, NodeState.outcome_unknown) ∷ m) (n, d) =
    Waiting-weaken id NodeState.outcome_unknown m (unfinished m) n (unfinished-Waiting m d)

pub cancel-unfinished_Moves :
    (s : RouteRuntime)
    → Distinct s.states
    → Moves s.route.edges (snapshot s) (snapshot (cancel_unfinished s))
unfolding cancel_unfinished
cancel-unfinished_Moves s d =
    cancel-all_Moves (unfinished s.states) s (unfinished-Waiting s.states d)

pub Move-Distinct :
    {edges : List RouteEdge} {x y : Snapshot} → Move edges x y → Distinct x.0 → Distinct y.0
Move-Distinct (begins {m = m} id n _ _ _) d = insert-Distinct id NodeState.running m d
Move-Distinct (ends {m = m} id {y = y} _ _) d = insert-Distinct id y m d
Move-Distinct (retries {m = m} id {y = y} _ _) d = insert-Distinct id y m d

pub Moves-Distinct :
    {edges : List RouteEdge} {x y : Snapshot} → Moves edges x y → Distinct x.0 → Distinct y.0
Moves-Distinct stay d = d
Moves-Distinct (move m p) d = Moves-Distinct p (Move-Distinct m d)
