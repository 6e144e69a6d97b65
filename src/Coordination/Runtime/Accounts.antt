-- ===== src/Coordination/Runtime/Accounts.antt =====
-- The budget of a route: what is left and what the running nodes hold is the parent's budget.
use forme_agent.Base.{
  ℕ, String, List, some, none, ◌≡◌, ◌≢◌, refl, sym, subst, arith, string_eq, ◌+◌, ◌<◌, ◌≤◌, ◌^◌,
}
use forme_agent.Base.Map.{
  Map, lookup, insert, string_ord, lookup-insert, lookup-remove, Distinct, insert-Distinct,
  remove-Distinct,
}
use forme_agent.Coordination.Route.{RouteEdge, ExecutionRoute, NodeState}
use forme_agent.Coordination.Budget.{BudgetState, reserve, release, or_zero}
use forme_agent.Coordination.Budget as Budget
use forme_agent.Coordination.Budget.Conservation.{reserved, insert-reserved, release-reserved}
use forme_agent.Coordination.Runtime.{fresh}
use forme_agent.Coordination.Runtime.Start.{charged, reserve_ok}
use forme_agent.Coordination.Runtime.Moves.{
  Snapshot, Move, begins, ends, retries, Moves, stay, move, Ends, Rests, finishes, breaks, stops,
  drops, again, unknown,
}
use forme_agent.Coordination.Runtime.Calls.{Call, run, run-Follows}
use forme_agent.Coordination.Runtime.Order.{has_worked, all-pending_state, fresh-Distinct}

pub record Accounts (total : ℕ) (m : Map String NodeState) (b : BudgetState) : Type 0 where
  pub conserved : b.remaining + reserved b.reservations ≡ total
  pub distinct : Distinct b.reservations
  pub running_holds :
      (k : String) → lookup k m ≡ some NodeState.running → lookup k b.reservations ≢ none
  pub others_hold_none :
      (k : String) → lookup k m ≢ some NodeState.running → lookup k b.reservations ≡ none

charge-Accounts :
    (total : ℕ) (m : Map String NodeState) (b : BudgetState) (id : String) (n : ℕ)
    → lookup id b.reservations ≡ none
    → n ≤ b.remaining
    → Accounts total m b
    → Accounts total (insert id NodeState.running m) (charged id n b)
unfolding charged
charge-Accounts total m b id n free fits a = record {
  conserved = ground (arith, a.conserved, fits, insert-reserved id n b.reservations free);
  distinct = insert-Distinct id n b.reservations a.distinct;
  running_holds = λ k h. ground (
    arith,
    a.running_holds k,
    lookup-insert k id NodeState.running m,
    lookup-insert k id n b.reservations,
  );
  others_hold_none = λ k h. ground (
    arith,
    a.others_hold_none k,
    lookup-insert k id NodeState.running m,
    lookup-insert k id n b.reservations,
  );
}

release-Accounts :
    (total : ℕ) (m : Map String NodeState) (b : BudgetState) (id : String) (y : NodeState)
    → total < 2 ^ 64
    → y ≢ NodeState.running
    → Accounts total m b
    → Accounts total (insert id y m) (release id b).0
unfolding release
release-Accounts total m b id y small n a = record {
  conserved = ground (arith, a.conserved, release-reserved id b.reservations a.distinct);
  distinct = remove-Distinct id b.reservations a.distinct;
  running_holds = λ k h.
      ground
        (arith, a.running_holds k, n, lookup-insert k id y m, lookup-remove k id b.reservations);
  others_hold_none = λ k h.
      ground
        (arith, a.others_hold_none k, lookup-insert k id y m, lookup-remove k id b.reservations);
}

rest-Accounts :
    (total : ℕ) (m : Map String NodeState) (b : BudgetState) (id : String) (y : NodeState)
    → lookup id m ≡ some NodeState.failed
    → y ≢ NodeState.running
    → Accounts total m b
    → Accounts total (insert id y m) b
rest-Accounts total m b id y f n a = record {
  conserved = a.conserved;
  distinct = a.distinct;
  running_holds = λ k h. ground (arith, a.running_holds k, n, lookup-insert k id y m);
  others_hold_none = λ k h. ground (arith, f, a.others_hold_none k, lookup-insert k id y m);
}

Ends-idle : {x y : NodeState} → Ends x y → y ≢ NodeState.running
Ends-idle finishes p = cc
Ends-idle breaks p = cc
Ends-idle stops p = cc
Ends-idle drops p = cc

Rests-idle : {y : NodeState} → Rests y → y ≢ NodeState.running
Rests-idle again p = cc
Rests-idle unknown p = cc

Move-Accounts :
    {edges : List RouteEdge} {x y : Snapshot} (total : ℕ)
    → total < 2 ^ 64
    → Move edges x y
    → Accounts total x.0 x.1
    → Accounts total y.0 y.1
Move-Accounts total small (begins {m = m} {b = b} {b' = b'} id n f _ r) a =
    let (_, free, fits, same) = reserve_ok id n b b' r in
    subst (Accounts total (insert id NodeState.running m)) (sym same)
      (charge-Accounts total m b id n free fits a)
Move-Accounts total small (ends {m = m} {b = b} id {y = y} f e) a =
    release-Accounts total m b id y small (Ends-idle e) a
Move-Accounts total small (retries {m = m} {b = b} id {y = y} f r) a =
    rest-Accounts total m b id y f (Rests-idle r) a

pub Moves-Accounts :
    {edges : List RouteEdge} {x y : Snapshot} (total : ℕ)
    → total < 2 ^ 64
    → Moves edges x y
    → Accounts total x.0 x.1
    → Accounts total y.0 y.1
Moves-Accounts total small stay a = a
Moves-Accounts total small (move m p) a =
    Moves-Accounts total small p (Move-Accounts total small m a)

fresh-Accounts :
    (route : ExecutionRoute) (total : ℕ)
    → Accounts total (fresh route total).states (fresh route total).budget
unfolding fresh Budget.new reserved Distinct has_worked lookup
fresh-Accounts route total = record {
  conserved = omega arith;
  distinct = tt;
  running_holds = λ k h. ground (arith, all-pending_state route.nodes k);
  others_hold_none = λ k h. refl;
}

-- After any calls on a new runtime with a 64-bit budget: what remains and what is reserved sum up to that
-- budget, no node has two reservations, and exactly the running nodes have a reservation.
pub run-Accounts :
    (route : ExecutionRoute) (total : ℕ) (cs : List Call)
    → total < 2 ^ 64
    → Accounts total (run cs (fresh route total)).states (run cs (fresh route total)).budget
run-Accounts route total cs small =
    Moves-Accounts total small (run-Follows cs (fresh route total) (fresh-Distinct route total)).1
      (fresh-Accounts route total)
