-- ===== src/Coordination/Runtime/Start.antt =====
-- When `RouteRuntime::start` succeeds, and what it leaves.
use forme_agent.Base.{
  Result-cases, ℕ, String, true, some, none, ok, err, ◌≡◌, ◌↔◌, ◌<◌, ◌≤◌, inl, inr, arith,
  Bool-cases, string_eq, nat_eq, ◌-◌,
}
use forme_agent.Base.Map.{lookup, insert, string_ord, contains_key}
use forme_agent.Coordination.Route.{
  NodeState, RouteStatus, RouteNode, Error, status_eq, node_state_eq,
}
use forme_agent.Coordination.Budget.{BudgetState, reserve, parse_budget_units}
use forme_agent.Coordination.Runtime.{
  RouteRuntime, dependencies_satisfied, start, started, start_reserved, is_runnable, budget_of,
  node, has_state,
}

-- The node is pending in a running route, what it depends on is satisfied, and its positive budget is
-- free and fits.
pub record Starts (id : String) (s : RouteRuntime) (n : RouteNode) (amount : ℕ) : Type 0 where
  pub route_running : s.status ≡ RouteStatus.running
  pub node_pending : lookup id s.states ≡ some NodeState.pending
  pub ready : dependencies_satisfied s.route.edges s.states id ≡ true
  pub known : node s id ≡ ok n
  pub priced : parse_budget_units n.role.budget ≡ ok amount
  pub positive : 0 < amount
  pub unreserved : lookup id s.budget.reservations ≡ none
  pub fits : amount ≤ s.budget.remaining

unfoldable pub charged : String → ℕ → BudgetState → BudgetState
charged id amount b = record {
  remaining = b.remaining - amount;
  reservations = insert id amount b.reservations;
}

pub reserve_ok :
    (id : String) (amount : ℕ) (b b' : BudgetState)
    → reserve id amount b ≡ (b', ok tt)
    → (0 < amount)
      × (lookup id b.reservations ≡ none)
      × (amount ≤ b.remaining)
      × (b' ≡ charged id amount b)
unfolding reserve charged contains_key
reserve_ok id amount b b' h = ground arith

pub reserve_fits :
    (id : String) (amount : ℕ) (b : BudgetState)
    → 0 < amount
    → lookup id b.reservations ≡ none
    → amount ≤ b.remaining
    → reserve id amount b ≡ (charged id amount b, ok tt)
unfolding reserve charged contains_key
reserve_fits id amount b p n f = ground arith

-- Both ways that a call can end.
pub data StartOutcome (id : String) (s : RouteRuntime) : Type 0 where
  refused : (e : Error) → start id s ≡ (s, err e) → StartOutcome id s
  begun :
      (n : RouteNode) (amount : ℕ)
      → Starts id s n amount
      → start id s ≡ (started id (charged id amount s.budget) s, ok tt)
      → StartOutcome id s

pub is-runnable_reads :
    (id : String) (s : RouteRuntime)
    → is_runnable id s ≡ true
    → (s.status ≡ RouteStatus.running)
      × (lookup id s.states ≡ some NodeState.pending)
      × (dependencies_satisfied s.route.edges s.states id ≡ true)
unfolding is_runnable has_state
is-runnable_reads id s h = ground arith

runnable_is :
    (id : String) (s : RouteRuntime)
    → s.status ≡ RouteStatus.running
    → lookup id s.states ≡ some NodeState.pending
    → dependencies_satisfied s.route.edges s.states id ≡ true
    → is_runnable id s ≡ true
unfolding is_runnable has_state
runnable_is id s p q r = ground arith

budget-of_reads :
    (id : String) (s : RouteRuntime) (amount : ℕ)
    → budget_of id s ≡ ok amount
    → (n : RouteNode) × (node s id ≡ ok n) × (parse_budget_units n.role.budget ≡ ok amount)
unfolding budget_of
budget-of_reads id s amount h = ground arith

reserve_err :
    (id : String) (amount : ℕ) (b : BudgetState) (e : Error)
    → (reserve id amount b).1 ≡ err e
    → reserve id amount b ≡ (b, err e)
unfolding reserve
reserve_err id amount b e h = ground arith

pub start-StartOutcome : (id : String) (s : RouteRuntime) → StartOutcome id s
unfolding start start_reserved
start-StartOutcome id s = elim (Bool-cases (is_runnable id s)) [
  | inr e ↦ refused Error.not_runnable (ground (arith, e))
  | inl run ↦ elim (Result-cases (budget_of id s)) [
    | inr (e, h) ↦ refused e (ground (arith, run, h))
    | inl (amount, h) ↦ elim (Result-cases (reserve id amount s.budget).1) [
      | inr (e, f) ↦ refused e (ground (arith, run, h, reserve_err id amount s.budget e f))
      | inl (_, f) ↦
          let (p, n, fits, _) =
            reserve_ok id amount s.budget (reserve id amount s.budget).0 (ground (arith, f)) in
          let (route_running, node_pending, ready) = is-runnable_reads id s run in
          let (m, known, priced) = budget-of_reads id s amount h in
          begun m amount
            (record {
              route_running = route_running;
              node_pending = node_pending;
              ready = ready;
              known = known;
              priced = priced;
              positive = p;
              unreserved = n;
              fits = fits;
            })
            (ground (arith, run, h, reserve_fits id amount s.budget p n fits))
    ]
  ]
]

-- A start succeeds exactly for a pending node of a running route whose dependencies are satisfied, and
-- whose profile names a positive budget that is not reserved and fits into what remains.
pub start_iff :
    (id : String) (s : RouteRuntime)
    → ((start id s).1 ≡ ok tt) ↔ ((n : RouteNode) × (amount : ℕ) × Starts id s n amount)
unfolding start start_reserved budget_of
start_iff id s = (forward (start-StartOutcome id s), backward)
  where
    forward :
        StartOutcome id s
        → (start id s).1 ≡ ok tt
        → (n : RouteNode) × (amount : ℕ) × Starts id s n amount
    forward (refused e r) h = cc
    forward (begun n amount p r) h = (n, amount, p)

    backward : ((n : RouteNode) × (amount : ℕ) × Starts id s n amount) → (start id s).1 ≡ ok tt
    backward (n, amount, p) = ground (
      arith,
      runnable_is id s p.route_running p.node_pending p.ready,
      p.known,
      p.priced,
      reserve_fits id amount s.budget p.positive p.unreserved p.fits,
    )
