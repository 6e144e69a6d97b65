-- ===== src/Coordination/Runtime.antt =====
-- crates/coordination/src/lib.rs: `RouteRuntime`. A call returns the state that it leaves and its result.
pub mod Start
pub mod Moves
pub mod Calls
pub mod Order
pub mod Accounts
pub mod Stops
pub mod Completion
pub mod Liveness
pub mod Progress
pub mod Quiet
pub mod Attempts
use forme_agent.Base.{
  ℕ, String, Bool, true, false, not, ◌&&◌, ◌||◌, List, [], ◌∷◌, Option, none, some, Result, ok, err,
  reject, ◌>>=◌, ◌>>◌, if◌then◌else◌, leb, ◌==◌, ◌!=◌, string_eq, ◌+◌, ◌%◌, ◌^◌, all, any, filter,
  find, contains,
}
use forme_agent.Base.Map.{Map, lookup, insert, string_ord}
use forme_agent.Protocol.Kinds.{Ref}
use forme_agent.Coordination.Route.{
  RouteNode, FailurePolicy, RouteEdge, ExecutionRoute, NodeState, RouteStatus, RouteOutcome,
  RetryDecision, Error, not_runnable, no_node, not_running, not_failed, policy_eq, node_state_eq,
  status_eq,
}
use forme_agent.Coordination.Budget.{BudgetState, reserve, release, or_zero, parse_budget_units}
use forme_agent.Coordination.Budget as Budget
use forme_agent.Coordination.Validation.{validate_route}

pub record RouteRuntime : Type 0 where
  pub route : ExecutionRoute
  pub states : Map String NodeState
  pub attempts : Map String ℕ
  pub intent_attempts : List (String × Ref)
  pub results : Map String Ref
  pub status : RouteStatus
  pub budget : BudgetState

pub all_pending : List RouteNode → Map String NodeState
all_pending [] = []
all_pending (n ∷ ns) = insert n.subtask.id NodeState.pending (all_pending ns)

first_status : Map String NodeState → RouteStatus
first_status [] = RouteStatus.completed
first_status (_ ∷ _) = RouteStatus.running

-- What `RouteRuntime::new` returns for a route that it found valid.
unfoldable pub fresh : ExecutionRoute → ℕ → RouteRuntime
unfolding all_pending first_status
fresh route parent_budget =
    let states = all_pending route.nodes in
    record {
      route = route;
      states = states;
      attempts = [];
      intent_attempts = [];
      results = [];
      status = first_status states;
      budget = Budget.new parent_budget;
    }

unfoldable pub new : ExecutionRoute → ℕ → Result Error RouteRuntime
unfolding fresh
new route parent_budget = validate_route route >>= λ _. ok (fresh route parent_budget)

unfoldable pub has_state : NodeState → Option NodeState → Bool
has_state x none = false
has_state x (some y) = x == y

unfoldable pub tolerates : RouteEdge → Bool
tolerates e = e.on_failure == FailurePolicy.continue_route

unfoldable pub satisfied : RouteEdge → Option NodeState → Bool
unfolding tolerates
satisfied e (some NodeState.done) = true
satisfied e (some NodeState.failed) = tolerates e
satisfied e _ = false

unfoldable pub dependencies_satisfied : List RouteEdge → Map String NodeState → String → Bool
unfolding satisfied
dependencies_satisfied edges states node =
    all (λ e. satisfied e (lookup e.source states)) (filter (λ e. e.target == node) edges)

unfoldable pub runnable : RouteRuntime → List RouteNode
unfolding has_state dependencies_satisfied
runnable s =
    if s.status != RouteStatus.running
    then []
    else filter (λ n. dependencies_satisfied s.route.edges s.states n.subtask.id)
        (filter (λ n. has_state NodeState.pending (lookup n.subtask.id s.states)) s.route.nodes)

unfoldable pub node : RouteRuntime → String → Result Error RouteNode
node s id = elim (find (λ n. n.subtask.id == id) s.route.nodes) [
  | none ↦ err no_node
  | some n ↦ ok n
]

unfoldable pub mark : String → NodeState → RouteRuntime → RouteRuntime
mark id x s = record s { states = insert id x s.states }

unfoldable pub budget_of : String → RouteRuntime → Result Error ℕ
unfolding node
budget_of id s = node s id >>= λ n. parse_budget_units n.role.budget

unfoldable pub is_runnable : String → RouteRuntime → Bool
unfolding has_state dependencies_satisfied
is_runnable id s = not (
    s.status != RouteStatus.running
    || not (has_state NodeState.pending (lookup id s.states))
    || not (dependencies_satisfied s.route.edges s.states id))

-- The node is running on its budget, and the attempt is counted in 32 bits.
unfoldable pub started : String → BudgetState → RouteRuntime → RouteRuntime
unfolding mark
started id b s = record s {
  budget = b;
  states = insert id NodeState.running s.states;
  attempts = insert id ((or_zero (lookup id s.attempts) + 1) % 2 ^ 32) s.attempts;
}

unfoldable pub start_reserved :
    String
    → BudgetState × Result Error (Unit {0})
    → RouteRuntime
    → RouteRuntime × Result Error (Unit {0})
unfolding started
start_reserved id (b, err e) s = (record s { budget = b }, err e)
start_reserved id (b, ok _) s = (started id b s, ok tt)

unfoldable pub start : String → RouteRuntime → RouteRuntime × Result Error (Unit {0})
unfolding is_runnable budget_of start_reserved
start id s =
    if is_runnable id s
    then (elim (budget_of id s) [
      | err e ↦ (s, err e)
      | ok amount ↦ start_reserved id (reserve id amount s.budget) s
    ])
    else (s, err not_runnable)

unfoldable pub require_running : String → RouteRuntime → Result Error (Unit {0})
unfolding has_state
require_running id s = reject (not (has_state NodeState.running (lookup id s.states))) not_running

-- `self.budget.release(node)?; self.states.insert(node, x)`.
unfoldable pub settle : String → NodeState → RouteRuntime → RouteRuntime
settle id x s = record s { budget = (release id s.budget).0; states = insert id x s.states }

unfoldable pub tolerated : List RouteEdge → String → NodeState → Bool
unfolding tolerates
tolerated edges id NodeState.done = true
tolerated edges id NodeState.failed = all tolerates (filter (λ e. e.source == id) edges)
tolerated edges id _ = false

unfoldable pub all_terminal_with_tolerated_failures : List RouteEdge → Map String NodeState → Bool
unfolding tolerated
all_terminal_with_tolerated_failures edges states = all (λ e. tolerated edges e.0 e.1) states

completed : RouteRuntime → RouteRuntime
completed s =
    if all_terminal_with_tolerated_failures s.route.edges s.states
    then record s { status = RouteStatus.completed }
    else s

unfoldable pub complete : String → Ref → RouteRuntime → RouteRuntime × Result Error (Unit {0})
unfolding require_running settle completed
complete id result s = elim (require_running id s) [
  | err e ↦ (s, err e)
  | ok _ ↦ (
    completed (record (settle id NodeState.done s) { results = insert id result s.results }),
    ok tt,
  )
]

unfoldable pub is_unfinished : NodeState → Bool
is_unfinished NodeState.pending = true
is_unfinished NodeState.running = true
is_unfinished _ = false

unfoldable pub unfinished : Map String NodeState → List String
unfolding is_unfinished
unfinished [] = []
unfinished ((id, x) ∷ m) = let rest = unfinished m in if is_unfinished x then id ∷ rest else rest

unfoldable pub cancel_all : List String → RouteRuntime → RouteRuntime
unfolding settle
cancel_all [] s = s
cancel_all (id ∷ ids) s = cancel_all ids (settle id NodeState.cancelled s)

unfoldable pub cancel_unfinished : RouteRuntime → RouteRuntime
unfolding unfinished cancel_all
cancel_unfinished s = cancel_all (unfinished s.states) s

unfoldable pub policies : List RouteEdge → String → List FailurePolicy
policies [] id = []
policies (e ∷ es) id =
    let rest = policies es id in if e.source == id then e.on_failure ∷ rest else rest

is_nil {ℓ} : {A : Type ℓ} → List A → Bool
is_nil [] = true
is_nil (_ ∷ _) = false

unfoldable pub after_failure : List FailurePolicy → RouteRuntime → RouteRuntime
unfolding cancel_unfinished runnable is_nil
after_failure ps s =
    if contains ps FailurePolicy.abort_route
    then cancel_unfinished (record s { status = RouteStatus.failed })
    else (if contains ps FailurePolicy.replan
        then cancel_unfinished (record s { status = RouteStatus.replan_requested })
        else (if is_nil (runnable s) then record s { status = RouteStatus.failed } else s))

unfoldable pub fail : String → RouteRuntime → RouteRuntime × Result Error (Unit {0})
unfolding require_running settle after_failure policies
fail id s = elim (require_running id s) [
  | err e ↦ (s, err e)
  | ok _ ↦ (after_failure (policies s.route.edges id) (settle id NodeState.failed s), ok tt)
]

-- Under a fresh key, which is already stored.
unfoldable pub retry_fresh : String → RouteRuntime → RouteRuntime × Result Error RetryDecision
unfolding node mark
retry_fresh id s = elim (node s id) [
  | err e ↦ (s, err e)
  | ok n ↦
      if leb n.retry.max_attempts (or_zero (lookup id s.attempts))
      then (s, ok RetryDecision.exhausted)
      else (
        record (mark id NodeState.pending s) { status = RouteStatus.running },
        ok RetryDecision.retry,
      )
]

unfoldable pub retry :
    String → Ref → Bool → RouteRuntime → RouteRuntime × Result Error RetryDecision
unfolding has_state mark retry_fresh
retry id intent_id side_effect_known_absent s =
    if not (has_state NodeState.failed (lookup id s.states))
    then (s, err not_failed)
    else (if not side_effect_known_absent
        then (
          record (mark id NodeState.outcome_unknown s) { status = RouteStatus.failed },
          ok RetryDecision.outcome_unknown,
        )
        else (if any (λ k. k.0 == id && k.1 == intent_id) s.intent_attempts
            then (s, ok RetryDecision.exhausted)
            else retry_fresh id
                (record s { intent_attempts = (id, intent_id) ∷ s.intent_attempts })))

unfoldable pub cancel_parent : RouteRuntime → RouteRuntime
unfolding cancel_unfinished
cancel_parent s = cancel_unfinished (record s { status = RouteStatus.cancelled })

unfoldable pub outcome : RouteRuntime → RouteOutcome
outcome s = record {
  schema_version = 1;
  status = s.status;
  node_states = s.states;
  result_refs = s.results;
}
