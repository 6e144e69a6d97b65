-- ===== src/Coordination/Tests.antt =====
-- The route runtime at concrete inputs.
use forme_agent.Base.{
  ℕ, String, true, false, List, [], ◌∷◌, some, none, ok, err, ℕ_discrete, ◌≡◌, ◌⊎◌, inl, refl,
  arith, string_eq, any, ◌==◌, ◌&&◌, find, filter, all, contains, starts_with, subst, sym, ap, ◌∙◌,
  ◌≤◌, length, inr, ◌<◌, ◌^◌,
}
use forme_agent.Base.Map.{lookup, insert, contains_key, Distinct, string_ord}
use forme_agent.Base.Text.{string_discrete, string_less, is_whitespace, is_blank}
use forme_agent.Base.Members.{Member}
use forme_agent.Coordination.Contract.{Toolset, is_verifiable, final_output_contract}
use forme_agent.Coordination.Route.{
  RouteNode, RouteEdge, ExecutionRoute, NodeState, FailurePolicy, RouteStatus, bad_units,
  status_discrete, node_state_discrete, policy_discrete,
}
use forme_agent.Coordination.Budget.{BudgetState, parse_budget_units, reserve, release}
use forme_agent.Coordination.Budget as Budget
use forme_agent.Coordination.Runtime.{
  RouteRuntime, fresh, start, complete, fail, retry, cancel_parent, node,
  all_terminal_with_tolerated_failures,
}
use forme_agent.Coordination.Validation.{validate_route, visited_count, edge_is_invalid, id_set}
use forme_agent.Coordination.Validation.Correct.{IsValid, node_ids}
use forme_agent.Coordination.Validation.Exact.{validate_iff, visited-count_total}
use forme_agent.Coordination.Runtime.Calls.{Call, starts, completes, fails, run, step}
use forme_agent.Coordination.Runtime.Order.{has_worked, run_ordered}
use forme_agent.Coordination.Runtime.Accounts.{Accounts, run-Accounts}
use forme_agent.Coordination.Runtime.Stops.{retry_resumes}
use forme_agent.Coordination.Runtime.Liveness.{Priced, start_progress}
use forme_agent.Coordination.Runtime.Quiet.{attempts_of, allowed_starts}
use forme_agent.Coordination.Runtime.Attempts.{run_attempts}
use forme_agent.Coordination.Runtime.Completion.{run-completed}

abbrev no_tools : Toolset
no_tools = record {
  schema_version = 1;
  toolset_ref = "toolset:none";
  items = [];
  scope = "scope:1";
  sources = [];
}

abbrev node_on : String → String → RouteNode
node_on id budget = record {
  schema_version = 1;
  subtask = record { schema_version = 1; id = id; instruction = "do"; intent_id = "intent:1" };
  role = record {
    schema_version = 1;
    role = "role:1";
    toolset = no_tools;
    model = "model:1";
    permission = "scope:1";
    budget = budget;
  };
  resource_slice = no_tools;
  done = final_output_contract "done:1";
  retry = record { schema_version = 1; max_attempts = 2 };
}

abbrev review_edge : RouteEdge
review_edge = record {
  schema_version = 1;
  source = "plan";
  target = "check";
  on_failure = FailurePolicy.abort_route;
}

abbrev review_route : ExecutionRoute
review_route = record {
  schema_version = 1;
  reference = "route:1";
  pattern_ref = none;
  nodes = node_on "plan" "units:3" ∷ node_on "check" " 4 " ∷ [];
  edges = review_edge ∷ [];
}

abbrev both_started : List Call
both_started = starts "plan" ∷ completes "plan" "result:1" ∷ starts "check" ∷ []

units_read : parse_budget_units " units:12 " ≡ ok 12
unfolding parse_budget_units Budget.parse_u64 starts_with Budget.trim_end Budget.trim_start
    is_whitespace ℕ_discrete Budget.drop Budget.parse_digits
units_read = refl

no_units : parse_budget_units "units:-1" ≡ err bad_units
unfolding parse_budget_units Budget.parse_u64 starts_with Budget.trim_end Budget.trim_start
    is_whitespace ℕ_discrete Budget.drop Budget.parse_digits
no_units = refl

plan_starts : (start "plan" (fresh review_route 10)).1 ≡ ok tt
unfolding run step start complete fresh lookup insert status_discrete node_state_discrete
    string_discrete string_less all filter find parse_budget_units Budget.parse_u64 starts_with
    Budget.trim_end Budget.trim_start is_whitespace ℕ_discrete Budget.drop Budget.parse_digits
    reserve contains_key Budget.new all_terminal_with_tolerated_failures release Budget.or_zero
plan_starts = refl

check_runs : has_worked (lookup "check" (run both_started (fresh review_route 10)).states) ≡ true
unfolding run step start complete fresh lookup insert status_discrete node_state_discrete
    string_discrete string_less all filter find parse_budget_units Budget.parse_u64 starts_with
    Budget.trim_end Budget.trim_start is_whitespace ℕ_discrete Budget.drop Budget.parse_digits
    reserve contains_key Budget.new all_terminal_with_tolerated_failures release Budget.or_zero
    has_worked
check_runs = refl

run_ordered_example :
    lookup "plan" (run both_started (fresh review_route 10)).states ≡ some NodeState.done
run_ordered_example =
    run_ordered review_route 10 both_started review_edge (inl refl) (λ p. cc) check_runs

abbrev plan_done : RouteRuntime
plan_done = run (starts "plan" ∷ completes "plan" "result:1" ∷ []) (fresh review_route 10)

plan_is_done : lookup "plan" plan_done.states ≡ some NodeState.done
unfolding run step start complete fresh lookup insert status_discrete node_state_discrete
    string_discrete string_less all filter find parse_budget_units Budget.parse_u64 starts_with
    Budget.trim_end Budget.trim_start is_whitespace ℕ_discrete Budget.drop Budget.parse_digits
    reserve contains_key Budget.new all_terminal_with_tolerated_failures release Budget.or_zero
plan_is_done = refl

plan_done-Distinct : Distinct plan_done.states
unfolding run step start complete fresh lookup insert status_discrete node_state_discrete
    string_discrete string_less all filter find parse_budget_units Budget.parse_u64 starts_with
    Budget.trim_end Budget.trim_start is_whitespace ℕ_discrete Budget.drop Budget.parse_digits
    reserve contains_key Budget.new all_terminal_with_tolerated_failures release Budget.or_zero
    Distinct
plan_done-Distinct = (refl, (refl, tt))

run-Accounts_example :
    Accounts 10
      (run both_started (fresh review_route 10)).states
      (run both_started (fresh review_route 10)).budget
run-Accounts_example = run-Accounts review_route 10 both_started (omega arith)

abbrev all_done : List Call
all_done =
    starts "plan" ∷ completes "plan" "result:1" ∷ starts "check" ∷ completes "check" "result:2" ∷ []

route_completed : (run all_done (fresh review_route 10)).status ≡ RouteStatus.completed
unfolding run step start complete fresh lookup insert status_discrete node_state_discrete
    string_discrete string_less all filter find parse_budget_units Budget.parse_u64 starts_with
    Budget.trim_end Budget.trim_start is_whitespace ℕ_discrete Budget.drop Budget.parse_digits
    reserve contains_key Budget.new all_terminal_with_tolerated_failures release Budget.or_zero
route_completed = refl

check_is_done : lookup "check" (run all_done (fresh review_route 10)).states ≡ some NodeState.done
unfolding run step start complete fresh lookup insert status_discrete node_state_discrete
    string_discrete string_less all filter find parse_budget_units Budget.parse_u64 starts_with
    Budget.trim_end Budget.trim_start is_whitespace ℕ_discrete Budget.drop Budget.parse_digits
    reserve contains_key Budget.new all_terminal_with_tolerated_failures release Budget.or_zero
check_is_done = refl

run-completed_example :
    (NodeState.done ≡ NodeState.done)
    ⊎ ((NodeState.done ≡ NodeState.failed)
        × ((e : RouteEdge)
            → Member e review_route.edges
            → e.source ≡ "check"
            → e.on_failure ≡ FailurePolicy.continue_route))
run-completed_example =
    run-completed review_route 10 all_done "check" NodeState.done route_completed check_is_done

abbrev plan_failed : RouteRuntime
plan_failed = run (starts "plan" ∷ fails "plan" ∷ []) (fresh review_route 10)

plan_is_failed : lookup "plan" plan_failed.states ≡ some NodeState.failed
unfolding run step start complete fresh lookup insert status_discrete node_state_discrete
    string_discrete string_less all filter find parse_budget_units Budget.parse_u64 starts_with
    Budget.trim_end Budget.trim_start is_whitespace ℕ_discrete Budget.drop Budget.parse_digits
    reserve contains_key Budget.new all_terminal_with_tolerated_failures release Budget.or_zero fail
    contains policy_discrete
plan_is_failed = refl

plan_failed-Distinct : Distinct plan_failed.states
unfolding run step start complete fresh lookup insert status_discrete node_state_discrete
    string_discrete string_less all filter find parse_budget_units Budget.parse_u64 starts_with
    Budget.trim_end Budget.trim_start is_whitespace ℕ_discrete Budget.drop Budget.parse_digits
    reserve contains_key Budget.new all_terminal_with_tolerated_failures release Budget.or_zero
    Distinct fail contains policy_discrete
plan_failed-Distinct = (refl, (refl, tt))

plan_known : node plan_failed "plan" ≡ ok (node_on "plan" "units:3")
unfolding run step start complete fresh lookup insert status_discrete node_state_discrete
    string_discrete string_less all filter find parse_budget_units Budget.parse_u64 starts_with
    Budget.trim_end Budget.trim_start is_whitespace ℕ_discrete Budget.drop Budget.parse_digits
    reserve contains_key Budget.new all_terminal_with_tolerated_failures release Budget.or_zero fail
    node contains policy_discrete
plan_known = refl

plan_attempts : Budget.or_zero (lookup "plan" plan_failed.attempts) ≡ 1
unfolding run step start complete fresh lookup insert status_discrete node_state_discrete
    string_discrete string_less all filter find parse_budget_units Budget.parse_u64 starts_with
    Budget.trim_end Budget.trim_start is_whitespace ℕ_discrete Budget.drop Budget.parse_digits
    reserve contains_key Budget.new all_terminal_with_tolerated_failures release Budget.or_zero fail
    contains policy_discrete
plan_attempts = refl

no_intents : any (λ k. k.0 == "plan" && k.1 == "intent:1") plan_failed.intent_attempts ≡ false
unfolding run step start complete fresh lookup insert status_discrete node_state_discrete
    string_discrete string_less all filter find parse_budget_units Budget.parse_u64 starts_with
    Budget.trim_end Budget.trim_start is_whitespace ℕ_discrete Budget.drop Budget.parse_digits
    reserve contains_key Budget.new all_terminal_with_tolerated_failures release Budget.or_zero fail
    any contains policy_discrete
no_intents = refl

retry_resumes_example :
    ((retry "plan" "intent:1" true (cancel_parent plan_failed)).0.status ≡ RouteStatus.running)
    × (lookup "plan" (retry "plan" "intent:1" true (cancel_parent plan_failed)).0.states
        ≡ some NodeState.pending)
retry_resumes_example =
    retry_resumes plan_failed "plan" "intent:1" (node_on "plan" "units:3") plan_failed-Distinct
      plan_is_failed plan_known (ground (arith, plan_attempts)) no_intents

review_accepted : validate_route review_route ≡ ok tt
unfolding validate_route is_blank string_discrete ℕ_discrete string_less any insert is_verifiable
    final_output_contract contains_key lookup Budget.or_zero
review_accepted = refl

validate_iff_example : IsValid review_route
validate_iff_example = (validate_iff review_route).0 review_accepted

edges_join : any (edge_is_invalid (id_set review_route.nodes)) review_route.edges ≡ false
unfolding any edge_is_invalid id_set insert contains_key lookup string_discrete string_less
edges_join = refl

visited-count_total_example :
    (n : ℕ) × (visited_count (id_set review_route.nodes) review_route.edges ≡ some n)
    × (n ≤ length (id_set review_route.nodes))
visited-count_total_example = visited-count_total review_route.nodes review_route.edges edges_join

abbrev plan_calls : List Call
plan_calls = starts "plan" ∷ completes "plan" "result:1" ∷ []

plan_running : (run plan_calls (fresh review_route 10)).status ≡ RouteStatus.running
unfolding run step start complete fresh lookup insert status_discrete node_state_discrete
    string_discrete string_less all filter find parse_budget_units Budget.parse_u64 starts_with
    Budget.trim_end Budget.trim_start is_whitespace ℕ_discrete Budget.drop Budget.parse_digits
    reserve contains_key Budget.new all_terminal_with_tolerated_failures release Budget.or_zero
plan_running = refl

check_pending :
    lookup "check" (run plan_calls (fresh review_route 10)).states ≡ some NodeState.pending
unfolding run step start complete fresh lookup insert status_discrete node_state_discrete
    string_discrete string_less all filter find parse_budget_units Budget.parse_u64 starts_with
    Budget.trim_end Budget.trim_start is_whitespace ℕ_discrete Budget.drop Budget.parse_digits
    reserve contains_key Budget.new all_terminal_with_tolerated_failures release Budget.or_zero
check_pending = refl

pending_or_done :
    (w : String)
    → Member w ("plan" ∷ "check" ∷ [])
    → (lookup w (run plan_calls (fresh review_route 10)).states ≡ some NodeState.pending)
      ⊎ (lookup w (run plan_calls (fresh review_route 10)).states ≡ some NodeState.done)
pending_or_done w (inl p) = inr (
    subst (λ x. lookup x (run plan_calls (fresh review_route 10)).states ≡ some NodeState.done) p
      plan_is_done)
pending_or_done w (inr (inl p)) = inl (
    subst (λ x. lookup x (run plan_calls (fresh review_route 10)).states ≡ some NodeState.pending) p
      check_pending)
pending_or_done w (inr (inr m)) = elim m [ ]

plan_price : parse_budget_units "units:3" ≡ ok 3
unfolding parse_budget_units Budget.parse_u64 starts_with Budget.trim_end Budget.trim_start
    is_whitespace ℕ_discrete Budget.drop Budget.parse_digits
plan_price = refl

check_price : parse_budget_units " 4 " ≡ ok 4
unfolding parse_budget_units Budget.parse_u64 starts_with Budget.trim_end Budget.trim_start
    is_whitespace ℕ_discrete Budget.drop Budget.parse_digits
check_price = refl

review-Priced : Priced review_route 10
review-Priced n (inl p) =
    (3, ap (λ x. parse_budget_units x.role.budget) (sym p) ∙ plan_price, omega arith, omega arith)
review-Priced n (inr (inl p)) =
    (4, ap (λ x. parse_budget_units x.role.budget) (sym p) ∙ check_price, omega arith, omega arith)
review-Priced n (inr (inr m)) = elim m [ ]

start_progress_example :
    (w : String) × ((start w (run plan_calls (fresh review_route 10))).1 ≡ ok tt)
unfolding node_ids
start_progress_example =
    start_progress review_route 10 plan_calls "check" (omega arith) validate_iff_example
      review-Priced plan_running pending_or_done check_pending

narrow_limits : (j : String) → allowed_starts (fresh review_route 10) j < 2 ^ 32
unfolding allowed_starts node find fresh
narrow_limits j = ground arith

run_attempts_example :
    attempts_of "plan" (run both_started (fresh review_route 10))
    ≤ allowed_starts (fresh review_route 10) "plan"
run_attempts_example = run_attempts review_route 10 both_started "plan" narrow_limits
