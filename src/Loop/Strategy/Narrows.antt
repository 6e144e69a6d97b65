-- ===== src/Loop/Strategy/Narrows.antt =====
-- A strategy never widens the budget of its run.
use forme_agent.Base.{ℕ, ◌≤◌, Option, none, some, ◌≡◌, refl, subst, false, ok, arith, ltb, nat_eq}
use forme_agent.Loop.Strategy.{
  LoopStrategySpec, Budget, LoopError, apply_loop_strategy, reject_wider,
}

-- There is a limit, and it is no more than the limit before.
abbrev pub NoMore : Option ℕ → Option ℕ → Type 0
NoMore new none = (n : ℕ) × (new ≡ some n)
NoMore new (some limit) = (n : ℕ) × (new ≡ some n) × (n ≤ limit)

pub record Narrows (new hard : Budget) : Type 0 where
  pub tokens : NoMore new.tokens hard.tokens
  pub wall_time : NoMore new.wall_time hard.wall_time
  pub cost : NoMore new.cost_microunits hard.cost_microunits
  pub tool_calls : NoMore new.tool_calls hard.tool_calls
  pub turns : new.max_turns ≤ hard.max_turns

no_more :
    (e : LoopError) (n : ℕ) (hard : Option ℕ) → reject_wider e n hard ≡ ok tt → NoMore (some n) hard
unfolding reject_wider
no_more e n none h = (n, refl)
no_more e n (some limit) h = (n, refl, ground arith)

abbrev narrowed_budget : LoopStrategySpec → Budget → Budget
narrowed_budget spec hard = record {
  schema_version = hard.schema_version;
  tokens = some spec.budget.max_tokens;
  wall_time = some spec.budget.max_wall_time_ms;
  cost_microunits = some spec.budget.max_cost_microunits;
  tool_calls = some spec.budget.max_tool_calls;
  max_turns = spec.budget.max_turns;
}

narrowed :
    (spec : LoopStrategySpec) (hard : Budget)
    → NoMore (some spec.budget.max_tokens) hard.tokens
    → NoMore (some spec.budget.max_wall_time_ms) hard.wall_time
    → NoMore (some spec.budget.max_cost_microunits) hard.cost_microunits
    → NoMore (some spec.budget.max_tool_calls) hard.tool_calls
    → ltb hard.max_turns spec.budget.max_turns ≡ false
    → Narrows (narrowed_budget spec hard) hard
narrowed spec hard a b c d e = record {
  tokens = a;
  wall_time = b;
  cost = c;
  tool_calls = d;
  turns = ground arith;
}

-- A budget that `apply_loop_strategy` gives has a limit on tokens, time, cost and tool calls, and none
-- of these limits, nor the limit on turns, is above the one that the run had.
pub apply_loop_strategy-Narrows :
    (spec : LoopStrategySpec) (hard new : Budget)
    → apply_loop_strategy spec hard ≡ ok new
    → Narrows new hard
unfolding apply_loop_strategy
apply_loop_strategy-Narrows spec hard new h =
    let tokens = no_more LoopError.wider_tokens spec.budget.max_tokens hard.tokens (ground arith) in
    let wall =
      no_more LoopError.wider_wall_time spec.budget.max_wall_time_ms hard.wall_time
        (ground arith) in
    let cost =
      no_more LoopError.wider_cost spec.budget.max_cost_microunits hard.cost_microunits
        (ground arith) in
    let calls =
      no_more LoopError.wider_tool_calls spec.budget.max_tool_calls hard.tool_calls
        (ground arith) in
    subst (λ b. Narrows b hard) (ground arith)
      (narrowed spec hard tokens wall cost calls (ground arith))
