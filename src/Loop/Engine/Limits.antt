-- ===== src/Loop/Engine/Limits.antt =====
-- The limits of a run, over anything that is done to it.
use forme_agent.Base.{
  String, ℕ, ◌≤◌, true, false, ◌||◌, List, [], ◌∷◌, some, ◌≡◌, inl, inr, sym, ap, subst, ok, arith,
  Result-cases, Bool-cases, not, ◌∙◌, nat_eq,
}
use forme_agent.Protocol.Kinds.{Ref, Provenance, RunStatus}
use forme_agent.Loop.Messages.{ModelOutput}
use forme_agent.Loop.Strategy.{LoopStrategySpec, apply_loop_strategy, Budget}
use forme_agent.Loop.Run.{
  RunCtx, StopReason, BudgetKind, ContextSources, is_bound, new_run, bind_strategy, suspend,
  complete_final, terminate, continue_after_tool, end_turn, take_events, push, is_session_bound,
}
use forme_agent.Loop.Engine.{
  Services, drive, take_turn, call_model, answered, classify, begin_turn, begin_call, end_call,
  reached, exceeded, request, returned,
}
use forme_agent.Loop.Engine.Cases.{DriveCase, idle, limited, turns, drive-DriveCase}
use forme_agent.Loop.Engine.Keeps.{
  Keeps, scaffold-Keeps, mark-Keeps, completed-Keeps, terminate-Keeps, handoff-Keeps, turn-Keeps,
  call-Keeps, end_call-Keeps,
}
use forme_agent.Loop.Engine.Ops.{
  Op, apply, run_ops, binds_strategy, binds_scaffold, suspends, marks, completes, terminates,
  after_tool, after_handoff, takes_events, drives,
}

-- The tool calls are within the limit, and a run that has not started has made none.
record ToolsWithin (c : RunCtx) : Type 0 where
  limit : (n : ℕ) → c.budget.tool_calls ≡ some n → c.tool_calls ≤ n
  unstarted : is_session_bound c.state ≡ true → c.tool_calls ≡ 0

Keeps-ToolsWithin : (c d : RunCtx) → Keeps c d → ToolsWithin c → ToolsWithin d
Keeps-ToolsWithin c d k v = record {
  limit = λ n e. ground (arith, k.calls, v.limit n (sym (ap (λ b. b.tool_calls) k.budget) ∙ e));
  unstarted = λ e. k.calls ∙ v.unstarted (k.state e);
}

strategy-ToolsWithin :
    (spec : LoopStrategySpec) (c : RunCtx) → ToolsWithin c → ToolsWithin (bind_strategy spec c).0
unfolding bind_strategy
strategy-ToolsWithin spec c v =
    elim (Bool-cases (not (is_session_bound c.state) || is_bound c.bound_strategy)) [
      | inl h ↦ subst ToolsWithin (ground (arith, h)) v
      | inr h ↦ elim (Result-cases (apply_loop_strategy spec c.budget)) [
        | inr (e, p) ↦ subst ToolsWithin (ground (arith, h, p)) v
        | inl (b, p) ↦
            subst ToolsWithin (ground (arith, h, p)) (fresh b (v.unstarted (ground (arith, h))))
      ]
    ]
  where
    fresh :
        (b : Budget)
        → c.tool_calls ≡ 0
        → ToolsWithin (record c { budget = b; bound_strategy = some spec })
    fresh b z = record { limit = λ n e. ground (arith, z); unstarted = λ e. z }

-- An answer is taken only below the limit.
classify-ToolsWithin :
    (output : ModelOutput) (c : RunCtx)
    → reached c.budget.tool_calls c.tool_calls ≡ false
    → ToolsWithin c
    → ToolsWithin (classify output c)
unfolding classify push reached is_session_bound
classify-ToolsWithin (ModelOutput.final output) c h v = record {
  limit = v.limit;
  unstarted = λ e. cc;
}
classify-ToolsWithin (ModelOutput.handoff target) c h v = record {
  limit = v.limit;
  unstarted = λ e. cc;
}
classify-ToolsWithin (ModelOutput.tool call) c h v = record {
  limit = λ n e. ground (arith, h, e);
  unstarted = λ e. cc;
}

answered-ToolsWithin :
    (output : ModelOutput) (c : RunCtx)
    → reached c.budget.tool_calls c.tool_calls ≡ false
    → ToolsWithin c
    → ToolsWithin (answered output c).0
unfolding answered returned
answered-ToolsWithin output c h v = elim (Bool-cases (exceeded c.budget.tokens c.tokens_used)) [
  | inl p ↦ subst ToolsWithin (ground (arith, p)) (
      Keeps-ToolsWithin c
        (terminate RunStatus.limited (StopReason.budget_exhausted BudgetKind.tokens) c)
        (terminate-Keeps RunStatus.limited (StopReason.budget_exhausted BudgetKind.tokens) c) v)
  | inr p ↦ subst ToolsWithin (ground (arith, p)) (classify-ToolsWithin output c h v)
]

still_below :
    (c d : RunCtx)
    → Keeps c d
    → reached c.budget.tool_calls c.tool_calls ≡ false
    → reached d.budget.tool_calls d.tool_calls ≡ false
still_below c d k h = ground (arith, ap (λ b. b.tool_calls) k.budget, k.calls, h)

call_model-ToolsWithin :
    (w : Services) (run : Ref) (rendered : String) (c : RunCtx)
    → reached c.budget.tool_calls c.tool_calls ≡ false
    → ToolsWithin c
    → ToolsWithin (call_model w run rendered c).0
unfolding call_model
call_model-ToolsWithin w run rendered c h v = elim (Result-cases (w.model (request rendered c))) [
  | inr (e, p) ↦ subst ToolsWithin (ground (arith, p)) v
  | inl (response, p) ↦
      let k = end_call-Keeps w run response c in
      subst ToolsWithin (ground (arith, p)) (
        answered-ToolsWithin response.output (end_call w run response c)
          (still_below c (end_call w run response c) k h)
          (Keeps-ToolsWithin c (end_call w run response c) k v))
]

take_turn-ToolsWithin :
    (w : Services) (run : Ref) (c : RunCtx)
    → reached c.budget.tool_calls c.tool_calls ≡ false
    → ToolsWithin c
    → ToolsWithin (take_turn w run c).0
unfolding take_turn
take_turn-ToolsWithin w run c h v = elim (Result-cases (w.build c)) [
  | inr (e, p) ↦ subst ToolsWithin (ground (arith, p)) v
  | inl (rendered, p) ↦
      let k = call-Keeps w run c in
      subst ToolsWithin (ground (arith, p)) (
        call_model-ToolsWithin w run rendered (begin_call w run c)
          (still_below c (begin_call w run c) k h) (Keeps-ToolsWithin c (begin_call w run c) k v))
]

drive-ToolsWithin :
    (w : Services) (run : Ref) (c : RunCtx) → ToolsWithin c → ToolsWithin (drive w run c).0
drive-ToolsWithin w run c v = split (drive-DriveCase w run c)
  where
    split : DriveCase w run c → ToolsWithin (drive w run c).0
    split (idle h p) = subst (λ x. ToolsWithin x.0) (sym p) v
    split (limited reason h k p) =
        subst (λ x. ToolsWithin x.0) (sym p)
          (Keeps-ToolsWithin c _ (terminate-Keeps RunStatus.limited reason c) v)
    split (turns h k q p) =
        subst (λ x. ToolsWithin x.0) (sym p)
          (take_turn-ToolsWithin w run (begin_turn c)
            (still_below c (begin_turn c) (turn-Keeps c) q)
            (Keeps-ToolsWithin c (begin_turn c) (turn-Keeps c) v))

apply-ToolsWithin : (op : Op) (c : RunCtx) → ToolsWithin c → ToolsWithin (apply op c)
unfolding apply suspend is_session_bound continue_after_tool end_turn push take_events
    complete_final
apply-ToolsWithin (binds_strategy spec) c v = strategy-ToolsWithin spec c v
apply-ToolsWithin (binds_scaffold scaffold) c v =
    Keeps-ToolsWithin c _ (scaffold-Keeps scaffold c) v
apply-ToolsWithin (suspends pending) c v = record { limit = v.limit; unstarted = λ e. cc }
apply-ToolsWithin (marks m) c v = Keeps-ToolsWithin c _ (mark-Keeps m c) v
apply-ToolsWithin completes c v = Keeps-ToolsWithin c _ (completed-Keeps c.effect c) v
apply-ToolsWithin (terminates status reason) c v =
    Keeps-ToolsWithin c _ (terminate-Keeps status reason c) v
apply-ToolsWithin (after_tool outcome provenance) c v = record {
  limit = v.limit;
  unstarted = λ e. cc;
}
apply-ToolsWithin (after_handoff resolution) c v =
    Keeps-ToolsWithin c _ (handoff-Keeps resolution c) v
apply-ToolsWithin takes_events c v = record { limit = v.limit; unstarted = v.unstarted }
apply-ToolsWithin (drives w run) c v = drive-ToolsWithin w run c v

ops-ToolsWithin : (ops : List Op) (c : RunCtx) → ToolsWithin c → ToolsWithin (run_ops ops c)
unfolding run_ops
ops-ToolsWithin [] c v = v
ops-ToolsWithin (op ∷ ops) c v = ops-ToolsWithin ops (apply op c) (apply-ToolsWithin op c v)

new_run-ToolsWithin :
    (session : Ref) (input : String) (sources : ContextSources) (budget : Budget)
    (provenance : Provenance) (c : RunCtx)
    → new_run session input sources budget provenance ≡ ok c
    → ToolsWithin c
unfolding new_run
new_run-ToolsWithin session input sources budget provenance c h =
    let none_yet : c.tool_calls ≡ 0 = ground arith in
    record { limit = λ n e. ground (arith, none_yet); unstarted = λ e. none_yet }

-- Whatever is done to a new run, in any order, the tool calls that its turns proposed never exceed a
-- limit that its budget has.
pub tool_calls_within :
    (session : Ref) (input : String) (sources : ContextSources) (budget : Budget)
    (provenance : Provenance) (c : RunCtx) (ops : List Op) (n : ℕ)
    → new_run session input sources budget provenance ≡ ok c
    → (run_ops ops c).budget.tool_calls ≡ some n
    → (run_ops ops c).tool_calls ≤ n
tool_calls_within session input sources budget provenance c ops n h e =
    (ops-ToolsWithin ops c (new_run-ToolsWithin session input sources budget provenance c h)).limit
      n e
