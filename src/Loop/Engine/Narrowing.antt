-- ===== src/Loop/Engine/Narrowing.antt =====
-- The budget of a run, over anything that is done to it.
use forme_agent.Base.{
  ℕ, ◌≤◌, not, ◌||◌, List, [], ◌∷◌, Option, none, some, ◌≡◌, inl, inr, refl, sym, subst, arith,
  Result-cases, Bool-cases,
}
use forme_agent.Loop.Strategy.{LoopStrategySpec, Budget, apply_loop_strategy}
use forme_agent.Loop.Strategy.Narrows.{NoMore, Narrows, apply_loop_strategy-Narrows}
use forme_agent.Loop.Run.{
  RunCtx, is_bound, is_session_bound, bind_strategy, suspend, continue_after_tool, end_turn, push,
  take_events, complete_final,
}
use forme_agent.Loop.Engine.Ops.{
  Op, apply, run_ops, binds_strategy, binds_scaffold, suspends, marks, completes, terminates,
  after_tool, after_handoff, takes_events, drives,
}
use forme_agent.Loop.Engine.Keeps.{
  scaffold-Keeps, mark-Keeps, completed-Keeps, terminate-Keeps, handoff-Keeps, drive_budget,
}

-- A limit is kept, and not raised.
abbrev pub Kept : Option ℕ → Option ℕ → Type 0
Kept new none = Unit
Kept new (some limit) = (n : ℕ) × (new ≡ some n) × (n ≤ limit)

pub record Within (new hard : Budget) : Type 0 where
  pub tokens : Kept new.tokens hard.tokens
  pub wall_time : Kept new.wall_time hard.wall_time
  pub cost : Kept new.cost_microunits hard.cost_microunits
  pub tool_calls : Kept new.tool_calls hard.tool_calls
  pub turns : new.max_turns ≤ hard.max_turns

Kept-refl : (o : Option ℕ) → Kept o o
Kept-refl none = tt
Kept-refl (some n) = (n, refl, omega arith)

Kept-more : (new hard : Option ℕ) → NoMore new hard → Kept new hard
Kept-more new none h = tt
Kept-more new (some limit) h = h

Kept-trans : (a b c : Option ℕ) → Kept a b → Kept b c → Kept a c
Kept-trans a b none h k = tt
Kept-trans a none (some limit) h (n, e, l) = absurd cc
Kept-trans a (some m) (some limit) (p, f, l') (n, e, l) = (p, f, ground (arith, e, l, l'))

Within-refl : (b : Budget) → Within b b
Within-refl b = record {
  tokens = Kept-refl b.tokens;
  wall_time = Kept-refl b.wall_time;
  cost = Kept-refl b.cost_microunits;
  tool_calls = Kept-refl b.tool_calls;
  turns = omega arith;
}

Within-trans : (a b c : Budget) → Within a b → Within b c → Within a c
Within-trans a b c h k = record {
  tokens = Kept-trans a.tokens b.tokens c.tokens h.tokens k.tokens;
  wall_time = Kept-trans a.wall_time b.wall_time c.wall_time h.wall_time k.wall_time;
  cost = Kept-trans a.cost_microunits b.cost_microunits c.cost_microunits h.cost k.cost;
  tool_calls = Kept-trans a.tool_calls b.tool_calls c.tool_calls h.tool_calls k.tool_calls;
  turns = omega (arith, h.turns, k.turns);
}

Narrows-Within : (a b : Budget) → Narrows a b → Within a b
Narrows-Within a b n = record {
  tokens = Kept-more a.tokens b.tokens n.tokens;
  wall_time = Kept-more a.wall_time b.wall_time n.wall_time;
  cost = Kept-more a.cost_microunits b.cost_microunits n.cost;
  tool_calls = Kept-more a.tool_calls b.tool_calls n.tool_calls;
  turns = n.turns;
}

strategy-Within :
    (spec : LoopStrategySpec) (c : RunCtx) → Within (bind_strategy spec c).0.budget c.budget
unfolding bind_strategy
strategy-Within spec c =
    elim (Bool-cases (not (is_session_bound c.state) || is_bound c.bound_strategy)) [
      | inl h ↦
          subst (λ b. Within b c.budget) {x = c.budget} (ground (arith, h)) (Within-refl c.budget)
      | inr h ↦ elim (Result-cases (apply_loop_strategy spec c.budget)) [
        | inr (e, p) ↦
            subst (λ b. Within b c.budget) {x = c.budget} (ground (arith, h, p))
              (Within-refl c.budget)
        | inl (b, p) ↦
            subst (λ x. Within x c.budget) {x = b} (ground (arith, h, p))
              (Narrows-Within b c.budget (apply_loop_strategy-Narrows spec c.budget b p))
      ]
    ]

same-Within : {a b : Budget} → a ≡ b → Within a b
same-Within {b = b} e = subst (λ x. Within x b) (sym e) (Within-refl b)

apply-Within : (op : Op) (c : RunCtx) → Within (apply op c).budget c.budget
unfolding apply suspend continue_after_tool end_turn push take_events complete_final
apply-Within (binds_strategy spec) c = strategy-Within spec c
apply-Within (binds_scaffold scaffold) c = same-Within (scaffold-Keeps scaffold c).budget
apply-Within (suspends pending) c = Within-refl c.budget
apply-Within (marks m) c = same-Within (mark-Keeps m c).budget
apply-Within completes c = same-Within (completed-Keeps c.effect c).budget
apply-Within (terminates status reason) c = same-Within (terminate-Keeps status reason c).budget
apply-Within (after_tool outcome provenance) c = Within-refl c.budget
apply-Within (after_handoff resolution) c = same-Within (handoff-Keeps resolution c).budget
apply-Within takes_events c = Within-refl c.budget
apply-Within (drives w run) c = same-Within (drive_budget w run c)

-- Whatever is done to a run, in any order, no limit of its budget is raised or lifted.
pub budget-Within : (ops : List Op) (c : RunCtx) → Within (run_ops ops c).budget c.budget
unfolding run_ops
budget-Within [] c = Within-refl c.budget
budget-Within (op ∷ ops) c =
    Within-trans _ (apply op c).budget c.budget (budget-Within ops (apply op c)) (apply-Within op c)
