-- ===== src/Loop/Engine/Cases.antt =====
-- `drive` by cases: when it takes a turn, and what it does with the answer.
use forme_agent.Base.{
  Bool, true, false, ◌||◌, ◌≡◌, ◌↔◌, ◌⊎◌, inl, inr, refl, ok, err, arith, Bool-cases, leb, nat_eq,
}
use forme_agent.Protocol.Kinds.{Ref, RunStatus}
use forme_agent.Loop.Strategy.{LoopError}
use forme_agent.Loop.Run.{
  RunCtx, LoopState, LoopEffect, StopReason, BudgetKind, terminate, is_suspended, is_terminal,
}
use forme_agent.Loop.Engine.{Services, drive, take_turn, begin_turn, reached, exceeded, returned}

limit_state :
    (c : RunCtx) (reason : StopReason)
    → (terminate RunStatus.limited reason c).state ≡ LoopState.terminal RunStatus.limited
unfolding terminate
limit_state c reason = refl

-- What `drive` does: it leaves the run alone, ends it at a limit, or takes a turn.
pub data DriveCase (w : Services) (run : Ref) (c : RunCtx) : Type 0 where
  idle :
      (is_suspended c.state || is_terminal c.state) ≡ true
      → drive w run c ≡ (c, ok c.state)
      → DriveCase w run c
  limited :
      (reason : StopReason)
      → (is_suspended c.state || is_terminal c.state) ≡ false
      → (leb c.budget.max_turns c.turn_index || reached c.budget.tool_calls c.tool_calls) ≡ true
      → drive w run c
        ≡ (terminate RunStatus.limited reason c, ok (LoopState.terminal RunStatus.limited))
      → DriveCase w run c
  turns :
      (is_suspended c.state || is_terminal c.state) ≡ false
      → leb c.budget.max_turns c.turn_index ≡ false
      → reached c.budget.tool_calls c.tool_calls ≡ false
      → drive w run c ≡ take_turn w run (begin_turn c)
      → DriveCase w run c

pub drive-DriveCase : (w : Services) (run : Ref) (c : RunCtx) → DriveCase w run c
unfolding drive returned
drive-DriveCase w run c = elim (Bool-cases (is_suspended c.state || is_terminal c.state)) [
  | inl h ↦ idle h (ground (arith, h))
  | inr h ↦ elim (Bool-cases (leb c.budget.max_turns c.turn_index)) [
    | inl p ↦
        limited StopReason.max_turns h (ground (arith, p))
          (ground (arith, h, p, limit_state c StopReason.max_turns))
    | inr p ↦ elim (Bool-cases (reached c.budget.tool_calls c.tool_calls)) [
      | inl q ↦ limited (StopReason.budget_exhausted BudgetKind.tool_calls) h (ground (arith, q)) (
          ground
            (arith, h, p, q, limit_state c (StopReason.budget_exhausted BudgetKind.tool_calls)))
      | inr q ↦ turns h p q (ground (arith, h, p, q))
    ]
  ]
]

-- A run that `drive` ends, or leaves as it is.
unfoldable pub stands : RunCtx → Bool
stands c =
    (is_suspended c.state || is_terminal c.state)
    || (leb c.budget.max_turns c.turn_index || reached c.budget.tool_calls c.tool_calls)

failing : LoopError → Services
failing e = record { build = λ c. err e; model = λ r. err e; profile_ref = "" }

failed_turn :
    (e : LoopError) (run : Ref) (c : RunCtx)
    → take_turn (failing e) run (begin_turn c) ≡ (begin_turn c, err e)
unfolding take_turn failing
failed_turn e run c = refl

-- `drive` asks neither the context builder nor the model exactly when the run is suspended or over,
-- or its turns or its tool calls are used up.
pub stands_iff :
    (run : Ref) (c : RunCtx)
    → ((w w' : Services) → drive w run c ≡ drive w' run c) ↔ (stands c ≡ true)
unfolding stands drive
stands_iff run c = (λ same. needs same (Bool-cases (stands c)), λ h w w'. ground (arith, h))
  where
    needs :
        ((w w' : Services) → drive w run c ≡ drive w' run c)
        → (stands c ≡ true) ⊎ (stands c ≡ false)
        → stands c ≡ true
    needs same (inl h) = h
    needs same (inr h) =
        let e = same (failing LoopError.context_failed) (failing LoopError.model_failed) in
        absurd (
          ground (
            arith,
            h,
            e,
            failed_turn LoopError.context_failed run c,
            failed_turn LoopError.model_failed run c,
          ))

-- Where the tokens of a run are not exceeded, or it is over and proposes nothing.
abbrev pub Spent : RunCtx → Type 0
Spent c =
    (exceeded c.budget.tokens c.tokens_used ≡ false)
    ⊎ ((c.state ≡ LoopState.terminal RunStatus.limited) × (c.effect ≡ LoopEffect.nothing))
