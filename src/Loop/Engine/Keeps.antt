-- ===== src/Loop/Engine/Keeps.antt =====
-- What the operations of a run leave alone: its budget, its tool calls, and that it has started.
use forme_agent.Base.{true, ◌≡◌, inl, inr, refl, ap, arith, Result-cases, ◌∙◌, nat_eq}
use forme_agent.Protocol.Kinds.{Ref, RunStatus}
use forme_agent.Loop.Messages.{ModelOutput, ModelResponse}
use forme_agent.Loop.Run.{
  RunCtx, LoopEffect, StopReason, Mark, ModelScaffoldProfile, HandoffResolution,
  bind_model_scaffold, mark, completed_with, terminate, continue_after_handoff, end_turn, push,
  is_session_bound,
}
use forme_agent.Loop.Engine.{
  Services, drive, take_turn, call_model, answered, classify, begin_turn, begin_call, end_call,
  request, returned, push_delta,
}
use forme_agent.Loop.Engine.Cases.{DriveCase, idle, limited, turns, drive-DriveCase}

-- The counters and the budget stay, and the run has started or stays unstarted.
pub record Keeps (c d : RunCtx) : Type 0 where
  pub budget : d.budget ≡ c.budget
  pub calls : d.tool_calls ≡ c.tool_calls
  pub state : is_session_bound d.state ≡ true → is_session_bound c.state ≡ true

pub scaffold-Keeps :
    (scaffold : ModelScaffoldProfile) (c : RunCtx) → Keeps c (bind_model_scaffold scaffold c).0
unfolding bind_model_scaffold
scaffold-Keeps scaffold c = record {
  budget = ground arith;
  calls = ground arith;
  state = λ e. ground arith;
}

pub mark-Keeps : (m : Mark) (c : RunCtx) → Keeps c (mark m c)
unfolding mark is_session_bound
mark-Keeps (Mark.policy decision) c = record { budget = refl; calls = refl; state = λ e. cc }
mark-Keeps (Mark.approval outcome) c = record { budget = refl; calls = refl; state = λ e. cc }
mark-Keeps Mark.planned c = record { budget = refl; calls = refl; state = λ e. cc }
mark-Keeps Mark.running c = record { budget = refl; calls = refl; state = λ e. cc }

pub completed-Keeps : (effect : LoopEffect) (c : RunCtx) → Keeps c (completed_with effect c).0
unfolding completed_with push is_session_bound
completed-Keeps (LoopEffect.final output) c = record {
  budget = refl;
  calls = refl;
  state = λ e. cc;
}
completed-Keeps LoopEffect.nothing c = record { budget = refl; calls = refl; state = λ e. e }
completed-Keeps (LoopEffect.tool call) c = record { budget = refl; calls = refl; state = λ e. e }
completed-Keeps (LoopEffect.handoff target) c = record {
  budget = refl;
  calls = refl;
  state = λ e. e;
}

pub terminate-Keeps :
    (status : RunStatus) (reason : StopReason) (c : RunCtx) → Keeps c (terminate status reason c)
unfolding terminate is_session_bound
terminate-Keeps status reason c = record { budget = refl; calls = refl; state = λ e. cc }

pub handoff-Keeps :
    (resolution : HandoffResolution) (c : RunCtx) → Keeps c (continue_after_handoff resolution c).0
unfolding continue_after_handoff end_turn push terminate is_session_bound
handoff-Keeps resolution c = record {
  budget = ground arith;
  calls = ground arith;
  state = λ e. ground arith;
}

pub turn-Keeps : (c : RunCtx) → Keeps c (begin_turn c)
unfolding begin_turn push is_session_bound
turn-Keeps c = record { budget = refl; calls = refl; state = λ e. cc }

pub call-Keeps : (w : Services) (run : Ref) (c : RunCtx) → Keeps c (begin_call w run c)
unfolding begin_call push is_session_bound
call-Keeps w run c = record { budget = refl; calls = refl; state = λ e. cc }

pub end_call-Keeps :
    (w : Services) (run : Ref) (response : ModelResponse) (c : RunCtx)
    → Keeps c (end_call w run response c)
unfolding end_call push push_delta
end_call-Keeps w run response c = record {
  budget = ground arith;
  calls = ground arith;
  state = λ e. ground arith;
}

pub classify_budget : (output : ModelOutput) (c : RunCtx) → (classify output c).budget ≡ c.budget
unfolding classify push
classify_budget (ModelOutput.final output) c = refl
classify_budget (ModelOutput.tool call) c = refl
classify_budget (ModelOutput.handoff target) c = refl

pub answered_budget : (output : ModelOutput) (c : RunCtx) → (answered output c).0.budget ≡ c.budget
unfolding answered returned terminate
answered_budget output c = ground (arith, classify_budget output c)

pub turn_budget : (w : Services) (run : Ref) (c : RunCtx) → (take_turn w run c).0.budget ≡ c.budget
unfolding take_turn call_model
turn_budget w run c = elim (Result-cases (w.build c)) [
  | inr (e, p) ↦ ground (arith, p)
  | inl (rendered, p) ↦ elim (Result-cases (w.model (request rendered (begin_call w run c)))) [
    | inr (e, q) ↦ ground (arith, p, q, (call-Keeps w run c).budget)
    | inl (response, q) ↦ ground (
      arith,
      p,
      q,
      answered_budget response.output (end_call w run response (begin_call w run c)),
      (end_call-Keeps w run response (begin_call w run c)).budget,
      (call-Keeps w run c).budget,
    )
  ]
]

pub drive_budget : (w : Services) (run : Ref) (c : RunCtx) → (drive w run c).0.budget ≡ c.budget
drive_budget w run c = split (drive-DriveCase w run c)
  where
    split : DriveCase w run c → (drive w run c).0.budget ≡ c.budget
    split (idle h p) = ground (arith, p)
    split (limited reason h k p) =
        ap (λ x. x.0.budget) p ∙ (terminate-Keeps RunStatus.limited reason c).budget
    split (turns h k q p) =
        ap (λ x. x.0.budget) p ∙ turn_budget w run (begin_turn c) ∙ (turn-Keeps c).budget
