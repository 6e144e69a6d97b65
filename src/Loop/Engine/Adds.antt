-- ===== src/Loop/Engine/Adds.antt =====
-- What the operations of a run do to its messages.
use forme_agent.Base.{
  String, ◌||◌, [], ◌∷◌, ◌++◌, ◌≡◌, inl, inr, refl, ap, ◌∙◌, arith, Result-cases, Bool-cases, ◌==◌,
  string_eq, nat_eq, not,
}
use forme_agent.Base.Text.{is_blank}
use forme_agent.Protocol.Kinds.{Ref, Provenance}
use forme_agent.Loop.Messages.{MessageRole, ModelOutput, ModelResponse, data_message}
use forme_agent.Loop.Strategy.{LoopStrategySpec, apply_loop_strategy}
use forme_agent.Loop.Run.{
  RunCtx, LoopEffect, Mark, HandoffResolution, ModelScaffoldProfile, bind_strategy,
  bind_model_scaffold, mark, completed_with, complete_final, terminate, continue_after_tool,
  continue_after_handoff, end_turn, suspend, take_events, push, or_default, subagent_provenance,
}
use forme_agent.Loop.Engine.{
  Services, drive, take_turn, call_model, answered, classify, begin_turn, begin_call, end_call,
  request, returned, push_delta,
}
use forme_agent.Loop.Engine.Cases.{DriveCase, idle, limited, turns, drive-DriveCase}
use forme_agent.Loop.Engine.Ops.{
  Op, apply, binds_strategy, binds_scaffold, suspends, marks, completes, terminates, after_tool,
  after_handoff, takes_events, drives,
}

-- The messages stay, or one that is data is added.
pub data Adds (c d : RunCtx) : Type 0 where
  same : d.messages ≡ c.messages → Adds c d
  more :
      (role : MessageRole) (content : String) (provenance : Provenance)
      → d.messages ≡ c.messages ++ data_message role content provenance ∷ []
      → Adds c d

strategy-same :
    (spec : LoopStrategySpec) (c : RunCtx) → (bind_strategy spec c).0.messages ≡ c.messages
unfolding bind_strategy
strategy-same spec c = elim (Result-cases (apply_loop_strategy spec c.budget)) [
  | inl (b, p) ↦ ground (arith, p)
  | inr (e, p) ↦ ground (arith, p)
]

scaffold-same :
    (s : ModelScaffoldProfile) (c : RunCtx) → (bind_model_scaffold s c).0.messages ≡ c.messages
unfolding bind_model_scaffold
scaffold-same s c = ground arith

mark-same : (m : Mark) (c : RunCtx) → (mark m c).messages ≡ c.messages
unfolding mark
mark-same (Mark.policy decision) c = refl
mark-same (Mark.approval outcome) c = refl
mark-same Mark.planned c = refl
mark-same Mark.running c = refl

completed-same : (e : LoopEffect) (c : RunCtx) → (completed_with e c).0.messages ≡ c.messages
unfolding completed_with push
completed-same (LoopEffect.final output) c = refl
completed-same LoopEffect.nothing c = refl
completed-same (LoopEffect.tool call) c = refl
completed-same (LoopEffect.handoff target) c = refl

classify-same : (output : ModelOutput) (c : RunCtx) → (classify output c).messages ≡ c.messages
unfolding classify push
classify-same (ModelOutput.final output) c = refl
classify-same (ModelOutput.tool call) c = refl
classify-same (ModelOutput.handoff target) c = refl

end_call-same :
    (w : Services) (run : Ref) (response : ModelResponse) (c : RunCtx)
    → (end_call w run response c).messages ≡ c.messages
unfolding end_call push push_delta
end_call-same w run response c = ground arith

answered-same : (output : ModelOutput) (c : RunCtx) → (answered output c).0.messages ≡ c.messages
unfolding answered returned terminate
answered-same output c = ground (arith, classify-same output c)

turn-same : (w : Services) (run : Ref) (c : RunCtx) → (take_turn w run c).0.messages ≡ c.messages
unfolding take_turn call_model begin_call push
turn-same w run c = elim (Result-cases (w.build c)) [
  | inr (e, p) ↦ ground (arith, p)
  | inl (rendered, p) ↦ elim (Result-cases (w.model (request rendered (begin_call w run c)))) [
    | inr (e, q) ↦ ground (arith, p, q)
    | inl (response, q) ↦ ground (
      arith,
      p,
      q,
      answered-same response.output (end_call w run response (begin_call w run c)),
      end_call-same w run response (begin_call w run c),
    )
  ]
]

drive-same : (w : Services) (run : Ref) (c : RunCtx) → (drive w run c).0.messages ≡ c.messages
unfolding terminate begin_turn push
drive-same w run c = split (drive-DriveCase w run c)
  where
    split : DriveCase w run c → (drive w run c).0.messages ≡ c.messages
    split (idle h p) = ground (arith, p)
    split (limited reason h k p) = ground (arith, p)
    split (turns h k q p) = ap (λ x. x.0.messages) p ∙ turn-same w run (begin_turn c)

handoff-Adds :
    (resolution : HandoffResolution) (c : RunCtx) → Adds c (continue_after_handoff resolution c).0
unfolding continue_after_handoff end_turn push terminate or_default
handoff-Adds resolution c =
    elim (Bool-cases (resolution.schema_version == 0 || is_blank resolution.target)) [
      | inl h ↦ same (ground (arith, h))
      | inr h ↦ elim (Bool-cases (not resolution.accepted)) [
        | inl k ↦ same (ground (arith, h, k))
        | inr k ↦
            more MessageRole.tool (or_default resolution.result) subagent_provenance
              (ground (arith, h, k))
      ]
    ]

pub apply-Adds : (op : Op) (c : RunCtx) → Adds c (apply op c)
unfolding apply suspend continue_after_tool end_turn push terminate take_events complete_final
apply-Adds (binds_strategy spec) c = same (strategy-same spec c)
apply-Adds (binds_scaffold scaffold) c = same (scaffold-same scaffold c)
apply-Adds (suspends pending) c = same refl
apply-Adds (marks m) c = same (mark-same m c)
apply-Adds completes c = same (completed-same c.effect c)
apply-Adds (terminates status reason) c = same refl
apply-Adds (after_tool outcome provenance) c = more MessageRole.tool _ provenance refl
apply-Adds (after_handoff resolution) c = handoff-Adds resolution c
apply-Adds takes_events c = same refl
apply-Adds (drives w run) c = same (drive-same w run c)
