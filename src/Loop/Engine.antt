-- ===== src/Loop/Engine.antt =====
-- crates/loop/src/lib.rs: `ReactiveLoopEngine::drive`, one turn of the loop. The context builder and
-- the model are trait objects, and what they answer is an argument of the call.
pub mod Ops
pub mod Cases
pub mod Keeps
pub mod Limits
pub mod Narrowing
pub mod Adds
pub mod Trust
mod Tests
use forme_agent.Base.{
  ℕ, ◌+◌, ◌-◌, max, String, Bool, true, false, ◌&&◌, ◌||◌, List, [], ◌∷◌, ◌++◌, Option, none, some,
  ◌==◌, nat_eq, string_eq, if◌then◌else◌, Result, ok, err, ◌>>=◌, leb, ltb,
}
use Prim.Native.String.{◌++◌ as concat}
use forme_agent.Base.Text.{decimal, string_discrete}
use forme_agent.Protocol.Kinds.{Ref, ContextSource, RunStatus, OutputKind, ModelUsage}
use forme_agent.Protocol.Events.{EventPayload, ContextBuildPayload}
use forme_agent.Loop.Messages.{
  ModelMessage, MessageRole, ModelRequest, ModelResponse, ModelOutput, instruction_message,
}
use forme_agent.Loop.Strategy.{LoopError}
use forme_agent.Loop.Run.{
  RunCtx, LoopState, LoopEffect, StopReason, BudgetKind, ContextSources, ModelScaffoldProfile,
  is_suspended, is_terminal, terminate, push, internal_provenance, saturating_add, u32_max, u64_max,
}

push_if : Bool → ContextSource → List ContextSource → List ContextSource
push_if true source rest = source ∷ rest
push_if false source rest = rest

-- `context_sources`.
unfoldable pub context_sources : ContextSources → List ContextSource
unfolding push_if
context_sources s = push_if s.has_rules ContextSource.rules (
    push_if s.has_history ContextSource.history (
      push_if s.has_memory_summary ContextSource.memory_summary (
        push_if s.has_skills_metadata ContextSource.skills_metadata
          (push_if s.has_tool_schema ContextSource.tool_schema []))))

-- A limit that is reached, or exceeded; no limit is neither.
unfoldable pub reached : Option ℕ → ℕ → Bool
reached none n = false
reached (some limit) n = leb limit n

unfoldable pub exceeded : Option ℕ → ℕ → Bool
exceeded none n = false
exceeded (some limit) n = ltb limit n

-- What the builder and the model answer, and the name of the model's profile.
pub record Services : Type 0 where
  pub build : RunCtx → Result LoopError String
  pub model : ModelRequest → Result LoopError ModelResponse
  pub profile_ref : Ref

abbrev build_payload : RunCtx → ContextBuildPayload
build_payload c = record { sources = context_sources c.sources; slice_refs = c.sources.slices }

unfoldable pub begin_turn : RunCtx → RunCtx
begin_turn c =
    push (EventPayload.context_build_started (build_payload c))
      (record (push (EventPayload.turn_started (record { turn_index = c.turn_index })) c) {
        state = LoopState.context_build;
      })

call_id : Ref → RunCtx → Ref
call_id run c = concat "model:" (concat run (concat ":" (decimal c.turn_index)))

unfoldable pub begin_call : Services → Ref → RunCtx → RunCtx
unfolding call_id
begin_call w run c =
    push
      (EventPayload.model_call_started
        (record { call_id = call_id run c; model_profile = w.profile_ref }))
      (record (push (EventPayload.context_build_finished (build_payload c)) c) {
        state = LoopState.model_call;
      })

unfoldable pub system_message : String → ModelMessage
system_message content = instruction_message MessageRole.system content internal_provenance

unfoldable pub rendered_part : String → List ModelMessage
unfolding system_message
rendered_part rendered = if rendered == "" then [] else system_message rendered ∷ []

pub scaffold_text : ModelScaffoldProfile → String
scaffold_text s = concat "Use " (
    concat (decimal s.externalized_steps) (
      concat " inspectable work stage(s), preserve a checkpoint every " (
        concat (decimal s.checkpoint_cadence_steps)
          " stage(s), and leave verification to the runtime.")))

unfoldable pub scaffold_part : Option ModelScaffoldProfile → List ModelMessage
unfolding system_message
scaffold_part none = []
scaffold_part (some scaffold) = system_message (scaffold_text scaffold) ∷ []

tokens_left : Option ℕ → ℕ → Option ℕ
tokens_left none used = none
tokens_left (some tokens) used = some (max (tokens - used) 1)

unfoldable pub request : String → RunCtx → ModelRequest
unfolding rendered_part scaffold_part tokens_left
request rendered c = record {
  schema_version = 1;
  messages = rendered_part rendered ++ scaffold_part c.model_scaffold ++ c.messages;
  max_output_tokens = tokens_left c.budget.tokens c.tokens_used;
}

unfoldable pub push_delta : Ref → ModelOutput → RunCtx → RunCtx
push_delta id (ModelOutput.final output) c =
    push (EventPayload.model_call_delta (record { call_id = id; delta = output })) c
push_delta id _ c = c

-- The events and the tokens of an answer.
unfoldable pub end_call : Services → Ref → ModelResponse → RunCtx → RunCtx
unfolding call_id push_delta
end_call w run response c =
    record (push
      (EventPayload.model_call_finished (record {
        call_id = call_id run c;
        model_profile = w.profile_ref;
        usage = response.usage;
        finish_reason = response.finish_reason;
      }))
      (push_delta (call_id run c) response.output c)) {
        tokens_used =
            saturating_add u64_max
              (saturating_add u64_max c.tokens_used response.usage.input_tokens)
              response.usage.output_tokens;
      }

-- The effect of an answer within the budget.
unfoldable pub classify : ModelOutput → RunCtx → RunCtx
classify (ModelOutput.final output) c =
    record (push (EventPayload.output_classified OutputKind.final) c) {
      effect = LoopEffect.final output;
      state = LoopState.verification;
    }
classify (ModelOutput.tool call) c =
    record (push (EventPayload.output_classified OutputKind.tool) c) {
      tool_calls = saturating_add u32_max c.tool_calls 1;
      effect = LoopEffect.tool call;
      state = LoopState.tool_proposed;
    }
classify (ModelOutput.handoff target) c =
    record (push (EventPayload.output_classified OutputKind.handoff) c) {
      effect = LoopEffect.handoff target;
      state = LoopState.handoff;
    }

unfoldable pub returned : RunCtx → RunCtx × Result LoopError LoopState
returned c = (c, ok c.state)

unfoldable pub answered : ModelOutput → RunCtx → RunCtx × Result LoopError LoopState
unfolding returned
answered output c =
    if exceeded c.budget.tokens c.tokens_used
    then returned (terminate RunStatus.limited (StopReason.budget_exhausted BudgetKind.tokens) c)
    else returned (classify output c)

unfoldable pub call_model : Services → Ref → String → RunCtx → RunCtx × Result LoopError LoopState
unfolding answered
call_model w run rendered c = elim (w.model (request rendered c)) [
  | err e ↦ (c, err e)
  | ok response ↦ answered response.output (end_call w run response c)
]

unfoldable pub take_turn : Services → Ref → RunCtx → RunCtx × Result LoopError LoopState
unfolding call_model
take_turn w run c = elim (w.build c) [
  | err e ↦ (c, err e)
  | ok rendered ↦ call_model w run rendered (begin_call w run c)
]

-- `drive`.
unfoldable pub drive : Services → Ref → RunCtx → RunCtx × Result LoopError LoopState
unfolding returned take_turn
drive w run c =
    if is_suspended c.state || is_terminal c.state
    then returned c
    else if leb c.budget.max_turns c.turn_index
    then returned (terminate RunStatus.limited StopReason.max_turns c)
    else if reached c.budget.tool_calls c.tool_calls
    then returned
        (terminate RunStatus.limited (StopReason.budget_exhausted BudgetKind.tool_calls) c)
    else take_turn w run (begin_turn c)
