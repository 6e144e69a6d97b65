-- ===== src/Loop/Run.antt =====
-- crates/loop/src/lib.rs: `RunCtx`, the state of one run, and what the harness does to it.
use forme_agent.Base.{
  ℕ, ◌+◌, String, Bool, true, false, ◌||◌, not, List, [], ◌∷◌, ◌++◌, Option, none, some, ◌==◌,
  nat_eq, if◌then◌else◌, Result, ok, err, ◌>>◌, reject, ltb, min,
}
use Prim.Native.String.{◌++◌ as concat}
use forme_agent.Base.Text.{is_blank}
use forme_agent.Protocol.Kinds.{
  Ref, Version, Provenance, Source, Actor, TrustTier, RunStatus, OutputKind, PolicyDecision,
  ApprovalOutcome,
}
use forme_agent.Protocol.Events.{EventPayload}
use forme_agent.Loop.Messages.{
  ModelMessage, MessageRole, ModelToolCall, ModelHandoff, input_message, data_message,
}
use forme_agent.Loop.Strategy.{Budget, LoopStrategySpec, LoopError, apply_loop_strategy}

pub data PendingKind : Type 0 where
  approval_wait tool_interrupt handoff : Ref → PendingKind

pub record HandoffResolution : Type 0 where
  pub schema_version : Version
  pub target : Ref
  pub accepted : Bool
  pub result : Option String

pub data ResolvedOutcome : Type 0 where
  completed failed : Ref → String → ResolvedOutcome
  cancelled : Ref → ResolvedOutcome

pub data LoopState : Type 0 where
  run_accepted session_bound turn_started context_build model_call : LoopState
  output_classified : OutputKind → LoopState
  tool_proposed : LoopState
  tool_policy_evaluated : PolicyDecision → LoopState
  approval_wait : LoopState
  approval_resolved : ApprovalOutcome → LoopState
  action_planned action_running action_done handoff verification compaction turn_complete :
      LoopState
  suspended : PendingKind → LoopState
  terminal : RunStatus → LoopState

unfoldable pub is_suspended : LoopState → Bool
is_suspended (LoopState.suspended _) = true
is_suspended _ = false

unfoldable pub is_terminal : LoopState → Bool
is_terminal (LoopState.terminal _) = true
is_terminal _ = false

unfoldable pub is_session_bound : LoopState → Bool
is_session_bound LoopState.session_bound = true
is_session_bound _ = false

pub data BudgetKind : Type 0 where
  tokens wall_time cost tool_calls turns : BudgetKind

pub data StopReason : Type 0 where
  final_output max_turns : StopReason
  budget_exhausted : BudgetKind → StopReason
  user_cancel approval_denied retry_exhausted context_overflow : StopReason
  handoff_no_target_or_loop verify_unfixable hitl_wait : StopReason

-- `StopReason::as_protocol`.
unfoldable pub stop_reason_text : StopReason → Ref
stop_reason_text StopReason.final_output = "final_output"
stop_reason_text StopReason.max_turns = "max_turns"
stop_reason_text (StopReason.budget_exhausted BudgetKind.tokens) = "budget_tokens"
stop_reason_text (StopReason.budget_exhausted BudgetKind.wall_time) = "budget_wall_time"
stop_reason_text (StopReason.budget_exhausted BudgetKind.cost) = "budget_cost"
stop_reason_text (StopReason.budget_exhausted BudgetKind.tool_calls) = "budget_tool_calls"
stop_reason_text (StopReason.budget_exhausted BudgetKind.turns) = "budget_turns"
stop_reason_text StopReason.user_cancel = "user_cancel"
stop_reason_text StopReason.approval_denied = "approval_denied"
stop_reason_text StopReason.retry_exhausted = "retry_exhausted"
stop_reason_text StopReason.context_overflow = "context_overflow"
stop_reason_text StopReason.handoff_no_target_or_loop = "handoff_no_target_or_loop"
stop_reason_text StopReason.verify_unfixable = "verification_unfixable"
stop_reason_text StopReason.hitl_wait = "hitl_wait"

pub data LoopEffect : Type 0 where
  nothing : LoopEffect
  final : String → LoopEffect
  tool : ModelToolCall → LoopEffect
  handoff : ModelHandoff → LoopEffect

pub record ModelScaffoldProfile : Type 0 where
  pub schema_version : Version
  pub externalized_steps : ℕ
  pub verification_passes : ℕ
  pub checkpoint_cadence_steps : ℕ

-- What the loop itself reads of `forme_context::RunCtx`: whether each kind of source is there, and
-- the ids of the slices.
pub record ContextSources : Type 0 where
  pub has_rules : Bool
  pub has_history : Bool
  pub has_memory_summary : Bool
  pub has_skills_metadata : Bool
  pub has_tool_schema : Bool
  pub slices : List Ref

-- The machine widths of the counters.
abbrev pub u32_max : ℕ
u32_max = 4294967295

abbrev pub u64_max : ℕ
u64_max = 18446744073709551615

abbrev pub saturating_add : ℕ → ℕ → ℕ → ℕ
saturating_add top a b = min (a + b) top

pub record RunCtx : Type 0 where
  pub session : Ref
  pub sources : ContextSources
  pub budget : Budget
  pub state : LoopState
  pub turn_index : ℕ
  pub tokens_used : ℕ
  pub tool_calls : ℕ
  pub stop_reason : Option StopReason
  pub effect : LoopEffect
  pub bound_strategy : Option LoopStrategySpec
  pub model_scaffold : Option ModelScaffoldProfile
  pub messages : List ModelMessage
  pub final_output : Option String
  pub events : List EventPayload

abbrev pub is_bound : {A : Type 0} → Option A → Bool
is_bound none = false
is_bound (some _) = true

abbrev pub internal_provenance : Provenance
internal_provenance = record {
  source = Source.internal;
  actor = Actor.system;
  trust_tier = TrustTier.verified_process;
  caused_by = none;
}

-- `new_with_input_provenance`.
unfoldable pub new_run :
    Ref → String → ContextSources → Budget → Provenance → Result LoopError RunCtx
new_run session input sources budget provenance = do
  reject (is_blank session || is_blank input || budget.schema_version == 0 || budget.max_turns == 0)
      LoopError.context_incomplete
  ok (record {
    session = session;
    sources = sources;
    budget = budget;
    state = LoopState.session_bound;
    turn_index = 0;
    tokens_used = 0;
    tool_calls = 0;
    stop_reason = none;
    effect = LoopEffect.nothing;
    bound_strategy = none;
    model_scaffold = none;
    messages = input_message input provenance ∷ [];
    final_output = none;
    events = [];
  })

unfoldable pub bind_strategy : LoopStrategySpec → RunCtx → RunCtx × Result LoopError (Unit {0})
bind_strategy strategy c =
    if not (is_session_bound c.state) || is_bound c.bound_strategy
    then (c, err LoopError.bind_once)
    else elim (apply_loop_strategy strategy c.budget) [
      | err e ↦ (c, err e)
      | ok budget ↦ (record c { budget = budget; bound_strategy = some strategy }, ok tt)
    ]

unfoldable pub bind_model_scaffold :
    ModelScaffoldProfile → RunCtx → RunCtx × Result LoopError (Unit {0})
bind_model_scaffold scaffold c =
    if not (is_session_bound c.state) || is_bound c.model_scaffold
    then (c, err LoopError.bind_once)
    else if scaffold.schema_version == 0
        || scaffold.externalized_steps == 0
        || scaffold.verification_passes == 0
        || scaffold.checkpoint_cadence_steps == 0
        || ltb scaffold.externalized_steps scaffold.checkpoint_cadence_steps
    then (c, err LoopError.scaffold_invalid)
    else (record c { model_scaffold = some scaffold }, ok tt)

unfoldable pub suspend : PendingKind → RunCtx → RunCtx
suspend pending c = record c { state = LoopState.suspended pending }

-- `mark_policy`, `mark_approval`, `mark_action_planned`, `mark_action_running`.
pub data Mark : Type 0 where
  policy : PolicyDecision → Mark
  approval : ApprovalOutcome → Mark
  planned running : Mark

unfoldable pub mark : Mark → RunCtx → RunCtx
mark (Mark.policy decision) c = record c { state = LoopState.tool_policy_evaluated decision }
mark (Mark.approval outcome) c = record c { state = LoopState.approval_resolved outcome }
mark Mark.planned c = record c { state = LoopState.action_planned }
mark Mark.running c = record c { state = LoopState.action_running }

unfoldable pub push : EventPayload → RunCtx → RunCtx
push event c = record c { events = c.events ++ event ∷ [] }

unfoldable pub completed_with : LoopEffect → RunCtx → RunCtx × Result LoopError (Unit {0})
unfolding push
completed_with (LoopEffect.final output) c = (
  record (push (EventPayload.turn_complete (record { turn_index = c.turn_index })) c) {
    final_output = some output;
    stop_reason = some StopReason.final_output;
    state = LoopState.terminal RunStatus.complete;
  },
  ok tt,
)
completed_with _ c = (c, err LoopError.no_final)

unfoldable pub complete_final : RunCtx → RunCtx × Result LoopError (Unit {0})
unfolding completed_with
complete_final c = completed_with c.effect c

unfoldable pub terminate : RunStatus → StopReason → RunCtx → RunCtx
terminate status reason c = record c {
  stop_reason = some reason;
  effect = LoopEffect.nothing;
  state = LoopState.terminal status;
}

-- The end of a turn that goes on with a message.
unfoldable pub end_turn : ModelMessage → RunCtx → RunCtx
unfolding push
end_turn message c =
    record (push (EventPayload.turn_complete (record { turn_index = c.turn_index })) c) {
      messages = c.messages ++ message ∷ [];
      turn_index = saturating_add u32_max c.turn_index 1;
      effect = LoopEffect.nothing;
      state = LoopState.turn_complete;
    }

outcome_text : ResolvedOutcome → String
outcome_text (ResolvedOutcome.completed _ output) = output
outcome_text (ResolvedOutcome.failed _ detail) = concat "tool failure: " detail
outcome_text (ResolvedOutcome.cancelled reason) = concat "tool cancelled: " reason

-- `continue_after_tool_with_provenance`.
unfoldable pub continue_after_tool : ResolvedOutcome → Provenance → RunCtx → RunCtx
unfolding outcome_text
continue_after_tool outcome provenance c =
    end_turn (data_message MessageRole.tool (outcome_text outcome) provenance) c

unfoldable pub or_default : Option String → String
or_default none = "handoff completed"
or_default (some text) = text

abbrev pub subagent_provenance : Provenance
subagent_provenance = record {
  source = Source.subagent;
  actor = Actor.system;
  trust_tier = TrustTier.verified_process;
  caused_by = none;
}

unfoldable pub continue_after_handoff :
    HandoffResolution → RunCtx → RunCtx × Result LoopError (Unit {0})
unfolding or_default
continue_after_handoff resolution c =
    if resolution.schema_version == 0 || is_blank resolution.target
    then (c, err LoopError.handoff_incomplete)
    else if not resolution.accepted
    then (terminate RunStatus.aborted StopReason.handoff_no_target_or_loop c, ok tt)
    else (
      end_turn (data_message MessageRole.tool (or_default resolution.result) subagent_provenance) c,
      ok tt,
    )

unfoldable pub take_events : RunCtx → RunCtx × List EventPayload
take_events c = (record c { events = [] }, c.events)
