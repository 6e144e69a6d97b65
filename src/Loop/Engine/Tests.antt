-- ===== src/Loop/Engine/Tests.antt =====
-- The loop and its strategies at concrete inputs.
use forme_agent.Base.{
  ◌≤◌, true, false, List, [], ◌∷◌, none, some, ◌≡◌, ◌↔◌, refl, ok, contains, all, ℕ_discrete,
}
use forme_agent.Base.Text.{is_blank}
use forme_agent.Base.Map.{lookup}
use forme_agent.Protocol.Kinds.{Provenance, Source, Actor, TrustTier}
use forme_agent.Loop.Messages.{ModelOutput, input_message}
use forme_agent.Loop.Strategy.{
  LoopStrategySpec, LoopPhase, LoopTrigger, LoopFailureFallback, Budget, register, Specs,
  validate_strategy, validate_compatibility, validate_profile, no_repeats, phase_discrete,
  trigger_discrete, ordered_before, position,
}
use forme_agent.Loop.Run.{
  RunCtx, LoopState, ContextSources, ResolvedOutcome, LoopEffect, new_run, is_suspended,
  is_terminal, push, terminate, continue_after_tool, end_turn,
}
use forme_agent.Loop.Engine.{
  Services, drive, reached, exceeded, end_call, begin_call, begin_turn, classify,
}
use forme_agent.Loop.Engine.Cases.{stands, stands_iff}
use forme_agent.Loop.Engine.Ops.{Op, apply, run_ops, drives, after_tool, binds_strategy}
use forme_agent.Loop.Engine.Limits.{tool_calls_within}
use forme_agent.Loop.Engine.Narrowing.{Within, budget-Within}

abbrev sources : ContextSources
sources = record {
  has_rules = true;
  has_history = false;
  has_memory_summary = false;
  has_skills_metadata = false;
  has_tool_schema = false;
  slices = "slice:1" ∷ [];
}

abbrev budget : Budget
budget = record {
  schema_version = 1;
  tokens = some 100;
  wall_time = none;
  cost_microunits = none;
  tool_calls = some 1;
  max_turns = 8;
}

abbrev from_web : Provenance
from_web = record {
  source = Source.communication;
  actor = Actor.system;
  trust_tier = TrustTier.untrusted;
  caused_by = none;
}

abbrev fresh_run : RunCtx
fresh_run = record {
  session = "session:1";
  sources = sources;
  budget = budget;
  state = LoopState.session_bound;
  turn_index = 0;
  tokens_used = 0;
  tool_calls = 0;
  stop_reason = none;
  effect = LoopEffect.nothing;
  bound_strategy = none;
  model_scaffold = none;
  messages = input_message "hello" from_web ∷ [];
  final_output = none;
  events = [];
}

abbrev one_tool : Services
one_tool = record {
  build = λ c. ok "rules";
  model = λ r. ok (record {
    schema_version = 1;
    output = ModelOutput.tool (record {
      schema_version = 1;
      call_id = "call:1";
      tool = "search";
      arguments = "{}";
      intent = none;
    });
    usage = record { input_tokens = 10; output_tokens = 5 };
    finish_reason = "tool_call";
  });
  profile_ref = "profile:1";
}

abbrev two_turns : List Op
two_turns =
    drives one_tool "run:1"
    ∷ after_tool (ResolvedOutcome.completed "result:1" "found") from_web
    ∷ drives one_tool "run:1"
    ∷ []

made : new_run "session:1" "hello" sources budget from_web ≡ ok fresh_run
unfolding new_run is_blank ℕ_discrete
made = refl

limit_kept : (run_ops two_turns fresh_run).budget.tool_calls ≡ some 1
unfolding run_ops apply continue_after_tool end_turn drive is_suspended is_terminal reached exceeded
    end_call push begin_call begin_turn classify terminate
limit_kept = refl

tool_calls_within_example : (run_ops two_turns fresh_run).tool_calls ≤ 1
tool_calls_within_example =
    tool_calls_within "session:1" "hello" sources budget from_web fresh_run two_turns 1 made
      limit_kept

stands_iff_example :
    ((w w' : Services) → drive w "run:1" fresh_run ≡ drive w' "run:1" fresh_run)
    ↔ (stands fresh_run ≡ true)
stands_iff_example = stands_iff "run:1" fresh_run

abbrev strategy : LoopStrategySpec
strategy = record {
  schema_version = 1;
  version = "strategy:1";
  scope = "workspace";
  content_ref = "content:1";
  content_digest = "sha256:1";
  compatibility = record {
    schema_version = 1;
    minimum_runtime_schema = 1;
    event_schema = 1;
    model_profile = none;
    tool_schema = none;
    backend_schema = none;
  };
  phases =
      LoopPhase.context ∷ LoopPhase.deliberate ∷ LoopPhase.policy ∷ LoopPhase.approval
      ∷ LoopPhase.execute ∷ LoopPhase.verify ∷ LoopPhase.finish ∷ [];
  triggers = LoopTrigger.reactive ∷ [];
  checkpoint_cadence_turns = 1;
  verification_cadence_turns = 1;
  budget = record {
    schema_version = 1;
    max_turns = 4;
    max_tokens = 50;
    max_wall_time_ms = 1000;
    max_cost_microunits = 10;
    max_tool_calls = 1;
  };
  failure_fallback = LoopFailureFallback.stop;
}

budget-Within_example :
    Within (run_ops (binds_strategy strategy ∷ two_turns) fresh_run).budget fresh_run.budget
budget-Within_example = budget-Within (binds_strategy strategy ∷ two_turns) fresh_run

abbrev no_specs : Specs
no_specs = []

accepted : (register strategy no_specs).1 ≡ ok tt
unfolding register validate_strategy validate_compatibility validate_profile is_blank ℕ_discrete
    no_repeats contains all phase_discrete trigger_discrete ordered_before position lookup
accepted = refl
