-- ===== src/Loop/Engine/Ops.antt =====
-- Everything that the harness or the engine does to a run, in any order.
use forme_agent.Base.{List, [], ◌∷◌}
use forme_agent.Protocol.Kinds.{Ref, Provenance, RunStatus}
use forme_agent.Loop.Strategy.{LoopStrategySpec}
use forme_agent.Loop.Run.{
  RunCtx, StopReason, PendingKind, Mark, ModelScaffoldProfile, ResolvedOutcome, HandoffResolution,
  bind_strategy, bind_model_scaffold, suspend, mark, complete_final, terminate, continue_after_tool,
  continue_after_handoff, take_events,
}
use forme_agent.Loop.Engine.{Services, drive}

pub data Op : Type 0 where
  binds_strategy : LoopStrategySpec → Op
  binds_scaffold : ModelScaffoldProfile → Op
  suspends : PendingKind → Op
  marks : Mark → Op
  completes : Op
  terminates : RunStatus → StopReason → Op
  after_tool : ResolvedOutcome → Provenance → Op
  after_handoff : HandoffResolution → Op
  takes_events : Op
  drives : Services → Ref → Op

unfoldable pub apply : Op → RunCtx → RunCtx
apply (binds_strategy spec) c = (bind_strategy spec c).0
apply (binds_scaffold scaffold) c = (bind_model_scaffold scaffold c).0
apply (suspends pending) c = suspend pending c
apply (marks m) c = mark m c
apply completes c = (complete_final c).0
apply (terminates status reason) c = terminate status reason c
apply (after_tool outcome provenance) c = continue_after_tool outcome provenance c
apply (after_handoff resolution) c = (continue_after_handoff resolution c).0
apply takes_events c = (take_events c).0
apply (drives w run) c = (drive w run c).0

unfoldable pub run_ops : List Op → RunCtx → RunCtx
unfolding apply
run_ops [] c = c
run_ops (op ∷ ops) c = run_ops ops (apply op c)
