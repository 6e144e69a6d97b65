-- ===== src/Protocol/Events.antt =====
-- crates/protocol/src/event.rs: the payloads that the modelled parts write or read; a payload of any
-- other kind is `other` with the name of its kind and the text of its fields.
use forme_agent.Base.{ℕ, String, Bool, List, Option}
use forme_agent.Protocol.Kinds.{
  Ref, Timestamp, Version, Source, Provenance, ContextSource, ModelUsage, OutputKind, Risk,
  ApprovalOutcome, BackendKind, ExpectedEffect, TrustTier,
}

pub record RunAcceptedPayload : Type 0 where
  pub source : Source
  pub session_ref : Ref
  pub input_ref : Ref
  pub idempotency_key : Option Ref

pub data EffectMode : Type 0 where
  exact_replay counterfactual_deny live_governed : EffectMode

pub record SessionBoundPayload : Type 0 where
  pub policy_profile : Ref
  pub model_profile : Ref
  pub toolset_ref : Ref
  pub workspace : Ref
  pub effect_mode : Option EffectMode
  pub evolution_snapshot : Option Ref
  pub federation_snapshot : Option Ref

-- `RunComplete`, `RunAborted`, `RunFailed` and `RunLimited` carry the same fields.
pub record RunEndPayload : Type 0 where
  pub stop_reason : Ref
  pub result_ref : Option Ref

-- `RunWaiting` and `RunResumed` carry the same fields.
pub record RunWaitPayload : Type 0 where
  pub wait_reason : Ref
  pub resume_ref : Ref

pub record TurnPayload : Type 0 where
  pub turn_index : ℕ

pub record ContextBuildPayload : Type 0 where
  pub sources : List ContextSource
  pub slice_refs : List Ref

pub record CompactionPayload : Type 0 where
  pub lineage_ref : Ref
  pub preserved_refs : List Ref
  pub summary_ref : Option Ref

pub record ModelCallStartedPayload : Type 0 where
  pub call_id : Ref
  pub model_profile : Ref

pub record ModelCallDeltaPayload : Type 0 where
  pub call_id : Ref
  pub delta : String

pub record ModelCallFinishedPayload : Type 0 where
  pub call_id : Ref
  pub model_profile : Ref
  pub usage : ModelUsage
  pub finish_reason : Ref

pub record ApprovalRequestedPayload : Type 0 where
  pub approval_id : Ref
  pub action_summary : Ref
  pub risk : Risk
  pub scope : Ref
  pub rollback_boundary : Ref
  pub expires_at : Timestamp
  pub choices : List Ref
  pub requested_permissions : List Ref
  pub affected_resources : List Ref

pub record ApprovalResolvedPayload : Type 0 where
  pub approval_id : Ref
  pub outcome : ApprovalOutcome
  pub grant_ref : Option Ref

pub record ActionOutputDeltaPayload : Type 0 where
  pub intent_id : Ref
  pub backend : BackendKind
  pub scope : Ref
  pub delta : String
  pub truncated : Bool
  pub trust : TrustTier
  pub content_ref : Option Ref
  pub remote_lease : Option Ref

pub record ActionPlannedPayload : Type 0 where
  pub intent_id : Ref
  pub plan_digest : Ref
  pub backend : BackendKind
  pub expected_effect : ExpectedEffect
  pub source : Source
  pub scope : Ref
  pub approval_ref : Option Ref
  pub remote_placement : Option Ref

pub data EventPayload : Type 0 where
  run_accepted : RunAcceptedPayload → EventPayload
  session_bound : SessionBoundPayload → EventPayload
  run_complete run_aborted run_failed run_limited : RunEndPayload → EventPayload
  run_waiting run_resumed : RunWaitPayload → EventPayload
  turn_started turn_complete : TurnPayload → EventPayload
  context_build_started context_build_finished : ContextBuildPayload → EventPayload
  compaction_started compaction_finished : CompactionPayload → EventPayload
  model_call_started : ModelCallStartedPayload → EventPayload
  model_call_delta : ModelCallDeltaPayload → EventPayload
  model_call_finished : ModelCallFinishedPayload → EventPayload
  output_classified : OutputKind → EventPayload
  approval_requested : ApprovalRequestedPayload → EventPayload
  approval_resolved : ApprovalResolvedPayload → EventPayload
  action_output_delta : ActionOutputDeltaPayload → EventPayload
  action_planned : ActionPlannedPayload → EventPayload
  memory_maintenance_applied : Ref → EventPayload
  other : Ref → String → EventPayload

pub record Event : Type 0 where
  pub event_id : Ref
  pub run_id : Ref
  pub stream_seq : ℕ
  pub turn_id : Option Ref
  pub kind : String
  pub payload : EventPayload
  pub schema_version : Version
  pub ts_unix_ms : Timestamp
  pub provenance : Provenance

-- `EventPayload::kind`.
unfoldable pub kind_of : EventPayload → Ref
kind_of (EventPayload.run_accepted _) = "RunAccepted"
kind_of (EventPayload.session_bound _) = "SessionBound"
kind_of (EventPayload.run_complete _) = "RunComplete"
kind_of (EventPayload.run_aborted _) = "RunAborted"
kind_of (EventPayload.run_failed _) = "RunFailed"
kind_of (EventPayload.run_limited _) = "RunLimited"
kind_of (EventPayload.run_waiting _) = "RunWaiting"
kind_of (EventPayload.run_resumed _) = "RunResumed"
kind_of (EventPayload.turn_started _) = "TurnStarted"
kind_of (EventPayload.turn_complete _) = "TurnComplete"
kind_of (EventPayload.context_build_started _) = "ContextBuildStarted"
kind_of (EventPayload.context_build_finished _) = "ContextBuildFinished"
kind_of (EventPayload.compaction_started _) = "CompactionStarted"
kind_of (EventPayload.compaction_finished _) = "CompactionFinished"
kind_of (EventPayload.model_call_started _) = "ModelCallStarted"
kind_of (EventPayload.model_call_delta _) = "ModelCallDelta"
kind_of (EventPayload.model_call_finished _) = "ModelCallFinished"
kind_of (EventPayload.output_classified _) = "OutputClassified"
kind_of (EventPayload.approval_requested _) = "ApprovalRequested"
kind_of (EventPayload.approval_resolved _) = "ApprovalResolved"
kind_of (EventPayload.action_output_delta _) = "ActionOutputDelta"
kind_of (EventPayload.action_planned _) = "ActionPlanned"
kind_of (EventPayload.memory_maintenance_applied _) = "MemoryMaintenanceApplied"
kind_of (EventPayload.other kind _) = kind
