-- ===== src/Store/Projection.antt =====
-- crates/store/src/projection.rs: the session state and the transcript of a run, from its events.
use forme_agent.Base.{ℕ, String, List, [], ◌∷◌, ◌++◌, Option, none, some}
use forme_agent.Protocol.Kinds.{Ref, Version, Source, RunStatus}
use forme_agent.Protocol.Events.{Event, EventPayload, RunEndPayload, RunWaitPayload}

pub record SessionState : Type 0 where
  pub schema_version : Version
  pub run_id : Option Ref
  pub source : Option Source
  pub status : RunStatus
  pub session_ref : Option Ref
  pub workspace : Option Ref
  pub wait_reason : Option Ref
  pub resume_ref : Option Ref
  pub stop_reason : Option Ref
  pub result_ref : Option Ref
  pub last_stream_seq : ℕ

pub record TranscriptEntry : Type 0 where
  pub event_id : Ref
  pub run_id : Ref
  pub turn_id : Option Ref
  pub stream_seq : ℕ
  pub kind : Ref
  pub text : String

pub record Transcript : Type 0 where
  pub schema_version : Version
  pub run_id : Option Ref
  pub entries : List TranscriptEntry
  pub last_stream_seq : ℕ

abbrev pub no_session : SessionState
no_session = record {
  schema_version = 1;
  run_id = none;
  source = none;
  status = RunStatus.accepted;
  session_ref = none;
  workspace = none;
  wait_reason = none;
  resume_ref = none;
  stop_reason = none;
  result_ref = none;
  last_stream_seq = 0;
}

ended : RunStatus → RunEndPayload → SessionState → SessionState
ended status payload s = record s {
  status = status;
  stop_reason = some payload.stop_reason;
  result_ref = payload.result_ref;
}

held : RunStatus → RunWaitPayload → SessionState → SessionState
held status payload s = record s {
  status = status;
  wait_reason = some payload.wait_reason;
  resume_ref = some payload.resume_ref;
}

at_work : SessionState → SessionState
at_work s = record s { status = RunStatus.running }

-- The match on the payload in `SessionStateProjection::apply`.
unfoldable pub absorb : EventPayload → SessionState → SessionState
unfolding ended held at_work
absorb (EventPayload.run_accepted payload) s = record s {
  source = some payload.source;
  session_ref = some payload.session_ref;
  status = RunStatus.accepted;
}
absorb (EventPayload.session_bound payload) s = record s {
  workspace = some payload.workspace;
  status = RunStatus.running;
}
absorb (EventPayload.run_complete payload) s = ended RunStatus.complete payload s
absorb (EventPayload.run_aborted payload) s = ended RunStatus.aborted payload s
absorb (EventPayload.run_failed payload) s = ended RunStatus.failed payload s
absorb (EventPayload.run_limited payload) s = ended RunStatus.limited payload s
absorb (EventPayload.run_waiting payload) s = held RunStatus.waiting payload s
absorb (EventPayload.run_resumed payload) s = held RunStatus.running payload s
absorb (EventPayload.turn_started _) s = at_work s
absorb (EventPayload.turn_complete _) s = at_work s
absorb (EventPayload.context_build_started _) s = at_work s
absorb (EventPayload.context_build_finished _) s = at_work s
absorb (EventPayload.compaction_started _) s = at_work s
absorb (EventPayload.compaction_finished _) s = at_work s
absorb (EventPayload.model_call_started _) s = s
absorb (EventPayload.model_call_delta _) s = s
absorb (EventPayload.model_call_finished _) s = s
absorb (EventPayload.output_classified _) s = s
absorb (EventPayload.approval_requested _) s = s
absorb (EventPayload.approval_resolved _) s = s
absorb (EventPayload.action_output_delta _) s = s
absorb (EventPayload.action_planned _) s = s
absorb (EventPayload.memory_maintenance_applied _) s = s
absorb (EventPayload.other _ _) s = s

-- `SessionStateProjection::apply`.
unfoldable pub session_apply : SessionState → Event → SessionState
unfolding absorb
session_apply s e =
    absorb e.payload (record s { run_id = some e.run_id; last_stream_seq = e.stream_seq })

abbrev pub no_transcript : Transcript
no_transcript = record { schema_version = 1; run_id = none; entries = []; last_stream_seq = 0 }

unfoldable pub payload_text : EventPayload → Option String
payload_text (EventPayload.run_accepted payload) = some payload.input_ref
payload_text (EventPayload.model_call_delta payload) = some payload.delta
payload_text (EventPayload.action_output_delta payload) = some payload.delta
payload_text _ = none

unfoldable pub searchable_text : Event → Option String
searchable_text e = payload_text e.payload

abbrev pub entry_of : Event → String → TranscriptEntry
entry_of e text = record {
  event_id = e.event_id;
  run_id = e.run_id;
  turn_id = e.turn_id;
  stream_seq = e.stream_seq;
  kind = e.kind;
  text = text;
}

unfoldable pub new_entries : Event → Option String → List TranscriptEntry
new_entries e none = []
new_entries e (some text) = entry_of e text ∷ []

-- `TranscriptProjection::apply`.
unfoldable pub transcript_apply : Transcript → Event → Transcript
transcript_apply t e = record t {
  run_id = some e.run_id;
  last_stream_seq = e.stream_seq;
  entries = t.entries ++ new_entries e (payload_text e.payload);
}

-- The trait `Projection`, with the fields that both of its states have.
pub record Projection : Type 1 where
  pub State : Type 0
  pub empty : State
  pub apply : State → Event → State
  pub run_id : State → Option Ref
  pub schema_version : State → Version
  pub last_stream_seq : State → ℕ

abbrev pub session_projection : Projection
session_projection = record {
  State = SessionState;
  empty = no_session;
  apply = session_apply;
  run_id = λ s. s.run_id;
  schema_version = λ s. s.schema_version;
  last_stream_seq = λ s. s.last_stream_seq;
}

abbrev pub transcript_projection : Projection
transcript_projection = record {
  State = Transcript;
  empty = no_transcript;
  apply = transcript_apply;
  run_id = λ t. t.run_id;
  schema_version = λ t. t.schema_version;
  last_stream_seq = λ t. t.last_stream_seq;
}

-- The loop over the events in `replay`.
unfoldable pub fold : (p : Projection) → p.State → List Event → p.State
fold p s [] = s
fold p s (e ∷ es) = fold p (p.apply s e) es
