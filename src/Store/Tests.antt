-- ===== src/Store/Tests.antt =====
-- The replica at concrete inputs.
use forme_agent.Base.{ℕ, List, [], ◌∷◌, none, ◌≡◌, refl, false, ok, ℕ_discrete, contains}
use forme_agent.Base.Int.{pos}
use forme_agent.Base.Map.{lookup, insert, contains_key}
use forme_agent.Base.Text.{is_blank, string_discrete, string_less}
use forme_agent.Protocol.Kinds.{Ref, Source, Actor, TrustTier}
use forme_agent.Protocol.Replication.{
  ReplicationCursor, ReplicationBatch, SyncTransferEvent, SyncTransferPayload, ReplicaApplyReport,
  ReplicaApplyStatus, cursor_discrete,
}
use forme_agent.Store.Replica.{
  Encoding, Binding, apply, admit_batch, validate_batch, validate_cursor, contiguous, last_seq,
  validate_events, payload_safe, transact, append, repeated, insert_events, current_cursor, rows_of,
  held_cursor, authority_only, sensitive,
}
use forme_agent.Store.Replica.History.{
  Call, run_calls, reached, no_tables, Whole, replica-Whole, apply_once,
}

abbrev encoding : Encoding
encoding = record {
  batch_digest = λ b. ok "sha256:batch";
  encode_batch = λ b. ok b.batch;
  rows_digest = λ es. ok "sha256:rows";
  is_restricted = λ e. ok false;
}

abbrev laptop : Binding
laptop = record { peer = "peer:laptop"; grant = "grant:1"; epoch = 1 }

abbrev cursor_at : ℕ → ReplicationCursor
cursor_at n = record {
  schema_version = 1;
  peer = "peer:laptop";
  aggregate = "run:1";
  stream_seq = n;
  authority_epoch = 1;
}

abbrev turn : ℕ → SyncTransferEvent
turn n = record {
  schema_version = 1;
  event_id = "event";
  aggregate = "run:1";
  source_stream_seq = n;
  turn_id = none;
  kind = "TurnStarted";
  payload = SyncTransferPayload.redacted "TurnStarted" "policy" "sha256:payload";
  event_schema_version = 1;
  ts_unix_ms = pos 5;
  provenance = record {
    source = Source.user_turn;
    actor = Actor.owner;
    trust_tier = TrustTier.owner_input;
    caused_by = none;
  };
}

abbrev batch : Ref → ℕ → ℕ → List SyncTransferEvent → ReplicationBatch
batch id from to events = record {
  batch = id;
  schema_version = 1;
  peer = "peer:laptop";
  peer_grant = "grant:1";
  aggregate = "run:1";
  from_cursor = cursor_at from;
  to_cursor = cursor_at to;
  redaction = "redaction:1";
  events = events;
  content_digest = "sha256:batch";
}

abbrev first_batch : ReplicationBatch
first_batch = batch "batch:1" 0 2 (turn 1 ∷ turn 2 ∷ [])

abbrev second_call : Call encoding
second_call = record {
  commit = ok tt;
  batch = batch "batch:2" 2 3 (turn 3 ∷ []);
  expected = cursor_at 2;
}

abbrev first_call : Call encoding
first_call = record { commit = ok tt; batch = first_batch; expected = cursor_at 0 }

abbrev first_report : ReplicaApplyReport
first_report = record {
  schema_version = 1;
  batch = "batch:1";
  status = ReplicaApplyStatus.applied;
  cursor = cursor_at 2;
  projection_digest = "sha256:rows";
  applied_events = "event" ∷ "event" ∷ [];
}

abbrev second_report : ReplicaApplyReport
second_report = record first_report {
  status = ReplicaApplyStatus.duplicate;
  cursor = cursor_at 3;
  applied_events = [];
}

first_applies :
    (apply encoding (ok tt) laptop first_batch (cursor_at 0) no_tables).1 ≡ ok first_report
unfolding apply admit_batch validate_batch ℕ_discrete is_blank validate_cursor string_discrete
    contiguous last_seq validate_events payload_safe transact lookup append cursor_discrete
    current_cursor held_cursor insert_events contains contains_key insert string_less authority_only
    repeated rows_of sensitive
first_applies = refl

both_apply :
    reached laptop "run:1" (run_calls encoding laptop (first_call ∷ second_call ∷ []) no_tables) ≡ 3
unfolding apply admit_batch validate_batch ℕ_discrete is_blank validate_cursor string_discrete
    contiguous last_seq validate_events payload_safe transact lookup append cursor_discrete
    current_cursor held_cursor insert_events contains contains_key insert string_less authority_only
    repeated rows_of sensitive reached run_calls
both_apply = refl

replica-Whole_example :
    Whole laptop (run_calls encoding laptop (first_call ∷ second_call ∷ []) no_tables)
replica-Whole_example = replica-Whole encoding laptop (first_call ∷ second_call ∷ [])

apply_once_example :
    let later =
      run_calls encoding laptop
        (second_call ∷ [])
        (apply encoding (ok tt) laptop first_batch (cursor_at 0) no_tables).0 in
    ((apply encoding (ok tt) laptop first_batch (cursor_at 0) later).0 ≡ later)
    × ((apply encoding (ok tt) laptop first_batch (cursor_at 0) later).1 ≡ ok second_report
        → second_report.status ≡ ReplicaApplyStatus.duplicate)
apply_once_example =
    apply_once encoding (ok tt) laptop first_batch (cursor_at 0) no_tables first_report
      second_report (second_call ∷ []) first_applies
