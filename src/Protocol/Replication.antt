-- ===== src/Protocol/Replication.antt =====
-- crates/protocol/src/m4.rs and crates/protocol/src/m2_c.rs: what the authority sends to a replica.
use forme_agent.Base.{ℕ, List, Option, Eq, nat_eq, ℕ_discrete}
use forme_agent.Base.Text.{string_discrete}
use forme_agent.Protocol.Kinds.{Ref, Version, Timestamp, Provenance}
use forme_agent.Protocol.Events.{EventPayload}

pub record ReplicationCursor : Type 0 where
  pub schema_version : Version
  pub peer : Ref
  pub aggregate : Ref
  pub stream_seq : ℕ
  pub authority_epoch : ℕ

unfoldable pub cursor_discrete : Discrete ReplicationCursor
cursor_discrete = hlevel (string_discrete, ℕ_discrete)

instance abbrev pub cursor_eq : Eq ReplicationCursor
cursor_eq = record { discrete = cursor_discrete }

-- The payload of a full transfer stands next to its kind.
pub data SyncTransferPayload : Type 0 where
  full : Ref → EventPayload → SyncTransferPayload
  redacted : Ref → Ref → Ref → SyncTransferPayload

pub record SyncTransferEvent : Type 0 where
  pub schema_version : Version
  pub event_id : Ref
  pub aggregate : Ref
  pub source_stream_seq : ℕ
  pub turn_id : Option Ref
  pub kind : Ref
  pub payload : SyncTransferPayload
  pub event_schema_version : Version
  pub ts_unix_ms : Timestamp
  pub provenance : Provenance

pub record ReplicationBatch : Type 0 where
  pub schema_version : Version
  pub batch : Ref
  pub peer : Ref
  pub peer_grant : Ref
  pub aggregate : Ref
  pub from_cursor : ReplicationCursor
  pub to_cursor : ReplicationCursor
  pub redaction : Ref
  pub events : List SyncTransferEvent
  pub content_digest : Ref

pub data ReplicaApplyStatus : Type 0 where
  applied duplicate : ReplicaApplyStatus

pub record ReplicaApplyReport : Type 0 where
  pub schema_version : Version
  pub batch : Ref
  pub status : ReplicaApplyStatus
  pub cursor : ReplicationCursor
  pub projection_digest : Ref
  pub applied_events : List Ref
