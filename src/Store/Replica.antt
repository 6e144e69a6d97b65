-- ===== src/Store/Replica.antt =====
-- crates/store/src/replica.rs: `ReplicaSqliteStore`. Each table is a map from its key, and a
-- transaction that fails leaves the tables as they were. JSON and digests are parameters.
pub mod Rows
pub mod History
use forme_agent.Base.{
  ℕ, zero, suc, ◌+◌, String, Bool, true, false, not, ◌&&◌, ◌||◌, List, [], ◌∷◌, map, Option, none,
  some, Eq, ◌==◌, ◌!=◌, nat_eq, string_eq, ℕ_discrete, leb, ltb, if◌then◌else◌, Result, ok, err,
  ◌>>=◌, ◌>>◌, reject, filter, contains,
}
use forme_agent.Base.Map.{Map, Ord, lookup, insert, contains_key, string_ord}
use forme_agent.Base.Text.{is_blank, string_discrete, string_less}
use forme_agent.Protocol.Kinds.{Ref}
use forme_agent.Protocol.Replication.{
  ReplicationCursor, cursor_eq, ReplicationBatch, SyncTransferEvent, SyncTransferPayload,
  ReplicaApplyReport, ReplicaApplyStatus,
}

pub data StoreError : Type 0 where
  batch_incomplete field_incomplete cursor_incomplete cursor_unbound overflow : StoreError
  not_contiguous wrong_endpoint digest_mismatch outside_binding unsafe_payload restricted :
      StoreError
  batch_reused cursor_conflict too_large event_exists commit_failed encoding_failed stored_invalid :
      StoreError

abbrev pub u64_max : ℕ
u64_max = 18446744073709551615

abbrev pub i64_max : ℕ
i64_max = 9223372036854775807

-- `canonical_digest`, `serde_json`, and the search of the encoded text of an event for restricted
-- words.
pub record Encoding : Type 0 where
  pub batch_digest : ReplicationBatch → Result StoreError Ref
  pub encode_batch : ReplicationBatch → Result StoreError String
  pub rows_digest : List SyncTransferEvent → Result StoreError Ref
  pub is_restricted : SyncTransferEvent → Result StoreError Bool

required : String → Result StoreError (Unit {0})
required value = reject (is_blank value) StoreError.field_incomplete

-- `ReplicationCursor::validate`.
unfoldable pub validate_cursor : ReplicationCursor → Result StoreError (Unit {0})
unfolding required
validate_cursor c = do
  reject (c.schema_version == 0 || c.authority_epoch == 0) StoreError.cursor_incomplete
  required c.peer
  required c.aggregate

-- The loop over the events of a batch; `seq` is the number before the first.
unfoldable pub contiguous : Ref → ℕ → List SyncTransferEvent → Result StoreError (Unit {0})
contiguous aggregate seq [] = ok tt
contiguous aggregate seq (e ∷ es) =
    let rest = contiguous aggregate (suc seq) es in
    if leb u64_max seq
    then err StoreError.overflow
    else if e.aggregate != aggregate || e.source_stream_seq != suc seq
    then err StoreError.not_contiguous
    else rest

unfoldable pub last_seq : List SyncTransferEvent → Option ℕ
last_seq [] = none
last_seq (e ∷ []) = some e.source_stream_seq
last_seq (e ∷ f ∷ es) = last_seq (f ∷ es)

ends_at : Option ℕ → ℕ → Bool
ends_at none n = false
ends_at (some m) n = m == n

is_empty : {A : Type 0} → List A → Bool
is_empty [] = true
is_empty (_ ∷ _) = false

-- `FederatedPeer`, grant and epoch that the store is bound to.
pub record Binding : Type 0 where
  pub peer : Ref
  pub grant : Ref
  pub epoch : ℕ

unfoldable pub authority_only : List Ref
authority_only =
    "FederatedPeerRegistered" ∷ "FederatedPeerRevoked" ∷ "RemoteExecutionLeaseChanged"
    ∷ "ReplicationCheckpointAdvanced" ∷ []

unfoldable pub sensitive : List Ref
sensitive = "RunAccepted" ∷ "ModelCallDelta" ∷ "ToolCallProposed" ∷ "ActionOutputDelta" ∷ []

payload_fits : SyncTransferEvent → SyncTransferPayload → Bool
unfolding authority_only sensitive
payload_fits e (SyncTransferPayload.full kind payload) =
    kind == e.kind && not (contains authority_only e.kind) && not (contains sensitive e.kind)
payload_fits e (SyncTransferPayload.redacted kind reason digest) =
    kind == e.kind && not (is_blank reason) && not (is_blank digest)

unfoldable pub payload_safe : SyncTransferEvent → Bool
unfolding payload_fits
payload_safe e = payload_fits e e.payload

instance abbrev pub row_ord : Ord (Ref × ℕ)
row_ord = record {
  discrete = hlevel (string_discrete, ℕ_discrete);
  less = λ p q. string_less p.0 q.0 || p.0 == q.0 && ltb p.1 q.1;
}

abbrev pub Rows : Type 0
Rows = Map (Ref × ℕ) SyncTransferEvent

-- The tables `replica_batches`, `replica_events` and `replica_cursors` of one peer.
pub record Tables : Type 0 where
  pub batches : Map Ref String
  pub events : Rows
  pub cursors : Map Ref (ℕ × ℕ)

stored_cursor : Binding → Ref → Option (ℕ × ℕ) → ReplicationCursor
stored_cursor b aggregate none = record {
  schema_version = 1;
  peer = b.peer;
  aggregate = aggregate;
  stream_seq = 0;
  authority_epoch = b.epoch;
}
stored_cursor b aggregate (some (seq, epoch)) = record {
  schema_version = 1;
  peer = b.peer;
  aggregate = aggregate;
  stream_seq = seq;
  authority_epoch = epoch;
}

unfoldable pub held_cursor : Binding → Ref → Tables → ReplicationCursor
unfolding stored_cursor
held_cursor b aggregate t = stored_cursor b aggregate (lookup aggregate t.cursors)

has_cursor : Option (ℕ × ℕ) → Bool
has_cursor none = false
has_cursor (some _) = true

-- Without a row the epoch of the binding passes through an `i64`, and is refused above it; a row holds
-- numbers that fit.
unfoldable pub current_cursor : Binding → Ref → Tables → Result StoreError ReplicationCursor
unfolding has_cursor
current_cursor b aggregate t = do
  reject (not (has_cursor (lookup aggregate t.cursors)) && ltb i64_max b.epoch)
      StoreError.stored_invalid
  ok (held_cursor b aggregate t)

-- `cursor`.
unfoldable pub cursor : Binding → Ref → Ref → Tables → Result StoreError ReplicationCursor
cursor b peer aggregate t =
    if peer != b.peer || is_blank aggregate
    then err StoreError.outside_binding
    else current_cursor b aggregate t

-- The rows of an aggregate, in the order of their numbers.
unfoldable pub rows_of : Ref → Rows → List SyncTransferEvent
rows_of aggregate [] = []
rows_of aggregate ((k, e) ∷ rows) =
    let rest = rows_of aggregate rows in if k.0 == aggregate then e ∷ rest else rest

-- The inserts into `replica_events`; a key that is taken is an error.
unfoldable pub insert_events : Ref → List SyncTransferEvent → Rows → Result StoreError Rows
insert_events aggregate [] rows = ok rows
insert_events aggregate (e ∷ es) rows =
    let rest = insert_events aggregate es (insert (aggregate, e.source_stream_seq) e rows) in
    if ltb i64_max e.source_stream_seq
    then err StoreError.too_large
    else if contains_key (aggregate, e.source_stream_seq) rows
    then err StoreError.event_exists
    else rest

abbrev duplicate_report : ReplicationBatch → ReplicationCursor → Ref → ReplicaApplyReport
duplicate_report batch cursor digest = record {
  schema_version = 1;
  batch = batch.batch;
  status = ReplicaApplyStatus.duplicate;
  cursor = cursor;
  projection_digest = digest;
  applied_events = [];
}

abbrev applied_report : ReplicationBatch → Ref → ReplicaApplyReport
applied_report batch digest = record {
  schema_version = 1;
  batch = batch.batch;
  status = ReplicaApplyStatus.applied;
  cursor = batch.to_cursor;
  projection_digest = digest;
  applied_events = map (λ e. e.event_id) batch.events;
}

abbrev pub written : Binding → ReplicationBatch → String → Rows → Tables → Tables
written b batch bytes rows t = record {
  batches = insert batch.batch bytes t.batches;
  events = rows;
  cursors = insert batch.aggregate (batch.to_cursor.stream_seq, b.epoch) t.cursors;
}

module _ (n : Encoding) where
  -- `ReplicationBatch::validate`.
  unfoldable pub validate_batch : ReplicationBatch → Result StoreError (Unit {0})
  unfolding required is_empty ends_at
  validate_batch b = do
    reject (b.schema_version == 0 || is_empty b.events) StoreError.batch_incomplete
    required b.batch
    required b.peer
    required b.peer_grant
    required b.aggregate
    required b.redaction
    validate_cursor b.from_cursor
    validate_cursor b.to_cursor
    reject
        (b.from_cursor.peer != b.peer
          || b.to_cursor.peer != b.peer
          || b.from_cursor.aggregate != b.aggregate
          || b.to_cursor.aggregate != b.aggregate
          || b.from_cursor.authority_epoch != b.to_cursor.authority_epoch
          || leb b.to_cursor.stream_seq b.from_cursor.stream_seq)
        StoreError.cursor_unbound
    contiguous b.aggregate b.from_cursor.stream_seq b.events
    reject (not (ends_at (last_seq b.events) b.to_cursor.stream_seq)) StoreError.wrong_endpoint
    required b.content_digest
    digest ← n.batch_digest (record b { content_digest = "" })
    reject (b.content_digest != digest) StoreError.digest_mismatch

  -- `validate_replica_events`.
  unfoldable pub validate_events : List SyncTransferEvent → Result StoreError (Unit {0})
  validate_events [] = ok tt
  validate_events (e ∷ es) =
      let rest = validate_events es in
      do
        reject (not (payload_safe e)) StoreError.unsafe_payload
        found ← n.is_restricted e
        reject found StoreError.restricted
        rest

  -- `apply`, before the transaction: the text that is stored for the batch.
  unfoldable pub admit_batch :
      Binding → ReplicationBatch → ReplicationCursor → Result StoreError String
  admit_batch b batch expected = do
    validate_batch batch
    validate_cursor expected
    reject
        (batch.peer != b.peer
          || batch.peer_grant != b.grant
          || batch.from_cursor.authority_epoch != b.epoch
          || batch.to_cursor.authority_epoch != b.epoch)
        StoreError.outside_binding
    digest ← n.batch_digest (record batch { content_digest = "" })
    reject (digest != batch.content_digest) StoreError.digest_mismatch
    validate_events batch.events
    n.encode_batch batch

  -- A batch id that is on file.
  unfoldable pub repeated :
      Binding
      → ReplicationBatch
      → String
      → String
      → Tables
      → Result StoreError (Tables × ReplicaApplyReport)
  repeated b batch bytes stored t = if stored != bytes then err StoreError.batch_reused else do
    cursor ← current_cursor b batch.aggregate t
    digest ← n.rows_digest (rows_of batch.aggregate t.events)
    ok (t, duplicate_report batch cursor digest)

  -- A batch id that is new.
  unfoldable pub append :
      Binding
      → ReplicationBatch
      → ReplicationCursor
      → String
      → Tables
      → Result StoreError (Tables × ReplicaApplyReport)
  append b batch expected bytes t = do
    actual ← current_cursor b batch.aggregate t
    reject (batch.from_cursor != expected || actual != expected) StoreError.cursor_conflict
    rows ← insert_events batch.aggregate batch.events t.events
    reject
        (ltb i64_max batch.from_cursor.stream_seq
          || ltb i64_max batch.to_cursor.stream_seq
          || ltb i64_max b.epoch)
        StoreError.too_large
    digest ← n.rows_digest (rows_of batch.aggregate rows)
    ok (written b batch bytes rows t, applied_report batch digest)

  unfoldable pub transact :
      Binding
      → ReplicationBatch
      → ReplicationCursor
      → String
      → Tables
      → Result StoreError (Tables × ReplicaApplyReport)
  transact b batch expected bytes t = elim (lookup batch.batch t.batches) [
    | some stored ↦ repeated b batch bytes stored t
    | none ↦ append b batch expected bytes t
  ]

  -- `apply`; `commit` is what the database answers to the commit.
  unfoldable pub apply :
      Result StoreError (Unit {0})
      → Binding
      → ReplicationBatch
      → ReplicationCursor
      → Tables
      → Tables × Result StoreError ReplicaApplyReport
  apply commit b batch expected t =
      elim (do
        bytes ← admit_batch b batch expected
        result ← transact b batch expected bytes t
        commit
        ok result) [ err e ↦ (t, err e) | ok result ↦ (result.0, ok result.1) ]
