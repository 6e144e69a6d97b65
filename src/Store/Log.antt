-- ===== src/Store/Log.antt =====
-- crates/store/src/sqlite.rs: `SqliteEventStore` with the full-text search disabled. Each table is a
-- list of rows or a map from its key; a transaction that fails leaves the tables as they were. JSON is
-- a parameter. The catalog of strategies, which is in other tables, is left out.
pub mod Append
pub mod Cached
pub mod Changes
pub mod History
pub mod Calls
pub mod Once
pub mod Expected
mod Tests
use forme_agent.Base.{
  ℕ, zero, suc, ◌+◌, ◌-◌, max, String, Bool, true, false, not, ◌&&◌, ◌||◌, List, [], ◌∷◌, ◌++◌,
  Option, none, some, Eq, ◌==◌, ◌!=◌, nat_eq, string_eq, ℕ_discrete, leb, ltb, if◌then◌else◌,
  Result, ok, err, ◌>>=◌, ◌>>◌, reject, contains, find,
}
use Prim.Native.Char.{code}
use Prim.Native.String.{◌++◌ as append_text}
use forme_agent.Base.Map.{Map, Ord, lookup, insert, string_ord}
use forme_agent.Base.Int.{ℤ, int_discrete}
use forme_agent.Base.Text.{is_blank, string_discrete, string_less}
use forme_agent.Protocol.Kinds.{Ref, Version, Timestamp, Provenance}
use forme_agent.Protocol.Events.{
  Event, EventPayload, kind_of, RunAcceptedPayload, ActionPlannedPayload,
}
use forme_agent.Store.Projection.{
  Projection, session_projection, transcript_projection, SessionState, Transcript,
}

pub data LogError : Type 0 where
  kind_mismatch schema_missing schema_not_current encoding_failed control_event : LogError
  event_collision domain_collision exhausted invalid_sequence database_failed : LogError
  wrong_run unsupported_schema sequence_mismatch discontinuity no_run_id : LogError
  version_incomplete aggregate_mismatch aggregate_empty : LogError

abbrev u64_max : ℕ
u64_max = 18446744073709551615

abbrev pub i64_max : ℕ
i64_max = 9223372036854775807

pub record Json : Type 0 where
  pub payload : EventPayload → Result LogError String
  pub provenance : Provenance → Result LogError String

-- `semantic_bytes`: the bytes hold each field behind its length, so they are equal exactly if the
-- fields are.
pub record Semantics : Type 0 where
  pub event_id : Ref
  pub run_id : Ref
  pub turn_id : Option Ref
  pub kind : Ref
  pub payload : String
  pub schema_version : Version
  pub ts_unix_ms : Timestamp
  pub provenance : String

unfoldable pub semantics_discrete : Discrete Semantics
semantics_discrete = hlevel (string_discrete, ℕ_discrete, int_discrete)

instance abbrev pub semantics_eq : Eq Semantics
semantics_eq = record { discrete = semantics_discrete }

-- `domain_semantic_bytes`.
pub record DomainSemantics : Type 0 where
  pub kind : Ref
  pub payload : String
  pub schema_version : Version
  pub provenance : String

unfoldable pub domain_discrete : Discrete DomainSemantics
domain_discrete = hlevel (string_discrete, ℕ_discrete)

instance abbrev pub domain_eq : Eq DomainSemantics
domain_eq = record { discrete = domain_discrete }

-- A row of the table `events`.
pub record StoredEvent : Type 0 where
  pub event : Event
  pub payload : String
  pub provenance : String

abbrev pub DomainKey : Type 0
DomainKey = String × String

instance abbrev pub key_ord : Ord DomainKey
key_ord = record {
  discrete = hlevel string_discrete;
  less = λ p q. string_less p.0 q.0 || p.0 == q.0 && string_less p.1 q.1;
}

-- The rows are in the order in which they were appended.
pub record Log : Type 0 where
  pub events : List StoredEvent
  pub keys : Map DomainKey (Ref × DomainSemantics)
  pub sessions : Map Ref (SessionState × ℕ)
  pub transcripts : Map Ref (Transcript × ℕ)

strip_prefix : String → String → Option String
strip_prefix String.[] s = some s
strip_prefix (String.◌∷◌ c p) String.[] = none
strip_prefix (String.◌∷◌ c p) (String.◌∷◌ d s) =
    let rest = strip_prefix p s in if code c == code d then rest else none

grow : String → List String → List String
grow c [] = c ∷ []
grow c (f ∷ fs) = append_text c f ∷ fs

split_bar : String → List String
unfolding grow
split_bar String.[] = "" ∷ []
split_bar (String.◌∷◌ c s) =
    let rest = split_bar s in if code c == b'|' then "" ∷ rest else grow (String.◌∷◌ c "") rest

lease_fields : List String → Option DomainKey
lease_fields (generation ∷ until ∷ intention ∷ []) =
    some ("intention_lease", append_text generation (append_text "|" intention))
lease_fields _ = none

lease_key : Option String → Option DomainKey
lease_key none = none
lease_key (some fields) = lease_fields (split_bar fields)

request_key : Option Ref → Option DomainKey
request_key none = none
request_key (some key) = some ("run_request", key)

-- `domain_idempotency_key`.
unfoldable pub domain_key : EventPayload → Option DomainKey
unfolding request_key lease_key lease_fields split_bar strip_prefix
domain_key (EventPayload.run_accepted payload) = request_key payload.idempotency_key
domain_key (EventPayload.action_planned payload) = some ("action_intent", payload.intent_id)
domain_key (EventPayload.memory_maintenance_applied deltas) =
    lease_key (strip_prefix "intention-lease|" deltas)
domain_key _ = none

unfoldable pub control_kinds : List Ref
control_kinds =
    "StrategyActivated" ∷ "StrategyRolledBack" ∷ "FederatedPeerRegistered" ∷ "FederatedPeerRevoked"
    ∷ "RemoteExecutionLeaseChanged" ∷ "ReplicationCheckpointAdvanced" ∷ "CapabilityPublisherChanged"
    ∷ "CapabilityPackageAdmitted" ∷ "CapabilityPackageStateChanged"
    ∷ "CapabilityPackageDistributionRecorded" ∷ []

-- `PreparedEvent`.
pub record Prepared : Type 0 where
  pub stored : StoredEvent
  pub semantics : Semantics
  pub domain : Option DomainKey
  pub domain_semantics : DomainSemantics

abbrev pub semantics_of : StoredEvent → Semantics
semantics_of s = record {
  event_id = s.event.event_id;
  run_id = s.event.run_id;
  turn_id = s.event.turn_id;
  kind = s.event.kind;
  payload = s.payload;
  schema_version = s.event.schema_version;
  ts_unix_ms = s.event.ts_unix_ms;
  provenance = s.provenance;
}

abbrev pub prepared_of : Event → String → String → Prepared
prepared_of e payload provenance = record {
  stored = record { event = e; payload = payload; provenance = provenance };
  semantics = semantics_of (record { event = e; payload = payload; provenance = provenance });
  domain = domain_key e.payload;
  domain_semantics = record {
    kind = e.kind;
    payload = payload;
    schema_version = e.schema_version;
    provenance = provenance;
  };
}

unfoldable pub found_schema : Option Version → Result LogError Version
found_schema none = err LogError.schema_missing
found_schema (some version) = ok version

-- `prepare_event`.
unfoldable pub prepare_event : Json → Map Ref Version → Event → Result LogError Prepared
unfolding found_schema
prepare_event j schema e = do
  reject (e.kind != kind_of e.payload) LogError.kind_mismatch
  current ← found_schema (lookup e.kind schema)
  reject (e.schema_version != current) LogError.schema_not_current
  payload ← j.payload e.payload
  provenance ← j.provenance e.provenance
  ok (prepared_of e payload provenance)

unfoldable pub run_events : Ref → List StoredEvent → List Event
run_events run [] = []
run_events run (s ∷ rows) =
    let rest = run_events run rows in if s.event.run_id == run then s.event ∷ rest else rest

unfoldable pub greatest : List Event → ℕ
greatest [] = 0
greatest (e ∷ es) = max e.stream_seq (greatest es)

-- `aggregate_version_in_transaction`.
unfoldable pub version_of : Ref → List StoredEvent → ℕ
version_of run rows = greatest (run_events run rows)

unfoldable pub stored_event : Ref → List StoredEvent → Option StoredEvent
stored_event id [] = none
stored_event id (s ∷ rows) =
    let rest = stored_event id rows in if s.event.event_id == id then some s else rest
