-- ===== src/Store/Log/Append.antt =====
-- crates/store/src/sqlite.rs: `append` and `append_expected`, with the projections that they update.
use forme_agent.Base.{
  ℕ, suc, ◌-◌, Bool, false, not, ◌||◌, [], ◌∷◌, ◌++◌, Option, none, some, ◌==◌, ◌!=◌, nat_eq,
  string_eq, ltb, if◌then◌else◌, Result, ok, err, ◌>>=◌, ◌>>◌, reject, contains,
}
use forme_agent.Base.Map.{Map, lookup, insert, string_ord}
use forme_agent.Base.Text.{is_blank}
use forme_agent.Protocol.Kinds.{Ref, Version}
use forme_agent.Protocol.Events.{Event}
use forme_agent.Store.Projection.{Projection, session_projection, transcript_projection}
use forme_agent.Store.Log.{
  LogError, u64_max, i64_max, Json, semantics_eq, DomainSemantics, domain_eq, StoredEvent,
  DomainKey, key_ord, Log, control_kinds, Prepared, semantics_of, prepare_event, version_of,
  stored_event,
}

unfoldable pub is_run : Option Ref → Ref → Bool
is_run none run = false
is_run (some r) run = r == run

-- The two tables of projections, each with the number of the last event beside the state.
abbrev pub Cache : Projection → Type 0
Cache p = Map Ref (p.State × ℕ)

-- `validate_projection_row`.
unfoldable pub validate_row : (p : Projection) → Ref → p.State × ℕ → Result LogError (Unit {0})
unfolding is_run
validate_row p run row = do
  reject (not (is_run (p.run_id row.0) run)) LogError.wrong_run
  reject (p.schema_version row.0 != 1) LogError.unsupported_schema
  reject (p.last_stream_seq row.0 != row.1) LogError.sequence_mismatch

unfoldable pub read_found :
    (p : Projection) → Ref → Option (p.State × ℕ) → Result LogError (Option p.State)
read_found p run none = ok none
read_found p run (some row) = do validate_row p run row; ok (some row.0)

-- `read_session_state` and `read_transcript`.
unfoldable pub read_row : (p : Projection) → Ref → Cache p → Result LogError (Option p.State)
unfolding read_found
read_row p run rows = read_found p run (lookup run rows)

-- The state that an event with the given number continues.
unfoldable pub resume : (p : Projection) → ℕ → Option p.State → Result LogError p.State
resume p seq none = if seq == 1 then ok p.empty else err LogError.discontinuity
resume p seq (some state) =
    if p.last_stream_seq state == seq - 1 then ok state else err LogError.discontinuity

unfoldable pub write_at :
    (p : Projection) → p.State → Option Ref → Cache p → Result LogError (Cache p)
write_at p state none rows = err LogError.no_run_id
write_at p state (some run) rows = do
  reject (ltb i64_max (p.last_stream_seq state)) LogError.invalid_sequence
  ok (insert run (state, p.last_stream_seq state) rows)

-- `write_session_state` and `write_transcript`.
unfoldable pub write_row : (p : Projection) → p.State → Cache p → Result LogError (Cache p)
unfolding write_at
write_row p state rows = write_at p state (p.run_id state) rows

-- What `update_builtin_projections` reads for one of its tables.
unfoldable pub current : (p : Projection) → Event → Cache p → Result LogError p.State
current p e rows = do found ← read_row p e.run_id rows; resume p e.stream_seq found

-- `update_builtin_projections`.
unfoldable pub update_projections : Event → Log → Result LogError Log
update_projections e l = do
  reject (e.stream_seq == 0) LogError.invalid_sequence
  session ← current session_projection e l.sessions
  transcript ← current transcript_projection e l.transcripts
  sessions ← write_row session_projection (session_projection.apply session e) l.sessions
  transcripts ←
      write_row transcript_projection (transcript_projection.apply transcript e) l.transcripts
  ok (record l { sessions = sessions; transcripts = transcripts })

pub data AppendDisposition : Type 0 where
  applied duplicate : AppendDisposition

pub record AppendOutcome : Type 0 where
  pub event_id : Ref
  pub resulting_version : ℕ
  pub disposition : AppendDisposition

abbrev pub numbered : Prepared → ℕ → StoredEvent
numbered p seq = record p.stored { event = record p.stored.event { stream_seq = seq } }

abbrev pub added : Prepared → ℕ → Log → Log
added p seq l = record l { events = l.events ++ numbered p seq ∷ [] }

abbrev pub outcome_of : Ref → ℕ → AppendDisposition → AppendOutcome
outcome_of id version disposition = record {
  event_id = id;
  resulting_version = version;
  disposition = disposition;
}

-- The part of `append_prepared` for an event that is not on file.
unfoldable pub append_new : Prepared → Log → Result LogError (Log × AppendOutcome)
append_new p l =
    let next = suc (version_of p.stored.event.run_id l.events) in
    do
      reject (ltb u64_max next) LogError.exhausted
      reject (ltb i64_max next) LogError.invalid_sequence
      after ← update_projections (numbered p next).event (added p next l)
      ok (after, outcome_of p.stored.event.event_id next AppendDisposition.applied)

-- An outcome that leaves everything as it is.
unfoldable pub repeat :
    Bool → LogError → Ref → Prepared → Log → Result LogError (Log × AppendOutcome)
repeat same e id p l =
    if same
    then ok
        (l, outcome_of id (version_of p.stored.event.run_id l.events) AppendDisposition.duplicate)
    else err e

unfoldable pub claimed :
    Option (Ref × DomainSemantics)
    → DomainKey
    → Prepared
    → Log
    → Result LogError (Log × AppendOutcome)
unfolding repeat
claimed (some (id, semantics)) key p l =
    repeat (semantics == p.domain_semantics) LogError.domain_collision id p l
claimed none key p l =
    append_new p
      (record l { keys = insert key (p.stored.event.event_id, p.domain_semantics) l.keys })

-- The claim of the key.
unfoldable pub claim : Option DomainKey → Prepared → Log → Result LogError (Log × AppendOutcome)
unfolding claimed
claim none p l = append_new p l
claim (some key) p l = claimed (lookup key l.keys) key p l

unfoldable pub compared :
    Option StoredEvent → Prepared → Log → Result LogError (Log × AppendOutcome)
unfolding repeat
compared none p l = claim p.domain p l
compared (some s) p l =
    repeat (semantics_of s == p.semantics) LogError.event_collision p.stored.event.event_id p l

-- `append_prepared`.
unfoldable pub append_prepared : Prepared → Log → Result LogError (Log × AppendOutcome)
unfolding compared
append_prepared p l = compared (stored_event p.stored.event.event_id l.events) p l

-- `database` is an error if a statement of the transaction or its commit fails.
unfoldable pub committed :
    {A : Type 0}
    → Result LogError (Unit {0})
    → Result LogError (Log × A)
    → Log
    → Log × Result LogError A
committed database (err e) l = (l, err e)
committed database (ok (after, a)) l = elim database [ err e ↦ (l, err e) | ok _ ↦ (after, ok a) ]

pub record AggregateVersion : Type 0 where
  pub schema_version : Version
  pub aggregate : Ref
  pub value : ℕ

pub data ExpectedAppendStatus : Type 0 where
  applied duplicate conflict : ExpectedAppendStatus

pub record ExpectedAppend : Type 0 where
  pub schema_version : Version
  pub status : ExpectedAppendStatus
  pub expected_version : ℕ
  pub actual_version : ℕ
  pub resulting_version : ℕ
  pub event_id : Option Ref

abbrev conflict_at : ℕ → ℕ → ExpectedAppend
conflict_at expected actual = record {
  schema_version = 1;
  status = ExpectedAppendStatus.conflict;
  expected_version = expected;
  actual_version = actual;
  resulting_version = actual;
  event_id = none;
}

unfoldable pub status_of : AppendDisposition → ExpectedAppendStatus
status_of AppendDisposition.applied = ExpectedAppendStatus.applied
status_of AppendDisposition.duplicate = ExpectedAppendStatus.duplicate

unfoldable pub met : ℕ → AppendOutcome → ExpectedAppend
unfolding status_of
met expected outcome = record {
  schema_version = 1;
  status = status_of outcome.disposition;
  expected_version = expected;
  actual_version = expected;
  resulting_version = outcome.resulting_version;
  event_id = some outcome.event_id;
}

-- `aggregate_version`.
unfoldable pub aggregate_version : Ref → Log → Result LogError AggregateVersion
aggregate_version run l =
    if is_blank run
    then err LogError.aggregate_empty
    else ok (record { schema_version = 1; aggregate = run; value = version_of run l.events })

module _ (j : Json) (schema : Map Ref Version) where
  -- `reject_non_evolution_write_path`, then `prepare_event`.
  unfoldable pub prepared : Event → Result LogError Prepared
  prepared e = do
    reject (contains control_kinds e.kind) LogError.control_event
    prepare_event j schema e

  -- The transaction of `append`.
  unfoldable pub appending : Event → Log → Result LogError (Log × Ref)
  appending e l = do p ← prepared e; done ← append_prepared p l; ok (done.0, done.1.event_id)

  unfoldable pub append : Result LogError (Unit {0}) → Event → Log → Log × Result LogError Ref
  append database e l = committed database (appending e l) l

  unfoldable pub expecting : Event → AggregateVersion → Log → Result LogError (Log × ExpectedAppend)
  expecting e expected l = do
    reject (contains control_kinds e.kind) LogError.control_event
    reject (expected.schema_version == 0 || is_blank expected.aggregate) LogError.version_incomplete
    reject (e.run_id != expected.aggregate) LogError.aggregate_mismatch
    p ← prepare_event j schema e
    if version_of expected.aggregate l.events == expected.value
        then (do done ← append_prepared p l; ok (done.0, met expected.value done.1))
        else ok (l, conflict_at expected.value (version_of expected.aggregate l.events))

  unfoldable pub append_expected :
      Result LogError (Unit {0})
      → Event
      → AggregateVersion
      → Log
      → Log × Result LogError ExpectedAppend
  append_expected database e expected l = committed database (expecting e expected l) l
