-- ===== src/Store/Log/Tests.antt =====
-- The event log at concrete inputs.
use forme_agent.Base.{
  ℕ, List, [], ◌∷◌, Option, none, some, ◌≡◌, refl, ok, err, ℕ_discrete, contains,
}
use forme_agent.Base.Int.{pos}
use forme_agent.Base.Map.{Map, lookup, insert}
use forme_agent.Base.Text.{is_blank, string_discrete, string_less}
use forme_agent.Protocol.Kinds.{Ref, Version, Source, Actor, TrustTier}
use forme_agent.Protocol.Events.{Event, EventPayload, kind_of}
use forme_agent.Store.Log.{
  LogError, Json, run_events, version_of, prepare_event, control_kinds, stored_event, greatest,
  domain_key, found_schema,
}
use forme_agent.Store.Log.Append.{
  AggregateVersion, ExpectedAppend, ExpectedAppendStatus, append, append_expected, committed,
  appending, expecting, prepared, append_prepared, compared, claim, claimed, append_new,
  update_projections, current, read_row, read_found, resume, write_row, write_at, met, status_of,
  validate_row, is_run, repeat,
}
use forme_agent.Store.Log.Calls.{Call, call, run_calls, no_log, log-Faithful, appends}
use forme_agent.Store.Log.Once.{append_once}
use forme_agent.Store.Log.Expected.{expected_once}
use forme_agent.Store.Log.History.{Faithful}
use forme_agent.Store.Projection.{
  session_apply, transcript_apply, absorb, payload_text, new_entries,
}

abbrev json : Json
json = record { payload = λ p. ok (kind_of p); provenance = λ p. ok "provenance" }

abbrev schema : Map Ref Version
schema = ("TurnStarted", 1) ∷ []

abbrev turn : Ref → Event
turn id = record {
  event_id = id;
  run_id = "run:1";
  stream_seq = 0;
  turn_id = none;
  kind = "TurnStarted";
  payload = EventPayload.turn_started (record { turn_index = 1 });
  schema_version = 1;
  ts_unix_ms = pos 5;
  provenance = record {
    source = Source.user_turn;
    actor = Actor.owner;
    trust_tier = TrustTier.owner_input;
    caused_by = none;
  };
}

abbrev at_version : ℕ → AggregateVersion
at_version n = record { schema_version = 1; aggregate = "run:1"; value = n }

abbrev calls : List Call
calls =
    appends (ok tt) (turn "event:2") ∷ appends (err LogError.database_failed) (turn "event:3") ∷ []

first_accepted : (append json schema (ok tt) (turn "event:1") no_log).1 ≡ ok "event:1"
unfolding run_calls call append append_expected committed appending expecting prepared prepare_event
    append_prepared compared claim claimed append_new update_projections current read_row read_found
    resume write_row write_at met status_of validate_row is_run repeat contains control_kinds
    kind_of found_schema lookup insert string_discrete string_less ℕ_discrete is_blank run_events
    version_of greatest stored_event domain_key session_apply transcript_apply absorb payload_text
    new_entries
first_accepted = refl

two_events :
    version_of "run:1"
      (run_calls json schema (appends (ok tt) (turn "event:1") ∷ calls) no_log).events
    ≡ 2
unfolding run_calls call append append_expected committed appending expecting prepared prepare_event
    append_prepared compared claim claimed append_new update_projections current read_row read_found
    resume write_row write_at met status_of validate_row is_run repeat contains control_kinds
    kind_of found_schema lookup insert string_discrete string_less ℕ_discrete is_blank run_events
    version_of greatest stored_event domain_key session_apply transcript_apply absorb payload_text
    new_entries
two_events = refl

log-Faithful_example :
    Faithful (run_calls json schema (appends (ok tt) (turn "event:1") ∷ calls) no_log)
log-Faithful_example = log-Faithful json schema (appends (ok tt) (turn "event:1") ∷ calls)

append_once_example :
    let later =
      run_calls json schema calls (append json schema (ok tt) (turn "event:1") no_log).0 in
    (append json schema (ok tt) (turn "event:1") later).0 ≡ later
append_once_example =
    append_once json schema (ok tt) (turn "event:1") no_log "event:1" calls first_accepted

abbrev report : ExpectedAppendStatus → ℕ → ℕ → Option Ref → ExpectedAppend
report status actual resulting id = record {
  schema_version = 1;
  status = status;
  expected_version = 0;
  actual_version = actual;
  resulting_version = resulting;
  event_id = id;
}

abbrev first_report : ExpectedAppend
first_report = report ExpectedAppendStatus.applied 0 1 (some "event:1")

abbrev second_report : ExpectedAppend
second_report = report ExpectedAppendStatus.conflict 1 1 none

first_applied :
    (append_expected json schema (ok tt) (turn "event:1") (at_version 0) no_log).1 ≡ ok first_report
unfolding run_calls call append append_expected committed appending expecting prepared prepare_event
    append_prepared compared claim claimed append_new update_projections current read_row read_found
    resume write_row write_at met status_of validate_row is_run repeat contains control_kinds
    kind_of found_schema lookup insert string_discrete string_less ℕ_discrete is_blank run_events
    version_of greatest stored_event domain_key session_apply transcript_apply absorb payload_text
    new_entries
first_applied = refl

second_refused :
    (append_expected json schema
      (ok tt)
      (turn "event:2")
      (at_version 0)
      (append_expected json schema (ok tt) (turn "event:1") (at_version 0) no_log).0).1
    ≡ ok second_report
unfolding run_calls call append append_expected committed appending expecting prepared prepare_event
    append_prepared compared claim claimed append_new update_projections current read_row read_found
    resume write_row write_at met status_of validate_row is_run repeat contains control_kinds
    kind_of found_schema lookup insert string_discrete string_less ℕ_discrete is_blank run_events
    version_of greatest stored_event domain_key session_apply transcript_apply absorb payload_text
    new_entries
second_refused = refl

second_refused_as_run :
    (append_expected json schema (ok tt) (turn "event:2") (at_version 0) (
      run_calls json schema []
        (append_expected json schema (ok tt) (turn "event:1") (at_version 0) no_log).0)).1
    ≡ ok second_report
unfolding run_calls
second_refused_as_run = second_refused

expected_once_example : second_report.status ≡ ExpectedAppendStatus.conflict
expected_once_example =
    expected_once json schema (ok tt) (ok tt) (turn "event:1") (turn "event:2") (at_version 0)
      no_log first_report second_report [] first_applied refl second_refused_as_run
