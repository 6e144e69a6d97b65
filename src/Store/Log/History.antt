-- ===== src/Store/Log/History.antt =====
-- The event log over any sequence of appends.
use forme_agent.Base.{
  ℕ, suc, ◌+◌, ◌≤◌, Bool, true, false, List, [], ◌∷◌, ◌++◌, Option, none, some, ◌==◌, nat_eq,
  string_eq, if◌then◌else◌, ok, ◌≡◌, refl, sym, ap, ◌∙◌, subst, length, arith,
}
use forme_agent.Base.Map.{lookup, string_ord}
use forme_agent.Base.Text.{string_discrete}
use forme_agent.Protocol.Kinds.{Ref}
use forme_agent.Protocol.Events.{Event, EventPayload}
use forme_agent.Store.Projection.{
  session_projection, transcript_projection, SessionState, absorb, session_apply, transcript_apply,
}
use forme_agent.Store.Log.{
  StoredEvent, run_events, greatest, version_of, Log, Prepared, DomainKey, key_ord, stored_event,
}
use forme_agent.Store.Log.Append.{current, write_row, numbered, append_prepared, AppendOutcome}
use forme_agent.Store.Log.Cached.{
  Lawful, cached, written-cached, run_events_snoc, greatest_snoc, length_snoc,
}
use forme_agent.Store.Log.Changes.{
  Change, same, grown, Grown, on_file, has_event, has_key, append-Change,
}

absorb-keeps :
    (payload : EventPayload) (s : SessionState)
    → ((absorb payload s).run_id ≡ s.run_id)
      × ((absorb payload s).last_stream_seq ≡ s.last_stream_seq)
      × ((absorb payload s).schema_version ≡ s.schema_version)
unfolding absorb
absorb-keeps (EventPayload.run_accepted _) s = (refl, refl, refl)
absorb-keeps (EventPayload.session_bound _) s = (refl, refl, refl)
absorb-keeps (EventPayload.run_complete _) s = (refl, refl, refl)
absorb-keeps (EventPayload.run_aborted _) s = (refl, refl, refl)
absorb-keeps (EventPayload.run_failed _) s = (refl, refl, refl)
absorb-keeps (EventPayload.run_limited _) s = (refl, refl, refl)
absorb-keeps (EventPayload.run_waiting _) s = (refl, refl, refl)
absorb-keeps (EventPayload.run_resumed _) s = (refl, refl, refl)
absorb-keeps (EventPayload.turn_started _) s = (refl, refl, refl)
absorb-keeps (EventPayload.turn_complete _) s = (refl, refl, refl)
absorb-keeps (EventPayload.context_build_started _) s = (refl, refl, refl)
absorb-keeps (EventPayload.context_build_finished _) s = (refl, refl, refl)
absorb-keeps (EventPayload.compaction_started _) s = (refl, refl, refl)
absorb-keeps (EventPayload.compaction_finished _) s = (refl, refl, refl)
absorb-keeps (EventPayload.model_call_started _) s = (refl, refl, refl)
absorb-keeps (EventPayload.model_call_delta _) s = (refl, refl, refl)
absorb-keeps (EventPayload.model_call_finished _) s = (refl, refl, refl)
absorb-keeps (EventPayload.output_classified _) s = (refl, refl, refl)
absorb-keeps (EventPayload.approval_requested _) s = (refl, refl, refl)
absorb-keeps (EventPayload.approval_resolved _) s = (refl, refl, refl)
absorb-keeps (EventPayload.action_output_delta _) s = (refl, refl, refl)
absorb-keeps (EventPayload.action_planned _) s = (refl, refl, refl)
absorb-keeps (EventPayload.memory_maintenance_applied _) s = (refl, refl, refl)
absorb-keeps (EventPayload.other _ _) s = (refl, refl, refl)

session-Lawful : Lawful session_projection
unfolding session_apply
session-Lawful = record {
  run_id = λ s e.
      (absorb-keeps e.payload
        (record s { run_id = some e.run_id; last_stream_seq = e.stream_seq })).0;
  last_stream_seq = λ s e.
      (absorb-keeps e.payload
        (record s { run_id = some e.run_id; last_stream_seq = e.stream_seq })).1;
  schema_version = λ s e.
      (absorb-keeps e.payload
        (record s { run_id = some e.run_id; last_stream_seq = e.stream_seq })).2;
  empty_version = refl;
}

transcript-Lawful : Lawful transcript_projection
unfolding transcript_apply
transcript-Lawful = record {
  run_id = λ s e. refl;
  last_stream_seq = λ s e. refl;
  schema_version = λ s e. refl;
  empty_version = refl;
}

-- The events are numbered one after another.
unfoldable pub gapless : ℕ → List Event → Bool
gapless n [] = true
gapless n (e ∷ es) = let rest = gapless (suc n) es in if e.stream_seq == suc n then rest else false

gapless_snoc :
    (n : ℕ) (es : List Event) (e : Event)
    → gapless n es ≡ true
    → e.stream_seq ≡ suc (n + length es)
    → gapless n (es ++ e ∷ []) ≡ true
unfolding gapless
gapless_snoc n [] e g h = ground arith
gapless_snoc n (x ∷ es) e g h = ground (arith, gapless_snoc (suc n) es e)

-- Of each run the events are numbered from 1, and the rows of the projections are what the events
-- fold to.
pub record Faithful (l : Log) : Type 0 where
  pub gapless : (r : Ref) → gapless 0 (run_events r l.events) ≡ true
  pub version : (r : Ref) → version_of r l.events ≡ length (run_events r l.events)
  pub session : (r : Ref) → lookup r l.sessions ≡ cached session_projection (run_events r l.events)
  pub transcript :
      (r : Ref) → lookup r l.transcripts ≡ cached transcript_projection (run_events r l.events)

-- The events after an append.
Grown-events :
    (p : Prepared) (l after : Log) (g : Grown p l after)
    → after.events ≡ l.events ++ numbered p (suc (version_of p.stored.event.run_id l.events)) ∷ []
Grown-events p l after g =
    g.updated.events
    ∙ ap (λ es. es ++ numbered p (suc (version_of p.stored.event.run_id l.events)) ∷ []) g.events

pub version-Grown :
    (p : Prepared) (l after : Log) (r : Ref)
    → Grown p l after
    → version_of r after.events
      ≡ (if p.stored.event.run_id == r then suc (version_of r l.events) else version_of r l.events)
unfolding version_of
version-Grown p l after r g =
    let x = numbered p (suc (version_of p.stored.event.run_id l.events)) in
    elim (string_discrete p.stored.event.run_id r) [
      | yes q ↦ ground (
        arith,
        q,
        Grown-events p l after g,
        run_events_snoc r l.events x,
        greatest_snoc (run_events r l.events) x.event,
        ap (λ i. greatest (run_events i l.events)) q,
      )
      | no q ↦ ground (arith, q, Grown-events p l after g, run_events_snoc r l.events x)
    ]

Grown-Faithful : (p : Prepared) (l after : Log) → Grown p l after → Faithful l → Faithful after
Grown-Faithful p l after g f =
    let n = suc (version_of p.stored.event.run_id l.events) in
    let x = numbered p n in
    let rows = Grown-events p l after g in
    let number : n ≡ suc (length (run_events p.stored.event.run_id l.events)) =
      ap suc (f.version p.stored.event.run_id) in
    record {
      gapless = λ r. elim (string_discrete p.stored.event.run_id r) [
        | yes q ↦ ground (
          arith,
          q,
          rows,
          run_events_snoc r l.events x,
          number,
          ap (λ i. length (run_events i l.events)) q,
          gapless_snoc 0 (run_events r l.events) x.event (f.gapless r),
        )
        | no q ↦ ground (arith, q, rows, run_events_snoc r l.events x, f.gapless r)
      ];
      version = λ r. elim (string_discrete p.stored.event.run_id r) [
        | yes q ↦ ground (
          arith,
          q,
          rows,
          version-Grown p l after r g,
          f.version r,
          run_events_snoc r l.events x,
          length_snoc (run_events r l.events) x.event,
        )
        | no q ↦
            ground (
              arith,
              q,
              rows,
              version-Grown p l after r g,
              f.version r,
              run_events_snoc r l.events x,
            )
      ];
      session = λ r.
          subst (λ es. lookup r after.sessions ≡ cached session_projection (run_events r es))
            (sym rows)
            (written-cached session_projection session-Lawful x.event l.sessions after.sessions
              l.events x g.updated.session r refl f.session number
              (subst (λ t. current session_projection x.event t ≡ ok g.updated.session) g.sessions
                g.updated.session_read)
              (subst
                (λ t.
                  write_row session_projection (session_apply g.updated.session x.event) t
                  ≡ ok after.sessions)
                g.sessions g.updated.session_written));
      transcript = λ r.
          subst (λ es. lookup r after.transcripts ≡ cached transcript_projection (run_events r es))
            (sym rows)
            (written-cached transcript_projection transcript-Lawful x.event l.transcripts
              after.transcripts l.events x g.updated.transcript r refl f.transcript number
              (subst (λ t. current transcript_projection x.event t ≡ ok g.updated.transcript)
                g.transcripts g.updated.transcript_read)
              (subst
                (λ t.
                  write_row transcript_projection (transcript_apply g.updated.transcript x.event) t
                  ≡ ok after.transcripts)
                g.transcripts g.updated.transcript_written));
    }

-- The rows of the events grow at the end only.
pub data Move (l after : Log) : Type 0 where
  stays : after ≡ l → Move l after
  moves : (p : Prepared) → Grown p l after → Move l after

pub append-Move :
    (p : Prepared) (l after : Log) (out : AppendOutcome)
    → append_prepared p l ≡ ok (after, out)
    → Move l after
append-Move p l after out h = split (append-Change p l after out h)
  where
    split : Change p l after out → Move l after
    split (same e f d) = stays e
    split (grown g f v) = moves p g

pub Move-Faithful : (l after : Log) → Move l after → Faithful l → Faithful after
Move-Faithful l after (stays e) f = subst Faithful (sym e) f
Move-Faithful l after (moves p g) f = Grown-Faithful p l after g f

pub Move-version :
    (l after : Log) (r : Ref) → Move l after → version_of r l.events ≤ version_of r after.events
Move-version l after r (stays e) = omega (arith, ap (λ m. version_of r m.events) e)
Move-version l after r (moves p g) = ground (arith, version-Grown p l after r g)

stored_snoc :
    (id : Ref) (rows : List StoredEvent) (x : StoredEvent)
    → stored_event id (rows ++ x ∷ []) ≡ elim (stored_event id rows) [
      | some s ↦ some s
      | none ↦ if x.event.event_id == id then some x else none
    ]
unfolding stored_event
stored_snoc id [] x = ground arith
stored_snoc id (s ∷ rows) x = ground (arith, stored_snoc id rows x)

pub Move-on_file :
    (id : Ref) (key : Option DomainKey) (l after : Log)
    → Move l after
    → on_file id key l ≡ true
    → on_file id key after ≡ true
unfolding on_file has_event has_key
Move-on_file id key l after (stays e) h = ap (on_file id key) e ∙ h
Move-on_file id none l after (moves p g) h = ground (
  arith,
  Grown-events p l after g,
  stored_snoc id l.events (numbered p (suc (version_of p.stored.event.run_id l.events))),
)
Move-on_file id (some k) l after (moves p g) h = ground (
  arith,
  Grown-events p l after g,
  g.keeps k,
  g.updated.keys,
  stored_snoc id l.events (numbered p (suc (version_of p.stored.event.run_id l.events))),
)

-- After an append went through, the event or its key is on file.
pub appended-on_file :
    (p : Prepared) (l after : Log) (out : AppendOutcome)
    → append_prepared p l ≡ ok (after, out)
    → on_file p.stored.event.event_id p.domain after ≡ true
unfolding on_file has_event
appended-on_file p l after out h = split (append-Change p l after out h)
  where
    split : Change p l after out → on_file p.stored.event.event_id p.domain after ≡ true
    split (same e f d) = ap (on_file p.stored.event.event_id p.domain) e ∙ f
    split (grown g f v) = ground (
      arith,
      Grown-events p l after g,
      f,
      stored_snoc p.stored.event.event_id l.events
          (numbered p (suc (version_of p.stored.event.run_id l.events))),
    )

-- What is on file is not appended again.
pub on-file_same :
    (p : Prepared) (l after : Log) (out : AppendOutcome)
    → append_prepared p l ≡ ok (after, out)
    → on_file p.stored.event.event_id p.domain l ≡ true
    → after ≡ l
on-file_same p l after out h o = split (append-Change p l after out h)
  where
    split : Change p l after out → after ≡ l
    split (same e f d) = e
    split (grown g f v) = absurd cc
