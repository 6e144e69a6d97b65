-- ===== src/Store/Log/Changes.antt =====
-- What an append does to the tables: nothing, or one event more.
use forme_agent.Base.{
  suc, Bool, true, false, ◌||◌, Option, none, some, nat_eq, string_eq, ok, ◌≡◌, refl, ap, subst,
  inl, inr, arith, Result-cases, Option-cases,
}
use forme_agent.Base.Map.{Map, lookup, insert, string_ord, lookup-insert, contains_key}
use forme_agent.Protocol.Kinds.{Ref}
use forme_agent.Protocol.Events.{Event}
use forme_agent.Store.Projection.{
  session_projection, transcript_projection, SessionState, Transcript,
}
use forme_agent.Store.Log.{
  StoredEvent, version_of, Log, Prepared, DomainKey, key_ord, DomainSemantics, domain_eq,
  semantics_eq, stored_event,
}
use forme_agent.Store.Log.Append.{
  current, write_row, update_projections, numbered, added, append_new, repeat, claimed, claim,
  compared, append_prepared, AppendOutcome, AppendDisposition,
}

-- What `update_projections` did when it went through.
pub record Updated (e : Event) (l after : Log) : Type 0 where
  pub session : SessionState
  pub transcript : Transcript
  pub session_read : current session_projection e l.sessions ≡ ok session
  pub transcript_read : current transcript_projection e l.transcripts ≡ ok transcript
  pub session_written :
      write_row session_projection (session_projection.apply session e) l.sessions
      ≡ ok after.sessions
  pub transcript_written :
      write_row transcript_projection (transcript_projection.apply transcript e) l.transcripts
      ≡ ok after.transcripts
  pub events : after.events ≡ l.events
  pub keys : after.keys ≡ l.keys

update-Updated : (e : Event) (l after : Log) → update_projections e l ≡ ok after → Updated e l after
unfolding update_projections
update-Updated e l after h = elim (Result-cases (current session_projection e l.sessions)) [
  | inr (x, a) ↦ absurd (ground (arith, a, h))
  | inl (session, a) ↦ elim (Result-cases (current transcript_projection e l.transcripts)) [
    | inr (x, b) ↦ absurd (ground (arith, a, b, h))
    | inl (transcript, b) ↦
        elim (Result-cases
          (write_row session_projection (session_projection.apply session e) l.sessions)) [
            | inr (x, c) ↦ absurd (ground (arith, a, b, c, h))
            | inl (sessions, c) ↦
                elim (Result-cases (
                  write_row transcript_projection (transcript_projection.apply transcript e)
                    l.transcripts)) [
                      | inr (x, d) ↦ absurd (ground (arith, a, b, c, d, h))
                      | inl (transcripts, d) ↦ record {
                        session = session;
                        transcript = transcript;
                        session_read = a;
                        transcript_read = b;
                        session_written = ground (arith, a, b, c, d, h);
                        transcript_written = ground (arith, a, b, c, d, h);
                        events = ground (arith, a, b, c, d, h);
                        keys = ground (arith, a, b, c, d, h);
                      }
                    ]
          ]
  ]
]

-- The event, or the key of its domain, is on file.
unfoldable pub has_event : Option StoredEvent → Bool
has_event none = false
has_event (some _) = true

unfoldable pub has_key : Option DomainKey → Map DomainKey (Ref × DomainSemantics) → Bool
has_key none keys = false
has_key (some k) keys = contains_key k keys

unfoldable pub on_file : Ref → Option DomainKey → Log → Bool
unfolding has_event
on_file id key l = has_event (stored_event id l.events) || has_key key l.keys

-- One event more; `with_key` is the log in which the key of the event is claimed.
pub record Grown (p : Prepared) (l after : Log) : Type 0 where
  pub with_key : Log
  pub events : with_key.events ≡ l.events
  pub sessions : with_key.sessions ≡ l.sessions
  pub transcripts : with_key.transcripts ≡ l.transcripts
  pub updated :
      Updated
        (numbered p (suc (version_of p.stored.event.run_id l.events))).event
        (added p (suc (version_of p.stored.event.run_id l.events)) with_key)
        after
  pub keeps : (k : DomainKey) → contains_key k l.keys ≡ true → contains_key k with_key.keys ≡ true

-- What `append_prepared` did when it went through.
pub data Change (p : Prepared) (l after : Log) (out : AppendOutcome) : Type 0 where
  same :
      after ≡ l
      → on_file p.stored.event.event_id p.domain l ≡ true
      → out.disposition ≡ AppendDisposition.duplicate
      → Change p l after out
  grown :
      Grown p l after
      → on_file p.stored.event.event_id p.domain l ≡ false
      → out.resulting_version ≡ suc (version_of p.stored.event.run_id l.events)
      → Change p l after out

append-new_Grown :
    (p : Prepared) (l m after : Log) (out : AppendOutcome)
    → append_new p m ≡ ok (after, out)
    → m.events ≡ l.events
    → m.sessions ≡ l.sessions
    → m.transcripts ≡ l.transcripts
    → ((k : DomainKey) → contains_key k l.keys ≡ true → contains_key k m.keys ≡ true)
    → Grown p l after × (out.resulting_version ≡ suc (version_of p.stored.event.run_id l.events))
unfolding append_new
append-new_Grown p l m after out h a b c keeps =
    let next = suc (version_of p.stored.event.run_id m.events) in
    let event = (numbered p next).event in
    elim (Result-cases (update_projections event (added p next m))) [
      | inr (x, u) ↦ absurd (ground (arith, u, h))
      | inl (result, u) ↦
          let left : result ≡ after = ground (arith, u, h) in
          let version = ap (version_of p.stored.event.run_id) a in
          let number : out.resulting_version ≡ suc (version_of p.stored.event.run_id l.events) =
            ground (arith, u, h, version) in
          (
            record {
              with_key = m;
              events = a;
              sessions = b;
              transcripts = c;
              updated =
                  subst (λ n. Updated (numbered p (suc n)).event (added p (suc n) m) after) version
                    (subst (Updated event (added p next m)) left
                      (update-Updated event (added p next m) result u));
              keeps = keeps;
            },
            number,
          )
    ]

claimed-keeps :
    (k key : DomainKey) (x : Ref × DomainSemantics) (keys : Map DomainKey (Ref × DomainSemantics))
    → contains_key k keys ≡ true
    → contains_key k (insert key x keys) ≡ true
unfolding contains_key
claimed-keeps k key x keys h = ground (arith, lookup-insert k key x keys)

pub append-Change :
    (p : Prepared) (l after : Log) (out : AppendOutcome)
    → append_prepared p l ≡ ok (after, out)
    → Change p l after out
unfolding append_prepared compared repeat claim claimed on_file has_event has_key contains_key
append-Change p l after out h =
    elim (Option-cases (stored_event p.stored.event.event_id l.events)) [
      | inr (s, a) ↦ same (ground (arith, a, h)) (ground (arith, a)) (ground (arith, a, h))
      | inl a ↦ elim (Option-cases p.domain) [
        | inl b ↦
            let r =
              append-new_Grown p l l after out (ground (arith, a, b, h)) refl refl refl
                (λ k q. q) in
            grown r.0 (ground (arith, a, b)) r.1
        | inr (key, b) ↦ elim (Option-cases (lookup key l.keys)) [
          | inr (x, c) ↦
              same (ground (arith, a, b, c, h)) (ground (arith, a, b, c))
                (ground (arith, a, b, c, h))
          | inl c ↦
              let r =
                append-new_Grown p l
                  (record l {
                    keys = insert key (p.stored.event.event_id, p.domain_semantics) l.keys;
                  })
                  after out (ground (arith, a, b, c, h)) refl refl refl
                  (λ k q.
                    claimed-keeps k key (p.stored.event.event_id, p.domain_semantics) l.keys q) in
              grown r.0 (ground (arith, a, b, c)) r.1
        ]
      ]
    ]
