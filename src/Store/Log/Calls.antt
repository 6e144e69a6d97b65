-- ===== src/Store/Log/Calls.antt =====
-- The calls of the event log, in any order.
use forme_agent.Base.{
  ◌≤◌, true, List, [], ◌∷◌, ◌==◌, nat_eq, string_eq, Result, ok, err, ◌≡◌, refl, sym, ap, subst,
  inl, inr, arith, Result-cases, Bool-cases,
}
use forme_agent.Base.Map.{Map, lookup, string_ord}
use forme_agent.Protocol.Kinds.{Ref, Version}
use forme_agent.Protocol.Events.{Event}
use forme_agent.Store.Log.Cached.{cached}
use forme_agent.Store.Log.{
  greatest, LogError, run_events, version_of, Log, Prepared, Json, prepare_event, domain_key,
}
use forme_agent.Store.Log.Append.{
  append_prepared, AppendOutcome, committed, prepared, appending, append, expecting,
  append_expected, AggregateVersion, met, ExpectedAppend, ExpectedAppendStatus,
}
use forme_agent.Store.Log.Changes.{on_file}
use forme_agent.Store.Log.History.{
  Faithful, gapless, Move, stays, append-Move, Move-Faithful, Move-version, Move-on_file,
}

abbrev pub no_log : Log
no_log = record { events = []; keys = []; sessions = []; transcripts = [] }

no_log-Faithful : Faithful no_log
unfolding run_events gapless version_of lookup greatest cached
no_log-Faithful = record {
  gapless = λ r. refl;
  version = λ r. refl;
  session = λ r. refl;
  transcript = λ r. refl;
}

-- A call, with what the database answers.
pub data Call : Type 0 where
  appends : Result LogError (Unit {0}) → Event → Call
  expects : Result LogError (Unit {0}) → Event → AggregateVersion → Call

module _ (j : Json) (schema : Map Ref Version) where
  unfoldable pub call : Call → Log → Log
  call (appends database e) l = (append j schema database e l).0
  call (expects database e expected) l = (append_expected j schema database e expected l).0

  unfoldable pub run_calls : List Call → Log → Log
  run_calls [] l = l
  run_calls (c ∷ cs) l = run_calls cs (call c l)

  append-call_Move :
      (database : Result LogError (Unit {0})) (e : Event) (l : Log)
      → Move l (append j schema database e l).0
  unfolding append committed appending
  append-call_Move database e l = elim (Result-cases (prepared j schema e)) [
    | inr (x, a) ↦ stays (ground (arith, a))
    | inl (p, a) ↦ elim (Result-cases (append_prepared p l)) [
      | inr (x, b) ↦ stays (ground (arith, a, b))
      | inl ((after, out), b) ↦ elim (Result-cases database) [
        | inr (x, c) ↦ stays (ground (arith, a, b, c))
        | inl (tt, c) ↦
            let left : after ≡ (append j schema database e l).0 = ground (arith, a, b, c) in
            subst (Move l) left (append-Move p l after out b)
      ]
    ]
  ]

  -- What a call of `append_expected` comes to.
  pub data ExpectedCase (database : Result LogError (Unit {0})) (e : Event)
      (expected : AggregateVersion) (l : Log) : Type 0 where
    fails :
        (x : LogError)
        → append_expected j schema database e expected l ≡ (l, err x)
        → ExpectedCase database e expected l
    conflicts :
        (r : ExpectedAppend)
        → append_expected j schema database e expected l ≡ (l, ok r)
        → r.status ≡ ExpectedAppendStatus.conflict
        → ExpectedCase database e expected l
    goes :
        (p : Prepared) (after : Log) (out : AppendOutcome)
        → version_of e.run_id l.events ≡ expected.value
        → e.run_id ≡ expected.aggregate
        → prepared j schema e ≡ ok p
        → append_prepared p l ≡ ok (after, out)
        → append_expected j schema database e expected l ≡ (after, ok (met expected.value out))
        → ExpectedCase database e expected l

  pub append-expected_case :
      (database : Result LogError (Unit {0})) (e : Event) (expected : AggregateVersion) (l : Log)
      → ExpectedCase database e expected l
  unfolding append_expected committed expecting prepared
  append-expected_case database e expected l =
      elim (Result-cases (expecting j schema e expected l)) [
        | inr (x, a) ↦ fails x (ground (arith, a))
        | inl ((after, r), a) ↦ elim (Result-cases database) [
          | inr (x, d) ↦ fails x (ground (arith, a, d))
          | inl (tt, d) ↦ elim (Result-cases (prepare_event j schema e)) [
            | inr (x, b) ↦ absurd (ground (arith, a, b))
            | inl (p, b) ↦
                elim (Bool-cases (version_of expected.aggregate l.events == expected.value)) [
                  | inr v ↦ conflicts r (ground (arith, a, b, d, v)) (ground (arith, a, b, v))
                  | inl v ↦ elim (Result-cases (append_prepared p l)) [
                    | inr (x, c) ↦ absurd (ground (arith, a, b, c, v))
                    | inl ((u, out), c) ↦
                        let run : e.run_id ≡ expected.aggregate = ground (arith, a, b, c, v) in
                        goes p u out (ground (arith, ap (λ i. version_of i l.events) run, v)) run
                          (ground (arith, a, b, c, v)) c (ground (arith, a, b, c, d, v))
                  ]
                ]
          ]
        ]
      ]

  expected-call_Move :
      (database : Result LogError (Unit {0})) (e : Event) (expected : AggregateVersion) (l : Log)
      → Move l (append_expected j schema database e expected l).0
  expected-call_Move database e expected l = split (append-expected_case database e expected l)
    where
      split :
          ExpectedCase database e expected l
          → Move l (append_expected j schema database e expected l).0
      split (fails x q) = stays (ap (λ r. r.0) q)
      split (conflicts r q s) = stays (ap (λ r. r.0) q)
      split (goes p after out v i a b q) =
          subst (Move l) (sym (ap (λ r. r.0) q)) (append-Move p l after out b)

  call-Move : (c : Call) (l : Log) → Move l (call c l)
  unfolding call
  call-Move (appends database e) l = append-call_Move database e l
  call-Move (expects database e expected) l = expected-call_Move database e expected l

  calls-Faithful : (cs : List Call) (l : Log) → Faithful l → Faithful (run_calls cs l)
  unfolding run_calls
  calls-Faithful [] l f = f
  calls-Faithful (c ∷ cs) l f =
      calls-Faithful cs (call c l) (Move-Faithful l (call c l) (call-Move c l) f)

  pub calls-version :
      (cs : List Call) (l : Log) (r : Ref)
      → version_of r l.events ≤ version_of r (run_calls cs l).events
  unfolding run_calls
  calls-version [] l r = omega arith
  calls-version (c ∷ cs) l r =
      omega (arith, calls-version cs (call c l) r, Move-version l (call c l) r (call-Move c l))

  pub calls-on_file :
      (cs : List Call) (l : Log) (e : Event)
      → on_file e.event_id (domain_key e.payload) l ≡ true
      → on_file e.event_id (domain_key e.payload) (run_calls cs l) ≡ true
  unfolding run_calls
  calls-on_file [] l e h = h
  calls-on_file (c ∷ cs) l e h =
      calls-on_file cs (call c l) e
        (Move-on_file e.event_id (domain_key e.payload) l (call c l) (call-Move c l) h)

  -- Over any calls of `append` and `append_expected` on an empty store, failing ones included, the
  -- events of each run are numbered 1, 2, 3 and so on, and the stored session state and transcript of
  -- each run are what a fold over its events gives.
  pub log-Faithful : (cs : List Call) → Faithful (run_calls cs no_log)
  log-Faithful cs = calls-Faithful cs no_log no_log-Faithful
