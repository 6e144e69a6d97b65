-- ===== src/Store/Log/Once.antt =====
-- An event that is on file is not appended again.
use forme_agent.Base.{
  true, List, nat_eq, string_eq, Result, ok, ◌≡◌, ap, subst, inl, inr, arith, Result-cases,
  Option-cases,
}
use forme_agent.Base.Map.{Map, lookup, string_ord}
use forme_agent.Protocol.Kinds.{Ref, Version}
use forme_agent.Protocol.Events.{Event}
use forme_agent.Store.Log.{found_schema, LogError, Log, Prepared, Json, prepare_event, domain_key}
use forme_agent.Store.Log.Append.{append_prepared, committed, prepared, appending, append}
use forme_agent.Store.Log.Changes.{on_file}
use forme_agent.Store.Log.History.{appended-on_file, on-file_same}
use forme_agent.Store.Log.Calls.{Call, run_calls, calls-on_file}

module _ (j : Json) (schema : Map Ref Version) where
  pub prepared_same :
      (e : Event) (p : Prepared)
      → prepared j schema e ≡ ok p
      → (p.stored.event ≡ e) × (p.domain ≡ domain_key e.payload)
  unfolding prepared prepare_event found_schema
  prepared_same e p h = elim (Option-cases (lookup e.kind schema)) [
    | inl n ↦ absurd (ground (arith, h, n))
    | inr (v, n) ↦ elim (Result-cases (j.payload e.payload)) [
      | inr (x, a) ↦ absurd (ground (arith, h, n, a))
      | inl (text, a) ↦ elim (Result-cases (j.provenance e.provenance)) [
        | inr (x, b) ↦ absurd (ground (arith, h, n, a, b))
        | inl (origin, b) ↦ (ground (arith, h, n, a, b), ground (arith, h, n, a, b))
      ]
    ]
  ]

  append-on_file :
      (e : Event) (l : Log) (id : Ref)
      → (append j schema (ok tt) e l).1 ≡ ok id
      → on_file e.event_id (domain_key e.payload) (append j schema (ok tt) e l).0 ≡ true
  unfolding append committed appending
  append-on_file e l id h = elim (Result-cases (prepared j schema e)) [
    | inr (x, a) ↦ absurd (ground (arith, a, h))
    | inl (p, a) ↦ elim (Result-cases (append_prepared p l)) [
      | inr (x, b) ↦ absurd (ground (arith, a, b, h))
      | inl ((after, out), b) ↦
          let (s, d) = prepared_same e p a in
          let left : after ≡ (append j schema (ok tt) e l).0 = ground (arith, a, b) in
          subst (λ m. on_file e.event_id (domain_key e.payload) m ≡ true) left
            (ground (arith, ap (λ x. x.event_id) s, d, appended-on_file p l after out b))
    ]
  ]

  filed_same :
      (database : Result LogError (Unit {0})) (e : Event) (l : Log)
      → on_file e.event_id (domain_key e.payload) l ≡ true
      → (append j schema database e l).0 ≡ l
  unfolding append committed appending
  filed_same database e l h = elim (Result-cases (prepared j schema e)) [
    | inr (x, a) ↦ ground (arith, a)
    | inl (p, a) ↦ elim (Result-cases (append_prepared p l)) [
      | inr (x, b) ↦ ground (arith, a, b)
      | inl ((after, out), b) ↦
          let (s, d) = prepared_same e p a in
          let still : after ≡ l =
            on-file_same p l after out b (ground (arith, ap (λ x. x.event_id) s, d, h)) in
          elim (Result-cases database) [
            | inr (x, c) ↦ ground (arith, a, b, c)
            | inl (tt, c) ↦ ground (arith, a, b, c, still)
          ]
    ]
  ]

  -- Once an event was accepted, appending it again never changes the store, whatever calls came
  -- between: neither its id nor the key of its domain is taken twice.
  pub append_once :
      (database : Result LogError (Unit {0})) (e : Event) (l : Log) (id : Ref) (cs : List Call)
      → (append j schema (ok tt) e l).1 ≡ ok id
      → let later = run_calls j schema cs (append j schema (ok tt) e l).0 in
        (append j schema database e later).0 ≡ later
  append_once database e l id cs h =
      filed_same database e (run_calls j schema cs (append j schema (ok tt) e l).0)
        (calls-on_file j schema cs (append j schema (ok tt) e l).0 e (append-on_file e l id h))
