-- ===== src/Store/Log/Cached.antt =====
-- What one table of projections holds while events are appended.
use forme_agent.Base.{
  ℕ, suc, max, List, [], ◌∷◌, ◌++◌, Option, none, some, ◌==◌, nat_eq, string_eq, if◌then◌else◌, ok,
  ◌≡◌, refl, ap, length, arith,
}
use forme_agent.Base.Map.{lookup, insert, string_ord, lookup-insert}
use forme_agent.Base.Text.{string_discrete}
use forme_agent.Protocol.Kinds.{Ref}
use forme_agent.Protocol.Events.{Event}
use forme_agent.Store.Projection.{Projection, fold}
use forme_agent.Store.Log.{StoredEvent, run_events, greatest}
use forme_agent.Store.Log.Append.{
  Cache, current, read_row, read_found, resume, write_row, write_at, validate_row,
}

pub run_events_snoc :
    (run : Ref) (rows : List StoredEvent) (s : StoredEvent)
    → run_events run (rows ++ s ∷ [])
      ≡ (if s.event.run_id == run then run_events run rows ++ s.event ∷ [] else run_events run rows)
unfolding run_events
run_events_snoc run [] s = ground arith
run_events_snoc run (r ∷ rows) s = ground (arith, run_events_snoc run rows s)

pub greatest_snoc :
    (es : List Event) (e : Event) → greatest (es ++ e ∷ []) ≡ max (greatest es) e.stream_seq
unfolding greatest
greatest_snoc [] e = omega arith
greatest_snoc (x ∷ es) e = omega (arith, greatest_snoc es e)

pub length_snoc : (es : List Event) (e : Event) → length (es ++ e ∷ []) ≡ suc (length es)
length_snoc [] e = refl
length_snoc (x ∷ es) e = ap suc (length_snoc es e)

-- What the trait promises of the fields that it names.
pub record Lawful (p : Projection) : Type 0 where
  pub run_id : (s : p.State) (e : Event) → p.run_id (p.apply s e) ≡ some e.run_id
  pub last_stream_seq : (s : p.State) (e : Event) → p.last_stream_seq (p.apply s e) ≡ e.stream_seq
  pub schema_version :
      (s : p.State) (e : Event) → p.schema_version (p.apply s e) ≡ p.schema_version s
  pub empty_version : p.schema_version p.empty ≡ 1

-- The row of a run with the given events.
unfoldable pub cached : (p : Projection) → List Event → Option (p.State × ℕ)
cached p [] = none
cached p (e ∷ es) = some (fold p p.empty (e ∷ es), suc (length es))

module _ (p : Projection) (v : Lawful p) where
  fold_snoc :
      (s : p.State) (es : List Event) (e : Event)
      → fold p s (es ++ e ∷ []) ≡ p.apply (fold p s es) e
  unfolding fold
  fold_snoc s [] e = refl
  fold_snoc s (x ∷ es) e = fold_snoc (p.apply s x) es e

  cached_snoc :
      (es : List Event) (e : Event)
      → cached p (es ++ e ∷ []) ≡ some (p.apply (fold p p.empty es) e, suc (length es))
  unfolding cached
  cached_snoc [] e = ap (λ s. some (s, 1)) (fold_snoc p.empty [] e)
  cached_snoc (x ∷ es) e = ground (arith, fold_snoc p.empty (x ∷ es) e, length_snoc es e)

  -- A state that an event continues is that of all events so far.
  current-fold :
      (e : Event) (rows : Cache p) (es : List Event) (s : p.State)
      → lookup e.run_id rows ≡ cached p es
      → current p e rows ≡ ok s
      → s ≡ fold p p.empty es
  unfolding current read_row read_found resume cached fold validate_row
  current-fold e rows [] s c h = ground (arith, c, h)
  current-fold e rows (x ∷ es) s c h = ground (arith, c, h)

  write-row_at :
      (s : p.State) (e : Event) (rows after : Cache p)
      → write_row p (p.apply s e) rows ≡ ok after
      → after ≡ insert e.run_id (p.apply s e, e.stream_seq) rows
  unfolding write_row write_at
  write-row_at s e rows after h = ground (arith, v.run_id s e, v.last_stream_seq s e, h)

  -- The row of each run, after an event was written to the table.
  pub written-cached :
      (e : Event) (rows after : Cache p) (events : List StoredEvent) (x : StoredEvent) (s : p.State)
      (run : Ref)
      → x.event ≡ e
      → ((r : Ref) → lookup r rows ≡ cached p (run_events r events))
      → e.stream_seq ≡ suc (length (run_events e.run_id events))
      → current p e rows ≡ ok s
      → write_row p (p.apply s e) rows ≡ ok after
      → lookup run after ≡ cached p (run_events run (events ++ x ∷ []))
  written-cached e rows after events x s run same c n h w =
      let state = current-fold e rows (run_events e.run_id events) s (c e.run_id) h in
      let put = write-row_at s e rows after w in
      let row = lookup-insert run e.run_id (p.apply s e, e.stream_seq) rows in
      elim (string_discrete e.run_id run) [
        | yes q ↦ ground (
          arith,
          same,
          state,
          put,
          row,
          q,
          n,
          run_events_snoc run events x,
          cached_snoc (run_events run events) e,
          ap (λ r. run_events r events) q,
        )
        | no q ↦ ground (arith, same, put, row, q, c run, run_events_snoc run events x)
      ]
