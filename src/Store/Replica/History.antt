-- ===== src/Store/Replica/History.antt =====
-- The replica over any sequence of batches.
use forme_agent.Base.{
  ℕ, ◌+◌, String, true, ◌&&◌, ◌||◌, List, [], ◌∷◌, Option, none, some, ◌≡◌, sym, ap, ◌∙◌, subst,
  inl, inr, ◌==◌, nat_eq, string_eq, leb, ltb, length, Result, ok, if◌then◌else◌, arith,
  Result-cases, Option-cases, eq_of_test,
}
use forme_agent.Base.Map.{lookup, contains_key, string_ord, lookup-insert}
use forme_agent.Base.Text.{string_discrete}
use forme_agent.Protocol.Kinds.{Ref}
use forme_agent.Protocol.Replication.{
  ReplicationCursor, cursor_eq, ReplicationBatch, ReplicaApplyReport, ReplicaApplyStatus,
}
use forme_agent.Store.Replica.{
  StoreError, Encoding, Binding, Tables, Rows, row_ord, current_cursor, held_cursor, contiguous,
  last_seq, ends_at, insert_events, validate_batch, admit_batch, repeated, append, transact, apply,
  written, rows_of,
}
use forme_agent.Store.Replica.Rows.{contiguous_last, fills, insert-events_keys}

-- The last number of the aggregate that the replica has.
unfoldable pub reached : Binding → Ref → Tables → ℕ
reached b aggregate t = (held_cursor b aggregate t).stream_seq

-- The replica holds the events 1 to `reached` of each aggregate, and no others.
abbrev pub Whole : Binding → Tables → Type 0
Whole b t = (a : Ref) (k : ℕ) → contains_key (a, k) t.events ≡ (ltb 0 k && leb k (reached b a t))

abbrev pub no_tables : Tables
no_tables = record { batches = []; events = []; cursors = [] }

module _ (n : Encoding) where
  -- What a batch that is admitted satisfies.
  record Admitted (b : Binding) (batch : ReplicationBatch) : Type 0 where
    aggregate : batch.from_cursor.aggregate ≡ batch.aggregate
    follows : contiguous batch.aggregate batch.from_cursor.stream_seq batch.events ≡ ok tt
    ends : last_seq batch.events ≡ some batch.to_cursor.stream_seq

  ends_some : (o : Option ℕ) (m : ℕ) → ends_at o m ≡ true → o ≡ some m
  unfolding ends_at
  ends_some none m h = absurd cc
  ends_some (some k) m h = ground arith

  valid-Admitted :
      (b : Binding) (batch : ReplicationBatch) → validate_batch n batch ≡ ok tt → Admitted b batch
  unfolding validate_batch
  valid-Admitted b batch h = record {
    aggregate = ground arith;
    follows = ground arith;
    ends = ends_some (last_seq batch.events) batch.to_cursor.stream_seq (ground arith);
  }

  admit-valid :
      (b : Binding) (batch : ReplicationBatch) (expected : ReplicationCursor) (bytes : String)
      → admit_batch n b batch expected ≡ ok bytes
      → validate_batch n batch ≡ ok tt
  unfolding admit_batch
  admit-valid b batch expected bytes h = ground arith

  -- What `append` did when it went through.
  record Appended (b : Binding) (batch : ReplicationBatch) (bytes : String) (t u : Tables)
      : Type 0 where
    rows : Rows
    from : batch.from_cursor.stream_seq ≡ reached b batch.aggregate t
    inserts : insert_events batch.aggregate batch.events t.events ≡ ok rows
    result : u ≡ written b batch bytes rows t

  current-held :
      (b : Binding) (a : Ref) (t : Tables) (c : ReplicationCursor)
      → current_cursor b a t ≡ ok c
      → held_cursor b a t ≡ c
  unfolding current_cursor
  current-held b a t c h = ground (arith, h)

  append-Appended :
      (b : Binding) (batch : ReplicationBatch) (expected : ReplicationCursor) (bytes : String)
      (t u : Tables) (r : ReplicaApplyReport)
      → append n b batch expected bytes t ≡ ok (u, r)
      → Appended b batch bytes t u
  unfolding append reached
  append-Appended b batch expected bytes t u r h =
      elim (Result-cases (current_cursor b batch.aggregate t)) [
        | inr (e, c) ↦ absurd (ground (arith, c, h))
        | inl (actual, c) ↦
            elim (Result-cases (insert_events batch.aggregate batch.events t.events)) [
              | inr (e, p) ↦ absurd (ground (arith, c, p, h))
              | inl (rows, p) ↦ elim (Result-cases (n.rows_digest (rows_of batch.aggregate rows))) [
                | inr (e, q) ↦ absurd (ground (arith, c, p, q, h))
                | inl (digest, q) ↦
                    let same : batch.from_cursor ≡ expected =
                      eq_of_test batch.from_cursor expected (ground (arith, c, p, q, h)) in
                    let current : actual ≡ expected =
                      eq_of_test actual expected (ground (arith, c, p, q, h)) in
                    let held = current-held b batch.aggregate t actual c in
                    record {
                      rows = rows;
                      from = ap (λ c. c.stream_seq) (same ∙ sym (held ∙ current));
                      inserts = p;
                      result = ground (arith, c, p, q, h);
                    }
              ]
            ]
      ]

  -- A batch that is on file leaves the tables as they are.
  repeated_same :
      (b : Binding) (batch : ReplicationBatch) (bytes stored : String) (t u : Tables)
      (r : ReplicaApplyReport)
      → repeated n b batch bytes stored t ≡ ok (u, r)
      → (u ≡ t) × (r.status ≡ ReplicaApplyStatus.duplicate) × (stored ≡ bytes)
  unfolding repeated
  repeated_same b batch bytes stored t u r h =
      elim (Result-cases (current_cursor b batch.aggregate t)) [
        | inr (e, c) ↦ absurd (ground (arith, c, h))
        | inl (actual, c) ↦ elim (Result-cases (n.rows_digest (rows_of batch.aggregate t.events))) [
          | inr (e, q) ↦ absurd (ground (arith, c, q, h))
          | inl (digest, q) ↦
              (ground (arith, c, q, h), ground (arith, c, q, h), ground (arith, c, q, h))
        ]
      ]

  reached-written :
      (b : Binding) (batch : ReplicationBatch) (bytes : String) (rows : Rows) (t : Tables) (a : Ref)
      → reached b a (written b batch bytes rows t)
        ≡ (if batch.aggregate == a then batch.to_cursor.stream_seq else reached b a t)
  unfolding reached held_cursor
  reached-written b batch bytes rows t a =
      ground
        (arith, lookup-insert a batch.aggregate (batch.to_cursor.stream_seq, b.epoch) t.cursors)

  append-Whole :
      (b : Binding) (batch : ReplicationBatch) (bytes : String) (t u : Tables)
      → Admitted b batch
      → Appended b batch bytes t u
      → Whole b t
      → Whole b u
  unfolding fills
  append-Whole b batch bytes t u v d w = subst (Whole b) (sym d.result) λ a k.
      let keys =
        insert-events_keys batch.aggregate batch.from_cursor.stream_seq batch.events t.events d.rows
          a k v.follows d.inserts in
      let last =
        contiguous_last batch.aggregate batch.from_cursor.stream_seq batch.to_cursor.stream_seq
          batch.events v.follows v.ends in
      joins b batch bytes t a k d.rows keys (w a k) last d.from
    where
      joins :
          (b : Binding) (batch : ReplicationBatch) (bytes : String) (t : Tables) (a : Ref) (k : ℕ)
          (rows : Rows)
          → contains_key (a, k) rows ≡ (
              contains_key (a, k) t.events
              || fills batch.aggregate batch.from_cursor.stream_seq (length batch.events) a k)
          → contains_key (a, k) t.events ≡ (ltb 0 k && leb k (reached b a t))
          → batch.to_cursor.stream_seq ≡ batch.from_cursor.stream_seq + length batch.events
          → batch.from_cursor.stream_seq ≡ reached b batch.aggregate t
          → contains_key (a, k) rows
            ≡ (ltb 0 k && leb k (reached b a (written b batch bytes rows t)))
      joins b batch bytes t a k rows keys old last start =
          elim (string_discrete batch.aggregate a) [
            | yes p ↦ ground (
              arith,
              p,
              ap (λ i. reached b i t) p,
              keys,
              old,
              last,
              start,
              reached-written b batch bytes rows t a,
            )
            | no p ↦ ground (arith, p, keys, old, reached-written b batch bytes rows t a)
          ]

  -- What `apply` leaves: the tables as they were, or a batch appended to them.
  data ApplyCase (commit : Result StoreError (Unit {0})) (b : Binding) (batch : ReplicationBatch)
      (expected : ReplicationCursor) (t : Tables) : Type 0 where
    unchanged : (apply n commit b batch expected t).0 ≡ t → ApplyCase commit b batch expected t
    appended :
        (bytes : String)
        → admit_batch n b batch expected ≡ ok bytes
        → Appended b batch bytes t (apply n commit b batch expected t).0
        → ApplyCase commit b batch expected t

  apply-ApplyCase :
      (commit : Result StoreError (Unit {0})) (b : Binding) (batch : ReplicationBatch)
      (expected : ReplicationCursor) (t : Tables)
      → ApplyCase commit b batch expected t
  unfolding apply transact
  apply-ApplyCase commit b batch expected t = elim (Result-cases (admit_batch n b batch expected)) [
    | inr (e, p) ↦ unchanged (ground (arith, p))
    | inl (bytes, p) ↦ elim (Option-cases (lookup batch.batch t.batches)) [
      | inr (stored, f) ↦ elim (Result-cases (repeated n b batch bytes stored t)) [
        | inr (e, q) ↦ unchanged (ground (arith, p, f, q))
        | inl ((v, w), q) ↦
            unchanged (ground (arith, p, f, q, (repeated_same b batch bytes stored t v w q).0))
      ]
      | inl f ↦ elim (Result-cases (append n b batch expected bytes t)) [
        | inr (e, q) ↦ unchanged (ground (arith, p, f, q))
        | inl ((u, r), q) ↦ elim (Result-cases commit) [
          | inr (e, c) ↦ unchanged (ground (arith, p, f, q, c))
          | inl (tt, c) ↦
              let left : u ≡ (apply n commit b batch expected t).0 = ground (arith, p, f, q, c) in
              appended bytes p (
                subst (Appended b batch bytes t) left
                  (append-Appended b batch expected bytes t u r q))
        ]
      ]
    ]
  ]

  apply-Whole :
      (commit : Result StoreError (Unit {0})) (b : Binding) (batch : ReplicationBatch)
      (expected : ReplicationCursor) (t : Tables)
      → Whole b t
      → Whole b (apply n commit b batch expected t).0
  apply-Whole commit b batch expected t w = split (apply-ApplyCase commit b batch expected t)
    where
      split : ApplyCase commit b batch expected t → Whole b (apply n commit b batch expected t).0
      split (unchanged p) = subst (Whole b) (sym p) w
      split (appended bytes p d) =
          append-Whole b batch bytes t _
            (valid-Admitted b batch (admit-valid b batch expected bytes p)) d w

  -- A call of `apply`, with what the database answers to its commit.
  pub record Call : Type 0 where
    pub commit : Result StoreError (Unit {0})
    pub batch : ReplicationBatch
    pub expected : ReplicationCursor

  unfoldable pub run_calls : Binding → List Call → Tables → Tables
  run_calls b [] t = t
  run_calls b (c ∷ cs) t = run_calls b cs (apply n c.commit b c.batch c.expected t).0

  calls-Whole : (b : Binding) (cs : List Call) (t : Tables) → Whole b t → Whole b (run_calls b cs t)
  unfolding run_calls
  calls-Whole b [] t w = w
  calls-Whole b (c ∷ cs) t w = calls-Whole b cs _ (apply-Whole c.commit b c.batch c.expected t w)

  none-Whole : (b : Binding) → Whole b no_tables
  unfolding reached held_cursor lookup contains_key
  none-Whole b a k = ground arith

  -- Over any calls of `apply` from empty tables, failing ones and failing commits included, the
  -- replica holds of each aggregate exactly the events from 1 up to its cursor.
  pub replica-Whole : (b : Binding) (cs : List Call) → Whole b (run_calls b cs no_tables)
  replica-Whole b cs = calls-Whole b cs no_tables (none-Whole b)

  kept_batch :
      (commit : Result StoreError (Unit {0})) (b : Binding) (batch : ReplicationBatch)
      (expected : ReplicationCursor) (t : Tables) (id : Ref) (bytes : String)
      → lookup id t.batches ≡ some bytes
      → lookup id (apply n commit b batch expected t).0.batches ≡ some bytes
  unfolding apply transact
  kept_batch commit b batch expected t id bytes e =
      elim (Result-cases (admit_batch n b batch expected)) [
        | inr (x, p) ↦ ground (arith, p, e)
        | inl (text, p) ↦ elim (Option-cases (lookup batch.batch t.batches)) [
          | inr (stored, f) ↦ elim (Result-cases (repeated n b batch text stored t)) [
            | inr (x, q) ↦ ground (arith, p, f, q, e)
            | inl ((v, w), q) ↦
                ground (arith, p, f, q, e, (repeated_same b batch text stored t v w q).0)
          ]
          | inl f ↦ elim (Result-cases (append n b batch expected text t)) [
            | inr (x, q) ↦ ground (arith, p, f, q, e)
            | inl ((u, r), q) ↦ elim (Result-cases commit) [
              | inr (x, c) ↦ ground (arith, p, f, q, c, e)
              | inl (tt, c) ↦
                  let d = append-Appended b batch expected text t u r q in
                  ground
                    (arith, p, f, q, c, e, d.result, lookup-insert id batch.batch text t.batches)
            ]
          ]
        ]
      ]

  kept_batches :
      (b : Binding) (cs : List Call) (t : Tables) (id : Ref) (bytes : String)
      → lookup id t.batches ≡ some bytes
      → lookup id (run_calls b cs t).batches ≡ some bytes
  unfolding run_calls
  kept_batches b [] t id bytes e = e
  kept_batches b (c ∷ cs) t id bytes e =
      kept_batches b cs (apply n c.commit b c.batch c.expected t).0 id bytes
        (kept_batch c.commit b c.batch c.expected t id bytes e)

  applied_bytes :
      (b : Binding) (batch : ReplicationBatch) (expected : ReplicationCursor) (t : Tables)
      (report : ReplicaApplyReport)
      → (apply n (ok tt) b batch expected t).1 ≡ ok report
      → (bytes : String) × (admit_batch n b batch expected ≡ ok bytes)
        × (lookup batch.batch (apply n (ok tt) b batch expected t).0.batches ≡ some bytes)
  unfolding apply transact
  applied_bytes b batch expected t report h = elim (Result-cases (admit_batch n b batch expected)) [
    | inr (x, p) ↦ absurd (ground (arith, p, h))
    | inl (bytes, p) ↦ elim (Option-cases (lookup batch.batch t.batches)) [
      | inr (stored, f) ↦ elim (Result-cases (repeated n b batch bytes stored t)) [
        | inr (x, q) ↦ absurd (ground (arith, p, f, q, h))
        | inl ((v, w), q) ↦
            let (same, _, equal) = repeated_same b batch bytes stored t v w q in
            (bytes, p, ground (arith, p, f, q, h, same, equal))
      ]
      | inl f ↦ elim (Result-cases (append n b batch expected bytes t)) [
        | inr (x, q) ↦ absurd (ground (arith, p, f, q, h))
        | inl ((u, r), q) ↦
            let d = append-Appended b batch expected bytes t u r q in
            (
              bytes,
              p,
              ground
                  (arith, p, f, q, d.result, lookup-insert batch.batch batch.batch bytes t.batches),
            )
      ]
    ]
  ]

  -- Once a call of `apply` has succeeded, the same call leaves the tables as they are, whatever
  -- other calls came between, and its report is never that the batch was applied anew.
  pub apply_once :
      (commit : Result StoreError (Unit {0})) (b : Binding) (batch : ReplicationBatch)
      (expected : ReplicationCursor) (t : Tables) (report again : ReplicaApplyReport)
      (cs : List Call)
      → (apply n (ok tt) b batch expected t).1 ≡ ok report
      → let later = run_calls b cs (apply n (ok tt) b batch expected t).0 in
        ((apply n commit b batch expected later).0 ≡ later)
        × ((apply n commit b batch expected later).1 ≡ ok again
            → again.status ≡ ReplicaApplyStatus.duplicate)
  unfolding apply transact
  apply_once commit b batch expected t report again cs h =
      let found = applied_bytes b batch expected t report h in
      let stays =
        kept_batches b cs (apply n (ok tt) b batch expected t).0 batch.batch found.0 found.2 in
      repeats (run_calls b cs (apply n (ok tt) b batch expected t).0) found.0 found.1 stays
    where
      repeats :
          (u : Tables) (bytes : String)
          → admit_batch n b batch expected ≡ ok bytes
          → lookup batch.batch u.batches ≡ some bytes
          → ((apply n commit b batch expected u).0 ≡ u)
            × ((apply n commit b batch expected u).1 ≡ ok again
                → again.status ≡ ReplicaApplyStatus.duplicate)
      repeats u bytes p f = elim (Result-cases (repeated n b batch bytes bytes u)) [
        | inr (x, q) ↦ (ground (arith, p, f, q), λ r. absurd (ground (arith, p, f, q, r)))
        | inl ((v, w), q) ↦
            let (same, status, _) = repeated_same b batch bytes bytes u v w q in
            elim (Result-cases commit) [
              | inr (x, c) ↦
                  (ground (arith, p, f, q, c), λ r. absurd (ground (arith, p, f, q, c, r)))
              | inl (tt, c) ↦
                  (ground (arith, p, f, q, c, same), λ r. ground (arith, p, f, q, c, r, status))
            ]
      ]
