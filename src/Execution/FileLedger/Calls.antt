-- ===== src/Execution/FileLedger/Calls.antt =====
-- The file ledger: what one call leaves on disk and in memory.
use forme_agent.Base.{
  String, none, some, ◌≡◌, refl, sym, inl, inr, Result, ok, err, arith, subst, Option-cases,
  string_eq,
}
use forme_agent.Base.Map.{Map, lookup, insert, string_ord, lookup-insert}
use forme_agent.Base.Text.{string_discrete}
use forme_agent.Protocol.Kinds.{Ref}
use forme_agent.Execution.Ledger.{LedgerRecord, Error, validate_record}
use forme_agent.Execution.Ledger.Replay.{Keeps, Extends, Extends-refl, insert-Extends}
use forme_agent.Execution.FileLedger.{
  Codec, Io, succeeds, open_fails, write_fails, read_fails, FileLedger, persist, record_path,
  commit, recheck,
}

module _ (c : Codec) where
  open c use {Bytes, bytes_discrete, encode, decode}

  -- Some file holds the record.
  abbrev pub OnDisk : Map String Bytes → LedgerRecord → Type 0
  OnDisk disk r = (path : String) × (b : Bytes) × (lookup path disk ≡ some b) × (decode b ≡ some r)

  -- No file is removed or overwritten.
  abbrev pub Grows : Map String Bytes → Map String Bytes → Type 0
  Grows disk disk' =
      (path : String) (b : Bytes) → lookup path disk ≡ some b → lookup path disk' ≡ some b

  pub Grows-OnDisk :
      (disk disk' : Map String Bytes) (r : LedgerRecord)
      → Grows disk disk'
      → OnDisk disk r
      → OnDisk disk' r
  Grows-OnDisk disk disk' r g (path, b, e, d) = (path, b, g path b e, d)

  insert-Grows :
      (path : String) (b : Bytes) (disk : Map String Bytes)
      → lookup path disk ≡ none
      → Grows disk (insert path b disk)
  insert-Grows path b disk free q x e = ground (arith, free, e, lookup-insert q path b disk)

  pub data Persisted (io : Io c) (r : LedgerRecord) (disk : Map String Bytes) : Type 0 where
    failed :
        (disk' : Map String Bytes) (e : Error)
        → Grows disk disk'
        → persist c io r disk ≡ (disk', err e)
        → Persisted io r disk
    written :
        (disk' : Map String Bytes)
        → Grows disk disk'
        → OnDisk disk' r
        → validate_record r ≡ ok tt
        → persist c io r disk ≡ (disk', ok tt)
        → Persisted io r disk

  persist_new :
      (io : Io c) (r : LedgerRecord) (disk : Map String Bytes)
      → validate_record r ≡ ok tt
      → lookup (record_path c r) disk ≡ none
      → Persisted io r disk
  unfolding persist
  persist_new succeeds r disk v free =
      written (insert (record_path c r) (encode r) disk) (insert-Grows _ _ disk free)
        (
          record_path c r,
          encode r,
          ground (arith, lookup-insert (record_path c r) (record_path c r) (encode r) disk),
          c.decode-encode r,
        )
        v (ground (arith, v, free))
  persist_new open_fails r disk v free =
      failed disk Error.not_created (λ p b e. e) (ground (arith, v, free))
  persist_new (write_fails left) r disk v free =
      failed (insert (record_path c r) left disk) Error.not_persisted (insert-Grows _ _ disk free)
        (ground (arith, v, free))
  persist_new read_fails r disk v free =
      written (insert (record_path c r) (encode r) disk) (insert-Grows _ _ disk free)
        (
          record_path c r,
          encode r,
          ground (arith, lookup-insert (record_path c r) (record_path c r) (encode r) disk),
          c.decode-encode r,
        )
        v (ground (arith, v, free))

  recheck_ok : (io : Io c) (b b' : Bytes) → recheck c io b b' ≡ ok tt → b ≡ b'
  unfolding recheck
  recheck_ok open_fails b b' h = cc
  recheck_ok read_fails b b' h = cc
  recheck_ok succeeds b b' h = ground arith
  recheck_ok (write_fails _) b b' h = ground arith

  persist_again :
      (io : Io c) (r : LedgerRecord) (disk : Map String Bytes) (b : Bytes)
      → validate_record r ≡ ok tt
      → lookup (record_path c r) disk ≡ some b
      → Persisted io r disk
  unfolding persist
  persist_again io r disk b v taken = split (recheck c io b (encode r)) refl
    where
      split : (o : Result Error (Unit {0})) → recheck c io b (encode r) ≡ o → Persisted io r disk
      split (err e) p = failed disk e (λ q x f. f) (ground (arith, v, taken, p))
      split (ok _) p =
          written disk (λ q x f. f)
            (record_path c r, b, taken, rw (recheck_ok io b (encode r) p) (c.decode-encode r)) v
            (ground (arith, v, taken, p))

  pub persist-Persisted :
      (io : Io c) (r : LedgerRecord) (disk : Map String Bytes) → Persisted io r disk
  unfolding persist
  persist-Persisted io r disk = split (validate_record r) refl
    where
      split : (o : Result Error (Unit {0})) → validate_record r ≡ o → Persisted io r disk
      split (err e) v = failed disk e (λ q x f. f) (ground (arith, v))
      split (ok _) v = elim (Option-cases (lookup (record_path c r) disk)) [
        | inl free ↦ persist_new io r disk v free
        | inr (b, taken) ↦ persist_again io r disk b v taken
      ]

  -- Every record in memory is on disk, under its own dispatch id.
  abbrev pub Backed : FileLedger c → Type 0
  Backed s =
      (d : Ref) (r : LedgerRecord)
      → lookup d s.records ≡ some r
      → (r.dispatch ≡ d) × OnDisk s.disk r

  -- A call, or anything else, that loses neither a file nor a record.
  pub record Advances (s t : FileLedger c) : Type 0 where
    pub grows : Grows s.disk t.disk
    pub extends : Extends s.records t.records
    pub backed : Backed s → Backed t

  pub Advances-refl : (s : FileLedger c) → Advances s s
  Advances-refl s = record { grows = λ p b e. e; extends = Extends-refl s.records; backed = λ v. v }

  -- Writing the record `r` under its id `d`, where it keeps what was there.
  pub commit-Advances :
      (io : Io c) (d : Ref) (r : LedgerRecord) (s : FileLedger c)
      → r.dispatch ≡ d
      → ((q : LedgerRecord) → lookup d s.records ≡ some q → Keeps q r)
      → Advances s (commit c io d r s).0
  unfolding commit
  commit-Advances io d r s at keep = split (persist-Persisted io r s.disk)
    where
      stopped :
          (disk' : Map String Bytes) (e : Error)
          → persist c io r s.disk ≡ (disk', err e)
          → commit c io d r s ≡ (record s { disk = disk' }, err e)
      stopped disk' e p = ground (arith, p)

      done :
          (disk' : Map String Bytes)
          → persist c io r s.disk ≡ (disk', ok tt)
          → commit c io d r s ≡ (record { disk = disk'; records = insert d r s.records }, ok tt)
      done disk' p = ground (arith, p)

      backs :
          (disk' : Map String Bytes)
          → Grows s.disk disk'
          → OnDisk disk' r
          → Backed s
          → Backed (record { disk = disk'; records = insert d r s.records })
      backs disk' g on v j q e = elim (string_discrete d j) [
        | yes p ↦
            let same : r ≡ q = ground (arith, p, e, lookup-insert j d r s.records) in
            (ground (arith, same, at, p), subst (OnDisk disk') same on)
        | no p ↦
            let (own, old) = v j q (ground (arith, p, e, lookup-insert j d r s.records)) in
            (own, Grows-OnDisk s.disk disk' q g old)
      ]

      split : Persisted io r s.disk → Advances s (commit c io d r s).0
      split (failed disk' e g p) =
          subst (λ x. Advances s x.0) (sym (stopped disk' e p))
            (record {
              grows = g;
              extends = Extends-refl s.records;
              backed =
                  λ v j q f. let (own, old) = v j q f in (own, Grows-OnDisk s.disk disk' q g old);
            })
      split (written disk' g on v p) =
          subst (λ x. Advances s x.0) (sym (done disk' p))
            (record {
              grows = g;
              extends = insert-Extends d r s.records keep;
              backed = backs disk' g on;
            })

  -- A record that is committed is on record.
  pub commit_ok :
      (io : Io c) (d : Ref) (r : LedgerRecord) (s : FileLedger c)
      → (commit c io d r s).1 ≡ ok tt
      → (lookup d (commit c io d r s).0.records ≡ some r) × (validate_record r ≡ ok tt)
  unfolding commit
  commit_ok io d r s h = split (persist-Persisted io r s.disk)
    where
      split :
          Persisted io r s.disk
          → (lookup d (commit c io d r s).0.records ≡ some r) × (validate_record r ≡ ok tt)
      split (failed disk' e g p) = absurd (ground (arith, p, h))
      split (written disk' g on v p) = (ground (arith, p, lookup-insert d d r s.records), v)
