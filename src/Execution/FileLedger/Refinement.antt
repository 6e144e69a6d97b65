-- ===== src/Execution/FileLedger/Refinement.antt =====
-- A call of the file ledger that succeeds does to the records in memory what the memory ledger does,
-- with the same answer; a call that fails leaves them alone.
use forme_agent.Base.{
  Option, none, some, ◌≡◌, refl, sym, ◌∙◌, ok, err, arith, subst, Option-cases, string_eq, inl, inr,
}
use forme_agent.Base.Map.{lookup, insert, string_ord}
use forme_agent.Protocol.Kinds.{Ref}
use forme_agent.Execution.Ledger.{
  LedgerRecord, RemoteDriverReceipt, Records, Decision, Error, replay, fresh_record, confirm,
  validate_record, validate_receipt,
}
use forme_agent.Execution.Ledger
use forme_agent.Execution.Ledger.Replay.{
  begin_known as memory_known, begin_fresh, complete_writes, complete_repeats, stored_valid,
}
use forme_agent.Execution.FileLedger.{
  Codec, Io, FileLedger, commit, begin, complete, begin_new, complete_record,
}
use forme_agent.Execution.FileLedger.Calls.{Persisted, failed, written, persist-Persisted}
use forme_agent.Execution.FileLedger.History.{
  begin_known, begin_unknown, CompleteCase, stops, goes, complete-CompleteCase,
}

module _ (c : Codec) where
  -- What a commit does to the records in memory.
  data Committed (io : Io c) (d : Ref) (r : LedgerRecord) (s : FileLedger c) : Type 0 where
    stopped :
        (e : Error)
        → (commit c io d r s).1 ≡ err e
        → (commit c io d r s).0.records ≡ s.records
        → Committed io d r s
    done :
        (commit c io d r s).1 ≡ ok tt
        → (commit c io d r s).0.records ≡ insert d r s.records
        → validate_record r ≡ ok tt
        → Committed io d r s

  commit-Committed :
      (io : Io c) (d : Ref) (r : LedgerRecord) (s : FileLedger c) → Committed io d r s
  unfolding commit
  commit-Committed io d r s = split (persist-Persisted c io r s.disk)
    where
      split : Persisted c io r s.disk → Committed io d r s
      split (failed disk' e g p) = stopped e (ground (arith, p)) (ground (arith, p))
      split (written disk' g on v p) = done (ground (arith, p)) (ground (arith, p)) v

  -- A `begin` of the file ledger that succeeds does to the records in memory what the memory
  -- ledger does, and gives the same answer.
  pub begin_refines :
      (io : Io c) (d l m : Ref) (s : FileLedger c) {x : Decision}
      → (begin c io d l m s).1 ≡ ok x
      → Ledger.begin d l m s.records ≡ ((begin c io d l m s).0.records, ok x)
  unfolding begin_new
  begin_refines io d l m s {x} h = elim (Option-cases (lookup d s.records)) [
    | inr (r, e) ↦
        let known = begin_known c io d l m s r e in
        memory_known d l m s.records r e ∙ ground (arith, known, h)
    | inl e ↦
        let p = begin_unknown c io d l m s e in
        fresh e (commit-Committed io d (fresh_record d l m) s) p
  ]
    where
      fresh :
          lookup d s.records ≡ none
          → Committed io d (fresh_record d l m) s
          → begin c io d l m s ≡ begin_new c io d l m s
          → Ledger.begin d l m s.records ≡ ((begin c io d l m s).0.records, ok x)
      fresh e (stopped y f g) p = absurd (ground (arith, p, f, h))
      fresh e (done f g v) p = begin_fresh d l m s.records e v ∙ ground (arith, p, f, g, h)

  record_refines :
      (io : Io c) (d : Ref) (x : RemoteDriverReceipt) (s : FileLedger c) (r : LedgerRecord)
      (o : Option RemoteDriverReceipt)
      → lookup d s.records ≡ some r
      → r.receipt ≡ o
      → (complete_record c io d r o x s).1 ≡ ok tt
      → Ledger.complete d r.semantics x s.records
        ≡ ((complete_record c io d r o x s).0.records, ok tt)
  unfolding complete_record confirm
  record_refines io d x s r (some y) e f h = complete_repeats d x s.records r e (ground arith)
  record_refines io d x s r none e f h =
      split (commit-Committed io d (record r { receipt = some x }) s)
    where
      split :
          Committed io d (record r { receipt = some x }) s
          → Ledger.complete d r.semantics x s.records
            ≡ ((commit c io d (record r { receipt = some x }) s).0.records, ok tt)
      split (stopped y p g) = absurd (ground (arith, p, h))
      split (done p g v) =
          complete_writes d x s.records r e f (stored_valid r x v) ∙ ground (arith, g, v)

  record_unchanged :
      (io : Io c) (d : Ref) (x : RemoteDriverReceipt) (s : FileLedger c) (r : LedgerRecord)
      (o : Option RemoteDriverReceipt) (y : Error)
      → (complete_record c io d r o x s).1 ≡ err y
      → (complete_record c io d r o x s).0.records ≡ s.records
  unfolding complete_record
  record_unchanged io d x s r (some z) y h = refl
  record_unchanged io d x s r none y h =
      split (commit-Committed io d (record r { receipt = some x }) s)
    where
      split :
          Committed io d (record r { receipt = some x }) s
          → (commit c io d (record r { receipt = some x }) s).0.records ≡ s.records
      split (stopped y p g) = g
      split (done p g v) = absurd (ground (arith, p, h))

  -- A `complete` of the file ledger that succeeds does to the records in memory what the memory
  -- ledger does, which succeeds too.
  pub complete_refines :
      (io : Io c) (d m : Ref) (x : RemoteDriverReceipt) (s : FileLedger c)
      → (complete c io d m x s).1 ≡ ok tt
      → Ledger.complete d m x s.records ≡ ((complete c io d m x s).0.records, ok tt)
  complete_refines io d m x s h = split (complete-CompleteCase c io d m x s)
    where
      split :
          CompleteCase c io d m x s
          → Ledger.complete d m x s.records ≡ ((complete c io d m x s).0.records, ok tt)
      split (stops e p) = absurd (ground (arith, p, h))
      split (goes r e q p) =
          subst (λ i. Ledger.complete d i x s.records ≡ ((complete c io d m x s).0.records, ok tt))
            q
            (record_refines io d x s r r.receipt e refl (subst (λ y. y.1 ≡ ok tt) p h)
              ∙ ground (arith, p))

  -- A `complete` of the file ledger that fails leaves the records in memory as they were.
  pub complete_error_unchanged :
      (io : Io c) (d m : Ref) (x : RemoteDriverReceipt) (s : FileLedger c) (e : Error)
      → (complete c io d m x s).1 ≡ err e
      → (complete c io d m x s).0.records ≡ s.records
  complete_error_unchanged io d m x s y h = split (complete-CompleteCase c io d m x s)
    where
      split : CompleteCase c io d m x s → (complete c io d m x s).0.records ≡ s.records
      split (stops e p) = ground (arith, p)
      split (goes r e q p) =
          subst (λ z. z.0.records ≡ s.records) (sym p)
            (record_unchanged io d x s r r.receipt y (subst (λ z. z.1 ≡ err y) p h))
