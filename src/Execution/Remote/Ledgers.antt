-- ===== src/Execution/Remote/Ledgers.antt =====
-- crates/execution/src/remote_ledger.rs: `ExecutorReplayLedger`, the trait that the guarded executor
-- runs on, with what the executor relies on, and the two ledgers that meet it.
use forme_agent.Base.{List, some, ◌≡◌, inl, inr, arith, subst, Result, ok, string_eq, Option-cases}
use forme_agent.Base.Map.{lookup, string_ord}
use forme_agent.Protocol.Kinds.{Ref}
use forme_agent.Execution.Ledger.{
  LedgerRecord, RemoteDriverReceipt, Records, Decision, Error, replay, fresh_record,
}
use forme_agent.Execution.Ledger
use forme_agent.Execution.Ledger.Replay.{
  Extends, begin-Extends, complete-Extends, complete_ok_stored as memory_stored,
  begin_known as memory_known, BeginOutcome, known, incomplete, started, begin-BeginOutcome,
}
use forme_agent.Execution.Ledger.History.{new_stored}
use forme_agent.Execution.FileLedger
use forme_agent.Execution.FileLedger.{Codec, Io, Entry, FileLedger, open_ledger, begin_new}
use forme_agent.Execution.FileLedger.Calls.{Backed, Advances}
use forme_agent.Execution.FileLedger.History.{
  begin_known, begin_unknown, begin-Advances, complete-Advances, begin-new_stored,
  complete_ok_stored, Lists, restart-Advances,
}

-- `World` is what the world outside does in one call, and `Restarts` relates the state before the
-- process stopped to one that a new process may open. Both queries of the trait read `records`.
pub record ReplayLedger : Type 1 where
  pub State : Type 0
  pub World : Type 0
  pub Valid : State → Type 0
  pub Restarts : State → State → Type 0
  pub records : State → Records
  pub begin : World → Ref → Ref → Ref → State → State × Result Error Decision
  pub complete : World → Ref → Ref → RemoteDriverReceipt → State → State × Result Error (Unit {0})
  pub begin-Valid : (w : World) (d l m : Ref) (s : State) → Valid s → Valid (begin w d l m s).0
  pub complete-Valid :
      (w : World) (d m : Ref) (x : RemoteDriverReceipt) (s : State)
      → Valid s
      → Valid (complete w d m x s).0
  pub restarts-Valid : (s t : State) → Restarts s t → Valid s → Valid t
  pub begin_extends :
      (w : World) (d l m : Ref) (s : State)
      → Valid s
      → Extends (records s) (records (begin w d l m s).0)
  pub complete_extends :
      (w : World) (d m : Ref) (x : RemoteDriverReceipt) (s : State)
      → Valid s
      → Extends (records s) (records (complete w d m x s).0)
  pub restarts_extends : (s t : State) → Restarts s t → Valid s → Extends (records s) (records t)
  pub known :
      (w : World) (d l m : Ref) (s : State) (r : LedgerRecord)
      → lookup d (records s) ≡ some r
      → begin w d l m s ≡ (s, replay r l m)
  pub answers :
      (w : World) (d l m : Ref) (s : State) (x : RemoteDriverReceipt)
      → (begin w d l m s).1 ≡ ok (Decision.completed x)
      → (r : LedgerRecord) × (lookup d (records s) ≡ some r)
  pub begins :
      (w : World) (d l m : Ref) (s : State)
      → (begin w d l m s).1 ≡ ok Decision.new
      → lookup d (records (begin w d l m s).0) ≡ some (fresh_record d l m)
  pub completes :
      (w : World) (d m : Ref) (x : RemoteDriverReceipt) (s : State)
      → (complete w d m x s).1 ≡ ok tt
      → (r : LedgerRecord) × (lookup d (records (complete w d m x s).0) ≡ some r)
        × (r.semantics ≡ m)
        × (r.receipt ≡ some x)

-- Only a dispatch on record is answered with a receipt.
pub memory_answers :
    (d l m : Ref) (s : Records) (x : RemoteDriverReceipt)
    → (Ledger.begin d l m s).1 ≡ ok (Decision.completed x)
    → (r : LedgerRecord) × (lookup d s ≡ some r)
memory_answers d l m s x h = split (begin-BeginOutcome d l m s)
  where
    split : BeginOutcome d l m s → (r : LedgerRecord) × (lookup d s ≡ some r)
    split (known r e p) = (r, e)
    split (incomplete e y p) = absurd (ground (arith, p, h))
    split (started e v p) = absurd (ground (arith, p, h))

-- The memory ledger does not outlive its process.
abbrev pub memory_ledger : ReplayLedger
memory_ledger = record {
  State = Records;
  World = Unit;
  Valid = λ s. Unit;
  Restarts = λ s t. ⊥;
  records = λ s. s;
  begin = λ w. Ledger.begin;
  complete = λ w. Ledger.complete;
  begin-Valid = λ w d l m s v. tt;
  complete-Valid = λ w d m x s v. tt;
  restarts-Valid = λ s t h v. tt;
  begin_extends = λ w d l m s v. begin-Extends d l m s;
  complete_extends = λ w d m x s v. complete-Extends d m x s;
  restarts_extends = λ s t h v. absurd h;
  known = λ w d l m s r e. memory_known d l m s r e;
  answers = λ w d l m s x h. memory_answers d l m s x h;
  begins = λ w d l m s h. new_stored d l m s h;
  completes = λ w d m x s h. memory_stored d m x s h;
}

module _ (c : Codec) where
  -- A restart reads the files of the directory, in any order.
  pub record FileRestart (s t : FileLedger c) : Type 0 where
    pub entries : List (Entry c)
    pub found : Records
    pub lists : Lists c entries s.disk
    pub opened : open_ledger c entries ≡ ok found
    pub result : record s { records = found } ≡ t

  pub FileRestart-Advances : (s t : FileLedger c) → FileRestart s t → Backed c s → Advances c s t
  FileRestart-Advances s t h v =
      subst (Advances c s) h.result (restart-Advances c h.entries h.found s h.lists h.opened v)

  pub file_answers :
      (w : Io c) (d l m : Ref) (s : FileLedger c) (x : RemoteDriverReceipt)
      → (FileLedger.begin c w d l m s).1 ≡ ok (Decision.completed x)
      → (r : LedgerRecord) × (lookup d s.records ≡ some r)
  unfolding begin_new
  file_answers w d l m s x h = elim (Option-cases (lookup d s.records)) [
    | inr (r, e) ↦ (r, e)
    | inl e ↦ absurd (ground (arith, begin_unknown c w d l m s e, h))
  ]

  abbrev pub file_ledger : ReplayLedger
  file_ledger = record {
    State = FileLedger c;
    World = Io c;
    Valid = Backed c;
    Restarts = FileRestart;
    records = λ s. s.records;
    begin = FileLedger.begin c;
    complete = FileLedger.complete c;
    begin-Valid = λ w d l m s v. (begin-Advances c w d l m s).backed v;
    complete-Valid = λ w d m x s v. (complete-Advances c w d m x s v).backed v;
    restarts-Valid = λ s t h v. (FileRestart-Advances s t h v).backed v;
    begin_extends = λ w d l m s v. (begin-Advances c w d l m s).extends;
    complete_extends = λ w d m x s v. (complete-Advances c w d m x s v).extends;
    restarts_extends = λ s t h v. (FileRestart-Advances s t h v).extends;
    known = λ w d l m s r e. begin_known c w d l m s r e;
    answers = λ w d l m s x h. file_answers w d l m s x h;
    begins = λ w d l m s h. begin-new_stored c w d l m s h;
    completes = λ w d m x s h. complete_ok_stored c w d m x s h;
  }
