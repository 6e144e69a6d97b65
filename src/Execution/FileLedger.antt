-- ===== src/Execution/FileLedger.antt =====
-- crates/execution/src/remote_ledger.rs: `FileExecutorLedger`. The directory is a map from file names
-- to contents, and what the file system does in a call is an argument of the call.
pub mod Merge
pub mod Calls
pub mod History
pub mod Refinement
use forme_agent.Base.{
  String, Bool, true, false, ◌&&◌, ◌||◌, List, [], ◌∷◌, Option, none, some, Eq, ◌==◌, ◌!=◌, ◌≡◌,
  if◌then◌else◌, Result, ok, err, ◌>>=◌, string_eq,
}
use Prim.Native.String.{◌++◌ as concat}
use forme_agent.Base.Map.{Map, lookup, insert, string_ord}
use forme_agent.Protocol.Kinds.{Ref}
use forme_agent.Execution.Ledger.{
  LedgerRecord, RemoteDriverReceipt, Records, Decision, Error, replay, fresh_record,
  validate_record, confirm, receipt_eq,
}

-- What the ledger takes from elsewhere: JSON (`serde_json`), and the hexadecimal digits of the
-- canonical digest of a dispatch id. Encoding a record and decoding it gives the record back.
pub record Codec : Type 1 where
  pub Bytes : Type 0
  pub bytes_discrete : Discrete Bytes
  pub encode : LedgerRecord → Bytes
  pub decode : Bytes → Option LedgerRecord
  pub decode-encode : (r : LedgerRecord) → decode (encode r) ≡ some r
  pub identity : Ref → String

abbrev has_receipt : Option RemoteDriverReceipt → Bool
has_receipt none = false
has_receipt (some _) = true

option_receipt_discrete : Discrete (Option RemoteDriverReceipt)
option_receipt_discrete = hlevel receipt_eq.discrete

instance abbrev option_receipt_eq : Eq (Option RemoteDriverReceipt)
option_receipt_eq = record { discrete = option_receipt_discrete }

conflicts : LedgerRecord → LedgerRecord → Bool
conflicts previous r =
    previous.semantics != r.semantics
    || previous.lease != r.lease
    || has_receipt previous.receipt && has_receipt r.receipt && previous.receipt != r.receipt

place : Option LedgerRecord → LedgerRecord → Records → Result Error Records
unfolding conflicts
place none r records = ok (insert r.dispatch r records)
place (some previous) r records =
    if conflicts previous r
    then err Error.conflicting_records
    else if has_receipt previous.receipt
    then ok records
    else ok (insert r.dispatch r records)

-- One record of the directory is taken into the records read so far.
unfoldable pub merge : LedgerRecord → Records → Result Error Records
unfolding place
merge r records = elim (validate_record r) [
  | err e ↦ err e
  | ok _ ↦ place (lookup r.dispatch records) r records
]

module _ (c : Codec) where
  open c use {Bytes, bytes_discrete, encode, decode, identity}

  -- An entry of the directory as `open` meets it.
  pub data Entry : Type 0 where
    json : Bytes → Entry
    unexpected unreadable : Entry

  unfoldable pub read_entry : Entry → Records → Result Error Records
  read_entry (json b) records = elim (decode b) [
    | none ↦ err Error.malformed
    | some r ↦ merge r records
  ]
  read_entry unexpected records = err Error.unexpected_entry
  read_entry unreadable records = err Error.unreadable

  unfoldable pub read_all : List Entry → Records → Result Error Records
  read_all [] records = ok records
  read_all (e ∷ es) records = elim (read_entry e records) [
    | err x ↦ err x
    | ok records' ↦ read_all es records'
  ]

  -- `FileExecutorLedger::open` on the entries in the order that the file system lists them.
  unfoldable pub open_ledger : List Entry → Result Error Records
  open_ledger entries = read_all entries []

  pub record FileLedger : Type 0 where
    pub disk : Map String Bytes
    pub records : Records

  -- What the file system does: all is well, the file cannot be opened, the write stops and leaves
  -- these bytes, or the existing file cannot be read.
  pub data Io : Type 0 where
    succeeds open_fails : Io
    write_fails : Bytes → Io
    read_fails : Io

  pub record_path : LedgerRecord → String
  record_path r =
      concat (identity r.dispatch)
        (if has_receipt r.receipt then "-complete.json" else "-pending.json")

  create : Io → String → Bytes → Map String Bytes → Map String Bytes × Result Error (Unit {0})
  create succeeds path b disk = (insert path b disk, ok tt)
  create open_fails path b disk = (disk, err Error.not_created)
  create (write_fails left) path b disk = (insert path left disk, err Error.not_persisted)
  create read_fails path b disk = (insert path b disk, ok tt)

  recheck : Io → Bytes → Bytes → Result Error (Unit {0})
  recheck open_fails stored b = err Error.not_created
  recheck read_fails stored b = err Error.unreadable
  recheck _ stored b = elim (bytes_discrete stored b) [
    | yes _ ↦ ok tt
    | no _ ↦ err Error.path_conflict
  ]

  unfoldable pub persist :
      Io → LedgerRecord → Map String Bytes → Map String Bytes × Result Error (Unit {0})
  unfolding record_path create recheck
  persist io r disk = elim (validate_record r) [
    | err e ↦ (disk, err e)
    | ok _ ↦ elim (lookup (record_path r) disk) [
      | none ↦ create io (record_path r) (encode r) disk
      | some stored ↦ (disk, recheck io stored (encode r))
    ]
  ]

  -- A record enters the memory only after it is on disk.
  unfoldable pub commit :
      Io → Ref → LedgerRecord → FileLedger → FileLedger × Result Error (Unit {0})
  unfolding persist
  commit io dispatch r s =
      let (disk', outcome) = persist io r s.disk in
      elim outcome [
        | err e ↦ (record s { disk = disk' }, err e)
        | ok _ ↦ (record { disk = disk'; records = insert dispatch r s.records }, ok tt)
      ]

  unfoldable pub begin_new : Io → Ref → Ref → Ref → FileLedger → FileLedger × Result Error Decision
  begin_new io dispatch lease semantics s =
      let (s', outcome) = commit io dispatch (fresh_record dispatch lease semantics) s in
      (s', outcome >>= λ _. ok Decision.new)

  unfoldable pub begin : Io → Ref → Ref → Ref → FileLedger → FileLedger × Result Error Decision
  unfolding begin_new
  begin io dispatch lease semantics s = elim (lookup dispatch s.records) [
    | some r ↦ (s, replay r lease semantics)
    | none ↦ begin_new io dispatch lease semantics s
  ]

  pub complete_record :
      Io
      → Ref
      → LedgerRecord
      → Option RemoteDriverReceipt
      → RemoteDriverReceipt
      → FileLedger
      → FileLedger × Result Error (Unit {0})
  complete_record io dispatch r (some previous) receipt s = (s, confirm previous receipt)
  complete_record io dispatch r none receipt s =
      commit io dispatch (record r { receipt = some receipt }) s

  unfoldable pub complete :
      Io → Ref → Ref → RemoteDriverReceipt → FileLedger → FileLedger × Result Error (Unit {0})
  unfolding complete_record
  complete io dispatch semantics receipt s = elim (lookup dispatch s.records) [
    | none ↦ (s, err Error.no_pending)
    | some r ↦
        if r.semantics != semantics
        then (s, err Error.semantics_changed)
        else complete_record io dispatch r r.receipt receipt s
  ]
