-- ===== src/Execution/Ledger.antt =====
-- crates/execution/src/remote_ledger.rs: the records of the replay ledger and its in-memory form;
-- crates/protocol/src/m4.rs: the receipt of a driver.
pub mod Queries
pub mod Replay
pub mod History
use forme_agent.Base.{
  ℕ, String, Bool, true, false, not, ◌&&◌, ◌||◌, List, [], ◌∷◌, Option, none, some, Eq, ◌==◌, ◌!=◌,
  if◌then◌else◌, Result, ok, err, ◌>>=◌, ◌>>◌, reject, any, find, string_eq, nat_eq, ℕ_discrete,
  leb,
}
use forme_agent.Base.Int.{ℤ, pos, leb_ℤ, int_discrete}
use forme_agent.Base.Text.{is_blank, string_discrete}
use forme_agent.Base.Map.{Map, lookup, insert, values, string_ord}
use forme_agent.Protocol.Kinds.{Ref, Timestamp, Version}

pub data RemoteReceiptOutcome : Type 0 where
  completed failed cancelled unknown : RemoteReceiptOutcome

pub record RemoteDriverReceipt : Type 0 where
  pub schema_version : Version
  pub receipt : Ref
  pub lease : Ref
  pub dispatch : Ref
  pub intent : Ref
  pub plan_digest : Ref
  pub operation_digest : Ref
  pub executor : Ref
  pub authority_epoch : ℕ
  pub fence : ℕ
  pub outcome : RemoteReceiptOutcome
  pub result_digest : Option Ref
  pub observations : List Ref
  pub observed_at : Timestamp

unfoldable pub receipt_discrete : Discrete RemoteDriverReceipt
receipt_discrete = hlevel (string_discrete, ℕ_discrete)

instance abbrev pub receipt_eq : Eq RemoteDriverReceipt
receipt_eq = record { discrete = receipt_discrete }

pub data Error : Type 0 where
  receipt_incomplete field_incomplete epoch_invalid fence_invalid : Error
  record_incomplete receipt_mismatch : Error
  replayed no_pending semantics_changed receipt_conflict : Error
  unexpected_entry unreadable malformed conflicting_records : Error
  not_created not_persisted path_conflict : Error
  probe_required no_observation driver_failed : Error
  operation_backend parameters_disagree central_secret host_path observed_outward : Error
  digest_failed digest_mismatch plan_incomplete version_invalid : Error
  lease_incomplete grant_incomplete grant_unsorted profile_incomplete : Error
  admission_schema admission_unbound admission_rejected : Error
  receipt_missing slot_missing binding_invalid bindings_empty slot_outside : Error
  lease_not_acquired lease_bound no_lease : Error
  wrong_backend spec_schema intent_mismatch no_approval cancelled_early lease_mismatch : Error
  acceptance_unbound transport_failed not_active cancel_unknown : Error

unfoldable pub is_empty : {A : Type 0} → List A → Bool
is_empty [] = true
is_empty (_ ∷ _) = false

-- `required` of crates/protocol/src/m4.rs.
unfoldable pub required : String → Result Error (Unit {0})
required value = reject (is_blank value) field_incomplete

-- `RemoteDriverReceipt::validate`.
unfoldable pub validate_receipt : RemoteDriverReceipt → Result Error (Unit {0})
unfolding is_empty required
validate_receipt r = do
  reject (r.schema_version == 0 || leb_ℤ r.observed_at (pos 0) || is_empty r.observations)
      receipt_incomplete
  required r.receipt
  required r.lease
  required r.dispatch
  required r.intent
  required r.plan_digest
  required r.executor
  required r.operation_digest
  reject (r.authority_epoch == 0) epoch_invalid
  reject (r.fence == 0) fence_invalid

pub record LedgerRecord : Type 0 where
  pub schema_version : Version
  pub dispatch : Ref
  pub lease : Ref
  pub semantics : Ref
  pub receipt : Option RemoteDriverReceipt

validate_stored : LedgerRecord → Option RemoteDriverReceipt → Result Error (Unit {0})
unfolding validate_receipt
validate_stored r none = ok tt
validate_stored r (some receipt) = do
  validate_receipt receipt
  reject (receipt.dispatch != r.dispatch || receipt.lease != r.lease) receipt_mismatch

-- `ExecutorLedgerRecord::validate`.
unfoldable pub validate_record : LedgerRecord → Result Error (Unit {0})
unfolding validate_stored
validate_record r = do
  reject (r.schema_version == 0 || is_blank r.dispatch || is_blank r.lease || is_blank r.semantics)
      record_incomplete
  validate_stored r r.receipt

pub data Decision : Type 0 where
  new pending : Decision
  completed : RemoteDriverReceipt → Decision

abbrev pub Records : Type 0
Records = Map Ref LedgerRecord

unfoldable pub decision_of : Option RemoteDriverReceipt → Decision
decision_of none = Decision.pending
decision_of (some receipt) = Decision.completed receipt

unfoldable pub fresh_record : Ref → Ref → Ref → LedgerRecord
fresh_record dispatch lease semantics = record {
  schema_version = 1;
  dispatch = dispatch;
  lease = lease;
  semantics = semantics;
  receipt = none;
}

-- The answer to a dispatch that is on record.
unfoldable pub replay : LedgerRecord → Ref → Ref → Result Error Decision
unfolding decision_of
replay r lease semantics =
    if r.semantics != semantics || r.lease != lease
    then err replayed
    else ok (decision_of r.receipt)

-- `InMemoryExecutorLedger`: a call returns the records that it leaves and its result.
unfoldable pub begin : Ref → Ref → Ref → Records → Records × Result Error Decision
unfolding replay fresh_record
begin dispatch lease semantics records = elim (lookup dispatch records) [
  | some r ↦ (records, replay r lease semantics)
  | none ↦ elim (validate_record (fresh_record dispatch lease semantics)) [
    | err e ↦ (records, err e)
    | ok _ ↦ (insert dispatch (fresh_record dispatch lease semantics) records, ok Decision.new)
  ]
]

-- A receipt that is already stored is never replaced.
unfoldable pub confirm : RemoteDriverReceipt → RemoteDriverReceipt → Result Error (Unit {0})
confirm previous receipt = if previous == receipt then ok tt else err receipt_conflict

-- The receipt is stored before the record is validated with it.
pub store_receipt :
    Ref → LedgerRecord → RemoteDriverReceipt → Records → Records × Result Error (Unit {0})
store_receipt dispatch r receipt records = elim (validate_receipt receipt) [
  | err e ↦ (records, err e)
  | ok _ ↦ (
    insert dispatch (record r { receipt = some receipt }) records,
    validate_record (record r { receipt = some receipt }),
  )
]

pub complete_record :
    Ref
    → LedgerRecord
    → Option RemoteDriverReceipt
    → RemoteDriverReceipt
    → Records
    → Records × Result Error (Unit {0})
unfolding confirm store_receipt
complete_record dispatch r (some previous) receipt records = (records, confirm previous receipt)
complete_record dispatch r none receipt records = store_receipt dispatch r receipt records

unfoldable pub complete :
    Ref → Ref → RemoteDriverReceipt → Records → Records × Result Error (Unit {0})
unfolding complete_record
complete dispatch semantics receipt records = elim (lookup dispatch records) [
  | none ↦ (records, err no_pending)
  | some r ↦
      if r.semantics != semantics
      then (records, err semantics_changed)
      else complete_record dispatch r r.receipt receipt records
]
