-- ===== src/Execution/Ledger/Queries.antt =====
-- crates/execution/src/remote_ledger.rs: what the ledger answers about a lease or a receipt. The
-- memory and the file ledger read their records alike, in the order of the dispatch ids.
use forme_agent.Base.{
  Bool, true, false, ◌&&◌, List, [], ◌∷◌, Option, none, some, ◌==◌, any, find, string_eq,
}
use forme_agent.Base.Map.{values, string_ord}
use forme_agent.Protocol.Kinds.{Ref}
use forme_agent.Execution.Ledger.{LedgerRecord, RemoteDriverReceipt, Records}

unfoldable pub receipt_of : Option LedgerRecord → Option RemoteDriverReceipt
receipt_of none = none
receipt_of (some r) = r.receipt

unfoldable pub receipt_for_lease : Ref → Records → Option RemoteDriverReceipt
unfolding receipt_of
receipt_for_lease lease records = receipt_of (find (λ r. r.lease == lease) (values records))

stored_receipts : List LedgerRecord → List RemoteDriverReceipt
stored_receipts [] = []
stored_receipts (r ∷ rs) = elim r.receipt [
  | none ↦ stored_receipts rs
  | some x ↦ x ∷ stored_receipts rs
]

unfoldable pub receipt : Ref → Records → Option RemoteDriverReceipt
unfolding stored_receipts
receipt id records = find (λ stored. stored.receipt == id) (stored_receipts (values records))

unfoldable pub is_pending : Option RemoteDriverReceipt → Bool
is_pending none = true
is_pending (some _) = false

unfoldable pub pending : Ref → Records → Bool
unfolding is_pending
pending lease records = any (λ r. r.lease == lease && is_pending r.receipt) (values records)
