-- ===== src/Execution/Tests.antt =====
-- The replay ledgers at concrete inputs.
use forme_agent.Base.{
  List, [], ◌∷◌, none, some, ◌≡◌, refl, inl, inr, ok, err, ◌≢◌, ℕ_discrete, arith, ne_of_test,
  string_eq, ap, subst, sym,
}
use forme_agent.Base.Int.{pos}
use forme_agent.Base.Map.{lookup, insert, string_ord}
use forme_agent.Base.Text.{string_discrete, is_blank}
use forme_agent.Protocol.Kinds.{Ref}
use forme_agent.Execution.Ledger
use forme_agent.Execution.Ledger.{
  LedgerRecord, RemoteDriverReceipt, RemoteReceiptOutcome, Records, Decision, Error,
  receipt_discrete, fresh_record, validate_receipt,
}
use forme_agent.Execution.Ledger.Replay.{Extends, complete_mismatch_stays}
use forme_agent.Execution.FileLedger
use forme_agent.Execution.FileLedger.{Codec, Io, FileLedger, succeeds}
use forme_agent.Execution.FileLedger.History as Files
use forme_agent.Execution.FileLedger.History.{begin-new_once, complete_survives, Reach-Extends}
use forme_agent.Execution.FileLedger.Refinement.{begin_refines}
use forme_agent.Execution.FileLedger.Calls.{Backed}

abbrev receipt_for : Ref → RemoteDriverReceipt
receipt_for dispatch = record {
  schema_version = 1;
  receipt = "driver-receipt:1";
  lease = "lease:1";
  dispatch = dispatch;
  intent = "intent:1";
  plan_digest = "sha256:plan";
  operation_digest = "sha256:operation";
  executor = "peer:1";
  authority_epoch = 1;
  fence = 1;
  outcome = RemoteReceiptOutcome.completed;
  result_digest = none;
  observations = "evidence:1" ∷ [];
  observed_at = pos 5;
}

abbrev pending_record : LedgerRecord
pending_record = record {
  schema_version = 1;
  dispatch = "dispatch:1";
  lease = "lease:1";
  semantics = "sha256:1";
  receipt = none;
}

abbrev one_pending : Records
one_pending = ("dispatch:1", pending_record) ∷ []

one_found : lookup "dispatch:1" one_pending ≡ some pending_record
unfolding lookup string_discrete
one_found = refl

receipt_valid : validate_receipt (receipt_for "dispatch:2") ≡ ok tt
unfolding validate_receipt is_blank ℕ_discrete
receipt_valid = refl

other_dispatch : (receipt_for "dispatch:2").dispatch ≢ pending_record.dispatch
unfolding string_discrete
other_dispatch = ne_of_test "dispatch:2" "dispatch:1" refl

complete_mismatch_stays_example :
    ((e : Error) × ((Ledger.complete "dispatch:1" "sha256:1"
          (receipt_for "dispatch:2")
          one_pending).1
        ≡ err e))
    × ((Ledger.begin "dispatch:1" "lease:1" "sha256:1"
          (Ledger.complete "dispatch:1" "sha256:1" (receipt_for "dispatch:2") one_pending).0).1
        ≡ ok (Decision.completed (receipt_for "dispatch:2")))
complete_mismatch_stays_example =
    complete_mismatch_stays "dispatch:1" (receipt_for "dispatch:2") one_pending pending_record
      one_found refl receipt_valid other_dispatch

memory_first : (Ledger.begin "dispatch:1" "lease:1" "sha256:1" []).1 ≡ ok Decision.new
unfolding Ledger.begin Ledger.validate_record lookup is_blank ℕ_discrete
memory_first = refl

memory_done :
    (Ledger.complete "dispatch:1" "sha256:1" (receipt_for "dispatch:1") one_pending).1 ≡ ok tt
unfolding Ledger.complete Ledger.validate_record validate_receipt lookup is_blank string_discrete
    ℕ_discrete
memory_done = refl

record_discrete : Discrete LedgerRecord
record_discrete = hlevel (string_discrete, ℕ_discrete, receipt_discrete)

-- A codec that keeps the record itself as the bytes.
abbrev plain : Codec
plain = record {
  Bytes = LedgerRecord;
  bytes_discrete = record_discrete;
  encode = λ r. r;
  decode = λ b. some b;
  decode-encode = λ r. refl;
  identity = λ d. d;
}

abbrev empty_ledger : FileLedger plain
empty_ledger = record { disk = []; records = [] }

empty-Backed : Backed plain empty_ledger
unfolding lookup
empty-Backed d r e = cc

abbrev first_begin : FileLedger plain
first_begin = (FileLedger.begin plain succeeds "dispatch:1" "lease:1" "sha256:1" empty_ledger).0

-- What the first `begin` leaves: one file and its record.
abbrev one_file : FileLedger plain
one_file = record { disk = ("dispatch:1-pending.json", pending_record) ∷ []; records = one_pending }

first_new :
    FileLedger.begin plain succeeds "dispatch:1" "lease:1" "sha256:1" empty_ledger
    ≡ (one_file, ok Decision.new)
unfolding FileLedger.begin FileLedger.commit Ledger.validate_record lookup insert is_blank
    ℕ_discrete fresh_record
first_new = refl

abbrev one_entry : List (FileLedger.Entry plain)
one_entry = FileLedger.json pending_record ∷ []

listed : Files.Lists plain one_entry one_file.disk
unfolding lookup
listed = record {
  complete_list = λ path b e. inl (ground (arith, e));
  sound_list =
      λ b m. elim m [ inl e ↦ ("dispatch:1-pending.json", ground (arith, e)) | inr n ↦ elim n [ ] ];
}

reopened : FileLedger.open_ledger plain one_entry ≡ ok one_pending
unfolding FileLedger.open_ledger FileLedger.read_all FileLedger.read_entry FileLedger.merge
    Ledger.validate_record lookup insert is_blank ℕ_discrete
reopened = refl

-- The process restarts on the directory that holds the one file.
after_restart : Files.Reach plain one_file one_file
after_restart =
    Files.Reach.next Files.Reach.here
      (Files.Step.restarts one_entry one_pending one_file listed reopened)

first_answer :
    (FileLedger.begin plain succeeds "dispatch:1" "lease:1" "sha256:1" empty_ledger).1
    ≡ ok Decision.new
first_answer = ap (λ x. x.1) first_new

first_then_restart :
    Files.Reach plain
      (FileLedger.begin plain succeeds "dispatch:1" "lease:1" "sha256:1" empty_ledger).0
      one_file
first_then_restart = subst (λ x. Files.Reach plain x.0 one_file) (sym first_new) after_restart

begin-new_once_example :
    (FileLedger.begin plain succeeds "dispatch:1" "lease:2" "sha256:2" one_file).1 ≢ ok Decision.new
begin-new_once_example =
    begin-new_once plain succeeds succeeds "dispatch:1" "lease:1" "sha256:1" "lease:2" "sha256:2"
      empty_ledger one_file empty-Backed first_answer first_then_restart

one-Backed : Backed plain one_file
one-Backed = subst (Backed plain) (ap (λ x. x.0) first_new) (
    (Files.begin-Advances plain succeeds "dispatch:1" "lease:1" "sha256:1" empty_ledger).backed
      empty-Backed)

Reach-Extends_example : Extends one_pending one_pending × Backed plain one_file
Reach-Extends_example = Reach-Extends plain after_restart one-Backed

file_done :
    (FileLedger.complete plain succeeds "dispatch:1" "sha256:1"
      (receipt_for "dispatch:1")
      one_file).1
    ≡ ok tt
unfolding FileLedger.complete FileLedger.commit Ledger.validate_record lookup is_blank
    string_discrete ℕ_discrete
file_done = refl

complete_survives_example :
    FileLedger.begin plain succeeds "dispatch:1" "lease:1" "sha256:1"
      (FileLedger.complete plain succeeds "dispatch:1" "sha256:1"
        (receipt_for "dispatch:1")
        one_file).0
    ≡ (
      (FileLedger.complete plain succeeds "dispatch:1" "sha256:1"
          (receipt_for "dispatch:1")
          one_file).0,
      ok (Decision.completed (receipt_for "dispatch:1")),
    )
complete_survives_example =
    complete_survives plain succeeds succeeds "dispatch:1" "sha256:1" (receipt_for "dispatch:1")
      one_file
      (FileLedger.complete plain succeeds "dispatch:1" "sha256:1" (receipt_for "dispatch:1")
        one_file).0
      pending_record one-Backed one_found file_done Files.Reach.here

begin_refines_example : Ledger.begin "dispatch:1" "lease:1" "sha256:1" [] ≡ (
  (FileLedger.begin plain succeeds "dispatch:1" "lease:1" "sha256:1" empty_ledger).0.records,
  ok Decision.new,
)
begin_refines_example =
    begin_refines plain succeeds "dispatch:1" "lease:1" "sha256:1" empty_ledger first_answer

file_refuses :
    (FileLedger.complete plain succeeds "dispatch:1" "sha256:1"
      (receipt_for "dispatch:2")
      one_file).1
    ≡ err Error.receipt_mismatch
unfolding FileLedger.complete FileLedger.commit Ledger.validate_record lookup is_blank
    string_discrete ℕ_discrete
file_refuses = refl
