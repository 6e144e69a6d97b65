-- ===== src/Execution/Ledger/Replay.antt =====
-- The in-memory ledger: what one call does, and what never changes.
use forme_agent.Base.{
  Option, none, some, ◌≡◌, refl, sym, ◌∙◌, inl, inr, ◌≢◌, Result, ok, err, arith, Option-cases,
  subst, string_eq,
}
use forme_agent.Base.Map.{lookup, insert, string_ord, lookup-insert}
use forme_agent.Base.Text.{string_discrete}
use forme_agent.Protocol.Kinds.{Ref}
use forme_agent.Execution.Ledger.{
  LedgerRecord, RemoteDriverReceipt, Records, Decision, Error, begin, complete, replay,
  fresh_record, validate_record, confirm, validate_receipt, decision_of, no_pending,
  receipt_discrete,
}

-- The later record keeps the lease, the semantics and any receipt of the earlier one.
pub record Keeps (r q : LedgerRecord) : Type 0 where
  pub lease : q.lease ≡ r.lease
  pub semantics : q.semantics ≡ r.semantics
  pub receipt : (x : RemoteDriverReceipt) → r.receipt ≡ some x → q.receipt ≡ some x

pub Keeps-refl : (r : LedgerRecord) → Keeps r r
Keeps-refl r = record { lease = refl; semantics = refl; receipt = λ x e. e }

pub Keeps-trans : {r q p : LedgerRecord} → Keeps r q → Keeps q p → Keeps r p
Keeps-trans a b = record {
  lease = b.lease ∙ a.lease;
  semantics = b.semantics ∙ a.semantics;
  receipt = λ x e. b.receipt x (a.receipt x e);
}

-- Every record of the first ledger lives on in the second.
abbrev pub Extends : Records → Records → Type 0
Extends rs qs =
    (d : Ref) (r : LedgerRecord)
    → lookup d rs ≡ some r
    → (q : LedgerRecord) × (lookup d qs ≡ some q) × Keeps r q

pub Extends-refl : (rs : Records) → Extends rs rs
Extends-refl rs d r e = (r, e, Keeps-refl r)

pub Extends-trans : (rs qs ps : Records) → Extends rs qs → Extends qs ps → Extends rs ps
Extends-trans rs qs ps a b d r e =
    let (q, f, k) = a d r e in let (p, g, l) = b d q f in (p, g, Keeps-trans k l)

-- Writing a record that keeps what stood under its id extends the ledger.
pub insert-Extends :
    (d : Ref) (q : LedgerRecord) (rs : Records)
    → ((r : LedgerRecord) → lookup d rs ≡ some r → Keeps r q)
    → Extends rs (insert d q rs)
insert-Extends d q rs keep j r e = elim (string_discrete d j) [
  | yes p ↦ (
    q,
    ground (arith, p, lookup-insert j d q rs),
    keep r (subst (λ i. lookup i rs ≡ some r) (sym p) e),
  )
  | no p ↦ (r, ground (arith, p, e, lookup-insert j d q rs), Keeps-refl r)
]

pub data BeginOutcome (d l m : Ref) (rs : Records) : Type 0 where
  known :
      (r : LedgerRecord)
      → lookup d rs ≡ some r
      → begin d l m rs ≡ (rs, replay r l m)
      → BeginOutcome d l m rs
  incomplete :
      lookup d rs ≡ none → (e : Error) → begin d l m rs ≡ (rs, err e) → BeginOutcome d l m rs
  started :
      lookup d rs ≡ none
      → validate_record (fresh_record d l m) ≡ ok tt
      → begin d l m rs ≡ (insert d (fresh_record d l m) rs, ok Decision.new)
      → BeginOutcome d l m rs

pub begin-BeginOutcome : (d l m : Ref) (rs : Records) → BeginOutcome d l m rs
unfolding begin
begin-BeginOutcome d l m rs = elim (Option-cases (lookup d rs)) [
  | inr (r, e) ↦ known r e (rw (e, begin) refl)
  | inl e ↦ decide e (validate_record (fresh_record d l m)) refl
]
  where
    decide :
        lookup d rs ≡ none
        → (c : Result Error (Unit {0})) → validate_record (fresh_record d l m) ≡ c
        → BeginOutcome d l m rs
    decide e (err x) p = incomplete e x (ground (arith, e, p))
    decide e (ok _) p = started e p (ground (arith, e, p))

pub begin-Extends : (d l m : Ref) (rs : Records) → Extends rs (begin d l m rs).0
begin-Extends d l m rs = split (begin-BeginOutcome d l m rs)
  where
    split : BeginOutcome d l m rs → Extends rs (begin d l m rs).0
    split (known r e p) = subst (λ x. Extends rs x.0) (sym p) (Extends-refl rs)
    split (incomplete e x p) = subst (λ x. Extends rs x.0) (sym p) (Extends-refl rs)
    split (started e v p) =
        subst (λ x. Extends rs x.0) (sym p) (insert-Extends d (fresh_record d l m) rs (λ r f. cc))

-- What `complete` can do: nothing, or write a receipt into a pending record.
pub data CompleteOutcome (d m : Ref) (x : RemoteDriverReceipt) (rs : Records) : Type 0 where
  refused : (e : Error) → complete d m x rs ≡ (rs, err e) → CompleteOutcome d m x rs
  repeated :
      (r : LedgerRecord)
      → lookup d rs ≡ some r
      → r.semantics ≡ m
      → r.receipt ≡ some x
      → complete d m x rs ≡ (rs, ok tt)
      → CompleteOutcome d m x rs
  stored :
      (r : LedgerRecord)
      → lookup d rs ≡ some r
      → r.semantics ≡ m
      → r.receipt ≡ none
      → validate_receipt x ≡ ok tt
      → complete d m x rs ≡ (
        insert d (record r { receipt = some x }) rs,
        validate_record (record r { receipt = some x }),
      )
      → CompleteOutcome d m x rs

complete_found :
    (d m : Ref) (x : RemoteDriverReceipt) (rs : Records) (r : LedgerRecord)
    → lookup d rs ≡ some r
    → r.semantics ≡ m
    → (o : Option RemoteDriverReceipt) → r.receipt ≡ o
    → (c : Result Error (Unit {0})) → validate_receipt x ≡ c
    → CompleteOutcome d m x rs
unfolding complete confirm
complete_found d m x rs r e s none p (err y) v = refused y (ground (arith, e, s, p, v))
complete_found d m x rs r e s none p (ok _) v = stored r e s p v (ground (arith, e, s, p, v))
complete_found d m x rs r e s (some y) p c v = elim (receipt_discrete y x) [
  | yes q ↦ repeated r e s (ground (arith, p, q)) (ground (arith, e, s, p, q))
  | no q ↦ refused Error.receipt_conflict (ground (arith, e, s, p, q))
]

pub complete-CompleteOutcome :
    (d m : Ref) (x : RemoteDriverReceipt) (rs : Records) → CompleteOutcome d m x rs
unfolding complete
complete-CompleteOutcome d m x rs = elim (Option-cases (lookup d rs)) [
  | inl e ↦ refused no_pending (rw (e, complete) refl)
  | inr (r, e) ↦ elim (string_discrete r.semantics m) [
    | yes s ↦ complete_found d m x rs r e s r.receipt refl (validate_receipt x) refl
    | no s ↦ refused Error.semantics_changed (ground (arith, e, s))
  ]
]

pub complete-Extends :
    (d m : Ref) (x : RemoteDriverReceipt) (rs : Records) → Extends rs (complete d m x rs).0
complete-Extends d m x rs = split (complete-CompleteOutcome d m x rs)
  where
    write :
        (r : LedgerRecord)
        → lookup d rs ≡ some r
        → r.receipt ≡ none
        → Extends rs (insert d (record r { receipt = some x }) rs)
    write r e p =
        insert-Extends d (record r { receipt = some x }) rs
          λ q f.
            let same : r ≡ q = ground (arith, e, f) in
            subst (λ y. Keeps y (record r { receipt = some x })) same
              (record { lease = refl; semantics = refl; receipt = λ y g. ground (arith, p, g) })

    split : CompleteOutcome d m x rs → Extends rs (complete d m x rs).0
    split (refused e p) = subst (λ y. Extends rs y.0) (sym p) (Extends-refl rs)
    split (repeated r e s q p) = subst (λ y. Extends rs y.0) (sym p) (Extends-refl rs)
    split (stored r e s q v p) = subst (λ y. Extends rs y.0) (sym p) (write r e q)

-- A receipt that `complete` accepts is on record under the dispatch, with the same semantics.
pub complete_ok_stored :
    (d m : Ref) (x : RemoteDriverReceipt) (rs : Records)
    → (complete d m x rs).1 ≡ ok tt
    → (r : LedgerRecord) × (lookup d (complete d m x rs).0 ≡ some r)
      × (r.semantics ≡ m)
      × (r.receipt ≡ some x)
complete_ok_stored d m x rs h = split (complete-CompleteOutcome d m x rs)
  where
    split :
        CompleteOutcome d m x rs
        → (r : LedgerRecord) × (lookup d (complete d m x rs).0 ≡ some r)
          × (r.semantics ≡ m)
          × (r.receipt ≡ some x)
    split (refused e p) = cc
    split (repeated r e s q p) = (r, rw p e, s, q)
    split (stored r e s q v p) = (
      record r { receipt = some x },
      ground (arith, p, lookup-insert d d (record r { receipt = some x }) rs),
      s,
      refl,
    )

err_of : (c : Result Error (Unit {0})) → c ≢ ok tt → (e : Error) × (c ≡ err e)
err_of (ok tt) h = absurd (h refl)
err_of (err e) h = (e, refl)

mismatch_invalid :
    (r : LedgerRecord) (x : RemoteDriverReceipt)
    → x.dispatch ≢ r.dispatch
    → validate_record (record r { receipt = some x }) ≢ ok tt
unfolding validate_record
mismatch_invalid r x ne h = ground arith

pub begin_known :
    (d l m : Ref) (rs : Records) (r : LedgerRecord)
    → lookup d rs ≡ some r
    → begin d l m rs ≡ (rs, replay r l m)
unfolding begin
begin_known d l m rs r e = rw (e, begin) refl

-- A dispatch on record with the same lease and semantics is answered from the record.
pub replay_same : (r : LedgerRecord) → replay r r.lease r.semantics ≡ ok (decision_of r.receipt)
unfolding replay
replay_same r = ground arith

pub complete_writes :
    (d : Ref) (x : RemoteDriverReceipt) (rs : Records) (r : LedgerRecord)
    → lookup d rs ≡ some r
    → r.receipt ≡ none
    → validate_receipt x ≡ ok tt
    → complete d r.semantics x rs ≡ (
      insert d (record r { receipt = some x }) rs,
      validate_record (record r { receipt = some x }),
    )
unfolding complete
complete_writes d x rs r e p v = ground (arith, e, p, v)

-- The memory ledger keeps a receipt that it has just refused: where the record is pending and a
-- receipt that is valid by itself names another dispatch, `complete` reports an error, and the next
-- `begin` of the dispatch answers with that receipt.
pub complete_mismatch_stays :
    (d : Ref) (x : RemoteDriverReceipt) (rs : Records) (r : LedgerRecord)
    → lookup d rs ≡ some r
    → r.receipt ≡ none
    → validate_receipt x ≡ ok tt
    → x.dispatch ≢ r.dispatch
    → ((e : Error) × ((complete d r.semantics x rs).1 ≡ err e))
      × ((begin d r.lease r.semantics (complete d r.semantics x rs).0).1
          ≡ ok (Decision.completed x))
unfolding decision_of
complete_mismatch_stays d x rs r e p v ne =
    let written : LedgerRecord = record r { receipt = some x } in
    let done = complete_writes d x rs r e p v in
    let (y, f) = err_of (validate_record written) (mismatch_invalid r x ne) in
    (
      (y, rw done f),
      rw done (
          rw
            (begin_known d r.lease r.semantics (insert d written rs) written
              (ground (arith, lookup-insert d d written rs)))
            (replay_same written)),
    )

-- A dispatch on record is never `New`.
pub replay_not_new : (r : LedgerRecord) (l m : Ref) → replay r l m ≢ ok Decision.new
unfolding replay
replay_not_new r l m h = ground arith

pub begin_fresh :
    (d l m : Ref) (rs : Records)
    → lookup d rs ≡ none
    → validate_record (fresh_record d l m) ≡ ok tt
    → begin d l m rs ≡ (insert d (fresh_record d l m) rs, ok Decision.new)
unfolding begin
begin_fresh d l m rs e v = ground (arith, e, v)

pub complete_repeats :
    (d : Ref) (x : RemoteDriverReceipt) (rs : Records) (r : LedgerRecord)
    → lookup d rs ≡ some r
    → r.receipt ≡ some x
    → complete d r.semantics x rs ≡ (rs, ok tt)
unfolding complete
complete_repeats d x rs r e p = ground (arith, e, p)

pub stored_valid :
    (r : LedgerRecord) (x : RemoteDriverReceipt)
    → validate_record (record r { receipt = some x }) ≡ ok tt
    → validate_receipt x ≡ ok tt
unfolding validate_record
stored_valid r x h = ground arith
