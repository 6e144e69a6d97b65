-- ===== src/Execution/Ledger/History.antt =====
-- The in-memory ledger over any sequence of calls.
use forme_agent.Base.{some, ◌≡◌, ◌≢◌, ok, arith, subst}
use forme_agent.Base.Map.{lookup, string_ord, lookup-insert}
use forme_agent.Protocol.Kinds.{Ref}
use forme_agent.Execution.Ledger.{
  LedgerRecord, RemoteDriverReceipt, Records, Decision, begin, complete, replay, fresh_record,
  decision_of,
}
use forme_agent.Execution.Ledger.Replay.{
  Extends, Extends-refl, Extends-trans, BeginOutcome, known, incomplete, started,
  begin-BeginOutcome, begin-Extends, complete-Extends, complete_ok_stored, begin_known, replay_same,
  replay_not_new,
}

pub data Step : Records → Records → Type 0 where
  begins : (d l m : Ref) (rs : Records) → Step rs (begin d l m rs).0
  completes : (d m : Ref) (x : RemoteDriverReceipt) (rs : Records) → Step rs (complete d m x rs).0

pub data Reach (rs : Records) : Records → Type 0 where
  here : Reach rs rs
  next : {qs ps : Records} → Reach rs qs → Step qs ps → Reach rs ps

Step-Extends : {rs qs : Records} → Step rs qs → Extends rs qs
Step-Extends (begins d l m rs) = begin-Extends d l m rs
Step-Extends (completes d m x rs) = complete-Extends d m x rs

-- No call loses a record or changes its lease, its semantics or a receipt that it has.
pub Reach-Extends : {rs qs : Records} → Reach rs qs → Extends rs qs
Reach-Extends {rs} here = Extends-refl rs
Reach-Extends {rs} (next {qs = qs} {ps = ps} r st) =
    Extends-trans rs qs ps (Reach-Extends r) (Step-Extends st)

pub new_stored :
    (d l m : Ref) (rs : Records)
    → (begin d l m rs).1 ≡ ok Decision.new
    → lookup d (begin d l m rs).0 ≡ some (fresh_record d l m)
new_stored d l m rs h = split (begin-BeginOutcome d l m rs)
  where
    split : BeginOutcome d l m rs → lookup d (begin d l m rs).0 ≡ some (fresh_record d l m)
    split (known r e p) = absurd (replay_not_new r l m (ground (arith, p, h)))
    split (incomplete e x p) = absurd (ground (arith, p, h))
    split (started e v p) = ground (arith, p, lookup-insert d d (fresh_record d l m) rs)

-- After a dispatch was `New` in the memory ledger it is never `New` again, under any lease and
-- semantics, whatever calls follow.
pub memory_new_once :
    (d l m l' m' : Ref) (rs qs : Records)
    → (begin d l m rs).1 ≡ ok Decision.new
    → Reach (begin d l m rs).0 qs
    → (begin d l' m' qs).1 ≢ ok Decision.new
memory_new_once d l m l' m' rs qs first r second =
    let (q, e, k) = Reach-Extends r d (fresh_record d l m) (new_stored d l m rs first) in
    replay_not_new q l' m' (ground (arith, begin_known d l' m' qs q e, second))

-- After `complete` of the memory ledger accepts a receipt, `begin` with the lease and semantics on
-- record answers with it and changes nothing, whatever calls follow.
pub memory_complete_survives :
    (d m : Ref) (x : RemoteDriverReceipt) (rs qs : Records) (r : LedgerRecord)
    → lookup d rs ≡ some r
    → (complete d m x rs).1 ≡ ok tt
    → Reach (complete d m x rs).0 qs
    → begin d r.lease m qs ≡ (qs, ok (Decision.completed x))
unfolding decision_of
memory_complete_survives d m x rs qs r e done reach =
    let (w, f, g, k) = complete_ok_stored d m x rs done in
    let (w', f', k') = complete-Extends d m x rs d r e in
    let same : w' ≡ w = ground (arith, f, f') in
    let (q, h, keep) = Reach-Extends reach d w f in
    subst (λ o. begin d r.lease m qs ≡ (qs, o))
      (answer q (ground (arith, keep.lease, same, k'.lease)) (ground (arith, keep.semantics, g))
        (keep.receipt x k))
      (begin_known d r.lease m qs q h)
  where
    answer :
        (q : LedgerRecord)
        → q.lease ≡ r.lease
        → q.semantics ≡ m
        → q.receipt ≡ some x
        → replay q r.lease m ≡ ok (Decision.completed x)
    answer q p p' p'' = ground (arith, replay_same q)
