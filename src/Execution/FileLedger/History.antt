-- ===== src/Execution/FileLedger/History.antt =====
-- The file ledger over any sequence of calls, file-system failures and restarts.
use forme_agent.Base.{
  String, List, [], Option, none, some, ◌≡◌, refl, sym, inl, inr, ◌≢◌, ok, err, arith, subst,
  Option-cases, string_eq, ◌∙◌,
}
use forme_agent.Base.Map.{Map, lookup, string_ord}
use forme_agent.Base.Members.{Member}
use forme_agent.Base.Text.{string_discrete}
use forme_agent.Protocol.Kinds.{Ref}
use forme_agent.Execution.Ledger.{
  LedgerRecord, RemoteDriverReceipt, Records, Decision, Error, replay, fresh_record, decision_of,
  confirm,
}
use forme_agent.Execution.Ledger.Replay.{
  Keeps, Extends, Extends-refl, Extends-trans, replay_same, replay_not_new,
}
use forme_agent.Execution.FileLedger.{
  Codec, Io, Entry, json, FileLedger, commit, begin, complete, begin_new, complete_record,
  open_ledger,
}
use forme_agent.Execution.FileLedger.Merge.{read_all-Holds, read_all_source}
use forme_agent.Execution.FileLedger.Calls.{
  Backed, Advances, Advances-refl, commit-Advances, commit_ok,
}

-- A dispatch on record is answered from the record, and nothing is written.
pub begin_known :
    (c : Codec) (io : Io c) (d l m : Ref) (s : FileLedger c) (r : LedgerRecord)
    → lookup d s.records ≡ some r
    → begin c io d l m s ≡ (s, replay r l m)
unfolding begin
begin_known c io d l m s r e = rw (e, begin) refl

module _ (c : Codec) where
  open c use {Bytes, decode}

  pub begin_unknown :
      (io : Io c) (d l m : Ref) (s : FileLedger c)
      → lookup d s.records ≡ none
      → begin c io d l m s ≡ begin_new c io d l m s
  unfolding begin
  begin_unknown io d l m s e = rw (e, begin) refl

  pub begin-Advances :
      (io : Io c) (d l m : Ref) (s : FileLedger c) → Advances c s (begin c io d l m s).0
  unfolding begin_new fresh_record
  begin-Advances io d l m s = elim (Option-cases (lookup d s.records)) [
    | inr (r, e) ↦
        subst (λ x. Advances c s x.0) (sym (begin_known c io d l m s r e)) (Advances-refl c s)
    | inl e ↦
        subst (λ x. Advances c s x.0) (sym (begin_unknown io d l m s e))
          (commit-Advances c io d (fresh_record d l m) s refl (λ q f. cc))
  ]

  -- A receipt is written only into a pending record.
  complete-record-Advances :
      (io : Io c) (d : Ref) (r : LedgerRecord) (o : Option RemoteDriverReceipt)
      (x : RemoteDriverReceipt) (s : FileLedger c)
      → lookup d s.records ≡ some r
      → r.dispatch ≡ d
      → r.receipt ≡ o
      → Advances c s (complete_record c io d r o x s).0
  unfolding complete_record
  complete-record-Advances io d r (some y) x s e at p = Advances-refl c s
  complete-record-Advances io d r none x s e at p =
      commit-Advances c io d (record r { receipt = some x }) s at
        λ q f.
          let same : r ≡ q = ground (arith, e, f) in
          subst (λ y. Keeps y (record r { receipt = some x })) same
            (record { lease = refl; semantics = refl; receipt = λ y g. ground (arith, p, g) })

  -- `complete` stops at once, or goes on with the record of the dispatch.
  pub data CompleteCase (io : Io c) (d m : Ref) (x : RemoteDriverReceipt) (s : FileLedger c)
      : Type 0 where
    stops : (e : Error) → complete c io d m x s ≡ (s, err e) → CompleteCase io d m x s
    goes :
        (r : LedgerRecord)
        → lookup d s.records ≡ some r
        → r.semantics ≡ m
        → complete c io d m x s ≡ complete_record c io d r r.receipt x s
        → CompleteCase io d m x s

  pub complete-CompleteCase :
      (io : Io c) (d m : Ref) (x : RemoteDriverReceipt) (s : FileLedger c) → CompleteCase io d m x s
  unfolding complete
  complete-CompleteCase io d m x s = elim (Option-cases (lookup d s.records)) [
    | inl e ↦ stops Error.no_pending (rw (e, complete) refl)
    | inr (r, e) ↦ elim (string_discrete r.semantics m) [
      | yes p ↦ goes r e p (ground (arith, e, p))
      | no p ↦ stops Error.semantics_changed (ground (arith, e, p))
    ]
  ]

  pub complete-Advances :
      (io : Io c) (d m : Ref) (x : RemoteDriverReceipt) (s : FileLedger c)
      → Backed c s
      → Advances c s (complete c io d m x s).0
  complete-Advances io d m x s v = split (complete-CompleteCase io d m x s)
    where
      split : CompleteCase io d m x s → Advances c s (complete c io d m x s).0
      split (stops e p) = subst (λ y. Advances c s y.0) (sym p) (Advances-refl c s)
      split (goes r e q p) =
          subst (λ y. Advances c s y.0) (sym p)
            (complete-record-Advances io d r r.receipt x s e (v d r e).0 refl)

  -- The entries are exactly the files of the directory, in some order.
  pub record Lists (es : List (Entry c)) (disk : Map String Bytes) : Type 0 where
    pub complete_list : (path : String) (b : Bytes) → lookup path disk ≡ some b → Member (json b) es
    pub sound_list :
        (b : Bytes) → Member (json b) es → (path : String) × (lookup path disk ≡ some b)

  -- A call with any behaviour of the file system, or a restart that finds the directory readable.
  pub data Step : FileLedger c → FileLedger c → Type 0 where
    begins : (io : Io c) (d l m : Ref) (s : FileLedger c) → Step s (begin c io d l m s).0
    completes :
        (io : Io c) (d m : Ref) (x : RemoteDriverReceipt) (s : FileLedger c)
        → Step s (complete c io d m x s).0
    restarts :
        (es : List (Entry c)) (qs : Records) (s : FileLedger c)
        → Lists es s.disk
        → open_ledger c es ≡ ok qs
        → Step s (record s { records = qs })

  pub data Reach (s : FileLedger c) : FileLedger c → Type 0 where
    here : Reach s s
    next : {t u : FileLedger c} → Reach s t → Step t u → Reach s u

  pub restart-Advances :
      (es : List (Entry c)) (qs : Records) (s : FileLedger c)
      → Lists es s.disk
      → open_ledger c es ≡ ok qs
      → Backed c s
      → Advances c s (record s { records = qs })
  unfolding open_ledger lookup
  restart-Advances es qs s l h v = record {
    grows = λ p b e. e;
    extends = λ d r e.
        let (own, on) = v d r e in
        let (path, b, f, g) = on in
        subst (λ i. (q : LedgerRecord) × (lookup i qs ≡ some q) × Keeps r q) own
          (read_all-Holds c es [] b r h (l.complete_list path b f) g);
    backed = λ _ d r e. elim (read_all_source c es [] d r h e) [
      | inl old ↦ absurd (none_there d r old)
      | inr (b, m, f, own) ↦ let (path, g) = l.sound_list b m in (own, (path, b, g, f))
    ];
  }
    where
      none_there : (d : Ref) (r : LedgerRecord) → ¬ (lookup d [] ≡ some r)
      none_there d r e = cc

  Step-Advances : {s t : FileLedger c} → Step s t → Backed c s → Advances c s t
  Step-Advances (begins io d l m s) v = begin-Advances io d l m s
  Step-Advances (completes io d m x s) v = complete-Advances io d m x s v
  Step-Advances (restarts es qs s l h) v = restart-Advances es qs s l h v

  -- From a state whose records are all on disk: whatever calls, file-system failures and restarts
  -- follow, no record is lost, each dispatch keeps its lease, its semantics and a receipt that it has,
  -- and the records in memory are all on disk again.
  pub Reach-Extends :
      {s t : FileLedger c} → Reach s t → Backed c s → Extends s.records t.records × Backed c t
  Reach-Extends {s} here v = (Extends-refl s.records, v)
  Reach-Extends {s} (next {t = t} {u = u} r st) v =
      let (old, w) = Reach-Extends r v in
      let a = Step-Advances st w in
      (Extends-trans s.records t.records u.records old a.extends, a.backed w)

  started :
      (io : Io c) (d l m : Ref) (s : FileLedger c)
      → (begin_new c io d l m s).1 ≡ ok Decision.new
      → ((commit c io d (fresh_record d l m) s).1 ≡ ok tt)
        × ((begin_new c io d l m s).0 ≡ (commit c io d (fresh_record d l m) s).0)
  unfolding begin_new
  started io d l m s h = ground arith

  pub begin-new_stored :
      (io : Io c) (d l m : Ref) (s : FileLedger c)
      → (begin c io d l m s).1 ≡ ok Decision.new
      → lookup d (begin c io d l m s).0.records ≡ some (fresh_record d l m)
  begin-new_stored io d l m s h = elim (Option-cases (lookup d s.records)) [
    | inl e ↦
        let p = begin_unknown io d l m s e in
        let (done, same) = started io d l m s (rw p at h) in
        rw (p, same) (commit_ok c io d (fresh_record d l m) s done).0
    | inr (r, e) ↦ absurd (replay_not_new r l m (ground (arith, begin_known c io d l m s r e, h)))
  ]

  -- From a state whose records are all on disk: once a dispatch was `New` it is never `New` again, under any lease and semantics, whatever calls,
  -- file-system failures and restarts follow.
  pub begin-new_once :
      (io io' : Io c) (d l m l' m' : Ref) (s t : FileLedger c)
      → Backed c s
      → (begin c io d l m s).1 ≡ ok Decision.new
      → Reach (begin c io d l m s).0 t
      → (begin c io' d l' m' t).1 ≢ ok Decision.new
  begin-new_once io io' d l m l' m' s t v first r second =
      let (old, _) = Reach-Extends r ((begin-Advances io d l m s).backed v) in
      let (q, e, k) = old d (fresh_record d l m) (begin-new_stored io d l m s first) in
      replay_not_new q l' m' (ground (arith, begin_known c io' d l' m' t q e, second))

  confirmed :
      (io : Io c) (d : Ref) (r : LedgerRecord) (o : Option RemoteDriverReceipt)
      (x : RemoteDriverReceipt) (s : FileLedger c)
      → lookup d s.records ≡ some r
      → r.receipt ≡ o
      → (complete_record c io d r o x s).1 ≡ ok tt
      → (q : LedgerRecord) × (lookup d (complete_record c io d r o x s).0.records ≡ some q)
        × (q.semantics ≡ r.semantics)
        × (q.receipt ≡ some x)
  unfolding complete_record confirm
  confirmed io d r (some y) x s e f g = (r, e, refl, ground arith)
  confirmed io d r none x s e f g = (
    record r { receipt = some x },
    (commit_ok c io d (record r { receipt = some x }) s g).0,
    refl,
    refl,
  )

  -- A receipt that `complete` accepts is on record afterwards.
  pub complete_ok_stored :
      (io : Io c) (d m : Ref) (x : RemoteDriverReceipt) (s : FileLedger c)
      → (complete c io d m x s).1 ≡ ok tt
      → (r : LedgerRecord) × (lookup d (complete c io d m x s).0.records ≡ some r)
        × (r.semantics ≡ m)
        × (r.receipt ≡ some x)
  complete_ok_stored io d m x s h = split (complete-CompleteCase io d m x s)
    where
      split :
          CompleteCase io d m x s
          → (r : LedgerRecord) × (lookup d (complete c io d m x s).0.records ≡ some r)
            × (r.semantics ≡ m)
            × (r.receipt ≡ some x)
      split (stops e p) = absurd (ground (arith, p, h))
      split (goes r e q p) =
          let (w, f, g, k) = confirmed io d r r.receipt x s e refl (subst (λ y. y.1 ≡ ok tt) p h) in
          (w, subst (λ y. lookup d y.0.records ≡ some w) (sym p) f, g ∙ q, k)

  -- From a state whose records are all on disk: after `complete` accepts a receipt, every `begin` of the dispatch with the lease and semantics on
  -- record answers with that receipt and changes nothing, whatever calls, file-system failures and
  -- restarts follow.
  pub complete_survives :
      (io io' : Io c) (d m : Ref) (x : RemoteDriverReceipt) (s t : FileLedger c) (r : LedgerRecord)
      → Backed c s
      → lookup d s.records ≡ some r
      → (complete c io d m x s).1 ≡ ok tt
      → Reach (complete c io d m x s).0 t
      → begin c io' d r.lease m t ≡ (t, ok (Decision.completed x))
  unfolding decision_of
  complete_survives io io' d m x s t r v e done reach =
      let a = complete-Advances io d m x s v in
      let (w, f, g, k) = complete_ok_stored io d m x s done in
      let (w', f', k') = a.extends d r e in
      let same : w' ≡ w = ground (arith, f, f') in
      let (q, h, keep) = (Reach-Extends reach (a.backed v)).0 d w f in
      subst (λ o. begin c io' d r.lease m t ≡ (t, o))
        (answer q (ground (arith, keep.lease, same, k'.lease)) (ground (arith, keep.semantics, g))
          (keep.receipt x k))
        (begin_known c io' d r.lease m t q h)
    where
      answer :
          (q : LedgerRecord)
          → q.lease ≡ r.lease
          → q.semantics ≡ m
          → q.receipt ≡ some x
          → replay q r.lease m ≡ ok (Decision.completed x)
      answer q p p' p'' = ground (arith, replay_same q)
