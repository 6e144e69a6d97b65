-- ===== src/Execution/Remote/Executor/Answers.antt =====
-- What the guarded executor answers: a repeated `execute`, `probe` and `cancel`.
use forme_agent.Base.{
  false, ◌&&◌, List, [], ◌∷◌, Option, none, some, ◌≡◌, ◌≢◌, ◌⊎◌, inl, inr, refl, sym, subst, ap,
  ◌∙◌, string_eq, Result, ok, err, arith, Result-cases, Bool-cases, any, find, ◌==◌,
}
use forme_agent.Base.Map.{lookup, values, string_ord}
use forme_agent.Base.Members.{Member, any_none}
use forme_agent.Protocol.Kinds.{Ref}
use forme_agent.Protocol.Remote.{RemoteAdmission, RemoteProbeOutcome}
use forme_agent.Execution.Ledger.{
  LedgerRecord, RemoteDriverReceipt, Decision, Error, Records, replay, decision_of, is_empty,
  validate_receipt, completed, new,
}
use forme_agent.Execution.Ledger.Queries.{receipt_for_lease, pending, receipt_of, is_pending}
use forme_agent.Execution.Ledger.Replay.{Extends, Extends-refl, Extends-trans, replay_same}
use forme_agent.Execution.Remote.{Digests}
use forme_agent.Execution.Remote.Ledgers.{ReplayLedger}
use forme_agent.Execution.Remote.Executor.{
  Outside, Run, run_of, ExecutorState, RemoteInnerOutcome, prepare, decided, start, run, finish,
  recorded, receipt_from, execute, probe, ran, continued,
}
use forme_agent.Execution.Remote.Executor.History.{
  Recorded, Step, starts, drives, finishes, stops, Reach, here, next, Inv, Reach-Inv, opened,
  opened-Inv, StartOutcome, decided-Inv, finish_ledger, halted, begun, start-StartOutcome,
}

lookup-values :
    (d : Ref) (r : LedgerRecord) (m : Records) → lookup d m ≡ some r → Member r (values m)
unfolding lookup values
lookup-values d r [] h = cc
lookup-values d r ((k, v) ∷ m) h = elim (string_ord.discrete k d) [
  | yes p ↦ inl (ground (arith, p, h))
  | no p ↦ inr (lookup-values d r m (ground (arith, p, h)))
]

-- A lease that has neither a receipt nor a pending record has no record.
find_absent :
    (lease : Ref) (rs : List LedgerRecord)
    → receipt_of (find (λ r. r.lease == lease) rs) ≡ none
    → any (λ r. r.lease == lease && is_pending r.receipt) rs ≡ false
    → any (λ r. r.lease == lease) rs ≡ false
unfolding find any receipt_of is_pending
find_absent lease [] h k = refl
find_absent lease (r ∷ rs) h k = ground (arith, find_absent lease rs, h, k)

replay-completed :
    (r : LedgerRecord) (lease semantics : Ref) (x : RemoteDriverReceipt)
    → replay r lease semantics ≡ ok (Decision.completed x)
    → (r.lease ≡ lease) × (r.semantics ≡ semantics) × (r.receipt ≡ some x)
unfolding replay decision_of
replay-completed r lease semantics x h = (ground arith, ground arith, ground arith)

replay_answers :
    (r : LedgerRecord) (lease semantics : Ref) (x : RemoteDriverReceipt)
    → r.lease ≡ lease
    → r.semantics ≡ semantics
    → r.receipt ≡ some x
    → replay r lease semantics ≡ ok (Decision.completed x)
unfolding decision_of
replay_answers r lease semantics x p q e = ground (arith, replay_same r)

module _ (g : Digests) (l : ReplayLedger) (Secret : Type 0) where
  open l use {World, State, Valid, records}

  decided_ledger :
      (a : RemoteAdmission) (secret : Option Secret) (semantics : Ref) (s : ExecutorState State)
      (x : State × Result Error Decision)
      → (decided g l a secret semantics s x).0.ledger ≡ x.0
  unfolding decided
  decided_ledger a secret semantics s (t, err e) = refl
  decided_ledger a secret semantics s (t, ok Decision.pending) = refl
  decided_ledger a secret semantics s (t, ok (completed receipt)) = refl
  decided_ledger a secret semantics s (t, ok new) = refl

  -- No step loses a record, or changes what it says.
  Step-Extends :
      {s t : ExecutorState State}
      → Step g l Secret s t
      → Inv g l Secret s
      → Extends (records s.ledger) (records t.ledger)
  unfolding run
  Step-Extends (starts o a s) v = split (start-StartOutcome g l Secret o a s)
    where
      split :
          StartOutcome g l Secret o a s
          → Extends (records s.ledger) (records (start g l o a s).0.ledger)
      split (halted e p q) =
          subst (λ x. Extends (records s.ledger) (records x.0.ledger)) (sym q) (Extends-refl _)
      split (begun secret semantics p q) =
          subst (λ x. Extends (records s.ledger) (records x))
            (sym (ap (λ x. x.0.ledger) q ∙ decided_ledger a secret semantics s _))
            (l.begin_extends o.at_begin a.lease.dispatch a.lease.lease semantics s.ledger v.valid)
  Step-Extends (drives o a secret s m) v = Extends-refl _
  Step-Extends (finishes o a semantics outcome s) v =
      elim (finish_ledger g l Secret o a semantics outcome s) [
        | inl e ↦
            subst (λ x. Extends (records s.ledger) (records x.ledger)) (sym e) (Extends-refl _)
        | inr (x, e) ↦
            subst (λ x. Extends (records s.ledger) (records x.ledger)) (sym e)
              (l.complete_extends o.at_complete a.lease.dispatch semantics x s.ledger v.valid)
      ]
  Step-Extends (stops t s h) v = l.restarts_extends s.ledger t h v.valid

  Reach-Extends :
      {s t : ExecutorState State}
      → Reach g l Secret s t
      → Inv g l Secret s
      → Extends (records s.ledger) (records t.ledger)
  Reach-Extends here v = Extends-refl _
  Reach-Extends (next r st) v =
      Extends-trans _ _ _ (Reach-Extends r v) (Step-Extends st (Reach-Inv g l Secret r v))

  -- The ledger holds the receipt under the dispatch and lease of the admission.
  abbrev pub Holds : RemoteAdmission → Ref → RemoteDriverReceipt → State → Type 0
  Holds a semantics x ledger =
      (r : LedgerRecord) × (lookup a.lease.dispatch (records ledger) ≡ some r)
      × (r.lease ≡ a.lease.lease)
      × (r.semantics ≡ semantics)
      × (r.receipt ≡ some x)

  Extends-Holds :
      (a : RemoteAdmission) (m : Ref) (x : RemoteDriverReceipt) (s t : State)
      → Extends (records s) (records t)
      → Holds a m x s
      → Holds a m x t
  Extends-Holds a m x s t h (r, e, p, q, f) =
      let (q', e', k) = h a.lease.dispatch r e in
      (q', e', k.lease ∙ p, k.semantics ∙ q, k.receipt x f)

  -- An answer from the ledger.
  begun-Holds :
      (w : World) (a : RemoteAdmission) (m : Ref) (x : RemoteDriverReceipt) (s : State)
      → (l.begin w a.lease.dispatch a.lease.lease m s).1 ≡ ok (Decision.completed x)
      → Holds a m x s
  begun-Holds w a m x s h =
      let (r, e) = l.answers w a.lease.dispatch a.lease.lease m s x h in
      let k = l.known w a.lease.dispatch a.lease.lease m s r e in
      let (p, q, f) = replay-completed r a.lease.lease m x (sym (ap (λ y. y.1) k) ∙ h) in
      (r, e, p, q, f)

  -- An answer that was just written.
  written-Holds :
      (w : World) (a : RemoteAdmission) (m : Ref) (x : RemoteDriverReceipt) (s : State)
      → Valid s
      → Recorded g l Secret s (run_of a)
      → (l.complete w a.lease.dispatch m x s).1 ≡ ok tt
      → Holds a m x (l.complete w a.lease.dispatch m x s).0
  unfolding run_of
  written-Holds w a m x s v (r, e, p) h =
      let (q, e', f, k) = l.completes w a.lease.dispatch m x s h in
      let (q', e'', keep) = l.complete_extends w a.lease.dispatch m x s v a.lease.dispatch r e in
      let same : q' ≡ q = ground (arith, e', e'') in
      (q, e', ground (arith, same, keep.lease, p), f, k)

  recorded_ok :
      (y x : RemoteDriverReceipt) (s : ExecutorState State) (z : State × Result Error (Unit {0}))
      → (recorded y s z).1 ≡ ok x
      → (y ≡ x) × (z.1 ≡ ok tt) × ((recorded y s z).0.ledger ≡ z.0)
  unfolding recorded
  recorded_ok y x s (t, err e) h = absurd (ground arith)
  recorded_ok y x s (t, ok tt) h = (ground arith, refl, refl)

  finish-recorded :
      (o : Outside World Secret) (a : RemoteAdmission) (m : Ref) (x : RemoteDriverReceipt)
      (outcome : RemoteInnerOutcome) (s : ExecutorState State)
      → (finish g l o a m s (ok outcome)).1 ≡ ok x
      → finish g l o a m s (ok outcome)
        ≡ recorded
            (receipt_from a outcome o.now)
            s
            (l.complete o.at_complete a.lease.dispatch m (receipt_from a outcome o.now) s.ledger)
  unfolding finish
  finish-recorded o a m x outcome s h = elim (Bool-cases (is_empty outcome.observations)) [
    | inl b ↦ absurd (ground (arith, b, h))
    | inr b ↦ elim (Result-cases (validate_receipt (receipt_from a outcome o.now))) [
      | inr (e, c) ↦ absurd (ground (arith, b, c, h))
      | inl (_, c) ↦ rw (b, c) refl
    ]
  ]

  finish-Holds :
      (o : Outside World Secret) (a : RemoteAdmission) (m : Ref) (x : RemoteDriverReceipt)
      (outcome : Result Error RemoteInnerOutcome) (s : ExecutorState State)
      → Valid s.ledger
      → Recorded g l Secret s.ledger (run_of a)
      → (finish g l o a m s outcome).1 ≡ ok x
      → Holds a m x (finish g l o a m s outcome).0.ledger
  unfolding finish
  finish-Holds o a m x (err e) s v k h = absurd (ground arith)
  finish-Holds o a m x (ok outcome) s v k h =
      let y : RemoteDriverReceipt = receipt_from a outcome o.now in
      let p = finish-recorded o a m x outcome s h in
      let (same, done, at) = recorded_ok y x s _ (sym (ap (λ z. z.1) p) ∙ h) in
      subst (λ z. Holds a m z (finish g l o a m s (ok outcome)).0.ledger) same
        (subst (Holds a m y) (sym (ap (λ z. z.0.ledger) p ∙ at))
          (written-Holds o.at_complete a m y s.ledger v k done))

  -- What `execute` comes to, after `prepare`.
  after_begin :
      (o : Outside World Secret) (a : RemoteAdmission) (secret : Option Secret) (m : Ref)
      (s : ExecutorState State)
      → prepare g l o a ≡ ok (secret, m)
      → execute g l o a s
        ≡ continued g l o a (
            decided g l a secret m s (l.begin o.at_begin a.lease.dispatch a.lease.lease m s.ledger))
  unfolding execute start
  after_begin o a secret m s h = rw h refl

  ok_prepared :
      (o : Outside World Secret) (a : RemoteAdmission) (x : RemoteDriverReceipt)
      (s : ExecutorState State)
      → (execute g l o a s).1 ≡ ok x
      → (secret : Option Secret) × (m : Ref) × (prepare g l o a ≡ ok (secret, m))
  unfolding execute start
  ok_prepared o a x s h = elim (Result-cases (prepare g l o a)) [
    | inl ((secret, m), e) ↦ (secret, m, e)
    | inr (y, e) ↦ absurd (ground (arith, e, h))
  ]

  -- `execute` alone is a sequence of steps.
  continued-Reach :
      (o : Outside World Secret) (a : RemoteAdmission) (secret : Option Secret) (m : Ref)
      (s : ExecutorState State) (x : State × Result Error Decision)
      → Reach g l Secret s (decided g l a secret m s x).0
      → Reach g l Secret s (continued g l o a (decided g l a secret m s x)).0
  unfolding continued decided
  continued-Reach o a secret m s (t, err e) r = r
  continued-Reach o a secret m s (t, ok Decision.pending) r = r
  continued-Reach o a secret m s (t, ok (completed receipt)) r = r
  continued-Reach o a secret m s (t, ok new) r =
      next (next r (drives o a secret _ (inl refl))) (finishes o a m _ _)

  -- A call of `execute` is a sequence of the steps that calls interleave.
  pub execute-Reach :
      (o : Outside World Secret) (a : RemoteAdmission) (s : ExecutorState State)
      → Reach g l Secret s (execute g l o a s).0
  unfolding execute
  execute-Reach o a s = split (start-StartOutcome g l Secret o a s)
    where
      first : Reach g l Secret s (start g l o a s).0
      first = next here (starts o a s)

      split : StartOutcome g l Secret o a s → Reach g l Secret s (execute g l o a s).0
      split (halted e p q) =
          subst (λ x. Reach g l Secret s x.0) (sym (ap (continued g l o a) q)) here
      split (begun secret m p q) =
          subst (λ x. Reach g l Secret s x.0) (sym (ap (continued g l o a) q))
            (continued-Reach o a secret m s _ (subst (λ x. Reach g l Secret s x.0) q first))

  -- An answer of `execute` is on record.
  continued-Holds :
      (o : Outside World Secret) (a : RemoteAdmission) (secret : Option Secret) (m : Ref)
      (x : RemoteDriverReceipt) (s : ExecutorState State) (z : State × Result Error Decision)
      → Inv g l Secret (decided g l a secret m s z).0
      → l.begin o.at_begin a.lease.dispatch a.lease.lease m s.ledger ≡ z
      → ((y : RemoteDriverReceipt) → z.1 ≡ ok (Decision.completed y) → Holds a m y s.ledger)
      → Extends (records s.ledger) (records z.0)
      → (continued g l o a (decided g l a secret m s z)).1 ≡ ok x
      → Holds a m x (continued g l o a (decided g l a secret m s z)).0.ledger
  unfolding continued decided run ran
  continued-Holds o a secret m x s (t, err e) v p k w h = absurd (ground arith)
  continued-Holds o a secret m x s (t, ok Decision.pending) v p k w h = absurd (ground arith)
  continued-Holds o a secret m x s (t, ok (completed y)) v p k w h =
      Extends-Holds a m x s.ledger t w (subst (λ i. Holds a m i s.ledger) (ground arith) (k y refl))
  continued-Holds o a secret m x s (t, ok new) v p k w h =
      finish-Holds o a m x _ _ v.valid (v.cleared (run_of a) (inl refl)) h

  execute-Holds :
      (o : Outside World Secret) (a : RemoteAdmission) (secret : Option Secret) (m : Ref)
      (x : RemoteDriverReceipt) (s : ExecutorState State)
      → Inv g l Secret s
      → prepare g l o a ≡ ok (secret, m)
      → (execute g l o a s).1 ≡ ok x
      → Holds a m x (execute g l o a s).0.ledger
  execute-Holds o a secret m x s v e h =
      let p = after_begin o a secret m s e in
      subst (λ y. Holds a m x y.0.ledger) (sym p)
        (continued-Holds o a secret m x s _
          (decided-Inv g l Secret o.at_begin a secret m s _ v refl) refl
          (λ y q. begun-Holds o.at_begin a m y s.ledger q)
          (l.begin_extends o.at_begin a.lease.dispatch a.lease.lease m s.ledger v.valid)
          (sym (ap (λ y. y.1) p) ∙ h))

  prepare_semantics :
      (o : Outside World Secret) (a : RemoteAdmission) (secret : Option Secret) (m : Ref)
      → prepare g l o a ≡ ok (secret, m)
      → g.semantics a.plan a.lease ≡ ok m
  unfolding prepare
  prepare_semantics o a secret m h = ground arith

  from_record :
      (o : Outside World Secret) (a : RemoteAdmission) (secret : Option Secret) (m : Ref)
      (x : RemoteDriverReceipt) (s : ExecutorState State)
      → prepare g l o a ≡ ok (secret, m)
      → Holds a m x s.ledger
      → execute g l o a s ≡ (s, ok x)
  unfolding continued decided
  from_record o a secret m x s e (r, f, p, q, k) =
      let known = l.known o.at_begin a.lease.dispatch a.lease.lease m s.ledger r f in
      let same = replay_answers r a.lease.lease m x p q k in
      after_begin o a secret m s e ∙ rw (known, same) refl

  -- From a state that keeps the invariant: after `execute` returned a receipt for an admission, every
  -- later `execute` of the same admission that gets past the validation, the credential and the digest
  -- returns the same receipt and changes nothing, so the driver is not run, whatever calls and
  -- restarts come between.
  pub execute_replays :
      (o o' : Outside World Secret) (a : RemoteAdmission) (x : RemoteDriverReceipt)
      (s t : ExecutorState State) (secret : Option Secret) (m : Ref)
      → Inv g l Secret s
      → (execute g l o a s).1 ≡ ok x
      → Reach g l Secret (execute g l o a s).0 t
      → prepare g l o' a ≡ ok (secret, m)
      → execute g l o' a t ≡ (t, ok x)
  execute_replays o o' a x s t secret m v h r e =
      let (secret', m', e') = ok_prepared o a x s h in
      let same : m' ≡ m =
        ground (arith, prepare_semantics o a secret' m' e', prepare_semantics o' a secret m e) in
      let stored = execute-Holds o a secret' m' x s v e' h in
      let w = Reach-Inv g l Secret (execute-Reach o a s) v in
      from_record o' a secret m x t e (
        subst (λ i. Holds a i x t.ledger) same
          (Extends-Holds a m' x (execute g l o a s).0.ledger t.ledger (Reach-Extends r w) stored))

  none-Recorded :
      (lease : Ref) (ledger : State) (q : Run)
      → any (λ r. r.lease == lease) (values (records ledger)) ≡ false
      → Recorded g l Secret ledger q
      → q.lease ≢ lease
  none-Recorded lease ledger q h (r, e, p) f =
      let absent =
        any_none (λ r. r.lease == lease) (values (records ledger)) r h
          (lookup-values q.dispatch r (records ledger) e) in
      ground (arith, absent, p, f)

  probe_absent :
      (lease : Ref) (rs : Records)
      → (probe lease rs).outcome ≡ RemoteProbeOutcome.not_dispatched
      → any (λ r. r.lease == lease) (values rs) ≡ false
  unfolding probe receipt_for_lease pending receipt_of is_pending
  probe_absent lease rs h = find_absent lease (values rs) (ground arith) (ground arith)

  -- From an executor that has just opened a valid ledger, whatever its calls did: when `probe`
  -- answers that a lease was not dispatched, the driver was not run for it, and no call is cleared to
  -- run it.
  pub probe-not_dispatched :
      (t : State) (s : ExecutorState State) (lease : Ref)
      → Valid t
      → Reach g l Secret (opened g l Secret t) s
      → (probe lease (records s.ledger)).outcome ≡ RemoteProbeOutcome.not_dispatched
      → (q : Run) → Member q s.runs ⊎ Member q s.cleared
      → q.lease ≢ lease
  probe-not_dispatched t s lease v r h q m =
      let i = Reach-Inv g l Secret r (opened-Inv g l Secret t v) in
      elim m [
        | inl n ↦
            none-Recorded lease s.ledger q (probe_absent lease (records s.ledger) h) (i.runs q n)
        | inr n ↦
            none-Recorded lease s.ledger q (probe_absent lease (records s.ledger) h) (i.cleared q n)
      ]
