-- ===== src/Execution/Remote/Executor/History.antt =====
-- The guarded executor under any interleaving of its calls, and across restarts.
use forme_agent.Base.{
  ℕ, ◌+◌, ◌≤◌, List, [], ◌∷◌, some, ◌≡◌, ◌≢◌, ◌⊎◌, ite, Option, ◌∙◌, inl, inr, refl, sym, subst, ap,
  ◌==◌, string_eq, if◌then◌else◌, Result, ok, err, Result-cases, arith, Bool-cases,
}
use forme_agent.Base.Map.{lookup, string_ord}
use forme_agent.Base.Members.{Member}
use forme_agent.Protocol.Kinds.{Ref}
use forme_agent.Protocol.Remote.{RemoteAdmission}
use forme_agent.Execution.Ledger.{
  LedgerRecord, RemoteDriverReceipt, Decision, Error, fresh_record, is_empty, validate_receipt,
  completed, new,
}
use forme_agent.Execution.Ledger.Replay.{Extends, replay_not_new}
use forme_agent.Execution.Remote.{Digests}
use forme_agent.Execution.Remote.Ledgers.{ReplayLedger}
use forme_agent.Execution.Remote.Executor.{
  Outside, Run, run_of, run_discrete, drop_run, ExecutorState, RemoteInnerOutcome, prepare, decided,
  start, run, finish, recorded, receipt_from,
}

-- How many of the runs are of the dispatch.
unfoldable pub dispatches : Ref → List Run → ℕ
dispatches d [] = 0
dispatches d (q ∷ qs) = (if q.dispatch == d then 1 else 0) + dispatches d qs

dispatches_none :
    (d : Ref) (qs : List Run) → ((q : Run) → Member q qs → q.dispatch ≢ d) → dispatches d qs ≡ 0
unfolding dispatches
dispatches_none d [] h = refl
dispatches_none d (q ∷ qs) h =
    ground (arith, h q (inl refl), dispatches_none d qs (λ p m. h p (inr m)))

dispatches-drop :
    (d : Ref) (r : Run) (qs : List Run)
    → Member r qs
    → dispatches d (drop_run r qs) + (if r.dispatch == d then 1 else 0) ≡ dispatches d qs
unfolding dispatches drop_run
dispatches-drop d r [] m = elim m [ ]
dispatches-drop d r (q ∷ qs) (inl e) = ground (arith, ap (λ p. p.dispatch) e)
dispatches-drop d r (q ∷ qs) (inr m) = elim (run_discrete q r) [
  | yes e ↦ ground (arith, ap (λ p. p.dispatch) e)
  | no e ↦ ground (arith, dispatches-drop d r qs m)
]

drop-Member : (r p : Run) (qs : List Run) → Member p (drop_run r qs) → Member p qs
unfolding drop_run
drop-Member r p [] m = elim m [ ]
drop-Member r p (q ∷ qs) m =
    elim (run_discrete q r) as (λ x. Member p (ite x qs (q ∷ drop_run r qs)) → Member p (q ∷ qs)) [
      | yes e ↦ λ n. inr n
      | no e ↦ λ n. elim n [ inl f ↦ inl f | inr k ↦ inr (drop-Member r p qs k) ]
    ]
      m

module _ (g : Digests) (l : ReplayLedger) (Secret : Type 0) where
  open l use {World, State, Valid, Restarts, records}

  -- One of the calls of `execute` goes on, up to `begin`, by the driver, or after it; or the process
  -- stops and a new one opens the ledger.
  pub data Step : ExecutorState State → ExecutorState State → Type 0 where
    starts :
        (o : Outside World Secret) (a : RemoteAdmission) (s : ExecutorState State)
        → Step s (start g l o a s).0
    drives :
        (o : Outside World Secret) (a : RemoteAdmission) (secret : Option Secret)
        (s : ExecutorState State)
        → Member (run_of a) s.cleared
        → Step s (run g l o a secret s).0
    finishes :
        (o : Outside World Secret) (a : RemoteAdmission) (semantics : Ref)
        (outcome : Result Error RemoteInnerOutcome) (s : ExecutorState State)
        → Step s (finish g l o a semantics s outcome).0
    stops :
        (t : State) (s : ExecutorState State)
        → Restarts s.ledger t
        → Step s (record s { ledger = t; cleared = [] })

  pub data Reach (s : ExecutorState State) : ExecutorState State → Type 0 where
    here : Reach s s
    next : {t u : ExecutorState State} → Reach s t → Step t u → Reach s u

  -- A run that is cleared or done has its record, with its lease.
  abbrev pub Recorded : State → Run → Type 0
  Recorded ledger q =
      (r : LedgerRecord) × (lookup q.dispatch (records ledger) ≡ some r) × (r.lease ≡ q.lease)

  pub record Inv (s : ExecutorState State) : Type 0 where
    pub valid : Valid s.ledger
    pub once : (d : Ref) → dispatches d s.cleared + dispatches d s.runs ≤ 1
    pub cleared : (q : Run) → Member q s.cleared → Recorded s.ledger q
    pub runs : (q : Run) → Member q s.runs → Recorded s.ledger q

  Extends-Recorded :
      (s t : State) (q : Run) → Extends (records s) (records t) → Recorded s q → Recorded t q
  Extends-Recorded s t q x (r, e, f) = let (p, h, k) = x q.dispatch r e in (p, h, k.lease ∙ f)

  -- A ledger that has lost nothing keeps the invariant.
  ledger-Inv :
      (s : ExecutorState State) (t : State)
      → Inv s
      → Valid t
      → Extends (records s.ledger) (records t)
      → Inv (record s { ledger = t })
  ledger-Inv s t v w x = record {
    valid = w;
    once = v.once;
    cleared = λ q m. Extends-Recorded s.ledger t q x (v.cleared q m);
    runs = λ q m. Extends-Recorded s.ledger t q x (v.runs q m);
  }

  -- The answer `New` clears a run whose dispatch had no record.
  new-Inv :
      (w : World) (a : RemoteAdmission) (semantics : Ref) (s : ExecutorState State)
      → Inv s
      → (l.begin w a.lease.dispatch a.lease.lease semantics s.ledger).1 ≡ ok Decision.new
      → Inv (record s {
        ledger = (l.begin w a.lease.dispatch a.lease.lease semantics s.ledger).0;
        cleared = run_of a ∷ s.cleared;
      })
  unfolding dispatches run_of fresh_record
  new-Inv w a semantics s v h = record {
    valid = l.begin-Valid w d a.lease.lease semantics s.ledger v.valid;
    once = λ i. counted i;
    cleared = λ q m. elim m [
      | inl e ↦ subst (Recorded after) e (fresh_record d a.lease.lease semantics, stored, refl)
      | inr n ↦ Extends-Recorded s.ledger after q extended (v.cleared q n)
    ];
    runs = λ q m. Extends-Recorded s.ledger after q extended (v.runs q m);
  }
    where
      d : Ref
      d = a.lease.dispatch

      after : State
      after = (l.begin w a.lease.dispatch a.lease.lease semantics s.ledger).0

      stored : lookup d (records after) ≡ some (fresh_record d a.lease.lease semantics)
      stored = l.begins w a.lease.dispatch a.lease.lease semantics s.ledger h

      extended : Extends (records s.ledger) (records after)
      extended = l.begin_extends w a.lease.dispatch a.lease.lease semantics s.ledger v.valid

      absent : (q : Run) → Recorded s.ledger q → q.dispatch ≢ a.lease.dispatch
      absent q (r, e, f) p =
          let known =
            l.known w a.lease.dispatch a.lease.lease semantics s.ledger r
              (subst (λ i. lookup i (records s.ledger) ≡ some r) p e) in
          replay_not_new r a.lease.lease semantics (ground (arith, known, h))

      counted : (i : Ref) → dispatches i (run_of a ∷ s.cleared) + dispatches i s.runs ≤ 1
      counted i = ground (
        arith,
        v.once i,
        dispatches_none a.lease.dispatch s.cleared (λ q m. absent q (v.cleared q m)),
        dispatches_none a.lease.dispatch s.runs (λ q m. absent q (v.runs q m)),
      )

  kept :
      (w : World) (a : RemoteAdmission) (semantics : Ref) (s : ExecutorState State) (t : State)
      → Inv s
      → (l.begin w a.lease.dispatch a.lease.lease semantics s.ledger).0 ≡ t
      → Inv (record s { ledger = t })
  kept w a semantics s t v p =
      subst (λ y. Inv (record s { ledger = y })) p
        (ledger-Inv s _ v
          (l.begin-Valid w a.lease.dispatch a.lease.lease semantics s.ledger v.valid)
          (l.begin_extends w a.lease.dispatch a.lease.lease semantics s.ledger v.valid))

  pub decided-Inv :
      (w : World) (a : RemoteAdmission) (secret : Option Secret) (semantics : Ref)
      (s : ExecutorState State) (x : State × Result Error Decision)
      → Inv s
      → l.begin w a.lease.dispatch a.lease.lease semantics s.ledger ≡ x
      → Inv (decided g l a secret semantics s x).0
  unfolding decided
  decided-Inv w a secret semantics s (t, ok new) v p =
      subst (λ y. Inv (record s { ledger = y; cleared = run_of a ∷ s.cleared })) (ap (λ x. x.0) p)
        (new-Inv w a semantics s v (ap (λ x. x.1) p))
  decided-Inv w a secret semantics s (t, ok Decision.pending) v p =
      kept w a semantics s t v (ap (λ x. x.0) p)
  decided-Inv w a secret semantics s (t, ok (completed receipt)) v p =
      kept w a semantics s t v (ap (λ x. x.0) p)
  decided-Inv w a secret semantics s (t, err e) v p = kept w a semantics s t v (ap (λ x. x.0) p)

  pub data StartOutcome (o : Outside World Secret) (a : RemoteAdmission) (s : ExecutorState State)
      : Type 0 where
    halted :
        (e : Error) → prepare g l o a ≡ err e → start g l o a s ≡ (s, err e) → StartOutcome o a s
    begun :
        (secret : Option Secret) (semantics : Ref)
        → prepare g l o a ≡ ok (secret, semantics)
        → start g l o a s
          ≡ decided g l a secret semantics s
              (l.begin o.at_begin a.lease.dispatch a.lease.lease semantics s.ledger)
        → StartOutcome o a s

  pub start-StartOutcome :
      (o : Outside World Secret) (a : RemoteAdmission) (s : ExecutorState State)
      → StartOutcome o a s
  unfolding start
  start-StartOutcome o a s = elim (Result-cases (prepare g l o a)) [
    | inl ((secret, semantics), e) ↦ begun secret semantics e (rw e refl)
    | inr (x, e) ↦ halted x e (rw e refl)
  ]

  start-Inv :
      (o : Outside World Secret) (a : RemoteAdmission) (s : ExecutorState State)
      → Inv s
      → Inv (start g l o a s).0
  start-Inv o a s v = split (start-StartOutcome o a s)
    where
      split : StartOutcome o a s → Inv (start g l o a s).0
      split (halted e p q) = subst (λ x. Inv x.0) (sym q) v
      split (begun secret semantics p q) =
          subst (λ x. Inv x.0) (sym q) (decided-Inv o.at_begin a secret semantics s _ v refl)

  run-Inv :
      (o : Outside World Secret) (a : RemoteAdmission) (secret : Option Secret)
      (s : ExecutorState State)
      → Inv s
      → Member (run_of a) s.cleared
      → Inv (run g l o a secret s).0
  unfolding run dispatches
  run-Inv o a secret s v m = record {
    valid = v.valid;
    once = λ d. ground (arith, v.once d, dispatches-drop d (run_of a) s.cleared m);
    cleared = λ q n. v.cleared q (drop-Member (run_of a) q s.cleared n);
    runs = λ q n. elim n [
      | inl e ↦ subst (Recorded s.ledger) e (v.cleared (run_of a) m)
      | inr k ↦ v.runs q k
    ];
  }

  writes :
      (x : RemoteDriverReceipt) (s : ExecutorState State) (y : State × Result Error (Unit {0}))
      → (recorded x s y).0 ≡ record s { ledger = y.0 }
  unfolding recorded
  writes x s (t, err e) = refl
  writes x s (t, ok _) = refl

  -- After the driver: the ledger stays, or it is the one that `complete` left.
  pub finish_ledger :
      (o : Outside World Secret) (a : RemoteAdmission) (semantics : Ref)
      (outcome : Result Error RemoteInnerOutcome) (s : ExecutorState State)
      → ((finish g l o a semantics s outcome).0 ≡ s)
        ⊎ ((x : RemoteDriverReceipt) × ((finish g l o a semantics s outcome).0 ≡ record s {
          ledger = (l.complete o.at_complete a.lease.dispatch semantics x s.ledger).0;
        }))
  unfolding finish recorded
  finish_ledger o a semantics (err e) s = inl refl
  finish_ledger o a semantics (ok outcome) s = elim (Bool-cases (is_empty outcome.observations)) [
    | inl b ↦ inl (rw b refl)
    | inr b ↦ elim (Result-cases (validate_receipt (receipt_from a outcome o.now))) [
      | inr (e, h) ↦ inl (rw (b, h) refl)
      | inl (_, h) ↦
          inr (receipt_from a outcome o.now, rw (b, h) (writes (receipt_from a outcome o.now) s _))
    ]
  ]

  finish-Inv :
      (o : Outside World Secret) (a : RemoteAdmission) (semantics : Ref)
      (outcome : Result Error RemoteInnerOutcome) (s : ExecutorState State)
      → Inv s
      → Inv (finish g l o a semantics s outcome).0
  finish-Inv o a semantics outcome s v = elim (finish_ledger o a semantics outcome s) [
    | inl e ↦ subst Inv (sym e) v
    | inr (x, e) ↦ subst Inv (sym e) (
        ledger-Inv s _ v
          (l.complete-Valid o.at_complete a.lease.dispatch semantics x s.ledger v.valid)
          (l.complete_extends o.at_complete a.lease.dispatch semantics x s.ledger v.valid))
  ]

  Step-Inv : {s t : ExecutorState State} → Step s t → Inv s → Inv t
  unfolding dispatches
  Step-Inv (starts o a s) v = start-Inv o a s v
  Step-Inv (drives o a secret s m) v = run-Inv o a secret s v m
  Step-Inv (finishes o a semantics outcome s) v = finish-Inv o a semantics outcome s v
  Step-Inv (stops t s h) v = record {
    valid = l.restarts-Valid s.ledger t h v.valid;
    once = λ d. ground (arith, v.once d);
    cleared = λ q m. elim m [ ];
    runs =
        λ q m. Extends-Recorded s.ledger t q (l.restarts_extends s.ledger t h v.valid) (v.runs q m);
  }

  pub Reach-Inv : {s t : ExecutorState State} → Reach s t → Inv s → Inv t
  Reach-Inv here v = v
  Reach-Inv (next r st) v = Step-Inv st (Reach-Inv r v)

  -- An executor that has just opened its ledger.
  unfoldable pub opened : State → ExecutorState State
  opened t = record { ledger = t; cleared = []; runs = [] }

  pub opened-Inv : (t : State) → Valid t → Inv (opened t)
  unfolding opened dispatches
  opened-Inv t v = record {
    valid = v;
    once = λ d. omega arith;
    cleared = λ q m. elim m [ ];
    runs = λ q m. elim m [ ];
  }

  -- From an executor that has just opened a valid ledger: however its calls interleave, stop half-way
  -- or restart, the driver is run at most once for each dispatch.
  pub driver_once :
      (t : State) (s : ExecutorState State) (d : Ref)
      → Valid t
      → Reach (opened t) s
      → dispatches d s.runs ≤ 1
  driver_once t s d v r = let i = Reach-Inv r (opened-Inv t v) in omega (arith, i.once d)
