-- ===== src/Approval/History.antt =====
-- The broker over any sequence of calls, at any times.
use forme_agent.Protocol.Actions.{ActionIntent}
use forme_agent.Base.{
  ℕ, ◌+◌, ◌≤◌, Bool, true, false, List, [], ◌∷◌, some, ◌≡◌, refl, inl, inr, Result, ok, err, arith,
  subst, sym, ◌==◌, string_eq, if◌then◌else◌, ◌≢◌,
}
use forme_agent.Base.Map.{lookup, string_ord, lookup-insert}
use forme_agent.Base.Text.{string_discrete}
use forme_agent.Base.Members.{Member}
use forme_agent.Protocol.Kinds.{Timestamp, Ref}
use forme_agent.Approval.{
  ApprovalRequest, ApprovalGrant, ApprovalAuthorization, ActiveGrant, BrokerState, one_shot,
  GrantScope, authorize, request, resolve, resolved, enqueued, activate, new, take_events,
}
use forme_agent.Approval.Guards.{Usable}
use forme_agent.Approval.Authorize.{
  Outcome, missing, refused, allowed, authorize-Outcome, after_use,
}
use forme_agent.Approval.Resolution.{
  RequestOutcome, rejected, queued, request-RequestOutcome, ResolveOutcome, unknown, invalid,
  settled, resolve-ResolveOutcome, request_iff,
}
use forme_agent.Approval.Invariant.{
  Inv, new-Inv, authorize-Inv, request-Inv, resolve-Inv, take_events-Inv,
}

pub data Call : Type 0 where
  authorizes : Timestamp → ApprovalAuthorization → Call
  requests : Timestamp → ApprovalRequest → Call
  resolves : Timestamp → Ref → ApprovalGrant → Call
  takes_events : Call

unfoldable pub step : Call → BrokerState → BrokerState
step (authorizes now a) s = (authorize now a s).0
step (requests now r) s = (request now r s).0
step (resolves now t g) s = (resolve now t g s).0
step takes_events s = (take_events s).0

unfoldable pub run : List Call → BrokerState → BrokerState
run [] s = s
run (c ∷ cs) s = run cs (step c s)

succeeds : {A E : Type 0} → Result E A → ℕ
succeeds (ok a) = 1
succeeds (err e) = 0

-- 1 if the call authorizes an action under `id`.
unfoldable pub allows : Ref → Call → BrokerState → ℕ
unfolding succeeds
allows id (authorizes now a) s = if a.approval_id == id then succeeds (authorize now a s).1 else 0
allows id (requests now r) s = 0
allows id (resolves now t g) s = 0
allows id takes_events s = 0

unfoldable pub allowed_count : Ref → List Call → BrokerState → ℕ
allowed_count id [] s = 0
allowed_count id (c ∷ cs) s = allows id c s + allowed_count id cs (step c s)

pub step-Inv : (c : Call) (s : BrokerState) → Inv s → Inv (step c s)
unfolding step
step-Inv (authorizes now a) s v = authorize-Inv now a s v
step-Inv (requests now r) s v = request-Inv now r s v
step-Inv (resolves now t g) s v = resolve-Inv now t g s v
step-Inv takes_events s v = take_events-Inv s v

run-Inv : (cs : List Call) (s : BrokerState) → Inv s → Inv (run cs s)
unfolding run
run-Inv [] s v = v
run-Inv (c ∷ cs) s v = run-Inv cs (step c s) (step-Inv c s v)

-- After any calls on a new broker: pending and granted ids are known and are disjoint, each grant on
-- file was granted for the request under its id, with the same plan digest and versions, an expiry
-- within the request's and a spent nonce, and no nonce serves two ids.
pub run-new-Inv : (cs : List Call) → Inv (run cs new)
run-new-Inv cs = run-Inv cs new new-Inv

-- What one call does to a grant on file: nothing, or one permitted use.
data Fate (id : Ref) (c : Call) (s : BrokerState) (g : ActiveGrant) : Type 0 where
  kept : allows id c s ≡ 0 → lookup id (step c s).active ≡ some g → Fate id c s g
  spent :
      allows id c s ≡ 1
      → (g.grant.granted_scope ≡ one_shot → g.consumed ≡ false)
      → lookup id (step c s).active ≡ some (after_use g)
      → Fate id c s g

Usable-one_shot :
    (g : GrantScope) (c : Bool) (i : ActionIntent) → Usable g c i → g ≡ one_shot → c ≡ false
Usable-one_shot one_shot c i u e = u
Usable-one_shot GrantScope.session c i u e = cc
Usable-one_shot (GrantScope.param_pattern p) c i u e = cc

authorize-Fate :
    (now : Timestamp) (a : ApprovalAuthorization) (id : Ref) (s : BrokerState) (g : ActiveGrant)
    → lookup id s.active ≡ some g
    → Fate id (authorizes now a) s g
unfolding step allows
authorize-Fate now a id s g found = split (authorize-Outcome now a s)
  where
    split : Outcome now a s → Fate id (authorizes now a) s g
    split (missing _ e) = kept (ground (arith, e)) (ground (arith, e))
    split (refused _ _ _ _ e) = kept (ground (arith, e)) (ground (arith, e))
    split (allowed active f p e) = elim (string_discrete a.approval_id id) [
      | yes same ↦
          let on_file : active ≡ g = ground (arith, same, f, found) in
          spent (ground (arith, e, same))
            (λ one.
              Usable-one_shot g.grant.granted_scope g.consumed a.intent
                (subst (λ x. Usable x.grant.granted_scope x.consumed a.intent) on_file p.usable)
                one)
            (ground
              (arith, e, same, on_file, lookup-insert id a.approval_id (after_use active) s.active))
      | no other ↦
          kept (ground (arith, e))
            (ground (arith, e, lookup-insert id a.approval_id (after_use active) s.active))
    ]

resolve-Fate :
    (now : Timestamp) (t : Ref) (h : ApprovalGrant) (id : Ref) (s : BrokerState) (g : ActiveGrant)
    → Inv s
    → lookup id s.active ≡ some g
    → lookup id (resolve now t h s).0.active ≡ some g
unfolding resolved activate
resolve-Fate now t h id s g v found = split (resolve-ResolveOutcome now t h s)
  where
    split : ResolveOutcome now t h s → lookup id (resolve now t h s).0.active ≡ some g
    split (unknown _ e) = rw e found
    split (invalid _ _ _ _ e) = rw e found
    split (settled r f fits e) = rw e (
        ground (
          arith,
          fits.ticket_matches,
          fits.id_matches,
          v.active_settled id g found,
          lookup-insert id h.approval_id (record { request = r; grant = h; consumed = false })
              s.active,
        ))

request-Fate :
    (now : Timestamp) (r : ApprovalRequest) (id : Ref) (s : BrokerState) (g : ActiveGrant)
    → lookup id s.active ≡ some g
    → lookup id (request now r s).0.active ≡ some g
unfolding enqueued
request-Fate now r id s g found = split (request-RequestOutcome now r s)
  where
    split : RequestOutcome now r s → lookup id (request now r s).0.active ≡ some g
    split (rejected _ _ e) = rw e found
    split (queued _ e) = rw e found

step-Fate :
    (c : Call) (id : Ref) (s : BrokerState) (g : ActiveGrant)
    → Inv s
    → lookup id s.active ≡ some g
    → Fate id c s g
unfolding step allows take_events
step-Fate (authorizes now a) id s g v found = authorize-Fate now a id s g found
step-Fate (requests now r) id s g v found = kept refl (request-Fate now r id s g found)
step-Fate (resolves now t h) id s g v found = kept refl (resolve-Fate now t h id s g v found)
step-Fate takes_events id s g v found = kept refl found

-- How many uses a one-shot grant has left.
abbrev uses_left : Bool → ℕ
uses_left true = 0
uses_left false = 1

allowed_count-le :
    (cs : List Call) (id : Ref) (s : BrokerState) (g : ActiveGrant)
    → Inv s
    → lookup id s.active ≡ some g
    → g.grant.granted_scope ≡ one_shot
    → allowed_count id cs s ≤ uses_left g.consumed
unfolding allowed_count
allowed_count-le [] id s g v found one = omega arith
allowed_count-le (c ∷ cs) id s g v found one = elim (step-Fate c id s g v found) [
  | kept zero_now f ↦
      omega (arith, zero_now, allowed_count-le cs id (step c s) g (step-Inv c s v) f one)
  | spent once unused f ↦ ground (
    arith,
    once,
    unused one,
    allowed_count-le cs id (step c s) (after_use g) (step-Inv c s v) f one,
  )
]

-- If any calls on a new broker leave a one-shot grant on file, later calls of any kind and at any
-- times authorize at most one action under its id, and none if it is consumed.
pub one_shot_once :
    (cs ds : List Call) (id : Ref) (g : ActiveGrant)
    → lookup id (run cs new).active ≡ some g
    → g.grant.granted_scope ≡ one_shot
    → allowed_count id ds (run cs new) ≤ uses_left g.consumed
one_shot_once cs ds id g found one =
    allowed_count-le ds id (run cs new) g (run-new-Inv cs) found one

-- An id that was used once stays used.
step_known :
    (c : Call) (id : Ref) (s : BrokerState) → Member id s.known_ids → Member id (step c s).known_ids
unfolding step enqueued resolved take_events
step_known (authorizes now a) id s m = split (authorize-Outcome now a s)
  where
    split : Outcome now a s → Member id (authorize now a s).0.known_ids
    split (missing _ e) = rw e m
    split (refused _ _ _ _ e) = rw e m
    split (allowed _ _ _ e) = rw e m
step_known (requests now r) id s m = split (request-RequestOutcome now r s)
  where
    split : RequestOutcome now r s → Member id (request now r s).0.known_ids
    split (rejected _ _ e) = rw e m
    split (queued _ e) = rw e (inr m)
step_known (resolves now t g) id s m = split (resolve-ResolveOutcome now t g s)
  where
    split : ResolveOutcome now t g s → Member id (resolve now t g s).0.known_ids
    split (unknown _ e) = rw e m
    split (invalid _ _ _ _ e) = rw e m
    split (settled _ _ _ e) = rw e m
step_known takes_events id s m = m

run_known :
    (cs : List Call) (id : Ref) (s : BrokerState)
    → Member id s.known_ids
    → Member id (run cs s).known_ids
unfolding run
run_known [] id s m = m
run_known (c ∷ cs) id s m = run_known cs id (step c s) (step_known c id s m)

-- After a request was queued, no later request under the same id is, in any history.
pub request_id_once :
    (s : BrokerState) (now later : Timestamp) (r q : ApprovalRequest) (cs : List Call)
    → (request now r s).1 ≡ ok r.approval_id
    → q.approval_id ≡ r.approval_id
    → (request later q (run cs (request now r s).0)).1 ≢ ok q.approval_id
unfolding enqueued
request_id_once s now later r q cs first same second =
    ((request_iff later q (run cs (request now r s).0)).0 second).id_fresh (
      subst (λ i. Member i (run cs (request now r s).0).known_ids) (sym same)
        (run_known cs r.approval_id (request now r s).0 (known (request-RequestOutcome now r s))))
  where
    known : RequestOutcome now r s → Member r.approval_id (request now r s).0.known_ids
    known (rejected _ _ e) = cc
    known (queued _ e) = rw e (inl refl)
