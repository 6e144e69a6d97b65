-- ===== src/Approval/Invariant.antt =====
-- What holds of the broker's state between two calls, and that every call keeps it.
use forme_agent.Approval.Resolution.{
  RequestOutcome, rejected, queued, request-RequestOutcome, Requests, ResolveOutcome, unknown,
  invalid, settled, resolve-ResolveOutcome,
}
use forme_agent.Base.{
  false, List, ◌∷◌, none, some, ◌≡◌, refl, ◌⊎◌, inl, inr, arith, string_eq, subst, sym, ◌≢◌, ◌∙◌,
}
use forme_agent.Base.Int.{◌≤ℤ◌}
use forme_agent.Base.Map.{lookup, insert, remove, string_ord, lookup-insert, lookup-remove}
use forme_agent.Base.Text.{string_discrete}
use forme_agent.Base.Members.{Member}
use forme_agent.Protocol.Kinds.{Timestamp, Ref, ApprovalOutcome}
use forme_agent.Approval.{
  ApprovalRequest, ApprovalGrant, ApprovalAuthorization, ActiveGrant, BrokerState, authorize,
  request, resolve, resolved, new, take_events, activate, enqueued,
}
use forme_agent.Approval.Guards.{Resolves}
use forme_agent.Approval.Authorize.{
  Outcome, missing, refused, allowed, authorize-Outcome, after_use,
}

-- A grant on file under `k` was issued for the request with that id, for the same plan and versions.
pub record IsSound (k : Ref) (nonces : List Ref) (active : ActiveGrant) : Type 0 where
  pub grant_id : active.grant.approval_id ≡ k
  pub request_id : active.request.approval_id ≡ k
  pub outcome : active.grant.outcome ≡ ApprovalOutcome.granted
  pub digest : active.grant.bound_plan_digest ≡ active.request.plan_digest
  pub policy : active.grant.policy_version ≡ active.request.policy_version
  pub tool : active.grant.tool_schema_version ≡ active.request.tool_schema_version
  pub within : active.grant.use_by ≤ℤ active.request.expires_at
  pub nonce_spent : Member active.grant.nonce nonces

-- The broker's invariant: ids on file are known, no id is both pending and granted, every grant on file
-- matches its request, and no nonce serves two grants.
pub record Inv (s : BrokerState) : Type 0 where
  pub pending_known :
      (k : Ref) (r : ApprovalRequest)
      → lookup k s.pending ≡ some r
      → Member k s.known_ids × (r.approval_id ≡ k)
  pub active_known : (k : Ref) (g : ActiveGrant) → lookup k s.active ≡ some g → Member k s.known_ids
  pub active_settled :
      (k : Ref) (g : ActiveGrant) → lookup k s.active ≡ some g → lookup k s.pending ≡ none
  pub active_sound : (k : Ref) (g : ActiveGrant) → lookup k s.active ≡ some g → IsSound k s.nonces g
  pub nonce_once :
      (j k : Ref) (g h : ActiveGrant)
      → lookup j s.active ≡ some g
      → lookup k s.active ≡ some h
      → g.grant.nonce ≡ h.grant.nonce
      → j ≡ k

pub new-Inv : Inv new
unfolding new lookup
new-Inv = record {
  pending_known = λ k r h. cc;
  active_known = λ k g h. cc;
  active_settled = λ k g h. cc;
  active_sound = λ k g h. cc;
  nonce_once = λ j k g h p q r. cc;
}

-- Marking the grant under `id` as used changes no other field of the state.
module _ (s : BrokerState) (id : Ref) (active : ActiveGrant) (v : Inv s)
    (found : lookup id s.active ≡ some active) where
  -- Whatever is on file afterwards was on file before, up to the mark.
  unmark :
      (k : Ref) (g : ActiveGrant)
      → lookup k (insert id (after_use active) s.active) ≡ some g
      → (h : ActiveGrant) × (lookup k s.active ≡ some h)
        × (h.grant ≡ g.grant)
        × (h.request ≡ g.request)
  unmark k g e = elim (string_discrete id k) [
    | yes p ↦ (
      active,
      subst (λ j. lookup j s.active ≡ some active) p found,
      ground (arith, lookup-insert k id (after_use active) s.active),
      ground (arith, lookup-insert k id (after_use active) s.active),
    )
    | no p ↦ (g, ground (arith, lookup-insert k id (after_use active) s.active), refl, refl)
  ]

  use-Inv : Inv (record s { active = insert id (after_use active) s.active })
  use-Inv = record {
    pending_known = v.pending_known;
    active_known = λ k g e. let (h, f, _, _) = unmark k g e in v.active_known k h f;
    active_settled = λ k g e. let (h, f, _, _) = unmark k g e in v.active_settled k h f;
    active_sound = λ k g e.
        let (h, f, p, q) = unmark k g e in
        let sound = v.active_sound k h f in ground (arith, sound);
    nonce_once = λ j k g h e f same.
        let (g', e', p, _) = unmark j g e in
        let (h', f', q, _) = unmark k h f in
        v.nonce_once j k g' h' e' f' (ground (arith, p, q, same));
  }

pub authorize-Inv :
    (now : Timestamp) (a : ApprovalAuthorization) (s : BrokerState)
    → Inv s
    → Inv (authorize now a s).0
authorize-Inv now a s v = keep (authorize-Outcome now a s)
  where
    keep : Outcome now a s → Inv (authorize now a s).0
    keep (missing _ e) = subst (λ r. Inv r.0) (sym e) v
    keep (refused _ _ _ _ e) = subst (λ r. Inv r.0) (sym e) v
    keep (allowed active f _ e) = subst (λ r. Inv r.0) (sym e) (use-Inv s a.approval_id active v f)

-- A request under an id that was never used.
module _ (s : BrokerState) (r : ApprovalRequest) (v : Inv s)
    (unknown : ¬ Member r.approval_id s.known_ids) where
  fresh : (k : Ref) → Member k s.known_ids → ¬ (r.approval_id ≡ k)
  fresh k m e = unknown (subst (λ j. Member j s.known_ids) (sym e) m)

  requested_pending :
      (k : Ref) (q : ApprovalRequest)
      → lookup k (insert r.approval_id r s.pending) ≡ some q
      → Member k (r.approval_id ∷ s.known_ids) × (q.approval_id ≡ k)
  requested_pending k q e = elim (string_discrete r.approval_id k) [
    | yes p ↦ (inl p, ground (arith, lookup-insert k r.approval_id r s.pending))
    | no p ↦
        let (m, same) =
          v.pending_known k q (ground (arith, lookup-insert k r.approval_id r s.pending)) in
        (inr m, same)
  ]

  requested_settled :
      (k : Ref) (g : ActiveGrant)
      → lookup k s.active ≡ some g
      → lookup k (insert r.approval_id r s.pending) ≡ none
  requested_settled k g e = ground (
    arith,
    fresh k (v.active_known k g e),
    v.active_settled k g e,
    lookup-insert k r.approval_id r s.pending,
  )

pub request-Inv :
    (now : Timestamp) (r : ApprovalRequest) (s : BrokerState) → Inv s → Inv (request now r s).0
request-Inv now r s v = keep (request-RequestOutcome now r s)
  where
    queue : Requests now r s → Inv (enqueued r s)
    queue q =
        unfold enqueued in
        record {
          pending_known = requested_pending s r v q.id_fresh;
          active_known = λ k g e. inr (v.active_known k g e);
          active_settled = requested_settled s r v q.id_fresh;
          active_sound = v.active_sound;
          nonce_once = v.nonce_once;
        }

    keep : RequestOutcome now r s → Inv (request now r s).0
    keep (rejected _ _ e) = subst (λ x. Inv x.0) (sym e) v
    keep (queued q e) = subst (λ x. Inv x.0) (sym e) (queue q)

-- A fitting grant `g` for the request `r` that is pending under `t`.
module _ (now : Timestamp) (t : Ref) (g : ApprovalGrant) (s : BrokerState) (r : ApprovalRequest)
    (v : Inv s) (found : lookup t s.pending ≡ some r) (fits : Resolves now r t g s.nonces) where
  issued : ActiveGrant
  issued = record { request = r; grant = g; consumed = false }

  -- Whatever is on file afterwards was on file before under another id, or is the new grant.
  activated :
      (k : Ref) (h : ActiveGrant)
      → lookup k (activate r g s.active) ≡ some h
      → ((t ≡ k) × (h ≡ issued) × (g.outcome ≡ ApprovalOutcome.granted))
        ⊎ (lookup k s.active ≡ some h)
  unfolding activate issued
  activated k h e =
      ground
        (arith, fits.ticket_matches, fits.id_matches, lookup-insert k g.approval_id issued s.active)

  resolved_pending :
      (k : Ref) (q : ApprovalRequest)
      → lookup k (remove t s.pending) ≡ some q
      → lookup k s.pending ≡ some q
  resolved_pending k q e = ground (arith, lookup-remove k t s.pending)

  settled_known :
      (k : Ref) (h : ActiveGrant) → lookup k (activate r g s.active) ≡ some h → Member k s.known_ids
  settled_known k h e = elim (activated k h e) [
    | inl (p, _, _) ↦ subst (λ j. Member j s.known_ids) p (v.pending_known t r found).0
    | inr old ↦ v.active_known k h old
  ]

  settled_gone :
      (k : Ref) (h : ActiveGrant)
      → lookup k (activate r g s.active) ≡ some h
      → lookup k (remove t s.pending) ≡ none
  settled_gone k h e = elim (activated k h e) [
    | inl (p, _, _) ↦ ground (arith, p, lookup-remove k t s.pending)
    | inr old ↦ ground (arith, v.active_settled k h old, lookup-remove k t s.pending)
  ]

  settled-IsSound :
      (k : Ref) (h : ActiveGrant)
      → lookup k (activate r g s.active) ≡ some h
      → IsSound k (g.nonce ∷ s.nonces) h
  unfolding issued
  settled-IsSound k h e = elim (activated k h e) [
    | inl (p, q, granted) ↦ ground (arith, p, q, granted, fits)
    | inr old ↦
        let sound = v.active_sound k h old in
        record {
          grant_id = sound.grant_id;
          request_id = sound.request_id;
          outcome = sound.outcome;
          digest = sound.digest;
          policy = sound.policy;
          tool = sound.tool;
          within = sound.within;
          nonce_spent = inr sound.nonce_spent;
        }
  ]

  -- An old grant does not carry the new nonce.
  old_nonce : (k : Ref) (h : ActiveGrant) → lookup k s.active ≡ some h → h.grant.nonce ≢ g.nonce
  old_nonce k h e p =
      fits.nonce_fresh (subst (λ n. Member n s.nonces) p (v.active_sound k h e).nonce_spent)

  settled_nonce :
      (j k : Ref) (x y : ActiveGrant)
      → lookup j (activate r g s.active) ≡ some x
      → lookup k (activate r g s.active) ≡ some y
      → x.grant.nonce ≡ y.grant.nonce
      → j ≡ k
  unfolding issued
  settled_nonce j k x y e f same = elim (activated j x e) [
    | inl (p, q, _) ↦ elim (activated k y f) [
      | inl (p', _, _) ↦ sym p ∙ p'
      | inr old ↦ absurd (old_nonce k y old (ground (arith, q, same)))
    ]
    | inr old ↦ elim (activated k y f) [
      | inl (p', q', _) ↦ absurd (old_nonce j x old (ground (arith, q', same)))
      | inr old' ↦ v.nonce_once j k x y old old' same
    ]
  ]

  resolved-Inv : Inv (resolved r t g s)
  unfolding resolved
  resolved-Inv = record {
    pending_known = λ k q e. v.pending_known k q (resolved_pending k q e);
    active_known = settled_known;
    active_settled = settled_gone;
    active_sound = settled-IsSound;
    nonce_once = settled_nonce;
  }

pub resolve-Inv :
    (now : Timestamp) (t : Ref) (g : ApprovalGrant) (s : BrokerState)
    → Inv s
    → Inv (resolve now t g s).0
resolve-Inv now t g s v = keep (resolve-ResolveOutcome now t g s)
  where
    keep : ResolveOutcome now t g s → Inv (resolve now t g s).0
    keep (unknown _ e) = subst (λ x. Inv x.0) (sym e) v
    keep (invalid _ _ _ _ e) = subst (λ x. Inv x.0) (sym e) v
    keep (settled r f fits e) = subst (λ x. Inv x.0) (sym e) (resolved-Inv now t g s r v f fits)

pub take_events-Inv : (s : BrokerState) → Inv s → Inv (take_events s).0
unfolding take_events
take_events-Inv s v = record {
  pending_known = v.pending_known;
  active_known = v.active_known;
  active_settled = v.active_settled;
  active_sound = v.active_sound;
  nonce_once = v.nonce_once;
}
