-- ===== src/Approval/Resolution.antt =====
-- `request` and `resolve`: exactly when they succeed, and what they leave behind.
use forme_agent.Base.{
  Bool, true, false, [], ◌≢◌, none, some, ◌≡◌, refl, ◌↔◌, inl, inr, Result, ok, err, arith,
  Option-cases, contains, subst, string_eq,
}
use forme_agent.Base.Int.{◌<ℤ◌}
use forme_agent.Base.Map.{lookup, string_ord}
use forme_agent.Base.Members.{Member, contains-Member, Member-contains}
use forme_agent.Base.Text.{is_blank}
use forme_agent.Protocol.Kinds.{Timestamp, Ref}
use forme_agent.Approval.{
  ApprovalRequest, ApprovalGrant, BrokerState, Error, request, enqueued, check_request, resolve,
  resolved, validate_grant, id_used, not_pending,
}
use forme_agent.Approval.Guards.{Resolves, validate_grant-Resolves, Resolves-validate_grant}

-- What a request must satisfy to be queued.
pub record Requests (now : Timestamp) (r : ApprovalRequest) (s : BrokerState) : Type 0 where
  pub request_open : now <ℤ r.expires_at
  pub summary_given : is_blank r.action_summary ≡ false
  pub choices_given : r.choices ≢ []
  pub digest_given : is_blank r.plan_digest ≡ false
  pub id_fresh : ¬ Member r.approval_id s.known_ids

pub data RequestOutcome (now : Timestamp) (r : ApprovalRequest) (s : BrokerState) : Type 0 where
  rejected :
      ¬ Requests now r s → (e : Error) → request now r s ≡ (s, err e) → RequestOutcome now r s
  queued :
      Requests now r s → request now r s ≡ (enqueued r s, ok r.approval_id) → RequestOutcome now r s

Requests-ok :
    (now : Timestamp) (r : ApprovalRequest) (s : BrokerState)
    → check_request now r ≡ ok tt
    → contains s.known_ids r.approval_id ≡ false
    → Requests now r s
unfolding check_request
Requests-ok now r s h k = record {
  request_open = ground arith;
  summary_given = ground arith;
  choices_given = ground arith;
  digest_given = ground arith;
  id_fresh = λ m. ground (arith, Member-contains s.known_ids r.approval_id m);
}

Requests-checked :
    (now : Timestamp) (r : ApprovalRequest) (s : BrokerState)
    → Requests now r s
    → check_request now r ≡ ok tt
unfolding check_request
Requests-checked now r s v = ground (arith, v.choices_given)

Requests-fresh :
    (now : Timestamp) (r : ApprovalRequest) (s : BrokerState)
    → Requests now r s
    → contains s.known_ids r.approval_id ≡ false
Requests-fresh now r s v = ground (arith, v.id_fresh, contains-Member s.known_ids r.approval_id)

pub request-RequestOutcome :
    (now : Timestamp) (r : ApprovalRequest) (s : BrokerState) → RequestOutcome now r s
unfolding request
request-RequestOutcome now r s =
    decide (check_request now r) refl (contains s.known_ids r.approval_id) refl
  where
    decide :
        (c : Result Error (Unit {0}))
        → check_request now r ≡ c
        → (b : Bool) → contains s.known_ids r.approval_id ≡ b
        → RequestOutcome now r s
    decide (err e) p b q =
        rejected (λ v. ground (arith, Requests-checked now r s v, p)) e (ground (arith, p))
    decide (ok _) p true q =
        rejected (λ v. ground (arith, Requests-fresh now r s v, q)) id_used (ground (arith, p, q))
    decide (ok _) p false q = queued (Requests-ok now r s p q) (ground (arith, p, q))

-- A request is queued exactly when it is complete, still open, and under an id never used.
pub request_iff :
    (now : Timestamp) (r : ApprovalRequest) (s : BrokerState)
    → ((request now r s).1 ≡ ok r.approval_id) ↔ Requests now r s
request_iff now r s =
    (forward (request-RequestOutcome now r s), backward (request-RequestOutcome now r s))
  where
    forward : RequestOutcome now r s → (request now r s).1 ≡ ok r.approval_id → Requests now r s
    forward (rejected _ e p) h = cc
    forward (queued v p) h = v

    backward : RequestOutcome now r s → Requests now r s → (request now r s).1 ≡ ok r.approval_id
    backward (rejected n e p) v = absurd (n v)
    backward (queued v p) _ = cc

pub data ResolveOutcome (now : Timestamp) (t : Ref) (g : ApprovalGrant) (s : BrokerState)
    : Type 0 where
  unknown :
      lookup t s.pending ≡ none
      → resolve now t g s ≡ (s, err not_pending)
      → ResolveOutcome now t g s
  invalid :
      (r : ApprovalRequest)
      → lookup t s.pending ≡ some r
      → ¬ Resolves now r t g s.nonces
      → (e : Error) → resolve now t g s ≡ (s, err e)
      → ResolveOutcome now t g s
  settled :
      (r : ApprovalRequest)
      → lookup t s.pending ≡ some r
      → Resolves now r t g s.nonces
      → resolve now t g s ≡ (resolved r t g s, ok tt)
      → ResolveOutcome now t g s

pub resolve-ResolveOutcome :
    (now : Timestamp) (t : Ref) (g : ApprovalGrant) (s : BrokerState) → ResolveOutcome now t g s
unfolding resolve
resolve-ResolveOutcome now t g s = elim (Option-cases (lookup t s.pending)) [
  | inl e ↦ unknown e (ground (arith, e))
  | inr (r, e) ↦ decide r e (validate_grant r t g now s.nonces) refl
]
  where
    decide :
        (r : ApprovalRequest)
        → lookup t s.pending ≡ some r
        → (c : Result Error (Unit {0})) → validate_grant r t g now s.nonces ≡ c
        → ResolveOutcome now t g s
    decide r e (err x) p =
        invalid r e (λ v. ground (arith, Resolves-validate_grant r t g now s.nonces v, p)) x
          (ground (arith, e, p))
    decide r e (ok _) p =
        settled r e (validate_grant-Resolves r t g now s.nonces p) (ground (arith, e, p))

-- A grant resolves a request exactly when the request is pending and the grant fits it.
pub resolve_iff :
    (now : Timestamp) (t : Ref) (g : ApprovalGrant) (s : BrokerState)
    → ((resolve now t g s).1 ≡ ok tt)
      ↔ ((r : ApprovalRequest) × (lookup t s.pending ≡ some r) × Resolves now r t g s.nonces)
resolve_iff now t g s =
    (forward (resolve-ResolveOutcome now t g s), backward (resolve-ResolveOutcome now t g s))
  where
    forward :
        ResolveOutcome now t g s
        → (resolve now t g s).1 ≡ ok tt
        → (r : ApprovalRequest) × (lookup t s.pending ≡ some r) × Resolves now r t g s.nonces
    forward (unknown _ p) h = cc
    forward (invalid _ _ _ e p) h = cc
    forward (settled r e v p) h = (r, e, v)

    backward :
        ResolveOutcome now t g s
        → (r : ApprovalRequest) × (lookup t s.pending ≡ some r) × Resolves now r t g s.nonces
        → (resolve now t g s).1 ≡ ok tt
    backward (unknown n p) (r, e, v) = cc
    backward (invalid r' n no_fit e p) (r, f, v) =
        absurd (no_fit (subst (λ q. Resolves now q t g s.nonces) (ground arith) v))
    backward (settled r e v p) x = cc
