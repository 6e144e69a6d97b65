-- ===== src/Approval/Authorize.antt =====
-- `authorize`: exactly when it allows an action, and what it leaves behind.
use forme_agent.Base.{
  Result-cases, none, some, ◌≡◌, ◌↔◌, inl, inr, ok, err, arith, Option-cases, subst,
}
use forme_agent.Base.Int.{max_ℤ}
use forme_agent.Base.Map.{lookup, insert, string_ord}
use forme_agent.Protocol.Kinds.{Timestamp}
use forme_agent.Approval.{
  ApprovalAuthorization, ActiveGrant, BrokerState, Error, authorize, authorize_active, check_active,
  not_active,
}
use forme_agent.Approval.Guards.{
  IsOpen, Binds, Usable, used, check_active-Binds, Binds-check_active, IsOpen-max, use_grant-Usable,
  Usable-use_grant,
}

-- The grant on file is open by the broker's clock and by the caller's, fits the action, and is not
-- used up.
pub record Permits (clock_now : Timestamp) (a : ApprovalAuthorization) (active : ActiveGrant)
    : Type 0 where
  pub open_by_clock : IsOpen clock_now active
  pub open_by_caller : IsOpen a.now active
  pub binds : Binds a active
  pub usable : Usable active.grant.granted_scope active.consumed a.intent

abbrev pub after_use : ActiveGrant → ActiveGrant
after_use active = record active { consumed = used active.grant.granted_scope active.consumed }

authorize_active_ok :
    (now : Timestamp) (a : ApprovalAuthorization) (active : ActiveGrant) {g : ActiveGrant}
    → authorize_active now a active ≡ ok g
    → (check_active now a active ≡ ok tt)
      × Usable active.grant.granted_scope active.consumed a.intent
      × (g ≡ after_use active)
unfolding authorize_active
authorize_active_ok now a active h =
    ground (arith, use_grant-Usable active.grant.granted_scope active.consumed a.intent)

authorize_active-Permits :
    (clock_now : Timestamp) (a : ApprovalAuthorization) (active : ActiveGrant) {g : ActiveGrant}
    → authorize_active (max_ℤ clock_now a.now) a active ≡ ok g
    → Permits clock_now a active × (g ≡ after_use active)
authorize_active-Permits clock_now a active h =
    let (checked, usable, e) = authorize_active_ok (max_ℤ clock_now a.now) a active h in
    let (in_time, binds) = check_active-Binds (max_ℤ clock_now a.now) a active checked in
    let (clock, caller) = (IsOpen-max clock_now a.now active).0 in_time in
    (record { open_by_clock = clock; open_by_caller = caller; binds = binds; usable = usable }, e)

Permits-authorize_active :
    (clock_now : Timestamp) (a : ApprovalAuthorization) (active : ActiveGrant)
    → Permits clock_now a active
    → authorize_active (max_ℤ clock_now a.now) a active ≡ ok (after_use active)
unfolding authorize_active
Permits-authorize_active clock_now a active p = rw (
  Binds-check_active (max_ℤ clock_now a.now) a active
      ((IsOpen-max clock_now a.now active).1 (p.open_by_clock, p.open_by_caller)) p.binds,
  Usable-use_grant active.grant.granted_scope active.consumed a.intent p.usable,
)

-- The three ways that a call of `authorize` can end.
pub data Outcome (clock_now : Timestamp) (a : ApprovalAuthorization) (s : BrokerState)
    : Type 0 where
  missing :
      lookup a.approval_id s.active ≡ none
      → authorize clock_now a s ≡ (s, err not_active)
      → Outcome clock_now a s
  refused :
      (active : ActiveGrant)
      → lookup a.approval_id s.active ≡ some active
      → ¬ Permits clock_now a active
      → (e : Error) → authorize clock_now a s ≡ (s, err e)
      → Outcome clock_now a s
  allowed :
      (active : ActiveGrant)
      → lookup a.approval_id s.active ≡ some active
      → Permits clock_now a active
      → authorize clock_now a s
        ≡ (record s { active = insert a.approval_id (after_use active) s.active }, ok tt)
      → Outcome clock_now a s

pub authorize-Outcome :
    (clock_now : Timestamp) (a : ApprovalAuthorization) (s : BrokerState) → Outcome clock_now a s
unfolding authorize
authorize-Outcome clock_now a s = elim (Option-cases (lookup a.approval_id s.active)) [
  | inl e ↦ missing e (ground (arith, e))
  | inr (active, e) ↦ elim (Result-cases (authorize_active (max_ℤ clock_now a.now) a active)) [
    | inl (g, h) ↦
        let (permits, used) = authorize_active-Permits clock_now a active h in
        allowed active e permits (ground (arith, e, h, used))
    | inr (x, h) ↦
        refused active e (λ p. ground (arith, Permits-authorize_active clock_now a active p, h)) x
          (ground (arith, e, h))
  ]
]

-- An authorization succeeds exactly when the grant on file permits it.
pub authorize_iff :
    (clock_now : Timestamp) (a : ApprovalAuthorization) (s : BrokerState)
    → ((authorize clock_now a s).1 ≡ ok tt) ↔ (
        (active : ActiveGrant) × (lookup a.approval_id s.active ≡ some active)
        × Permits clock_now a active)
authorize_iff clock_now a s =
    (forward (authorize-Outcome clock_now a s), backward (authorize-Outcome clock_now a s))
  where
    forward :
        Outcome clock_now a s
        → (authorize clock_now a s).1 ≡ ok tt
        → (active : ActiveGrant) × (lookup a.approval_id s.active ≡ some active)
          × Permits clock_now a active
    forward (missing _ r) h = cc
    forward (refused _ _ _ e r) h = cc
    forward (allowed active e p r) h = (active, e, p)

    backward :
        Outcome clock_now a s
        → (active : ActiveGrant) × (lookup a.approval_id s.active ≡ some active)
          × Permits clock_now a active
        → (authorize clock_now a s).1 ≡ ok tt
    backward (missing n r) (active, f, p) = cc
    backward (refused active' n no_permit e r) (active, f, p) =
        absurd (no_permit (subst (Permits clock_now a) (ground arith) p))
    backward (allowed active' e p' r) x = cc
