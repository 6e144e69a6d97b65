-- ===== src/Approval/Tests.antt =====
-- The broker at concrete inputs.
use forme_agent.Base.{
  none, false, List, [], ◌∷◌, some, ◌≡◌, refl, ok, ◌≤◌, ◌↔◌, contains, all, ℕ_discrete,
}
use forme_agent.Base.Int.{pos}
use forme_agent.Base.Map.{lookup, insert, remove, string_ord}
use forme_agent.Base.Text.{string_discrete, is_blank, string_less}
use forme_agent.Protocol.Kinds.{
  Source, Risk, ApprovalOutcome, BackendKind, ActionType, ExpectedEffect, outcome_discrete,
}
use forme_agent.Protocol.Actions.{FileOperation, ActionIntent, ActionParameters}
use forme_agent.Approval.{
  ApprovalRequest, ApprovalGrant, ApprovalAuthorization, ActiveGrant, GrantScope, authorize,
  request, resolve, new,
}
use forme_agent.Approval.Guards.{Resolves}
use forme_agent.Approval.Authorize.{Permits, authorize_iff}
use forme_agent.Approval.Resolution.{resolve_iff}
use forme_agent.Approval.Invariant.{Inv}
use forme_agent.Approval.History.{
  Call, step, allows, authorizes, requests, resolves, run, allowed_count, run-new-Inv,
  one_shot_once,
}

abbrev delete_request : ApprovalRequest
delete_request = record {
  schema_version = 1;
  approval_id = "approval:1";
  session = "session:1";
  action_summary = "delete a file";
  risk_level = Risk.high;
  scope = "scope:files";
  requested_permissions = "file:delete" ∷ "file:read" ∷ [];
  affected_resources = [];
  rollback_boundary = "none";
  expires_at = pos 100;
  choices = "approve" ∷ "deny" ∷ [];
  plan_digest = "sha256:1";
  policy_version = 3;
  tool_schema_version = 4;
}

abbrev delete_grant : ApprovalGrant
delete_grant = record {
  schema_version = 1;
  approval_id = "approval:1";
  outcome = ApprovalOutcome.granted;
  granted_scope = GrantScope.one_shot;
  approver = "owner";
  bound_plan_digest = "sha256:1";
  policy_version = 3;
  tool_schema_version = 4;
  nonce = "nonce:1";
  use_by = pos 90;
}

abbrev delete_intent : ActionIntent
delete_intent = record {
  schema_version = 1;
  intent_id = "intent:1";
  source = Source.user_turn;
  goal = "goal:1";
  backend_hint = BackendKind.file;
  capability_ref = "file";
  action_type = ActionType.write;
  scope = "scope:files";
  risk_hint = Risk.high;
  expected_effect = ExpectedEffect.outward;
  rollback_expectation = "none";
  parameters = ActionParameters.file FileOperation.delete "notes.txt" none;
  requested_permissions = "file:delete" ∷ [];
  requested_at = pos 20;
  estimated_output_bytes = 0;
  estimated_duration = 10;
}

abbrev delete_authorization : ApprovalAuthorization
delete_authorization = record {
  approval_id = "approval:1";
  session = "session:1";
  scope = "scope:files";
  plan_digest = "sha256:1";
  policy_version = 3;
  tool_schema_version = 4;
  now = pos 30;
  intent = delete_intent;
}

abbrev until_granted : List Call
until_granted = requests (pos 10) delete_request ∷ resolves (pos 20) "approval:1" delete_grant ∷ []

abbrev active_grant : ActiveGrant
active_grant = record { request = delete_request; grant = delete_grant; consumed = false }

granted_lookup : lookup "approval:1" (run until_granted new).active ≡ some active_grant
unfolding run step new request resolve lookup insert remove is_blank contains string_discrete
    outcome_discrete ℕ_discrete string_less
granted_lookup = refl

-- The first use is allowed and the second is refused.
two_uses :
    allowed_count "approval:1"
      (authorizes (pos 30) delete_authorization ∷ authorizes (pos 40) delete_authorization ∷ [])
      (run until_granted new)
    ≡ 1
unfolding run step allowed_count allows new request resolve authorize lookup insert remove is_blank
    contains all string_discrete outcome_discrete ℕ_discrete string_less
two_uses = refl

authorize_iff_example :
    ((authorize (pos 30) delete_authorization (run until_granted new)).1 ≡ ok tt) ↔ (
      (active : ActiveGrant) × (lookup "approval:1" (run until_granted new).active ≡ some active)
      × Permits (pos 30) delete_authorization active)
authorize_iff_example = authorize_iff (pos 30) delete_authorization (run until_granted new)

resolve_iff_example :
    ((resolve (pos 20) "approval:1" delete_grant (request (pos 10) delete_request new).0).1 ≡ ok tt)
    ↔ ((r : ApprovalRequest) × (lookup "approval:1" (request (pos 10) delete_request new).0.pending
          ≡ some r)
        × Resolves
            (pos 20)
            r
            "approval:1"
            delete_grant
            (request (pos 10) delete_request new).0.nonces)
resolve_iff_example =
    resolve_iff (pos 20) "approval:1" delete_grant (request (pos 10) delete_request new).0

run-new-Inv_example : Inv (run until_granted new)
run-new-Inv_example = run-new-Inv until_granted

one_shot_once_example :
    allowed_count "approval:1"
      (authorizes (pos 30) delete_authorization ∷ authorizes (pos 40) delete_authorization ∷ [])
      (run until_granted new)
    ≤ 1
one_shot_once_example =
    one_shot_once until_granted
      (authorizes (pos 30) delete_authorization ∷ authorizes (pos 40) delete_authorization ∷ [])
      "approval:1" active_grant granted_lookup refl

request_accepted : (request (pos 10) delete_request new).1 ≡ ok "approval:1"
unfolding new request is_blank contains string_discrete
request_accepted = refl
