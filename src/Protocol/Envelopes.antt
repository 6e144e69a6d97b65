-- ===== src/Protocol/Envelopes.antt =====
-- crates/protocol/src/primitives.rs: the envelope of an autonomous agent.
use forme_agent.Base.{ℕ, String, Bool, List, Option, Eq}
use forme_agent.Protocol.Kinds.{Ref, Timestamp, Version, Risk, ActionType}

pub data ApprovalRule : Type 0 where
  allow ask deny : ApprovalRule

unfoldable pub approval_rule_discrete : Discrete ApprovalRule
approval_rule_discrete = hlevel

instance abbrev pub approval_rule_eq : Eq ApprovalRule
approval_rule_eq = record { discrete = approval_rule_discrete }

pub record CapabilitySet : Type 0 where
  pub schema_version : Version
  pub capabilities : List Ref
  pub permissions : List Ref

pub record Timebox : Type 0 where
  pub schema_version : Version
  pub starts_at : Timestamp
  pub expires_at : Timestamp
  pub max_turns : ℕ

pub record RollbackReq : Type 0 where
  pub schema_version : Version
  pub required : Bool
  pub boundary : Option Ref

pub record AutonomyEnvelope : Type 0 where
  pub schema_version : Version
  pub scope : Ref
  pub capability : CapabilitySet
  pub action_type : List ActionType
  pub risk_limit : Risk
  pub approval_rule : ApprovalRule
  pub budget : String
  pub timebox : Timebox
  pub rollback : RollbackReq
