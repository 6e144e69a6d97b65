-- ===== src/Protocol/Kinds.antt =====
-- crates/protocol/src/primitives.rs: references, stamps, and the plain enumerations.
use forme_agent.Base.{ℕ, String, Option}
use forme_agent.Base.Int.{ℤ}
use forme_agent.Base.{Eq}

-- The `string_newtypes!`: each reference is its text.
abbrev pub Ref : Type 0
Ref = String

-- `Timestamp` is an `i64` in milliseconds.
abbrev pub Timestamp : Type 0
Timestamp = ℤ

-- `SchemaVersion` and `Version` are `u32`.
abbrev pub Version : Type 0
Version = ℕ

pub data Source : Type 0 where
  user_turn proactive_job schedule subagent communication internal replay simulation owner_control :
      Source

pub data Actor : Type 0 where
  owner agent : Actor
  subagent external : Ref → Actor
  system : Actor

pub data TrustTier : Type 0 where
  untrusted approved_source verified_process owner_input : TrustTier

pub record Provenance : Type 0 where
  pub source : Source
  pub actor : Actor
  pub trust_tier : TrustTier
  pub caused_by : Option Ref

pub data RunStatus : Type 0 where
  accepted running waiting complete aborted failed limited : RunStatus

pub data ContextSource : Type 0 where
  rules history memory_summary skills_metadata tool_schema : ContextSource

pub record ModelUsage : Type 0 where
  pub input_tokens : ℕ
  pub output_tokens : ℕ

pub data OutputKind : Type 0 where
  final tool handoff : OutputKind

pub data PolicyDecision : Type 0 where
  allow ask deny : PolicyDecision

pub data Risk : Type 0 where
  low medium high : Risk

pub data ApprovalOutcome : Type 0 where
  granted denied expired : ApprovalOutcome

pub data BackendKind : Type 0 where
  shell file mcp notification browser computer pty app_api remote : BackendKind

pub data ActionType : Type 0 where
  observe analyze prepare write execute deliver external_commit : ActionType

pub data ExpectedEffect : Type 0 where
  internal outward : ExpectedEffect

unfoldable pub outcome_discrete : Discrete ApprovalOutcome
outcome_discrete = hlevel

instance abbrev pub outcome_eq : Eq ApprovalOutcome
outcome_eq = record { discrete = outcome_discrete }

unfoldable pub backend_discrete : Discrete BackendKind
backend_discrete = hlevel

instance abbrev pub backend_eq : Eq BackendKind
backend_eq = record { discrete = backend_discrete }

unfoldable pub action_type_discrete : Discrete ActionType
action_type_discrete = hlevel

instance abbrev pub action_type_eq : Eq ActionType
action_type_eq = record { discrete = action_type_discrete }
