-- ===== src/Protocol/Actions.antt =====
-- crates/protocol/src/primitives.rs: what an action may ask for. JSON arguments are kept as their
-- text.
use forme_agent.Base.{ℕ, String, Bool, List, Option}
use forme_agent.Base.Int.{ℤ}
use forme_agent.Protocol.Kinds.{
  Ref, Timestamp, Version, Source, Risk, BackendKind, ActionType, ExpectedEffect,
}

pub data FileOperation : Type 0 where
  read write delete : FileOperation

pub record McpStdioSpec : Type 0 where
  pub schema_version : Version
  pub command : String
  pub args : List String
  pub env : List (String × String)

pub data ExternalInput : Type 0 where
  literal content secret : String → ExternalInput

pub data BrowserOperation : Type 0 where
  navigate : BrowserOperation
  read_text : Option String → BrowserOperation
  click : String → BrowserOperation
  type : String → ExternalInput → BrowserOperation
  screenshot : Bool → BrowserOperation

pub record BrowserActionSpec : Type 0 where
  pub schema_version : Version
  pub driver : Ref
  pub target_url : String
  pub allowed_origins : List String
  pub operation : BrowserOperation
  pub artifact_scope : Ref

pub record CoordinateBounds : Type 0 where
  pub schema_version : Version
  pub min_x : ℤ
  pub min_y : ℤ
  pub max_x_exclusive : ℤ
  pub max_y_exclusive : ℤ

pub data PointerButton : Type 0 where
  primary secondary middle : PointerButton

pub data KeyCode : Type 0 where
  enter escape tab backspace delete arrow_up arrow_down arrow_left arrow_right : KeyCode

pub data ComputerOperation : Type 0 where
  move : ℤ → ℤ → ComputerOperation
  click : ℤ → ℤ → PointerButton → ComputerOperation
  type : ExternalInput → ComputerOperation
  key : KeyCode → ComputerOperation
  scroll : ℤ → ℤ → ComputerOperation
  screenshot : ComputerOperation

pub record ComputerActionSpec : Type 0 where
  pub schema_version : Version
  pub driver : Ref
  pub surface : Ref
  pub bounds : CoordinateBounds
  pub operation : ComputerOperation
  pub artifact_scope : Ref

pub record SecretBinding : Type 0 where
  pub schema_version : Version
  pub name : String
  pub value : Ref

pub record PtyActionSpec : Type 0 where
  pub schema_version : Version
  pub program : String
  pub args : List String
  pub cwd : String
  pub cols : ℕ
  pub rows : ℕ
  pub input : Option ExternalInput
  pub environment : List SecretBinding

pub data AppApiMutationMethod : Type 0 where
  post put patch delete : AppApiMutationMethod

pub data AppApiOperation : Type 0 where
  read : AppApiOperation
  mutation : AppApiMutationMethod → Option ExternalInput → Ref → AppApiOperation

pub data Representation : Type 0 where
  agent agent_representing_owner : Representation

pub record AppApiActionSpec : Type 0 where
  pub schema_version : Version
  pub connector : Ref
  pub endpoint : String
  pub schema_digest : Ref
  pub credential : Option Ref
  pub operation : AppApiOperation
  pub timeout : ℕ
  pub participant : Option Ref
  pub representation : Option Representation
  pub disclosure_request : Option Ref

-- `RemoteActionSpec` with its placement and its operation, less the parameters of the operation,
-- which stand next to it in `ActionParameters.remote`.
pub record RemoteHeader : Type 0 where
  pub spec_version : Version
  pub plan_version : Version
  pub executor : Ref
  pub peer_grant : Ref
  pub grant_version : ℕ
  pub authority_epoch : ℕ
  pub executor_profile : Ref
  pub plan_digest : Ref
  pub operation_version : Version
  pub backend : BackendKind
  pub capability : Ref
  pub scope : Ref
  pub action_type : ActionType
  pub expected_effect : ExpectedEffect
  pub rollback_boundary : Ref
  pub credential_slot : Option Ref
  pub operation_digest : Ref

-- The fields of `Shell`, `File`, `Mcp` and `Notification`, in the order of the source; `transport`
-- has one value and is left out.
pub data ActionParameters : Type 0 where
  shell : String → List String → Option String → Bool → ActionParameters
  file : FileOperation → String → Option (List ℕ) → ActionParameters
  mcp : Ref → Ref → String → Option Ref → McpStdioSpec → ℕ → ActionParameters
  notification : Ref → Ref → String → Ref → ActionParameters
  browser : BrowserActionSpec → ActionParameters
  computer : ComputerActionSpec → ActionParameters
  pty : PtyActionSpec → ActionParameters
  app_api : AppApiActionSpec → ActionParameters
  remote : RemoteHeader → ActionParameters → ActionParameters

pub record ActionIntent : Type 0 where
  pub schema_version : Version
  pub intent_id : Ref
  pub source : Source
  pub goal : Ref
  pub backend_hint : BackendKind
  pub capability_ref : Ref
  pub action_type : ActionType
  pub scope : Ref
  pub risk_hint : Risk
  pub expected_effect : ExpectedEffect
  pub rollback_expectation : Ref
  pub parameters : ActionParameters
  pub requested_permissions : List Ref
  pub requested_at : Timestamp
  pub estimated_output_bytes : ℕ
  pub estimated_duration : ℕ
