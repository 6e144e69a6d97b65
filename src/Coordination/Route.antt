-- ===== src/Coordination/Route.antt =====
-- crates/coordination/src/lib.rs: routes, the states of their nodes, and the outcome of a run.
use forme_agent.Base.{ℕ, String, List, Option, Eq}
use forme_agent.Base.Map.{Map}
use forme_agent.Protocol.Kinds.{Ref, Version}
use forme_agent.Coordination.Contract.{Toolset, DoneContract}

pub record SubagentProfile : Type 0 where
  pub schema_version : Version
  pub role : Ref
  pub toolset : Toolset
  pub model : Ref
  pub permission : Ref
  pub budget : String

pub record Subtask : Type 0 where
  pub schema_version : Version
  pub id : String
  pub instruction : String
  pub intent_id : Ref

pub record RetryPolicy : Type 0 where
  pub schema_version : Version
  pub max_attempts : ℕ

pub record RouteNode : Type 0 where
  pub schema_version : Version
  pub subtask : Subtask
  pub role : SubagentProfile
  pub resource_slice : Toolset
  pub done : DoneContract
  pub retry : RetryPolicy

-- `DependencyFailurePolicy`; `continue` is `Continue`.
pub data FailurePolicy : Type 0 where
  abort_route continue_route replan : FailurePolicy

pub record RouteEdge : Type 0 where
  pub schema_version : Version
  pub source : String
  pub target : String
  pub on_failure : FailurePolicy

pub record ExecutionRoute : Type 0 where
  pub schema_version : Version
  pub reference : Ref
  pub pattern_ref : Option Ref
  pub nodes : List RouteNode
  pub edges : List RouteEdge

pub data NodeState : Type 0 where
  pending running done failed cancelled outcome_unknown : NodeState

pub data RouteStatus : Type 0 where
  running completed failed cancelled replan_requested : RouteStatus

pub record RouteOutcome : Type 0 where
  pub schema_version : Version
  pub status : RouteStatus
  pub node_states : Map String NodeState
  pub result_refs : Map String Ref

pub data RetryDecision : Type 0 where
  retry exhausted outcome_unknown : RetryDecision

-- One constructor for each message.
pub data Error : Type 0 where
  not_positive already_reserved exceeds_remaining bad_units : Error
  not_runnable no_node not_running not_failed : Error
  route_incomplete nodes_invalid edge_invalid cyclic : Error

unfoldable pub policy_discrete : Discrete FailurePolicy
policy_discrete = hlevel

instance abbrev pub policy_eq : Eq FailurePolicy
policy_eq = record { discrete = policy_discrete }

unfoldable pub node_state_discrete : Discrete NodeState
node_state_discrete = hlevel

instance abbrev pub node_state_eq : Eq NodeState
node_state_eq = record { discrete = node_state_discrete }

unfoldable pub status_discrete : Discrete RouteStatus
status_discrete = hlevel

instance abbrev pub status_eq : Eq RouteStatus
status_eq = record { discrete = status_discrete }
