-- ===== src/Coordination/Contract.antt =====
-- crates/coordination/src/lib.rs, with the toolsets of crates/capabilities/src/registry.rs: what a node
-- of a route may use, and when its work counts as done. An event kind is kept as its name.
use forme_agent.Base.{ℕ, String, Bool, true, false, ◌&&◌, ◌||◌, List, [], ◌∷◌, Option, none}
use forme_agent.Protocol.Kinds.{Ref, Version}

pub data Capability : Type 0 where
  tool skill mcp_tool plugin_contribution hook app_api agent_profile : Ref → Capability

pub record ToolsetItem : Type 0 where
  pub schema_version : Version
  pub id : Ref
  pub capability : Capability
  pub sources : List Ref

pub record Toolset : Type 0 where
  pub schema_version : Version
  pub toolset_ref : Ref
  pub items : List ToolsetItem
  pub scope : Ref
  pub sources : List Ref

unfoldable pub capability_ids : List ToolsetItem → List Ref
capability_ids [] = []
capability_ids (i ∷ is) = i.id ∷ capability_ids is

unfoldable pub capability_refs : Toolset → List Ref
capability_refs toolset = capability_ids toolset.items

pub data EvidenceSelector : Type 0 where
  final_output action_result event_segment file_state : EvidenceSelector

pub data Predicate : Type 0 where
  exists : Predicate
  equals contains event_kind_seen : String → Predicate

pub record Tolerance : Type 0 where
  pub schema_version : Version
  pub allowed_deviation : ℕ

pub record DoneCriterion : Type 0 where
  pub schema_version : Version
  pub evidence : EvidenceSelector
  pub predicate : Predicate
  pub tolerance : Option Tolerance

pub data StopCondition : Type 0 where
  all_criteria_satisfied budget_exhausted policy_denied owner_cancelled : StopCondition
  unverifiable : Ref → StopCondition

pub record DoneContract : Type 0 where
  pub schema_version : Version
  pub reference : Ref
  pub criteria : List DoneCriterion
  pub stop_conditions : List StopCondition

unfoldable pub final_output_contract : Ref → DoneContract
final_output_contract reference = record {
  schema_version = 1;
  reference = reference;
  criteria =
      (record {
        schema_version = 1;
        evidence = EvidenceSelector.final_output;
        predicate = Predicate.exists;
        tolerance = none;
      })
      ∷ [];
  stop_conditions =
      all_criteria_satisfied ∷ budget_exhausted ∷ policy_denied ∷ owner_cancelled ∷ [];
}

is_all_satisfied : StopCondition → Bool
is_all_satisfied all_criteria_satisfied = true
is_all_satisfied _ = false

stops_when_satisfied : List StopCondition → Bool
unfolding is_all_satisfied
stops_when_satisfied [] = false
stops_when_satisfied (c ∷ cs) = is_all_satisfied c || stops_when_satisfied cs

has_criteria : List DoneCriterion → Bool
has_criteria [] = false
has_criteria (_ ∷ _) = true

unfoldable pub is_verifiable : DoneContract → Bool
unfolding has_criteria stops_when_satisfied
is_verifiable c = has_criteria c.criteria && stops_when_satisfied c.stop_conditions
