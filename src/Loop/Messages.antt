-- ===== src/Loop/Messages.antt =====
-- crates/models/src/lib.rs: the messages to a model and its answers.
use forme_agent.Base.{ℕ, String, List, Option}
use forme_agent.Protocol.Kinds.{Ref, Version, Provenance, TrustTier, ModelUsage}
use forme_agent.Protocol.Actions.{ActionIntent}

pub data MessageRole : Type 0 where
  system user assistant tool : MessageRole

pub data ModelContentTreatment : Type 0 where
  instruction data_only untrusted_data : ModelContentTreatment

pub record ModelMessage : Type 0 where
  pub schema_version : Version
  pub role : MessageRole
  pub content : String
  pub provenance : Provenance
  pub treatment : ModelContentTreatment

-- `ModelMessage::instruction`.
unfoldable pub instruction_message : MessageRole → String → Provenance → ModelMessage
instruction_message role content provenance = record {
  schema_version = 1;
  role = role;
  content = content;
  provenance = provenance;
  treatment = ModelContentTreatment.instruction;
}

unfoldable pub treatment_of : TrustTier → ModelContentTreatment
treatment_of TrustTier.untrusted = ModelContentTreatment.untrusted_data
treatment_of _ = ModelContentTreatment.data_only

-- `ModelMessage::data`.
unfoldable pub data_message : MessageRole → String → Provenance → ModelMessage
unfolding treatment_of
data_message role content provenance = record {
  schema_version = 1;
  role = role;
  content = content;
  provenance = provenance;
  treatment = treatment_of provenance.trust_tier;
}

-- `ModelMessage::input`.
unfoldable pub input_message : String → Provenance → ModelMessage
input_message content provenance = elim provenance.trust_tier [
  | TrustTier.owner_input ↦ instruction_message MessageRole.user content provenance
  | TrustTier.verified_process ↦ instruction_message MessageRole.user content provenance
  | TrustTier.approved_source ↦ data_message MessageRole.user content provenance
  | TrustTier.untrusted ↦ data_message MessageRole.user content provenance
]

-- The loop offers no tool definitions, so `tools` is left out.
pub record ModelRequest : Type 0 where
  pub schema_version : Version
  pub messages : List ModelMessage
  pub max_output_tokens : Option ℕ

-- JSON arguments are kept as their text.
pub record ModelToolCall : Type 0 where
  pub schema_version : Version
  pub call_id : Ref
  pub tool : Ref
  pub arguments : String
  pub intent : Option ActionIntent

pub record ModelHandoff : Type 0 where
  pub schema_version : Version
  pub target : Ref
  pub reason : Ref

pub data ModelOutput : Type 0 where
  final : String → ModelOutput
  tool : ModelToolCall → ModelOutput
  handoff : ModelHandoff → ModelOutput

pub record ModelResponse : Type 0 where
  pub schema_version : Version
  pub output : ModelOutput
  pub usage : ModelUsage
  pub finish_reason : Ref
