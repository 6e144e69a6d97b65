-- ===== src/Loop/Engine/Trust.antt =====
-- What the model is told as an instruction.
use forme_agent.Base.{◌≡◌, ◌⊎◌, string_eq, nat_eq}
use forme_agent.Protocol.Kinds.{TrustTier}
use forme_agent.Loop.Messages.{ModelMessage, ModelContentTreatment}
use forme_agent.Loop.Engine.Adds.{Adds}

-- Only the owner and verified processes instruct the model, and what is untrusted is marked so.
pub record Safe (m : ModelMessage) : Type 0 where
  pub instructs :
      m.treatment ≡ ModelContentTreatment.instruction
      → (m.provenance.trust_tier ≡ TrustTier.owner_input)
        ⊎ (m.provenance.trust_tier ≡ TrustTier.verified_process)
  pub marks_untrusted :
      m.provenance.trust_tier ≡ TrustTier.untrusted
      → m.treatment ≡ ModelContentTreatment.untrusted_data
