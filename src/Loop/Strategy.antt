-- ===== src/Loop/Strategy.antt =====
-- crates/protocol/src/m3_b.rs: a loop strategy; crates/loop/src/m3_b.rs: the registry of strategies,
-- and how a strategy narrows the budget of a run.
pub mod Registry
pub mod Narrows
use forme_agent.Base.{
  ℕ, suc, Bool, true, false, not, ◌&&◌, ◌||◌, List, [], ◌∷◌, Option, none, some, Eq, ◌==◌, ◌!=◌,
  nat_eq, ℕ_discrete, string_eq, leb, ltb, if◌then◌else◌, Result, ok, err, ◌>>=◌, ◌>>◌, reject, all,
  contains,
}
use forme_agent.Base.Map.{Map, lookup, insert, string_ord}
use forme_agent.Base.Text.{is_blank, string_discrete}
use forme_agent.Protocol.Kinds.{Ref, Version}

pub data LoopError : Type 0 where
  context_incomplete bind_once scaffold_invalid no_final handoff_incomplete : LoopError
  context_failed model_failed : LoopError
  compatibility_incomplete identity_incomplete profile_zero strategy_invalid : LoopError
  budget_incomplete wider_tokens wider_wall_time wider_cost wider_tool_calls wider_turns : LoopError
  version_taken version_unsupported : LoopError

pub record StrategyRuntimeCompatibility : Type 0 where
  pub schema_version : Version
  pub minimum_runtime_schema : Version
  pub event_schema : Version
  pub model_profile : Option Ref
  pub tool_schema : Option Ref
  pub backend_schema : Option Ref

pub data LoopPhase : Type 0 where
  context deliberate policy approval execute verify checkpoint finish : LoopPhase

pub data LoopTrigger : Type 0 where
  reactive scheduled checkpoint_resume : LoopTrigger

pub data LoopFailureFallback : Type 0 where
  stop ask_owner preserve_checkpoint : LoopFailureFallback

unfoldable pub phase_discrete : Discrete LoopPhase
phase_discrete = hlevel

instance abbrev pub phase_eq : Eq LoopPhase
phase_eq = record { discrete = phase_discrete }

unfoldable pub trigger_discrete : Discrete LoopTrigger
trigger_discrete = hlevel

instance abbrev pub trigger_eq : Eq LoopTrigger
trigger_eq = record { discrete = trigger_discrete }

pub record LoopBudgetProfile : Type 0 where
  pub schema_version : Version
  pub max_turns : ℕ
  pub max_tokens : ℕ
  pub max_wall_time_ms : ℕ
  pub max_cost_microunits : ℕ
  pub max_tool_calls : ℕ

pub record LoopStrategySpec : Type 0 where
  pub schema_version : Version
  pub version : Ref
  pub scope : Ref
  pub content_ref : Ref
  pub content_digest : Ref
  pub compatibility : StrategyRuntimeCompatibility
  pub phases : List LoopPhase
  pub triggers : List LoopTrigger
  pub checkpoint_cadence_turns : ℕ
  pub verification_cadence_turns : ℕ
  pub budget : LoopBudgetProfile
  pub failure_fallback : LoopFailureFallback

unfoldable pub strategy_discrete : Discrete LoopStrategySpec
strategy_discrete = hlevel (string_discrete, ℕ_discrete)

instance abbrev pub strategy_eq : Eq LoopStrategySpec
strategy_eq = record { discrete = strategy_discrete }

blank_inside : Option Ref → Bool
blank_inside none = false
blank_inside (some value) = is_blank value

-- `StrategyRuntimeCompatibility::validate`.
unfoldable pub validate_compatibility : StrategyRuntimeCompatibility → Result LoopError (Unit {0})
unfolding blank_inside
validate_compatibility c =
    reject
      (c.schema_version == 0
        || c.minimum_runtime_schema == 0
        || c.event_schema == 0
        || blank_inside c.model_profile
        || blank_inside c.tool_schema
        || blank_inside c.backend_schema)
      LoopError.compatibility_incomplete

-- `LoopBudgetProfile::validate`.
unfoldable pub validate_profile : LoopBudgetProfile → Result LoopError (Unit {0})
validate_profile b =
    reject
      (b.schema_version == 0
        || b.max_turns == 0
        || b.max_tokens == 0
        || b.max_wall_time_ms == 0
        || b.max_cost_microunits == 0
        || b.max_tool_calls == 0)
      LoopError.profile_zero

-- A set made of the list is as long as the list.
unfoldable pub no_repeats : {A : Type 0} ⦃e : Eq A⦄ → List A → Bool
no_repeats [] = true
no_repeats (x ∷ xs) = not (contains xs x) && no_repeats xs

-- `ordered_before`: the first places of both.
unfoldable pub position : {A : Type 0} ⦃e : Eq A⦄ → A → List A → Option ℕ
position a [] = none
position a (x ∷ xs) =
    let rest = position a xs in
    if x == a then some 0 else elim rest [ none ↦ none | some n ↦ some (suc n) ]

before : Option ℕ → Option ℕ → Bool
before (some left) (some right) = ltb left right
before _ _ = false

unfoldable pub ordered_before : {A : Type 0} ⦃e : Eq A⦄ → List A → A → A → Bool
unfolding before
ordered_before values left right = before (position left values) (position right values)

abbrev pub governed : List LoopPhase
governed =
    LoopPhase.context ∷ LoopPhase.deliberate ∷ LoopPhase.policy ∷ LoopPhase.approval
    ∷ LoopPhase.execute ∷ LoopPhase.verify ∷ LoopPhase.finish ∷ []

phases_fit : List LoopPhase → Bool
phases_fit phases =
    all (contains phases) governed
    && ordered_before phases LoopPhase.context LoopPhase.deliberate
    && ordered_before phases LoopPhase.policy LoopPhase.approval
    && ordered_before phases LoopPhase.approval LoopPhase.execute
    && ordered_before phases LoopPhase.execute LoopPhase.verify
    && ordered_before phases LoopPhase.verify LoopPhase.finish

is_empty : {A : Type 0} → List A → Bool
is_empty [] = true
is_empty (_ ∷ _) = false

cadences_fit : LoopStrategySpec → Bool
cadences_fit spec =
    not (spec.checkpoint_cadence_turns == 0)
    && not (spec.verification_cadence_turns == 0)
    && leb spec.checkpoint_cadence_turns spec.budget.max_turns
    && leb spec.verification_cadence_turns spec.budget.max_turns

-- `LoopStrategySpec::validate`.
unfoldable pub validate_strategy : LoopStrategySpec → Result LoopError (Unit {0})
unfolding is_empty cadences_fit phases_fit
validate_strategy spec = do
  validate_compatibility spec.compatibility
  reject
      (spec.schema_version == 0
        || is_blank spec.version
        || is_blank spec.scope
        || is_blank spec.content_ref
        || is_blank spec.content_digest)
      LoopError.identity_incomplete
  validate_profile spec.budget
  reject
      (is_empty spec.phases
        || not (no_repeats spec.phases)
        || is_empty spec.triggers
        || not (no_repeats spec.triggers)
        || not (cadences_fit spec)
        || not (phases_fit spec.phases))
      LoopError.strategy_invalid

pub record Budget : Type 0 where
  pub schema_version : Version
  pub tokens : Option ℕ
  pub wall_time : Option ℕ
  pub cost_microunits : Option ℕ
  pub tool_calls : Option ℕ
  pub max_turns : ℕ

wider : ℕ → Option ℕ → Bool
wider strategy none = false
wider strategy (some limit) = ltb limit strategy

-- `reject_wider_u64` and `reject_wider_u32`.
unfoldable pub reject_wider : LoopError → ℕ → Option ℕ → Result LoopError (Unit {0})
unfolding wider
reject_wider e strategy hard = reject (wider strategy hard) e

unfoldable pub apply_loop_strategy : LoopStrategySpec → Budget → Result LoopError Budget
apply_loop_strategy spec hard = do
  validate_strategy spec
  reject (hard.schema_version == 0 || hard.max_turns == 0) LoopError.budget_incomplete
  reject_wider LoopError.wider_tokens spec.budget.max_tokens hard.tokens
  reject_wider LoopError.wider_wall_time spec.budget.max_wall_time_ms hard.wall_time
  reject_wider LoopError.wider_cost spec.budget.max_cost_microunits hard.cost_microunits
  reject_wider LoopError.wider_tool_calls spec.budget.max_tool_calls hard.tool_calls
  reject (ltb hard.max_turns spec.budget.max_turns) LoopError.wider_turns
  ok (record {
    schema_version = hard.schema_version;
    tokens = some spec.budget.max_tokens;
    wall_time = some spec.budget.max_wall_time_ms;
    cost_microunits = some spec.budget.max_cost_microunits;
    tool_calls = some spec.budget.max_tool_calls;
    max_turns = spec.budget.max_turns;
  })

abbrev pub Specs : Type 0
Specs = Map Ref LoopStrategySpec

-- `InMemoryLoopRegistry::with_seed`.
unfoldable pub with_seed : LoopStrategySpec → Result LoopError Specs
with_seed seed = do validate_strategy seed; ok (insert seed.version seed [])

unfoldable pub register : LoopStrategySpec → Specs → Specs × Result LoopError (Unit {0})
register spec specs = elim (validate_strategy spec) [
  | err e ↦ (specs, err e)
  | ok _ ↦ elim (lookup spec.version specs) [
    | some existing ↦ (specs, if existing == spec then ok tt else err LoopError.version_taken)
    | none ↦ (insert spec.version spec specs, ok tt)
  ]
]

unfoldable pub resolve : Ref → Specs → Result LoopError LoopStrategySpec
resolve version specs = elim (lookup version specs) [
  | none ↦ err LoopError.version_unsupported
  | some spec ↦ ok spec
]
