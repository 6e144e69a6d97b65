-- ===== src/Policy/Matcher.antt =====
-- crates/policy/src/lib.rs: `ArgMatcher` and `ActionMatcher`.
use forme_agent.Base.{
  String, Bool, true, false, ◌&&◌, List, Option, ◌==◌, is_none_or, starts_with, string_eq,
}
use forme_agent.Base.Text.{codes}
use forme_agent.Protocol.Kinds.{Ref, BackendKind, ActionType, backend_eq, action_type_eq}
use forme_agent.Protocol.Actions.{ActionIntent, ActionParameters, shell, file, mcp}
use forme_agent.Policy.Path.{path_within}

pub data ArgMatcher : Type 0 where
  any : ArgMatcher
  shell_program : String → ArgMatcher
  shell_args_prefix : List String → ArgMatcher
  file_path_prefix : String → ArgMatcher
  mcp_target : Ref → Ref → ArgMatcher

pub matches_parameters : ArgMatcher → ActionParameters → Bool
matches_parameters any _ = true
matches_parameters (shell_program expected) (shell program _ _ _) = expected == program
matches_parameters (shell_args_prefix expected) (shell _ args _ _) = starts_with args expected
matches_parameters (file_path_prefix root) (file _ path _) = path_within (codes root) (codes path)
matches_parameters (mcp_target server' tool') (mcp server tool _ _ _ _) =
    server' == server && tool' == tool
matches_parameters _ _ = false

unfoldable pub matches : ArgMatcher → ActionIntent → Bool
unfolding matches_parameters
matches matcher intent = matches_parameters matcher intent.parameters

pub record ActionMatcher : Type 0 where
  pub backend : Option BackendKind
  pub capability : Option Ref
  pub action_type : Option ActionType
  pub parameters : ArgMatcher

unfoldable pub action_matches : ActionMatcher → ActionIntent → Bool
action_matches m intent =
    is_none_or m.backend (λ value. value == intent.backend_hint)
    && is_none_or m.capability (λ value. value == intent.capability_ref)
    && is_none_or m.action_type (λ value. value == intent.action_type)
    && matches m.parameters intent
