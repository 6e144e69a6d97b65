-- ===== src/Execution/Remote/Executor/Portable.antt =====
-- What a valid operation carries, told apart from the tests of `RemoteOperation::validate`: the
-- secrets that it refers to, and the paths that it names.
use forme_agent.Base.{
  ℕ, String, Bool, true, false, ◌||◌, List, [], ◌∷◌, ◌++◌, map, Option, none, some, ◌≡◌, ◌≢◌, ◌⊎◌,
  inl, inr, refl, sym, ap, subst, ◌∙◌, nat_eq, any, arith, All, ℕ_discrete, ok, string_eq,
}
use forme_agent.Base.Text.{codes}
use forme_agent.Policy.Path.{split, grow, name_eq, name_discrete}
use forme_agent.Protocol.Kinds.{Ref, BackendKind, backend_eq}
use forme_agent.Protocol.Actions.{
  ActionParameters, ExternalInput, BrowserOperation, ComputerOperation, AppApiOperation,
}
use forme_agent.Protocol.Remote.{RemoteOperation}
use forme_agent.Execution.Remote.{
  Digests, validate_operation, parameters_match_backend, contains_secret, contains_host_path,
  unsafe_path, is_absolute, is_parent, input_has_secret,
}

-- The backend that an action is for.
unfoldable pub backend_of : ActionParameters → BackendKind
backend_of (ActionParameters.shell _ _ _ _) = BackendKind.shell
backend_of (ActionParameters.file _ _ _) = BackendKind.file
backend_of (ActionParameters.mcp _ _ _ _ _ _) = BackendKind.mcp
backend_of (ActionParameters.notification _ _ _ _) = BackendKind.notification
backend_of (ActionParameters.browser _) = BackendKind.browser
backend_of (ActionParameters.computer _) = BackendKind.computer
backend_of (ActionParameters.pty _) = BackendKind.pty
backend_of (ActionParameters.app_api _) = BackendKind.app_api
backend_of (ActionParameters.remote _ _) = BackendKind.remote

unfoldable pub input_refs : ExternalInput → List Ref
input_refs (ExternalInput.literal _) = []
input_refs (ExternalInput.content _) = []
input_refs (ExternalInput.secret ref) = ref ∷ []

unfoldable pub optional_refs : Option ExternalInput → List Ref
unfolding input_refs
optional_refs none = []
optional_refs (some input) = input_refs input

unfoldable pub browser_refs : BrowserOperation → List Ref
unfolding input_refs
browser_refs (BrowserOperation.type _ input) = input_refs input
browser_refs _ = []

unfoldable pub computer_refs : ComputerOperation → List Ref
unfolding input_refs
computer_refs (ComputerOperation.type input) = input_refs input
computer_refs _ = []

unfoldable pub body_refs : AppApiOperation → List Ref
unfolding optional_refs
body_refs AppApiOperation.read = []
body_refs (AppApiOperation.mutation _ body _) = optional_refs body

unfoldable pub credential_refs : Option Ref → List Ref
credential_refs none = []
credential_refs (some ref) = ref ∷ []

-- The secrets and credentials that an action refers to.
unfoldable pub secret_refs : ActionParameters → List Ref
unfolding optional_refs browser_refs computer_refs body_refs credential_refs
secret_refs (ActionParameters.browser spec) = browser_refs spec.operation
secret_refs (ActionParameters.computer spec) = computer_refs spec.operation
secret_refs (ActionParameters.pty spec) =
    optional_refs spec.input ++ map (λ b. b.value) spec.environment
secret_refs (ActionParameters.app_api spec) =
    credential_refs spec.credential ++ body_refs spec.operation
secret_refs (ActionParameters.remote _ parameters) = secret_refs parameters
secret_refs _ = []

unfoldable pub optional_paths : Option String → List String
optional_paths none = []
optional_paths (some path) = path ∷ []

-- The file and the working directories that an action names.
unfoldable pub paths_of : ActionParameters → List String
unfolding optional_paths
paths_of (ActionParameters.shell _ _ cwd _) = optional_paths cwd
paths_of (ActionParameters.file _ path _) = path ∷ []
paths_of (ActionParameters.pty spec) = spec.cwd ∷ []
paths_of (ActionParameters.remote _ parameters) = paths_of parameters
paths_of _ = []

-- The text has `..` between two slashes or ends of it.
abbrev pub HasParent : List ℕ → Type 0
HasParent cs =
    (before after : List ℕ) × (cs ≡ before ++ b'.' ∷ b'.' ∷ after)
    × ((before ≡ []) ⊎ ((front : List ℕ) × (before ≡ front ++ b'/' ∷ [])))
    × ((after ≡ []) ⊎ ((rest : List ℕ) × (after ≡ b'/' ∷ rest)))

-- A relative path that never goes up.
pub record Inside (path : String) : Type 0 where
  pub is_relative : ¬ ((rest : List ℕ) × (codes path ≡ b'/' ∷ rest))
  pub stays : ¬ HasParent (codes path)

split_ne : (cs : List ℕ) → split cs ≢ []
unfolding split grow
split_ne [] e = cc
split_ne (c ∷ cs) e = ground arith

split_slash : (xs ys : List ℕ) → split (xs ++ b'/' ∷ ys) ≡ split xs ++ split ys
unfolding split grow ℕ_discrete
split_slash [] ys = refl
split_slash (c ∷ xs) ys = ground (arith, split_slash xs ys, split_ne xs)

split_behind : (xs ys : List ℕ) → split ((xs ++ b'/' ∷ []) ++ ys) ≡ split xs ++ split ys
unfolding split grow ℕ_discrete
split_behind [] ys = refl
split_behind (c ∷ xs) ys = ground (arith, split_behind xs ys, split_ne xs)

any_append :
    {A : Type 0} (p : A → Bool) (xs ys : List A) → any p (xs ++ ys) ≡ (any p xs || any p ys)
unfolding any
any_append p [] ys = refl
any_append p (x ∷ xs) ys = ground (arith, any_append p xs ys)

goes_up : List ℕ → Bool
unfolding is_parent
goes_up cs = any is_parent (split cs)

up_from :
    (after : List ℕ)
    → ((after ≡ []) ⊎ ((rest : List ℕ) × (after ≡ b'/' ∷ rest)))
    → goes_up (b'.' ∷ b'.' ∷ after) ≡ true
unfolding goes_up split grow any is_parent name_discrete ℕ_discrete
up_from after (inl e) = subst (λ a. goes_up (b'.' ∷ b'.' ∷ a) ≡ true) (sym e) refl
up_from after (inr (rest, e)) =
    subst (λ a. goes_up (b'.' ∷ b'.' ∷ a) ≡ true) (sym e)
      (ground (arith, split_slash (b'.' ∷ b'.' ∷ []) rest))

HasParent-goes_up : (cs : List ℕ) → HasParent cs → goes_up cs ≡ true
unfolding goes_up
HasParent-goes_up cs (before, after, e, inl f, g) = ground (arith, e, f, up_from after g)
HasParent-goes_up cs (before, after, e, inr (front, f), g) =
    subst (λ x. goes_up x ≡ true) (sym (e ∙ ap (λ b. b ++ b'.' ∷ b'.' ∷ after) f))
      (ground (
        arith,
        split_behind front (b'.' ∷ b'.' ∷ after),
        any_append is_parent (split front) (split (b'.' ∷ b'.' ∷ after)),
        up_from after g,
      ))

safe-Inside : (path : String) → unsafe_path path ≡ false → Inside path
unfolding unsafe_path is_absolute goes_up
safe-Inside path h = record {
  is_relative = λ r. ground (arith, h, r.1);
  stays = λ u. ground (arith, h, HasParent-goes_up (codes path) u);
}

-- An operation for another backend than `Remote`, which its parameters are for, that refers to no
-- secret and whose file and working directory are relative paths that never go up.
pub record Portable (op : RemoteOperation) : Type 0 where
  pub backend : op.backend ≢ BackendKind.remote
  pub fits : backend_of op.parameters ≡ op.backend
  pub no_secret : secret_refs op.parameters ≡ []
  pub inside : All Inside (paths_of op.parameters)

match-backend :
    (b : BackendKind) (parameters : ActionParameters)
    → parameters_match_backend b parameters ≡ true
    → backend_of parameters ≡ b
unfolding parameters_match_backend backend_of
match-backend b (ActionParameters.shell _ _ _ _) h = ground arith
match-backend b (ActionParameters.file _ _ _) h = ground arith
match-backend b (ActionParameters.mcp _ _ _ _ _ _) h = ground arith
match-backend b (ActionParameters.notification _ _ _ _) h = ground arith
match-backend b (ActionParameters.browser _) h = ground arith
match-backend b (ActionParameters.computer _) h = ground arith
match-backend b (ActionParameters.pty _) h = ground arith
match-backend b (ActionParameters.app_api _) h = ground arith
match-backend b (ActionParameters.remote _ _) h = ground arith

contains-secret_refs :
    (parameters : ActionParameters)
    → contains_secret parameters ≡ false
    → secret_refs parameters ≡ []
unfolding contains_secret secret_refs input_has_secret
contains-secret_refs (ActionParameters.shell _ _ _ _) h = refl
contains-secret_refs (ActionParameters.file _ _ _) h = refl
contains-secret_refs (ActionParameters.mcp _ _ _ _ _ _) h = refl
contains-secret_refs (ActionParameters.notification _ _ _ _) h = refl
contains-secret_refs (ActionParameters.browser spec) h = ground arith
contains-secret_refs (ActionParameters.computer spec) h = ground arith
contains-secret_refs (ActionParameters.pty spec) h = ground arith
contains-secret_refs (ActionParameters.app_api spec) h = ground arith
contains-secret_refs (ActionParameters.remote _ parameters) h = contains-secret_refs parameters h

host-path-Inside :
    (parameters : ActionParameters)
    → contains_host_path parameters ≡ false
    → All Inside (paths_of parameters)
unfolding contains_host_path paths_of
host-path-Inside (ActionParameters.shell _ _ none _) h = tt
host-path-Inside (ActionParameters.shell _ _ (some cwd) _) h = (safe-Inside cwd h, tt)
host-path-Inside (ActionParameters.file _ path _) h = (safe-Inside path h, tt)
host-path-Inside (ActionParameters.mcp _ _ _ _ _ _) h = tt
host-path-Inside (ActionParameters.notification _ _ _ _) h = tt
host-path-Inside (ActionParameters.browser _) h = tt
host-path-Inside (ActionParameters.computer _) h = tt
host-path-Inside (ActionParameters.pty spec) h = (safe-Inside spec.cwd h, tt)
host-path-Inside (ActionParameters.app_api _) h = tt
host-path-Inside (ActionParameters.remote _ parameters) h = host-path-Inside parameters h

module _ (g : Digests) where
  pub valid-Portable : (op : RemoteOperation) → validate_operation g op ≡ ok tt → Portable op
  unfolding validate_operation
  valid-Portable op h = record {
    backend = λ e. ground (arith, e, h);
    fits = match-backend op.backend op.parameters (ground arith);
    no_secret = contains-secret_refs op.parameters (ground arith);
    inside = host-path-Inside op.parameters (ground arith);
  }
