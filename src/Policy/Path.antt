-- ===== src/Policy/Path.antt =====
-- crates/policy/src/lib.rs: `path_within` and `normalized_path`, on the code points of a path.
pub mod Components
pub mod Within
mod Tests
use forme_agent.Base.{
  ℕ, ◌+◌, Bool, false, ◌&&◌, ◌||◌, List, [], ◌∷◌, ◌++◌, map, Option, none, some, Eq, ◌==◌, nat_eq,
  if◌then◌else◌, leb, ℕ_discrete,
}
use mathlib.Core.List.{reverse}

-- One component of a path, as code points.
abbrev pub Name : Type 0
Name = List ℕ

unfoldable pub name_discrete : Discrete Name
name_discrete = hlevel ℕ_discrete

instance abbrev pub name_eq : Eq Name
name_eq = record { discrete = name_discrete }

-- `path.replace('\\', "/").to_ascii_lowercase()`, on one character.
pub fold_char : ℕ → ℕ
fold_char c = if c == b'\\' then b'/' else if leb b'A' c && leb c b'Z' then c + 32 else c

-- Put a character in front of the first piece.
unfoldable pub grow : ℕ → List Name → List Name
grow c [] = (c ∷ []) ∷ []
grow c (p ∷ ps) = (c ∷ p) ∷ ps

-- `path.split('/')`.
unfoldable pub split : List ℕ → List Name
unfolding grow
split [] = [] ∷ []
split (c ∷ cs) = if c == b'/' then [] ∷ split cs else grow c (split cs)

-- `last.ends_with(':')`.
pub ends_with_colon : Name → Bool
ends_with_colon [] = false
ends_with_colon (c ∷ []) = c == b':'
ends_with_colon (c ∷ d ∷ cs) = ends_with_colon (d ∷ cs)

-- The `match` on a component; the components so far are kept newest first.
pub data Part : Type 0 where
  empty current parent value : Part

pub part : Name → Part
part [] = Part.empty
part (c ∷ []) = if c == b'.' then Part.current else Part.value
part (c ∷ d ∷ []) = if c == b'.' && d == b'.' then Part.parent else Part.value
part (c ∷ d ∷ e ∷ cs) = Part.value

pub pop : List Name → Option (List Name)
unfolding ends_with_colon
pop [] = none
pop ([] ∷ acc) = none
pop ((c ∷ cs) ∷ acc) = if ends_with_colon (c ∷ cs) then none else some acc

pub push_empty : List Name → List Name
push_empty [] = [] ∷ []
push_empty (p ∷ acc) = p ∷ acc

pub step : List Name → Name → Option (List Name)
unfolding part pop push_empty
step acc name = elim (part name) [
  | Part.empty ↦ some (push_empty acc)
  | Part.current ↦ some acc
  | Part.parent ↦ pop acc
  | Part.value ↦ some (name ∷ acc)
]

pub walk : List Name → List Name → Option (List Name)
unfolding step
walk acc [] = some acc
walk acc (name ∷ names) = elim (step acc name) [ none ↦ none | some acc' ↦ walk acc' names ]

-- The components that are left at the end of the loop, oldest first.
pub components : List ℕ → Option (List Name)
unfolding walk split fold_char
components path = elim (walk [] (split (map fold_char path))) [
  | none ↦ none
  | some acc ↦ some (reverse acc)
]

-- `components.join("/")`.
pub join : List Name → List ℕ
join [] = []
join (p ∷ []) = p
join (p ∷ q ∷ ps) = p ++ (b'/' ∷ join (q ∷ ps))

pub joined : List Name → Option (List ℕ)
unfolding join
joined [] = none
joined (p ∷ ps) = some (join (p ∷ ps))

pub normalized_path : List ℕ → Option (List ℕ)
unfolding components joined
normalized_path path = elim (components path) [ none ↦ none | some names ↦ joined names ]

-- `path.strip_prefix(&root).is_some_and(|rest| rest.starts_with('/'))`.
pub continues : List ℕ → List ℕ → Bool
continues (c ∷ path) (d ∷ root) = c == d && continues path root
continues (c ∷ path) [] = c == b'/'
continues [] root = false

pub within : List ℕ → List ℕ → Bool
unfolding continues
within root path = path == root || continues path root

unfoldable pub path_within : List ℕ → List ℕ → Bool
unfolding normalized_path within
path_within root path = elim (normalized_path root) [
  | none ↦ false
  | some r ↦ elim (normalized_path path) [ none ↦ false | some p ↦ within r p ]
]
