-- ===== src/Coordination/Validation.antt =====
-- crates/coordination/src/lib.rs: `validate_route`, which orders the nodes by Kahn's algorithm.
pub mod Counts
pub mod Topology
pub mod Acceptance
pub mod Correct
pub mod Exact
use forme_agent.Base.{
  ℕ, zero, suc, String, Bool, true, false, not, ◌||◌, List, [], ◌∷◌, ◌++◌, Option, none, some,
  Result, ok, err, ◌>>=◌, ◌>>◌, reject, if◌then◌else◌, ◌==◌, ◌!=◌, nat_eq, string_eq, ◌+◌, length,
  any,
}
use forme_agent.Base.Map.{Map, lookup, insert, contains_key, string_ord}
use forme_agent.Base.Text.{is_blank}
use forme_agent.Coordination.Contract.{is_verifiable}
use forme_agent.Coordination.Route.{
  RouteNode, RouteEdge, ExecutionRoute, Error, route_incomplete, nodes_invalid, edge_invalid,
  cyclic,
}
use forme_agent.Coordination.Budget.{or_zero}

abbrev pub Ids : Type 0
Ids = Map String (Unit {0})

unfoldable pub id_set : List RouteNode → Ids
id_set [] = []
id_set (n ∷ ns) = insert n.subtask.id tt (id_set ns)

unfoldable pub zero_degrees : Ids → Map String ℕ
zero_degrees [] = []
zero_degrees ((id, _) ∷ ids) = (id, 0) ∷ zero_degrees ids

unfoldable pub indegrees : List RouteEdge → Map String ℕ → Map String ℕ
indegrees [] degrees = degrees
indegrees (e ∷ es) degrees =
    indegrees es (insert e.target (or_zero (lookup e.target degrees) + 1) degrees)

unfoldable pub roots : Map String ℕ → List String
roots [] = []
roots ((id, degree) ∷ m) = let rest = roots m in if degree == 0 then id ∷ rest else rest

-- `*degree -= 1`, which panics at 0: `none`. Validation never comes there.
unfoldable pub lowered :
    String → Option ℕ → Map String ℕ → List String → Option (Map String ℕ × List String)
lowered target none degrees queue = some (degrees, queue)
lowered target (some zero) degrees queue = none
lowered target (some (suc d)) degrees queue =
    some (insert target d degrees, if d == 0 then queue ++ (target ∷ []) else queue)

unfoldable pub lower :
    RouteEdge → String → Map String ℕ → List String → Option (Map String ℕ × List String)
unfolding lowered
lower e id degrees queue =
    if e.source == id
    then lowered e.target (lookup e.target degrees) degrees queue
    else some (degrees, queue)

unfoldable pub relax :
    List RouteEdge → String → Map String ℕ → List String → Option (Map String ℕ × List String)
unfolding lower
relax [] id degrees queue = some (degrees, queue)
relax (e ∷ es) id degrees queue = elim (lower e id degrees queue) [
  | none ↦ none
  | some p ↦ relax es id p.0 p.1
]

-- The loop over the queue, with as much fuel as there are nodes; `none` is a panic, or fuel that ran out.
unfoldable pub visit : ℕ → List RouteEdge → Map String ℕ → List String → ℕ → Option ℕ
unfolding relax
visit fuel edges degrees [] visited = some visited
visit zero edges degrees (id ∷ queue) visited = none
visit (suc fuel) edges degrees (id ∷ queue) visited = elim (relax edges id degrees queue) [
  | none ↦ none
  | some p ↦ visit fuel edges p.0 p.1 (suc visited)
]

unfoldable pub visited_count : Ids → List RouteEdge → Option ℕ
unfolding zero_degrees indegrees roots visit
visited_count ids edges =
    let degrees = indegrees edges (zero_degrees ids) in
    visit (length ids) edges degrees (roots degrees) 0

unfoldable pub all_visited : Option ℕ → ℕ → Bool
all_visited none n = false
all_visited (some visited) n = visited == n

unfoldable pub edge_is_invalid : Ids → RouteEdge → Bool
edge_is_invalid ids e =
    not (contains_key e.source ids) || not (contains_key e.target ids) || e.source == e.target

unfoldable pub validate_route : ExecutionRoute → Result Error (Unit {0})
unfolding id_set visited_count all_visited edge_is_invalid
validate_route route = do
  reject (route.schema_version == 0 || is_blank route.reference) route_incomplete
  reject
      (length ids != length route.nodes
        || any (λ n. is_blank n.subtask.id || not (is_verifiable n.done)) route.nodes)
      nodes_invalid
  reject (any (edge_is_invalid ids) route.edges) edge_invalid
  reject (not (all_visited (visited_count ids route.edges) (length ids))) cyclic
  ok tt
  where
    ids : Ids
    ids = id_set route.nodes
