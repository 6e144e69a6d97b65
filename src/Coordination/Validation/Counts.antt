-- ===== src/Coordination/Validation/Counts.antt =====
-- What the degrees of Kahn's algorithm count.
use forme_agent.Base.{
  ℕ, String, Bool, true, false, not, ◌&&◌, List, [], ◌∷◌, none, some, ◌≡◌, ◌≢◌, inl, inr, refl,
  subst, arith, string_eq, nat_eq, ◌==◌, ◌+◌, if◌then◌else◌, contains, ap,
}
use forme_agent.Base.Map.{Map, lookup, insert, string_ord, lookup-insert, Distinct, insert-Distinct}
use forme_agent.Base.Members.{Member}
use forme_agent.Base.Text.{string_discrete}
use forme_agent.Coordination.Route.{RouteEdge}
use forme_agent.Coordination.Budget.{or_zero}
use forme_agent.Coordination.Validation.{Ids, zero_degrees, indegrees, roots}

abbrev pub Nodup : List String → Type 0
Nodup [] = Unit
Nodup (x ∷ xs) = (¬ Member x xs) × Nodup xs

-- Edges into a node from nodes that are not done, and edges from one node to another.
unfoldable pub pending_edges : List String → List RouteEdge → String → ℕ
pending_edges done [] v = 0
pending_edges done (e ∷ es) v =
    (if e.target == v && not (contains done e.source) then 1 else 0) + pending_edges done es v

unfoldable pub edges_between : String → List RouteEdge → String → ℕ
edges_between id [] v = 0
edges_between id (e ∷ es) v =
    (if e.source == id && e.target == v then 1 else 0) + edges_between id es v

pub pending_pop :
    (done : List String) (id : String) (es : List RouteEdge) (v : String)
    → contains done id ≡ false
    → pending_edges done es v ≡ pending_edges (id ∷ done) es v + edges_between id es v
unfolding pending_edges edges_between contains
pending_pop done id [] v n = refl
pending_pop done id (e ∷ es) v n = ground (arith, pending_pop done id es v n)

pub pending_zero :
    (done : List String) (es : List RouteEdge) (v : String) (e : RouteEdge)
    → pending_edges done es v ≡ 0
    → Member e es
    → e.target ≡ v
    → contains done e.source ≡ true
unfolding pending_edges
pending_zero done [] v e h m t = elim m [ ]
pending_zero done (d ∷ es) v e h (inl p) t =
    subst (λ x. contains done x.source ≡ true) p (ground (arith, h, ap (λ x. x.target) p, t))
pending_zero done (d ∷ es) v e h (inr m) t = pending_zero done es v e (ground (arith, h)) m t

-- The degrees at the start count the edges into each node.
pub indegrees_count :
    (es : List RouteEdge) (m : Map String ℕ) (v : String)
    → or_zero (lookup v (indegrees es m)) ≡ pending_edges [] es v + or_zero (lookup v m)
unfolding indegrees pending_edges or_zero contains
indegrees_count [] m v = omega arith
indegrees_count (e ∷ es) m v = ground (
  arith,
  indegrees_count es (insert e.target (or_zero (lookup e.target m) + 1) m) v,
  lookup-insert v e.target (or_zero (lookup e.target m) + 1) m,
)

pub indegrees-Distinct :
    (es : List RouteEdge) (m : Map String ℕ) → Distinct m → Distinct (indegrees es m)
unfolding indegrees
indegrees-Distinct [] m d = d
indegrees-Distinct (e ∷ es) m d =
    indegrees-Distinct es (insert e.target (or_zero (lookup e.target m) + 1) m)
      (insert-Distinct e.target (or_zero (lookup e.target m) + 1) m d)

pub zero_count : (ids : Ids) (v : String) → or_zero (lookup v (zero_degrees ids)) ≡ 0
unfolding zero_degrees lookup or_zero
zero_count [] v = refl
zero_count ((id, u) ∷ ids) v = ground (arith, zero_count ids v)

pub zero_key : (ids : Ids) (v : String) → lookup v ids ≡ none → lookup v (zero_degrees ids) ≡ none
unfolding zero_degrees lookup
zero_key [] v h = refl
zero_key ((id, u) ∷ ids) v h = ground (arith, zero_key ids v)

pub zero-Distinct : (ids : Ids) → Distinct ids → Distinct (zero_degrees ids)
unfolding zero_degrees Distinct
zero-Distinct [] d = tt
zero-Distinct ((id, u) ∷ ids) (n, d) = (zero_key ids id n, zero-Distinct ids d)

pub indegrees_key :
    (es : List RouteEdge) (m : Map String ℕ) (v : String)
    → ((e : RouteEdge) → Member e es → e.target ≢ v)
    → lookup v m ≡ none
    → lookup v (indegrees es m) ≡ none
unfolding indegrees
indegrees_key [] m v out h = h
indegrees_key (e ∷ es) m v out h =
    indegrees_key es (insert e.target (or_zero (lookup e.target m) + 1) m) v (λ d k. out d (inr k))
      (ground
        (arith, out e (inl refl), h, lookup-insert v e.target (or_zero (lookup e.target m) + 1) m))

roots_listed : (m : Map String ℕ) (v : String) → lookup v m ≡ none → ¬ Member v (roots m)
unfolding roots lookup
roots_listed [] v h k = elim k [ ]
roots_listed ((id, n) ∷ m) v h k = ground (arith, roots_listed m v)

pub roots_zero :
    (m : Map String ℕ) (v : String) → Distinct m → Member v (roots m) → lookup v m ≡ some 0
unfolding roots lookup Distinct
roots_zero [] v d k = elim k [ ]
roots_zero ((id, n) ∷ m) v (out, d) k = ground (arith, out, roots_zero m v d, roots_listed m id)

pub roots-Nodup : (m : Map String ℕ) → Distinct m → Nodup (roots m)
unfolding roots Distinct
roots-Nodup [] d = tt
roots-Nodup ((id, k) ∷ m) (n, d) = kept (k == 0) (roots-Nodup m d)
  where
    kept : (b : Bool) → Nodup (roots m) → Nodup (if b then id ∷ roots m else roots m)
    kept true h = (roots_listed m id n, h)
    kept false h = h

pub roots_complete : (m : Map String ℕ) (v : String) → lookup v m ≡ some 0 → Member v (roots m)
unfolding roots lookup
roots_complete [] v h = cc
roots_complete ((id, n) ∷ m) v h = elim (string_discrete id v) [
  | yes p ↦ ground (arith, p, h)
  | no q ↦ kept (n == 0) (roots_complete m v (ground (arith, q, h)))
]
  where
    kept : (b : Bool) → Member v (roots m) → Member v (if b then id ∷ roots m else roots m)
    kept true k = inr k
    kept false k = k

pub zero_present :
    (ids : Ids) (v : String) → lookup v ids ≢ none → lookup v (zero_degrees ids) ≢ none
unfolding zero_degrees lookup
zero_present [] v h p = h refl
zero_present ((id, u) ∷ ids) v h p = ground (arith, zero_present ids v)

pub indegrees_present :
    (es : List RouteEdge) (m : Map String ℕ) (v : String)
    → lookup v m ≢ none
    → lookup v (indegrees es m) ≢ none
unfolding indegrees
indegrees_present [] m v h = h
indegrees_present (e ∷ es) m v h =
    indegrees_present es (insert e.target (or_zero (lookup e.target m) + 1) m) v
      (λ p. ground (arith, h, p, lookup-insert v e.target (or_zero (lookup e.target m) + 1) m))
