-- ===== src/Coordination/Validation/Exact.antt =====
-- `validate_route` accepts exactly the valid routes.
use forme_agent.Base.{
  ℕ, String, true, false, not, ◌||◌, List, [], ◌∷◌, some, ◌≡◌, ◌≢◌, ◌↔◌, inl, inr, refl, arith,
  string_eq, nat_eq, ◌≤◌, contains, length, any, ok,
}
use forme_agent.Base.Map.{string_ord, contains_key}
use forme_agent.Base.Members.{Member, contains-Member, Member-contains, any_none}
use forme_agent.Base.Text.{is_blank}
use forme_agent.Coordination.Route.{RouteNode, RouteEdge, ExecutionRoute}
use forme_agent.Coordination.Contract.{is_verifiable}
use forme_agent.Coordination.Validation.{
  Ids, id_set, visited_count, all_visited, edge_is_invalid, validate_route,
}
use forme_agent.Coordination.Validation.Counts.{pending_edges}
use forme_agent.Coordination.Validation.Topology.{Topological}
use forme_agent.Coordination.Validation.Acceptance.{
  different_fit, Settled, keys_of, length-keys, keys_listed, keys_present, visited-count_Sorted,
}
use forme_agent.Coordination.Validation.Correct.{
  node_ids, IsValid, id_set-Distinct, id_set_lists, ids_distinct, distinct_ids, none_any,
  keys-Nodup, all_keys,
}

pending_none :
    (done : List String) (edges : List RouteEdge) (v : String)
    → ((e : RouteEdge) → Member e edges → e.target ≡ v → Member e.source done)
    → pending_edges done edges v ≡ 0
unfolding pending_edges
pending_none done [] v h = refl
pending_none done (e ∷ es) v h =
    let first : e.target ≡ v → contains done e.source ≡ true =
      λ p. Member-contains done e.source (h e (inl refl) p) in
    ground (arith, first, pending_none done es v (λ d m. h d (inr m)))

-- Where an order exists, nothing is left over.
order_done :
    (keys : List String) (edges : List RouteEdge) (done order : List String) (v : String)
    → ((e : RouteEdge) → Member e edges → Member e.source keys)
    → Settled keys edges done
    → Topological edges order
    → Member v order
    → Member v keys
    → Member v done
order_done keys edges done [] v h s t m k = elim m [ ]
order_done keys edges done (w ∷ order) v h s (_, t) (inr m) k =
    order_done keys edges done order v h s t m k
order_done keys edges done (w ∷ order) v h s (f, t) (inl p) k = s v k (
    pending_none done edges v (λ e m q.
      order_done keys edges done order e.source h s t (f e m (ground (arith, p, q))) (h e m)))

-- The guards of the code.
record Passes (route : ExecutionRoute) : Type 0 where
  pub version : route.schema_version ≢ 0
  pub named : is_blank route.reference ≡ false
  pub counted : length (id_set route.nodes) ≡ length route.nodes
  pub complete : any (λ n. is_blank n.subtask.id || not (is_verifiable n.done)) route.nodes ≡ false
  pub joined : any (edge_is_invalid (id_set route.nodes)) route.edges ≡ false
  pub visited :
      all_visited (visited_count (id_set route.nodes) route.edges) (length (id_set route.nodes))
      ≡ true

passes : (route : ExecutionRoute) → validate_route route ≡ ok tt → Passes route
unfolding validate_route
passes route h = record {
  version = ground arith;
  named = ground arith;
  counted = ground arith;
  complete = ground arith;
  joined = ground arith;
  visited = ground arith;
}

accepted : (route : ExecutionRoute) → Passes route → validate_route route ≡ ok tt
unfolding validate_route
accepted route p = ground (arith, p.version, p.named, p.counted, p.complete, p.joined, p.visited)

id_key :
    (ns : List RouteNode) (v : String) → Member v (node_ids ns) → Member v (keys_of (id_set ns))
id_key ns v m =
    keys_listed (id_set ns) v (ground (arith, id_set_lists ns v, Member-contains (node_ids ns) v m))

Passes-IsValid : (route : ExecutionRoute) → Passes route → IsValid route
unfolding all_visited edge_is_invalid
Passes-IsValid route p =
    let (order, count, sorted, _) =
      visited-count_Sorted (id_set route.nodes) route.edges
        (id_set-Distinct route.nodes, p.joined) in
    record {
      version = p.version;
      named = p.named;
      distinct = ids_distinct route.nodes p.counted;
      complete = λ n m. ground (
        arith,
        any_none (λ n. is_blank n.subtask.id || not (is_verifiable n.done)) route.nodes n p.complete
            m,
      );
      joined = λ e m.
          joined_of e (any_none (edge_is_invalid (id_set route.nodes)) route.edges e p.joined m);
      order = order;
      forward = sorted.forward;
      covered = λ v m.
          all_keys (id_set route.nodes) order v sorted.once sorted.inside
            (ground (arith, count, p.visited)) (id_key route.nodes v m);
    }
  where
    joined_of :
        (e : RouteEdge)
        → edge_is_invalid (id_set route.nodes) e ≡ false
        → Member e.source (node_ids route.nodes)
          × Member e.target (node_ids route.nodes)
          × (e.source ≢ e.target)
    joined_of e h = (
      contains-Member (node_ids route.nodes) e.source
          (ground (arith, h, id_set_lists route.nodes e.source)),
      contains-Member (node_ids route.nodes) e.target
          (ground (arith, h, id_set_lists route.nodes e.target)),
      ground (arith, h),
    )

IsValid-Passes : (route : ExecutionRoute) → IsValid route → Passes route
unfolding all_visited edge_is_invalid contains_key
IsValid-Passes route v = record {
  version = v.version;
  named = v.named;
  counted = distinct_ids route.nodes v.distinct;
  complete =
      none_any (λ n. is_blank n.subtask.id || not (is_verifiable n.done)) route.nodes
        (λ n m. ground (arith, v.complete n m));
  joined = edges_fit;
  visited = all_seen;
}
  where
    edges_fit : any (edge_is_invalid (id_set route.nodes)) route.edges ≡ false
    edges_fit = none_any (edge_is_invalid (id_set route.nodes)) route.edges (λ e m.
        let (a, b, c) = v.joined e m in
        ground (
          arith,
          c,
          Member-contains (node_ids route.nodes) e.source a,
          Member-contains (node_ids route.nodes) e.target b,
          id_set_lists route.nodes e.source,
          id_set_lists route.nodes e.target,
        ))

    key_id :
        (w : String) → Member w (keys_of (id_set route.nodes)) → Member w (node_ids route.nodes)
    key_id w m =
        contains-Member (node_ids route.nodes) w
          (ground (arith, keys_present (id_set route.nodes) w m, id_set_lists route.nodes w))

    all_seen :
        all_visited (visited_count (id_set route.nodes) route.edges) (length (id_set route.nodes))
        ≡ true
    all_seen =
        let ids : Ids = id_set route.nodes in
        let (order, count, sorted, settled) =
          visited-count_Sorted ids route.edges (id_set-Distinct route.nodes, edges_fit) in
        let most : length order ≤ length (keys_of ids) =
          different_fit order (keys_of ids) sorted.once sorted.inside in
        let least : length (keys_of ids) ≤ length order =
          different_fit (keys_of ids) order (keys-Nodup ids (id_set-Distinct route.nodes)) (λ w m.
            order_done (keys_of ids) route.edges order v.order w
              (λ e k. id_key route.nodes e.source (v.joined e k).0) settled v.forward
              (v.covered w (key_id w m)) m) in
        ground (arith, count, most, least, length-keys ids)

-- A route is accepted exactly when it has a version and a reference, its nodes are distinct, named and
-- verifiable, its edges join different nodes of the route, and the nodes have an order in which every
-- edge points forward.
pub validate_iff : (route : ExecutionRoute) → (validate_route route ≡ ok tt) ↔ IsValid route
validate_iff route =
    ((λ h. Passes-IsValid route (passes route h)), λ v. accepted route (IsValid-Passes route v))

-- For distinct nodes and edges between them the loop over the queue ends within its fuel and without
-- panic, and visits at most all nodes.
pub visited-count_total :
    (nodes : List RouteNode) (edges : List RouteEdge)
    → any (edge_is_invalid (id_set nodes)) edges ≡ false
    → (n : ℕ) × (visited_count (id_set nodes) edges ≡ some n) × (n ≤ length (id_set nodes))
visited-count_total nodes edges h =
    let (order, count, sorted, _) =
      visited-count_Sorted (id_set nodes) edges (id_set-Distinct nodes, h) in
    (
      length order,
      count,
      ground (
        arith,
        length-keys (id_set nodes),
        different_fit order (keys_of (id_set nodes)) sorted.once sorted.inside,
      ),
    )
