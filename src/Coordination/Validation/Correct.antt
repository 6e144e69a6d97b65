-- ===== src/Coordination/Validation/Correct.antt =====
-- What a valid route is, and how the sets of `validate_route` describe its nodes.
use forme_agent.Base.{
  String, Bool, true, false, List, [], ◌∷◌, ◌≡◌, ◌≢◌, inl, inr, refl, subst, arith, string_eq,
  nat_eq, ◌+◌, ◌≤◌, if◌then◌else◌, contains, length, Bool-cases, any,
}
use forme_agent.Base.Map.{
  lookup, insert, remove, string_ord, lookup-insert, Distinct, insert-Distinct, contains_key,
}
use forme_agent.Base.Members.{Member, contains-Member, Member-contains}
use forme_agent.Base.Text.{is_blank}
use forme_agent.Coordination.Route.{RouteNode, RouteEdge, ExecutionRoute}
use forme_agent.Coordination.Contract.{is_verifiable}
use forme_agent.Coordination.Validation.{Ids, id_set}
use forme_agent.Coordination.Validation.Counts.{Nodup}
use forme_agent.Coordination.Validation.Topology.{Topological}
use forme_agent.Coordination.Validation.Acceptance.{
  different_fit, keys_of, length-keys, keys_present,
}

unfoldable pub node_ids : List RouteNode → List String
node_ids [] = []
node_ids (n ∷ ns) = n.subtask.id ∷ node_ids ns

-- The nodes are distinct, named and verifiable, the edges join different nodes, and the nodes have an
-- order in which each edge points forward.
pub record IsValid (route : ExecutionRoute) : Type 0 where
  pub version : route.schema_version ≢ 0
  pub named : is_blank route.reference ≡ false
  pub distinct : Nodup (node_ids route.nodes)
  pub complete :
      (n : RouteNode)
      → Member n route.nodes
      → (is_blank n.subtask.id ≡ false) × (is_verifiable n.done ≡ true)
  pub joined :
      (e : RouteEdge)
      → Member e route.edges
      → Member e.source (node_ids route.nodes)
        × Member e.target (node_ids route.nodes)
        × (e.source ≢ e.target)
  pub order : List String
  pub forward : Topological route.edges order
  pub covered : (v : String) → Member v (node_ids route.nodes) → Member v order

pub id_set-Distinct : (ns : List RouteNode) → Distinct (id_set ns)
unfolding id_set Distinct
id_set-Distinct [] = tt
id_set-Distinct (n ∷ ns) = insert-Distinct n.subtask.id tt (id_set ns) (id_set-Distinct ns)

pub id_set_lists :
    (ns : List RouteNode) (v : String) → contains_key v (id_set ns) ≡ contains (node_ids ns) v
unfolding id_set node_ids contains_key contains lookup
id_set_lists [] v = refl
id_set_lists (n ∷ ns) v =
    ground (arith, id_set_lists ns v, lookup-insert v n.subtask.id tt (id_set ns))

length-remove :
    (k : String) (m : Ids)
    → Distinct m
    → length (remove k m) + (if contains_key k m then 1 else 0) ≡ length m
unfolding remove contains_key lookup Distinct
length-remove k [] d = refl
length-remove k ((j, u) ∷ m) (n, d) = ground (arith, n, length-remove k m d)

length-insert :
    (k : String) (m : Ids)
    → Distinct m
    → length (insert k tt m) ≡ length m + (if contains_key k m then 0 else 1)
unfolding insert contains_key lookup Distinct
length-insert k [] d = refl
length-insert k ((j, u) ∷ m) (n, d) = ground (arith, n, length-remove k m d, length-insert k m d)

length-id_set : (ns : List RouteNode) → length (id_set ns) ≤ length ns
unfolding id_set
length-id_set [] = omega arith
length-id_set (n ∷ ns) =
    ground (arith, length-id_set ns, length-insert n.subtask.id (id_set ns) (id_set-Distinct ns))

pub ids_distinct : (ns : List RouteNode) → length (id_set ns) ≡ length ns → Nodup (node_ids ns)
unfolding id_set node_ids
ids_distinct [] h = tt
ids_distinct (n ∷ ns) h = (
  (λ m. ground (
    arith,
    h,
    Member-contains (node_ids ns) n.subtask.id m,
    id_set_lists ns n.subtask.id,
    length-id_set ns,
    length-insert n.subtask.id (id_set ns) (id_set-Distinct ns),
  )),
  ids_distinct ns (
      ground
        (arith, h, length-id_set ns, length-insert n.subtask.id (id_set ns) (id_set-Distinct ns))),
)

pub distinct_ids : (ns : List RouteNode) → Nodup (node_ids ns) → length (id_set ns) ≡ length ns
unfolding id_set node_ids
distinct_ids [] h = refl
distinct_ids (n ∷ ns) (out, h) = ground (
  arith,
  distinct_ids ns h,
  out,
  contains-Member (node_ids ns) n.subtask.id,
  id_set_lists ns n.subtask.id,
  length-insert n.subtask.id (id_set ns) (id_set-Distinct ns),
)

pub none_any :
    {A : Type 0} (p : A → Bool) (xs : List A)
    → ((a : A) → Member a xs → p a ≡ false)
    → any p xs ≡ false
unfolding any
none_any p [] h = refl
none_any p (x ∷ xs) h = ground (arith, h x (inl refl), none_any p xs (λ a m. h a (inr m)))

pub keys-Nodup : (ids : Ids) → Distinct ids → Nodup (keys_of ids)
unfolding keys_of Distinct contains_key
keys-Nodup [] d = tt
keys-Nodup ((id, _) ∷ ids) (n, d) = ((λ m. keys_present ids id m n), keys-Nodup ids d)

-- A list as long as the keys and of different keys has them all.
pub all_keys :
    (ids : Ids) (order : List String) (v : String)
    → Nodup order
    → ((w : String) → Member w order → Member w (keys_of ids))
    → length order ≡ length ids
    → Member v (keys_of ids)
    → Member v order
all_keys ids order v once inside same k = elim (Bool-cases (contains order v)) [
  | inl t ↦ contains-Member order v t
  | inr f ↦ absurd (
      ground (
        arith,
        same,
        length-keys ids,
        different_fit (v ∷ order) (keys_of ids)
            ((λ m. ground (arith, f, Member-contains order v m)), once)
            (λ w m. elim m [
              | inl p ↦ subst (λ x. Member x (keys_of ids)) p k
              | inr i ↦ inside w i
            ]),
      ))
]
