-- ===== src/Coordination/Validation/Acceptance.antt =====
-- Which routes `validate_route` accepts.
use forme_agent.Base.{
  ℕ, zero, suc, String, true, false, List, [], ◌∷◌, none, some, ◌≡◌, ◌≢◌, ◌⊎◌, inl, inr, refl, sym,
  subst, arith, string_eq, nat_eq, ◌==◌, ◌+◌, ◌≤◌, if◌then◌else◌, length, Bool-cases, Option-cases,
  any,
}
use forme_agent.Base.Map.{Map, lookup, string_ord, Distinct, contains_key}
use forme_agent.Base.Members.{Member, contains-Member, any_none}
use forme_agent.Coordination.Route.{RouteEdge}
use forme_agent.Coordination.Budget.{or_zero}
use forme_agent.Coordination.Validation.{
  Ids, zero_degrees, indegrees, roots, visit, visited_count, edge_is_invalid,
}
use forme_agent.Coordination.Validation.Counts.{
  Nodup, pending_edges, edges_between, pending_zero, indegrees_count, indegrees-Distinct,
  zero_count, zero_key, zero-Distinct, indegrees_key, roots_zero, roots-Nodup, roots_complete,
  zero_present, indegrees_present,
}
use forme_agent.Coordination.Validation.Topology.{Topological, Level, relax-Level, pop-Level}

-- Different members of a list are no more than the list is long.
without : String → List String → List String
without x [] = []
without x (y ∷ ys) = let rest = without x ys in if y == x then rest else y ∷ rest

length-without : (x : String) (ys : List String) → length (without x ys) ≤ length ys
unfolding without
length-without x [] = omega arith
length-without x (y ∷ ys) = ground (arith, length-without x ys)

length-without_member :
    (x : String) (ys : List String) → Member x ys → length (without x ys) + 1 ≤ length ys
unfolding without
length-without_member x [] m = elim m [ ]
length-without_member x (y ∷ ys) (inl p) = ground (arith, length-without x ys)
length-without_member x (y ∷ ys) (inr m) = ground (arith, length-without_member x ys m)

without_keeps : (x v : String) (ys : List String) → x ≢ v → Member v ys → Member v (without x ys)
unfolding without
without_keeps x v [] n m = elim m [ ]
without_keeps x v (y ∷ ys) n m = pick (Bool-cases (y == x)) m (without_keeps x v ys n)
  where
    pick :
        ((y == x) ≡ true) ⊎ ((y == x) ≡ false)
        → (y ≡ v) ⊎ Member v ys
        → (Member v ys → Member v (without x ys))
        → Member v (if y == x then without x ys else y ∷ without x ys)
    pick b (inl p) r = ground (arith, n, p)
    pick (inl b) (inr k) r = ground (arith, b, r k)
    pick (inr b) (inr k) r = ground (arith, b, r k)

pub different_fit :
    (xs ys : List String)
    → Nodup xs
    → ((v : String) → Member v xs → Member v ys)
    → length xs ≤ length ys
different_fit [] ys d h = omega arith
different_fit (x ∷ xs) ys (out, d) h = ground (
  arith,
  length-without_member x ys (h x (inl refl)),
  different_fit xs (without x ys) d
      (λ v m. without_keeps x v ys (λ p. out (subst (λ w. Member w xs) (sym p) m)) (h v (inr m))),
)

-- What the loop returns: the length of an order in which every edge points forward.
module _ (keys : List String) (edges : List RouteEdge) where
  pub record Sorted (done : List String) : Type 0 where
    pub once : Nodup done
    pub forward : Topological edges done
    pub inside : (v : String) → Member v done → Member v keys

  source_done :
      (done : List String) (id : String) (degrees : Map String ℕ) (queue : List String)
      (e : RouteEdge)
      → Level keys edges done (edges_between id []) degrees (id ∷ queue)
      → Member e edges
      → e.target ≡ id
      → Member e.source done
  unfolding edges_between
  source_done done id degrees queue e l m p = contains-Member done e.source (
      pending_zero done edges id e (ground (arith, l.counted id 0 (l.queue_zero id (inl refl)))) m
        p)

  pop-Sorted :
      (done : List String) (id : String) (degrees : Map String ℕ) (queue : List String)
      → Level keys edges done (edges_between id []) degrees (id ∷ queue)
      → Sorted done
      → Sorted (id ∷ done)
  pop-Sorted done id degrees queue l s = record {
    once = (l.apart id (inl refl), s.once);
    forward = ((λ e m p. source_done done id degrees queue e l m p), s.forward);
    inside = λ v m. elim m [
      | inl p ↦ subst (λ x. Member x keys) p (l.keyed id 0 (l.queue_zero id (inl refl)))
      | inr k ↦ s.inside v k
    ];
  }

  -- Whatever waits for nothing that is not done is done.
  abbrev pub Settled : List String → Type 0
  Settled done = (v : String) → Member v keys → pending_edges done edges v ≡ 0 → Member v done

  end-Settled :
      (done : List String) (last : String) (degrees : Map String ℕ)
      → Level keys edges done (edges_between last []) degrees []
      → Settled done
  unfolding edges_between
  end-Settled done last degrees l v k h = elim (Option-cases (lookup v degrees)) [
    | inl e ↦ absurd (l.present v k e)
    | inr (n, e) ↦ elim (l.zero_seen v (ground (arith, e, h, l.counted v n e))) [
      | inl m ↦ elim m [ ]
      | inr m ↦ m
    ]
  ]

  visit-Sorted :
      (fuel : ℕ) (done : List String) (last : String) (degrees : Map String ℕ) (queue : List String)
      → Level keys edges done (edges_between last []) degrees queue
      → Sorted done
      → length keys ≤ length done + fuel
      → (order : List String) × (visit fuel edges degrees queue (length done) ≡ some (length order))
        × Sorted order
        × Settled order
  unfolding visit edges_between
  visit-Sorted fuel done last degrees [] l s f = (done, refl, s, end-Settled done last degrees l)
  visit-Sorted zero done last degrees (id ∷ queue) l s f =
      let more = pop-Sorted done id degrees queue l s in
      absurd (ground (arith, f, different_fit (id ∷ done) keys more.once more.inside))
  visit-Sorted (suc fuel) done last degrees (id ∷ queue) l s f =
      let (p, e, l') =
        relax-Level keys edges (id ∷ done) id edges degrees queue
          (pop-Level keys edges done id degrees queue l) in
      let (order, g, s', t) =
        visit-Sorted fuel (id ∷ done) id p.0 p.1 l' (pop-Sorted done id degrees queue l s)
          (ground (arith, f)) in
      (order, ground (arith, e, g), s', t)

unfoldable pub keys_of : Ids → List String
keys_of [] = []
keys_of ((id, _) ∷ ids) = id ∷ keys_of ids

pub length-keys : (ids : Ids) → length (keys_of ids) ≡ length ids
unfolding keys_of
length-keys [] = refl
length-keys (_ ∷ ids) = ground (arith, length-keys ids)

pub keys_listed : (ids : Ids) (v : String) → contains_key v ids ≡ true → Member v (keys_of ids)
unfolding keys_of contains_key lookup
keys_listed [] v h = cc
keys_listed ((id, _) ∷ ids) v h = ground (arith, keys_listed ids v)

pub keys_present : (ids : Ids) (v : String) → Member v (keys_of ids) → lookup v ids ≢ none
unfolding keys_of lookup
keys_present [] v m = elim m [ ]
keys_present ((id, _) ∷ ids) v (inl p) = λ e. ground (arith, p, e)
keys_present ((id, _) ∷ ids) v (inr m) = λ e. ground (arith, e, keys_present ids v m)

abbrev pub Valid : Ids → List RouteEdge → Type 0
Valid ids edges = Distinct ids × (any (edge_is_invalid ids) edges ≡ false)

target_key :
    (ids : Ids) (edges : List RouteEdge) (e : RouteEdge)
    → any (edge_is_invalid ids) edges ≡ false
    → Member e edges
    → contains_key e.target ids ≡ true
unfolding edge_is_invalid
target_key ids edges e h m = ground (arith, any_none (edge_is_invalid ids) edges e h m)

degree_key :
    (ids : Ids) (edges : List RouteEdge) (v : String) (n : ℕ)
    → any (edge_is_invalid ids) edges ≡ false
    → lookup v (indegrees edges (zero_degrees ids)) ≡ some n
    → Member v (keys_of ids)
unfolding contains_key
degree_key ids edges v n h e = elim (Option-cases (lookup v ids)) [
  | inr (u, f) ↦ keys_listed ids v (ground (arith, f))
  | inl f ↦ absurd (
      ground (
        arith,
        e,
        indegrees_key edges (zero_degrees ids) v
            (λ d m p. ground (arith, p, f, target_key ids edges d h m)) (zero_key ids v f),
      ))
]

start-Level :
    (ids : Ids) (edges : List RouteEdge)
    → Valid ids edges
    → Level
        (keys_of ids)
        edges
        []
        (edges_between "" [])
        (indegrees edges (zero_degrees ids))
        (roots (indegrees edges (zero_degrees ids)))
unfolding edges_between or_zero
start-Level ids edges (d, h) =
    let distinct : Distinct (indegrees edges (zero_degrees ids)) =
      indegrees-Distinct edges (zero_degrees ids) (zero-Distinct ids d) in
    record {
      counted =
          λ v n e. ground (arith, e, indegrees_count edges (zero_degrees ids) v, zero_count ids v);
      queue_zero = λ v m. roots_zero (indegrees edges (zero_degrees ids)) v distinct m;
      done_zero = λ v m. elim m [ ];
      once = roots-Nodup (indegrees edges (zero_degrees ids)) distinct;
      apart = λ v m k. elim k [ ];
      keyed = λ v n e. degree_key ids edges v n h e;
      present = λ v k.
          indegrees_present edges (zero_degrees ids) v (zero_present ids v (keys_present ids v k));
      zero_seen = λ v e. inl (roots_complete (indegrees edges (zero_degrees ids)) v e);
    }

-- For distinct nodes and edges between them the loop ends within its fuel and without panic.
pub visited-count_Sorted :
    (ids : Ids) (edges : List RouteEdge)
    → Valid ids edges
    → (order : List String) × (visited_count ids edges ≡ some (length order))
      × Sorted (keys_of ids) edges order
      × Settled (keys_of ids) edges order
unfolding visited_count
visited-count_Sorted ids edges v =
    visit-Sorted (keys_of ids) edges (length ids) [] "" (indegrees edges (zero_degrees ids))
      (roots (indegrees edges (zero_degrees ids))) (start-Level ids edges v)
      (record { once = tt; forward = tt; inside = λ w m. elim m [ ] })
      (ground (arith, length-keys ids))
