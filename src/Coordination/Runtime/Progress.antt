-- ===== src/Coordination/Runtime/Progress.antt =====
-- A valid route whose nodes are pending or done has a node that is runnable.
use forme_agent.Base.{
  String, Bool, true, false, List, [], ◌∷◌, some, ◌≡◌, ◌⊎◌, inl, inr, refl, sym, subst, arith,
  string_eq, ◌==◌, all, filter, contains, Bool-cases,
}
use forme_agent.Base.Map.{Map, lookup, string_ord}
use forme_agent.Base.Members.{Member, contains-Member, Member-contains}
use forme_agent.Coordination.Route.{RouteEdge, NodeState, RouteStatus, status_eq, node_state_eq}
use forme_agent.Coordination.Runtime.{
  RouteRuntime, dependencies_satisfied, satisfied, is_runnable, has_state,
}
use forme_agent.Coordination.Validation.Topology.{Topological}
use forme_agent.Coordination.Validation.Correct.{IsValid, node_ids}

filter-all :
    {A : Type 0} (p q : A → Bool) (xs : List A)
    → ((a : A) → Member a xs → q a ≡ true → p a ≡ true)
    → all p (filter q xs) ≡ true
unfolding all filter
filter-all p q [] h = refl
filter-all p q (x ∷ xs) h = ground (arith, h x (inl refl), filter-all p q xs (λ a m. h a (inr m)))

-- The nodes of the order that belong to the route are done, or one of them is ready.
module _ (ids : List String) (edges : List RouteEdge) (m : Map String NodeState)
    (fresh : (v : String)
      → Member v ids
      → (lookup v m ≡ some NodeState.pending) ⊎ (lookup v m ≡ some NodeState.done))
    (sources : (e : RouteEdge) → Member e edges → Member e.source ids) where
  Ready : Type 0
  Ready =
      (w : String) × (lookup w m ≡ some NodeState.pending)
      × (dependencies_satisfied edges m w ≡ true)

  AllDone : List String → Type 0
  AllDone order = (v : String) → Member v order → Member v ids → lookup v m ≡ some NodeState.done

  ready_at :
      (v : String) (order : List String)
      → lookup v m ≡ some NodeState.pending
      → ((e : RouteEdge) → Member e edges → e.target ≡ v → Member e.source order)
      → AllDone order
      → Ready
  unfolding Ready AllDone dependencies_satisfied satisfied
  ready_at v order p into d = (
    v,
    p,
    filter-all (λ e. satisfied e (lookup e.source m)) (λ e. e.target == v) edges
        (λ e k t. ground (arith, d e.source (into e k (ground (arith, t))) (sources e k))),
  )

  first_ready : (order : List String) → Topological edges order → Ready ⊎ AllDone order
  unfolding AllDone
  first_ready [] t = inr (λ v k i. elim k [ ])
  first_ready (v ∷ order) (into, t) = extend (first_ready order t) (Bool-cases (contains ids v))
    where
      settled :
          AllDone order → (Member v ids → lookup v m ≡ some NodeState.done) → AllDone (v ∷ order)
      settled d q w k i = elim k [
        | inl e ↦
            subst (λ x. lookup x m ≡ some NodeState.done) e
              (q (subst (λ x. Member x ids) (sym e) i))
        | inr j ↦ d w j i
      ]

      extend :
          Ready ⊎ AllDone order
          → ((contains ids v ≡ true) ⊎ (contains ids v ≡ false))
          → Ready ⊎ AllDone (v ∷ order)
      extend (inl r) c = inl r
      extend (inr d) (inr f) =
          inr (settled d (λ i. absurd (ground (arith, f, Member-contains ids v i))))
      extend (inr d) (inl c) = elim (fresh v (contains-Member ids v c)) [
        | inl p ↦ inl (ready_at v order p into d)
        | inr e ↦ inr (settled d (λ i. e))
      ]

-- In a running route that is valid and whose nodes are all pending or done, some node is runnable, which is
-- the first test of its start, as long as one is pending.
pub is-runnable_progress :
    (s : RouteRuntime) (v : String)
    → IsValid s.route
    → s.status ≡ RouteStatus.running
    → ((w : String)
        → Member w (node_ids s.route.nodes)
        → (lookup w s.states ≡ some NodeState.pending) ⊎ (lookup w s.states ≡ some NodeState.done))
    → Member v (node_ids s.route.nodes)
    → lookup v s.states ≡ some NodeState.pending
    → (w : String) × (is_runnable w s ≡ true)
unfolding is_runnable has_state Ready AllDone
is-runnable_progress s v valid run each k p = found (
    first_ready (node_ids s.route.nodes) s.route.edges s.states each (λ e m. (valid.joined e m).0)
      valid.order valid.forward)
  where
    found :
        Ready (node_ids s.route.nodes) s.route.edges s.states each (λ e m. (valid.joined e m).0)
          ⊎ AllDone
              (node_ids s.route.nodes)
              s.route.edges
              s.states
              each
              (λ e m. (valid.joined e m).0)
              valid.order
        → (w : String) × (is_runnable w s ≡ true)
    found (inl (w, q, r)) = (w, ground (arith, run, q, r))
    found (inr d) = absurd (ground (arith, p, d v (valid.covered v k) k))
