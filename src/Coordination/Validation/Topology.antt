-- ===== src/Coordination/Validation/Topology.antt =====
-- The order that Kahn's algorithm finds, and that its loop ends in time.
use forme_agent.Base.{
  ℕ, zero, suc, String, Bool, true, false, List, [], ◌∷◌, ◌++◌, Option, none, some, ◌≡◌, ◌≢◌, ◌⊎◌,
  inl, inr, refl, sym, subst, arith, string_eq, nat_eq, ◌==◌, ◌+◌, if◌then◌else◌, contains,
  Bool-cases,
}
use forme_agent.Base.Map.{Map, lookup, insert, string_ord, lookup-insert}
use forme_agent.Base.Members.{Member, contains-Member}
use forme_agent.Base.Text.{string_discrete}
use forme_agent.Coordination.Route.{RouteEdge}
use forme_agent.Coordination.Validation.{lower, lowered, relax}
use forme_agent.Coordination.Validation.Counts.{Nodup, pending_edges, edges_between, pending_pop}

-- Each node stands after the sources of all edges into it; the last node comes first in the list.
abbrev pub Topological : List RouteEdge → List String → Type 0
Topological edges [] = Unit
Topological edges (v ∷ done) =
    ((e : RouteEdge) → Member e edges → e.target ≡ v → Member e.source done)
    × Topological edges done

-- Between two steps: `extra` edges of the node in hand are still to be counted off.
pub record Level (keys : List String) (edges : List RouteEdge) (done : List String)
    (extra : String → ℕ) (degrees : Map String ℕ) (queue : List String) : Type 0 where
  pub counted :
      (v : String) (n : ℕ) → lookup v degrees ≡ some n → n ≡ pending_edges done edges v + extra v
  pub queue_zero : (v : String) → Member v queue → lookup v degrees ≡ some 0
  pub done_zero : (v : String) → Member v done → lookup v degrees ≡ some 0
  pub once : Nodup queue
  pub apart : (v : String) → Member v queue → ¬ Member v done
  pub keyed : (v : String) (n : ℕ) → lookup v degrees ≡ some n → Member v keys
  pub present : (v : String) → Member v keys → lookup v degrees ≢ none
  pub zero_seen : (v : String) → lookup v degrees ≡ some 0 → Member v queue ⊎ Member v done

append-Member :
    (xs : List String) (x v : String) → Member v (xs ++ (x ∷ [])) → Member v xs ⊎ (x ≡ v)
append-Member [] x v (inl p) = inr p
append-Member [] x v (inr m) = elim m [ ]
append-Member (y ∷ ys) x v (inl p) = inl (inl p)
append-Member (y ∷ ys) x v (inr m) = elim (append-Member ys x v m) [
  | inl k ↦ inl (inr k)
  | inr p ↦ inr p
]

append_old : (xs : List String) (x v : String) → Member v xs → Member v (xs ++ (x ∷ []))
append_old [] x v m = elim m [ ]
append_old (y ∷ ys) x v (inl p) = inl p
append_old (y ∷ ys) x v (inr m) = inr (append_old ys x v m)

append_new : (xs : List String) (x : String) → Member x (xs ++ (x ∷ []))
append_new [] x = inl refl
append_new (y ∷ ys) x = inr (append_new ys x)

append-Nodup : (xs : List String) (x : String) → Nodup xs → ¬ Member x xs → Nodup (xs ++ (x ∷ []))
append-Nodup [] x d n = ((λ m. elim m [ ]), tt)
append-Nodup (y ∷ ys) x (out, d) n = (
  (λ m. elim (append-Member ys x y m) [ inl k ↦ out k | inr p ↦ n (inl (sym p)) ]),
  append-Nodup ys x d (λ k. n (inr k)),
)

module _ (keys : List String) (edges : List RouteEdge) (done : List String) where
  -- Lowering the degree of a node that is counted once more.
  lowered-Level :
      (extra extra' : String → ℕ) (target : String) (degrees : Map String ℕ) (queue : List String)
      (d : ℕ)
      → lookup target degrees ≡ some (suc d)
      → ((v : String) → extra v ≡ (if target == v then 1 else 0) + extra' v)
      → Level keys edges done extra degrees queue
      → Level keys edges done extra'
          (insert target d degrees)
          (if d == 0 then queue ++ (target ∷ []) else queue)
  lowered-Level extra extra' target degrees queue d f count l = record {
    counted = λ v n e.
        ground
          (arith, f, count v, l.counted v (suc n), l.counted v n, lookup-insert v target d degrees);
    queue_zero = λ v m. queued v (d == 0) refl m;
    done_zero = λ v m. ground (arith, f, l.done_zero v m, lookup-insert v target d degrees);
    once = once (d == 0);
    apart = λ v m. apart v (d == 0) m;
    keyed = λ v n e.
        ground (arith, f, l.keyed v n, l.keyed v (suc d), lookup-insert v target d degrees);
    present = λ v m. ground (arith, l.present v m, lookup-insert v target d degrees);
    zero_seen = λ v e. seen v (d == 0) refl e;
  }
    where
      still :
          (v : String) (b : Bool)
          → Member v queue
          → Member v (if b then queue ++ (target ∷ []) else queue)
      still v true m = append_old queue target v m
      still v false m = m

      at :
          (v : String) (b : Bool)
          → (d == 0) ≡ b
          → lookup v (insert target d degrees) ≡ some 0
          → target ≡ v
          → Member v (if b then queue ++ (target ∷ []) else queue)
      at v true e f p = subst (λ x. Member x (queue ++ (target ∷ []))) p (append_new queue target)
      at v false e f p = absurd (ground (arith, e, f, p, lookup-insert v target d degrees))

      seen :
          (v : String) (b : Bool)
          → (d == 0) ≡ b
          → lookup v (insert target d degrees) ≡ some 0
          → Member v (if b then queue ++ (target ∷ []) else queue) ⊎ Member v done
      seen v b e f = elim (string_discrete target v) [
        | yes p ↦ inl (at v b e f p)
        | no n ↦ elim (l.zero_seen v (ground (arith, n, f, lookup-insert v target d degrees))) [
          | inl m ↦ inl (still v b m)
          | inr m ↦ inr m
        ]
      ]

      fresh : ¬ Member target queue
      fresh m = ground (arith, f, l.queue_zero target m)

      queued :
          (v : String) (b : Bool)
          → (d == 0) ≡ b
          → Member v (if b then queue ++ (target ∷ []) else queue)
          → lookup v (insert target d degrees) ≡ some 0
      queued v false e m = ground (arith, f, l.queue_zero v m, lookup-insert v target d degrees)
      queued v true e m = elim (append-Member queue target v m) [
        | inl k ↦ ground (arith, f, l.queue_zero v k, lookup-insert v target d degrees)
        | inr p ↦ ground (arith, p, e, lookup-insert v target d degrees)
      ]

      once : (b : Bool) → Nodup (if b then queue ++ (target ∷ []) else queue)
      once false = l.once
      once true = append-Nodup queue target l.once fresh

      apart :
          (v : String) (b : Bool)
          → Member v (if b then queue ++ (target ∷ []) else queue)
          → ¬ Member v done
      apart v false m = l.apart v m
      apart v true m = λ k. elim (append-Member queue target v m) [
        | inl i ↦ l.apart v i k
        | inr p ↦ ground (arith, f, p, l.done_zero v k)
      ]

  -- The same numbers of edges to count off.
  pub same-Level :
      (extra extra' : String → ℕ) (degrees : Map String ℕ) (queue : List String)
      → ((v : String) (n : ℕ) → lookup v degrees ≡ some n → extra v ≡ extra' v)
      → Level keys edges done extra degrees queue
      → Level keys edges done extra' degrees queue
  same-Level extra extra' degrees queue same l = record {
    counted = λ v n e. ground (arith, same v n e, l.counted v n e);
    queue_zero = l.queue_zero;
    done_zero = l.done_zero;
    once = l.once;
    apart = l.apart;
    keyed = l.keyed;
    present = l.present;
    zero_seen = l.zero_seen;
  }

  lower-Level :
      (id : String) (e : RouteEdge) (es : List RouteEdge) (degrees : Map String ℕ)
      (queue : List String)
      → Level keys edges done (edges_between id (e ∷ es)) degrees queue
      → (p : Map String ℕ × List String) × (lower e id degrees queue ≡ some p)
        × Level keys edges done (edges_between id es) p.0 p.1
  unfolding lower lowered edges_between
  lower-Level id e es degrees queue l = elim (string_discrete e.source id) [
    | no n ↦ (
      (degrees, queue),
      ground (arith, n),
      same-Level (edges_between id (e ∷ es)) (edges_between id es) degrees queue
          (λ v i f. ground (arith, n)) l,
    )
    | yes p ↦ go p (lookup e.target degrees) refl
  ]
    where
      go :
          e.source ≡ id
          → (o : Option ℕ) → lookup e.target degrees ≡ o
          → (p : Map String ℕ × List String) × (lower e id degrees queue ≡ some p)
            × Level keys edges done (edges_between id es) p.0 p.1
      go p none f = (
        (degrees, queue),
        ground (arith, p, f),
        same-Level (edges_between id (e ∷ es)) (edges_between id es) degrees queue
            (λ v i g. ground (arith, f, g)) l,
      )
      go p (some zero) f = absurd (ground (arith, p, l.counted e.target 0 f))
      go p (some (suc d)) f = (
        (insert e.target d degrees, if d == 0 then queue ++ (e.target ∷ []) else queue),
        ground (arith, p, f),
        lowered-Level (edges_between id (e ∷ es)) (edges_between id es) e.target degrees queue d f
            (λ v. ground (arith, p)) l,
      )

  pub relax-Level :
      (id : String) (es : List RouteEdge) (degrees : Map String ℕ) (queue : List String)
      → Level keys edges done (edges_between id es) degrees queue
      → (p : Map String ℕ × List String) × (relax es id degrees queue ≡ some p)
        × Level keys edges done (edges_between id []) p.0 p.1
  unfolding relax
  relax-Level id [] degrees queue l = ((degrees, queue), refl, l)
  relax-Level id (e ∷ es) degrees queue l =
      let (p, f, l') = lower-Level id e es degrees queue l in
      let (q, g, l'') = relax-Level id es p.0 p.1 l' in (q, ground (arith, f, g), l'')

module _ (keys : List String) (edges : List RouteEdge) where
  pub pop-Level :
      (done : List String) (id : String) (degrees : Map String ℕ) (queue : List String)
      → Level keys edges done (edges_between id []) degrees (id ∷ queue)
      → Level keys edges (id ∷ done) (edges_between id edges) degrees queue
  unfolding edges_between
  pop-Level done id degrees queue l = record {
    counted = λ v n e.
        ground (
          arith,
          l.counted v n e,
          pending_pop done id edges v (ne_contains (l.apart id (inl refl))),
        );
    queue_zero = λ v m. l.queue_zero v (inr m);
    done_zero = λ v m. elim m [
      | inl p ↦ subst (λ x. lookup x degrees ≡ some 0) p (l.queue_zero id (inl refl))
      | inr k ↦ l.done_zero v k
    ];
    once = l.once.1;
    apart = λ v m k. elim k [
      | inl p ↦ l.once.0 (subst (λ x. Member x queue) (sym p) m)
      | inr i ↦ l.apart v (inr m) i
    ];
    keyed = l.keyed;
    present = l.present;
    zero_seen = λ v e. elim (l.zero_seen v e) [
      | inl m ↦ elim m [ inl p ↦ inr (inl p) | inr k ↦ inl k ]
      | inr m ↦ inr (inr m)
    ];
  }
    where
      ne_contains : ¬ Member id done → contains done id ≡ false
      ne_contains n = elim (Bool-cases (contains done id)) [
        | inl t ↦ absurd (n (contains-Member done id t))
        | inr f ↦ f
      ]
