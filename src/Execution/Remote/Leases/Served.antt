-- ===== src/Execution/Remote/Leases/Served.antt =====
-- `ScopedExecutorCredentialResolver`: every binding is served.
use forme_agent.Base.{List, [], ◌∷◌, none, some, ◌≡◌, inl, inr, subst, Result, ok, arith}
use forme_agent.Base.Map.{Map, lookup, insert, contains_key, lookup-insert}
use forme_agent.Base.Members.{Member}
use forme_agent.Protocol.Kinds.{Ref}
use forme_agent.Execution.Ledger.{Error}
use forme_agent.Execution.Remote.Leases.{
  ExecutorCredentialBinding, slot_ord, slot_of, index_bindings, new_resolver, resolve,
}

abbrev Index : Type 0
Index = Map (Ref × Ref × Ref) Ref

-- A binding that is taken is new, and all of them complete.
index_step :
    (b : ExecutorCredentialBinding) (bs : List ExecutorCredentialBinding) (i m : Index)
    → index_bindings (b ∷ bs) i ≡ ok m
    → (lookup (slot_of b) i ≡ none) × (index_bindings bs (insert (slot_of b) b.secret i) ≡ ok m)
unfolding index_bindings contains_key
index_step b bs i m h = (ground arith, ground arith)

index_keeps :
    (bs : List ExecutorCredentialBinding) (i m : Index) (k : Ref × Ref × Ref) (v : Ref)
    → index_bindings bs i ≡ ok m
    → lookup k i ≡ some v
    → lookup k m ≡ some v
unfolding index_bindings
index_keeps [] i m k v h e = ground arith
index_keeps (b ∷ bs) i m k v h e =
    let (n, rest) = index_step b bs i m h in
    index_keeps bs (insert (slot_of b) b.secret i) m k v rest
      (ground (arith, n, e, lookup-insert k (slot_of b) b.secret i))

index-Member :
    (bs : List ExecutorCredentialBinding) (i m : Index) (b : ExecutorCredentialBinding)
    → index_bindings bs i ≡ ok m
    → Member b bs
    → lookup (slot_of b) m ≡ some b.secret
index-Member [] i m b h k = elim k [ ]
index-Member (c ∷ bs) i m b h (inl e) =
    let (n, rest) = index_step c bs i m h in
    subst (λ x. lookup (slot_of x) m ≡ some x.secret) e
      (index_keeps bs (insert (slot_of c) c.secret i) m (slot_of c) c.secret rest
        (ground (arith, lookup-insert (slot_of c) (slot_of c) c.secret i)))
index-Member (c ∷ bs) i m b h (inr k) =
    let (n, rest) = index_step c bs i m h in
    index-Member bs (insert (slot_of c) c.secret i) m b rest k

-- Where the resolver is made of some bindings, it answers for the peer, scope and slot of each with
-- what the secret store holds under its secret.
pub new_resolver-resolve :
    {Secret : Type 0} (secrets : Ref → Result Error Secret) (bs : List ExecutorCredentialBinding)
    (m : Index) (b : ExecutorCredentialBinding)
    → new_resolver bs ≡ ok m
    → Member b bs
    → resolve secrets m b.peer b.scope b.slot ≡ secrets b.secret
unfolding new_resolver resolve slot_of
new_resolver-resolve secrets bs m b h k =
    let indexed : index_bindings bs [] ≡ ok m = ground arith in
    ground (arith, index-Member bs [] m b indexed k)
