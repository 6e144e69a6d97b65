-- ===== src/Execution/Remote/Leases.antt =====
-- crates/execution/src/remote.rs: `InMemoryRemoteLeaseBindings`, the leases that the backend may
-- dispatch with, and `ScopedExecutorCredentialResolver`, the secrets that an executor may use.
pub mod Served
use forme_agent.Base.{
  Bool, true, false, ◌&&◌, ◌||◌, List, [], ◌∷◌, Option, none, some, ◌≡◌, ◌==◌, ◌!=◌, string_eq,
  if◌then◌else◌, Result, ok, err, ◌>>=◌, ◌>>◌, reject, Eq,
}
use forme_agent.Base.Map.{Map, Ord, lookup, insert, remove, contains_key, string_ord}
use forme_agent.Base.Text.{string_discrete, string_less, is_blank}
use forme_agent.Protocol.Kinds.{Ref}
use forme_agent.Protocol.Remote.{RemoteExecutionLease, RemoteLeaseState, lease_state_eq}
use forme_agent.Execution.Ledger.{Error, is_empty}
use forme_agent.Execution.Remote.{Digests, validate_lease}

-- Keys that are tuples are in the order of their components.
unfoldable pub pair_discrete : Discrete (Ref × Ref)
pair_discrete = hlevel string_discrete

instance abbrev pub pair_ord : Ord (Ref × Ref)
pair_ord = record {
  discrete = pair_discrete;
  less = λ p q. string_less p.0 q.0 || p.0 == q.0 && string_less p.1 q.1;
}

unfoldable pub slot_discrete : Discrete (Ref × Ref × Ref)
slot_discrete = hlevel string_discrete

instance abbrev pub slot_ord : Ord (Ref × Ref × Ref)
slot_ord = record {
  discrete = slot_discrete;
  less = λ p q. string_less p.0 q.0 || p.0 == q.0 && pair_ord.less (p.1, p.2) (q.1, q.2);
}

pub record Bindings : Type 0 where
  pub pending : Map (Ref × Ref) RemoteExecutionLease
  pub active : Map Ref RemoteExecutionLease

unfoldable pub key_of : RemoteExecutionLease → Ref × Ref
key_of lease = (lease.intent, lease.plan_digest)

module _ (g : Digests) where
  -- `bind`. The lease is put in the map before it is seen whether the pair was bound.
  unfoldable pub bind : RemoteExecutionLease → Bindings → Bindings × Result Error (Unit {0})
  bind lease s = elim (validate_lease g lease) [
    | err e ↦ (s, err e)
    | ok _ ↦
        if lease.state != RemoteLeaseState.acquired then (s, err Error.lease_not_acquired) else (
          record s { pending = insert (key_of lease) lease s.pending },
          reject (contains_key (key_of lease) s.pending) Error.lease_bound,
        )
  ]

-- `take`: the lease leaves the pending ones and is the active one of its intent.
unfoldable pub take : Ref → Ref → Bindings → Bindings × Result Error RemoteExecutionLease
take intent plan s = elim (lookup (intent, plan) s.pending) [
  | none ↦ (record s { pending = remove (intent, plan) s.pending }, err Error.no_lease)
  | some lease ↦ (
    record { pending = remove (intent, plan) s.pending; active = insert intent lease s.active },
    ok lease,
  )
]

unfoldable pub active : Ref → Bindings → Option RemoteExecutionLease
active intent s = lookup intent s.active

pub record ExecutorCredentialBinding : Type 0 where
  pub peer : Ref
  pub scope : Ref
  pub slot : Ref
  pub secret : Ref

unfoldable pub slot_of : ExecutorCredentialBinding → Ref × Ref × Ref
slot_of b = (b.peer, b.scope, b.slot)

-- The loop of `ScopedExecutorCredentialResolver::new`.
unfoldable pub index_bindings :
    List ExecutorCredentialBinding
    → Map (Ref × Ref × Ref) Ref
    → Result Error (Map (Ref × Ref × Ref) Ref)
index_bindings [] indexed = ok indexed
index_bindings (b ∷ bs) indexed =
    let rest = index_bindings bs (insert (slot_of b) b.secret indexed) in
    if is_blank b.peer
      || is_blank b.scope
      || is_blank b.slot
      || is_blank b.secret
      || contains_key (slot_of b) indexed
    then err Error.binding_invalid
    else rest

unfoldable pub new_resolver :
    List ExecutorCredentialBinding → Result Error (Map (Ref × Ref × Ref) Ref)
new_resolver bindings = do
  reject (is_empty bindings) Error.bindings_empty
  index_bindings bindings []

-- `resolve`, over what the secret store answers.
unfoldable pub resolve :
    {Secret : Type 0}
    → (Ref → Result Error Secret)
    → Map (Ref × Ref × Ref) Ref
    → Ref
    → Ref
    → Ref
    → Result Error Secret
resolve secrets bindings peer scope slot = elim (lookup (peer, scope, slot) bindings) [
  | none ↦ err Error.slot_outside
  | some secret ↦ secrets secret
]
