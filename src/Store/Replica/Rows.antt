-- ===== src/Store/Replica/Rows.antt =====
-- The rows of a batch, one after another.
use forme_agent.Base.{
  ℕ, suc, ◌+◌, Bool, false, ◌&&◌, ◌||◌, List, [], ◌∷◌, some, ◌≡◌, ◌==◌, nat_eq, string_eq, leb, ltb,
  length, ok, arith,
}
use forme_agent.Base.Map.{insert, contains_key, lookup-insert}
use forme_agent.Protocol.Kinds.{Ref}
use forme_agent.Protocol.Replication.{SyncTransferEvent}
use forme_agent.Store.Replica.{Rows, row_ord, contiguous, last_seq, insert_events}

pub contiguous_head :
    (a : Ref) (s : ℕ) (e : SyncTransferEvent) (es : List SyncTransferEvent)
    → contiguous a s (e ∷ es) ≡ ok tt
    → (e.source_stream_seq ≡ suc s) × (contiguous a (suc s) es ≡ ok tt)
unfolding contiguous
contiguous_head a s e es h = (ground arith, ground arith)

pub contiguous_last :
    (a : Ref) (s m : ℕ) (es : List SyncTransferEvent)
    → contiguous a s es ≡ ok tt
    → last_seq es ≡ some m
    → m ≡ s + length es
unfolding last_seq
contiguous_last a s m [] h l = absurd cc
contiguous_last a s m (e ∷ []) h l = ground (arith, contiguous_head a s e [] h)
contiguous_last a s m (e ∷ f ∷ es) h l =
    let (p, q) = contiguous_head a s e (f ∷ es) h in
    omega (arith, contiguous_last a (suc s) m (f ∷ es) q l)

-- The numbers that a batch fills in.
unfoldable pub fills : Ref → ℕ → ℕ → Ref → ℕ → Bool
fills a s count i n = i == a && ltb s n && leb n (s + count)

insert_key :
    (a i : Ref) (m n : ℕ) (e : SyncTransferEvent) (rows : Rows)
    → contains_key (i, n) (insert (a, m) e rows) ≡ (contains_key (i, n) rows || (i == a && n == m))
unfolding contains_key
insert_key a i m n e rows = ground (arith, lookup-insert (i, n) (a, m) e rows)

fills_one :
    (a i : Ref) (s count n : ℕ)
    → ((i == a && n == suc s) || fills a (suc s) count i n) ≡ fills a s (suc count) i n
unfolding fills
fills_one a i s count n = ground arith

fills_none : (a i : Ref) (s n : ℕ) → fills a s 0 i n ≡ false
unfolding fills
fills_none a i s n = ground arith

-- After the inserts of a contiguous batch, a row is there exactly if it was, or the batch fills it.
pub insert-events_keys :
    (a : Ref) (s : ℕ) (es : List SyncTransferEvent) (rows after : Rows) (i : Ref) (n : ℕ)
    → contiguous a s es ≡ ok tt
    → insert_events a es rows ≡ ok after
    → contains_key (i, n) after ≡ (contains_key (i, n) rows || fills a s (length es) i n)
unfolding insert_events
insert-events_keys a s [] rows after i n c h = ground (arith, h, fills_none a i s n)
insert-events_keys a s (e ∷ es) rows after i n c h =
    let (p, q) = contiguous_head a s e es c in
    let rest : insert_events a es (insert (a, e.source_stream_seq) e rows) ≡ ok after =
      ground arith in
    let step =
      insert-events_keys a (suc s) es (insert (a, e.source_stream_seq) e rows) after i n q rest in
    let one = insert_key a i e.source_stream_seq n e rows in
    let sum = fills_one a i s (length es) n in ground (arith, step, one, sum, p)
