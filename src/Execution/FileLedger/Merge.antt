-- ===== src/Execution/FileLedger/Merge.antt =====
-- Opening the directory: nothing that a file holds is lost, in whatever order the files are listed.
use forme_agent.Base.Text.{string_discrete}
use forme_agent.Base.{
  false, List, [], ◌∷◌, Option, none, some, ◌≡◌, refl, sym, inl, inr, ◌⊎◌, Result, ok, err, arith,
  subst, Option-cases,
}
use forme_agent.Base.Map.{lookup, insert, string_ord, lookup-insert}
use forme_agent.Base.Members.{Member}
use forme_agent.Protocol.Kinds.{Ref}
use forme_agent.Execution.Ledger.{LedgerRecord, RemoteDriverReceipt, Records, Error}
use forme_agent.Execution.Ledger.Replay.{
  Keeps, Keeps-refl, Keeps-trans, Extends, Extends-refl, Extends-trans, insert-Extends,
}
use forme_agent.Execution.FileLedger.{
  Codec, Entry, json, unexpected, unreadable, merge, place, conflicts, read_entry, read_all,
}

-- The dispatch of the record is on file, in a record that keeps it.
abbrev pub Holds : Records → LedgerRecord → Type 0
Holds rs r = (q : LedgerRecord) × (lookup r.dispatch rs ≡ some q) × Keeps r q

-- Two records that do not conflict agree, and each keeps a receipt that only one of them has.
no_conflict :
    (p r : LedgerRecord)
    → conflicts p r ≡ false
    → (p.receipt ≡ none → Keeps p r) × ((y : RemoteDriverReceipt) → p.receipt ≡ some y → Keeps r p)
unfolding conflicts
no_conflict p r h = (
  λ e. record { lease = ground arith; semantics = ground arith; receipt = λ x f. cc },
  λ y e. record { lease = ground arith; semantics = ground arith; receipt = λ x f. ground arith },
)

inserted :
    (r : LedgerRecord) (rs : Records)
    → ((p : LedgerRecord) → lookup r.dispatch rs ≡ some p → Keeps p r)
    → Extends rs (insert r.dispatch r rs) × Holds (insert r.dispatch r rs) r
inserted r rs keep = (
  insert-Extends r.dispatch r rs keep,
  (r, ground (arith, lookup-insert r.dispatch r.dispatch r rs), Keeps-refl r),
)

-- What `place` leaves beside a record with the receipt `o`.
abbrev has_kept : Option RemoteDriverReceipt → LedgerRecord → Records → Records
has_kept none r rs = insert r.dispatch r rs
has_kept (some _) r rs = rs

merged :
    (r : LedgerRecord) (rs : Records) {qs : Records}
    → merge r rs ≡ ok qs
    → place (lookup r.dispatch rs) r rs ≡ ok qs
unfolding merge
merged r rs h = ground arith

place-some :
    (p r : LedgerRecord) (rs : Records) {qs : Records} (o : Option RemoteDriverReceipt)
    → p.receipt ≡ o
    → lookup r.dispatch rs ≡ some p
    → place (some p) r rs ≡ ok qs
    → (conflicts p r ≡ false) × (qs ≡ has_kept o r rs)
unfolding place
place-some p r rs none e f h = ground (arith, e)
place-some p r rs (some y) e f h = ground (arith, e)

place_ok :
    (o : Option LedgerRecord) (r : LedgerRecord) (rs : Records) {qs : Records}
    → lookup r.dispatch rs ≡ o
    → place o r rs ≡ ok qs
    → Extends rs qs × Holds qs r
unfolding place
place_ok none r rs {qs} e h =
    let same : insert r.dispatch r rs ≡ qs = ground arith in
    subst (λ x. Extends rs x × Holds x r) same (inserted r rs (λ p f. cc))
place_ok (some p) r rs {qs} e h = elim (Option-cases p.receipt) [
  | inl gone ↦
      let (calm, same) = place-some p r rs none gone e h in
      subst (λ x. Extends rs x × Holds x r) (sym same)
        (inserted r rs (λ q f.
          let same : p ≡ q = ground (arith, e, f) in
          subst (λ x. Keeps x r) same ((no_conflict p r calm).0 gone)))
  | inr (y, there) ↦
      let (calm, same) = place-some p r rs (some y) there e h in
      subst (λ x. Extends rs x × Holds x r) (sym same)
        (Extends-refl rs, (p, e, (no_conflict p r calm).1 y there))
]

merge_ok :
    (r : LedgerRecord) (rs : Records) {qs : Records}
    → merge r rs ≡ ok qs
    → Extends rs qs × Holds qs r
merge_ok r rs h = place_ok (lookup r.dispatch rs) r rs refl (merged r rs h)

-- A record that stands in the result of `merge` stood there before or is the merged one.
abbrev FromMerge : LedgerRecord → Records → Ref → LedgerRecord → Type 0
FromMerge r rs d q = (lookup d rs ≡ some q) ⊎ ((r ≡ q) × (r.dispatch ≡ d))

insert_source :
    (r : LedgerRecord) (rs : Records) (d : Ref) (q : LedgerRecord)
    → lookup d (insert r.dispatch r rs) ≡ some q
    → FromMerge r rs d q
insert_source r rs d q e = elim (string_discrete r.dispatch d) [
  | yes p ↦ inr (ground (arith, p, e, lookup-insert d r.dispatch r rs), p)
  | no p ↦ inl (ground (arith, p, e, lookup-insert d r.dispatch r rs))
]

place_source :
    (o : Option LedgerRecord) (r : LedgerRecord) (rs : Records) {ps : Records} (d : Ref)
    (q : LedgerRecord)
    → lookup r.dispatch rs ≡ o
    → place o r rs ≡ ok ps
    → lookup d ps ≡ some q
    → FromMerge r rs d q
unfolding place
place_source none r rs d q f h e = insert_source r rs d q (ground arith)
place_source (some p) r rs d q f h e = elim (Option-cases p.receipt) [
  | inl gone ↦
      let (_, same) = place-some p r rs none gone f h in insert_source r rs d q (ground arith)
  | inr (y, there) ↦ let (_, same) = place-some p r rs (some y) there f h in inl (ground arith)
]

merge_source :
    (r : LedgerRecord) (rs : Records) {ps : Records} (d : Ref) (q : LedgerRecord)
    → merge r rs ≡ ok ps
    → lookup d ps ≡ some q
    → FromMerge r rs d q
merge_source r rs d q h = place_source (lookup r.dispatch rs) r rs d q refl (merged r rs h)

pub Holds-Extends : (rs qs : Records) (r : LedgerRecord) → Holds rs r → Extends rs qs → Holds qs r
Holds-Extends rs qs r (p, e, k) x = let (q, f, l) = x r.dispatch p e in (q, f, Keeps-trans k l)

module _ (c : Codec) where
  open c use {Bytes, decode}

  read_json :
      (o : Option LedgerRecord) (b : Bytes) (rs : Records) {ps : Records}
      → decode b ≡ o
      → read_entry c (json b) rs ≡ ok ps
      → (r : LedgerRecord) × (decode b ≡ some r) × (merge r rs ≡ ok ps)
  unfolding read_entry
  read_json none b rs e h = absurd (ground (arith, e, h))
  read_json (some r) b rs e h = (r, e, ground (arith, e, h))

  read_entry_ok :
      (e : Entry c) (rs : Records) {ps : Records} → read_entry c e rs ≡ ok ps → Extends rs ps
  unfolding read_entry
  read_entry_ok (json b) rs h =
      let (r, _, m) = read_json (decode b) b rs refl h in (merge_ok r rs m).0
  read_entry_ok unexpected rs h = cc
  read_entry_ok unreadable rs h = cc

  read_all_cons :
      (e : Entry c) (es : List (Entry c)) (rs : Records) {qs : Records}
      → read_all c (e ∷ es) rs ≡ ok qs
      → (ps : Records) × (read_entry c e rs ≡ ok ps) × (read_all c es ps ≡ ok qs)
  unfolding read_all
  read_all_cons e es rs {qs} h = split (read_entry c e rs) refl
    where
      split :
          (o : Result Error Records)
          → read_entry c e rs ≡ o
          → (ps : Records) × (read_entry c e rs ≡ ok ps) × (read_all c es ps ≡ ok qs)
      split (ok ps) p = (ps, p, ground (arith, p, h))
      split (err x) p = absurd (ground (arith, p, h))

  -- What was read before is kept by what is read after it.
  pub read_all-Extends :
      (es : List (Entry c)) (rs : Records) {qs : Records} → read_all c es rs ≡ ok qs → Extends rs qs
  unfolding read_all
  read_all-Extends [] rs h = subst (Extends rs) (ground arith) (Extends-refl rs)
  read_all-Extends (e ∷ es) rs {qs} h =
      let (ps, first, rest) = read_all_cons e es rs h in
      Extends-trans rs ps qs (read_entry_ok e rs first) (read_all-Extends es ps rest)

  -- The record of every file is on record after the directory is opened.
  pub read_all-Holds :
      (es : List (Entry c)) (rs : Records) (b : Bytes) (r : LedgerRecord) {qs : Records}
      → read_all c es rs ≡ ok qs
      → Member (json b) es
      → decode b ≡ some r
      → Holds qs r
  read_all-Holds [] rs b r h m d = elim m [ ]
  read_all-Holds (e ∷ es) rs b r {qs} h (inl here) d =
      let (ps, first, rest) = read_all_cons e es rs h in
      let (r', d', m) =
        read_json (decode b) b rs refl (subst (λ x. read_entry c x rs ≡ ok ps) here first) in
      Holds-Extends ps qs r (subst (Holds ps) (ground (arith, d, d')) (merge_ok r' rs m).1)
        (read_all-Extends es ps rest)
  read_all-Holds (e ∷ es) rs b r h (inr later) d =
      let (ps, first, rest) = read_all_cons e es rs h in read_all-Holds es ps b r rest later d

  -- The record under `d` was read from a file that is listed.
  abbrev pub FromFile : List (Entry c) → Ref → LedgerRecord → Type 0
  FromFile es d q = (b : Bytes) × Member (json b) es × (decode b ≡ some q) × (q.dispatch ≡ d)

  read_entry_source :
      (e : Entry c) (rs : Records) {ps : Records} (d : Ref) (q : LedgerRecord)
      → read_entry c e rs ≡ ok ps
      → lookup d ps ≡ some q
      → (lookup d rs ≡ some q) ⊎ FromFile (e ∷ []) d q
  unfolding read_entry
  read_entry_source (json b) rs d q h e =
      let (r, f, m) = read_json (decode b) b rs refl h in
      elim (merge_source r rs d q m e) [
        | inl old ↦ inl old
        | inr (same, at) ↦ inr (b, inl refl, ground (arith, f, same), ground (arith, same, at))
      ]
  read_entry_source unexpected rs d q h e = cc
  read_entry_source unreadable rs d q h e = cc

  -- Each record that is read comes from some file, or was there before.
  pub read_all_source :
      (es : List (Entry c)) (rs : Records) {qs : Records} (d : Ref) (q : LedgerRecord)
      → read_all c es rs ≡ ok qs
      → lookup d qs ≡ some q
      → (lookup d rs ≡ some q) ⊎ FromFile es d q
  unfolding read_all
  read_all_source [] rs d q h e = inl (ground arith)
  read_all_source (x ∷ es) rs d q h e =
      let (ps, first, rest) = read_all_cons x es rs h in
      elim (read_all_source es ps d q rest e) [
        | inr (b, m, f, g) ↦ inr (b, inr m, f, g)
        | inl old ↦ elim (read_entry_source x rs d q first old) [
          | inl older ↦ inl older
          | inr (b, inl m, f, g) ↦ inr (b, inl m, f, g)
          | inr (b, inr m, f, g) ↦ elim m [ ]
        ]
      ]
