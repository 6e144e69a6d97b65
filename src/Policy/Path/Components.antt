-- ===== src/Policy/Path/Components.antt =====
-- What the components of a normalized path look like.
use forme_agent.Base.{
  ℕ, true, false, List, [], ◌∷◌, ◌++◌, map, some, ◌≡◌, ◌≢◌, ◌⊎◌, inl, inr, refl, sym, subst, arith,
  ◌==◌, nat_eq, if◌then◌else◌, ℕ_discrete, Option-cases, All,
}
use mathlib.Core.List.{reverse, reverse-cons}
use forme_agent.Policy.Path.{
  Name, split, grow, part, Part, pop, push_empty, step, walk, components, fold_char,
  normalized_path,
}

abbrev pub NoSlash : Name → Type 0
NoSlash = All (λ c. c ≢ b'/')

-- Not empty, not `.`, not `..`, and without a slash.
abbrev pub Proper : Name → Type 0
Proper n = (part n ≡ Part.value) × NoSlash n

-- Newest first: proper names, and at the far end possibly the empty component of a leading slash.
abbrev pub Clean : List Name → Type 0
Clean [] = Unit
Clean (n ∷ acc) = (Proper n ⊎ ((n ≡ []) × (acc ≡ []))) × Clean acc

grow-NoSlash : (c : ℕ) (ps : List Name) → c ≢ b'/' → All NoSlash ps → All NoSlash (grow c ps)
unfolding grow
grow-NoSlash c [] n a = ((n, tt), tt)
grow-NoSlash c (p ∷ ps) n (a, b) = ((n, a), b)

pub split-NoSlash : (cs : List ℕ) → All NoSlash (split cs)
unfolding split
split-NoSlash [] = (tt, tt)
split-NoSlash (c ∷ cs) = piece (ℕ_discrete c b'/') (split-NoSlash cs)
  where
    piece :
        (d : Dec (c ≡ b'/'))
        → All NoSlash (split cs)
        → All NoSlash (if c == b'/' then [] ∷ split cs else grow c (split cs))
    piece (yes p) a =
        let test : (c == b'/') ≡ true = ground (arith, p) in
        subst (λ b. All NoSlash (if b then [] ∷ split cs else grow c (split cs))) (sym test) (tt, a)
    piece (no n) a =
        let test : (c == b'/') ≡ false = ground (arith, n) in
        subst (λ b. All NoSlash (if b then [] ∷ split cs else grow c (split cs))) (sym test)
          (grow-NoSlash c (split cs) n a)

pop-Clean : (acc acc' : List Name) → Clean acc → pop acc ≡ some acc' → Clean acc'
unfolding pop
pop-Clean [] acc' c e = cc
pop-Clean ([] ∷ acc) acc' c e = cc
pop-Clean ((x ∷ xs) ∷ acc) acc' (_, c) e =
    let same : acc ≡ acc' = ground (arith, e) in subst Clean same c

part_cases :
    (n : Name)
    → (part n ≡ Part.empty)
      ⊎ (part n ≡ Part.current)
      ⊎ (part n ≡ Part.parent)
      ⊎ (part n ≡ Part.value)
part_cases n =
    elim (part n)
      as (λ p. (p ≡ Part.empty) ⊎ (p ≡ Part.current) ⊎ (p ≡ Part.parent) ⊎ (p ≡ Part.value)) [
        | Part.empty ↦ inl refl
        | Part.current ↦ inr (inl refl)
        | Part.parent ↦ inr (inr (inl refl))
        | Part.value ↦ inr (inr (inr refl))
      ]

push-empty_Clean : (acc : List Name) → Clean acc → Clean (push_empty acc)
unfolding push_empty
push-empty_Clean [] c = (inr (refl, refl), tt)
push-empty_Clean (n ∷ acc) c = c

step-Clean :
    (acc : List Name) (n : Name) (acc' : List Name)
    → NoSlash n
    → Clean acc
    → step acc n ≡ some acc'
    → Clean acc'
unfolding step
step-Clean acc n acc' s c e = elim (part_cases n) [
  | inl p ↦
      let same : push_empty acc ≡ acc' = ground (arith, p, e) in
      subst Clean same (push-empty_Clean acc c)
  | inr q ↦ elim q [
    | inl p ↦ let same : acc ≡ acc' = ground (arith, p, e) in subst Clean same c
    | inr r ↦ elim r [
      | inl p ↦ pop-Clean acc acc' c (ground (arith, p, e))
      | inr p ↦
          let same : (n ∷ acc) ≡ acc' = ground (arith, p, e) in subst Clean same (inl (p, s), c)
    ]
  ]
]

pub walk-Clean :
    (acc names acc' : List Name)
    → All NoSlash names
    → Clean acc
    → walk acc names ≡ some acc'
    → Clean acc'
unfolding walk
walk-Clean acc [] acc' s c e = let same : acc ≡ acc' = ground (arith, e) in subst Clean same c
walk-Clean acc (n ∷ names) acc' (s, ss) c e = elim (Option-cases (step acc n)) [
  | inl f ↦ absurd (ground (arith, e, f))
  | inr (next, f) ↦
      walk-Clean next names acc' ss (step-Clean acc n next s c f) (ground (arith, e, f))
]

-- Oldest first: an empty component may only come first, and all others are proper.
unfoldable pub IsNormal : List Name → Type 0
IsNormal [] = Unit
IsNormal (n ∷ ns) = (Proper n ⊎ (n ≡ [])) × All Proper ns

append-Proper : (ns : List Name) (n : Name) → All Proper ns → Proper n → All Proper (ns ++ (n ∷ []))
append-Proper [] n a p = (p, tt)
append-Proper (x ∷ xs) n (q, a) p = (q, append-Proper xs n a p)

append-IsNormal : (ns : List Name) (n : Name) → IsNormal ns → Proper n → IsNormal (ns ++ (n ∷ []))
unfolding IsNormal
append-IsNormal [] n a p = (inl p, tt)
append-IsNormal (x ∷ xs) n (q, a) p = (q, append-Proper xs n a p)

Clean-IsNormal : (acc : List Name) → Clean acc → IsNormal (reverse acc)
unfolding IsNormal
Clean-IsNormal [] c = tt
Clean-IsNormal (n ∷ acc) (inl p, c) =
    subst IsNormal (sym (reverse-cons n acc))
      (append-IsNormal (reverse acc) n (Clean-IsNormal acc c) p)
Clean-IsNormal (n ∷ acc) (inr (e, f), c) =
    subst (λ x. IsNormal (reverse (n ∷ x))) (sym f) (inr e, tt)

-- The components of a path are never `.` or `..` and have no slash, and none but the first is empty.
pub components-IsNormal : (path : List ℕ) (cs : List Name) → components path ≡ some cs → IsNormal cs
unfolding components
components-IsNormal path cs e = elim (Option-cases (walk [] (split (map fold_char path)))) [
  | inl f ↦ absurd (ground (arith, e, f))
  | inr (acc, f) ↦
      let same : reverse acc ≡ cs = ground (arith, e, f) in
      subst IsNormal same (
        Clean-IsNormal acc (
          walk-Clean [] (split (map fold_char path)) acc (split-NoSlash (map fold_char path)) tt f))
]

pub IsNormal-NoSlash : (cs : List Name) → IsNormal cs → All NoSlash cs
unfolding IsNormal
IsNormal-NoSlash [] c = tt
IsNormal-NoSlash (n ∷ ns) (c, d) = (head c, tail ns d)
  where
    head : Proper n ⊎ (n ≡ []) → NoSlash n
    head (inl p) = p.1
    head (inr e) = subst NoSlash (sym e) tt

    tail : (ns : List Name) → All Proper ns → All NoSlash ns
    tail [] d = tt
    tail (x ∷ xs) (p, d) = (p.1, tail xs d)

-- A current-directory prefix before a double slash vanishes: such a relative path is normalized like
-- the absolute path behind it.
pub relative_becomes_absolute :
    (rest : List ℕ) → normalized_path (b'.' ∷ b'/' ∷ b'/' ∷ rest) ≡ normalized_path (b'/' ∷ rest)
unfolding normalized_path components split fold_char grow walk step part push_empty
relative_becomes_absolute rest = ground arith
