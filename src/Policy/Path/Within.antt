-- ===== src/Policy/Path/Within.antt =====
-- `path_within` compares components.
use forme_agent.Base.{
  ℕ, Bool, true, false, List, [], ◌∷◌, none, some, ◌≡◌, ◌⊎◌, ◌↔◌, inl, inr, refl, sym, arith, ◌==◌,
  ◌&&◌, nat_eq, Option-cases, All, ◌∙◌, starts_with,
}
use forme_agent.Policy.Path.{
  Name, name_eq, join, joined, continues, within, components, normalized_path, path_within,
}
use forme_agent.Policy.Path.Components.{NoSlash, IsNormal-NoSlash, components-IsNormal}

-- The text goes on with a slash after the root, or is the root.
begins : List ℕ → List ℕ → Bool
begins [] [] = true
begins (c ∷ path) [] = c == b'/'
begins [] (d ∷ root) = false
begins (c ∷ path) (d ∷ root) = c == d && begins path root

within_begins : (path root : List ℕ) → within root path ≡ begins path root
unfolding within continues begins
within_begins [] [] = ground arith
within_begins (c ∷ path) [] = ground arith
within_begins [] (d ∷ root) = ground arith
within_begins (c ∷ path) (d ∷ root) = ground (arith, within_begins path root)

join-grow : (c : ℕ) (cs : Name) (ps : List Name) → join ((c ∷ cs) ∷ ps) ≡ c ∷ join (cs ∷ ps)
unfolding join
join-grow c cs [] = refl
join-grow c cs (p ∷ ps) = refl

-- What is known of the components behind the first.
Rest : List Name → List Name → Type 0
Rest ps [] = Unit
Rest [] (s ∷ ss) = Unit
Rest (q ∷ qs) (s ∷ ss) = begins (join (q ∷ qs)) (join (s ∷ ss)) ≡ starts_with (q ∷ qs) (s ∷ ss)

begins-first :
    (p : Name) (ps : List Name) (r : Name) (rs : List Name)
    → NoSlash p
    → NoSlash r
    → Rest ps rs
    → begins (join (p ∷ ps)) (join (r ∷ rs)) ≡ starts_with (p ∷ ps) (r ∷ rs)
unfolding begins join Rest starts_with
begins-first [] [] [] [] np nr h = ground arith
begins-first [] [] [] (s ∷ ss) np nr h = ground arith
begins-first [] (q ∷ qs) [] [] np nr h = ground arith
begins-first [] (q ∷ qs) [] (s ∷ ss) np nr h = ground (arith, h)
begins-first [] [] (d ∷ ds) rs np (n, nr) h = ground (arith, join-grow d ds rs)
begins-first [] (q ∷ qs) (d ∷ ds) rs np (n, nr) h = ground (arith, n, join-grow d ds rs)
begins-first (c ∷ cs) ps [] [] (n, np) nr h = ground (arith, n, join-grow c cs ps)
begins-first (c ∷ cs) ps [] (s ∷ ss) (n, np) nr h = ground (arith, n, join-grow c cs ps)
begins-first (c ∷ cs) ps (d ∷ ds) rs (n, np) (m, nr) h =
    ground (arith, join-grow c cs ps, join-grow d ds rs, begins-first cs ps ds rs np nr h)

Rest-holds : (ps rs : List Name) → All NoSlash ps → All NoSlash rs → Rest ps rs
unfolding Rest
Rest-holds ps [] a b = tt
Rest-holds [] (s ∷ ss) a b = tt
Rest-holds (q ∷ qs) (s ∷ ss) (nq, a) (ns, b) = begins-first q qs s ss nq ns (Rest-holds qs ss a b)

within-join :
    (p : Name) (ps : List Name) (r : Name) (rs : List Name)
    → All NoSlash (p ∷ ps)
    → All NoSlash (r ∷ rs)
    → within (join (r ∷ rs)) (join (p ∷ ps)) ≡ starts_with (p ∷ ps) (r ∷ rs)
within-join p ps r rs (np, a) (nr, b) =
    within_begins (join (p ∷ ps)) (join (r ∷ rs))
    ∙ begins-first p ps r rs np nr (Rest-holds ps rs a b)

-- Both paths have components, and those of the root come first.
pub record Inside (root path : List ℕ) : Type 0 where
  pub first : Name
  pub others : List Name
  pub inner : Name
  pub inners : List Name
  pub root_components : components root ≡ some (first ∷ others)
  pub path_components : components path ≡ some (inner ∷ inners)
  pub prefix : starts_with (inner ∷ inners) (first ∷ others) ≡ true

normalized_some :
    (path : List ℕ) (p : Name) (ps : List Name)
    → components path ≡ some (p ∷ ps)
    → normalized_path path ≡ some (join (p ∷ ps))
unfolding normalized_path joined
normalized_some path p ps e = ground (arith, e)

normalized_cases :
    (path : List ℕ)
    → (normalized_path path ≡ none)
      ⊎ ((p : Name) × (ps : List Name) × (components path ≡ some (p ∷ ps)))
unfolding normalized_path joined
normalized_cases path = elim (Option-cases (components path)) [
  | inl e ↦ inl (ground (arith, e))
  | inr (cs, e) ↦ by_list cs e
]
  where
    by_list :
        (cs : List Name)
        → components path ≡ some cs
        → (normalized_path path ≡ none)
          ⊎ ((p : Name) × (ps : List Name) × (components path ≡ some (p ∷ ps)))
    by_list [] e = inl (ground (arith, e))
    by_list (p ∷ ps) e = inr (p, ps, e)

within_components :
    (root path : List ℕ) (r : Name) (rs : List Name) (p : Name) (ps : List Name)
    → components root ≡ some (r ∷ rs)
    → components path ≡ some (p ∷ ps)
    → path_within root path ≡ starts_with (p ∷ ps) (r ∷ rs)
unfolding path_within
within_components root path r rs p ps e f = ground (
  arith,
  normalized_some root r rs e,
  normalized_some path p ps f,
  within-join p ps r rs (IsNormal-NoSlash (p ∷ ps) (components-IsNormal path (p ∷ ps) f))
      (IsNormal-NoSlash (r ∷ rs) (components-IsNormal root (r ∷ rs) e)),
)

-- A path is within a root exactly when both have components after normalization, and the components of
-- the root are the first components of the path.
pub path-within_iff : (root path : List ℕ) → (path_within root path ≡ true) ↔ Inside root path
unfolding path_within
path-within_iff root path = (forward, backward)
  where
    forward : path_within root path ≡ true → Inside root path
    forward h = elim (normalized_cases root) [
      | inl e ↦ absurd (ground (arith, e, h))
      | inr (r, rs, e) ↦ elim (normalized_cases path) [
        | inl f ↦ absurd (ground (arith, f, h))
        | inr (p, ps, f) ↦ record {
          first = r;
          others = rs;
          inner = p;
          inners = ps;
          root_components = e;
          path_components = f;
          prefix = sym (within_components root path r rs p ps e f) ∙ h;
        }
      ]
    ]

    backward : Inside root path → path_within root path ≡ true
    backward i =
        within_components root path i.first i.others i.inner i.inners i.root_components
          i.path_components
        ∙ i.prefix
