-- ===== src/Base/Members.antt =====
-- Membership by recursion, and what the list tests decide.
use mathlib.Core.Path.{◌≡◌, refl, subst, ap}
use mathlib.Core.Logic.{◌⊎◌, inl, inr}
use mathlib.Core.Bool.{Bool, true, false}
use mathlib.Core.List.{List, [], ◌∷◌}
use native.Mathlib.Omega.{arith}
use forme_agent.Base.Tests.{Eq}
use forme_agent.Base.Lists.{all, any, filter, contains}

module _ {A : Type 0} where
  abbrev pub Member : A → List A → Type 0
  Member a [] = ⊥
  Member a (x ∷ xs) = (x ≡ a) ⊎ Member a xs

  -- Every element of the second list is in the first.
  abbrev pub Covers : List A → List A → Type 0
  Covers xs ys = (a : A) → Member a ys → Member a xs

  pub any_none : (p : A → Bool) (xs : List A) (a : A) → any p xs ≡ false → Member a xs → p a ≡ false
  unfolding any
  any_none p [] a h m = elim m [ ]
  any_none p (x ∷ xs) a h (inl e) = ground (arith, ap p e)
  any_none p (x ∷ xs) a h (inr m) = any_none p xs a (ground arith) m

  -- What passes the filter satisfies the test.
  pub all-filter :
      (p q : A → Bool) (xs : List A) (a : A)
      → all p (filter q xs) ≡ true
      → Member a xs
      → q a ≡ true
      → p a ≡ true
  unfolding all filter
  all-filter p q [] a h m t = elim m [ ]
  all-filter p q (x ∷ xs) a h (inl e) t = ground (arith, ap p e, ap q e)
  all-filter p q (x ∷ xs) a h (inr m) t = all-filter p q xs a (ground arith) m t

module _ {A : Type 0} ⦃e : Eq A⦄ where
  pub contains-Member : (xs : List A) (a : A) → contains xs a ≡ true → Member a xs
  unfolding contains
  contains-Member [] a h = cc
  contains-Member (x ∷ xs) a h = ground (arith, contains-Member xs a)

  pub Member-contains : (xs : List A) (a : A) → Member a xs → contains xs a ≡ true
  unfolding contains
  Member-contains [] a h = elim h [ ]
  Member-contains (x ∷ xs) a (inl p) = ground arith
  Member-contains (x ∷ xs) a (inr m) = ground (arith, Member-contains xs a m)

  pub all-Covers : (xs ys : List A) → all (contains xs) ys ≡ true → Covers xs ys
  unfolding all
  all-Covers xs [] h a m = elim m [ ]
  all-Covers xs (y ∷ ys) h a (inl p) =
      subst (λ b. Member b xs) p (contains-Member xs y (ground arith))
  all-Covers xs (y ∷ ys) h a (inr m) = all-Covers xs ys (ground arith) a m

  pub Covers-all : (xs ys : List A) → Covers xs ys → all (contains xs) ys ≡ true
  unfolding all
  Covers-all xs [] h = refl
  Covers-all xs (y ∷ ys) h =
      ground (arith, Member-contains xs y (h y (inl refl)), Covers-all xs ys (λ a m. h a (inr m)))
