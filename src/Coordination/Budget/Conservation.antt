-- ===== src/Coordination/Budget/Conservation.antt =====
-- What the budget ledger holds in all, and how its calls change that.
use forme_agent.Base.{ℕ, String, [], ◌∷◌, none, ◌≡◌, refl, arith, string_eq, ◌+◌}
use forme_agent.Base.Map.{Map, lookup, insert, remove, string_ord, Distinct}
use forme_agent.Coordination.Budget.{or_zero}

-- The units reserved in all.
unfoldable pub reserved : Map String ℕ → ℕ
reserved [] = 0
reserved ((k, n) ∷ m) = n + reserved m

remove-reserved :
    (k : String) (m : Map String ℕ) → lookup k m ≡ none → reserved (remove k m) ≡ reserved m
unfolding reserved lookup remove
remove-reserved k [] e = refl
remove-reserved k ((j, n) ∷ m) e = ground (arith, remove-reserved k m)

pub insert-reserved :
    (k : String) (n : ℕ) (m : Map String ℕ)
    → lookup k m ≡ none
    → reserved (insert k n m) ≡ n + reserved m
unfolding reserved lookup insert
insert-reserved k n [] e = refl
insert-reserved k n ((j, i) ∷ m) e = ground (arith, insert-reserved k n m, remove-reserved k m)

pub release-reserved :
    (k : String) (m : Map String ℕ)
    → Distinct m
    → reserved (remove k m) + or_zero (lookup k m) ≡ reserved m
unfolding reserved lookup remove or_zero Distinct
release-reserved k [] d = refl
release-reserved k ((j, n) ∷ m) (e, d) = ground (arith, release-reserved k m d, remove-reserved k m)
