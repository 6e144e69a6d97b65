-- ===== src/Coordination/Budget.antt =====
-- crates/coordination/src/lib.rs: `BudgetLedger`, and the units that a profile's budget names. A lock
-- is never found poisoned.
pub mod Conservation
use forme_agent.Base.{
  ℕ, zero, suc, String, Bool, true, false, ◌&&◌, List, [], ◌∷◌, Option, none, some, Result, ok, err,
  reject, ◌>>=◌, ◌>>◌, if◌then◌else◌, ltb, leb, ◌==◌, nat_eq, ◌+◌, ◌-◌, ◌*◌, ◌^◌, min, starts_with,
  length,
}
use forme_agent.Base.Map.{Map, lookup, insert, remove, contains_key, string_ord}
use forme_agent.Base.Text.{codes, is_whitespace}
use forme_agent.Coordination.Route.{
  Error, not_positive, already_reserved, exceeds_remaining, bad_units,
}

pub record BudgetState : Type 0 where
  pub remaining : ℕ
  pub reservations : Map String ℕ

unfoldable pub new : ℕ → BudgetState
new total = record { remaining = total; reservations = [] }

unfoldable pub reserve : String → ℕ → BudgetState → BudgetState × Result Error (Unit {0})
reserve node amount b =
    if amount == 0
    then (b, err not_positive)
    else (if contains_key node b.reservations
        then (b, err already_reserved)
        else (if ltb b.remaining amount then (b, err exceeds_remaining) else (
          record {
            remaining = b.remaining - amount;
            reservations = insert node amount b.reservations;
          },
          ok tt,
        )))

unfoldable pub or_zero : Option ℕ → ℕ
or_zero none = 0
or_zero (some n) = n

-- The reservation is removed, and goes back to what remains with a saturating sum.
unfoldable pub release : String → BudgetState → BudgetState × ℕ
release node b =
    let amount = or_zero (lookup node b.reservations) in
    (
      record {
        remaining = min (b.remaining + amount) (2 ^ 64 - 1);
        reservations = remove node b.reservations;
      },
      amount,
    )

-- `str::trim` on code points.
unfoldable pub trim_start : List ℕ → List ℕ
trim_start [] = []
trim_start (c ∷ cs) = let rest = trim_start cs in if is_whitespace c then rest else c ∷ cs

keep_end : ℕ → List ℕ → List ℕ
keep_end c [] = if is_whitespace c then [] else c ∷ []
keep_end c (d ∷ ds) = c ∷ d ∷ ds

unfoldable pub trim_end : List ℕ → List ℕ
unfolding keep_end
trim_end [] = []
trim_end (c ∷ cs) = keep_end c (trim_end cs)

unfoldable pub drop : ℕ → List ℕ → List ℕ
drop zero xs = xs
drop (suc n) [] = []
drop (suc n) (x ∷ xs) = drop n xs

-- `u64::from_str`: digits after an optional plus, of a value below 2 ^ 64.
unfoldable pub parse_digits : List ℕ → ℕ → Option ℕ
parse_digits [] acc = some acc
parse_digits (c ∷ cs) acc =
    let next = acc * 10 + (c - 48) in
    let rest = parse_digits cs next in
    if leb 48 c && leb c 57 && ltb next (2 ^ 64) then rest else none

unsigned : List ℕ → Option ℕ
unsigned [] = none
unsigned (c ∷ cs) = parse_digits (c ∷ cs) 0

unfoldable pub parse_u64 : List ℕ → Option ℕ
unfolding unsigned
parse_u64 [] = none
parse_u64 (c ∷ cs) = if c == 43 then unsigned cs else unsigned (c ∷ cs)

strip_units : List ℕ → List ℕ
strip_units raw = if starts_with raw (codes "units:") then drop 6 raw else raw

unfoldable pub parse_budget_units : String → Result Error ℕ
unfolding strip_units
parse_budget_units budget = elim (parse_u64 (strip_units (trim_end (trim_start (codes budget))))) [
  | none ↦ err bad_units
  | some n ↦ ok n
]
