-- ===== src/Range.antt =====
-- `checkRange`, src/utils/check-range.ts. Addresses are natural numbers; a value is one address or
-- an array of them, and the range is left out, one tuple, or an array of tuples.
pub mod Laws
mod Runs
use njs_modbus.Common.{ℕ, Bool, true, false, ◌&&◌, ◌||◌, List, [], ◌∷◌, ltb, leb, if◌then◌else◌}

pub data Value : Type 0 where
  one : ℕ → Value
  many : List ℕ → Value

-- An empty array is a `multi` with no tuple.
pub data Range : Type 0 where
  omitted : Range
  single : ℕ → ℕ → Range
  multi : List (ℕ × ℕ) → Range

-- The test on a scalar and one tuple, as the first branch writes it.
pub in_single : ℕ → ℕ → ℕ → Bool
in_single v lo hi = if leb lo hi then leb lo v && leb v hi else leb hi v && leb v lo

abbrev pub low : ℕ × ℕ → ℕ
low r = if leb r.0 r.1 then r.0 else r.1

abbrev pub high : ℕ × ℕ → ℕ
high r = if leb r.0 r.1 then r.1 else r.0

-- The loop over the tuples, for a scalar.
pub in_any : ℕ → List (ℕ × ℕ) → Bool
in_any v [] = false
in_any v (r ∷ ranges) = if leb (low r) v && leb v (high r) then true else in_any v ranges

-- The loop over the values, for one tuple.
pub all_in : List ℕ → ℕ → ℕ → Bool
all_in [] lo hi = true
all_in (v ∷ values) lo hi = if ltb v lo || ltb hi v then false else all_in values lo hi

-- The loop over the tuples, for an array.
pub all_in_any : List ℕ → List (ℕ × ℕ) → Bool
all_in_any values [] = false
all_in_any values (r ∷ ranges) =
    if all_in values (low r) (high r) then true else all_in_any values ranges

-- `!range || range.length === 0`
pub is_unbounded : Range → Bool
is_unbounded omitted = true
is_unbounded (single a b) = false
is_unbounded (multi []) = true
is_unbounded (multi (r ∷ ranges)) = false

pub check_bounded : Value → Range → Bool
check_bounded v omitted = true
check_bounded (one v) (single a b) = in_single v a b
check_bounded (one v) (multi ranges) = in_any v ranges
check_bounded (many []) (single a b) = true
check_bounded (many []) (multi ranges) = true
check_bounded (many (v ∷ values)) (single a b) = all_in (v ∷ values) (low (a, b)) (high (a, b))
check_bounded (many (v ∷ values)) (multi ranges) = all_in_any (v ∷ values) ranges

pub check_range : Value → Range → Bool
check_range v r = if is_unbounded r then true else check_bounded v r
