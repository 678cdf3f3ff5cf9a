-- ===== src/Range/Laws.antt =====
-- `checkRange` of src/utils/check-range.ts against what its documentation says.
use njs_modbus.Common.{ℕ, ◌≤◌, ◌≡◌, ◌↔◌, ◌⊎◌, refl, true, List, [], ◌∷◌, All, arith, min, max}
use njs_modbus.Range.{
  Value, one, many, Range, omitted, single, multi, low, high, in_single, in_any, all_in, all_in_any,
  is_unbounded, check_bounded, check_range,
}

-- The address lies between the ends of the tuple, which may stand in either order.
abbrev pub Within : ℕ × ℕ → ℕ → Type 0
Within r v = (min r.0 r.1 ≤ v) × (v ≤ max r.0 r.1)

-- Some tuple holds all the addresses.
abbrev pub SomeHolds : List ℕ → List (ℕ × ℕ) → Type 0
SomeHolds values [] = ⊥
SomeHolds values (r ∷ ranges) = All (Within r) values ⊎ SomeHolds values ranges

abbrev pub addresses : Value → List ℕ
addresses (one v) = v ∷ []
addresses (many values) = values

-- What the documentation promises.
abbrev pub Allowed : Value → Range → Type 0
Allowed v omitted = Unit {0}
Allowed v (single a b) = All (Within (a, b)) (addresses v)
Allowed v (multi []) = Unit {0}
Allowed (many []) (multi (r ∷ ranges)) = Unit {0}
Allowed (one v) (multi (r ∷ ranges)) = SomeHolds (v ∷ []) (r ∷ ranges)
Allowed (many (v ∷ values)) (multi (r ∷ ranges)) = SomeHolds (v ∷ values) (r ∷ ranges)

all_in_sound :
    (values : List ℕ) (r : ℕ × ℕ) → all_in values (low r) (high r) ≡ true → All (Within r) values
unfolding all_in
all_in_sound [] r h = tt
all_in_sound (v ∷ values) r h = ground (arith, all_in_sound values r)

all_in_complete :
    (values : List ℕ) (r : ℕ × ℕ) → All (Within r) values → all_in values (low r) (high r) ≡ true
unfolding all_in
all_in_complete [] r h = refl
all_in_complete (v ∷ values) r h = ground (arith, all_in_complete values r h.1)

in_single_sound : (v a b : ℕ) → in_single v a b ≡ true → All (Within (a, b)) (v ∷ [])
unfolding in_single
in_single_sound v a b h = ground arith

in_single_complete : (v a b : ℕ) → All (Within (a, b)) (v ∷ []) → in_single v a b ≡ true
unfolding in_single
in_single_complete v a b h = ground arith

in_any_sound : (v : ℕ) (ranges : List (ℕ × ℕ)) → in_any v ranges ≡ true → SomeHolds (v ∷ []) ranges
unfolding in_any
in_any_sound v [] h = ground arith
in_any_sound v (r ∷ ranges) h = ground (arith, in_any_sound v ranges)

all_in_any_sound :
    (values : List ℕ) (ranges : List (ℕ × ℕ))
    → all_in_any values ranges ≡ true
    → SomeHolds values ranges
unfolding all_in_any
all_in_any_sound values [] h = ground arith
all_in_any_sound values (r ∷ ranges) h =
    ground (arith, all_in_sound values r, all_in_any_sound values ranges)

in_any_complete :
    (v : ℕ) (ranges : List (ℕ × ℕ)) → SomeHolds (v ∷ []) ranges → in_any v ranges ≡ true
unfolding in_any
in_any_complete v [] h = absurd h
in_any_complete v (r ∷ ranges) h = ground (arith, in_any_complete v ranges)

all_in_any_complete :
    (values : List ℕ) (ranges : List (ℕ × ℕ))
    → SomeHolds values ranges
    → all_in_any values ranges ≡ true
unfolding all_in_any
all_in_any_complete values [] h = absurd h
all_in_any_complete values (r ∷ ranges) h =
    ground (arith, all_in_complete values r, all_in_any_complete values ranges)

check_range_sound : (v : Value) (r : Range) → check_range v r ≡ true → Allowed v r
unfolding check_range check_bounded is_unbounded
check_range_sound v omitted h = tt
check_range_sound (one v) (single a b) h = in_single_sound v a b h
check_range_sound (many []) (single a b) h = tt
check_range_sound (many (v ∷ values)) (single a b) h = all_in_sound (v ∷ values) (a, b) h
check_range_sound v (multi []) h = tt
check_range_sound (one v) (multi (r ∷ ranges)) h = in_any_sound v (r ∷ ranges) h
check_range_sound (many []) (multi (r ∷ ranges)) h = tt
check_range_sound (many (v ∷ values)) (multi (r ∷ ranges)) h =
    all_in_any_sound (v ∷ values) (r ∷ ranges) h

check_range_complete : (v : Value) (r : Range) → Allowed v r → check_range v r ≡ true
unfolding check_range check_bounded is_unbounded
check_range_complete v omitted h = refl
check_range_complete (one v) (single a b) h = in_single_complete v a b h
check_range_complete (many []) (single a b) h = refl
check_range_complete (many (v ∷ values)) (single a b) h = all_in_complete (v ∷ values) (a, b) h
check_range_complete v (multi []) h = refl
check_range_complete (one v) (multi (r ∷ ranges)) h = in_any_complete v (r ∷ ranges) h
check_range_complete (many []) (multi (r ∷ ranges)) h = refl
check_range_complete (many (v ∷ values)) (multi (r ∷ ranges)) h =
    all_in_any_complete (v ∷ values) (r ∷ ranges) h

-- `checkRange` returns true exactly when the range is left out or empty, the array of values is
-- empty, or one of the tuples, its ends in either order and both included, holds every value.
pub check_range_iff : (v : Value) (r : Range) → (check_range v r ≡ true) ↔ Allowed v r
check_range_iff v r = (check_range_sound v r, check_range_complete v r)
