-- ===== src/Slave/DeviceId/Texts.antt =====
-- The length of the texts that `_handleFC43_14` of src/slave/slave.ts takes from a unit and sends.
use njs_modbus.Common.{
  ℕ, ◌≤◌, ◌≡◌, ap, ◌||◌, ◌&&◌, List, [], ◌∷◌, length, All, Option, none, some, arith, ltb, leb,
  ◌==◌, if◌then◌else◌, Bool-cases, inl, inr,
}
use njs_modbus.Slave.DeviceId.{Objects, put, null_text, collect, with_defaults}
use njs_modbus.Slave.DeviceId.Encoded.{with_text, values_of}

-- Texts of at least two bytes.
abbrev pub IsLongIfSome : Option (List ℕ) → Type 0
IsLongIfSome none = Unit {0}
IsLongIfSome (some value) = 2 ≤ length value

collect-long :
    (given : List (Option ℕ × List ℕ)) (start : Objects)
    → All (λ o. 2 ≤ length o.1) given
    → ((j : ℕ) → IsLongIfSome (start j))
    → (found : Objects) → collect given start ≡ some found
    → (j : ℕ) → IsLongIfSome (found j)
unfolding collect
collect-long [] start long h found e j =
    let same : start j ≡ found j = ap (at j) e in rw (← same) (h j)
  where
    at : ℕ → Option Objects → Option (List ℕ)
    at k none = none
    at k (some objects) = objects k
collect-long ((none, value) ∷ rest) start long h found e j = absurd (cc)
collect-long ((some id, value) ∷ rest) start long h found e j =
    elim (Bool-cases (ltb 0xff id || (leb 0x07 id && leb id 0x7f))) [
      | inl refused_id ↦ absurd (cc (rw refused_id at e))
      | inr kept ↦
          collect-long rest (put start id value) long.1
            (λ i. elim (Bool-cases (i == id)) [ inl new ↦ rw new long.0 | inr old ↦ rw old (h i) ])
            found (rw kept at e) j
    ]

with_defaults-long :
    (found : Objects) (j : ℕ) → IsLongIfSome (found j) → IsLongIfSome (with_defaults found j)
unfolding with_defaults
with_defaults-long found j h =
    elim (found j)
        as (λ v.
          IsLongIfSome v
          → IsLongIfSome
              (elim v [ some v ↦ some v | none ↦ (if leb j 0x02 then some null_text else none) ])) [
                | some v ↦ λ h. h
                | none ↦ λ h. elim (Bool-cases (leb j 0x02)) [
                  | inl mandatory ↦ rw mandatory (omega arith)
                  | inr optional ↦ rw optional tt
                ]
              ]
      h

-- The objects that are sent have texts of at least two bytes, where all that the unit gave have.
pub values_of-long :
    (given : List (Option ℕ × List ℕ)) (found : Objects)
    → All (λ o. 2 ≤ length o.1) given
    → collect given (λ _. none) ≡ some found
    → (ids : List (ℕ × ℕ)) → All (λ o. 2 ≤ length o.1) (values_of (with_defaults found) ids)
values_of-long given found long e [] = tt
values_of-long given found long e ((id, n) ∷ ids) =
    let later = values_of-long given found long e ids in
    let here =
      with_defaults-long found id (collect-long given (λ _. none) long (λ j. tt) found e id) in
    elim (with_defaults found id)
        as (λ v.
          IsLongIfSome v
          → All (λ o. 2 ≤ length o.1) (with_text id v (values_of (with_defaults found) ids))) [
            | none ↦ λ h. later
            | some value ↦ λ h. (h, later)
          ]
      here
