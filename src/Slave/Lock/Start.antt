-- ===== src/Slave/Lock/Start.antt =====
-- The start of a request of src/slave/slave.ts that conflicts with none in flight.
use njs_modbus.Common.{
  set_at, ℕ, zero, suc, ◌-◌, ◌<◌, ◌≡◌, ◌⊎◌, refl, ap, ◌∙◌, arith, Bool, true, false, List, [], ◌∷◌,
  ◌++◌, some, length, get_or-append_lt, get_or-append_ge, length-append, take-append, lt→ltb,
  Bool-cases, inl, inr, if◌then◌else◌,
}
use native.Mathlib.Decide.{ℕ_discrete}
use njs_modbus.Slave.Overlap.{ranges_overlap}
use njs_modbus.Slave.Overlap.Symmetric.{ranges_overlap_comm}
use njs_modbus.Slave.Lock.{
  Request, no_request, request_at, conflicts, started, moved, remove_at, done_at, in_flight_after,
}
use njs_modbus.Slave.Lock.Remove.{IsIndexed, IsDisjoint}

pub length-started :
    (r : Request) (list : List Request) → length (started r list) ≡ suc (length list)
length-started r list =
    omega (arith, length-append list (record r { index = some (length list) } ∷ []))

started_last :
    (r : Request) (list : List Request)
    → request_at (started r list) (length list) ≡ record r { index = some (length list) }
started_last r list =
    let none_left : length list - length list ≡ 0 = omega arith in
    rw
      (
        get_or-append_ge list (record r { index = some (length list) } ∷ []) (length list)
            no_request (omega arith),
        none_left,
      )
      refl

started_other :
    (r : Request) (list : List Request) (p : ℕ)
    → p < length list
    → request_at (started r list) p ≡ request_at list p
started_other r list p h =
    get_or-append_lt list (record r { index = some (length list) } ∷ []) p no_request h

set_at-append :
    (list : List Request) (x y : Request) → set_at (list ++ x ∷ []) (length list) y ≡ list ++ y ∷ []
set_at-append [] x y = refl
set_at-append (r ∷ list) x y = ap (◌∷◌ r) (set_at-append list x y)

-- The removal of the request that was just started gives the list back.
pub done_at-started :
    (r : Request) (list : List Request) → done_at (length list) (started r list) ≡ list
unfolding remove_at
done_at-started r list =
    let n : length (started r list) - 1 ≡ length list = omega (arith, length-started r list) in
    let short : length list < length (started r list) = omega (arith, length-started r list) in
    rw
      (
        started_last r list,
        lt→ltb (length list) (length (started r list)) short,
        n,
        set_at-append list (record r { index = some (length list) })
            (moved (length list) (length list) (length list)
              (request_at (started r list) (length list))),
      )
      (take-append list (
        moved (length list) (length list) (length list) (request_at (started r list) (length list))
        ∷ []))

pub started-IsIndexed :
    (r : Request) (list : List Request) → IsIndexed list → IsIndexed (started r list)
started-IsIndexed r list indexed p h = elim (ℕ_discrete p (length list)) [
  | yes last ↦ rw (last, started_last r list) refl
  | no other ↦
      let short : p < length list = omega (arith, h, other, length-started r list) in
      rw (started_other r list p short) (indexed p short)
]

-- `conflicts` tests all requests in flight.
pub conflicts_none :
    (r : Request) (list : List Request)
    → conflicts r list ≡ false
    → (p : ℕ) → p < length list
    → ranges_overlap r.ranges (request_at list p).ranges ≡ false
unfolding conflicts
conflicts_none r [] c p h = absurd (omega arith)
conflicts_none r (x ∷ list) c zero h = elim (Bool-cases (ranges_overlap r.ranges x.ranges)) [
  | inl meets ↦ absurd (cc)
  | inr apart ↦ apart
]
conflicts_none r (x ∷ list) c (suc p) h = elim (Bool-cases (ranges_overlap r.ranges x.ranges)) [
  | inl meets ↦ absurd (cc)
  | inr apart ↦ conflicts_none r list (rw apart at c) p (omega arith)
]

pub started-IsDisjoint :
    (r : Request) (list : List Request)
    → conflicts r list ≡ false
    → IsDisjoint list
    → IsDisjoint (started r list)
started-IsDisjoint r list c apart p q hp hq n = elim (ℕ_discrete p (length list)) [
  | yes a ↦
      let q_short : q < length list = omega (arith, hq, a, n, length-started r list) in
      rw (a, started_last r list, started_other r list q q_short)
        (conflicts_none r list c q q_short)
  | no a ↦
      let p_short : p < length list = omega (arith, hp, a, length-started r list) in
      elim (ℕ_discrete q (length list)) [
        | yes b ↦
            rw
              (
                b,
                started_last r list,
                started_other r list p p_short,
                ranges_overlap_comm (request_at list p).ranges r.ranges,
              )
              (conflicts_none r list c p p_short)
        | no b ↦
            let q_short : q < length list = omega (arith, hq, b, length-started r list) in
            rw (started_other r list p p_short, started_other r list q q_short)
              (apart p q p_short q_short n)
      ]
]

-- Both hold of the requests in flight.
abbrev pub IsLocked : List Request → Type 0
IsLocked list = IsIndexed list × IsDisjoint list

pub none_in_flight-IsLocked : IsLocked []
none_in_flight-IsLocked = (λ p h. absurd (omega arith), λ p q hp hq n. absurd (omega arith))

if-cases : (b : Bool) (x y : List Request) → ((if b then x else y) ≡ x) ⊎ ((if b then x else y) ≡ y)
if-cases true x y = inl refl
if-cases false x y = inr refl

-- An instant request leaves the list as it was; any other is in flight afterwards.
pub in_flight_after-cases :
    (r : Request) (list : List Request)
    → (in_flight_after r list ≡ list) ⊎ (in_flight_after r list ≡ started r list)
in_flight_after-cases r list =
    elim (if-cases r.instant (done_at (length list) (started r list)) (started r list)) [
      | inl now ↦ inl (now ∙ done_at-started r list)
      | inr later ↦ inr later
    ]

pub in_flight_after-IsLocked :
    (r : Request) (list : List Request)
    → conflicts r list ≡ false
    → IsLocked list
    → IsLocked (in_flight_after r list)
in_flight_after-IsLocked r list c locked = elim (in_flight_after-cases r list) [
  | inl same ↦ rw same locked
  | inr more ↦ rw more (started-IsIndexed r list locked.0, started-IsDisjoint r list c locked.1)
]

-- A request keeps its conflicts when others are started.
pub conflicts-append :
    (r : Request) (list more : List Request)
    → conflicts r list ≡ true
    → conflicts r (list ++ more) ≡ true
unfolding conflicts
conflicts-append r [] more c = absurd (cc)
conflicts-append r (x ∷ list) more c = elim (Bool-cases (ranges_overlap r.ranges x.ranges)) [
  | inl meets ↦ rw meets refl
  | inr apart ↦ rw apart (conflicts-append r list more (rw apart at c))
]

pub conflicts-in_flight_after :
    (r other : Request) (list : List Request)
    → conflicts r list ≡ true
    → conflicts r (in_flight_after other list) ≡ true
conflicts-in_flight_after r other list c = elim (in_flight_after-cases other list) [
  | inl same ↦ rw same c
  | inr more ↦
      rw more (conflicts-append r list (record other { index = some (length list) } ∷ []) c)
]
