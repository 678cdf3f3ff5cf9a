-- ===== src/Slave/Lock/Remove.antt =====
-- The removal by index in `_onLockedUnitWriteDone` of src/slave/slave.ts.
use njs_modbus.Common.{
  ℕ, ◌-◌, ◌<◌, ◌≡◌, ◌≢◌, refl, ◌∙◌, sym, arith, false, List, some, ◌==◌, if◌then◌else◌, length,
  take, get_or-take, length-take, set_at, length-set_at, get_or-set_same, get_or-set_other, lt→ltb,
  eq→==, ne→==, Bool-cases, inl, inr,
}
use native.Mathlib.Decide.{ℕ_discrete}
use njs_modbus.Slave.Overlap.{ranges_overlap}
use njs_modbus.Slave.Lock.{Request, no_request, request_at, moved, remove_at, done_at}

-- Every request in flight knows its place.
abbrev pub IsIndexed : List Request → Type 0
IsIndexed list = (p : ℕ) → p < length list → (request_at list p).index ≡ some p

-- No two requests in flight overlap.
abbrev pub IsDisjoint : List Request → Type 0
IsDisjoint list =
    (p q : ℕ)
    → p < length list
    → q < length list
    → p ≢ q
    → ranges_overlap (request_at list p).ranges (request_at list q).ranges ≡ false

-- Where an entry of the shortened list comes from.
abbrev pub origin : List Request → ℕ → ℕ → ℕ
origin list p j = if j == p then length list - 1 else j

origin_lt : (list : List Request) (p j : ℕ) → j < length list - 1 → origin list p j < length list
origin_lt list p j h = elim (Bool-cases (j == p)) [
  | inl e ↦ rw e (omega arith)
  | inr e ↦ rw e (omega arith)
]

origin_apart :
    (list : List Request) (p j k : ℕ)
    → j < length list - 1
    → k < length list - 1
    → j ≢ k
    → origin list p j ≢ origin list p k
origin_apart list p j k hj hk n = elim (ℕ_discrete j p) [
  | yes a ↦ elim (ℕ_discrete k p) [
    | yes b ↦ absurd (n (a ∙ sym b))
    | no b ↦ rw (eq→== j p a, ne→== k p b) (λ e. omega (arith, e))
  ]
  | no a ↦ elim (ℕ_discrete k p) [
    | yes b ↦ rw (ne→== j p a, eq→== k p b) (λ e. omega (arith, e))
    | no b ↦ rw (ne→== j p a, ne→== k p b) n
  ]
]

module _ (list : List Request) (p : ℕ) (indexed : IsIndexed list) (here : p < length list) where
  cut :
      done_at p list
      ≡ take
          (length list - 1)
          (set_at list p (moved p p (length list - 1) (request_at list (length list - 1))))
  unfolding remove_at
  cut = rw (indexed p here, lt→ltb p (length list) here) refl

  pub length-done_at : length (done_at p list) ≡ length list - 1
  length-done_at = rw cut (
      omega (
        arith,
        length-take (length list - 1)
            (set_at list p (moved p p (length list - 1) (request_at list (length list - 1)))),
        length-set_at list p (moved p p (length list - 1) (request_at list (length list - 1))),
      ))

  done_at_same :
      p < length list - 1
      → request_at (done_at p list) p
        ≡ record (request_at list (length list - 1)) { index = some p }
  done_at_same h =
      rw
        (
          cut,
          get_or-take (length list - 1)
              (set_at list p (moved p p (length list - 1) (request_at list (length list - 1)))) p
              no_request h,
          get_or-set_same list p (moved p p (length list - 1) (request_at list (length list - 1)))
              no_request here,
          ne→== p (length list - 1) (omega (arith, h)),
        )
        refl

  done_at_other :
      (j : ℕ) → j < length list - 1 → p ≢ j → request_at (done_at p list) j ≡ request_at list j
  done_at_other j h n =
      rw
        (
          cut,
          get_or-take (length list - 1)
              (set_at list p (moved p p (length list - 1) (request_at list (length list - 1)))) j
              no_request h,
        )
        (get_or-set_other list p j (moved p p (length list - 1) (request_at list (length list - 1)))
          no_request n)

  pub done_at-IsIndexed : IsIndexed (done_at p list)
  done_at-IsIndexed j h =
      let short : j < length list - 1 = omega (arith, h, length-done_at) in
      elim (ℕ_discrete p j) [
        | yes same ↦ rw (sym same, done_at_same (rw same short)) refl
        | no other ↦ rw (done_at_other j short other) (indexed j (omega (arith, short)))
      ]

  pub done_at_ranges :
      (j : ℕ)
      → j < length list - 1
      → (request_at (done_at p list) j).ranges ≡ (request_at list (origin list p j)).ranges
  done_at_ranges j h = elim (ℕ_discrete j p) [
    | yes same ↦ rw (eq→== j p same, same, done_at_same (rw (sym same) h)) refl
    | no other ↦ rw (ne→== j p other, done_at_other j h (λ e. other (sym e))) refl
  ]

  pub done_at-IsDisjoint : IsDisjoint list → IsDisjoint (done_at p list)
  done_at-IsDisjoint apart j k hj hk n =
      let j_short : j < length list - 1 = omega (arith, hj, length-done_at) in
      let k_short : k < length list - 1 = omega (arith, hk, length-done_at) in
      rw (done_at_ranges j j_short, done_at_ranges k k_short)
        (apart (origin list p j) (origin list p k) (origin_lt list p j j_short)
          (origin_lt list p k k_short) (origin_apart list p j k j_short k_short n))
