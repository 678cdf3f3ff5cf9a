-- ===== src/Slave/Lock/Flush.antt =====
-- `_flushPendingWrites` of src/slave/slave.ts.
use njs_modbus.Common.{
  ℕ, zero, suc, ◌+◌, ◌≤◌, ◌<◌, ◌≡◌, refl, arith, Bool, true, false, ◌⊎◌, List, [], ◌∷◌, length,
  Bool-cases, inl, inr, if◌then◌else◌, ◌==◌,
}
use njs_modbus.Slave.Lock.{
  Request, Queue, conflicts, in_flight_after, pass, flush_loop, flush_pending_writes,
}
use njs_modbus.Slave.Lock.Start.{IsLocked, in_flight_after-IsLocked, conflicts-in_flight_after}

pub pass-IsLocked :
    (pending in_flight : List Request)
    → IsLocked in_flight
    → IsLocked (pass pending in_flight).in_flight
unfolding pass
pass-IsLocked [] in_flight locked = locked
pass-IsLocked (r ∷ rest) in_flight locked = elim (Bool-cases (conflicts r in_flight)) [
  | inl waits ↦ rw waits (pass-IsLocked rest in_flight locked)
  | inr free ↦ rw free (
      pass-IsLocked rest (in_flight_after r in_flight)
        (in_flight_after-IsLocked r in_flight free locked))
]

-- Every request of the first list conflicts with one of the second.
abbrev pub AreBlocked : List Request → List Request → Type 0
AreBlocked [] in_flight = Unit {0}
AreBlocked (r ∷ pending) in_flight = (conflicts r in_flight ≡ true) × AreBlocked pending in_flight

pass-conflicts :
    (r : Request) (pending in_flight : List Request)
    → conflicts r in_flight ≡ true
    → conflicts r (pass pending in_flight).in_flight ≡ true
unfolding pass
pass-conflicts r [] in_flight c = c
pass-conflicts r (x ∷ rest) in_flight c = elim (Bool-cases (conflicts x in_flight)) [
  | inl waits ↦ rw waits (pass-conflicts r rest in_flight c)
  | inr free ↦ rw free (
      pass-conflicts r rest (in_flight_after x in_flight)
        (conflicts-in_flight_after r x in_flight c))
]

pub pass-AreBlocked :
    (pending in_flight : List Request)
    → AreBlocked (pass pending in_flight).kept (pass pending in_flight).in_flight
unfolding pass
pass-AreBlocked [] in_flight = tt
pass-AreBlocked (r ∷ rest) in_flight = elim (Bool-cases (conflicts r in_flight)) [
  | inl waits ↦ rw waits (pass-conflicts r rest in_flight waits, pass-AreBlocked rest in_flight)
  | inr free ↦ rw free (pass-AreBlocked rest (in_flight_after r in_flight))
]

-- A pass over requests that are all blocked leaves them.
pass_blocked :
    (pending in_flight : List Request)
    → AreBlocked pending in_flight
    → pass pending in_flight
      ≡ record { in_flight = in_flight; kept = pending; again = false; ran = [] }
unfolding pass
pass_blocked [] in_flight b = refl
pass_blocked (r ∷ rest) in_flight b = rw (b.0, pass_blocked rest in_flight b.1) refl

-- A pass behind a pass starts nothing, such as one that a completion on another unit asks for.
pass-pass :
    (pending in_flight : List Request)
    → let p = pass pending in_flight in
      pass p.kept p.in_flight
      ≡ record { in_flight = p.in_flight; kept = p.kept; again = false; ran = [] }
pass-pass pending in_flight =
    pass_blocked (pass pending in_flight).kept (pass pending in_flight).in_flight
      (pass-AreBlocked pending in_flight)

kept_short :
    (pending in_flight : List Request) → length (pass pending in_flight).kept ≤ length pending
unfolding pass
kept_short [] in_flight = omega arith
kept_short (r ∷ rest) in_flight = elim (Bool-cases (conflicts r in_flight)) [
  | inl waits ↦ rw waits (omega (arith, kept_short rest in_flight))
  | inr free ↦ rw free (omega (arith, kept_short rest (in_flight_after r in_flight)))
]

kept_shorter :
    (pending in_flight : List Request)
    → (pass pending in_flight).again ≡ true
    → length (pass pending in_flight).kept < length pending
unfolding pass
kept_shorter [] in_flight a = absurd (cc)
kept_shorter (r ∷ rest) in_flight a = elim (Bool-cases (conflicts r in_flight)) [
  | inl waits ↦ rw waits (omega (arith, kept_shorter rest in_flight (rw waits at a)))
  | inr free ↦ rw free (omega (arith, kept_short rest (in_flight_after r in_flight)))
]

flush_loop-IsLocked :
    (fuel : ℕ) (pending in_flight : List Request)
    → IsLocked in_flight
    → IsLocked (flush_loop fuel pending in_flight).in_flight
unfolding flush_loop
flush_loop-IsLocked zero pending in_flight locked = locked
flush_loop-IsLocked (suc fuel) pending in_flight locked =
    elim (Bool-cases (pass pending in_flight).again) [
      | inl again ↦ rw again (
          flush_loop-IsLocked fuel (pass pending in_flight).kept (pass pending in_flight).in_flight
            (pass-IsLocked pending in_flight locked))
      | inr over ↦ rw over (pass-IsLocked pending in_flight locked)
    ]

flush_loop-AreBlocked :
    (fuel : ℕ) (pending in_flight : List Request)
    → length pending < fuel
    → AreBlocked
        (flush_loop fuel pending in_flight).pending
        (flush_loop fuel pending in_flight).in_flight
unfolding flush_loop
flush_loop-AreBlocked zero pending in_flight h = absurd (omega arith)
flush_loop-AreBlocked (suc fuel) pending in_flight h =
    elim (Bool-cases (pass pending in_flight).again) [
      | inl again ↦ rw again (
          flush_loop-AreBlocked fuel (pass pending in_flight).kept
            (pass pending in_flight).in_flight
            (omega (arith, h, kept_shorter pending in_flight again)))
      | inr over ↦ rw over (pass-AreBlocked pending in_flight)
    ]

-- The `do … while` loop ends within `n` passes, with a queue: a pass that asks for another is followed
-- by one over what it leaves, and the queue is what the first pass that does not ask leaves.
abbrev pub EndsWithin : ℕ → List Request → List Request → Queue → Type 0
EndsWithin zero pending in_flight q = ⊥
EndsWithin (suc n) pending in_flight q =
    let p = pass pending in_flight in
    ((p.again ≡ false) × (q ≡ record { in_flight = p.in_flight; pending = p.kept }))
    ⊎ ((p.again ≡ true) × EndsWithin n p.kept p.in_flight q)

flush_loop-EndsWithin :
    (fuel : ℕ) (pending in_flight : List Request)
    → length pending < fuel
    → EndsWithin fuel pending in_flight (flush_loop fuel pending in_flight)
unfolding flush_loop
flush_loop-EndsWithin zero pending in_flight h = absurd (omega arith)
flush_loop-EndsWithin (suc fuel) pending in_flight h =
    let p = pass pending in_flight in
    elim (Bool-cases p.again) [
      | inl again ↦
          let less = kept_shorter pending in_flight again in
          inr
            (again, rw again (flush_loop-EndsWithin fuel p.kept p.in_flight (omega (arith, less))))
      | inr over ↦ inl (over, rw over refl)
    ]

-- Outside any other flush, _flushPendingWrites ends within as many passes as there are pending
-- requests and one: only so many passes may ask for another, and it leaves the queue that the pass
-- which does not ask for another leaves.
pub flush_pending_writes-EndsWithin :
    (pending in_flight : List Request)
    → EndsWithin
        (suc (length pending))
        pending
        in_flight
        (flush_pending_writes false pending in_flight)
unfolding flush_pending_writes
flush_pending_writes-EndsWithin pending in_flight =
    flush_loop-EndsWithin (suc (length pending)) pending in_flight (omega arith)

pub flush_pending_writes-IsLocked :
    (flushing : Bool) (pending in_flight : List Request)
    → IsLocked in_flight
    → IsLocked (flush_pending_writes flushing pending in_flight).in_flight
unfolding flush_pending_writes
flush_pending_writes-IsLocked true pending in_flight locked = locked
flush_pending_writes-IsLocked false pending in_flight locked =
    flush_loop-IsLocked (suc (length pending)) pending in_flight locked

pub flush_pending_writes-AreBlocked :
    (pending in_flight : List Request)
    → AreBlocked
        (flush_pending_writes false pending in_flight).pending
        (flush_pending_writes false pending in_flight).in_flight
unfolding flush_pending_writes
flush_pending_writes-AreBlocked pending in_flight =
    flush_loop-AreBlocked (suc (length pending)) pending in_flight (omega arith)

-- How often a tag stands in a list.
abbrev pub times : ℕ → List ℕ → ℕ
times t [] = 0
times t (x ∷ tags) = (if x == t then 1 else 0) + times t tags

abbrev pub tags : List Request → List ℕ
tags [] = []
tags (r ∷ list) = r.tag ∷ tags list

-- A pass starts each pending request once or keeps it pending: whatever the tag, it stands among the
-- pending requests as often as among the kept and the started ones together.
pub pass_balance :
    (t : ℕ) (pending in_flight : List Request)
    → times t (tags pending)
      ≡ times t (tags (pass pending in_flight).kept) + times t (pass pending in_flight).ran
unfolding pass
pass_balance t [] in_flight = refl
pass_balance t (r ∷ rest) in_flight = elim (Bool-cases (conflicts r in_flight)) [
  | inl waits ↦ rw waits (omega (arith, pass_balance t rest in_flight))
  | inr free ↦ rw free (omega (arith, pass_balance t rest (in_flight_after r in_flight)))
]
