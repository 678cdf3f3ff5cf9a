-- ===== src/Slave/Lock/Steps.antt =====
-- The queue of a unit in src/slave/slave.ts over any order of arrivals and completions.
use njs_modbus.Common.{
  ℕ, zero, suc, ◌<◌, ◌≡◌, ◌≢◌, arith, Bool, true, false, List, [], ◌∷◌, ◌++◌, length, Bool-cases,
  inl, inr, if◌then◌else◌, some, refl, ◌||◌, ◌&&◌,
}
use njs_modbus.Slave.Overlap.{ranges_overlap}
use njs_modbus.Slave.Lock.{Request, Queue, request_at, started, conflicts, done_at, done, arrive}
use njs_modbus.Slave.Lock.Remove.{done_at-IsIndexed, done_at-IsDisjoint}
use njs_modbus.Slave.Lock.Start.{
  IsLocked, none_in_flight-IsLocked, started-IsIndexed, started-IsDisjoint, conflicts-append,
  length-started,
}
use njs_modbus.Slave.Lock.Flush.{
  AreBlocked, flush_pending_writes-IsLocked, flush_pending_writes-AreBlocked,
}

abbrev pub idle : Queue
idle = record { in_flight = []; pending = [] }

-- The queues of a unit that the lock reaches. A request arrives, or the handler of the request at a
-- position calls its callback; either while no flush is going on, or while the pending writes of
-- another unit are started (`meanwhile`). The flag says whether a request may have left the queue in
-- the second way since one was completed in the first.
pub data Reach : Bool → Queue → Type 0 where
  at_rest : Reach false idle
  arrives :
      {missed : Bool} {q : Queue}
      → Reach missed q
      → (request : Request) → Reach missed (arrive false request q)
  arrives_meanwhile :
      {missed : Bool} {q : Queue}
      → Reach missed q
      → (request : Request) → Reach (missed || request.instant) (arrive true request q)
  finishes :
      {missed : Bool} {q : Queue}
      → Reach missed q
      → (p : ℕ) → p < length q.in_flight
      → Reach false (done false p q)
  finishes_meanwhile :
      {missed : Bool} {q : Queue}
      → Reach missed q
      → (p : ℕ) → p < length q.in_flight
      → Reach true (done true p q)

-- The pending requests are blocked, where no completion was missed.
abbrev BlockedUnless : Bool → Queue → Type 0
BlockedUnless missed q = missed ≡ false → AreBlocked q.pending q.in_flight

done-IsLocked :
    (flushing : Bool) (p : ℕ) (q : Queue)
    → IsLocked q.in_flight
    → p < length q.in_flight
    → IsLocked (done flushing p q).in_flight
unfolding done
done-IsLocked flushing p q locked h =
    flush_pending_writes-IsLocked flushing q.pending (done_at p q.in_flight) (
      done_at-IsIndexed q.in_flight p locked.0 h,
      done_at-IsDisjoint q.in_flight p locked.0 h locked.1,
    )

done-AreBlocked :
    (p : ℕ) (q : Queue) → AreBlocked (done false p q).pending (done false p q).in_flight
unfolding done
done-AreBlocked p q = flush_pending_writes-AreBlocked q.pending (done_at p q.in_flight)

AreBlocked-started :
    (pending in_flight more : List Request)
    → AreBlocked pending in_flight
    → AreBlocked pending (in_flight ++ more)
AreBlocked-started [] in_flight more b = tt
AreBlocked-started (r ∷ pending) in_flight more b =
    (conflicts-append r in_flight more b.0, AreBlocked-started pending in_flight more b.1)

AreBlocked-append :
    (pending in_flight : List Request) (r : Request)
    → AreBlocked pending in_flight
    → conflicts r in_flight ≡ true
    → AreBlocked (pending ++ r ∷ []) in_flight
AreBlocked-append [] in_flight r b c = (c, tt)
AreBlocked-append (x ∷ pending) in_flight r b c = (b.0, AreBlocked-append pending in_flight r b.1 c)

module _ (r : Request) (q : Queue) (free : conflicts r q.in_flight ≡ false) where
  abbrev next : Queue
  next = record q { in_flight = started r q.in_flight }

  -- The queue with the request in flight, and the same after an instant completion of it.
  in_flight-IsLocked :
      (flushing instant : Bool)
      → IsLocked q.in_flight
      → IsLocked (if instant then done flushing (length q.in_flight) next else next).in_flight
  in_flight-IsLocked flushing instant locked =
      let grown : IsLocked next.in_flight = (
        started-IsIndexed r q.in_flight locked.0,
        started-IsDisjoint r q.in_flight free locked.1,
      ) in
      elim instant
        as (λ instant.
          IsLocked (if instant then done flushing (length q.in_flight) next else next).in_flight) [
            | true ↦
                done-IsLocked flushing (length q.in_flight) next grown
                  (omega (arith, length-started r q.in_flight))
            | false ↦ grown
          ]

  in_flight-AreBlocked :
      (flushing instant : Bool)
      → (flushing && instant) ≡ false
      → AreBlocked q.pending q.in_flight
      → let after : Queue = if instant then done flushing (length q.in_flight) next else next in
        AreBlocked after.pending after.in_flight
  in_flight-AreBlocked true true e b = absurd (cc)
  in_flight-AreBlocked false true e b = done-AreBlocked (length q.in_flight) next
  in_flight-AreBlocked flushing false e b =
      AreBlocked-started q.pending q.in_flight (record r { index = some (length q.in_flight) } ∷ [])
        b

arrive-IsLocked :
    (flushing : Bool) (r : Request) (q : Queue)
    → IsLocked q.in_flight
    → IsLocked (arrive flushing r q).in_flight
unfolding arrive
arrive-IsLocked flushing r q locked = elim (Bool-cases (conflicts r q.in_flight)) [
  | inl waits ↦ rw waits locked
  | inr free ↦ rw free (in_flight-IsLocked r q free flushing r.instant locked)
]

-- An arrival leaves the pending requests blocked, but for an instant one during another flush.
arrive-AreBlocked :
    (flushing : Bool) (r : Request) (q : Queue)
    → (flushing && r.instant) ≡ false
    → AreBlocked q.pending q.in_flight
    → AreBlocked (arrive flushing r q).pending (arrive flushing r q).in_flight
unfolding arrive
arrive-AreBlocked flushing r q e b = elim (Bool-cases (conflicts r q.in_flight)) [
  | inl waits ↦ rw waits (AreBlocked-append q.pending q.in_flight r b waits)
  | inr free ↦ rw free (in_flight-AreBlocked r q free flushing r.instant e b)
]

Reach-IsLocked : {missed : Bool} {q : Queue} → Reach missed q → IsLocked q.in_flight
Reach-IsLocked at_rest = none_in_flight-IsLocked
Reach-IsLocked (arrives {q = q} reached r) = arrive-IsLocked false r q (Reach-IsLocked reached)
Reach-IsLocked (arrives_meanwhile {q = q} reached r) =
    arrive-IsLocked true r q (Reach-IsLocked reached)
Reach-IsLocked (finishes {q = q} reached p h) = done-IsLocked false p q (Reach-IsLocked reached) h
Reach-IsLocked (finishes_meanwhile {q = q} reached p h) =
    done-IsLocked true p q (Reach-IsLocked reached) h

neither : (a b : Bool) → (a || b) ≡ false → (a ≡ false) × (b ≡ false)
neither true b e = absurd (cc)
neither false b e = (refl, e)

Reach-BlockedUnless : {missed : Bool} {q : Queue} → Reach missed q → BlockedUnless missed q
Reach-BlockedUnless at_rest e = tt
Reach-BlockedUnless (arrives {q = q} reached r) e =
    arrive-AreBlocked false r q refl (Reach-BlockedUnless reached e)
Reach-BlockedUnless (arrives_meanwhile {missed = missed} {q = q} reached r) e =
    let (kept, slow) = neither missed r.instant e in
    arrive-AreBlocked true r q slow (Reach-BlockedUnless reached kept)
Reach-BlockedUnless (finishes {q = q} reached p h) e = done-AreBlocked p q
Reach-BlockedUnless (finishes_meanwhile reached p h) e = absurd (cc)

-- A request that conflicts overlaps one in flight.
conflicts_some :
    (r : Request) (list : List Request)
    → conflicts r list ≡ true
    → (p : ℕ) × (p < length list) × (ranges_overlap r.ranges (request_at list p).ranges ≡ true)
unfolding conflicts
conflicts_some r [] c = absurd (cc)
conflicts_some r (x ∷ list) c = elim (Bool-cases (ranges_overlap r.ranges x.ranges)) [
  | inl meets ↦ (0, omega arith, meets)
  | inr apart ↦
      let (p, short, meets) = conflicts_some r list (rw apart at c) in (suc p, omega arith, meets)
]

blocked_at :
    (pending in_flight : List Request) (k : ℕ)
    → AreBlocked pending in_flight
    → k < length pending
    → conflicts (request_at pending k) in_flight ≡ true
blocked_at [] in_flight k b h = absurd (omega arith)
blocked_at (r ∷ pending) in_flight zero b h = b.0
blocked_at (r ∷ pending) in_flight (suc k) b h = blocked_at pending in_flight k b.1 (omega arith)

-- In every queue that the lock reaches from an empty one, by any order of arrivals and of
-- completions, also while the pending writes of another unit are started, two different requests in
-- flight do not overlap.
pub in_flight_apart :
    {missed : Bool} {q : Queue}
    → Reach missed q
    → (i j : ℕ) → i < length q.in_flight
    → j < length q.in_flight
    → i ≢ j
    → ranges_overlap (request_at q.in_flight i).ranges (request_at q.in_flight j).ranges ≡ false
in_flight_apart reached i j hi hj n = (Reach-IsLocked reached).1 i j hi hj n

-- In every queue that the lock reaches from an empty one, by any order of arrivals and of
-- completions, each pending request overlaps one in flight, so that none waits that could be started,
-- unless a request of the unit was completed while the pending writes of another unit were started
-- and none has been completed otherwise since.
pub pending_waits :
    {q : Queue}
    → Reach false q
    → (k : ℕ) → k < length q.pending
    → (p : ℕ) × (p < length q.in_flight)
      × (ranges_overlap (request_at q.pending k).ranges (request_at q.in_flight p).ranges ≡ true)
pending_waits {q = q} reached k h =
    conflicts_some (request_at q.pending k) q.in_flight
      (blocked_at q.pending q.in_flight k (Reach-BlockedUnless reached refl) h)
