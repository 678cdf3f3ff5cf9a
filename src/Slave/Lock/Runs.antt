-- ===== src/Slave/Lock/Runs.antt =====
-- Runs of the write range lock of src/slave/slave.ts.
use njs_modbus.Common.{
  ℕ, ◌<◌, ◌≡◌, refl, arith, Bool, true, false, List, [], ◌∷◌, length, none, some,
}
use njs_modbus.Slave.Overlap.{one_overlaps, ranges_overlap}
use njs_modbus.Slave.Lock.{
  Request, Queue, request_at, remove_at, conflicts, pass, flush_loop, flush_pending_writes, done,
  arrive,
}
use njs_modbus.Slave.Lock.Flush.{EndsWithin, flush_pending_writes-EndsWithin}
use njs_modbus.Slave.Lock.Steps.{Reach, at_rest, arrives, idle, in_flight_apart, pending_waits}

abbrev request : ℕ → Bool → List ℕ → Request
request tag instant ranges = record { tag = tag; ranges = ranges; instant = instant; index = none }

abbrev low : Request
low = request 1 false (0 ∷ 10 ∷ [])

abbrev middle : Request
middle = request 2 false (5 ∷ 25 ∷ [])

abbrev high : Request
high = request 3 false (20 ∷ 30 ∷ [])

abbrev quick : Request
quick = request 4 true (40 ∷ 50 ∷ [])

-- Two requests in flight, and one that waits for both.
abbrev busy : Queue
busy = arrive false middle (arrive false high (arrive false low idle))

busy-Reach : Reach false busy
busy-Reach = arrives (arrives (arrives at_rest low) high) middle

busy_pending : length busy.pending ≡ 1
unfolding arrive conflicts ranges_overlap one_overlaps
busy_pending = refl

-- It is started when both are done.
freed : request_at (done false 0 (done false 0 busy)).in_flight 0 ≡ record middle { index = some 0 }
unfolding arrive done flush_pending_writes flush_loop pass remove_at conflicts ranges_overlap
    one_overlaps
freed = refl

in_flight_apart_example :
    ranges_overlap (request_at busy.in_flight 0).ranges (request_at busy.in_flight 1).ranges ≡ false
unfolding arrive conflicts ranges_overlap one_overlaps
in_flight_apart_example =
    in_flight_apart busy-Reach 0 1 (omega arith) (omega arith) (λ e. omega (arith, e))

pending_waits_example :
    (p : ℕ) × (p < length busy.in_flight)
    × (ranges_overlap (request_at busy.pending 0).ranges (request_at busy.in_flight p).ranges
        ≡ true)
unfolding arrive conflicts ranges_overlap one_overlaps
pending_waits_example = pending_waits busy-Reach 0 (omega arith)

-- Completed while the pending writes of another unit are started, the requests leave one that
-- waits with none in flight.
stalled_test : (done true 0 (done true 0 busy)).in_flight ≡ []
unfolding arrive done flush_pending_writes remove_at conflicts ranges_overlap one_overlaps
stalled_test = refl

stalled_pending : length (done true 0 (done true 0 busy)).pending ≡ 1
unfolding arrive done flush_pending_writes remove_at conflicts ranges_overlap one_overlaps
stalled_pending = refl

flush_pending_writes-EndsWithin_example :
    EndsWithin 3 (quick ∷ low ∷ []) [] (flush_pending_writes false (quick ∷ low ∷ []) [])
flush_pending_writes-EndsWithin_example = flush_pending_writes-EndsWithin (quick ∷ low ∷ []) []
