-- ===== src/Slave/Lock.antt =====
-- The write range lock of src/slave/slave.ts, for the queue of one unit: the part of
-- `_processUnitWrite` that takes a request with ranges, `_onLockedUnitWriteDone`, and
-- `_flushPendingWrites`.
-- A request object stands in one of the two lists, or in none once it is done, so that its field
-- `inFlightIndex` is kept with it. `instant` says that its handler calls its callback before
-- `_executeUnitWrite` returns; any other handler calls it later, which is a step of its own, and not
-- while the pending writes of its own unit are started. The slave has one flag for all its units that
-- says whether pending writes are being started; it is an argument of the operations.
pub mod Ranges
pub mod Remove
pub mod Start
pub mod Flush
pub mod Steps
mod Runs
use njs_modbus.Common.{
  ℕ, zero, suc, ◌-◌, Bool, true, false, List, [], ◌∷◌, ◌++◌, Option, none, some, ltb, ◌==◌,
  if◌then◌else◌, length, take, get_or, set_at,
}
use njs_modbus.Slave.Overlap.{ranges_overlap}

-- `WriteRequest`; `tag` names it.
pub record Request : Type 0 where
  pub tag : ℕ
  pub ranges : List ℕ
  pub instant : Bool
  pub index : Option ℕ

-- `UnitWriteQueue`
pub record Queue : Type 0 where
  pub in_flight : List Request
  pub pending : List Request

-- A read past the end of a list does not occur; it would give this request here.
abbrev pub no_request : Request
no_request = record { tag = 0; ranges = []; instant = false; index = none }

abbrev pub request_at : List Request → ℕ → Request
request_at list i = get_or list i no_request

-- The loop over the requests in flight.
pub conflicts : Request → List Request → Bool
conflicts request [] = false
conflicts request (other ∷ rest) =
    if ranges_overlap request.ranges other.ranges then true else conflicts request rest

-- `inFlight.push(req)`, with the request's index.
abbrev pub started : Request → List Request → List Request
started request in_flight = in_flight ++ record request { index = some (length in_flight) } ∷ []

-- The entry that replaces the one at index `i`, when the request at `p` is done: `last`, which gets
-- the index unless it is that request.
abbrev pub moved : ℕ → ℕ → ℕ → Request → Request
moved p i last_index last = if p == last_index then last else record last { index = some i }

-- The removal in `_onLockedUnitWriteDone`, for the request that stands at position `p`.
pub remove_at : ℕ → Option ℕ → List Request → List Request
remove_at p none list = list
remove_at p (some i) list =
    let last_index = length list - 1 in
    if ltb i (length list)
    then take last_index (set_at list i (moved p i last_index (request_at list last_index)))
    else list

abbrev pub done_at : ℕ → List Request → List Request
done_at p list = remove_at p (request_at list p).index list

-- What a pass leaves: the requests in flight, the ones that are still pending, whether
-- `_pendingFlushPending` was set, and the requests that it started, in order.
pub record Pass : Type 0 where
  pub in_flight : List Request
  pub kept : List Request
  pub again : Bool
  pub ran : List ℕ

-- A request that does not conflict is started; if its handler is instant it is removed again, and
-- its call of `_flushPendingWrites` only asks for another pass.
abbrev pub in_flight_after : Request → List Request → List Request
in_flight_after request in_flight =
    if request.instant
    then done_at (length in_flight) (started request in_flight)
    else started request in_flight

-- The `for` loop of `_flushPendingWrites`.
pub pass : List Request → List Request → Pass
pass [] in_flight = record { in_flight = in_flight; kept = []; again = false; ran = [] }
pass (request ∷ rest) in_flight =
    let skipped = pass rest in_flight in
    let next = pass rest (in_flight_after request in_flight) in
    if conflicts request in_flight
    then record skipped { kept = request ∷ skipped.kept }
    else record next {
      again = if request.instant then true else next.again;
      ran = request.tag ∷ next.ran;
    }

-- The `do … while` loop. A pass that asks for another has removed a request from the pending ones,
-- so that one more than their number bounds the passes.
pub flush_loop : ℕ → List Request → List Request → Queue
flush_loop zero pending in_flight = record { in_flight = in_flight; pending = pending }
flush_loop (suc fuel) pending in_flight =
    let p = pass pending in_flight in
    let more = flush_loop fuel p.kept p.in_flight in
    if p.again then more else record { in_flight = p.in_flight; pending = p.kept }

-- `_flushPendingWrites`. `flushing` is the slave's flag `_flushingPending`: while the pending writes of
-- another unit are started, the call only asks for another pass over those.
pub flush_pending_writes : Bool → List Request → List Request → Queue
flush_pending_writes true pending in_flight = record { in_flight = in_flight; pending = pending }
flush_pending_writes false pending in_flight = flush_loop (suc (length pending)) pending in_flight

-- `_onLockedUnitWriteDone`, for the request in flight at position `p`.
pub done : Bool → ℕ → Queue → Queue
done flushing p q = flush_pending_writes flushing q.pending (done_at p q.in_flight)

-- The end of `_processUnitWrite`, for a request with ranges.
pub arrive : Bool → Request → Queue → Queue
arrive flushing request q =
    let next = record q { in_flight = started request q.in_flight } in
    if conflicts request q.in_flight
    then record q { pending = q.pending ++ request ∷ [] }
    else if request.instant
    then done flushing (length q.in_flight) next
    else next
