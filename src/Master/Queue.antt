-- ===== src/Master/Queue.antt =====
-- The requests of a master on their way, src/master/master.ts: `_send`, `_drain`, `_processNext`,
-- `_exchange`, `_runExchange`, the callback of the timers, and `destroy`. The authorizer has no rules
-- but a runtime check that answers at once. A callback is named by a number; what it does to the master
-- is a later event, and so is the callback of a write. What a call does outside is a list of effects,
-- in order. An entry of `_pendingExchanges` leaves the map when it is settled, so that `settled` says
-- that it is not in the map, and the callback that `_exchange` gets from the queue goes on to the next
-- request when it has called the sender's.
pub mod Operations
pub mod Steps
pub mod Balance
pub mod Answered
pub mod Destroyed
pub mod Serial
pub mod Transactions
mod Runs
use njs_modbus.Common.{
  ℕ, zero, suc, ◌+◌, ◌%◌, Bool, true, false, List, [], ◌∷◌, ◌++◌, Option, none, some, ◌==◌,
  if◌then◌else◌, length,
}
use njs_modbus.Session.{
  Key, fifo, transaction_id, ModbusFrame, Waiters, Outcome, failed, answered, start, stop, has,
  stop_all, handle_frame,
}

pub data Strategy : Type 0 where
  in_order drop_stale deduplicate concurrent : Strategy

abbrev pub is_concurrent : Strategy → Bool
is_concurrent in_order = false
is_concurrent drop_stale = false
is_concurrent deduplicate = false
is_concurrent concurrent = true

pub data Failure : Type 0 where
  destroyed_master unsupported_function stale duplicate unauthorized write_failed timed_out :
      Failure
  bad_frame : Failure
  denied_by : ℕ → Failure

-- The arguments of a sender's callback; `sent` are those for a broadcast that was written.
pub data Result : Type 0 where
  rejected : Failure → Result
  response : ModbusFrame → Result
  sent : Result

pub data Effect : Type 0 where
  calls : ℕ → Result → Effect
  writes : ℕ → List ℕ → Effect
  starts_timer : ℕ → ℕ → Effect
  flushes clears_timers : Effect

-- The entry of the queue's arrays at one index. `fingerprint` is none for a function code that is
-- not supported, which does not get into the queue.
pub record Request : Type 0 where
  pub unit : ℕ
  pub fc : ℕ
  pub payload : List ℕ
  pub timeout : ℕ
  pub broadcast : Bool
  pub callback : ℕ
  pub fingerprint : Option ℕ

-- `PendingEntry`, with its id.
pub record Pending : Type 0 where
  pub id : ℕ
  pub callback : ℕ
  pub key : Option Key

-- What `checkRuntime` answers.
pub data Verdict : Type 0 where
  allowed denied : Verdict
  denied_with : ℕ → Verdict

-- The layer's `encode`, whether it is that of TCP, the strategy and the runtime check.
pub record Settings : Type 0 where
  pub strategy : Strategy
  pub is_tcp : Bool
  pub encode : ℕ → ℕ → List ℕ → Option ℕ → List ℕ
  pub check : ℕ → ℕ → List ℕ → Verdict

-- The queue is the part of the arrays from `_queueHead` on.
pub record Dispatch : Type 0 where
  pub destroyed : Bool
  pub queue : List Request
  pub draining : Bool
  pub next_transaction : ℕ
  pub next_exchange : ℕ
  pub pending : List Pending
  pub waiters : Waiters

abbrev pub new_dispatch : Dispatch
new_dispatch = record {
  destroyed = false;
  queue = [];
  draining = false;
  next_transaction = 1;
  next_exchange = 1;
  pending = [];
  waiters = [];
}

-- `(id + 1) & 0xffff || 1`
abbrev pub following : ℕ → ℕ
following id = let n = (id + 1) % 65536 in if n == 0 then 1 else n

-- The `do … while` loop: the transaction id, and the next one to try. It takes at most one more
-- round than requests wait.
unfoldable pub transaction_loop : ℕ → ℕ → Waiters → ℕ × ℕ
transaction_loop zero id waiters = (id, following id)
transaction_loop (suc fuel) id waiters =
    let later = transaction_loop fuel (following id) waiters in
    if has (transaction_id id) waiters then later else (id, following id)

pub find_pending : ℕ → List Pending → Option Pending
find_pending id [] = none
find_pending id (p ∷ pending) =
    let later = find_pending id pending in if p.id == id then some p else later

pub delete_pending : ℕ → List Pending → List Pending
delete_pending id [] = []
delete_pending id (p ∷ pending) =
    let later = delete_pending id pending in if p.id == id then pending else p ∷ later

abbrev pub stop_key : Option Key → Waiters → Waiters
stop_key none waiters = waiters
stop_key (some key) waiters = stop key waiters
