-- ===== src/Session.antt =====
-- `MasterSession`, src/master/master-session.ts: the requests of a master that wait for a response.
-- The Map is an association list in the order of insertion. A callback is a number that names it,
-- and an operation returns the calls of callbacks that it makes, in order: each operation has
-- finished with the map when it makes its first call, so that what a callback does to the session
-- is a later operation. `E` is the type of the errors.
pub mod Laws
pub mod Answers
mod Runs
use njs_modbus.Common.{
  ℕ, Bool, true, false, List, [], ◌∷◌, ◌++◌, Option, none, some, ◌==◌, if◌then◌else◌,
}

-- FIFO_KEY, or a transaction id.
pub data Key : Type 0 where
  fifo : Key
  transaction_id : ℕ → Key

unfoldable pub key_eq : Key → Key → Bool
key_eq fifo fifo = true
key_eq fifo (transaction_id b) = false
key_eq (transaction_id a) fifo = false
key_eq (transaction_id a) (transaction_id b) = a == b

-- `ModbusFrame`
pub record ModbusFrame : Type 0 where
  pub transaction : Option ℕ
  pub unit : ℕ
  pub fc : ℕ
  pub data_bytes : List ℕ
  pub buffer : List ℕ

-- `_waiters`
abbrev pub Waiters : Type 0
Waiters = List (Key × ℕ)

-- `Map.set`: the place of a key that is there already does not change.
unfoldable pub set_waiter : Key → ℕ → Waiters → Waiters
set_waiter key callback [] = (key, callback) ∷ []
set_waiter key callback (entry ∷ rest) =
    if key_eq entry.0 key then (key, callback) ∷ rest else entry ∷ set_waiter key callback rest

-- `Map.delete`
unfoldable pub delete_waiter : Key → Waiters → Waiters
delete_waiter key [] = []
delete_waiter key (entry ∷ rest) =
    if key_eq entry.0 key then rest else entry ∷ delete_waiter key rest

-- `Map.get`
unfoldable pub get_waiter : Key → Waiters → Option ℕ
get_waiter key [] = none
get_waiter key (entry ∷ rest) = if key_eq entry.0 key then some entry.1 else get_waiter key rest

-- `frame.transaction ?? FIFO_KEY`
unfoldable pub key_of : Option ℕ → Key
key_of none = fifo
key_of (some id) = transaction_id id

module _ (E : Type 0) where
  -- The arguments of a callback.
  pub data Outcome : Type 0 where
    failed : E → Outcome
    answered : ModbusFrame → Outcome

  abbrev pub Calls : Type 0
  Calls = List (ℕ × Outcome)

  -- A call of one of the public methods that change the session.
  pub data Operation : Type 0 where
    does_start : Key → ℕ → Operation
    does_stop : Key → Operation
    does_stop_all : E → Operation
    does_handle_frame : ModbusFrame → Operation
    does_handle_error : E → Operation

unfoldable pub start : Key → ℕ → Waiters → Waiters
start key callback waiters = set_waiter key callback waiters

unfoldable pub stop : Key → Waiters → Waiters
stop key waiters = delete_waiter key waiters

unfoldable pub is_some : Option ℕ → Bool
is_some none = false
is_some (some callback) = true

-- `has`
unfoldable pub has : Key → Waiters → Bool
has key waiters = is_some (get_waiter key waiters)

module _ {E : Type 0} where
  -- The loop over the waiters.
  unfoldable pub fail_all : E → Waiters → Calls E
  fail_all error [] = []
  fail_all error (entry ∷ rest) = (entry.1, failed error) ∷ fail_all error rest

  unfoldable pub stop_all : E → Waiters → Calls E × Waiters
  stop_all error waiters = (fail_all error waiters, [])

  -- `handleFrame` once the waiter is looked up.
  unfoldable pub answer_waiter : Option ℕ → Key → ModbusFrame → Waiters → Calls E × Waiters
  answer_waiter none key frame waiters = ([], waiters)
  answer_waiter (some callback) key frame waiters =
      ((callback, answered frame) ∷ [], delete_waiter key waiters)

  unfoldable pub handle_frame : ModbusFrame → Waiters → Calls E × Waiters
  handle_frame frame waiters =
      let key = key_of frame.transaction in answer_waiter (get_waiter key waiters) key frame waiters

  pub handle_error : E → Waiters → Calls E × Waiters
  handle_error error waiters = stop_all error waiters

  pub perform : Operation E → Waiters → Calls E × Waiters
  perform (does_start key callback) waiters = ([], start key callback waiters)
  perform (does_stop key) waiters = ([], stop key waiters)
  perform (does_stop_all error) waiters = stop_all error waiters
  perform (does_handle_frame frame) waiters = handle_frame frame waiters
  perform (does_handle_error error) waiters = handle_error error waiters

  -- The operations of a session, in order.
  pub run : List (Operation E) → Waiters → Calls E × Waiters
  run [] waiters = ([], waiters)
  run (operation ∷ rest) waiters =
      let first = perform operation waiters in
      let later = run rest first.1 in (first.0 ++ later.0, later.1)
