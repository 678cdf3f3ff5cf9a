-- ===== src/Master/Queue/Runs.antt =====
-- The requests of a master over TCP, one event after another.
use njs_modbus.Common.{ℕ, ◌+◌, ◌≡◌, arith, refl, true, false, List, [], ◌∷◌, some}
use njs_modbus.Session.{
  ModbusFrame, handle_frame, answer_waiter, get_waiter, delete_waiter, set_waiter, start, stop,
  stop_all, fail_all, key_of, key_eq, is_some, has, Waiters, transaction_id,
}
use njs_modbus.Master.Queue.{
  deduplicate, allowed, destroyed_master, duplicate, timed_out, rejected, response, calls, writes,
  starts_timer, flushes, clears_timers, Request, Settings, new_dispatch, transaction_loop,
  find_pending, delete_pending,
}
use njs_modbus.Master.Queue.Operations.{
  without_duplicates, process, send, settle, settle_all, receive, write_done, times_out,
  reject_pending, destroy_once, destroy,
}
use njs_modbus.Master.Queue.Steps.{Event, sends, receives, expires, ends_write, run, called, asked}
use njs_modbus.Master.Queue.Destroyed.{destroy-run}
use njs_modbus.Master.Queue.Serial.{IsInTurn, run-IsInTurn}
use njs_modbus.Master.Queue.Transactions.{IsFree, transaction_loop-IsFree}

abbrev settings : Settings
settings = record {
  strategy = deduplicate;
  is_tcp = true;
  encode = λ unit fc payload transaction. unit ∷ fc ∷ payload;
  check = λ unit fc payload. allowed;
}

abbrev read_of : ℕ → ℕ → Request
read_of callback print = record {
  unit = 1;
  fc = 3;
  payload = 7 ∷ [];
  timeout = 1000;
  broadcast = false;
  callback = callback;
  fingerprint = some print;
}

abbrev first_answer : ModbusFrame
first_answer = record {
  transaction = some 1;
  unit = 1;
  fc = 3;
  data_bytes = 2 ∷ 0 ∷ 9 ∷ [];
  buffer = [];
}

-- Three requests, of which the third replaces the second; the first is answered, and the third is not.
abbrev events : List Event
events =
    sends (read_of 10 5)
    ∷ sends (read_of 11 6)
    ∷ sends (read_of 12 6)
    ∷ receives first_answer
    ∷ ends_write true 1
    ∷ expires 2
    ∷ sends (read_of 13 5)
    ∷ []

effects_test :
    (run settings events new_dispatch).0
    ≡ flushes
      ∷ starts_timer 1 1000
      ∷ writes 1 (1 ∷ 3 ∷ 7 ∷ [])
      ∷ calls 11 (rejected duplicate)
      ∷ calls 10 (response first_answer)
      ∷ flushes
      ∷ starts_timer 2 1000
      ∷ writes 2 (1 ∷ 3 ∷ 7 ∷ [])
      ∷ calls 12 (rejected timed_out)
      ∷ flushes
      ∷ starts_timer 3 1000
      ∷ writes 3 (1 ∷ 3 ∷ 7 ∷ [])
      ∷ []
unfolding run send process settle settle_all receive write_done times_out transaction_loop
    find_pending delete_pending without_duplicates handle_frame answer_waiter get_waiter
    delete_waiter set_waiter start stop key_of key_eq is_some has
effects_test = refl

destroyed_test :
    (destroy settings (run settings events new_dispatch).1).0
    ≡ clears_timers ∷ calls 13 (rejected destroyed_master) ∷ []
unfolding run send process settle settle_all receive write_done times_out transaction_loop
    find_pending delete_pending without_duplicates handle_frame answer_waiter get_waiter
    delete_waiter set_waiter start stop key_of key_eq is_some has destroy destroy_once
    reject_pending stop_all fail_all
destroyed_test = refl

destroy-run_example :
    let r = run settings events new_dispatch in
    called 13 r.0 + called 13 (destroy settings r.1).0 ≡ asked 13 events
destroy-run_example = destroy-run settings events 13

run-IsInTurn_example : IsInTurn (run settings events new_dispatch).1
run-IsInTurn_example = run-IsInTurn settings events refl

-- The ids 65535 and 1 are in use, and the search begins at the first.
abbrev waiting : Waiters
waiting = (transaction_id 65535, 1) ∷ (transaction_id 1, 2) ∷ []

search_test : (transaction_loop 3 65535 waiting).0 ≡ 2
unfolding transaction_loop has is_some get_waiter key_eq
search_test = refl

transaction_loop-IsFree_example : IsFree (transaction_loop 3 65535 waiting) waiting
transaction_loop-IsFree_example = transaction_loop-IsFree 65535 waiting (omega arith) (omega arith)
