-- ===== src/Session/Runs.antt =====
-- Runs of src/master/master-session.ts, and its theorems at concrete sessions.
use njs_modbus.Common.{ℕ, ◌+◌, ◌≤◌, ◌≡◌, refl, List, [], ◌∷◌, some}
use njs_modbus.Session.{
  fifo, transaction_id, key_eq, ModbusFrame, Waiters, key_of, answered, failed, Operation,
  does_start, does_stop, does_stop_all, does_handle_frame, start, stop, handle_frame, perform, run,
  set_waiter, delete_waiter, get_waiter, answer_waiter, stop_all, fail_all,
}
use njs_modbus.Session.Laws.{called, held, registrations, run_balance, handle_frame-start}
use njs_modbus.Session.Answers.{handle_frame-run}

abbrev answer_to : ℕ → ModbusFrame
answer_to id = record { transaction = some id; unit = 1; fc = 3; data_bytes = []; buffer = [] }

-- Request 2 is cancelled, request 1 answered, and the others fail with error 9.
abbrev operations : List (Operation ℕ)
operations =
    does_start (transaction_id 1) 10
    ∷ does_start (transaction_id 2) 20
    ∷ does_start fifo 30
    ∷ does_stop (transaction_id 2)
    ∷ does_handle_frame (answer_to 2)
    ∷ does_handle_frame (answer_to 1)
    ∷ does_stop_all 9
    ∷ []

all_finished : run operations [] ≡ ((10, answered (answer_to 1)) ∷ (30, failed 9) ∷ [], [])
unfolding run perform start stop handle_frame stop_all fail_all answer_waiter get_waiter set_waiter
    delete_waiter key_eq key_of
all_finished = refl

run_balance_example :
    called 30 (run operations []).0 + held 30 (run operations []).1
    ≤ registrations 30 operations + held 30 []
run_balance_example = run_balance 30 operations []

abbrev waiting : Waiters
waiting = (transaction_id 7, 1) ∷ (transaction_id 8, 2) ∷ []

handle_frame-start_example :
    handle_frame {E = ℕ} (answer_to 7) (start (key_of (some 7)) 3 waiting)
    ≡ ((3, answered (answer_to 7)) ∷ [], stop (key_of (some 7)) waiting)
handle_frame-start_example = handle_frame-start (answer_to 7) 3 waiting

abbrev others : List (Operation ℕ)
others = does_stop (transaction_id 8) ∷ does_handle_frame (answer_to 6) ∷ does_start fifo 4 ∷ []

handle_frame-run_example :
    (handle_frame {E = ℕ} (answer_to 7) (run others (start (key_of (some 7)) 3 waiting)).1).0
    ≡ (3, answered (answer_to 7)) ∷ []
unfolding key_eq key_of
handle_frame-run_example =
    handle_frame-run (answer_to 7) 3 others waiting (refl, (refl, (refl, tt)))
