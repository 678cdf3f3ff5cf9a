-- ===== src/Session/Answers.antt =====
-- A request of src/master/master-session.ts and its answer, with other requests in between.
use njs_modbus.Common.{
  ℕ, ◌≡◌, refl, ap, true, false, List, [], ◌∷◌, Option, none, some, All, Bool-cases, inl, inr,
  ==→eq,
}
use njs_modbus.Session.{
  Key, fifo, transaction_id, key_eq, ModbusFrame, Waiters, set_waiter, delete_waiter, get_waiter,
  key_of, answered, Operation, does_start, does_stop, does_stop_all, does_handle_frame,
  does_handle_error, start, stop, answer_waiter, handle_frame, perform, run,
}
use njs_modbus.Session.Laws.{get-set}

key_eq→eq : (a b : Key) → key_eq a b ≡ true → a ≡ b
unfolding key_eq
key_eq→eq fifo fifo e = refl
key_eq→eq fifo (transaction_id b) e = absurd (cc)
key_eq→eq (transaction_id a) fifo e = absurd (cc)
key_eq→eq (transaction_id a) (transaction_id b) e = ap transaction_id (==→eq a b e)

get-set_other :
    (key other : Key) (d : ℕ) (ws : Waiters)
    → key_eq other key ≡ false
    → get_waiter key (set_waiter other d ws) ≡ get_waiter key ws
unfolding get_waiter set_waiter
get-set_other key other d [] n = rw n refl
get-set_other key other d (entry ∷ rest) n = elim (Bool-cases (key_eq entry.0 other)) [
  | inl found ↦ rw (found, key_eq→eq entry.0 other found, n) refl
  | inr differs ↦ rw (differs, get-set_other key other d rest n) refl
]

pub get-delete_other :
    (key other : Key) (ws : Waiters)
    → key_eq other key ≡ false
    → get_waiter key (delete_waiter other ws) ≡ get_waiter key ws
unfolding get_waiter delete_waiter
get-delete_other key other [] n = refl
get-delete_other key other (entry ∷ rest) n = elim (Bool-cases (key_eq entry.0 other)) [
  | inl found ↦ rw (found, key_eq→eq entry.0 other found, n) refl
  | inr differs ↦ rw (differs, get-delete_other key other rest n) refl
]

get-answer_other :
    (E : Type 0) (key other : Key) (frame : ModbusFrame) (found : Option ℕ) (ws : Waiters)
    → key_eq other key ≡ false
    → get_waiter key (answer_waiter {E = E} found other frame ws).1 ≡ get_waiter key ws
unfolding answer_waiter
get-answer_other E key other frame none ws n = refl
get-answer_other E key other frame (some d) ws n = get-delete_other key other ws n

module _ {E : Type 0} where
  -- Operations that are about other keys, and do not end the session.
  abbrev pub Spares : Key → Operation E → Type 0
  Spares key (does_start other d) = key_eq other key ≡ false
  Spares key (does_stop other) = key_eq other key ≡ false
  Spares key (does_stop_all error) = ⊥
  Spares key (does_handle_frame frame) = key_eq (key_of frame.transaction) key ≡ false
  Spares key (does_handle_error error) = ⊥

  get-perform :
      (key : Key) (operation : Operation E) (ws : Waiters)
      → Spares key operation
      → get_waiter key (perform operation ws).1 ≡ get_waiter key ws
  unfolding perform start stop handle_frame
  get-perform key (does_start other d) ws n = get-set_other key other d ws n
  get-perform key (does_stop other) ws n = get-delete_other key other ws n
  get-perform key (does_stop_all error) ws n = absurd n
  get-perform key (does_handle_frame frame) ws n =
      let other = key_of frame.transaction in
      get-answer_other E key other frame (get_waiter other ws) ws n
  get-perform key (does_handle_error error) ws n = absurd n

  get-run :
      (key : Key) (operations : List (Operation E)) (ws : Waiters)
      → All (Spares key) operations
      → get_waiter key (run operations ws).1 ≡ get_waiter key ws
  unfolding run
  get-run key [] ws n = refl
  get-run key (operation ∷ rest) ws n =
      rw (get-run key rest (perform operation ws).1 n.1) (get-perform key operation ws n.0)

  -- Once a request is started, and after any operations on other keys, a frame with the request's
  -- key calls the request's callback with the frame, and no other callback.
  pub handle_frame-run :
      (frame : ModbusFrame) (d : ℕ) (operations : List (Operation E)) (ws : Waiters)
      → All (Spares (key_of frame.transaction)) operations
      → (handle_frame {E = E} frame (run operations (start (key_of frame.transaction) d ws)).1).0
        ≡ (d, answered frame) ∷ []
  unfolding handle_frame start answer_waiter
  handle_frame-run frame d operations ws n =
      let key = key_of frame.transaction in
      rw (get-run key operations (set_waiter key d ws) n, get-set key d ws) refl
