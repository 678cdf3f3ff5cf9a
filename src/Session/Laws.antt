-- ===== src/Session/Laws.antt =====
-- The waiters of src/master/master-session.ts: how often a callback is called, and who is answered.
use njs_modbus.Common.{
  ℕ, ◌+◌, ◌≤◌, ◌≡◌, refl, arith, true, List, [], ◌∷◌, ◌++◌, Option, none, some, ◌==◌, if◌then◌else◌,
  Bool-cases, eq→==, inl, inr,
}
use njs_modbus.Session.{
  Key, fifo, transaction_id, key_eq, ModbusFrame, Waiters, set_waiter, delete_waiter, get_waiter,
  key_of, answered, Calls, Operation, does_start, does_stop, does_stop_all, does_handle_frame,
  does_handle_error, start, stop, fail_all, stop_all, answer_waiter, handle_frame, handle_error,
  perform, run,
}

abbrev pub same : ℕ → ℕ → ℕ
same a b = if a == b then 1 else 0

-- How often a callback waits.
abbrev pub held : ℕ → Waiters → ℕ
held callback [] = 0
held callback (entry ∷ rest) = same entry.1 callback + held callback rest

held-set :
    (c : ℕ) (key : Key) (d : ℕ) (ws : Waiters) → held c (set_waiter key d ws) ≤ same d c + held c ws
unfolding set_waiter
held-set c key d [] = omega arith
held-set c key d (entry ∷ rest) = elim (Bool-cases (key_eq entry.0 key)) [
  | inl found ↦ rw found (omega arith)
  | inr other ↦ rw other (omega (arith, held-set c key d rest))
]

held-delete : (c : ℕ) (key : Key) (ws : Waiters) → held c (delete_waiter key ws) ≤ held c ws
unfolding delete_waiter
held-delete c key [] = omega arith
held-delete c key (entry ∷ rest) = elim (Bool-cases (key_eq entry.0 key)) [
  | inl found ↦ rw found (omega arith)
  | inr other ↦ rw other (omega (arith, held-delete c key rest))
]

get-delete :
    (c : ℕ) (key : Key) (d : ℕ) (ws : Waiters)
    → get_waiter key ws ≡ some d
    → same d c + held c (delete_waiter key ws) ≡ held c ws
unfolding get_waiter delete_waiter
get-delete c key d [] e = absurd (cc)
get-delete c key d (entry ∷ rest) e = elim (Bool-cases (key_eq entry.0 key)) [
  | inl found ↦
      let chosen : some entry.1 ≡ some d = rw found at e in
      let equal : entry.1 ≡ d = cc in rw (found, equal) refl
  | inr other ↦
      let later : get_waiter key rest ≡ some d = rw other at e in
      rw other (omega (arith, get-delete c key d rest later))
]

key_eq_refl : (key : Key) → key_eq key key ≡ true
unfolding key_eq
key_eq_refl fifo = refl
key_eq_refl (transaction_id a) = eq→== a a refl

pub get-set : (key : Key) (d : ℕ) (ws : Waiters) → get_waiter key (set_waiter key d ws) ≡ some d
unfolding get_waiter set_waiter
get-set key d [] = rw (key_eq_refl key) refl
get-set key d (entry ∷ rest) = elim (Bool-cases (key_eq entry.0 key)) [
  | inl found ↦ rw (found, key_eq_refl key) refl
  | inr other ↦ rw (other, other, get-set key d rest) refl
]

delete-set :
    (key : Key) (d : ℕ) (ws : Waiters)
    → delete_waiter key (set_waiter key d ws) ≡ delete_waiter key ws
unfolding delete_waiter set_waiter
delete-set key d [] = rw (key_eq_refl key) refl
delete-set key d (entry ∷ rest) = elim (Bool-cases (key_eq entry.0 key)) [
  | inl found ↦ rw (found, key_eq_refl key) refl
  | inr other ↦ rw (other, other, delete-set key d rest) refl
]

module _ {E : Type 0} where
  -- How often a callback is called.
  abbrev pub called : ℕ → Calls E → ℕ
  called callback [] = 0
  called callback (call ∷ rest) = same call.0 callback + called callback rest

  -- How often it is registered.
  abbrev pub registered : ℕ → Operation E → ℕ
  registered callback (does_start key d) = same d callback
  registered callback (does_stop key) = 0
  registered callback (does_stop_all error) = 0
  registered callback (does_handle_frame frame) = 0
  registered callback (does_handle_error error) = 0

  abbrev pub registrations : ℕ → List (Operation E) → ℕ
  registrations callback [] = 0
  registrations callback (operation ∷ rest) =
      registered callback operation + registrations callback rest

  called-append : (c : ℕ) (xs ys : Calls E) → called c (xs ++ ys) ≡ called c xs + called c ys
  called-append c [] ys = omega arith
  called-append c (x ∷ xs) ys = omega (arith, called-append c xs ys)

  called-fail_all : (c : ℕ) (error : E) (ws : Waiters) → called c (fail_all error ws) ≡ held c ws
  unfolding fail_all
  called-fail_all c error [] = refl
  called-fail_all c error (entry ∷ rest) = omega (arith, called-fail_all c error rest)

-- A waiter that is answered is taken out.
answer_taken :
    (E : Type 0) (c : ℕ) (key : Key) (frame : ModbusFrame) (ws : Waiters) (found : Option ℕ)
    → get_waiter key ws ≡ found
    → called c (answer_waiter {E = E} found key frame ws).0
        + held c (answer_waiter {E = E} found key frame ws).1
      ≡ held c ws
unfolding answer_waiter
answer_taken E c key frame ws none e = omega arith
answer_taken E c key frame ws (some d) e = omega (arith, get-delete c key d ws e)

module _ {E : Type 0} where
  -- What an operation calls, it no longer holds.
  perform_balance :
      (c : ℕ) (operation : Operation E) (ws : Waiters)
      → called c (perform operation ws).0 + held c (perform operation ws).1
        ≤ registered c operation + held c ws
  unfolding perform start stop stop_all handle_frame handle_error
  perform_balance c (does_start key d) ws = omega (arith, held-set c key d ws)
  perform_balance c (does_stop key) ws = omega (arith, held-delete c key ws)
  perform_balance c (does_stop_all error) ws = omega (arith, called-fail_all c error ws)
  perform_balance c (does_handle_frame frame) ws =
      let key = key_of frame.transaction in
      omega (arith, answer_taken E c key frame ws (get_waiter key ws) refl)
  perform_balance c (does_handle_error error) ws = omega (arith, called-fail_all c error ws)

  -- Over any operations, from any waiters: a callback is called, or still waits, at most as often as
  -- it was registered or did wait at the start.
  pub run_balance :
      (c : ℕ) (operations : List (Operation E)) (ws : Waiters)
      → called c (run operations ws).0 + held c (run operations ws).1
        ≤ registrations c operations + held c ws
  unfolding run
  run_balance c [] ws = omega arith
  run_balance c (operation ∷ rest) ws =
      let first = perform operation ws in
      let later = run rest first.1 in
      omega (
        arith,
        perform_balance c operation ws,
        run_balance c rest first.1,
        called-append c first.0 later.0,
      )

  -- A frame that comes when a request was just started with the frame's key is the answer to that
  -- request alone, also where an earlier request had the key, and takes the waiter of the key out.
  pub handle_frame-start :
      (frame : ModbusFrame) (d : ℕ) (ws : Waiters)
      → let key = key_of frame.transaction in
        handle_frame {E = E} frame (start key d ws) ≡ ((d, answered frame) ∷ [], stop key ws)
  unfolding handle_frame start stop answer_waiter
  handle_frame-start frame d ws =
      let key = key_of frame.transaction in
      rw (get-set key d ws, answer_waiter, delete-set key d ws) refl
