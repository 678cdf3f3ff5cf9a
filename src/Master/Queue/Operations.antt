-- ===== src/Master/Queue/Operations.antt =====
-- The operations on the requests of src/master/master.ts, for the settings of a master.
use njs_modbus.Common.{
  ℕ, suc, Bool, true, false, not, List, [], ◌∷◌, ◌++◌, Option, none, some, ◌==◌, if◌then◌else◌,
  length,
}
use njs_modbus.Session.{
  Key, ModbusFrame, Outcome, failed, answered, start, stop, stop_all, handle_frame, key_of,
}
use njs_modbus.Master.Queue.{
  Strategy, in_order, drop_stale, deduplicate, concurrent, is_concurrent, Failure, destroyed_master,
  unsupported_function, stale, duplicate, unauthorized, write_failed, timed_out, bad_frame,
  denied_by, Result, rejected, response, sent, Effect, calls, writes, starts_timer, flushes,
  clears_timers, Request, Pending, Verdict, allowed, denied, denied_with, Settings, Dispatch,
  transaction_loop, find_pending, delete_pending, stop_key,
}

-- The error of a request that the runtime check refuses.
abbrev pub refusal : Verdict → Option Failure
refusal allowed = none
refusal denied = some unauthorized
refusal (denied_with code) = some (denied_by code)

-- `_exchange`: the exchange starts, or the sender's callback is called and something else goes on.
abbrev pub unless_refused :
    Option Failure → ℕ → List Effect × Dispatch → List Effect × Dispatch → List Effect × Dispatch
unless_refused none callback refused started = started
unless_refused (some failure) callback refused started =
    (calls callback (rejected failure) ∷ refused.0, refused.1)

-- The requests that a strategy takes out of the queue, and the others.
abbrev pub same_print : Option ℕ → ℕ → Bool
same_print none print = false
same_print (some other) print = other == print

unfoldable pub without_duplicates : ℕ → List Request → List Request × List Request
without_duplicates print [] = ([], [])
without_duplicates print (q ∷ queue) =
    let later = without_duplicates print queue in
    if same_print q.fingerprint print then (q ∷ later.0, later.1) else (later.0, q ∷ later.1)

abbrev pub pruned : Strategy → ℕ → List Request → List Request × List Request
pruned in_order print queue = ([], queue)
pruned drop_stale print queue = (queue, [])
pruned deduplicate print queue = without_duplicates print queue
pruned concurrent print queue = ([], queue)

abbrev pub drop_reason : Strategy → Failure
drop_reason in_order = stale
drop_reason drop_stale = stale
drop_reason deduplicate = duplicate
drop_reason concurrent = stale

-- The callbacks of requests that leave the queue unsent.
abbrev pub reject_all : Failure → List Request → List Effect
reject_all failure [] = []
reject_all failure (q ∷ queue) = calls q.callback (rejected failure) ∷ reject_all failure queue

abbrev pub result_of : Outcome Failure → Result
result_of (failed failure) = rejected failure
result_of (answered frame) = response frame

module _ (settings : Settings) where
  abbrev pub is_serial : Bool
  is_serial = not (is_concurrent settings.strategy)

  -- `_runExchange`
  abbrev pub run_exchange : Request → Dispatch → List Effect × Dispatch
  run_exchange q s =
      let id = s.next_exchange in
      let chosen = transaction_loop (suc (length s.waiters)) s.next_transaction s.waiters in
      let transaction : Option ℕ = if settings.is_tcp then some chosen.0 else none in
      let key = key_of transaction in
      let wire = settings.encode q.unit q.fc q.payload transaction in
      (
        (if is_serial then flushes ∷ [] else []) ++ starts_timer id q.timeout ∷ writes id wire ∷ [],
        record s {
          next_exchange = suc id;
          next_transaction = if settings.is_tcp then chosen.1 else s.next_transaction;
          pending =
              s.pending
              ++ record {
                id = id;
                callback = q.callback;
                key = if q.broadcast then none else some key;
              }
                ∷ [];
          waiters = if q.broadcast then s.waiters else start key id s.waiters;
        },
      )

  abbrev pub exchange : Request → List Effect × Dispatch → Dispatch → List Effect × Dispatch
  exchange q refused s =
      unless_refused (refusal (settings.check q.unit q.fc q.payload)) q.callback refused
        (run_exchange q s)

  -- The loop of `_processNext`, over the queue.
  unfoldable pub process : List Request → Dispatch → List Effect × Dispatch
  process [] s = ([], record s { queue = []; draining = false })
  process (q ∷ queue) s =
      let later = process queue (record s { queue = queue }) in
      exchange q later (record s { queue = queue })

  -- `_drain`
  abbrev pub drain : Dispatch → List Effect × Dispatch
  drain s = if s.draining then ([], s) else process s.queue (record s { draining = true })

  -- `_send`, for a request with its fingerprint.
  abbrev pub enqueue : Request → ℕ → Dispatch → List Effect × Dispatch
  enqueue q print s =
      let p = pruned settings.strategy print s.queue in
      let drained = drain (record s { queue = p.1 ++ q ∷ [] }) in
      (reject_all (drop_reason settings.strategy) p.0 ++ drained.0, drained.1)

  abbrev pub send_known : Option ℕ → Request → Dispatch → List Effect × Dispatch
  send_known none q s = (calls q.callback (rejected unsupported_function) ∷ [], s)
  send_known (some print) q s = if is_serial then enqueue q print s else exchange q ([], s) s

  unfoldable pub send : Request → Dispatch → List Effect × Dispatch
  send q s =
      if s.destroyed
      then (calls q.callback (rejected destroyed_master) ∷ [], s)
      else send_known q.fingerprint q s

  -- An exchange ends: its entry goes, the sender's callback is called, and the queue goes on.
  abbrev pub settle_found : Option Pending → ℕ → Result → Dispatch → List Effect × Dispatch
  settle_found none id result s = ([], s)
  settle_found (some p) id result s =
      let left = record s { pending = delete_pending id s.pending } in
      let after : List Effect × Dispatch =
        if is_serial then process left.queue left else ([], left) in
      (calls p.callback result ∷ after.0, after.1)

  unfoldable pub settle : ℕ → Result → Dispatch → List Effect × Dispatch
  settle id result s = settle_found (find_pending id s.pending) id result s

  -- The calls that the session makes, one after another.
  unfoldable pub settle_all : List (ℕ × Outcome Failure) → Dispatch → List Effect × Dispatch
  settle_all [] s = ([], s)
  settle_all (call ∷ later) s =
      let first = settle call.0 (result_of call.1) s in
      let rest = settle_all later first.1 in (first.0 ++ rest.0, rest.1)

  -- The layer reports a frame, or a frame error.
  unfoldable pub receive : ModbusFrame → Dispatch → List Effect × Dispatch
  receive frame s =
      let handled = handle_frame {E = Failure} frame s.waiters in
      settle_all handled.0 (record s { waiters = handled.1 })

  unfoldable pub frame_fails : Dispatch → List Effect × Dispatch
  frame_fails s =
      let handled = stop_all bad_frame s.waiters in
      settle_all handled.0 (record s { waiters = handled.1 })

  -- The callback of a write, which passes over an exchange that is settled.
  abbrev pub write_ended : Option Key → Bool → ℕ → Dispatch → List Effect × Dispatch
  write_ended none good id s = settle id (if good then sent else rejected write_failed) s
  write_ended (some key) good id s =
      if good
      then ([], s)
      else settle id (rejected write_failed) (record s { waiters = stop key s.waiters })

  abbrev pub write_ends : Bool → ℕ → Option Pending → Dispatch → List Effect × Dispatch
  write_ends good id none s = ([], s)
  write_ends good id (some p) s = write_ended p.key good id s

  unfoldable pub write_done : Bool → ℕ → Dispatch → List Effect × Dispatch
  write_done good id s = write_ends good id (find_pending id s.pending) s

  -- The callback of the timers.
  abbrev pub timer_ends : ℕ → Option Pending → Dispatch → List Effect × Dispatch
  timer_ends id none s = ([], s)
  timer_ends id (some p) s =
      settle id (rejected timed_out) (record s { waiters = stop_key p.key s.waiters })

  unfoldable pub times_out : ℕ → Dispatch → List Effect × Dispatch
  times_out id s = timer_ends id (find_pending id s.pending) s

  -- The loop over the exchanges that are left, in `destroy`.
  unfoldable pub reject_pending : List Pending → Dispatch → List Effect × Dispatch
  reject_pending [] s = ([], record s { pending = [] })
  reject_pending (p ∷ pending) s =
      let after : List Effect × Dispatch = if is_serial then process s.queue s else ([], s) in
      let rest = reject_pending pending after.1 in
      (calls p.callback (rejected destroyed_master) ∷ after.0 ++ rest.0, rest.1)

  -- `destroy` of a master that is in use.
  unfoldable pub destroy_once : Dispatch → List Effect × Dispatch
  destroy_once s =
      let handled = stop_all destroyed_master s.waiters in
      let stopped =
        settle_all handled.0 (record s { destroyed = true; queue = []; waiters = handled.1 }) in
      let rest = reject_pending stopped.1.pending stopped.1 in
      (clears_timers ∷ reject_all destroyed_master s.queue ++ stopped.0 ++ rest.0, rest.1)

  unfoldable pub destroy : Dispatch → List Effect × Dispatch
  destroy s = if s.destroyed then ([], s) else destroy_once s
