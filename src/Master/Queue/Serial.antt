-- ===== src/Master/Queue/Serial.antt =====
-- The strategies of src/master/master.ts that are not 'concurrent' exchange one request at a time.
use njs_modbus.Common.{
  ℕ, suc, ◌≡◌, ◌<◌, refl, arith, Bool, true, false, not, List, [], ◌∷◌, ◌++◌, Option, none, some,
  ◌==◌, Bool-cases, ◌⊎◌, inl, inr, if◌then◌else◌, ap, length, length-append,
}
use njs_modbus.Session.{Outcome, Key, stop_all, handle_frame, stop}
use njs_modbus.Master.Queue.{
  is_concurrent, new_dispatch, Failure, destroyed_master, bad_frame, Result, rejected, sent, Effect,
  calls, Request, Pending, Settings, Dispatch, find_pending, delete_pending, stop_key, timed_out,
  write_failed,
}
use njs_modbus.Master.Queue.Operations.{
  result_of, refusal, unless_refused, pruned, run_exchange, exchange, drain, send_known, send,
  is_serial, process, settle_found, settle, settle_all, receive, frame_fails, write_ended,
  write_ends, write_done, timer_ends, times_out, reject_pending, destroy_once, destroy,
}
use njs_modbus.Master.Queue.Steps.{
  Event, sends, receives, gets_frame_error, ends_write, expires, destroys, perform, run,
}
use njs_modbus.Master.Queue.Answered.{process_empty, settle_all_empty}

-- Either one request is exchanged, or none is, and none waits.
abbrev pub IsBusy : Dispatch → Type 0
IsBusy s = (s.draining ≡ true) × (length s.pending ≡ 1)

abbrev pub IsIdle : Dispatch → Type 0
IsIdle s = (s.draining ≡ false) × (length s.pending ≡ 0) × (length s.queue ≡ 0)

abbrev pub IsInTurn : Dispatch → Type 0
IsInTurn s = IsBusy s ⊎ IsIdle s

length-delete :
    (id : ℕ) (pending : List Pending) (p : Pending)
    → find_pending id pending ≡ some p
    → suc (length (delete_pending id pending)) ≡ length pending
unfolding find_pending delete_pending
length-delete id [] p e = absurd (cc)
length-delete id (x ∷ pending) p e = elim (Bool-cases (x.id == id)) [
  | inl found ↦ rw found refl
  | inr other ↦ rw other (ap suc (length-delete id pending p (rw other at e)))
]

module _ (settings : Settings) (serial : is_serial settings ≡ true) where
  exchange-IsInTurn :
      (q : Request) (refused : List Effect × Dispatch) (s : Dispatch)
      → IsInTurn refused.1
      → s.draining ≡ true
      → length s.pending ≡ 0
      → IsInTurn (exchange settings q refused s).1
  exchange-IsInTurn q refused s h d e =
      elim (refusal (settings.check q.unit q.fc q.payload))
        as (λ failure.
          IsInTurn (unless_refused failure q.callback refused (run_exchange settings q s)).1) [
            | none ↦ inl (d, omega (arith, e, length-append {0} s.pending))
            | some failure ↦ h
          ]

  -- Where no request is exchanged, the next one is, or none is left.
  process-IsInTurn :
      (queue : List Request) (s : Dispatch)
      → s.draining ≡ true
      → length s.pending ≡ 0
      → IsInTurn (process settings queue s).1
  unfolding process
  process-IsInTurn [] s d e = inr (refl, e, refl)
  process-IsInTurn (q ∷ queue) s d e =
      let left = record s { queue = queue } in
      exchange-IsInTurn q (process settings queue left) left (process-IsInTurn queue left d e) d e

  -- A request that comes into the queue of a master in turn.
  drain-IsInTurn :
      (queue : List Request) (s : Dispatch)
      → IsInTurn s
      → IsInTurn (drain settings (record s { queue = queue })).1
  drain-IsInTurn queue s h =
      elim s.draining
          as (λ draining.
            ((draining ≡ true) × (length s.pending ≡ 1))
              ⊎ ((draining ≡ false) × (length s.pending ≡ 0) × (length s.queue ≡ 0))
            → IsInTurn
                (if draining
                  then ([], record s { draining = draining; queue = queue })
                  else process settings queue (record s { queue = queue; draining = true })).1) [
                    | true ↦ λ h. elim h [
                      | inl busy ↦ inl (refl, busy.1)
                      | inr idle ↦ absurd (cc (idle.0))
                    ]
                    | false ↦ λ h. elim h [
                      | inl busy ↦ absurd (cc (busy.0))
                      | inr idle ↦
                          process-IsInTurn queue (record s { queue = queue; draining = true }) refl
                            idle.1
                    ]
                  ]
        h

  send_known-IsInTurn :
      (print : Option ℕ) (q : Request) (s : Dispatch)
      → IsInTurn s
      → IsInTurn (send_known settings print q s).1
  send_known-IsInTurn none q s h = h
  send_known-IsInTurn (some print) q s h =
      rw serial (drain-IsInTurn ((pruned settings.strategy print s.queue).1 ++ q ∷ []) s h)

  send-IsInTurn : (q : Request) (s : Dispatch) → IsInTurn s → IsInTurn (send settings q s).1
  unfolding send
  send-IsInTurn q s h =
      elim s.destroyed
        as (λ gone.
          IsInTurn
            (if gone
              then (calls q.callback (rejected destroyed_master) ∷ [], s)
              else send_known settings q.fingerprint q s).1) [
                | true ↦ h
                | false ↦ send_known-IsInTurn q.fingerprint q s h
              ]

  settle-IsInTurn :
      (id : ℕ) (result : Result) (s : Dispatch)
      → IsInTurn s
      → IsInTurn (settle settings id result s).1
  unfolding settle
  settle-IsInTurn id result s h =
      elim (find_pending id s.pending)
          as (λ found.
            find_pending id s.pending ≡ found
            → IsInTurn (settle_found settings found id result s).1) [
              | none ↦ λ e. h
              | some p ↦ λ e.
                  let less = length-delete id s.pending p e in
                  let left = record s { pending = delete_pending id s.pending } in
                  elim h [
                    | inl busy ↦
                        rw serial
                          (process-IsInTurn s.queue left busy.0 (omega (arith, less, busy.1)))
                    | inr idle ↦ absurd (omega (arith, less, idle.1))
                  ]
            ]
        refl

  settle_all-IsInTurn :
      (given : List (ℕ × Outcome Failure)) (s : Dispatch)
      → IsInTurn s
      → IsInTurn (settle_all settings given s).1
  unfolding settle_all
  settle_all-IsInTurn [] s h = h
  settle_all-IsInTurn (call ∷ later) s h =
      settle_all-IsInTurn later (settle settings call.0 (result_of call.1) s).1
        (settle-IsInTurn call.0 (result_of call.1) s h)

  write_ended-IsInTurn :
      (key : Option Key) (good : Bool) (id : ℕ) (s : Dispatch)
      → IsInTurn s
      → IsInTurn (write_ended settings key good id s).1
  write_ended-IsInTurn none good id s h =
      settle-IsInTurn id (if good then sent else rejected write_failed) s h
  write_ended-IsInTurn (some key) true id s h = h
  write_ended-IsInTurn (some key) false id s h =
      settle-IsInTurn id (rejected write_failed) (record s { waiters = stop key s.waiters }) h

  write_ends-IsInTurn :
      (good : Bool) (id : ℕ) (found : Option Pending) (s : Dispatch)
      → IsInTurn s
      → IsInTurn (write_ends settings good id found s).1
  write_ends-IsInTurn good id none s h = h
  write_ends-IsInTurn good id (some p) s h = write_ended-IsInTurn p.key good id s h

  timer_ends-IsInTurn :
      (id : ℕ) (found : Option Pending) (s : Dispatch)
      → IsInTurn s
      → IsInTurn (timer_ends settings id found s).1
  timer_ends-IsInTurn id none s h = h
  timer_ends-IsInTurn id (some p) s h =
      settle-IsInTurn id (rejected timed_out) (record s { waiters = stop_key p.key s.waiters }) h

  reject_pending-IsIdle :
      (pending : List Pending) (s : Dispatch)
      → s.queue ≡ []
      → (s.draining ≡ false) ⊎ (0 < length pending)
      → IsIdle (reject_pending settings pending s).1
  unfolding reject_pending
  reject_pending-IsIdle [] s e h = elim h [
    | inl resting ↦ (resting, refl, ap length e)
    | inr some_left ↦ absurd (omega arith)
  ]
  reject_pending-IsIdle (p ∷ pending) s e h =
      rw (serial, process_empty settings s.queue s e)
        (reject_pending-IsIdle pending (record s { queue = []; draining = false }) refl (inl refl))

  destroy_once-IsIdle : (s : Dispatch) → IsInTurn s → IsIdle (destroy_once settings s).1
  unfolding destroy_once
  destroy_once-IsIdle s h =
      let handled = stop_all {E = Failure} destroyed_master s.waiters in
      let closed : Dispatch = record s { destroyed = true; queue = []; waiters = handled.1 } in
      let closed_in_turn : IsInTurn closed = elim h [
        | inl busy ↦ inl busy
        | inr idle ↦ inr (idle.0, idle.1, refl)
      ] in
      let stopped = (settle_all settings handled.0 closed).1 in
      reject_pending-IsIdle stopped.pending stopped
        (settle_all_empty settings handled.0 closed refl)
        (elim (settle_all-IsInTurn handled.0 closed closed_in_turn) [
          | inl busy ↦ inr (omega (arith, busy.1))
          | inr idle ↦ inl idle.0
        ])

  destroy-IsInTurn : (s : Dispatch) → IsInTurn s → IsInTurn (destroy settings s).1
  unfolding destroy
  destroy-IsInTurn s h =
      elim s.destroyed as (λ gone. IsInTurn (if gone then ([], s) else destroy_once settings s).1) [
        | true ↦ h
        | false ↦ inr (destroy_once-IsIdle s h)
      ]

  perform-IsInTurn :
      (event : Event) (s : Dispatch) → IsInTurn s → IsInTurn (perform settings event s).1
  unfolding receive frame_fails write_done times_out
  perform-IsInTurn (sends q) s h = send-IsInTurn q s h
  perform-IsInTurn (receives frame) s h =
      let handled = handle_frame {E = Failure} frame s.waiters in
      settle_all-IsInTurn handled.0 (record s { waiters = handled.1 }) h
  perform-IsInTurn gets_frame_error s h =
      let handled = stop_all {E = Failure} bad_frame s.waiters in
      settle_all-IsInTurn handled.0 (record s { waiters = handled.1 }) h
  perform-IsInTurn (ends_write good id) s h =
      write_ends-IsInTurn good id (find_pending id s.pending) s h
  perform-IsInTurn (expires id) s h = timer_ends-IsInTurn id (find_pending id s.pending) s h
  perform-IsInTurn destroys s h = destroy-IsInTurn s h

  all_turns : (events : List Event) (s : Dispatch) → IsInTurn s → IsInTurn (run settings events s).1
  unfolding run
  all_turns [] s h = h
  all_turns (event ∷ events) s h =
      all_turns events (perform settings event s).1 (perform-IsInTurn event s h)

-- With a strategy other than 'concurrent', after any events from a new master, either exactly one
-- request is exchanged while `_draining` is set, or none is, `_draining` is not set, and the queue is
-- empty: requests are exchanged one at a time, and none is left in the queue with nothing going on.
pub run-IsInTurn :
    (settings : Settings) (events : List Event)
    → is_concurrent settings.strategy ≡ false
    → IsInTurn (run settings events new_dispatch).1
run-IsInTurn settings events e =
    all_turns settings (ap not e) events new_dispatch (inr (refl, refl, refl))
