-- ===== src/Master/Queue/Destroyed.antt =====
-- A master of src/master/master.ts that is destroyed has no requests left.
use njs_modbus.Common.{
  ℕ, ◌+◌, ◌≡◌, refl, arith, Bool, true, false, List, [], ◌∷◌, ◌++◌, Option, none, some, Bool-cases,
  inl, inr, if◌then◌else◌, ap, ◌∙◌,
}
use njs_modbus.Session.{Outcome, Key, stop_all, handle_frame, stop}
use njs_modbus.Master.Queue.{
  new_dispatch, Failure, destroyed_master, bad_frame, Result, rejected, sent, Effect, calls,
  Request, Pending, Settings, Dispatch, find_pending, delete_pending, stop_key, timed_out,
  write_failed,
}
use njs_modbus.Master.Queue.Operations.{
  result_of, refusal, unless_refused, pruned, run_exchange, exchange, drain, enqueue, send_known,
  send, is_serial, process, settle_found, settle, settle_all, receive, frame_fails, write_ended,
  write_ends, write_done, timer_ends, times_out, destroy_once, destroy,
}
use njs_modbus.Master.Queue.Steps.{
  Event, sends, receives, gets_frame_error, ends_write, expires, destroys, perform, run, called,
  asked,
}
use njs_modbus.Master.Queue.Answered.{perform-IsBalanced, destroy_once-IsAnswered, run_answers}
use njs_modbus.Master.Queue.Balance.{queued, exchanged, waits}

module _ (settings : Settings) where
  -- Only `destroy` changes the flag.
  abbrev Keeps : Dispatch → List Effect × Dispatch → Type 0
  Keeps s r = r.1.destroyed ≡ s.destroyed

  exchange-Keeps :
      (q : Request) (refused : List Effect × Dispatch) (s : Dispatch)
      → Keeps s refused
      → Keeps s (exchange settings q refused s)
  exchange-Keeps q refused s e =
      elim (refusal (settings.check q.unit q.fc q.payload))
        as (λ failure.
          Keeps s (unless_refused failure q.callback refused (run_exchange settings q s))) [
            | none ↦ refl
            | some failure ↦ e
          ]

  process-Keeps : (queue : List Request) (s : Dispatch) → Keeps s (process settings queue s)
  unfolding process
  process-Keeps [] s = refl
  process-Keeps (q ∷ queue) s =
      let left = record s { queue = queue } in
      exchange-Keeps q (process settings queue left) left (process-Keeps queue left)

  drain-Keeps : (s : Dispatch) → Keeps s (drain settings s)
  drain-Keeps s =
      elim s.draining
        as (λ draining.
          Keeps s (
            if draining
            then ([], s)
            else process settings s.queue (record s { draining = true }))) [
              | true ↦ refl
              | false ↦ process-Keeps s.queue (record s { draining = true })
            ]

  send_known-Keeps :
      (print : Option ℕ) (q : Request) (s : Dispatch) → Keeps s (send_known settings print q s)
  send_known-Keeps none q s = refl
  send_known-Keeps (some print) q s =
      elim (is_serial settings)
        as (λ serial.
          Keeps s (if serial then enqueue settings q print s else exchange settings q ([], s) s)) [
            | true ↦
                drain-Keeps
                  (record s { queue = (pruned settings.strategy print s.queue).1 ++ q ∷ [] })
            | false ↦ exchange-Keeps q ([], s) s refl
          ]

  settle-Keeps : (id : ℕ) (result : Result) (s : Dispatch) → Keeps s (settle settings id result s)
  unfolding settle
  settle-Keeps id result s =
      elim (find_pending id s.pending)
        as (λ found. Keeps s (settle_found settings found id result s)) [
          | none ↦ refl
          | some p ↦
              let left = record s { pending = delete_pending id s.pending } in
              elim (is_serial settings)
                as (λ serial.
                  Keeps s (if serial then process settings left.queue left else ([], left))) [
                    | true ↦ process-Keeps s.queue left
                    | false ↦ refl
                  ]
        ]

  settle_all-Keeps :
      (given : List (ℕ × Outcome Failure)) (s : Dispatch) → Keeps s (settle_all settings given s)
  unfolding settle_all
  settle_all-Keeps [] s = refl
  settle_all-Keeps (call ∷ later) s =
      let first = settle settings call.0 (result_of call.1) s in
      settle_all-Keeps later first.1 ∙ settle-Keeps call.0 (result_of call.1) s

  write_ended-Keeps :
      (key : Option Key) (good : Bool) (id : ℕ) (s : Dispatch)
      → Keeps s (write_ended settings key good id s)
  write_ended-Keeps none good id s =
      settle-Keeps id (if good then sent else rejected write_failed) s
  write_ended-Keeps (some key) true id s = refl
  write_ended-Keeps (some key) false id s =
      settle-Keeps id (rejected write_failed) (record s { waiters = stop key s.waiters })

  write_ends-Keeps :
      (good : Bool) (id : ℕ) (found : Option Pending) (s : Dispatch)
      → Keeps s (write_ends settings good id found s)
  write_ends-Keeps good id none s = refl
  write_ends-Keeps good id (some p) s = write_ended-Keeps p.key good id s

  timer_ends-Keeps :
      (id : ℕ) (found : Option Pending) (s : Dispatch) → Keeps s (timer_ends settings id found s)
  timer_ends-Keeps id none s = refl
  timer_ends-Keeps id (some p) s =
      settle-Keeps id (rejected timed_out) (record s { waiters = stop_key p.key s.waiters })

  -- A destroyed master has no requests.
  abbrev IsOver : ℕ → Dispatch → Type 0
  IsOver k s = s.destroyed ≡ true → waits k s ≡ 0

  -- Where an operation keeps the flag and takes no request, it brings none.
  over :
      (k n : ℕ) (s : Dispatch) (r : List Effect × Dispatch)
      → IsOver k s
      → called k r.0 + waits k r.1 ≡ n + waits k s
      → (s.destroyed ≡ true → n ≡ 0)
      → Keeps s r
      → IsOver k r.1
  over k n s r h b z keeps gone =
      let before : s.destroyed ≡ true = cc (keeps, gone) in omega (arith, h before, z before, b)

  send-Keeps : (q : Request) (s : Dispatch) → Keeps s (send settings q s)
  unfolding send
  send-Keeps q s =
      elim s.destroyed
        as (λ gone. Keeps s (
          if gone
          then (calls q.callback (rejected destroyed_master) ∷ [], s)
          else send_known settings q.fingerprint q s)) [
            | true ↦ refl
            | false ↦ send_known-Keeps q.fingerprint q s
          ]

  send_refused : (q : Request) (s : Dispatch) → s.destroyed ≡ true → (send settings q s).1 ≡ s
  unfolding send
  send_refused q s gone = rw gone refl

  send-IsOver : (k : ℕ) (q : Request) (s : Dispatch) → IsOver k s → IsOver k (send settings q s).1
  send-IsOver k q s h gone =
      let before : s.destroyed ≡ true = cc (send-Keeps q s, gone) in
      ap (waits k) (send_refused q s before) ∙ h before

  destroy-IsOver : (k : ℕ) (s : Dispatch) → IsOver k s → IsOver k (destroy settings s).1
  unfolding destroy
  destroy-IsOver k s h =
      elim s.destroyed
          as (λ gone.
            (s.destroyed ≡ true → waits k s ≡ 0)
            → IsOver k (if gone then ([], s) else destroy_once settings s).1) [
              | true ↦ λ h. h
              | false ↦ λ h gone.
                  let a = destroy_once-IsAnswered settings k s in
                  omega (arith, ap (queued k) a.1, ap (exchanged k) a.2)
            ]
        h

  perform-IsOver :
      (k : ℕ) (event : Event) (s : Dispatch) → IsOver k s → IsOver k (perform settings event s).1
  unfolding receive frame_fails write_done times_out
  perform-IsOver k (sends q) s h = send-IsOver k q s h
  perform-IsOver k (receives frame) s h =
      let handled = handle_frame {E = Failure} frame s.waiters in
      over k 0 s (perform settings (receives frame) s) h
        (perform-IsBalanced settings k (receives frame) s) (λ _. refl)
        (settle_all-Keeps handled.0 (record s { waiters = handled.1 }))
  perform-IsOver k gets_frame_error s h =
      let handled = stop_all {E = Failure} bad_frame s.waiters in
      over k 0 s (perform settings gets_frame_error s) h
        (perform-IsBalanced settings k gets_frame_error s) (λ _. refl)
        (settle_all-Keeps handled.0 (record s { waiters = handled.1 }))
  perform-IsOver k (ends_write good id) s h =
      over k 0 s (perform settings (ends_write good id) s) h
        (perform-IsBalanced settings k (ends_write good id) s) (λ _. refl)
        (write_ends-Keeps good id (find_pending id s.pending) s)
  perform-IsOver k (expires id) s h =
      over k 0 s (perform settings (expires id) s) h (perform-IsBalanced settings k (expires id) s)
        (λ _. refl) (timer_ends-Keeps id (find_pending id s.pending) s)
  perform-IsOver k destroys s h = destroy-IsOver k s h

  run-IsOver :
      (k : ℕ) (events : List Event) (s : Dispatch) → IsOver k s → IsOver k (run settings events s).1
  unfolding run
  run-IsOver k [] s h = h
  run-IsOver k (event ∷ events) s h =
      run-IsOver k events (perform settings event s).1 (perform-IsOver k event s h)

  destroy_answers :
      (k : ℕ) (s : Dispatch) → IsOver k s → called k (destroy settings s).0 ≡ waits k s
  unfolding destroy
  destroy_answers k s h = elim (Bool-cases s.destroyed) [
    | inl gone ↦ simp gone (omega (arith, h gone))
    | inr there ↦ simp there ((destroy_once-IsAnswered settings k s).0)
  ]

-- When, after any events from a new master, `destroy` is called, each callback has been called exactly
-- as often as requests were sent with it: once for each, whatever was lost, late, refused or repeated.
pub destroy-run :
    (settings : Settings) (events : List Event) (k : ℕ)
    → let r = run settings events new_dispatch in
      called k r.0 + called k (destroy settings r.1).0 ≡ asked k events
destroy-run settings events k =
    let r = run settings events new_dispatch in
    omega (
      arith,
      run_answers settings events k,
      destroy_answers settings k r.1 (run-IsOver settings k events new_dispatch (λ gone. refl)),
    )
