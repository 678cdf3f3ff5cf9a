-- ===== src/Master/Queue/Answered.antt =====
-- Over all that happens to the requests of src/master/master.ts, each callback is called once.
use njs_modbus.Common.{
  ℕ, ◌+◌, ◌≡◌, refl, arith, Bool, true, false, List, [], ◌∷◌, ◌++◌, Option, none, some, Bool-cases,
  inl, inr, if◌then◌else◌, ap, ◌∙◌,
}
use njs_modbus.Session.{Outcome, ModbusFrame, Key, stop_all, handle_frame, stop}
use njs_modbus.Master.Queue.{
  new_dispatch, Failure, destroyed_master, bad_frame, Result, rejected, sent, Effect, calls,
  Request, Pending, Settings, Dispatch, find_pending, delete_pending, stop_key, timed_out,
  write_failed,
}
use njs_modbus.Master.Queue.Operations.{
  result_of, is_serial, process, reject_all, settle_found, settle, settle_all, receive, frame_fails,
  write_ended, write_ends, write_done, timer_ends, times_out, reject_pending, destroy_once, destroy,
}
use njs_modbus.Master.Queue.Steps.{
  Event, sends, receives, gets_frame_error, ends_write, expires, destroys, perform, run, called,
  asked,
}
use njs_modbus.Master.Queue.Balance.{
  IsBalanced, called-append, called-reject_all, queued, exchanged, waits, send-IsBalanced,
  settle-IsBalanced, settle_all-IsBalanced,
}

called_three :
    (k : ℕ) (es fs gs : List Effect)
    → called k (es ++ fs ++ gs) ≡ called k es + called k fs + called k gs
called_three k es fs gs = omega (arith, called-append k (es ++ fs) gs, called-append k es fs)

module _ (settings : Settings) where
  pub process_empty :
      (queue : List Request) (s : Dispatch)
      → queue ≡ []
      → process settings queue s ≡ ([], record s { queue = []; draining = false })
  unfolding process
  process_empty [] s e = refl
  process_empty (q ∷ queue) s e = cc

  -- With no request in the queue, none comes into it.
  settle_empty :
      (id : ℕ) (result : Result) (s : Dispatch)
      → s.queue ≡ []
      → (settle settings id result s).1.queue ≡ []
  unfolding settle
  settle_empty id result s e =
      elim (find_pending id s.pending)
        as (λ found. (settle_found settings found id result s).1.queue ≡ []) [
          | none ↦ e
          | some p ↦
              let left = record s { pending = delete_pending id s.pending } in
              elim (is_serial settings)
                as (λ serial.
                  (let after : List Effect × Dispatch =
                      if serial then process settings left.queue left else ([], left) in
                    after.1.queue)
                  ≡ []) [ true ↦ ap (λ r. r.1.queue) (process_empty s.queue left e) | false ↦ e ]
        ]

  pub settle_all_empty :
      (given : List (ℕ × Outcome Failure)) (s : Dispatch)
      → s.queue ≡ []
      → (settle_all settings given s).1.queue ≡ []
  unfolding settle_all
  settle_all_empty [] s e = e
  settle_all_empty (call ∷ later) s e =
      settle_all_empty later (settle settings call.0 (result_of call.1) s).1
        (settle_empty call.0 (result_of call.1) s e)

  record Rejects (k : ℕ) (pending : List Pending) (r : List Effect × Dispatch) : Type 0 where
    pub given : called k r.0 ≡ exchanged k pending
    pub emptied : (r.1.queue ≡ []) × (r.1.pending ≡ [])

  Rejects-cons :
      (k : ℕ) (p : Pending) (pending : List Pending) (rest : List Effect × Dispatch)
      → Rejects k pending rest
      → Rejects k (p ∷ pending) (calls p.callback (rejected destroyed_master) ∷ rest.0, rest.1)
  Rejects-cons k p pending rest r = record { given = omega (arith, r.given); emptied = r.emptied }

  reject_pending-Rejects :
      (k : ℕ) (pending : List Pending) (s : Dispatch)
      → s.queue ≡ []
      → Rejects k pending (reject_pending settings pending s)
  unfolding reject_pending
  reject_pending-Rejects k [] s e = record { given = refl; emptied = (e, refl) }
  reject_pending-Rejects k (p ∷ pending) s e =
      let resting : Dispatch = record s { queue = []; draining = false } in
      elim (is_serial settings)
        as (λ serial.
          let after : List Effect × Dispatch =
            if serial then process settings s.queue s else ([], s) in
          let rest = reject_pending settings pending after.1 in
          Rejects k (p ∷ pending)
            (calls p.callback (rejected destroyed_master) ∷ after.0 ++ rest.0, rest.1)) [
              | true ↦ rw (process_empty s.queue s e) (
                  Rejects-cons k p pending (reject_pending settings pending resting)
                    (reject_pending-Rejects k pending resting refl))
              | false ↦
                  Rejects-cons k p pending (reject_pending settings pending s)
                    (reject_pending-Rejects k pending s e)
            ]

  -- `destroy` answers all that waits.
  abbrev pub IsAnswered : ℕ → Dispatch → List Effect × Dispatch → Type 0
  IsAnswered k s r = (called k r.0 ≡ waits k s) × (r.1.queue ≡ []) × (r.1.pending ≡ [])

  pub destroy_once-IsAnswered : (k : ℕ) (s : Dispatch) → IsAnswered k s (destroy_once settings s)
  unfolding destroy_once
  destroy_once-IsAnswered k s =
      let handled = stop_all {E = Failure} destroyed_master s.waiters in
      let closed : Dispatch = record s { destroyed = true; queue = []; waiters = handled.1 } in
      let stopped = settle_all settings handled.0 closed in
      let rest = reject_pending settings stopped.1.pending stopped.1 in
      let dropped = reject_all destroyed_master s.queue in
      let r =
        reject_pending-Rejects k stopped.1.pending stopped.1
          (settle_all_empty handled.0 closed refl) in
      let none_queued : queued k stopped.1.queue ≡ 0 =
        ap (queued k) (settle_all_empty handled.0 closed refl) in
      let whole : called k (destroy_once settings s).0 ≡ called k (dropped ++ stopped.0 ++ rest.0) =
        refl in
      (
        whole
            ∙ called_three k dropped stopped.0 rest.0
            ∙ omega (
              arith,
              r.given,
              none_queued,
              called-reject_all k destroyed_master s.queue,
              settle_all-IsBalanced settings k handled.0 closed,
            ),
        r.emptied.0,
        r.emptied.1,
      )

module _ (settings : Settings) (k : ℕ) where
  receive-IsBalanced :
      (frame : ModbusFrame) (s : Dispatch)
      → IsBalanced settings k (waits k s) (receive settings frame s)
  unfolding receive
  receive-IsBalanced frame s =
      let handled = handle_frame {E = Failure} frame s.waiters in
      settle_all-IsBalanced settings k handled.0 (record s { waiters = handled.1 })

  frame_fails-IsBalanced :
      (s : Dispatch) → IsBalanced settings k (waits k s) (frame_fails settings s)
  unfolding frame_fails
  frame_fails-IsBalanced s =
      let handled = stop_all {E = Failure} bad_frame s.waiters in
      settle_all-IsBalanced settings k handled.0 (record s { waiters = handled.1 })

  write_ended-IsBalanced :
      (key : Option Key) (good : Bool) (id : ℕ) (s : Dispatch)
      → IsBalanced settings k (waits k s) (write_ended settings key good id s)
  write_ended-IsBalanced none good id s =
      settle-IsBalanced settings k id (if good then sent else rejected write_failed) s
  write_ended-IsBalanced (some key) true id s = omega arith
  write_ended-IsBalanced (some key) false id s =
      settle-IsBalanced settings k id (rejected write_failed)
        (record s { waiters = stop key s.waiters })

  write_ends-IsBalanced :
      (good : Bool) (id : ℕ) (found : Option Pending) (s : Dispatch)
      → IsBalanced settings k (waits k s) (write_ends settings good id found s)
  write_ends-IsBalanced good id none s = omega arith
  write_ends-IsBalanced good id (some p) s = write_ended-IsBalanced p.key good id s

  timer_ends-IsBalanced :
      (id : ℕ) (found : Option Pending) (s : Dispatch)
      → IsBalanced settings k (waits k s) (timer_ends settings id found s)
  timer_ends-IsBalanced id none s = omega arith
  timer_ends-IsBalanced id (some p) s =
      settle-IsBalanced settings k id (rejected timed_out)
        (record s { waiters = stop_key p.key s.waiters })

  destroy-IsBalanced : (s : Dispatch) → IsBalanced settings k (waits k s) (destroy settings s)
  unfolding destroy
  destroy-IsBalanced s = elim (Bool-cases s.destroyed) [
    | inl gone ↦ simp gone (omega arith)
    | inr there ↦
        let a = destroy_once-IsAnswered settings k s in
        simp there (omega (arith, a.0, ap (queued k) a.1, ap (exchanged k) a.2))
  ]

  pub perform-IsBalanced :
      (event : Event) (s : Dispatch)
      → IsBalanced settings k (asked k (event ∷ []) + waits k s) (perform settings event s)
  unfolding write_done times_out
  perform-IsBalanced (sends q) s = omega (arith, send-IsBalanced settings k q s)
  perform-IsBalanced (receives frame) s = omega (arith, receive-IsBalanced frame s)
  perform-IsBalanced gets_frame_error s = omega (arith, frame_fails-IsBalanced s)
  perform-IsBalanced (ends_write good id) s =
      omega (arith, write_ends-IsBalanced good id (find_pending id s.pending) s)
  perform-IsBalanced (expires id) s =
      omega (arith, timer_ends-IsBalanced id (find_pending id s.pending) s)
  perform-IsBalanced destroys s = omega (arith, destroy-IsBalanced s)

  asked_cons :
      (event : Event) (events : List Event)
      → asked k (event ∷ events) ≡ asked k (event ∷ []) + asked k events
  asked_cons (sends q) events = omega arith
  asked_cons (receives frame) events = omega arith
  asked_cons gets_frame_error events = omega arith
  asked_cons (ends_write good id) events = omega arith
  asked_cons (expires id) events = omega arith
  asked_cons destroys events = omega arith

  run-IsBalanced :
      (events : List Event) (s : Dispatch)
      → IsBalanced settings k (asked k events + waits k s) (run settings events s)
  unfolding run
  run-IsBalanced [] s = omega arith
  run-IsBalanced (event ∷ events) s =
      let first = perform settings event s in
      omega (
        arith,
        perform-IsBalanced event s,
        run-IsBalanced events first.1,
        called-append k first.0 (run settings events first.1).0,
        asked_cons event events,
      )

-- Over any events from a new master, a callback was called, or its request waits in the queue or for
-- the end of its exchange, as often in all as requests were sent with it.
pub run_answers :
    (settings : Settings) (events : List Event) (k : ℕ)
    → let r = run settings events new_dispatch in called k r.0 + waits k r.1 ≡ asked k events
run_answers settings events k = omega (arith, run-IsBalanced settings k events new_dispatch)
