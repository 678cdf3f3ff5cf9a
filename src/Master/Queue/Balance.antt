-- ===== src/Master/Queue/Balance.antt =====
-- Each callback that src/master/master.ts takes is called once, or its request still waits.
use njs_modbus.Common.{
  ℕ, ◌+◌, ◌≡◌, refl, arith, true, false, List, [], ◌∷◌, ◌++◌, Option, none, some, ◌==◌, Bool-cases,
  inl, inr, if◌then◌else◌, count, count-append, one_if,
}
use njs_modbus.Session.{Outcome}
use njs_modbus.Master.Queue.{
  Strategy, in_order, drop_stale, deduplicate, concurrent, Failure, Result, Effect, calls, writes,
  starts_timer, flushes, clears_timers, Request, Pending, Settings, Dispatch, find_pending,
  delete_pending,
}
use njs_modbus.Master.Queue.Operations.{
  refusal, unless_refused, send, send_known, result_of, same_print, without_duplicates, pruned,
  drop_reason, reject_all, is_serial, run_exchange, exchange, process, drain, enqueue, settle_found,
  settle, settle_all,
}
use njs_modbus.Master.Queue.Steps.{called}

pub called-append : (k : ℕ) (es fs : List Effect) → called k (es ++ fs) ≡ called k es + called k fs
called-append k [] fs = omega arith
called-append k (calls callback result ∷ es) fs = omega (arith, called-append k es fs)
called-append k (writes id wire ∷ es) fs = called-append k es fs
called-append k (starts_timer id timeout ∷ es) fs = called-append k es fs
called-append k (flushes ∷ es) fs = called-append k es fs
called-append k (clears_timers ∷ es) fs = called-append k es fs

-- How many requests with a callback are in the queue, are exchanged, and are either.
abbrev pub queued : ℕ → List Request → ℕ
queued k queue = count (λ (q : Request). q.callback == k) queue

abbrev pub exchanged : ℕ → List Pending → ℕ
exchanged k pending = count (λ (p : Pending). p.callback == k) pending

abbrev pub waits : ℕ → Dispatch → ℕ
waits k s = queued k s.queue + exchanged k s.pending

pub called-reject_all :
    (k : ℕ) (failure : Failure) (queue : List Request)
    → called k (reject_all failure queue) ≡ queued k queue
called-reject_all k failure [] = refl
called-reject_all k failure (q ∷ queue) = omega (arith, called-reject_all k failure queue)

queued-without_duplicates :
    (k print : ℕ) (queue : List Request)
    → let p = without_duplicates print queue in queued k p.0 + queued k p.1 ≡ queued k queue
unfolding without_duplicates
queued-without_duplicates k print [] = omega arith
queued-without_duplicates k print (q ∷ queue) = elim (Bool-cases (same_print q.fingerprint print)) [
  | inl same ↦ rw same (omega (arith, queued-without_duplicates k print queue))
  | inr other ↦ rw other (omega (arith, queued-without_duplicates k print queue))
]

queued-pruned :
    (k : ℕ) (strategy : Strategy) (print : ℕ) (queue : List Request)
    → let p = pruned strategy print queue in queued k p.0 + queued k p.1 ≡ queued k queue
queued-pruned k in_order print queue = omega arith
queued-pruned k drop_stale print queue = omega arith
queued-pruned k deduplicate print queue = queued-without_duplicates k print queue
queued-pruned k concurrent print queue = omega arith

exchanged-delete :
    (k id : ℕ) (pending : List Pending) (p : Pending)
    → find_pending id pending ≡ some p
    → one_if (p.callback == k) + exchanged k (delete_pending id pending) ≡ exchanged k pending
unfolding find_pending delete_pending
exchanged-delete k id [] p e = absurd (cc)
exchanged-delete k id (x ∷ pending) p e = elim (Bool-cases (x.id == id)) [
  | inl found ↦ let same : x ≡ p = cc (rw found at e) in rw (found, ← same) refl
  | inr other ↦ rw other (omega (arith, exchanged-delete k id pending p (rw other at e)))
]

exchanged-add :
    (k : ℕ) (pending : List Pending) (p : Pending)
    → exchanged k (pending ++ p ∷ []) ≡ exchanged k pending + one_if (p.callback == k)
exchanged-add k [] p = omega arith
exchanged-add k (x ∷ pending) p = omega (arith, exchanged-add k pending p)

module _ (settings : Settings) (k : ℕ) where
  -- Of the requests that wait before, some callbacks are called, and the others wait after.
  abbrev pub IsBalanced : ℕ → List Effect × Dispatch → Type 0
  IsBalanced before r = called k r.0 + waits k r.1 ≡ before

  run_exchange-IsBalanced :
      (q : Request) (s : Dispatch)
      → IsBalanced (one_if (q.callback == k) + waits k s) (run_exchange settings q s)
  run_exchange-IsBalanced q s = elim (Bool-cases (is_serial settings)) [
    | inl serial ↦ rw serial (omega (arith, exchanged-add k))
    | inr alongside ↦ rw alongside (omega (arith, exchanged-add k))
  ]

  -- One request leaves, and what follows has the others.
  exchange-IsBalanced :
      (before : ℕ) (q : Request) (refused : List Effect × Dispatch) (s : Dispatch)
      → IsBalanced before refused
      → waits k s ≡ before
      → IsBalanced (one_if (q.callback == k) + before) (exchange settings q refused s)
  exchange-IsBalanced before q refused s b e =
      elim (refusal (settings.check q.unit q.fc q.payload))
        as (λ failure.
          IsBalanced (one_if (q.callback == k) + before)
            (unless_refused failure q.callback refused (run_exchange settings q s))) [
              | none ↦ omega (arith, run_exchange-IsBalanced q s, e)
              | some failure ↦ omega (arith, b)
            ]

  process-IsBalanced :
      (queue : List Request) (s : Dispatch)
      → IsBalanced (queued k queue + exchanged k s.pending) (process settings queue s)
  unfolding process
  process-IsBalanced [] s = omega arith
  process-IsBalanced (q ∷ queue) s =
      let left = record s { queue = queue } in
      omega (
        arith,
        exchange-IsBalanced (waits k left) q (process settings queue left) left
            (process-IsBalanced queue left) refl,
      )

  drain-IsBalanced : (s : Dispatch) → IsBalanced (waits k s) (drain settings s)
  drain-IsBalanced s = elim (Bool-cases s.draining) [
    | inl draining ↦ simp draining (omega arith)
    | inr resting ↦ simp resting (process-IsBalanced s.queue (record s { draining = true }))
  ]

  enqueue-IsBalanced :
      (q : Request) (print : ℕ) (s : Dispatch)
      → IsBalanced (one_if (q.callback == k) + waits k s) (enqueue settings q print s)
  enqueue-IsBalanced q print s =
      let p = pruned settings.strategy print s.queue in
      let reason = drop_reason settings.strategy in
      let added = record s { queue = p.1 ++ q ∷ [] } in
      omega (
        arith,
        queued-pruned k settings.strategy print s.queue,
        called-reject_all k reason p.0,
        called-append k (reject_all reason p.0) (drain settings added).0,
        count-append {0} (λ (r : Request). r.callback == k) p.1 (q ∷ []),
        drain-IsBalanced added,
      )

  send_known-IsBalanced :
      (print : Option ℕ) (q : Request) (s : Dispatch)
      → IsBalanced (one_if (q.callback == k) + waits k s) (send_known settings print q s)
  send_known-IsBalanced none q s = omega arith
  send_known-IsBalanced (some print) q s =
      elim (is_serial settings)
        as (λ serial.
          IsBalanced (one_if (q.callback == k) + waits k s)
            (if serial then enqueue settings q print s else exchange settings q ([], s) s)) [
              | true ↦ enqueue-IsBalanced q print s
              | false ↦ exchange-IsBalanced (waits k s) q ([], s) s (omega arith) refl
            ]

  pub send-IsBalanced :
      (q : Request) (s : Dispatch)
      → IsBalanced (one_if (q.callback == k) + waits k s) (send settings q s)
  unfolding send
  send-IsBalanced q s = elim (Bool-cases s.destroyed) [
    | inl gone ↦ simp gone (omega arith)
    | inr there ↦ simp there (send_known-IsBalanced q.fingerprint q s)
  ]

  pub settle-IsBalanced :
      (id : ℕ) (result : Result) (s : Dispatch)
      → IsBalanced (waits k s) (settle settings id result s)
  unfolding settle
  settle-IsBalanced id result s =
      elim (find_pending id s.pending)
          as (λ found.
            find_pending id s.pending ≡ found
            → IsBalanced (waits k s) (settle_found settings found id result s)) [
              | none ↦ λ e. omega arith
              | some p ↦ λ e.
                  let left = record s { pending = delete_pending id s.pending } in
                  elim (Bool-cases (is_serial settings)) [
                    | inl serial ↦ rw serial (
                        omega (
                          arith,
                          exchanged-delete k id s.pending p e,
                          process-IsBalanced s.queue left,
                        ))
                    | inr alongside ↦
                        rw alongside (omega (arith, exchanged-delete k id s.pending p e))
                  ]
            ]
        refl

  pub settle_all-IsBalanced :
      (given : List (ℕ × Outcome Failure)) (s : Dispatch)
      → IsBalanced (waits k s) (settle_all settings given s)
  unfolding settle_all
  settle_all-IsBalanced [] s = omega arith
  settle_all-IsBalanced (call ∷ later) s =
      let first = settle settings call.0 (result_of call.1) s in
      omega (
        arith,
        called-append k first.0 (settle_all settings later first.1).0,
        settle-IsBalanced call.0 (result_of call.1) s,
        settle_all-IsBalanced later first.1,
      )
