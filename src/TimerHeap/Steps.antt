-- ===== src/TimerHeap/Steps.antt =====
-- The timers of src/utils/timer-heap.ts over any sequence of operations.
use njs_modbus.Common.{ℕ, ◌+◌, ◌≤◌, ◌≡◌, arith, List, [], ◌∷◌, ◌++◌, one_if, count-append}
use njs_modbus.TimerHeap.{Timers, no_timers, add, remove, clear, on_tick, direct_fires, stale_fires}
use njs_modbus.TimerHeap.Kept.{
  is_id, fires, waits, Kept, empty-IsHeap, add-Kept, remove-Kept, on_tick-Kept, direct_fires-Kept,
  stale_fires-Kept,
}
use njs_modbus.TimerHeap.Order.{IsHeap}

-- The calls of the methods, with their times, and the events of the native timers.
pub data Operation : Type 0 where
  does_add : ℕ → ℕ → ℕ → Operation
  does_remove : ℕ → Operation
  does_clear : Operation
  does_tick : ℕ → Operation
  does_fire does_fire_stale : ℕ → Operation

-- The ids that fire, in order, and the timers afterwards.
abbrev pub perform : ℕ → Operation → Timers → List ℕ × Timers
perform threshold (does_add now id ms) t = add threshold now id ms t
perform threshold (does_remove id) t = ([], remove id t)
perform threshold does_clear t = ([], clear t)
perform threshold (does_tick now) t = on_tick now t
perform threshold (does_fire id) t = direct_fires id t
perform threshold (does_fire_stale id) t = stale_fires id t

abbrev pub run : ℕ → List Operation → Timers → List ℕ × Timers
run threshold [] t = ([], t)
run threshold (o ∷ operations) t =
    let first = perform threshold o t in
    let later = run threshold operations first.1 in (first.0 ++ later.0, later.1)

abbrev pub adds : ℕ → List Operation → ℕ
adds k [] = 0
adds k (does_add now id ms ∷ operations) = one_if (is_id k id) + adds k operations
adds k (does_remove id ∷ operations) = adds k operations
adds k (does_clear ∷ operations) = adds k operations
adds k (does_tick now ∷ operations) = adds k operations
adds k (does_fire id ∷ operations) = adds k operations
adds k (does_fire_stale id ∷ operations) = adds k operations

perform-Kept :
    (threshold : ℕ) (o : Operation) (t : Timers)
    → IsHeap t.heap
    → Kept t (perform threshold o t) (λ k. adds k (o ∷ []))
perform-Kept threshold (does_add now id ms) t h =
    let a = add-Kept threshold now id ms t h in
    record { ordered = a.ordered; bounded = λ k. omega (arith, a.bounded k) }
perform-Kept threshold (does_remove id) t h = remove-Kept id t h
perform-Kept threshold does_clear t h = record {
  ordered = empty-IsHeap;
  bounded = λ k. omega arith;
}
perform-Kept threshold (does_tick now) t h = on_tick-Kept now t h
perform-Kept threshold (does_fire id) t h = direct_fires-Kept id t h
perform-Kept threshold (does_fire_stale id) t h = stale_fires-Kept id t h

adds_cons :
    (k : ℕ) (o : Operation) (operations : List Operation)
    → adds k (o ∷ operations) ≡ adds k (o ∷ []) + adds k operations
adds_cons k (does_add now id ms) operations = omega arith
adds_cons k (does_remove id) operations = omega arith
adds_cons k does_clear operations = omega arith
adds_cons k (does_tick now) operations = omega arith
adds_cons k (does_fire id) operations = omega arith
adds_cons k (does_fire_stale id) operations = omega arith

run-Kept :
    (threshold : ℕ) (operations : List Operation) (t : Timers)
    → IsHeap t.heap
    → Kept t (run threshold operations t) (λ k. adds k operations)
run-Kept threshold [] t h = record { ordered = h; bounded = λ k. omega arith }
run-Kept threshold (o ∷ operations) t h =
    let first = perform-Kept threshold o t h in
    let after = perform threshold o t in
    let rest = run-Kept threshold operations after.1 first.ordered in
    record {
      ordered = rest.ordered;
      bounded = λ k. omega (
        arith,
        first.bounded k,
        rest.bounded k,
        adds_cons k o operations,
        count-append (is_id k) after.0 (run threshold operations after.1).0,
      );
    }

-- Over any operations from no timers, an id fires, or still waits, at most as often as it was added.
pub fires_bounded :
    (threshold : ℕ) (operations : List Operation) (k : ℕ)
    → let r = run threshold operations no_timers in fires k r.0 + waits k r.1 ≤ adds k operations
fires_bounded threshold operations k =
    omega (arith, (run-Kept threshold operations no_timers empty-IsHeap).bounded k)
