-- ===== src/TimerHeap/Runs.antt =====
-- Runs of src/utils/timer-heap.ts, and its theorems at concrete timers.
use njs_modbus.Common.{◌+◌, ◌≤◌, ◌≡◌, refl, List, [], ◌∷◌}
use njs_modbus.TimerHeap.{
  no_timers, up_loop, min_child, down_loop, heap_add, pop, sift, index_of, remove_at, tick_loop,
  tick, set_direct, delete_direct, has_direct, migrate, add, remove, on_tick, direct_fires,
  stale_fires, has_stale, delete_stale,
}
use njs_modbus.TimerHeap.Kept.{fires, waits}
use njs_modbus.TimerHeap.Steps.{
  Operation, does_add, does_remove, does_fire, does_fire_stale, run, adds, fires_bounded,
}

-- Two timers of their own, then a heap of five, of which one is cancelled and two are equal.
abbrev operations : List Operation
operations =
    does_add 0 1 50
    ∷ does_add 0 2 20
    ∷ does_add 5 3 25
    ∷ does_add 5 4 25
    ∷ does_add 6 5 1
    ∷ does_remove 2
    ∷ []

fired_in_order :
    tick 30 (run 2 operations no_timers).1.heap
    ≡ (5 ∷ 3 ∷ 4 ∷ [], record { deadline = 50; id = 1; seq = 0 } ∷ [])
unfolding add migrate heap_add up_loop min_child down_loop pop sift index_of remove_at remove
    set_direct delete_direct has_direct tick tick_loop on_tick direct_fires
fired_in_order = refl

one_direct :
    run 2 (does_add 0 1 50 ∷ does_add 0 2 20 ∷ does_fire 2 ∷ does_fire 2 ∷ []) no_timers
    ≡ (2 ∷ [], record no_timers { direct = (1, 50) ∷ [] })
unfolding add migrate heap_add up_loop min_child down_loop pop sift index_of remove_at remove
    set_direct delete_direct has_direct tick tick_loop on_tick direct_fires
one_direct = refl

-- An id that is added again fires for both, also when it was removed in between.
fires_twice :
    (run 2
      (does_add 0 1 50 ∷ does_add 0 1 90 ∷ does_fire_stale 1 ∷ does_fire_stale 1 ∷ [])
      no_timers).0
    ≡ 1 ∷ 1 ∷ []
unfolding add set_direct delete_direct has_direct stale_fires has_stale delete_stale
fires_twice = refl

fires_removed :
    (run 2 (does_add 0 1 50 ∷ does_add 0 1 90 ∷ does_remove 1 ∷ does_fire_stale 1 ∷ []) no_timers).0
    ≡ 1 ∷ []
unfolding add remove set_direct delete_direct has_direct stale_fires has_stale delete_stale
fires_removed = refl

fires_bounded_example :
    let r = run 2 operations no_timers in fires 3 r.0 + waits 3 r.1 ≤ adds 3 operations
fires_bounded_example = fires_bounded 2 operations 3
