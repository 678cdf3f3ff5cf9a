-- ===== src/TimerHeap/Tick.antt =====
-- What `_onTick` of src/utils/timer-heap.ts fires.
use njs_modbus.Common.{
  ℕ, zero, suc, ◌+◌, ◌≤◌, ◌<◌, ◌≡◌, refl, ap, arith, Bool, ◌&&◌, List, [], ◌∷◌, length, ltb, leb,
  Bool-cases, inl, inr, and_true, All, count, count_none, none_count,
}
use njs_modbus.TimerHeap.{Entry, no_entry, entry_at, comes_first, pop, tick_loop, tick}
use njs_modbus.TimerHeap.Order.{InOrder, IsHeap, root_first}
use njs_modbus.TimerHeap.Queue.{Without, pop-Without}

abbrev pub ids : List Entry → List ℕ
ids [] = []
ids (e ∷ entries) = e.id ∷ ids entries

-- No entry comes before one in front of it.
abbrev pub IsSorted : List Entry → Type 0
IsSorted [] = Unit {0}
IsSorted (e ∷ entries) = All (InOrder e) entries × IsSorted entries

-- The timers that a tick fires are those that are due, by their deadline and then their registration;
-- the others stay, in a heap.
pub record Ticked (now : ℕ) (heap : List Entry) (result : List ℕ × List Entry) : Type 0 where
  pub fired : List Entry
  pub names : ids fired ≡ result.0
  pub sorted : IsSorted fired
  pub due : All (λ e. e.deadline ≤ now) fired
  pub later : (i : ℕ) → i < length result.1 → now < (entry_at result.1 i).deadline
  pub ordered : IsHeap result.1
  pub same : (p : Entry → Bool) → count p fired + count p result.1 ≡ count p heap

-- The root of a heap that is not due: no entry is.
root_later :
    (now : ℕ) (heap : List Entry)
    → IsHeap heap
    → (0 < length heap → now < (entry_at heap 0).deadline)
    → (i : ℕ) → i < length heap
    → now < (entry_at heap i).deadline
root_later now heap h later i short =
    let first = root_first heap i h short in let root = later (omega (arith, short)) in ground arith

stops-Ticked :
    (now : ℕ) (heap : List Entry)
    → IsHeap heap
    → (0 < length heap → now < (entry_at heap 0).deadline)
    → Ticked now heap ([], heap)
stops-Ticked now heap h later = record {
  fired = [];
  names = refl;
  sorted = tt;
  due = tt;
  later = root_later now heap h later;
  ordered = h;
  same = λ p. omega arith;
}

-- No entry behind the root comes before it, however the entries are arranged.
behind_root :
    (heap rest fired left : List Entry)
    → IsHeap heap
    → Without heap (entry_at heap 0) rest
    → ((p : Entry → Bool) → count p fired + count p left ≡ count p rest)
    → All (InOrder (entry_at heap 0)) fired
behind_root heap rest fired left h w same =
    let before = λ (x : Entry). comes_first x (entry_at heap 0) in
    let none_before = count_none before heap no_entry (λ i short. root_first heap i h short) in
    none_count before fired (omega (arith, none_before, w.same before, same before))

pop_id : (heap : List Entry) → (pop heap).0 ≡ (entry_at heap 0).id
unfolding pop
pop_id heap = refl

tick_loop-Ticked :
    (fuel now : ℕ) (heap : List Entry)
    → length heap ≤ fuel
    → IsHeap heap
    → Ticked now heap (tick_loop fuel now heap)
unfolding tick_loop
tick_loop-Ticked zero now heap f h = stops-Ticked now heap h (λ pos. absurd (omega (arith, f, pos)))
tick_loop-Ticked (suc fuel) now heap f h =
    elim (Bool-cases (ltb 0 (length heap) && leb (entry_at heap 0).deadline now)) [
      | inr stop ↦ rw stop (stops-Ticked now heap h (λ pos. ground arith))
      | inl go ↦
          let (some_left, due) =
            and_true (ltb 0 (length heap)) (leb (entry_at heap 0).deadline now) go in
          let w = pop-Without heap h (ground arith) in
          let t = tick_loop-Ticked fuel now (pop heap).1 (omega (arith, f, w.size)) w.ordered in
          rw go record {
            fired = entry_at heap 0 ∷ t.fired;
            names = rw (pop_id heap) (ap (◌∷◌ (entry_at heap 0).id) t.names);
            sorted = (
              behind_root heap (pop heap).1 t.fired (tick_loop fuel now (pop heap).1).1 h w t.same,
              t.sorted,
            );
            due = (ground arith, t.due);
            later = t.later;
            ordered = t.ordered;
            same = λ p. omega (arith, w.same p, t.same p);
          }
    ]

pub tick-Ticked : (now : ℕ) (heap : List Entry) → IsHeap heap → Ticked now heap (tick now heap)
unfolding tick
tick-Ticked now heap h = tick_loop-Ticked (length heap) now heap (omega arith) h
