-- ===== src/TimerHeap/Kept.antt =====
-- The timers of src/utils/timer-heap.ts under one operation.
use njs_modbus.Common.{
  ℕ, suc, ◌+◌, ◌-◌, ◌*◌, ◌≤◌, ◌<◌, ◌≡◌, refl, ap, arith, Bool, true, List, [], ◌∷◌, length, Option,
  none, some, leb, ◌==◌, ==→eq, Bool-cases, inl, inr, one_if, count, if_holds,
}
use njs_modbus.TimerHeap.{
  Entry, Timers, set_direct, delete_direct, has_direct, add_to_heap, migrate, add, index_of,
  next_index, remove_found, remove, on_tick, direct_fires, orphan, has_stale, delete_stale,
  stale_fires,
}
use njs_modbus.TimerHeap.Order.{IsHeap}
use njs_modbus.TimerHeap.Queue.{heap_add-HeapOf, remove_at-Without}
use njs_modbus.TimerHeap.Tick.{ids, tick-Ticked}

abbrev pub is_id : ℕ → ℕ → Bool
is_id k id = id == k

abbrev pub fires : ℕ → List ℕ → ℕ
fires k fired = count (is_id k) fired

-- How often an id waits: in the heap, in the map, or as a native timer without an entry.
abbrev pub waits : ℕ → Timers → ℕ
waits k t =
    count (λ e. is_id k e.id) t.heap + count (λ d. is_id k d.0) t.direct + count (is_id k) t.stale

-- The heap is in order, and what fires or waits afterwards has waited before or was added.
pub record Kept (t : Timers) (r : List ℕ × Timers) (added : ℕ → ℕ) : Type 0 where
  pub ordered : IsHeap r.1.heap
  pub bounded : (k : ℕ) → fires k r.0 + waits k r.1 ≤ waits k t + added k

fires-ids :
    (k : ℕ) (entries : List Entry) → fires k (ids entries) ≡ count (λ e. is_id k e.id) entries
fires-ids k [] = refl
fires-ids k (e ∷ entries) = omega (arith, fires-ids k entries)

-- A new entry is one more, but for the one that it replaces.
count-set_direct :
    (k id deadline : ℕ) (direct : List (ℕ × ℕ))
    → count (λ d. is_id k d.0) (set_direct id deadline direct)
        + one_if (has_direct id direct) * one_if (is_id k id)
      ≤ count (λ d. is_id k d.0) direct + one_if (is_id k id)
unfolding set_direct has_direct
count-set_direct k id deadline [] = omega arith
count-set_direct k id deadline (d ∷ direct) = elim (Bool-cases (d.0 == id)) [
  | inl same ↦ rw (same, ==→eq d.0 id same) (omega arith)
  | inr other ↦ rw other (omega (arith, count-set_direct k id deadline direct))
]

count-orphan :
    (k id : ℕ) (t : Timers)
    → count (is_id k) (orphan id t)
      ≡ count (is_id k) t.stale + one_if (has_direct id t.direct) * one_if (is_id k id)
count-orphan k id t = elim (Bool-cases (has_direct id t.direct)) [
  | inl here ↦ rw here (omega arith)
  | inr gone ↦ rw gone (omega arith)
]

count-delete_stale :
    (k id : ℕ) (stale : List ℕ)
    → count (is_id k) (delete_stale id stale) + one_if (has_stale id stale) * one_if (is_id k id)
      ≤ count (is_id k) stale
unfolding delete_stale has_stale
count-delete_stale k id [] = omega arith
count-delete_stale k id (other ∷ stale) = elim (Bool-cases (other == id)) [
  | inl same ↦ rw (same, ==→eq other id same) (omega arith)
  | inr differs ↦ rw differs (omega (arith, count-delete_stale k id stale))
]

-- A deletion takes an entry of the id out, if there is one.
count-delete_direct :
    (k id : ℕ) (direct : List (ℕ × ℕ))
    → count (λ d. is_id k d.0) (delete_direct id direct)
        + one_if (has_direct id direct) * one_if (is_id k id)
      ≤ count (λ d. is_id k d.0) direct
unfolding delete_direct has_direct
count-delete_direct k id [] = omega arith
count-delete_direct k id (d ∷ direct) = elim (Bool-cases (d.0 == id)) [
  | inl same ↦ rw (same, ==→eq d.0 id same) (omega arith)
  | inr other ↦ rw other (omega (arith, count-delete_direct k id direct))
]

add_to_heap-Kept :
    (now id ms : ℕ) (t : Timers)
    → IsHeap t.heap
    → Kept t ([], add_to_heap now id ms t) (λ k. one_if (is_id k id))
add_to_heap-Kept now id ms t h =
    let e : Entry = record { deadline = now + ms; id = id; seq = t.counter } in
    let a = heap_add-HeapOf t.heap h e in
    record { ordered = a.ordered; bounded = λ k. omega (arith, a.same (λ e. is_id k e.id)) }

migrate-Kept :
    (now : ℕ) (direct : List (ℕ × ℕ)) (t : Timers)
    → IsHeap t.heap
    → Kept t (migrate now direct t) (λ k. count (λ d. is_id k d.0) direct)
unfolding migrate
migrate-Kept now [] t h = record { ordered = h; bounded = λ k. omega arith }
migrate-Kept now (d ∷ direct) t h =
    if_holds (λ (r : List ℕ × Timers). Kept t r (λ k. count (λ d. is_id k d.0) (d ∷ direct)))
      (d.1 - now == 0)
      (λ due.
        let rest = migrate-Kept now direct t h in
        record { ordered = rest.ordered; bounded = λ k. omega (arith, rest.bounded k) })
      (λ _.
        let moved = add_to_heap-Kept now d.0 (d.1 - now) t h in
        let rest = migrate-Kept now direct (add_to_heap now d.0 (d.1 - now) t) moved.ordered in
        record {
          ordered = rest.ordered;
          bounded = λ k. omega (arith, rest.bounded k, moved.bounded k);
        })

pub add-Kept :
    (threshold now id ms : ℕ) (t : Timers)
    → IsHeap t.heap
    → Kept t (add threshold now id ms t) (λ k. one_if (is_id k id))
unfolding add
add-Kept threshold now id ms t h =
    let P = λ (r : List ℕ × Timers). Kept t r (λ k. one_if (is_id k id)) in
    let start : Timers = record t { heap_mode = true; direct = [] } in
    let m = migrate-Kept now t.direct start h in
    let moved = migrate now t.direct start in
    let a = add_to_heap-Kept now id ms moved.1 m.ordered in
    if_holds P t.heap_mode (λ _. add_to_heap-Kept now id ms t h)
      λ _.
        if_holds P (leb (length t.direct + 1) threshold)
          (λ _. record {
            ordered = h;
            bounded =
                λ k. omega (arith, count-set_direct k id (now + ms) t.direct, count-orphan k id t);
          })
          (λ _. record {
            ordered = a.ordered;
            bounded = λ k. omega (arith, a.bounded k, m.bounded k);
          })

next_index-some :
    (found : Option ℕ) (i : ℕ)
    → next_index found ≡ some i
    → (j : ℕ) × (found ≡ some j) × (suc j ≡ i)
next_index-some none i h = absurd (cc)
next_index-some (some j) i h = (j, refl, cc)

index_of_lt : (heap : List Entry) (id i : ℕ) → index_of heap id ≡ some i → i < length heap
unfolding index_of
index_of_lt [] id i h = absurd (cc)
index_of_lt (e ∷ heap) id i h = elim (Bool-cases (e.id == id)) [
  | inl same ↦
      let first : some 0 ≡ some i = rw same at h in
      let zero_first : 0 ≡ i = cc in omega (arith, zero_first)
  | inr other ↦
      let (j, found, next) = next_index-some (index_of heap id) i (rw other at h) in
      omega (arith, next, index_of_lt heap id j found)
]

removed-Kept :
    (t : Timers) (id : ℕ) (found : Option ℕ)
    → IsHeap t.heap
    → index_of t.heap id ≡ found
    → Kept t ([], remove_found found t) (λ k. 0)
removed-Kept t id none h e = record { ordered = h; bounded = λ k. omega arith }
removed-Kept t id (some i) h e =
    let w = remove_at-Without t.heap h i (index_of_lt t.heap id i e) in
    record { ordered = w.ordered; bounded = λ k. omega (arith, w.same (λ e. is_id k e.id)) }

pub remove-Kept : (id : ℕ) (t : Timers) → IsHeap t.heap → Kept t ([], remove id t) (λ k. 0)
unfolding remove
remove-Kept id t h =
    if_holds (λ (r : Timers). Kept t ([], r) (λ k. 0)) t.heap_mode
      (λ _. removed-Kept t id (index_of t.heap id) h refl)
      (λ _. record { ordered = h; bounded = λ k. omega (arith, count-delete_direct k id t.direct) })

pub on_tick-Kept : (now : ℕ) (t : Timers) → IsHeap t.heap → Kept t (on_tick now t) (λ k. 0)
unfolding on_tick
on_tick-Kept now t h =
    let ticked = tick-Ticked now t.heap h in
    record {
      ordered = ticked.ordered;
      bounded = λ k. omega (
        arith,
        ticked.same (λ e. is_id k e.id),
        fires-ids k ticked.fired,
        ap (fires k) ticked.names,
      );
    }

pub direct_fires-Kept : (id : ℕ) (t : Timers) → IsHeap t.heap → Kept t (direct_fires id t) (λ k. 0)
unfolding direct_fires
direct_fires-Kept id t h =
    let same : Kept t ([], t) (λ k. 0) = record { ordered = h; bounded = λ k. omega arith } in
    elim (Bool-cases (has_direct id t.direct)) [
      | inr other ↦ rw other same
      | inl here ↦ rw here (
          if_holds (λ (r : List ℕ × Timers). Kept t r (λ k. 0)) t.heap_mode (λ _. same)
            λ _. record {
              ordered = h;
              bounded = λ k.
                  let less = rw here at (count-delete_direct k id t.direct) in omega (arith, less);
            })
    ]

pub stale_fires-Kept : (id : ℕ) (t : Timers) → IsHeap t.heap → Kept t (stale_fires id t) (λ k. 0)
unfolding stale_fires
stale_fires-Kept id t h =
    let spent : Timers = record t { stale = delete_stale id t.stale } in
    elim (Bool-cases (has_stale id t.stale)) [
      | inr other ↦ rw other record { ordered = h; bounded = λ k. omega arith }
      | inl here ↦ rw here (
          if_holds (λ (r : List ℕ × Timers). Kept t r (λ k. 0)) t.heap_mode
            (λ _. record {
              ordered = h;
              bounded = λ k.
                  let less = rw here at (count-delete_stale k id t.stale) in omega (arith, less);
            })
            λ _. record {
              ordered = h;
              bounded = λ k.
                  let less = rw here at (count-delete_stale k id t.stale) in
                  omega (arith, less, count-delete_direct k id t.direct, count-orphan k id spent);
            })
    ]

pub empty-IsHeap : IsHeap []
empty-IsHeap c p h = absurd (omega arith)
