-- ===== src/TimerHeap.antt =====
-- The timers of src/utils/timer-heap.ts. The arrays `_deadlines`, `_ids` and `_seqs`, which the code
-- writes together, are one list of entries; `set_at` stands for the three writes at an index. A time is a number, and an operation takes the time
-- that `performance.now()` gives in it. How long the native timers wait is left out, and so are
-- remaining delays of 2^31 milliseconds or more, which `diff | 0` does not keep.
pub mod Order
pub mod Up
pub mod Down
pub mod Queue
pub mod Tick
pub mod Kept
pub mod Steps
mod Runs
use njs_modbus.Common.{
  ℕ, zero, suc, ◌+◌, ◌-◌, ◌*◌, ◌/◌, Bool, true, false, ◌&&◌, ◌||◌, List, [], ◌∷◌, ◌++◌, Option,
  none, some, ltb, leb, ◌==◌, if◌then◌else◌, length, take, get_or, set_at,
}

pub record Entry : Type 0 where
  pub deadline : ℕ
  pub id : ℕ
  pub seq : ℕ

-- A read past the end of the arrays does not occur; it would give this entry here.
abbrev pub no_entry : Entry
no_entry = record { deadline = 0; id = 0; seq = 0 }

abbrev pub entry_at : List Entry → ℕ → Entry
entry_at heap i = get_or heap i no_entry

-- `parentComesFirst` and the like: the earlier deadline, or the earlier registration.
abbrev pub comes_first : Entry → Entry → Bool
comes_first a b = ltb a.deadline b.deadline || (a.deadline == b.deadline && ltb a.seq b.seq)

abbrev pub parent : ℕ → ℕ
parent i = (i - 1) / 2

-- The loop towards the root: the arrays, and the index where the entry belongs. The index gets smaller
-- in every round.
pub up_loop : ℕ → List Entry → ℕ → Entry → List Entry × ℕ
up_loop zero heap i e = (heap, i)
up_loop (suc fuel) heap i e =
    let above = entry_at heap (parent i) in
    let rest = up_loop fuel (set_at heap i above) (parent i) e in
    if i == 0 then (heap, i) else if comes_first above e then (heap, i) else rest

-- `minChild`
pub min_child : List Entry → ℕ → ℕ
min_child heap i =
    let left = i * 2 + 1 in
    let right = left + 1 in
    if ltb right (length heap) && comes_first (entry_at heap right) (entry_at heap left)
    then right
    else left

-- The loop towards the leaves. The index gets larger in every round.
pub down_loop : ℕ → List Entry → ℕ → Entry → List Entry × ℕ
down_loop zero heap i e = (heap, i)
down_loop (suc fuel) heap i e =
    let child = min_child heap i in
    let below = entry_at heap child in
    let rest = down_loop fuel (set_at heap i below) child e in
    if ltb i (length heap / 2) then (if comes_first e below then (heap, i) else rest) else (heap, i)

abbrev pub place : List Entry × ℕ → Entry → List Entry
place (heap, i) e = set_at heap i e

-- `_heapAdd`, without `_refresh`.
pub heap_add : List Entry → Entry → List Entry
heap_add heap e = let n = length heap in place (up_loop (suc n) (heap ++ e ∷ []) n e) e

-- `_pop`: the id of the root, and the heap without it.
pub pop : List Entry → ℕ × List Entry
pop heap =
    let n = length heap - 1 in
    let last = entry_at heap n in
    let kept = take n heap in
    ((entry_at heap 0).id, if ltb 0 n then place (down_loop n kept 0 last) last else kept)

-- `_sift`
pub sift : List Entry → ℕ → List Entry
sift heap i =
    let e = entry_at heap i in
    let up = up_loop (suc i) heap i e in
    let down = down_loop (length heap) up.0 up.1 e in
    if up.1 == i then (if down.1 == i then down.0 else place down e) else place up e

abbrev pub next_index : Option ℕ → Option ℕ
next_index none = none
next_index (some i) = some (suc i)

-- `_ids.indexOf`
pub index_of : List Entry → ℕ → Option ℕ
index_of [] id = none
index_of (e ∷ heap) id =
    let later = index_of heap id in if e.id == id then some 0 else next_index later

-- `remove` in heap mode, behind the search.
pub remove_at : List Entry → ℕ → List Entry
remove_at heap i =
    let n = length heap - 1 in
    let last = entry_at heap n in
    let kept = take n heap in if ltb i n then sift (set_at kept i last) i else kept

-- The loop of `_onTick`: the ids that fire, and the heap that is left.
pub tick_loop : ℕ → ℕ → List Entry → List ℕ × List Entry
tick_loop zero now heap = ([], heap)
tick_loop (suc fuel) now heap =
    let popped = pop heap in
    let rest = tick_loop fuel now popped.1 in
    if ltb 0 (length heap) && leb (entry_at heap 0).deadline now
    then (popped.0 ∷ rest.0, rest.1)
    else ([], heap)

-- Each round takes an entry out.
pub tick : ℕ → List Entry → List ℕ × List Entry
tick now heap = tick_loop (length heap) now heap

-- `_mode`, `_directTimers` in the order of insertion with their deadlines, the heap, and `_counter`.
-- The native timer of each entry of the map is live; `stale` has the ids of the native timers that
-- live on without an entry, since their id was added again.
pub record Timers : Type 0 where
  pub heap_mode : Bool
  pub direct : List (ℕ × ℕ)
  pub stale : List ℕ
  pub heap : List Entry
  pub counter : ℕ

abbrev pub no_timers : Timers
no_timers = record { heap_mode = false; direct = []; stale = []; heap = []; counter = 0 }

-- `Map.set` and `Map.delete`
pub set_direct : ℕ → ℕ → List (ℕ × ℕ) → List (ℕ × ℕ)
set_direct id deadline [] = (id, deadline) ∷ []
set_direct id deadline (d ∷ direct) =
    if d.0 == id then (id, deadline) ∷ direct else d ∷ set_direct id deadline direct

pub delete_direct : ℕ → List (ℕ × ℕ) → List (ℕ × ℕ)
delete_direct id [] = []
delete_direct id (d ∷ direct) =
    let later = delete_direct id direct in if d.0 == id then direct else d ∷ later

pub has_direct : ℕ → List (ℕ × ℕ) → Bool
has_direct id [] = false
has_direct id (d ∷ direct) = d.0 == id || has_direct id direct

-- The entry of an id goes, or is replaced, while its native timer lives on.
abbrev pub orphan : ℕ → Timers → List ℕ
orphan id t = if has_direct id t.direct then id ∷ t.stale else t.stale

-- `_heapAdd`
abbrev pub add_to_heap : ℕ → ℕ → ℕ → Timers → Timers
add_to_heap now id ms t = record t {
  heap = heap_add t.heap (record { deadline = now + ms; id = id; seq = t.counter });
  counter = suc t.counter;
}

-- The direct timers go into the heap; one that is due fires.
pub migrate : ℕ → List (ℕ × ℕ) → Timers → List ℕ × Timers
migrate now [] t = ([], t)
migrate now (d ∷ direct) t =
    let fires = migrate now direct t in
    let moves = migrate now direct (add_to_heap now d.0 (d.1 - now) t) in
    if d.1 - now == 0 then (d.0 ∷ fires.0, fires.1) else moves

-- `add`, for a threshold, at a time.
pub add : ℕ → ℕ → ℕ → ℕ → Timers → List ℕ × Timers
add threshold now id ms t =
    let moved = migrate now t.direct (record t { heap_mode = true; direct = [] }) in
    if t.heap_mode
    then ([], add_to_heap now id ms t)
    else if leb (length t.direct + 1) threshold
    then ([], record t { direct = set_direct id (now + ms) t.direct; stale = orphan id t })
    else (moved.0, add_to_heap now id ms moved.1)

-- `remove`
abbrev pub remove_found : Option ℕ → Timers → Timers
remove_found none t = t
remove_found (some i) t = record t { heap = remove_at t.heap i }

pub remove : ℕ → Timers → Timers
remove id t =
    if t.heap_mode
    then remove_found (index_of t.heap id) t
    else record t { direct = delete_direct id t.direct }

-- `clear` stops the native timers of the map.
abbrev pub clear : Timers → Timers
clear t = record no_timers { stale = t.stale }

-- `_onTick`, for a callback that does not change the timers.
pub on_tick : ℕ → Timers → List ℕ × Timers
on_tick now t = let ticked = tick now t.heap in (ticked.0, record t { heap = ticked.1 })

-- The callback of the native timer that an entry of the map has.
pub direct_fires : ℕ → Timers → List ℕ × Timers
direct_fires id t =
    if has_direct id t.direct
    then (if t.heap_mode
        then ([], t)
        else (id ∷ [], record t { direct = delete_direct id t.direct }))
    else ([], t)

pub has_stale : ℕ → List ℕ → Bool
has_stale id [] = false
has_stale id (other ∷ stale) = other == id || has_stale id stale

pub delete_stale : ℕ → List ℕ → List ℕ
delete_stale id [] = []
delete_stale id (other ∷ stale) =
    let later = delete_stale id stale in if other == id then stale else other ∷ later

-- The same callback of a native timer without an entry. It deletes the entry that the id has now.
pub stale_fires : ℕ → Timers → List ℕ × Timers
stale_fires id t =
    let spent = record t { stale = delete_stale id t.stale } in
    if has_stale id t.stale
    then (if t.heap_mode
        then ([], spent)
        else (id ∷ [], record t { direct = delete_direct id t.direct; stale = orphan id spent }))
    else ([], t)
