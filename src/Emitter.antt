-- ===== src/Emitter.antt =====
-- `CompactEventEmitter`, src/utils/compact-event.ts, for one event name: `Registered` is the entry of
-- `_registry` at that name. A function is a number that names it; its arguments are left out, and a
-- listener does not itself change the registry, except for the wrapper that `once` makes.
pub mod Laws
mod Runs
use njs_modbus.Common.{
  ℕ, zero, suc, Bool, true, false, ◌||◌, List, [], ◌∷◌, ◌++◌, Option, none, some, ◌==◌, ltb,
  if◌then◌else◌, length,
}

-- A listener, or the wrapper of one with the wrapper's own name first.
pub data Listener : Type 0 where
  plain : ℕ → Listener
  wrapper : ℕ → ℕ → Listener

abbrev pub Registered : Type 0
Registered = Option (List Listener)

-- `item === listener || item.origin === listener`
pub matches : ℕ → Listener → Bool
matches listener (plain f) = f == listener
matches listener (wrapper w origin) = (w == listener) || (origin == listener)

-- `findIndex` and `splice`.
pub remove : ℕ → List Listener → List Listener
remove listener [] = []
remove listener (item ∷ rest) = if matches listener item then rest else item ∷ remove listener rest

-- An empty list leaves the registry.
pub registered : List Listener → Registered
registered [] = none
registered (item ∷ rest) = some (item ∷ rest)

pub add : Listener → Registered → Registered
add item none = some (item ∷ [])
add item (some list) = some (list ++ item ∷ [])

-- `on`
pub on : ℕ → Registered → Registered
on listener r = add (plain listener) r

-- `once`; `w` is the name of the new wrapper.
pub once : ℕ → ℕ → Registered → Registered
once w listener r = add (wrapper w listener) r

-- `off`
pub off : ℕ → Registered → Registered
off listener none = none
off listener (some list) = registered (remove listener list)

-- `list[i]`
pub item_at : List Listener → ℕ → Option Listener
item_at [] i = none
item_at (item ∷ rest) zero = some item
item_at (item ∷ rest) (suc i) = item_at rest i

-- The user's functions that are called, in order; whether a call of `undefined` ended the loop; and
-- the list afterwards.
pub record Emitted : Type 0 where
  pub calls : List ℕ
  pub threw : Bool
  pub left : List Listener

-- The list once the item is called: a wrapper takes itself out first.
pub list_after : Option Listener → List Listener → List Listener
list_after none list = list
list_after (some (plain f)) list = list
list_after (some (wrapper w f)) list = remove w list

-- The call of the item, and then the rest of the loop.
pub call_then : Option Listener → List Listener → Emitted → Emitted
call_then none list more = record { calls = []; threw = true; left = list }
call_then (some (plain f)) list more = record more { calls = f ∷ more.calls }
call_then (some (wrapper w f)) list more = record more { calls = f ∷ more.calls }

-- The loop of `emit` from index `i` on, `count` rounds of it left.
pub emit_loop : ℕ → ℕ → List Listener → Emitted
emit_loop zero i list = record { calls = []; threw = false; left = list }
emit_loop (suc count) i list =
    let item = item_at list i in
    call_then item list (emit_loop count (suc i) (list_after item list))

-- `emit` on a list of listeners: `len` is read once.
pub emit : List Listener → Emitted
emit list = emit_loop (length list) 0 list

-- The loop of `emitLazy`, where the length is read in each round. The list never grows, so that its
-- length at the start bounds the rounds.
pub emit_lazy_loop : ℕ → ℕ → List Listener → Emitted
emit_lazy_loop zero i list = record { calls = []; threw = false; left = list }
emit_lazy_loop (suc fuel) i list =
    let item = item_at list i in
    let more = emit_lazy_loop fuel (suc i) (list_after item list) in
    if ltb i (length list)
    then call_then item list more
    else record { calls = []; threw = false; left = list }

pub emit_lazy : List Listener → Emitted
emit_lazy list = emit_lazy_loop (length list) 0 list

-- `emit`: `none` where it returns false, since there is no listener.
pub emit_event : Registered → Option Emitted
emit_event none = none
emit_event (some list) = some (emit list)

-- `emitLazy`, likewise.
pub emit_event_lazy : Registered → Option Emitted
emit_event_lazy none = none
emit_event_lazy (some list) = some (emit_lazy list)

-- `removeAllListeners`
pub remove_all_listeners : Registered → Registered
remove_all_listeners r = none
