-- ===== src/Emitter/Runs.antt =====
-- Runs of src/utils/compact-event.ts, and its theorems at concrete listeners.
use njs_modbus.Common.{◌≡◌, refl, true, false, List, [], ◌∷◌, none, some}
use njs_modbus.Emitter.{
  Listener, plain, wrapper, matches, remove, registered, add, on, once, off, item_at, list_after,
  call_then, emit_loop, emit, emit_lazy_loop, emit_lazy, emit_event, emit_event_lazy,
}
use njs_modbus.Emitter.Laws.{emit-once}

taken_off : off 2 (on 3 (once 9 2 (on 1 none))) ≡ some (plain 1 ∷ plain 3 ∷ [])
unfolding on once off add registered remove matches
taken_off = refl

-- `emit` fails where `emitLazy` does not, and both pass over listener 2.
eager :
    emit_event (on 3 (on 2 (once 9 1 none)))
    ≡ some record { calls = 1 ∷ 3 ∷ []; threw = true; left = plain 2 ∷ plain 3 ∷ [] }
unfolding emit_event on once add emit emit_loop item_at list_after call_then remove matches
eager = refl

lazily :
    emit_event_lazy (on 3 (on 2 (once 9 1 none)))
    ≡ some record { calls = 1 ∷ 3 ∷ []; threw = false; left = plain 2 ∷ plain 3 ∷ [] }
unfolding emit_event_lazy on once add emit_lazy emit_lazy_loop item_at list_after call_then remove
    matches
lazily = refl

abbrev listeners : List Listener
listeners = plain 4 ∷ plain 5 ∷ plain 4 ∷ []

emit-once_example :
    emit (wrapper 9 1 ∷ plain 2 ∷ plain 3 ∷ [])
    ≡ record { calls = 1 ∷ 3 ∷ []; threw = true; left = plain 2 ∷ plain 3 ∷ [] }
emit-once_example = emit-once 9 1 2 (plain 3 ∷ []) (tt, tt)
