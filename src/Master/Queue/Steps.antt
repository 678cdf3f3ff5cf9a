-- ===== src/Master/Queue/Steps.antt =====
-- What happens to the requests of src/master/master.ts, one event after another.
use njs_modbus.Common.{ℕ, Bool, List, [], ◌∷◌, ◌++◌, ◌==◌, ◌+◌, one_if}
use njs_modbus.Session.{ModbusFrame}
use njs_modbus.Master.Queue.{
  Request, Effect, calls, writes, starts_timer, flushes, clears_timers, Settings, Dispatch,
}
use njs_modbus.Master.Queue.Operations.{send, receive, frame_fails, write_done, times_out, destroy}

pub data Event : Type 0 where
  sends : Request → Event
  receives : ModbusFrame → Event
  gets_frame_error : Event
  ends_write : Bool → ℕ → Event
  expires : ℕ → Event
  destroys : Event

abbrev pub perform : Settings → Event → Dispatch → List Effect × Dispatch
perform settings (sends q) s = send settings q s
perform settings (receives frame) s = receive settings frame s
perform settings gets_frame_error s = frame_fails settings s
perform settings (ends_write good id) s = write_done settings good id s
perform settings (expires id) s = times_out settings id s
perform settings destroys s = destroy settings s

unfoldable pub run : Settings → List Event → Dispatch → List Effect × Dispatch
run settings [] s = ([], s)
run settings (event ∷ events) s =
    let first = perform settings event s in
    let later = run settings events first.1 in (first.0 ++ later.0, later.1)

-- How often the effects call a callback, and the events send a request with it.
abbrev pub called : ℕ → List Effect → ℕ
called k [] = 0
called k (calls callback result ∷ effects) = one_if (callback == k) + called k effects
called k (writes id wire ∷ effects) = called k effects
called k (starts_timer id timeout ∷ effects) = called k effects
called k (flushes ∷ effects) = called k effects
called k (clears_timers ∷ effects) = called k effects

abbrev pub asked : ℕ → List Event → ℕ
asked k [] = 0
asked k (sends q ∷ events) = one_if (q.callback == k) + asked k events
asked k (receives frame ∷ events) = asked k events
asked k (gets_frame_error ∷ events) = asked k events
asked k (ends_write good id ∷ events) = asked k events
asked k (expires id ∷ events) = asked k events
asked k (destroys ∷ events) = asked k events
