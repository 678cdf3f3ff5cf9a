-- ===== src/Exchange.antt =====
-- One request of the master and its response over Modbus TCP: the master's `encode`, the slave's
-- `decode`, `_processFrame` of src/slave/slave.ts on each frame, and the master's `decode` of what the
-- slave wrote.
pub mod Device
pub mod Answers
pub mod Reach
pub mod Registers
pub mod ReadWrite
pub mod Coils
pub mod Locks
pub mod Writes
mod Runs
use njs_modbus.Common.{ℕ, List, [], ◌∷◌, ◌++◌}
use njs_modbus.Tcp.{Event, frame, frame_error, encode, feed}
use njs_modbus.Master.{Sent, got, Settled}
use njs_modbus.Tcp.RoundTrip.{empty}
use njs_modbus.Slave.Execute.{
  Effect, writes, finished, access_denied, protocol_exception, Slave, process_frame,
}

-- The chunks that the slave hands to the transport.
abbrev pub responses : List Effect → List (List ℕ)
responses [] = []
responses (writes response ∷ rest) = response ∷ responses rest
responses (finished ∷ rest) = responses rest
responses (access_denied ∷ rest) = responses rest
responses (protocol_exception type ∷ rest) = responses rest

-- How a request is settled by each frame reported, if it is the answer to the request.
abbrev pub settles {ℓ} : {A : Type ℓ} → (Sent → Settled A) → List Event → List (Settled A)
settles read [] = []
settles read (frame f ∷ rest) = read (got f) ∷ settles read rest
settles read (frame_error type raw ∷ rest) = settles read rest

module _ {S : Type 0} where
  -- The slave serves the frames in their order; an invalid frame is only reported.
  pub serve : Slave S → List Event → S → List (List ℕ) × S
  serve slave [] store = ([], store)
  serve slave (frame f ∷ rest) store =
      let first = process_frame slave f store in
      let later = serve slave rest first.1 in (responses first.0 ++ later.0, later.1)
  serve slave (frame_error type raw ∷ rest) store = serve slave rest store

  -- The events that the master's layer reports, and the store of the slave.
  unfoldable pub exchange : Slave S → ℕ → ℕ → ℕ → List ℕ → S → List Event × S
  exchange slave transaction unit fc payload store =
      let asked = feed empty (encode unit fc payload transaction ∷ []) in
      let served = serve slave asked.0 store in ((feed empty served.0).0, served.1)

  -- The request of a method of the master, which reads the response by `read`.
  unfoldable pub ask {ℓ} :
      {A : Type ℓ} → Slave S → ℕ → ℕ → ℕ → List ℕ → (Sent → Settled A) → S → List (Settled A) × S
  ask slave transaction unit fc payload read store =
      let r = exchange slave transaction unit fc payload store in (settles read r.0, r.1)
