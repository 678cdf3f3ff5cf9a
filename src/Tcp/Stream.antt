-- ===== src/Tcp/Stream.antt =====
-- What a stream of bytes means to the TCP layer: a relation that does not mention buffers, chunks
-- or loops. It is the specification of tcp-protocol-layer.ts.
use njs_modbus.Common.{
  ℕ, ◌+◌, ◌≤◌, ◌<◌, ◌≡◌, ◌≢◌, ◌⊎◌, inl, List, [], ◌∷◌, ◌++◌, length, take, All, arith, append_assoc,
}
use njs_modbus.Tcp.{Event, frame, frame_error, protocol_id_invalid, frame_length_invalid}
use njs_modbus.Tcp.{be16, frame_of, max_frame_length}

-- One whole ADU: the protocol id is 0, and the length field says how many bytes follow it.
pub record IsAdu (f : List ℕ) : Type 0 where
  pub protocol : be16 f 2 ≡ 0
  pub at_least : 2 ≤ be16 f 4
  pub at_most : 6 + be16 f 4 ≤ max_frame_length
  pub size : length f ≡ 6 + be16 f 4

-- Bytes that may still become an ADU: the header is not complete, or it is valid and the body is
-- not complete.
pub record HasHeader (xs : List ℕ) : Type 0 where
  pub protocol : be16 xs 2 ≡ 0
  pub at_least : 2 ≤ be16 xs 4
  pub at_most : 6 + be16 xs 4 ≤ max_frame_length
  pub short : length xs < 6 + be16 xs 4

abbrev pub IsWaiting : List ℕ → Type 0
IsWaiting xs = (length xs < 6) ⊎ HasHeader xs

-- `Parses xs events rest`: the bytes `xs` give `events` and leave `rest` to be completed.
-- An invalid header drops everything received so far, and reports at most 260 bytes of it.
pub data Parses : List ℕ → List Event → List ℕ → Type 0 where
  waits : (xs : List ℕ) → IsWaiting xs → Parses xs [] xs
  bad_protocol :
      (xs : List ℕ)
      → 6 ≤ length xs
      → be16 xs 2 ≢ 0
      → Parses xs (frame_error protocol_id_invalid (take max_frame_length xs) ∷ []) []
  bad_length :
      (xs : List ℕ)
      → 6 ≤ length xs
      → be16 xs 2 ≡ 0
      → (be16 xs 4 < 2) ⊎ (max_frame_length < 6 + be16 xs 4)
      → Parses xs (frame_error frame_length_invalid (take max_frame_length xs) ∷ []) []
  next_frame :
      (f : List ℕ) {rest : List ℕ} {events : List Event} {left : List ℕ}
      → IsAdu f
      → Parses rest events left
      → Parses (f ++ rest) (frame (frame_of f) ∷ events) left

-- What is left can always be completed.
pub Parses-IsWaiting :
    {xs : List ℕ} {events : List Event} {left : List ℕ} → Parses xs events left → IsWaiting left
Parses-IsWaiting (waits xs w) = w
Parses-IsWaiting (bad_protocol xs h p) = inl (omega arith)
Parses-IsWaiting (bad_length xs h p q) = inl (omega arith)
Parses-IsWaiting (next_frame f a p) = Parses-IsWaiting p

abbrev pub IsFrameEvent : Event → Type 0
IsFrameEvent (frame f) = Unit {0}
IsFrameEvent (frame_error t raw) = ⊥

abbrev pub NoErrors : List Event → Type 0
NoErrors = All IsFrameEvent

-- Bytes that come later continue from what was left, as long as there was no error.
pub Parses-append :
    (ys : List ℕ)
    → {xs : List ℕ} {events : List Event} {left : List ℕ} → {events' : List Event} {left' : List ℕ}
    → Parses xs events left
    → NoErrors events
    → Parses (left ++ ys) events' left'
    → Parses (xs ++ ys) (events ++ events') left'
Parses-append ys (waits xs w) n q = q
Parses-append ys (bad_protocol xs h p) n q = absurd n.0
Parses-append ys (bad_length xs h p r) n q = absurd n.0
Parses-append ys (next_frame f {rest} a p) n q =
    rw (append_assoc f rest ys) (next_frame f a (Parses-append ys p n.1 q))
