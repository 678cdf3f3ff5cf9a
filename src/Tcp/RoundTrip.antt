-- ===== src/Tcp/RoundTrip.antt =====
-- `encode` of tcp-protocol-layer.ts, followed by `decode`.
use njs_modbus.Common.{
  ℕ, ◌≤◌, ◌<◌, ◌≡◌, refl, List, [], ◌∷◌, ◌++◌, length, take, All, arith, inl, inr,
}
use njs_modbus.Tcp.{
  Event, Frame, frame, frame_error, frame_length_invalid, TcpLayer, frame_of, max_frame_length,
  encode, decode, feed,
}
use njs_modbus.Tcp.Stream.{IsAdu, Parses, waits, bad_length, next_frame, NoErrors}
use njs_modbus.Tcp.Decode.{decode_reads}
use njs_modbus.Tcp.Chunks.{concat, feed_reads}

-- The arguments of a call of `encode`.
pub record Adu : Type 0 where
  pub transaction : ℕ
  pub unit : ℕ
  pub fc : ℕ
  pub payload : List ℕ

-- Arguments in the ranges of the wire format.
pub record Fits (a : Adu) : Type 0 where
  pub transaction : a.transaction < 65536
  pub unit : a.unit < 256
  pub fc : a.fc < 256
  pub payload : length a.payload ≤ 252

abbrev pub wire : Adu → List ℕ
wire a = encode a.unit a.fc a.payload a.transaction

-- The frame that the receiver should see.
abbrev pub frame_of_adu : Adu → Frame
frame_of_adu a = record {
  transaction = a.transaction;
  unit = a.unit;
  fc = a.fc;
  payload = a.payload;
  buffer = wire a;
}

abbrev pub wires : List Adu → List ℕ
wires [] = []
wires (a ∷ adus) = wire a ++ wires adus

abbrev pub frames : List Adu → List Event
frames [] = []
frames (a ∷ adus) = frame (frame_of_adu a) ∷ frames adus

wire-IsAdu : (a : Adu) → Fits a → IsAdu (wire a)
unfolding encode
wire-IsAdu a h = omega (arith, h.payload)

frame_of-wire : (a : Adu) → Fits a → frame_of (wire a) ≡ frame_of_adu a
unfolding encode frame_of
frame_of-wire a h = ground (arith, h.payload)

wires-Parses : (adus : List Adu) → All Fits adus → Parses (wires adus) (frames adus) []
wires-Parses [] h = waits [] (inl (omega arith))
wires-Parses (a ∷ adus) h =
    rw (← frame_of-wire a h.0) (next_frame (wire a) (wire-IsAdu a h.0) (wires-Parses adus h.1))

frames-NoErrors : (adus : List Adu) → NoErrors (frames adus)
frames-NoErrors [] = tt
frames-NoErrors (a ∷ adus) = (tt, frames-NoErrors adus)

abbrev pub empty : TcpLayer
empty = record { residual = [] }

-- Round trip: whatever ADUs are encoded one after another, with arguments in range and at most 252
-- payload bytes each, and however the transport cuts the bytes into chunks, a fresh layer reports
-- exactly those ADUs, in order and without an error, and keeps no byte.
pub feed-encode :
    (adus : List Adu) (chunks : List (List ℕ))
    → All Fits adus
    → concat chunks ≡ wires adus
    → feed empty chunks ≡ (frames adus, empty)
feed-encode adus chunks h e =
    feed_reads chunks empty (inl (omega arith)) (rw e (wires-Parses adus h)) (frames-NoErrors adus)

-- A payload of 253 to 65533 bytes, which `encode` accepts, gives a frame that `decode` on
-- a fresh layer refuses.
pub encode_oversized :
    (a : Adu)
    → 253 ≤ length a.payload
    → length a.payload ≤ 65533
    → decode empty (wire a)
      ≡ (frame_error frame_length_invalid (take max_frame_length (wire a)) ∷ [], empty)
unfolding encode
encode_oversized a lo hi =
    decode_reads empty (wire a) (inl (omega arith))
      (bad_length (wire a) (omega arith) refl (inr (omega arith)))
