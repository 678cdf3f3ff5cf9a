-- ===== src/Ascii/Runs.antt =====
-- Runs of src/layers/protocol/ascii-protocol-layer.ts, and its theorems at concrete streams.
use njs_modbus.Common.{◌≡◌, refl, arith, false, [], ◌∷◌, none, take, drop}
use njs_modbus.Tcp.Chunks.{concat}
use njs_modbus.Ascii.{
  idle, reception, frame, frame_error, frame_length_insufficient, hex_value, hex_char, step,
  end_frame, checked_frame, stream, decode, encode,
}
use njs_modbus.Ascii.FastPath.{view, view-decode}
use njs_modbus.Ascii.RoundTrip.{Adu, Fits, wire, wires, frames, decode_all, decode_all-encode}
use njs_modbus.Ascii.Sound.{IsLayer, IsSoundStep, decode_all-IsSoundStep}

abbrev read : Adu
read = record { unit = 1; fc = 3; payload = 0 ∷ 0 ∷ 0 ∷ 10 ∷ [] }

abbrev write : Adu
write = record { unit = 1; fc = 6; payload = 0 ∷ 1 ∷ 0xab ∷ 0xcd ∷ [] }

read-Fits : Fits read
read-Fits = record {
  unit = omega arith;
  fc = omega arith;
  payload = (omega arith, (omega arith, (omega arith, (omega arith, tt))));
  size = omega arith;
}

write-Fits : Fits write
write-Fits = record {
  unit = omega arith;
  fc = omega arith;
  payload = (omega arith, (omega arith, (omega arith, (omega arith, tt))));
  size = omega arith;
}

-- `:01030000000AF2` and the end
encoded_read :
    wire read
    ≡ b':' ∷ b'0' ∷ b'1' ∷ b'0' ∷ b'3' ∷ b'0' ∷ b'0' ∷ b'0' ∷ b'0' ∷ b'0' ∷ b'0' ∷ b'0' ∷ b'A'
      ∷ b'F' ∷ b'2' ∷ 13 ∷ 10 ∷ []
unfolding encode hex_char
encoded_read = refl

too_short :
    decode false idle (b':' ∷ b'0' ∷ b'1' ∷ 13 ∷ 10 ∷ [])
    ≡ (frame_error frame_length_insufficient (b'0' ∷ b'1' ∷ []) none ∷ [], idle)
unfolding decode stream step end_frame hex_value
too_short = refl

-- The raw characters of the fast path are the whole chunk, those of the state machine the digits.
raw_of_chunk :
    decode false idle (wire read)
    ≡ (frame (record { unit = 1; fc = 3; payload = read.payload; buffer = wire read }) ∷ [], idle)
unfolding decode stream step end_frame checked_frame hex_value encode hex_char
raw_of_chunk = refl

raw_of_pieces : decode_all false idle (take 4 (wire read) ∷ drop 4 (wire read) ∷ []) ≡ (
  frame (record {
    unit = 1;
    fc = 3;
    payload = read.payload;
    buffer =
        b'0' ∷ b'1' ∷ b'0' ∷ b'3' ∷ b'0' ∷ b'0' ∷ b'0' ∷ b'0' ∷ b'0' ∷ b'0' ∷ b'0' ∷ b'A' ∷ b'F'
        ∷ b'2' ∷ [];
  })
      ∷ [],
  idle,
)
unfolding decode stream step end_frame checked_frame hex_value encode hex_char
raw_of_pieces = refl

view-decode_example : view (decode false idle (wire read)) ≡ view (stream false idle (wire read))
view-decode_example = view-decode false idle (wire read)

cut :
    concat (take 4 (wires (read ∷ write ∷ [])) ∷ drop 4 (wires (read ∷ write ∷ [])) ∷ [])
    ≡ wires (read ∷ write ∷ [])
unfolding encode hex_char
cut = refl

digits : IsLayer (reception (b'0' ∷ b'1' ∷ []))
unfolding hex_value
digits = ((omega arith, (omega arith, tt)), omega arith)

decode_all-encode_example :
    view (
      decode_all false idle
        (take 4 (wires (read ∷ write ∷ [])) ∷ drop 4 (wires (read ∷ write ∷ [])) ∷ []))
    ≡ (frames (read ∷ write ∷ []), idle)
decode_all-encode_example =
    decode_all-encode false (read ∷ write ∷ [])
      (take 4 (wires (read ∷ write ∷ [])) ∷ drop 4 (wires (read ∷ write ∷ [])) ∷ [])
      (read-Fits, (write-Fits, tt)) cut

decode_all-IsSoundStep_example :
    IsSoundStep
      (decode_all false (reception (b'0' ∷ b'1' ∷ [])) (drop 3 (wire read) ∷ wire write ∷ []))
decode_all-IsSoundStep_example =
    decode_all-IsSoundStep (reception (b'0' ∷ b'1' ∷ [])) (drop 3 (wire read) ∷ wire write ∷ [])
      digits
