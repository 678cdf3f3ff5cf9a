-- ===== src/Tcp/Runs.antt =====
-- Runs of tcp-protocol-layer.ts, and its theorems at concrete streams.
use njs_modbus.Common.{
  ℕ, zero, suc, ◌≡◌, ◌<◌, ◌++◌, refl, inl, List, [], ◌∷◌, length, take, All, arith,
}
use njs_modbus.Tcp.{
  frame_error, frame_length_invalid, protocol_id_invalid, TcpLayer, max_frame_length, encode,
  decode, feed, decode_rest, decode_loop, is_one_frame, decode_residual, peek, bad_raw,
}
use njs_modbus.Tcp.Stream.{Parses, IsWaiting, NoErrors}
use njs_modbus.Tcp.Decode.{decode_meets_stream}
use njs_modbus.Tcp.Chunks.{concat, feed-eq-decode}
use njs_modbus.Tcp.RoundTrip.{Adu, Fits, wire, wires, frames, empty, feed-encode, encode_oversized}

abbrev read_request : Adu
read_request = record { transaction = 258; unit = 17; fc = 3; payload = 0 ∷ 107 ∷ 0 ∷ 3 ∷ [] }

abbrev server_id_request : Adu
server_id_request = record { transaction = 259; unit = 1; fc = 17; payload = [] }

abbrev requests : List Adu
requests = read_request ∷ server_id_request ∷ []

requests-Fits : All Fits requests
requests-Fits = (
  record { transaction = omega arith; unit = omega arith; fc = omega arith; payload = omega arith },
  (
    record {
      transaction = omega arith;
      unit = omega arith;
      fc = omega arith;
      payload = omega arith;
    },
    tt,
  ),
)

-- Cut within the first header, and within the body.
abbrev cuts : List (List ℕ)
cuts =
    (1 ∷ 2 ∷ 0 ∷ 0 ∷ 0 ∷ [])
    ∷ (6 ∷ 17 ∷ 3 ∷ 0 ∷ [])
    ∷ (107 ∷ 0 ∷ 3 ∷ 1 ∷ 3 ∷ 0 ∷ 0 ∷ [])
    ∷ []
    ∷ (0 ∷ 2 ∷ 1 ∷ 17 ∷ [])
    ∷ []

cuts_join : concat cuts ≡ wires requests
unfolding encode
cuts_join = refl

feed-encode_example : feed empty cuts ≡ (frames requests, empty)
feed-encode_example = feed-encode requests cuts requests-Fits cuts_join

abbrev part : TcpLayer
part = record { residual = 1 ∷ 2 ∷ 0 ∷ 0 ∷ 0 ∷ [] }

abbrev others : List ℕ
others = 2 ∷ 1 ∷ 17 ∷ 1 ∷ 3 ∷ 0 ∷ 0 ∷ []

decode_meets_stream_example :
    Parses (part.residual ++ others) (decode part others).0 (decode part others).1.residual
    × IsWaiting (decode part others).1.residual
    × (length (decode part others).1.residual < max_frame_length)
decode_meets_stream_example = decode_meets_stream part others (inl (omega arith))

no_errors : NoErrors (decode empty (concat cuts)).0
unfolding decode decode_rest decode_loop is_one_frame
no_errors = (tt, (tt, tt))

feed-eq-decode_example : feed empty cuts ≡ decode empty (concat cuts)
feed-eq-decode_example = feed-eq-decode cuts empty (inl (omega arith)) no_errors

-- A header that says 255 bytes and one that is not Modbus, behind residual bytes.
bad_length :
    (decode part (255 ∷ 1 ∷ [])).0
    ≡ frame_error frame_length_invalid (1 ∷ 2 ∷ 0 ∷ 0 ∷ 0 ∷ 255 ∷ 1 ∷ []) ∷ []
unfolding decode decode_residual peek bad_raw decode_rest decode_loop is_one_frame
bad_length = refl

bad_protocol :
    (decode empty (1 ∷ 2 ∷ 0 ∷ 1 ∷ 0 ∷ 2 ∷ [])).0
    ≡ frame_error protocol_id_invalid (1 ∷ 2 ∷ 0 ∷ 1 ∷ 0 ∷ 2 ∷ []) ∷ []
unfolding decode decode_rest decode_loop is_one_frame
bad_protocol = refl

abbrev zeros : ℕ → List ℕ
zeros zero = []
zeros (suc n) = 0 ∷ zeros n

abbrev oversized : Adu
oversized = record { transaction = 1; unit = 1; fc = 3; payload = zeros 253 }

encode_oversized_example :
    decode empty (wire oversized)
    ≡ (frame_error frame_length_invalid (take max_frame_length (wire oversized)) ∷ [], empty)
encode_oversized_example = encode_oversized oversized (omega arith) (omega arith)
