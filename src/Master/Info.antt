-- ===== src/Master/Info.antt =====
-- `reportServerId` of src/master/master.ts (FC 17), and `sendCustomFC`.
use njs_modbus.Common.{
  ℕ, ◌+◌, Bool, not, List, ltb, ◌==◌, if◌then◌else◌, length, take, drop, Option, none, some,
}
use njs_modbus.Tcp.{Frame, byte_at}
use njs_modbus.Slave.Pdu.{registers_loop}
use njs_modbus.Master.{
  Problem, server_id_short, server_id_mismatch, Sent, Settled, on_sent, settle, or_else,
  validate_response,
}

-- The `ServerId` that the promise resolves to.
pub record ReadServerId : Type 0 where
  pub server_id : List ℕ
  pub run_indicator_status : Bool
  pub additional_data : List ℕ

unfoldable pub validate_server_id : Frame → ℕ → Option Problem
validate_server_id frame server_id_length =
    if ltb (length frame.payload) (2 + server_id_length)
    then some server_id_short
    else if not (length frame.payload == 1 + byte_at frame.payload 0)
    then some server_id_mismatch
    else none

unfoldable pub server_id_of : List ℕ → ℕ → ReadServerId
server_id_of pdu server_id_length = record {
  server_id = take server_id_length (drop 1 pdu);
  run_indicator_status = byte_at pdu (1 + server_id_length) == 0xff;
  additional_data = drop (1 + server_id_length + 1) pdu;
}

unfoldable pub server_id_response : ℕ → ℕ → ℕ → Sent → Settled ReadServerId
server_id_response unit fc server_id_length = on_sent unit fc λ frame.
    settle (or_else (validate_response frame unit fc) (validate_server_id frame server_id_length))
      (server_id_of frame.payload server_id_length)

-- The payload that `sendCustomFC` makes of an array of words.
abbrev pub custom_words : List ℕ → List ℕ
custom_words values = registers_loop values 0 (length values)

unfoldable pub custom_response : ℕ → ℕ → Sent → Settled (List ℕ)
custom_response unit fc =
    on_sent unit fc λ frame. settle (validate_response frame unit fc) frame.payload
