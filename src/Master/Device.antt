-- ===== src/Master/Device.antt =====
-- `readDeviceIdentification` of src/master/master.ts (FC 43 / 14).
pub mod Objects
use njs_modbus.Common.{
  ℕ, ◌+◌, ◌%◌, Bool, not, ◌||◌, List, [], ◌∷◌, ◌++◌, ltb, ◌==◌, if◌then◌else◌, length, drop, Option,
  none, some,
}
use njs_modbus.Tcp.{Frame, byte_at}
use njs_modbus.Slave.Types.{mei_read_device_id}
use njs_modbus.Master.{
  Problem, device_id_short, device_id_invalid, object_count_mismatch, object_length_mismatch, Sent,
  Settled, on_sent, settle, or_else, validate_response,
}

-- `Buffer.from` keeps the low eight bits.
abbrev pub device_request : ℕ → ℕ → List ℕ
device_request code object_id = mei_read_device_id ∷ code % 256 ∷ object_id % 256 ∷ []

-- The variable `object`, by its length.
pub data Partial : Type 0 where
  nothing_yet : Partial
  with_id : ℕ → Partial
  with_length : ℕ → ℕ → Partial
  with_value : ℕ → ℕ → List ℕ → Partial

-- `object`, `objects` and `totalBytes`. A text is its bytes.
pub record Parsing : Type 0 where
  pub partial : Partial
  pub objects : List (ℕ × List ℕ)
  pub total_bytes : ℕ

-- One round of the loop over the bytes.
pub parse_byte : ℕ → Parsing → Partial → Parsing
parse_byte v p nothing_yet = record p { partial = with_id v }
parse_byte v p (with_id id) = record p { partial = with_length id v }
parse_byte v p (with_length id n) = record p { partial = with_value id n (v ∷ []) }
parse_byte v p (with_value id n value) =
    if n == length (value ++ v ∷ [])
    then record {
      partial = nothing_yet;
      objects = p.objects ++ (id, value ++ v ∷ []) ∷ [];
      total_bytes = p.total_bytes + (2 + n);
    }
    else record p { partial = with_value id n (value ++ v ∷ []) }

pub parse_bytes : List ℕ → Parsing → Parsing
parse_bytes [] p = p
parse_bytes (v ∷ bytes) p = parse_bytes bytes (parse_byte v p p.partial)

abbrev pub nothing_parsed : Parsing
nothing_parsed = record { partial = nothing_yet; objects = []; total_bytes = 0 }

abbrev pub parsed : Frame → Parsing
parsed frame = parse_bytes (drop 6 frame.payload) nothing_parsed

-- The `DeviceIdentification` that the promise resolves to.
pub record Identification : Type 0 where
  pub read_device_id_code : ℕ
  pub conformity_level : ℕ
  pub more_follows : Bool
  pub next_object_id : ℕ
  pub objects : List (ℕ × List ℕ)

unfoldable pub validate_device : Frame → ℕ → Option Problem
validate_device frame code =
    let pdu = frame.payload in
    if ltb (length pdu) 6
    then some device_id_short
    else if not (byte_at pdu 0 == mei_read_device_id) || not (byte_at pdu 1 == code)
    then some device_id_invalid
    else if not (length (parsed frame).objects == byte_at pdu 5)
    then some object_count_mismatch
    else if not (length pdu == 6 + (parsed frame).total_bytes)
    then some object_length_mismatch
    else none

unfoldable pub identification_of : Frame → ℕ → Identification
identification_of frame code = record {
  read_device_id_code = code;
  conformity_level = byte_at frame.payload 2;
  more_follows = byte_at frame.payload 3 == 0xff;
  next_object_id = byte_at frame.payload 4;
  objects = (parsed frame).objects;
}

unfoldable pub device_response : ℕ → ℕ → ℕ → Sent → Settled Identification
device_response unit fc code = on_sent unit fc λ frame.
    settle (or_else (validate_response frame unit fc) (validate_device frame code))
      (identification_of frame code)
