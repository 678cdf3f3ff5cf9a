-- ===== src/Ascii.antt =====
-- The Modbus ASCII framing of src/layers/protocol/ascii-protocol-layer.ts. `onFrame` and
-- `onFrameLazy` give the same events; the texts of the error messages are left out. In the state
-- `idle` the code keeps an old `_frameLen`, which it never reads there.
pub mod Hex
pub mod Stream
pub mod FastPath
pub mod RoundTrip
pub mod Sound
mod Runs
use njs_modbus.Common.{
  ℕ, zero, suc, ◌+◌, ◌-◌, ◌*◌, ◌/◌, ◌%◌, Bool, not, ◌&&◌, List, [], ◌∷◌, ◌++◌, Option, none, some,
  ltb, leb, ◌==◌, if◌then◌else◌, length, take, drop,
}
use njs_modbus.Tcp.{byte_at}

-- `MAX_FRAME_LENGTH`, in hex characters.
abbrev pub max_hex_length : ℕ
max_hex_length = 512

-- `CHAR_CODE`
abbrev pub colon : ℕ
colon = b':'

abbrev pub cr : ℕ
cr = 13

abbrev pub lf : ℕ
lf = 10

-- `HEX_DECODE` if `lenient`, and `HEX_DECODE_STRICT` if not.
unfoldable pub hex_value : Bool → ℕ → ℕ
hex_value lenient c =
    if leb 0x30 c && leb c 0x39
    then c - 0x30
    else if leb 0x41 c && leb c 0x46
    then c - 0x41 + 10
    else if lenient && (leb 0x61 c && leb c 0x66)
    then c - 0x61 + 10
    else 0xff

-- `HEX_ENCODE`
unfoldable pub hex_char : ℕ → ℕ
hex_char n = if ltb n 10 then 0x30 + n else 0x41 + (n - 10)

pub record Frame : Type 0 where
  pub unit : ℕ
  pub fc : ℕ
  pub payload : List ℕ
  pub buffer : List ℕ

pub data FrameErrorType : Type 0 where
  frame_too_long hex_character_invalid : FrameErrorType
  frame_length_insufficient frame_length_invalid lrc_check_failed : FrameErrorType

-- An error has the raw characters, and the function code of a failed check.
pub data Event : Type 0 where
  frame : Frame → Event
  frame_error : FrameErrorType → List ℕ → Option ℕ → Event

-- `_status`, with `_frame` up to `_frameLen`.
pub data Layer : Type 0 where
  idle : Layer
  reception waiting_end : List ℕ → Layer

abbrev pub byte_of : Bool → ℕ → ℕ → ℕ
byte_of lenient high low = hex_value lenient high * 16 + hex_value lenient low

-- `(~sum + 1) & 0xff`
abbrev pub lrc_of : ℕ → ℕ
lrc_of sum = (256 - sum % 256) % 256

abbrev pub sum_bytes : ℕ → List ℕ → ℕ
sum_bytes sum [] = sum
sum_bytes sum (byte ∷ bytes) = sum_bytes (sum + byte) bytes

-- The event for the bytes of a frame: unit, function code, payload and LRC.
unfoldable pub checked_frame : List ℕ → List ℕ → Event
checked_frame bytes raw =
    let payload = take (length bytes - 3) (drop 2 bytes) in
    if lrc_of (sum_bytes (byte_at bytes 0 + byte_at bytes 1) payload)
      == byte_at bytes (length bytes - 1)
    then frame
        (record { unit = byte_at bytes 0; fc = byte_at bytes 1; payload = payload; buffer = raw })
    else frame_error lrc_check_failed raw (some (byte_at bytes 1))

-- The bytes of pairs of characters that the state machine has accepted.
abbrev pub hex_bytes : Bool → List ℕ → List ℕ
hex_bytes lenient [] = []
hex_bytes lenient (high ∷ []) = []
hex_bytes lenient (high ∷ low ∷ chars) = byte_of lenient high low ∷ hex_bytes lenient chars

-- The line feed behind `_frame`.
unfoldable pub end_frame : Bool → List ℕ → Event
end_frame lenient chars =
    if ltb (length chars) 6
    then frame_error frame_length_insufficient chars none
    else if not (length chars % 2 == 0)
    then frame_error frame_length_invalid chars none
    else checked_frame (hex_bytes lenient chars) chars

-- One round of the state machine.
unfoldable pub step : Bool → Layer → ℕ → List Event × Layer
step lenient idle value = if value == colon then ([], reception []) else ([], idle)
step lenient (reception chars) value =
    if value == colon
    then ([], reception [])
    else if value == cr
    then ([], waiting_end chars)
    else if leb max_hex_length (length chars)
    then (frame_error frame_too_long chars none ∷ [], idle)
    else if ltb 15 (hex_value lenient value)
    then (frame_error hex_character_invalid chars none ∷ [], idle)
    else ([], reception (chars ++ value ∷ []))
step lenient (waiting_end chars) value =
    if value == colon
    then ([], reception [])
    else if value == lf
    then (end_frame lenient chars ∷ [], idle)
    else ([], idle)

-- The streaming part of `decode`.
unfoldable pub stream : Bool → Layer → List ℕ → List Event × Layer
stream lenient layer [] = ([], layer)
stream lenient layer (value ∷ chunk) =
    let first = step lenient layer value in
    let later = stream lenient first.1 chunk in (first.0 ++ later.0, later.1)

abbrev pub prepend : ℕ → Option (List ℕ) → Option (List ℕ)
prepend byte none = none
prepend byte (some bytes) = some (byte ∷ bytes)

-- The fast path's reading of `n` pairs; none if a character is no hex digit.
abbrev pub fast_bytes : Bool → ℕ → List ℕ → Option (List ℕ)
fast_bytes lenient zero chars = some []
fast_bytes lenient (suc n) [] = none
fast_bytes lenient (suc n) (high ∷ []) = none
fast_bytes lenient (suc n) (high ∷ low ∷ chars) =
    let rest = fast_bytes lenient n chars in
    if leb (hex_value lenient high) 15 && leb (hex_value lenient low) 15
    then prepend (byte_of lenient high low) rest
    else none

-- The fast path's condition on the chunk.
abbrev pub is_one_frame : List ℕ → Bool
is_one_frame chunk =
    let n = length chunk in
    leb 9 n
    && (leb n (max_hex_length + 3)
        && (not (n % 2 == 0)
            && (byte_at chunk 0 == colon
                && (byte_at chunk (n - 2) == cr && byte_at chunk (n - 1) == lf))))

abbrev pub fast_bytes_of : Bool → List ℕ → Option (List ℕ)
fast_bytes_of lenient chunk =
    if is_one_frame chunk then fast_bytes lenient ((length chunk - 3) / 2) (drop 1 chunk) else none

abbrev pub fast_or : Option (List ℕ) → List ℕ → List Event × Layer → List Event × Layer
fast_or none chunk streamed = streamed
fast_or (some bytes) chunk streamed = (checked_frame bytes chunk ∷ [], idle)

-- `decode`
unfoldable pub decode : Bool → Layer → List ℕ → List Event × Layer
decode lenient idle chunk = fast_or (fast_bytes_of lenient chunk) chunk (stream lenient idle chunk)
decode lenient (reception chars) chunk = stream lenient (reception chars) chunk
decode lenient (waiting_end chars) chunk = stream lenient (waiting_end chars) chunk

-- `flush`
pub flush : Layer → Layer
flush layer = idle

-- `HEX_ENCODE_PAIR`
abbrev pub hex_pair : ℕ → List ℕ
hex_pair byte = hex_char (byte / 16) ∷ hex_char (byte % 16) ∷ []

abbrev pub hex_chars : List ℕ → List ℕ
hex_chars [] = []
hex_chars (byte ∷ bytes) = hex_pair byte ++ hex_chars bytes

-- `encode`
unfoldable pub encode : ℕ → ℕ → List ℕ → List ℕ
encode unit fc payload =
    colon ∷ hex_pair unit
    ++ hex_pair fc
    ++ hex_chars payload
    ++ hex_pair (lrc_of (sum_bytes (unit + fc) payload))
    ++ cr ∷ lf ∷ []
