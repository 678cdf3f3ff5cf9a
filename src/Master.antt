-- ===== src/Master.antt =====
-- The requests of the master and the reading of their responses, src/master/master.ts: each public
-- method as the function code and payload that it hands to `_send`, and as what it makes of the
-- argument of the callback of `_send`.
pub mod Queue
pub mod Reads
pub mod Writes
pub mod Info
pub mod Device
use njs_modbus.Common.{
  ℕ, ◌+◌, ◌/◌, ◌%◌, Bool, not, ◌||◌, List, [], ◌∷◌, ◌++◌, Option, none, some, ltb, ◌==◌,
  if◌then◌else◌, length, take, bit_or,
}
use njs_modbus.Tcp.{Frame, byte_at}

-- The errors with which a request is rejected: one of `_send`, named by a number, `ModbusError`
-- with its code, or one of the errors of this file.
pub data Problem : Type 0 where
  send_error modbus_error : ℕ → Problem
  malformed_exception unit_or_fc_mismatch : Problem
  response_short length_mismatch byte_count_mismatch : Problem
  echo_short echo_length_mismatch echo_mismatch : Problem
  server_id_short server_id_mismatch : Problem
  device_id_short device_id_invalid object_count_mismatch object_length_mismatch : Problem

-- The arguments of the callback of `_send`. A broadcast has no frame.
pub data Sent : Type 0 where
  send_failed : ℕ → Sent
  no_frame : Sent
  got : Frame → Sent

-- How the promise is settled.
pub data Settled {ℓ} (A : Type ℓ) : Type ℓ where
  rejected : Problem → Settled A
  resolved_void : Settled A
  resolved : A → Settled A

-- EXCEPTION_OFFSET
abbrev pub exception_offset : ℕ
exception_offset = 0x80

-- `detectException`
unfoldable pub detect_exception : Frame → ℕ → ℕ → Option Problem
detect_exception frame unit fc =
    if not (frame.unit == unit) || not (frame.fc == bit_or fc exception_offset)
    then none
    else if ltb (length frame.payload) 1
    then some malformed_exception
    else some (modbus_error (byte_at frame.payload 0))

-- A validation is the error that it throws.
unfoldable pub validate_response : Frame → ℕ → ℕ → Option Problem
validate_response frame unit fc =
    if not (frame.unit == unit) || not (frame.fc == fc) then some unit_or_fc_mismatch else none

-- The validation after another.
abbrev pub or_else : Option Problem → Option Problem → Option Problem
or_else (some problem) next = some problem
or_else none next = next

unfoldable pub validate_byte_count_response : Frame → ℕ → ℕ → ℕ → Option Problem
validate_byte_count_response frame unit fc byte_count = or_else (validate_response frame unit fc) (
    if ltb (length frame.payload) (1 + byte_count)
    then some response_short
    else if not (length frame.payload == 1 + byte_count)
    then some length_mismatch
    else if not (byte_at frame.payload 0 == byte_count)
    then some byte_count_mismatch
    else none)

-- `Buffer.equals`
unfoldable pub same_bytes : List ℕ → List ℕ → Bool
same_bytes [] [] = Bool.true
same_bytes [] (y ∷ ys) = Bool.false
same_bytes (x ∷ xs) [] = Bool.false
same_bytes (x ∷ xs) (y ∷ ys) = if x == y then same_bytes xs ys else Bool.false

unfoldable pub validate_echo_response : Frame → ℕ → ℕ → List ℕ → Option Problem
validate_echo_response frame unit fc expected = or_else (validate_response frame unit fc) (
    if ltb (length frame.payload) (length expected)
    then some echo_short
    else if not (length frame.payload == length expected)
    then some echo_length_mismatch
    else if not (same_bytes frame.payload expected)
    then some echo_mismatch
    else none)

abbrev pub settle {ℓ} : {A : Type ℓ} → Option Problem → A → Settled A
settle (some problem) data_of = rejected problem
settle none data_of = resolved data_of

abbrev pub unless {ℓ} : {A : Type ℓ} → Option Problem → Settled A → Settled A
unless (some problem) rest = rejected problem
unless none rest = rest

-- The callback that all the methods pass to `_send`: `read` is what follows the test for an
-- exception.
abbrev pub on_sent {ℓ} : {A : Type ℓ} → ℕ → ℕ → (Frame → Settled A) → Sent → Settled A
on_sent unit fc read (send_failed error) = rejected (send_error error)
on_sent unit fc read no_frame = resolved_void
on_sent unit fc read (got frame) = unless (detect_exception frame unit fc) (read frame)

-- Two bytes, the high one first.
abbrev pub word : ℕ → List ℕ
word n = n / 256 % 256 ∷ n % 256 ∷ []

abbrev pub two_words : ℕ → ℕ → List ℕ
two_words a b = word a ++ word b
