-- ===== src/Slave/Lock/Ranges.antt =====
-- The ranges that `_processUnitWrite` of src/slave/slave.ts locks for a frame.
use njs_modbus.Common.{
  ℕ, ◌+◌, Bool, ◌||◌, List, [], ◌∷◌, ◌++◌, Option, none, some, ltb, leb, ◌==◌, if◌then◌else◌,
  length,
}
use njs_modbus.Tcp.{Frame, be16}
use njs_modbus.Slave.FunctionCode.{
  write_single_coil, write_single_register, write_multiple_coils, write_multiple_registers,
  mask_write_register, read_write_multiple_registers,
}

-- `WRITE_FUNCTION_FLAGS`
abbrev pub is_write_function : ℕ → Bool
is_write_function fc =
    fc == write_single_coil
    || fc == write_single_register
    || fc == write_multiple_coils
    || fc == write_multiple_registers
    || fc == mask_write_register
    || fc == read_write_multiple_registers

-- The ranges of a standard write; none for a request of the wrong length.
unfoldable pub write_ranges : Frame → List ℕ
write_ranges frame =
    let payload = frame.payload in
    let first = be16 payload 0 in
    if frame.fc == mask_write_register
    then (if length payload == 6 then first ∷ (first + 1) ∷ [] else [])
    else if frame.fc == read_write_multiple_registers
    then (if ltb 9 (length payload)
        then be16 payload 4 ∷ (be16 payload 4 + be16 payload 6) ∷ []
        else [])
    else if frame.fc == write_multiple_coils || frame.fc == write_multiple_registers
    then first ∷ (first + be16 payload 2) ∷ []
    else first ∷ (first + 1) ∷ []

-- The ranges that `requestAddressRange` of a custom function code declares, the ends included and in
-- either order, one list for each of the four tables.
pub table_ranges : List (ℕ × ℕ) → List ℕ
table_ranges [] = []
table_ranges (r ∷ rest) =
    (if leb r.0 r.1 then r.0 ∷ (r.1 + 1) ∷ [] else r.1 ∷ (r.0 + 1) ∷ []) ++ table_ranges rest

pub declared_ranges : List (List (ℕ × ℕ)) → List ℕ
declared_ranges [] = []
declared_ranges (table ∷ rest) = table_ranges table ++ declared_ranges rest

-- What a custom function code declares for a unit and a request, where it does.
abbrev pub Declared : Type 0
Declared = ℕ → ℕ → List ℕ → Option (List (List (ℕ × ℕ)))

abbrev pub custom_ranges : Option (List (List (ℕ × ℕ))) → List ℕ
custom_ranges none = []
custom_ranges (some declared) = declared_ranges declared

-- The choice by function code. A frame with no ranges runs without the lock.
unfoldable pub locked_ranges : Declared → ℕ → Frame → List ℕ
locked_ranges declared unit frame =
    if is_write_function frame.fc
    then write_ranges frame
    else custom_ranges (declared unit frame.fc frame.payload)
