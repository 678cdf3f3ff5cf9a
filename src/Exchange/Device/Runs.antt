-- ===== src/Exchange/Device/Runs.antt =====
-- Device identifications at concrete texts.
use njs_modbus.Common.{ℕ, List, [], ◌∷◌, Option, none, some}
use njs_modbus.Tcp.{Frame}
use njs_modbus.Slave.Types.{ok, UnitModel}
use njs_modbus.Slave.DeviceId.{Objects, put}

abbrev a_unit : List (Option ℕ × List ℕ) → UnitModel ℕ
a_unit given = record {
  unit = some 1;
  read_discrete_inputs = none;
  read_coils = none;
  write_single_coil = none;
  write_multiple_coils = none;
  read_input_registers = none;
  read_holding_registers = none;
  write_single_register = none;
  write_multiple_registers = none;
  mask_write_register = none;
  diagnostics_return_query_data = none;
  report_server_id = none;
  read_device_identification = some (λ store. (ok given, store));
}

abbrev a_frame : List ℕ → Frame
a_frame payload = record { transaction = 7; unit = 1; fc = 0x2b; payload = payload; buffer = [] }

-- Two texts; the third mandatory object is missing.
abbrev two_texts : List (Option ℕ × List ℕ)
two_texts = (some 0, 65 ∷ 66 ∷ []) ∷ (some 1, 67 ∷ 68 ∷ 69 ∷ []) ∷ []

abbrev two_objects : Objects
two_objects = put (put (λ _. none) 0 (65 ∷ 66 ∷ [])) 1 (67 ∷ 68 ∷ 69 ∷ [])

abbrev basic : Frame
basic = a_frame (
    14 ∷ 1 ∷ 129 ∷ 0 ∷ 0 ∷ 3 ∷ 0 ∷ 2 ∷ 65 ∷ 66 ∷ 1 ∷ 3 ∷ 67 ∷ 68 ∷ 69 ∷ 2 ∷ 4 ∷ 110 ∷ 117 ∷ 108
    ∷ 108 ∷ [])

-- One text, of one byte.
abbrev one_text : List (Option ℕ × List ℕ)
one_text = (some 1, 67 ∷ []) ∷ []

abbrev specific : Frame
specific = a_frame (14 ∷ 4 ∷ 129 ∷ 0 ∷ 0 ∷ 1 ∷ 1 ∷ 1 ∷ 67 ∷ [])
