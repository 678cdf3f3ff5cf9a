-- ===== src/Slave/Dispatch.antt =====
-- `_handleFC` of src/slave/slave.ts: the choice of the handler by the function code.
use njs_modbus.Common.{ℕ, List, Option, none, some, ◌==◌, if◌then◌else◌}
use njs_modbus.Tcp.{Frame}
use njs_modbus.Slave.FunctionCode
use njs_modbus.Slave.Types.{
  illegal_function, function_illegal, Reply, UnitModel, Handled, reject, finish,
}
use njs_modbus.Slave.Reads.{handle_fc1, handle_fc2, handle_fc3, handle_fc4}
use njs_modbus.Slave.Writes.{
  handle_fc5, handle_fc6, handle_fc8_0, handle_fc15, handle_fc16, handle_fc22, handle_fc23,
}
use njs_modbus.Slave.ServerInfo.{handle_fc17}
use njs_modbus.Slave.DeviceId.{handle_fc43_14}

-- `_cfcResponses`: the user's handlers of custom function codes, on unit, code and payload.
abbrev pub CustomResponses : Type 0 → Type 0
CustomResponses S = ℕ → Option (ℕ → ℕ → List ℕ → S → Reply (List ℕ) × S)

module _ {S : Type 0} where
  unfoldable pub handle_custom : CustomResponses S → Frame → S → Handled S
  handle_custom custom frame store = elim (custom frame.fc) [
    | none ↦ reject illegal_function function_illegal store
    | some respond ↦ finish (λ pdu. pdu) (respond frame.unit frame.fc frame.payload store)
  ]

  unfoldable pub handle_fc : UnitModel S → CustomResponses S → Frame → S → Handled S
  handle_fc model custom frame store =
      let fc = frame.fc in
      let pdu = frame.payload in
      if fc == FunctionCode.read_coils
      then handle_fc1 model pdu store
      else if fc == FunctionCode.read_discrete_inputs
      then handle_fc2 model pdu store
      else if fc == FunctionCode.read_holding_registers
      then handle_fc3 model pdu store
      else if fc == FunctionCode.read_input_registers
      then handle_fc4 model pdu store
      else if fc == FunctionCode.write_single_coil
      then handle_fc5 model pdu store
      else if fc == FunctionCode.write_single_register
      then handle_fc6 model pdu store
      else if fc == FunctionCode.diagnostics
      then handle_fc8_0 model pdu store
      else if fc == FunctionCode.write_multiple_coils
      then handle_fc15 model pdu store
      else if fc == FunctionCode.write_multiple_registers
      then handle_fc16 model pdu store
      else if fc == FunctionCode.report_server_id
      then handle_fc17 model pdu store
      else if fc == FunctionCode.mask_write_register
      then handle_fc22 model pdu store
      else if fc == FunctionCode.read_write_multiple_registers
      then handle_fc23 model pdu store
      else if fc == FunctionCode.read_device_identification
      then handle_fc43_14 model pdu store
      else handle_custom custom frame store
