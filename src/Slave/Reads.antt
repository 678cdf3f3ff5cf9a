-- ===== src/Slave/Reads.antt =====
-- `_handleFC1` to `_handleFC4` of src/slave/slave.ts.
use njs_modbus.Common.{ℕ, not, ◌||◌, List, ltb, ◌==◌, if◌then◌else◌, length}
use njs_modbus.Tcp.{be16}
use njs_modbus.Slave.Types.{
  illegal_data_value, data_value_illegal, read_coils_min, read_coils_max, read_registers_min,
  read_registers_max, UnitModel, Handled, reject, finish, implemented,
}
use njs_modbus.Slave.Pdu.{coils_pdu, registers_pdu}

module _ {S : Type 0} where
  unfoldable pub handle_fc1 : UnitModel S → List ℕ → S → Handled S
  handle_fc1 model pdu store =
      let n = be16 pdu 2 in
      if not (length pdu == 4)
      then reject illegal_data_value data_value_illegal store
      else if ltb n read_coils_min || ltb read_coils_max n
      then reject illegal_data_value data_value_illegal store
      else implemented model.read_coils store
          λ read_coils. finish (coils_pdu n) (read_coils (be16 pdu 0) n store)

  unfoldable pub handle_fc2 : UnitModel S → List ℕ → S → Handled S
  handle_fc2 model pdu store =
      let n = be16 pdu 2 in
      if not (length pdu == 4)
      then reject illegal_data_value data_value_illegal store
      else if ltb n read_coils_min || ltb read_coils_max n
      then reject illegal_data_value data_value_illegal store
      else implemented model.read_discrete_inputs store
          λ read_discrete_inputs. finish (coils_pdu n) (read_discrete_inputs (be16 pdu 0) n store)

  unfoldable pub handle_fc3 : UnitModel S → List ℕ → S → Handled S
  handle_fc3 model pdu store =
      let n = be16 pdu 2 in
      if not (length pdu == 4)
      then reject illegal_data_value data_value_illegal store
      else if ltb n read_registers_min || ltb read_registers_max n
      then reject illegal_data_value data_value_illegal store
      else implemented model.read_holding_registers store λ read_holding_registers.
        finish (registers_pdu n) (read_holding_registers (be16 pdu 0) n store)

  unfoldable pub handle_fc4 : UnitModel S → List ℕ → S → Handled S
  handle_fc4 model pdu store =
      let n = be16 pdu 2 in
      if not (length pdu == 4)
      then reject illegal_data_value data_value_illegal store
      else if ltb n read_registers_min || ltb read_registers_max n
      then reject illegal_data_value data_value_illegal store
      else implemented model.read_input_registers store λ read_input_registers.
        finish (registers_pdu n) (read_input_registers (be16 pdu 0) n store)
