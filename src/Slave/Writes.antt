-- ===== src/Slave/Writes.antt =====
-- `_handleFC5`, `_handleFC6`, `_handleFC8_0`, `_handleFC15`, `_handleFC16`, `_handleFC22` and
-- `_handleFC23` of src/slave/slave.ts.
use njs_modbus.Common.{
  ℕ, ◌+◌, ◌*◌, ◌/◌, not, ◌||◌, ◌&&◌, List, ltb, leb, ◌==◌, if◌then◌else◌, length, take, none,
}
use njs_modbus.Tcp.{byte_at, be16}
use njs_modbus.Slave.Types.{
  illegal_data_value, data_value_illegal, read_coils_min, read_registers_min, read_registers_max,
  write_coils_max, write_registers_max, rw_registers_write_max, coil_on, coil_off,
  diagnostics_return_query_data, UnitModel, Handled, Reply, refused, ok, reject, finish,
  implemented,
}
use njs_modbus.Slave.Pdu.{coil_values, register_values, registers_pdu}

module _ {S : Type 0} where
  unfoldable pub handle_fc5 : UnitModel S → List ℕ → S → Handled S
  handle_fc5 model pdu store =
      let value = be16 pdu 2 in
      if not (length pdu == 4)
      then reject illegal_data_value data_value_illegal store
      else if not (value == coil_off) && not (value == coil_on)
      then reject illegal_data_value data_value_illegal store
      else implemented model.write_single_coil store λ write_single_coil.
        finish (λ _. pdu) (write_single_coil (be16 pdu 0) (if value == coil_on then 1 else 0) store)

  unfoldable pub handle_fc6 : UnitModel S → List ℕ → S → Handled S
  handle_fc6 model pdu store =
      if not (length pdu == 4)
      then reject illegal_data_value data_value_illegal store
      else implemented model.write_single_register store λ write_single_register.
        finish (λ _. pdu) (write_single_register (be16 pdu 0) (be16 pdu 2) store)

  unfoldable pub handle_fc8_0 : UnitModel S → List ℕ → S → Handled S
  handle_fc8_0 model pdu store =
      if not (length pdu == 4)
      then reject illegal_data_value data_value_illegal store
      else if not (be16 pdu 0 == diagnostics_return_query_data)
      then reject illegal_data_value data_value_illegal store
      else implemented model.diagnostics_return_query_data store
          λ handler. finish (λ _. pdu) (handler (be16 pdu 2) store)

  unfoldable pub handle_fc15 : UnitModel S → List ℕ → S → Handled S
  handle_fc15 model pdu store =
      let n = be16 pdu 2 in
      let byte_count = byte_at pdu 4 in
      if leb (length pdu) 5 || not (length pdu == 5 + byte_at pdu 4)
      then reject illegal_data_value data_value_illegal store
      else if ltb n read_coils_min || ltb write_coils_max n || not (byte_count == (n + 7) / 8)
      then reject illegal_data_value data_value_illegal store
      else implemented model.write_multiple_coils store λ write_multiple_coils.
        finish (λ _. take 4 pdu) (write_multiple_coils (be16 pdu 0) (coil_values n pdu) store)

  unfoldable pub handle_fc16 : UnitModel S → List ℕ → S → Handled S
  handle_fc16 model pdu store =
      let n = be16 pdu 2 in
      let byte_count = byte_at pdu 4 in
      if leb (length pdu) 5 || not (length pdu == 5 + byte_at pdu 4)
      then reject illegal_data_value data_value_illegal store
      else if ltb n read_registers_min || ltb write_registers_max n || not (byte_count == n * 2)
      then reject illegal_data_value data_value_illegal store
      else implemented model.write_multiple_registers store λ write_multiple_registers.
        finish (λ _. take 4 pdu)
          (write_multiple_registers (be16 pdu 0) (register_values n pdu 5) store)

  unfoldable pub handle_fc22 : UnitModel S → List ℕ → S → Handled S
  handle_fc22 model pdu store =
      if not (length pdu == 6)
      then reject illegal_data_value data_value_illegal store
      else implemented model.mask_write_register store λ mask_write_register.
        finish (λ _. pdu) (mask_write_register (be16 pdu 0) (be16 pdu 2) (be16 pdu 4) store)

  -- `doRead` runs after a successful write, on the store that the write left.
  abbrev pub write_then : Reply (Unit {0}) × S → (S → Handled S) → Handled S
  write_then r do_read = elim r.0 [
    | refused code ↦ record { reply = refused code; exception = none; store = r.1 }
    | ok _ ↦ do_read r.1
  ]

  unfoldable pub handle_fc23 : UnitModel S → List ℕ → S → Handled S
  handle_fc23 model pdu store =
      let read_length = be16 pdu 2 in
      let write_length = be16 pdu 6 in
      let byte_count = byte_at pdu 8 in
      if leb (length pdu) 9 || not (length pdu == 9 + byte_at pdu 8)
      then reject illegal_data_value data_value_illegal store
      else if ltb read_length read_registers_min
          || ltb read_registers_max read_length
          || ltb write_length read_registers_min
          || ltb rw_registers_write_max write_length
          || not (byte_count == write_length * 2)
      then reject illegal_data_value data_value_illegal store
      else implemented model.read_holding_registers store λ read_holding_registers.
        implemented model.write_multiple_registers store λ write_multiple_registers.
          write_then
            (write_multiple_registers (be16 pdu 4) (register_values write_length pdu 9) store)
            λ written.
              finish (registers_pdu read_length)
                (read_holding_registers (be16 pdu 0) read_length written)
