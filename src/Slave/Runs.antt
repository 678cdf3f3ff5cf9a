-- ===== src/Slave/Runs.antt =====
-- Runs of the handlers of src/slave/slave.ts, and their theorems at concrete requests.
use njs_modbus.Common.{
  ℕ, ◌+◌, ◌≤◌, ◌≡◌, ◌≢◌, refl, List, [], ◌∷◌, ◌++◌, length, drop, take, none, some, arith,
}
use njs_modbus.Tcp.{Frame}
use njs_modbus.Slave.Types.{ok, UnitModel, data_value_illegal}
use njs_modbus.Slave.Pdu.{
  pack_loop, pack_byte, pack_rem, coils_pdu, registers_loop, registers_pdu, register_values,
}
use njs_modbus.Slave.Reads.{handle_fc3}
use njs_modbus.Slave.Writes.{handle_fc16}
use njs_modbus.Slave.Dispatch.{CustomResponses, handle_fc}
use njs_modbus.Slave.Contract.{max_payload}
use njs_modbus.Slave.Fits.{handle_fc_fits, handle_fc-keeps_store}

-- A unit whose store is its holding registers.
abbrev registers_unit : UnitModel (List ℕ)
registers_unit = record {
  unit = some 1;
  read_discrete_inputs = none;
  read_coils = none;
  write_single_coil = none;
  write_multiple_coils = none;
  read_input_registers = none;
  read_holding_registers = some (λ address n store. (ok (take n (drop address store)), store));
  write_single_register = none;
  write_multiple_registers = some (λ address values store.
      (ok tt, take address store ++ values ++ drop (address + length values) store));
  mask_write_register = none;
  diagnostics_return_query_data = none;
  report_server_id = none;
  read_device_identification = none;
}

abbrev no_custom : CustomResponses (List ℕ)
no_custom = λ fc. none

abbrev store : List ℕ
store = 7 ∷ 258 ∷ 9 ∷ []

abbrev request : ℕ → List ℕ → Frame
request fc payload = record { transaction = 1; unit = 1; fc = fc; payload = payload; buffer = [] }

abbrev read_two : Frame
read_two = request 3 (0 ∷ 1 ∷ 0 ∷ 2 ∷ [])

abbrev two_registers : List ℕ
two_registers = 4 ∷ 1 ∷ 2 ∷ 0 ∷ 9 ∷ []

read_two_reply : (handle_fc registers_unit no_custom read_two store).reply ≡ ok two_registers
unfolding handle_fc handle_fc3 registers_pdu registers_loop
read_two_reply = refl

handle_fc_fits_example : length two_registers ≤ max_payload
handle_fc_fits_example =
    handle_fc_fits registers_unit no_custom read_two store two_registers refl read_two_reply

write_two :
    (handle_fc registers_unit no_custom
      (request 16 (0 ∷ 1 ∷ 0 ∷ 2 ∷ 4 ∷ 0 ∷ 5 ∷ 1 ∷ 0 ∷ []))
      store).store
    ≡ 7 ∷ 5 ∷ 256 ∷ []
unfolding handle_fc handle_fc16 register_values
write_two = refl

-- The byte count says 3 where two registers need 4.
abbrev bad_count : Frame
bad_count = request 16 (0 ∷ 1 ∷ 0 ∷ 2 ∷ 3 ∷ 0 ∷ 5 ∷ 1 ∷ 0 ∷ [])

bad_count_exception :
    (handle_fc registers_unit no_custom bad_count store).exception ≡ some data_value_illegal
unfolding handle_fc handle_fc16
bad_count_exception = refl

bad_count_refused : (handle_fc registers_unit no_custom bad_count store).exception ≢ none
bad_count_refused = rw bad_count_exception (λ e. cc)

handle_fc-keeps_store_example : (handle_fc registers_unit no_custom bad_count store).store ≡ store
handle_fc-keeps_store_example =
    handle_fc-keeps_store registers_unit no_custom bad_count store refl (omega arith)
      bad_count_refused

abbrev coils : List ℕ
coils = 1 ∷ 0 ∷ 1 ∷ 1 ∷ 0 ∷ 0 ∷ 1 ∷ 1 ∷ 0 ∷ 1 ∷ []

coils_packed : coils_pdu 10 coils ≡ 2 ∷ 0xcd ∷ 2 ∷ []
unfolding coils_pdu pack_loop pack_byte pack_rem
coils_packed = refl
