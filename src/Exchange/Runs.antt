-- ===== src/Exchange/Runs.antt =====
-- Exchanges over Modbus TCP at concrete requests, with src/master/master.ts on one side and
-- src/slave/slave.ts on the other.
use njs_modbus.Common.{
  ℕ, ◌+◌, ◌≡◌, refl, arith, List, [], ◌∷◌, ◌++◌, length, drop, take, none, some,
}
use njs_modbus.Tcp.{Frame, frame}
use njs_modbus.Tcp.RoundTrip.{Adu, Fits, frame_of_adu}
use njs_modbus.Slave.Types.{Reply, ok, refused, UnitModel, illegal_data_value}
use njs_modbus.Slave.Dispatch.{handle_fc}
use njs_modbus.Slave.Reads.{handle_fc3}
use njs_modbus.Slave.Execute.{Slave, find_unit, process_frame}
use njs_modbus.Slave.Execute.Finish.{finishes, process_frame-finishes}
use njs_modbus.Slave.Execute.Silent.{Silent, process_frame-Silent}
use njs_modbus.Master.{Settled, resolved, rejected, modbus_error, on_sent}
use njs_modbus.Master.Reads.{
  read_request, read_registers_response, read_bits_response, read_write_request,
}
use njs_modbus.Master.Writes.{coils_request, head_response}
use njs_modbus.Exchange.{exchange, ask}
use njs_modbus.Exchange.Answers.{answer_adu, exchange_answered}
use njs_modbus.Exchange.Reach.{Reaches, ask_refused}
use njs_modbus.Exchange.Registers.{words, ask_fc3}
use njs_modbus.Exchange.ReadWrite.{ask_fc23}
use njs_modbus.Exchange.Coils.{bits, ask_fc1, ask_fc15}

abbrev read_store : ℕ → ℕ → List ℕ → Reply (List ℕ) × List ℕ
read_store address n store = (ok (take n (drop address store)), store)

abbrev write_store : ℕ → List ℕ → List ℕ → Reply (Unit {0}) × List ℕ
write_store address values store =
    (ok tt, take address store ++ values ++ drop (address + length values) store)

-- A unit whose store is its registers, and its coils.
abbrev the_unit : UnitModel (List ℕ)
the_unit = record {
  unit = some 1;
  read_discrete_inputs = none;
  read_coils = some read_store;
  write_single_coil = none;
  write_multiple_coils = some write_store;
  read_input_registers = none;
  read_holding_registers = some read_store;
  write_single_register = none;
  write_multiple_registers = some write_store;
  mask_write_register = none;
  diagnostics_return_query_data = none;
  report_server_id = none;
  read_device_identification = none;
}

abbrev the_slave : Slave (List ℕ)
the_slave = record { units = (1, the_unit) ∷ (2, the_unit) ∷ []; custom = λ fc. none; check = none }

found : find_unit 1 the_slave.units ≡ some the_unit
unfolding find_unit
found = refl

reaches : (fc : ℕ) → Reaches the_slave the_unit 7 1 fc
reaches fc = record {
  check = refl;
  found = found;
  standard = refl;
  one_unit = omega arith;
  transaction_fits = omega arith;
  unit_fits = omega arith;
}

abbrev store : List ℕ
store = 7 ∷ 258 ∷ 65537 ∷ []

process_frame-finishes_example :
    finishes
      (process_frame the_slave
        (frame_of_adu (record { transaction = 7; unit = 0; fc = 6; payload = 0 ∷ 1 ∷ 0 ∷ 5 ∷ [] }))
        store).0
    ≡ 1
process_frame-finishes_example =
    process_frame-finishes the_slave
      (frame_of_adu (record { transaction = 7; unit = 0; fc = 6; payload = 0 ∷ 1 ∷ 0 ∷ 5 ∷ [] }))
      store

process_frame-Silent_example :
    Silent
      (process_frame the_slave
        (frame_of_adu (record { transaction = 7; unit = 0; fc = 3; payload = 0 ∷ 1 ∷ 0 ∷ 2 ∷ [] }))
        store).0
process_frame-Silent_example =
    process_frame-Silent the_slave
      (frame_of_adu (record { transaction = 7; unit = 0; fc = 3; payload = 0 ∷ 1 ∷ 0 ∷ 2 ∷ [] }))
      store refl

-- A read of two registers, byte by byte.
abbrev read_two : Adu
read_two = record { transaction = 7; unit = 1; fc = 3; payload = 0 ∷ 1 ∷ 0 ∷ 2 ∷ [] }

read_two-Fits : Fits read_two
read_two-Fits = record {
  transaction = omega arith;
  unit = omega arith;
  fc = omega arith;
  payload = omega arith;
}

exchange_answered_example :
    let handled = handle_fc the_unit the_slave.custom (frame_of_adu read_two) store in
    exchange the_slave 7 1 3 (0 ∷ 1 ∷ 0 ∷ 2 ∷ []) store
    ≡ (frame (frame_of_adu (answer_adu 7 1 3 handled.reply)) ∷ [], handled.store)
exchange_answered_example =
    exchange_answered the_slave the_unit read_two store refl found refl (omega arith) read_two-Fits

-- A read of no register is refused.
refusal :
    let handled =
      handle_fc the_unit the_slave.custom
        (frame_of_adu (record { transaction = 7; unit = 1; fc = 3; payload = 0 ∷ 1 ∷ 0 ∷ 0 ∷ [] }))
        store in
    (handled.reply ≡ refused illegal_data_value) × (handled.store ≡ store)
unfolding handle_fc handle_fc3
refusal = (refl, refl)

abbrev no_reading : Frame → Settled (List ℕ)
no_reading f = resolved f.payload

ask_refused_example :
    ask the_slave 7 1 3 (0 ∷ 1 ∷ 0 ∷ 0 ∷ []) (on_sent 1 3 no_reading) store
    ≡ (rejected (modbus_error 3) ∷ [], store)
ask_refused_example =
    ask_refused (0 ∷ 1 ∷ 0 ∷ 0 ∷ []) no_reading store store illegal_data_value (reaches 3)
      (omega arith) (omega arith) refusal.0 refusal.1

ask_fc3_example :
    ask the_slave 7 1 3 (read_request 1 2) (read_registers_response 1 3 2) store
    ≡ (resolved (words 2 (258 ∷ 65537 ∷ [])) ∷ [], store)
ask_fc3_example =
    ask_fc3 1 2 store store (258 ∷ 65537 ∷ []) read_store (reaches 3) refl (omega arith)
      (omega arith) (omega arith) refl

words_low : words 2 (258 ∷ 65537 ∷ []) ≡ 258 ∷ 1 ∷ []
words_low = refl

ask_fc23_example :
    ask the_slave 7 1 23 (read_write_request 0 2 1 (9 ∷ [])) (read_registers_response 1 23 2) store
    ≡ (resolved (words 2 (7 ∷ 9 ∷ [])) ∷ [], 7 ∷ 9 ∷ 65537 ∷ [])
ask_fc23_example =
    ask_fc23 0 2 1 (9 ∷ []) store (7 ∷ 9 ∷ 65537 ∷ []) (7 ∷ 9 ∷ 65537 ∷ []) (7 ∷ 9 ∷ []) read_store
      write_store (reaches 23) refl refl (omega arith) (omega arith) (omega arith) (omega arith)
      (omega arith) (omega arith) refl refl

abbrev two_values : List ℕ
two_values = 5 ∷ 6 ∷ []

ask_fc1_example :
    ask the_slave 7 1 1 (read_request 0 2) (read_bits_response 1 1 2) store
    ≡ (resolved (bits 2 (7 ∷ 258 ∷ [])) ∷ [], store)
ask_fc1_example =
    ask_fc1 0 2 store store (7 ∷ 258 ∷ []) read_store (reaches 1) refl (omega arith) (omega arith)
      (omega arith) refl

abbrev two_coils : List ℕ
two_coils = 1 ∷ 0 ∷ []

ask_fc15_example :
    let payload = coils_request 1 two_coils in
    ask the_slave 7 1 15 payload (head_response 1 15 payload two_coils) store
    ≡ (resolved two_coils ∷ [], 7 ∷ 1 ∷ 0 ∷ [])
ask_fc15_example =
    ask_fc15 1 two_coils store (7 ∷ 1 ∷ 0 ∷ []) write_store (reaches 15) refl (omega arith)
      (omega arith) (omega arith) refl
