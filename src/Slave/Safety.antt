-- ===== src/Slave/Safety.antt =====
-- The handlers of src/slave/slave.ts, but for the one of FC 43, against the contract.
use njs_modbus.Common.{
  ℕ, ◌+◌, ◌*◌, ◌/◌, ◌≡◌, inl, refl, true, not, ◌||◌, ◌&&◌, List, [], ◌∷◌, length, Option, none,
  arith, if◌then◌else◌, ltb, leb, ◌==◌, length-append,
}
use njs_modbus.Tcp.{byte_at, be16}
use njs_modbus.Slave.Types.{Reply, refused, ok, UnitModel, Handled, ServerId, finish}
use njs_modbus.Slave.Pdu.{registers_pdu, register_values}
use njs_modbus.Slave.Reads.{handle_fc1, handle_fc2, handle_fc3, handle_fc4}
use njs_modbus.Slave.Writes.{
  handle_fc5, handle_fc6, handle_fc8_0, handle_fc15, handle_fc16, handle_fc22, handle_fc23,
  write_then,
}
use njs_modbus.Slave.ServerInfo.{get_default, server_id_bytes, server_id_pdu, and_then, handle_fc17}
use njs_modbus.Slave.Contract.{
  IsShort, IsSafe, answer-IsShort, finish-IsSafe, guarded-IsSafe, implemented-IsSafe, coils_short,
  registers_short, echo_short,
}

server_id-IsShort :
    (unit : Option ℕ) (r : Reply ServerId) → IsShort (and_then r (server_id_pdu unit))
unfolding server_id_pdu
server_id-IsShort unit (refused code) = tt
server_id-IsShort unit (ok r) = ground (
  arith,
  length-append (server_id_bytes r.server_id unit) (
      (if get_default true r.run_indicator_status then 0xff else 0x00)
      ∷ get_default [] r.additional_data),
)

module _ {S : Type 0} where
  pub fc1-IsSafe :
      (model : UnitModel S) (pdu : List ℕ) (store : S) → IsSafe store (handle_fc1 model pdu store)
  unfolding handle_fc1
  fc1-IsSafe model pdu store =
      let n = be16 pdu 2 in
      guarded-IsSafe (not (length pdu == 4)) _ _ store _ λ size.
        guarded-IsSafe (ltb n 1 || ltb 2000 n) _ _ store _ λ range.
          implemented-IsSafe model.read_coils store _
            λ f. finish-IsSafe _ _ store λ a. coils_short n a (ground arith)

  pub fc2-IsSafe :
      (model : UnitModel S) (pdu : List ℕ) (store : S) → IsSafe store (handle_fc2 model pdu store)
  unfolding handle_fc2
  fc2-IsSafe model pdu store =
      let n = be16 pdu 2 in
      guarded-IsSafe (not (length pdu == 4)) _ _ store _ λ size.
        guarded-IsSafe (ltb n 1 || ltb 2000 n) _ _ store _ λ range.
          implemented-IsSafe model.read_discrete_inputs store _
            λ f. finish-IsSafe _ _ store λ a. coils_short n a (ground arith)

  pub fc3-IsSafe :
      (model : UnitModel S) (pdu : List ℕ) (store : S) → IsSafe store (handle_fc3 model pdu store)
  unfolding handle_fc3
  fc3-IsSafe model pdu store =
      let n = be16 pdu 2 in
      guarded-IsSafe (not (length pdu == 4)) _ _ store _ λ size.
        guarded-IsSafe (ltb n 1 || ltb 125 n) _ _ store _ λ range.
          implemented-IsSafe model.read_holding_registers store _
            λ f. finish-IsSafe _ _ store λ a. registers_short n a (ground arith)

  pub fc4-IsSafe :
      (model : UnitModel S) (pdu : List ℕ) (store : S) → IsSafe store (handle_fc4 model pdu store)
  unfolding handle_fc4
  fc4-IsSafe model pdu store =
      let n = be16 pdu 2 in
      guarded-IsSafe (not (length pdu == 4)) _ _ store _ λ size.
        guarded-IsSafe (ltb n 1 || ltb 125 n) _ _ store _ λ range.
          implemented-IsSafe model.read_input_registers store _
            λ f. finish-IsSafe _ _ store λ a. registers_short n a (ground arith)

  pub fc5-IsSafe :
      (model : UnitModel S) (pdu : List ℕ) (store : S) → IsSafe store (handle_fc5 model pdu store)
  unfolding handle_fc5
  fc5-IsSafe model pdu store = guarded-IsSafe (not (length pdu == 4)) _ _ store _ λ size.
      guarded-IsSafe (not (be16 pdu 2 == 0x0000) && not (be16 pdu 2 == 0xff00)) _ _ store _ λ value.
        implemented-IsSafe model.write_single_coil store _
          λ f. finish-IsSafe _ _ store λ _. ground arith

  pub fc6-IsSafe :
      (model : UnitModel S) (pdu : List ℕ) (store : S) → IsSafe store (handle_fc6 model pdu store)
  unfolding handle_fc6
  fc6-IsSafe model pdu store = guarded-IsSafe (not (length pdu == 4)) _ _ store _ λ size.
      implemented-IsSafe model.write_single_register store _
        λ f. finish-IsSafe _ _ store λ _. ground arith

  pub fc8_0-IsSafe :
      (model : UnitModel S) (pdu : List ℕ) (store : S) → IsSafe store (handle_fc8_0 model pdu store)
  unfolding handle_fc8_0
  fc8_0-IsSafe model pdu store = guarded-IsSafe (not (length pdu == 4)) _ _ store _ λ size.
      guarded-IsSafe (not (be16 pdu 0 == 0)) _ _ store _ λ sub_function.
        implemented-IsSafe model.diagnostics_return_query_data store _
          λ f. finish-IsSafe _ _ store λ _. ground arith

  pub fc15-IsSafe :
      (model : UnitModel S) (pdu : List ℕ) (store : S) → IsSafe store (handle_fc15 model pdu store)
  unfolding handle_fc15
  fc15-IsSafe model pdu store =
      guarded-IsSafe (leb (length pdu) 5 || not (length pdu == 5 + byte_at pdu 4)) _ _ store _
        λ size.
          guarded-IsSafe
            (ltb (be16 pdu 2) 1
              || ltb 1968 (be16 pdu 2)
              || not (byte_at pdu 4 == (be16 pdu 2 + 7) / 8))
            _ _ store _
            λ range.
              implemented-IsSafe model.write_multiple_coils store _
                λ f. finish-IsSafe _ _ store λ _. echo_short pdu

  pub fc16-IsSafe :
      (model : UnitModel S) (pdu : List ℕ) (store : S) → IsSafe store (handle_fc16 model pdu store)
  unfolding handle_fc16
  fc16-IsSafe model pdu store =
      guarded-IsSafe (leb (length pdu) 5 || not (length pdu == 5 + byte_at pdu 4)) _ _ store _
        λ size.
          guarded-IsSafe
            (ltb (be16 pdu 2) 1 || ltb 123 (be16 pdu 2) || not (byte_at pdu 4 == be16 pdu 2 * 2)) _
            _ store _
            λ range.
              implemented-IsSafe model.write_multiple_registers store _
                λ f. finish-IsSafe _ _ store λ _. echo_short pdu

  pub fc22-IsSafe :
      (model : UnitModel S) (pdu : List ℕ) (store : S) → IsSafe store (handle_fc22 model pdu store)
  unfolding handle_fc22
  fc22-IsSafe model pdu store = guarded-IsSafe (not (length pdu == 6)) _ _ store _ λ size.
      implemented-IsSafe model.mask_write_register store _
        λ f. finish-IsSafe _ _ store λ _. ground arith

  write_then-IsSafe :
      (r : Reply (Unit {0}) × S) (store : S) (do_read : S → Handled S)
      → ((s : S) → IsShort (do_read s).reply × ((do_read s).exception ≡ none))
      → IsSafe store (write_then r do_read)
  write_then-IsSafe (refused code, s) store do_read h = record { short = tt; kept = inl refl }
  write_then-IsSafe (ok u, s) store do_read h = record { short = (h s).0; kept = inl (h s).1 }

  pub fc23-IsSafe :
      (model : UnitModel S) (pdu : List ℕ) (store : S) → IsSafe store (handle_fc23 model pdu store)
  unfolding handle_fc23
  fc23-IsSafe model pdu store =
      let read_length = be16 pdu 2 in
      let write_length = be16 pdu 6 in
      guarded-IsSafe (leb (length pdu) 9 || not (length pdu == 9 + byte_at pdu 8)) _ _ store _
        λ size.
          guarded-IsSafe
            (ltb read_length 1
              || ltb 125 read_length
              || ltb write_length 1
              || ltb 121 write_length
              || not (byte_at pdu 8 == write_length * 2))
            _ _ store _
            λ range. implemented-IsSafe model.read_holding_registers store _ λ read.
              implemented-IsSafe model.write_multiple_registers store _ λ write.
                let written = write (be16 pdu 4) (register_values write_length pdu 9) store in
                let read_at = λ (s : S). read (be16 pdu 0) read_length s in
                write_then-IsSafe written store
                  (λ s. finish (registers_pdu read_length) (read_at s))
                  λ s. (
                    answer-IsShort (registers_pdu read_length) (read_at s).0
                        λ a. registers_short read_length a (ground arith),
                    refl,
                  )

  pub fc17-IsSafe :
      (model : UnitModel S) (pdu : List ℕ) (store : S) → IsSafe store (handle_fc17 model pdu store)
  unfolding handle_fc17
  fc17-IsSafe model pdu store = guarded-IsSafe (not (length pdu == 0)) _ _ store _ λ size.
      implemented-IsSafe model.report_server_id store _
        λ f. record { short = server_id-IsShort model.unit (f store).0; kept = inl refl }
