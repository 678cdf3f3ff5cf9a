-- ===== src/Master/Reads.antt =====
-- `writeFC1Or2`, `writeFC3Or4` and `readAndWriteMultipleRegisters` of src/master/master.ts. The loops
-- that pack and unpack are those of the slave, written out again in the source.
use njs_modbus.Common.{ℕ, ◌+◌, ◌*◌, ◌/◌, ◌%◌, List, ◌∷◌, ◌++◌, length}
use njs_modbus.Slave.Pdu.{unpack_loop, registers_loop, register_values}
use njs_modbus.Master.{Sent, Settled, on_sent, settle, two_words, validate_byte_count_response}

-- `bufferTx` of a read.
abbrev pub read_request : ℕ → ℕ → List ℕ
read_request address n = two_words address n

unfoldable pub read_bits_response : ℕ → ℕ → ℕ → Sent → Settled (List ℕ)
read_bits_response unit fc n = on_sent unit fc λ frame.
    settle (validate_byte_count_response frame unit fc ((n + 7) / 8))
      (unpack_loop frame.payload (n % 8) 1 (n / 8))

unfoldable pub read_registers_response : ℕ → ℕ → ℕ → Sent → Settled (List ℕ)
read_registers_response unit fc n = on_sent unit fc λ frame.
    settle (validate_byte_count_response frame unit fc (n * 2)) (register_values n frame.payload 1)

-- A store to a Buffer keeps the low eight bits, so that of the byte counts below.
unfoldable pub read_write_request : ℕ → ℕ → ℕ → List ℕ → List ℕ
read_write_request read_address read_length write_address values =
    let n = length values in
    two_words read_address read_length
    ++ two_words write_address n
    ++ n * 2 % 256 ∷ registers_loop values 0 n
