-- ===== src/Exchange/Registers.antt =====
-- Reading registers over Modbus TCP: the methods of FC 3 and 4 of src/master/master.ts against the
-- handlers of src/slave/slave.ts.
use njs_modbus.Common.{
  ℕ, suc, ◌+◌, ◌*◌, ◌%◌, ◌≤◌, ◌<◌, ◌≡◌, refl, ◌∙◌, arith, false, List, [], ◌∷◌, some, length, ◌==◌,
  eq→==, ge→ltb, bit_or, tabulate, eq-tabulate,
}
use njs_modbus.Tcp.{Frame, byte_at}
use njs_modbus.Tcp.RoundTrip.{frame_of_adu}
use njs_modbus.Slave.Types.{Reply, ok, UnitModel, finish}
use njs_modbus.Slave.Pdu.{registers_pdu, register_values}
use njs_modbus.Slave.RoundTrip.{
  length-registers_pdu, registers_pdu-value, length-register_values, register_values-value,
}
use njs_modbus.Slave.Reads.{handle_fc3, handle_fc4}
use njs_modbus.Slave.Dispatch.{handle_fc}
use njs_modbus.Slave.Execute.{Slave}
use njs_modbus.Master.{got, resolved, validate_byte_count_response}
use njs_modbus.Master.Reads.{read_request, read_registers_response}
use njs_modbus.Exchange.{ask}
use njs_modbus.Exchange.Reach.{Reaches, ask_answered, be16-word, validate_same, no_exception}

-- The low 16 bits of the first `n` registers, 0 for one that is missing.
abbrev pub words : ℕ → List ℕ → List ℕ
words n registers = tabulate n (λ i. byte_at registers i % 65536)

pub register_values-words :
    (n : ℕ) (registers : List ℕ)
    → register_values n (registers_pdu n registers) 1 ≡ words n registers
register_values-words n registers =
    let pdu = registers_pdu n registers in
    eq-tabulate (register_values n pdu 1) n (λ i. byte_at registers i % 65536) 0
      (length-register_values n pdu 1)
      (λ i h.
        let place : 1 + i * 2 ≡ suc (i * 2) = omega arith in
        register_values-value n pdu 1 i h ∙ rw place (registers_pdu-value n registers i h))

count-registers_pdu : (n : ℕ) (registers : List ℕ) → byte_at (registers_pdu n registers) 0 ≡ n * 2
unfolding registers_pdu
count-registers_pdu n registers = refl

-- The master reads a whole response.
pub read_registers-pdu :
    (f : Frame) (n : ℕ) (registers : List ℕ)
    → (f.fc == bit_or f.fc 0x80) ≡ false
    → f.payload ≡ registers_pdu n registers
    → read_registers_response f.unit f.fc n (got f) ≡ resolved (words n registers)
unfolding read_registers_response validate_byte_count_response
read_registers-pdu f n registers normal e =
    let size = length-registers_pdu n registers in
    rw
      (
        no_exception f normal,
        validate_same f,
        e,
        ge→ltb (length (registers_pdu n registers)) (1 + n * 2) (omega (arith, size)),
        eq→== (length (registers_pdu n registers)) (1 + n * 2) size,
        eq→== (byte_at (registers_pdu n registers) 0) (n * 2) (count-registers_pdu n registers),
        register_values-words n registers,
      )
      refl

module _ {S : Type 0} where
  fc3_answers :
      (model : UnitModel S) (address n : ℕ) (store : S) (r : Reply (List ℕ) × S)
      (read : ℕ → ℕ → S → Reply (List ℕ) × S)
      → model.read_holding_registers ≡ some read
      → address < 65536
      → 1 ≤ n
      → n ≤ 125
      → read address n store ≡ r
      → handle_fc3 model (read_request address n) store ≡ finish (registers_pdu n) r
  unfolding handle_fc3
  fc3_answers model address n store r read m a lo hi e =
      rw (be16-word n (omega arith), be16-word address a, ge→ltb n 1 lo, ge→ltb 125 n hi, m, e) refl

  fc4_answers :
      (model : UnitModel S) (address n : ℕ) (store : S) (r : Reply (List ℕ) × S)
      (read : ℕ → ℕ → S → Reply (List ℕ) × S)
      → model.read_input_registers ≡ some read
      → address < 65536
      → 1 ≤ n
      → n ≤ 125
      → read address n store ≡ r
      → handle_fc4 model (read_request address n) store ≡ finish (registers_pdu n) r
  unfolding handle_fc4
  fc4_answers model address n store r read m a lo hi e =
      rw (be16-word n (omega arith), be16-word address a, ge→ltb n 1 lo, ge→ltb 125 n hi, m, e) refl

  pub ask_registers :
      {slave : Slave S} {model : UnitModel S} {transaction unit : ℕ} (fc n : ℕ) (payload : List ℕ)
      (store store' : S) (registers : List ℕ)
      → Reaches slave model transaction unit fc
      → fc < 256
      → (fc == bit_or fc 0x80) ≡ false
      → length payload ≤ 252
      → handle_fc model slave.custom
          (frame_of_adu
            (record { transaction = transaction; unit = unit; fc = fc; payload = payload }))
          store
        ≡ finish (registers_pdu n) (ok registers, store')
      → ask slave transaction unit fc payload (read_registers_response unit fc n) store
        ≡ (resolved (words n registers) ∷ [], store')
  ask_registers {slave} {model} {transaction} {unit} fc n payload store store' registers r small
        normal p e =
      let h = finish (registers_pdu n) (ok registers, store') in
      let f = frame_of_adu (record {
        transaction = transaction;
        unit = unit;
        fc = fc;
        payload = registers_pdu n registers;
      }) in
      rw
        (
          ask_answered payload (read_registers_response unit fc n) store h r small p e,
          read_registers-pdu f n registers normal refl,
        )
        refl

  -- Reading holding registers, end to end: for a request of 1 to 125 registers at a 16-bit address
  -- that reaches a unit, where the unit's handler answers `registers`, the master resolves to the low 16 bits of the
  -- first registers, as many as were asked for, and the slave has the handler's store.
  pub ask_fc3 :
      {slave : Slave S} {model : UnitModel S} {transaction unit : ℕ} (address n : ℕ)
      (store store' : S) (registers : List ℕ) (read : ℕ → ℕ → S → Reply (List ℕ) × S)
      → Reaches slave model transaction unit 3
      → model.read_holding_registers ≡ some read
      → address < 65536
      → 1 ≤ n
      → n ≤ 125
      → read address n store ≡ (ok registers, store')
      → ask slave transaction unit 3
          (read_request address n)
          (read_registers_response unit 3 n)
          store
        ≡ (resolved (words n registers) ∷ [], store')
  unfolding handle_fc
  ask_fc3 {slave} {model} address n store store' registers read r m a lo hi e =
      ask_registers 3 n (read_request address n) store store' registers r (omega arith) refl
        (omega arith) (fc3_answers model address n store (ok registers, store') read m a lo hi e)

  -- The same for input registers.
  pub ask_fc4 :
      {slave : Slave S} {model : UnitModel S} {transaction unit : ℕ} (address n : ℕ)
      (store store' : S) (registers : List ℕ) (read : ℕ → ℕ → S → Reply (List ℕ) × S)
      → Reaches slave model transaction unit 4
      → model.read_input_registers ≡ some read
      → address < 65536
      → 1 ≤ n
      → n ≤ 125
      → read address n store ≡ (ok registers, store')
      → ask slave transaction unit 4
          (read_request address n)
          (read_registers_response unit 4 n)
          store
        ≡ (resolved (words n registers) ∷ [], store')
  unfolding handle_fc
  ask_fc4 {slave} {model} address n store store' registers read r m a lo hi e =
      ask_registers 4 n (read_request address n) store store' registers r (omega arith) refl
        (omega arith) (fc4_answers model address n store (ok registers, store') read m a lo hi e)
