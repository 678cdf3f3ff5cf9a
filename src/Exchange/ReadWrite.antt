-- ===== src/Exchange/ReadWrite.antt =====
-- `readAndWriteMultipleRegisters` of src/master/master.ts over Modbus TCP, against `_handleFC23` of
-- src/slave/slave.ts.
use njs_modbus.Common.{
  ℕ, suc, ◌+◌, ◌*◌, ◌%◌, ◌≤◌, ◌<◌, ◌≡◌, refl, ap, ◌∙◌, arith, List, [], ◌∷◌, some, length, eq→==,
  ge→ltb, lt→leb_false, eq-tabulate,
}
use njs_modbus.Tcp.{byte_at, be16}
use njs_modbus.Slave.Types.{Reply, ok, UnitModel, finish}
use njs_modbus.Slave.Pdu.{registers_pdu, register_values}
use njs_modbus.Slave.RoundTrip.{
  length-register_values, register_values-value, registers_loop-value, length-registers_loop,
}
use njs_modbus.Slave.Writes.{handle_fc23}
use njs_modbus.Slave.Dispatch.{handle_fc}
use njs_modbus.Slave.Execute.{Slave}
use njs_modbus.Master.{resolved}
use njs_modbus.Master.Reads.{read_write_request, read_registers_response}
use njs_modbus.Exchange.{ask}
use njs_modbus.Exchange.Reach.{Reaches, be16-word}
use njs_modbus.Exchange.Registers.{words, ask_registers}

length-request :
    (ra n wa : ℕ) (values : List ℕ)
    → length (read_write_request ra n wa values) ≡ 9 + length values * 2
unfolding read_write_request
length-request ra n wa values = omega (arith, length-registers_loop values 0 (length values))

-- The fields that the slave reads.
fields :
    (ra n wa : ℕ) (values : List ℕ)
    → ra < 65536
    → n < 65536
    → wa < 65536
    → length values ≤ 121
    → let pdu = read_write_request ra n wa values in
      (be16 pdu 0 ≡ ra)
      × (be16 pdu 2 ≡ n)
      × (be16 pdu 4 ≡ wa)
      × (be16 pdu 6 ≡ length values)
      × (byte_at pdu 8 ≡ length values * 2)
unfolding read_write_request
fields ra n wa values a b c d = (
  be16-word ra a,
  be16-word n b,
  be16-word wa c,
  be16-word (length values) (omega arith),
  omega arith,
)

values_read :
    (ra n wa : ℕ) (values : List ℕ)
    → register_values (length values) (read_write_request ra n wa values) 9
      ≡ words (length values) values
unfolding read_write_request
values_read ra n wa values =
    let k = length values in
    eq-tabulate (register_values k (read_write_request ra n wa values) 9) k
      (λ i. byte_at values i % 65536) 0 (length-register_values k _ 9)
      (λ i h.
        let place : 9 + i * 2 ≡ suc (suc (suc (suc (suc (suc (suc (suc (suc (i * 2))))))))) =
          omega arith in
        let next : suc (suc (suc (suc (suc (suc (suc (suc (suc (i * 2))))))))) + 1
            ≡ suc (suc (suc (suc (suc (suc (suc (suc (suc (i * 2 + 1))))))))) =
          omega arith in
        let same : 0 + i ≡ i = omega arith in
        register_values-value k _ 9 i h
        ∙ rw (place, next)
            (registers_loop-value values 0 k i h ∙ ap (λ (j : ℕ). byte_at values j % 65536) same))

module _ {S : Type 0} where
  fc23_answers :
      (model : UnitModel S) (ra n wa : ℕ) (values : List ℕ) (store store' : S)
      (r : Reply (List ℕ) × S) (read : ℕ → ℕ → S → Reply (List ℕ) × S)
      (write : ℕ → List ℕ → S → Reply (Unit {0}) × S)
      → model.read_holding_registers ≡ some read
      → model.write_multiple_registers ≡ some write
      → ra < 65536
      → wa < 65536
      → 1 ≤ n
      → n ≤ 125
      → 1 ≤ length values
      → length values ≤ 121
      → write wa (words (length values) values) store ≡ (ok tt, store')
      → read ra n store' ≡ r
      → handle_fc23 model (read_write_request ra n wa values) store ≡ finish (registers_pdu n) r
  unfolding handle_fc23
  fc23_answers model ra n wa values store store' r read write m m' a b lo hi lo' hi' w e =
      let (at0, at2, at4, at6, at8) = fields ra n wa values a (omega arith) b hi' in
      let k = length values in
      rw
        (
          length-request ra n wa values,
          at0,
          at2,
          at4,
          at6,
          at8,
          lt→leb_false (9 + k * 2) 9 (omega arith),
          eq→== (9 + k * 2) (9 + k * 2) refl,
          ge→ltb n 1 lo,
          ge→ltb 125 n hi,
          ge→ltb k 1 lo',
          ge→ltb 121 k hi',
          eq→== (k * 2) (k * 2) refl,
          m,
          m',
          values_read ra n wa values,
          w,
          e,
        )
        refl

  -- Writing and reading in one request, end to end: the unit's write handler gets the low 16 bits of
  -- the values, the read handler runs on the store that it leaves, and the master resolves to the
  -- low 16 bits of the registers read, for 1 to 121 values, 1 to 125 registers, 16-bit
  -- addresses, a request that reaches a unit, and handlers that both succeed.
  pub ask_fc23 :
      {slave : Slave S} {model : UnitModel S} {transaction unit : ℕ} (ra n wa : ℕ) (values : List ℕ)
      (store store' store'' : S) (registers : List ℕ) (read : ℕ → ℕ → S → Reply (List ℕ) × S)
      (write : ℕ → List ℕ → S → Reply (Unit {0}) × S)
      → Reaches slave model transaction unit 23
      → model.read_holding_registers ≡ some read
      → model.write_multiple_registers ≡ some write
      → ra < 65536
      → wa < 65536
      → 1 ≤ n
      → n ≤ 125
      → 1 ≤ length values
      → length values ≤ 121
      → write wa (words (length values) values) store ≡ (ok tt, store')
      → read ra n store' ≡ (ok registers, store'')
      → ask slave transaction unit 23
          (read_write_request ra n wa values)
          (read_registers_response unit 23 n)
          store
        ≡ (resolved (words n registers) ∷ [], store'')
  unfolding handle_fc
  ask_fc23 {slave} {model} ra n wa values store store' store'' registers read write r m m' a b lo hi
        lo' hi' w e =
      ask_registers 23 n (read_write_request ra n wa values) store store'' registers r (omega arith)
        refl (omega (arith, length-request ra n wa values))
        (fc23_answers model ra n wa values store store' (ok registers, store'') read write m m' a b
          lo hi lo' hi' w e)
