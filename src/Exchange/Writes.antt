-- ===== src/Exchange/Writes.antt =====
-- Writing over Modbus TCP: the methods of FC 5, 6, 16 and 22 of src/master/master.ts against the
-- handlers of src/slave/slave.ts.
use njs_modbus.Common.{
  ℕ, suc, ◌+◌, ◌*◌, ◌%◌, ◌≤◌, ◌<◌, ◌≡◌, refl, ap, ◌∙◌, arith, true, false, List, [], ◌∷◌, some,
  length, take, ◌==◌, eq→==, ge→ltb, lt→leb_false, eq-tabulate, bit_or, if◌then◌else◌, Bool-cases,
  inl, inr,
}
use njs_modbus.Tcp.{Frame, byte_at, be16}
use njs_modbus.Tcp.RoundTrip.{frame_of_adu}
use njs_modbus.Slave.Types.{Reply, ok, UnitModel, finish}
use njs_modbus.Slave.Pdu.{register_values}
use njs_modbus.Slave.RoundTrip.{
  length-register_values, register_values-value, registers_loop-value, length-registers_loop,
}
use njs_modbus.Slave.Writes.{handle_fc5, handle_fc6, handle_fc16, handle_fc22}
use njs_modbus.Slave.Dispatch.{handle_fc}
use njs_modbus.Slave.Execute.{Slave}
use njs_modbus.Master.{got, resolved, same_bytes, validate_echo_response}
use njs_modbus.Master.Writes.{
  echo_response, whole_response, head_response, single_coil_request, single_register_request,
  mask_write_request, registers_request,
}
use njs_modbus.Exchange.{ask}
use njs_modbus.Exchange.Reach.{Reaches, ask_answered, be16-word, validate_same, no_exception}
use njs_modbus.Exchange.Registers.{words}

same_bytes_refl : (xs : List ℕ) → same_bytes xs xs ≡ true
unfolding same_bytes
same_bytes_refl [] = refl
same_bytes_refl (x ∷ xs) = rw (eq→== x x refl) (same_bytes_refl xs)

-- The master accepts an echo.
echo_accepted :
    {A : Type 0} (f : Frame) (value : A)
    → (f.fc == bit_or f.fc 0x80) ≡ false
    → echo_response f.unit f.fc f.payload value (got f) ≡ resolved value
unfolding echo_response validate_echo_response
echo_accepted f value normal =
    let n = length f.payload in
    rw
      (
        no_exception f normal,
        validate_same f,
        ge→ltb n n (omega arith),
        eq→== n n refl,
        same_bytes_refl f.payload,
      )
      refl

module _ {S : Type 0} {A : Type 0} where
  -- A write whose handler succeeds resolves to the caller's value.
  pub ask_echo :
      {slave : Slave S} {model : UnitModel S} {transaction unit : ℕ} (fc : ℕ)
      (payload expected : List ℕ) (value : A) (store store' : S)
      → Reaches slave model transaction unit fc
      → fc < 256
      → (fc == bit_or fc 0x80) ≡ false
      → length payload ≤ 252
      → handle_fc model slave.custom
          (frame_of_adu
            (record { transaction = transaction; unit = unit; fc = fc; payload = payload }))
          store
        ≡ finish {A = Unit {0}} (λ _. expected) (ok tt, store')
      → ask slave transaction unit fc payload (echo_response unit fc expected value) store
        ≡ (resolved value ∷ [], store')
  ask_echo {slave} {model} {transaction} {unit} fc payload expected value store store' r small
        normal p e =
      let f =
        frame_of_adu
          (record { transaction = transaction; unit = unit; fc = fc; payload = expected }) in
      let h = finish {A = Unit {0}} (λ _. expected) (ok tt, store') in
      rw
        (
          ask_answered payload (echo_response unit fc expected value) store h r small p e,
          echo_accepted f value normal,
        )
        refl

length-registers_request :
    (address : ℕ) (values : List ℕ)
    → length (registers_request address values) ≡ 5 + length values * 2
unfolding registers_request
length-registers_request address values =
    omega (arith, length-registers_loop values 0 (length values))

-- The fields that the slave reads.
registers_fields :
    (address : ℕ) (values : List ℕ)
    → address < 65536
    → length values ≤ 123
    → let pdu = registers_request address values in
      (be16 pdu 0 ≡ address) × (be16 pdu 2 ≡ length values) × (byte_at pdu 4 ≡ length values * 2)
unfolding registers_request
registers_fields address values a h =
    (be16-word address a, be16-word (length values) (omega arith), omega arith)

registers_read :
    (address : ℕ) (values : List ℕ)
    → register_values (length values) (registers_request address values) 5
      ≡ words (length values) values
unfolding registers_request
registers_read address values =
    let k = length values in
    eq-tabulate (register_values k (registers_request address values) 5) k
      (λ i. byte_at values i % 65536) 0 (length-register_values k _ 5)
      (λ i h.
        let place : 5 + i * 2 ≡ suc (suc (suc (suc (suc (i * 2))))) = omega arith in
        let next : suc (suc (suc (suc (suc (i * 2))))) + 1
            ≡ suc (suc (suc (suc (suc (i * 2 + 1))))) =
          omega arith in
        let same : 0 + i ≡ i = omega arith in
        register_values-value k _ 5 i h
        ∙ rw (place, next)
            (registers_loop-value values 0 k i h ∙ ap (λ (j : ℕ). byte_at values j % 65536) same))

module _ {S : Type 0} where
  fc16_answers :
      (model : UnitModel S) (address : ℕ) (values : List ℕ) (store : S) (r : Reply (Unit {0}) × S)
      (write : ℕ → List ℕ → S → Reply (Unit {0}) × S)
      → model.write_multiple_registers ≡ some write
      → address < 65536
      → 1 ≤ length values
      → length values ≤ 123
      → write address (words (length values) values) store ≡ r
      → handle_fc16 model (registers_request address values) store
        ≡ finish (λ _. take 4 (registers_request address values)) r
  unfolding handle_fc16
  fc16_answers model address values store r write m a lo hi e =
      let (at0, at2, at4) = registers_fields address values a hi in
      let k = length values in
      rw
        (
          length-registers_request address values,
          at0,
          at2,
          at4,
          lt→leb_false (5 + k * 2) 5 (omega arith),
          eq→== (5 + k * 2) (5 + k * 2) refl,
          ge→ltb k 1 lo,
          ge→ltb 123 k hi,
          eq→== (k * 2) (k * 2) refl,
          m,
          registers_read address values,
          e,
        )
        refl

  -- Writing registers, end to end: for 1 to 123 values at a 16-bit address, in a request that
  -- reaches a unit, the unit's handler gets the address and the
  -- low 16 bits of the values, and where it succeeds the master resolves to the caller's values.
  pub ask_fc16 :
      {slave : Slave S} {model : UnitModel S} {transaction unit : ℕ} (address : ℕ) (values : List ℕ)
      (store store' : S) (write : ℕ → List ℕ → S → Reply (Unit {0}) × S)
      → Reaches slave model transaction unit 16
      → model.write_multiple_registers ≡ some write
      → address < 65536
      → 1 ≤ length values
      → length values ≤ 123
      → write address (words (length values) values) store ≡ (ok tt, store')
      → let payload = registers_request address values in
        ask slave transaction unit 16 payload (head_response unit 16 payload values) store
        ≡ (resolved values ∷ [], store')
  unfolding handle_fc
  ask_fc16 {slave} {model} address values store store' write r m a lo hi e =
      let payload = registers_request address values in
      ask_echo 16 payload (take 4 payload) values store store' r (omega arith) refl
        (omega (arith, length-registers_request address values))
        (fc16_answers model address values store (ok tt, store') write m a lo hi e)

  -- Writing one register, end to end.
  pub ask_fc6 :
      {slave : Slave S} {model : UnitModel S} {transaction unit : ℕ} (address value : ℕ)
      (store store' : S) (write : ℕ → ℕ → S → Reply (Unit {0}) × S)
      → Reaches slave model transaction unit 6
      → model.write_single_register ≡ some write
      → address < 65536
      → value < 65536
      → write address value store ≡ (ok tt, store')
      → let payload = single_register_request address value in
        ask slave transaction unit 6 payload (whole_response unit 6 payload value) store
        ≡ (resolved value ∷ [], store')
  unfolding handle_fc handle_fc6
  ask_fc6 {slave} {model} address value store store' write r m a v e =
      let payload = single_register_request address value in
      ask_echo 6 payload payload value store store' r (omega arith) refl (omega arith)
        (rw (m, be16-word address a, be16-word value v, e) refl)

  -- Masking a register, end to end.
  pub ask_fc22 :
      {slave : Slave S} {model : UnitModel S} {transaction unit : ℕ} (address and_mask or_mask : ℕ)
      (store store' : S) (write : ℕ → ℕ → ℕ → S → Reply (Unit {0}) × S)
      → Reaches slave model transaction unit 22
      → model.mask_write_register ≡ some write
      → address < 65536
      → and_mask < 65536
      → or_mask < 65536
      → write address and_mask or_mask store ≡ (ok tt, store')
      → let payload = mask_write_request address and_mask or_mask in
        let masks : ℕ × ℕ = (and_mask, or_mask) in
        ask slave transaction unit 22 payload (whole_response unit 22 payload masks) store
        ≡ (resolved masks ∷ [], store')
  unfolding handle_fc handle_fc22
  ask_fc22 {slave} {model} address and_mask or_mask store store' write r m a v w e =
      let payload = mask_write_request address and_mask or_mask in
      ask_echo 22 payload payload (and_mask, or_mask) store store' r (omega arith) refl
        (omega arith)
        (rw (m, be16-word address a, be16-word and_mask v, be16-word or_mask w, e) refl)

  -- Writing one coil, end to end: the unit's handler gets 0 for the value 0, and 1 for any other.
  pub ask_fc5 :
      {slave : Slave S} {model : UnitModel S} {transaction unit : ℕ} (address value : ℕ)
      (store store' : S) (write : ℕ → ℕ → S → Reply (Unit {0}) × S)
      → Reaches slave model transaction unit 5
      → model.write_single_coil ≡ some write
      → address < 65536
      → write address (if value == 0 then 0 else 1) store ≡ (ok tt, store')
      → let payload = single_coil_request address value in
        ask slave transaction unit 5 payload (whole_response unit 5 payload value) store
        ≡ (resolved value ∷ [], store')
  unfolding handle_fc handle_fc5
  ask_fc5 {slave} {model} address value store store' write r m a e =
      let payload = single_coil_request address value in
      ask_echo 5 payload payload value store store' r (omega arith) refl (omega arith)
        (elim (Bool-cases (value == 0)) [
          | inl off ↦ rw (off, m, be16-word address a, rw off at e) refl
          | inr on ↦ rw (on, m, be16-word address a, rw on at e) refl
        ])
