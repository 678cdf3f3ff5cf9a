-- ===== src/Exchange/Coils.antt =====
-- Reading and writing coils over Modbus TCP: the methods of FC 1, 2 and 15 of src/master/master.ts
-- against the handlers of src/slave/slave.ts.
use njs_modbus.Common.{
  ℕ, suc, ◌+◌, ◌/◌, ◌%◌, ◌≤◌, ◌<◌, ◌≡◌, refl, ◌∙◌, arith, false, List, [], ◌∷◌, ◌++◌, some, length,
  take, ◌==◌, eq→==, ge→ltb, lt→leb_false, tabulate, eq-tabulate, bit_or,
}
use njs_modbus.Tcp.{Frame, byte_at}
use njs_modbus.Tcp.RoundTrip.{frame_of_adu}
use njs_modbus.Slave.Types.{Reply, ok, UnitModel, finish}
use njs_modbus.Slave.Pdu.{unpack_loop, coils_pdu, coil_values}
use njs_modbus.Slave.Packing.{length-coils_pdu, coils_pdu-bit, length-unpack_loop, unpack_loop-bit}
use njs_modbus.Slave.RoundTrip.{length-coil_values, coil_values-coils_pdu}
use njs_modbus.Slave.Reads.{handle_fc1, handle_fc2}
use njs_modbus.Slave.Writes.{handle_fc15}
use njs_modbus.Slave.Dispatch.{handle_fc}
use njs_modbus.Slave.Execute.{Slave}
use njs_modbus.Master.{got, resolved, two_words, validate_byte_count_response}
use njs_modbus.Master.Reads.{read_request, read_bits_response}
use njs_modbus.Master.Writes.{coils_request, head_response}
use njs_modbus.Exchange.{ask}
use njs_modbus.Exchange.Reach.{Reaches, ask_answered, be16-word, validate_same, no_exception}
use njs_modbus.Exchange.Writes.{ask_echo}

-- The lowest bits of the first `n` coils, 0 for one that is missing.
abbrev pub bits : ℕ → List ℕ → List ℕ
bits n coils = tabulate n (λ i. byte_at coils i % 2)

unpack_loop-bits :
    (n : ℕ) (coils : List ℕ) → unpack_loop (coils_pdu n coils) (n % 8) 1 (n / 8) ≡ bits n coils
unpack_loop-bits n coils =
    let pdu = coils_pdu n coils in
    eq-tabulate (unpack_loop pdu (n % 8) 1 (n / 8)) n (λ i. byte_at coils i % 2) 0
      (omega (arith, length-unpack_loop pdu (n % 8) 1 (n / 8) (omega arith)))
      (λ i h.
        let place : 1 + i / 8 ≡ suc (i / 8) = omega arith in
        unpack_loop-bit pdu (n % 8) 1 (n / 8) i (omega arith) (omega arith)
        ∙ rw place (coils_pdu-bit n coils i h))

count-coils_pdu : (n : ℕ) (coils : List ℕ) → byte_at (coils_pdu n coils) 0 ≡ (n + 7) / 8
unfolding coils_pdu
count-coils_pdu n coils = refl

-- The master reads a whole response.
read_bits-pdu :
    (f : Frame) (n : ℕ) (coils : List ℕ)
    → (f.fc == bit_or f.fc 0x80) ≡ false
    → f.payload ≡ coils_pdu n coils
    → read_bits_response f.unit f.fc n (got f) ≡ resolved (bits n coils)
unfolding read_bits_response validate_byte_count_response
read_bits-pdu f n coils normal e =
    let size = length-coils_pdu n coils in
    rw
      (
        no_exception f normal,
        validate_same f,
        e,
        ge→ltb (length (coils_pdu n coils)) (1 + (n + 7) / 8) (omega (arith, size)),
        eq→== (length (coils_pdu n coils)) (1 + (n + 7) / 8) size,
        eq→== (byte_at (coils_pdu n coils) 0) ((n + 7) / 8) (count-coils_pdu n coils),
        unpack_loop-bits n coils,
      )
      refl

-- The request is the address and the quantity, and then the coils as in a response.
coils_request-pdu :
    (address : ℕ) (values : List ℕ)
    → length values ≤ 1968
    → coils_request address values
      ≡ two_words address (length values) ++ coils_pdu (length values) values
unfolding coils_request coils_pdu
coils_request-pdu address values h =
    let small : (length values + 7) / 8 % 256 ≡ (length values + 7) / 8 = omega arith in
    rw small refl

module _ {S : Type 0} where
  ask-bits :
      {slave : Slave S} {model : UnitModel S} {transaction unit : ℕ} (fc n : ℕ) (payload : List ℕ)
      (store store' : S) (coils : List ℕ)
      → Reaches slave model transaction unit fc
      → fc < 256
      → (fc == bit_or fc 0x80) ≡ false
      → length payload ≤ 252
      → handle_fc model slave.custom
          (frame_of_adu
            (record { transaction = transaction; unit = unit; fc = fc; payload = payload }))
          store
        ≡ finish (coils_pdu n) (ok coils, store')
      → ask slave transaction unit fc payload (read_bits_response unit fc n) store
        ≡ (resolved (bits n coils) ∷ [], store')
  ask-bits {slave} {model} {transaction} {unit} fc n payload store store' coils r small normal p e =
      let h = finish (coils_pdu n) (ok coils, store') in
      let f =
        frame_of_adu (record {
          transaction = transaction;
          unit = unit;
          fc = fc;
          payload = coils_pdu n coils;
        }) in
      rw
        (
          ask_answered payload (read_bits_response unit fc n) store h r small p e,
          read_bits-pdu f n coils normal refl,
        )
        refl

  -- Reading coils, end to end: for a request of 1 to 2000 coils at a 16-bit address that reaches a
  -- unit, where the
  -- unit's handler answers `coils`, the master resolves to the lowest bits of the first coils, as
  -- many as were asked for, and the slave has the handler's store.
  pub ask_fc1 :
      {slave : Slave S} {model : UnitModel S} {transaction unit : ℕ} (address n : ℕ)
      (store store' : S) (coils : List ℕ) (read : ℕ → ℕ → S → Reply (List ℕ) × S)
      → Reaches slave model transaction unit 1
      → model.read_coils ≡ some read
      → address < 65536
      → 1 ≤ n
      → n ≤ 2000
      → read address n store ≡ (ok coils, store')
      → ask slave transaction unit 1 (read_request address n) (read_bits_response unit 1 n) store
        ≡ (resolved (bits n coils) ∷ [], store')
  unfolding handle_fc handle_fc1
  ask_fc1 {slave} {model} address n store store' coils read r m a lo hi e =
      ask-bits 1 n (read_request address n) store store' coils r (omega arith) refl (omega arith) (
        rw (be16-word n (omega arith), be16-word address a, ge→ltb n 1 lo, ge→ltb 2000 n hi, m, e)
          refl)

  -- The same for discrete inputs.
  pub ask_fc2 :
      {slave : Slave S} {model : UnitModel S} {transaction unit : ℕ} (address n : ℕ)
      (store store' : S) (coils : List ℕ) (read : ℕ → ℕ → S → Reply (List ℕ) × S)
      → Reaches slave model transaction unit 2
      → model.read_discrete_inputs ≡ some read
      → address < 65536
      → 1 ≤ n
      → n ≤ 2000
      → read address n store ≡ (ok coils, store')
      → ask slave transaction unit 2 (read_request address n) (read_bits_response unit 2 n) store
        ≡ (resolved (bits n coils) ∷ [], store')
  unfolding handle_fc handle_fc2
  ask_fc2 {slave} {model} address n store store' coils read r m a lo hi e =
      ask-bits 2 n (read_request address n) store store' coils r (omega arith) refl (omega arith) (
        rw (be16-word n (omega arith), be16-word address a, ge→ltb n 1 lo, ge→ltb 2000 n hi, m, e)
          refl)

  fc15_answers :
      (model : UnitModel S) (address : ℕ) (values : List ℕ) (store : S) (r : Reply (Unit {0}) × S)
      (write : ℕ → List ℕ → S → Reply (Unit {0}) × S)
      → model.write_multiple_coils ≡ some write
      → address < 65536
      → 1 ≤ length values
      → length values ≤ 1968
      → write address (bits (length values) values) store ≡ r
      → let pdu = two_words address (length values) ++ coils_pdu (length values) values in
        handle_fc15 model pdu store ≡ finish (λ _. take 4 pdu) r
  unfolding handle_fc15
  fc15_answers model address values store r write m a lo hi e =
      let k = length values in
      let pdu = two_words address k ++ coils_pdu k values in
      let count = count-coils_pdu k values in
      let size : length pdu ≡ 5 + (k + 7) / 8 = omega (arith, length-coils_pdu k values) in
      let given : coil_values k pdu ≡ bits k values =
        eq-tabulate (coil_values k pdu) k (λ i. byte_at values i % 2) 0 (length-coil_values k pdu)
          (λ i h. coil_values-coils_pdu k _ _ _ _ values i h) in
      rw
        (
          size,
          be16-word address a,
          be16-word k (omega arith),
          count,
          lt→leb_false (5 + (k + 7) / 8) 5 (omega arith),
          eq→== (5 + (k + 7) / 8) (5 + (k + 7) / 8) refl,
          ge→ltb k 1 lo,
          ge→ltb 1968 k hi,
          eq→== ((k + 7) / 8) ((k + 7) / 8) refl,
          m,
          given,
          e,
        )
        refl

  -- Writing coils, end to end: for 1 to 1968 values at a 16-bit address, in a request that reaches
  -- a unit, the unit's handler gets the address and the
  -- lowest bits of the values, and where it succeeds the master resolves to the caller's values.
  pub ask_fc15 :
      {slave : Slave S} {model : UnitModel S} {transaction unit : ℕ} (address : ℕ) (values : List ℕ)
      (store store' : S) (write : ℕ → List ℕ → S → Reply (Unit {0}) × S)
      → Reaches slave model transaction unit 15
      → model.write_multiple_coils ≡ some write
      → address < 65536
      → 1 ≤ length values
      → length values ≤ 1968
      → write address (bits (length values) values) store ≡ (ok tt, store')
      → let payload = coils_request address values in
        ask slave transaction unit 15 payload (head_response unit 15 payload values) store
        ≡ (resolved values ∷ [], store')
  unfolding handle_fc
  ask_fc15 {slave} {model} address values store store' write r m a lo hi e =
      let payload = two_words address (length values) ++ coils_pdu (length values) values in
      rw (coils_request-pdu address values hi) (
        ask_echo 15 payload (take 4 payload) values store store' r (omega arith) refl
          (omega (arith, length-coils_pdu (length values) values))
          (fc15_answers model address values store (ok tt, store') write m a lo hi e))
