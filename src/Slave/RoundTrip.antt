-- ===== src/Slave/RoundTrip.antt =====
-- Values packed as in a read response of src/slave/slave.ts, and unpacked as from a write request.
use njs_modbus.Common.{
  ℕ, zero, suc, ◌+◌, ◌*◌, ◌/◌, ◌%◌, ◌<◌, ◌≡◌, refl, sym, ap, ◌∙◌, List, ◌∷◌, length, arith,
}
use njs_modbus.Tcp.{byte_at, be16}
use njs_modbus.Slave.Pdu.{
  bit_of, coils_pdu, coil_values, registers_loop, registers_pdu, register_values,
}
use njs_modbus.Slave.Packing.{coils_pdu-bit, length-unpack_loop, unpack_loop-bit}

-- Coil `j` of an FC 15 request is bit `j % 8` of byte `j / 8` behind the byte count, and there are
-- as many values as the request says.
pub coil_values-bit :
    (n : ℕ) (pdu : List ℕ) (j : ℕ)
    → j < n
    → byte_at (coil_values n pdu) j ≡ bit_of (byte_at pdu (5 + j / 8)) (j % 8)
unfolding coil_values
coil_values-bit n pdu j h = unpack_loop-bit pdu (n % 8) 5 (n / 8) j (omega arith) (omega arith)

pub length-coil_values : (n : ℕ) (pdu : List ℕ) → length (coil_values n pdu) ≡ n
unfolding coil_values
length-coil_values n pdu = omega (arith, length-unpack_loop pdu (n % 8) 5 (n / 8) (omega arith))

-- Coils that are packed as a response body, sent behind the four bytes of address and quantity of an
-- FC 15 request, are read back as the lowest bits of the coils, each at its index.
pub coil_values-coils_pdu :
    (n a b c d : ℕ) (coils : List ℕ) (j : ℕ)
    → j < n
    → byte_at (coil_values n (a ∷ b ∷ c ∷ d ∷ coils_pdu n coils)) j ≡ byte_at coils j % 2
coil_values-coils_pdu n a b c d coils j h =
    let place : 5 + j / 8 ≡ suc (suc (suc (suc (suc (j / 8))))) = omega arith in
    coil_values-bit n _ j h ∙ rw place (coils_pdu-bit n coils j h)

pub registers_loop-value :
    (registers : List ℕ) (i count k : ℕ)
    → k < count
    → be16 (registers_loop registers i count) (k * 2) ≡ byte_at registers (i + k) % 65536
unfolding registers_loop
registers_loop-value registers i zero k h = absurd (omega arith)
registers_loop-value registers i (suc count) zero h =
    let e : i + 0 ≡ i = omega arith in rw e (omega arith)
registers_loop-value registers i (suc count) (suc k) h =
    let e : suc k * 2 ≡ suc (suc (k * 2)) = omega arith in
    let e' : suc (suc (k * 2)) + 1 ≡ suc (suc (k * 2 + 1)) = omega arith in
    let e'' : i + suc k ≡ suc i + k = omega arith in
    rw (e, e', e'') (registers_loop-value registers (suc i) count k (omega arith))

-- Register `k` of a response body is the low 16 bits of the user's register.
pub registers_pdu-value :
    (n : ℕ) (registers : List ℕ) (k : ℕ)
    → k < n
    → be16 (registers_pdu n registers) (suc (k * 2)) ≡ byte_at registers k % 65536
unfolding registers_pdu
registers_pdu-value n registers k h =
    let e : suc (k * 2) + 1 ≡ suc (k * 2 + 1) = omega arith in
    let e' : 0 + k ≡ k = omega arith in
    rw e (registers_loop-value registers 0 n k h ∙ ap (λ (m : ℕ). byte_at registers m % 65536) e')

pub length-registers_loop :
    (registers : List ℕ) (i count : ℕ) → length (registers_loop registers i count) ≡ count * 2
unfolding registers_loop
length-registers_loop registers i zero = refl
length-registers_loop registers i (suc count) =
    omega (arith, length-registers_loop registers (suc i) count)

pub length-registers_pdu :
    (n : ℕ) (registers : List ℕ) → length (registers_pdu n registers) ≡ 1 + n * 2
unfolding registers_pdu
length-registers_pdu n registers = omega (arith, length-registers_loop registers 0 n)

pub register_values-value :
    (n : ℕ) (pdu : List ℕ) (off k : ℕ)
    → k < n
    → byte_at (register_values n pdu off) k ≡ be16 pdu (off + k * 2)
unfolding register_values
register_values-value zero pdu off k h = absurd (omega arith)
register_values-value (suc n) pdu off zero h =
    let e : off + 0 ≡ off = omega arith in ap (be16 pdu) (sym (omega arith))
register_values-value (suc n) pdu off (suc k) h =
    register_values-value n pdu (off + 2) k (omega arith) ∙ ap (be16 pdu) (omega arith)

pub length-register_values :
    (n : ℕ) (pdu : List ℕ) (off : ℕ) → length (register_values n pdu off) ≡ n
unfolding register_values
length-register_values zero pdu off = refl
length-register_values (suc n) pdu off = ap suc (length-register_values n pdu (off + 2))

-- Registers that are packed as a response body, sent behind the four bytes of address and quantity
-- of an FC 16 request, are read back as the low 16 bits of the registers, each at its index.
pub register_values-registers_pdu :
    (n a b c d : ℕ) (registers : List ℕ) (k : ℕ)
    → k < n
    → byte_at (register_values n (a ∷ b ∷ c ∷ d ∷ registers_pdu n registers) 5) k
      ≡ byte_at registers k % 65536
register_values-registers_pdu n a b c d registers k h =
    let e : 5 + k * 2 ≡ suc (suc (suc (suc (suc (k * 2))))) = omega arith in
    let e' : suc (suc (suc (suc (suc (k * 2))))) + 1 ≡ suc (suc (suc (suc (suc (k * 2) + 1)))) =
      omega arith in
    register_values-value n _ 5 k h ∙ rw (e, e') (registers_pdu-value n registers k h)
