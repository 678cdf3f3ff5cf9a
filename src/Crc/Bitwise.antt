-- ===== src/Crc/Bitwise.antt =====
-- The table of src/utils/crc.ts against the definition of CRC-16/MODBUS: the register is shifted
-- right bit by bit, and the polynomial 0xA001 is added whenever a 1 falls out.
use njs_modbus.Common.{
  ℕ, zero, suc, ◌*◌, ◌/◌, ◌%◌, ◌^◌, ◌<◌, ◌≡◌, refl, ap, ◌∙◌, sym, arith, Bool, true, ◌&&◌, List, [],
  ◌∷◌, ◌==◌, if◌then◌else◌, bit_xor, Bool-cases, inl, inr, ==→eq, ltb, ltb→lt, and_true,
}
use native.Mathlib.Decide.{ℕ_discrete}
use njs_modbus.Crc.{table_entry, crc_step}
use njs_modbus.Crc.Xor.{
  half-bit_xor, parity-bit_xor, bit_xor_comm, bit_xor_assoc, bit_xor_self, zero-bit_xor, bit_xor-lt,
  bit_xor_disjoint, mul-two-pow-suc,
}

unfoldable pub shift_bit : ℕ → ℕ
shift_bit crc = if crc % 2 == 1 then bit_xor (crc / 2) 0xa001 else crc / 2

unfoldable pub shift_bits : ℕ → ℕ → ℕ
shift_bits zero crc = crc
shift_bits (suc n) crc = shift_bits n (shift_bit crc)

-- The register after one more byte.
unfoldable pub crc_byte : ℕ → ℕ → ℕ
crc_byte crc byte = shift_bits 8 (bit_xor crc byte)

-- The register after more bytes.
unfoldable pub crc_bytes : ℕ → List ℕ → ℕ
crc_bytes crc [] = crc
crc_bytes crc (byte ∷ rest) = crc_bytes (crc_byte crc byte) rest

agree_below : ℕ → Bool
agree_below zero = true
agree_below (suc n) =
    (table_entry n == shift_bits 8 n) && ltb (table_entry n) 65536 && agree_below n

agree :
    (n i : ℕ)
    → agree_below n ≡ true
    → i < n
    → (table_entry i ≡ shift_bits 8 i) × (table_entry i < 65536)
unfolding agree_below
agree zero i e h = absurd (omega arith)
agree (suc n) i e h =
    let same_test = table_entry n == shift_bits 8 n in
    let small_test = ltb (table_entry n) 65536 in
    let (entry, below) = and_true (same_test && small_test) (agree_below n) e in
    let (same_entry, small_entry) = and_true same_test small_test entry in
    elim (ℕ_discrete i n) [
      | yes same ↦ rw same (
        ==→eq (table_entry n) (shift_bits 8 n) same_entry,
        ltb→lt (table_entry n) 65536 small_entry,
      )
      | no other ↦ agree n i below (omega arith)
    ]

agree_all : agree_below 256 ≡ true
unfolding agree_below shift_bits shift_bit table_entry
agree_all = refl

-- Every entry of the table is its index shifted through the polynomial eight times.
pub table-shift_bits : (i : ℕ) → i < 256 → table_entry i ≡ shift_bits 8 i
table-shift_bits i h = (agree 256 i agree_all h).0

-- The shift is linear.
shift_bit-xor : (x y : ℕ) → shift_bit (bit_xor x (y * 2)) ≡ bit_xor (shift_bit x) y
unfolding shift_bit
shift_bit-xor x y =
    let parity : bit_xor x (y * 2) % 2 ≡ x % 2 = omega (arith, parity-bit_xor x (y * 2)) in
    let even : y * 2 / 2 ≡ y = omega arith in
    let half : bit_xor x (y * 2) / 2 ≡ bit_xor (x / 2) y =
      half-bit_xor x (y * 2) ∙ ap (bit_xor (x / 2)) even in
    elim (Bool-cases (x % 2 == 1)) [
      | inl odd ↦
          rw (parity, half, odd)
            (bit_xor_assoc (x / 2) y 0xa001
              ∙ ap (bit_xor (x / 2)) (bit_xor_comm y 0xa001)
              ∙ sym (bit_xor_assoc (x / 2) 0xa001 y))
      | inr one ↦ rw (parity, half, one)
    ]

pub shift_bits-xor : (n x y : ℕ) → shift_bits n (bit_xor x (y * 2 ^ n)) ≡ bit_xor (shift_bits n x) y
unfolding shift_bits
shift_bits-xor zero x y = ap (bit_xor x) (omega arith)
shift_bits-xor (suc n) x y =
    let twice : y * 2 ^ suc n ≡ y * 2 ^ n * 2 = omega (arith, mul-two-pow-suc y n) in
    rw (twice, shift_bit-xor x (y * 2 ^ n)) (shift_bits-xor n (shift_bit x) y)

-- `crc ^ byte` in its low byte and the rest.
pub split_xor :
    (crc byte : ℕ)
    → byte < 256
    → bit_xor crc byte ≡ bit_xor (bit_xor (crc % 256) byte) (crc / 256 * 2 ^ 8)
split_xor crc byte h =
    let lo = crc % 256 in
    let hi = crc / 256 * 2 ^ 8 in
    let parts : bit_xor lo hi ≡ crc =
      bit_xor_disjoint 8 lo (crc / 256) (omega arith) ∙ omega arith in
    ap (λ (t : ℕ). bit_xor t byte) (sym parts)
    ∙ bit_xor_assoc lo hi byte
    ∙ ap (bit_xor lo) (bit_xor_comm hi byte)
    ∙ sym (bit_xor_assoc lo byte hi)

low_xor : (crc byte : ℕ) → byte < 256 → bit_xor crc byte % 256 ≡ bit_xor (crc % 256) byte
low_xor crc byte h =
    let small = bit_xor-lt 8 (crc % 256) byte (omega arith) h in
    omega (
      arith,
      small,
      split_xor crc byte h,
      bit_xor_disjoint 8 (bit_xor (crc % 256) byte) (crc / 256) small,
    )

-- One round of the code, with a byte, is eight shifts of the definition.
pub crc_step-crc_byte : (crc byte : ℕ) → byte < 256 → crc_step crc byte ≡ crc_byte crc byte
unfolding crc_step crc_byte
crc_step-crc_byte crc byte h =
    let low = bit_xor (crc % 256) byte in
    rw (low_xor crc byte h, table-shift_bits low (bit_xor-lt 8 (crc % 256) byte (omega arith) h))
      (sym (shift_bits-xor 8 low (crc / 256)) ∙ ap (shift_bits 8) (sym (split_xor crc byte h)))

-- The register keeps to 16 bits.
pub crc_step-lt : (crc byte : ℕ) → crc < 65536 → byte < 256 → crc_step crc byte < 65536
unfolding crc_step
crc_step-lt crc byte c h =
    let index : bit_xor crc byte % 256 < 256 = omega arith in
    bit_xor-lt 16 _ (crc / 256) (agree 256 _ agree_all index).1 (omega arith)

first_entry : table_entry 0 ≡ 0
unfolding table_entry
first_entry = refl

-- A byte equal to the register's low byte shifts it out.
pub crc_byte-low : (crc : ℕ) → crc_byte crc (crc % 256) ≡ crc / 256
unfolding crc_byte
crc_byte-low crc =
    let zero_entry : shift_bits 8 0 ≡ 0 = sym (table-shift_bits 0 (omega arith)) ∙ first_entry in
    rw (
      split_xor crc (crc % 256) (omega arith),
      bit_xor_self (crc % 256),
      shift_bits-xor 8 0 (crc / 256),
      zero_entry,
      zero-bit_xor,
    )
