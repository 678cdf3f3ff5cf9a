-- ===== src/Crc/Injective.antt =====
-- The CRC of src/utils/crc.ts on messages that differ.
use njs_modbus.Common.{
  ℕ, zero, suc, ◌+◌, ◌*◌, ◌/◌, ◌%◌, ◌^◌, ◌≤◌, ◌<◌, ◌≡◌, ◌≢◌, refl, ◌∙◌, sym, arith, List, [], ◌∷◌,
  ◌++◌, All, All-append, length, bit_xor, eq→==, ne→==,
}
use mathlib.Core.Path.{subst}
use native.Mathlib.Decide.{ℕ_discrete}
use njs_modbus.Crc.Xor.{bit_xor_cancel, bit_xor_comm, bit_xor_assoc, bit_xor-lt, bit_xor_disjoint}
use njs_modbus.Crc.Bitwise.{
  shift_bit, shift_bits, crc_byte, crc_bytes, crc_step-crc_byte, crc_step-lt,
}
use njs_modbus.Crc.Laws.{IsByte, crc_bytes-append, crc_bytes-lt, crc_fixed_whole}
use njs_modbus.Crc.{crc_fixed}

-- The bit that falls out comes back as the top bit, since the polynomial has it.
odd_shift :
    (x : ℕ)
    → x < 65536
    → x % 2 ≡ 1
    → (32768 ≤ shift_bit x) × (shift_bit x < 65536) × (shift_bit x ≡ bit_xor (x / 2) 0xa001)
unfolding shift_bit
odd_shift x h o =
    let low = bit_xor (x / 2) 0x2001 in
    let small : low < 2 ^ 15 = bit_xor-lt 15 (x / 2) 0x2001 (omega arith) (omega arith) in
    let top : bit_xor (x / 2) 0xa001 ≡ low + 1 * 2 ^ 15 =
      sym (bit_xor_assoc (x / 2) 0x2001 (1 * 2 ^ 15)) ∙ bit_xor_disjoint 15 low 1 small in
    rw (eq→== (x % 2) 1 o) (omega (arith, top, small), omega (arith, top, small), refl)

even_shift : (x : ℕ) → x < 65536 → x % 2 ≢ 1 → (shift_bit x ≡ x / 2) × (shift_bit x < 32768)
unfolding shift_bit
even_shift x h e = rw (ne→== (x % 2) 1 e) (refl, omega arith)

shift_bit-lt : (x : ℕ) → x < 65536 → shift_bit x < 65536
shift_bit-lt x h = elim (ℕ_discrete (x % 2) 1) [
  | yes o ↦ (odd_shift x h o).1
  | no e ↦ omega (arith, even_shift x h e)
]

shift_bit-injective : (x y : ℕ) → x < 65536 → y < 65536 → shift_bit x ≡ shift_bit y → x ≡ y
shift_bit-injective x y hx hy e = elim (ℕ_discrete (x % 2) 1) [
  | yes ox ↦ elim (ℕ_discrete (y % 2) 1) [
    | yes oy ↦
        let halves =
          bit_xor_cancel (x / 2) (y / 2) 0xa001
            (sym (odd_shift x hx ox).2 ∙ e ∙ (odd_shift y hy oy).2) in
        omega arith
    | no ey ↦ absurd (omega (arith, odd_shift x hx ox, even_shift y hy ey))
  ]
  | no ex ↦ elim (ℕ_discrete (y % 2) 1) [
    | yes oy ↦ absurd (omega (arith, even_shift x hx ex, odd_shift y hy oy))
    | no ey ↦ omega (arith, even_shift x hx ex, even_shift y hy ey)
  ]
]

shift_bits-injective : (n x y : ℕ) → x < 65536 → y < 65536 → shift_bits n x ≡ shift_bits n y → x ≡ y
unfolding shift_bits
shift_bits-injective zero x y hx hy e = e
shift_bits-injective (suc n) x y hx hy e =
    shift_bit-injective x y hx hy
      (shift_bits-injective n _ _ (shift_bit-lt x hx) (shift_bit-lt y hy) e)

-- The register before a byte, and the byte, are determined by the register after it.
crc_byte-injective :
    (crc crc' byte : ℕ)
    → crc < 65536
    → crc' < 65536
    → byte < 256
    → crc_byte crc byte ≡ crc_byte crc' byte
    → crc ≡ crc'
unfolding crc_byte
crc_byte-injective crc crc' byte h h' b e = bit_xor_cancel crc crc' byte (
    shift_bits-injective 8 _ _ (bit_xor-lt 16 crc byte h (omega arith))
      (bit_xor-lt 16 crc' byte h' (omega arith)) e)

crc_byte-injective_byte :
    (crc a b : ℕ) → crc < 65536 → a < 256 → b < 256 → crc_byte crc a ≡ crc_byte crc b → a ≡ b
unfolding crc_byte
crc_byte-injective_byte crc a b h ha hb e = bit_xor_cancel a b crc (
    bit_xor_comm a crc
    ∙ shift_bits-injective 8 _ _ (bit_xor-lt 16 crc a h (omega arith))
        (bit_xor-lt 16 crc b h (omega arith)) e
    ∙ bit_xor_comm crc b)

crc_byte-lt : (crc byte : ℕ) → crc < 65536 → byte < 256 → crc_byte crc byte < 65536
crc_byte-lt crc byte h b =
    subst (λ (t : ℕ). t < 65536) (crc_step-crc_byte crc byte b) (crc_step-lt crc byte h b)

crc_bytes-injective :
    (message : List ℕ) (crc crc' : ℕ)
    → crc < 65536
    → crc' < 65536
    → All IsByte message
    → crc_bytes crc message ≡ crc_bytes crc' message
    → crc ≡ crc'
unfolding crc_bytes
crc_bytes-injective [] crc crc' h h' k e = e
crc_bytes-injective (b ∷ message) crc crc' h h' k e =
    crc_byte-injective crc crc' b h h' k.0
      (crc_bytes-injective message _ _ (crc_byte-lt crc b h k.0) (crc_byte-lt crc' b h' k.0) k.1 e)

crc_bytes-injective_byte :
    (start : ℕ) (before behind : List ℕ) (a b : ℕ)
    → start < 65536
    → All IsByte before
    → All IsByte behind
    → a < 256
    → b < 256
    → a ≢ b
    → crc_bytes start (before ++ a ∷ behind) ≢ crc_bytes start (before ++ b ∷ behind)
unfolding crc_bytes
crc_bytes-injective_byte start before behind a b s h k ha hb n e =
    let crc = crc_bytes start before in
    let small = crc_bytes-lt start before s h in
    n (
      crc_byte-injective_byte crc a b small ha hb (
        crc_bytes-injective behind (crc_byte crc a) (crc_byte crc b) (crc_byte-lt crc a small ha)
          (crc_byte-lt crc b small hb) k
          (sym (crc_bytes-append start before (a ∷ behind))
            ∙ e
            ∙ crc_bytes-append start before (b ∷ behind))))

-- `crcFixed` tells apart any two messages of bytes that differ in exactly one byte, whatever stands
-- before it and behind it.
pub crc_fixed_one_byte :
    (before behind : List ℕ) (a b : ℕ)
    → All IsByte before
    → All IsByte behind
    → a < 256
    → b < 256
    → a ≢ b
    → crc_fixed (before ++ a ∷ behind) 0 (length (before ++ a ∷ behind))
      ≢ crc_fixed (before ++ b ∷ behind) 0 (length (before ++ b ∷ behind))
crc_fixed_one_byte before behind a b h k ha hb n e =
    let bytes = λ (x : ℕ) (hx : x < 256). All-append IsByte before (x ∷ behind) h (hx, k) in
    crc_bytes-injective_byte 0xffff before behind a b (omega arith) h k ha hb n (
      sym (crc_fixed_whole (before ++ a ∷ behind) (bytes a ha))
      ∙ e
      ∙ crc_fixed_whole (before ++ b ∷ behind) (bytes b hb))
