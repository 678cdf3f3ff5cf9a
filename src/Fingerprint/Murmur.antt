-- ===== src/Fingerprint/Murmur.antt =====
-- MurmurHash3_x86_32 as it was published, for comparison with src/utils/adu-fingerprint.ts: a
-- definition of its own, over a list of bytes and a seed.
use njs_modbus.Common.{ℕ, ◌+◌, ◌*◌, ◌/◌, ◌%◌, ◌^◌, List, [], ◌∷◌, length, bit_xor}

-- `x << r`, `x >> r`, a rotation to the left, and a product, of 32 bits.
abbrev pub shift_left : ℕ → ℕ → ℕ
shift_left x r = x * 2 ^ r % 2 ^ 32

abbrev pub shift_right : ℕ → ℕ → ℕ
shift_right x r = x / 2 ^ r

abbrev pub rotate_13 : ℕ → ℕ
rotate_13 x = shift_left x 13 + shift_right x 19

abbrev pub rotate_15 : ℕ → ℕ
rotate_15 x = shift_left x 15 + shift_right x 17

abbrev pub times : ℕ → ℕ → ℕ
times x y = x * y % 2 ^ 32

-- The constants c1 and c2, in the decimal system.
abbrev pub c1 : ℕ
c1 = 3432918353

abbrev pub c2 : ℕ
c2 = 461845907

abbrev pub scrambled : ℕ → ℕ
scrambled k = times (rotate_15 (times k c1)) c2

abbrev pub after_block : ℕ → ℕ → ℕ
after_block h k = (rotate_13 (bit_xor h (scrambled k)) * 5 + 3864292196) % 2 ^ 32

-- A word of up to four bytes, the lowest first.
abbrev pub little_endian : List ℕ → ℕ
little_endian [] = 0
little_endian (b ∷ bytes) = b + 256 * little_endian bytes

abbrev pub final_mix : ℕ → ℕ
final_mix h =
    let a = times (bit_xor h (shift_right h 16)) 2246822507 in
    let b = times (bit_xor a (shift_right a 13)) 3266489909 in bit_xor b (shift_right b 16)

-- The blocks of four bytes, and the tail.
abbrev pub body : ℕ → List ℕ → ℕ
body h [] = h
body h (a ∷ []) = bit_xor h (scrambled (little_endian (a ∷ [])))
body h (a ∷ b ∷ []) = bit_xor h (scrambled (little_endian (a ∷ b ∷ [])))
body h (a ∷ b ∷ c ∷ []) = bit_xor h (scrambled (little_endian (a ∷ b ∷ c ∷ [])))
body h (a ∷ b ∷ c ∷ d ∷ rest) = body (after_block h (little_endian (a ∷ b ∷ c ∷ d ∷ []))) rest

unfoldable pub murmur3 : ℕ → List ℕ → ℕ
murmur3 seed bytes = final_mix (bit_xor (body seed bytes) (length bytes))
