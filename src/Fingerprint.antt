-- ===== src/Fingerprint.antt =====
-- The hash of requests for the deduplication of src/utils/adu-fingerprint.ts. Words have 32 bits:
-- `Math.imul` is a product modulo 2^32, and `|` of disjoint bits is written with `+`. `|` and `^`
-- cut the sum behind `Math.imul(h1, 5)` to 32 bits, which is done here at once.
pub mod Murmur
pub mod Laws
mod Runs
use njs_modbus.Common.{
  ℕ, ◌+◌, ◌*◌, ◌/◌, ◌%◌, List, [], ◌∷◌, ◌++◌, Option, none, some, length, bit_xor,
}

-- `k1` and `rem`: the bytes of the word that is not complete.
pub data Word : Type 0 where
  no_bytes : Word
  one_byte two_bytes three_bytes : ℕ → Word

-- `Math.imul(word, c1)`, a rotation by 15 bits, and `Math.imul(word, c2)`
pub scramble : ℕ → ℕ
scramble word =
    let x = word * 0xcc9e2d51 % 0x100000000 in
    (x % 0x20000 * 0x8000 + x / 0x20000) * 0x1b873593 % 0x100000000

-- A complete word goes into `h1`.
pub mix : ℕ → ℕ → ℕ
mix h word =
    let x = bit_xor h (scramble word) in
    ((x % 0x80000 * 0x2000 + x / 0x80000) * 5 + 0xe6546b64) % 0x100000000

-- One more byte behind the others of its word.
abbrev pub next_byte : ℕ × Word → ℕ → ℕ × Word
next_byte (h, no_bytes) b = (h, one_byte b)
next_byte (h, one_byte k) b = (h, two_bytes (k + b * 0x100))
next_byte (h, two_bytes k) b = (h, three_bytes (k + b * 0x10000))
next_byte (h, three_bytes k) b = (mix h (k + b * 0x1000000), no_bytes)

-- The header bytes, as many as are defined.
abbrev pub header_bytes : ℕ × Word → List ℕ → ℕ × Word
header_bytes state [] = state
header_bytes state (n ∷ header) = header_bytes (next_byte state (n % 256)) header

-- The aligned words of the buffer, and the bytes behind them.
abbrev pub aligned_words : ℕ → List ℕ → ℕ × Word
aligned_words h [] = (h, no_bytes)
aligned_words h (a ∷ []) = (h, one_byte a)
aligned_words h (a ∷ b ∷ []) = (h, two_bytes (a + b * 0x100))
aligned_words h (a ∷ b ∷ c ∷ []) = (h, three_bytes (a + b * 0x100 + c * 0x10000))
aligned_words h (a ∷ b ∷ c ∷ d ∷ rest) =
    aligned_words (mix h (a + b * 0x100 + c * 0x10000 + d * 0x1000000)) rest

-- The first bytes of the buffer complete the word of the header, where they can.
abbrev pub buffer_bytes : ℕ × Word → List ℕ → ℕ × Word
buffer_bytes (h, no_bytes) buffer = aligned_words h buffer
buffer_bytes (h, one_byte k) [] = (h, one_byte k)
buffer_bytes (h, one_byte k) (a ∷ []) = (h, two_bytes (k + a * 0x100))
buffer_bytes (h, one_byte k) (a ∷ b ∷ []) = (h, three_bytes (k + (a * 0x100 + b * 0x10000)))
buffer_bytes (h, one_byte k) (a ∷ b ∷ c ∷ rest) =
    aligned_words (mix h (k + (a * 0x100 + b * 0x10000 + c * 0x1000000))) rest
buffer_bytes (h, two_bytes k) [] = (h, two_bytes k)
buffer_bytes (h, two_bytes k) (a ∷ []) = (h, three_bytes (k + a * 0x10000))
buffer_bytes (h, two_bytes k) (a ∷ b ∷ rest) =
    aligned_words (mix h (k + (a * 0x10000 + b * 0x1000000))) rest
buffer_bytes (h, three_bytes k) [] = (h, three_bytes k)
buffer_bytes (h, three_bytes k) (a ∷ rest) = aligned_words (mix h (k + a * 0x1000000)) rest

abbrev pub last_word : ℕ × Word → ℕ
last_word (h, no_bytes) = h
last_word (h, one_byte k) = bit_xor h (scramble k)
last_word (h, two_bytes k) = bit_xor h (scramble k)
last_word (h, three_bytes k) = bit_xor h (scramble k)

-- `fmix32`
pub avalanche : ℕ → ℕ
avalanche h =
    let a = bit_xor h (h / 0x10000) * 0x85ebca6b % 0x100000000 in
    let b = bit_xor a (a / 0x2000) * 0xc2b2ae35 % 0x100000000 in bit_xor b (b / 0x10000)

abbrev pub finalize : ℕ → ℕ × Word → ℕ
finalize total state = avalanche (bit_xor (last_word state) total)

abbrev pub fresh : ℕ × Word
fresh = (0, no_bytes)

-- `generateAduHashFingerprint`
pub adu_hash : Option (List ℕ) → List ℕ → ℕ
adu_hash none header = finalize (length header) (header_bytes fresh header)
adu_hash (some buffer) header =
    finalize (length header + length buffer) (buffer_bytes (header_bytes fresh header) buffer)
