-- ===== src/Fingerprint/Laws.antt =====
-- The hash of src/utils/adu-fingerprint.ts is MurmurHash3.
use njs_modbus.Common.{
  ℕ, ◌+◌, ◌*◌, ◌/◌, ◌%◌, ◌^◌, bit_xor, sym, ◌∙◌, ◌≡◌, refl, ap, arith, List, [], ◌∷◌, ◌++◌, Option,
  none, some, length, length-append,
}
use njs_modbus.Fingerprint.{
  Word, no_bytes, one_byte, two_bytes, three_bytes, mix, next_byte, header_bytes, aligned_words,
  buffer_bytes, finalize, fresh, adu_hash, scramble, avalanche, last_word,
}
use njs_modbus.Fingerprint.Murmur.{
  times, rotate_13, rotate_15, c1, c2, scrambled, after_block, little_endian, final_mix, body,
  murmur3,
}

-- One byte after the other.
abbrev pub take_bytes : ℕ × Word → List ℕ → ℕ × Word
take_bytes state [] = state
take_bytes state (b ∷ bytes) = take_bytes (next_byte state b) bytes

abbrev pub low_bytes : List ℕ → List ℕ
low_bytes [] = []
low_bytes (n ∷ header) = n % 256 ∷ low_bytes header

length-low_bytes : (header : List ℕ) → length (low_bytes header) ≡ length header
length-low_bytes [] = refl
length-low_bytes (n ∷ header) = omega (arith, length-low_bytes header)

aligned_words_lem :
    (h : ℕ) (bytes : List ℕ) → aligned_words h bytes ≡ take_bytes (h, no_bytes) bytes
aligned_words_lem h [] = refl
aligned_words_lem h (a ∷ []) = refl
aligned_words_lem h (a ∷ b ∷ []) = refl
aligned_words_lem h (a ∷ b ∷ c ∷ []) = refl
aligned_words_lem h (a ∷ b ∷ c ∷ d ∷ rest) =
    aligned_words_lem (mix h (a + b * 0x100 + c * 0x10000 + d * 0x1000000)) rest

add_two : (k a b : ℕ) → k + (a + b) ≡ k + a + b
add_two k a b = omega arith

buffer_bytes_lem :
    (state : ℕ × Word) (bytes : List ℕ) → buffer_bytes state bytes ≡ take_bytes state bytes
buffer_bytes_lem (h, no_bytes) bytes = aligned_words_lem h bytes
buffer_bytes_lem (h, one_byte k) [] = refl
buffer_bytes_lem (h, one_byte k) (a ∷ []) = refl
buffer_bytes_lem (h, one_byte k) (a ∷ b ∷ []) =
    ap (λ (w : ℕ). (h, three_bytes w)) (add_two k (a * 0x100) (b * 0x10000))
buffer_bytes_lem (h, one_byte k) (a ∷ b ∷ c ∷ rest) =
    let same : k + (a * 0x100 + b * 0x10000 + c * 0x1000000)
        ≡ k + a * 0x100 + b * 0x10000 + c * 0x1000000 =
      omega arith in
    rw same (aligned_words_lem (mix h (k + a * 0x100 + b * 0x10000 + c * 0x1000000)) rest)
buffer_bytes_lem (h, two_bytes k) [] = refl
buffer_bytes_lem (h, two_bytes k) (a ∷ []) = refl
buffer_bytes_lem (h, two_bytes k) (a ∷ b ∷ rest) =
    rw (add_two k (a * 0x10000) (b * 0x1000000))
      (aligned_words_lem (mix h (k + a * 0x10000 + b * 0x1000000)) rest)
buffer_bytes_lem (h, three_bytes k) [] = refl
buffer_bytes_lem (h, three_bytes k) (a ∷ rest) = aligned_words_lem (mix h (k + a * 0x1000000)) rest

header_then_bytes :
    (state : ℕ × Word) (header bytes : List ℕ)
    → take_bytes (header_bytes state header) bytes ≡ take_bytes state (low_bytes header ++ bytes)
header_then_bytes state [] bytes = refl
header_then_bytes state (n ∷ header) bytes =
    header_then_bytes (next_byte state (n % 256)) header bytes

-- The steps of the source are those of MurmurHash3, constants and rotations included.
scramble-scrambled : (word : ℕ) → scramble word ≡ scrambled word
unfolding scramble
scramble-scrambled word =
    let x = times word c1 in
    let rotated : x % 0x20000 * 0x8000 + x / 0x20000 ≡ rotate_15 x = omega arith in
    ap (λ (y : ℕ). times y c2) rotated

mix-after_block : (h word : ℕ) → mix h word ≡ after_block h word
unfolding mix
mix-after_block h word =
    let rotated : (x : ℕ) → x % 0x80000 * 0x2000 + x / 0x80000 ≡ rotate_13 x = λ x. omega arith in
    rw (scramble-scrambled word)
      (ap (λ (y : ℕ). (y * 5 + 3864292196) % 2 ^ 32) (rotated (bit_xor h (scrambled word))))

avalanche-final_mix : (h : ℕ) → avalanche h ≡ final_mix h
unfolding avalanche
avalanche-final_mix h = refl

last_word-body : (h : ℕ) (bytes : List ℕ) → last_word (aligned_words h bytes) ≡ body h bytes
last_word-body h [] = refl
last_word-body h (a ∷ []) =
    let word : a ≡ little_endian (a ∷ []) = omega arith in
    ap (bit_xor h) (scramble-scrambled a ∙ ap scrambled word)
last_word-body h (a ∷ b ∷ []) =
    let k = a + b * 0x100 in
    let word : k ≡ little_endian (a ∷ b ∷ []) = omega arith in
    ap (bit_xor h) (scramble-scrambled k ∙ ap scrambled word)
last_word-body h (a ∷ b ∷ c ∷ []) =
    let k = a + b * 0x100 + c * 0x10000 in
    let word : k ≡ little_endian (a ∷ b ∷ c ∷ []) = omega arith in
    ap (bit_xor h) (scramble-scrambled k ∙ ap scrambled word)
last_word-body h (a ∷ b ∷ c ∷ d ∷ rest) =
    let k = a + b * 0x100 + c * 0x10000 + d * 0x1000000 in
    let word : k ≡ little_endian (a ∷ b ∷ c ∷ d ∷ []) = omega arith in
    last_word-body (mix h k) rest
    ∙ ap (λ (g : ℕ). body g rest) (mix-after_block h k ∙ ap (after_block h) word)

-- The bytes of the buffer, if there is one.
abbrev pub bytes_of : Option (List ℕ) → List ℕ
bytes_of none = []
bytes_of (some buffer) = buffer

finalize-murmur3 :
    (n : ℕ) (state : ℕ × Word) (bytes : List ℕ)
    → n ≡ length bytes
    → state ≡ take_bytes fresh bytes
    → finalize n state ≡ murmur3 0 bytes
unfolding murmur3
finalize-murmur3 n state bytes total e =
    rw (total, e ∙ sym (aligned_words_lem 0 bytes), last_word-body 0 bytes, avalanche-final_mix)
      refl

-- The hash of header bytes and a buffer, or of header bytes alone, is MurmurHash3_x86_32 with seed 0
-- of the low bytes of the header followed by the buffer.
pub adu_hash-murmur3 :
    (buffer : Option (List ℕ)) (header : List ℕ)
    → adu_hash buffer header ≡ murmur3 0 (low_bytes header ++ bytes_of buffer)
unfolding adu_hash
adu_hash-murmur3 none header =
    finalize-murmur3 (length header) (header_bytes fresh header) (low_bytes header ++ [])
      (omega (arith, length-append (low_bytes header) [], length-low_bytes header))
      (header_then_bytes fresh header [])
adu_hash-murmur3 (some buffer) header =
    finalize-murmur3 (length header + length buffer)
      (buffer_bytes (header_bytes fresh header) buffer) (low_bytes header ++ buffer)
      (omega (arith, length-append (low_bytes header) buffer, length-low_bytes header))
      (buffer_bytes_lem (header_bytes fresh header) buffer ∙ header_then_bytes fresh header buffer)
