-- ===== src/Crc/Laws.antt =====
-- The CRC of src/utils/crc.ts over a whole message.
use njs_modbus.Common.{
  ℕ, zero, suc, ◌+◌, ◌-◌, ◌/◌, ◌%◌, ◌≤◌, ◌<◌, ◌≡◌, refl, ap, ◌∙◌, sym, arith, List, [], ◌∷◌, ◌++◌,
  length, take, drop, All, All-append, All-take, All-drop, take_all,
}
use mathlib.Core.Path.{subst}
use njs_modbus.Tcp.{byte_at}
use njs_modbus.Crc.{crc_loop, crc_fixed, crc_dual}
use njs_modbus.Crc.Bitwise.{crc_byte, crc_bytes, crc_byte-low, crc_step-crc_byte, crc_step-lt}

abbrev pub IsByte : ℕ → Type 0
IsByte b = b < 256

byte_at-IsByte : (bytes : List ℕ) (i : ℕ) → All IsByte bytes → byte_at bytes i < 256
byte_at-IsByte [] i h = omega arith
byte_at-IsByte (b ∷ bytes) zero h = h.0
byte_at-IsByte (b ∷ bytes) (suc i) h = byte_at-IsByte bytes i h.1

-- The slice of `count` bytes from `index` on.
abbrev pub slice : List ℕ → ℕ → ℕ → List ℕ
slice bytes index count = take count (drop index bytes)

slice-suc :
    (bytes : List ℕ) (index count : ℕ)
    → index < length bytes
    → slice bytes index (suc count) ≡ byte_at bytes index ∷ slice bytes (index + 1) count
slice-suc [] index count h = absurd (omega arith)
slice-suc (b ∷ bytes) zero count h = refl
slice-suc (b ∷ bytes) (suc index) count h =
    let e : suc index + 1 ≡ suc (index + 1) = omega arith in
    rw e (slice-suc bytes index count (omega arith))

loop-crc_bytes :
    (bytes : List ℕ) (crc index count : ℕ)
    → All IsByte bytes
    → index + count ≤ length bytes
    → crc_loop bytes crc index count ≡ crc_bytes crc (slice bytes index count)
unfolding crc_loop crc_bytes
loop-crc_bytes bytes crc index zero h r = refl
loop-crc_bytes bytes crc index (suc count) h r =
    rw
      (
        slice-suc bytes index count (omega arith),
        crc_step-crc_byte crc (byte_at bytes index) (byte_at-IsByte bytes index h),
      )
      (loop-crc_bytes bytes (crc_byte crc (byte_at bytes index)) (index + 1) count h (omega arith))

-- Over bytes, and a range inside the data, `crcFixed` is the CRC of the bytes of the range, by its
-- definition bit by bit.
pub crc_fixed-crc_bytes :
    (bytes : List ℕ) (start stop : ℕ)
    → All IsByte bytes
    → start ≤ stop
    → stop ≤ length bytes
    → crc_fixed bytes start stop ≡ crc_bytes 0xffff (slice bytes start (stop - start))
unfolding crc_fixed
crc_fixed-crc_bytes bytes start stop h s r =
    loop-crc_bytes bytes 0xffff start (stop - start) h (omega arith)

pub crc_bytes-append :
    (crc : ℕ) (xs ys : List ℕ) → crc_bytes crc (xs ++ ys) ≡ crc_bytes (crc_bytes crc xs) ys
unfolding crc_bytes
crc_bytes-append crc [] ys = refl
crc_bytes-append crc (x ∷ xs) ys = crc_bytes-append (crc_byte crc x) xs ys

slice-IsByte :
    (bytes : List ℕ) (index count : ℕ) → All IsByte bytes → All IsByte (slice bytes index count)
slice-IsByte bytes index count h =
    All-take IsByte count (drop index bytes) (All-drop IsByte index bytes h)

-- `crcDual` over two ranges, each inside its buffer, is `crcFixed` over the whole of a buffer that
-- holds the bytes of the first range and then those of the second.
pub crc_dual-crc_fixed :
    (head : List ℕ) (head_off head_len : ℕ) (tail : List ℕ) (tail_off tail_len : ℕ)
    → All IsByte head
    → All IsByte tail
    → head_off + head_len ≤ length head
    → tail_off + tail_len ≤ length tail
    → let joined = slice head head_off head_len ++ slice tail tail_off tail_len in
      crc_dual head head_off head_len tail tail_off tail_len ≡ crc_fixed joined 0 (length joined)
unfolding crc_dual
crc_dual-crc_fixed head head_off head_len tail tail_off tail_len h t rh rt =
    let first = slice head head_off head_len in
    let second = slice tail tail_off tail_len in
    let joined = first ++ second in
    let joined_bytes =
      All-append IsByte first second (slice-IsByte head head_off head_len h)
        (slice-IsByte tail tail_off tail_len t) in
    rw (
      loop-crc_bytes head 0xffff head_off head_len h rh,
      loop-crc_bytes tail (crc_bytes 0xffff first) tail_off tail_len t rt,
      crc_fixed-crc_bytes joined 0 (length joined) joined_bytes (omega arith) (omega arith),
      take_all (length joined - 0) joined (omega arith),
      crc_bytes-append,
    )

pub crc_bytes-lt :
    (crc : ℕ) (message : List ℕ) → crc < 65536 → All IsByte message → crc_bytes crc message < 65536
unfolding crc_bytes
crc_bytes-lt crc [] s h = s
crc_bytes-lt crc (b ∷ message) s h =
    crc_bytes-lt (crc_byte crc b) message
      (subst (λ (t : ℕ). t < 65536) (crc_step-crc_byte crc b h.0) (crc_step-lt crc b s h.0)) h.1

-- The two rounds over the CRC's own bytes.
residue : (crc : ℕ) → crc < 65536 → crc_bytes crc (crc % 256 ∷ crc / 256 ∷ []) ≡ 0
unfolding crc_bytes
residue crc s =
    let high : crc / 256 % 256 ≡ crc / 256 = omega arith in
    let last : crc_byte (crc / 256) (crc / 256) ≡ crc / 256 / 256 =
      ap (crc_byte (crc / 256)) (sym high) ∙ crc_byte-low (crc / 256) in
    rw crc_byte-low (last ∙ omega arith)

-- `crcFixed` over a whole buffer.
pub crc_fixed_whole :
    (message : List ℕ)
    → All IsByte message
    → crc_fixed message 0 (length message) ≡ crc_bytes 0xffff message
crc_fixed_whole message h =
    crc_fixed-crc_bytes message 0 (length message) h (omega arith) (omega arith)
    ∙ ap (crc_bytes 0xffff) (take_all (length message - 0) message (omega arith))

crc_bytes-residue :
    (start : ℕ) (message : List ℕ)
    → start < 65536
    → All IsByte message
    → let crc = crc_bytes start message in
      crc_bytes start (message ++ crc % 256 ∷ crc / 256 ∷ []) ≡ 0
crc_bytes-residue start message s h =
    let crc = crc_bytes start message in
    rw crc_bytes-append (residue crc (crc_bytes-lt start message s h))

-- The receiver's check: over any message of bytes, with the low and the high byte of its `crcFixed`
-- behind it, `crcFixed` gives 0.
pub crc_fixed-residue :
    (message : List ℕ)
    → All IsByte message
    → let crc = crc_fixed message 0 (length message) in
      let sent = message ++ crc % 256 ∷ crc / 256 ∷ [] in crc_fixed sent 0 (length sent) ≡ 0
crc_fixed-residue message h =
    let crc = crc_bytes 0xffff message in
    let small = crc_bytes-lt 0xffff message (omega arith) h in
    rw (crc_fixed_whole message h) (
      crc_fixed_whole (message ++ crc % 256 ∷ crc / 256 ∷ [])
        (All-append IsByte message _ h (omega arith, (omega arith, tt)))
      ∙ crc_bytes-residue 0xffff message (omega arith) h)
