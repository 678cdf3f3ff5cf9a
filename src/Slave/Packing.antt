-- ===== src/Slave/Packing.antt =====
-- What the packed bits and registers of src/slave/slave.ts mean, position by position.
use njs_modbus.Common.{
  ℕ, zero, suc, ◌+◌, ◌-◌, ◌*◌, ◌/◌, ◌%◌, ◌<◌, ◌≡◌, refl, ap, List, length, arith, ◌∙◌, take,
  length-take, get_or-take, get_or-append_lt, get_or-append_ge, ne→==,
}
use native.Mathlib.Decide.{dec_lt}
use njs_modbus.Tcp.{byte_at}
use njs_modbus.Slave.Pdu.{
  pack_byte, pack_rem, pack_loop, coils_pdu, bit_of, unpack_byte, unpack_rem, unpack_loop,
}

abbrev HasBit : ℕ → List ℕ → ℕ → ℕ → Type 0
HasBit byte coils base j = bit_of byte j ≡ byte_at coils (base + j) % 2

pack_byte-bit : (coils : List ℕ) (base j : ℕ) → j < 8 → HasBit (pack_byte coils base) coils base j
unfolding pack_byte
pack_byte-bit coils base zero h = omega arith
pack_byte-bit coils base (suc zero) h = omega arith
pack_byte-bit coils base (suc (suc zero)) h = omega arith
pack_byte-bit coils base (suc (suc (suc zero))) h = omega arith
pack_byte-bit coils base (suc (suc (suc (suc zero)))) h = omega arith
pack_byte-bit coils base (suc (suc (suc (suc (suc zero))))) h = omega arith
pack_byte-bit coils base (suc (suc (suc (suc (suc (suc zero)))))) h = omega arith
pack_byte-bit coils base (suc (suc (suc (suc (suc (suc (suc zero))))))) h = omega arith
pack_byte-bit coils base (suc (suc (suc (suc (suc (suc (suc (suc j)))))))) h = absurd (omega arith)

pack_rem-bit :
    (coils : List ℕ) (base rem j : ℕ)
    → rem < 8
    → j < rem
    → HasBit (pack_rem coils base rem) coils base j
unfolding pack_rem
pack_rem-bit coils base rem zero r h = ground arith
pack_rem-bit coils base rem (suc zero) r h = ground arith
pack_rem-bit coils base rem (suc (suc zero)) r h = ground arith
pack_rem-bit coils base rem (suc (suc (suc zero))) r h = ground arith
pack_rem-bit coils base rem (suc (suc (suc (suc zero)))) r h = ground arith
pack_rem-bit coils base rem (suc (suc (suc (suc (suc zero))))) r h = ground arith
pack_rem-bit coils base rem (suc (suc (suc (suc (suc (suc zero)))))) r h = ground arith
pack_rem-bit coils base rem (suc (suc (suc (suc (suc (suc (suc j))))))) r h = absurd (omega arith)

length-pack_loop :
    (coils : List ℕ) (rem i count : ℕ)
    → rem < 8
    → length (pack_loop coils rem i count) ≡ count + (rem + 7) / 8
unfolding pack_loop
length-pack_loop coils rem i zero h = ground arith
length-pack_loop coils rem i (suc count) h =
    omega (arith, length-pack_loop coils rem (suc i) count h)

-- Byte `k` of the loop's output.
pack_loop-full :
    (coils : List ℕ) (rem i count k : ℕ)
    → k < count
    → byte_at (pack_loop coils rem i count) k ≡ pack_byte coils ((i + k) * 8)
unfolding pack_loop
pack_loop-full coils rem i zero k h = absurd (omega arith)
pack_loop-full coils rem i (suc count) zero h =
    ap (λ (m : ℕ). pack_byte coils (m * 8)) (omega arith)
pack_loop-full coils rem i (suc count) (suc k) h =
    let e : suc i + k ≡ i + suc k = omega arith in
    rw (← e) (pack_loop-full coils rem (suc i) count k (omega arith))

pack_loop-last :
    (coils : List ℕ) (rem i count : ℕ)
    → 0 < rem
    → byte_at (pack_loop coils rem i count) count ≡ pack_rem coils ((i + count) * 8) rem
unfolding pack_loop
pack_loop-last coils rem i zero h =
    let e : i + 0 ≡ i = omega arith in rw (e, ne→== rem 0 (omega arith))
pack_loop-last coils rem i (suc count) h =
    let e : suc i + count ≡ i + suc count = omega arith in
    rw (← e) (pack_loop-last coils rem (suc i) count h)

-- The body of an FC 1 or FC 2 response has one byte for the count and one for every eight coils.
pub length-coils_pdu : (n : ℕ) (coils : List ℕ) → length (coils_pdu n coils) ≡ 1 + (n + 7) / 8
unfolding coils_pdu
length-coils_pdu n coils = omega (arith, length-pack_loop coils (n % 8) 0 (n / 8) (omega arith))

-- Bit `i % 8` of byte `i / 8` behind the count is the lowest bit of coil `i`, for every coil asked
-- for, also where the user's array is too short (a missing coil reads as 0).
pub coils_pdu-bit :
    (n : ℕ) (coils : List ℕ) (i : ℕ)
    → i < n
    → bit_of (byte_at (coils_pdu n coils) (suc (i / 8))) (i % 8) ≡ byte_at coils i % 2
unfolding coils_pdu
coils_pdu-bit n coils i h = elim (dec_lt (i / 8) (n / 8)) [
  | yes full ↦
      let place : (0 + i / 8) * 8 + i % 8 ≡ i = omega arith in
      rw (pack_loop-full coils (n % 8) 0 (n / 8) (i / 8) full) (
        pack_byte-bit coils ((0 + i / 8) * 8) (i % 8) (omega arith)
        ∙ ap (λ (k : ℕ). byte_at coils k % 2) place)
  | no last ↦
      let same : i / 8 ≡ n / 8 = omega arith in
      let place : (0 + n / 8) * 8 + i % 8 ≡ i = omega arith in
      rw (same, pack_loop-last coils (n % 8) 0 (n / 8) (omega arith))
        (pack_rem-bit coils ((0 + n / 8) * 8) (n % 8) (i % 8) (omega arith) (omega arith)
          ∙ ap (λ (k : ℕ). byte_at coils k % 2) place)
]

unpack_byte-bit : (byte j : ℕ) → j < 8 → byte_at (unpack_byte byte) j ≡ bit_of byte j
unpack_byte-bit byte zero h = refl
unpack_byte-bit byte (suc zero) h = refl
unpack_byte-bit byte (suc (suc zero)) h = refl
unpack_byte-bit byte (suc (suc (suc zero))) h = refl
unpack_byte-bit byte (suc (suc (suc (suc zero)))) h = refl
unpack_byte-bit byte (suc (suc (suc (suc (suc zero))))) h = refl
unpack_byte-bit byte (suc (suc (suc (suc (suc (suc zero)))))) h = refl
unpack_byte-bit byte (suc (suc (suc (suc (suc (suc (suc zero))))))) h = refl
unpack_byte-bit byte (suc (suc (suc (suc (suc (suc (suc (suc j)))))))) h = absurd (omega arith)

-- The last bits are the first of a whole byte.
unpack_rem-take :
    (byte rem : ℕ) → 0 < rem → rem < 8 → unpack_rem byte rem ≡ take rem (unpack_byte byte)
unfolding unpack_rem
unpack_rem-take byte zero z h = absurd (omega arith)
unpack_rem-take byte (suc zero) z h = refl
unpack_rem-take byte (suc (suc zero)) z h = refl
unpack_rem-take byte (suc (suc (suc zero))) z h = refl
unpack_rem-take byte (suc (suc (suc (suc zero)))) z h = refl
unpack_rem-take byte (suc (suc (suc (suc (suc zero))))) z h = refl
unpack_rem-take byte (suc (suc (suc (suc (suc (suc zero)))))) z h = refl
unpack_rem-take byte (suc (suc (suc (suc (suc (suc (suc zero))))))) z h = refl
unpack_rem-take byte (suc (suc (suc (suc (suc (suc (suc (suc rem)))))))) z h = absurd (omega arith)

pub length-unpack_loop :
    (pdu : List ℕ) (rem i count : ℕ)
    → rem < 8
    → length (unpack_loop pdu rem i count) ≡ count * 8 + rem
unfolding unpack_loop
length-unpack_loop pdu zero i zero h = refl
length-unpack_loop pdu (suc rem) i zero h =
    rw
      (
        ne→== (suc rem) 0 (omega arith),
        unpack_rem-take (byte_at pdu i) (suc rem) (omega arith) h,
        length-take,
      )
      (omega arith)
length-unpack_loop pdu rem i (suc count) h =
    omega (arith, length-unpack_loop pdu rem (suc i) count h)

pub unpack_loop-bit :
    (pdu : List ℕ) (rem i count j : ℕ)
    → rem < 8
    → j < count * 8 + rem
    → byte_at (unpack_loop pdu rem i count) j ≡ bit_of (byte_at pdu (i + j / 8)) (j % 8)
unfolding unpack_loop
unpack_loop-bit pdu rem i zero j r h =
    let at_i : i + j / 8 ≡ i = omega arith in
    let in_byte : j % 8 ≡ j = omega arith in
    rw
      (
        at_i,
        in_byte,
        ne→== rem 0 (omega arith),
        unpack_rem-take (byte_at pdu i) rem (omega arith) r,
        get_or-take rem (unpack_byte (byte_at pdu i)) j 0 (omega arith),
      )
      (unpack_byte-bit (byte_at pdu i) j (omega arith))
unpack_loop-bit pdu rem i (suc count) j r h = elim (dec_lt j 8) [
  | yes low ↦
      let at_i : i + j / 8 ≡ i = omega arith in
      let in_byte : j % 8 ≡ j = omega arith in
      rw (at_i, in_byte)
        (get_or-append_lt (unpack_byte (byte_at pdu i)) _ j 0 low
          ∙ unpack_byte-bit (byte_at pdu i) j low)
  | no high ↦
      let at_next : suc i + (j - 8) / 8 ≡ i + j / 8 = omega arith in
      let in_byte : (j - 8) % 8 ≡ j % 8 = omega arith in
      rw (← at_next, ← in_byte)
        (get_or-append_ge (unpack_byte (byte_at pdu i)) _ j 0 (omega arith)
          ∙ unpack_loop-bit pdu rem (suc i) count (j - 8) r (omega arith))
]
