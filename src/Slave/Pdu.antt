-- ===== src/Slave/Pdu.antt =====
-- The response bodies and request values of src/slave/slave.ts: bits packed eight to a byte, lowest
-- first, and registers in two bytes each, highest first.
-- An array of the user may be too short: a read past its end gives `undefined`, which the masks of
-- the code turn into 0. `|` joins disjoint bits, so it is a sum here. The guards of the handlers
-- keep a byte count below 256.
use njs_modbus.Common.{
  ℕ, zero, suc, ◌+◌, ◌*◌, ◌/◌, ◌%◌, ◌^◌, List, [], ◌∷◌, ◌++◌, ltb, ◌==◌, if◌then◌else◌,
}
use njs_modbus.Tcp.{byte_at, be16}

-- `coils[base] & 1`, shifted to position `k`.
abbrev pub bit : List ℕ → ℕ → ℕ → ℕ
bit coils base k = byte_at coils (base + k) % 2 * 2 ^ k

unfoldable pub pack_byte : List ℕ → ℕ → ℕ
pack_byte coils base =
    bit coils base 0
    + bit coils base 1
    + bit coils base 2
    + bit coils base 3
    + bit coils base 4
    + bit coils base 5
    + bit coils base 6
    + bit coils base 7

-- The last byte, of `rem` bits, 0 < rem < 8.
unfoldable pub pack_rem : List ℕ → ℕ → ℕ → ℕ
pack_rem coils base rem =
    bit coils base 0
    + (if ltb 1 rem then bit coils base 1 else 0)
    + (if ltb 2 rem then bit coils base 2 else 0)
    + (if ltb 3 rem then bit coils base 3 else 0)
    + (if ltb 4 rem then bit coils base 4 else 0)
    + (if ltb 5 rem then bit coils base 5 else 0)
    + (if ltb 6 rem then bit coils base 6 else 0)

-- The loop over the full bytes, from byte `i` on, `count` of them left; then the last byte.
unfoldable pub pack_loop : List ℕ → ℕ → ℕ → ℕ → List ℕ
pack_loop coils rem i zero = if rem == 0 then [] else pack_rem coils (i * 8) rem ∷ []
pack_loop coils rem i (suc count) = pack_byte coils (i * 8) ∷ pack_loop coils rem (suc i) count

-- The response body of FC 1 and FC 2.
unfoldable pub coils_pdu : ℕ → List ℕ → List ℕ
coils_pdu length coils = (length + 7) / 8 ∷ pack_loop coils (length % 8) 0 (length / 8)

-- `(byte >>> k) & 0x01`
abbrev pub bit_of : ℕ → ℕ → ℕ
bit_of byte k = byte / 2 ^ k % 2

abbrev pub unpack_byte : ℕ → List ℕ
unpack_byte byte =
    bit_of byte 0
    ∷ bit_of byte 1
    ∷ bit_of byte 2
    ∷ bit_of byte 3
    ∷ bit_of byte 4
    ∷ bit_of byte 5
    ∷ bit_of byte 6
    ∷ bit_of byte 7
    ∷ []

-- The bits of the last byte, 0 < rem < 8.
unfoldable pub unpack_rem : ℕ → ℕ → List ℕ
unpack_rem byte rem =
    bit_of byte 0 ∷ (if ltb 1 rem then bit_of byte 1 ∷ [] else [])
    ++ (if ltb 2 rem then bit_of byte 2 ∷ [] else [])
    ++ (if ltb 3 rem then bit_of byte 3 ∷ [] else [])
    ++ (if ltb 4 rem then bit_of byte 4 ∷ [] else [])
    ++ (if ltb 5 rem then bit_of byte 5 ∷ [] else [])
    ++ (if ltb 6 rem then bit_of byte 6 ∷ [] else [])

-- The loop over the full bytes from index `i` of the request on; then the last byte.
unfoldable pub unpack_loop : List ℕ → ℕ → ℕ → ℕ → List ℕ
unpack_loop pdu rem i zero = if rem == 0 then [] else unpack_rem (byte_at pdu i) rem
unpack_loop pdu rem i (suc count) = unpack_byte (byte_at pdu i) ++ unpack_loop pdu rem (suc i) count

-- The coil values of an FC 15 request.
unfoldable pub coil_values : ℕ → List ℕ → List ℕ
coil_values length pdu = unpack_loop pdu (length % 8) 5 (length / 8)

-- `(v >>> 8) & 0xff` and `v & 0xff` of each register.
unfoldable pub registers_loop : List ℕ → ℕ → ℕ → List ℕ
registers_loop registers i zero = []
registers_loop registers i (suc count) =
    byte_at registers i / 256 % 256
    ∷ byte_at registers i % 256
    ∷ registers_loop registers (suc i) count

-- The response body of FC 3, FC 4 and FC 23.
unfoldable pub registers_pdu : ℕ → List ℕ → List ℕ
registers_pdu length registers = length * 2 ∷ registers_loop registers 0 length

-- The register values of an FC 16 or FC 23 request, which begin at index `off`.
unfoldable pub register_values : ℕ → List ℕ → ℕ → List ℕ
register_values zero pdu off = []
register_values (suc count) pdu off = be16 pdu off ∷ register_values count pdu (off + 2)
