-- ===== src/Crc/Runs.antt =====
-- Runs of src/utils/crc.ts, and its theorems at concrete messages.
use njs_modbus.Common.{ℕ, ◌≡◌, ◌≢◌, refl, List, [], ◌∷◌, ◌++◌, ◌-◌, length, All, arith}
use njs_modbus.Crc.{table_entry, crc_step, crc_loop, crc_fixed, crc_dual}
use njs_modbus.Crc.Bitwise.{crc_bytes}
use njs_modbus.Crc.Laws.{IsByte, slice, crc_fixed-crc_bytes, crc_dual-crc_fixed}
use njs_modbus.Crc.Injective.{crc_fixed_one_byte}

-- The request and the CRC 0x8776 (sent as 76 87) of the Modbus application protocol's example.
abbrev request : List ℕ
request = 0x11 ∷ 0x03 ∷ 0x00 ∷ 0x6b ∷ 0x00 ∷ 0x03 ∷ []

request_crc : crc_fixed request 0 6 ≡ 0x8776
unfolding crc_fixed crc_loop crc_step table_entry
request_crc = refl

request_bytes : All IsByte request
request_bytes =
    (omega arith, (omega arith, (omega arith, (omega arith, (omega arith, (omega arith, tt))))))

crc_fixed-crc_bytes_example : crc_fixed request 1 5 ≡ crc_bytes 0xffff (slice request 1 (5 - 1))
crc_fixed-crc_bytes_example =
    crc_fixed-crc_bytes request 1 5 request_bytes (omega arith) (omega arith)

crc_dual-crc_fixed_example :
    let joined = slice request 0 2 ++ slice request 3 3 in
    crc_dual request 0 2 request 3 3 ≡ crc_fixed joined 0 (length joined)
crc_dual-crc_fixed_example =
    crc_dual-crc_fixed request 0 2 request 3 3 request_bytes request_bytes (omega arith)
      (omega arith)

crc_fixed_one_byte_example :
    crc_fixed (request ++ 1 ∷ request) 0 (length (request ++ 1 ∷ request))
    ≢ crc_fixed (request ++ 9 ∷ request) 0 (length (request ++ 9 ∷ request))
crc_fixed_one_byte_example =
    crc_fixed_one_byte request request 1 9 request_bytes request_bytes (omega arith) (omega arith)
      (omega arith)
