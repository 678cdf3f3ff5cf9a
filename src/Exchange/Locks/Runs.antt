-- ===== src/Exchange/Locks/Runs.antt =====
-- The ranges of the write lock of src/slave/slave.ts at concrete requests.
use njs_modbus.Common.{ℕ, ◌≡◌, arith, List, [], ◌∷◌, none}
use njs_modbus.Slave.Lock.Ranges.{Declared}
use njs_modbus.Master.Reads.{read_write_request}
use njs_modbus.Master.Writes.{
  single_coil_request, single_register_request, mask_write_request, coils_request,
  registers_request,
}
use njs_modbus.Exchange.Locks.{locked, request_locks}

abbrev none_declared : Declared
none_declared unit fc payload = none

request_locks_example :
    let one : List ℕ = 300 ∷ 301 ∷ [] in
    let range : List ℕ = 300 ∷ 302 ∷ [] in
    ((locked none_declared 7 1 5 (single_coil_request 300 1) ≡ one)
      × (locked none_declared 7 1 6 (single_register_request 300 1) ≡ one)
      × (locked none_declared 7 1 22 (mask_write_request 300 0xff 0) ≡ one))
    × ((locked none_declared 7 1 15 (coils_request 300 (1 ∷ 0 ∷ [])) ≡ range)
        × (locked none_declared 7 1 16 (registers_request 300 (1 ∷ 0 ∷ [])) ≡ range)
        × (locked none_declared 7 1 23 (read_write_request 10 4 300 (1 ∷ 0 ∷ [])) ≡ range))
request_locks_example =
    request_locks none_declared 7 1 300 1 0xff 0 10 4 (1 ∷ 0 ∷ []) (omega arith) (omega arith)
      (omega arith)
