-- ===== src/Exchange/Locks.antt =====
-- The write requests of src/master/master.ts against the ranges that the write lock of
-- src/slave/slave.ts takes for them.
mod Runs
use njs_modbus.Common.{
  ℕ, ◌+◌, ◌*◌, ◌<◌, ◌≤◌, ◌≡◌, refl, arith, List, [], ◌∷◌, length, ltb, lt→ltb, if◌then◌else◌,
}
use njs_modbus.Tcp.{Frame, be16}
use njs_modbus.Tcp.RoundTrip.{frame_of_adu}
use njs_modbus.Slave.FunctionCode.{
  write_single_coil, write_single_register, write_multiple_coils, write_multiple_registers,
  mask_write_register, read_write_multiple_registers,
}
use njs_modbus.Slave.RoundTrip.{length-registers_loop}
use njs_modbus.Slave.Lock.Ranges.{Declared, locked_ranges, write_ranges}
use njs_modbus.Master.Reads.{read_write_request}
use njs_modbus.Master.Writes.{
  single_coil_request, single_register_request, mask_write_request, coils_request,
  registers_request,
}
use njs_modbus.Exchange.Reach.{be16-word}

-- What the lock takes for a request of the master.
abbrev pub locked : Declared → ℕ → ℕ → ℕ → List ℕ → List ℕ
locked declared transaction unit fc payload =
    locked_ranges declared unit
      (frame_of_adu (record { transaction = transaction; unit = unit; fc = fc; payload = payload }))

-- The lock takes the one address that FC 5, 6 and 22 write.
single_locks :
    (declared : Declared) (transaction unit address value and_mask or_mask : ℕ)
    → address < 65536
    → let one : List ℕ = address ∷ (address + 1) ∷ [] in
      (locked declared transaction unit write_single_coil (single_coil_request address value) ≡ one)
      × (locked declared transaction unit write_single_register
            (single_register_request address value)
          ≡ one)
      × (locked declared transaction unit mask_write_register
            (mask_write_request address and_mask or_mask)
          ≡ one)
unfolding locked_ranges write_ranges
single_locks declared transaction unit address value and_mask or_mask h =
    rw (be16-word address h) (refl, refl, refl)

-- It takes as many addresses as FC 15, 16 and 23 write values, from the first one on.
multiple_locks :
    (declared : Declared) (transaction unit address read_address read_length : ℕ) (values : List ℕ)
    → address < 65536
    → 0 < length values
    → length values ≤ 1968
    → let range : List ℕ = address ∷ (address + length values) ∷ [] in
      (locked declared transaction unit write_multiple_coils (coils_request address values) ≡ range)
      × (locked declared transaction unit write_multiple_registers
            (registers_request address values)
          ≡ range)
      × (locked declared transaction unit read_write_multiple_registers
            (read_write_request read_address read_length address values)
          ≡ range)
unfolding locked_ranges write_ranges coils_request registers_request read_write_request
multiple_locks declared transaction unit address read_address read_length values a some_value h =
    let n : length values < 65536 = omega arith in
    let long =
      lt→ltb 9 (length (read_write_request read_address read_length address values))
        (omega (arith, length-registers_loop values 0 (length values))) in
    rw (be16-word address a, be16-word (length values) n, long) (refl, refl, refl)

-- For addresses below 65536, and at least one and at most 1968 values, the write lock takes for a
-- write request of the master exactly the addresses that it writes: the one of FC 5, 6 and 22, and as
-- many as there are values from the first one on for FC 15, 16 and 23.
pub request_locks :
    (declared : Declared)
    (transaction unit address value and_mask or_mask read_address read_length : ℕ) (values : List ℕ)
    → address < 65536
    → 0 < length values
    → length values ≤ 1968
    → let one : List ℕ = address ∷ (address + 1) ∷ [] in
      let range : List ℕ = address ∷ (address + length values) ∷ [] in
      ((locked declared transaction unit write_single_coil (single_coil_request address value)
          ≡ one)
        × (locked declared transaction unit write_single_register
              (single_register_request address value)
            ≡ one)
        × (locked declared transaction unit mask_write_register
              (mask_write_request address and_mask or_mask)
            ≡ one))
      × ((locked declared transaction unit write_multiple_coils (coils_request address values)
            ≡ range)
          × (locked declared transaction unit write_multiple_registers
                (registers_request address values)
              ≡ range)
          × (locked declared transaction unit read_write_multiple_registers
                (read_write_request read_address read_length address values)
              ≡ range))
request_locks declared transaction unit address value and_mask or_mask read_address read_length
      values a some_value h =
    (
      single_locks declared transaction unit address value and_mask or_mask a,
      multiple_locks declared transaction unit address read_address read_length values a some_value
          h,
    )
