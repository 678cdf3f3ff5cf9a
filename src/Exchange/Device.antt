-- ===== src/Exchange/Device.antt =====
-- The device identification that `_handleFC43_14` of src/slave/slave.ts answers with, read by
-- `readDeviceIdentification` of src/master/master.ts.
mod Runs
use njs_modbus.Common.{
  ℕ, ◌+◌, ◌≡◌, refl, sym, ◌∙◌, ap, not, Bool, true, ◌==◌, Bool-cases, inl, inr, if◌then◌else◌,
}
use njs_modbus.Slave.DeviceId.{Objects, Chosen, conformity_level}
use njs_modbus.Slave.DeviceId.Encoded.{values_of}
use njs_modbus.Master.Device.{Identification}

-- What the master makes of a choice of the slave.
abbrev pub identification : Objects → ℕ → Chosen → Identification
identification objects code c = record {
  read_device_id_code = code;
  conformity_level = conformity_level objects;
  more_follows = not (c.last_id == 0);
  next_object_id = c.last_id;
  objects = values_of objects c.ids;
}

more_follows : (n : ℕ) → ((if n == 0 then 0x00 else 0xff) == 0xff) ≡ not (n == 0)
more_follows n = elim (Bool-cases (n == 0)) [ inl last ↦ rw last refl | inr more ↦ rw more refl ]
