-- ===== src/Slave/ServerInfo.antt =====
-- `_handleFC17` of src/slave/slave.ts.
use njs_modbus.Common.{
  ℕ, ◌+◌, ◌%◌, true, not, List, [], ◌∷◌, ◌++◌, Option, none, some, ltb, ◌==◌, if◌then◌else◌, length,
}
use njs_modbus.Slave.Types.{
  illegal_data_value, server_device_failure, data_value_illegal, UnitModel, Handled, Reply, refused,
  ok, ServerId, reject, implemented,
}

abbrev pub get_default {ℓ} : {A : Type ℓ} → A → Option A → A
get_default d none = d
get_default d (some a) = a

-- The bytes that stand for the server id: the given ones, or the unit's number.
unfoldable pub server_id_bytes : Option (List ℕ) → Option ℕ → List ℕ
server_id_bytes (some sid) unit = sid
server_id_bytes none unit = get_default 1 unit % 256 ∷ []

-- The response body of FC 17, or `none` where it would be too long.
unfoldable pub server_id_pdu : Option ℕ → ServerId → Reply (List ℕ)
server_id_pdu unit r =
    let sid = server_id_bytes r.server_id unit in
    let extra = get_default [] r.additional_data in
    let byte_count = length sid + 1 + length extra in
    if ltb 251 byte_count
    then refused server_device_failure
    else ok (
        byte_count ∷ sid
        ++ (if get_default true r.run_indicator_status then 0xff else 0x00) ∷ extra)

abbrev pub and_then {ℓ} : {A : Type ℓ} → Reply A → (A → Reply (List ℕ)) → Reply (List ℕ)
and_then (refused code) k = refused code
and_then (ok a) k = k a

module _ {S : Type 0} where
  unfoldable pub handle_fc17 : UnitModel S → List ℕ → S → Handled S
  unfolding server_id_pdu server_id_bytes
  handle_fc17 model pdu store =
      if not (length pdu == 0)
      then reject illegal_data_value data_value_illegal store
      else implemented model.report_server_id store λ report_server_id.
        let r = report_server_id store in
        record { reply = and_then r.0 (server_id_pdu model.unit); exception = none; store = r.1 }
