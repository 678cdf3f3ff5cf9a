-- ===== src/Slave/Types.antt =====
-- The error codes of src/error-code.ts, the constants of src/vars.ts, and the types of
-- src/slave/types.ts and src/slave/slave.ts that the handlers share.
-- A handler of the unit model is user code: a function of the request's values and the user's store
-- `S` to its one callback, an error code or a result, and the store afterwards.
use njs_modbus.Common.{ℕ, Bool, List, Option, none, some}

-- `ErrorCode`
pub data ErrorCode : Type 0 where
  illegal_function : ErrorCode
  illegal_data_address : ErrorCode
  illegal_data_value : ErrorCode
  server_device_failure : ErrorCode
  acknowledge : ErrorCode
  server_device_busy : ErrorCode
  memory_parity_error : ErrorCode
  gateway_path_unavailable : ErrorCode
  gateway_target_device_failed_to_respond : ErrorCode

-- The byte on the wire.
abbrev pub error_value : ErrorCode → ℕ
error_value illegal_function = 0x01
error_value illegal_data_address = 0x02
error_value illegal_data_value = 0x03
error_value server_device_failure = 0x04
error_value acknowledge = 0x05
error_value server_device_busy = 0x06
error_value memory_parity_error = 0x08
error_value gateway_path_unavailable = 0x0a
error_value gateway_target_device_failed_to_respond = 0x0b

-- `LIMITS`
abbrev pub read_coils_min : ℕ
read_coils_min = 0x0001

abbrev pub read_coils_max : ℕ
read_coils_max = 0x07d0

abbrev pub read_registers_min : ℕ
read_registers_min = 0x0001

abbrev pub read_registers_max : ℕ
read_registers_max = 0x007d

abbrev pub write_coils_max : ℕ
write_coils_max = 0x07b0

abbrev pub write_registers_max : ℕ
write_registers_max = 0x007b

abbrev pub rw_registers_write_max : ℕ
rw_registers_write_max = 0x0079

abbrev pub coil_on : ℕ
coil_on = 0xff00

abbrev pub coil_off : ℕ
coil_off = 0x0000

abbrev pub mei_read_device_id : ℕ
mei_read_device_id = 0x0e

abbrev pub diagnostics_return_query_data : ℕ
diagnostics_return_query_data = 0x0000

-- `ProtocolExceptionEventType`
pub data ProtocolExceptionType : Type 0 where
  function_illegal : ProtocolExceptionType
  function_not_implemented : ProtocolExceptionType
  data_value_illegal : ProtocolExceptionType
  data_address_illegal : ProtocolExceptionType
  server_failure : ProtocolExceptionType
  path_unavailable : ProtocolExceptionType

-- The arguments of an error-first callback.
pub data Reply {ℓ} (A : Type ℓ) : Type ℓ where
  refused : ErrorCode → Reply A
  ok : A → Reply A

-- `ServerId`
pub record ServerId : Type 0 where
  pub server_id : Option (List ℕ)
  pub run_indicator_status : Option Bool
  pub additional_data : Option (List ℕ)

module _ (S : Type 0) where
  -- A handler that answers with an `A`.
  abbrev pub Handler : Type 0 → Type 0
  Handler A = S → Reply A × S

  -- `ModbusUnitModel`. An object of the device identification is a key, `none` where
  -- `Number(key)` is no natural number, and the bytes of its text.
  pub record UnitModel : Type 0 where
    pub unit : Option ℕ
    pub read_discrete_inputs : Option (ℕ → ℕ → Handler (List ℕ))
    pub read_coils : Option (ℕ → ℕ → Handler (List ℕ))
    pub write_single_coil : Option (ℕ → ℕ → Handler (Unit {0}))
    pub write_multiple_coils : Option (ℕ → List ℕ → Handler (Unit {0}))
    pub read_input_registers : Option (ℕ → ℕ → Handler (List ℕ))
    pub read_holding_registers : Option (ℕ → ℕ → Handler (List ℕ))
    pub write_single_register : Option (ℕ → ℕ → Handler (Unit {0}))
    pub write_multiple_registers : Option (ℕ → List ℕ → Handler (Unit {0}))
    pub mask_write_register : Option (ℕ → ℕ → ℕ → Handler (Unit {0}))
    pub diagnostics_return_query_data : Option (ℕ → Handler (Unit {0}))
    pub report_server_id : Option (Handler ServerId)
    pub read_device_identification : Option (Handler (List (Option ℕ × List ℕ)))

  -- What one call of a handler `_handleFC…` does: the arguments of its callback, the
  -- `protocolException` event that it emits, and the store.
  pub record Handled : Type 0 where
    pub reply : Reply (List ℕ)
    pub exception : Option ProtocolExceptionType
    pub store : S

abbrev pub answer {ℓ} : {A : Type ℓ} → (A → List ℕ) → Reply A → Reply (List ℕ)
answer pdu (refused code) = refused code
answer pdu (ok a) = ok (pdu a)

module _ {S : Type 0} where
  -- `callback(code, undefined); this.emit('protocolException', …); return;`
  abbrev pub reject : ErrorCode → ProtocolExceptionType → S → Handled S
  reject code type store = record { reply = refused code; exception = some type; store = store }

  -- The callback that most handlers pass to the unit model: errors go on, results are encoded.
  abbrev pub finish {ℓ} : {A : Type ℓ} → (A → List ℕ) → Reply A × S → Handled S
  finish pdu r = record { reply = answer pdu r.0; exception = none; store = r.1 }

  -- `if (!model.handler) { … return; }`
  abbrev pub implemented {ℓ} : {H : Type ℓ} → Option H → S → (H → Handled S) → Handled S
  implemented none store k = reject illegal_function function_not_implemented store
  implemented (some h) store k = k h
