-- ===== src/Slave/Execute.antt =====
-- `_executeUnitWrite` and `_processFrame` of src/slave/slave.ts, for a slave over Modbus TCP without a
-- write range lock. What a call does outside is a list of effects, in order; `finished` is the call
-- of the `callback` argument. A write that fails later only emits an event, which is left out, and a
-- promise of the authorizer is settled at once.
pub mod Finish
pub mod Silent
use njs_modbus.Common.{
  ℕ, suc, ◌-◌, ◌%◌, Bool, true, false, List, [], ◌∷◌, ◌++◌, Option, none, some, ◌==◌, if◌then◌else◌,
  length, bit_or,
}
use njs_modbus.Tcp.{Frame, encode}
use njs_modbus.Slave.Types.{
  ErrorCode, error_value, gateway_path_unavailable, ProtocolExceptionType, path_unavailable, Reply,
  refused, ok, UnitModel, Handled,
}
use njs_modbus.Slave.Dispatch.{CustomResponses, handle_fc}

-- What `checkRuntime` answers, at once or by a promise.
pub data Verdict : Type 0 where
  allowed denied : Verdict
  denied_with : ℕ → Verdict

pub data Effect : Type 0 where
  writes : List ℕ → Effect
  finished : Effect
  access_denied : Effect
  protocol_exception : ProtocolExceptionType → Effect

-- A response, unless the request is a broadcast.
abbrev pub written : Bool → List ℕ → List Effect
written true response = writes response ∷ []
written false response = []

-- `fc | EXCEPTION_OFFSET` with one byte.
abbrev pub exception_response : ℕ → Frame → ℕ → List ℕ
exception_response unit frame code =
    encode unit (bit_or frame.fc 0x80) (code ∷ []) frame.transaction

abbrev pub normal_response : ℕ → Frame → List ℕ → List ℕ
normal_response unit frame pdu = encode unit frame.fc pdu frame.transaction

-- The branch on the runtime check of a successful response. `Buffer.from` keeps the low eight bits of
-- the number that the check answers.
unfoldable pub after_check : ℕ → Frame → Bool → List ℕ → Verdict → List Effect
after_check unit frame should_respond pdu allowed =
    written should_respond (normal_response unit frame pdu) ++ finished ∷ []
after_check unit frame should_respond pdu denied = finished ∷ access_denied ∷ []
after_check unit frame should_respond pdu (denied_with code) =
    written should_respond (exception_response unit frame (code % 256))
    ++ finished ∷ access_denied ∷ []

-- `checkRuntime`, where the authorizer has one.
abbrev pub RuntimeCheck : Type 0
RuntimeCheck = Option (ℕ → ℕ → List ℕ → Verdict)

abbrev pub verdict_of : RuntimeCheck → ℕ → Frame → Verdict
verdict_of none unit frame = allowed
verdict_of (some check) unit frame = check unit frame.fc frame.payload

-- The callback that is passed to `_handleFC`.
unfoldable pub on_reply : RuntimeCheck → ℕ → Frame → Bool → Reply (List ℕ) → List Effect
on_reply check unit frame should_respond (ok pdu) =
    after_check unit frame should_respond pdu (verdict_of check unit frame)
on_reply check unit frame should_respond (refused code) =
    written should_respond (exception_response unit frame (error_value code)) ++ finished ∷ []

abbrev pub exception_effect : Option ProtocolExceptionType → List Effect
exception_effect none = []
exception_effect (some type) = protocol_exception type ∷ []

-- The slave's configuration: `_units` in the order of insertion, `_cfcResponses`, the authorizer.
pub record Slave (S : Type 0) : Type 0 where
  pub units : List (ℕ × UnitModel S)
  pub custom : CustomResponses S
  pub check : RuntimeCheck

unfoldable pub find_unit : {S : Type 0} → ℕ → List (ℕ × UnitModel S) → Option (UnitModel S)
find_unit unit [] = none
find_unit unit (entry ∷ rest) = if entry.0 == unit then some entry.1 else find_unit unit rest

-- `onUnitDone` of a broadcast: the callback is called when the last of the units is done.
pub count_down : ℕ → List Effect → List Effect × ℕ
count_down remaining [] = ([], remaining)
count_down remaining (writes response ∷ rest) =
    let later = count_down remaining rest in (writes response ∷ later.0, later.1)
count_down remaining (access_denied ∷ rest) =
    let later = count_down remaining rest in (access_denied ∷ later.0, later.1)
count_down remaining (protocol_exception type ∷ rest) =
    let later = count_down remaining rest in (protocol_exception type ∷ later.0, later.1)
count_down remaining (finished ∷ rest) =
    let left = remaining - 1 in
    let later = count_down left rest in
    ((if left == 0 then finished ∷ [] else []) ++ later.0, later.1)

module _ {S : Type 0} where
  -- `_executeUnitWrite`: `_handleFC` calls its callback, and then emits its event.
  unfoldable pub execute : Slave S → UnitModel S → Frame → ℕ → Bool → S → List Effect × S
  execute slave model frame unit should_respond store =
      let handled = handle_fc model slave.custom frame store in
      (
        on_reply slave.check unit frame should_respond handled.reply
            ++ exception_effect handled.exception,
        handled.store,
      )

  -- The loop over the units, for a broadcast.
  pub broadcast : Slave S → List (ℕ × UnitModel S) → Frame → ℕ → S → List Effect × S
  broadcast slave [] frame remaining store = ([], store)
  broadcast slave (entry ∷ rest) frame remaining store =
      let first = execute slave entry.1 frame entry.0 false store in
      let counted = count_down remaining first.0 in
      let later = broadcast slave rest frame counted.1 first.1 in (counted.0 ++ later.0, later.1)

  -- A request to one unit.
  unfoldable pub process_unicast : Slave S → Option (UnitModel S) → Frame → S → List Effect × S
  process_unicast slave none frame store = (
    writes (exception_response frame.unit frame (error_value gateway_path_unavailable))
        ∷ finished
        ∷ protocol_exception path_unavailable
        ∷ [],
    store,
  )
  process_unicast slave (some model) frame store = execute slave model frame frame.unit true store

  -- `_processFrame`
  unfoldable pub process_frame : Slave S → Frame → S → List Effect × S
  process_frame slave frame store =
      if frame.unit == 0
      then (if length slave.units == 0
          then (finished ∷ [], store)
          else broadcast slave slave.units frame (length slave.units) store)
      else process_unicast slave (find_unit frame.unit slave.units) frame store
