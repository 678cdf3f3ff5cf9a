-- ===== src/Exchange/Reach.antt =====
-- Requests that reach a unit, and how the master reads a response or an exception.
use njs_modbus.Common.{
  ℕ, ◌+◌, ◌*◌, ◌/◌, ◌%◌, ◌≤◌, ◌<◌, ◌≡◌, ◌≢◌, refl, arith, false, List, [], ◌∷◌, none, some, length,
  bit_or, ◌==◌, eq→==,
}
use njs_modbus.Tcp.{Frame}
use njs_modbus.Tcp.RoundTrip.{Adu, frame_of_adu}
use njs_modbus.Slave.Types.{ErrorCode, error_value, refused, UnitModel, Handled}
use njs_modbus.Slave.Dispatch.{handle_fc}
use njs_modbus.Slave.Execute.{Slave, find_unit}
use njs_modbus.Master.{
  modbus_error, Sent, got, Settled, rejected, on_sent, detect_exception, validate_response,
}
use njs_modbus.Exchange.{ask}
use njs_modbus.Exchange.Answers.{answer_adu, exchange_answered}

-- The slave has the unit, no runtime check, and no custom response for the function code; the
-- transaction and the unit are in the ranges of the wire, and the request is no broadcast.
pub record Reaches {S : Type 0} (slave : Slave S) (model : UnitModel S) (transaction unit fc : ℕ)
    : Type 0 where
  pub check : slave.check ≡ none
  pub found : find_unit unit slave.units ≡ some model
  pub standard : slave.custom fc ≡ none
  pub one_unit : unit ≢ 0
  pub transaction_fits : transaction < 65536
  pub unit_fits : unit < 256

pub be16-word : (n : ℕ) → n < 65536 → n / 256 % 256 * 256 + n % 256 ≡ n
be16-word n h = omega arith

pub validate_same : (f : Frame) → validate_response f f.unit f.fc ≡ none
unfolding validate_response
validate_same f = rw (eq→== f.unit f.unit refl, eq→== f.fc f.fc refl) refl

-- A response with the request's own function code is no exception.
pub no_exception :
    (f : Frame) → (f.fc == bit_or f.fc 0x80) ≡ false → detect_exception f f.unit f.fc ≡ none
unfolding detect_exception
no_exception f e = rw (eq→== f.unit f.unit refl, e) refl

exception_read :
    (transaction unit fc : ℕ) (code : ErrorCode)
    → detect_exception (frame_of_adu (answer_adu transaction unit fc (refused code))) unit fc
      ≡ some (modbus_error (error_value code))
unfolding detect_exception
exception_read transaction unit fc code =
    rw (eq→== unit unit refl, eq→== (bit_or fc 0x80) (bit_or fc 0x80) refl) refl

module _ {ℓ} {S : Type 0} {A : Type ℓ} where
  -- What the master makes of the reply.
  pub ask_answered :
      {slave : Slave S} {model : UnitModel S} {transaction unit fc : ℕ} (payload : List ℕ)
      (read : Sent → Settled A) (store : S) (handled : Handled S)
      → Reaches slave model transaction unit fc
      → fc < 256
      → length payload ≤ 252
      → let a : Adu = record {
        transaction = transaction;
        unit = unit;
        fc = fc;
        payload = payload;
      } in
        handle_fc model slave.custom (frame_of_adu a) store ≡ handled
        → ask slave transaction unit fc payload read store ≡ (
          read (got (frame_of_adu (answer_adu transaction unit fc handled.reply))) ∷ [],
          handled.store,
        )
  unfolding ask
  ask_answered {slave} {model} {transaction} {unit} {fc} payload read store handled r f p e =
      let a : Adu = record { transaction = transaction; unit = unit; fc = fc; payload = payload } in
      rw
        (
          exchange_answered slave model a store r.check r.found r.standard r.one_unit (record {
            transaction = r.transaction_fits;
            unit = r.unit_fits;
            fc = f;
            payload = p;
          }),
          e,
        )
        refl

  -- A request of at most 252 bytes that reaches a unit, and that the unit's handler refuses with an
  -- error code, is rejected with the `ModbusError`
  -- of that code, whatever the method of the master, and the store is the one that the handler left.
  pub ask_refused :
      {slave : Slave S} {model : UnitModel S} {transaction unit fc : ℕ} (payload : List ℕ)
      (read : Frame → Settled A) (store store' : S) (code : ErrorCode)
      → Reaches slave model transaction unit fc
      → fc < 256
      → length payload ≤ 252
      → let a : Adu = record {
        transaction = transaction;
        unit = unit;
        fc = fc;
        payload = payload;
      } in
        let handled = handle_fc model slave.custom (frame_of_adu a) store in
        handled.reply ≡ refused code
        → handled.store ≡ store'
        → ask slave transaction unit fc payload (on_sent unit fc read) store
          ≡ (rejected (modbus_error (error_value code)) ∷ [], store')
  ask_refused {slave} {model} {transaction} {unit} {fc} payload read store store' code r f p e s =
      let a : Adu = record { transaction = transaction; unit = unit; fc = fc; payload = payload } in
      let handled = handle_fc model slave.custom (frame_of_adu a) store in
      rw
        (
          ask_answered payload (on_sent unit fc read) store handled r f p refl,
          e,
          s,
          exception_read transaction unit fc code,
        )
        refl
