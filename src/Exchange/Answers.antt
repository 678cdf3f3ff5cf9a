-- ===== src/Exchange/Answers.antt =====
-- The response that the master gets to a request to one unit, by what the unit's handler replies.
use njs_modbus.Common.{
  ℕ, ◌<◌, ◌≡◌, ◌≢◌, refl, ap, arith, true, ltb, ◌&&◌, and_true, ltb→lt, zero, suc, Bool, List, [],
  ◌∷◌, ◌++◌, Option, none, some, bit_or, ne→==, append-nil,
}
use njs_modbus.Tcp.{Frame, frame, feed}
use njs_modbus.Tcp.RoundTrip.{Adu, Fits, wire, frame_of_adu, empty, feed-encode}
use njs_modbus.Slave.Types.{
  ErrorCode, error_value, illegal_function, illegal_data_address, illegal_data_value,
  server_device_failure, acknowledge, server_device_busy, memory_parity_error,
  gateway_path_unavailable, gateway_target_device_failed_to_respond, ProtocolExceptionType, Reply,
  refused, ok, UnitModel,
}
use njs_modbus.Slave.Dispatch.{handle_fc}
use njs_modbus.Slave.Execute.{
  Effect, writes, finished, access_denied, protocol_exception, Slave, find_unit, after_check,
  on_reply, exception_effect, execute, process_unicast, process_frame,
}
use native.Mathlib.Decide.{ℕ_discrete}
use njs_modbus.Slave.Contract.{IsShort}
use njs_modbus.Slave.Fits.{handle_fc-IsShort}
use njs_modbus.Exchange.{responses, serve, exchange}

-- The ADU that answers a request.
abbrev pub answer_adu : ℕ → ℕ → ℕ → Reply (List ℕ) → Adu
answer_adu transaction unit fc (ok pdu) = record {
  transaction = transaction;
  unit = unit;
  fc = fc;
  payload = pdu;
}
answer_adu transaction unit fc (refused code) = record {
  transaction = transaction;
  unit = unit;
  fc = bit_or fc 0x80;
  payload = error_value code ∷ [];
}

feed_one : (a : Adu) → Fits a → feed empty (wire a ∷ []) ≡ (frame (frame_of_adu a) ∷ [], empty)
feed_one a h = feed-encode (a ∷ []) (wire a ∷ []) (h, tt) refl

-- `|` with 0x80 keeps a byte a byte: all 256 cases, by evaluation.
or_fits : ℕ → Bool
or_fits zero = true
or_fits (suc n) = ltb (bit_or n 0x80) 256 && or_fits n

or_fits_all : or_fits 256 ≡ true
unfolding or_fits
or_fits_all = refl

or_lt : (n fc : ℕ) → or_fits n ≡ true → fc < n → bit_or fc 0x80 < 256
unfolding or_fits
or_lt zero fc e h = absurd (omega arith)
or_lt (suc n) fc e h =
    let (this, below) = and_true (ltb (bit_or n 0x80) 256) (or_fits n) e in
    elim (ℕ_discrete fc n) [
      | yes same ↦ rw same (ltb→lt (bit_or n 0x80) 256 this)
      | no other ↦ or_lt n fc below (omega arith)
    ]

error_value-lt : (code : ErrorCode) → error_value code < 256
error_value-lt illegal_function = omega arith
error_value-lt illegal_data_address = omega arith
error_value-lt illegal_data_value = omega arith
error_value-lt server_device_failure = omega arith
error_value-lt acknowledge = omega arith
error_value-lt server_device_busy = omega arith
error_value-lt memory_parity_error = omega arith
error_value-lt gateway_path_unavailable = omega arith
error_value-lt gateway_target_device_failed_to_respond = omega arith

-- The answer fits the wire, as the request does.
answer-Fits :
    (transaction unit fc : ℕ) (reply : Reply (List ℕ))
    → transaction < 65536
    → unit < 256
    → fc < 256
    → IsShort reply
    → Fits (answer_adu transaction unit fc reply)
answer-Fits transaction unit fc (ok pdu) t u f s = record {
  transaction = t;
  unit = u;
  fc = f;
  payload = s;
}
answer-Fits transaction unit fc (refused code) t u f s = record {
  transaction = t;
  unit = u;
  fc = or_lt 256 fc or_fits_all f;
  payload = omega arith;
}

responses-append : (xs ys : List Effect) → responses (xs ++ ys) ≡ responses xs ++ responses ys
responses-append [] ys = refl
responses-append (writes response ∷ xs) ys = ap (◌∷◌ response) (responses-append xs ys)
responses-append (finished ∷ xs) ys = responses-append xs ys
responses-append (access_denied ∷ xs) ys = responses-append xs ys
responses-append (protocol_exception type ∷ xs) ys = responses-append xs ys

responses-exception : (x : Option ProtocolExceptionType) → responses (exception_effect x) ≡ []
responses-exception none = refl
responses-exception (some type) = refl

-- Without a runtime check, a reply is written as its ADU.
responses-on_reply :
    (unit : ℕ) (f : Frame) (reply : Reply (List ℕ))
    → responses (on_reply none unit f true reply)
      ≡ wire (answer_adu f.transaction unit f.fc reply) ∷ []
unfolding on_reply after_check
responses-on_reply unit f (ok pdu) = refl
responses-on_reply unit f (refused code) = refl

module _ {S : Type 0} where
  responses-execute :
      (slave : Slave S) (model : UnitModel S) (f : Frame) (store : S)
      → slave.check ≡ none
      → responses (execute slave model f f.unit true store).0
        ≡ wire (answer_adu f.transaction f.unit f.fc (handle_fc model slave.custom f store).reply)
          ∷ []
  unfolding execute
  responses-execute slave model f store c =
      let handled = handle_fc model slave.custom f store in
      rw
        (
          c,
          responses-append (on_reply none f.unit f true handled.reply)
              (exception_effect handled.exception),
          responses-exception handled.exception,
          append-nil,
        )
        (responses-on_reply f.unit f handled.reply)

  store-execute :
      (slave : Slave S) (model : UnitModel S) (f : Frame) (store : S)
      → (execute slave model f f.unit true store).1 ≡ (handle_fc model slave.custom f store).store
  unfolding execute
  store-execute slave model f store = refl

  -- A request that fits the wire, to a unit that exists, on a slave without a runtime check, for
  -- whose function code no custom response is registered: the master's layer reports exactly one
  -- frame, with the transaction and the unit of the request, and with the function code and the
  -- bytes of the handler's reply, or for an error the function code `| 0x80` and the error's byte;
  -- and the store is the one that the handler left.
  pub exchange_answered :
      (slave : Slave S) (model : UnitModel S) (a : Adu) (store : S)
      → slave.check ≡ none
      → find_unit a.unit slave.units ≡ some model
      → slave.custom a.fc ≡ none
      → a.unit ≢ 0
      → Fits a
      → let handled = handle_fc model slave.custom (frame_of_adu a) store in
        exchange slave a.transaction a.unit a.fc a.payload store ≡ (
          frame (frame_of_adu (answer_adu a.transaction a.unit a.fc handled.reply)) ∷ [],
          handled.store,
        )
  unfolding exchange serve process_frame process_unicast
  exchange_answered slave model a store c m k z h =
      let f = frame_of_adu a in
      let reply = (handle_fc model slave.custom f store).reply in
      let fits =
        answer-Fits a.transaction a.unit a.fc reply h.transaction h.unit h.fc
          (handle_fc-IsShort model slave.custom f store k) in
      rw
        (
          feed_one a h,
          ne→== a.unit 0 z,
          m,
          responses-execute slave model f store c,
          store-execute slave model f store,
          feed_one (answer_adu a.transaction a.unit a.fc reply) fits,
        )
        refl
