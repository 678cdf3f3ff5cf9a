-- ===== src/Slave/Execute/Finish.antt =====
-- How often `_processFrame` of src/slave/slave.ts calls its callback.
use njs_modbus.Common.{
  ℕ, zero, suc, ◌+◌, ◌-◌, ◌≡◌, refl, ◌∙◌, arith, Bool, true, false, List, [], ◌∷◌, ◌++◌, Option,
  none, some, ◌==◌, if◌then◌else◌, length, Bool-cases, inl, inr, ne→==,
}
use njs_modbus.Tcp.{Frame}
use njs_modbus.Slave.Types.{ProtocolExceptionType, Reply, refused, ok, UnitModel}
use njs_modbus.Slave.Dispatch.{handle_fc}
use njs_modbus.Slave.Execute.{
  Effect, writes, finished, access_denied, protocol_exception, Verdict, allowed, denied,
  denied_with, after_check, RuntimeCheck, verdict_of, on_reply, exception_effect, Slave, find_unit,
  count_down, execute, broadcast, process_unicast, process_frame,
}

-- How often the callback is called.
abbrev pub finishes : List Effect → ℕ
finishes [] = 0
finishes (writes response ∷ rest) = finishes rest
finishes (finished ∷ rest) = suc (finishes rest)
finishes (access_denied ∷ rest) = finishes rest
finishes (protocol_exception type ∷ rest) = finishes rest

finishes-append : (xs ys : List Effect) → finishes (xs ++ ys) ≡ finishes xs + finishes ys
finishes-append [] ys = omega arith
finishes-append (writes response ∷ xs) ys = finishes-append xs ys
finishes-append (finished ∷ xs) ys = omega (arith, finishes-append xs ys)
finishes-append (access_denied ∷ xs) ys = finishes-append xs ys
finishes-append (protocol_exception type ∷ xs) ys = finishes-append xs ys

finishes-after_check :
    (unit : ℕ) (frame : Frame) (respond : Bool) (pdu : List ℕ) (v : Verdict)
    → finishes (after_check unit frame respond pdu v) ≡ 1
unfolding after_check
finishes-after_check unit frame true pdu allowed = refl
finishes-after_check unit frame false pdu allowed = refl
finishes-after_check unit frame respond pdu denied = refl
finishes-after_check unit frame true pdu (denied_with code) = refl
finishes-after_check unit frame false pdu (denied_with code) = refl

finishes-on_reply :
    (check : RuntimeCheck) (unit : ℕ) (frame : Frame) (respond : Bool) (reply : Reply (List ℕ))
    → finishes (on_reply check unit frame respond reply) ≡ 1
unfolding on_reply
finishes-on_reply check unit frame respond (ok pdu) =
    finishes-after_check unit frame respond pdu (verdict_of check unit frame)
finishes-on_reply check unit frame true (refused code) = refl
finishes-on_reply check unit frame false (refused code) = refl

finishes-exception_effect : (x : Option ProtocolExceptionType) → finishes (exception_effect x) ≡ 0
finishes-exception_effect none = refl
finishes-exception_effect (some type) = refl

-- Effects without a call leave the count.
count_down-zero :
    (effects : List Effect) (remaining : ℕ)
    → finishes effects ≡ 0
    → ((count_down remaining effects).1 ≡ remaining)
      × (finishes (count_down remaining effects).0 ≡ 0)
unfolding count_down
count_down-zero [] remaining h = (refl, refl)
count_down-zero (writes response ∷ rest) remaining h = count_down-zero rest remaining h
count_down-zero (access_denied ∷ rest) remaining h = count_down-zero rest remaining h
count_down-zero (protocol_exception type ∷ rest) remaining h = count_down-zero rest remaining h
count_down-zero (finished ∷ rest) remaining h = absurd (omega (arith, h))

-- The call of the last unit: 1 where no other is left.
abbrev last_call : ℕ → ℕ
last_call zero = 1
last_call (suc n) = 0

count_down-one :
    (effects : List Effect) (left : ℕ)
    → finishes effects ≡ 1
    → ((count_down (suc left) effects).1 ≡ left)
      × (finishes (count_down (suc left) effects).0 ≡ last_call left)
unfolding count_down
count_down-one [] left h = absurd (omega (arith, h))
count_down-one (writes response ∷ rest) left h = count_down-one rest left h
count_down-one (access_denied ∷ rest) left h = count_down-one rest left h
count_down-one (protocol_exception type ∷ rest) left h = count_down-one rest left h
count_down-one (finished ∷ rest) zero h =
    let (same, none_left) = count_down-zero rest 0 (omega (arith, h)) in
    (same, omega (arith, none_left))
count_down-one (finished ∷ rest) (suc left) h =
    let (same, none_left) = count_down-zero rest (suc left) (omega (arith, h)) in
    let down : suc (suc left) - 1 ≡ suc left = omega arith in
    rw (down, ne→== (suc left) 0 (omega arith)) (same, none_left)

module _ {S : Type 0} where
  finishes-execute :
      (slave : Slave S) (model : UnitModel S) (frame : Frame) (unit : ℕ) (respond : Bool)
      (store : S)
      → finishes (execute slave model frame unit respond store).0 ≡ 1
  unfolding execute
  finishes-execute slave model frame unit respond store =
      let handled = handle_fc model slave.custom frame store in
      omega (
        arith,
        finishes-append (on_reply slave.check unit frame respond handled.reply)
            (exception_effect handled.exception),
        finishes-on_reply slave.check unit frame respond handled.reply,
        finishes-exception_effect handled.exception,
      )

  -- 0 for no unit.
  abbrev one_call : List (ℕ × UnitModel S) → ℕ
  one_call [] = 0
  one_call (entry ∷ rest) = 1

  finishes-broadcast :
      (slave : Slave S) (units : List (ℕ × UnitModel S)) (frame : Frame) (store : S)
      → finishes (broadcast slave units frame (length units) store).0 ≡ one_call units
  unfolding broadcast
  finishes-broadcast slave [] frame store = refl
  finishes-broadcast slave (entry ∷ rest) frame store =
      let first = execute slave entry.1 frame entry.0 false store in
      let (left, call) =
        count_down-one first.0 (length rest)
          (finishes-execute slave entry.1 frame entry.0 false store) in
      let counted = count_down (suc (length rest)) first.0 in
      let later = broadcast slave rest frame (length rest) first.1 in
      rw left (
        finishes-append counted.0 later.0
        ∙ omega (arith, call, finishes-broadcast slave rest frame first.1, one_of rest))
    where
      one_of : (units : List (ℕ × UnitModel S)) → last_call (length units) + one_call units ≡ 1
      one_of [] = refl
      one_of (entry ∷ units) = refl

  -- Every request finishes once: whatever the units' handlers and the authorizer answer, and also
  -- for a broadcast and for a unit that does not exist, `_processFrame` calls its callback exactly
  -- one time.
  pub process_frame-finishes :
      (slave : Slave S) (frame : Frame) (store : S)
      → finishes (process_frame slave frame store).0 ≡ 1
  unfolding process_frame process_unicast
  process_frame-finishes slave frame store = elim (Bool-cases (frame.unit == 0)) [
    | inl all_units ↦ rw all_units (to_all slave.units)
    | inr one_unit ↦ rw one_unit (to_one (find_unit frame.unit slave.units))
  ]
    where
      to_all :
          (units : List (ℕ × UnitModel S))
          → finishes
              (if length units == 0
                then (finished ∷ [], store)
                else broadcast slave units frame (length units) store).0
            ≡ 1
      to_all [] = refl
      to_all (entry ∷ rest) =
          rw (ne→== (suc (length rest)) 0 (omega arith))
            (finishes-broadcast slave (entry ∷ rest) frame store)

      to_one :
          (found : Option (UnitModel S)) → finishes (process_unicast slave found frame store).0 ≡ 1
      to_one none = refl
      to_one (some model) = finishes-execute slave model frame frame.unit true store
