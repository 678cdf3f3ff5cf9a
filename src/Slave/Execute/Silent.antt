-- ===== src/Slave/Execute/Silent.antt =====
-- What a broadcast to the units of src/slave/slave.ts writes.
use njs_modbus.Common.{
  ℕ, suc, ◌-◌, ◌≡◌, arith, false, List, [], ◌∷◌, ◌++◌, Option, none, some, ◌==◌, if◌then◌else◌,
  length, All, All-append, Bool-cases, inl, inr, ne→==, eq→==,
}
use njs_modbus.Tcp.{Frame}
use njs_modbus.Slave.Types.{ProtocolExceptionType, Reply, refused, ok, UnitModel}
use njs_modbus.Slave.Dispatch.{handle_fc}
use njs_modbus.Slave.Execute.{
  Effect, writes, finished, access_denied, protocol_exception, Verdict, allowed, denied,
  denied_with, after_check, RuntimeCheck, verdict_of, on_reply, exception_effect, Slave, count_down,
  execute, broadcast, process_frame,
}

-- A response that goes out.
abbrev pub IsWrite : Effect → Type 0
IsWrite (writes response) = Unit {0}
IsWrite finished = ⊥
IsWrite access_denied = ⊥
IsWrite (protocol_exception type) = ⊥

abbrev pub Silent : List Effect → Type 0
Silent = All (λ effect. ¬ IsWrite effect)

Silent-after_check :
    (unit : ℕ) (frame : Frame) (pdu : List ℕ) (v : Verdict)
    → Silent (after_check unit frame false pdu v)
unfolding after_check
Silent-after_check unit frame pdu allowed = (λ w. w, tt)
Silent-after_check unit frame pdu denied = (λ w. w, (λ w. w, tt))
Silent-after_check unit frame pdu (denied_with code) = (λ w. w, (λ w. w, tt))

Silent-on_reply :
    (check : RuntimeCheck) (unit : ℕ) (frame : Frame) (reply : Reply (List ℕ))
    → Silent (on_reply check unit frame false reply)
unfolding on_reply
Silent-on_reply check unit frame (ok pdu) =
    Silent-after_check unit frame pdu (verdict_of check unit frame)
Silent-on_reply check unit frame (refused code) = (λ w. w, tt)

Silent-exception : (x : Option ProtocolExceptionType) → Silent (exception_effect x)
Silent-exception none = tt
Silent-exception (some type) = (λ w. w, tt)

Silent-count_down :
    (effects : List Effect) (remaining : ℕ)
    → Silent effects
    → Silent (count_down remaining effects).0
unfolding count_down
Silent-count_down [] remaining h = tt
Silent-count_down (writes response ∷ rest) remaining h = absurd (h.0 tt)
Silent-count_down (access_denied ∷ rest) remaining h = (h.0, Silent-count_down rest remaining h.1)
Silent-count_down (protocol_exception type ∷ rest) remaining h =
    (h.0, Silent-count_down rest remaining h.1)
Silent-count_down (finished ∷ rest) remaining h = elim (Bool-cases (remaining - 1 == 0)) [
  | inl last ↦ rw last (λ w. w, Silent-count_down rest (remaining - 1) h.1)
  | inr more ↦ rw more (Silent-count_down rest (remaining - 1) h.1)
]

module _ {S : Type 0} where
  Silent-broadcast :
      (slave : Slave S) (units : List (ℕ × UnitModel S)) (frame : Frame) (remaining : ℕ) (store : S)
      → Silent (broadcast slave units frame remaining store).0
  unfolding broadcast execute
  Silent-broadcast slave [] frame remaining store = tt
  Silent-broadcast slave (entry ∷ rest) frame remaining store =
      let handled = handle_fc entry.1 slave.custom frame store in
      let effects =
        on_reply slave.check entry.0 frame false handled.reply
        ++ exception_effect handled.exception in
      let counted = count_down remaining effects in
      All-append (λ effect. ¬ IsWrite effect) _ _
        (Silent-count_down effects remaining (
          All-append (λ effect. ¬ IsWrite effect) _ _
            (Silent-on_reply slave.check entry.0 frame handled.reply)
            (Silent-exception handled.exception)))
        (Silent-broadcast slave rest frame counted.1 handled.store)

  -- A broadcast is never answered: a frame for unit 0 writes no response, whatever the units and
  -- the authorizer answer.
  pub process_frame-Silent :
      (slave : Slave S) (frame : Frame) (store : S)
      → frame.unit ≡ 0
      → Silent (process_frame slave frame store).0
  unfolding process_frame
  process_frame-Silent slave frame store e = rw (eq→== frame.unit 0 e) (to_all slave.units)
    where
      to_all :
          (units : List (ℕ × UnitModel S))
          → Silent
              (if length units == 0
                then (finished ∷ [], store)
                else broadcast slave slave.units frame (length slave.units) store).0
      to_all [] = (λ w. w, tt)
      to_all (entry ∷ rest) =
          rw (ne→== (suc (length rest)) 0 (omega arith))
            (Silent-broadcast slave slave.units frame (length slave.units) store)
