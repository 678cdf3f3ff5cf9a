-- ===== src/Slave/Fits.antt =====
-- The answers of `_handleFC` of src/slave/slave.ts: their sizes, and the effect of a refusal.
use njs_modbus.Common.{
  ℕ, ◌≤◌, ◌≡◌, ◌≢◌, inl, inr, refl, Bool, true, false, List, length, none, arith, if◌then◌else◌,
  ◌==◌, ne→==, eq→==, sym,
}
use mathlib.Core.Path.{subst}
use native.Mathlib.Decide.{ℕ_discrete}
use njs_modbus.Tcp.{Frame}
use njs_modbus.Slave.Types.{ok, UnitModel, Handled}
use njs_modbus.Slave.Dispatch.{CustomResponses, handle_fc, handle_custom}
use njs_modbus.Slave.Contract.{max_payload, IsShort, IsSafe, reject-IsSafe}
use njs_modbus.Slave.DeviceId.{handle_fc43_14}
use njs_modbus.Slave.DeviceId.Bounds.{fc43_14-IsShort}
use njs_modbus.Slave.Safety.{
  fc1-IsSafe, fc2-IsSafe, fc3-IsSafe, fc4-IsSafe, fc5-IsSafe, fc6-IsSafe, fc8_0-IsSafe, fc15-IsSafe,
  fc16-IsSafe, fc17-IsSafe, fc22-IsSafe, fc23-IsSafe,
}

module _ {S : Type 0} (store : S) where
  chosen-IsSafe :
      (test : Bool) (h k : Handled S)
      → IsSafe store h
      → (test ≡ false → IsSafe store k)
      → IsSafe store (if test then h else k)
  chosen-IsSafe true h k p q = p
  chosen-IsSafe false h k p q = q refl

  custom-IsSafe :
      (custom : CustomResponses S) (frame : Frame)
      → custom frame.fc ≡ none
      → IsSafe store (handle_custom custom frame store)
  unfolding handle_custom
  custom-IsSafe custom frame e = rw (e, handle_custom) (reject-IsSafe _ _ store)

  handle_fc-IsSafe :
      (model : UnitModel S) (custom : CustomResponses S) (frame : Frame)
      → custom frame.fc ≡ none
      → frame.fc ≢ 0x2b
      → IsSafe store (handle_fc model custom frame store)
  unfolding handle_fc
  handle_fc-IsSafe model custom frame e n =
      let fc = frame.fc in
      let pdu = frame.payload in
      chosen-IsSafe (fc == 0x01) _ _ (fc1-IsSafe model pdu store) (λ _.
        chosen-IsSafe (fc == 0x02) _ _ (fc2-IsSafe model pdu store) (λ _.
          chosen-IsSafe (fc == 0x03) _ _ (fc3-IsSafe model pdu store) (λ _.
            chosen-IsSafe (fc == 0x04) _ _ (fc4-IsSafe model pdu store) (λ _.
              chosen-IsSafe (fc == 0x05) _ _ (fc5-IsSafe model pdu store) (λ _.
                chosen-IsSafe (fc == 0x06) _ _ (fc6-IsSafe model pdu store) (λ _.
                  chosen-IsSafe (fc == 0x08) _ _ (fc8_0-IsSafe model pdu store) (λ _.
                    chosen-IsSafe (fc == 0x0f) _ _ (fc15-IsSafe model pdu store) (λ _.
                      chosen-IsSafe (fc == 0x10) _ _ (fc16-IsSafe model pdu store) (λ _.
                        chosen-IsSafe (fc == 0x11) _ _ (fc17-IsSafe model pdu store) (λ _.
                          chosen-IsSafe (fc == 0x16) _ _ (fc22-IsSafe model pdu store) (λ _.
                            chosen-IsSafe (fc == 0x17) _ _ (fc23-IsSafe model pdu store)
                              (λ _. rw (ne→== fc 0x2b n) (custom-IsSafe custom frame e)))))))))))))

module _ {S : Type 0} where
  handle_fc-device_id :
      (model : UnitModel S) (custom : CustomResponses S) (frame : Frame) (store : S)
      → frame.fc ≡ 0x2b
      → handle_fc model custom frame store ≡ handle_fc43_14 model frame.payload store
  unfolding handle_fc
  handle_fc-device_id model custom frame store e = rw (
    ne→== frame.fc 1 (omega arith),
    ne→== frame.fc 2 (omega arith),
    ne→== frame.fc 3 (omega arith),
    ne→== frame.fc 4 (omega arith),
    ne→== frame.fc 5 (omega arith),
    ne→== frame.fc 6 (omega arith),
    ne→== frame.fc 8 (omega arith),
    ne→== frame.fc 0x0f (omega arith),
    ne→== frame.fc 0x10 (omega arith),
    ne→== frame.fc 0x11 (omega arith),
    ne→== frame.fc 0x16 (omega arith),
    ne→== frame.fc 0x17 (omega arith),
    eq→== frame.fc 0x2b e,
  )

  pub handle_fc-IsShort :
      (model : UnitModel S) (custom : CustomResponses S) (frame : Frame) (store : S)
      → custom frame.fc ≡ none
      → IsShort (handle_fc model custom frame store).reply
  handle_fc-IsShort model custom frame store c = elim (ℕ_discrete frame.fc 0x2b) [
    | no other ↦ (handle_fc-IsSafe store model custom frame c other).short
    | yes same ↦
        subst (λ (h : Handled S). IsShort h.reply)
          (sym (handle_fc-device_id model custom frame store same))
          (fc43_14-IsShort model frame.payload store)
  ]

  -- The answer to any request with a standard function code, and to a code for which no custom
  -- response is registered, is an exception or at most 252 bytes behind the function code.
  pub handle_fc_fits :
      (model : UnitModel S) (custom : CustomResponses S) (frame : Frame) (store : S) (pdu : List ℕ)
      → custom frame.fc ≡ none
      → (handle_fc model custom frame store).reply ≡ ok pdu
      → length pdu ≤ max_payload
  handle_fc_fits model custom frame store pdu c e =
      subst IsShort e (handle_fc-IsShort model custom frame store c)

  -- A request with a function code other than 43, for which no custom response is registered, that
  -- is refused with a `protocolException` event leaves the unit's store as it was.
  pub handle_fc-keeps_store :
      (model : UnitModel S) (custom : CustomResponses S) (frame : Frame) (store : S)
      → custom frame.fc ≡ none
      → frame.fc ≢ 0x2b
      → (handle_fc model custom frame store).exception ≢ none
      → (handle_fc model custom frame store).store ≡ store
  handle_fc-keeps_store model custom frame store c n x =
      elim (handle_fc-IsSafe store model custom frame c n).kept [
        | inl silent ↦ absurd (x silent)
        | inr kept ↦ kept
      ]
