-- ===== src/Slave/Contract.antt =====
-- A contract for the handlers of src/slave/slave.ts, and its rules for their parts: the size of a
-- response, and the unit's store after a refusal with an event.
use njs_modbus.Common.{
  ℕ, ◌≤◌, ◌≡◌, ◌⊎◌, inl, inr, refl, Bool, true, false, List, length, take, Option, none, some,
  arith, if◌then◌else◌, length-take,
}
use njs_modbus.Slave.Types.{
  ErrorCode, ProtocolExceptionType, Reply, refused, ok, Handled, reject, answer, finish,
  implemented,
}
use njs_modbus.Slave.Pdu.{coils_pdu, registers_pdu}
use njs_modbus.Slave.Packing.{length-coils_pdu}
use njs_modbus.Slave.RoundTrip.{length-registers_pdu}

-- A PDU of 253 bytes, less the function code.
abbrev pub max_payload : ℕ
max_payload = 252

abbrev pub IsShort : Reply (List ℕ) → Type 0
IsShort (refused code) = Unit {0}
IsShort (ok pdu) = length pdu ≤ max_payload

pub answer-IsShort :
    {A : Type 0} (pdu : A → List ℕ) (r : Reply A)
    → ((a : A) → length (pdu a) ≤ max_payload)
    → IsShort (answer pdu r)
answer-IsShort pdu (refused code) h = tt
answer-IsShort pdu (ok a) h = h a

pub coils_short : (n : ℕ) (coils : List ℕ) → n ≤ 2000 → length (coils_pdu n coils) ≤ max_payload
coils_short n coils h = omega (arith, length-coils_pdu n coils)

pub registers_short :
    (n : ℕ) (registers : List ℕ) → n ≤ 125 → length (registers_pdu n registers) ≤ max_payload
registers_short n registers h = omega (arith, length-registers_pdu n registers)

pub echo_short : (pdu : List ℕ) → length (take 4 pdu) ≤ max_payload
echo_short pdu = omega (arith, length-take 4 pdu)

module _ {S : Type 0} where
  pub record IsSafe (store : S) (h : Handled S) : Type 0 where
    pub short : IsShort h.reply
    pub kept : (h.exception ≡ none) ⊎ (h.store ≡ store)

  pub reject-IsSafe :
      (code : ErrorCode) (type : ProtocolExceptionType) (store : S)
      → IsSafe store (reject code type store)
  reject-IsSafe code type store = record { short = tt; kept = inr refl }

  pub finish-IsSafe :
      {A : Type 0} (pdu : A → List ℕ) (r : Reply A × S) (store : S)
      → ((a : A) → length (pdu a) ≤ max_payload)
      → IsSafe store (finish pdu r)
  finish-IsSafe pdu r store h = record { short = answer-IsShort pdu r.0 h; kept = inl refl }

  -- One guard of a handler.
  pub guarded-IsSafe :
      (test : Bool) (code : ErrorCode) (type : ProtocolExceptionType) (store : S) (h : Handled S)
      → (test ≡ false → IsSafe store h)
      → IsSafe store (if test then reject code type store else h)
  guarded-IsSafe true code type store h k = reject-IsSafe code type store
  guarded-IsSafe false code type store h k = k refl

  pub implemented-IsSafe :
      {H : Type 0} (handler : Option H) (store : S) (k : H → Handled S)
      → ((h : H) → IsSafe store (k h))
      → IsSafe store (implemented handler store k)
  implemented-IsSafe none store k h = reject-IsSafe _ _ store
  implemented-IsSafe (some f) store k h = h f
