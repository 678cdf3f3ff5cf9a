-- ===== src/Access.antt =====
-- src/utils/access-authorizer.ts, for checks that answer at once. A function returns the calls of its
-- callback, in order. A range is its first address and the address behind its last, which is one more
-- than the source's; texts are left out.
pub mod Calls
mod Runs
use njs_modbus.Common.{
  ℕ, suc, ◌+◌, ◌-◌, min, max, Bool, true, false, ◌||◌, List, [], ◌∷◌, ◌++◌, Option, none, some, ltb,
  leb, ◌==◌, if◌then◌else◌, length,
}
use njs_modbus.Tcp.{be16}
use njs_modbus.Slave.FunctionCode.{
  read_coils, read_discrete_inputs, read_holding_registers, read_input_registers, write_single_coil,
  write_single_register, write_multiple_coils, write_multiple_registers, mask_write_register,
  read_write_multiple_registers,
}

-- What a check answers.
pub data Answer : Type 0 where
  granted refused : Answer
  refused_with : ℕ → Answer

-- The arguments of the callback: no error, or an error with its code, if it has one.
pub data Outcome : Type 0 where
  passes : Outcome
  fails : Option ℕ → Outcome

pub data Table : Type 0 where
  coils discrete_inputs holding_registers input_registers : Table

abbrev pub outcome_of : Answer → Outcome
outcome_of granted = passes
outcome_of refused = fails none
outcome_of (refused_with code) = fails (some code)

-- `runCheckUnit`
pub run_check_unit : Option (ℕ → Answer) → ℕ → List Outcome
run_check_unit none unit = passes ∷ []
run_check_unit (some check) unit = outcome_of (check unit) ∷ []

abbrev pub Check : Type 0
Check = ℕ → Table → ℕ × ℕ → Answer

-- `pendingChecks`, `hasChecks` and `denied`, and the calls of the callback so far.
pub record Progress : Type 0 where
  pub pending_checks : ℕ
  pub has_checks : Bool
  pub is_denied : Bool
  pub given : List Outcome

abbrev pub no_progress : Progress
no_progress = record { pending_checks = 0; has_checks = false; is_denied = false; given = [] }

abbrev pub on_answer : Answer → Progress → Progress
on_answer granted p = record p {
  given = if p.pending_checks == 0 then p.given ++ passes ∷ [] else p.given;
}
on_answer refused p = record p { is_denied = true; given = p.given ++ fails none ∷ [] }
on_answer (refused_with code) p = record p {
  is_denied = true;
  given = p.given ++ fails (some code) ∷ [];
}

-- `onCheckComplete`
abbrev pub on_check_complete : Answer → Progress → Progress
on_check_complete answer p =
    if p.is_denied then p else on_answer answer (record p { pending_checks = p.pending_checks - 1 })

-- The loop over the ranges of one table, and over the tables.
pub check_ranges : (ℕ × ℕ → Answer) → List (ℕ × ℕ) → Progress → Progress
check_ranges check [] p = p
check_ranges check (range ∷ ranges) p = check_ranges check ranges (
    on_check_complete (check range)
      (record p { pending_checks = suc p.pending_checks; has_checks = true }))

-- The ranges that `requestAddressRange` declares for the tables.
pub record Ranges : Type 0 where
  pub of_coils : List (ℕ × ℕ)
  pub of_discrete_inputs : List (ℕ × ℕ)
  pub of_input_registers : List (ℕ × ℕ)
  pub of_holding_registers : List (ℕ × ℕ)

abbrev pub check_tables : (Table → ℕ × ℕ → Answer) → Ranges → Progress
check_tables check r = check_ranges (check holding_registers) r.of_holding_registers (
    check_ranges (check input_registers) r.of_input_registers (
      check_ranges (check discrete_inputs) r.of_discrete_inputs
        (check_ranges (check coils) r.of_coils no_progress)))

-- A custom function code, which declares ranges or does not.
pub check_custom : Check → ℕ → Option Ranges → List Outcome
check_custom check unit none = passes ∷ []
check_custom check unit (some ranges) =
    let p = check_tables (check unit) ranges in
    if p.has_checks then p.given else p.given ++ passes ∷ []

-- The table of a standard function code.
pub table_of : ℕ → Option Table
table_of fc =
    if fc == read_coils || fc == write_single_coil || fc == write_multiple_coils
    then some coils
    else if fc == read_discrete_inputs
    then some discrete_inputs
    else if fc == read_holding_registers
        || fc == write_single_register
        || fc == write_multiple_registers
        || fc == mask_write_register
        || fc == read_write_multiple_registers
    then some holding_registers
    else if fc == read_input_registers
    then some input_registers
    else none

-- The range of a request for a standard function code with a table; none where it is too short.
pub range_of : ℕ → List ℕ → Option (ℕ × ℕ)
range_of fc payload =
    let address = be16 payload 0 in
    if fc == write_single_coil || fc == write_single_register || fc == mask_write_register
    then (if ltb (length payload) 2 then none else some (address, address + 1))
    else if fc == read_write_multiple_registers
    then (if ltb (length payload) 8
        then none
        else some (
          min address (be16 payload 4),
          max (address + be16 payload 2) (be16 payload 4 + be16 payload 6),
        ))
    else if ltb (length payload) 4
    then none
    else some (address, address + be16 payload 2)

abbrev pub check_found : Check → ℕ → Option Table → Option (ℕ × ℕ) → List Outcome
check_found check unit none range = passes ∷ []
check_found check unit (some table) none = passes ∷ []
check_found check unit (some table) (some range) = outcome_of (check unit table range) ∷ []

-- `runCheckAddress`: the custom function code, if the request's is one, with the ranges it declares.
pub run_check_address : Option Check → ℕ → ℕ → List ℕ → Option (Option Ranges) → List Outcome
run_check_address none unit fc payload custom = passes ∷ []
run_check_address (some check) unit fc payload none =
    check_found check unit (table_of fc) (range_of fc payload)
run_check_address (some check) unit fc payload (some ranges) = check_custom check unit ranges
