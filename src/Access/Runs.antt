-- ===== src/Access/Runs.antt =====
-- Requests for a custom function code that declares two ranges, of which the check grants the first.
use njs_modbus.Common.{◌≡◌, refl, [], ◌∷◌, none, some, leb, if◌then◌else◌}
use njs_modbus.Access.{
  granted, refused, passes, fails, Check, check_ranges, Ranges, check_custom, table_of, range_of,
  run_check_address,
}
use njs_modbus.Access.Calls.{calls_for, all_answers, run_check_address-custom}

-- Only the first sixteen addresses of a table are granted.
abbrev below_16 : Check
below_16 = λ unit table range. if leb range.1 16 then granted else refused

abbrev two_ranges : Ranges
two_ranges = record {
  of_coils = (0, 8) ∷ [];
  of_discrete_inputs = [];
  of_input_registers = [];
  of_holding_registers = (16, 20) ∷ [];
}

-- The request passes before its second range is refused.
passes_first :
    run_check_address (some below_16) 1 65 [] (some (some two_ranges)) ≡ passes ∷ fails none ∷ []
unfolding run_check_address check_custom check_ranges
passes_first = refl

read_test : run_check_address (some below_16) 1 1 (0 ∷ 9 ∷ 0 ∷ 8 ∷ []) none ≡ fails none ∷ []
unfolding run_check_address table_of range_of
read_test = refl

run_check_address-custom_example :
    run_check_address (some below_16) 1 65 [] (some (some two_ranges))
    ≡ calls_for (all_answers (below_16 1) two_ranges)
run_check_address-custom_example = run_check_address-custom below_16 1 65 [] two_ranges
