-- ===== src/Access/Calls.antt =====
-- How often runCheckAddress of src/utils/access-authorizer.ts calls its callback.
use njs_modbus.Common.{
  ℕ, suc, ◌≡◌, refl, arith, Bool, true, false, List, [], ◌∷◌, ◌++◌, append_assoc, append-nil, none,
  some, sym, ◌∙◌, if◌then◌else◌,
}
use njs_modbus.Access.{
  Answer, granted, refused, refused_with, Outcome, passes, fails, Table, coils, discrete_inputs,
  holding_registers, input_registers, Check, Progress, no_progress, on_check_complete, check_ranges,
  Ranges, check_tables, check_custom, run_check_address,
}

-- The answers of a check, in the order of the tables.
abbrev pub answers_to : (ℕ × ℕ → Answer) → List (ℕ × ℕ) → List Answer
answers_to check [] = []
answers_to check (range ∷ ranges) = check range ∷ answers_to check ranges

abbrev pub all_answers : (Table → ℕ × ℕ → Answer) → Ranges → List Answer
all_answers check r =
    answers_to (check coils) r.of_coils
    ++ (answers_to (check discrete_inputs) r.of_discrete_inputs
        ++ (answers_to (check input_registers) r.of_input_registers
            ++ answers_to (check holding_registers) r.of_holding_registers))

-- A call without an error for each answer before the first that refuses, and one with its error.
abbrev pub each_call : List Answer → List Outcome
each_call [] = []
each_call (granted ∷ answers) = passes ∷ each_call answers
each_call (refused ∷ answers) = fails none ∷ []
each_call (refused_with code ∷ answers) = fails (some code) ∷ []

-- With no answers, one call without an error.
abbrev pub calls_for : List Answer → List Outcome
calls_for [] = passes ∷ []
calls_for (answer ∷ answers) = each_call (answer ∷ answers)

-- The answers, one after another.
advance : List Answer → Progress → Progress
advance [] p = p
advance (answer ∷ answers) p = advance answers (
    on_check_complete answer
      (record p { pending_checks = suc p.pending_checks; has_checks = true }))

check_ranges-advance :
    (check : ℕ × ℕ → Answer) (ranges : List (ℕ × ℕ)) (p : Progress)
    → check_ranges check ranges p ≡ advance (answers_to check ranges) p
unfolding check_ranges advance
check_ranges-advance check [] p = refl
check_ranges-advance check (range ∷ ranges) p = check_ranges-advance check ranges (
    on_check_complete (check range)
      (record p { pending_checks = suc p.pending_checks; has_checks = true }))

advance-append :
    (xs ys : List Answer) (p : Progress) → advance (xs ++ ys) p ≡ advance ys (advance xs p)
unfolding advance
advance-append [] ys p = refl
advance-append (a ∷ xs) ys p =
    advance-append xs ys
      (on_check_complete a (record p { pending_checks = suc p.pending_checks; has_checks = true }))

check_tables-advance :
    (check : Table → ℕ × ℕ → Answer) (r : Ranges)
    → check_tables check r ≡ advance (all_answers check r) no_progress
check_tables-advance check r = simp (check_ranges-advance, advance-append) refl

abbrev ongoing : Bool → List Outcome → Progress
ongoing has given = record {
  pending_checks = 0;
  has_checks = has;
  is_denied = false;
  given = given;
}

advance_denied :
    (xs : List Answer) (n : ℕ) (has : Bool) (given : List Outcome)
    → (advance xs
        (record { pending_checks = n; has_checks = has; is_denied = true; given = given })).given
      ≡ given
unfolding advance
advance_denied [] n has given = refl
advance_denied (a ∷ xs) n has given = advance_denied xs (suc n) true given

advance-ongoing :
    (xs : List Answer) (has : Bool) (given : List Outcome)
    → (advance xs (ongoing has given)).given ≡ given ++ each_call xs
unfolding advance
advance-ongoing [] has given = sym (append-nil given)
advance-ongoing (granted ∷ xs) has given =
    advance-ongoing xs true (given ++ passes ∷ []) ∙ append_assoc given (passes ∷ []) (each_call xs)
advance-ongoing (refused ∷ xs) has given = advance_denied xs 0 true (given ++ fails none ∷ [])
advance-ongoing (refused_with code ∷ xs) has given =
    advance_denied xs 0 true (given ++ fails (some code) ∷ [])

on_check_complete-has :
    (a : Answer) (p : Progress) → (on_check_complete a p).has_checks ≡ p.has_checks
on_check_complete-has granted p = ground arith
on_check_complete-has refused p = ground arith
on_check_complete-has (refused_with code) p = ground arith

advance-has :
    (xs : List Answer) (p : Progress) → p.has_checks ≡ true → (advance xs p).has_checks ≡ true
unfolding advance
advance-has [] p h = h
advance-has (a ∷ xs) p h =
    let q = record p { pending_checks = suc p.pending_checks; has_checks = true } in
    advance-has xs (on_check_complete a q) (on_check_complete-has a q)

check_custom-calls_for :
    (xs : List Answer)
    → (let p = advance xs no_progress in if p.has_checks then p.given else p.given ++ passes ∷ [])
      ≡ calls_for xs
unfolding advance
check_custom-calls_for [] = refl
check_custom-calls_for (a ∷ xs) =
    let q : Progress = record no_progress { pending_checks = 1; has_checks = true } in
    rw (advance-has xs (on_check_complete a q) (on_check_complete-has a q))
      (advance-ongoing (a ∷ xs) false [])

-- For a custom function code that declares its ranges, where the check answers at once, the callback
-- is called without an error for each range that the check grants before the first that it refuses,
-- and then once with that one's error; once without an error where no range is declared.
pub run_check_address-custom :
    (check : Check) (unit fc : ℕ) (payload : List ℕ) (ranges : Ranges)
    → run_check_address (some check) unit fc payload (some (some ranges))
      ≡ calls_for (all_answers (check unit) ranges)
unfolding run_check_address check_custom
run_check_address-custom check unit fc payload ranges =
    rw (check_tables-advance (check unit) ranges)
      (check_custom-calls_for (all_answers (check unit) ranges))
