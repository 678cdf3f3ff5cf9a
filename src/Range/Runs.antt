-- ===== src/Range/Runs.antt =====
-- Runs of src/utils/check-range.ts.
use njs_modbus.Common.{◌≡◌, ◌↔◌, refl, true, false, [], ◌∷◌}
use njs_modbus.Range.{many, multi, all_in, all_in_any, is_unbounded, check_bounded, check_range}
use njs_modbus.Range.Laws.{Allowed, check_range_iff}

-- Values in two tuples, but in neither of them alone.
across : check_range (many (1 ∷ 11 ∷ [])) (multi ((0, 5) ∷ (15, 10) ∷ [])) ≡ false
unfolding check_range check_bounded is_unbounded all_in_any all_in
across = refl

backwards : check_range (many (11 ∷ 15 ∷ [])) (multi ((0, 5) ∷ (15, 10) ∷ [])) ≡ true
unfolding check_range check_bounded is_unbounded all_in_any all_in
backwards = refl

check_range_iff_example :
    (check_range (many (11 ∷ 15 ∷ [])) (multi ((0, 5) ∷ (15, 10) ∷ [])) ≡ true)
    ↔ Allowed (many (11 ∷ 15 ∷ [])) (multi ((0, 5) ∷ (15, 10) ∷ []))
check_range_iff_example = check_range_iff (many (11 ∷ 15 ∷ [])) (multi ((0, 5) ∷ (15, 10) ∷ []))
