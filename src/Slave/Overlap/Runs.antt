-- ===== src/Slave/Overlap/Runs.antt =====
-- Runs of `rangesOverlap` of src/slave/slave.ts.
use njs_modbus.Common.{ℕ, ◌≡◌, ◌↔◌, refl, arith, true, false, [], ◌∷◌}
use njs_modbus.Slave.Overlap.{one_overlaps, ranges_overlap}
use njs_modbus.Slave.Overlap.Laws.{Covers, ranges_overlap_iff}

-- Ranges that touch have no address in common.
touching : ranges_overlap (0 ∷ 4 ∷ 10 ∷ 12 ∷ []) (4 ∷ 10 ∷ []) ≡ false
unfolding ranges_overlap one_overlaps
touching = refl

ranges_overlap_iff_example :
    (ranges_overlap (0 ∷ 4 ∷ 10 ∷ 12 ∷ []) (11 ∷ 20 ∷ []) ≡ true)
    ↔ ((x : ℕ) × Covers (0 ∷ 4 ∷ 10 ∷ 12 ∷ []) x × Covers (11 ∷ 20 ∷ []) x)
ranges_overlap_iff_example =
    ranges_overlap_iff (0 ∷ 4 ∷ 10 ∷ 12 ∷ []) (11 ∷ 20 ∷ []) (omega arith, (omega arith, tt))
      (omega arith, tt)
