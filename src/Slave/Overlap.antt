-- ===== src/Slave/Overlap.antt =====
-- `rangesOverlap` of src/slave/slave.ts. The ranges of a write request are one array: the start and
-- the end of each range, the end excluded. Past the end of the array the code reads `undefined`, for
-- which its comparisons are false.
pub mod Laws
pub mod Symmetric
mod Runs
use njs_modbus.Common.{ℕ, Bool, true, false, ◌&&◌, List, [], ◌∷◌, ltb, if◌then◌else◌}

-- The loop over the ranges of `b`, for one range of `a`.
unfoldable pub one_overlaps : ℕ → ℕ → List ℕ → Bool
one_overlaps a_start a_end [] = false
one_overlaps a_start a_end (b_start ∷ []) = false
one_overlaps a_start a_end (b_start ∷ b_end ∷ rest) =
    if ltb a_start b_end && ltb b_start a_end then true else one_overlaps a_start a_end rest

-- The loop over the ranges of `a`.
unfoldable pub ranges_overlap : List ℕ → List ℕ → Bool
ranges_overlap [] b = false
ranges_overlap (a_start ∷ []) b = false
ranges_overlap (a_start ∷ a_end ∷ rest) b =
    if one_overlaps a_start a_end b then true else ranges_overlap rest b
