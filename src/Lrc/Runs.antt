-- ===== src/Lrc/Runs.antt =====
-- Runs of src/utils/lrc.ts.
use njs_modbus.Common.{ℕ, ◌+◌, ◌%◌, ◌≡◌, ◌↔◌, refl, arith, List, [], ◌∷◌}
use njs_modbus.Lrc.{sum_loop, lrc}
use njs_modbus.Lrc.Laws.{lrc_iff}

abbrev request : List ℕ
request = 0x01 ∷ 0x03 ∷ 0x00 ∷ 0x00 ∷ 0x00 ∷ 0x0a ∷ []

lrc_of_request : lrc request 0 6 ≡ 0xf2
unfolding lrc sum_loop
lrc_of_request = refl

lrc_past_end : lrc request 0 7 ≡ 0
unfolding lrc sum_loop
lrc_past_end = refl

lrc_iff_example : (0xf2 ≡ lrc request 0 6) ↔ ((14 + 0xf2) % 256 ≡ 0)
lrc_iff_example = lrc_iff request 0 6 0xf2 (omega arith) (omega arith) (omega arith)
