-- ===== src/Lrc/Laws.antt =====
-- What the LRC of src/utils/lrc.ts is for: the bytes and the LRC add up to 0 modulo 256.
use njs_modbus.Common.{
  ℕ, zero, suc, ◌+◌, ◌-◌, ◌%◌, ◌≤◌, ◌<◌, ◌≡◌, ◌↔◌, refl, ap, arith, List, [], ◌∷◌, some, length,
  take, drop, lt→ltb,
}
use njs_modbus.Tcp.{byte_at}
use njs_modbus.Lrc.{sum_loop, lrc}

abbrev pub total : List ℕ → ℕ
total [] = 0
total (b ∷ bytes) = b + total bytes

total_next :
    (bytes : List ℕ) (i n : ℕ)
    → i < length bytes
    → total (take (suc n) (drop i bytes)) ≡ byte_at bytes i + total (take n (drop (suc i) bytes))
total_next [] i n h = absurd (omega arith)
total_next (b ∷ bytes) zero n h = refl
total_next (b ∷ bytes) (suc i) n h = total_next bytes i n (omega arith)

sum_loop-total :
    (bytes : List ℕ) (n i sum : ℕ)
    → i + n ≤ length bytes
    → sum_loop bytes n i sum ≡ some (sum + total (take n (drop i bytes)))
unfolding sum_loop
sum_loop-total bytes zero i sum h = ap some (omega arith)
sum_loop-total bytes (suc n) i sum h =
    let more : sum + byte_at bytes i + total (take n (drop (suc i) bytes))
        ≡ sum + total (take (suc n) (drop i bytes)) =
      omega (arith, total_next bytes i n (omega arith)) in
    rw
      (
        lt→ltb i (length bytes) (omega arith),
        sum_loop-total bytes n (suc i) (sum + byte_at bytes i) (omega arith),
        more,
      )
      refl

-- On a range within the data, the LRC is the one byte that makes the bytes of the range and the LRC
-- add up to 0 modulo 256.
pub lrc_iff :
    (bytes : List ℕ) (start stop value : ℕ)
    → start ≤ stop
    → stop ≤ length bytes
    → value < 256
    → (value ≡ lrc bytes start stop)
      ↔ ((total (take (stop - start) (drop start bytes)) + value) % 256 ≡ 0)
unfolding lrc
lrc_iff bytes start stop value h k small =
    rw (sum_loop-total bytes (stop - start) start 0 (omega (arith, h, k)))
      (λ e. omega (arith, e, small), λ e. omega (arith, e, small))
