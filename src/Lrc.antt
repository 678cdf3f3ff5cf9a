-- ===== src/Lrc.antt =====
-- The LRC of Modbus ASCII, src/utils/lrc.ts. A read past the end of the data gives `undefined`, and
-- the sum is then `NaN`, here `none`, of which `-sum & 0xff` is 0.
pub mod Laws
mod Runs
use njs_modbus.Common.{
  ℕ, zero, suc, ◌+◌, ◌-◌, ◌%◌, List, Option, none, some, ltb, if◌then◌else◌, length,
}
use njs_modbus.Tcp.{byte_at}

-- The loop, with as many rounds left as there are bytes up to `end`.
pub sum_loop : List ℕ → ℕ → ℕ → ℕ → Option ℕ
sum_loop bytes zero i sum = some sum
sum_loop bytes (suc n) i sum =
    let rest = sum_loop bytes n (suc i) (sum + byte_at bytes i) in
    if ltb i (length bytes) then rest else none

-- `-sum & 0xff`
abbrev pub negated : Option ℕ → ℕ
negated none = 0
negated (some sum) = (256 - sum % 256) % 256

pub lrc : List ℕ → ℕ → ℕ → ℕ
lrc bytes start stop = negated (sum_loop bytes (stop - start) start 0)
