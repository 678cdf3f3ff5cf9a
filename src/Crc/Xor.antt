-- ===== src/Crc/Xor.antt =====
-- Laws of the exclusive or at variables, from its recursion on binary digits. src/utils/crc.ts uses it.
use Prim.Native.Nat.{digits, differ, bit_xor-bitwise}
use native.Mathlib.Nat.{le_refl, pow-suc}
use njs_modbus.Common.{
  ℕ, zero, suc, ◌+◌, ◌-◌, ◌*◌, ◌/◌, ◌%◌, ◌^◌, ◌≤◌, ◌<◌, ◌≡◌, refl, ap, sym, ◌∙◌, arith, bit_xor,
}

-- The recursion on digits that `bit_xor` starts with fuel `a`.
abbrev xor_digits : ℕ → ℕ → ℕ → ℕ
xor_digits = digits (λ y. y) differ

one_more : (n a b : ℕ) → a ≤ n → xor_digits (suc n) a b ≡ xor_digits n a b
one_more zero a b h = let z : a ≡ 0 = omega arith in rw z refl
one_more (suc n) zero b h = refl
one_more (suc n) (suc a) b h =
    ap (λ (t : ℕ). t * 2 + differ (suc a % 2) (b % 2))
      (one_more n (suc a / 2) (b / 2) (omega arith))

-- Fuel beyond the number itself is spare.
spare : (k a b : ℕ) → xor_digits (k + a) a b ≡ bit_xor a b
spare zero a b = let same : 0 + a ≡ a = omega arith in rw same (sym (bit_xor-bitwise a b))
spare (suc k) a b =
    let next : suc k + a ≡ suc (k + a) = omega arith in
    rw next (one_more (k + a) a b (omega arith) ∙ spare k a b)

pub zero-bit_xor : (b : ℕ) → bit_xor 0 b ≡ b
zero-bit_xor b = bit_xor-bitwise 0 b

-- The lowest digit of the exclusive or.
abbrev lowest : ℕ → ℕ → ℕ
lowest a b = (a + b) % 2

differ_lem : (a b : ℕ) → a < 2 → b < 2 → differ a b ≡ lowest a b
differ_lem zero zero p q = refl
differ_lem zero (suc zero) p q = refl
differ_lem (suc zero) zero p q = refl
differ_lem (suc zero) (suc zero) p q = refl
differ_lem (suc (suc a)) b p q = absurd (omega arith)
differ_lem zero (suc (suc b)) p q = absurd (omega arith)
differ_lem (suc zero) (suc (suc b)) p q = absurd (omega arith)

pub bit_xor_step : (a b : ℕ) → bit_xor a b ≡ bit_xor (a / 2) (b / 2) * 2 + lowest a b
bit_xor_step zero b = omega (arith, zero-bit_xor b, zero-bit_xor (b / 2))
bit_xor_step (suc a) b =
    let rest = suc a / 2 in
    let fuel : a ≡ (a - rest) + rest = omega arith in
    omega (
      arith,
      bit_xor-bitwise (suc a) b,
      ap (λ (n : ℕ). xor_digits n rest (b / 2)) fuel ∙ spare (a - rest) rest (b / 2),
      differ_lem (suc a % 2) (b % 2) (omega arith) (omega arith),
    )

-- The digits of the result.
pub half-bit_xor : (a b : ℕ) → bit_xor a b / 2 ≡ bit_xor (a / 2) (b / 2)
half-bit_xor a b = omega (arith, bit_xor_step a b)

pub parity-bit_xor : (a b : ℕ) → bit_xor a b % 2 ≡ (a + b) % 2
parity-bit_xor a b = omega (arith, bit_xor_step a b)

-- Two numbers with the same halves and parities are equal.
same_digits : (x y : ℕ) → x / 2 ≡ y / 2 → x % 2 ≡ y % 2 → x ≡ y
same_digits x y h p = omega arith

xor_zero_fuel : (n a : ℕ) → a ≤ n → bit_xor a 0 ≡ a
xor_zero_fuel n zero h = zero-bit_xor 0
xor_zero_fuel zero (suc a) h = absurd (omega arith)
xor_zero_fuel (suc n) (suc a) h =
    omega (arith, bit_xor_step (suc a) 0, xor_zero_fuel n (suc a / 2) (omega arith))

pub bit_xor-zero : (a : ℕ) → bit_xor a 0 ≡ a
bit_xor-zero a = xor_zero_fuel a a (le_refl a)

self_fuel : (n a : ℕ) → a ≤ n → bit_xor a a ≡ 0
self_fuel n zero h = zero-bit_xor 0
self_fuel zero (suc a) h = absurd (omega arith)
self_fuel (suc n) (suc a) h =
    omega (arith, bit_xor_step (suc a) (suc a), self_fuel n (suc a / 2) (omega arith))

pub bit_xor_self : (a : ℕ) → bit_xor a a ≡ 0
bit_xor_self a = self_fuel a a (le_refl a)

comm_fuel : (n a b : ℕ) → a ≤ n → bit_xor a b ≡ bit_xor b a
comm_fuel n zero b h = omega (arith, zero-bit_xor b, bit_xor-zero b)
comm_fuel zero (suc a) b h = absurd (omega arith)
comm_fuel (suc n) (suc a) b h = omega (
  arith,
  bit_xor_step (suc a) b,
  bit_xor_step b (suc a),
  comm_fuel n (suc a / 2) (b / 2) (omega arith),
)

pub bit_xor_comm : (a b : ℕ) → bit_xor a b ≡ bit_xor b a
bit_xor_comm a b = comm_fuel a a b (le_refl a)

assoc_fuel : (n a b c : ℕ) → a ≤ n → bit_xor (bit_xor a b) c ≡ bit_xor a (bit_xor b c)
assoc_fuel n zero b c h = rw (zero-bit_xor b) (omega (arith, zero-bit_xor (bit_xor b c)))
assoc_fuel zero (suc a) b c h = absurd (omega arith)
assoc_fuel (suc n) (suc a) b c h =
    same_digits _ _
      (rw
        (
          half-bit_xor (bit_xor (suc a) b) c,
          half-bit_xor (suc a) b,
          half-bit_xor (suc a) (bit_xor b c),
          half-bit_xor b c,
        )
        (assoc_fuel n (suc a / 2) (b / 2) (c / 2) (omega arith)))
      (omega (
        arith,
        parity-bit_xor (bit_xor (suc a) b) c,
        parity-bit_xor (suc a) b,
        parity-bit_xor (suc a) (bit_xor b c),
        parity-bit_xor b c,
      ))

pub bit_xor_assoc : (a b c : ℕ) → bit_xor (bit_xor a b) c ≡ bit_xor a (bit_xor b c)
bit_xor_assoc a b c = assoc_fuel a a b c (le_refl a)

-- The exclusive or of numbers of `k` bits has `k` bits.
pub bit_xor-lt : (k a b : ℕ) → a < 2 ^ k → b < 2 ^ k → bit_xor a b < 2 ^ k
bit_xor-lt zero a b p q =
    let za : a ≡ 0 = omega arith in
    let zb : b ≡ 0 = omega arith in rw (za, zb) (omega (arith, zero-bit_xor 0))
bit_xor-lt (suc k) a b p q =
    let double = pow-suc 2 k in
    omega (
      arith,
      double,
      bit_xor_step a b,
      bit_xor-lt k (a / 2) (b / 2) (omega (arith, double)) (omega (arith, double)),
    )

pub mul-two-pow-suc : (h k : ℕ) → h * 2 ^ suc k ≡ 2 * (h * 2 ^ k)
mul-two-pow-suc h k = omega (arith, ap (λ (t : ℕ). h * t) (pow-suc 2 k))

-- Over disjoint bits it is the sum.
pub bit_xor_disjoint : (k l h : ℕ) → l < 2 ^ k → bit_xor l (h * 2 ^ k) ≡ l + h * 2 ^ k
bit_xor_disjoint zero l h p =
    let z : l ≡ 0 = omega arith in rw z (omega (arith, zero-bit_xor (h * 2 ^ 0)))
bit_xor_disjoint (suc k) l h p =
    let double = mul-two-pow-suc h k in
    let half : h * 2 ^ suc k / 2 ≡ h * 2 ^ k = omega (arith, double) in
    omega (
      arith,
      double,
      bit_xor_step l (h * 2 ^ suc k),
      ap (λ (t : ℕ). bit_xor (l / 2) t) half,
      bit_xor_disjoint k (l / 2) h (omega (arith, pow-suc 2 k)),
    )

pub bit_xor_cancel : (a b c : ℕ) → bit_xor a c ≡ bit_xor b c → a ≡ b
bit_xor_cancel a b c e = sym (back a) ∙ ap (λ (t : ℕ). bit_xor t c) e ∙ back b
  where
    back : (x : ℕ) → bit_xor (bit_xor x c) c ≡ x
    back x = bit_xor_assoc x c c ∙ ap (bit_xor x) (bit_xor_self c) ∙ bit_xor-zero x
