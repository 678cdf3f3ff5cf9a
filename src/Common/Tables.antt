-- ===== src/Common/Tables.antt =====
-- Lists given by their entries, and lists that agree in every entry.
use Prim.Native.Nat.{ℕ, zero, suc, ◌<◌}
use mathlib.Core.Path.{◌≡◌, refl, ap, ap₂}
use mathlib.Core.List.{List, [], ◌∷◌}
use native.Mathlib.Omega.{arith}
use njs_modbus.Common.Lists.{length, get_or}

-- The list of `f 0` to `f (n - 1)`.
abbrev pub tabulate {ℓ} : {A : Type ℓ} → ℕ → (ℕ → A) → List A
tabulate zero f = []
tabulate (suc n) f = f 0 ∷ tabulate n (λ i. f (suc i))

module _ {ℓ} {A : Type ℓ} where
  pub length-tabulate : (n : ℕ) (f : ℕ → A) → length (tabulate n f) ≡ n
  length-tabulate zero f = refl
  length-tabulate (suc n) f = ap suc (length-tabulate n (λ i. f (suc i)))

  -- A list with the entries of a table is the table.
  pub eq-tabulate :
      (xs : List A) (n : ℕ) (f : ℕ → A) (d : A)
      → length xs ≡ n
      → ((i : ℕ) → i < n → get_or xs i d ≡ f i)
      → xs ≡ tabulate n f
  eq-tabulate [] zero f d e h = refl
  eq-tabulate [] (suc n) f d e h = absurd (omega arith)
  eq-tabulate (x ∷ xs) zero f d e h = absurd (omega arith)
  eq-tabulate (x ∷ xs) (suc n) f d e h =
      ap₂ ◌∷◌ (h 0 (omega arith))
        (eq-tabulate xs n (λ i. f (suc i)) d (omega arith) (λ i l. h (suc i) (omega arith)))
