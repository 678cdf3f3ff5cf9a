-- ===== src/Common/Updates.antt =====
-- The write of one entry of a list, and how many entries pass a test.
use Prim.Native.Nat.{ℕ, zero, suc, ◌+◌, ◌<◌}
use mathlib.Core.Path.{◌≡◌, refl, ap}
use mathlib.Core.Logic.{◌≢◌, inl, inr}
use mathlib.Core.Bool.{Bool, false}
use mathlib.Core.List.{List, [], ◌∷◌, ◌++◌}
use native.Mathlib.Omega.{arith}
use njs_modbus.Common.Tests.{if◌then◌else◌, Bool-cases}
use njs_modbus.Common.Lists.{length, get_or, take, All}

abbrev pub one_if : Bool → ℕ
one_if b = if b then 1 else 0

module _ {ℓ} {A : Type ℓ} where
  abbrev pub set_at : List A → ℕ → A → List A
  set_at [] i x = []
  set_at (y ∷ xs) zero x = x ∷ xs
  set_at (y ∷ xs) (suc i) x = y ∷ set_at xs i x

  pub length-set_at : (xs : List A) (i : ℕ) (x : A) → length (set_at xs i x) ≡ length xs
  length-set_at [] i x = refl
  length-set_at (y ∷ xs) zero x = refl
  length-set_at (y ∷ xs) (suc i) x = ap suc (length-set_at xs i x)

  pub get_or-set_same :
      (xs : List A) (i : ℕ) (x d : A) → i < length xs → get_or (set_at xs i x) i d ≡ x
  get_or-set_same [] i x d h = absurd (omega arith)
  get_or-set_same (y ∷ xs) zero x d h = refl
  get_or-set_same (y ∷ xs) (suc i) x d h = get_or-set_same xs i x d (omega arith)

  pub get_or-set_other :
      (xs : List A) (i j : ℕ) (x d : A) → i ≢ j → get_or (set_at xs i x) j d ≡ get_or xs j d
  get_or-set_other [] i j x d h = refl
  get_or-set_other (y ∷ xs) zero zero x d h = absurd (h refl)
  get_or-set_other (y ∷ xs) zero (suc j) x d h = refl
  get_or-set_other (y ∷ xs) (suc i) zero x d h = refl
  get_or-set_other (y ∷ xs) (suc i) (suc j) x d h = get_or-set_other xs i j x d (omega (arith, h))

  -- How many entries pass the test.
  abbrev pub count : (A → Bool) → List A → ℕ
  count p [] = 0
  count p (x ∷ xs) = one_if (p x) + count p xs

  pub count-append : (p : A → Bool) (xs ys : List A) → count p (xs ++ ys) ≡ count p xs + count p ys
  count-append p [] ys = omega arith
  count-append p (x ∷ xs) ys = omega (arith, count-append p xs ys)

  -- A write trades the old entry for the new one.
  pub count-set_at :
      (p : A → Bool) (xs : List A) (i : ℕ) (x d : A)
      → i < length xs
      → count p (set_at xs i x) + one_if (p (get_or xs i d)) ≡ count p xs + one_if (p x)
  count-set_at p [] i x d h = absurd (omega arith)
  count-set_at p (y ∷ xs) zero x d h = omega arith
  count-set_at p (y ∷ xs) (suc i) x d h = omega (arith, count-set_at p xs i x d (omega arith))

  -- Without its last entry, a list has the others.
  pub count-take_last :
      (p : A → Bool) (n : ℕ) (xs : List A) (d : A)
      → length xs ≡ suc n
      → count p (take n xs) + one_if (p (get_or xs n d)) ≡ count p xs
  count-take_last p n [] d h = absurd (omega arith)
  count-take_last p zero (x ∷ []) d h = omega arith
  count-take_last p zero (x ∷ y ∷ xs) d h = absurd (omega arith)
  count-take_last p (suc n) (x ∷ xs) d h = omega (arith, count-take_last p n xs d (omega arith))

  pub set_at_same : (xs : List A) (i : ℕ) (d : A) → set_at xs i (get_or xs i d) ≡ xs
  set_at_same [] i d = refl
  set_at_same (x ∷ xs) zero d = refl
  set_at_same (x ∷ xs) (suc i) d = ap (◌∷◌ x) (set_at_same xs i d)

  -- A test that every entry fails counts none, and the other way round.
  pub count_none :
      (p : A → Bool) (xs : List A) (d : A)
      → ((i : ℕ) → i < length xs → p (get_or xs i d) ≡ false)
      → count p xs ≡ 0
  count_none p [] d h = refl
  count_none p (x ∷ xs) d h =
      omega
        (arith, ap one_if (h 0 (omega arith)), count_none p xs d (λ i k. h (suc i) (omega arith)))

  pub none_count : (p : A → Bool) (xs : List A) → count p xs ≡ 0 → All (λ x. p x ≡ false) xs
  none_count p [] h = tt
  none_count p (x ∷ xs) h = elim (Bool-cases (p x)) [
    | inl passes ↦ absurd (omega (arith, ap one_if passes, h))
    | inr fails ↦ (fails, none_count p xs (omega (arith, h)))
  ]

  pub none_at :
      (p : A → Bool) (xs : List A) (d : A) (i : ℕ)
      → count p xs ≡ 0
      → i < length xs
      → p (get_or xs i d) ≡ false
  none_at p [] d i h k = absurd (omega arith)
  none_at p (x ∷ xs) d zero h k = (none_count p (x ∷ xs) h).0
  none_at p (x ∷ xs) d (suc i) h k = none_at p xs d i (omega (arith, h)) (omega arith)
