-- ===== src/TimerHeap/Order.antt =====
-- The order of the timers in src/utils/timer-heap.ts.
use njs_modbus.Common.{
  ℕ, zero, suc, ◌<◌, ◌≡◌, refl, arith, Bool, true, false, List, length, ◌≢◌, sym, ap, ◌∙◌, set_at,
  length-set_at, get_or-set_same, get_or-set_other, one_if, count, count-set_at,
}
use native.Mathlib.Decide.{ℕ_discrete}
use njs_modbus.TimerHeap.{Entry, no_entry, entry_at, comes_first, parent, place}

-- The second entry does not come before the first.
abbrev pub InOrder : Entry → Entry → Type 0
InOrder a b = comes_first b a ≡ false

pub InOrder-refl : (a : Entry) → InOrder a a
InOrder-refl a = ground arith

pub InOrder-trans : (a b c : Entry) → InOrder a b → InOrder b c → InOrder a c
InOrder-trans a b c h k = ground arith

pub InOrder-first : (a b : Entry) → comes_first a b ≡ true → InOrder a b
InOrder-first a b h = ground arith

-- No entry comes before its parent.
abbrev pub IsHeap : List Entry → Type 0
IsHeap heap =
    (c : ℕ) → 0 < c → c < length heap → InOrder (entry_at heap (parent c)) (entry_at heap c)

root_below :
    (k : ℕ) (heap : List Entry) (i : ℕ)
    → IsHeap heap
    → i < k
    → i < length heap
    → InOrder (entry_at heap 0) (entry_at heap i)
root_below zero heap i h f p = absurd (omega arith)
root_below (suc k) heap zero h f p = InOrder-refl (entry_at heap 0)
root_below (suc k) heap (suc i) h f p =
    InOrder-trans (entry_at heap 0) (entry_at heap (parent (suc i))) (entry_at heap (suc i))
      (root_below k heap (parent (suc i)) h (omega arith) (omega arith)) (h (suc i) (omega arith) p)

-- No entry of a heap comes before its root.
pub root_first :
    (heap : List Entry) (i : ℕ)
    → IsHeap heap
    → i < length heap
    → InOrder (entry_at heap 0) (entry_at heap i)
root_first heap i h p = root_below (suc i) heap i h (omega arith) p

-- An entry that is to stand at index `i`: the pairs away from `i` are in order, and so are the parent
-- of `i` and its children.
pub record IsOpen (heap : List Entry) (i : ℕ) : Type 0 where
  pub inside : i < length heap
  pub edges :
      (c : ℕ)
      → 0 < c
      → c < length heap
      → c ≢ i
      → parent c ≢ i
      → InOrder (entry_at heap (parent c)) (entry_at heap c)
  pub bridged :
      (c : ℕ)
      → 0 < c
      → c < length heap
      → parent c ≡ i
      → 0 < i
      → InOrder (entry_at heap (parent i)) (entry_at heap c)

abbrev pub FitsAbove : List Entry → ℕ → Entry → Type 0
FitsAbove heap i e = 0 < i → InOrder (entry_at heap (parent i)) e

abbrev pub FitsBelow : List Entry → ℕ → Entry → Type 0
FitsBelow heap i e = (c : ℕ) → 0 < c → c < length heap → parent c ≡ i → InOrder e (entry_at heap c)

-- Where it fits, it makes a heap.
pub set_at-IsHeap :
    (heap : List Entry) (i : ℕ) (e : Entry)
    → IsOpen heap i
    → FitsAbove heap i e
    → FitsBelow heap i e
    → IsHeap (set_at heap i e)
set_at-IsHeap heap i e o above below c pos h =
    let short : c < length heap = omega (arith, h, length-set_at heap i e) in
    elim (ℕ_discrete i c) [
      | yes same ↦
          rw
            (
              ← same,
              get_or-set_same heap i e no_entry o.inside,
              get_or-set_other heap i (parent i) e no_entry (λ q. omega (arith, q, same, pos)),
            )
            (above (omega (arith, same)))
      | no apart ↦ rw (get_or-set_other heap i c e no_entry apart) (elim (ℕ_discrete i (parent c)) [
        | yes same ↦
            rw (← same, get_or-set_same heap i e no_entry o.inside) (below c pos short (sym same))
        | no away ↦
            rw (get_or-set_other heap i (parent c) e no_entry away)
              (o.edges c pos short (λ q. apart (sym q)) (λ q. away (sym q)))
      ])
    ]

-- What the loops give: the entry stands in a heap of the same entries.
pub record Placed (heap : List Entry) (i : ℕ) (e : Entry) (r : List Entry × ℕ) : Type 0 where
  pub ordered : IsHeap (place r e)
  pub size : length (place r e) ≡ length heap
  pub same : (p : Entry → Bool) → count p (place r e) ≡ count p (set_at heap i e)

-- A move of the entry at `j` to `i`, so that `j` is open, keeps the entries.
pub count-move :
    (p : Entry → Bool) (heap : List Entry) (i j : ℕ) (e : Entry)
    → i < length heap
    → j < length heap
    → i ≢ j
    → count p (set_at (set_at heap i (entry_at heap j)) j e) ≡ count p (set_at heap i e)
count-move p heap i j e hi hj apart =
    let x = entry_at heap j in
    let size = length-set_at heap i x in
    let here = ap (λ (y : Entry). one_if (p y)) (get_or-set_other heap i j x no_entry apart) in
    omega (
      arith,
      count-set_at p (set_at heap i x) j e no_entry (omega (arith, size, hj)),
      count-set_at p heap i x no_entry hi,
      count-set_at p heap i e no_entry hi,
      here,
    )

-- An entry that fits stays where it is.
pub stays-Placed :
    (heap : List Entry) (i : ℕ) (e : Entry)
    → IsOpen heap i
    → FitsAbove heap i e
    → FitsBelow heap i e
    → Placed heap i e (heap, i)
stays-Placed heap i e o above below = record {
  ordered = set_at-IsHeap heap i e o above below;
  size = length-set_at heap i e;
  same = λ p. refl;
}

-- A round moves the entry at `j` to `i`.
pub move-Placed :
    {heap : List Entry} {i j : ℕ} {e : Entry} {r : List Entry × ℕ}
    → i < length heap
    → j < length heap
    → i ≢ j
    → Placed (set_at heap i (entry_at heap j)) j e r
    → Placed heap i e r
move-Placed {heap} {i} {j} {e} {r} hi hj apart placed = record {
  ordered = placed.ordered;
  size = placed.size ∙ length-set_at heap i (entry_at heap j);
  same = λ p. placed.same p ∙ count-move p heap i j e hi hj apart;
}
