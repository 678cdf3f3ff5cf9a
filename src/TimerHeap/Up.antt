-- ===== src/TimerHeap/Up.antt =====
-- The loop towards the root of src/utils/timer-heap.ts.
use njs_modbus.Common.{
  ℕ, zero, suc, ◌<◌, ◌≤◌, ◌≡◌, ◌≢◌, refl, sym, ap, ◌∙◌, arith, true, false, List, length, ◌==◌,
  ==→eq, ne→==, eq→==, ◌⊎◌, inl, inr, set_at, length-set_at, get_or-set_same, get_or-set_other,
  if_holds,
}
use native.Mathlib.Decide.{ℕ_discrete}
use njs_modbus.TimerHeap.{Entry, no_entry, entry_at, comes_first, parent, up_loop}
use njs_modbus.TimerHeap.Order.{
  InOrder, InOrder-trans, InOrder-first, IsOpen, FitsBelow, Placed, stays-Placed, move-Placed,
}

module _ (heap : List Entry) (i : ℕ) (e : Entry) (o : IsOpen heap i) (pos : 0 < i) where
  abbrev above : Entry
  above = entry_at heap (parent i)

  abbrev raised : List Entry
  raised = set_at heap i above

  apart : i ≢ parent i
  apart q = omega (arith, q, pos)

  at_i : entry_at raised i ≡ above
  at_i = get_or-set_same heap i above no_entry o.inside

  at_other : (c : ℕ) → i ≢ c → entry_at raised c ≡ entry_at heap c
  at_other c n = get_or-set_other heap i c above no_entry n

  raised-IsOpen : IsOpen raised (parent i)
  raised-IsOpen = record {
    inside = omega (arith, o.inside, length-set_at heap i above);
    edges = λ c p h n away.
        let short : c < length heap = omega (arith, h, length-set_at heap i above) in
        let c_apart : i ≢ c = λ q. away (ap parent (sym q)) in
        elim (ℕ_discrete i (parent c)) [
          | yes same ↦ rw (← same, at_i, at_other c c_apart) (o.bridged c p short (sym same) pos)
          | no other ↦
              rw (at_other (parent c) other, at_other c c_apart)
                (o.edges c p short (λ q. c_apart (sym q)) (λ q. other (sym q)))
        ];
    bridged = λ c p h q top.
        let short : c < length heap = omega (arith, h, length-set_at heap i above) in
        let i_apart : i ≢ parent (parent i) = λ q. omega (arith, q, pos) in
        let up : InOrder (entry_at heap (parent (parent i))) above =
          o.edges (parent i) top (omega (arith, o.inside)) (λ q. apart (sym q))
            (λ q. i_apart (sym q)) in
        rw (at_other (parent (parent i)) i_apart) (elim (ℕ_discrete i c) [
          | yes same ↦ rw (← same, at_i) up
          | no other ↦ rw (at_other c other) (
              InOrder-trans (entry_at heap (parent (parent i))) above (entry_at heap c) up
                (rw q at (o.edges c p short (λ z. other (sym z)) (λ z. apart (sym z ∙ q)))))
        ]);
  }

  raised-FitsBelow : InOrder e above → FitsBelow raised (parent i) e
  raised-FitsBelow first c p h q =
      let short : c < length heap = omega (arith, h, length-set_at heap i above) in
      elim (ℕ_discrete i c) [
        | yes same ↦ rw (← same, at_i) first
        | no other ↦ rw (at_other c other) (
            InOrder-trans e above (entry_at heap c) first
              (rw q at (o.edges c p short (λ z. other (sym z)) (λ z. apart (sym z ∙ q)))))
      ]

-- The loop finds the place of an entry that fits above its children.
pub up_loop-Placed :
    (fuel : ℕ) (heap : List Entry) (i : ℕ) (e : Entry)
    → i < fuel
    → IsOpen heap i
    → FitsBelow heap i e
    → Placed heap i e (up_loop fuel heap i e)
unfolding up_loop
up_loop-Placed zero heap i e f o below = absurd (omega arith)
up_loop-Placed (suc fuel) heap i e f o below =
    let top = entry_at heap (parent i) in
    if_holds (Placed heap i e) (i == 0)
      (λ root. stays-Placed heap i e o (λ pos. absurd (omega (arith, ==→eq i 0 root))) below)
      λ inner.
        let pos : 0 < i = ground arith in
        if_holds (Placed heap i e) (comes_first top e)
          (λ first. stays-Placed heap i e o (λ _. InOrder-first top e first) below)
          λ later. move-Placed o.inside (omega (arith, o.inside)) (apart heap i e o pos) (
            up_loop-Placed fuel (set_at heap i top) (parent i) e (omega (arith, f, pos))
              (raised-IsOpen heap i e o pos) (raised-FitsBelow heap i e o pos later))

pub up_loop_le : (fuel : ℕ) (heap : List Entry) (i : ℕ) (e : Entry) → (up_loop fuel heap i e).1 ≤ i
unfolding up_loop
up_loop_le zero heap i e = omega arith
up_loop_le (suc fuel) heap i e =
    let top = entry_at heap (parent i) in
    if_holds (λ (r : List Entry × ℕ). r.1 ≤ i) (i == 0) (λ _. omega arith)
      λ _.
        if_holds (λ (r : List Entry × ℕ). r.1 ≤ i) (comes_first top e) (λ _. omega arith)
          λ _. omega (arith, up_loop_le fuel (set_at heap i top) (parent i) e)

-- The loop moves an entry that does not fit below its parent, and no other.
pub up_loop_moves :
    (fuel : ℕ) (heap : List Entry) (i : ℕ) (e : Entry)
    → 0 < i
    → comes_first (entry_at heap (parent i)) e ≡ false
    → (up_loop (suc fuel) heap i e).1 < i
unfolding up_loop
up_loop_moves fuel heap i e pos later =
    rw (ne→== i 0 (λ q. omega (arith, q, pos)), later)
      (omega (arith, pos, up_loop_le fuel (set_at heap i (entry_at heap (parent i))) (parent i) e))

pub up_loop_stays :
    (fuel : ℕ) (heap : List Entry) (i : ℕ) (e : Entry)
    → (i ≡ 0) ⊎ (comes_first (entry_at heap (parent i)) e ≡ true)
    → up_loop (suc fuel) heap i e ≡ (heap, i)
unfolding up_loop
up_loop_stays fuel heap i e (inl root) = rw (eq→== i 0 root) refl
up_loop_stays fuel heap i e (inr first) =
    if_holds (λ (r : List Entry × ℕ). r ≡ (heap, i)) (i == 0) (λ _. refl) λ _. rw first refl
