-- ===== src/TimerHeap/Down.antt =====
-- The loop towards the leaves of src/utils/timer-heap.ts.
use njs_modbus.Common.{
  ℕ, zero, suc, ◌+◌, ◌*◌, ◌/◌, ◌<◌, ◌≤◌, ◌≡◌, ◌≢◌, refl, sym, arith, true, ◌&&◌, List, length, ltb,
  lt→ltb, ltb→lt, ltb→ge, and_true, ◌⊎◌, inl, inr, set_at, length-set_at, get_or-set_same,
  get_or-set_other, if_holds,
}
use native.Mathlib.Decide.{ℕ_discrete}
use njs_modbus.TimerHeap.{Entry, no_entry, entry_at, comes_first, parent, min_child, down_loop}
use njs_modbus.TimerHeap.Order.{
  InOrder, InOrder-refl, InOrder-trans, InOrder-first, IsOpen, FitsAbove, Placed, stays-Placed,
  move-Placed,
}

-- The child that comes before the other, if there is one.
record IsMinChild (heap : List Entry) (i m : ℕ) : Type 0 where
  inside : m < length heap
  child : parent m ≡ i
  later : i < m
  least :
      (c : ℕ) → 0 < c → c < length heap → parent c ≡ i → InOrder (entry_at heap m) (entry_at heap c)

left_or_right : (c i : ℕ) → 0 < c → parent c ≡ i → c ≢ i * 2 + 1 → c ≡ i * 2 + 1 + 1
left_or_right c i p q n = omega (arith, p, q, n)

module _ (heap : List Entry) (i : ℕ) (h : i < length heap / 2) where
  abbrev left : ℕ
  left = i * 2 + 1

  abbrev right : ℕ
  right = i * 2 + 1 + 1

  right-IsMinChild :
      right < length heap
      → comes_first (entry_at heap right) (entry_at heap left) ≡ true
      → IsMinChild heap i right
  right-IsMinChild short first = record {
    inside = short;
    child = omega arith;
    later = omega arith;
    least = λ c p k q. elim (ℕ_discrete c left) [
      | yes same ↦ rw same (InOrder-first (entry_at heap right) (entry_at heap left) first)
      | no other ↦ rw (left_or_right c i p q other) (InOrder-refl (entry_at heap right))
    ];
  }

  left-IsMinChild :
      (right < length heap → InOrder (entry_at heap left) (entry_at heap right))
      → IsMinChild heap i left
  left-IsMinChild first = record {
    inside = omega (arith, h);
    child = omega arith;
    later = omega arith;
    least = λ c p k q. elim (ℕ_discrete c left) [
      | yes same ↦ rw same (InOrder-refl (entry_at heap left))
      | no other ↦
          rw (left_or_right c i p q other) (first (omega (arith, k, left_or_right c i p q other)))
    ];
  }

  min_child-IsMinChild : IsMinChild heap i (min_child heap i)
  unfolding min_child
  min_child-IsMinChild =
      if_holds (IsMinChild heap i)
        (ltb right (length heap) && comes_first (entry_at heap right) (entry_at heap left))
        (λ both.
          let (short, first) =
            and_true (ltb right (length heap))
              (comes_first (entry_at heap right) (entry_at heap left)) both in
          right-IsMinChild (ltb→lt right (length heap) short) first)
        (λ one. left-IsMinChild λ short. rw (lt→ltb right (length heap) short) at one)

module _ (heap : List Entry) (i m : ℕ) (e : Entry) (o : IsOpen heap i)
    (s : IsMinChild heap i m) where
  abbrev below : Entry
  below = entry_at heap m

  abbrev lowered : List Entry
  lowered = set_at heap i below

  at_i : entry_at lowered i ≡ below
  at_i = get_or-set_same heap i below no_entry o.inside

  at_other : (c : ℕ) → i ≢ c → entry_at lowered c ≡ entry_at heap c
  at_other c n = get_or-set_other heap i c below no_entry n

  lowered-IsOpen : IsOpen lowered m
  lowered-IsOpen = record {
    inside = omega (arith, s.inside, length-set_at heap i below);
    edges = λ c p h n away.
        let short : c < length heap = omega (arith, h, length-set_at heap i below) in
        elim (ℕ_discrete i c) [
          | yes same ↦
              let up : 0 < i = omega (arith, same, p) in
              rw (← same, at_i, at_other (parent i) (λ q. omega (arith, q, up)))
                (o.bridged m (omega (arith, s.later)) s.inside s.child up)
          | no c_apart ↦ elim (ℕ_discrete i (parent c)) [
            | yes same ↦ rw (← same, at_i, at_other c c_apart) (s.least c p short (sym same))
            | no other ↦
                rw (at_other (parent c) other, at_other c c_apart)
                  (o.edges c p short (λ q. c_apart (sym q)) (λ q. other (sym q)))
          ]
        ];
    bridged = λ c p h q up.
        let short : c < length heap = omega (arith, h, length-set_at heap i below) in
        let c_apart : i ≢ c = λ z. omega (arith, z, q, s.later) in
        rw (s.child, at_i, at_other c c_apart)
          (rw q at (o.edges c p short (λ z. c_apart (sym z)) (λ z. omega (arith, z, q, s.later))));
  }

  lowered-FitsAbove : InOrder below e → FitsAbove lowered m e
  lowered-FitsAbove first up = rw (s.child, at_i) first

-- The loop finds the place of an entry that fits below its parent.
pub down_loop-Placed :
    (fuel : ℕ) (heap : List Entry) (i : ℕ) (e : Entry)
    → length heap ≤ fuel + i
    → IsOpen heap i
    → FitsAbove heap i e
    → Placed heap i e (down_loop fuel heap i e)
unfolding down_loop
down_loop-Placed zero heap i e f o above = absurd (omega (arith, o.inside))
down_loop-Placed (suc fuel) heap i e f o above =
    let m = min_child heap i in
    let x = entry_at heap m in
    if_holds (Placed heap i e) (ltb i (length heap / 2))
      (λ inner.
        let s = min_child-IsMinChild heap i (ltb→lt i (length heap / 2) inner) in
        if_holds (Placed heap i e) (comes_first e x)
          (λ first. stays-Placed heap i e o above (λ c p h q.
            InOrder-trans e x (entry_at heap c) (InOrder-first e x first) (s.least c p h q)))
          (λ later.
            move-Placed o.inside s.inside (λ q. omega (arith, q, s.later))
              (down_loop-Placed fuel (set_at heap i x) m e
                (omega (arith, f, s.later, length-set_at heap i x)) (lowered-IsOpen heap i m e o s)
                (lowered-FitsAbove heap i m e o s later))))
      (λ leaf.
        let no_child : length heap / 2 ≤ i = ltb→ge i (length heap / 2) leaf in
        stays-Placed heap i e o above (λ c p h q. absurd (omega (arith, no_child))))

min_child_gt : (heap : List Entry) (i : ℕ) → i < min_child heap i
unfolding min_child
min_child_gt heap i =
    if_holds (λ (m : ℕ). i < m)
      (ltb (i * 2 + 1 + 1) (length heap)
        && comes_first (entry_at heap (i * 2 + 1 + 1)) (entry_at heap (i * 2 + 1)))
      (λ _. omega arith) (λ _. omega arith)

-- The loop leaves the arrays alone, or gives a later index.
abbrev Moves : List Entry → ℕ → List Entry × ℕ → Type 0
Moves heap i r = (r ≡ (heap, i)) ⊎ (i < r.1)

pub down_loop-Moves :
    (fuel : ℕ) (heap : List Entry) (i : ℕ) (e : Entry) → Moves heap i (down_loop fuel heap i e)
unfolding down_loop
down_loop-Moves zero heap i e = inl refl
down_loop-Moves (suc fuel) heap i e =
    let m = min_child heap i in
    let x = entry_at heap m in
    if_holds (Moves heap i) (ltb i (length heap / 2))
      (λ _.
        if_holds (Moves heap i) (comes_first e x) (λ _. inl refl)
          (λ _. inr (elim (down_loop-Moves fuel (set_at heap i x) m e) [
            | inl same ↦ rw same (min_child_gt heap i)
            | inr more ↦ omega (arith, more, min_child_gt heap i)
          ])))
      (λ _. inl refl)
