-- ===== src/TimerHeap/Queue.antt =====
-- The operations on the heap of src/utils/timer-heap.ts.
use njs_modbus.Common.{
  ℕ, suc, ◌+◌, ◌-◌, ◌<◌, ◌≤◌, ◌≡◌, ◌⊎◌, inl, inr, refl, sym, ap, ◌∙◌, arith, Bool, true, false,
  List, [], ◌∷◌, ◌++◌, length, length-append, take, length-take, get_or-take, get_or-append_lt, ltb,
  ltb→lt, ltb→ge, ◌==◌, eq→==, ne→==, Bool-cases, set_at, length-set_at, get_or-set_other,
  set_at_same, one_if, count, count-append, count-set_at, count-take_last, if◌then◌else◌, if_holds,
}
use native.Mathlib.Decide.{ℕ_discrete}
use njs_modbus.TimerHeap.{
  Entry, no_entry, entry_at, comes_first, parent, up_loop, down_loop, place, heap_add, pop, sift,
  remove_at,
}
use njs_modbus.TimerHeap.Order.{
  InOrder-trans, InOrder-first, IsHeap, IsOpen, FitsAbove, FitsBelow, Placed,
}
use njs_modbus.TimerHeap.Up.{up_loop-Placed, up_loop_moves, up_loop_stays}
use njs_modbus.TimerHeap.Down.{down_loop-Placed, down_loop-Moves}

-- A heap of the entries of a list.
pub record HeapOf (entries heap : List Entry) : Type 0 where
  pub ordered : IsHeap heap
  pub size : length heap ≡ length entries
  pub same : (p : Entry → Bool) → count p heap ≡ count p entries

Placed-HeapOf :
    (heap : List Entry) (i : ℕ) (r : List Entry × ℕ)
    → Placed heap i (entry_at heap i) r
    → HeapOf heap (place r (entry_at heap i))
Placed-HeapOf heap i r placed = record {
  ordered = placed.ordered;
  size = placed.size;
  same = λ p. placed.same p ∙ ap (count p) (set_at_same heap i no_entry);
}

module _ (heap : List Entry) (i : ℕ) (o : IsOpen heap i) where
  abbrev e : Entry
  e = entry_at heap i

  -- An entry that does not fit below its parent fits above its children.
  lifted-FitsBelow : 0 < i → comes_first (entry_at heap (parent i)) e ≡ false → FitsBelow heap i e
  lifted-FitsBelow pos later c p h q =
      InOrder-trans e (entry_at heap (parent i)) (entry_at heap c) later (o.bridged c p h q pos)

  -- The part of `_sift` behind the loop towards the root, where that moved nothing.
  sunk-HeapOf :
      FitsAbove heap i e
      → HeapOf heap (
          let down = down_loop (length heap) heap i e in
          if down.1 == i then down.0 else place down e)
  sunk-HeapOf above =
      let down = down_loop (length heap) heap i e in
      let whole =
        Placed-HeapOf heap i down (down_loop-Placed (length heap) heap i e (omega arith) o above) in
      elim (down_loop-Moves (length heap) heap i e) [
        | inl still ↦ rw (still, eq→== i i refl) (rw (still, set_at_same heap i no_entry) at whole)
        | inr deeper ↦ rw (ne→== down.1 i (λ q. omega (arith, q, deeper))) whole
      ]

  stays-HeapOf :
      (i ≡ 0) ⊎ (comes_first (entry_at heap (parent i)) e ≡ true) → HeapOf heap (sift heap i)
  unfolding sift
  stays-HeapOf stays =
      rw (up_loop_stays i heap i e stays, eq→== i i refl)
        (sunk-HeapOf (λ pos. elim stays [
          | inl root ↦ absurd (omega (arith, root, pos))
          | inr first ↦ InOrder-first (entry_at heap (parent i)) e first
        ]))

  pub sift-HeapOf : HeapOf heap (sift heap i)
  unfolding sift
  sift-HeapOf = elim (ℕ_discrete i 0) [
    | yes root ↦ stays-HeapOf (inl root)
    | no inner ↦ elim (Bool-cases (comes_first (entry_at heap (parent i)) e)) [
      | inl first ↦ stays-HeapOf (inr first)
      | inr later ↦
          let pos : 0 < i = omega (arith, inner) in
          let up = up_loop (suc i) heap i e in
          rw (ne→== up.1 i (λ q. omega (arith, q, up_loop_moves i heap i e pos later))) (
            Placed-HeapOf heap i up
              (up_loop-Placed (suc i) heap i e (omega arith) o (lifted-FitsBelow pos later)))
    ]
  ]

appended_last : (heap : List Entry) (e : Entry) → entry_at (heap ++ e ∷ []) (length heap) ≡ e
appended_last [] e = refl
appended_last (x ∷ heap) e = appended_last heap e

-- A heap of the entries of another, but for one.
pub record Without (heap : List Entry) (e : Entry) (rest : List Entry) : Type 0 where
  pub ordered : IsHeap rest
  pub size : suc (length rest) ≡ length heap
  pub same : (p : Entry → Bool) → count p rest + one_if (p e) ≡ count p heap

-- Only the entries away from `i` matter.
set_at-IsOpen : (heap : List Entry) (i : ℕ) (e : Entry) → IsOpen heap i → IsOpen (set_at heap i e) i
set_at-IsOpen heap i e o =
    let size = length-set_at heap i e in
    record {
      inside = omega (arith, size, o.inside);
      edges = λ c p h n away.
          rw
            (
              get_or-set_other heap i c e no_entry (λ z. n (sym z)),
              get_or-set_other heap i (parent c) e no_entry (λ z. away (sym z)),
            )
            (o.edges c p (omega (arith, h, size)) n away);
      bridged = λ c p h q up.
          rw
            (
              get_or-set_other heap i c e no_entry (λ z. omega (arith, z, q, up)),
              get_or-set_other heap i (parent i) e no_entry (λ z. omega (arith, z, up)),
            )
            (o.bridged c p (omega (arith, h, size)) q up);
    }

module _ (heap : List Entry) (ordered : IsHeap heap) where
  -- The new entry at the end may be too late in the tree, and nothing else.
  appended-IsOpen : (e : Entry) → IsOpen (heap ++ e ∷ []) (length heap)
  appended-IsOpen e =
      let size = length-append heap (e ∷ []) in
      record {
        inside = omega (arith, size);
        edges = λ c p h n away.
            let short : c < length heap = omega (arith, h, size, n) in
            rw
              (
                get_or-append_lt heap (e ∷ []) c no_entry short,
                get_or-append_lt heap (e ∷ []) (parent c) no_entry (omega (arith, short)),
              )
              (ordered c p short);
        bridged = λ c p h q up. absurd (omega (arith, h, q, size, p));
      }

  -- `_heapAdd` keeps the heap, and adds the entry to it.
  pub heap_add-HeapOf : (e : Entry) → HeapOf (e ∷ heap) (heap_add heap e)
  unfolding heap_add
  heap_add-HeapOf e =
      let n = length heap in
      let size = length-append heap (e ∷ []) in
      let none_below : FitsBelow (heap ++ e ∷ []) n e =
        λ c p h q. absurd (omega (arith, h, q, size, p)) in
      let placed =
        up_loop-Placed (suc n) (heap ++ e ∷ []) n e (omega arith) (appended-IsOpen e) none_below in
      record {
        ordered = placed.ordered;
        size = omega (arith, placed.size, size);
        same = λ p.
            let last = ap (λ (x : Entry). one_if (p x)) (appended_last heap e) in
            omega (
              arith,
              placed.same p,
              count-set_at p (heap ++ e ∷ []) n e no_entry (omega (arith, size)),
              count-append p heap (e ∷ []),
              last,
            );
      }

  -- The heap without its last entry, where the entry at `i` is to be replaced.
  abbrev last_index : ℕ
  last_index = length heap - 1

  abbrev kept : List Entry
  kept = take last_index heap

  abbrev last_entry : Entry
  last_entry = entry_at heap last_index

  length-kept : length kept ≡ last_index
  length-kept = omega (arith, length-take last_index heap)

  at_kept : (c : ℕ) → c < last_index → entry_at kept c ≡ entry_at heap c
  at_kept c h = get_or-take last_index heap c no_entry h

  kept-IsHeap : IsHeap kept
  kept-IsHeap c p h =
      let short : c < last_index = omega (arith, h, length-kept) in
      rw (at_kept c short, at_kept (parent c) (omega (arith, short)))
        (ordered c p (omega (arith, short)))

  kept-IsOpen : (i : ℕ) → i < last_index → IsOpen kept i
  kept-IsOpen i short = record {
    inside = omega (arith, short, length-kept);
    edges = λ c p h n away. kept-IsHeap c p h;
    bridged = λ c p h q up.
        InOrder-trans (entry_at kept (parent i)) (entry_at kept i) (entry_at kept c)
          (kept-IsHeap i up (omega (arith, short, length-kept))) (rw q at (kept-IsHeap c p h));
  }

  count-kept :
      (p : Entry → Bool) → 0 < length heap → count p kept + one_if (p last_entry) ≡ count p heap
  count-kept p pos = count-take_last p last_index heap no_entry (omega (arith, pos))

  -- A heap made of the kept entries, with the last one in place of the one at `i`.
  replaced-Without :
      (i : ℕ) (rest : List Entry)
      → i < last_index
      → IsHeap rest
      → length rest ≡ length kept
      → ((p : Entry → Bool) → count p rest ≡ count p (set_at kept i last_entry))
      → Without heap (entry_at heap i) rest
  replaced-Without i rest short h size same = record {
    ordered = h;
    size = omega (arith, size, length-kept, short);
    same = λ p.
        let here = ap (λ (x : Entry). one_if (p x)) (at_kept i short) in
        omega (
          arith,
          same p,
          count-set_at p kept i last_entry no_entry (omega (arith, short, length-kept)),
          count-kept p (omega (arith, short)),
          here,
        );
  }

  last-Without : (i : ℕ) → i < length heap → last_index ≤ i → Without heap (entry_at heap i) kept
  last-Without i here last =
      let same : i ≡ last_index = omega (arith, here, last) in
      record {
        ordered = kept-IsHeap;
        size = omega (arith, length-kept, here);
        same = λ p. rw same (count-kept p (omega (arith, here)));
      }

  -- `_pop` keeps the heap, and takes the root out of it.
  pub pop-Without : 0 < length heap → Without heap (entry_at heap 0) (pop heap).1
  unfolding pop
  pop-Without pos =
      if_holds (Without heap (entry_at heap 0)) (ltb 0 last_index)
        (λ more.
          let short = ltb→lt 0 last_index more in
          let placed =
            down_loop-Placed last_index kept 0 last_entry (omega (arith, length-kept))
              (kept-IsOpen 0 short) (λ up. absurd (omega arith)) in
          replaced-Without 0 (place (down_loop last_index kept 0 last_entry) last_entry) short
            placed.ordered placed.size placed.same)
        (λ one. last-Without 0 pos (ltb→ge 0 last_index one))

  -- `remove` keeps the heap, and takes the entry at the index out of it.
  pub remove_at-Without :
      (i : ℕ) → i < length heap → Without heap (entry_at heap i) (remove_at heap i)
  unfolding remove_at
  remove_at-Without i here =
      if_holds (Without heap (entry_at heap i)) (ltb i last_index)
        (λ inner.
          let short = ltb→lt i last_index inner in
          let sifted =
            sift-HeapOf (set_at kept i last_entry) i
              (set_at-IsOpen kept i last_entry (kept-IsOpen i short)) in
          replaced-Without i (sift (set_at kept i last_entry) i) short sifted.ordered
            (sifted.size ∙ length-set_at kept i last_entry) sifted.same)
        (λ last. last-Without i here (ltb→ge i last_index last))
