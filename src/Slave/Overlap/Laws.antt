-- ===== src/Slave/Overlap/Laws.antt =====
-- `rangesOverlap` of src/slave/slave.ts against the addresses that the ranges cover.
use njs_modbus.Common.{
  ℕ, ◌≤◌, ◌<◌, ◌≡◌, ◌↔◌, ◌⊎◌, inl, inr, refl, true, ◌&&◌, List, [], ◌∷◌, ltb, arith, max,
  Bool-cases, and_true, ltb→lt, lt→ltb,
}
use njs_modbus.Slave.Overlap.{one_overlaps, ranges_overlap}

-- The address lies in one of the ranges.
abbrev pub Covers : List ℕ → ℕ → Type 0
Covers [] x = ⊥
Covers (first ∷ []) x = ⊥
Covers (first ∷ last ∷ rest) x = ((first ≤ x) × (x < last)) ⊎ Covers rest x

-- No range is empty.
abbrev pub IsProper : List ℕ → Type 0
IsProper [] = Unit {0}
IsProper (first ∷ []) = Unit {0}
IsProper (first ∷ last ∷ rest) = (first < last) × IsProper rest

one_overlaps_sound :
    (s e : ℕ) (b : List ℕ)
    → s < e
    → IsProper b
    → one_overlaps s e b ≡ true
    → (x : ℕ) × ((s ≤ x) × (x < e)) × Covers b x
unfolding one_overlaps
one_overlaps_sound s e [] h p t = absurd (cc)
one_overlaps_sound s e (b_start ∷ []) h p t = absurd (cc)
one_overlaps_sound s e (b_start ∷ b_end ∷ rest) h p t =
    elim (Bool-cases (ltb s b_end && ltb b_start e)) [
      | inl meets ↦
          let (l, r) = and_true (ltb s b_end) (ltb b_start e) meets in
          let l' = ltb→lt s b_end l in
          let r' = ltb→lt b_start e r in
          (max s b_start, (omega arith, omega arith), inl (omega arith, omega (arith, p.0)))
      | inr apart ↦
          let (x, within, covers) = one_overlaps_sound s e rest h p.1 (rw apart at t) in
          (x, within, inr covers)
    ]

one_overlaps_complete :
    (s e : ℕ) (b : List ℕ) (x : ℕ) → (s ≤ x) × (x < e) → Covers b x → one_overlaps s e b ≡ true
unfolding one_overlaps
one_overlaps_complete s e [] x h c = absurd c
one_overlaps_complete s e (b_start ∷ []) x h c = absurd c
one_overlaps_complete s e (b_start ∷ b_end ∷ rest) x h (inl within) =
    rw (lt→ltb s b_end (omega arith), lt→ltb b_start e (omega arith)) refl
one_overlaps_complete s e (b_start ∷ b_end ∷ rest) x h (inr covers) =
    elim (Bool-cases (ltb s b_end && ltb b_start e)) [
      | inl meets ↦ rw meets refl
      | inr apart ↦ rw apart (one_overlaps_complete s e rest x h covers)
    ]

overlap_sound :
    (a b : List ℕ)
    → IsProper a
    → IsProper b
    → ranges_overlap a b ≡ true
    → (x : ℕ) × Covers a x × Covers b x
unfolding ranges_overlap
overlap_sound [] b p q t = absurd (cc)
overlap_sound (s ∷ []) b p q t = absurd (cc)
overlap_sound (s ∷ e ∷ rest) b p q t = elim (Bool-cases (one_overlaps s e b)) [
  | inl meets ↦
      let (x, within, covers) = one_overlaps_sound s e b p.0 q meets in (x, inl within, covers)
  | inr apart ↦
      let (x, first, second) = overlap_sound rest b p.1 q (rw apart at t) in (x, inr first, second)
]

overlap_complete : (a b : List ℕ) (x : ℕ) → Covers a x → Covers b x → ranges_overlap a b ≡ true
unfolding ranges_overlap
overlap_complete [] b x c d = absurd c
overlap_complete (s ∷ []) b x c d = absurd c
overlap_complete (s ∷ e ∷ rest) b x (inl within) d =
    rw (one_overlaps_complete s e b x within d) refl
overlap_complete (s ∷ e ∷ rest) b x (inr covers) d = elim (Bool-cases (one_overlaps s e b)) [
  | inl meets ↦ rw meets refl
  | inr apart ↦ rw apart (overlap_complete rest b x covers d)
]

-- For requests whose ranges are not empty, `rangesOverlap` returns true exactly when some address
-- lies in a range of each.
pub ranges_overlap_iff :
    (a b : List ℕ)
    → IsProper a
    → IsProper b
    → (ranges_overlap a b ≡ true) ↔ ((x : ℕ) × Covers a x × Covers b x)
ranges_overlap_iff a b p q =
    (overlap_sound a b p q, λ shared. overlap_complete a b shared.0 shared.1 shared.2)
