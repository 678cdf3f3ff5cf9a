-- ===== src/Slave/Overlap/Symmetric.antt =====
-- `rangesOverlap` of src/slave/slave.ts with its two requests exchanged.
use njs_modbus.Common.{
  ℕ, ◌≡◌, refl, Bool, true, false, ◌&&◌, List, [], ◌∷◌, ltb, if◌then◌else◌, sym,
}
use njs_modbus.Slave.Overlap.{one_overlaps, ranges_overlap}

and_comm : (x y : Bool) → (x && y) ≡ (y && x)
and_comm true true = refl
and_comm true false = refl
and_comm false true = refl
and_comm false false = refl

-- The order of two early returns does not matter.
returns_swap :
    (first x y rest : Bool)
    → (if (if first then true else y) then true else (if x then true else rest))
      ≡ (if (if first then true else x) then true else (if y then true else rest))
returns_swap true x y rest = refl
returns_swap false true true rest = refl
returns_swap false true false rest = refl
returns_swap false false true rest = refl
returns_swap false false false rest = refl

-- A request without ranges overlaps none.
ranges_overlap_none : (b : List ℕ) → ranges_overlap b [] ≡ false
unfolding ranges_overlap one_overlaps
ranges_overlap_none [] = refl
ranges_overlap_none (s ∷ []) = refl
ranges_overlap_none (s ∷ e ∷ rest) = ranges_overlap_none rest

ranges_overlap_half : (b : List ℕ) (s : ℕ) → ranges_overlap b (s ∷ []) ≡ false
unfolding ranges_overlap one_overlaps
ranges_overlap_half [] s = refl
ranges_overlap_half (first ∷ []) s = refl
ranges_overlap_half (first ∷ last ∷ rest) s = ranges_overlap_half rest s

-- A further range in front of the second request's.
ranges_overlap_front :
    (b : List ℕ) (s e : ℕ) (rest : List ℕ)
    → ranges_overlap b (s ∷ e ∷ rest) ≡ (if one_overlaps s e b then true else ranges_overlap b rest)
unfolding ranges_overlap one_overlaps
ranges_overlap_front [] s e rest = refl
ranges_overlap_front (first ∷ []) s e rest = refl
ranges_overlap_front (first ∷ last ∷ more) s e rest =
    rw (and_comm (ltb first e) (ltb s last), ranges_overlap_front more s e rest)
      (returns_swap (ltb s last && ltb first e) (one_overlaps s e more)
        (one_overlaps first last rest) (ranges_overlap more rest))

-- `rangesOverlap` does not depend on the order of the requests.
pub ranges_overlap_comm : (a b : List ℕ) → ranges_overlap a b ≡ ranges_overlap b a
unfolding ranges_overlap
ranges_overlap_comm [] b = sym (ranges_overlap_none b)
ranges_overlap_comm (s ∷ []) b = sym (ranges_overlap_half b s)
ranges_overlap_comm (s ∷ e ∷ rest) b =
    rw (ranges_overlap_front b s e rest, ranges_overlap_comm rest b) refl
