-- ===== src/Tcp/Decode.antt =====
-- `decode` of tcp-protocol-layer.ts, on its three paths, against the stream of bytes.
use njs_modbus.Common.{
  ℕ, suc, ◌+◌, ◌-◌, ◌≤◌, ◌<◌, ◌≡◌, refl, sym, ap, ◌∙◌, inl, inr, true, List, [], ◌∷◌, ◌++◌, arith,
  length, take, drop, length-append, take-append, drop-append, take_all, take-append_ge,
  get_or-append_lt, get_or-append_ge, drop-append_ge, append-nil, lt→ltb, ge→ltb, ne→==, Bool-cases,
}
use native.Mathlib.Decide.{dec_lt}
use njs_modbus.Tcp.{
  Event, frame, TcpLayer, byte_at, be16, frame_of, max_frame_length, peek, bad_raw, decode_residual,
  is_one_frame, decode,
}
use njs_modbus.Tcp.Stream.{
  IsAdu, IsWaiting, Parses, waits, bad_protocol, bad_length, next_frame, Parses-IsWaiting,
}
use njs_modbus.Tcp.Loop.{
  be16-append, id_ok, id_bad, length_ok, length_wrong, rest_reads, Parses-unique, parses,
}

peek_lem : (r c : List ℕ) (i : ℕ) → peek r c i ≡ byte_at (r ++ c) i
unfolding peek
peek_lem r c i = elim (dec_lt i (length r)) [
  | yes h ↦ rw (lt→ltb _ _ h, get_or-append_lt r c i 0 h)
  | no h ↦ rw (ge→ltb i (length r) (omega arith), get_or-append_ge r c i 0 (omega arith))
]

bad_raw_lem :
    (r c : List ℕ) → length r ≤ max_frame_length → bad_raw r c ≡ take max_frame_length (r ++ c)
unfolding bad_raw
bad_raw_lem r c h = elim (dec_lt max_frame_length (length r + length c)) [
  | yes l ↦ rw (lt→ltb _ _ l, take-append_ge max_frame_length r c h)
  | no l ↦ rw (
    ge→ltb max_frame_length (length r + length c) (omega arith),
    take_all (length r + length c - length r) c (omega arith),
    take_all max_frame_length (r ++ c) (rw length-append (omega arith)),
  )
]

waiting_fits : {r : List ℕ} → IsWaiting r → length r < max_frame_length
waiting_fits (inl s) = omega arith
waiting_fits (inr s) = omega (arith, s.short, s.at_most)

module _ (r c : List ℕ) {xs : List ℕ} (e : xs ≡ r ++ c) where
  size : length xs ≡ length r + length c
  size = ap length e ∙ length-append r c

  peek_all : (i : ℕ) → peek r c i ≡ byte_at xs i
  peek_all i = rw e (peek_lem r c i)

  bad_raw_all : length r ≤ max_frame_length → bad_raw r c ≡ take max_frame_length xs
  bad_raw_all h = rw e (bad_raw_lem r c h)

  -- The residual bytes are shorter than the frame that they begin.
  residual_short : IsWaiting r → 2 ≤ be16 xs 4 → length r < 6 + be16 xs 4
  residual_short (inl s) h = omega arith
  residual_short (inr s) h = elim (dec_lt (length r) 6) [
    | yes l ↦ omega arith
    | no l ↦ rw e (rw (be16-append r c 4 (omega arith)) s.short)
  ]

-- Where bytes are left over, `decode` reads them with the new ones behind.
residual_reads :
    (r c : List ℕ) {xs : List ℕ} {events : List Event} {left : List ℕ}
    → xs ≡ r ++ c
    → IsWaiting r
    → Parses xs events left
    → decode_residual r c ≡ (events, left)
unfolding decode_residual
residual_reads r c e w (waits xs (inl s)) =
    rw (lt→ltb (length r + length c) 6 (omega (arith, size r c e)), ← e)
residual_reads r c e w (waits xs (inr s)) = elim (dec_lt (length r + length c) 6) [
  | yes short ↦ rw (lt→ltb _ _ short, ← e)
  | no full ↦ rw (
    ge→ltb (length r + length c) 6 (omega arith),
    peek_all r c e 2,
    peek_all r c e 3,
    peek_all r c e 4,
    peek_all r c e 5,
    id_ok xs s.protocol,
    length_ok _ s.at_least s.at_most,
    lt→ltb (length c) (6 + be16 xs 4 - length r) (omega (arith, size r c e, s.short)),
    ← e,
  )
]
residual_reads r c e w (bad_protocol xs s p) = rw (
  ge→ltb (length r + length c) 6 (omega (arith, size r c e)),
  peek_all r c e 2,
  peek_all r c e 3,
  id_bad xs p,
  bad_raw_all r c e (omega (arith, waiting_fits w)),
)
residual_reads r c e w (bad_length xs s p q) = rw (
  ge→ltb (length r + length c) 6 (omega (arith, size r c e)),
  peek_all r c e 2,
  peek_all r c e 3,
  peek_all r c e 4,
  peek_all r c e 5,
  id_ok xs p,
  length_wrong _ q,
  bad_raw_all r c e (omega (arith, waiting_fits w)),
)
residual_reads r c e w (next_frame f {rest} a p) =
    let total = size r c e in
    let c2 = be16-append f rest 2 (omega (arith, a.size)) in
    let c4 = be16-append f rest 4 (omega (arith, a.size)) in
    let n4 : 6 + be16 (f ++ rest) 4 ≡ length f = omega (arith, a.size, c4) in
    let least : 2 ≤ be16 (f ++ rest) 4 = omega (arith, a.at_least) in
    let le : length r ≤ length f = omega (arith, residual_short r c e w least) in
    let cut : r ++ take (length f - length r) c ≡ f =
      sym (take-append_ge (length f) r c le) ∙ ap (take (length f)) (sym e) ∙ take-append f rest in
    let tail : drop (length f - length r) c ≡ rest =
      sym (drop-append_ge (length f) r c le) ∙ ap (drop (length f)) (sym e) ∙ drop-append f rest in
    rw (
      ge→ltb (length r + length c) 6 (omega (arith, a.size, length-append f rest)),
      peek_all r c e 2,
      peek_all r c e 3,
      peek_all r c e 4,
      peek_all r c e 5,
      id_ok (f ++ rest) (c2 ∙ a.protocol),
      length_ok (be16 (f ++ rest) 4) least (omega (arith, a.at_most, a.size)),
      n4,
      ge→ltb (length c) (length f - length r) (omega (arith, length-append f rest)),
      cut,
      tail,
      rest_reads p,
    )

-- The fast path's test picks exactly the ADUs.
one_frame-IsAdu : (c : List ℕ) → is_one_frame c ≡ true → IsAdu c
unfolding is_one_frame
one_frame-IsAdu c h = ground arith

adu_reads :
    {c : List ℕ} {events : List Event} {left : List ℕ}
    → IsAdu c
    → Parses c events left
    → ◌≡◌ {A = List Event × List ℕ} (frame (frame_of c) ∷ [], []) (events, left)
adu_reads {c} a p =
    Parses-unique (rw append-nil at (next_frame c a (waits [] (inl (omega arith))))) p

decode_reads_at :
    (r c : List ℕ) {events : List Event} {left : List ℕ}
    → IsWaiting r
    → Parses (r ++ c) events left
    → decode (record { residual = r }) c ≡ (events, record { residual = left })
unfolding decode
decode_reads_at [] c w p = elim (Bool-cases (is_one_frame c)) [
  | inl one ↦ rw one (
      ap (λ (q : List Event × List ℕ). (q.0, record { residual = q.1 }))
        (adu_reads (one_frame-IsAdu c one) p))
  | inr other ↦ rw (other, rest_reads p)
]
decode_reads_at (x ∷ r) c w p = rw (
  ne→== (suc (length r)) 0 (omega arith),
  lt→ltb 0 (suc (length r)) (omega arith),
  residual_reads (x ∷ r) c refl w p,
)

-- `decode` gives the events that the stream means, and keeps what is to be completed.
pub decode_reads :
    (layer : TcpLayer) (chunk : List ℕ) {events : List Event} {left : List ℕ}
    → IsWaiting layer.residual
    → Parses (layer.residual ++ chunk) events left
    → decode layer chunk ≡ (events, record { residual = left })
decode_reads layer chunk w p = decode_reads_at layer.residual chunk w p

-- On a layer whose residual bytes await completion, the events of `decode` and the bytes that it
-- keeps are what the specification `Parses` gives for the residual bytes followed by the chunk,
-- and the bytes kept again await completion and fit the 260-byte buffer.
pub decode_meets_stream :
    (layer : TcpLayer) (chunk : List ℕ)
    → IsWaiting layer.residual
    → Parses (layer.residual ++ chunk) (decode layer chunk).0 (decode layer chunk).1.residual
      × IsWaiting (decode layer chunk).1.residual
      × (length (decode layer chunk).1.residual < max_frame_length)
decode_meets_stream layer chunk w =
    let (events, left, p) = parses (layer.residual ++ chunk) in
    rw (decode_reads layer chunk w p) (p, Parses-IsWaiting p, waiting_fits (Parses-IsWaiting p))
