-- ===== src/Tcp/Loop.antt =====
-- The loop of `decode` in tcp-protocol-layer.ts against the specification of the stream.
use njs_modbus.Common.{
  ℕ, zero, suc, ◌+◌, ◌≤◌, ◌<◌, ◌≡◌, sym, ◌∙◌, inl, inr, true, false, List, [], ◌++◌, arith, ltb,
  ◌==◌, length, take, drop, length-append, length-take, length-drop, take-append-drop, get_or-take,
  take-append, drop-append, take_all, get_or-append_lt, ◌≢◌, ◌⊎◌, ◌||◌, not, lt→ltb, ge→ltb,
}
use native.Mathlib.Decide.{dec_lt, ℕ_discrete}
use njs_modbus.Tcp.{
  Event, byte_at, be16, max_frame_length, length_invalid, decode_loop, decode_rest,
}
use njs_modbus.Tcp.Stream.{IsAdu, IsWaiting, Parses, waits, bad_protocol, bad_length, next_frame}

-- A cut behind the header keeps it.
be16-take : (n : ℕ) (xs : List ℕ) (i : ℕ) → i + 1 < n → be16 (take n xs) i ≡ be16 xs i
be16-take n xs i h = omega (arith, get_or-take n xs i 0 (omega arith), get_or-take n xs (i + 1) 0 h)

pub be16-append : (xs ys : List ℕ) (i : ℕ) → i + 1 < length xs → be16 (xs ++ ys) i ≡ be16 xs i
be16-append xs ys i h =
    omega (arith, get_or-append_lt xs ys i 0 (omega arith), get_or-append_lt xs ys (i + 1) 0 h)

take-IsAdu :
    (xs : List ℕ)
    → be16 xs 2 ≡ 0
    → 2 ≤ be16 xs 4
    → 6 + be16 xs 4 ≤ max_frame_length
    → 6 + be16 xs 4 ≤ length xs
    → IsAdu (take (6 + be16 xs 4) xs)
take-IsAdu xs p l u s =
    let c2 = be16-take (6 + be16 xs 4) xs 2 (omega arith) in
    let c4 = be16-take (6 + be16 xs 4) xs 4 (omega arith) in
    record {
      protocol = c2 ∙ p;
      at_least = rw c4 l;
      at_most = rw c4 u;
      size = rw (length-take, c4) (omega arith);
    }

-- What the bytes at hand say.
data View (xs : List ℕ) : Type 0 where
  waiting : IsWaiting xs → View xs
  protocol_bad : 6 ≤ length xs → be16 xs 2 ≢ 0 → View xs
  length_bad :
      6 ≤ length xs → be16 xs 2 ≡ 0 → (be16 xs 4 < 2) ⊎ (max_frame_length < 6 + be16 xs 4) → View xs
  whole : IsAdu (take (6 + be16 xs 4) xs) → View xs

view : (xs : List ℕ) → View xs
view xs = elim (dec_lt (length xs) 6) [
  | yes short ↦ waiting (inl short)
  | no full ↦ elim (ℕ_discrete (be16 xs 2) 0) [
    | no p ↦ protocol_bad (omega arith) p
    | yes p ↦ elim (dec_lt (be16 xs 4) 2) [
      | yes l ↦ length_bad (omega arith) p (inl l)
      | no l ↦ elim (dec_lt max_frame_length (6 + be16 xs 4)) [
        | yes u ↦ length_bad (omega arith) p (inr u)
        | no u ↦ elim (dec_lt (length xs) (6 + be16 xs 4)) [
          | yes s ↦ waiting (inr (omega arith))
          | no s ↦ whole (take-IsAdu xs p (omega arith) (omega arith) (omega arith))
        ]
      ]
    ]
  ]
]

-- Every stream means something.
Parses-fuel :
    (fuel : ℕ) (xs : List ℕ)
    → length xs < fuel
    → (events : List Event) × (left : List ℕ) × Parses xs events left
Parses-fuel zero xs h = absurd (omega arith)
Parses-fuel (suc fuel) xs h = elim (view xs) [
  | waiting w ↦ ([], xs, waits xs w)
  | protocol_bad s p ↦ (_, [], bad_protocol xs s p)
  | length_bad s p q ↦ (_, [], bad_length xs s p q)
  | whole a ↦
      let n = 6 + be16 xs 4 in
      let (events, left, p) =
        Parses-fuel fuel (drop n xs) (rw length-drop (omega (arith, a.size, length-take n xs))) in
      (_, left, rw (take-append-drop n xs) at (next_frame (take n xs) a p))
]

-- How the tests of the code come out at the bytes `xs`.
module _ (xs : List ℕ) where
  pub long : 6 ≤ length xs → ltb (length xs) 6 ≡ false
  long h = ground arith

  pub id_ok : be16 xs 2 ≡ 0 → (not (byte_at xs 2 == 0) || not (byte_at xs 3 == 0)) ≡ false
  id_ok h = ground arith

  pub id_bad : be16 xs 2 ≢ 0 → (not (byte_at xs 2 == 0) || not (byte_at xs 3 == 0)) ≡ true
  id_bad h = ground arith

pub length_ok : (n : ℕ) → 2 ≤ n → 6 + n ≤ max_frame_length → length_invalid n ≡ false
length_ok n l u = ground arith

pub length_wrong : (n : ℕ) → (n < 2) ⊎ (max_frame_length < 6 + n) → length_invalid n ≡ true
length_wrong n (inl l) = ground arith
length_wrong n (inr u) = ground arith

-- The loop reads what the stream says, given a round for each byte.
loop_reads :
    (fuel : ℕ) {xs : List ℕ} {events : List Event} {left : List ℕ}
    → Parses xs events left
    → length xs < fuel
    → decode_loop fuel xs ≡ (events, left)
unfolding decode_loop
loop_reads zero p h = absurd (omega arith)
loop_reads (suc fuel) (waits xs (inl s)) h =
    rw (lt→ltb _ _ s, take_all max_frame_length xs (omega arith))
loop_reads (suc fuel) (waits xs (inr s)) h = elim (dec_lt (length xs) 6) [
  | yes short ↦ rw (lt→ltb _ _ short, take_all max_frame_length xs (omega arith))
  | no full ↦ rw (
    long xs (omega arith),
    id_ok xs s.protocol,
    length_ok _ s.at_least s.at_most,
    lt→ltb _ _ s.short,
    take_all max_frame_length xs (omega arith),
  )
]
loop_reads (suc fuel) (bad_protocol xs s p) h = rw (long xs s, id_bad xs p)
loop_reads (suc fuel) (bad_length xs s p q) h = rw (long xs s, id_ok xs p, length_wrong _ q)
loop_reads (suc fuel) (next_frame f {rest} {events} {left} a p) h =
    let size : length (f ++ rest) ≡ length f + length rest = length-append f rest in
    let c2 = be16-append f rest 2 (omega (arith, a.size)) in
    let c4 = be16-append f rest 4 (omega (arith, a.size)) in
    let n4 : 6 + be16 (f ++ rest) 4 ≡ length f = omega (arith, a.size, c4) in
    let ih = loop_reads fuel p (omega (arith, a.size, a.at_least)) in
    rw (
      long (f ++ rest) (omega (arith, a.size)),
      id_ok (f ++ rest) (c2 ∙ a.protocol),
      length_ok (be16 (f ++ rest) 4) (omega (arith, a.at_least)) (omega (arith, a.at_most, a.size)),
      ge→ltb (length (f ++ rest)) (6 + be16 (f ++ rest) 4) (omega arith),
      n4,
      take-append f rest,
      drop-append f rest,
      ih,
    )

pub rest_reads :
    {xs : List ℕ} {events : List Event} {left : List ℕ}
    → Parses xs events left
    → decode_rest xs ≡ (events, left)
unfolding decode_rest
rest_reads p = loop_reads _ p (omega arith)

-- A stream has one meaning.
pub Parses-unique :
    {xs : List ℕ} {events events' : List Event} {left left' : List ℕ}
    → Parses xs events left
    → Parses xs events' left'
    → ◌≡◌ {A = List Event × List ℕ} (events, left) (events', left')
Parses-unique p q = sym (rest_reads p) ∙ rest_reads q

pub parses : (xs : List ℕ) → (events : List Event) × (left : List ℕ) × Parses xs events left
parses xs = Parses-fuel (suc (length xs)) xs (omega arith)
