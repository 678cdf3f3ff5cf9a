-- ===== src/Ascii/FastPath.antt =====
-- The fast path of `decode` in src/layers/protocol/ascii-protocol-layer.ts against the state machine.
use njs_modbus.Common.{
  ℕ, zero, suc, ◌+◌, ◌-◌, ◌*◌, ◌/◌, ◌%◌, ◌≤◌, ◌≡◌, refl, ap, ◌∙◌, arith, Bool, true, not, ◌&&◌,
  List, [], ◌∷◌, ◌++◌, Option, none, some, length, length-take, take, drop, All, and_true, leb,
  ◌==◌, Bool-cases, inl, inr, eq→==, ge→ltb,
}
use njs_modbus.Tcp.{byte_at}
use njs_modbus.Ascii.{
  colon, cr, lf, max_hex_length, hex_value, byte_of, Layer, idle, reception, waiting_end, Event,
  frame, frame_error, prepend, fast_bytes, fast_or, is_one_frame, hex_bytes, end_frame,
  checked_frame, stream, decode, lrc_of, sum_bytes,
}
use njs_modbus.Ascii.Hex.{IsHex}
use njs_modbus.Ascii.Stream.{stream_frame}

-- An event without the raw characters, in which the fast path and the state machine differ: the
-- former gives the whole chunk, the latter the hex digits.
abbrev pub erased : Event → Event
erased (frame f) = frame (record f { buffer = [] })
erased (frame_error type raw fc) = frame_error type [] fc

abbrev pub erase : List Event → List Event
erase [] = []
erase (e ∷ events) = erased e ∷ erase events

leb→le : (a b : ℕ) → leb a b ≡ true → a ≤ b
leb→le a b h = ground arith

-- A reading of pairs succeeds on hex digits only, and gives their bytes.
pub record Read (lenient : Bool) (chars bytes : List ℕ) : Type 0 where
  pub digits : All (IsHex lenient) chars
  pub same : hex_bytes lenient chars ≡ bytes

prepend-some :
    (byte : ℕ) (rest : Option (List ℕ)) (bytes : List ℕ)
    → prepend byte rest ≡ some bytes
    → (later : List ℕ) × (rest ≡ some later) × (byte ∷ later ≡ bytes)
prepend-some byte none bytes e = absurd (cc)
prepend-some byte (some later) bytes e = (later, refl, cc)

pub fast_bytes-Read :
    (lenient : Bool) (n : ℕ) (chars rest bytes : List ℕ)
    → length chars ≡ n * 2
    → fast_bytes lenient n (chars ++ rest) ≡ some bytes
    → Read lenient chars bytes
fast_bytes-Read lenient zero [] rest bytes e h = record { digits = tt; same = cc }
fast_bytes-Read lenient zero (c ∷ chars) rest bytes e h = absurd (omega arith)
fast_bytes-Read lenient (suc n) [] rest bytes e h = absurd (omega arith)
fast_bytes-Read lenient (suc n) (c ∷ []) rest bytes e h = absurd (omega arith)
fast_bytes-Read lenient (suc n) (high ∷ low ∷ chars) rest bytes e h =
    elim (Bool-cases (leb (hex_value lenient high) 15 && leb (hex_value lenient low) 15)) [
      | inl valid ↦
          let (h_high, h_low) =
            and_true (leb (hex_value lenient high) 15) (leb (hex_value lenient low) 15) valid in
          let (later, e_later, e_bytes) =
            prepend-some (byte_of lenient high low) (fast_bytes lenient n (chars ++ rest)) bytes
              (rw valid at h) in
          let r = fast_bytes-Read lenient n chars rest later (omega (arith, e)) e_later in
          record {
            digits = (
              leb→le (hex_value lenient high) 15 h_high,
              (leb→le (hex_value lenient low) 15 h_low, r.digits),
            );
            same = ap (◌∷◌ (byte_of lenient high low)) r.same ∙ e_bytes;
          }
      | inr invalid ↦ absurd (cc)
    ]

-- A list is its first `n` entries and the two behind them.
last_two :
    (n : ℕ) (xs : List ℕ)
    → length xs ≡ n + 2
    → xs ≡ take n xs ++ byte_at xs n ∷ byte_at xs (n + 1) ∷ []
last_two zero (x ∷ y ∷ []) e = refl
last_two zero (x ∷ y ∷ z ∷ xs) e = absurd (omega arith)
last_two zero [] e = absurd (omega arith)
last_two zero (x ∷ []) e = absurd (omega arith)
last_two (suc n) [] e = absurd (omega arith)
last_two (suc n) (x ∷ xs) e =
    let next : suc n + 1 ≡ suc (n + 1) = omega arith in
    rw next (ap (◌∷◌ x) (last_two n xs (omega arith)))

not_even : (n : ℕ) → not (n % 2 == 0) ≡ true → n % 2 ≡ 1
not_even n h = ground arith

-- The digits of a chunk that meets the condition of the fast path.
abbrev pub digits_of : List ℕ → List ℕ
digits_of chunk = take ((length chunk - 3) / 2 * 2) (drop 1 chunk)

pub record OneFrame (chunk : List ℕ) : Type 0 where
  pub parts : chunk ≡ colon ∷ digits_of chunk ++ cr ∷ lf ∷ []
  pub size : length (digits_of chunk) ≡ (length chunk - 3) / 2 * 2
  pub long : 6 ≤ length (digits_of chunk)
  pub short : length (digits_of chunk) ≤ max_hex_length

-- The six tests of the condition.
record Tests (chunk : List ℕ) : Type 0 where
  at_least : 9 ≤ length chunk
  at_most : length chunk ≤ 515
  is_odd : length chunk % 2 ≡ 1
  first : byte_at chunk 0 ≡ colon
  end_cr : byte_at chunk (length chunk - 2) ≡ cr
  end_lf : byte_at chunk (length chunk - 1) ≡ lf

is_one_frame-Tests : (chunk : List ℕ) → is_one_frame chunk ≡ true → Tests chunk
is_one_frame-Tests chunk h = ground arith

pub is_one_frame-OneFrame : (chunk : List ℕ) → is_one_frame chunk ≡ true → OneFrame chunk
is_one_frame-OneFrame [] h = absurd (cc)
is_one_frame-OneFrame (c ∷ xs) h =
    let t = is_one_frame-Tests (c ∷ xs) h in
    let m = length xs - 2 in
    let even : (suc (length xs) - 3) / 2 * 2 ≡ m = omega (arith, t.is_odd, t.at_least) in
    let p : suc (length xs) - 2 ≡ suc m = omega (arith, t.at_least) in
    let q : suc (length xs) - 1 ≡ suc (m + 1) = omega (arith, t.at_least) in
    let size : length (take m xs) ≡ m = omega (arith, length-take m xs) in
    let end_cr : byte_at xs m ≡ cr = rw p at t.end_cr in
    let end_lf : byte_at xs (m + 1) ≡ lf = rw q at t.end_lf in
    record {
      parts =
          rw (even, ← t.first, ← end_cr, ← end_lf)
            (ap (◌∷◌ c) (last_two m xs (omega (arith, t.at_least))));
      size = rw even size;
      long = rw (even, size) (omega (arith, t.at_least));
      short = rw (even, size) (omega (arith, t.at_most));
    }

erased_raw :
    (bytes raw raw' : List ℕ) → erased (checked_frame bytes raw) ≡ erased (checked_frame bytes raw')
unfolding checked_frame
erased_raw bytes raw raw' =
    elim (Bool-cases (
      lrc_of
        (sum_bytes (byte_at bytes 0 + byte_at bytes 1) (take (length bytes - 3) (drop 2 bytes)))
      == byte_at bytes (length bytes - 1))) [ inl good ↦ rw good refl | inr bad ↦ rw bad refl ]

-- The events without their raw characters, and the layer afterwards.
abbrev pub view : List Event × Layer → List Event × Layer
view (events, layer) = (erase events, layer)

fast_same :
    (lenient : Bool) (chunk bytes : List ℕ)
    → OneFrame chunk
    → fast_bytes lenient ((length chunk - 3) / 2) (drop 1 chunk) ≡ some bytes
    → view (checked_frame bytes chunk ∷ [], idle) ≡ view (stream lenient idle chunk)
unfolding stream end_frame
fast_same lenient chunk bytes o e =
    let chars = digits_of chunk in
    let body : drop 1 chunk ≡ chars ++ cr ∷ lf ∷ [] = ap (drop 1) o.parts in
    let r =
      fast_bytes-Read lenient ((length chunk - 3) / 2) chars (cr ∷ lf ∷ []) bytes o.size
        (rw body at e) in
    let streamed : stream lenient idle chunk ≡ (end_frame lenient chars ∷ [], idle) =
      ap (stream lenient idle) o.parts ∙ stream_frame lenient chars [] r.digits o.short in
    let even : length chars % 2 ≡ 0 = omega (arith, o.size) in
    rw (streamed, ge→ltb (length chars) 6 o.long, eq→== (length chars % 2) 0 even, r.same)
      (ap (λ (x : Event). (x ∷ [], idle)) (erased_raw bytes chunk chars))

-- Whether the reading of the pairs succeeds or not.
read_same :
    (lenient : Bool) (chunk : List ℕ)
    → OneFrame chunk
    → (bytes : Option (List ℕ)) → fast_bytes lenient ((length chunk - 3) / 2) (drop 1 chunk) ≡ bytes
    → view (fast_or bytes chunk (stream lenient idle chunk)) ≡ view (stream lenient idle chunk)
read_same lenient chunk o none e = refl
read_same lenient chunk o (some bytes) e = fast_same lenient chunk bytes o e

-- `decode` gives the events of the state machine, but for the raw characters, and leaves its state.
pub view-decode :
    (lenient : Bool) (layer : Layer) (chunk : List ℕ)
    → view (decode lenient layer chunk) ≡ view (stream lenient layer chunk)
unfolding decode
view-decode lenient (reception chars) chunk = refl
view-decode lenient (waiting_end chars) chunk = refl
view-decode lenient idle chunk = elim (Bool-cases (is_one_frame chunk)) [
  | inr other ↦ rw other refl
  | inl one ↦ rw one (
      read_same lenient chunk (is_one_frame-OneFrame chunk one)
        (fast_bytes lenient ((length chunk - 3) / 2) (drop 1 chunk)) refl)
]
