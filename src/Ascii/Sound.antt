-- ===== src/Ascii/Sound.antt =====
-- What `decode` of src/layers/protocol/ascii-protocol-layer.ts accepts in strict mode.
use njs_modbus.Common.{
  ℕ, zero, suc, ◌+◌, ◌-◌, ◌*◌, ◌/◌, ◌%◌, ◌≤◌, ◌≡◌, ◌⊎◌, inl, inr, refl, ap, ◌∙◌, sym, arith, false,
  not, List, [], ◌∷◌, ◌++◌, Option, none, some, length, length-append, take, drop, All, All-append,
  Bool-cases, ltb, leb, ◌==◌, ltb→ge, ==→eq, if_holds,
}
use njs_modbus.Tcp.{byte_at}
use njs_modbus.Ascii.{
  colon, cr, lf, max_hex_length, hex_value, Layer, idle, reception, waiting_end, Event, frame,
  frame_error, lrc_of, sum_bytes, checked_frame, hex_bytes, hex_chars, end_frame, step, stream,
  fast_bytes, fast_or, is_one_frame, decode, encode,
}
use njs_modbus.Ascii.Hex.{IsHex, hex_chars-hex_bytes, length-hex_bytes}
use njs_modbus.Ascii.FastPath.{OneFrame, is_one_frame-OneFrame, digits_of, fast_bytes-Read}
use njs_modbus.Ascii.RoundTrip.{Adu, adu_bytes, wire_digits, decode_all}

-- A reported frame is one that `encode` makes: from its raw characters, or from those between the colon
-- and the end.
abbrev pub IsSound : Event → Type 0
IsSound (frame f) =
    (encode f.unit f.fc f.payload ≡ f.buffer)
    ⊎ (encode f.unit f.fc f.payload ≡ colon ∷ f.buffer ++ cr ∷ lf ∷ [])
IsSound (frame_error type raw fc) = Unit {0}

abbrev IsBody : List ℕ → Type 0
IsBody chars = All (IsHex false) chars × (length chars ≤ max_hex_length)

-- The layer keeps hex digits, and at most 512 of them.
abbrev pub IsLayer : Layer → Type 0
IsLayer idle = Unit {0}
IsLayer (reception chars) = IsBody chars
IsLayer (waiting_end chars) = IsBody chars

last_one : (n : ℕ) (xs : List ℕ) → length xs ≡ suc n → xs ≡ take n xs ++ byte_at xs n ∷ []
last_one zero (x ∷ []) e = refl
last_one zero (x ∷ y ∷ xs) e = absurd (omega arith)
last_one n [] e = absurd (omega arith)
last_one (suc n) (x ∷ xs) e = ap (◌∷◌ x) (last_one n xs (omega arith))

frame_parts :
    (bytes : List ℕ)
    → 3 ≤ length bytes
    → bytes
      ≡ byte_at bytes 0 ∷ byte_at bytes 1 ∷ take (length bytes - 3) (drop 2 bytes)
        ++ byte_at bytes (length bytes - 1) ∷ []
frame_parts [] h = absurd (omega arith)
frame_parts (x ∷ []) h = absurd (omega arith)
frame_parts (x ∷ y ∷ xs) h =
    let p : suc (suc (length xs)) - 3 ≡ length xs - 1 = omega arith in
    let q : suc (suc (length xs)) - 1 ≡ suc (suc (length xs - 1)) = omega (arith, h) in
    rw (p, q) (ap (λ (z : List ℕ). x ∷ y ∷ z) (last_one (length xs - 1) xs (omega (arith, h))))

-- The frame that the digits are, if the check passes, encodes to them.
checked_frame-encode :
    (chars raw : List ℕ) (n : ℕ)
    → All (IsHex false) chars
    → length chars ≡ n * 2
    → 6 ≤ length chars
    → (raw ≡ chars) ⊎ (raw ≡ colon ∷ chars ++ cr ∷ lf ∷ [])
    → IsSound (checked_frame (hex_bytes false chars) raw)
unfolding checked_frame
checked_frame-encode chars raw n digits even long from =
    let bytes = hex_bytes false chars in
    let size = length-hex_bytes false n chars even in
    let payload = take (length bytes - 3) (drop 2 bytes) in
    let a : Adu = record { unit = byte_at bytes 0; fc = byte_at bytes 1; payload = payload } in
    let sum = lrc_of (sum_bytes (byte_at bytes 0 + byte_at bytes 1) payload) in
    let lrc_in = byte_at bytes (length bytes - 1) in
    elim (Bool-cases (sum == lrc_in)) [
      | inr bad ↦ rw bad tt
      | inl good ↦
          let whole : adu_bytes a ≡ bytes =
            rw (==→eq sum lrc_in good)
              (sym (frame_parts bytes (omega (arith, size, even, long)))) in
          let coded : encode a.unit a.fc a.payload ≡ colon ∷ chars ++ cr ∷ lf ∷ [] =
            wire_digits a
            ∙ ap (λ (bs : List ℕ). colon ∷ hex_chars bs ++ cr ∷ lf ∷ []) whole
            ∙ ap (λ (cs : List ℕ). colon ∷ cs ++ cr ∷ lf ∷ [])
                (hex_chars-hex_bytes n chars even digits) in
          rw good (elim from [ inl same ↦ inr (rw same coded) | inr same ↦ inl (rw same coded) ])
    ]

even_length : (n : ℕ) → not (n % 2 == 0) ≡ false → n ≡ n / 2 * 2
even_length n h = ground arith

end_frame-IsSound : (chars : List ℕ) → IsBody chars → IsSound (end_frame false chars)
unfolding end_frame
end_frame-IsSound chars h =
    if_holds IsSound (ltb (length chars) 6) (λ short. tt)
      λ long.
        if_holds IsSound (not (length chars % 2 == 0)) (λ odd. tt)
          λ even.
            checked_frame-encode chars chars (length chars / 2) h.0
              (even_length (length chars) even) (ltb→ge (length chars) 6 long) (inl refl)

-- What holds of a result of `decode`.
abbrev pub IsSoundStep : List Event × Layer → Type 0
IsSoundStep (events, layer) = All IsSound events × IsLayer layer

kept-IsBody :
    (chars : List ℕ) (value : ℕ)
    → IsBody chars
    → leb max_hex_length (length chars) ≡ false
    → ltb 15 (hex_value false value) ≡ false
    → IsBody (chars ++ value ∷ [])
kept-IsBody chars value h room digit = (
  All-append (IsHex false) chars (value ∷ []) h.0 (ltb→ge 15 (hex_value false value) digit, tt),
  ground (arith, length-append chars (value ∷ [])),
)

step-IsSoundStep :
    (layer : Layer) (value : ℕ) → IsLayer layer → IsSoundStep (step false layer value)
unfolding step
step-IsSoundStep idle value h =
    if_holds IsSoundStep (value == colon) (λ start. (tt, (tt, omega arith))) (λ other. (tt, tt))
step-IsSoundStep (reception chars) value h =
    if_holds IsSoundStep (value == colon) (λ start. (tt, (tt, omega arith)))
      λ _.
        if_holds IsSoundStep (value == cr) (λ end. (tt, h))
          λ _.
            if_holds IsSoundStep (leb max_hex_length (length chars)) (λ long. ((tt, tt), tt))
              λ room.
                if_holds IsSoundStep (ltb 15 (hex_value false value)) (λ bad. ((tt, tt), tt))
                  λ digit. (tt, kept-IsBody chars value h room digit)
step-IsSoundStep (waiting_end chars) value h =
    if_holds IsSoundStep (value == colon) (λ start. (tt, (tt, omega arith)))
      λ _.
        if_holds IsSoundStep (value == lf) (λ done. ((end_frame-IsSound chars h, tt), tt))
          λ lost. (tt, tt)

stream-IsSoundStep :
    (layer : Layer) (chunk : List ℕ) → IsLayer layer → IsSoundStep (stream false layer chunk)
unfolding stream
stream-IsSoundStep layer [] h = (tt, h)
stream-IsSoundStep layer (value ∷ chunk) h =
    let first = step-IsSoundStep layer value h in
    let later = stream-IsSoundStep (step false layer value).1 chunk first.1 in
    (
      All-append IsSound (step false layer value).0
          (stream false (step false layer value).1 chunk).0 first.0 later.0,
      later.1,
    )

-- Whether the fast path reads a chunk or not.
fast-IsSoundStep :
    (chunk : List ℕ) (bytes : Option (List ℕ))
    → OneFrame chunk
    → fast_bytes false ((length chunk - 3) / 2) (drop 1 chunk) ≡ bytes
    → IsSoundStep (fast_or bytes chunk (stream false idle chunk))
fast-IsSoundStep chunk none o e = stream-IsSoundStep idle chunk tt
fast-IsSoundStep chunk (some bytes) o e =
    let chars = digits_of chunk in
    let body : drop 1 chunk ≡ chars ++ cr ∷ lf ∷ [] = ap (drop 1) o.parts in
    let r =
      fast_bytes-Read false ((length chunk - 3) / 2) chars (cr ∷ lf ∷ []) bytes o.size
        (rw body at e) in
    (
      (
        rw (← r.same) (
            checked_frame-encode chars chunk ((length chunk - 3) / 2) r.digits o.size o.long
              (inr o.parts)),
        tt,
      ),
      tt,
    )

decode-IsSoundStep :
    (layer : Layer) (chunk : List ℕ) → IsLayer layer → IsSoundStep (decode false layer chunk)
unfolding decode
decode-IsSoundStep (reception chars) chunk h = stream-IsSoundStep (reception chars) chunk h
decode-IsSoundStep (waiting_end chars) chunk h = stream-IsSoundStep (waiting_end chars) chunk h
decode-IsSoundStep idle chunk h = elim (Bool-cases (is_one_frame chunk)) [
  | inr other ↦ rw other (stream-IsSoundStep idle chunk tt)
  | inl one ↦ rw one (
      fast-IsSoundStep chunk (fast_bytes false ((length chunk - 3) / 2) (drop 1 chunk))
        (is_one_frame-OneFrame chunk one) refl)
]

-- In strict mode, whatever bytes arrive in whatever chunks at a layer that keeps at most 512 hex
-- digits: each reported frame is one that `encode` makes of the unit, the function code and the
-- payload that are reported, character by character, and the layer again keeps at most 512 digits.
pub decode_all-IsSoundStep :
    (layer : Layer) (chunks : List (List ℕ))
    → IsLayer layer
    → IsSoundStep (decode_all false layer chunks)
decode_all-IsSoundStep layer [] h = (tt, h)
decode_all-IsSoundStep layer (chunk ∷ chunks) h =
    let first = decode-IsSoundStep layer chunk h in
    let later = decode_all-IsSoundStep (decode false layer chunk).1 chunks first.1 in
    (
      All-append IsSound (decode false layer chunk).0
          (decode_all false (decode false layer chunk).1 chunks).0 first.0 later.0,
      later.1,
    )
