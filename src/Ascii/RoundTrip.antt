-- ===== src/Ascii/RoundTrip.antt =====
-- `encode` of src/layers/protocol/ascii-protocol-layer.ts, followed by `decode`.
use njs_modbus.Common.{
  ℕ, suc, ◌+◌, ◌-◌, ◌%◌, ◌≤◌, ◌<◌, ◌≡◌, refl, ap, ◌∙◌, arith, Bool, List, [], ◌∷◌, ◌++◌,
  append_assoc, length, length-append, take-append, get_or-append_ge, All, All-append, eq→==,
  ge→ltb,
}
use njs_modbus.Tcp.{byte_at}
use njs_modbus.Tcp.Chunks.{concat}
use njs_modbus.Ascii.{
  colon, cr, lf, max_hex_length, Layer, idle, Event, frame, lrc_of, sum_bytes, checked_frame,
  hex_chars, end_frame, stream, decode, encode,
}
use njs_modbus.Ascii.Hex.{hex_chars-IsHex, hex_bytes-hex_chars, length-hex_chars}
use njs_modbus.Ascii.Stream.{stream-append, stream_frame}
use njs_modbus.Ascii.FastPath.{erase, erased, view, view-decode}

-- The calls of `decode` for the chunks of a transport.
abbrev pub decode_all : Bool → Layer → List (List ℕ) → List Event × Layer
decode_all lenient layer [] = ([], layer)
decode_all lenient layer (chunk ∷ chunks) =
    let first = decode lenient layer chunk in
    let later = decode_all lenient first.1 chunks in (first.0 ++ later.0, later.1)

erase-append : (xs ys : List Event) → erase (xs ++ ys) ≡ erase xs ++ erase ys
erase-append [] ys = refl
erase-append (x ∷ xs) ys = ap (◌∷◌ (erased x)) (erase-append xs ys)

-- However a stream is cut into chunks, `decode` gives the events of the state machine on the whole
-- stream, but for their raw characters, and leaves its state.
pub decode_all-view :
    (lenient : Bool) (layer : Layer) (chunks : List (List ℕ))
    → view (decode_all lenient layer chunks) ≡ view (stream lenient layer (concat chunks))
unfolding stream
decode_all-view lenient layer [] = refl
decode_all-view lenient layer (chunk ∷ chunks) =
    let d = decode lenient layer chunk in
    let s = stream lenient layer chunk in
    let same = view-decode lenient layer chunk in
    let events : erase d.0 ≡ erase s.0 = ap (λ (z : List Event × Layer). z.0) same in
    let after : d.1 ≡ s.1 = ap (λ (z : List Event × Layer). z.1) same in
    rw
      (
        stream-append lenient layer chunk (concat chunks),
        erase-append d.0 (decode_all lenient d.1 chunks).0,
        erase-append s.0 (stream lenient s.1 (concat chunks)).0,
        events,
        after,
      )
      (ap (λ (z : List Event × Layer). (erase s.0 ++ z.0, z.1))
        (decode_all-view lenient s.1 chunks))

-- The arguments of a call of `encode`.
pub record Adu : Type 0 where
  pub unit : ℕ
  pub fc : ℕ
  pub payload : List ℕ

-- They are bytes, and the frame has at most 512 digits.
pub record Fits (a : Adu) : Type 0 where
  pub unit : a.unit < 256
  pub fc : a.fc < 256
  pub payload : All (λ b. b < 256) a.payload
  pub size : length a.payload ≤ 253

abbrev pub lrc_byte : Adu → ℕ
lrc_byte a = lrc_of (sum_bytes (a.unit + a.fc) a.payload)

-- The bytes of a frame, and its characters.
abbrev pub adu_bytes : Adu → List ℕ
adu_bytes a = a.unit ∷ a.fc ∷ a.payload ++ lrc_byte a ∷ []

abbrev pub wire : Adu → List ℕ
wire a = encode a.unit a.fc a.payload

abbrev pub wires : List Adu → List ℕ
wires [] = []
wires (a ∷ adus) = wire a ++ wires adus

-- The frame that the receiver should see, without the raw characters.
abbrev pub frames : List Adu → List Event
frames [] = []
frames (a ∷ adus) =
    frame (record { unit = a.unit; fc = a.fc; payload = a.payload; buffer = [] }) ∷ frames adus

hex_chars-append : (xs ys : List ℕ) → hex_chars (xs ++ ys) ≡ hex_chars xs ++ hex_chars ys
hex_chars-append [] ys = refl
hex_chars-append (x ∷ xs) ys = rw (hex_chars-append xs ys) refl

pub wire_digits : (a : Adu) → wire a ≡ colon ∷ hex_chars (adu_bytes a) ++ cr ∷ lf ∷ []
unfolding encode
wire_digits a = rw (hex_chars-append a.payload (lrc_byte a ∷ []), append_assoc) refl

adu_bytes-IsByte : (a : Adu) → Fits a → All (λ b. b < 256) (adu_bytes a)
adu_bytes-IsByte a h = (
  h.unit,
  (h.fc, All-append (λ b. b < 256) a.payload (lrc_byte a ∷ []) h.payload (omega arith, tt)),
)

checked_adu :
    (a : Adu) (raw : List ℕ)
    → checked_frame (adu_bytes a) raw
      ≡ frame (record { unit = a.unit; fc = a.fc; payload = a.payload; buffer = raw })
unfolding checked_frame
checked_adu a raw =
    let n = length a.payload in
    let size : suc (suc (length (a.payload ++ lrc_byte a ∷ []))) - 3 ≡ n =
      omega (arith, length-append a.payload (lrc_byte a ∷ [])) in
    let end : suc (suc (length (a.payload ++ lrc_byte a ∷ []))) - 1 ≡ suc (suc n) =
      omega (arith, length-append a.payload (lrc_byte a ∷ [])) in
    let here : n - n ≡ 0 = omega arith in
    let last : byte_at (a.payload ++ lrc_byte a ∷ []) n ≡ lrc_byte a =
      get_or-append_ge a.payload (lrc_byte a ∷ []) n 0 (omega arith) ∙ rw here refl in
    rw
      (
        size,
        end,
        take-append a.payload (lrc_byte a ∷ []),
        last,
        eq→== (lrc_byte a) (lrc_byte a) refl,
      )
      refl

end_frame-wire :
    (lenient : Bool) (a : Adu)
    → Fits a
    → end_frame lenient (hex_chars (adu_bytes a))
      ≡ frame (record {
        unit = a.unit;
        fc = a.fc;
        payload = a.payload;
        buffer = hex_chars (adu_bytes a);
      })
unfolding end_frame
end_frame-wire lenient a h =
    let size = length-hex_chars (adu_bytes a) in
    let more = length-append a.payload (lrc_byte a ∷ []) in
    rw
      (
        ge→ltb (length (hex_chars (adu_bytes a))) 6 (omega (arith, size, more)),
        eq→== (length (hex_chars (adu_bytes a)) % 2) 0 (omega (arith, size)),
        hex_bytes-hex_chars lenient (adu_bytes a) (adu_bytes-IsByte a h),
      )
      (checked_adu a (hex_chars (adu_bytes a)))

stream-wire :
    (lenient : Bool) (a : Adu) (rest : List ℕ)
    → Fits a
    → view (stream lenient idle (wire a ++ rest)) ≡ (
        let later = view (stream lenient idle rest) in
        (
          frame (record { unit = a.unit; fc = a.fc; payload = a.payload; buffer = [] }) ∷ later.0,
          later.1,
        ))
stream-wire lenient a rest h =
    let digits = hex_chars (adu_bytes a) in
    let valid = hex_chars-IsHex lenient (adu_bytes a) (adu_bytes-IsByte a h) in
    let short : length digits ≤ max_hex_length =
      omega (
        arith,
        length-hex_chars (adu_bytes a),
        length-append a.payload (lrc_byte a ∷ []),
        h.size,
      ) in
    let chars : wire a ++ rest ≡ colon ∷ digits ++ cr ∷ lf ∷ rest =
      rw (wire_digits a) (append_assoc (colon ∷ digits) (cr ∷ lf ∷ []) rest) in
    ap (λ (x : List ℕ). view (stream lenient idle x)) chars
    ∙ ap view (stream_frame lenient digits rest valid short)
    ∙ rw (end_frame-wire lenient a h) refl

stream-wires :
    (lenient : Bool) (adus : List Adu)
    → All Fits adus
    → view (stream lenient idle (wires adus)) ≡ (frames adus, idle)
unfolding stream
stream-wires lenient [] h = refl
stream-wires lenient (a ∷ adus) h =
    stream-wire lenient a (wires adus) h.0
    ∙ ap
        (λ (z : List Event × Layer). (
          frame (record { unit = a.unit; fc = a.fc; payload = a.payload; buffer = [] }) ∷ z.0,
          z.1,
        ))
        (stream-wires lenient adus h.1)

-- Round trip: whatever ADUs are encoded one after another, with byte arguments and at most 253 payload
-- bytes each, and however the transport cuts the characters into chunks, a fresh layer, strict or
-- lenient, reports exactly those ADUs, in order and without an error, and is idle again. The raw
-- characters of the events are left out.
pub decode_all-encode :
    (lenient : Bool) (adus : List Adu) (chunks : List (List ℕ))
    → All Fits adus
    → concat chunks ≡ wires adus
    → view (decode_all lenient idle chunks) ≡ (frames adus, idle)
decode_all-encode lenient adus chunks h e =
    decode_all-view lenient idle chunks ∙ rw e (stream-wires lenient adus h)
