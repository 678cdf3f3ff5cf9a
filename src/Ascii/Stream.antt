-- ===== src/Ascii/Stream.antt =====
-- The state machine of src/layers/protocol/ascii-protocol-layer.ts over several bytes.
use njs_modbus.Common.{
  ℕ, ◌+◌, ◌≤◌, ◌<◌, ◌≡◌, refl, ◌∙◌, arith, Bool, List, [], ◌∷◌, ◌++◌, append-nil, append_assoc,
  length, length-append, All, ne→==, lt→leb_false, ge→ltb,
}
use njs_modbus.Ascii.{
  colon, cr, lf, max_hex_length, hex_value, Layer, idle, reception, step, stream, end_frame,
}
use njs_modbus.Ascii.Hex.{IsHex, hex-not_colon, hex-not_cr}

-- The chunks do not matter to the state machine.
pub stream-append :
    (lenient : Bool) (layer : Layer) (xs ys : List ℕ)
    → stream lenient layer (xs ++ ys) ≡ (
        let first = stream lenient layer xs in
        let later = stream lenient first.1 ys in (first.0 ++ later.0, later.1))
unfolding stream
stream-append lenient layer [] ys = refl
stream-append lenient layer (x ∷ xs) ys =
    rw (stream-append lenient (step lenient layer x).1 xs ys, append_assoc) refl

-- A hex digit that still has room is kept.
step-IsHex :
    (lenient : Bool) (chars : List ℕ) (c : ℕ)
    → IsHex lenient c
    → length chars < max_hex_length
    → step lenient (reception chars) c ≡ ([], reception (chars ++ c ∷ []))
unfolding step
step-IsHex lenient chars c h room =
    rw
      (
        ne→== c colon (hex-not_colon lenient c h),
        ne→== c cr (hex-not_cr lenient c h),
        lt→leb_false max_hex_length (length chars) room,
        ge→ltb 15 (hex_value lenient c) h,
      )
      refl

pub stream_body :
    (lenient : Bool) (kept chars rest : List ℕ)
    → All (IsHex lenient) chars
    → length kept + length chars ≤ max_hex_length
    → stream lenient (reception kept) (chars ++ rest)
      ≡ stream lenient (reception (kept ++ chars)) rest
unfolding stream
stream_body lenient kept [] rest h room = rw append-nil refl
stream_body lenient kept (c ∷ chars) rest h room =
    rw (step-IsHex lenient kept c h.0 (omega arith)) (
      stream_body lenient (kept ++ c ∷ []) chars rest h.1
        (omega (arith, length-append kept (c ∷ [])))
      ∙ rw append_assoc refl)

-- A colon, hex digits, and the two characters of the end are one frame.
pub stream_frame :
    (lenient : Bool) (chars rest : List ℕ)
    → All (IsHex lenient) chars
    → length chars ≤ max_hex_length
    → stream lenient idle (colon ∷ chars ++ cr ∷ lf ∷ rest)
      ≡ (let later = stream lenient idle rest in (end_frame lenient chars ∷ later.0, later.1))
unfolding stream step
stream_frame lenient chars rest h room =
    stream_body lenient [] chars (cr ∷ lf ∷ rest) h (omega arith)
