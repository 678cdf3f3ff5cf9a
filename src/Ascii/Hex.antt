-- ===== src/Ascii/Hex.antt =====
-- Hex digits in src/layers/protocol/ascii-protocol-layer.ts.
use njs_modbus.Common.{
  ℕ, ◌+◌, ◌*◌, ◌/◌, ◌%◌, ◌≤◌, ◌<◌, ◌≡◌, ◌≢◌, refl, zero, suc, arith, Bool, false, List, [], ◌∷◌,
  length, All,
}
use njs_modbus.Ascii.{colon, cr, hex_value, hex_char, byte_of, hex_bytes, hex_chars}

-- A character that the layer takes for a hex digit.
abbrev pub IsHex : Bool → ℕ → Type 0
IsHex lenient c = hex_value lenient c ≤ 15

pub hex-not_colon : (lenient : Bool) (c : ℕ) → IsHex lenient c → c ≢ colon
unfolding hex_value
hex-not_colon lenient c h e = ground (arith, e)

pub hex-not_cr : (lenient : Bool) (c : ℕ) → IsHex lenient c → c ≢ cr
unfolding hex_value
hex-not_cr lenient c h e = ground (arith, e)

pub hex_value-hex_char : (lenient : Bool) (n : ℕ) → n < 16 → hex_value lenient (hex_char n) ≡ n
unfolding hex_value hex_char
hex_value-hex_char lenient n h = ground arith

pub hex_char-hex_value : (c : ℕ) → IsHex false c → hex_char (hex_value false c) ≡ c
unfolding hex_value hex_char
hex_char-hex_value c h = ground arith

pub hex_char-IsHex : (lenient : Bool) (n : ℕ) → n < 16 → IsHex lenient (hex_char n)
hex_char-IsHex lenient n h = omega (arith, hex_value-hex_char lenient n h)

pub hex_chars-IsHex :
    (lenient : Bool) (bytes : List ℕ)
    → All (λ b. b < 256) bytes
    → All (IsHex lenient) (hex_chars bytes)
hex_chars-IsHex lenient [] h = tt
hex_chars-IsHex lenient (b ∷ bytes) h = (
  hex_char-IsHex lenient (b / 16) (omega (arith, h.0)),
  (hex_char-IsHex lenient (b % 16) (omega arith), hex_chars-IsHex lenient bytes h.1),
)

-- Decoding undoes encoding, and in strict mode encoding undoes decoding.
pub hex_bytes-hex_chars :
    (lenient : Bool) (bytes : List ℕ)
    → All (λ b. b < 256) bytes
    → hex_bytes lenient (hex_chars bytes) ≡ bytes
hex_bytes-hex_chars lenient [] h = refl
hex_bytes-hex_chars lenient (b ∷ bytes) h =
    let back : b / 16 * 16 + b % 16 ≡ b = omega arith in
    rw
      (
        hex_value-hex_char lenient (b / 16) (omega (arith, h.0)),
        hex_value-hex_char lenient (b % 16) (omega arith),
        hex_bytes-hex_chars lenient bytes h.1,
        back,
      )
      refl

pub hex_chars-hex_bytes :
    (n : ℕ) (chars : List ℕ)
    → length chars ≡ n * 2
    → All (IsHex false) chars
    → hex_chars (hex_bytes false chars) ≡ chars
hex_chars-hex_bytes zero [] e h = refl
hex_chars-hex_bytes zero (c ∷ chars) e h = absurd (omega arith)
hex_chars-hex_bytes (suc n) [] e h = absurd (omega arith)
hex_chars-hex_bytes (suc n) (c ∷ []) e h = absurd (omega arith)
hex_chars-hex_bytes (suc n) (high ∷ low ∷ chars) e h =
    let v = byte_of false high low in
    let p : v / 16 ≡ hex_value false high = omega (arith, h.1.0) in
    let q : v % 16 ≡ hex_value false low = omega (arith, h.1.0) in
    rw
      (
        p,
        q,
        hex_char-hex_value high h.0,
        hex_char-hex_value low h.1.0,
        hex_chars-hex_bytes n chars (omega arith) h.1.1,
      )
      refl

pub length-hex_chars : (bytes : List ℕ) → length (hex_chars bytes) ≡ length bytes * 2
length-hex_chars [] = refl
length-hex_chars (b ∷ bytes) = omega (arith, length-hex_chars bytes)

pub length-hex_bytes :
    (lenient : Bool) (n : ℕ) (chars : List ℕ)
    → length chars ≡ n * 2
    → length (hex_bytes lenient chars) ≡ n
length-hex_bytes lenient zero [] e = refl
length-hex_bytes lenient zero (c ∷ chars) e = absurd (omega arith)
length-hex_bytes lenient (suc n) [] e = absurd (omega arith)
length-hex_bytes lenient (suc n) (c ∷ []) e = absurd (omega arith)
length-hex_bytes lenient (suc n) (high ∷ low ∷ chars) e =
    omega (arith, length-hex_bytes lenient n chars (omega arith))
