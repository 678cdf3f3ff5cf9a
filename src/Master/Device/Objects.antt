-- ===== src/Master/Device/Objects.antt =====
-- The objects of a device identification as src/slave/slave.ts encodes them, and what the parser of
-- src/master/master.ts makes of them.
use njs_modbus.Common.{
  ℕ, suc, ◌+◌, ◌≤◌, ◌<◌, ◌≡◌, ◌≢◌, refl, ap, ◌∙◌, sym, arith, List, [], ◌∷◌, ◌++◌, none, length,
  ◌==◌, eq→==, ne→==, ge→ltb, All, append_assoc, append-nil, length-append,
}
use njs_modbus.Tcp.{Frame}
use njs_modbus.Slave.DeviceId.Encoded.{encoded, device_pdu}
use njs_modbus.Master.{
  got, rejected, resolved, object_count_mismatch, detect_exception, validate_response,
}
use njs_modbus.Master.Device.{
  nothing_yet, with_value, Parsing, parse_byte, parse_bytes, nothing_parsed, validate_device,
  identification_of, device_response,
}

abbrev pub IsLong : ℕ × List ℕ → Type 0
IsLong object = 2 ≤ length object.1

parse_bytes-append :
    (xs ys : List ℕ) (p : Parsing) → parse_bytes (xs ++ ys) p ≡ parse_bytes ys (parse_bytes xs p)
unfolding parse_bytes
parse_bytes-append [] ys p = refl
parse_bytes-append (x ∷ xs) ys p = parse_bytes-append xs ys (parse_byte x p p.partial)

abbrev in_value : ℕ → ℕ → List ℕ → List (ℕ × List ℕ) → ℕ → Parsing
in_value id n value objects total = record {
  partial = with_value id n value;
  objects = objects;
  total_bytes = total;
}

abbrev between : List (ℕ × List ℕ) → ℕ → Parsing
between objects total = record { partial = nothing_yet; objects = objects; total_bytes = total }

-- The bytes that are missing of a value complete the object.
value_completed :
    (rest value : List ℕ) (id x : ℕ) (objects : List (ℕ × List ℕ)) (total : ℕ)
    → let whole = value ++ x ∷ rest in
      parse_bytes (x ∷ rest) (in_value id (length whole) value objects total)
      ≡ between (objects ++ (id, whole) ∷ []) (total + (2 + length whole))
unfolding parse_bytes parse_byte
value_completed [] value id x objects total =
    let whole = value ++ x ∷ [] in rw (eq→== (length whole) (length whole) refl) refl
value_completed (y ∷ rest) value id x objects total =
    let whole = value ++ x ∷ y ∷ rest in
    let so_far = value ++ x ∷ [] in
    let more : length so_far < length whole =
      omega (arith, length-append value (x ∷ y ∷ rest), length-append value (x ∷ [])) in
    let ih = value_completed rest so_far id y objects total in
    rw (ne→== (length whole) (length so_far) (omega (arith, more)))
      (rw (append_assoc value (x ∷ []) (y ∷ rest)) at ih)

encoded-append : (xs ys : List (ℕ × List ℕ)) → encoded (xs ++ ys) ≡ encoded xs ++ encoded ys
encoded-append [] ys = refl
encoded-append ((id, value) ∷ xs) ys =
    ap (λ (bytes : List ℕ). id ∷ length value ∷ bytes)
      (ap (◌++◌ value) (encoded-append xs ys) ∙ sym (append_assoc value (encoded xs) (encoded ys)))

-- An object of at least two bytes is parsed.
object_parsed :
    (id : ℕ) (value : List ℕ) (objects : List (ℕ × List ℕ)) (total : ℕ)
    → 2 ≤ length value
    → parse_bytes (id ∷ length value ∷ value) (between objects total)
      ≡ between (objects ++ (id, value) ∷ []) (total + (2 + length value))
unfolding parse_bytes parse_byte
object_parsed id [] objects total h = absurd (omega arith)
object_parsed id (v ∷ []) objects total h = absurd (omega arith)
object_parsed id (v ∷ x ∷ rest) objects total h = value_completed rest (v ∷ []) id x objects total

-- Objects of at least two bytes each, as the slave encodes them, are parsed back as they were, and
-- `totalBytes` grows by the length of their encoding.
pub parse_bytes-encoded :
    (objects before : List (ℕ × List ℕ)) (total : ℕ)
    → All IsLong objects
    → parse_bytes
        (encoded objects)
        (record { partial = nothing_yet; objects = before; total_bytes = total })
      ≡ record {
        partial = nothing_yet;
        objects = before ++ objects;
        total_bytes = total + length (encoded objects);
      }
unfolding parse_bytes
parse_bytes-encoded [] before total h =
    let same : total + 0 ≡ total = omega arith in rw (append-nil, same) refl
parse_bytes-encoded ((id, value) ∷ rest) before total h =
    let next = before ++ (id, value) ∷ [] in
    let size : total + (2 + length value) + length (encoded rest)
        ≡ total + suc (suc (length (value ++ encoded rest))) =
      omega (arith, length-append value (encoded rest)) in
    rw (← size, ← append_assoc before ((id, value) ∷ []) rest)
      (parse_bytes-append (id ∷ length value ∷ value) (encoded rest) (between before total)
        ∙ ap (parse_bytes (encoded rest)) (object_parsed id value before total h.0)
        ∙ parse_bytes-encoded rest next (total + (2 + length value)) h.1)

-- Inside an object that began with its only byte, the parser never gets out again.
stuck :
    (bytes value : List ℕ) (id x : ℕ) (objects : List (ℕ × List ℕ)) (total : ℕ)
    → (parse_bytes bytes (in_value id 1 (x ∷ value) objects total)).objects ≡ objects
unfolding parse_bytes parse_byte
stuck [] value id x objects total = refl
stuck (y ∷ bytes) value id x objects total =
    let longer : 1 ≢ suc (length (value ++ y ∷ [])) = omega (arith, length-append value (y ∷ [])) in
    rw (parse_bytes, parse_byte, ne→== 1 (suc (length (value ++ y ∷ []))) longer)
      (stuck bytes (value ++ y ∷ []) id x objects total)

objects_before :
    (before after : List (ℕ × List ℕ)) (id v : ℕ)
    → All IsLong before
    → (parse_bytes (encoded before ++ id ∷ 1 ∷ v ∷ encoded after) nothing_parsed).objects ≡ before
unfolding parse_byte parse_bytes
objects_before before after id v h =
    ap (λ (p : Parsing). p.objects)
      (parse_bytes-append (encoded before) (id ∷ 1 ∷ v ∷ encoded after) nothing_parsed
        ∙ ap (parse_bytes (id ∷ 1 ∷ v ∷ encoded after)) (parse_bytes-encoded before [] 0 h))
    ∙ three_bytes
  where
    three_bytes :
        (parse_bytes
          (id ∷ 1 ∷ v ∷ encoded after)
          (between before (0 + length (encoded before)))).objects
        ≡ before
    three_bytes = stuck (encoded after) [] id v before (0 + length (encoded before))

same_response :
    (f : Frame)
    → f.fc ≡ 0x2b
    → (detect_exception f f.unit 0x2b ≡ none) × (validate_response f f.unit 0x2b ≡ none)
unfolding detect_exception validate_response
same_response f e = rw (e, eq→== f.unit f.unit refl) (refl, refl)

-- A response with objects of at least two bytes each resolves to exactly those objects, with the
-- fields of the header.
pub device_response-pdu :
    (f : Frame) (code level more next : ℕ) (objects : List (ℕ × List ℕ))
    → f.fc ≡ 0x2b
    → f.payload ≡ device_pdu code level more next objects
    → All IsLong objects
    → device_response f.unit 0x2b code (got f)
      ≡ resolved (record {
        read_device_id_code = code;
        conformity_level = level;
        more_follows = more == 0xff;
        next_object_id = next;
        objects = objects;
      })
unfolding device_response validate_device identification_of
device_response-pdu f code level more next objects e p h =
    let (normal, valid) = same_response f e in
    let read = parse_bytes-encoded objects [] 0 h in
    let size : suc (suc (suc (suc (suc (suc (length (encoded objects)))))))
        ≡ 6 + (0 + length (encoded objects)) =
      omega arith in
    rw
      (
        normal,
        valid,
        p,
        read,
        eq→== code code refl,
        eq→== (length objects) (length objects) refl,
        ge→ltb (suc (suc (suc (suc (suc (suc (length (encoded objects)))))))) 6 (omega arith),
        eq→== (suc (suc (suc (suc (suc (suc (length (encoded objects))))))))
            (6 + (0 + length (encoded objects))) size,
      )
      refl

-- A response is refused when an object behind objects of at least two bytes has exactly one byte.
pub device_response-short :
    (f : Frame) (code level more next id v : ℕ) (before after : List (ℕ × List ℕ))
    → f.fc ≡ 0x2b
    → f.payload ≡ device_pdu code level more next (before ++ (id, v ∷ []) ∷ after)
    → All IsLong before
    → device_response f.unit 0x2b code (got f) ≡ rejected object_count_mismatch
unfolding device_response validate_device
device_response-short f code level more next id v before after e p h =
    let (normal, valid) = same_response f e in
    let sent = before ++ (id, v ∷ []) ∷ after in
    let read : (parse_bytes (encoded sent) nothing_parsed).objects ≡ before =
      rw encoded-append (objects_before before after id v h) in
    let fewer : length before < length sent =
      omega (arith, length-append before ((id, v ∷ []) ∷ after)) in
    rw
      (
        normal,
        valid,
        p,
        read,
        eq→== code code refl,
        ne→== (length before) (length sent) (omega (arith, fewer)),
        ge→ltb (suc (suc (suc (suc (suc (suc (length (encoded sent)))))))) 6 (omega arith),
      )
      refl
