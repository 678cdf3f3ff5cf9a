-- ===== src/Slave/DeviceId/Bounds.antt =====
-- The size of the response of `_handleFC43_14` in src/slave/slave.ts, and what `totalLength` counts.
use njs_modbus.Common.{
  ℕ, zero, suc, ◌+◌, ◌-◌, ◌≤◌, ◌≡◌, refl, not, ◌||◌, ◌&&◌, List, [], ◌∷◌, ◌++◌, length,
  length-append, All, Option, none, some, arith, ltb, ◌==◌, Bool-cases, inl, inr,
}
use njs_modbus.Tcp.{byte_at}
use njs_modbus.Slave.Types.{Reply, refused, ok, UnitModel, implemented}
use njs_modbus.Slave.Contract.{IsShort}
use njs_modbus.Slave.DeviceId.{
  Objects, Chosen, choose, and_next, stream_step, stream_loop, choose_stream, nothing_chosen,
  encode_objects, with_header, respond, collected_response, collect, with_defaults, is_defined,
  start_response, send_specific, send_objects, identification_response, identified,
  read_identification, Start, start_at, bad_object, bad_code, handle_fc43_14,
}

abbrev pub size : List (ℕ × ℕ) → ℕ
size [] = 0
size ((id, n) ∷ ids) = n + 2 + size ids

size-append : (ids : List (ℕ × ℕ)) (id n : ℕ) → size (ids ++ (id, n) ∷ []) ≡ size ids + (n + 2)
size-append [] id n = omega arith
size-append ((j, m) ∷ ids) id n = omega (arith, size-append ids id n)

module _ (objects : Objects) where
  -- The length that was noted is the one of the object's text.
  abbrev pub Known : ℕ × ℕ → Type 0
  Known p = (value : List ℕ) × (objects p.0 ≡ some value) × (length value ≡ p.1)

  Known-append :
      (ids : List (ℕ × ℕ)) (p : ℕ × ℕ) → All Known ids → Known p → All Known (ids ++ p ∷ [])
  Known-append [] p a k = (k, tt)
  Known-append (q ∷ ids) p a k = (a.0, Known-append ids p a.1 k)

  pub record IsValid (c : Chosen) : Type 0 where
    pub counted : c.total ≡ 7 + size c.ids
    pub bounded : c.total ≤ 253
    pub known : All Known c.ids

  abbrev pub IsValidIfSome : Option Chosen → Type 0
  IsValidIfSome none = Unit {0}
  IsValidIfSome (some c) = IsValid c

  pub choose-IsValid :
      (id : ℕ) (value : List ℕ) (c : Chosen)
      → objects id ≡ some value
      → IsValid c
      → IsValidIfSome (choose id value c)
  unfolding choose
  choose-IsValid id value c e v = elim (Bool-cases (ltb 244 (length value))) [
    | inl long ↦ rw long tt
    | inr fits ↦ elim (Bool-cases (not (c.last_id == 0))) [
      | inl done ↦ rw (fits, done) v
      | inr more ↦ elim (Bool-cases (ltb (253 - c.total) (length value + 2))) [
        | inl full ↦
            rw (fits, more, full)
              (record { counted = v.counted; bounded = v.bounded; known = v.known })
        | inr room ↦
            rw (fits, more, room)
              (record {
                counted = omega (arith, v.counted, size-append c.ids id (length value));
                bounded = ground (arith, v.bounded);
                known = Known-append c.ids (id, length value) v.known (value, e, refl);
              })
      ]
    ]
  ]

  stream_step-IsValid :
      (code object_id id : ℕ) (c : Chosen)
      → IsValid c
      → IsValidIfSome (stream_step objects code object_id id c)
  unfolding stream_step
  stream_step-IsValid code object_id id c v =
      elim (Bool-cases
        (ltb id object_id || (code == 0x01 && ltb 0x02 id) || (code == 0x02 && ltb 0x06 id))) [
          | inl skip ↦ rw skip v
          | inr take ↦ rw take (at_object (objects id) refl)
        ]
    where
      at_object :
          (found : Option (List ℕ))
          → objects id ≡ found
          → IsValidIfSome (elim found [ none ↦ some c | some value ↦ choose id value c ])
      at_object none e = v
      at_object (some value) e = choose-IsValid id value c e v

  next-IsValid :
      (found : Option Chosen) (k : Chosen → Option Chosen)
      → IsValidIfSome found
      → ((c : Chosen) → IsValid c → IsValidIfSome (k c))
      → IsValidIfSome (and_next found k)
  next-IsValid none k v h = tt
  next-IsValid (some c) k v h = h c v

  pub stream_loop-IsValid :
      (code object_id count id : ℕ) (c : Chosen)
      → IsValid c
      → IsValidIfSome (stream_loop objects code object_id count id c)
  unfolding stream_loop
  stream_loop-IsValid code object_id zero id c v = v
  stream_loop-IsValid code object_id (suc count) id c v =
      next-IsValid _ _ (stream_step-IsValid code object_id id c v)
        λ c' v'. stream_loop-IsValid code object_id count (suc id) c' v'

  pub nothing-IsValid : IsValid nothing_chosen
  nothing-IsValid = omega arith

  -- A text that was noted is found again, and its length is the noted one.
  abbrev IsEncoded : List (ℕ × ℕ) → Option (List ℕ) → Type 0
  IsEncoded ids none = ⊥
  IsEncoded ids (some bytes) = length bytes ≡ size ids

  one-IsEncoded :
      (id n : ℕ) (ids : List (ℕ × ℕ)) (value : List ℕ) (rest : Option (List ℕ))
      → length value ≡ n
      → IsEncoded ids rest
      → IsEncoded ((id, n) ∷ ids) (and_next rest λ bytes. some (id ∷ n ∷ (value ++ bytes)))
  one-IsEncoded id n ids value none e h = h
  one-IsEncoded id n ids value (some bytes) e h = omega (arith, length-append value bytes)

  encode_objects-size :
      (ids : List (ℕ × ℕ)) → All Known ids → IsEncoded ids (encode_objects objects ids)
  unfolding encode_objects
  encode_objects-size [] k = refl
  encode_objects-size ((id, n) ∷ ids) ((value, found, e), k) =
      rw found (one-IsEncoded id n ids value _ e (encode_objects-size ids k))

  with_header-IsShort :
      (code : ℕ) (c : Chosen) (bytes : Option (List ℕ))
      → IsValid c
      → IsEncoded c.ids bytes
      → IsShort (with_header objects code c bytes).0
  unfolding with_header
  with_header-IsShort code c none v e = tt
  with_header-IsShort code c (some bytes) v e = omega (arith, v.counted, v.bounded)

  respond-IsShort :
      (code : ℕ) (found : Option Chosen)
      → IsValidIfSome found
      → IsShort (respond objects code found).0
  unfolding respond
  respond-IsShort code none v = tt
  respond-IsShort code (some c) v =
      with_header-IsShort code c _ v (encode_objects-size c.ids v.known)

  send_specific-IsShort :
      (code id : ℕ) (found : Option (List ℕ))
      → objects id ≡ found
      → IsShort (send_specific objects code id found).0
  unfolding send_specific
  send_specific-IsShort code id none e = tt
  send_specific-IsShort code id (some value) e =
      respond-IsShort code _ (choose-IsValid id value nothing_chosen e nothing-IsValid)

  send_objects-IsShort : (code id : ℕ) → IsShort (send_objects objects code id).0
  unfolding send_objects choose_stream
  send_objects-IsShort code id = elim (Bool-cases (code == 0x04)) [
    | inl specific ↦ rw specific (send_specific-IsShort code id _ refl)
    | inr stream ↦
        rw stream (
          respond-IsShort code _ (stream_loop-IsValid code id 256 0 nothing_chosen nothing-IsValid))
  ]

  start_response-IsShort : (code id : ℕ) → IsShort (start_response code id objects).0
  unfolding start_response
  start_response-IsShort code id =
      elim (Bool-cases (not (is_defined (objects id)) && (code == 0x04))) [
        | inl missing ↦ rw missing tt
        | inr found ↦ rw found (send_objects-IsShort code _)
      ]

collected_response-IsShort :
    (code id : ℕ) (found : Option Objects) → IsShort (collected_response code id found).0
unfolding collected_response
collected_response-IsShort code id none = tt
collected_response-IsShort code id (some objects) =
    start_response-IsShort (with_defaults objects) code id

identified-IsShort :
    (r : Reply (List (Option ℕ × List ℕ))) (code id : ℕ)
    → IsShort (identified r (identification_response code id)).0
identified-IsShort (refused e) code id = tt
identified-IsShort (ok a) code id =
    unfold identification_response in collected_response-IsShort code id (collect a λ _. none)

module _ {S : Type 0} where
  read_identification-IsShort :
      (model : UnitModel S) (code : ℕ) (start : Start) (store : S)
      → IsShort (read_identification model code start store).reply
  unfolding read_identification
  read_identification-IsShort model code bad_code store = tt
  read_identification-IsShort model code bad_object store = tt
  read_identification-IsShort model code (start_at id) store =
      called model.read_device_identification
    where
      called :
          (handler : Option (S → Reply (List (Option ℕ × List ℕ)) × S))
          → IsShort
              (implemented handler store λ read.
                let answer = identified (read store).0 (identification_response code id) in
                record { reply = answer.0; exception = answer.1; store = (read store).1 }).reply
      called none = tt
      called (some read) = identified-IsShort (read store).0 code id

  -- The response to an FC 43 request, if there is one, has at most 252 bytes behind the code.
  pub fc43_14-IsShort :
      (model : UnitModel S) (pdu : List ℕ) (store : S)
      → IsShort (handle_fc43_14 model pdu store).reply
  unfolding handle_fc43_14
  fc43_14-IsShort model pdu store = elim (Bool-cases (not (length pdu == 3))) [
    | inl size ↦ rw size tt
    | inr size ↦ elim (Bool-cases (not (byte_at pdu 0 == 0x0e))) [
      | inl mei ↦ rw (size, mei) tt
      | inr mei ↦ rw (size, mei) (read_identification-IsShort model _ _ store)
    ]
  ]
