-- ===== src/Slave/DeviceId/Encoded.antt =====
-- What the response of `_handleFC43_14` in src/slave/slave.ts holds: the objects that were chosen.
use njs_modbus.Common.{
  ℕ, suc, ◌≡◌, refl, ap, ◌∙◌, not, ◌&&◌, false, List, [], ◌∷◌, ◌++◌, length, All, Option, none,
  some, leb, ◌==◌, ◌⊎◌, if◌then◌else◌, Bool-cases, inl, inr,
}
use njs_modbus.Slave.Types.{Reply, refused, ok, UnitModel, mei_read_device_id}
use njs_modbus.Slave.DeviceId.{
  Objects, Chosen, choose, choose_stream, stream_loop, nothing_chosen, conformity_level, null_text,
  encode_objects, with_header, respond, collected_response, collect, with_defaults, is_defined,
  start_response, send_specific, send_objects, identification_response, read_identification, Start,
  start_at, bad_object, bad_code, is_reserved, start_object, handle_fc43_14,
}
use njs_modbus.Slave.DeviceId.Bounds.{
  Known, IsValidIfSome, choose-IsValid, stream_loop-IsValid, nothing-IsValid,
}

-- Objects in bytes: id, length and text.
abbrev pub encoded : List (ℕ × List ℕ) → List ℕ
encoded [] = []
encoded ((id, value) ∷ rest) = id ∷ length value ∷ (value ++ encoded rest)

-- A response of FC 43 with the six bytes of its header and these objects.
abbrev pub device_pdu : ℕ → ℕ → ℕ → ℕ → List (ℕ × List ℕ) → List ℕ
device_pdu code level more next objects =
    mei_read_device_id ∷ code ∷ level ∷ more ∷ next ∷ length objects ∷ encoded objects

-- An object of the unit with its text.
abbrev pub with_text : ℕ → Option (List ℕ) → List (ℕ × List ℕ) → List (ℕ × List ℕ)
with_text id none rest = rest
with_text id (some value) rest = (id, value) ∷ rest

-- The objects of these ids.
abbrev pub values_of : Objects → List (ℕ × ℕ) → List (ℕ × List ℕ)
values_of objects [] = []
values_of objects ((id, n) ∷ ids) = with_text id (objects id) (values_of objects ids)

module _ (objects : Objects) where
  encode_objects-encoded :
      (ids : List (ℕ × ℕ))
      → All (Known objects) ids
      → (encode_objects objects ids ≡ some (encoded (values_of objects ids)))
        × (length (values_of objects ids) ≡ length ids)
  unfolding encode_objects
  encode_objects-encoded [] k = (refl, refl)
  encode_objects-encoded ((id, n) ∷ ids) ((value, found, e), k) =
      let (bytes, count) = encode_objects-encoded ids k in
      rw (found, bytes, ← e) (refl, ap suc count)

  -- The objects that a stream chooses from some object on, or the one of a specific access.
  abbrev pub Picks : ℕ → Chosen → Type 0
  Picks code c =
      ((oid : ℕ) × (choose_stream objects code oid ≡ some c))
      ⊎ ((oid : ℕ) × (value : List ℕ) × (objects oid ≡ some value)
          × (choose oid value nothing_chosen ≡ some c))

  -- A response with exactly the chosen objects.
  abbrev pub Sends : ℕ → Reply (List ℕ) → Type 0
  Sends code (refused e) = Unit {0}
  Sends code (ok bytes) =
      (c : Chosen) × Picks code c
      × All (Known objects) c.ids
      × (bytes
          ≡ device_pdu code (conformity_level objects) (if c.last_id == 0 then 0x00 else 0xff)
              c.last_id (values_of objects c.ids))

  respond-Sends :
      (code : ℕ) (found : Option Chosen)
      → IsValidIfSome objects found
      → ((c : Chosen) → found ≡ some c → Picks code c)
      → Sends code (respond objects code found).0
  unfolding respond with_header
  respond-Sends code none v picks = tt
  respond-Sends code (some c) v picks =
      let (bytes, count) = encode_objects-encoded c.ids v.known in
      rw (bytes, ← count) (c, picks c refl, v.known, refl)

  send_specific-Sends :
      (code id : ℕ) (found : Option (List ℕ))
      → objects id ≡ found
      → Sends code (send_specific objects code id found).0
  unfolding send_specific
  send_specific-Sends code id none e = tt
  send_specific-Sends code id (some value) e =
      respond-Sends code (choose id value nothing_chosen)
        (choose-IsValid objects id value nothing_chosen e (nothing-IsValid objects))
        λ c chosen. inr (id, value, e, chosen)

  send_objects-Sends : (code id : ℕ) → Sends code (send_objects objects code id).0
  unfolding send_objects choose_stream
  send_objects-Sends code id = elim (Bool-cases (code == 0x04)) [
    | inl specific ↦ rw specific (send_specific-Sends code id (objects id) refl)
    | inr stream ↦ rw stream (
        respond-Sends code (stream_loop objects code id 256 0 nothing_chosen)
          (stream_loop-IsValid objects code id 256 0 nothing_chosen (nothing-IsValid objects))
          λ c chosen. inl (id, chosen))
  ]

  start_response-Sends : (code id : ℕ) → Sends code (start_response code id objects).0
  unfolding start_response
  start_response-Sends code id =
      elim (Bool-cases (not (is_defined (objects id)) && (code == 0x04))) [
        | inl missing ↦ rw missing tt
        | inr found ↦ rw found (send_objects-Sends code _)
      ]

-- Specific access to an object of one byte.
start_response-one_byte :
    (objects : Objects) (id v : ℕ)
    → objects id ≡ some (v ∷ [])
    → (start_response 0x04 id objects).0
      ≡ ok (device_pdu 0x04 (conformity_level objects) 0 0 ((id, v ∷ []) ∷ []))
unfolding start_response send_objects send_specific choose respond with_header encode_objects
start_response-one_byte objects id v e = rw e (rw e (rw e refl))

with_defaults-some :
    (found : Objects) (id : ℕ) (value : List ℕ)
    → found id ≡ some value
    → with_defaults found id ≡ some value
unfolding with_defaults
with_defaults-some found id value e =
    ap
      (λ (v : Option (List ℕ)).
        let text : Option (List ℕ) = elim v [
          | some v ↦ some v
          | none ↦ (if leb id 0x02 then some null_text else none)
        ] in
        text)
      e

identification_response-one_byte :
    (id v : ℕ) (given : List (Option ℕ × List ℕ)) (found : Objects)
    → collect given (λ _. none) ≡ some found
    → found id ≡ some (v ∷ [])
    → (identification_response 0x04 id given).0
      ≡ ok (device_pdu 0x04 (conformity_level (with_defaults found)) 0 0 ((id, v ∷ []) ∷ []))
unfolding identification_response collected_response
identification_response-one_byte id v given found e one =
    rw e (
      start_response-one_byte (with_defaults found) id v (with_defaults-some found id (v ∷ []) one))

identification_response-Sends :
    (code id : ℕ) (given : List (Option ℕ × List ℕ)) (found : Objects)
    → collect given (λ _. none) ≡ some found
    → Sends (with_defaults found) code (identification_response code id given).0
unfolding identification_response collected_response
identification_response-Sends code id given found e =
    rw e (start_response-Sends (with_defaults found) code id)

module _ {S : Type 0} (model : UnitModel S) (h : S → Reply (List (Option ℕ × List ℕ)) × S)
    (given : List (Option ℕ × List ℕ)) (store after : S)
    (implements : model.read_device_identification ≡ some h)
    (answers : h store ≡ (ok given, after)) where
  read_identification_lem :
      (code oid : ℕ)
      → (read_identification model code (start_at oid) store).reply
        ≡ (identification_response code oid given).0
  unfolding read_identification
  read_identification_lem code oid = rw (implements, answers) refl

  -- The reply to a request is that of the object to begin with.
  handle_fc43_14_lem :
      (code id : ℕ)
      → (handle_fc43_14 model (mei_read_device_id ∷ code ∷ id ∷ []) store).reply
        ≡ (read_identification model code (start_object code id) store).reply
  unfolding handle_fc43_14
  handle_fc43_14_lem code id = refl

  read_identification-Sends :
      (code : ℕ) (start : Start) (found : Objects)
      → collect given (λ _. none) ≡ some found
      → Sends (with_defaults found) code (read_identification model code start store).reply
  read_identification-Sends code bad_code found e = unfold read_identification in tt
  read_identification-Sends code bad_object found e = unfold read_identification in tt
  read_identification-Sends code (start_at oid) found e =
      rw (read_identification_lem code oid) (identification_response-Sends code oid given found e)

  -- A response of the slave consists of the header and of objects that the unit has.
  pub handle_fc43_14-Sends :
      (code id : ℕ) (found : Objects)
      → collect given (λ _. none) ≡ some found
      → Sends
          (with_defaults found)
          code
          (handle_fc43_14 model (mei_read_device_id ∷ code ∷ id ∷ []) store).reply
  handle_fc43_14-Sends code id found e =
      rw (handle_fc43_14_lem code id)
        (read_identification-Sends code (start_object code id) found e)

  -- A specific access that is not refused is answered with the object, also of one byte.
  pub handle_fc43_14-one_byte :
      (id v : ℕ) (found : Objects)
      → collect given (λ _. none) ≡ some found
      → is_reserved id ≡ false
      → found id ≡ some (v ∷ [])
      → (handle_fc43_14 model (mei_read_device_id ∷ 0x04 ∷ id ∷ []) store).reply
        ≡ ok (device_pdu 0x04 (conformity_level (with_defaults found)) 0 0 ((id, v ∷ []) ∷ []))
  handle_fc43_14-one_byte id v found e free one =
      let begins : start_object 0x04 id ≡ start_at id = unfold start_object in rw free refl in
      handle_fc43_14_lem 0x04 id
      ∙ ap (λ (start : Start). (read_identification model 0x04 start store).reply) begins
      ∙ read_identification_lem 0x04 id
      ∙ identification_response-one_byte id v given found e one
