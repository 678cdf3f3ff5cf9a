-- ===== src/Slave/DeviceId.antt =====
-- `_handleFC43_14` of src/slave/slave.ts.
-- The sparse array `objects` is a function from object ids to the bytes of the texts.
pub mod Bounds
pub mod Encoded
pub mod Texts
use njs_modbus.Common.{
  ℕ, zero, suc, ◌+◌, ◌-◌, ◌%◌, Bool, true, false, not, ◌||◌, ◌&&◌, List, [], ◌∷◌, ◌++◌, Option,
  none, some, ltb, leb, ◌==◌, if◌then◌else◌, length,
}
use njs_modbus.Tcp.{byte_at}
use njs_modbus.Slave.Types.{
  ErrorCode, illegal_data_value, illegal_data_address, server_device_failure, data_value_illegal,
  data_address_illegal, server_failure, mei_read_device_id, UnitModel, Handled, Reply, refused, ok,
  ProtocolExceptionType, reject, implemented,
}

-- `ReadDeviceIDCode`
abbrev pub basic_stream : ℕ
basic_stream = 0x01

abbrev pub regular_stream : ℕ
regular_stream = 0x02

abbrev pub extended_stream : ℕ
extended_stream = 0x03

abbrev pub specific_access : ℕ
specific_access = 0x04

-- The object to begin with, or the way in which the request is refused.
pub data Start : Type 0 where
  start_at : ℕ → Start
  bad_object bad_code : Start

-- `objectID > 0x06 && objectID < 0x80`
abbrev pub is_reserved : ℕ → Bool
is_reserved id = ltb 0x06 id && ltb id 0x80

-- The `switch` on `readDeviceIDCode`.
unfoldable pub start_object : ℕ → ℕ → Start
start_object code id =
    if code == basic_stream
    then start_at (if ltb 0x02 id || is_reserved id then 0 else id)
    else if code == regular_stream
    then start_at (if leb 0x80 id || is_reserved id then 0 else id)
    else if code == extended_stream
    then start_at (if is_reserved id then 0 else id)
    else if code == specific_access
    then (if is_reserved id then bad_object else start_at id)
    else bad_code

abbrev pub Objects : Type 0
Objects = ℕ → Option (List ℕ)

abbrev pub put : Objects → ℕ → List ℕ → Objects
put objects id value j = if j == id then some value else objects j

-- The loop over the keys that the unit model gave; `none` at a key that is no object id.
unfoldable pub collect : List (Option ℕ × List ℕ) → Objects → Option Objects
collect [] objects = some objects
collect ((none, value) ∷ rest) objects = none
collect ((some id, value) ∷ rest) objects =
    if ltb 0xff id || (leb 0x07 id && leb id 0x7f)
    then none
    else collect rest (put objects id value)

-- 'null' for each mandatory object that is missing.
abbrev pub null_text : List ℕ
null_text = b'n' ∷ b'u' ∷ b'l' ∷ b'l' ∷ []

unfoldable pub with_defaults : Objects → Objects
with_defaults objects j = elim (objects j) [
  | some v ↦ some v
  | none ↦ (if leb j 0x02 then some null_text else none)
]

abbrev pub is_defined : Option (List ℕ) → Bool
is_defined none = false
is_defined (some v) = true

-- The greatest defined id, over the ids from `id` on.
unfoldable pub max_id_loop : Objects → ℕ → ℕ → ℕ → ℕ
max_id_loop objects zero id max_id = max_id
max_id_loop objects (suc count) id max_id =
    max_id_loop objects count (suc id)
      (if is_defined (objects id) && ltb max_id id then id else max_id)

unfoldable pub conformity_level : Objects → ℕ
conformity_level objects =
    let max_id = max_id_loop objects 256 0 0 in
    if leb 0x80 max_id then 0x83 else if ltb 0x02 max_id then 0x82 else 0x81

-- `totalLength`, `lastID` and `ids`.
pub record Chosen : Type 0 where
  pub total : ℕ
  pub last_id : ℕ
  pub ids : List (ℕ × ℕ)

-- One object that may be sent; `none` where it is too long for any response.
unfoldable pub choose : ℕ → List ℕ → Chosen → Option Chosen
choose id value c =
    let n = length value in
    if ltb 244 n
    then none
    else if not (c.last_id == 0)
    then some c
    else if ltb (253 - c.total) (n + 2)
    then some (record c { last_id = id })
    else some (record c { total = c.total + (n + 2); ids = c.ids ++ (id, n) ∷ [] })

-- One round of the loop over the ids, for the streams that begin at `object_id`.
unfoldable pub stream_step : Objects → ℕ → ℕ → ℕ → Chosen → Option Chosen
stream_step objects code object_id id c =
    if ltb id object_id
      || (code == basic_stream && ltb 0x02 id)
      || (code == regular_stream && ltb 0x06 id)
    then some c
    else elim (objects id) [ none ↦ some c | some value ↦ choose id value c ]

-- A failure ends the handler.
abbrev pub and_next {ℓ κ} : {A : Type ℓ} {B : Type κ} → Option A → (A → Option B) → Option B
and_next none k = none
and_next (some a) k = k a

unfoldable pub stream_loop : Objects → ℕ → ℕ → ℕ → ℕ → Chosen → Option Chosen
stream_loop objects code object_id zero id c = some c
stream_loop objects code object_id (suc count) id c =
    and_next (stream_step objects code object_id id c)
      λ c'. stream_loop objects code object_id count (suc id) c'

abbrev pub nothing_chosen : Chosen
nothing_chosen = record { total = 7; last_id = 0; ids = [] }

unfoldable pub choose_stream : Objects → ℕ → ℕ → Option Chosen
choose_stream objects code object_id = stream_loop objects code object_id 256 0 nothing_chosen

-- The objects of the response, each with its id and length.
unfoldable pub encode_objects : Objects → List (ℕ × ℕ) → Option (List ℕ)
encode_objects objects [] = some []
encode_objects objects ((id, n) ∷ rest) =
    and_next (objects id)
      λ value. and_next (encode_objects objects rest) λ bytes. some (id ∷ n ∷ (value ++ bytes))

-- The callback's arguments and the event.
abbrev pub Response : Type 0
Response = Reply (List ℕ) × Option ProtocolExceptionType

abbrev pub failure : Response
failure = (refused server_device_failure, some server_failure)

-- The response body: the header, and the encoded objects.
unfoldable pub with_header : Objects → ℕ → Chosen → Option (List ℕ) → Response
with_header objects code c none = failure
with_header objects code c (some bytes) = (
  ok (
      mei_read_device_id
      ∷ code
      ∷ conformity_level objects
      ∷ (if c.last_id == 0 then 0x00 else 0xff)
      ∷ c.last_id
      ∷ length c.ids
      ∷ bytes),
  none,
)

unfoldable pub respond : Objects → ℕ → Option Chosen → Response
respond objects code none = failure
respond objects code (some c) = with_header objects code c (encode_objects objects c.ids)

-- The `if` on specific access that chooses the objects.
unfoldable pub send_specific : Objects → ℕ → ℕ → Option (List ℕ) → Response
send_specific objects code object_id none =
    (refused illegal_data_address, some data_address_illegal)
send_specific objects code object_id (some value) =
    respond objects code (choose object_id value nothing_chosen)

unfoldable pub send_objects : Objects → ℕ → ℕ → Response
send_objects objects code object_id =
    if code == specific_access
    then send_specific objects code object_id (objects object_id)
    else respond objects code (choose_stream objects code object_id)

unfoldable pub start_response : ℕ → ℕ → Objects → Response
start_response code object_id objects =
    let present = is_defined (objects object_id) in
    if not present && (code == specific_access)
    then (refused illegal_data_address, some data_address_illegal)
    else send_objects objects code (if present then object_id else 0)

-- The callback that is passed to the unit model's `readDeviceIdentification`.
unfoldable pub collected_response : ℕ → ℕ → Option Objects → Response
collected_response code object_id none = failure
collected_response code object_id (some found) = start_response code object_id (with_defaults found)

unfoldable pub identification_response : ℕ → ℕ → List (Option ℕ × List ℕ) → Response
identification_response code object_id identification =
    collected_response code object_id (collect identification λ _. none)

abbrev pub identified :
    Reply (List (Option ℕ × List ℕ)) → (List (Option ℕ × List ℕ) → Response) → Response
identified (refused code) k = (refused code, none)
identified (ok a) k = k a

module _ {S : Type 0} where
  -- After the `switch`.
  unfoldable pub read_identification : UnitModel S → ℕ → Start → S → Handled S
  read_identification model code bad_code store = reject illegal_data_value data_value_illegal store
  read_identification model code bad_object store =
      reject illegal_data_address data_address_illegal store
  read_identification model code (start_at object_id) store =
      implemented model.read_device_identification store λ read_device_identification.
        let r = read_device_identification store in
        let answer = identified r.0 (identification_response code object_id) in
        record { reply = answer.0; exception = answer.1; store = r.1 }

  unfoldable pub handle_fc43_14 : UnitModel S → List ℕ → S → Handled S
  handle_fc43_14 model pdu store =
      if not (length pdu == 3)
      then reject illegal_data_value data_value_illegal store
      else if not (byte_at pdu 0 == mei_read_device_id)
      then reject illegal_data_value data_value_illegal store
      else read_identification model (byte_at pdu 1) (start_object (byte_at pdu 1) (byte_at pdu 2))
          store
