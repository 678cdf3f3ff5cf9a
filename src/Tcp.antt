-- ===== src/Tcp.antt =====
-- The framing layer of Modbus TCP, src/layers/protocol/tcp-protocol-layer.ts.
-- The layer's state is the part of `_residual` that holds bytes, the first `_residualLen` of them.
-- `decode` and `encode` are the methods of that name. The calls of the handlers are the list of
-- events that `decode` returns, in order: an eager and a lazy handler get the same payloads, the
-- lazy one provided that it reads its payload before `decode` goes on, as the library's own do.
-- The text of an error's message is left out. `data` with `dataIndex` is the rest of the data.
pub mod Stream
pub mod Loop
pub mod Decode
pub mod Chunks
pub mod RoundTrip
mod Runs
use njs_modbus.Common.{
  ℕ, zero, suc, ◌+◌, ◌-◌, ◌*◌, ◌/◌, ◌%◌, Bool, not, ◌&&◌, ◌||◌, List, [], ◌∷◌, ◌++◌, ltb, ◌==◌,
  if◌then◌else◌, length, take, drop, get_or,
}

-- A read past the end of a buffer does not occur in this file; it would give 0 here.
abbrev pub byte_at : List ℕ → ℕ → ℕ
byte_at xs i = get_or xs i 0

-- `(xs[i] << 8) | xs[i + 1]`, a sum since the entries are bytes.
abbrev pub be16 : List ℕ → ℕ → ℕ
be16 xs i = byte_at xs i * 256 + byte_at xs (i + 1)

-- MAX_FRAME_LENGTH
abbrev pub max_frame_length : ℕ
max_frame_length = 260

pub record Frame : Type 0 where
  pub transaction : ℕ
  pub unit : ℕ
  pub fc : ℕ
  pub payload : List ℕ
  pub buffer : List ℕ

pub data FrameErrorType : Type 0 where
  protocol_id_invalid frame_length_invalid : FrameErrorType

pub data Event : Type 0 where
  frame : Frame → Event
  frame_error : FrameErrorType → List ℕ → Event

pub record TcpLayer : Type 0 where
  pub residual : List ℕ

-- The frame that the handler gets for the bytes of one whole ADU.
unfoldable pub frame_of : List ℕ → Frame
frame_of raw = record {
  transaction = be16 raw 0;
  unit = byte_at raw 6;
  fc = byte_at raw 7;
  payload = drop 8 raw;
  buffer = raw;
}

-- `frameLen > MAX_FRAME_LENGTH || length < 2`
abbrev pub length_invalid : ℕ → Bool
length_invalid n = ltb max_frame_length (6 + n) || ltb n 2

-- The loop at the end of `decode`, on the bytes from `dataIndex` on, and the copy of what is left
-- to `_residual`. A round consumes a frame, so `length rest` bounds the rounds.
decode_loop : ℕ → List ℕ → List Event × List ℕ
decode_loop zero rest = ([], rest)
decode_loop (suc fuel) rest =
    let n = be16 rest 4 in
    let more = decode_loop fuel (drop (6 + n) rest) in
    if ltb (length rest) 6
    then ([], take max_frame_length rest)
    else if not (byte_at rest 2 == 0) || not (byte_at rest 3 == 0)
    then (frame_error protocol_id_invalid (take max_frame_length rest) ∷ [], [])
    else if length_invalid n
    then (frame_error frame_length_invalid (take max_frame_length rest) ∷ [], [])
    else if ltb (length rest) (6 + n)
    then ([], take max_frame_length rest)
    else (frame (frame_of (take (6 + n) rest)) ∷ more.0, more.1)

pub decode_rest : List ℕ → List Event × List ℕ
decode_rest rest = decode_loop (suc (length rest)) rest

-- Byte `i` of the residual bytes with the new ones behind them, as in `b2` to `b5`.
peek : List ℕ → List ℕ → ℕ → ℕ
peek residual chunk i =
    if ltb i (length residual) then byte_at residual i else byte_at chunk (i - length residual)

-- `badRaw`, filled from both buffers.
bad_raw : List ℕ → List ℕ → List ℕ
bad_raw residual chunk =
    let total = length residual + length chunk in
    let raw_len = if ltb max_frame_length total then max_frame_length else total in
    residual ++ take (raw_len - length residual) chunk

-- `decode` where `_residualLen > 0`: the residual bytes are completed first.
decode_residual : List ℕ → List ℕ → List Event × List ℕ
decode_residual residual chunk =
    let n = peek residual chunk 4 * 256 + peek residual chunk 5 in
    let need = 6 + n - length residual in
    let more = decode_rest (drop need chunk) in
    if ltb (length residual + length chunk) 6
    then ([], residual ++ chunk)
    else if not (peek residual chunk 2 == 0) || not (peek residual chunk 3 == 0)
    then (frame_error protocol_id_invalid (bad_raw residual chunk) ∷ [], [])
    else if length_invalid n
    then (frame_error frame_length_invalid (bad_raw residual chunk) ∷ [], [])
    else if ltb (length chunk) need
    then ([], residual ++ chunk)
    else (frame (frame_of (residual ++ take need chunk)) ∷ more.0, more.1)

-- The fast path's test: the data is exactly one frame.
is_one_frame : List ℕ → Bool
is_one_frame chunk =
    let n = be16 chunk 4 in
    not (ltb (length chunk) 8)
    && (byte_at chunk 2 == 0)
    && (byte_at chunk 3 == 0)
    && (6 + n == length chunk)
    && not (ltb max_frame_length (6 + n))
    && not (ltb n 2)

pub decode : TcpLayer → List ℕ → List Event × TcpLayer
decode layer chunk =
    if (length layer.residual == 0) && is_one_frame chunk
    then (frame (frame_of chunk) ∷ [], layer)
    else let r =
        if ltb 0 (length layer.residual)
        then decode_residual layer.residual chunk
        else decode_rest chunk in
      (r.0, record { residual = r.1 })

-- Successive `data` events of the transport.
pub feed : TcpLayer → List (List ℕ) → List Event × TcpLayer
feed layer [] = ([], layer)
feed layer (chunk ∷ chunks) =
    let first = decode layer chunk in let rest = feed first.1 chunks in (first.0 ++ rest.0, rest.1)

-- `flush` drops the residual bytes.
pub flush : TcpLayer → TcpLayer
flush layer = record { residual = [] }

-- `encode`. A store to a Uint8Array keeps the low eight bits.
unfoldable pub encode : ℕ → ℕ → List ℕ → ℕ → List ℕ
encode unit fc payload transaction =
    let n = length payload + 2 in
    transaction / 256 % 256
    ∷ transaction % 256
    ∷ 0
    ∷ 0
    ∷ n / 256 % 256
    ∷ n % 256
    ∷ unit % 256
    ∷ fc % 256
    ∷ payload
