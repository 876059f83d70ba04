-- ===== src/Transfer/Codec/Reader.antt =====
-- src/transport/transfer/codec/reader.rs: the frame decoder, and a reader for each frame.
use irosh.Common.{
  ℕ, ◌||◌, Bool, [], Result, ok, err, Action, ◌>>=◌, ◌>>◌, lift, pure, throw, ◌==◌, list_eq, length,
  take, drop, replicate, ltb, ◌++◌, ◌-◌, if◌then◌else◌,
}
use irosh.Stream.{Bytes, unexpected_eof, read_exact, read_u8, read_u32}
use irosh.Transfer.Types.{
  TransferError, io, invalid_magic, unsupported_version, unsupported_kind, unexpected_kind, Serde,
  Json, PutRequest, GetRequest, TransferReady, TransferComplete, TransferFailure, ExistsRequest,
  ExistsResponse, TransferFrame,
}
use irosh.Transfer.Codec.{Io, magic, version, validate_payload_limit}
use irosh.Transfer.Codec.Kind
use irosh.Transfer.Codec.Writer.{from_json}

-- The `matches!` of `read_frame`.
unfoldable pub is_known_kind : ℕ → Bool
is_known_kind kind =
    kind == Kind.put_request
    || kind == Kind.put_ready
    || kind == Kind.put_chunk
    || kind == Kind.put_complete
    || kind == Kind.get_request
    || kind == Kind.get_ready
    || kind == Kind.get_chunk
    || kind == Kind.get_complete
    || kind == Kind.error
    || kind == Kind.cwd_request
    || kind == Kind.cwd_response
    || kind == Kind.exists_request
    || kind == Kind.exists_response
    || kind == Kind.new_entry
    || kind == Kind.entry_complete
    || kind == Kind.completion_request
    || kind == Kind.completion_response
    || kind == Kind.blob_put_request
    || kind == Kind.blob_get_request
    || kind == Kind.blob_get_ready

unfoldable pub read_frame : Io (ℕ × Bytes)
unfolding validate_payload_limit read_u8 read_u32
read_frame = do
  found ← read_exact io 4
  if list_eq found magic then pure tt else throw invalid_magic
  v ← read_u8 io
  if v == version then pure tt else throw (unsupported_version v)
  kind ← read_u8 io
  if is_known_kind kind then pure tt else throw (unsupported_kind kind)
  length ← read_u32 io
  lift (validate_payload_limit kind length)
  payload ← read_exact io length
  pure (kind, payload)

-- The reader beside the caller's buffer.
abbrev pub Buffered : Type 0 → Type 0
Buffered A = Action (Bytes × Bytes) TransferError A

abbrev pub on_reader : {A : Type 0} → Io A → Buffered A
on_reader m (s, buf) = let (r, s') = m s in (r, (s', buf))

-- `buf.resize(length, 0)`
abbrev pub resize : ℕ → Bytes → Bytes
resize n buf = take n (buf ++ replicate (n - length buf) 0)

-- `read_exact(&mut buf[..])`: at an early end, what was there has overwritten the front.
unfoldable pub read_exact_buf : Buffered (Unit {0})
read_exact_buf (s, buf) =
    if ltb (length s) (length buf)
    then (err (io unexpected_eof), ([], s ++ drop (length s) buf))
    else (ok tt, (drop (length buf) s, take (length buf) s))

abbrev resize_buf : ℕ → Buffered (Unit {0})
resize_buf n (s, buf) = (ok tt, (s, resize n buf))

-- `&buf[..]`
abbrev borrow_buf : Buffered Bytes
borrow_buf (s, buf) = (ok buf, (s, buf))

unfoldable pub read_frame_into : Buffered (ℕ × Bytes)
unfolding validate_payload_limit read_u8 read_u32
read_frame_into = do
  found ← on_reader (read_exact io 4)
  if list_eq found magic then pure tt else throw invalid_magic
  v ← on_reader (read_u8 io)
  if v == version then pure tt else throw (unsupported_version v)
  kind ← on_reader (read_u8 io)
  if is_known_kind kind then pure tt else throw (unsupported_kind kind)
  length ← on_reader (read_u32 io)
  lift (validate_payload_limit kind length)
  resize_buf length
  read_exact_buf
  payload ← borrow_buf
  pure (kind, payload)

unfoldable pub read_json_frame : {A : Type 0} → Serde A → ℕ → Io A
read_json_frame s expected = do
  (kind, payload) ← read_frame
  if kind == expected then pure tt else throw (unexpected_kind expected kind)
  lift (from_json (s.from_slice payload))

pub data TransferFrameBorrowed : Type 0 where
  put_chunk get_chunk : Bytes → TransferFrameBorrowed
  owned : TransferFrame → TransferFrameBorrowed

-- `Ok(TransferFrame::X(serde_json::from_slice(payload)?))`
abbrev pub decode_as :
    {A : Type 0} → Serde A → (A → TransferFrame) → Bytes → Result TransferError TransferFrame
decode_as s frame payload = elim (from_json (s.from_slice payload)) [
  | ok a ↦ ok (frame a)
  | err e ↦ err e
]

-- `read_put_chunk` and `read_get_chunk` test the kind of a frame that was read.
module _ (expected : ℕ) where
  unfoldable pub read_chunk : Io Bytes
  read_chunk = do
    (kind, payload) ← read_frame
    if kind == expected then pure tt else throw (unexpected_kind expected kind)
    pure payload

unfoldable pub read_put_chunk : Io Bytes
unfolding read_chunk
read_put_chunk = read_chunk Kind.put_chunk

unfoldable pub read_get_chunk : Io Bytes
unfolding read_chunk
read_get_chunk = read_chunk Kind.get_chunk

module _ (j : Json) where
  unfoldable pub decode_frame : ℕ → Bytes → Result TransferError TransferFrame
  decode_frame kind payload =
      if kind == Kind.put_request
      then decode_as j.put_request TransferFrame.put_request payload
      else if kind == Kind.put_ready
      then decode_as j.ready TransferFrame.put_ready payload
      else if kind == Kind.put_complete
      then decode_as j.complete TransferFrame.put_complete payload
      else if kind == Kind.get_request
      then decode_as j.get_request TransferFrame.get_request payload
      else if kind == Kind.get_ready
      then decode_as j.ready TransferFrame.get_ready payload
      else if kind == Kind.get_complete
      then decode_as j.complete TransferFrame.get_complete payload
      else if kind == Kind.cwd_request
      then decode_as j.cwd_request TransferFrame.cwd_request payload
      else if kind == Kind.cwd_response
      then decode_as j.cwd_response TransferFrame.cwd_response payload
      else if kind == Kind.exists_request
      then decode_as j.exists_request TransferFrame.exists_request payload
      else if kind == Kind.exists_response
      then decode_as j.exists_response TransferFrame.exists_response payload
      else if kind == Kind.completion_request
      then decode_as j.completion_request TransferFrame.completion_request payload
      else if kind == Kind.completion_response
      then decode_as j.completion_response TransferFrame.completion_response payload
      else if kind == Kind.blob_put_request
      then decode_as j.blob_put_request TransferFrame.blob_put_request payload
      else if kind == Kind.blob_get_request
      then decode_as j.blob_get_request TransferFrame.blob_get_request payload
      else if kind == Kind.blob_get_ready
      then decode_as j.blob_get_ready TransferFrame.blob_get_ready payload
      else if kind == Kind.new_entry
      then decode_as j.entry_header TransferFrame.new_entry payload
      else if kind == Kind.entry_complete
      then decode_as j.entry_complete TransferFrame.entry_complete payload
      else if kind == Kind.error
      then decode_as j.failure TransferFrame.error payload
      else err (unsupported_kind kind)

  -- The `match` of `read_next_frame_into`.
  unfoldable pub borrow_frame : ℕ → Bytes → Result TransferError TransferFrameBorrowed
  borrow_frame kind payload =
      if kind == Kind.put_chunk
      then ok (put_chunk payload)
      else if kind == Kind.get_chunk
      then ok (get_chunk payload)
      else elim (decode_frame kind payload) [ ok frame ↦ ok (owned frame) | err e ↦ err e ]

  unfoldable pub read_next_frame_into : Buffered TransferFrameBorrowed
  read_next_frame_into = do (kind, payload) ← read_frame_into; lift (borrow_frame kind payload)

  -- `to_vec` copies a slice.
  abbrev pub to_owned : TransferFrameBorrowed → TransferFrame
  to_owned (put_chunk payload) = TransferFrame.put_chunk payload
  to_owned (get_chunk payload) = TransferFrame.get_chunk payload
  to_owned (owned frame) = frame

  unfoldable pub read_next_frame : Io TransferFrame
  read_next_frame s =
      let (r, (s', buf)) = read_next_frame_into (s, []) in
      (elim r [ ok f ↦ ok (to_owned f) | err e ↦ err e ], s')

  unfoldable pub read_put_request : Io PutRequest
  read_put_request = read_json_frame j.put_request Kind.put_request

  unfoldable pub read_put_ready : Io TransferReady
  read_put_ready = read_json_frame j.ready Kind.put_ready

  unfoldable pub read_put_complete : Io TransferComplete
  read_put_complete = read_json_frame j.complete Kind.put_complete

  unfoldable pub read_get_request : Io GetRequest
  read_get_request = read_json_frame j.get_request Kind.get_request

  unfoldable pub read_get_ready : Io TransferReady
  read_get_ready = read_json_frame j.ready Kind.get_ready

  unfoldable pub read_get_complete : Io TransferComplete
  read_get_complete = read_json_frame j.complete Kind.get_complete

  unfoldable pub read_transfer_error : Io TransferFailure
  read_transfer_error = read_json_frame j.failure Kind.error

  unfoldable pub read_exists_request : Io ExistsRequest
  read_exists_request = read_json_frame j.exists_request Kind.exists_request

  unfoldable pub read_exists_response : Io ExistsResponse
  read_exists_response = read_json_frame j.exists_response Kind.exists_response
