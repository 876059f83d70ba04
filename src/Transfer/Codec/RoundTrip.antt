-- ===== src/Transfer/Codec/RoundTrip.antt =====
-- What the writers of writer.rs put on a stream, `read_next_frame` of reader.rs takes off it.
use irosh.Common.{
  ℕ, ◌≤◌, ◌≡◌, refl, ◌∙◌, inl, inr, [], ◌++◌, ok, err, length, if◌then◌else◌, arith, true,
  Result-cases, Result, ◌==◌, >>=_ok, lift,
}
use irosh.Stream.{Bytes}
use irosh.Transfer.Types.{TransferError, TransferFrame, Json, Serde}
use irosh.Transfer.Codec.{Io, payload_limit, write_frame}
use irosh.Transfer.Codec.Kind
use irosh.Transfer.Codec.Frames.{frame, write_frame_lem, read_frame-frame}
use irosh.Transfer.Codec.Buffers.{read_frame_into-eq}
use irosh.Transfer.Codec.Writer.{from_json, write_json_frame, write_put_chunk, write_get_chunk}
use irosh.Transfer.Codec.Writer
use irosh.Transfer.Codec.Reader.{
  is_known_kind, read_frame, read_frame_into, decode_frame, read_next_frame_into, read_next_frame,
  decode_as, borrow_frame, to_owned,
}

-- The writer of a frame.
module _ (j : Json) where
  unfoldable pub send : TransferFrame → Io (Unit {0})
  unfolding write_put_chunk write_get_chunk Writer.write_put_request Writer.write_put_ready
      Writer.write_put_complete Writer.write_get_request Writer.write_get_ready
      Writer.write_get_complete Writer.write_cwd_request Writer.write_cwd_response
      Writer.write_exists_request Writer.write_exists_response Writer.write_completion_request
      Writer.write_completion_response Writer.write_blob_put_request Writer.write_blob_get_request
      Writer.write_blob_get_ready Writer.write_new_entry Writer.write_entry_complete
      Writer.write_transfer_error
  send (TransferFrame.put_chunk payload) = write_put_chunk payload
  send (TransferFrame.get_chunk payload) = write_get_chunk payload
  send (TransferFrame.put_request x) = Writer.write_put_request j x
  send (TransferFrame.put_ready x) = Writer.write_put_ready j x
  send (TransferFrame.put_complete x) = Writer.write_put_complete j x
  send (TransferFrame.get_request x) = Writer.write_get_request j x
  send (TransferFrame.get_ready x) = Writer.write_get_ready j x
  send (TransferFrame.get_complete x) = Writer.write_get_complete j x
  send (TransferFrame.cwd_request x) = Writer.write_cwd_request j x
  send (TransferFrame.cwd_response x) = Writer.write_cwd_response j x
  send (TransferFrame.exists_request x) = Writer.write_exists_request j x
  send (TransferFrame.exists_response x) = Writer.write_exists_response j x
  send (TransferFrame.completion_request x) = Writer.write_completion_request j x
  send (TransferFrame.completion_response x) = Writer.write_completion_response j x
  send (TransferFrame.blob_put_request x) = Writer.write_blob_put_request j x
  send (TransferFrame.blob_get_request x) = Writer.write_blob_get_request j x
  send (TransferFrame.blob_get_ready x) = Writer.write_blob_get_ready j x
  send (TransferFrame.new_entry x) = Writer.write_new_entry j x
  send (TransferFrame.entry_complete x) = Writer.write_entry_complete j x
  send (TransferFrame.error x) = Writer.write_transfer_error j x

-- A writer that succeeds has appended one frame.
write_frame_inv :
    (kind : ℕ) (payload out : Bytes) {out' : Bytes}
    → write_frame kind payload out ≡ (ok tt, out')
    → (out' ≡ out ++ frame kind payload) × (length payload ≤ payload_limit kind)
write_frame_inv kind payload out h = ground (arith, write_frame_lem kind payload out)

pub write_json_frame_inv :
    {A : Type 0} (s : Serde A) (kind : ℕ) (a : A) (out : Bytes) {out' : Bytes}
    → write_json_frame s kind a out ≡ (ok tt, out')
    → (payload : Bytes) × (s.from_slice payload ≡ ok a)
      × (out' ≡ out ++ frame kind payload)
      × (length payload ≤ payload_limit kind)
unfolding write_json_frame
write_json_frame_inv s kind a out h = elim (Result-cases (s.to_vec a)) [
  | inl (payload, e) ↦
      let (laid, fits) = write_frame_inv kind payload out (rw e at h) in
      (payload, s.from_slice-to_vec a payload e, laid, fits)
  | inr (x, e) ↦ cc (rw e at h)
]

-- What `read_next_frame` makes of a frame that was read.
module _ (j : Json) where
  unfoldable pub frame_of : ℕ → Bytes → Result TransferError TransferFrame
  frame_of kind payload =
      if kind == Kind.put_chunk
      then ok (TransferFrame.put_chunk payload)
      else if kind == Kind.get_chunk
      then ok (TransferFrame.get_chunk payload)
      else decode_frame j kind payload

  to_owned-borrow_frame :
      (kind : ℕ) (payload : Bytes)
      → ◌≡◌ {A = Result TransferError TransferFrame}
          (elim (borrow_frame j kind payload) [ ok f ↦ ok (to_owned j f) | err e ↦ err e ])
          (frame_of kind payload)
  unfolding borrow_frame frame_of
  to_owned-borrow_frame kind payload = ground arith

  read_next_frame_into_lem :
      (s buf : Bytes) {kind : ℕ} {payload rest : Bytes}
      → read_frame_into (s, []) ≡ (ok (kind, payload), (rest, buf))
      → read_next_frame_into j (s, []) ≡ (borrow_frame j kind payload, (rest, buf))
  unfolding read_next_frame_into
  read_next_frame_into_lem s buf e =
      >>=_ok read_frame_into (λ p. lift (borrow_frame j p.0 p.1)) (s, []) e

  pub read_next_frame_lem :
      (s : Bytes) {kind : ℕ} {payload rest : Bytes}
      → read_frame s ≡ (ok (kind, payload), rest)
      → read_next_frame j s ≡ (frame_of kind payload, rest)
  unfolding read_next_frame
  read_next_frame_lem s {kind} {payload} {rest} h =
      let same = read_frame_into-eq s [] ∙ h in
      let buf = (read_frame_into (s, [])).1.1 in
      let e = read_next_frame_into_lem s buf (λ i. ((same i).0, ((same i).1, buf))) in
      rw (e, to_owned-borrow_frame kind payload)

  json_sent :
      {A : Type 0} (s : Serde A) (kind : ℕ) (f : A → TransferFrame) (a : A) {sent : Bytes}
      (rest : Bytes)
      → is_known_kind kind ≡ true
      → ((payload : Bytes) → frame_of kind payload ≡ decode_as s f payload)
      → write_json_frame s kind a [] ≡ (ok tt, sent)
      → read_next_frame j (sent ++ rest) ≡ (ok (f a), rest)
  json_sent s kind f a {sent} rest known decodes h =
      let (payload, text, laid, fits) = write_json_frame_inv s kind a [] h in
      rw (
        laid,
        read_next_frame_lem (frame kind payload ++ rest)
            (read_frame-frame kind payload rest known fits),
        decodes payload,
        text,
        decode_as,
      )

  chunk_sent :
      (kind : ℕ) (f : Bytes → TransferFrame) (payload : Bytes) {sent : Bytes} (rest : Bytes)
      → is_known_kind kind ≡ true
      → frame_of kind payload ≡ ok (f payload)
      → write_frame kind payload [] ≡ (ok tt, sent)
      → read_next_frame j (sent ++ rest) ≡ (ok (f payload), rest)
  chunk_sent kind f payload {sent} rest known decodes h =
      let (laid, fits) = write_frame_inv kind payload [] h in
      rw (
        laid,
        read_next_frame_lem (frame kind payload ++ rest)
            (read_frame-frame kind payload rest known fits),
        decodes,
      )

  -- Whichever frame its writer put on the stream, `read_next_frame` returns that frame and leaves
  -- what stands behind it.
  pub read_next_frame-send :
      (f : TransferFrame) (sent rest : Bytes)
      → send j f [] ≡ (ok tt, sent)
      → read_next_frame j (sent ++ rest) ≡ (ok f, rest)
  unfolding send frame_of decode_frame is_known_kind
  read_next_frame-send (TransferFrame.put_chunk payload) sent rest h =
      chunk_sent Kind.put_chunk TransferFrame.put_chunk payload rest refl refl h
  read_next_frame-send (TransferFrame.get_chunk payload) sent rest h =
      chunk_sent Kind.get_chunk TransferFrame.get_chunk payload rest refl refl h
  read_next_frame-send (TransferFrame.put_request x) sent rest h =
      json_sent j.put_request Kind.put_request TransferFrame.put_request x rest refl (λ p. refl) h
  read_next_frame-send (TransferFrame.put_ready x) sent rest h =
      json_sent j.ready Kind.put_ready TransferFrame.put_ready x rest refl (λ p. refl) h
  read_next_frame-send (TransferFrame.put_complete x) sent rest h =
      json_sent j.complete Kind.put_complete TransferFrame.put_complete x rest refl (λ p. refl) h
  read_next_frame-send (TransferFrame.get_request x) sent rest h =
      json_sent j.get_request Kind.get_request TransferFrame.get_request x rest refl (λ p. refl) h
  read_next_frame-send (TransferFrame.get_ready x) sent rest h =
      json_sent j.ready Kind.get_ready TransferFrame.get_ready x rest refl (λ p. refl) h
  read_next_frame-send (TransferFrame.get_complete x) sent rest h =
      json_sent j.complete Kind.get_complete TransferFrame.get_complete x rest refl (λ p. refl) h
  read_next_frame-send (TransferFrame.cwd_request x) sent rest h =
      json_sent j.cwd_request Kind.cwd_request TransferFrame.cwd_request x rest refl (λ p. refl) h
  read_next_frame-send (TransferFrame.cwd_response x) sent rest h =
      json_sent j.cwd_response Kind.cwd_response TransferFrame.cwd_response x rest refl (λ p. refl)
        h
  read_next_frame-send (TransferFrame.exists_request x) sent rest h =
      json_sent j.exists_request Kind.exists_request TransferFrame.exists_request x rest refl
        (λ p. refl) h
  read_next_frame-send (TransferFrame.exists_response x) sent rest h =
      json_sent j.exists_response Kind.exists_response TransferFrame.exists_response x rest refl
        (λ p. refl) h
  read_next_frame-send (TransferFrame.completion_request x) sent rest h =
      json_sent j.completion_request Kind.completion_request TransferFrame.completion_request x rest
        refl (λ p. refl) h
  read_next_frame-send (TransferFrame.completion_response x) sent rest h =
      json_sent j.completion_response Kind.completion_response TransferFrame.completion_response x
        rest refl (λ p. refl) h
  read_next_frame-send (TransferFrame.blob_put_request x) sent rest h =
      json_sent j.blob_put_request Kind.blob_put_request TransferFrame.blob_put_request x rest refl
        (λ p. refl) h
  read_next_frame-send (TransferFrame.blob_get_request x) sent rest h =
      json_sent j.blob_get_request Kind.blob_get_request TransferFrame.blob_get_request x rest refl
        (λ p. refl) h
  read_next_frame-send (TransferFrame.blob_get_ready x) sent rest h =
      json_sent j.blob_get_ready Kind.blob_get_ready TransferFrame.blob_get_ready x rest refl
        (λ p. refl) h
  read_next_frame-send (TransferFrame.new_entry x) sent rest h =
      json_sent j.entry_header Kind.new_entry TransferFrame.new_entry x rest refl (λ p. refl) h
  read_next_frame-send (TransferFrame.entry_complete x) sent rest h =
      json_sent j.entry_complete Kind.entry_complete TransferFrame.entry_complete x rest refl
        (λ p. refl) h
  read_next_frame-send (TransferFrame.error x) sent rest h =
      json_sent j.failure Kind.error TransferFrame.error x rest refl (λ p. refl) h
