-- ===== src/Client/Upload/Sent.antt =====
-- What an upload that succeeded has put on its stream.
use irosh.Common.{
  ℕ, ◌+◌, ◌%◌, ◌^◌, ◌<◌, ◌≡◌, refl, ◌∙◌, ap, sym, List, [], ◌∷◌, ◌++◌, some, Result, ok, err, ◌>>=◌,
  >>=_inv, >>=_ok, >>=_run, length, length-append, map, append_assoc, append-nil, arith, inl, inr,
  Bool-cases, is_empty, ok_inj,
}
use irosh.Stream.{Bytes}
use irosh.Transfer.Types.{Text, TransferFrame, TransferError}
use irosh.Server.Host.{Stream, write, read_next_frame}
use irosh.Server.Upload.Receive.{uploaded}
use irosh.Client.{Reads, contents, send, next_frame}
use irosh.Client.Upload.{
  LocalFile, request_for, send_chunks, check_ready, check_complete, send_file, close, proceed,
  exchange, upload_file,
}

-- The frames as the other side reads them.
abbrev pub arriving : List TransferFrame → List (Result TransferError TransferFrame)
arriving fs = map ok fs

module _ {World : Type 0} where
  pub send_lem :
      (f : TransferFrame) (s : Stream World)
      → (send f s).0 ≡ ok tt
      → ((send f s).1.outgoing ≡ s.outgoing ++ (f ∷ [])) × ((send f s).1.incoming ≡ s.incoming)
  unfolding send write
  send_lem f s h = ground arith

  -- The bytes of the file, in chunks that a `PutComplete` turns into an upload of them.
  record Chunks (reads : Reads) (sent n : ℕ) (s s' : Stream World) : Type 0 where
    bytes : Bytes
    frames : List TransferFrame
    whole : contents reads ≡ some bytes
    counted : n ≡ (sent + length bytes) % 2 ^ 64
    put : s'.outgoing ≡ s.outgoing ++ frames
    kept : s'.incoming ≡ s.incoming
    upload :
        (size : ℕ)
        → uploaded (arriving (frames ++ (TransferFrame.put_complete (record { size = size }) ∷ [])))
          ≡ some (bytes, size)

  send_chunks_lem :
      (reads : Reads) (sent n : ℕ) (s : Stream World)
      → sent < 2 ^ 64
      → (send_chunks reads sent s).0 ≡ ok n
      → Chunks reads sent n s (send_chunks reads sent s).1
  unfolding send_chunks contents uploaded
  send_chunks_lem [] sent n s bound h = record {
    bytes = [];
    frames = [];
    whole = refl;
    counted = omega (arith, bound, ok_inj h);
    put = sym (append-nil s.outgoing);
    kept = refl;
    upload = λ size. refl;
  }
  send_chunks_lem (ok [] ∷ rest) sent n s bound h = record {
    bytes = [];
    frames = [];
    whole = refl;
    counted = omega (arith, bound, ok_inj h);
    put = sym (append-nil s.outgoing);
    kept = refl;
    upload = λ size. refl;
  }
  send_chunks_lem (err e ∷ rest) sent n s bound h = cc
  send_chunks_lem (ok (b ∷ chunk) ∷ rest) sent n s bound h =
      let f = TransferFrame.put_chunk (b ∷ chunk) in
      let more = (sent + length (b ∷ chunk)) % 2 ^ 64 in
      let (_, e₁, e₂) = >>=_inv (send f) (λ _. send_chunks rest more) s h in
      let (out, inc) = send_lem f s e₁ in
      let c = send_chunks_lem rest more n (send f s).1 (omega arith) e₂ in
      let run : (send_chunks (ok (b ∷ chunk) ∷ rest) sent s).1
          ≡ (send_chunks rest more (send f s).1).1 =
        ap (λ p. p.1)
          (>>=_ok (send f) (λ _. send_chunks rest more) s (λ i. (e₁ i, (send f s).1))) in
      record {
        bytes = (b ∷ chunk) ++ c.bytes;
        frames = f ∷ c.frames;
        whole = rw (c.whole) refl;
        counted = omega (arith, c.counted, length-append (b ∷ chunk) c.bytes);
        put =
            ap (λ t. t.outgoing) run
            ∙ c.put
            ∙ ap (λ o. o ++ c.frames) out
            ∙ append_assoc s.outgoing (f ∷ []) c.frames;
        kept = ap (λ t. t.incoming) run ∙ c.kept ∙ inc;
        upload = λ size. rw (c.upload size) refl;
      }

  -- The next answer, and what is left after it.
  next_frame_lem :
      (s : Stream World) (f : TransferFrame)
      → (next_frame s).0 ≡ ok f
      → (s.incoming ≡ ok f ∷ (next_frame s).1.incoming) × ((next_frame s).1.outgoing ≡ s.outgoing)
  unfolding next_frame read_next_frame
  next_frame_lem s f h = ground arith

  check_ready_lem : (size : ℕ) (f : TransferFrame) (s : Stream World) → (check_ready size f s).1 ≡ s
  unfolding check_ready
  check_ready_lem size (TransferFrame.put_ready ready) s = ground arith
  check_ready_lem size (TransferFrame.error failure) s = refl
  check_ready_lem size f s = refl

  -- A completion that is accepted reports the number of bytes sent.
  check_complete_lem :
      (sent : ℕ) (f : TransferFrame) (s : Stream World)
      → (check_complete sent f s).0 ≡ ok tt
      → f ≡ TransferFrame.put_complete (record { size = sent })
  unfolding check_complete
  check_complete_lem sent (TransferFrame.put_complete complete) s h = ground arith
  check_complete_lem sent (TransferFrame.error failure) s h = cc
  check_complete_lem sent f s h = cc

  check_complete-same :
      (sent : ℕ) (f : TransferFrame) (s : Stream World) → (check_complete sent f s).1 ≡ s
  unfolding check_complete
  check_complete-same sent (TransferFrame.put_complete complete) s = ground arith
  check_complete-same sent (TransferFrame.error failure) s = refl
  check_complete-same sent f s = refl

  -- What a client that was told of the success of its upload has seen and sent.
  pub record Sent (file : LocalFile) (remote : Text) (s s' : Stream World) : Type 0 where
    pub bytes : Bytes
    pub frames : List TransferFrame
    pub ready : Result TransferError TransferFrame
    pub whole : contents file.reads ≡ some bytes
    pub put :
        s'.outgoing ≡ s.outgoing ++ (TransferFrame.put_request (request_for file remote) ∷ frames)
    pub upload : uploaded (arriving frames) ≡ some (bytes, length bytes % 2 ^ 64)
    pub answered :
        s.incoming
        ≡ ready
          ∷ ok (TransferFrame.put_complete (record { size = length bytes % 2 ^ 64 }))
          ∷ s'.incoming

  send_file_lem :
      (reads : Reads) (s : Stream World)
      → (send_file reads s).0 ≡ ok tt
      → (bytes : Bytes) × (frames : List TransferFrame) × (contents reads ≡ some bytes)
        × ((send_file reads s).1.outgoing ≡ s.outgoing ++ frames)
        × (uploaded (arriving frames) ≡ some (bytes, length bytes % 2 ^ 64))
        × (s.incoming
            ≡ ok (TransferFrame.put_complete (record { size = length bytes % 2 ^ 64 }))
              ∷ (send_file reads s).1.incoming)
  unfolding send_file
  send_file_lem reads s h =
      let chunked = send_chunks reads 0 in
      let (sent, e₁, r₁) = >>=_run chunked close s h in
      let c = send_chunks_lem reads 0 sent s (omega arith) e₁ in
      let s₁ = (chunked s).1 in
      let last = TransferFrame.put_complete (record { size = sent }) in
      let (_, e₂, r₂) =
        >>=_run (send last) (λ _. next_frame >>= check_complete sent) s₁
          (ap (λ p. p.0) (sym r₁) ∙ h) in
      let (out, inc) = send_lem last s₁ e₂ in
      let s₂ = (send last s₁).1 in
      let (f, e₃, r₃) =
        >>=_run next_frame (check_complete sent) s₂ (ap (λ p. p.0) (sym (r₁ ∙ r₂)) ∙ h) in
      let (inc', out') = next_frame_lem s₂ f e₃ in
      let s₃ = (next_frame s₂).1 in
      let done = check_complete_lem sent f s₃ (ap (λ p. p.0) (sym (r₁ ∙ r₂ ∙ r₃)) ∙ h) in
      let end : (send_file reads s).1 ≡ s₃ =
        ap (λ p. p.1) (r₁ ∙ r₂ ∙ r₃) ∙ check_complete-same sent f s₃ in
      let size : sent ≡ length c.bytes % 2 ^ 64 = omega (arith, c.counted) in
      (
        c.bytes,
        c.frames ++ (last ∷ []),
        c.whole,
        ap (λ t. t.outgoing) end
            ∙ out'
            ∙ out
            ∙ ap (λ o. o ++ (last ∷ [])) c.put
            ∙ append_assoc s.outgoing c.frames (last ∷ []),
        c.upload sent ∙ ap (λ n. some (c.bytes, n)) size,
        sym c.kept
            ∙ sym inc
            ∙ inc'
            ∙ ap (λ g. ok g ∷ s₃.incoming)
                (done ∙ ap (λ n. TransferFrame.put_complete (record { size = n })) size)
            ∙ ap
                (λ t.
                  ok (TransferFrame.put_complete (record { size = length c.bytes % 2 ^ 64 }))
                  ∷ t.incoming)
                (sym end),
      )

  Sent-after :
      (file : LocalFile) (remote : Text) (s : Stream World)
      → (exchange file remote s).0 ≡ ok tt
      → Sent file remote s (exchange file remote s).1
  Sent-after file remote s h =
      let asked = TransferFrame.put_request (request_for file remote) in
      let (_, e₁, r₁) = >>=_run (send asked) (λ _. next_frame >>= proceed file) s h in
      let (out, inc) = send_lem asked s e₁ in
      let s₁ = (send asked s).1 in
      let (f, e₂, r₂) = >>=_run next_frame (proceed file) s₁ (ap (λ p. p.0) (sym r₁) ∙ h) in
      let (inc', out') = next_frame_lem s₁ f e₂ in
      let s₂ = (next_frame s₁).1 in
      let (_, e₃, r₃) =
        >>=_run (check_ready file.len f) (λ _. send_file file.reads) s₂
          (ap (λ p. p.0) (sym (r₁ ∙ r₂)) ∙ h) in
      let r : exchange file remote s ≡ send_file file.reads s₂ =
        r₁ ∙ r₂ ∙ r₃ ∙ ap (send_file file.reads) (check_ready_lem file.len f s₂) in
      let (bytes, frames, whole, put, upload, told) =
        send_file_lem file.reads s₂ (ap (λ p. p.0) (sym r) ∙ h) in
      record {
        bytes = bytes;
        frames = frames;
        ready = ok f;
        whole = whole;
        put =
            ap (λ p. p.1.outgoing) r
            ∙ put
            ∙ ap (λ o. o ++ frames) (out' ∙ out)
            ∙ append_assoc s.outgoing (asked ∷ []) frames;
        upload = upload;
        answered =
            sym inc
            ∙ inc'
            ∙ ap (λ l. ok f ∷ l)
                (told
                  ∙ ap
                      (λ p.
                        ok (TransferFrame.put_complete (record { size = length bytes % 2 ^ 64 }))
                        ∷ p.1.incoming)
                      (sym r));
      }

  pub upload_file-Sent :
      (file : LocalFile) (remote : Text) (s : Stream World)
      → (upload_file file remote s).0 ≡ ok tt
      → Sent file remote s (upload_file file remote s).1
  unfolding upload_file
  upload_file-Sent file remote s h = elim (Bool-cases (is_empty remote)) [
    | inl e ↦ cc h
    | inr e ↦ rw e (Sent-after file remote s (rw e at h))
  ]
