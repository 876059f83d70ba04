-- ===== src/Server/Download/Sent.antt =====
-- What the server puts on the stream of a download.
use irosh.Common.{
  ℕ, ◌≡◌, ◌⊎◌, inl, inr, refl, ◌∙◌, ap, sym, List, [], ◌∷◌, ◌++◌, Option, none, some, ok, err,
  ◌>>=◌, ◌>>◌, >>=_run, append_assoc, append-nil, arith,
}
use irosh.Stream.{Bytes}
use irosh.Transfer.Types.{TransferFrame, TransferFailure}
use irosh.Server.Paths.{PathBuf}
use irosh.Server.Host.{Host, Stream, answer, write, observe}
use irosh.Server.Context.{ShellContext, live, stateless}
use irosh.Server.Download.{Source, send_chunks, helper_failure, complete_with, stream_download}
use irosh.Client.{Reads, contents}
use irosh.Client.Upload.Sent.{arriving}
use irosh.Client.Download.Persisted.{downloaded}

module _ {World : Type 0} where
  answer_lem :
      (f : TransferFrame) (s : Stream World)
      → (answer f s).0 ≡ ok tt
      → ((answer f s).1.outgoing ≡ s.outgoing ++ (f ∷ [])) × ((answer f s).1.world ≡ s.world)
  unfolding answer write
  answer_lem f s h = ground arith

  -- The bytes of the file in chunks, and what an end behind them makes of them.
  record Chunks (reads : Reads) (s s' : Stream World) : Type 0 where
    bytes : Bytes
    frames : List TransferFrame
    whole : contents reads ≡ some bytes
    put : s'.outgoing ≡ s.outgoing ++ frames
    completed :
        (size : ℕ)
        → downloaded
            (arriving (frames ++ (TransferFrame.get_complete (record { size = size }) ∷ [])))
          ≡ some (bytes, size)
    failed :
        (f : TransferFailure)
        → downloaded (arriving (frames ++ (TransferFrame.error f ∷ []))) ≡ none

  send_chunks_lem :
      (host : Host World) (source : Source World) (reads : Reads) (s : Stream World)
      → (send_chunks host source reads s).0 ≡ ok tt
      → Chunks reads s (send_chunks host source reads s).1
  unfolding send_chunks contents downloaded
  send_chunks_lem host source [] s h = record {
    bytes = [];
    frames = [];
    whole = refl;
    put = sym (append-nil s.outgoing);
    completed = λ size. refl;
    failed = λ f. refl;
  }
  send_chunks_lem host source (ok [] ∷ rest) s h = record {
    bytes = [];
    frames = [];
    whole = refl;
    put = sym (append-nil s.outgoing);
    completed = λ size. refl;
    failed = λ f. refl;
  }
  send_chunks_lem host source (err e ∷ rest) s h = cc h
  send_chunks_lem host source (ok (b ∷ chunk) ∷ rest) s h =
      let f = TransferFrame.get_chunk (b ∷ chunk) in
      let (_, e, r) = >>=_run (answer f) (λ _. send_chunks host source rest) s h in
      let (out, _) = answer_lem f s e in
      let c = send_chunks_lem host source rest (answer f s).1 (ap (λ p. p.0) (sym r) ∙ h) in
      record {
        bytes = (b ∷ chunk) ++ c.bytes;
        frames = f ∷ c.frames;
        whole = rw (c.whole) refl;
        put =
            ap (λ p. p.1.outgoing) r
            ∙ c.put
            ∙ ap (λ o. o ++ c.frames) out
            ∙ append_assoc s.outgoing (f ∷ []) c.frames;
        completed = λ size. rw (c.completed size) refl;
        failed = λ g. rw (c.failed g) refl;
      }

  module _ (host : Host World) (source : Source World) where
    helper_failure-same :
        (context : ShellContext) (path : PathBuf) (s : Stream World)
        → (helper_failure host source context path s).1 ≡ s
    unfolding helper_failure
    helper_failure-same stateless path s = refl
    helper_failure-same (live pid) path s = ground arith

    -- The last frame: what the chunks before it come to.
    ended :
        (size : ℕ) (failed : Option TransferFailure) (s s₀ : Stream World) (reads : Reads)
        (c : Chunks reads s₀ s)
        → (complete_with host source size failed s).0 ≡ ok tt
        → (e : TransferFrame) × ((complete_with host source size failed s).1.outgoing
            ≡ s.outgoing ++ (e ∷ []))
          × ((downloaded (arriving (c.frames ++ (e ∷ []))) ≡ some (c.bytes, size))
              ⊎ (downloaded (arriving (c.frames ++ (e ∷ []))) ≡ none))
    unfolding complete_with
    ended size none s s₀ reads c h =
        let e = TransferFrame.get_complete (record { size = size }) in
        (e, (answer_lem e s h).0, inl (c.completed size))
    ended size (some f) s s₀ reads c h =
        let e = TransferFrame.error f in (e, (answer_lem e s h).0, inr (c.failed f))

    -- A download that the server has streamed to its end: GetReady with the size, the whole file in
    -- chunks, and the end, GetComplete with the size or the failure of the helper.
    pub stream_download-sends :
        (context : ShellContext) (path : PathBuf) (size : ℕ) (s : Stream World)
        → let (r, s') = stream_download host source context path size s in
          r ≡ ok tt
          → (bytes : Bytes) × (frames : List TransferFrame) × (contents (source.reads path s.world)
              ≡ some bytes)
            × (s'.outgoing
                ≡ s.outgoing
                  ++ (TransferFrame.get_ready (record { size = size; mode = none }) ∷ frames))
            × ((downloaded (arriving frames) ≡ some (bytes, size))
                ⊎ (downloaded (arriving frames) ≡ none))
    unfolding stream_download
    stream_download-sends context path size s h =
        let hello = TransferFrame.get_ready (record { size = size; mode = none }) in
        let finishing =
          helper_failure host source context path >>= complete_with host source size in
        let (_, e₁, r₁) =
          >>=_run (answer hello)
            (λ _.
              observe (source.reads path) >>= λ reads. send_chunks host source reads >> finishing)
            s h in
        let (out, same) = answer_lem hello s e₁ in
        let s₁ = (answer hello s).1 in
        let reads = source.reads path s₁.world in
        let (_, e₂, r₂) =
          >>=_run (send_chunks host source reads) (λ _. finishing) s₁
            (ap (λ p. p.0) (sym r₁) ∙ h) in
        let c = send_chunks_lem host source reads s₁ e₂ in
        let s₂ = (send_chunks host source reads s₁).1 in
        let (failed, e₃, r₃) =
          >>=_run (helper_failure host source context path) (complete_with host source size) s₂
            (ap (λ p. p.0) (sym (r₁ ∙ r₂)) ∙ h) in
        let whole =
          r₁
          ∙ r₂
          ∙ r₃
          ∙ ap (complete_with host source size failed) (helper_failure-same context path s₂) in
        let (e, last, shape) = ended size failed s₂ s₁ reads c (ap (λ p. p.0) (sym whole) ∙ h) in
        (
          c.bytes,
          c.frames ++ (e ∷ []),
          ap (λ w. contents (source.reads path w)) (sym same) ∙ c.whole,
          ap (λ p. p.1.outgoing) whole
              ∙ last
              ∙ ap (λ o. o ++ (e ∷ [])) (c.put ∙ ap (λ o. o ++ c.frames) out)
              ∙ ap (λ o. o ++ (e ∷ [])) (append_assoc s.outgoing (hello ∷ []) c.frames)
              ∙ append_assoc s.outgoing (hello ∷ c.frames) (e ∷ []),
          shape,
        )
