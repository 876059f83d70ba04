-- ===== src/Transfer/Codec/Sequence.antt =====
-- Several frames written one after the other are read back in their order.
use irosh.Common.{
  ℕ, zero, suc, ◌≡◌, refl, ◌∙◌, ap, sym, inl, inr, List, [], ◌∷◌, ◌++◌, ok, err, length, arith,
  append_assoc, append-nil, Result-cases, ◌>>=◌, ◌>>◌, pure, >>=_ok, >>=_err,
}
use irosh.Stream.{Bytes}
use irosh.Transfer.Types.{TransferFrame, Json, Serde}
use irosh.Transfer.Codec.{Io, write_frame}
use irosh.Transfer.Codec.Kind
use irosh.Transfer.Codec.Frames.{write_frame_lem}
use irosh.Transfer.Codec.Writer.{write_json_frame}
use irosh.Transfer.Codec.Reader.{read_next_frame}
use irosh.Transfer.Codec.RoundTrip.{send, read_next_frame-send}

write_frame-append :
    (kind : ℕ) (payload out : Bytes)
    → write_frame kind payload out
      ≡ ((write_frame kind payload []).0, out ++ (write_frame kind payload []).1)
write_frame-append kind payload out =
    ground
      (arith, write_frame_lem kind payload out, write_frame_lem kind payload [], append-nil out)

write_json_frame-append :
    {A : Type 0} (s : Serde A) (kind : ℕ) (a : A) (out : Bytes)
    → write_json_frame s kind a out
      ≡ ((write_json_frame s kind a []).0, out ++ (write_json_frame s kind a []).1)
unfolding write_json_frame
write_json_frame-append s kind a out = elim (Result-cases (s.to_vec a)) [
  | inl (payload, e) ↦ rw e (write_frame-append kind payload out)
  | inr (x, e) ↦ rw e (ap (λ p. (err _, p)) (sym (append-nil out)))
]

module _ (j : Json) where
  send-append :
      (f : TransferFrame) (out : Bytes) → send j f out ≡ ((send j f []).0, out ++ (send j f []).1)
  unfolding send
  send-append (TransferFrame.put_chunk payload) out = write_frame-append Kind.put_chunk payload out
  send-append (TransferFrame.get_chunk payload) out = write_frame-append Kind.get_chunk payload out
  send-append (TransferFrame.put_request x) out =
      write_json_frame-append j.put_request Kind.put_request x out
  send-append (TransferFrame.put_ready x) out = write_json_frame-append j.ready Kind.put_ready x out
  send-append (TransferFrame.put_complete x) out =
      write_json_frame-append j.complete Kind.put_complete x out
  send-append (TransferFrame.get_request x) out =
      write_json_frame-append j.get_request Kind.get_request x out
  send-append (TransferFrame.get_ready x) out = write_json_frame-append j.ready Kind.get_ready x out
  send-append (TransferFrame.get_complete x) out =
      write_json_frame-append j.complete Kind.get_complete x out
  send-append (TransferFrame.cwd_request x) out =
      write_json_frame-append j.cwd_request Kind.cwd_request x out
  send-append (TransferFrame.cwd_response x) out =
      write_json_frame-append j.cwd_response Kind.cwd_response x out
  send-append (TransferFrame.exists_request x) out =
      write_json_frame-append j.exists_request Kind.exists_request x out
  send-append (TransferFrame.exists_response x) out =
      write_json_frame-append j.exists_response Kind.exists_response x out
  send-append (TransferFrame.completion_request x) out =
      write_json_frame-append j.completion_request Kind.completion_request x out
  send-append (TransferFrame.completion_response x) out =
      write_json_frame-append j.completion_response Kind.completion_response x out
  send-append (TransferFrame.blob_put_request x) out =
      write_json_frame-append j.blob_put_request Kind.blob_put_request x out
  send-append (TransferFrame.blob_get_request x) out =
      write_json_frame-append j.blob_get_request Kind.blob_get_request x out
  send-append (TransferFrame.blob_get_ready x) out =
      write_json_frame-append j.blob_get_ready Kind.blob_get_ready x out
  send-append (TransferFrame.new_entry x) out =
      write_json_frame-append j.entry_header Kind.new_entry x out
  send-append (TransferFrame.entry_complete x) out =
      write_json_frame-append j.entry_complete Kind.entry_complete x out
  send-append (TransferFrame.error x) out = write_json_frame-append j.failure Kind.error x out

  unfoldable pub send_all : List TransferFrame → Io (Unit {0})
  send_all [] = pure tt
  send_all (f ∷ fs) = send j f >> send_all fs

  -- The next `n` frames.
  unfoldable pub read_frames : ℕ → Io (List TransferFrame)
  read_frames zero = pure []
  read_frames (suc n) = do f ← read_next_frame j; fs ← read_frames n; pure (f ∷ fs)

  -- What a sequence of writers that all succeed adds to a stream is read back as the same
  -- sequence of frames, whatever stands behind it.
  pub read_frames-send_all :
      (fs : List TransferFrame) (out sent rest : Bytes)
      → send_all fs out ≡ (ok tt, sent)
      → (added : Bytes) × (sent ≡ out ++ added)
        × (read_frames (length fs) (added ++ rest) ≡ (ok fs, rest))
  unfolding send_all read_frames
  read_frames-send_all [] out sent rest h = ([], ap (λ p. p.1) (sym h) ∙ sym (append-nil out), refl)
  read_frames-send_all (f ∷ fs) out sent rest h = elim (Result-cases (send j f []).0) [
    | inl (tt, e) ↦
        let first = (send j f []).1 in
        let now : send j f out ≡ (ok tt, out ++ first) =
          send-append f out ∙ ap (λ r. (r, out ++ first)) e in
        let (more, laid, later) =
          read_frames-send_all fs (out ++ first) sent rest
            (sym (>>=_ok (send j f) (λ _. send_all fs) out now) ∙ h) in
        (
          first ++ more,
          laid ∙ append_assoc out first more,
          rw (append_assoc first more rest) (
              >>=_ok (read_next_frame j) (λ g. read_frames (length fs) >>= λ gs. pure (g ∷ gs)) _
                (read_next_frame-send j f first (more ++ rest) (λ i. (e i, first)))
              ∙ >>=_ok (read_frames (length fs)) (λ gs. pure (f ∷ gs)) _ later),
        )
    | inr (x, e) ↦
        let now : send j f out ≡ (err x, out ++ (send j f []).1) =
          send-append f out ∙ ap (λ r. (r, out ++ (send j f []).1)) e in
        cc (sym (>>=_err (send j f) (λ _. send_all fs) out now) ∙ h)
  ]
