-- ===== src/Transfer/Codec/Typed.antt =====
-- The readers that expect one kind of frame.
use irosh.Common.{
  ℕ, ◌≡◌, ◌∙◌, true, [], ◌++◌, ok, err, ◌==◌, if◌then◌else◌, arith, ◌>>◌, pure, throw, lift, >>=_ok,
}
use irosh.Stream.{Bytes}
use irosh.Transfer.Types.{unexpected_kind, Serde}
use irosh.Transfer.Codec.Frames.{frame, read_frame-frame}
use irosh.Transfer.Codec.Writer.{write_json_frame, from_json}
use irosh.Transfer.Codec.Reader.{is_known_kind, read_frame, read_json_frame}
use irosh.Transfer.Codec.RoundTrip.{write_json_frame_inv}

read_json_frame_lem :
    {A : Type 0} (s : Serde A) (expected kind : ℕ) (payload : Bytes) (input rest : Bytes)
    → read_frame input ≡ (ok (kind, payload), rest)
    → read_json_frame s expected input ≡ (
      if kind == expected
          then from_json (s.from_slice payload)
          else err (unexpected_kind expected kind),
      rest,
    )
unfolding read_json_frame
read_json_frame_lem s expected kind payload input rest h =
    >>=_ok read_frame
      (λ p.
        (if p.0 == expected then pure tt else throw (unexpected_kind expected p.0))
        >> lift (from_json (s.from_slice p.1)))
      input h
    ∙ ground arith

-- A reader that expects one kind takes the value that a writer of that kind sent. A frame of
-- another kind that is known it takes whole as well, and answers with both kinds.
pub read_json_frame-write_json_frame :
    {A : Type 0} (s : Serde A) (kind expected : ℕ) (a : A) (sent rest : Bytes)
    → is_known_kind kind ≡ true
    → write_json_frame s kind a [] ≡ (ok tt, sent)
    → read_json_frame s expected (sent ++ rest)
      ≡ (if kind == expected then ok a else err (unexpected_kind expected kind), rest)
read_json_frame-write_json_frame s kind expected a sent rest known h =
    let (payload, text, laid, fits) = write_json_frame_inv s kind a [] h in
    rw (
      laid,
      read_json_frame_lem s expected kind payload (frame kind payload ++ rest) rest
          (read_frame-frame kind payload rest known fits),
      text,
    )
