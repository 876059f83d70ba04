-- ===== src/Server/Upload/Receive.antt =====
-- The receiving loop of an upload: what it writes, and to which file.
use irosh.Common.{
  ℕ, ◌+◌, ◌%◌, ◌^◌, ◌<◌, ◌≡◌, ◌≢◌, refl, ◌∙◌, false, List, [], ◌∷◌, ◌++◌, Option, none, some,
  Result, ok, err, length, arith, Result-cases, Bool-cases, inl, inr, ltb, append_assoc, append-nil,
  length-append, ap, sym, ◌>>◌, pure,
}
use irosh.Stream.{Bytes}
use irosh.Transfer.Types.{TransferFrame, TransferError}
use irosh.Server.Paths.{PathBuf}
use irosh.Server.Host.{
  try_answer, ServerError, Host, IsLawful, Stream, UploadSink, process, file, append, dest, written,
  write_all, perform, answer,
}
use irosh.Server.Keeps.{
  seen, is_complete, perform-seen, write-seen, on_ok-Keeps, >>-Keeps, Keeps, >>=-Keeps, pure-Keeps,
  if-Keeps, answer-Keeps, try_answer-Keeps,
}
use irosh.Server.Upload.{Received, receive, advance, stopped, error_frame}

-- What a client uploads in these frames: the bytes of the chunks before its `PutComplete`.
unfoldable pub uploaded : List (Result TransferError TransferFrame) → Option (Bytes × ℕ)
uploaded (ok (TransferFrame.put_chunk chunk) ∷ rest) = elim (uploaded rest) [
  | none ↦ none
  | some (bytes, size) ↦ some (chunk ++ bytes, size)
]
uploaded (ok (TransferFrame.put_complete complete) ∷ rest) = some ([], complete.size)
uploaded _ = none

append-ne :
    {q : PathBuf} (sink : UploadSink) (chunk : Bytes) → q ≢ dest sink → q ≢ dest (append sink chunk)
append-ne (process pid p bytes) chunk h = h
append-ne (file p bytes) chunk h = h

advance-seen :
    {World : Type 0} (host : Host World) (q : PathBuf)
    (rest : List (Result TransferError TransferFrame))
    → Keeps (seen host q) (advance rest)
advance-seen host q rest = record { same = λ s. refl }

module _ {World : Type 0} (host : Host World) (q : PathBuf) (laws : IsLawful host) where
  answered :
      (f : TransferFrame) (r : Received)
      → is_complete f ≡ false
      → Keeps (seen host q) (answer f >> pure {E = ServerError} r)
  answered f r h =
      >>-Keeps (seen host q) (answer-Keeps (seen host q) f (write-seen host q f h))
        (pure-Keeps (seen host q) r)

  -- The loop changes no file but the one it writes to.
  pub receive-seen :
      (frames : List (Result TransferError TransferFrame)) (size : ℕ) (sink : UploadSink)
      (received : ℕ)
      → q ≢ dest sink
      → Keeps (seen host q) (receive host frames size sink received)
  unfolding receive
  receive-seen [] size sink received h = pure-Keeps (seen host q) _
  receive-seen (err e ∷ rest) size sink received h =
      >>-Keeps (seen host q) (advance-seen host q rest) (pure-Keeps (seen host q) _)
  receive-seen (ok (TransferFrame.put_chunk chunk) ∷ rest) size sink received h =
      >>-Keeps (seen host q) (advance-seen host q rest) (
        if-Keeps (seen host q) _ (answered _ _ refl) (
          >>=-Keeps (seen host q) (perform-seen host q laws (write_all sink chunk) (h, tt)) (λ r.
            on_ok-Keeps (seen host q) r
              (receive-seen rest size (append sink chunk) _ (append-ne sink chunk h))
              (pure-Keeps (seen host q) _))))
  receive-seen (ok (TransferFrame.put_complete complete) ∷ rest) size sink received h =
      >>-Keeps (seen host q) (advance-seen host q rest)
        (if-Keeps (seen host q) _ (answered _ _ refl) (pure-Keeps (seen host q) _))
  receive-seen (ok (TransferFrame.error e) ∷ rest) size sink received h =
      >>-Keeps (seen host q) (advance-seen host q rest) (pure-Keeps (seen host q) _)
  receive-seen (ok (TransferFrame.get_chunk chunk) ∷ rest) size sink received h =
      >>-Keeps (seen host q)
        (>>-Keeps (seen host q) (advance-seen host q rest)
          (try_answer-Keeps (seen host q) _ (write-seen host q (error_frame _ _) refl)))
        (pure-Keeps (seen host q) _)
  receive-seen (ok f ∷ rest) size sink received h =
      >>-Keeps (seen host q)
        (>>-Keeps (seen host q) (advance-seen host q rest)
          (try_answer-Keeps (seen host q) _ (write-seen host q (error_frame _ _) refl)))
        (pure-Keeps (seen host q) _)

append_nil : (sink : UploadSink) → append sink [] ≡ sink
append_nil (process pid p bytes) = ap (process pid p) (append-nil bytes)
append_nil (file p bytes) = ap (file p) (append-nil bytes)

pub append-dest : (sink : UploadSink) (a : Bytes) → dest (append sink a) ≡ dest sink
append-dest (process pid p bytes) a = refl
append-dest (file p bytes) a = refl

pub append-written : (sink : UploadSink) (a : Bytes) → written (append sink a) ≡ written sink ++ a
append-written (process pid p bytes) a = refl
append-written (file p bytes) a = refl

append-append : (sink : UploadSink) (a b : Bytes) → append (append sink a) b ≡ append sink (a ++ b)
append-append (process pid p bytes) a b = ap (process pid p) (append_assoc bytes a b)
append-append (file p bytes) a b = ap (file p) (append_assoc bytes a b)

module _ {World : Type 0} (host : Host World) where
  -- The loop ends with the sink of its file.
  pub receive-dest :
      (frames : List (Result TransferError TransferFrame)) (size : ℕ) (sink : UploadSink)
      (received : ℕ) (s : Stream World) (r : Received)
      → (receive host frames size sink received s).0 ≡ ok r
      → dest r.sink ≡ dest sink
  unfolding receive answer try_answer perform
  receive-dest [] size sink received s r e = cc
  receive-dest (err x ∷ rest) size sink received s r e = cc
  receive-dest (ok (TransferFrame.put_chunk chunk) ∷ rest) size sink received s r e =
      let received' = (received + length chunk) % 2 ^ 64 in
      elim (Bool-cases (ltb size received')) [
        | inl big ↦ ground (arith, big, e)
        | inr fits ↦ elim (Result-cases (host.perform (write_all sink chunk) s.world).0) [
          | inl (b, p) ↦
              receive-dest rest size (append sink chunk) received' _ r (rw (fits, p) at e)
              ∙ append-dest sink chunk
          | inr (x, p) ↦ ground (arith, fits, p, e)
        ]
      ]
  receive-dest (ok (TransferFrame.put_complete complete) ∷ rest) size sink received s r e =
      ground arith
  receive-dest (ok (TransferFrame.error x) ∷ rest) size sink received s r e = cc
  receive-dest (ok f ∷ rest) size sink received s r e = ground arith

  -- A chunk after which the loop did not fail was counted within the size, and written.
  receive-chunk :
      (chunk : Bytes) (rest : List (Result TransferError TransferFrame)) (size : ℕ)
      (sink : UploadSink) (received : ℕ) (s s' : Stream World) (r : Received)
      → receive host (ok (TransferFrame.put_chunk chunk) ∷ rest) size sink received s ≡ (ok r, s')
      → r.transfer_failed ≡ false
      → let (_, s₁) = perform host (write_all sink chunk) (record s { incoming = rest }) in
        receive host rest size (append sink chunk) ((received + length chunk) % 2 ^ 64) s₁
        ≡ (ok r, s')
  unfolding receive perform answer
  receive-chunk chunk rest size sink received s s' r e h =
      elim (Bool-cases (ltb size ((received + length chunk) % 2 ^ 64))) [
        | inl big ↦ absurd (ground (arith, big, e, h))
        | inr fits ↦ elim (Result-cases (host.perform (write_all sink chunk) s.world).0) [
          | inl (b, p) ↦ rw (fits, p) at e
          | inr (x, p) ↦ absurd (ground (arith, fits, p, e, h))
        ]
      ]

  -- A loop that did not fail has read an upload, counted its bytes, and given them to the sink.
  pub receive-uploaded :
      (frames : List (Result TransferError TransferFrame)) (size : ℕ) (sink : UploadSink)
      (received : ℕ) (s s' : Stream World) (r : Received)
      → received < 2 ^ 64
      → receive host frames size sink received s ≡ (ok r, s')
      → r.transfer_failed ≡ false
      → (bytes : Bytes) × (uploaded frames ≡ some (bytes, size))
        × (r.sink ≡ append sink bytes)
        × (r.received ≡ size)
        × (size ≡ (received + length bytes) % 2 ^ 64)
  unfolding receive uploaded
  receive-uploaded [] size sink received s s' r bound e h = ground arith
  receive-uploaded (err x ∷ rest) size sink received s s' r bound e h = ground arith
  receive-uploaded (ok (TransferFrame.error x) ∷ rest) size sink received s s' r bound e h =
      ground arith
  receive-uploaded (ok (TransferFrame.put_complete complete) ∷ rest) size sink received s s' r bound
        e h =
      let (a, b, c) : (complete.size ≡ size)
          × (received ≡ size)
          × (r ≡ stopped false received sink) =
        ground (arith, e, h) in
      (
        [],
        ap (λ n. some ([], n)) a,
        ap (λ v. v.sink) c ∙ sym (append_nil sink),
        ap (λ v. v.received) c ∙ b,
        omega arith,
      )
  receive-uploaded (ok (TransferFrame.put_chunk chunk) ∷ rest) size sink received s s' r bound e h =
      let received' = (received + length chunk) % 2 ^ 64 in
      let (_, s₁) = perform host (write_all sink chunk) (record s { incoming = rest }) in
      let (bytes, u, k, m, n) =
        receive-uploaded rest size (append sink chunk) received' s₁ s' r (omega arith)
          (receive-chunk chunk rest size sink received s s' r e h) h in
      (
        chunk ++ bytes,
        rw u refl,
        k ∙ append-append sink chunk bytes,
        m,
        omega (arith, n, length-append chunk bytes),
      )
  receive-uploaded (ok f ∷ rest) size sink received s s' r bound e h = ground arith
