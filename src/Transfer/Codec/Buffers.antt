-- ===== src/Transfer/Codec/Buffers.antt =====
-- Reading into a reused buffer: the old contents do not matter.
use irosh.Common.{
  ℕ, ◌+◌, ◌-◌, ◌*◌, ◌^◌, ◌≡◌, ◌∷◌, ◌++◌, length, arith, length-append, length-replicate,
  length-take_le, replicate,
}
use irosh.Stream.{Bytes, read_exact}
use irosh.Transfer.Codec.Reader.{read_frame, read_frame_into, read_exact_buf, resize}

length-resize : (n : ℕ) (buf : Bytes) → length (resize n buf) ≡ n
length-resize n buf =
    let more = replicate (n - length buf) 0 in
    length-take_le n (buf ++ more)
      (omega (arith, length-append buf more, length-replicate {0} {A = ℕ} (n - length buf) 0))

-- Whatever the buffer held, `read_frame_into` returns what `read_frame` returns and leaves the
-- reader at the same place.
pub read_frame_into-eq :
    (s buf : Bytes) → let (r, (s', buf')) = read_frame_into (s, buf) in (r, s') ≡ read_frame s
unfolding read_frame read_frame_into read_exact read_exact_buf
read_frame_into-eq (m ∷ n ∷ o ∷ p ∷ v ∷ k ∷ a ∷ b ∷ c ∷ d ∷ s) buf =
    ground (arith, length-resize (a * 2 ^ 24 + b * 2 ^ 16 + c * 2 ^ 8 + d) buf)
read_frame_into-eq _ buf = ground arith
