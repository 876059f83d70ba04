-- ===== src/Transfer/Codec.antt =====
-- src/transport/transfer/codec/mod.rs: the frame layout and the payload limits.
pub mod Kind
pub mod Writer
pub mod Reader
pub mod Frames
pub mod Refusals
pub mod Buffers
pub mod RoundTrip
pub mod Sequence
pub mod Typed
use irosh.Common.{
  ℕ, ◌%◌, ◌^◌, ◌||◌, List, [], ◌∷◌, Result, ok, err, Action, ◌>>=◌, ◌>>◌, lift, length, ltb, ◌==◌,
  if◌then◌else◌,
}
use irosh.Stream.{Bytes, write_all, write_u8, write_u32}
use irosh.Transfer.Types.{TransferError, payload_too_large, max_chunk_bytes, max_control_bytes}

-- `*b"IRFT"`
abbrev pub magic : Bytes
magic = b'I' ∷ b'R' ∷ b'F' ∷ b'T' ∷ []

abbrev pub version : ℕ
version = 2

-- What a reader or a writer of the codec does to its stream.
abbrev pub Io : Type 0 → Type 0
Io A = Action Bytes TransferError A

unfoldable pub payload_limit : ℕ → ℕ
payload_limit kind =
    if kind == Kind.put_chunk || kind == Kind.get_chunk then max_chunk_bytes else max_control_bytes

unfoldable pub validate_payload_limit : ℕ → ℕ → Result TransferError (Unit {0})
unfolding payload_limit
validate_payload_limit kind payload_len =
    if ltb (payload_limit kind) payload_len then err (payload_too_large payload_len) else ok tt

-- The cast `as u32` is `% 2 ^ 32`. The flush writes no bytes.
unfoldable pub write_frame : ℕ → Bytes → Io (Unit {0})
unfolding validate_payload_limit write_all write_u8 write_u32
write_frame kind payload = do
  lift (validate_payload_limit kind (length payload))
  write_all magic
  write_u8 version
  write_u8 kind
  write_u32 (length payload % 2 ^ 32)
  write_all payload
