-- ===== src/Metadata/Codec.antt =====
-- src/transport/metadata/codec.rs: the frames of the metadata stream.
use irosh.Common.{
  ℕ, ◌*◌, ◌%◌, ◌^◌, ◌||◌, [], ◌∷◌, Option, Result, ok, err, Action, ◌>>=◌, ◌>>◌, lift, pure, throw,
  length, is_empty, ltb, ◌==◌, list_eq, if◌then◌else◌,
}
use irosh.Stream.{Bytes, read_exact, read_u8, read_u32, write_all, write_u8, write_u32}
use irosh.Transfer.Types.{JsonError, Serde}
use irosh.Metadata.Types.{
  PeerMetadata, new_metadata, MetadataError, io, invalid_magic, unsupported_version,
  unsupported_kind, unexpected_kind, payload_too_large, json,
}

-- `*b"IRMD"`
abbrev pub magic : Bytes
magic = b'I' ∷ b'R' ∷ b'M' ∷ b'D' ∷ []

abbrev pub version : ℕ
version = 2

abbrev pub kind_metadata_request : ℕ
kind_metadata_request = 1

abbrev pub kind_peer_metadata : ℕ
kind_peer_metadata = 2

abbrev pub max_metadata_bytes : ℕ
max_metadata_bytes = 8 * 1024

abbrev pub Io : Type 0 → Type 0
Io A = Action Bytes MetadataError A

unfoldable pub write_frame : ℕ → Bytes → Io (Unit {0})
unfolding write_all write_u8 write_u32
write_frame kind payload = do
  if ltb max_metadata_bytes (length payload)
      then throw (payload_too_large (length payload))
      else pure tt
  write_all magic
  write_u8 version
  write_u8 kind
  write_u32 (length payload % 2 ^ 32)
  write_all payload

unfoldable pub read_frame : Io (ℕ × Bytes)
unfolding read_u8 read_u32
read_frame = do
  found ← read_exact io 4
  if list_eq found magic then pure tt else throw invalid_magic
  v ← read_u8 io
  if v == version then pure tt else throw (unsupported_version v)
  kind ← read_u8 io
  if kind == kind_peer_metadata || kind == kind_metadata_request
      then pure tt
      else throw (unsupported_kind kind)
  length ← read_u32 io
  if ltb max_metadata_bytes length then throw (payload_too_large length) else pure tt
  payload ← read_exact io length
  pure (kind, payload)

unfoldable pub write_metadata_request : Io (Unit {0})
write_metadata_request = write_frame kind_metadata_request []

unfoldable pub read_metadata_request : Io (Unit {0})
read_metadata_request = do
  (kind, payload) ← read_frame
  if kind == kind_metadata_request
      then pure tt
      else throw (unexpected_kind kind_metadata_request kind)
  if is_empty payload then pure tt else throw (payload_too_large (length payload))

abbrev pub from_json : {A : Type 0} → Result JsonError A → Result MetadataError A
from_json (ok a) = ok a
from_json (err e) = err (json e)

module _ (serde : Serde PeerMetadata) where
  unfoldable pub write_metadata : PeerMetadata → Io (Unit {0})
  write_metadata metadata = do
    payload ← lift (from_json (serde.to_vec metadata))
    write_frame kind_peer_metadata payload

  -- A value `none` is a panic of the sanitizer.
  unfoldable pub read_metadata : Io (Option PeerMetadata)
  read_metadata = do
    (kind, payload) ← read_frame
    if kind == kind_peer_metadata then pure tt else throw (unexpected_kind kind_peer_metadata kind)
    raw ← lift (from_json (serde.from_slice payload))
    pure (new_metadata raw.hostname raw.user raw.os)
