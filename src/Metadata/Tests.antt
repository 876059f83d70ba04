-- ===== src/Metadata/Tests.antt =====
-- Runs of the metadata codec and of the sanitizer on concrete metadata.
use irosh.Common.{
  ℕ, zero, suc, ◌≤◌, ◌&&◌, [], ◌∷◌, ◌++◌, replicate, ◌≡◌, refl, none, some, Result, ok, err, codes,
  is_empty, All, if◌then◌else◌, arith,
}
use irosh.Stream.{Bytes}
use irosh.Transfer.Types.{JsonError, Serde}
use irosh.Metadata.Types.{
  PeerMetadata, max_field_len, new_metadata, sanitize_field, retain, truncate,
}
use irosh.Metadata.Fields.{len, IsKept, sanitize_field_lem, IsAscii, sanitize_field_panics}
use irosh.Metadata.Codec.{kind_peer_metadata, write_frame, write_metadata, read_metadata}
use irosh.Metadata.RoundTrip.{frame, read_metadata-write_metadata}

abbrev parse : Bytes → Result JsonError PeerMetadata
parse text = ok (record { hostname = text; user = []; os = [] })

abbrev print : PeerMetadata → Result JsonError Bytes
print m = if is_empty m.user && is_empty m.os then ok m.hostname else err []

parse-print : (m : PeerMetadata) (text : Bytes) → print m ≡ ok text → parse text ≡ ok m
parse-print m text h = ground arith

-- The host name alone; other metadata is refused.
abbrev serde : Serde PeerMetadata
serde = record { to_vec = print; from_slice = parse; from_slice-to_vec = parse-print }

abbrev peer : PeerMetadata
peer = record { hostname = codes "box"; user = []; os = [] }

abbrev behind : Bytes
behind = 1 ∷ 2 ∷ []

read_metadata-write_metadata_example :
    read_metadata serde (frame kind_peer_metadata (codes "box") ++ behind)
    ≡ (ok (some peer), behind)
unfolding new_metadata sanitize_field retain truncate write_metadata write_frame
read_metadata-write_metadata_example =
    read_metadata-write_metadata serde (codes "box") (10 ∷ []) [] behind {m = peer}
      {sent = frame kind_peer_metadata (codes "box")} refl refl

sanitize_field_lem_example :
    All IsKept (codes "box")
    × (len (codes "box") ≤ max_field_len)
    × (sanitize_field (codes "box") ≡ some (codes "box"))
unfolding sanitize_field retain truncate
sanitize_field_lem_example = sanitize_field_lem (27 ∷ codes "box") (codes "box") refl

many-IsAscii : (n : ℕ) → All IsAscii (replicate n b'a')
many-IsAscii zero = tt
many-IsAscii (suc n) = ((omega arith, omega arith), many-IsAscii n)

sanitize_field_panics_example : sanitize_field (replicate 254 b'a' ++ (0xE9 ∷ [])) ≡ none
sanitize_field_panics_example =
    sanitize_field_panics (replicate 254 b'a') [] 0xE9 (many-IsAscii 254) refl (omega arith)
