-- ===== src/Transfer/Tests.antt =====
-- Runs of the transfer codec and of the path sanitizer on concrete frames and paths.
use irosh.Transfer.Codec.Refusals.{read_frame-take}
use irosh.Common.{
  take, ℕ, true, false, List, [], ◌∷◌, ◌++◌, ◌≡◌, refl, ok, err, Result, codes, is_empty, All,
  arith, ◌≤◌,
}
use irosh.Stream.{unexpected_eof, Bytes, read_exact, read_u8, read_u32}
use irosh.Transfer.Types.{io, Serde, Json, TransferComplete, TransferFrame, JsonError}
use irosh.Transfer.Codec.{payload_limit, write_frame}
use irosh.Transfer.Codec.Kind
use irosh.Transfer.Codec.Writer.{write_json_frame, write_put_chunk}
use irosh.Transfer.Codec.Writer
use irosh.Transfer.Codec.Reader.{read_frame, read_frame_into, read_next_frame, is_known_kind}
use irosh.Transfer.Codec.Frames.{frame, read_frame_sound}
use irosh.Transfer.Codec.Buffers.{read_frame_into-eq}
use irosh.Transfer.Codec.RoundTrip.{send, read_next_frame-send}
use irosh.Transfer.Codec.Sequence.{send_all, read_frames, read_frames-send_all}
use irosh.Transfer.FilePath.{
  sanitize_remote_path, components, component, inner, relative, sanitize_loop,
}
use irosh.Transfer.FilePath.Safe.{IsName, sanitize_remote_path-IsName}

-- A serializer that fails.
abbrev refuses : {A : Type 0} → Serde A
refuses = record {
  to_vec = λ a. err [];
  from_slice = λ s. err [];
  from_slice-to_vec = λ a text h. cc;
}

abbrev complete_text : TransferComplete → Bytes
complete_text c = c.size ∷ []

abbrev parse_complete : Bytes → Result JsonError TransferComplete
parse_complete [] = err []
parse_complete (size ∷ rest) = ok (record { size = size })

parse_complete_lem :
    (a : TransferComplete) (text : Bytes)
    → ◌≡◌ {A = Result JsonError Bytes} (ok (complete_text a)) (ok text)
    → parse_complete text ≡ ok a
parse_complete_lem a text h = let e : complete_text a ≡ text = cc in rw (← e) refl

-- The size, as one byte.
abbrev complete_serde : Serde TransferComplete
complete_serde = record {
  to_vec = λ a. ok (complete_text a);
  from_slice = parse_complete;
  from_slice-to_vec = parse_complete_lem;
}

abbrev json : Json
json = record {
  put_request = refuses;
  get_request = refuses;
  blob_put_request = refuses;
  blob_get_request = refuses;
  blob_get_ready = refuses;
  ready = refuses;
  entry_header = refuses;
  entry_complete = refuses;
  complete = complete_serde;
  failure = refuses;
  cwd_request = refuses;
  cwd_response = refuses;
  exists_request = refuses;
  exists_response = refuses;
  completion_request = refuses;
  completion_response = refuses;
}

abbrev done : TransferComplete
done = record { size = 3 }

abbrev chunk : Bytes
chunk = 7 ∷ 8 ∷ 9 ∷ []

abbrev behind : Bytes
behind = 1 ∷ 2 ∷ []

read_next_frame-send_example :
    read_next_frame json (frame Kind.put_complete (3 ∷ []) ++ behind)
    ≡ (ok (TransferFrame.put_complete done), behind)
unfolding send write_json_frame write_frame Writer.write_put_complete
read_next_frame-send_example =
    read_next_frame-send json (TransferFrame.put_complete done) (frame Kind.put_complete (3 ∷ []))
      behind refl

read_frames-send_all_example :
    (added : Bytes) × (frame Kind.put_chunk chunk ++ frame Kind.put_complete (3 ∷ []) ≡ added)
    × (read_frames json 2 (added ++ behind)
        ≡ (ok (TransferFrame.put_chunk chunk ∷ TransferFrame.put_complete done ∷ []), behind))
unfolding send_all send write_json_frame write_frame Writer.write_put_complete write_put_chunk
read_frames-send_all_example =
    read_frames-send_all json (TransferFrame.put_chunk chunk ∷ TransferFrame.put_complete done ∷ [])
      [] (frame Kind.put_chunk chunk ++ frame Kind.put_complete (3 ∷ [])) behind refl

read_frame_sound_example :
    (frame Kind.put_chunk chunk ≡ frame Kind.put_chunk chunk ++ [])
    × (is_known_kind Kind.put_chunk ≡ true)
    × (3 ≤ payload_limit Kind.put_chunk)
unfolding read_frame read_exact read_u8 read_u32 is_known_kind payload_limit
read_frame_sound_example =
    read_frame_sound (frame Kind.put_chunk chunk) {kind = Kind.put_chunk} {payload = chunk}
      {rest = []} (ground arith) refl

read_frame_into-eq_example :
    let (r, (s', buf')) = read_frame_into (frame Kind.put_chunk chunk ++ behind, 5 ∷ []) in
    (r, s') ≡ read_frame (frame Kind.put_chunk chunk ++ behind)
read_frame_into-eq_example = read_frame_into-eq (frame Kind.put_chunk chunk ++ behind) (5 ∷ [])

abbrev names : List (List ℕ)
names = codes "docs" ∷ codes "a.txt" ∷ []

sanitize_remote_path-IsName_example : (is_empty names ≡ false) × All IsName names
unfolding sanitize_remote_path components component inner relative sanitize_loop
sanitize_remote_path-IsName_example =
    sanitize_remote_path-IsName (codes "docs//./old/../a.txt") names refl

abbrev docs-IsName : IsName (codes "docs")
docs-IsName = record {
  not_empty = refl;
  not_dot = refl;
  not_dots = refl;
  no_slash = refl;
  no_nul = refl;
}

abbrev file-IsName : IsName (codes "a.txt")
file-IsName = record {
  not_empty = refl;
  not_dot = refl;
  not_dots = refl;
  no_slash = refl;
  no_nul = refl;
}

-- A path above the directory is refused.
escape_test :
    (elim (sanitize_remote_path (codes "a/../../b")) [ ok _ ↦ true | err _ ↦ false ]) ≡ false
unfolding sanitize_remote_path components component inner relative sanitize_loop
escape_test = refl

read_frame-take_example :
    read_frame (take 11 (frame Kind.put_chunk chunk)) ≡ (err (io unexpected_eof), [])
unfolding is_known_kind payload_limit
read_frame-take_example = read_frame-take Kind.put_chunk chunk 11 refl (omega arith) (omega arith)
