-- ===== src/Client/Download.antt =====
-- src/client/transfer/files/download.rs and src/client/transfer/store.rs: the download of one file.
pub mod Persisted
use irosh.Common.{
  ℕ, ◌+◌, ◌%◌, ◌^◌, ◌==◌, not, ◌||◌, Bool, true, false, List, [], ◌∷◌, ◌++◌, Option, none, some,
  Result, ok, err, ◌>>=◌, ◌>>◌, pure, throw, if◌then◌else◌, length, is_empty, codes,
}
use irosh.Stream.{Bytes, unexpected_eof}
use irosh.Transfer.Types.{Text, TransferFrame, TransferError, GetRequest, TransferReady, io}
use irosh.Transfer.FilePath.{normal, cur_dir}
use irosh.Server.Paths.{PathBuf, parent, file_name, join}
use irosh.Server.Host.{
  Call, Host, Stream, IoFailure, UploadSink, file, append, create_dir_all, create, write_all, wait,
  rename, copy, remove_file, set_permissions,
}
use irosh.Server.Upload.{directory, name_or_transfer}
use irosh.Client.{
  ClientError, Client, transfer_target_invalid, download_failed, file_io, transfer_rejected,
  transport, send, next_frame, run,
}
use irosh.Client.Upload.{normalize_path_separators}

-- `unique` is the time in microseconds.
unfoldable pub temp_transfer_path : PathBuf → Text → PathBuf
temp_transfer_path dest unique = join (directory dest) (
    normal (
      codes "."
      ++ (name_or_transfer (file_name dest) ++ (codes "." ++ (unique ++ codes ".irosh_part"))))
    ∷ [])

module _ {World : Type 0} (host : Host World) where
  -- A call whose error is returned.
  abbrev pub must : Result IoFailure Bool → Client World (Unit {0})
  must (ok success) = pure tt
  must (err e) = throw (file_io e)

  abbrev pub create_parent : Option PathBuf → Client World (Unit {0})
  create_parent none = pure tt
  create_parent (some p) = run host (create_dir_all p) >>= must

  -- The move of a finished download, with the copy where the rename fails.
  unfoldable pub replace : PathBuf → PathBuf → Result IoFailure Bool → Client World (Unit {0})
  replace temp final (ok success) = pure tt
  replace temp final (err e) =
      run host (copy temp final) >>= λ r. must r >> (run host (remove_file temp) >> pure tt)

  unfoldable pub persist_temp_file : PathBuf → PathBuf → Client World (Unit {0})
  persist_temp_file temp final =
      create_parent (parent final) >> (run host (rename temp final) >>= replace temp final)

  abbrev pub advance : List (Result TransferError TransferFrame) → Client World (Unit {0})
  advance rest s = (ok tt, record s { incoming = rest })

  abbrev pub written_or : Result IoFailure Bool → Client World UploadSink → Client World UploadSink
  written_or (ok success) m = m
  written_or (err e) m = throw (file_io e)

  -- The loop over the frames of the server, which are the incoming frames of the stream.
  unfoldable pub receive :
      List (Result TransferError TransferFrame) → ℕ → UploadSink → ℕ → Client World UploadSink
  receive [] size sink received = throw (transport (io unexpected_eof))
  receive (err e ∷ rest) size sink received = advance rest >> throw (transport e)
  receive (ok (TransferFrame.get_chunk chunk) ∷ rest) size sink received =
      advance rest
      >> (run host (write_all sink chunk) >>= λ r.
          written_or r (receive rest size (append sink chunk) ((received + length chunk) % 2 ^ 64)))
  receive (ok (TransferFrame.get_complete complete) ∷ rest) size sink received =
      advance rest
      >> (if not (complete.size == size) || not (received == size)
          then throw download_failed
          else pure sink)
  receive (ok (TransferFrame.error failure) ∷ rest) size sink received =
      advance rest >> throw (transfer_rejected failure)
  receive (ok frame ∷ rest) size sink received = advance rest >> throw download_failed

  -- `dest.flush()`
  unfoldable pub flush : UploadSink → Client World UploadSink
  flush sink = run host (Call.flush sink) >>= λ r. written_or r (pure sink)

  unfoldable pub get_ready : TransferFrame → Client World TransferReady
  get_ready (TransferFrame.get_ready ready) = pure ready
  get_ready (TransferFrame.error failure) = throw (transfer_rejected failure)
  get_ready frame = throw download_failed

  -- A mode that cannot be set is logged.
  abbrev pub set_mode : PathBuf → Option ℕ → Client World (Unit {0})
  set_mode path none = pure tt
  set_mode path (some mode) = run host (set_permissions path (mode % 512)) >> pure tt

  -- The file is streamed; a failure removes the temporary file.
  unfoldable pub settle :
      PathBuf → PathBuf → TransferReady → Result ClientError UploadSink → Client World (Unit {0})
  settle temp final ready (err e) = run host (remove_file temp) >> throw e
  settle temp final ready (ok sink) = persist_temp_file temp final >> set_mode final ready.mode

  -- The `async` block: the loop and the flush.
  abbrev pub streaming : PathBuf → ℕ → Client World UploadSink
  streaming temp size s = (receive s.incoming size (file temp []) 0 >>= flush) s

  unfoldable pub stream_file : PathBuf → PathBuf → TransferReady → Client World (Unit {0})
  stream_file temp final ready s =
      let (r, s') = streaming temp ready.size s in settle temp final ready r s'

  -- The directory of the destination is made if that is possible.
  abbrev pub try_parent : Option PathBuf → Client World (Unit {0})
  try_parent none = pure tt
  try_parent (some p) = run host (create_dir_all p) >> pure tt

  unfoldable pub download_ready : PathBuf → TransferReady → Client World (Unit {0})
  download_ready final ready = do
    unique ← λ s. (ok (host.part_suffix s.world), s)
    try_parent (parent final)
    r ← run host (create (temp_transfer_path final unique))
    must r
    stream_file (temp_transfer_path final unique) final ready

  -- `download_file_with_progress` on an open stream.
  unfoldable pub download_file : Text → PathBuf → Client World (Unit {0})
  download_file remote final =
      if is_empty remote || is_empty final then throw transfer_target_invalid else (do
        send (
            TransferFrame.get_request
              (record { path = normalize_path_separators remote; recursive = false }))
        frame ← next_frame
        ready ← get_ready frame
        download_ready final ready)
