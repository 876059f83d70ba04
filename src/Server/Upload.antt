-- ===== src/Server/Upload.antt =====
-- src/server/transfer/files/upload.rs and the upload part of src/server/transfer/helpers.rs: the
-- upload of one file.
pub mod Receive
pub mod Fuel
pub mod Recursive
pub mod Prepare
pub mod Atomic
pub mod Published
pub mod PartPath
use irosh.Common.{
  ℕ, ◌+◌, ◌%◌, ◌^◌, ◌==◌, Bool, true, false, not, ◌||◌, List, [], ◌∷◌, ◌++◌, Option, none, some,
  Result, ok, err, ◌>>=◌, ◌>>◌, pure, throw, if◌then◌else◌, codes, decimal, ltb, length,
}
use irosh.Transfer.Types.{
  Text, PutRequest, TransferFrame, TransferFailure, TransferFailureCode, TransferError,
}
use irosh.Transfer.FilePath.{normal, cur_dir}
use irosh.Server.Paths.{PathBuf, display, parent, file_name, set_file_name}
use irosh.Server.Host.{
  IoFailure, Host, Stream, Handler, ServerError, transfer_failed, transport, UploadSink, process,
  file, append, create, spawn_cat, write_all, wait, flush, perform, observe, on_ok, caught, write,
  answer, try_answer, succeeds,
}
use irosh.Server.Context.{
  ShellContext, live, stateless, resolve_path, path_missing_no_follow, create_dir_all,
  remove_file_if_present, rename, chmod,
}

abbrev pub failure : TransferFailureCode → Text → TransferFailure
failure code detail = record { code = code; detail = detail }

pub record PreparedPutDestination : Type 0 where
  pub final_arg : PathBuf
  pub part_arg : PathBuf

abbrev pub part_name : Text → Text → Text
part_name name unique = codes "." ++ (name ++ (codes "." ++ (unique ++ codes ".irosh_part")))

abbrev pub name_or_transfer : Option Text → Text
name_or_transfer none = codes "transfer"
name_or_transfer (some name) = name

-- The hidden name beside the destination. `unique` is the process and the time in nanoseconds.
unfoldable pub part_path : PathBuf → Text → PathBuf
part_path dest_path unique =
    set_file_name dest_path (part_name (name_or_transfer (file_name dest_path)) unique)

-- `dest_path.parent().unwrap_or(Path::new("."))`
abbrev pub directory : PathBuf → PathBuf
directory path = elim (parent path) [ none ↦ cur_dir ∷ [] | some p ↦ p ]

abbrev pub target_exists_failure : PathBuf → TransferFailure
target_exists_failure path = failure TransferFailureCode.target_already_exists (display path)

abbrev pub atomic_rename_failure : PathBuf → TransferFailure
atomic_rename_failure path = failure TransferFailureCode.atomic_rename_failed (display path)

abbrev pub fails : {World A : Type 0} → TransferFailureCode → Text → Handler World A
fails code detail = throw (transfer_failed (failure code detail))

module _ {World : Type 0} (host : Host World) where
  -- The name of the part file, once the directory is there.
  abbrev pub choose_part : PathBuf → Bool → Handler World (Option PreparedPutDestination)
  choose_part dest_path made =
      if made
      then (do
        unique ← observe host.part_suffix
        pure (some (record { final_arg = dest_path; part_arg = part_path dest_path unique })))
      else fails TransferFailureCode.create_directory_failed
          (codes "failed to create destination directory: " ++ display (directory dest_path))

  abbrev pub prepare_missing :
      ShellContext → PathBuf → Bool → Handler World (Option PreparedPutDestination)
  prepare_missing context dest_path missing =
      if missing
      then create_dir_all host context (directory dest_path) >>= choose_part dest_path
      else pure none

  unfoldable pub prepare_put_destination :
      ShellContext → Text → Handler World (Option PreparedPutDestination)
  prepare_put_destination context raw_path = do
    dest_path ← resolve_path host context raw_path
    missing ← path_missing_no_follow host context dest_path
    prepare_missing context dest_path missing

  abbrev pub spawned : Result IoFailure Bool → UploadSink → Text → Handler World UploadSink
  spawned (ok success) sink detail = pure sink
  spawned (err e) sink detail = fails TransferFailureCode.internal (detail ++ e.text)

  unfoldable pub spawn_upload_helper : ShellContext → PathBuf → Handler World UploadSink
  spawn_upload_helper (live pid) path = do
    r ← perform host (spawn_cat pid path)
    spawned r (process pid path []) (codes "failed to spawn upload helper: ")
  spawn_upload_helper stateless path = do
    r ← perform host (create path)
    spawned r (file path []) (codes "failed to create upload file: ")

  abbrev pub ended : Result IoFailure Bool → Text → Handler World (Unit {0})
  ended (ok true) stderr = pure tt
  ended (ok false) stderr = fails TransferFailureCode.helper_failed stderr
  ended (err e) stderr =
      fails TransferFailureCode.internal (codes "waiting for upload helper failed: " ++ e.text)

  abbrev pub flushed : Result IoFailure Bool → Handler World (Unit {0})
  flushed (ok success) = pure tt
  flushed (err e) =
      fails TransferFailureCode.internal (codes "failed to flush upload file: " ++ e.text)

  -- `UploadSink::wait`
  unfoldable pub wait_for : UploadSink → Handler World (Unit {0})
  wait_for (process pid path bytes) = do
    r ← perform host (wait (process pid path bytes))
    stderr ← observe (host.stderr (process pid path bytes))
    ended r stderr
  wait_for (file path bytes) = perform host (wait (file path bytes)) >>= flushed

-- What the receiving loop leaves: whether it failed, the count of the bytes, the sink.
pub record Received : Type 0 where
  pub transfer_failed : Bool
  pub received : ℕ
  pub sink : UploadSink

abbrev stopped : Bool → ℕ → UploadSink → Received
stopped failed received sink = record { transfer_failed = failed; received = received; sink = sink }

-- The frames before `rest` have been read.
abbrev pub advance :
    {World : Type 0} → List (Result TransferError TransferFrame) → Handler World (Unit {0})
advance rest s = (ok tt, record s { incoming = rest })

abbrev pub error_frame : TransferFailureCode → Text → TransferFrame
error_frame code detail = TransferFrame.error (failure code detail)

abbrev incoming_frames :
    {World : Type 0} → Handler World (List (Result TransferError TransferFrame))
incoming_frames s = (ok s.incoming, s)

abbrev exceeding : (received size : ℕ) → TransferFrame
exceeding received size = error_frame TransferFailureCode.size_mismatch (
    codes "received "
    ++ (decimal received ++ (codes " bytes, exceeding the declared size of " ++ decimal size)))

abbrev mismatch : (received size reported : ℕ) → TransferFrame
mismatch received size reported = error_frame TransferFailureCode.size_mismatch (
    codes "received "
    ++ (decimal received
        ++ (codes " bytes, declared "
            ++ (decimal size ++ (codes ", client reported " ++ decimal reported)))))

module _ {World : Type 0} (host : Host World) where
  -- The loop over the frames of the client, which are the incoming frames of the stream.
  unfoldable pub receive :
      List (Result TransferError TransferFrame) → ℕ → UploadSink → ℕ → Handler World Received
  receive [] size sink received = pure (stopped true received sink)
  receive (err e ∷ rest) size sink received = advance rest >> pure (stopped true received sink)
  receive (ok (TransferFrame.put_chunk chunk) ∷ rest) size sink received =
      advance rest
      >> (let received = (received + length chunk) % 2 ^ 64 in
          if ltb size received
          then answer (exceeding received size) >> pure (stopped true received sink)
          else perform host (write_all sink chunk) >>= λ r.
              on_ok r (receive rest size (append sink chunk) received)
                (pure (stopped true received sink)))
  receive (ok (TransferFrame.put_complete complete) ∷ rest) size sink received =
      advance rest
      >> (if not (complete.size == received) || not (received == size)
          then answer (mismatch received size complete.size) >> pure (stopped true received sink)
          else pure (stopped false received sink))
  receive (ok (TransferFrame.error e) ∷ rest) size sink received =
      advance rest >> pure (stopped true received sink)
  receive (ok (TransferFrame.get_chunk chunk) ∷ rest) size sink received =
      advance rest
      >> try_answer (
          error_frame TransferFailureCode.unexpected_frame
            (codes "unexpected get chunk frame during upload"))
      >> pure (stopped true received sink)
  receive (ok frame ∷ rest) size sink received =
      advance rest
      >> try_answer (error_frame TransferFailureCode.unexpected_frame (host.debug frame))
      >> pure (stopped true received sink)

  abbrev pub set_mode : ShellContext → PathBuf → Option ℕ → Handler World (Unit {0})
  set_mode context path none = pure tt
  set_mode context path (some mode) = chmod host context path mode

  -- What follows the rename.
  unfoldable pub conclude :
      ShellContext
      → PutRequest
      → PreparedPutDestination
      → ℕ
      → Result ServerError Bool
      → Handler World (Unit {0})
  conclude context request prepared received (ok true) =
      set_mode context prepared.final_arg request.mode
      >> answer (TransferFrame.put_complete (record { size = received }))
  conclude context request prepared received (ok false) =
      remove_file_if_present host context prepared.part_arg
      >> answer (TransferFrame.error (atomic_rename_failure prepared.final_arg))
  conclude context request prepared received (err e) =
      remove_file_if_present host context prepared.part_arg >> throw e

  -- The part file has all the bytes.
  unfoldable pub publish :
      ShellContext → PutRequest → PreparedPutDestination → ℕ → Handler World (Unit {0})
  publish context request prepared received =
      caught (rename host context prepared.part_arg prepared.final_arg)
      >>= conclude context request prepared received

  -- What follows the end of the sink.
  unfoldable pub finish_with :
      ShellContext
      → PutRequest
      → PreparedPutDestination
      → Received
      → Result ServerError (Unit {0})
      → Handler World (Unit {0})
  finish_with context request prepared r (ok _) =
      if r.transfer_failed
      then remove_file_if_present host context prepared.part_arg
      else publish context request prepared r.received
  finish_with context request prepared r (err e) =
      remove_file_if_present host context prepared.part_arg
      >> (if r.transfer_failed
          then pure tt
          else answer (error_frame TransferFailureCode.helper_failed (host.to_string e)))

  -- The flush behind the loop, whose error is dropped, and the end of the sink.
  unfoldable pub end_sink : UploadSink → Handler World (Result ServerError (Unit {0}))
  end_sink sink = perform host (flush sink) >> caught (wait_for host sink)

  -- After the loop.
  unfoldable pub finish :
      ShellContext → PutRequest → PreparedPutDestination → Received → Handler World (Unit {0})
  finish context request prepared r = end_sink r.sink >>= finish_with context request prepared r

  unfoldable pub after_ready :
      ShellContext
      → PutRequest
      → PreparedPutDestination
      → UploadSink
      → Result TransferError (Unit {0})
      → Handler World (Unit {0})
  after_ready context request prepared sink (ok _) = do
    frames ← incoming_frames
    r ← receive frames request.size sink 0
    finish context request prepared r
  after_ready context request prepared sink (err e) =
      remove_file_if_present host context prepared.part_arg >> throw (transport e)

  unfoldable pub stream_upload :
      ShellContext → PutRequest → PreparedPutDestination → UploadSink → Handler World (Unit {0})
  stream_upload context request prepared sink = do
    piped ← observe (host.has_stdin sink)
    if piped
        then (do
          ready ← caught (
              write (TransferFrame.put_ready (record { size = request.size; mode = request.mode })))
          after_ready context request prepared sink ready)
        else remove_file_if_present host context prepared.part_arg
          >> fails TransferFailureCode.internal (codes "upload helper sink unavailable")

  unfoldable pub upload_to :
      ShellContext → PutRequest → Option PreparedPutDestination → Handler World (Unit {0})
  upload_to context request none = do
    dest_path ← resolve_path host context request.path
    answer (TransferFrame.error (target_exists_failure dest_path))
  upload_to context request (some prepared) = do
    sink ← spawn_upload_helper host context prepared.part_arg
    stream_upload context request prepared sink

  -- `handle_put_request` on a request that is not recursive.
  unfoldable pub handle_put_file : ShellContext → PutRequest → Handler World (Unit {0})
  handle_put_file context request = do
    prepared ← prepare_put_destination host context request.path
    upload_to context request prepared
