-- ===== src/Server/Upload/Recursive.antt =====
-- src/server/transfer/files/upload.rs: the upload of a directory.
use irosh.Common.{
  ℕ, zero, suc, ◌+◌, ◌%◌, ◌^◌, ◌==◌, Bool, true, false, List, [], ◌∷◌, ◌++◌, Option, none, some,
  Result, ok, err, ◌>>=◌, ◌>>◌, pure, throw, if◌then◌else◌, codes, decimal, ltb, length,
}
use irosh.Stream.{unexpected_eof}
use irosh.Transfer.Types.{
  Text, PutRequest, EntryHeader, TransferFrame, TransferFailureCode, TransferError, io,
}
use irosh.Transfer.FilePath.{components}
use irosh.Server.Paths.{PathBuf, display, join, sanitize_relative_path}
use irosh.Server.Host.{
  Host, Handler, ServerError, transfer_failed, transport, UploadSink, append, write_all, perform,
  observe, on_ok, answer,
}
use irosh.Server.Context.{
  ShellContext, resolve_path, create_dir_all, remove_file_if_present, rename,
}
use irosh.Server.Upload.{
  PreparedPutDestination, prepare_put_destination, spawn_upload_helper, end_sink,
  target_exists_failure, fails, error_frame, advance, set_mode, handle_put_file,
}

abbrev pub Incoming : Type 0
Incoming = List (Result TransferError TransferFrame)

-- What the loop over the chunks of one entry leaves, with the frames that it has not read.
pub record Entry : Type 0 where
  pub entry_failed : Bool
  pub size_mismatch : Bool
  pub file_received : ℕ
  pub sink : UploadSink
  pub rest : Incoming

abbrev entry : Bool → Bool → ℕ → UploadSink → Incoming → Entry
entry failed mismatch received sink rest = record {
  entry_failed = failed;
  size_mismatch = mismatch;
  file_received = received;
  sink = sink;
  rest = rest;
}

module _ {World : Type 0} (host : Host World) where
  unfoldable pub receive_entry : Incoming → ℕ → UploadSink → ℕ → Handler World Entry
  receive_entry [] size sink received = pure (entry true false received sink [])
  receive_entry (err e ∷ rest) size sink received =
      advance rest >> pure (entry true false received sink rest)
  receive_entry (ok (TransferFrame.put_chunk chunk) ∷ rest) size sink received =
      advance rest
      >> (let received = (received + length chunk) % 2 ^ 64 in
          if ltb size received
          then pure (entry true true received sink rest)
          else perform host (write_all sink chunk) >>= λ r.
              on_ok r (receive_entry rest size (append sink chunk) received)
                (pure (entry true false received sink rest)))
  receive_entry (ok (TransferFrame.entry_complete c) ∷ rest) size sink received =
      advance rest
      >> (if received == size
          then pure (entry false false received sink rest)
          else pure (entry true true received sink rest))
  receive_entry (ok frame ∷ rest) size sink received =
      advance rest >> pure (entry true false received sink rest)

  -- The move of an entry that is whole.
  unfoldable pub publish_entry :
      ShellContext → EntryHeader → PreparedPutDestination → Handler World (Unit {0})
  publish_entry context header prepared = do
    moved ← rename host context prepared.part_arg prepared.final_arg
    if moved
        then set_mode host context prepared.final_arg header.mode
        else fails TransferFailureCode.atomic_rename_failed
            (codes "atomic rename failed for " ++ display prepared.final_arg)

  abbrev pub failure_text : Result ServerError (Unit {0}) → Text
  failure_text (ok _) = []
  failure_text (err e) = host.to_string e

  unfoldable pub abandon_entry :
      ShellContext
      → PreparedPutDestination
      → Result ServerError (Unit {0})
      → Handler World (Option ℕ)
  abandon_entry context prepared helper_res =
      remove_file_if_present host context prepared.part_arg
      >> fails TransferFailureCode.helper_failed
          (codes "recursive entry upload failed: " ++ failure_text helper_res)

  unfoldable pub conclude_entry :
      ShellContext
      → EntryHeader
      → PreparedPutDestination
      → Entry
      → Result ServerError (Unit {0})
      → Handler World (Option ℕ)
  conclude_entry context header prepared e (err x) = abandon_entry context prepared (err x)
  conclude_entry context header prepared e (ok _) =
      if e.entry_failed
      then abandon_entry context prepared (ok tt)
      else publish_entry context header prepared >> pure (some e.file_received)

  -- Whether the upload goes on after an entry, with its number of bytes.
  unfoldable pub finish_entry :
      ShellContext → EntryHeader → PreparedPutDestination → Entry → Handler World (Option ℕ)
  finish_entry context header prepared e = do
    helper_res ← end_sink host e.sink
    if e.size_mismatch
        then remove_file_if_present host context prepared.part_arg
          >> answer (
              error_frame TransferFailureCode.size_mismatch (
                codes "entry '"
                ++ (header.path
                    ++ (codes "' declared "
                        ++ (decimal header.size
                            ++ (codes " bytes, received " ++ decimal e.file_received))))))
          >> pure none
        else conclude_entry context header prepared e helper_res

  abbrev pub went_on : Entry → Option ℕ → Option (ℕ × Incoming)
  went_on e none = none
  went_on e (some received) = some (received, e.rest)

  abbrev pub entry_from :
      ShellContext
      → EntryHeader
      → PreparedPutDestination
      → Entry
      → Handler World (Option (ℕ × Incoming))
  entry_from context header prepared e =
      finish_entry context header prepared e >>= λ done. pure (went_on e done)

  abbrev pub entry_if :
      ShellContext
      → EntryHeader
      → PreparedPutDestination
      → Incoming
      → UploadSink
      → Bool
      → Handler World (Option (ℕ × Incoming))
  entry_if context header prepared rest sink piped =
      if piped
      then receive_entry rest header.size sink 0 >>= entry_from context header prepared
      else fails TransferFailureCode.internal (codes "upload helper sink unavailable")

  -- The file of an entry at a destination that was prepared; `none` ends the upload.
  unfoldable pub file_at :
      ShellContext
      → EntryHeader
      → PathBuf
      → Incoming
      → Option PreparedPutDestination
      → Handler World (Option (ℕ × Incoming))
  file_at context header full_path rest none =
      answer (TransferFrame.error (target_exists_failure full_path)) >> pure none
  file_at context header full_path rest (some prepared) = do
    sink ← spawn_upload_helper host context prepared.part_arg
    piped ← observe (host.has_stdin sink)
    entry_if context header prepared rest sink piped

  -- One entry that is a file.
  unfoldable pub receive_file :
      ShellContext → EntryHeader → PathBuf → Incoming → Handler World (Option (ℕ × Incoming))
  receive_file context header full_path rest = do
    prepared ← prepare_put_destination host context (display full_path)
    file_at context header full_path rest prepared

  -- A directory, or a file.
  unfoldable pub receive_kind :
      ShellContext → EntryHeader → PathBuf → Incoming → Bool → Handler World (Option (ℕ × Incoming))
  receive_kind context header full_path rest true =
      create_dir_all host context full_path
      >> set_mode host context full_path header.mode
      >> pure (some (0, rest))
  receive_kind context header full_path rest false = receive_file context header full_path rest

  -- One entry: below the root of the upload, or refused.
  unfoldable pub receive_at :
      ShellContext
      → EntryHeader
      → PathBuf
      → Incoming
      → Result Text Text
      → Handler World (Option (ℕ × Incoming))
  receive_at context header dest_root rest (err reason) =
      fails TransferFailureCode.path_invalid
        (codes "unsafe entry path '" ++ (header.path ++ (codes "': " ++ reason)))
  receive_at context header dest_root rest (ok entry_path) =
      receive_kind context header (join dest_root (components entry_path)) rest header.is_dir

  unfoldable pub receive_new_entry :
      ShellContext → EntryHeader → PathBuf → Incoming → Handler World (Option (ℕ × Incoming))
  receive_new_entry context header dest_root rest =
      receive_at context header dest_root rest (sanitize_relative_path header.path)

  unexpected : Text → Handler World (Unit {0})
  unexpected detail = fails TransferFailureCode.unexpected_frame detail

  -- An entry that ended the upload, or the next ones.
  abbrev pub after_entry :
      Option (ℕ × Incoming)
      → ℕ
      → (Incoming → ℕ → Handler World (Unit {0}))
      → Handler World (Unit {0})
  after_entry none total next = pure tt
  after_entry (some (received, more)) total next = next more ((total + received) % 2 ^ 64)

  -- The loop at the top level. An entry reads frames of its own, so the fuel counts frames: the
  -- number of those still to come is enough.
  unfoldable pub receive_entries :
      ℕ → ShellContext → PathBuf → Incoming → ℕ → Handler World (Unit {0})
  unfolding unexpected
  receive_entries zero context dest_root frames total = throw (transport (io unexpected_eof))
  receive_entries (suc fuel) context dest_root [] total = throw (transport (io unexpected_eof))
  receive_entries (suc fuel) context dest_root (err e ∷ rest) total =
      advance rest >> throw (transport e)
  receive_entries (suc fuel) context dest_root (ok (TransferFrame.new_entry header) ∷ rest) total =
      advance rest >> receive_new_entry context header dest_root rest >>= λ done.
      after_entry done total (λ more total. receive_entries fuel context dest_root more total)
  receive_entries (suc fuel) context dest_root (ok (TransferFrame.put_complete c) ∷ rest) total =
      advance rest >> answer (TransferFrame.put_complete (record { size = total }))
  receive_entries (suc fuel) context dest_root (ok (TransferFrame.error e) ∷ rest) total =
      advance rest >> throw (transfer_failed e)
  receive_entries (suc fuel) context dest_root (ok (TransferFrame.put_chunk c) ∷ rest) total =
      advance rest >> unexpected (codes "unexpected chunk frame at recursive upload top level")
  receive_entries (suc fuel) context dest_root (ok (TransferFrame.get_chunk c) ∷ rest) total =
      advance rest >> unexpected (codes "unexpected chunk frame at recursive upload top level")
  receive_entries (suc fuel) context dest_root (ok frame ∷ rest) total =
      advance rest
      >> unexpected (codes "unexpected frame during recursive upload: " ++ host.debug frame)

  unfoldable pub handle_recursive_put_request : ShellContext → PutRequest → Handler World (Unit {0})
  handle_recursive_put_request context request = do
    dest_root ← resolve_path host context request.path
    create_dir_all host context dest_root
    answer (TransferFrame.put_ready (record { size = 0; mode = none }))
    frames ← λ s. (ok s.incoming, s)
    receive_entries (length frames) context dest_root frames 0

  unfoldable pub handle_put_request : ShellContext → PutRequest → Handler World (Unit {0})
  handle_put_request context request =
      if request.recursive
      then handle_recursive_put_request context request
      else handle_put_file host context request
