-- ===== src/Client/Upload.antt =====
-- src/client/transfer/files/upload.rs: the upload of one file.
pub mod Sent
use irosh.Common.{
  ℕ, ◌+◌, ◌%◌, ◌^◌, ◌==◌, Bool, true, false, List, [], ◌∷◌, ◌++◌, Option, none, some, Result, ok,
  err, ◌>>=◌, ◌>>◌, pure, throw, if◌then◌else◌, length, is_empty, map,
}
use irosh.Stream.{Bytes}
use irosh.Transfer.Types.{Text, TransferFrame, PutRequest}
use irosh.Client.{
  Client, Reads, transfer_target_invalid, upload_failed, file_io, transfer_rejected, send,
  next_frame,
}

-- The open local file, with its metadata.
pub record LocalFile : Type 0 where
  pub len : ℕ
  pub permissions : ℕ
  pub reads : Reads

-- Where the separator is the slash there is nothing to replace.
unfoldable pub normalize_path_separators : Text → Text
normalize_path_separators raw = raw

-- The request; the mode is `& 0o777`.
unfoldable pub request_for : LocalFile → Text → PutRequest
request_for file remote = record {
  path = normalize_path_separators remote;
  size = file.len;
  mode = some (file.permissions % 512);
  recursive = false;
}

module _ {World : Type 0} where
  unfoldable pub send_chunks : Reads → ℕ → Client World ℕ
  send_chunks [] sent = pure sent
  send_chunks (err e ∷ rest) sent = throw (file_io e)
  send_chunks (ok [] ∷ rest) sent = pure sent
  send_chunks (ok (b ∷ chunk) ∷ rest) sent =
      send (TransferFrame.put_chunk (b ∷ chunk))
      >> send_chunks rest ((sent + length (b ∷ chunk)) % 2 ^ 64)

  -- The answer to the request.
  unfoldable pub check_ready : ℕ → TransferFrame → Client World (Unit {0})
  check_ready size (TransferFrame.put_ready ready) =
      if ready.size == size then pure tt else throw upload_failed
  check_ready size (TransferFrame.error failure) = throw (transfer_rejected failure)
  check_ready size frame = throw upload_failed

  -- The answer to the last frame.
  unfoldable pub check_complete : ℕ → TransferFrame → Client World (Unit {0})
  check_complete sent (TransferFrame.put_complete complete) =
      if complete.size == sent then pure tt else throw upload_failed
  check_complete sent (TransferFrame.error failure) = throw (transfer_rejected failure)
  check_complete sent frame = throw upload_failed

  -- The end of the file.
  abbrev pub close : ℕ → Client World (Unit {0})
  close sent = do
    send (TransferFrame.put_complete (record { size = sent }))
    frame ← next_frame
    check_complete sent frame

  unfoldable pub send_file : Reads → Client World (Unit {0})
  send_file reads = send_chunks reads 0 >>= close

  -- What follows the answer to the request.
  abbrev pub proceed : LocalFile → TransferFrame → Client World (Unit {0})
  proceed file frame = check_ready file.len frame >> send_file file.reads

  abbrev pub exchange : LocalFile → Text → Client World (Unit {0})
  exchange file remote = do
    send (TransferFrame.put_request (request_for file remote))
    frame ← next_frame
    proceed file frame

  -- `upload_file_with_progress` on an open stream.
  unfoldable pub upload_file : LocalFile → Text → Client World (Unit {0})
  upload_file file remote =
      if is_empty remote then throw transfer_target_invalid else exchange file remote
