-- ===== src/Transfer/Codec/Writer.antt =====
-- src/transport/transfer/codec/writer.rs: an encoder for each frame.
use irosh.Common.{ℕ, Result, ok, err, ◌>>=◌, lift}
use irosh.Stream.{Bytes}
use irosh.Transfer.Types.{
  TransferError, JsonError, json, Serde, Json, PutRequest, GetRequest, BlobPutRequest,
  BlobGetRequest, BlobGetReady, TransferReady, EntryHeader, EntryComplete, TransferComplete,
  TransferFailure, CwdRequest, CwdResponse, ExistsRequest, ExistsResponse, CompletionRequest,
  CompletionResponse,
}
use irosh.Transfer.Codec.{Io, write_frame}
use irosh.Transfer.Codec.Kind

-- The conversion that `?` makes of a `serde_json::Error`.
abbrev pub from_json : {A : Type 0} → Result JsonError A → Result TransferError A
from_json (ok a) = ok a
from_json (err e) = err (json e)

unfoldable pub write_json_frame : {A : Type 0} → Serde A → ℕ → A → Io (Unit {0})
write_json_frame s kind value = do
  payload ← lift (from_json (s.to_vec value))
  write_frame kind payload

unfoldable pub write_put_chunk : Bytes → Io (Unit {0})
write_put_chunk chunk = write_frame Kind.put_chunk chunk

unfoldable pub write_get_chunk : Bytes → Io (Unit {0})
write_get_chunk chunk = write_frame Kind.get_chunk chunk

module _ (j : Json) where
  unfoldable pub write_put_request : PutRequest → Io (Unit {0})
  write_put_request value = write_json_frame j.put_request Kind.put_request value

  unfoldable pub write_put_ready : TransferReady → Io (Unit {0})
  write_put_ready value = write_json_frame j.ready Kind.put_ready value

  unfoldable pub write_put_complete : TransferComplete → Io (Unit {0})
  write_put_complete value = write_json_frame j.complete Kind.put_complete value

  unfoldable pub write_get_request : GetRequest → Io (Unit {0})
  write_get_request value = write_json_frame j.get_request Kind.get_request value

  unfoldable pub write_get_ready : TransferReady → Io (Unit {0})
  write_get_ready value = write_json_frame j.ready Kind.get_ready value

  unfoldable pub write_get_complete : TransferComplete → Io (Unit {0})
  write_get_complete value = write_json_frame j.complete Kind.get_complete value

  unfoldable pub write_transfer_error : TransferFailure → Io (Unit {0})
  write_transfer_error value = write_json_frame j.failure Kind.error value

  unfoldable pub write_cwd_request : CwdRequest → Io (Unit {0})
  write_cwd_request value = write_json_frame j.cwd_request Kind.cwd_request value

  unfoldable pub write_cwd_response : CwdResponse → Io (Unit {0})
  write_cwd_response value = write_json_frame j.cwd_response Kind.cwd_response value

  unfoldable pub write_exists_request : ExistsRequest → Io (Unit {0})
  write_exists_request value = write_json_frame j.exists_request Kind.exists_request value

  unfoldable pub write_exists_response : ExistsResponse → Io (Unit {0})
  write_exists_response value = write_json_frame j.exists_response Kind.exists_response value

  unfoldable pub write_new_entry : EntryHeader → Io (Unit {0})
  write_new_entry value = write_json_frame j.entry_header Kind.new_entry value

  unfoldable pub write_entry_complete : EntryComplete → Io (Unit {0})
  write_entry_complete value = write_json_frame j.entry_complete Kind.entry_complete value

  unfoldable pub write_completion_request : CompletionRequest → Io (Unit {0})
  write_completion_request value =
      write_json_frame j.completion_request Kind.completion_request value

  unfoldable pub write_completion_response : CompletionResponse → Io (Unit {0})
  write_completion_response value =
      write_json_frame j.completion_response Kind.completion_response value

  unfoldable pub write_blob_put_request : BlobPutRequest → Io (Unit {0})
  write_blob_put_request value = write_json_frame j.blob_put_request Kind.blob_put_request value

  unfoldable pub write_blob_get_request : BlobGetRequest → Io (Unit {0})
  write_blob_get_request value = write_json_frame j.blob_get_request Kind.blob_get_request value

  unfoldable pub write_blob_get_ready : BlobGetReady → Io (Unit {0})
  write_blob_get_ready value = write_json_frame j.blob_get_ready Kind.blob_get_ready value
