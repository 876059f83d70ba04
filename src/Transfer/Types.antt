-- ===== src/Transfer/Types.antt =====
-- src/transport/transfer/types.rs: payloads, frames and errors of the transfer protocol.
use irosh.Common.{Bool, ℕ, ◌*◌, ◌≡◌, Option, List, Result, ok}
use irosh.Stream.{Bytes, IoError}

-- A `String`, as the list of its Unicode scalar values.
abbrev pub Text : Type 0
Text = List ℕ

abbrev pub max_control_bytes : ℕ
max_control_bytes = 8 * 1024

abbrev pub max_chunk_bytes : ℕ
max_chunk_bytes = 64 * 1024

pub record PutRequest : Type 0 where
  pub path : Text
  pub size : ℕ
  pub mode : Option ℕ
  pub recursive : Bool

pub record GetRequest : Type 0 where
  pub path : Text
  pub recursive : Bool

pub record BlobPutRequest : Type 0 where
  pub path : Text
  pub hash : Text
  pub format : Text
  pub size : ℕ

pub record BlobGetRequest : Type 0 where
  pub path : Text

pub record BlobGetReady : Type 0 where
  pub hash : Text
  pub format : Text
  pub size : ℕ

pub record TransferReady : Type 0 where
  pub size : ℕ
  pub mode : Option ℕ

pub record EntryHeader : Type 0 where
  pub path : Text
  pub size : ℕ
  pub mode : Option ℕ
  pub is_dir : Bool

pub data EntryComplete : Type 0 where
  entry_complete : EntryComplete

pub record TransferComplete : Type 0 where
  pub size : ℕ

pub data TransferFailureCode : Type 0 where
  remote_shell_unavailable target_already_exists path_invalid : TransferFailureCode
  create_directory_failed size_mismatch unexpected_frame : TransferFailureCode
  helper_failed atomic_rename_failed rejected not_found : TransferFailureCode
  is_directory internal : TransferFailureCode

pub record TransferFailure : Type 0 where
  pub code : TransferFailureCode
  pub detail : Text

pub data CwdRequest : Type 0 where
  cwd_request : CwdRequest

pub record CwdResponse : Type 0 where
  pub path : Text

pub record ExistsRequest : Type 0 where
  pub path : Text

pub record ExistsResponse : Type 0 where
  pub exists : Bool
  pub is_dir : Bool

pub record CompletionRequest : Type 0 where
  pub path : Text

pub record CompletionResponse : Type 0 where
  pub matches : List Text

pub data TransferFrame : Type 0 where
  put_request : PutRequest → TransferFrame
  put_ready : TransferReady → TransferFrame
  put_chunk : Bytes → TransferFrame
  put_complete : TransferComplete → TransferFrame
  get_request : GetRequest → TransferFrame
  get_ready : TransferReady → TransferFrame
  get_chunk : Bytes → TransferFrame
  get_complete : TransferComplete → TransferFrame
  cwd_request : CwdRequest → TransferFrame
  cwd_response : CwdResponse → TransferFrame
  exists_request : ExistsRequest → TransferFrame
  exists_response : ExistsResponse → TransferFrame
  completion_request : CompletionRequest → TransferFrame
  completion_response : CompletionResponse → TransferFrame
  blob_put_request : BlobPutRequest → TransferFrame
  blob_get_request : BlobGetRequest → TransferFrame
  blob_get_ready : BlobGetReady → TransferFrame
  new_entry : EntryHeader → TransferFrame
  entry_complete : EntryComplete → TransferFrame
  error : TransferFailure → TransferFrame

-- What the code uses of a `serde_json::Error`: its message.
abbrev pub JsonError : Type 0
JsonError = Text

pub data TransferError : Type 0 where
  io : IoError → TransferError
  invalid_magic : TransferError
  unsupported_version : ℕ → TransferError
  unsupported_kind : ℕ → TransferError
  unexpected_kind : (expected actual : ℕ) → TransferError
  payload_too_large : ℕ → TransferError
  json : JsonError → TransferError
  invalid_path : Text → TransferError

-- `serde_json` at one payload type, a parameter of the codec. Its law is that a value which was
-- serialized is read back from its own text.
pub record Serde (A : Type 0) : Type 0 where
  pub to_vec : A → Result JsonError Bytes
  pub from_slice : Bytes → Result JsonError A
  pub from_slice-to_vec : (a : A) (text : Bytes) → to_vec a ≡ ok text → from_slice text ≡ ok a

-- `serde_json` at the payload types of the protocol.
pub record Json : Type 0 where
  pub put_request : Serde PutRequest
  pub get_request : Serde GetRequest
  pub blob_put_request : Serde BlobPutRequest
  pub blob_get_request : Serde BlobGetRequest
  pub blob_get_ready : Serde BlobGetReady
  pub ready : Serde TransferReady
  pub entry_header : Serde EntryHeader
  pub entry_complete : Serde EntryComplete
  pub complete : Serde TransferComplete
  pub failure : Serde TransferFailure
  pub cwd_request : Serde CwdRequest
  pub cwd_response : Serde CwdResponse
  pub exists_request : Serde ExistsRequest
  pub exists_response : Serde ExistsResponse
  pub completion_request : Serde CompletionRequest
  pub completion_response : Serde CompletionResponse
