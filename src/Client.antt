-- ===== src/Client.antt =====
-- src/client/transfer: the client's side of a transfer.

mod Tests
pub mod Upload
pub mod Download
pub mod Handler
pub mod Delivered
pub mod Fetched
use irosh.Common.{Option, Bool, List, Result, ok, err, Action, ◌++◌, ◌∷◌, [], none, some}
use irosh.Stream.{Bytes}
use irosh.Transfer.Types.{TransferFrame, TransferFailure, TransferError}
use irosh.Server.Host.{Host, Call, Stream, IoFailure, write, read_next_frame}

-- `ClientError`, with `IroshError::Transport`, without the texts.
pub data ClientError : Type 0 where
  transfer_target_invalid upload_failed download_failed : ClientError
  file_io : IoFailure → ClientError
  transfer_rejected : TransferFailure → ClientError
  transport : TransferError → ClientError

abbrev pub Client : Type 0 → Type 0 → Type 0
Client World A = Action (Stream World) ClientError A

-- A local file that is read with a buffer of MAX_CHUNK_BYTES: what its reads return up to its end.
abbrev pub Reads : Type 0
Reads = List (Result IoFailure Bytes)

-- The bytes of a file that is read to its end without an error; an empty read is the end.
unfoldable pub contents : Reads → Option Bytes
contents [] = some []
contents (err e ∷ rest) = none
contents (ok [] ∷ rest) = some []
contents (ok (b ∷ chunk) ∷ rest) = elim (contents rest) [
  | none ↦ none
  | some bytes ↦ some ((b ∷ chunk) ++ bytes)
]

module _ {World : Type 0} where
  -- `.map_err(TransportError::from)?`
  unfoldable pub send : TransferFrame → Client World (Unit {0})
  unfolding write
  send frame s =
      let (r, s') = write frame s in
      elim r [ ok tt ↦ (ok tt, s') | err e ↦ (err (transport e), s') ]

  unfoldable pub next_frame : Client World TransferFrame
  unfolding read_next_frame
  next_frame s =
      let (r, s') = read_next_frame s in
      elim r [ ok frame ↦ (ok frame, s') | err e ↦ (err (transport e), s') ]

  -- A call of the local machine.
  unfoldable pub run : Host World → Call → Client World (Result IoFailure Bool)
  run host c s = let (r, w) = host.perform c s.world in (ok r, record s { world = w })
