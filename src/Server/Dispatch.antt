-- ===== src/Server/Dispatch.antt =====
-- src/server/transfer/mod.rs: a transfer stream from its first frame to its end, with the counters of
-- src/metrics.rs that it moves.
pub mod Counts
use irosh.Common.{
  ℕ, suc, ◌+◌, ◌%◌, ◌^◌, ◌≡◌, refl, ◌∙◌, ap, sym, Bool, true, false, ◌||◌, List, [], ◌∷◌, ◌++◌,
  Option, none, some, Result, ok, err, Action, if◌then◌else◌, arith, Result-cases, inl, inr, ◌⊎◌,
  ◌≢◌,
}
use irosh.Transfer.Types.{
  Text, GetRequest, BlobPutRequest, BlobGetRequest, CompletionRequest, TransferFrame,
  TransferFailure, TransferFailureCode, TransferError,
}
use irosh.Server.Host.{
  Host, Stream, Handler, ServerError, transfer_failed, transport, read_next_frame, write, answer,
}
use irosh.Server.Context.{ShellContext, from_state}
use irosh.Server.Upload.{failure, error_frame}
use irosh.Server.Upload.Recursive.{handle_put_request}
use irosh.Server.Download.{Source, handle_get_file}
use irosh.Server.Download.Walk.{handle_recursive_get_request}
use irosh.Server.Control.{handle_exists_request, handle_cwd_request}

-- The counters of 64 bits.
pub record Metrics : Type 0 where
  pub transfers_initiated : ℕ
  pub transfers_completed : ℕ
  pub transfers_failed : ℕ
  pub errors : ℕ

abbrev bump : ℕ → ℕ
bump n = (n + 1) % 2 ^ 64

unfoldable pub record_transfer_initiated : Metrics → Metrics
record_transfer_initiated m = record m { transfers_initiated = bump m.transfers_initiated }

unfoldable pub record_transfer_completed : Metrics → Metrics
record_transfer_completed m = record m { transfers_completed = bump m.transfers_completed }

unfoldable pub record_transfer_failed : Metrics → Metrics
record_transfer_failed m = record m { transfers_failed = bump m.transfers_failed }

unfoldable pub record_error : Metrics → Metrics
record_error m = record m { errors = bump m.errors }

-- The handlers of the requests that are not modelled.
pub record Others (World : Type 0) : Type 0 where
  pub handle_blob_put_request : ShellContext → BlobPutRequest → Handler World (Unit {0})
  pub handle_blob_get_request : ShellContext → BlobGetRequest → Handler World (Unit {0})
  pub handle_completion_request : ShellContext → CompletionRequest → Handler World (Unit {0})

module _ {World : Type 0} (host : Host World) (source : Source World) (others : Others World) where
  -- A failure with a code of its own reaches the client; another error as Internal.
  unfoldable pub extract_transfer_failure : ServerError → TransferFailure
  extract_transfer_failure (transfer_failed f) = f
  extract_transfer_failure e = failure TransferFailureCode.internal (host.best_error_message e)

  unfoldable pub handle_get_request : ShellContext → GetRequest → Handler World (Unit {0})
  handle_get_request context request =
      if request.recursive
      then handle_recursive_get_request host source context request
      else handle_get_file host source context request

  -- The handler's error is counted and told to the client, if the client can be reached.
  unfoldable pub conclude :
      (success failed : Metrics → Metrics)
      → Result ServerError (Unit {0})
      → Stream World
      → Metrics
      → Stream World × Metrics
  conclude success failed (ok _) s m = (s, success m)
  conclude success failed (err e) s m =
      ((write (TransferFrame.error (extract_transfer_failure e)) s).1, failed m)

  unfoldable pub served :
      (success failed : Metrics → Metrics)
      → Handler World (Unit {0})
      → Stream World
      → Metrics
      → Result ServerError (Unit {0}) × Stream World × Metrics
  served success failed handler s m =
      let (r, s') = handler s in let (s'', m') = conclude success failed r s' m in (ok tt, s'', m')

  unfoldable pub transferred :
      Handler World (Unit {0})
      → Stream World
      → Metrics
      → Result ServerError (Unit {0}) × Stream World × Metrics
  transferred = served record_transfer_completed record_transfer_failed

  unfoldable pub answered :
      Handler World (Unit {0})
      → Stream World
      → Metrics
      → Result ServerError (Unit {0}) × Stream World × Metrics
  answered = served (λ m. m) record_error

  -- What the first frame asks for.
  unfoldable pub dispatch :
      ShellContext
      → Result TransferError TransferFrame
      → Stream World
      → Metrics
      → Result ServerError (Unit {0}) × Stream World × Metrics
  dispatch context (ok (TransferFrame.put_request r)) =
      transferred (handle_put_request host context r)
  dispatch context (ok (TransferFrame.blob_put_request r)) =
      transferred (others.handle_blob_put_request context r)
  dispatch context (ok (TransferFrame.blob_get_request r)) =
      transferred (others.handle_blob_get_request context r)
  dispatch context (ok (TransferFrame.get_request r)) = transferred (handle_get_request context r)
  dispatch context (ok (TransferFrame.cwd_request r)) = answered (handle_cwd_request host context)
  dispatch context (ok (TransferFrame.exists_request r)) =
      answered (handle_exists_request host context r)
  dispatch context (ok (TransferFrame.completion_request r)) =
      answered (others.handle_completion_request context r)
  dispatch context (ok frame) = λ s m.
      let (r, s') =
        answer (error_frame TransferFailureCode.unexpected_frame (host.debug frame)) s in
      (r, s', record_error m)
  dispatch context (err e) = λ s m. (ok tt, s, record_error m)

  unfoldable pub handle_transfer_stream :
      Option ℕ → Stream World → Metrics → Result ServerError (Unit {0}) × Stream World × Metrics
  handle_transfer_stream shell_pid s m =
      let (first, s') = read_next_frame s in
      dispatch (from_state shell_pid) first s' (record_transfer_initiated m)
