-- ===== src/Server/Dispatch/Counts.antt =====
-- What a transfer stream counts, and what a client is told of an error.
use irosh.Common.{ℕ, ◌+◌, ◌%◌, ◌^◌, ◌≡◌, refl, inl, inr, Option, Result, ok, err, Result-cases}
use irosh.Transfer.Types.{TransferFrame, TransferError}
use irosh.Server.Host.{Host, Stream, Handler, ServerError, read_next_frame}
use irosh.Server.Context.{ShellContext, from_state}
use irosh.Server.Upload.Recursive.{handle_put_request}
use irosh.Server.Control.{handle_cwd_request, handle_exists_request}
use irosh.Server.Download.{Source}
use irosh.Server.Dispatch.{
  Metrics, Others, record_transfer_initiated, record_transfer_completed, record_transfer_failed,
  record_error, conclude, served, transferred, answered, dispatch, handle_get_request,
  handle_transfer_stream,
}

-- What a stream counts: a transfer whose handler returned, one whose handler failed, another request
-- whose handler returned, or an error.
pub data Outcome : Type 0 where
  completed failed nothing an_error : Outcome

-- The counters at the end of a stream, 64 bits each.
abbrev pub counted : Outcome → Metrics → Metrics
counted completed m = record {
  transfers_initiated = (m.transfers_initiated + 1) % 2 ^ 64;
  transfers_completed = (m.transfers_completed + 1) % 2 ^ 64;
  transfers_failed = m.transfers_failed;
  errors = m.errors;
}
counted failed m = record {
  transfers_initiated = (m.transfers_initiated + 1) % 2 ^ 64;
  transfers_completed = m.transfers_completed;
  transfers_failed = (m.transfers_failed + 1) % 2 ^ 64;
  errors = m.errors;
}
counted nothing m = record {
  transfers_initiated = (m.transfers_initiated + 1) % 2 ^ 64;
  transfers_completed = m.transfers_completed;
  transfers_failed = m.transfers_failed;
  errors = m.errors;
}
counted an_error m = record {
  transfers_initiated = (m.transfers_initiated + 1) % 2 ^ 64;
  transfers_completed = m.transfers_completed;
  transfers_failed = m.transfers_failed;
  errors = (m.errors + 1) % 2 ^ 64;
}

abbrev either : {A : Type 0} → Outcome → Outcome → Result ServerError A → Outcome
either success failure (ok a) = success
either success failure (err e) = failure

module _ {World : Type 0} (host : Host World) (source : Source World) (others : Others World) where
  -- The outcome of a stream, from its first frame and what the handler of that frame returns.
  abbrev pub outcome : ShellContext → Result TransferError TransferFrame → Stream World → Outcome
  outcome context (ok (TransferFrame.put_request r)) s =
      either completed failed (handle_put_request host context r s).0
  outcome context (ok (TransferFrame.get_request r)) s =
      either completed failed (handle_get_request host source others context r s).0
  outcome context (ok (TransferFrame.blob_put_request r)) s =
      either completed failed (others.handle_blob_put_request context r s).0
  outcome context (ok (TransferFrame.blob_get_request r)) s =
      either completed failed (others.handle_blob_get_request context r s).0
  outcome context (ok (TransferFrame.cwd_request r)) s =
      either nothing an_error (handle_cwd_request host context s).0
  outcome context (ok (TransferFrame.exists_request r)) s =
      either nothing an_error (handle_exists_request host context r s).0
  outcome context (ok (TransferFrame.completion_request r)) s =
      either nothing an_error (others.handle_completion_request context r s).0
  outcome context first s = an_error

  transferred_counts :
      (handler : Handler World (Unit {0})) (s : Stream World) (m : Metrics)
      → (transferred host source others handler s (record_transfer_initiated m)).2
        ≡ counted (either completed failed (handler s).0) m
  unfolding transferred served conclude record_transfer_initiated record_transfer_completed
      record_transfer_failed
  transferred_counts handler s m = elim (Result-cases (handler s).0) [
    | inl (a, e) ↦ rw e refl
    | inr (x, e) ↦ rw e refl
  ]

  answered_counts :
      (handler : Handler World (Unit {0})) (s : Stream World) (m : Metrics)
      → (answered host source others handler s (record_transfer_initiated m)).2
        ≡ counted (either nothing an_error (handler s).0) m
  unfolding answered served conclude record_transfer_initiated record_error
  answered_counts handler s m = elim (Result-cases (handler s).0) [
    | inl (a, e) ↦ rw e refl
    | inr (x, e) ↦ rw e refl
  ]

  dispatch_counts :
      (context : ShellContext) (first : Result TransferError TransferFrame) (s : Stream World)
      (m : Metrics)
      → (dispatch host source others context first s (record_transfer_initiated m)).2
        ≡ counted (outcome context first s) m
  unfolding dispatch record_transfer_initiated record_error
  dispatch_counts context (ok (TransferFrame.put_request r)) s m = transferred_counts _ s m
  dispatch_counts context (ok (TransferFrame.get_request r)) s m = transferred_counts _ s m
  dispatch_counts context (ok (TransferFrame.blob_put_request r)) s m = transferred_counts _ s m
  dispatch_counts context (ok (TransferFrame.blob_get_request r)) s m = transferred_counts _ s m
  dispatch_counts context (ok (TransferFrame.cwd_request r)) s m = answered_counts _ s m
  dispatch_counts context (ok (TransferFrame.exists_request r)) s m = answered_counts _ s m
  dispatch_counts context (ok (TransferFrame.completion_request r)) s m = answered_counts _ s m
  dispatch_counts context (err e) s m = refl
  dispatch_counts context (ok frame) s m = refl

  -- Every stream adds one to the transfers begun. Where its first frame asks for a transfer, it adds
  -- one to the completed transfers if the handler of the frame returns without an error, and one to
  -- the failed ones otherwise; where it asks for the directory, for a path or a completion, one to the
  -- errors if the handler fails; on any other first frame, or none, one to the errors. No other
  -- counter changes.
  pub handle_transfer_stream_counts :
      (shell_pid : Option ℕ) (s : Stream World) (m : Metrics)
      → let (first, s') = read_next_frame s in
        let (_, _, m') = handle_transfer_stream host source others shell_pid s m in
        m' ≡ counted (outcome (from_state shell_pid) first s') m
  unfolding handle_transfer_stream
  handle_transfer_stream_counts shell_pid s m =
      dispatch_counts (from_state shell_pid) (read_next_frame s).0 (read_next_frame s).1 m
