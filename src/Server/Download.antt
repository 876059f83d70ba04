-- ===== src/Server/Download.antt =====
-- src/server/transfer/files/download.rs and the download part of src/server/transfer/helpers.rs: the
-- download of one file.

pub mod Sent
pub mod Walk
use irosh.Common.{
  ℕ, ◌+◌, ◌-◌, ◌*◌, ◌^◌, ◌<◌, Bool, true, false, ◌&&◌, ◌||◌, List, [], ◌∷◌, ◌++◌, Option, none,
  some, Result, ok, err, ◌>>=◌, ◌>>◌, pure, throw, if◌then◌else◌, codes, leb, ltb, ◌==◌,
}
use irosh.Stream.{Bytes}
use irosh.Storage.Shadow.{trim}
use irosh.Transfer.Types.{Text, GetRequest, TransferFrame, TransferFailure, TransferFailureCode}
use irosh.Server.Paths.{PathBuf, display}
use irosh.Server.Host.{
  Host, Stream, Handler, ServerError, transfer_failed, IoFailure, IoKind, not_found,
  permission_denied, observe, answer,
}
use irosh.Server.Context.{ShellContext, live, stateless, resolve_path}
use irosh.Server.Upload.{failure, fails}

-- What a program printed, and whether it succeeded.
pub record Output : Type 0 where
  pub success : Bool
  pub stdout : Text
  pub stderr : Text

pub data FileType : Type 0 where
  directory : FileType
  symlink : FileType
  regular : FileType

-- One step of walkdir: an error, or a path below the root with its length and permissions.
pub data Found : Type 0 where
  unreadable : Text → Found
  found : (relative : PathBuf) → FileType → (metadata : Result Text (ℕ × ℕ)) → Found

-- What `find` printed; reading it does not fail.
pub record Listing : Type 0 where
  pub has_stdout : Bool
  pub stdout : Bytes

-- What a download reads on the machine: the size of the file by `wc -c` or its metadata, and what the
-- reads into the buffer of MAX_CHUNK_BYTES return up to the end of the file or of the output of `cat`.
pub record Source (World : Type 0) : Type 0 where
  pub wc : ℕ → PathBuf → World → Result IoFailure Output
  pub open_file : ShellContext → PathBuf → World → Result IoFailure (Unit {0})
  pub has_stdout : PathBuf → World → Bool
  pub reads : PathBuf → World → List (Result IoFailure Bytes)
  pub wait_with_output : ℕ → PathBuf → World → Result IoFailure Output
  pub context_of : ShellContext → Text
  pub walk : PathBuf → World → List Found
  pub find : ℕ → PathBuf → World → Result IoFailure Listing

abbrev is_ascii_digit : ℕ → Bool
is_ascii_digit c = leb b'0' c && leb c b'9'

unfoldable pub digits_of : Text → Text
digits_of [] = []
digits_of (c ∷ s) = let rest = digits_of s in if is_ascii_digit c then c ∷ rest else rest

-- `str::parse::<u64>` on decimal digits, with the number read so far.
unfoldable pub parse_digits : ℕ → Text → Option ℕ
parse_digits n [] = some n
parse_digits n (c ∷ s) =
    let m = n * 10 + (c - b'0') in
    let rest = parse_digits m s in if ltb m (2 ^ 64) then rest else none

unfoldable pub parse_u64 : Text → Option ℕ
parse_u64 [] = none
parse_u64 (c ∷ s) = parse_digits 0 (c ∷ s)

abbrev is_prefix : Text → Text → Bool
is_prefix [] s = true
is_prefix (c ∷ w) [] = false
is_prefix (c ∷ w) (d ∷ s) = (c == d) && is_prefix w s

-- `str::contains`
unfoldable pub contains_text : Text → Text → Bool
contains_text [] w = is_prefix w []
contains_text (c ∷ s) w = let later = contains_text s w in is_prefix w (c ∷ s) || later

module _ {World : Type 0} (host : Host World) (source : Source World) where
  -- The size, or the failure that the client is told.
  abbrev Probe : Type 0
  Probe = Result TransferFailure ℕ

  unfoldable pub probe_live : ShellContext → PathBuf → Result IoFailure Output → Handler World Probe
  probe_live context path (err e) =
      fails TransferFailureCode.internal (codes "failed to probe download source size: " ++ e.text)
  probe_live context path (ok output) =
      if output.success
      then elim (parse_u64 (digits_of output.stdout)) [
        | some size ↦ pure (ok size)
        | none ↦ fails TransferFailureCode.internal (codes "failed to parse download source size")
      ]
      else let details : Text = trim output.stderr in
        let gone =
          contains_text details (codes "No such file or directory")
          || contains_text details (codes "not found") in
        pure (
          err (
            failure
              (if gone then TransferFailureCode.not_found else TransferFailureCode.helper_failed)
              (codes "preflight failed: "
                ++ (details
                    ++ (codes "; context="
                        ++ (source.context_of context
                            ++ (codes "; requested="
                                ++ (display path ++ (codes "; helper_arg=" ++ display path)))))))))

  abbrev code_of : IoKind → TransferFailureCode
  code_of not_found = TransferFailureCode.not_found
  code_of permission_denied = TransferFailureCode.rejected
  code_of IoKind.other = TransferFailureCode.internal

  unfoldable pub probe_download_size : ShellContext → PathBuf → Handler World Probe
  unfolding probe_live
  probe_download_size (live pid) path = observe (source.wc pid path) >>= probe_live (live pid) path
  probe_download_size stateless path = do
    r ← observe (host.metadata path)
    elim r [
      | err e ↦ pure (err (failure (code_of e.kind) (codes "metadata failed: " ++ e.text)))
      | ok m ↦
          if m.is_dir
          then pure (err (failure TransferFailureCode.is_directory (display path)))
          else pure (ok m.len)
    ]

  unfoldable pub opened :
      ShellContext → PathBuf → Result IoFailure (Unit {0}) → Handler World (Unit {0})
  opened context path (ok _) = pure tt
  opened (live pid) path (err e) =
      fails TransferFailureCode.internal (codes "failed to spawn download helper: " ++ e.text)
  opened stateless path (err e) = elim e.kind [
    | not_found ↦ fails TransferFailureCode.not_found (display path)
    | _ ↦ fails TransferFailureCode.internal (codes "failed to open download file: " ++ e.text)
  ]

  -- Opening the file, or starting `cat`.
  unfoldable pub spawn_download_helper : ShellContext → PathBuf → Handler World (Unit {0})
  spawn_download_helper context path =
      observe (source.open_file context path) >>= opened context path

  -- The loop over the reads; an empty read is the end.
  unfoldable pub send_chunks : List (Result IoFailure Bytes) → Handler World (Unit {0})
  send_chunks [] = pure tt
  send_chunks (err e ∷ rest) =
      fails TransferFailureCode.internal (codes "reading download source failed: " ++ e.text)
  send_chunks (ok [] ∷ rest) = pure tt
  send_chunks (ok (b ∷ chunk) ∷ rest) =
      answer (TransferFrame.get_chunk (b ∷ chunk)) >> send_chunks rest

  -- The end of the helper: an answer in its place, or none.
  unfoldable pub helper_failure : ShellContext → PathBuf → Handler World (Option TransferFailure)
  helper_failure stateless path = pure none
  helper_failure (live pid) path = do
    r ← observe (source.wait_with_output pid path)
    elim r [
      | err e ↦
          fails TransferFailureCode.internal
            (codes "waiting for download helper failed: " ++ e.text)
      | ok output ↦
          if output.success
          then pure none
          else pure (
              some (
                failure TransferFailureCode.helper_failed (
                  trim output.stderr
                  ++ (codes "; context="
                      ++ (source.context_of (live pid)
                          ++ (codes "; requested="
                              ++ (display path ++ (codes "; helper_arg=" ++ display path))))))))
    ]

  unfoldable pub complete_with : ℕ → Option TransferFailure → Handler World (Unit {0})
  complete_with size (some f) = answer (TransferFrame.error f)
  complete_with size none = answer (TransferFrame.get_complete (record { size = size }))

  -- The frames of a file that was opened.
  unfoldable pub stream_download : ShellContext → PathBuf → ℕ → Handler World (Unit {0})
  stream_download context path size = do
    answer (TransferFrame.get_ready (record { size = size; mode = none }))
    reads ← observe (source.reads path)
    send_chunks reads
    failed ← helper_failure context path
    complete_with size failed

  unfoldable pub download_from : ShellContext → PathBuf → Probe → Handler World (Unit {0})
  download_from context path (err f) = answer (TransferFrame.error f)
  download_from context path (ok size) = do
    spawn_download_helper context path
    piped ← observe (source.has_stdout path)
    if piped
        then stream_download context path size
        else fails TransferFailureCode.internal (codes "download source pipe unavailable")

  -- `handle_get_request` on a request that is not recursive.
  unfoldable pub handle_get_file : ShellContext → GetRequest → Handler World (Unit {0})
  handle_get_file context request = do
    source_path ← resolve_path host context request.path
    probed ← probe_download_size context source_path
    download_from context source_path probed
