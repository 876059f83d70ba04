-- ===== src/Server/Download/Walk.antt =====
-- src/server/transfer/files/download.rs: the recursive download.
pub mod Records
use irosh.Common.{
  ℕ, zero, suc, ◌+◌, ◌-◌, ◌*◌, ◌%◌, ◌^◌, Bool, true, false, ◌&&◌, ◌||◌, List, [], ◌∷◌, ◌++◌, Option,
  none, some, Result, ok, err, ◌>>=◌, ◌>>◌, pure, throw, if◌then◌else◌, codes, leb, ltb, ◌==◌,
  length, list_eq, is_empty,
}
use irosh.Stream.{Bytes}
use irosh.Connect.Utf8.{from_utf8_lossy}
use irosh.Transfer.Types.{
  Text, GetRequest, EntryHeader, EntryComplete, TransferFrame, TransferFailureCode,
}
use irosh.Transfer.FilePath.{components}
use irosh.Server.Paths.{PathBuf, display, join}
use irosh.Server.Host.{Host, Stream, Handler, ServerError, io_error, IoFailure, observe, answer}
use irosh.Server.Context.{ShellContext, live, stateless, resolve_path}
use irosh.Server.Upload.{fails}
use irosh.Server.Download.{
  Source, Found, unreadable, found, FileType, directory, symlink, regular, Listing,
  spawn_download_helper,
}

-- `WalkEntry`
pub record WalkEntry : Type 0 where
  pub relative : PathBuf
  pub full_path : PathBuf
  pub is_dir : Bool
  pub size : ℕ
  pub mode : Option ℕ

abbrev is_directory : FileType → Bool
is_directory directory = true
is_directory kind = false

abbrev cons_entry : WalkEntry → Result Text (List WalkEntry) → Result Text (List WalkEntry)
cons_entry e (ok entries) = ok (e ∷ entries)
cons_entry e (err x) = err x

-- An entry whose metadata was read.
abbrev entry_of : PathBuf → PathBuf → FileType → (len permissions : ℕ) → WalkEntry
entry_of root path kind len permissions = record {
  relative = path;
  full_path = join root path;
  is_dir = is_directory kind;
  size = if is_directory kind then 0 else len;
  mode = some (permissions % 512);
}

abbrev with_metadata :
    PathBuf
    → PathBuf
    → FileType
    → Result Text (ℕ × ℕ)
    → Result Text (List WalkEntry)
    → Result Text (List WalkEntry)
with_metadata root path symlink metadata rest = rest
with_metadata root path kind (ok (len, permissions)) rest =
    cons_entry (entry_of root path kind len permissions) rest
with_metadata root path kind (err e) rest = err (codes "failed to read remote metadata: " ++ e)

-- What the walk finds, up to the first error. The root itself and symbolic links are left out.
unfoldable pub collect : PathBuf → List Found → Result Text (List WalkEntry)
collect root [] = ok []
collect root (unreadable e ∷ rest) = err (codes "failed to walk remote directory: " ++ e)
collect root (found [] kind metadata ∷ rest) = collect root rest
collect root (found (c ∷ path) kind metadata ∷ rest) =
    with_metadata root (c ∷ path) kind metadata (collect root rest)

-- `from_str_radix` of an unsigned integer below the bound, from the number read so far.
unfoldable pub read_digits : (radix bound n : ℕ) → Text → Option ℕ
read_digits radix bound n [] = some n
read_digits radix bound n (c ∷ s) =
    let m = n * radix + (c - b'0') in
    let rest = read_digits radix bound m s in
    if leb b'0' c && ltb c (b'0' + radix) && ltb m bound then rest else none

abbrev without_sign : Text → Text
without_sign [] = []
without_sign (c ∷ s) = if c == b'+' then s else c ∷ s

unfoldable pub from_str_radix : (radix bound : ℕ) → Text → Option ℕ
from_str_radix radix bound s =
    let digits = without_sign s in
    if is_empty digits then none else read_digits radix bound 0 digits

abbrev or_zero : Option ℕ → ℕ
or_zero none = 0
or_zero (some n) = n

-- `read_until` a NUL: the bytes read, the NUL with them, and those that follow.
unfoldable pub read_until : Bytes → Bytes × Bytes
read_until [] = ([], [])
read_until (c ∷ s) =
    let (field, rest) = read_until s in if c == 0 then (c ∷ [], s) else (c ∷ field, rest)

-- A field without its last byte, as text.
abbrev but_last : Bytes → Bytes
but_last [] = []
but_last (c ∷ []) = []
but_last (c ∷ (d ∷ s)) = c ∷ but_last (d ∷ s)

abbrev field_text : Bytes → Text
field_text field = from_utf8_lossy (but_last field)

-- The header of an entry from its four fields, the byte behind each included.
unfoldable pub header_of : (kind path size mode : Bytes) → Option EntryHeader
header_of kind path size mode =
    if list_eq (field_text kind) (codes "l")
    then none
    else some (record {
      path = field_text path;
      size = or_zero (from_str_radix 10 (2 ^ 64) (field_text size));
      mode = from_str_radix 8 (2 ^ 32) (field_text mode);
      is_dir = list_eq (field_text kind) (codes "d");
    })

-- One record of `find`: its header if it is no symbolic link, and what follows.
unfoldable pub read_record : Bytes → Option EntryHeader × Bytes
read_record s =
    let (kind, s₁) = read_until s in
    let (path, s₂) = read_until s₁ in
    let (size, s₃) = read_until s₂ in
    let (mode, s₄) = read_until s₃ in (header_of kind path size mode, s₄)

-- The records of the output. Each takes a byte, so its length is enough fuel.
unfoldable pub read_records : ℕ → Bytes → List (Option EntryHeader)
read_records zero s = []
read_records (suc fuel) [] = []
read_records (suc fuel) (c ∷ s) =
    let (header, rest) = read_record (c ∷ s) in header ∷ read_records fuel rest

module _ {World : Type 0} (host : Host World) (source : Source World) where
  -- The loop over the reads, with the bytes sent before.
  unfoldable pub send_content : List (Result IoFailure Bytes) → ℕ → Handler World ℕ
  send_content [] total = pure total
  send_content (err e ∷ rest) total =
      fails TransferFailureCode.internal (codes "reading download source failed: " ++ e.text)
  send_content (ok [] ∷ rest) total = pure total
  send_content (ok (b ∷ chunk) ∷ rest) total =
      answer (TransferFrame.get_chunk (b ∷ chunk))
      >> send_content rest ((total + length (b ∷ chunk)) % 2 ^ 64)

  unfoldable pub stream_file_content : ShellContext → PathBuf → ℕ → Handler World ℕ
  stream_file_content context path total = do
    spawn_download_helper host source context path
    piped ← observe (source.has_stdout path)
    if piped
        then (do
          reads ← observe (source.reads path)
          sent ← send_content reads total
          answer (TransferFrame.entry_complete EntryComplete.entry_complete)
          pure sent)
        else fails TransferFailureCode.internal (codes "download source pipe unavailable")

  -- The content of an entry that is no directory.
  abbrev pub entry_content : ShellContext → Bool → PathBuf → ℕ → Handler World ℕ
  entry_content context true path total = pure total
  entry_content context false path total = stream_file_content context path total

  unfoldable pub send_walked : ShellContext → List WalkEntry → ℕ → Handler World ℕ
  send_walked context [] total = pure total
  send_walked context (we ∷ rest) total = do
    answer (
        TransferFrame.new_entry (record {
          path = display we.relative;
          size = we.size;
          mode = we.mode;
          is_dir = we.is_dir;
        }))
    sent ← entry_content context we.is_dir we.full_path total
    send_walked context rest sent

  unfoldable pub send_records :
      ShellContext → PathBuf → List (Option EntryHeader) → ℕ → Handler World ℕ
  send_records context root [] total = pure total
  send_records context root (none ∷ rest) total = send_records context root rest total
  send_records context root (some header ∷ rest) total = do
    answer (TransferFrame.new_entry header)
    sent ← entry_content context header.is_dir (join root (components header.path)) total
    send_records context root rest sent

  abbrev pub walk_result : ShellContext → Result Text (List WalkEntry) → Handler World ℕ
  walk_result context (ok entries) = send_walked context entries 0
  walk_result context (err e) = fails TransferFailureCode.internal e

  abbrev pub find_result : ShellContext → PathBuf → Result IoFailure Listing → Handler World ℕ
  find_result context root (err e) =
      fails TransferFailureCode.internal
        (codes "failed to spawn find for recursive walk: " ++ e.text)
  find_result context root (ok listing) =
      if listing.has_stdout
      then send_records context root (read_records (length listing.stdout) listing.stdout) 0
      else fails TransferFailureCode.internal (codes "find stdout unavailable")

  -- The entries of the directory, by `find` in a live shell's context.
  unfoldable pub send_entries : ShellContext → PathBuf → Handler World ℕ
  send_entries stateless root =
      observe (source.walk root) >>= λ entries. walk_result stateless (collect root entries)
  send_entries (live pid) root = observe (source.find pid root) >>= find_result (live pid) root

  unfoldable pub handle_recursive_get_request : ShellContext → GetRequest → Handler World (Unit {0})
  handle_recursive_get_request context request = do
    source_root ← resolve_path host context request.path
    answer (TransferFrame.get_ready (record { size = 0; mode = none }))
    total ← send_entries context source_root
    answer (TransferFrame.get_complete (record { size = total }))
