-- ===== src/Server/Host.antt =====
-- What the transfer handlers of src/server stand on: the stream of frames, the errors that they
-- return, and the machine (tokio's files and processes), which is a parameter.
use irosh.Common.{
  ℕ, ◌≡◌, ◌≢◌, Bool, true, false, List, [], ◌∷◌, ◌++◌, Option, none, some, Result, ok, err, Action,
  if◌then◌else◌, All, ◌⊎◌, ◌<◌, length,
}
use irosh.Stream.{Bytes, unexpected_eof}
use irosh.Transfer.Types.{Text, TransferFrame, TransferFailure, TransferError, io}
use irosh.Transfer.FilePath.{cur_dir}
use irosh.Server.Paths.{PathBuf}

-- `ErrorKind` of a `std::io::Error`, as far as the handlers tell them apart.
pub data IoKind : Type 0 where
  not_found permission_denied other : IoKind

pub record IoFailure : Type 0 where
  pub kind : IoKind
  pub text : Text

-- `IroshError`, as far as the handlers return it.
pub data ServerError : Type 0 where
  transfer_failed : TransferFailure → ServerError
  shell_error : Text → ServerError
  transport : TransferError → ServerError
  io_error : IoFailure → ServerError

-- A program that a handler runs in the namespaces of the live shell.
pub data Command : Type 0 where
  test_e test_e_or_l test_d mkdir_p rm_f : PathBuf → Command
  mv : (from to : PathBuf) → Command
  chmod : (mode : ℕ) → PathBuf → Command

pub record Metadata : Type 0 where
  pub is_dir : Bool
  pub len : ℕ

-- Where the bytes of an upload go, with what was written there so far.
pub data UploadSink : Type 0 where
  process : (pid : ℕ) (dest : PathBuf) (written : Bytes) → UploadSink
  file : (dest : PathBuf) (written : Bytes) → UploadSink

abbrev pub dest : UploadSink → PathBuf
dest (process pid p written) = p
dest (file p written) = p

abbrev pub written : UploadSink → Bytes
written (process pid p bytes) = bytes
written (file p bytes) = bytes

abbrev pub append : UploadSink → Bytes → UploadSink
append (process pid p bytes) chunk = process pid p (bytes ++ chunk)
append (file p bytes) chunk = file p (bytes ++ chunk)

-- What a handler asks of the machine: a command to its end, an operation of tokio::fs, or a step of
-- an upload: open the file or start `cat`, write, and end it (`flush`, `wait_with_output`).
pub data Call : Type 0 where
  command : (pid : ℕ) → Command → Call
  create_dir_all remove_file create : PathBuf → Call
  rename copy : (from to : PathBuf) → Call
  set_permissions : PathBuf → (mode : ℕ) → Call
  spawn_cat : (pid : ℕ) → PathBuf → Call
  write_all : UploadSink → Bytes → Call
  flush wait : UploadSink → Call

-- The files that a call may change. `chmod` changes no content.
abbrev pub touched : Call → List PathBuf
touched (command pid (rm_f p)) = p ∷ []
touched (command pid (mv from to)) = from ∷ to ∷ []
touched (command pid c) = []
touched (create_dir_all p) = []
touched (remove_file p) = p ∷ []
touched (create p) = p ∷ []
touched (rename from to) = from ∷ to ∷ []
touched (copy from to) = to ∷ []
touched (set_permissions p mode) = []
touched (spawn_cat pid p) = p ∷ []
touched (write_all sink chunk) = dest sink ∷ []
touched (flush sink) = dest sink ∷ []
touched (wait sink) = dest sink ∷ []

-- A path at which `mkdir -p p` makes no directory: it has more components than `p`. Nothing is made
-- for `.`, which is there.
abbrev pub IsBeyond : PathBuf → PathBuf → Type 0
IsBeyond p q = (length p < length q) ⊎ (p ≡ cur_dir ∷ [])

-- A call that changes nothing at a path.
abbrev pub Spares : PathBuf → Call → Type 0
Spares q (command pid (mkdir_p p)) = IsBeyond p q
Spares q (create_dir_all p) = IsBeyond p q
Spares q c = All (λ p. q ≢ p) (touched c)

-- A call fails with an error, or ends with whether its exit status is success; nothing reads the
-- status of a call that is no program.
abbrev pub succeeds : Result IoFailure Bool → Bool
succeeds (ok success) = success
succeeds (err e) = false

-- What stands at a path: a file whose bytes can be read there, or another thing, such as a directory.
pub data Content : Type 0 where
  plain : Bytes → Content
  special : Content

-- The machine in the state `World`. `view` is what stands at a path, if anything does; what can be
-- read there is that of a link's target too. `debug`, `to_string` and `best_error_message` are the
-- texts that derived code prints.
pub record Host (World : Type 0) : Type 0 where
  pub home : Option PathBuf
  pub process_cwd : ℕ → World → Result ServerError (Option PathBuf)
  pub part_suffix : World → Text
  pub debug : TransferFrame → Text
  pub to_string : ServerError → Text
  pub best_error_message : ServerError → Text
  pub metadata : PathBuf → World → Result IoFailure Metadata
  pub symlink_metadata : PathBuf → World → Result IoFailure (Unit {0})
  pub has_stdin : UploadSink → World → Bool
  pub stderr : UploadSink → World → Text
  pub perform : Call → Action World IoFailure Bool
  pub view : World → PathBuf → Option Content

-- What is relied on: a call changes no file but its own (two paths that differ lead to two files),
-- and `mkdir` makes directories on the way to its path only; where `symlink_metadata` or `test`
-- finds nothing, nothing is; `mv` to a path where nothing is moves the file, or leaves nothing
-- there; a rename of tokio::fs moves it, or changes nothing; a copy to another path that succeeds
-- copies it; the first flush of a file that reports no error leaves in it what was written, and the
-- next one has nothing to write; `cat` that ends with success has written what was piped to it.
pub record IsLawful {World : Type 0} (host : Host World) : Type 0 where
  pub frame :
      (c : Call) (q : PathBuf) (w : World)
      → Spares q c
      → host.view (host.perform c w).1 q ≡ host.view w q
  pub test_finds :
      (pid : ℕ) (p : PathBuf) (w : World)
      → (host.perform (command pid (test_e_or_l p)) w).0 ≡ ok false
      → host.view w p ≡ none
  pub symlink_metadata_finds :
      (p : PathBuf) (w : World) (e : IoFailure)
      → host.symlink_metadata p w ≡ err e
      → e.kind ≡ not_found
      → host.view w p ≡ none
  pub mv_moves :
      (pid : ℕ) (from to : PathBuf) (w : World)
      → host.view w to ≡ none
      → let (r, w') = host.perform (command pid (mv from to)) w in
        host.view w' to ≡ (if succeeds r then host.view w from else none)
  pub rename_moves :
      (from to : PathBuf) (w : World) (success : Bool)
      → (host.perform (rename from to) w).0 ≡ ok success
      → host.view (host.perform (rename from to) w).1 to ≡ host.view w from
  pub rename_fails :
      (from to : PathBuf) (w : World) (e : IoFailure)
      → (host.perform (rename from to) w).0 ≡ err e
      → host.view (host.perform (rename from to) w).1 to ≡ host.view w to
  pub rename_keeps :
      (from to : PathBuf) (w : World) (e : IoFailure)
      → (host.perform (rename from to) w).0 ≡ err e
      → host.view (host.perform (rename from to) w).1 from ≡ host.view w from
  pub copy_copies :
      (from to : PathBuf) (w : World) (success : Bool)
      → from ≢ to
      → (host.perform (copy from to) w).0 ≡ ok success
      → host.view (host.perform (copy from to) w).1 to ≡ host.view w from
  pub wait_writes :
      (pid : ℕ) (p : PathBuf) (bytes : Bytes) (w : World)
      → (host.perform (wait (process pid p bytes)) w).0 ≡ ok true
      → host.view (host.perform (wait (process pid p bytes)) w).1 p ≡ some (plain bytes)
  pub flush_writes :
      (p : PathBuf) (bytes : Bytes) (w : World) (success : Bool)
      → (host.perform (flush (file p bytes)) w).0 ≡ ok success
      → host.view (host.perform (flush (file p bytes)) w).1 p ≡ some (plain bytes)
  pub wait_keeps :
      (p : PathBuf) (bytes : Bytes) (w : World)
      → host.view (host.perform (wait (file p bytes)) w).1 p ≡ host.view w p

-- No flush of a file reports an error: nothing that was written is lost in the background.
abbrev pub NoFlushFails : {World : Type 0} → Host World → Type 0
NoFlushFails {World} host =
    (p : PathBuf) (bytes : Bytes) (w : World)
    → (success : Bool) × ((host.perform (flush (file p bytes)) w).0 ≡ ok success)

-- A transfer stream: what `read_next_frame` still returns, the frames written, and the outcomes of
-- the writes to come (none is left: they succeed).
pub record Stream (World : Type 0) : Type 0 where
  pub incoming : List (Result TransferError TransferFrame)
  pub outgoing : List TransferFrame
  pub faults : List (Option TransferError)
  pub world : World

abbrev pub Handler : Type 0 → Type 0 → Type 0
Handler World A = Action (Stream World) ServerError A

module _ {World : Type 0} where
  -- The frame writers of the codec.
  unfoldable pub write : TransferFrame → Action (Stream World) TransferError (Unit {0})
  write frame s = elim s.faults [
    | [] ↦ (ok tt, record s { outgoing = s.outgoing ++ (frame ∷ []) })
    | none ∷ faults ↦ (ok tt, record s { outgoing = s.outgoing ++ (frame ∷ []); faults = faults })
    | some e ∷ faults ↦ (err e, record s { faults = faults })
  ]

  unfoldable pub read_next_frame : Action (Stream World) TransferError TransferFrame
  read_next_frame s = elim s.incoming [
    | [] ↦ (err (io unexpected_eof), s)
    | r ∷ incoming ↦ (r, record s { incoming = incoming })
  ]

  -- `.map_err(TransportError::from)?`
  unfoldable pub answer : TransferFrame → Handler World (Unit {0})
  unfolding write
  answer frame s =
      let (r, s') = write frame s in
      elim r [ ok tt ↦ (ok tt, s') | err e ↦ (err (transport e), s') ]

  -- `let _ = ...`: a write whose error is dropped.
  unfoldable pub try_answer : TransferFrame → Handler World (Unit {0})
  unfolding write
  try_answer frame s = (ok tt, (write frame s).1)

  unfoldable pub perform : Host World → Call → Handler World (Result IoFailure Bool)
  perform host c s = let (r, w) = host.perform c s.world in (ok r, record s { world = w })

  -- What can be seen of the machine without changing it.
  abbrev pub observe : {A : Type 0} → (World → A) → Handler World A
  observe look s = (ok (look s.world), s)

  -- An action whose error the caller looks at.
  abbrev pub caught : {E A : Type 0} → Action (Stream World) E A → Handler World (Result E A)
  caught m s = let (r, s') = m s in (ok r, s')

-- The branches on whether a call ended without an error.
abbrev pub on_ok : {A : Type 0} → Result IoFailure Bool → A → A → A
on_ok (ok success) a b = a
on_ok (err e) a b = b
