-- ===== src/Server/Context.antt =====
-- src/server/transfer/state.rs on Linux: the context of an operation, and the operations on files in
-- it. A live shell's are programs run in its namespaces, the others are tokio's.
pub mod Resolve
use irosh.Common.{
  ℕ, ◌==◌, ◌&&◌, decimal, Bool, true, false, not, ◌||◌, List, [], ◌∷◌, ◌++◌, Option, none, some,
  Result, ok, err, ◌>>=◌, ◌>>◌, pure, throw, if◌then◌else◌, is_empty, list_eq, codes,
}
use irosh.Storage.Shadow.{trim}
use irosh.Transfer.Types.{Text, TransferFailureCode, path_invalid}
use irosh.Transfer.FilePath.{split, components, is_absolute}
use irosh.Server.Paths.{PathBuf, join, split_backslash, has_parent_dir}
use irosh.Server.Host.{
  Host, observe, Handler, ServerError, transfer_failed, shell_error, io_error, not_found, command,
  test_e, test_e_or_l, test_d, mkdir_p, rm_f, mv, Command, Call, IoFailure, succeeds, remove_file,
  set_permissions, perform,
}

-- `ShellContext`
pub data ShellContext : Type 0 where
  live : (pid : ℕ) → ShellContext
  stateless : ShellContext

-- `ShellContext::from_state` on the process of the connection's shell.
unfoldable pub from_state : Option ℕ → ShellContext
from_state none = stateless
from_state (some pid) = live pid

-- The part of `ConnectionShellState` that changes is the process of its shell, which
-- `set_shell_pid` sets.
unfoldable pub set_shell_pid : Option ℕ → Option ℕ → Option ℕ
set_shell_pid pid current = pid

-- `==` on `Option<u32>`
abbrev same_pid : Option ℕ → Option ℕ → Bool
same_pid none none = true
same_pid none (some b) = false
same_pid (some a) none = false
same_pid (some a) (some b) = a == b

unfoldable pub clear_shell_pid_if_matches : Option ℕ → Option ℕ → Option ℕ
clear_shell_pid_if_matches pid current = if same_pid current pid then none else current

abbrev pub refused : {World A : Type 0} → Text → Handler World A
refused detail = throw (transfer_failed (record { code = path_invalid; detail = detail }))

-- `strip_prefix("~/").or_else(|| strip_prefix("~\\"))`
abbrev pub home_relative : Text → Option Text
home_relative (a ∷ (b ∷ s)) = if a == b'~' && (b == b'/' || b == b'\\') then some s else none
home_relative s = none

module _ {World : Type 0} (host : Host World) where
  abbrev pub home_dir : Text → Handler World PathBuf
  home_dir purpose = elim host.home [
    | none ↦ throw (shell_error (codes "could not determine server home directory" ++ purpose))
    | some home ↦ pure home
  ]

  -- A process that could not be asked, and one without a directory.
  unfoldable pub cwd : ShellContext → Handler World PathBuf
  cwd (live pid) = do
    r ← observe (host.process_cwd pid)
    elim r [
      | err e ↦ throw e
      | ok none ↦ throw (
          shell_error (
            codes "could not determine the live shell's working directory (PID "
            ++ (decimal pid ++ codes "); use an absolute remote path")))
      | ok (some path) ↦ pure path
    ]
  cwd stateless = home_dir []

  abbrev pub resolve_home : Text → Handler World PathBuf
  resolve_home rest =
      if has_parent_dir (split rest)
      then refused (codes "path traversal detected in home-relative path")
      else home_dir (codes " for ~/ expansion") >>= λ home. pure (join home (components rest))

  abbrev pub resolve_relative : ShellContext → Text → Handler World PathBuf
  resolve_relative context raw =
      if has_parent_dir (split raw) || has_parent_dir (split_backslash raw)
      then refused (codes "path traversal detected in relative path")
      else cwd context >>= λ base. pure (join base (components raw))

  unfoldable pub resolve_path : ShellContext → Text → Handler World PathBuf
  unfolding cwd
  resolve_path context raw =
      if is_empty (trim raw)
      then refused (codes "transfer path is empty")
      else if is_absolute raw
      then pure (components raw)
      else if list_eq raw (codes "~")
      then home_dir (codes " for ~ expansion")
      else elim (home_relative raw) [
        | some rest ↦ resolve_home rest
        | none ↦ resolve_relative context raw
      ]

  -- A probe that runs a program: its exit status, or that it could not be run.
  abbrev pub probed : Text → Result IoFailure Bool → Handler World Bool
  probed what (ok success) = pure success
  probed what (err e) =
      throw (shell_error (codes "failed to probe remote path " ++ (what ++ e.text)))

  abbrev pub probe : Text → ℕ → Command → Handler World Bool
  probe what pid c = perform host (command pid c) >>= probed what

  unfoldable pub path_exists : ShellContext → PathBuf → Handler World Bool
  unfolding perform
  path_exists (live pid) path = probe (codes "existence: ") pid (test_e path)
  path_exists stateless path = do
    r ← observe (host.metadata path)
    elim r [ ok m ↦ pure true | err e ↦ pure false ]

  unfoldable pub path_missing_no_follow : ShellContext → PathBuf → Handler World Bool
  unfolding perform
  path_missing_no_follow (live pid) path = do
    success ← probe (codes "existence: ") pid (test_e_or_l path)
    pure (not success)
  path_missing_no_follow stateless path = do
    r ← observe (host.symlink_metadata path)
    elim r [
      | ok found ↦ pure false
      | err e ↦ elim e.kind [ not_found ↦ pure true | _ ↦ throw (io_error e) ]
    ]

  unfoldable pub is_dir : ShellContext → PathBuf → Handler World Bool
  unfolding perform
  is_dir (live pid) path = probe (codes "directory status: ") pid (test_d path)
  is_dir stateless path = do
    r ← observe (host.metadata path)
    elim r [
      | ok m ↦ pure m.is_dir
      | err e ↦ elim e.kind [ not_found ↦ pure false | _ ↦ throw (io_error e) ]
    ]

  -- A program answers whether it succeeded, an operation of tokio's with an error.
  abbrev pub by_status : Result IoFailure Bool → Handler World Bool
  by_status r = pure (succeeds r)

  abbrev pub by_error : Result IoFailure Bool → Handler World Bool
  by_error (ok success) = pure true
  by_error (err e) = throw (io_error e)

  unfoldable pub create_dir_all : ShellContext → PathBuf → Handler World Bool
  unfolding perform
  create_dir_all (live pid) path = perform host (command pid (mkdir_p path)) >>= by_status
  create_dir_all stateless path = perform host (Call.create_dir_all path) >>= by_error

  unfoldable pub remove_file_if_present : ShellContext → PathBuf → Handler World (Unit {0})
  unfolding perform
  remove_file_if_present (live pid) path = perform host (command pid (rm_f path)) >> pure tt
  remove_file_if_present stateless path = perform host (remove_file path) >> pure tt

  unfoldable pub rename : ShellContext → PathBuf → PathBuf → Handler World Bool
  unfolding perform
  rename (live pid) from to = perform host (command pid (mv from to)) >>= by_status
  rename stateless from to = perform host (Call.rename from to) >>= by_error

  unfoldable pub chmod : ShellContext → PathBuf → ℕ → Handler World (Unit {0})
  unfolding perform
  chmod (live pid) path mode = perform host (command pid (Command.chmod mode path)) >> pure tt
  chmod stateless path mode = perform host (set_permissions path mode) >> pure tt
