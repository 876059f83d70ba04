-- ===== src/Server/Control.antt =====
-- src/server/transfer/control.rs: the questions of a client about a path, and the entries that `find`
-- prints for a completion.
pub mod Entries
use irosh.Common.{
  ℕ, ◌==◌, Bool, true, false, ◌||◌, List, [], ◌∷◌, ◌++◌, Option, none, some, ◌>>=◌, ◌>>◌, pure,
  if◌then◌else◌, is_empty, list_eq, codes,
}
use irosh.Stream.{Bytes}
use irosh.Transfer.Types.{Text, ExistsRequest, TransferFrame}
use irosh.Connect.Utf8.{from_utf8_lossy}
use irosh.Server.Paths.{display}
use irosh.Server.Host.{Host, Handler, answer}
use irosh.Server.Context.{ShellContext, resolve_path, path_exists, is_dir, cwd}

module _ {World : Type 0} (host : Host World) where
  unfoldable pub handle_exists_request : ShellContext → ExistsRequest → Handler World (Unit {0})
  handle_exists_request context request = do
    resolved ← resolve_path host context request.path
    exists ← path_exists host context resolved
    dir ← is_dir host context resolved
    answer (TransferFrame.exists_response (record { exists = exists; is_dir = dir }))

  unfoldable pub handle_cwd_request : ShellContext → Handler World (Unit {0})
  handle_cwd_request context = do
    path ← cwd host context
    answer (TransferFrame.cwd_response (record { path = display path }))

abbrev is_glob : ℕ → Bool
is_glob c = c == b'*' || c == b'?' || c == b'[' || c == b']' || c == b'\\'

unfoldable pub glob_escape : Text → Text
glob_escape [] = []
glob_escape (c ∷ s) =
    let rest = glob_escape s in if is_glob c then b'[' ∷ c ∷ b']' ∷ rest else c ∷ rest

abbrev cons_field : ℕ → List Bytes → List Bytes
cons_field c [] = (c ∷ []) ∷ []
cons_field c (w ∷ ws) = (c ∷ w) ∷ ws

-- `bytes.split(|b| *b == 0)`
unfoldable pub split_nul : Bytes → List Bytes
split_nul [] = [] ∷ []
split_nul (c ∷ s) = let rest = split_nul s in if c == 0 then [] ∷ rest else cons_field c rest

abbrev pub entry_name : Bytes → Bytes → Text
entry_name name kind =
    if list_eq kind (codes "d") then from_utf8_lossy name ++ (b'/' ∷ []) else from_utf8_lossy name

-- The fields in pairs; a name that is empty is skipped.
unfoldable pub pair_fields : List Bytes → List Text
pair_fields (name ∷ (kind ∷ fields)) =
    let rest = pair_fields fields in if is_empty name then rest else entry_name name kind ∷ rest
pair_fields fields = []

unfoldable pub parse_find_type_entries : Bytes → List Text
unfolding split_nul pair_fields
parse_find_type_entries bytes = pair_fields (split_nul bytes)
