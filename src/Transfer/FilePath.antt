-- ===== src/Transfer/FilePath.antt =====
-- src/transport/transfer/helpers.rs: the sanitizer of paths that a peer sends, on Unix.
pub mod Segments
pub mod Safe
pub mod Canonical
use irosh.Common.{
  ℕ, ◌==◌, Bool, true, false, ◌||◌, List, [], ◌∷◌, ◌++◌, Result, ok, err, if◌then◌else◌, is_empty,
  list_eq, codes, reverse,
}
use irosh.Transfer.Types.{Text, TransferError, invalid_path}

-- `std::path::Component`; a prefix exists on Windows only.
pub data Component : Type 0 where
  root_dir cur_dir parent_dir : Component
  normal : Text → Component

-- `str::contains`
abbrev pub contains : ℕ → Text → Bool
contains c [] = false
contains c (d ∷ s) = (d == c) || contains c s

abbrev pub cons_head : ℕ → List Text → List Text
cons_head c [] = (c ∷ []) ∷ []
cons_head c (w ∷ ws) = (c ∷ w) ∷ ws

-- The parts between the slashes.
unfoldable pub split : Text → List Text
split [] = [] ∷ []
split (c ∷ s) = let rest = split s in if c == b'/' then [] ∷ rest else cons_head c rest

-- `Path::is_absolute` on Unix.
abbrev pub is_absolute : Text → Bool
is_absolute [] = false
is_absolute (c ∷ s) = c == b'/'

-- One part between slashes: repeated slashes and inner `.` are skipped.
unfoldable pub component : Text → List Component → List Component
component w rest =
    if is_empty w
    then rest
    else if list_eq w (codes ".")
    then rest
    else if list_eq w (codes "..")
    then parent_dir ∷ rest
    else normal w ∷ rest

unfoldable pub inner : List Text → List Component
inner [] = []
inner (w ∷ ws) = component w (inner ws)

-- Only a first `.` is a component.
unfoldable pub relative : List Text → List Component
relative [] = []
relative (w ∷ ws) = if list_eq w (codes ".") then cur_dir ∷ inner ws else component w (inner ws)

-- `Path::components` on Unix.
unfoldable pub components : Text → List Component
unfolding split inner relative component
components raw = if is_absolute raw then root_dir ∷ inner (split raw) else relative (split raw)

-- The `PathBuf` that is built holds names only; it is the stack of them, the last name first.
-- `push` is `◌∷◌`, and `pop` fails on the empty path.
unfoldable pub sanitize_loop : Text → List Component → List Text → Result TransferError (List Text)
sanitize_loop raw [] sanitized = ok sanitized
sanitize_loop raw (normal c ∷ rest) sanitized = sanitize_loop raw rest (c ∷ sanitized)
sanitize_loop raw (cur_dir ∷ rest) sanitized = sanitize_loop raw rest sanitized
sanitize_loop raw (parent_dir ∷ rest) [] =
    err (invalid_path (codes "path traversal attempt detected: " ++ raw))
sanitize_loop raw (parent_dir ∷ rest) (c ∷ sanitized) = sanitize_loop raw rest sanitized
sanitize_loop raw (root_dir ∷ rest) sanitized =
    err (invalid_path (codes "root or prefix components not allowed: " ++ raw))

abbrev pub checked : List Text → Result TransferError (List Text)
checked [] = err (invalid_path (codes "sanitized path is empty"))
checked (c ∷ names) = ok (reverse (c ∷ names))

-- The names of the sanitized path, outermost first.
unfoldable pub sanitize_remote_path : Text → Result TransferError (List Text)
sanitize_remote_path raw =
    if contains 0 raw
    then err (invalid_path (codes "path contains null byte"))
    else if is_absolute raw
    then err (invalid_path (codes "absolute path not allowed: " ++ raw))
    else elim (sanitize_loop raw (components raw) []) [ ok names ↦ checked names | err e ↦ err e ]
