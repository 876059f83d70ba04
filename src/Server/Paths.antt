-- ===== src/Server/Paths.antt =====
-- The paths of src/server/transfer/state.rs and helpers.rs: `Path` and `PathBuf` of the standard
-- library on Unix, as the components by which it compares them, and the checks of a peer's paths.
pub mod Inside
use irosh.Common.{
  ℕ, ◌+◌, ◌-◌, ◌≤◌, ◌==◌, Bool, true, false, ◌||◌, ◌&&◌, List, [], ◌∷◌, ◌++◌, Option, none, some,
  Result, ok, err, if◌then◌else◌, is_empty, list_eq, codes, leb, drop,
}
use irosh.Transfer.Types.{Text}
use irosh.Transfer.FilePath.{
  Component, normal, root_dir, cur_dir, parent_dir, contains, cons_head, split, components,
  is_absolute,
}

abbrev pub PathBuf : Type 0
PathBuf = List Component

-- The components that `Path::join` adds to a base that is not empty: a first `.` is not one.
abbrev pub added : PathBuf → PathBuf
added (cur_dir ∷ rest) = rest
added path = path

-- `Path::join`: an absolute path replaces the base.
unfoldable pub join : PathBuf → PathBuf → PathBuf
join [] path = path
join (c ∷ base) (root_dir ∷ rest) = root_dir ∷ rest
join (c ∷ base) path = (c ∷ base) ++ added path

abbrev pub last : PathBuf → Option Component
last [] = none
last (c ∷ []) = some c
last (c ∷ (d ∷ rest)) = last (d ∷ rest)

abbrev pub init : PathBuf → PathBuf
init [] = []
init (c ∷ []) = []
init (c ∷ (d ∷ rest)) = c ∷ init (d ∷ rest)

-- `Path::parent`
unfoldable pub parent : PathBuf → Option PathBuf
parent path = elim (last path) [ none ↦ none | some root_dir ↦ none | some c ↦ some (init path) ]

abbrev pub name_of : Option Component → Option Text
name_of (some (normal name)) = some name
name_of _ = none

-- `Path::file_name`
unfoldable pub file_name : PathBuf → Option Text
file_name path = name_of (last path)

abbrev pub without_name : PathBuf → Option Text → PathBuf
without_name path none = path
without_name path (some old) = init path

-- `PathBuf::set_file_name` with a name that is one plain component.
unfoldable pub set_file_name : PathBuf → Text → PathBuf
unfolding file_name
set_file_name path name = without_name path (file_name path) ++ (normal name ∷ [])

abbrev pub text_of : Component → Text
text_of root_dir = []
text_of cur_dir = codes "."
text_of parent_dir = codes ".."
text_of (normal name) = name

abbrev pub joined : PathBuf → Text
joined [] = []
joined (c ∷ []) = text_of c
joined (c ∷ (d ∷ rest)) = text_of c ++ (b'/' ∷ joined (d ∷ rest))

-- The text of a path, without its repeated slashes and inner dots.
abbrev pub display : PathBuf → Text
display (root_dir ∷ rest) = b'/' ∷ joined rest
display path = joined path

-- `str::split` with the pattern `['/', '\\']`.
unfoldable pub split_both : Text → List Text
split_both [] = [] ∷ []
split_both (c ∷ s) =
    let rest = split_both s in if c == b'/' || c == b'\\' then [] ∷ rest else cons_head c rest

-- `str::split('\\')`
unfoldable pub split_backslash : Text → List Text
split_backslash [] = [] ∷ []
split_backslash (c ∷ s) =
    let rest = split_backslash s in if c == b'\\' then [] ∷ rest else cons_head c rest

-- `.any(|c| c == "..")`
unfoldable pub has_parent_dir : List Text → Bool
has_parent_dir [] = false
has_parent_dir (w ∷ ws) = list_eq w (codes "..") || has_parent_dir ws

-- `str::starts_with` with one character.
abbrev pub starts_with : ℕ → Text → Bool
starts_with c [] = false
starts_with c (d ∷ s) = d == c

abbrev pub is_ascii_alphabetic : ℕ → Bool
is_ascii_alphabetic c = (leb b'A' c && leb c b'Z') || (leb b'a' c && leb c b'z')

-- A first character of more than one byte is not alphabetic and makes the second byte not a colon,
-- so the first two characters stand for the first two bytes.
abbrev pub is_drive : Text → Bool
is_drive (c ∷ (d ∷ s)) = d == b':' && is_ascii_alphabetic c
is_drive s = false

-- Two backslashes are also refused before this test, by the first of them.
abbrev pub is_unc : Text → Bool
is_unc (c ∷ (d ∷ (e ∷ s))) = c == b'\\' && d == b'\\'
is_unc s = false

unfoldable pub sanitize_relative_path : Text → Result Text Text
sanitize_relative_path raw =
    if is_empty raw
    then err (codes "entry path is empty")
    else if is_absolute raw
    then err (codes "absolute entry paths are not allowed")
    else if starts_with b'/' raw || starts_with b'\\' raw
    then err (codes "absolute entry paths are not allowed")
    else if is_drive raw
    then err (codes "drive-letter entry paths are not allowed")
    else if is_unc raw
    then err (codes "UNC entry paths are not allowed")
    else if has_parent_dir (split_both raw)
    then err (codes "path traversal detected in entry path")
    else ok raw
