-- ===== src/Connect/History.antt =====
-- cli/src/commands/connect/history.rs: the commands entered so far, and moving through them.
pub mod Moves
pub mod Restart
use irosh.Common.{
  ℕ, ◌+◌, ◌-◌, Bool, true, false, leb, ltb, ◌==◌, List, [], ◌∷◌, ◌++◌, reverse, Option, none, some,
  length, drop, is_empty, list_eq, if◌then◌else◌,
}
use irosh.Storage.Shadow.{trim}
use irosh.Connect.Utf8.{Text}

abbrev pub max_history_entries : ℕ
max_history_entries = 1000

-- What is at the history's path: no file, one that cannot be read as text, or a text.
pub data HistoryContent : Type 0 where
  missing unreadable : HistoryContent
  text : Text → HistoryContent

-- The file at the history's path, and whether it can be made or appended to.
pub record HistoryFile : Type 0 where
  pub content : HistoryContent
  pub writable : Bool

-- `path`, with the file that is there.
pub record CommandHistory : Type 0 where
  pub path : Option HistoryFile
  pub entries : List Text
  pub index : Option ℕ
  pub pending : Text

-- A line without the carriage return that may end it.
unfoldable pub strip_cr : Text → Text
strip_cr [] = []
strip_cr (c ∷ []) = if c == 13 then [] else c ∷ []
strip_cr (c ∷ d ∷ s) = c ∷ strip_cr (d ∷ s)

-- `str::lines`: `line` is what the current line holds so far.
unfoldable pub lines_from : Text → Text → List Text
lines_from line [] = if is_empty line then [] else line ∷ []
lines_from line (c ∷ s) =
    let rest = lines_from [] s in
    let longer = lines_from (line ++ (c ∷ [])) s in if c == 10 then strip_cr line ∷ rest else longer

abbrev pub lines : Text → List Text
lines s = lines_from [] s

-- The last entries of the file.
unfoldable pub load_entries : Option HistoryFile → List Text
load_entries none = []
load_entries (some f) = elim f.content [
  | missing ↦ []
  | unreadable ↦ []
  | text content ↦ drop (length (lines content) - max_history_entries) (lines content)
]

-- `CommandHistory::new`
abbrev pub new_history : Option HistoryFile → CommandHistory
new_history path = record { path = path; entries = load_entries path; index = none; pending = [] }

-- A file that is missing is created, and one that is no text does not become one.
unfoldable pub append_to_file : Text → Option HistoryFile → Option HistoryFile
append_to_file entry none = none
append_to_file entry (some f) =
    if f.writable
    then some (record f {
      content = elim f.content [
        | missing ↦ text (entry ++ (10 ∷ []))
        | unreadable ↦ unreadable
        | text content ↦ text (content ++ (entry ++ (10 ∷ [])))
      ];
    })
    else some f

unfoldable pub is_last : Text → List Text → Bool
is_last e [] = false
is_last e (x ∷ []) = list_eq x e
is_last e (x ∷ y ∷ xs) = is_last e (y ∷ xs)

-- `Vec::remove(0)`, after a push that made the list too long.
unfoldable pub push_entry : Text → List Text → List Text
push_entry e entries =
    let all = entries ++ (e ∷ []) in
    if ltb max_history_entries (length all) then drop 1 all else all

unfoldable pub add : Text → CommandHistory → CommandHistory
add command h =
    let trimmed = trim command in
    if is_empty trimmed
    then h
    else if is_last trimmed h.entries
    then record h { index = none; pending = [] }
    else record {
      path = append_to_file trimmed h.path;
      entries = push_entry trimmed h.entries;
      index = none;
      pending = [];
    }

-- `entries[i]`, which panics, here `none`, out of range.
unfoldable pub entry_at : ℕ → List Text → Option Text
entry_at i entries = elim (drop i entries) [ [] ↦ none | x ∷ xs ↦ some x ]

-- The line to show, if there is one; the outer `none` is a panic.
unfoldable pub show_entry : ℕ → CommandHistory → Option (Option Text × CommandHistory)
show_entry i h = elim (entry_at i h.entries) [
  | none ↦ none
  | some x ↦ some (some x, record h { index = some i })
]

unfoldable pub up : Text → CommandHistory → Option (Option Text × CommandHistory)
up current h = if is_empty h.entries then some (none, h) else elim h.index [
  | none ↦ show_entry (length h.entries - 1) (record h { pending = current })
  | some i ↦ show_entry (i - 1) h
]

unfoldable pub down : CommandHistory → Option (Option Text × CommandHistory)
down h = elim h.index [
  | none ↦ some (none, h)
  | some i ↦
      if leb (length h.entries) (i + 1)
      then some (some h.pending, record h { index = none })
      else show_entry (i + 1) h
]

unfoldable pub abandon_navigation : Text → CommandHistory → CommandHistory
abandon_navigation current h = record h { index = none; pending = current }
