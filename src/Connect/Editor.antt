-- ===== src/Connect/Editor.antt =====
-- cli/src/commands/connect/input/editor.rs: the line editor of the escape line and of the prompt.
pub mod Laws
pub mod Typing
use irosh.Common.{
  ℕ, ◌+◌, ◌-◌, Bool, true, false, leb, ltb, ◌==◌, List, [], ◌∷◌, ◌++◌, Option, none, some, length,
  take, drop, is_empty, if◌then◌else◌,
}
use irosh.Connect.Utf8.{Text, Bytes, from_utf8_lossy, into_bytes}
use irosh.Connect.History.{CommandHistory, abandon_navigation, up, down}

pub data EditorEvent : Type 0 where
  insert_byte : ℕ → EditorEvent
  backspace delete move_left move_right move_home move_end history_up history_down tab submit :
      EditorEvent

pub data EditorEffect : Type 0 where
  no_op render clear_and_exit : EditorEffect
  submit_prompt submit_escape : Bytes → EditorEffect
  request_completion : EditorEffect

pub data EditorMode : Type 0 where
  escape prompt : EditorMode

pub record LineEditor : Type 0 where
  pub line : Bytes
  pub cursor : ℕ
  pub mode : EditorMode

abbrev pub new_escape : LineEditor
new_escape = record { line = b'~' ∷ []; cursor = 1; mode = escape }

abbrev pub new_prompt : LineEditor
new_prompt = record { line = []; cursor = 0; mode = prompt }

abbrev pub min : ℕ → ℕ → ℕ
min a b = if leb a b then a else b

abbrev pub replace_line : Bytes → ℕ → LineEditor → LineEditor
replace_line line cursor ed = record ed { line = line; cursor = min cursor (length line) }

-- What `apply` returns, with the editor and the history it leaves; `none` is a panic.
abbrev pub Outcome : Type 0
Outcome = Option (EditorEffect × LineEditor × CommandHistory)

-- `Vec::insert`, which panics beyond the end.
abbrev insert_at : ℕ → ℕ → Bytes → Option Bytes
insert_at i b line = if leb i (length line) then some (take i line ++ (b ∷ drop i line)) else none

-- `Vec::remove`, which panics from the end on.
abbrev remove_at : ℕ → Bytes → Option Bytes
remove_at i line = if ltb i (length line) then some (take i line ++ drop (i + 1) line) else none

abbrev is_escape : EditorMode → Bool
is_escape escape = true
is_escape prompt = false

abbrev edited : EditorEffect → Option Bytes → ℕ → LineEditor → CommandHistory → Outcome
edited effect none cursor ed history = none
edited effect (some line) cursor ed history =
    some (effect, record ed { line = line; cursor = cursor }, history)

abbrev render_if : Bool → LineEditor → LineEditor → CommandHistory → Outcome
render_if true moved ed history = some (render, moved, history)
render_if false moved ed history = some (no_op, ed, history)

-- A line of the history takes the place of the editor's.
abbrev shown : LineEditor → Option (Option Text × CommandHistory) → Outcome
shown ed none = none
shown ed (some (none, history)) = some (no_op, ed, history)
shown ed (some (some text, history)) =
    let line = into_bytes text in
    some (render, record ed { line = line; cursor = length line }, history)

abbrev submitted : EditorMode → Bytes → EditorEffect
submitted prompt line = submit_prompt line
submitted escape line = submit_escape line

abbrev after_backspace : EditorMode → Option Bytes → EditorEffect
after_backspace escape (some []) = clear_and_exit
after_backspace _ _ = render

unfoldable pub apply : EditorEvent → LineEditor → CommandHistory → Outcome
apply (insert_byte byte) ed history =
    let history' = abandon_navigation (from_utf8_lossy ed.line) history in
    edited render (insert_at ed.cursor byte ed.line) (ed.cursor + 1) ed history'
apply backspace ed history =
    let history' = abandon_navigation (from_utf8_lossy ed.line) history in
    let line = remove_at (ed.cursor - 1) ed.line in
    if ed.cursor == 0
    then some (no_op, ed, history)
    else edited (after_backspace ed.mode line) line (ed.cursor - 1) ed history'
apply delete ed history =
    let history' = abandon_navigation (from_utf8_lossy ed.line) history in
    if leb (length ed.line) ed.cursor
    then some (no_op, ed, history)
    else edited render (remove_at ed.cursor ed.line) ed.cursor ed history'
apply move_left ed history =
    render_if (ltb 0 ed.cursor) (record ed { cursor = ed.cursor - 1 }) ed history
apply move_right ed history =
    render_if (ltb ed.cursor (length ed.line)) (record ed { cursor = ed.cursor + 1 }) ed history
apply move_home ed history = some (render, record ed { cursor = 0 }, history)
apply move_end ed history = some (render, record ed { cursor = length ed.line }, history)
apply history_up ed history = shown ed (up (from_utf8_lossy ed.line) history)
apply history_down ed history = shown ed (down history)
apply tab ed history = some (request_completion, ed, history)
apply submit ed history = some (submitted ed.mode ed.line, ed, history)
