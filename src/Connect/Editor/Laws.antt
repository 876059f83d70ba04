-- ===== src/Connect/Editor/Laws.antt =====
-- The line editor never panics, and its line is what stands before and after the cursor.
use irosh.Common.{
  ℕ, ◌+◌, ◌-◌, ◌≤◌, ◌<◌, ◌≡◌, refl, inl, inr, true, ◌==◌, leb, ltb, ◌∷◌, ◌++◌, Option, none, some,
  length, take, drop, length-append, length-take_le, Bool-cases, arith,
}
use irosh.Connect.Utf8.{Text, Bytes, from_utf8_lossy, into_bytes}
use irosh.Connect.History.{CommandHistory, abandon_navigation}
use irosh.Connect.History.Moves
use irosh.Connect.History.Moves.{up-IsValid, down-IsValid, abandon_navigation-IsValid, length-drop}
use irosh.Connect.Editor.{
  EditorEvent, EditorEffect, LineEditor, Outcome, apply, insert_byte, backspace, delete, move_left,
  move_right, move_home, move_end, history_up, history_down, tab, submit, render, no_op, shown,
  after_backspace,
}

-- The cursor stands within the line or at its end, and the history is in order.
abbrev pub IsValid : LineEditor → CommandHistory → Type 0
IsValid ed h = (ed.cursor ≤ length ed.line) × Moves.IsValid h

-- There was no panic, and what was left is valid.
abbrev pub IsFine : Outcome → Type 0
IsFine o =
    (effect : EditorEffect) × (ed : LineEditor) × (h : CommandHistory) × (o ≡ some (effect, ed, h))
    × (ed.cursor ≤ length ed.line)
    × Moves.IsValid h

length-remove :
    (i : ℕ) (line : Bytes)
    → i < length line
    → length (take i line ++ drop (i + 1) line) ≡ length line - 1
length-remove i line h = ground (
  arith,
  length-append (take i line) (drop (i + 1) line),
  length-take_le i line,
  length-drop (i + 1) line,
)

length-insert :
    (i b : ℕ) (line : Bytes)
    → i ≤ length line
    → length (take i line ++ (b ∷ drop i line)) ≡ length line + 1
length-insert i b line h = ground (
  arith,
  length-append (take i line) (b ∷ drop i line),
  length-take_le i line,
  length-drop i line,
)

shown-IsFine :
    (ed : LineEditor) (o : Option Text) (h : CommandHistory)
    (e : Option (Option Text × CommandHistory))
    → ed.cursor ≤ length ed.line
    → e ≡ some (o, h)
    → Moves.IsValid h
    → IsFine (shown ed e)
shown-IsFine ed none h e c at v = (no_op, ed, h, rw at refl, c, v)
shown-IsFine ed (some t) h e c at v =
    let line = into_bytes t in
    (render, record ed { line = line; cursor = length line }, h, rw at refl, omega arith, v)

-- From an editor with its cursor within the line and a history in order, whatever the event: the
-- editor does not panic, the cursor stays within the line, and the history stays in order.
pub apply-IsValid :
    (event : EditorEvent) (ed : LineEditor) (h : CommandHistory)
    → IsValid ed h
    → IsFine (apply event ed h)
unfolding apply
apply-IsValid (insert_byte b) ed h (c, v) =
    let h' = abandon_navigation (from_utf8_lossy ed.line) h in
    let line = take ed.cursor ed.line ++ (b ∷ drop ed.cursor ed.line) in
    (
      render,
      record ed { line = line; cursor = ed.cursor + 1 },
      h',
      ground arith,
      ground (arith, length-insert ed.cursor b ed.line c),
      abandon_navigation-IsValid (from_utf8_lossy ed.line) h v,
    )
apply-IsValid backspace ed h (c, v) = elim (Bool-cases (ed.cursor == 0)) [
  | inl start ↦ (no_op, ed, h, ground arith, c, v)
  | inr inside ↦
      let h' = abandon_navigation (from_utf8_lossy ed.line) h in
      let i = ed.cursor - 1 in
      let line = take i ed.line ++ drop (i + 1) ed.line in
      let in_range : ltb i (length ed.line) ≡ true = ground arith in
      (
        after_backspace ed.mode (some line),
        record ed { line = line; cursor = i },
        h',
        rw (inside, in_range) refl,
        ground (arith, length-remove i ed.line),
        abandon_navigation-IsValid (from_utf8_lossy ed.line) h v,
      )
]
apply-IsValid delete ed h (c, v) = elim (Bool-cases (leb (length ed.line) ed.cursor)) [
  | inl end ↦ (no_op, ed, h, ground arith, c, v)
  | inr inside ↦
      let h' = abandon_navigation (from_utf8_lossy ed.line) h in
      let line = take ed.cursor ed.line ++ drop (ed.cursor + 1) ed.line in
      (
        render,
        record ed { line = line },
        h',
        ground arith,
        ground (arith, length-remove ed.cursor ed.line),
        abandon_navigation-IsValid (from_utf8_lossy ed.line) h v,
      )
]
apply-IsValid move_left ed h (c, v) = elim (Bool-cases (ltb 0 ed.cursor)) [
  | inl inside ↦ (render, record ed { cursor = ed.cursor - 1 }, h, rw inside refl, omega arith, v)
  | inr start ↦ (no_op, ed, h, rw start refl, c, v)
]
apply-IsValid move_right ed h (c, v) = elim (Bool-cases (ltb ed.cursor (length ed.line))) [
  | inl inside ↦ (render, record ed { cursor = ed.cursor + 1 }, h, rw inside refl, ground arith, v)
  | inr end ↦ (no_op, ed, h, rw end refl, c, v)
]
apply-IsValid move_home ed h (c, v) = (_, _, _, refl, omega arith, v)
apply-IsValid move_end ed h (c, v) = (_, _, _, refl, omega arith, v)
apply-IsValid history_up ed h (c, v) =
    let (o, h', at, v') = up-IsValid (from_utf8_lossy ed.line) h v in shown-IsFine ed o h' _ c at v'
apply-IsValid history_down ed h (c, v) =
    let (o, h', at, v') = down-IsValid h v in shown-IsFine ed o h' _ c at v'
apply-IsValid tab ed h (c, v) = (_, _, _, refl, c, v)
apply-IsValid submit ed h (c, v) = (_, _, _, refl, c, v)
