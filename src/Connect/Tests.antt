-- ===== src/Connect/Tests.antt =====
-- Runs of the line editor, the history and the input engine on concrete input.
use irosh.Connect.Editor.Typing.{editor_at, Leaves, run-type_erase}
use irosh.Connect.Editor.{insert_byte, backspace, prompt, apply, new_escape}
use irosh.Common.{
  ◌++◌, map, ℕ, ◌≤◌, ◌≡◌, refl, true, [], ◌∷◌, none, some, false, inl, codes, arith, inr,
}
use irosh.Storage.Shadow.{trim}
use irosh.Connect.Engine.{
  process_remote, step_remote, handle_remote_byte, follow_byte, escape_line, InputEngine,
  new_engine,
}
use irosh.Connect.Engine.Ansi.{passed, process_remote-csi}
use irosh.Connect.History.{CommandHistory, missing, text, new_history}
use irosh.Connect.History.Moves.{IsValid, ups, downs, downs-ups}
use irosh.Connect.History.Restart.{unlines, IsPlain, adds, new_history-adds}
use irosh.Connect.Editor.Laws.{IsFine, apply-IsValid}

abbrev history : CommandHistory
history = record {
  path = none;
  entries = codes "put a" ∷ codes "get b" ∷ codes "ls" ∷ [];
  index = none;
  pending = [];
}

history-IsValid : IsValid history
history-IsValid = record { bounded = omega arith; in_range = inl refl }

apply-IsValid_example : IsFine (apply backspace new_escape history)
apply-IsValid_example = apply-IsValid backspace new_escape history (omega arith, history-IsValid)

downs-ups_example :
    let h' = record history { index = some 1; pending = codes "pu" } in
    (ups 2 (codes "pu") history ≡ some h')
    × (downs 1 h' ≡ some (some (codes "pu"), record history { pending = codes "pu" }))
downs-ups_example = downs-ups 1 (codes "pu") history refl (omega arith)

plain : (c : ℕ) → 20 ≤ c → IsPlain c
plain c h = ((λ e. omega (arith, e)), (λ e. omega (arith, e)))

new_history-adds_example :
    let h = adds (codes " ls " ∷ codes "x" ∷ []) (
      new_history
        (some (record { content = text (unlines (codes "ls" ∷ [])); writable = true }))) in
    (new_history h.path).entries ≡ h.entries
unfolding trim
new_history-adds_example =
    new_history-adds (codes " ls " ∷ codes "x" ∷ []) (codes "ls" ∷ [])
      (
        (plain b'l' (omega arith), (plain b's' (omega arith), tt)),
        ((plain b'x' (omega arith), tt), tt),
      )
      ((plain b'l' (omega arith), (plain b's' (omega arith), tt)), tt)

abbrev engine : InputEngine
engine =
    new_engine (record { content = missing; writable = true })
      (record { content = missing; writable = true }) false

process_remote-csi_example :
    process_remote (0x1b ∷ b'[' ∷ codes "38;5;196m") engine []
    ≡ passed engine (0x1b ∷ b'[' ∷ codes "38;5;196m")
process_remote-csi_example =
    process_remote-csi (codes "38;5;196") b'm' engine []
      (refl, (refl, (refl, (refl, (refl, (refl, (refl, (refl, tt)))))))) refl
      (inr (λ h. omega (arith, h))) refl (λ h. cc h)

-- The key Delete on an empty line: its last byte opens the local prompt.
delete_key :
    let p = process_remote (0x1b ∷ b'[' ∷ b'3' ∷ b'~' ∷ []) engine [] in
    (p.engine.active_line ≡ some escape_line) × (p.to_remote ≡ 0x1b ∷ b'[' ∷ b'3' ∷ [])
unfolding process_remote step_remote handle_remote_byte follow_byte
delete_key = (refl, refl)

run-type_erase_example :
    Leaves
      (map insert_byte (codes "et") ++ (backspace ∷ backspace ∷ []))
      (editor_at prompt (codes "g") (codes " b"))
      (editor_at prompt (codes "g") (codes " b"))
      history
run-type_erase_example = run-type_erase (codes "et") prompt (codes "g") (codes " b") history
