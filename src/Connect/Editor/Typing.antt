-- ===== src/Connect/Editor/Typing.antt =====
-- The line editor as two texts, before and after the cursor: typing, erasing and moving.
use irosh.Common.{
  ℕ, zero, suc, ◌+◌, ◌-◌, ◌≡◌, refl, sym, ◌∙◌, ap, true, false, List, [], ◌∷◌, ◌++◌, append_assoc,
  append-nil, Option, none, some, reverse, reverse-reverse, reverse-cons, inl, inr, Option-cases,
  length, drop, length-append, take-append_length, drop-append_length, leb, ltb, ◌==◌, map,
  replicate, arith,
}
use irosh.Connect.Utf8.{Bytes, from_utf8_lossy}
use irosh.Connect.History.{CommandHistory, abandon_navigation}
use irosh.Connect.Editor.{
  EditorEvent, EditorEffect, EditorMode, LineEditor, apply, render, after_backspace, insert_byte,
  backspace,
}

-- The editor with this text before the cursor and that after it.
abbrev pub editor_at : EditorMode → Bytes → Bytes → LineEditor
editor_at mode before after = record { line = before ++ after; cursor = length before; mode = mode }

-- One event after the other; the effects are left out.
unfoldable pub run :
    List EditorEvent → LineEditor → CommandHistory → Option (LineEditor × CommandHistory)
run [] ed h = some (ed, h)
run (event ∷ events) ed h = elim (apply event ed h) [
  | none ↦ none
  | some (_, ed', h') ↦ run events ed' h'
]

left_of : (before after : Bytes) (b : ℕ) → (before ++ (b ∷ [])) ++ after ≡ before ++ (b ∷ after)
left_of before after b = append_assoc before (b ∷ []) after

length-snoc : (before : Bytes) (b : ℕ) → length (before ++ (b ∷ [])) ≡ length before + 1
length-snoc before b = omega (arith, length-append before (b ∷ []))

length-before : (before : Bytes) (b : ℕ) → length (before ++ (b ∷ [])) - 1 ≡ length before
length-before before b = omega (arith, length-append before (b ∷ []))

drop_suc :
    (k : ℕ) (before after : Bytes) (b : ℕ)
    → k ≡ length before + 1
    → drop k (before ++ (b ∷ after)) ≡ after
drop_suc zero before after b e = absurd (omega arith)
drop_suc (suc zero) [] after b e = refl
drop_suc (suc (suc k)) [] after b e = absurd (omega arith)
drop_suc (suc k) (x ∷ before) after b e = drop_suc k before after b (omega arith)

-- A typed byte goes in at the cursor, which moves behind it.
apply-insert_byte :
    (b : ℕ) (mode : EditorMode) (before after : Bytes) (h : CommandHistory)
    → apply (insert_byte b) (editor_at mode before after) h
      ≡ some (
        render,
        editor_at mode (before ++ (b ∷ [])) after,
        abandon_navigation (from_utf8_lossy (before ++ after)) h,
      )
unfolding apply
apply-insert_byte b mode before after h =
    let fits : leb (length before) (length (before ++ after)) ≡ true =
      ground (arith, length-append before after) in
    rw
      (
        fits,
        take-append_length before after,
        drop-append_length before after,
        left_of before after b,
        length-snoc before b,
      )
      refl

-- Backspace takes away what stands before the cursor, whatever effect is returned.
apply-backspace :
    (b : ℕ) (mode : EditorMode) (before after : Bytes) (h : CommandHistory)
    → (effect : EditorEffect) × (apply backspace (editor_at mode (before ++ (b ∷ [])) after) h
        ≡ some (
          effect,
          editor_at mode before after,
          abandon_navigation (from_utf8_lossy ((before ++ (b ∷ [])) ++ after)) h,
        ))
unfolding apply
apply-backspace b mode before after h =
    let inside : ltb (length before) (length (before ++ (b ∷ after))) ≡ true =
      ground (arith, length-append before (b ∷ after)) in
    let there : (length (before ++ (b ∷ [])) == 0) ≡ false = ground (arith, length-snoc before b) in
    (
      after_backspace mode (some (before ++ after)),
      rw
          (
            there,
            length-before before b,
            left_of before after b,
            inside,
            take-append_length before (b ∷ after),
            drop_suc (length before + 1) before after b refl,
          )
          refl,
    )

-- The same events from the same text leave the same text, whatever is in the history.
abbrev pub Leaves : List EditorEvent → LineEditor → LineEditor → CommandHistory → Type 0
Leaves events ed ed' h = (h' : CommandHistory) × (run events ed h ≡ some (ed', h'))

run-cons :
    (x : EditorEvent) (es : List EditorEvent) (ed : LineEditor) (h : CommandHistory)
    {effect : EditorEffect} {ed' : LineEditor} {h' : CommandHistory}
    → apply x ed h ≡ some (effect, ed', h')
    → run (x ∷ es) ed h ≡ run es ed' h'
unfolding run
run-cons x es ed h at = ap (λ o. elim o [ none ↦ none | some (_, ed', h') ↦ run es ed' h' ]) at

run-append :
    (es fs : List EditorEvent) (ed : LineEditor) (h : CommandHistory) {ed' : LineEditor}
    {h' : CommandHistory}
    → run es ed h ≡ some (ed', h')
    → run (es ++ fs) ed h ≡ run fs ed' h'
unfolding run
run-append [] fs ed h {ed'} {h'} e =
    ap (λ o. elim o [ none ↦ run fs ed h | some (ed, h) ↦ run fs ed h ]) e
run-append (x ∷ es) fs ed h {ed'} {h'} e = elim (Option-cases (apply x ed h)) [
  | inl panics ↦ absurd (ground arith)
  | inr ((effect, ed₁, h₁), at) ↦
      run-cons x (es ++ fs) ed h at ∙ run-append es fs ed₁ h₁ (sym (run-cons x es ed h at) ∙ e)
]

-- Typing puts the text in at the cursor, and leaves what stood around it.
pub run-type :
    (w : Bytes) (mode : EditorMode) (before after : Bytes) (h : CommandHistory)
    → Leaves
        (map insert_byte w)
        (editor_at mode before after)
        (editor_at mode (before ++ w) after)
        h
unfolding run
run-type [] mode before after h = (h, rw (append-nil before) refl)
run-type (b ∷ w) mode before after h =
    let h₁ = abandon_navigation (from_utf8_lossy (before ++ after)) h in
    let (h', rest) = run-type w mode (before ++ (b ∷ [])) after h₁ in
    let split : (before ++ (b ∷ [])) ++ w ≡ before ++ (b ∷ w) = left_of before w b in
    (
      h',
      run-cons (insert_byte b) (map insert_byte w) (editor_at mode before after) h
            (apply-insert_byte b mode before after h)
          ∙ rest
          ∙ ap (λ left. some (editor_at mode left after, h')) split,
    )

-- The text in the order in which backspace meets it.
run-erase_back :
    (w : Bytes) (mode : EditorMode) (before after : Bytes) (h : CommandHistory)
    → Leaves
        (replicate (length w) backspace)
        (editor_at mode (before ++ reverse w) after)
        (editor_at mode before after)
        h
unfolding run
run-erase_back [] mode before after h = (h, rw (append-nil before) refl)
run-erase_back (b ∷ w) mode before after h =
    let left = before ++ reverse w in
    let (effect, at) = apply-backspace b mode left after h in
    let (h', rest) =
      run-erase_back w mode before after
        (abandon_navigation (from_utf8_lossy ((left ++ (b ∷ [])) ++ after)) h) in
    let split : before ++ reverse (b ∷ w) ≡ left ++ (b ∷ []) =
      ap (λ r. before ++ r) (reverse-cons b w) ∙ sym (append_assoc before (reverse w) (b ∷ [])) in
    (
      h',
      ap (λ l. run (replicate (length (b ∷ w)) backspace) (editor_at mode l after) h) split
          ∙ run-cons backspace (replicate (length w) backspace)
              (editor_at mode (left ++ (b ∷ [])) after) h at
          ∙ rest,
    )

length-reverse : (w : Bytes) → length (reverse w) ≡ length w
length-reverse [] = refl
length-reverse (b ∷ w) =
    ap length (reverse-cons b w)
    ∙ omega (arith, length-append (reverse w) (b ∷ []), length-reverse w)

-- What was typed at the cursor is taken away by as many times backspace: the line, the cursor and
-- the mode are what they were, wherever the cursor stood.
pub run-type_erase :
    (w : Bytes) (mode : EditorMode) (before after : Bytes) (h : CommandHistory)
    → Leaves
        (map insert_byte w ++ replicate (length w) backspace)
        (editor_at mode before after)
        (editor_at mode before after)
        h
run-type_erase w mode before after h =
    let (h₁, typed) = run-type w mode before after h in
    let (h₂, erased) = run-erase_back (reverse w) mode before after h₁ in
    (
      h₂,
      run-append (map insert_byte w) (replicate (length w) backspace) (editor_at mode before after)
            h typed
          ∙ ap (λ v. run (replicate (length w) backspace) (editor_at mode (before ++ v) after) h₁)
              (sym (reverse-reverse w))
          ∙ ap
              (λ n.
                run (replicate n backspace) (editor_at mode (before ++ reverse (reverse w)) after)
                  h₁)
              (sym (length-reverse w))
          ∙ erased,
    )
