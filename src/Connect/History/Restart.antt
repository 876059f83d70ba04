-- ===== src/Connect/History/Restart.antt =====
-- The history file: what a session has entered is what the next session starts with.
use irosh.Common.{
  ℕ, zero, suc, ◌+◌, ◌-◌, ◌≤◌, ◌<◌, ◌≡◌, ◌≢◌, refl, sym, ◌∙◌, ap, ◌⊎◌, inl, inr, true, false, ltb,
  List, [], ◌∷◌, ◌++◌, append_assoc, append-nil, some, length, drop, length-append, is_empty, All,
  Bool-cases, arith,
}
use irosh.Storage.Shadow.{trim}
use irosh.Connect.Utf8.{Text}
use irosh.Connect.History.{
  max_history_entries, CommandHistory, text, load_entries, strip_cr, lines_from, lines, new_history,
  push_entry, is_last, add, append_to_file,
}
use irosh.Connect.History.Moves.{length-drop}

-- No line feed and no carriage return.
abbrev pub IsPlain : ℕ → Type 0
IsPlain c = (c ≢ 10) × (c ≢ 13)

abbrev pub IsLine : Text → Type 0
IsLine s = All IsPlain s

-- Lines, each ended by a line feed.
abbrev pub unlines : List Text → Text
unlines [] = []
unlines (l ∷ ls) = l ++ (10 ∷ unlines ls)

strip_cr_plain : (s : Text) → IsLine s → strip_cr s ≡ s
unfolding strip_cr
strip_cr_plain [] p = refl
strip_cr_plain (c ∷ []) p = ground arith
strip_cr_plain (c ∷ d ∷ s) p = ap (λ t. c ∷ t) (strip_cr_plain (d ∷ s) p.1)

lines_from-line :
    (line w s : Text) → IsLine w → lines_from line (w ++ (10 ∷ s)) ≡ strip_cr (line ++ w) ∷ lines s
unfolding lines_from
lines_from-line line [] s p = rw (append-nil line) refl
lines_from-line line (c ∷ w) s p =
    let split : (line ++ (c ∷ [])) ++ w ≡ line ++ (c ∷ w) = append_assoc line (c ∷ []) w in
    ground (arith, lines_from-line (line ++ (c ∷ [])) w s)

-- A file of lines is read as these lines.
pub lines-unlines : (ls : List Text) → All IsLine ls → lines (unlines ls) ≡ ls
unfolding lines_from
lines-unlines [] p = refl
lines-unlines (l ∷ ls) p =
    lines_from-line [] l (unlines ls) p.0 ∙ rw (strip_cr_plain l p.0, lines-unlines ls p.1) refl

unlines-append_one :
    (ls : List Text) (l : Text) → unlines (ls ++ (l ∷ [])) ≡ unlines ls ++ (l ++ (10 ∷ []))
unlines-append_one [] l = refl
unlines-append_one (m ∷ ls) l =
    rw (unlines-append_one ls l) (sym (append_assoc m (10 ∷ unlines ls) _))

drop-append :
    {A : Type 0} (n : ℕ) (xs ys : List A) → n ≤ length xs → drop n xs ++ ys ≡ drop n (xs ++ ys)
drop-append zero xs ys h = refl
drop-append (suc n) [] ys h = absurd (omega arith)
drop-append (suc n) (x ∷ xs) ys h = drop-append n xs ys (omega arith)

drop_one-drop : {A : Type 0} (n : ℕ) (xs : List A) → drop 1 (drop n xs) ≡ drop (suc n) xs
drop_one-drop zero xs = refl
drop_one-drop (suc n) [] = refl
drop_one-drop (suc n) (x ∷ xs) = drop_one-drop n xs

-- The last thousand.
abbrev last_entries : List Text → List Text
last_entries ls = drop (length ls - max_history_entries) ls

push_entry-last_entries :
    (e : Text) (ls : List Text) → push_entry e (last_entries ls) ≡ last_entries (ls ++ (e ∷ []))
unfolding push_entry
push_entry-last_entries e ls =
    let n = length ls - max_history_entries in
    let len : length (ls ++ (e ∷ [])) ≡ length ls + 1 = length-append ls (e ∷ []) in
    let joined : drop n ls ++ (e ∷ []) ≡ drop n (ls ++ (e ∷ [])) =
      drop-append n ls (e ∷ []) (omega arith) in
    let kept : length (drop n (ls ++ (e ∷ []))) ≡ length ls + 1 - n =
      length-drop n (ls ++ (e ∷ [])) ∙ ap (λ k. k - n) len in
    let next : (suc n ≡ length (ls ++ (e ∷ [])) - max_history_entries)
        ⊎ ((length ls < max_history_entries)
            × (n ≡ length (ls ++ (e ∷ [])) - max_history_entries)) =
      ground (arith, len) in
    elim next [
      | inl one_more ↦
          let full : ltb max_history_entries (length (drop n (ls ++ (e ∷ [])))) ≡ true =
            ground (arith, kept, len, one_more) in
          rw (joined, full, drop_one-drop n (ls ++ (e ∷ [])))
            (ap (λ k. drop k (ls ++ (e ∷ []))) one_more)
      | inr (small, same) ↦
          let room : ltb max_history_entries (length (drop n (ls ++ (e ∷ [])))) ≡ false =
            ground (arith, kept) in
          rw (joined, room) (ap (λ k. drop k (ls ++ (e ∷ []))) same)
    ]

-- The history of a session of which the file holds the lines `ls`.
abbrev IsOn : List Text → CommandHistory → Type 0
IsOn ls h =
    (h.path ≡ some (record { content = text (unlines ls); writable = true }))
    × (h.entries ≡ last_entries ls)
    × All IsLine ls

All-append_one :
    (ls : List Text) (l : Text) → All IsLine ls → IsLine l → All IsLine (ls ++ (l ∷ []))
All-append_one [] l p q = (q, tt)
All-append_one (m ∷ ls) l p q = (p.0, All-append_one ls l p.1 q)

add-IsOn :
    (command : Text) (ls : List Text) (h : CommandHistory)
    → IsLine (trim command)
    → IsOn ls h
    → (ls' : List Text) × IsOn ls' (add command h)
unfolding add append_to_file
add-IsOn command ls h p on = elim (Bool-cases (is_empty (trim command))) [
  | inl blank ↦ (ls, ground arith)
  | inr typed ↦ elim (Bool-cases (is_last (trim command) h.entries)) [
    | inl again ↦ (ls, ground arith)
    | inr new ↦ (
      ls ++ (trim command ∷ []),
      (
        ground (arith, unlines-append_one ls (trim command)),
        ground (arith, push_entry-last_entries (trim command) ls),
        All-append_one ls (trim command) on.2 p,
      ),
    )
  ]
]

-- The commands of a session.
unfoldable pub adds : List Text → CommandHistory → CommandHistory
adds [] h = h
adds (c ∷ cs) h = adds cs (add c h)

adds-IsOn :
    (cs ls : List Text) (h : CommandHistory)
    → All (λ c. IsLine (trim c)) cs
    → IsOn ls h
    → (ls' : List Text) × IsOn ls' (adds cs h)
unfolding adds
adds-IsOn [] ls h p on = (ls, on)
adds-IsOn (c ∷ cs) ls h p on =
    let (ls₁, on₁) = add-IsOn c ls h p.0 on in adds-IsOn cs ls₁ (add c h) p.1 on₁

load_entries-unlines :
    (ls : List Text)
    → All IsLine ls
    → load_entries (some (record { content = text (unlines ls); writable = true }))
      ≡ last_entries ls
unfolding load_entries
load_entries-unlines ls p = rw (lines-unlines ls p) refl

-- A session on a history file that can be appended to, whatever commands without line breaks are
-- entered: the next session on the file starts with the entries that this one ends with.
pub new_history-adds :
    (cs ls : List Text)
    → All (λ c. IsLine (trim c)) cs
    → All IsLine ls
    → let h =
        adds cs (new_history (some (record { content = text (unlines ls); writable = true }))) in
      (new_history h.path).entries ≡ h.entries
new_history-adds cs ls p q =
    let h₀ = new_history (some (record { content = text (unlines ls); writable = true })) in
    let (ls', (path, entries, lines')) =
      adds-IsOn cs ls h₀ p (refl, load_entries-unlines ls q, q) in
    ap load_entries path ∙ load_entries-unlines ls' lines' ∙ sym entries
