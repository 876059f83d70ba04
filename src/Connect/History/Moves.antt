-- ===== src/Connect/History/Moves.antt =====
-- Moving through the history: it stays within the entries, and it comes back to where it began.
use irosh.Common.{
  ℕ, zero, suc, ◌+◌, ◌-◌, ◌≤◌, ◌<◌, ◌≡◌, refl, ◌∙◌, ap, ◌⊎◌, inl, inr, leb, List, [], ◌∷◌, ◌++◌,
  Option, none, some, length, drop, length-append, is_empty, Bool-cases, Option-cases, arith, Bool,
}
use irosh.Storage.Shadow.{trim}
use irosh.Connect.Utf8.{Text}
use irosh.Connect.History.{
  max_history_entries, CommandHistory, HistoryFile, HistoryContent, missing, unreadable, text,
  load_entries, lines, new_history, push_entry, add, entry_at, show_entry, up, down,
  abandon_navigation,
}

-- At most a thousand entries, and the position in them is one of them.
pub record IsValid (h : CommandHistory) : Type 0 where
  pub bounded : length h.entries ≤ max_history_entries
  pub in_range : (h.index ≡ none) ⊎ ((i : ℕ) × (h.index ≡ some i) × (i < length h.entries))

pub length-drop : {A : Type 0} (n : ℕ) (xs : List A) → length (drop n xs) ≡ length xs - n
length-drop zero xs = omega arith
length-drop (suc n) [] = omega arith
length-drop (suc n) (x ∷ xs) = omega (arith, length-drop n xs)

pub entry_at_in_range :
    (i : ℕ) (xs : List Text) → i < length xs → (x : Text) × (entry_at i xs ≡ some x)
unfolding entry_at
entry_at_in_range i [] h = absurd (omega arith)
entry_at_in_range zero (x ∷ xs) h = (x, refl)
entry_at_in_range (suc i) (x ∷ xs) h = entry_at_in_range i xs (omega arith)

pub new_history-IsValid : (path : Option HistoryFile) → IsValid (new_history path)
unfolding load_entries
new_history-IsValid none = ground arith
new_history-IsValid (some f) = valid f.content f.writable
  where
    valid :
        (content : HistoryContent) (writable : Bool)
        → IsValid (new_history (some (record { content = content; writable = writable })))
    valid missing writable = ground arith
    valid unreadable writable = ground arith
    valid (text content) writable =
        let all = lines content in
        ground (arith, length-drop (length all - max_history_entries) all)

pub add-IsValid : (command : Text) (h : CommandHistory) → IsValid h → IsValid (add command h)
unfolding add push_entry
add-IsValid command h v =
    let all = h.entries ++ (trim command ∷ []) in
    ground (arith, length-append h.entries (trim command ∷ []), length-drop 1 all)

show_entry-IsValid :
    (i : ℕ) (h : CommandHistory)
    → length h.entries ≤ max_history_entries
    → i < length h.entries
    → (x : Text) × (show_entry i h ≡ some (some x, record h { index = some i }))
      × (entry_at i h.entries ≡ some x)
      × IsValid (record h { index = some i })
unfolding show_entry
show_entry-IsValid i h bounded range =
    let (x, e) = entry_at_in_range i h.entries range in (x, ground arith, e, ground arith)

-- Moving up shows an entry, and never panics.
pub up-IsValid :
    (current : Text) (h : CommandHistory)
    → IsValid h
    → (o : Option Text) × (h' : CommandHistory) × (up current h ≡ some (o, h')) × IsValid h'
unfolding up
up-IsValid current h v = elim (Bool-cases (is_empty h.entries)) [
  | inl none_yet ↦ (none, h, ground arith, v)
  | inr entered ↦ elim (Option-cases h.index) [
    | inl e ↦
        let (x, shows, _, v') =
          show_entry-IsValid (length h.entries - 1) (record h { pending = current }) v.bounded
            (ground arith) in
        (some x, _, ground arith, v')
    | inr (i, e) ↦
        let (x, shows, _, v') =
          show_entry-IsValid (i - 1) h v.bounded (ground (arith, v.in_range)) in
        (some x, _, ground arith, v')
  ]
]

pub down-IsValid :
    (h : CommandHistory)
    → IsValid h
    → (o : Option Text) × (h' : CommandHistory) × (down h ≡ some (o, h')) × IsValid h'
unfolding down
down-IsValid h v = elim (Option-cases h.index) [
  | inl e ↦ (none, h, ground arith, v)
  | inr (i, e) ↦ elim (Bool-cases (leb (length h.entries) (i + 1))) [
    | inl last ↦
        (some h.pending, record h { index = none }, ground arith, ground (arith, v.bounded))
    | inr more ↦
        let (x, shows, _, v') = show_entry-IsValid (i + 1) h v.bounded (ground arith) in
        (some x, _, ground arith, v')
  ]
]

pub abandon_navigation-IsValid :
    (current : Text) (h : CommandHistory) → IsValid h → IsValid (abandon_navigation current h)
unfolding abandon_navigation
abandon_navigation-IsValid current h v = ground (arith, v.bounded)

-- `n` times up, and `n` times down; the line shown last, if one was.
unfoldable pub ups : ℕ → Text → CommandHistory → Option CommandHistory
ups zero current h = some h
ups (suc n) current h = elim (up current h) [ none ↦ none | some (_, h') ↦ ups n current h' ]

-- The line on the screen after `n + 1` times down from `h`.
unfoldable pub downs : ℕ → CommandHistory → Option (Option Text × CommandHistory)
downs zero h = down h
downs (suc n) h = elim (down h) [ none ↦ none | some (_, h') ↦ downs n h' ]

ups_inside :
    (n i k : ℕ) (current : Text) (h : CommandHistory)
    → h.index ≡ some k
    → k ≡ i + n
    → k < length h.entries
    → ups n current h ≡ some (record h { index = some i })
unfolding ups up show_entry
ups_inside zero i k current h e at r =
    let same : some k ≡ some i = ground arith in ap (λ o. some (record h { index = o })) (e ∙ same)
ups_inside (suc n) i k current h e at r =
    let (x, shown) = entry_at_in_range (k - 1) h.entries (omega arith) in
    ground (arith, ups_inside n i (k - 1) current (record h { index = some (k - 1) }) refl)

downs_inside :
    (n i : ℕ) (h : CommandHistory)
    → h.index ≡ some i
    → i + suc n ≡ length h.entries
    → downs n h ≡ some (some h.pending, record h { index = none })
unfolding downs down show_entry
downs_inside zero i h e r = ground arith
downs_inside (suc n) i h e r =
    let (x, shown) = entry_at_in_range (i + 1) h.entries (omega arith) in
    ground (arith, downs_inside n (i + 1) (record h { index = some (i + 1) }) refl)

-- From a history where nothing is selected: up any number of times, within the entries, selects
-- that entry counted from the last one; and down as often shows the line that was being typed
-- again, with nothing selected.
pub downs-ups :
    (n : ℕ) (current : Text) (h : CommandHistory)
    → h.index ≡ none
    → n < length h.entries
    → let h' = record h { index = some (length h.entries - suc n); pending = current } in
      (ups (suc n) current h ≡ some h')
      × (downs n h' ≡ some (some current, record h { pending = current; index = none }))
unfolding ups up show_entry
downs-ups n current h e r =
    let (x, shown) = entry_at_in_range (length h.entries - 1) h.entries (omega arith) in
    let h₁ = record h { index = some (length h.entries - 1); pending = current } in
    (
      ground
          (arith, ups_inside n (length h.entries - suc n) (length h.entries - 1) current h₁ refl),
      downs_inside n (length h.entries - suc n)
          (record h { index = some (length h.entries - suc n); pending = current }) refl
          (omega arith),
    )
