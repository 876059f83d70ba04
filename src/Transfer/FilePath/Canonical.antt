-- ===== src/Transfer/FilePath/Canonical.antt =====
-- A sanitized path that is sent on is accepted again, as the same path.
use irosh.Common.{
  ℕ, ◌≡◌, refl, ◌∙◌, false, List, [], ◌∷◌, ◌++◌, arith, All, map, ok, reverse, ap, sym,
  reverse-append, append_assoc, append-nil, reverse-reverse,
}
use irosh.Transfer.Types.{Text}
use irosh.Transfer.FilePath.{
  Component, normal, split, component, inner, relative, components, is_absolute, sanitize_loop,
  sanitize_remote_path, checked,
}
use irosh.Transfer.FilePath.Segments.{Lacks, split-slash, split_one}
use irosh.Transfer.FilePath.Safe.{IsName, sanitize_remote_path-IsName}

-- The path as text.
abbrev pub display : List Text → Text
display [] = []
display (w ∷ []) = w
display (w ∷ (v ∷ ws)) = w ++ (b'/' ∷ display (v ∷ ws))

split-display :
    (w : Text) (ws : List Text) → All IsName (w ∷ ws) → split (display (w ∷ ws)) ≡ w ∷ ws
split-display w [] good = split_one w good.0.no_slash
split-display w (v ∷ ws) good =
    split-slash w (display (v ∷ ws)) good.0.no_slash ∙ ap (λ l. w ∷ l) (split-display v ws good.1)

component_lem : (w : Text) (rest : List Component) → IsName w → component w rest ≡ normal w ∷ rest
unfolding component
component_lem w rest good = rw (good.not_empty, good.not_dot, good.not_dots)

inner_lem : (ws : List Text) → All IsName ws → inner ws ≡ map normal ws
unfolding inner
inner_lem [] good = refl
inner_lem (w ∷ ws) good =
    component_lem w (inner ws) good.0 ∙ ap (λ l. normal w ∷ l) (inner_lem ws good.1)

relative_lem :
    (w : Text) (ws : List Text) → All IsName (w ∷ ws) → relative (w ∷ ws) ≡ map normal (w ∷ ws)
unfolding relative
relative_lem w ws good =
    rw (good.0.not_dot)
      (component_lem w (inner ws) good.0 ∙ ap (λ l. normal w ∷ l) (inner_lem ws good.1))

sanitize_loop_lem :
    (raw : Text) (ws stack : List Text)
    → sanitize_loop raw (map normal ws) stack ≡ ok (reverse ws ++ stack)
unfolding sanitize_loop
sanitize_loop_lem raw [] stack = refl
sanitize_loop_lem raw (w ∷ ws) stack =
    sanitize_loop_lem raw ws (w ∷ stack)
    ∙ ap ok (
        sym (
          ap (λ l. l ++ stack) (reverse-append (w ∷ []) ws)
          ∙ append_assoc (reverse ws) (w ∷ []) stack))

contains-append : (d : ℕ) (v w : Text) → Lacks d v → Lacks d w → Lacks d (v ++ w)
contains-append d [] w p q = q
contains-append d (c ∷ v) w p q = ground (arith, contains-append d v w)

display-Lacks_nul : (w : Text) (ws : List Text) → All IsName (w ∷ ws) → Lacks 0 (display (w ∷ ws))
display-Lacks_nul w [] good = good.0.no_nul
display-Lacks_nul w (v ∷ ws) good =
    contains-append 0 w _ good.0.no_nul (display-Lacks_nul v ws good.1)

is_absolute-append : (w s : Text) → IsName w → is_absolute (w ++ s) ≡ false
is_absolute-append [] s good = ground (arith, good.not_empty)
is_absolute-append (c ∷ w) s good = ground (arith, good.no_slash)

is_absolute-display :
    (w : Text) (ws : List Text) → All IsName (w ∷ ws) → is_absolute (display (w ∷ ws)) ≡ false
is_absolute-display w [] good = rw (← append-nil w) (is_absolute-append w [] good.0)
is_absolute-display w (v ∷ ws) good = is_absolute-append w _ good.0

checked_lem :
    (stack : List Text) {w : Text} {ws : List Text}
    → reverse stack ≡ w ∷ ws
    → checked stack ≡ ok (w ∷ ws)
checked_lem [] h = cc
checked_lem (c ∷ stack) h = ap ok h

-- Every path of at least one name is accepted, and as itself.
pub sanitize_remote_path-display :
    (w : Text) (ws : List Text)
    → All IsName (w ∷ ws)
    → sanitize_remote_path (display (w ∷ ws)) ≡ ok (w ∷ ws)
unfolding sanitize_remote_path components
sanitize_remote_path-display w ws good =
    let raw = display (w ∷ ws) in
    let walked : sanitize_loop raw (relative (split raw)) [] ≡ ok (reverse (w ∷ ws)) =
      ap (λ l. sanitize_loop raw (relative l) []) (split-display w ws good)
      ∙ ap (λ cs. sanitize_loop raw cs []) (relative_lem w ws good)
      ∙ sanitize_loop_lem raw (w ∷ ws) []
      ∙ ap ok (append-nil (reverse (w ∷ ws))) in
    rw (display-Lacks_nul w ws good, is_absolute-display w ws good, walked)
      (checked_lem (reverse (w ∷ ws)) (reverse-reverse (w ∷ ws)))

-- What the sanitizer returned it accepts again, and returns the same path.
pub sanitize_remote_path-sanitize_remote_path :
    (raw : Text) (names : List Text)
    → sanitize_remote_path raw ≡ ok names
    → sanitize_remote_path (display names) ≡ ok names
sanitize_remote_path-sanitize_remote_path raw [] h = cc ((sanitize_remote_path-IsName raw [] h).0)
sanitize_remote_path-sanitize_remote_path raw (w ∷ ws) h =
    sanitize_remote_path-display w ws (sanitize_remote_path-IsName raw (w ∷ ws) h).1
