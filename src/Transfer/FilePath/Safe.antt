-- ===== src/Transfer/FilePath/Safe.antt =====
-- What a sanitized path is made of.
use irosh.Common.{
  ◌≡◌, refl, false, List, [], ◌∷◌, ◌++◌, All, is_empty, list_eq, codes, ok, reverse, Bool-cases,
  inl, inr, Result-cases, subst, reverse-append,
}
use irosh.Transfer.Types.{Text}
use irosh.Transfer.FilePath.{
  Component, normal, root_dir, cur_dir, parent_dir, contains, split, component, inner, relative,
  components, is_absolute, sanitize_loop, sanitize_remote_path, checked,
}
use irosh.Transfer.FilePath.Segments.{Lacks, split-Lacks_slash, split-Lacks}

-- One name below a directory: it cannot leave the directory, and no system call misreads it.
pub record IsName (w : Text) : Type 0 where
  pub not_empty : is_empty w ≡ false
  pub not_dot : list_eq w (codes ".") ≡ false
  pub not_dots : list_eq w (codes "..") ≡ false
  pub no_slash : Lacks b'/' w
  pub no_nul : Lacks 0 w

-- A component that stands for a name is one.
abbrev IsFine : Component → Type 0
IsFine (normal w) = IsName w
IsFine root_dir = Unit
IsFine cur_dir = Unit
IsFine parent_dir = Unit

component-IsFine :
    (w : Text) (rest : List Component)
    → Lacks b'/' w
    → Lacks 0 w
    → All IsFine rest
    → All IsFine (component w rest)
unfolding component
component-IsFine w rest slash nul fine = elim (Bool-cases (is_empty w)) [
  | inl e ↦ rw e fine
  | inr full ↦ rw full (elim (Bool-cases (list_eq w (codes "."))) [
    | inl e ↦ rw e fine
    | inr dot ↦ rw dot (elim (Bool-cases (list_eq w (codes ".."))) [
      | inl e ↦ rw e (tt, fine)
      | inr dots ↦ rw dots (
        record { not_empty = full; not_dot = dot; not_dots = dots; no_slash = slash; no_nul = nul },
        fine,
      )
    ])
  ])
]

inner-IsFine : (ws : List Text) → All (Lacks b'/') ws → All (Lacks 0) ws → All IsFine (inner ws)
unfolding inner
inner-IsFine [] slash nul = tt
inner-IsFine (w ∷ ws) (slash, slashes) (nul, nuls) =
    component-IsFine w (inner ws) slash nul (inner-IsFine ws slashes nuls)

relative-IsFine :
    (ws : List Text) → All (Lacks b'/') ws → All (Lacks 0) ws → All IsFine (relative ws)
unfolding relative
relative-IsFine [] slash nul = tt
relative-IsFine (w ∷ ws) (slash, slashes) (nul, nuls) = elim (Bool-cases (list_eq w (codes "."))) [
  | inl e ↦ rw e (tt, inner-IsFine ws slashes nuls)
  | inr e ↦ rw e (component-IsFine w (inner ws) slash nul (inner-IsFine ws slashes nuls))
]

components-IsFine : (raw : Text) → Lacks 0 raw → All IsFine (components raw)
unfolding components
components-IsFine raw nul =
    let slashes = split-Lacks_slash raw in
    let nuls = split-Lacks 0 raw nul in
    elim (Bool-cases (is_absolute raw)) [
      | inl e ↦ rw e (tt, inner-IsFine (split raw) slashes nuls)
      | inr e ↦ rw e (relative-IsFine (split raw) slashes nuls)
    ]

sanitize_loop-IsName :
    (raw : Text) (cs : List Component) (stack : List Text) {names : List Text}
    → All IsFine cs
    → All IsName stack
    → sanitize_loop raw cs stack ≡ ok names
    → All IsName names
unfolding sanitize_loop
sanitize_loop-IsName raw [] stack {names} fine good h =
    let e : stack ≡ names = cc in subst (All IsName) e good
sanitize_loop-IsName raw (normal c ∷ cs) stack (f, fine) good h =
    sanitize_loop-IsName raw cs (c ∷ stack) fine (f, good) h
sanitize_loop-IsName raw (cur_dir ∷ cs) stack (_, fine) good h =
    sanitize_loop-IsName raw cs stack fine good h
sanitize_loop-IsName raw (parent_dir ∷ cs) [] (_, fine) good h = cc
sanitize_loop-IsName raw (parent_dir ∷ cs) (c ∷ stack) (_, fine) good h =
    sanitize_loop-IsName raw cs stack fine good.1 h
sanitize_loop-IsName raw (root_dir ∷ cs) stack fine good h = cc

module _ {A : Type 0} (P : A → Type 0) where
  All-append : (xs ys : List A) → All P xs → All P ys → All P (xs ++ ys)
  All-append [] ys p q = q
  All-append (x ∷ xs) ys p q = (p.0, All-append xs ys p.1 q)

  All-reverse : (xs : List A) → All P xs → All P (reverse xs)
  All-reverse [] p = p
  All-reverse (x ∷ xs) p =
      rw (reverse-append (x ∷ []) xs)
        (All-append (reverse xs) (x ∷ []) (All-reverse xs p.1) (p.0, tt))

is_empty-append_one : (xs : List Text) (x : Text) → is_empty (xs ++ (x ∷ [])) ≡ false
is_empty-append_one [] x = refl
is_empty-append_one (y ∷ xs) x = refl

checked-IsName :
    (stack : List Text) {names : List Text}
    → All IsName stack
    → checked stack ≡ ok names
    → (is_empty names ≡ false) × All IsName names
checked-IsName [] good h = cc
checked-IsName (c ∷ stack) {names} good h =
    let e : reverse (c ∷ stack) ≡ names = cc in
    (
      subst (λ l. is_empty l ≡ false) e
          (rw (reverse-append (c ∷ []) stack) (is_empty-append_one (reverse stack) c)),
      subst (All IsName) e (All-reverse IsName (c ∷ stack) good),
    )

-- Whatever a peer sends, a path that is accepted has at least one name, and each of its names is
-- one below the directory: no `..`, no `.`, no empty name, no slash and no NUL.
pub sanitize_remote_path-IsName :
    (raw : Text) (names : List Text)
    → sanitize_remote_path raw ≡ ok names
    → (is_empty names ≡ false) × All IsName names
unfolding sanitize_remote_path
sanitize_remote_path-IsName raw names h = elim (Bool-cases (contains 0 raw)) [
  | inl nul ↦ cc (rw nul at h)
  | inr nul ↦ elim (Bool-cases (is_absolute raw)) [
    | inl root ↦ cc (rw (nul, root) at h)
    | inr root ↦ elim (Result-cases (sanitize_loop raw (components raw) [])) [
      | inl (stack, e) ↦
          checked-IsName stack
            (sanitize_loop-IsName raw (components raw) [] (components-IsFine raw nul) tt e)
            (rw (nul, root, e) at h)
      | inr (x, e) ↦ cc (rw (nul, root, e) at h)
    ]
  ]
]
