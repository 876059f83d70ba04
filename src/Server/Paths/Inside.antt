-- ===== src/Server/Paths/Inside.antt =====
-- A relative path that a peer sends stays below the directory it is joined to.
use irosh.Common.{
  ℕ, ◌==◌, ◌≡◌, refl, ◌∙◌, ap, sym, Bool, true, false, ◌||◌, List, [], ◌∷◌, ◌++◌, ok, is_empty,
  list_eq, list_eq→eq, codes, Bool-cases, inl, inr, All, arith,
}
use irosh.Transfer.Types.{Text}
use irosh.Transfer.FilePath.{
  Component, normal, root_dir, cur_dir, parent_dir, contains, cons_head, split, component, inner,
  relative, components, is_absolute,
}
use irosh.Server.Paths.{PathBuf, join, added, split_both, has_parent_dir, sanitize_relative_path}

-- A component that does not leave a directory.
abbrev is_inside : Component → Bool
is_inside (normal w) = true
is_inside cur_dir = true
is_inside parent_dir = false
is_inside root_dir = false

abbrev pub IsInside : Component → Type 0
IsInside c = is_inside c ≡ true

component-IsInside :
    (w : Text) (rest : PathBuf)
    → list_eq w (codes "..") ≡ false
    → All IsInside rest
    → All IsInside (component w rest)
unfolding component
component-IsInside w rest h inside = elim (Bool-cases (is_empty w)) [
  | inl e ↦ rw e inside
  | inr e ↦ rw e (elim (Bool-cases (list_eq w (codes "."))) [
    | inl e' ↦ rw e' inside
    | inr e' ↦ rw (e', h) (refl, inside)
  ])
]

inner-IsInside : (ws : List Text) → has_parent_dir ws ≡ false → All IsInside (inner ws)
unfolding inner has_parent_dir
inner-IsInside [] h = tt
inner-IsInside (w ∷ ws) h =
    component-IsInside w (inner ws) (ground (arith, h)) (inner-IsInside ws (ground (arith, h)))

relative-IsInside : (ws : List Text) → has_parent_dir ws ≡ false → All IsInside (relative ws)
unfolding relative has_parent_dir
relative-IsInside [] h = tt
relative-IsInside (w ∷ ws) h = elim (Bool-cases (list_eq w (codes "."))) [
  | inl e ↦ rw e (refl, inner-IsInside ws (ground (arith, h)))
  | inr e ↦
      rw e (
        component-IsInside w (inner ws) (ground (arith, h)) (inner-IsInside ws (ground (arith, h))))
]

pub components-IsInside :
    (raw : Text)
    → is_absolute raw ≡ false
    → has_parent_dir (split raw) ≡ false
    → All IsInside (components raw)
unfolding components
components-IsInside raw h k = rw h (relative-IsInside (split raw) k)

added-IsInside : (p : PathBuf) → All IsInside p → All IsInside (added p)
added-IsInside [] h = tt
added-IsInside (cur_dir ∷ p) h = h.1
added-IsInside (normal w ∷ p) h = h
added-IsInside (parent_dir ∷ p) h = h
added-IsInside (root_dir ∷ p) h = h

-- Joined to a base, such a path adds components to it.
pub join-IsInside :
    (c : Component) (base p : PathBuf)
    → All IsInside p
    → (join (c ∷ base) p ≡ (c ∷ base) ++ added p) × All IsInside (added p)
unfolding join
join-IsInside c base [] h = (refl, tt)
join-IsInside c base (cur_dir ∷ p) h = (refl, h.1)
join-IsInside c base (normal w ∷ p) h = (refl, h)
join-IsInside c base (parent_dir ∷ p) h = (refl, h)
join-IsInside c base (root_dir ∷ p) h = absurd (ground (arith, h.0))

-- The parts of a split, and whether the first is `..`.
abbrev head : List Text → Text
head [] = []
head (w ∷ ws) = w

abbrev tail : List Text → List Text
tail [] = []
tail (w ∷ ws) = ws

head-cons_head : (c : ℕ) (ws : List Text) → head (cons_head c ws) ≡ c ∷ head ws
head-cons_head c [] = refl
head-cons_head c (w ∷ ws) = refl

tail-cons_head : (c : ℕ) (ws : List Text) → tail (cons_head c ws) ≡ tail ws
tail-cons_head c [] = refl
tail-cons_head c (w ∷ ws) = refl

has_parent_dir_lem :
    (ws : List Text)
    → has_parent_dir ws ≡ (list_eq (head ws) (codes "..") || has_parent_dir (tail ws))
unfolding has_parent_dir
has_parent_dir_lem [] = refl
has_parent_dir_lem (w ∷ ws) = refl

-- A part between slashes without a backslash is a part between slashes and backslashes.
record Refines (coarse fine : List Text) : Type 0 where
  same_head : contains b'\\' (head coarse) ≡ false → head fine ≡ head coarse
  same_tail : has_parent_dir (tail coarse) ≡ true → has_parent_dir (tail fine) ≡ true

Refines-has_parent_dir :
    (coarse fine : List Text)
    → Refines coarse fine
    → has_parent_dir coarse ≡ true
    → has_parent_dir fine ≡ true
Refines-has_parent_dir coarse fine r h = elim (Bool-cases (list_eq (head coarse) (codes ".."))) [
  | inl e ↦
      let dots = list_eq→eq (head coarse) (codes "..") e in
      let same = r.same_head (rw dots refl) in
      ground (arith, has_parent_dir_lem fine, ap (λ w. list_eq w (codes "..")) same, e)
  | inr e ↦ ground (
    arith,
    has_parent_dir_lem fine,
    r.same_tail (ground (arith, has_parent_dir_lem coarse, e, h)),
  )
]

split-Refines : (s : Text) → Refines (split s) (split_both s)
unfolding split split_both
split-Refines [] = record { same_head = λ h. refl; same_tail = λ h. h }
split-Refines (c ∷ s) =
    let r = split-Refines s in
    elim (Bool-cases (c == b'/')) [
      | inl e ↦ record {
        same_head = λ h. rw e refl;
        same_tail = rw e (Refines-has_parent_dir (split s) (split_both s) r);
      }
      | inr e ↦ elim (Bool-cases (c == b'\\')) [
        | inl e' ↦ record {
          same_head =
              rw (e, e')
                (λ h. cc (rw e' at (sym (ap (contains b'\\') (head-cons_head c (split s))) ∙ h)));
          same_tail =
              rw (e, e')
                (λ h. ground (
                  arith,
                  has_parent_dir_lem (split_both s),
                  r.same_tail (ap has_parent_dir (sym (tail-cons_head c (split s))) ∙ h),
                ));
        }
        | inr e' ↦ record {
          same_head =
              rw (e, e')
                (λ h.
                  head-cons_head c (split_both s)
                  ∙ ap (λ w. c ∷ w)
                      (r.same_head
                        (rw e' at (ap (contains b'\\') (sym (head-cons_head c (split s))) ∙ h)))
                  ∙ sym (head-cons_head c (split s)));
          same_tail =
              rw (e, e')
                (λ h.
                  ap has_parent_dir (tail-cons_head c (split_both s))
                  ∙ r.same_tail (ap has_parent_dir (sym (tail-cons_head c (split s))) ∙ h));
        }
      ]
    ]

-- An entry path that is accepted is taken as it is; joined to a directory it adds to the path of
-- the directory components that are names, none of them `..` or the root.
pub sanitize_relative_path-IsInside :
    (raw p : Text) (c : Component) (base : PathBuf)
    → sanitize_relative_path raw ≡ ok p
    → (p ≡ raw)
      × (join (c ∷ base) (components p) ≡ (c ∷ base) ++ added (components p))
      × All IsInside (added (components p))
unfolding sanitize_relative_path
sanitize_relative_path-IsInside raw p c base h =
    let (same, flat, low) : (p ≡ raw)
        × (is_absolute raw ≡ false)
        × (has_parent_dir (split_both raw) ≡ false) =
      ground (arith, h) in
    let no_dots : has_parent_dir (split raw) ≡ false =
      elim (Bool-cases (has_parent_dir (split raw))) [
        | inl e ↦ absurd (
            ground (
              arith,
              Refines-has_parent_dir (split raw) (split_both raw) (split-Refines raw) e,
              low,
            ))
        | inr e ↦ e
      ] in
    let (joined, inside) =
      join-IsInside c base (components raw) (components-IsInside raw flat no_dots) in
    (same, rw same joined, rw same inside)
