-- ===== src/Server/Upload/PartPath.antt =====
-- The name of the part file: it is never the destination.
use irosh.Common.{
  ◌≡◌, ◌≢◌, refl, ◌∙◌, ap, sym, [], ◌∷◌, ◌++◌, Option, some, codes, length, length-append, arith,
  Option-cases, inl, inr, ◌<◌, none,
}
use irosh.Transfer.Types.{Text}
use irosh.Transfer.FilePath.{Component, root_dir, cur_dir, parent_dir, normal}
use irosh.Server.Paths.{
  init, parent, join, PathBuf, last, name_of, without_name, file_name, set_file_name,
}
use irosh.Server.Host.{IsBeyond}
use irosh.Server.Upload.{directory, part_path, name_or_transfer}

last-append : (p : PathBuf) (c : Component) → last (p ++ (c ∷ [])) ≡ some c
last-append [] c = refl
last-append (a ∷ []) c = refl
last-append (a ∷ (b ∷ p)) c = last-append (b ∷ p) c

file_name-set_file_name : (p : PathBuf) (name : Text) → file_name (set_file_name p name) ≡ some name
unfolding file_name set_file_name
file_name-set_file_name p name =
    ap name_of (last-append (without_name p (file_name p)) (normal name))

some_inj : {a b : Text} → ◌≡◌ {A = Option Text} (some a) (some b) → length a ≡ length b
some_inj h = cc

-- A hidden name made from the name of a path is another name.
pub hidden-ne :
    (p hidden : PathBuf) (rest : Text)
    → file_name hidden ≡ some (codes "." ++ (name_or_transfer (file_name p) ++ rest))
    → p ≢ hidden
hidden-ne p hidden rest named h =
    let same = ap file_name h ∙ named in
    elim (Option-cases (file_name p)) [
      | inl e ↦ cc (sym e ∙ same)
      | inr (name, e) ↦
          let longer : length name ≡ length (codes "." ++ (name ++ rest)) =
            some_inj
              (sym e ∙ same ∙ ap (λ o. some (codes "." ++ (name_or_transfer o ++ rest))) e) in
          absurd (omega (arith, longer, length-append name rest))
    ]

init-length : (c : Component) (p : PathBuf) → length (init (c ∷ p)) < length (c ∷ p)
init-length c [] = omega arith
init-length c (d ∷ p) = omega (arith, init-length d p)

init_of :
    (p d : PathBuf) → ◌≡◌ {A = Option PathBuf} (some (init p)) (some d) → length d ≡ length (init p)
init_of p d h = cc

parent_of :
    (p d : PathBuf) (c : Option Component)
    → elim c [ none ↦ none | some root_dir ↦ none | some c ↦ some (init p) ] ≡ some d
    → length d ≡ length (init p)
parent_of p d none h = cc
parent_of p d (some root_dir) h = cc
parent_of p d (some cur_dir) h = init_of p d h
parent_of p d (some parent_dir) h = init_of p d h
parent_of p d (some (normal name)) h = init_of p d h

-- The directory of a path is above it.
pub parent-length : (p d : PathBuf) → parent p ≡ some d → length d < length p
unfolding parent
parent-length [] d h = cc
parent-length (c ∷ p) d h = omega (arith, init-length c p, parent_of (c ∷ p) d (last (c ∷ p)) h)

pub directory-IsBeyond : (p : PathBuf) → IsBeyond (directory p) p
directory-IsBeyond p = elim (Option-cases (parent p)) [
  | inl e ↦ inr (rw (e, directory) refl)
  | inr (d, e) ↦ inl (rw (e, directory) (parent-length p d e))
]

-- Whatever the suffix, the part file stands beside the destination under another name.
pub part_path-ne : (p : PathBuf) (unique : Text) → p ≢ part_path p unique
unfolding part_path
part_path-ne p unique =
    hidden-ne p (part_path p unique) (codes "." ++ (unique ++ codes ".irosh_part"))
      (file_name-set_file_name p _)

file_name-join :
    (base : PathBuf) (name : Text) → file_name (join base (normal name ∷ [])) ≡ some name
unfolding file_name join
file_name-join [] name = refl
file_name-join (c ∷ base) name = ap name_of (last-append (c ∷ base) (normal name))

pub join-IsBeyond : (base : PathBuf) (name : Text) → IsBeyond base (join base (normal name ∷ []))
unfolding join
join-IsBeyond [] name = inl (omega arith)
join-IsBeyond (c ∷ base) name = inl (omega (arith, length-append (c ∷ base) (normal name ∷ [])))

-- The same of a file in the directory of the path.
pub beside-ne :
    (p directory : PathBuf) (rest : Text)
    → p ≢ join directory (normal (codes "." ++ (name_or_transfer (file_name p) ++ rest)) ∷ [])
beside-ne p directory rest = hidden-ne p _ rest (file_name-join directory _)
