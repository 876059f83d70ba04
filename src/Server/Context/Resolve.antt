-- ===== src/Server/Context/Resolve.antt =====
-- Where a path of a request leads.
use irosh.Common.{
  refl, subst, [], ◌∷◌, ◌++◌, ◌≡◌, ◌⊎◌, sym, true, false, some, ok, is_empty, list_eq, list_eq→eq,
  codes, Bool-cases, Option-cases, inl, inr, All, arith, >>=_inv, ok_inj, pure,
}
use irosh.Storage.Shadow.{trim}
use irosh.Transfer.Types.{Text}
use irosh.Transfer.FilePath.{split, components, is_absolute}
use irosh.Server.Paths.{PathBuf, added, join, split_backslash, has_parent_dir}
use irosh.Server.Paths.Inside.{IsInside, components-IsInside, join-IsInside}
use irosh.Server.Host.{Host, Stream}
use irosh.Server.Context.{
  ShellContext, resolve_path, cwd, home_relative, home_dir, resolve_home, resolve_relative,
}

module _ {World : Type 0} (host : Host World) (context : ShellContext) (s : Stream World) where
  -- A path that lies below another one: plain names and dots for the current directory behind it.
  abbrev Below : PathBuf → PathBuf → Type 0
  Below base p = (extra : PathBuf) × (p ≡ base ++ extra) × All IsInside extra

  -- What stands behind the tilde and a slash or backslash, joined to the home directory: a path
  -- below it, or an absolute path where it begins with a slash itself.
  abbrev pub AtHome : Text → PathBuf → Type 0
  AtHome raw p =
      (home : PathBuf) × (rest : Text) × (host.home ≡ some home)
      × ((raw ≡ b'~' ∷ (b'/' ∷ rest)) ⊎ (raw ≡ b'~' ∷ (b'\\' ∷ rest)))
      × (p ≡ join home (components rest))
      × (((tail : Text) × (rest ≡ b'/' ∷ tail) × (p ≡ components rest)) ⊎ Below home p)

  -- A path below the working directory of the shell, or the home directory without a shell.
  abbrev pub AtCwd : Text → PathBuf → Type 0
  AtCwd raw p =
      (base : PathBuf) × ((cwd host context s).0 ≡ ok base)
      × (p ≡ join base (components raw))
      × Below base p

  home_dir-home : (what : Text) (p : PathBuf) → (home_dir host what s).0 ≡ ok p → host.home ≡ some p
  home_dir-home what p h = elim (Option-cases host.home) [
    | inl e ↦ absurd (ground (arith, e, h))
    | inr (home, e) ↦ ground (arith, e, h)
  ]

  below : (base p : PathBuf) → All IsInside p → Below base (join base p)
  unfolding join
  below [] p h = (p, refl, h)
  below (c ∷ base) p h = let (joined, in') = join-IsInside c base p h in (added p, joined, in')

  absolute :
      (base : PathBuf) (raw : Text)
      → is_absolute raw ≡ true
      → join base (components raw) ≡ components raw
  unfolding join components
  absolute [] raw h = refl
  absolute (c ∷ base) raw h = rw h refl

  slash_first : (raw : Text) → is_absolute raw ≡ true → (tail : Text) × (raw ≡ b'/' ∷ tail)
  slash_first [] h = cc h
  slash_first (c ∷ tail) h = (tail, ground (arith, h))

  inside :
      (base : PathBuf) (raw : Text)
      → has_parent_dir (split raw) ≡ false
      → ((tail : Text) × (raw ≡ b'/' ∷ tail) × (join base (components raw) ≡ components raw))
        ⊎ Below base (join base (components raw))
  inside base raw h = elim (Bool-cases (is_absolute raw)) [
    | inl e ↦ let (tail, same) = slash_first raw e in inl (tail, same, absolute base raw e)
    | inr e ↦ inr (below base (components raw) (components-IsInside raw e h))
  ]

  home_relative_inv :
      (raw rest : Text)
      → home_relative raw ≡ some rest
      → (raw ≡ b'~' ∷ (b'/' ∷ rest)) ⊎ (raw ≡ b'~' ∷ (b'\\' ∷ rest))
  home_relative_inv [] rest h = cc h
  home_relative_inv (a ∷ []) rest h = cc h
  home_relative_inv (a ∷ (b ∷ s)) rest h = ground (arith, h)

  at_home :
      (raw rest : Text) (p : PathBuf)
      → home_relative raw ≡ some rest
      → (resolve_home host rest s).0 ≡ ok p
      → AtHome raw p
  at_home raw rest p r h = elim (Bool-cases (has_parent_dir (split rest))) [
    | inl e ↦ cc (rw e at h)
    | inr e ↦
        let (home, e₁, e₂) =
          >>=_inv (home_dir host (codes " for ~/ expansion"))
            (λ home. pure (join home (components rest))) s (rw e at h) in
        let at : join home (components rest) ≡ p = ok_inj e₂ in
        (
          home,
          rest,
          home_dir-home _ home e₁,
          home_relative_inv raw rest r,
          sym at,
          subst (λ q. ((tail : Text) × (rest ≡ b'/' ∷ tail) × (q ≡ components rest)) ⊎ Below home q)
              at (inside home rest e),
        )
  ]

  at_cwd :
      (raw : Text) (p : PathBuf)
      → is_absolute raw ≡ false
      → (resolve_relative host context raw s).0 ≡ ok p
      → AtCwd raw p
  at_cwd raw p flat h = elim (Bool-cases (has_parent_dir (split raw))) [
    | inl e ↦ cc (rw e at h)
    | inr e ↦ elim (Bool-cases (has_parent_dir (split_backslash raw))) [
      | inl e' ↦ cc (rw (e, e') at h)
      | inr e' ↦
          let (base, e₁, e₂) =
            >>=_inv (cwd host context) (λ base. pure (join base (components raw))) s
              (rw (e, e') at h) in
          let at : join base (components raw) ≡ p = ok_inj e₂ in
          (
            base,
            e₁,
            sym at,
            subst (Below base) at (below base (components raw) (components-IsInside raw flat e)),
          )
    ]
  ]

  -- A path that resolves is not blank, and it is absolute and taken as it is; or `~` and the home
  -- directory; or a tilde with a slash or a backslash, and what follows is joined to the home
  -- directory, which gives a path below it unless it begins with a slash itself and then is taken as
  -- the absolute path that it is; or else it is joined to the working directory and stays below it.
  pub resolve_path_cases :
      (raw : Text) (p : PathBuf)
      → (resolve_path host context raw s).0 ≡ ok p
      → (is_empty (trim raw) ≡ false)
        × (((is_absolute raw ≡ true) × (p ≡ components raw))
            ⊎ ((raw ≡ codes "~") × (host.home ≡ some p))
            ⊎ AtHome raw p
            ⊎ AtCwd raw p)
  unfolding resolve_path
  resolve_path_cases raw p h = elim (Bool-cases (is_empty (trim raw))) [
    | inl e ↦ cc (rw e at h)
    | inr e ↦ (
      e,
      elim (Bool-cases (is_absolute raw)) [
        | inl a ↦ inl (a, sym (ok_inj (rw (e, a) at h)))
        | inr a ↦ elim (Bool-cases (list_eq raw (codes "~"))) [
          | inl t ↦ inr (inl (list_eq→eq raw (codes "~") t, home_dir-home _ p (rw (e, a, t) at h)))
          | inr t ↦ elim (Option-cases (home_relative raw)) [
            | inl r ↦ inr (inr (inr (at_cwd raw p a (rw (e, a, t, r) at h))))
            | inr (rest, r) ↦ inr (inr (inl (at_home raw rest p r (rw (e, a, t, r) at h))))
          ]
        ]
      ],
    )
  ]
