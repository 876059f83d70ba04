-- ===== src/Server/Keeps.antt =====
-- What an action of src/server/transfer leaves as it is: a part `look` of the state.
use irosh.Common.{
  ℕ, ◌≡◌, ◌⊎◌, subst, sym, refl, ◌∙◌, Option, Bool, true, false, not, List, Result, ok, err, Action,
  ap, >>=_ok, >>=_err, ◌||◌, [], ◌∷◌, ◌++◌, ◌>>=◌, ◌>>◌, pure, throw, if◌then◌else◌, Result-cases,
  inl, inr, arith, codes,
}
use irosh.Transfer.Types.{Text, TransferFrame, TransferError}
use irosh.Server.Paths.{PathBuf}
use irosh.Server.Host.{
  Content, Host, IsLawful, IoFailure, Stream, Call, Command, test_e_or_l, Spares, command, mv, rm_f,
  remove_file, perform, on_ok, caught, write, answer, try_answer,
}
use irosh.Server.Context.{
  ShellContext, live, stateless, by_status, by_error, probed, cwd, resolve_path,
  path_missing_no_follow, create_dir_all, remove_file_if_present, rename, chmod,
}

module _ {World : Type 0} (host : Host World) where
  pub resolve_path-same :
      (context : ShellContext) (raw : Text) (s : Stream World)
      → (resolve_path host context raw s).1 ≡ s
  unfolding resolve_path cwd
  resolve_path-same (live pid) raw s = ground arith
  resolve_path-same stateless raw s = ground arith

module _ {World L : Type 0} (look : Stream World → L) where
  pub record Keeps {E A : Type 0} (m : Action (Stream World) E A) : Type 0 where
    pub same : (s : Stream World) → look (m s).1 ≡ look s

  -- An action that leaves the whole state.
  pub reads-Keeps :
      {E A : Type 0} (m : Action (Stream World) E A) → ((s : Stream World) → (m s).1 ≡ s) → Keeps m
  reads-Keeps m h = record { same = λ s. ap look (h s) }

  pub pure-Keeps : {E A : Type 0} (a : A) → Keeps (pure {E = E} a)
  pure-Keeps a = reads-Keeps (pure a) (λ s. refl)

  pub throw-Keeps : {E A : Type 0} (e : E) → Keeps (throw {A = A} e)
  throw-Keeps e = reads-Keeps (throw e) (λ s. refl)

  pub >>=-Keeps :
      {E A B : Type 0} {m : Action (Stream World) E A} {f : A → Action (Stream World) E B}
      → Keeps m
      → ((a : A) → Keeps (f a))
      → Keeps (m >>= f)
  >>=-Keeps {m = m} {f = f} h k = record {
    same = λ s. elim (Result-cases (m s).0) [
      | inl (a, e) ↦
          ap (λ p. look p.1) (>>=_ok m f s (λ i. (e i, (m s).1))) ∙ (k a).same (m s).1 ∙ h.same s
      | inr (x, e) ↦ ap (λ p. look p.1) (>>=_err m f s (λ i. (e i, (m s).1))) ∙ h.same s
    ];
  }

  pub >>-Keeps :
      {E A B : Type 0} {m : Action (Stream World) E A} {k : Action (Stream World) E B}
      → Keeps m
      → Keeps k
      → Keeps (m >> k)
  >>-Keeps h k = >>=-Keeps h (λ _. k)

  pub caught-Keeps : {E A : Type 0} {m : Action (Stream World) E A} → Keeps m → Keeps (caught m)
  caught-Keeps h = record { same = h.same }

  pub if-Keeps :
      {E A : Type 0} (b : Bool) {m n : Action (Stream World) E A}
      → Keeps m
      → Keeps n
      → Keeps (if b then m else n)
  if-Keeps true h k = h
  if-Keeps false h k = k

  pub on_ok-Keeps :
      {E A : Type 0} (r : Result IoFailure Bool) {m n : Action (Stream World) E A}
      → Keeps m
      → Keeps n
      → Keeps (on_ok r m n)
  on_ok-Keeps (ok success) h k = h
  on_ok-Keeps (err e) h k = k

  pub answer-Keeps : (f : TransferFrame) → Keeps (write f) → Keeps (answer f)
  unfolding answer
  answer-Keeps f h = record { same = λ s. ground (arith, h.same s) }

  pub try_answer-Keeps : (f : TransferFrame) → Keeps (write f) → Keeps (try_answer f)
  unfolding try_answer
  try_answer-Keeps f h = record { same = h.same }

  -- The operations on files, where the calls that are allowed keep what is looked at.
  module _ (host : Host World) where
    pub resolve_path-Keeps :
        (context : ShellContext) (raw : Text) → Keeps (resolve_path host context raw)
    resolve_path-Keeps context raw = reads-Keeps _ (resolve_path-same host context raw)

    by_status-Keeps : (r : Result IoFailure Bool) → Keeps (by_status host r)
    by_status-Keeps r = reads-Keeps _ (λ s. refl)

    by_error-Keeps : (r : Result IoFailure Bool) → Keeps (by_error host r)
    by_error-Keeps (ok b) = reads-Keeps _ (λ s. refl)
    by_error-Keeps (err e) = reads-Keeps _ (λ s. refl)

    probed-Keeps : (what : Text) (r : Result IoFailure Bool) → Keeps (probed host what r)
    probed-Keeps what (ok b) = reads-Keeps _ (λ s. refl)
    probed-Keeps what (err e) = reads-Keeps _ (λ s. refl)

    module _ (allowed : Call → Type 0)
        (keep : (c : Call) → allowed c → Keeps (perform host c)) where
      pub path_missing_no_follow-Keeps :
          (context : ShellContext) (p : PathBuf)
          → ((pid : ℕ) → allowed (command pid (test_e_or_l p)))
          → Keeps (path_missing_no_follow host context p)
      unfolding path_missing_no_follow
      path_missing_no_follow-Keeps (live pid) p h =
          >>=-Keeps (>>=-Keeps (keep _ (h pid)) (λ r. probed-Keeps (codes "existence: ") r))
            (λ success. pure-Keeps (not success))
      path_missing_no_follow-Keeps stateless p h =
          reads-Keeps (path_missing_no_follow host stateless p) (λ s. ground arith)

      pub create_dir_all-Keeps :
          (context : ShellContext) (p : PathBuf)
          → ((pid : ℕ) → allowed (command pid (Command.mkdir_p p)))
          → allowed (Call.create_dir_all p)
          → Keeps (create_dir_all host context p)
      unfolding create_dir_all
      create_dir_all-Keeps (live pid) p h k = >>=-Keeps (keep _ (h pid)) (λ r. by_status-Keeps r)
      create_dir_all-Keeps stateless p h k = >>=-Keeps (keep _ k) (λ r. by_error-Keeps r)

      pub remove_file_if_present-Keeps :
          (context : ShellContext) (p : PathBuf)
          → ((pid : ℕ) → allowed (command pid (rm_f p)))
          → allowed (remove_file p)
          → Keeps (remove_file_if_present host context p)
      unfolding remove_file_if_present
      remove_file_if_present-Keeps (live pid) p h k =
          >>=-Keeps (keep _ (h pid)) (λ r. pure-Keeps tt)
      remove_file_if_present-Keeps stateless p h k = >>=-Keeps (keep _ k) (λ r. pure-Keeps tt)

      pub rename-Keeps :
          (context : ShellContext) (from to : PathBuf)
          → ((pid : ℕ) → allowed (command pid (mv from to)))
          → allowed (Call.rename from to)
          → Keeps (rename host context from to)
      unfolding rename
      rename-Keeps (live pid) from to h k = >>=-Keeps (keep _ (h pid)) (λ r. by_status-Keeps r)
      rename-Keeps stateless from to h k = >>=-Keeps (keep _ k) (λ r. by_error-Keeps r)

      pub chmod-Keeps :
          (context : ShellContext) (p : PathBuf) (mode : ℕ)
          → ((pid : ℕ) → allowed (command pid (Command.chmod mode p)))
          → allowed (Call.set_permissions p mode)
          → Keeps (chmod host context p mode)
      unfolding chmod
      chmod-Keeps (live pid) p mode h k = >>=-Keeps (keep _ (h pid)) (λ r. pure-Keeps tt)
      chmod-Keeps stateless p mode h k = >>=-Keeps (keep _ k) (λ r. pure-Keeps tt)

-- An action that leaves what is looked at, or ends with it in some way.
module _ {World L : Type 0} (look : Stream World → L) (P : L → Type 0) where
  abbrev pub Ends : {E A : Type 0} → Action (Stream World) E A → Stream World → Type 0
  Ends m s = (look (m s).1 ≡ look s) ⊎ P (look (m s).1)

  pub >>=-Ends :
      {E A B : Type 0} (m : Action (Stream World) E A) (f : A → Action (Stream World) E B)
      (s : Stream World)
      → look (m s).1 ≡ look s
      → ((a : A) → (m s).0 ≡ ok a → Ends (f a) (m s).1)
      → Ends (m >>= f) s
  >>=-Ends m f s h k = elim (Result-cases (m s).0) [
    | inl (a, e) ↦
        let run : (m >>= f) s ≡ f a (m s).1 = >>=_ok m f s (λ i. (e i, (m s).1)) in
        elim (k a e) [
          | inl same ↦ inl (ap (λ p. look p.1) run ∙ same ∙ h)
          | inr p ↦ inr (subst P (ap (λ p. look p.1) (sym run)) p)
        ]
    | inr (x, e) ↦ inl (ap (λ p. look p.1) (>>=_err m f s (λ i. (e i, (m s).1))) ∙ h)
  ]

  pub >>=-Ends_Keeps :
      {E A B : Type 0} (m : Action (Stream World) E A) (f : A → Action (Stream World) E B)
      (s : Stream World)
      → Ends m s
      → ((a : A) → Keeps look (f a))
      → Ends (m >>= f) s
  >>=-Ends_Keeps m f s h k =
      let after : look ((m >>= f) s).1 ≡ look (m s).1 = elim (Result-cases (m s).0) [
        | inl (a, e) ↦ ap (λ p. look p.1) (>>=_ok m f s (λ i. (e i, (m s).1))) ∙ (k a).same (m s).1
        | inr (x, e) ↦ ap (λ p. look p.1) (>>=_err m f s (λ i. (e i, (m s).1)))
      ] in
      elim h [ inl same ↦ inl (after ∙ same) | inr p ↦ inr (subst P (sym after) p) ]

abbrev pub is_complete : TransferFrame → Bool
is_complete (TransferFrame.put_complete complete) = true
is_complete f = false

abbrev pub told : List TransferFrame → Bool
told [] = false
told (f ∷ fs) = is_complete f || told fs

pub told-append :
    (fs : List TransferFrame) (f : TransferFrame)
    → told (fs ++ (f ∷ [])) ≡ (told fs || is_complete f)
told-append [] f = ground arith
told-append (g ∷ fs) f = ground (arith, told-append fs f)

-- The content of one file, which the calls that do not touch it keep.
module _ {World : Type 0} (host : Host World) (q : PathBuf) where
  abbrev pub content : Stream World → Option Content
  content s = host.view s.world q

  abbrev pub Avoids : Call → Type 0
  Avoids c = Spares q c

  pub perform-content :
      (laws : IsLawful host) (c : Call) → Avoids c → Keeps content (perform host c)
  unfolding perform
  perform-content laws c h = record { same = λ s. laws.frame c q s.world h }

  pub write-content : (f : TransferFrame) → Keeps content (write f)
  unfolding write
  write-content f = record { same = λ s. ground arith }

  -- The content, and whether the client was told that the upload is complete.
  abbrev pub seen : Stream World → Option Content × Bool
  seen s = (content s, told s.outgoing)

  pub perform-seen : (laws : IsLawful host) (c : Call) → Avoids c → Keeps seen (perform host c)
  unfolding perform
  perform-seen laws c h = record { same = λ s. λ i. (laws.frame c q s.world h i, told s.outgoing) }

  pub write-seen : (f : TransferFrame) → is_complete f ≡ false → Keeps seen (write f)
  unfolding write
  write-seen f h = record { same = λ s. ground (arith, told-append s.outgoing f, h) }

-- The frames still to come, which only reading changes.
module _ {World : Type 0} where
  abbrev pub pending : Stream World → List (Result TransferError TransferFrame)
  pending s = s.incoming

  pub perform-pending : (host : Host World) (c : Call) → Keeps pending (perform host c)
  unfolding perform
  perform-pending host c = record { same = λ s. refl }

  pub write-pending : (f : TransferFrame) → Keeps pending (write f)
  unfolding write
  write-pending f = record { same = λ s. ground arith }
