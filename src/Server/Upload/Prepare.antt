-- ===== src/Server/Upload/Prepare.antt =====
-- The destination before an upload: its path, the part file, and the helper that writes to it.
use irosh.Common.{
  ok_inj, >>=_inv, >>=_ok, ◌≡◌, ◌≢◌, refl, ◌∙◌, ap, sym, Bool, true, false, [], Option, none, some,
  Result, ok, err, arith, Result-cases, Bool-cases, inl, inr, ◌>>=◌, codes,
}
use irosh.Transfer.Types.{Text}
use irosh.Server.Paths.{PathBuf}
use irosh.Server.Host.{
  Handler, command, test_e_or_l, perform, IoFailure, Host, IsLawful, Stream, UploadSink, process,
  file, dest, written, create, spawn_cat,
}
use irosh.Server.Context.{
  create_dir_all, ShellContext, live, stateless, resolve_path, path_missing_no_follow,
}
use irosh.Server.Keeps.{
  resolve_path-Keeps, path_missing_no_follow-Keeps, create_dir_all-Keeps, Keeps, reads-Keeps,
  >>=-Keeps, pure-Keeps, throw-Keeps, if-Keeps, content, seen, Avoids, perform-seen, pending,
  perform-pending,
}
use irosh.Server.Upload.{
  PreparedPutDestination, directory, choose_part, prepare_missing, spawned, spawn_upload_helper,
  prepare_put_destination, part_path,
}
use irosh.Server.Upload.PartPath.{part_path-ne, directory-IsBeyond}

some_inj : {A : Type 0} {a b : A} → ◌≡◌ {A = Option A} (some a) (some b) → a ≡ b
some_inj h = cc

module _ {World : Type 0} (host : Host World) (laws : IsLawful host) where
  spawned-seen :
      (q : PathBuf) (r : Result IoFailure Bool) (sink : UploadSink) (detail : Text)
      → Keeps (seen host q) (spawned host r sink detail)
  spawned-seen q (ok b) sink detail = pure-Keeps (seen host q) sink
  spawned-seen q (err e) sink detail = throw-Keeps (seen host q) _

  -- Starting a helper changes only the part file.
  pub spawn_upload_helper-seen :
      (q part : PathBuf) (context : ShellContext)
      → q ≢ part
      → Keeps (seen host q) (spawn_upload_helper host context part)
  unfolding spawn_upload_helper
  spawn_upload_helper-seen q part (live pid) ne =
      >>=-Keeps (seen host q) (perform-seen host q laws (spawn_cat pid part) (ne, tt))
        (λ r. spawned-seen q r (process pid part []) (codes "failed to spawn upload helper: "))
  spawn_upload_helper-seen q part stateless ne =
      >>=-Keeps (seen host q) (perform-seen host q laws (create part) (ne, tt))
        (λ r. spawned-seen q r (file part []) (codes "failed to create upload file: "))

  spawned-pending :
      (r : Result IoFailure Bool) (sink : UploadSink) (detail : Text)
      → Keeps {World = World} pending (spawned host r sink detail)
  spawned-pending (ok b) sink detail = pure-Keeps pending sink
  spawned-pending (err e) sink detail = throw-Keeps pending _

  pub spawn_upload_helper-pending :
      (part : PathBuf) (context : ShellContext)
      → Keeps pending (spawn_upload_helper host context part)
  unfolding spawn_upload_helper
  spawn_upload_helper-pending part (live pid) =
      >>=-Keeps pending (perform-pending host (spawn_cat pid part))
        (λ r. spawned-pending r (process pid part []) (codes "failed to spawn upload helper: "))
  spawn_upload_helper-pending part stateless =
      >>=-Keeps pending (perform-pending host (create part))
        (λ r. spawned-pending r (file part []) (codes "failed to create upload file: "))

  -- A helper that was started writes to the part file, which is empty.
  pub spawn_upload_helper-fresh :
      (part : PathBuf) (context : ShellContext) (s : Stream World) (sink : UploadSink)
      → (spawn_upload_helper host context part s).0 ≡ ok sink
      → (dest sink ≡ part) × (written sink ≡ [])
  unfolding spawn_upload_helper
  spawn_upload_helper-fresh part (live pid) s sink h = ground arith
  spawn_upload_helper-fresh part stateless s sink h = ground arith

  prepare_missing-Keeps :
      (q : PathBuf) (context : ShellContext) (missing : Bool)
      → Keeps (seen host q) (prepare_missing host context q missing)
  prepare_missing-Keeps q context missing =
      if-Keeps (seen host q) missing
        (>>=-Keeps (seen host q)
          (create_dir_all-Keeps (seen host q) host (Avoids host q) (perform-seen host q laws)
            context (directory q) (λ pid. directory-IsBeyond q) (directory-IsBeyond q))
          (λ made.
            if-Keeps (seen host q) made (reads-Keeps (seen host q) _ (λ s. refl))
              (throw-Keeps (seen host q) _)))
        (pure-Keeps (seen host q) none)

  -- Preparing a destination makes directories above it at most.
  pub prepare_put_destination-same :
      (dest_path : PathBuf) (context : ShellContext) (raw : Text) (s : Stream World)
      → resolve_path host context raw s ≡ (ok dest_path, s)
      → seen host dest_path (prepare_put_destination host context raw s).1 ≡ seen host dest_path s
  unfolding prepare_put_destination
  prepare_put_destination-same dest_path context raw s h =
      let look = seen host dest_path in
      let rest : PathBuf → Handler World (Option PreparedPutDestination) =
        λ d. path_missing_no_follow host context d >>= prepare_missing host context d in
      let kept =
        >>=-Keeps look
          (path_missing_no_follow-Keeps look host (Avoids host dest_path)
            (perform-seen host dest_path laws) context dest_path (λ pid. tt))
          (prepare_missing-Keeps dest_path context) in
      ap (λ p. look p.1) (>>=_ok (resolve_path host context raw) rest s h) ∙ kept.same s

  pub prepare_put_destination-pending :
      (context : ShellContext) (raw : Text)
      → Keeps pending (prepare_put_destination host context raw)
  unfolding prepare_put_destination
  prepare_put_destination-pending context raw =
      >>=-Keeps pending (resolve_path-Keeps pending host context raw) (λ dest_path.
        >>=-Keeps pending
          (path_missing_no_follow-Keeps pending host (λ c. Unit) (λ c _. perform-pending host c)
            context dest_path (λ pid. tt))
          (λ missing.
            if-Keeps pending missing
              (>>=-Keeps pending
                (create_dir_all-Keeps pending host (λ c. Unit) (λ c _. perform-pending host c)
                  context (directory dest_path) (λ pid. tt) tt)
                (λ made.
                  if-Keeps pending made (reads-Keeps pending _ (λ s. refl))
                    (throw-Keeps pending _)))
              (pure-Keeps pending none)))

  path_missing-content :
      (context : ShellContext) (p : PathBuf) (s : Stream World)
      → (path_missing_no_follow host context p s).0 ≡ ok true
      → content host p s ≡ none
  unfolding path_missing_no_follow perform
  path_missing-content (live pid) p s h =
      elim (Result-cases (host.perform (command pid (test_e_or_l p)) s.world).0) [
        | inl (true, e) ↦ absurd (ground (arith, e, h))
        | inl (false, e) ↦ laws.test_finds pid p s.world e
        | inr (x, e) ↦ absurd (ground (arith, e, h))
      ]
  path_missing-content stateless p s h = elim (Result-cases (host.symlink_metadata p s.world)) [
    | inl (_, e) ↦ absurd (ground (arith, e, h))
    | inr (x, e) ↦ laws.symlink_metadata_finds p s.world x e (ground (arith, e, h))
  ]

  chosen :
      (dest_path : PathBuf) (made : Bool) (s : Stream World) (prepared : PreparedPutDestination)
      → (choose_part host dest_path made s).0 ≡ ok (some prepared)
      → (prepared.final_arg ≡ dest_path) × (prepared.final_arg ≢ prepared.part_arg)
  chosen dest_path true s prepared h =
      let part = part_path dest_path (host.part_suffix s.world) in
      let eq : record { final_arg = dest_path; part_arg = part } ≡ prepared = some_inj (ok_inj h) in
      (
        ap (λ r. r.final_arg) (sym eq),
        λ same.
            part_path-ne dest_path (host.part_suffix s.world)
              (ap (λ r. r.final_arg) eq ∙ same ∙ ap (λ r. r.part_arg) (sym eq)),
      )
  chosen dest_path false s prepared h = cc

  -- A destination that was prepared is the resolved path, and held no file.
  pub prepared-fresh :
      (context : ShellContext) (raw : Text) (s : Stream World) (dest_path : PathBuf)
      (prepared : PreparedPutDestination)
      → resolve_path host context raw s ≡ (ok dest_path, s)
      → (prepare_put_destination host context raw s).0 ≡ ok (some prepared)
      → (prepared.final_arg ≡ dest_path)
        × (prepared.final_arg ≢ prepared.part_arg)
        × (content host dest_path s ≡ none)
  unfolding prepare_put_destination
  prepared-fresh context raw s dest_path prepared h e =
      let probing = path_missing_no_follow host context dest_path in
      let run =
        >>=_ok (resolve_path host context raw)
          (λ d. path_missing_no_follow host context d >>= prepare_missing host context d) s h in
      let (missing, e₁, e₂) =
        >>=_inv probing (prepare_missing host context dest_path) s (ap (λ p. p.0) (sym run) ∙ e) in
      elim (Bool-cases missing) [
        | inl is_missing ↦
            let found : (probing s).0 ≡ ok true = e₁ ∙ ap ok is_missing in
            let (made, e₃, e₄) =
              >>=_inv (create_dir_all host context (directory dest_path))
                (choose_part host dest_path) (probing s).1 (rw is_missing at e₂) in
            let (a, b) = chosen dest_path made _ prepared e₄ in
            (a, b, path_missing-content context dest_path s found)
        | inr is_there ↦ cc (rw is_there at e₂)
      ]
