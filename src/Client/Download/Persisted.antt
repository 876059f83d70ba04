-- ===== src/Client/Download/Persisted.antt =====
-- What a download that succeeded leaves at its destination.
use irosh.Common.{
  ℕ, ◌+◌, ◌%◌, ◌^◌, ◌<◌, ◌≡◌, ◌≢◌, refl, ◌∙◌, ap, sym, Bool, List, [], ◌∷◌, ◌++◌, Option, none,
  some, Result, ok, err, ◌>>=◌, ◌>>◌, >>=_inv, >>=_run, length, length-append, append-nil,
  append_assoc, arith, inl, inr, Result-cases, ok_inj, codes,
}
use irosh.Stream.{Bytes}
use irosh.Transfer.Types.{Text, TransferFrame, TransferError, TransferReady}
use irosh.Server.Paths.{PathBuf, parent}
use irosh.Server.Host.{
  IsBeyond, plain, Host, IsLawful, IoFailure, Stream, Call, UploadSink, file, write_all, rename,
  copy, remove_file, create, create_dir_all, set_permissions,
}
use irosh.Server.Keeps.{Keeps, >>=-Keeps, >>-Keeps, pure-Keeps, throw-Keeps, content, Avoids}
use irosh.Server.Upload.{directory}
use irosh.Server.Upload.PartPath.{beside-ne, join-IsBeyond}
use irosh.Client.{ClientError, run}
use irosh.Client.Download.{
  temp_transfer_path, must, create_parent, replace, persist_temp_file, receive, flush, settle,
  set_mode, streaming, stream_file, try_parent, download_ready, written_or,
}

-- What a server sends as a file in these frames: the bytes of the chunks before its `GetComplete`.
unfoldable pub downloaded : List (Result TransferError TransferFrame) → Option (Bytes × ℕ)
downloaded (ok (TransferFrame.get_chunk chunk) ∷ rest) = elim (downloaded rest) [
  | none ↦ none
  | some (bytes, size) ↦ some (chunk ++ bytes, size)
]
downloaded (ok (TransferFrame.get_complete complete) ∷ rest) = some ([], complete.size)
downloaded _ = none

module _ {World : Type 0} (host : Host World) where
  -- A loop that did not fail has read a file, counted its bytes, and written them.
  receive-downloaded :
      (frames : List (Result TransferError TransferFrame)) (size : ℕ) (p : PathBuf) (before : Bytes)
      (received : ℕ) (s : Stream World) (sink : UploadSink)
      → received < 2 ^ 64
      → (receive host frames size (file p before) received s).0 ≡ ok sink
      → (bytes : Bytes) × (downloaded frames ≡ some (bytes, size))
        × (sink ≡ file p (before ++ bytes))
        × (size ≡ (received + length bytes) % 2 ^ 64)
  unfolding receive downloaded
  receive-downloaded [] size p before received s sink bound h = cc
  receive-downloaded (err e ∷ rest) size p before received s sink bound h = cc
  receive-downloaded (ok (TransferFrame.get_complete complete) ∷ rest) size p before received s sink
        bound h =
      let (a, b, c) : (complete.size ≡ size) × (received ≡ size) × (sink ≡ file p before) =
        ground (arith, h) in
      (
        [],
        ap (λ n. some ([], n)) a,
        c ∙ ap (file p) (sym (append-nil before)),
        omega (arith, b, bound),
      )
  receive-downloaded (ok (TransferFrame.get_chunk chunk) ∷ rest) size p before received s sink bound
        h =
      let s₀ = record s { incoming = rest } in
      let more = (received + length chunk) % 2 ^ 64 in
      let (r, e₁, e₂) =
        >>=_inv (run host (write_all (file p before) chunk))
          (λ r. written_or host r (receive host rest size (file p (before ++ chunk)) more)) s₀ h in
      elim (Result-cases r) [
        | inl (b, e) ↦
            let (bytes, u, k, n) =
              receive-downloaded rest size p (before ++ chunk) more _ sink (omega arith)
                (rw e at e₂) in
            (
              chunk ++ bytes,
              rw u refl,
              k ∙ ap (file p) (append_assoc before chunk bytes),
              omega (arith, n, length-append chunk bytes),
            )
        | inr (x, e) ↦ cc (rw e at e₂)
      ]
  receive-downloaded (ok (TransferFrame.error e) ∷ rest) size p before received s sink bound h = cc
  receive-downloaded (ok f ∷ rest) size p before received s sink bound h = cc

  module _ (laws : IsLawful host) where
    run-content : (q : PathBuf) (c : Call) → Avoids host q c → Keeps (content host q) (run host c)
    unfolding run
    run-content q c h = record { same = λ s. laws.frame c q s.world h }

    must-content : (q : PathBuf) (r : Result IoFailure Bool) → Keeps (content host q) (must host r)
    must-content q (ok b) = pure-Keeps (content host q) tt
    must-content q (err e) = throw-Keeps (content host q) _

    -- A flush that succeeds leaves in the file what was written.
    flush-content :
        (p : PathBuf) (bytes : Bytes) (s : Stream World) (sink : UploadSink)
        → (flush host (file p bytes) s).0 ≡ ok sink
        → content host p (flush host (file p bytes) s).1 ≡ some (plain bytes)
    unfolding flush run
    flush-content p bytes s sink h =
        elim (Result-cases (host.perform (Call.flush (file p bytes)) s.world).0) [
          | inl (b, e) ↦ rw e (laws.flush_writes p bytes s.world b e)
          | inr (x, e) ↦ cc h
        ]

    create_parent-content :
        (q : PathBuf) (directory : Option PathBuf)
        → ((p : PathBuf) → directory ≡ some p → IsBeyond p q)
        → Keeps (content host q) (create_parent host directory)
    create_parent-content q none beyond = pure-Keeps (content host q) tt
    create_parent-content q (some p) beyond =
        >>=-Keeps (content host q) (run-content q (create_dir_all p) (beyond p refl))
          (λ r. must-content q r)

    set_mode-content :
        (q final : PathBuf) (mode : Option ℕ) → Keeps (content host q) (set_mode host final mode)
    set_mode-content q final none = pure-Keeps (content host q) tt
    set_mode-content q final (some mode) =
        >>-Keeps (content host q) (run-content q (set_permissions final (mode % 512)) tt)
          (pure-Keeps (content host q) tt)

    -- Where the rename failed: the copy succeeded, or the download failed.
    copied :
        (temp final : PathBuf) (x : IoFailure) (s : Stream World)
        → final ≢ temp
        → (replace host temp final (err x) s).0 ≡ ok tt
        → content host final (replace host temp final (err x) s).1 ≡ content host temp s
    unfolding replace run
    copied temp final x s ne h = elim (Result-cases (host.perform (copy temp final) s.world).0) [
      | inl (b, e) ↦ rw e (
          laws.frame (remove_file temp) final (host.perform (copy temp final) s.world).1 (ne, tt)
          ∙ laws.copy_copies temp final s.world b (λ h. ne (sym h)) e)
      | inr (y, e) ↦ cc h
    ]

    moved :
        (temp final : PathBuf) (s : Stream World) (r : Result IoFailure Bool)
        → final ≢ temp
        → (host.perform (rename temp final) s.world).0 ≡ r
        → (replace host temp final r (run host (rename temp final) s).1).0 ≡ ok tt
        → content host final (replace host temp final r (run host (rename temp final) s).1).1
          ≡ content host temp s
    unfolding run replace
    moved temp final s (ok b) ne e h = (laws.rename_moves temp final s.world b e)
    moved temp final s (err x) ne e h =
        copied temp final x _ ne h ∙ laws.rename_keeps temp final s.world x e

    -- A download that was moved into place holds what the temporary file held.
    persisted :
        (temp final : PathBuf) (s : Stream World)
        → final ≢ temp
        → ((p : PathBuf) → parent final ≡ some p → IsBeyond p temp)
        → (persist_temp_file host temp final s).0 ≡ ok tt
        → content host final (persist_temp_file host temp final s).1 ≡ content host temp s
    unfolding persist_temp_file run
    persisted temp final s ne beyond h =
        let moving = run host (rename temp final) >>= replace host temp final in
        let (_, e₁, r₁) = >>=_run (create_parent host (parent final)) (λ _. moving) s h in
        let s₁ = (create_parent host (parent final) s).1 in
        let kept = (create_parent-content temp (parent final) beyond).same s in
        let (r, e₂, r₂) =
          >>=_run (run host (rename temp final)) (replace host temp final) s₁
            (ap (λ p. p.0) (sym r₁) ∙ h) in
        let s₂ = (run host (rename temp final) s₁).1 in
        let done : (replace host temp final r s₂).0 ≡ ok tt = ap (λ p. p.0) (sym (r₁ ∙ r₂)) ∙ h in
        ap (λ p. content host final p.1) (r₁ ∙ r₂)
        ∙ moved temp final s₁ r ne (ok_inj e₂) done
        ∙ kept

    not_settled :
        (temp final : PathBuf) (ready : TransferReady) (x : ClientError) (s : Stream World)
        → (settle host temp final ready (err x) s).0 ≢ ok tt
    unfolding settle run
    not_settled temp final ready x s h = cc h

    -- A download of one frame after another that ends with success has got a whole file.
    stream_file-content :
        (temp final : PathBuf) (ready : TransferReady) (s : Stream World)
        → final ≢ temp
        → ((p : PathBuf) → parent final ≡ some p → IsBeyond p temp)
        → (stream_file host temp final ready s).0 ≡ ok tt
        → (bytes : Bytes) × (downloaded s.incoming ≡ some (bytes, ready.size))
          × (content host final (stream_file host temp final ready s).1 ≡ some (plain bytes))
          × (ready.size ≡ length bytes % 2 ^ 64)
    unfolding stream_file settle
    stream_file-content temp final ready s ne beyond h =
        let m = streaming host temp ready.size in
        let s₁ = (m s).1 in
        elim (Result-cases (m s).0) [
          | inr (x, e) ↦ absurd (
              not_settled temp final ready x s₁
                (ap (λ r. (settle host temp final ready r s₁).0) (sym e) ∙ h))
          | inl (sink, e) ↦
              let run_end : stream_file host temp final ready s
                  ≡ settle host temp final ready (ok sink) s₁ =
                ap (λ r. settle host temp final ready r s₁) e in
              let (got, e₁, r₁) =
                >>=_run (receive host s.incoming ready.size (file temp []) 0) (flush host) s e in
              let s₂ = (receive host s.incoming ready.size (file temp []) 0 s).1 in
              let (bytes, u, k, n) =
                receive-downloaded s.incoming ready.size temp [] 0 s got (omega arith) e₁ in
              let full : content host temp s₁ ≡ some (plain bytes) =
                ap (λ p. content host temp p.1) (r₁ ∙ ap (λ t. flush host t s₂) k)
                ∙ flush-content temp bytes s₂ sink
                    (ap (λ t. (flush host t s₂).0) (sym k) ∙ ap (λ p. p.0) (sym r₁) ∙ e) in
              let (_, e₃, r₃) =
                >>=_run (persist_temp_file host temp final) (λ _. set_mode host final ready.mode) s₁
                  (ap (λ p. p.0) (sym run_end) ∙ h) in
              (
                bytes,
                u,
                ap (λ p. content host final p.1) (run_end ∙ r₃)
                    ∙ (set_mode-content final final ready.mode).same
                        (persist_temp_file host temp final s₁).1
                    ∙ persisted temp final s₁ ne beyond e₃
                    ∙ full,
                omega (arith, n),
              )
        ]

    try_parent-pending :
        (directory : Option PathBuf) (s : Stream World)
        → (try_parent host directory s).1.incoming ≡ s.incoming
    unfolding run
    try_parent-pending none s = refl
    try_parent-pending (some p) s = refl

    must-same : (r : Result IoFailure Bool) (s : Stream World) → (must host r s).1 ≡ s
    must-same (ok b) s = refl
    must-same (err x) s = refl

    temp_transfer_path-ne :
        (final : PathBuf) (unique : Text) → final ≢ temp_transfer_path final unique
    unfolding temp_transfer_path
    temp_transfer_path-ne final unique =
        beside-ne final (directory final) (codes "." ++ (unique ++ codes ".irosh_part"))

    temp_transfer_path-IsBeyond :
        (final : PathBuf) (unique : Text) (p : PathBuf)
        → parent final ≡ some p
        → IsBeyond p (temp_transfer_path final unique)
    unfolding temp_transfer_path
    temp_transfer_path-IsBeyond final unique p h = rw (h, directory) (join-IsBeyond p _)

    created_pending :
        (temp : PathBuf) (s : Stream World) → (run host (create temp) s).1.incoming ≡ s.incoming
    unfolding run
    created_pending temp s = refl

    -- On a machine that keeps the laws: a download whose frames come behind an accepted GetReady and
    -- that returns success got a GetComplete, and leaves at its destination exactly the bytes of the
    -- chunks before it, in the number that GetReady and GetComplete declared (modulo 2^64).
    pub download_ready-content :
        (final : PathBuf) (ready : TransferReady) (s : Stream World)
        → let (r, s') = download_ready host final ready s in
          r ≡ ok tt
          → (bytes : Bytes) × (downloaded s.incoming ≡ some (bytes, ready.size))
            × (content host final s' ≡ some (plain bytes))
            × (ready.size ≡ length bytes % 2 ^ 64)
    unfolding download_ready
    download_ready-content final ready s h =
        let temp = temp_transfer_path final (host.part_suffix s.world) in
        let streamed = stream_file host temp final ready in
        let creating = run host (create temp) >>= λ r. must host r >> streamed in
        let (_, e₁, r₁) = >>=_run (try_parent host (parent final)) (λ _. creating) s h in
        let s₁ = (try_parent host (parent final) s).1 in
        let (r, e₂, r₂) =
          >>=_run (run host (create temp)) (λ r. must host r >> streamed) s₁
            (ap (λ p. p.0) (sym r₁) ∙ h) in
        let s₂ = (run host (create temp) s₁).1 in
        let (_, e₃, r₃) =
          >>=_run (must host r) (λ _. streamed) s₂ (ap (λ p. p.0) (sym (r₁ ∙ r₂)) ∙ h) in
        let whole : download_ready host final ready s ≡ streamed s₂ =
          r₁ ∙ r₂ ∙ r₃ ∙ ap streamed (must-same r s₂) in
        let (bytes, u, full, n) =
          stream_file-content temp final ready s₂ (temp_transfer_path-ne final _)
            (temp_transfer_path-IsBeyond final _) (ap (λ p. p.0) (sym whole) ∙ h) in
        let pending : s₂.incoming ≡ s.incoming =
          created_pending temp s₁ ∙ try_parent-pending (parent final) s in
        (bytes, ap downloaded (sym pending) ∙ u, ap (λ p. content host final p.1) whole ∙ full, n)
