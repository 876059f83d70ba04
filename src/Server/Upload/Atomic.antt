-- ===== src/Server/Upload/Atomic.antt =====
-- An upload happens as a whole or not at all.
use irosh.Common.{
  sym, Action, ℕ, ◌%◌, ◌^◌, ◌≡◌, ◌≢◌, ◌⊎◌, refl, ◌∙◌, ap, subst, Bool, List, [], Option, none, some,
  Result, ok, err, length, arith, Bool-cases, inl, inr, ◌>>=◌,
}
use irosh.Stream.{Bytes}
use irosh.Transfer.Types.{TransferFrame, TransferError, PutRequest}
use irosh.Server.Paths.{PathBuf}
use irosh.Server.Host.{
  Content, plain, NoFlushFails, Host, IsLawful, Stream, transport, UploadSink, dest, written, write,
  caught,
}
use irosh.Server.Context.{ShellContext, resolve_path}
use irosh.Server.Keeps.{
  answer-Keeps, resolve_path-Keeps, Keeps, Ends, >>=-Ends, >>=-Keeps, >>-Keeps, throw-Keeps,
  caught-Keeps, content, seen, told, write-seen, pending, write-pending,
}
use irosh.Server.Upload.{
  PreparedPutDestination, finish, receive, after_ready, stream_upload, upload_to, handle_put_file,
  spawn_upload_helper, prepare_put_destination,
}
use irosh.Server.Upload.Receive.{
  uploaded, receive-seen, receive-dest, receive-uploaded, append-written,
}
use irosh.Server.Upload.Published.{finish-seen, removed}
use irosh.Server.Upload.Prepare.{
  spawn_upload_helper-seen, spawn_upload_helper-pending, spawn_upload_helper-fresh,
  prepare_put_destination-same, prepare_put_destination-pending, prepared-fresh,
}

-- A file that holds what was uploaded in these frames, of the declared size.
abbrev pub Holds : List (Result TransferError TransferFrame) → ℕ → Option Content → Type 0
Holds frames size v =
    (bytes : Bytes) × (uploaded frames ≡ some (bytes, size))
    × (v ≡ some (plain bytes))
    × (size ≡ length bytes % 2 ^ 64)

abbrev HoldsSeen : List (Result TransferError TransferFrame) → ℕ → Option Content × Bool → Type 0
HoldsSeen frames size v = Holds frames size v.0

module _ {World : Type 0} (host : Host World) (laws : IsLawful host)
    (flushes : NoFlushFails host) where
  -- A step before the loop, which reads no frame and does not touch the destination.
  earlier :
      {E A : Type 0} (q : PathBuf) (size : ℕ) (m : Action (Stream World) E A)
      (f : A → Action (Stream World) E (Unit {0})) (s : Stream World)
      → Keeps (seen host q) m
      → Keeps pending m
      → ((a : A)
          → (m s).0 ≡ ok a
          → Ends (seen host q) (HoldsSeen (m s).1.incoming size) (f a) (m s).1)
      → Ends (seen host q) (HoldsSeen s.incoming size) (m >>= f) s
  earlier q size m f s h k after =
      >>=-Ends (seen host q) (HoldsSeen s.incoming size) m f s (h.same s) (λ a e. elim (after a e) [
        | inl same ↦ inl same
        | inr p ↦
            inr (subst (λ frames. HoldsSeen frames size (seen host q (f a (m s).1).1)) (k.same s) p)
      ])

  after_ready-seen :
      (context : ShellContext) (request : PutRequest) (prepared : PreparedPutDestination)
      (sink : UploadSink) (s : Stream World) (ready : Result TransferError (Unit {0}))
      → prepared.final_arg ≢ prepared.part_arg
      → content host prepared.final_arg s ≡ none
      → dest sink ≡ prepared.part_arg
      → written sink ≡ []
      → Ends
          (seen host prepared.final_arg)
          (HoldsSeen s.incoming request.size)
          (after_ready host context request prepared sink ready)
          s
  unfolding after_ready
  after_ready-seen context request prepared sink s (ok _) ne missing at fresh =
      let final = prepared.final_arg in
      let receiving = receive host s.incoming request.size sink 0 in
      let kept = receive-seen host final laws s.incoming request.size sink 0 (λ h. ne (h ∙ at)) in
      >>=-Ends (seen host final) (HoldsSeen s.incoming request.size) receiving
        (finish host context request prepared) s (kept.same s)
        (λ r e.
          let s' = (receiving s).1 in
          elim (finish-seen host laws flushes context request prepared r s' ne
            (ap (λ v. v.0) (kept.same s) ∙ missing)
            (receive-dest host s.incoming request.size sink 0 s r e ∙ at)) [
              | inl same ↦ inl same
              | inr (whole, full) ↦
                  let (bytes, u, k, m, n) =
                    receive-uploaded host s.incoming request.size sink 0 s s' r (omega arith)
                      (λ i. (e i, s')) whole in
                  inr (
                    bytes,
                    u,
                    full
                        ∙ ap (λ b. some (plain b))
                            (ap written k ∙ append-written sink bytes ∙ rw fresh refl),
                    omega (arith, n),
                  )
            ])
  after_ready-seen context request prepared sink s (err x) ne missing at fresh = inl (
      (>>-Keeps (seen host prepared.final_arg)
          (removed host laws prepared.final_arg context prepared.part_arg ne)
          (throw-Keeps (seen host prepared.final_arg) (transport x))).same
        s)

  stream_upload-seen :
      (context : ShellContext) (request : PutRequest) (prepared : PreparedPutDestination)
      (sink : UploadSink) (s : Stream World)
      → prepared.final_arg ≢ prepared.part_arg
      → content host prepared.final_arg s ≡ none
      → dest sink ≡ prepared.part_arg
      → written sink ≡ []
      → Ends
          (seen host prepared.final_arg)
          (HoldsSeen s.incoming request.size)
          (stream_upload host context request prepared sink)
          s
  unfolding stream_upload
  stream_upload-seen context request prepared sink s ne missing at fresh =
      let ready_frame =
        TransferFrame.put_ready (record { size = request.size; mode = request.mode }) in
      elim (Bool-cases (host.has_stdin sink s.world)) [
        | inl e ↦ rw e (
            earlier prepared.final_arg request.size (caught (write ready_frame))
              (after_ready host context request prepared sink) s
              (caught-Keeps (seen host prepared.final_arg)
                (write-seen host prepared.final_arg ready_frame refl))
              (caught-Keeps pending (write-pending ready_frame))
              (λ ready _.
                after_ready-seen context request prepared sink (write ready_frame s).1 ready ne
                  (ap (λ v. v.0) ((write-seen host prepared.final_arg ready_frame refl).same s)
                    ∙ missing)
                  at fresh))
        | inr e ↦ rw e (
            inl (
              (>>-Keeps (seen host prepared.final_arg)
                  (removed host laws prepared.final_arg context prepared.part_arg ne)
                  (throw-Keeps (seen host prepared.final_arg) _)).same
                s))
      ]

  upload_to-seen :
      (context : ShellContext) (request : PutRequest) (prepared : PreparedPutDestination)
      (s : Stream World)
      → prepared.final_arg ≢ prepared.part_arg
      → content host prepared.final_arg s ≡ none
      → Ends
          (seen host prepared.final_arg)
          (HoldsSeen s.incoming request.size)
          (upload_to host context request (some prepared))
          s
  unfolding upload_to
  upload_to-seen context request prepared s ne missing =
      let final = prepared.final_arg in
      let part = prepared.part_arg in
      earlier final request.size (spawn_upload_helper host context part)
        (stream_upload host context request prepared) s
        (spawn_upload_helper-seen host laws final part context ne)
        (spawn_upload_helper-pending host laws part context)
        (λ sink e.
          let (at, fresh) = spawn_upload_helper-fresh host laws part context s sink e in
          stream_upload-seen context request prepared sink
            (spawn_upload_helper host context part s).1 ne
            (ap (λ v. v.0) ((spawn_upload_helper-seen host laws final part context ne).same s)
              ∙ missing)
            at fresh)

  refused-Keeps :
      (q : PathBuf) (context : ShellContext) (request : PutRequest)
      → Keeps (seen host q) (upload_to host context request none)
  unfolding upload_to
  refused-Keeps q context request =
      >>=-Keeps (seen host q) (resolve_path-Keeps (seen host q) host context request.path)
        (λ d. answer-Keeps (seen host q) _ (write-seen host q (TransferFrame.error _) refl))

  after_prepare :
      (context : ShellContext) (request : PutRequest) (s : Stream World) (dest_path : PathBuf)
      (prepared : Option PreparedPutDestination)
      → resolve_path host context request.path s ≡ (ok dest_path, s)
      → (prepare_put_destination host context request.path s).0 ≡ ok prepared
      → Ends
          (seen host dest_path)
          (λ v. (content host dest_path s ≡ none) × HoldsSeen s.incoming request.size v)
          (upload_to host context request prepared)
          (prepare_put_destination host context request.path s).1
  after_prepare context request s dest_path none h e =
      inl ((refused-Keeps dest_path context request).same _)
  after_prepare context request s dest_path (some prepared) h e =
      let s₁ = (prepare_put_destination host context request.path s).1 in
      let (at, ne, missing) =
        prepared-fresh host laws context request.path s dest_path prepared h e in
      let uploading = upload_to host context request (some prepared) in
      let kept = prepare_put_destination-same host laws dest_path context request.path s h in
      let absent : content host prepared.final_arg s₁ ≡ none =
        subst (λ q. content host q s₁ ≡ none) (sym at) (ap (λ v. v.0) kept ∙ missing) in
      elim (subst (λ q. Ends (seen host q) (HoldsSeen s₁.incoming request.size) uploading s₁) at
        (upload_to-seen context request prepared s₁ ne absent)) [
          | inl same ↦ inl same
          | inr p ↦ inr (
            missing,
            subst (λ frames. HoldsSeen frames request.size (seen host dest_path (uploading s₁).1))
                ((prepare_put_destination-pending host laws context request.path).same s) p,
          )
        ]

  -- On a request for one file whose path resolves, and on a machine that keeps the laws and on
  -- which no flush of a file fails: whatever the client sends and whatever else fails, either the
  -- destination holds what it held before and no PutComplete was written, or nothing stood at the
  -- destination and it now holds exactly the bytes of the chunks before a PutComplete of the
  -- client, whose number both the request and that PutComplete declared (modulo 2^64, the range of
  -- the counter).
  pub handle_put_file_atomic :
      (context : ShellContext) (request : PutRequest) (s : Stream World) (dest_path : PathBuf)
      → resolve_path host context request.path s ≡ (ok dest_path, s)
      → let s' = (handle_put_file host context request s).1 in
        ((content host dest_path s' ≡ content host dest_path s)
          × (told s'.outgoing ≡ told s.outgoing))
        ⊎ ((content host dest_path s ≡ none)
            × Holds s.incoming request.size (content host dest_path s'))
  unfolding handle_put_file
  handle_put_file_atomic context request s dest_path h =
      let preparing = prepare_put_destination host context request.path in
      elim (>>=-Ends (seen host dest_path)
        (λ v. (content host dest_path s ≡ none) × HoldsSeen s.incoming request.size v) preparing
        (upload_to host context request) s
        (prepare_put_destination-same host laws dest_path context request.path s h)
        (λ prepared e. after_prepare context request s dest_path prepared h e)) [
          | inl same ↦ inl (ap (λ v. v.0) same, ap (λ v. v.1) same)
          | inr p ↦ inr p
        ]
