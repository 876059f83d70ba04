-- ===== src/Client/Delivered.antt =====
-- The two ends of an upload together.
use irosh.Common.{
  ℕ, ◌%◌, ◌^◌, ◌≡◌, ◌∙◌, ap, sym, true, List, [], ◌∷◌, ◌++◌, Option, none, some, ok, length, inl,
  inr, arith, Result,
}
use irosh.Stream.{Bytes}
use irosh.Transfer.Types.{Text, TransferFrame, TransferError}
use irosh.Server.Paths.{PathBuf}
use irosh.Server.Host.{plain, NoFlushFails, Host, IsLawful, Stream}
use irosh.Server.Context.{ShellContext, resolve_path}
use irosh.Server.Keeps.{content, told}
use irosh.Server.Upload.{handle_put_file}
use irosh.Server.Upload.Atomic.{handle_put_file_atomic}
use irosh.Server.Upload.Receive.{uploaded}
use irosh.Client.{contents}
use irosh.Client.Upload.{LocalFile, request_for, upload_file}
use irosh.Client.Upload.Sent.{arriving, upload_file-Sent}

-- A list of frames that arrives with a completion in it has one in it.
told-arriving :
    (fs : List TransferFrame) (ready : Result TransferError TransferFrame) (size : ℕ)
    (rest : List (Result TransferError TransferFrame))
    → arriving fs ≡ ready ∷ ok (TransferFrame.put_complete (record { size = size })) ∷ rest
    → told fs ≡ true
told-arriving [] ready size rest h = cc
told-arriving (a ∷ []) ready size rest h = cc
told-arriving (a ∷ (TransferFrame.put_complete c ∷ fs)) ready size rest h = ground arith
told-arriving (a ∷ (b ∷ fs)) ready size rest h = cc

cons_inj :
    {a b : TransferFrame} {fs gs : List TransferFrame}
    → ◌≡◌ {A = List TransferFrame} (a ∷ fs) (b ∷ gs)
    → fs ≡ gs
cons_inj h = cc

uploaded_inj :
    {a b : Bytes} {m n : ℕ} → ◌≡◌ {A = Option (Bytes × ℕ)} (some (a, m)) (some (b, n)) → a ≡ b
uploaded_inj h = cc

module _ {W World : Type 0} (host : Host World) (laws : IsLawful host)
    (flushes : NoFlushFails host) where
  -- Let a client upload a file over a fresh stream to a server on a machine that keeps the laws and on
  -- which no flush of a file fails: the server reads the frames that the client wrote behind its
  -- request, and the client reads the frames that the server wrote. If the client's upload returns
  -- success, then the file was read to its end, nothing stood at the path of the request at the
  -- server, and a file with those bytes is there now.
  pub upload_file-handle_put_file :
      (file : LocalFile) (remote : Text) (c : Stream W) (context : ShellContext) (s : Stream World)
      (dest_path : PathBuf) (frames : List TransferFrame)
      → let r = request_for file remote in
        let (answer, c') = upload_file file remote c in
        let s' = (handle_put_file host context r s).1 in
        c.outgoing ≡ []
        → s.outgoing ≡ []
        → c'.outgoing ≡ TransferFrame.put_request r ∷ frames
        → s.incoming ≡ arriving frames
        → c.incoming ≡ arriving s'.outgoing
        → resolve_path host context r.path s ≡ (ok dest_path, s)
        → answer ≡ ok tt
        → (bytes : Bytes) × (contents file.reads ≡ some bytes)
          × (content host dest_path s ≡ none)
          × (content host dest_path s' ≡ some (plain bytes))
  upload_file-handle_put_file file remote c context s dest_path frames h₁ h₂ h₃ h₄ h₅ h₆ h₇ =
      let r = request_for file remote in
      let c' = (upload_file file remote c).1 in
      let s' = (handle_put_file host context r s).1 in
      let sent = upload_file-Sent file remote c h₇ in
      let same : frames ≡ sent.frames =
        cons_inj
          (sym h₃ ∙ sent.put ∙ ap (λ o. o ++ (TransferFrame.put_request r ∷ sent.frames)) h₁) in
      let success : told s'.outgoing ≡ true =
        told-arriving s'.outgoing sent.ready (length sent.bytes % 2 ^ 64) c'.incoming
          (sym h₅ ∙ sent.answered) in
      elim (handle_put_file_atomic host laws flushes context r s dest_path h₆) [
        | inl (_, silent) ↦ cc (sym success ∙ silent ∙ ap told h₂)
        | inr (missing, (bytes, u, full, size)) ↦ (
          sent.bytes,
          sent.whole,
          missing,
          full
              ∙ ap (λ b. some (plain b))
                  (uploaded_inj (sym u ∙ ap uploaded (h₄ ∙ ap arriving same) ∙ sent.upload)),
        )
      ]
