-- ===== src/Server/Upload/Published.antt =====
-- What an upload leaves at its destination.
use irosh.Common.{
  ok_inj, ℕ, ◌≡◌, ◌≢◌, ◌⊎◌, refl, ◌∙◌, ap, sym, subst, Bool, true, false, Option, none, some,
  Result, ok, err, arith, Result-cases, Bool-cases, inl, inr,
}
use irosh.Transfer.Types.{Text, TransferFrame, TransferFailureCode, PutRequest}
use irosh.Server.Paths.{PathBuf}
use irosh.Server.Host.{
  flush, plain, NoFlushFails, observe, IoFailure, Call, ServerError, Host, IsLawful, Stream,
  UploadSink, process, file, dest, written, wait, perform, answer, succeeds, command, mv,
}
use irosh.Server.Context.{remove_file_if_present, ShellContext, live, stateless, rename}
use irosh.Server.Keeps.{
  told, seen, is_complete, perform-seen, write-seen, Keeps, Ends, >>=-Ends, reads-Keeps, >>=-Keeps,
  >>-Keeps, pure-Keeps, throw-Keeps, if-Keeps, caught-Keeps, answer-Keeps, content, Avoids,
  perform-content, write-content, remove_file_if_present-Keeps, chmod-Keeps,
}
use irosh.Server.Upload.{
  ended, flushed, atomic_rename_failure, Received, PreparedPutDestination, publish, finish,
  finish_with, end_sink, error_frame, wait_for, conclude, set_mode,
}

module _ {World : Type 0} (host : Host World) (laws : IsLawful host) where
  -- A rename leaves the target, or leaves in it what the source held.
  rename-content :
      (context : ShellContext) (from to : PathBuf) (s : Stream World)
      → content host to s ≡ none
      → (((rename host context from to s).0 ≢ ok true)
          × (seen host to (rename host context from to s).1 ≡ seen host to s))
        ⊎ (content host to (rename host context from to s).1 ≡ content host from s)
  unfolding rename perform
  rename-content (live pid) from to s missing =
      elim (Bool-cases (succeeds (host.perform (command pid (mv from to)) s.world).0)) [
        | inl e ↦ inr (laws.mv_moves pid from to s.world missing ∙ rw e refl)
        | inr e ↦
            let same : content host to (rename host (live pid) from to s).1 ≡ content host to s =
              laws.mv_moves pid from to s.world missing ∙ rw e (sym missing) in
            inl (λ h. cc (sym e ∙ ok_inj h), λ i. (same i, told s.outgoing))
      ]
  rename-content stateless from to s missing =
      elim (Result-cases (host.perform (Call.rename from to) s.world).0) [
        | inl (b, e) ↦ inr (rw e (laws.rename_moves from to s.world b e))
        | inr (x, e) ↦
            let same = laws.rename_fails from to s.world x e in
            inl (λ h. cc (rw e at h), rw e (λ i. (same i, told s.outgoing)))
      ]

  module _ (q : PathBuf) where
    answered : (f : TransferFrame) → is_complete f ≡ false → Keeps (seen host q) (answer f)
    answered f h = answer-Keeps (seen host q) f (write-seen host q f h)

    pub removed :
        (context : ShellContext) (p : PathBuf)
        → q ≢ p
        → Keeps (seen host q) (remove_file_if_present host context p)
    removed context p h =
        remove_file_if_present-Keeps (seen host q) host (Avoids host q) (perform-seen host q laws)
          context p (λ pid. (h, tt)) (h, tt)

    moded :
        (context : ShellContext) (p : PathBuf) (mode : Option ℕ)
        → Keeps (content host q) (set_mode host context p mode)
    moded context p none = pure-Keeps (content host q) tt
    moded context p (some mode) =
        chmod-Keeps (content host q) host (Avoids host q) (perform-content host q laws) context p
          mode (λ pid. tt) tt

    concluded :
        (context : ShellContext) (request : PutRequest) (prepared : PreparedPutDestination)
        (received : ℕ) (moved : Result ServerError Bool)
        → moved ≢ ok true
        → q ≢ prepared.part_arg
        → Keeps (seen host q) (conclude host context request prepared received moved)
    unfolding conclude
    concluded context request prepared received (ok true) h ne = absurd (h refl)
    concluded context request prepared received (ok false) h ne =
        >>-Keeps (seen host q) (removed context prepared.part_arg ne)
          (answered (TransferFrame.error (atomic_rename_failure prepared.final_arg)) refl)
    concluded context request prepared received (err e) h ne =
        >>-Keeps (seen host q) (removed context prepared.part_arg ne) (throw-Keeps (seen host q) e)

    -- The conclusion does not change the content that a rename left.
    concluded-content :
        (context : ShellContext) (request : PutRequest) (prepared : PreparedPutDestination)
        (received : ℕ) (moved : Result ServerError Bool)
        → q ≢ prepared.part_arg
        → Keeps (content host q) (conclude host context request prepared received moved)
    unfolding conclude
    concluded-content context request prepared received (ok true) ne =
        >>-Keeps (content host q) (moded context prepared.final_arg request.mode)
          (answer-Keeps (content host q) _ (write-content host q _))
    concluded-content context request prepared received (ok false) ne = record {
      same = λ s.
          ap (λ v. v.0)
            ((concluded context request prepared received (ok false) (λ e. cc e) ne).same s);
    }
    concluded-content context request prepared received (err x) ne = record {
      same = λ s.
          ap (λ v. v.0)
            ((concluded context request prepared received (err x) (λ e. cc e) ne).same s);
    }

  publish-seen :
      (context : ShellContext) (request : PutRequest) (prepared : PreparedPutDestination)
      (received : ℕ) (s : Stream World)
      → prepared.final_arg ≢ prepared.part_arg
      → content host prepared.final_arg s ≡ none
      → Ends
          (seen host prepared.final_arg)
          (λ v. v.0 ≡ content host prepared.part_arg s)
          (publish host context request prepared received)
          s
  unfolding publish
  publish-seen context request prepared received s ne missing =
      let final = prepared.final_arg in
      let (moved, s₁) = rename host context prepared.part_arg final s in
      elim (rename-content context prepared.part_arg final s missing) [
        | inl (failed, same) ↦
            inl ((concluded final context request prepared received moved failed ne).same s₁ ∙ same)
        | inr full ↦
            inr
              ((concluded-content final context request prepared received moved ne).same s₁ ∙ full)
      ]

  ended-Keeps :
      (q : PathBuf) (r : Result IoFailure Bool) (stderr : Text)
      → Keeps (seen host q) (ended host r stderr)
  ended-Keeps q (ok true) stderr = pure-Keeps (seen host q) tt
  ended-Keeps q (ok false) stderr = throw-Keeps (seen host q) _
  ended-Keeps q (err e) stderr = throw-Keeps (seen host q) _

  flushed-Keeps : (q : PathBuf) (r : Result IoFailure Bool) → Keeps (seen host q) (flushed host r)
  flushed-Keeps q (ok b) = pure-Keeps (seen host q) tt
  flushed-Keeps q (err e) = throw-Keeps (seen host q) _

  wait_for-Keeps :
      (q : PathBuf) (sink : UploadSink) → q ≢ dest sink → Keeps (seen host q) (wait_for host sink)
  unfolding wait_for
  wait_for-Keeps q (process pid p bytes) ne =
      >>=-Keeps (seen host q) (perform-seen host q laws (wait (process pid p bytes)) (ne, tt)) (λ r.
        >>=-Keeps (seen host q)
          (reads-Keeps (seen host q) (observe (host.stderr (process pid p bytes))) (λ s. refl))
          (λ stderr. ended-Keeps q r stderr))
  wait_for-Keeps q (file p bytes) ne =
      >>=-Keeps (seen host q) (perform-seen host q laws (wait (file p bytes)) (ne, tt))
        (λ r. flushed-Keeps q r)

  end_sink-Keeps :
      (q : PathBuf) (sink : UploadSink) → q ≢ dest sink → Keeps (seen host q) (end_sink host sink)
  unfolding end_sink
  end_sink-Keeps q sink ne =
      >>-Keeps (seen host q) (perform-seen host q laws (flush sink) (ne, tt))
        (caught-Keeps (seen host q) (wait_for-Keeps q sink ne))

  -- A sink that ended without an error holds what was written to it, if no flush fails.
  end_sink-content :
      (flushes : NoFlushFails host) (sink : UploadSink) (s : Stream World)
      → (end_sink host sink s).0 ≡ ok (ok tt)
      → content host (dest sink) (end_sink host sink s).1 ≡ some (plain (written sink))
  unfolding end_sink wait_for perform
  end_sink-content flushes (process pid p bytes) s h =
      let w = (host.perform (flush (process pid p bytes)) s.world).1 in
      elim (Result-cases (host.perform (wait (process pid p bytes)) w).0) [
        | inl (true, e) ↦ rw e (laws.wait_writes pid p bytes w e)
        | inl (false, e) ↦ absurd (ground (arith, e, h))
        | inr (x, e) ↦ absurd (ground (arith, e, h))
      ]
  end_sink-content flushes (file p bytes) s h =
      let w = (host.perform (flush (file p bytes)) s.world).1 in
      let (b, flushed) = flushes p bytes s.world in
      elim (Result-cases (host.perform (wait (file p bytes)) w).0) [
        | inl (c, e) ↦
            rw e (laws.wait_keeps p bytes w ∙ laws.flush_writes p bytes s.world b flushed)
        | inr (x, e) ↦ absurd (ground (arith, e, h))
      ]

  finish_with-seen :
      (context : ShellContext) (request : PutRequest) (prepared : PreparedPutDestination)
      (r : Received) (s : Stream World) (helper_res : Result ServerError (Unit {0}))
      → prepared.final_arg ≢ prepared.part_arg
      → content host prepared.final_arg s ≡ none
      → (helper_res ≡ ok tt → content host prepared.part_arg s ≡ some (plain (written r.sink)))
      → Ends
          (seen host prepared.final_arg)
          (λ v. (r.transfer_failed ≡ false) × (v.0 ≡ some (plain (written r.sink))))
          (finish_with host context request prepared r helper_res)
          s
  unfolding finish_with
  finish_with-seen context request prepared r s (ok _) ne missing full =
      elim (Bool-cases r.transfer_failed) [
        | inl e ↦ inl (rw e ((removed prepared.final_arg context prepared.part_arg ne).same s))
        | inr e ↦ rw e (elim (publish-seen context request prepared r.received s ne missing) [
          | inl same ↦ inl same
          | inr moved ↦ inr (refl, moved ∙ full refl)
        ])
      ]
  finish_with-seen context request prepared r s (err x) ne missing full = inl (
      (>>-Keeps (seen host prepared.final_arg)
          (removed prepared.final_arg context prepared.part_arg ne)
          (if-Keeps (seen host prepared.final_arg) r.transfer_failed
            (pure-Keeps (seen host prepared.final_arg) tt)
            (answered prepared.final_arg
              (error_frame TransferFailureCode.helper_failed (host.to_string x)) refl))).same
        s)

  -- Only a part file that has all the bytes it was given is renamed, if no flush fails.
  pub finish-seen :
      (flushes : NoFlushFails host) (context : ShellContext) (request : PutRequest)
      (prepared : PreparedPutDestination) (r : Received) (s : Stream World)
      → prepared.final_arg ≢ prepared.part_arg
      → content host prepared.final_arg s ≡ none
      → dest r.sink ≡ prepared.part_arg
      → Ends
          (seen host prepared.final_arg)
          (λ v. (r.transfer_failed ≡ false) × (v.0 ≡ some (plain (written r.sink))))
          (finish host context request prepared r)
          s
  unfolding finish
  finish-seen flushes context request prepared r s ne missing at =
      let final = prepared.final_arg in
      let ending = end_sink-Keeps final r.sink (λ h. ne (h ∙ at)) in
      >>=-Ends (seen host final)
        (λ v. (r.transfer_failed ≡ false) × (v.0 ≡ some (plain (written r.sink))))
        (end_sink host r.sink) (finish_with host context request prepared r) s (ending.same s)
        (λ helper_res e.
          finish_with-seen context request prepared r (end_sink host r.sink s).1 helper_res ne
            (ap (λ v. v.0) (ending.same s) ∙ missing)
            (λ h.
              subst (λ p. content host p (end_sink host r.sink s).1 ≡ some (plain (written r.sink)))
                at (end_sink-content flushes r.sink s (e ∙ ap ok h))))
