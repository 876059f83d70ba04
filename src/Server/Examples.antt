-- ===== src/Server/Examples.antt =====
-- Uploads to the server, on the machine of the tests.
use irosh.Common.{
  err, is_empty, ◌++◌, ◌≡◌, ◌⊎◌, refl, ap, true, false, List, [], ◌∷◌, none, some, Result, ok, All,
  codes,
}
use irosh.Transfer.Types.{TransferFrame, TransferError, PutRequest, EntryComplete}
use irosh.Transfer.FilePath.{normal, root_dir, components, split, is_absolute, inner, component}
use irosh.Server.Paths.{
  PathBuf, parent, set_file_name, file_name, join, added, split_both, has_parent_dir,
  sanitize_relative_path,
}
use irosh.Server.Host.{Host, flush, write, answer, perform, Stream}
use irosh.Storage.Shadow.{trim}
use irosh.Server.Context
use irosh.Server.Context.{
  ShellContext, live, stateless, resolve_path, path_missing_no_follow, remove_file_if_present,
}
use irosh.Server.Keeps.{content, told}
use irosh.Server.Upload.{
  handle_put_file, part_path, prepare_put_destination, upload_to, spawn_upload_helper,
  stream_upload, after_ready, receive, finish, finish_with, wait_for, end_sink, publish, conclude,
}
use irosh.Server.Upload.Atomic.{handle_put_file_atomic, Holds}
use irosh.Server.Paths.Inside.{IsInside, sanitize_relative_path-IsInside}
use irosh.Server.Context.Resolve.{AtHome, AtCwd, resolve_path_cases}
use irosh.Server.Machine.{missing, machine-NoFlushFails, Files, machine, machine-IsLawful}
use irosh.Server.Upload.Recursive.{
  receive_entry, receive_entries, receive_new_entry, receive_at, receive_kind, receive_file,
  file_at, finish_entry, publish_entry, conclude_entry, abandon_entry,
}

abbrev pub request : PutRequest
request = record { path = codes "/a"; size = 3; mode = some 420; recursive = false }

abbrev pub upload_frames : List (Result TransferError TransferFrame)
upload_frames =
    ok (TransferFrame.put_chunk (1 ∷ 2 ∷ []))
    ∷ ok (TransferFrame.put_chunk (3 ∷ []))
    ∷ ok (TransferFrame.put_complete (record { size = 3 }))
    ∷ []

abbrev pub before : Stream Files
before = record { incoming = upload_frames; outgoing = []; faults = []; world = λ p. none }

abbrev pub target : PathBuf
target = root_dir ∷ normal (codes "a") ∷ []

pub resolved : resolve_path machine stateless (codes "/a") before ≡ (ok target, before)
unfolding resolve_path trim components
resolved = refl

-- The file is there, the part file is not, and the client was told.
pub uploads :
    let (r, s) = handle_put_file machine stateless request before in
    (r ≡ ok tt)
    × (s.world target ≡ some (1 ∷ 2 ∷ 3 ∷ []))
    × (s.world (part_path target (codes "1.2")) ≡ none)
    × (s.outgoing
        ≡ TransferFrame.put_ready (record { size = 3; mode = some 420 })
          ∷ TransferFrame.put_complete (record { size = 3 })
          ∷ [])
unfolding handle_put_file prepare_put_destination resolve_path trim components
    path_missing_no_follow Context.create_dir_all upload_to spawn_upload_helper stream_upload
    after_ready write answer perform receive finish finish_with wait_for end_sink publish
    Context.rename conclude remove_file_if_present Context.chmod parent part_path set_file_name
    file_name
uploads = (refl, refl, refl, refl)

-- A machine on which a flush loses what was written and reports it once.
abbrev full : Host Files
full = record machine {
  perform = λ c. elim c [ flush sink ↦ λ w. (err missing, w) | other ↦ machine.perform other ];
}

-- There an upload is reported complete with an empty file.
loses :
    let (r, s) = handle_put_file full stateless request before in
    (r ≡ ok tt)
    × (s.world target ≡ some [])
    × (s.outgoing
        ≡ TransferFrame.put_ready (record { size = 3; mode = some 420 })
          ∷ TransferFrame.put_complete (record { size = 3 })
          ∷ [])
unfolding handle_put_file prepare_put_destination resolve_path trim components
    path_missing_no_follow Context.create_dir_all upload_to spawn_upload_helper stream_upload
    after_ready write answer perform receive finish finish_with wait_for end_sink publish
    Context.rename conclude remove_file_if_present Context.chmod parent part_path set_file_name
    file_name
loses = (refl, refl, refl)

handle_put_file_atomic_example :
    let s' = (handle_put_file machine stateless request before).1 in
    ((content machine target s' ≡ content machine target before) × (told s'.outgoing ≡ told []))
    ⊎ ((content machine target before ≡ none) × Holds upload_frames 3 (content machine target s'))
handle_put_file_atomic_example =
    handle_put_file_atomic machine machine-IsLawful machine-NoFlushFails stateless request before
      target resolved

resolve_path_cases_example :
    (is_empty (trim (codes "/a")) ≡ false)
    × (((is_absolute (codes "/a") ≡ true) × (target ≡ components (codes "/a")))
        ⊎ ((codes "/a" ≡ codes "~") × (machine.home ≡ some target))
        ⊎ AtHome machine stateless before (codes "/a") target
        ⊎ AtCwd machine stateless before (codes "/a") target)
resolve_path_cases_example =
    resolve_path_cases machine stateless before (codes "/a") target (ap (λ p. p.0) resolved)

-- A second slash behind the tilde leads out of the home directory.
leaves_home :
    (resolve_path machine stateless (codes "~//etc") before).0
    ≡ ok (root_dir ∷ normal (codes "etc") ∷ [])
unfolding resolve_path trim split has_parent_dir components join inner component
leaves_home = refl

accepted : sanitize_relative_path (codes "b/c") ≡ ok (codes "b/c")
unfolding sanitize_relative_path split_both has_parent_dir
accepted = refl

sanitize_relative_path-IsInside_example :
    let p = codes "b/c" in
    (p ≡ p)
    × (join target (components p) ≡ target ++ added (components p))
    × All IsInside (added (components p))
sanitize_relative_path-IsInside_example =
    sanitize_relative_path-IsInside (codes "b/c") (codes "b/c") root_dir (normal (codes "a") ∷ [])
      accepted

-- A recursive upload of one file.
abbrev entries : List (Result TransferError TransferFrame)
entries =
    ok
      (TransferFrame.new_entry (record { path = codes "b"; size = 1; mode = none; is_dir = false }))
    ∷ ok (TransferFrame.put_chunk (9 ∷ []))
    ∷ ok (TransferFrame.entry_complete EntryComplete.entry_complete)
    ∷ ok (TransferFrame.put_complete (record { size = 0 }))
    ∷ []

abbrev loaded : Stream Files
loaded = record before { incoming = entries }

uploads_entries :
    let (r, s) = receive_entries machine 4 stateless target entries 0 loaded in
    (r ≡ ok tt) × (s.world (target ++ (normal (codes "b") ∷ [])) ≡ some (9 ∷ []))
unfolding receive_entries receive_new_entry receive_at receive_kind receive_file file_at
    receive_entry finish_entry prepare_put_destination path_missing_no_follow Context.create_dir_all
    spawn_upload_helper wait_for end_sink Context.rename remove_file_if_present Context.chmod parent
    part_path set_file_name file_name sanitize_relative_path split_both has_parent_dir components
    join answer write perform publish_entry conclude_entry abandon_entry resolve_path trim
uploads_entries = (refl, refl)
