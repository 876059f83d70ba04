-- ===== src/Server/Tests.antt =====
-- A transfer stream, listings and the registry of sessions, on concrete values.
use irosh.Common.{
  ◌^◌, ◌++◌, ◌≡◌, refl, true, false, List, [], ◌∷◌, none, some, ok, err, arith, codes,
}
use irosh.Transfer.Types.{TransferFrame, EntryComplete}
use irosh.Transfer.FilePath.{normal, components}
use irosh.Server.Host.{write, read_next_frame, answer, Stream}
use irosh.Storage.Shadow.{trim}
use irosh.Server.Context.{from_state, stateless, resolve_path}
use irosh.Server.Machine.{Files, machine, missing}
use irosh.Server.Control.Entries.{Listed, other, directory}
use irosh.Server.Download.{Source, FileType, found, symlink, regular, spawn_download_helper, opened}
use irosh.Server.Dispatch.{Others, Metrics, handle_transfer_stream}
use irosh.Server.Dispatch.Counts.{counted, outcome, handle_transfer_stream_counts}
use irosh.Server.Tracker.{get, register, new_tracker}
use irosh.Server.Tracker.Sessions.{registers, unregisters, transfers, run, register_lem, Event}
use irosh.Server.Download.Walk.{
  from_str_radix, read_digits, handle_recursive_get_request, send_entries, collect, send_walked,
  stream_file_content, send_content,
}
use irosh.Server.Download.Walk.Records.{Printed}
use irosh.Server.Download.Walk.Records
use irosh.Server.Examples.{request, upload_frames, before}

-- Two names as `find` prints them, the second a directory's.
abbrev listing : List Listed
listing = other (codes "a:b") (codes "f") ∷ directory (codes "src") ∷ []

abbrev reading : Source Files
reading = record {
  wc = λ pid p w. err missing;
  open_file = λ context p w. ok tt;
  has_stdout = λ p w. true;
  reads = λ p w. [];
  wait_with_output = λ pid p w. err missing;
  context_of = λ context. [];
  walk = λ p w. [];
  find = λ pid p w. err missing;
}

abbrev others : Others Files
others = record {
  handle_blob_put_request = λ context r. λ s. (ok tt, s);
  handle_blob_get_request = λ context r. λ s. (ok tt, s);
  handle_completion_request = λ context r. λ s. (ok tt, s);
}

abbrev asked : Stream Files
asked = record before { incoming = ok (TransferFrame.put_request request) ∷ upload_frames }

abbrev no_counts : Metrics
no_counts = record {
  transfers_initiated = 0;
  transfers_completed = 0;
  transfers_failed = 0;
  errors = 0;
}

handle_transfer_stream_counts_example :
    let (first, s') = read_next_frame asked in
    let (_, _, m') = handle_transfer_stream machine reading others none asked no_counts in
    m' ≡ counted (outcome machine reading others stateless first s') no_counts
unfolding from_state
handle_transfer_stream_counts_example =
    handle_transfer_stream_counts machine reading others none asked no_counts

-- One session moves bytes while another comes and goes.
abbrev happenings : List Event
happenings =
    transfers 0 3 4
    ∷ registers (codes "q") 9
    ∷ transfers 1 5 5
    ∷ unregisters 1
    ∷ transfers 0 1 0
    ∷ []

register_lem_example :
    let (id, t') = register (codes "p") 7 new_tracker in
    get id (run happenings t').sessions
    ≡ some (record { peer_id = codes "p"; started_at = 7; bytes_sent = 4; bytes_received = 4 })
unfolding register
register_lem_example =
    register_lem (codes "p") 7 happenings new_tracker (omega arith)
      (tt, (tt, (tt, (refl, (tt, tt)))))

-- A directory and a file in it whose name has a line break.
abbrev tree : List Printed
tree =
    record { kind = Records.directory; path = codes "d"; size = codes "40"; mode = codes "755" }
    ∷ record {
      kind = Records.other (codes "f");
      path = codes "d/a" ++ (10 ∷ []);
      size = codes "3";
      mode = codes "644";
    }
    ∷ []

reads_octal : from_str_radix 8 (2 ^ 32) (codes "644") ≡ some 420
unfolding from_str_radix read_digits
reads_octal = refl

-- A recursive download of one file that two directories hold.
abbrev two_files : Source Files
two_files = record reading {
  reads = λ p w. ok (5 ∷ []) ∷ [];
  walk = λ p w.
      found [] FileType.directory (ok (40, 493))
      ∷ found (normal (codes "d") ∷ []) FileType.directory (ok (40, 16877))
      ∷ found (normal (codes "d") ∷ (normal (codes "l") ∷ [])) symlink (err (codes "dangling"))
      ∷ found (normal (codes "d") ∷ (normal (codes "f") ∷ [])) regular (ok (1, 33188))
      ∷ [];
}

sends_entries :
    (handle_recursive_get_request machine two_files stateless
      (record { path = codes "/a"; recursive = true })
      before).1.outgoing
    ≡ TransferFrame.get_ready (record { size = 0; mode = none })
      ∷ TransferFrame.new_entry
          (record { path = codes "d"; size = 0; mode = some 493; is_dir = true })
      ∷ TransferFrame.new_entry
          (record { path = codes "d/f"; size = 1; mode = some 420; is_dir = false })
      ∷ TransferFrame.get_chunk (5 ∷ [])
      ∷ TransferFrame.entry_complete EntryComplete.entry_complete
      ∷ TransferFrame.get_complete (record { size = 1 })
      ∷ []
unfolding handle_recursive_get_request resolve_path trim components answer write send_entries
    collect send_walked stream_file_content send_content spawn_download_helper opened
sends_entries = refl
