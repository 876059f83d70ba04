-- ===== src/Client/Tests.antt =====
-- Transfers between a client and a server, and connections to a server, on concrete values.
use irosh.Common.{
  sym, ℕ, nat_Eq, ◌≡◌, ◌≢◌, ◌⊎◌, refl, ◌∙◌, ap, true, List, [], ◌∷◌, Option, none, some, ok, err,
  arith, codes,
}
use irosh.Stream.{Bytes}
use irosh.Transfer.Types.{TransferFrame}
use irosh.Server.Host.{plain, write, read_next_frame, answer, Stream}
use irosh.Server.Context.{stateless, resolve_path}
use irosh.Server.Keeps.{content}
use irosh.Server.Upload.{handle_put_file}
use irosh.Client.{contents, send, next_frame, Reads}
use irosh.Client.Upload.{
  LocalFile, request_for, normalize_path_separators, upload_file, check_ready, send_file,
  send_chunks, check_complete,
}
use irosh.Client.Upload.Sent.{arriving}
use irosh.Client.Delivered.{upload_file-handle_put_file}
use irosh.Server.Download.{Source}
use irosh.Storage.Disk.{Disk, ShadowFile, holds, lookup, insert}
use irosh.Storage.Trust.{key_path, load_known_server, write_known_server}
use irosh.Auth.Types.{strict, tofu, accept_all}
use irosh.Client.Handler.{
  ClientHandler, new, open_handler, first_use, check_known, check_server_key, server_key_mismatch,
}
use irosh.Client.Handler.Pinning.{
  connect, connect_all, check_server_key_accepts, check_server_key_pins,
}
use irosh.Server.Machine.{Files, machine, machine-IsLawful, machine-NoFlushFails, missing}
use irosh.Server.Examples.{request, before, target, resolved, uploads}

-- A client that uploads the same three bytes, and the server's answers to it.
abbrev three : LocalFile
three = record { len = 3; permissions = 33188; reads = ok (1 ∷ 2 ∷ []) ∷ ok (3 ∷ []) ∷ [] }

abbrev client : Stream (Unit {0})
client = record {
  incoming = arriving (
      TransferFrame.put_ready (record { size = 3; mode = some 420 })
      ∷ TransferFrame.put_complete (record { size = 3 })
      ∷ []);
  outgoing = [];
  faults = [];
  world = tt;
}

abbrev frames_sent : List TransferFrame
frames_sent =
    TransferFrame.put_chunk (1 ∷ 2 ∷ [])
    ∷ TransferFrame.put_chunk (3 ∷ [])
    ∷ TransferFrame.put_complete (record { size = 3 })
    ∷ []

client_sends :
    let (answer, c') = upload_file three (codes "/a") client in
    (answer ≡ ok tt)
    × (c'.outgoing ≡ TransferFrame.put_request (request_for three (codes "/a")) ∷ frames_sent)
unfolding upload_file send write next_frame read_next_frame check_ready send_file send_chunks
    check_complete request_for normalize_path_separators
client_sends = (refl, refl)

asks : request_for three (codes "/a") ≡ request
unfolding request_for normalize_path_separators
asks = refl

server_resolves :
    resolve_path machine stateless (request_for three (codes "/a")).path before
    ≡ (ok target, before)
server_resolves = ap (λ r. resolve_path machine stateless r.path before) asks ∙ resolved

server_answers :
    (handle_put_file machine stateless (request_for three (codes "/a")) before).1.outgoing
    ≡ TransferFrame.put_ready (record { size = 3; mode = some 420 })
      ∷ TransferFrame.put_complete (record { size = 3 })
      ∷ []
server_answers = ap (λ r. (handle_put_file machine stateless r before).1.outgoing) asks ∙ uploads.3

upload_file-handle_put_file_example :
    (bytes : Bytes) × (contents three.reads ≡ some bytes)
    × (content machine target before ≡ none)
    × (content machine target
          (handle_put_file machine stateless (request_for three (codes "/a")) before).1
        ≡ some (plain bytes))
upload_file-handle_put_file_example =
    upload_file-handle_put_file machine machine-IsLawful machine-NoFlushFails three (codes "/a")
      client stateless before target frames_sent refl refl client_sends.1 refl
      (ap arriving (sym server_answers)) server_resolves client_sends.0

abbrev file_reads : Option Bytes → Reads
file_reads none = err missing ∷ []
file_reads (some bytes) = ok bytes ∷ []

abbrev source : Source Files
source = record {
  wc = λ pid p w. err missing;
  open_file = λ context p w. ok tt;
  has_stdout = λ p w. true;
  reads = λ p w. file_reads (w p);
  wait_with_output = λ pid p w. err missing;
  context_of = λ context. [];
  walk = λ p w. [];
  find = λ pid p w. err missing;
}

abbrev serving : Stream Files
serving = record { incoming = []; outgoing = []; faults = []; world = λ p. some (7 ∷ 8 ∷ []) }

abbrev sent_back : List TransferFrame
sent_back =
    TransferFrame.get_chunk (7 ∷ 8 ∷ []) ∷ TransferFrame.get_complete (record { size = 2 }) ∷ []

abbrev hello : TransferFrame
hello = TransferFrame.get_ready (record { size = 2; mode = none })

abbrev fetching : Stream Files
fetching = record { incoming = arriving sent_back; outgoing = []; faults = []; world = λ p. none }

abbrev disk : Disk ℕ
disk = record {
  shadow = ShadowFile.missing;
  servers = [];
  clients = [];
  readable = true;
  writable = true;
}

abbrev node : List ℕ
node = codes "node"

abbrev learned : Disk ℕ
learned = record disk { servers = (key_path node, holds 5) ∷ [] }

abbrev first : ClientHandler ℕ
first = new node none tofu disk

abbrev trusting : ClientHandler ℕ
trusting = record first { known_server = some 5; disk = learned }

opens : open_handler node tofu disk ≡ ok first
unfolding open_handler load_known_server new lookup
opens = refl

accepts : check_server_key 5 first ≡ (ok true, trusting)
unfolding check_server_key check_known first_use write_known_server insert new
accepts = refl

opens_again : open_handler node strict trusting.disk ≡ ok (new node (some 5) strict learned)
unfolding open_handler load_known_server new key_path lookup
opens_again = refl

check_server_key_accepts_example :
    let (r, v') = check_server_key 5 first in
    ((r ≡ ok true)
      × (v' ≡ first)
      × ((first.host_key_policy ≡ accept_all) ⊎ (first.known_server ≡ some 5)))
    ⊎ ((r ≡ ok true)
        × (first.host_key_policy ≡ tofu)
        × (first.known_server ≡ none)
        × (v'.known_server ≡ some 5)
        × (load_known_server first.node_id v'.disk ≡ ok (some 5)))
    ⊎ ((r ≢ ok true) × (v' ≡ first))
check_server_key_accepts_example = check_server_key_accepts 5 first

connects : connect node tofu 5 disk ≡ (ok true, learned)
unfolding open_handler load_known_server new lookup check_server_key check_known first_use
    write_known_server insert
connects = refl

check_server_key_pins_example :
    let d' = connect_all node ((tofu, 6) ∷ (accept_all, 7) ∷ []) (connect node tofu 5 disk).1 in
    ((connect node strict 5 d').0 ≡ ok true)
    × ((connect node strict 6 d').0 ≡ err server_key_mismatch)
check_server_key_pins_example =
    check_server_key_pins node tofu strict 5 6 disk ((tofu, 6) ∷ (accept_all, 7) ∷ []) (λ h. cc h)
      (λ h. cc h) (λ h. absurd (omega (arith, h))) (ap (λ p. p.0) connects)
