-- ===== src/Client/Handler.antt =====
-- src/client/handler.rs: the checks of a server's key and the forwards of a connection; and the key
-- that `connect` of src/client/connect.rs loads for them.
pub mod Pinning
use irosh.Common.{
  ℕ, ◌==◌, ◌&&◌, Bool, true, false, List, [], ◌∷◌, Option, none, some, Result, ok, err, Action,
  if◌then◌else◌, list_eq, Eq,
}
use irosh.Storage.Disk.{Disk, StorageError}
use irosh.Storage.Trust.{load_known_server, write_known_server}
use irosh.Auth.Types.{Text, HostKeyPolicy, strict, tofu, accept_all}

pub data HandlerError : Type 0 where
  server_key_mismatch : HandlerError
  storage : StorageError → HandlerError

-- A host and a port; a port of `u16` or `u32`.
abbrev pub Address : Type 0
Address = Text × ℕ

-- `ClientHandler`, with the disk that `write_known_server` writes to. The table of tunnels is the
-- list of its entries in the order in which it is walked through.
pub record ClientHandler (Key : Type 0) : Type 0 where
  pub node_id : List ℕ
  pub known_server : Option Key
  pub last_disconnect : Option Text
  pub host_key_policy : HostKeyPolicy
  pub remote_tunnels : List (Address × Address)
  pub disk : Disk Key

abbrev same_address : Address → Address → Bool
same_address (h, p) (h', p') = list_eq h h' && (p == p')

-- `HashMap::insert` and `get`
unfoldable pub put_tunnel : Address → Address → List (Address × Address) → List (Address × Address)
put_tunnel a target [] = (a, target) ∷ []
put_tunnel a target ((b, t) ∷ rest) =
    let later = put_tunnel a target rest in
    if same_address a b then (b, target) ∷ rest else (b, t) ∷ later

unfoldable pub get_tunnel : Address → List (Address × Address) → Option Address
get_tunnel a [] = none
get_tunnel a ((b, t) ∷ rest) =
    let later = get_tunnel a rest in if same_address a b then some t else later

-- The first entry whose port matches.
unfoldable pub find_port : ℕ → List (Address × Address) → Option Address
find_port port [] = none
find_port port (((h, p), t) ∷ rest) =
    let later = find_port port rest in if p == port then some t else later

module _ {Key : Type 0} where
  unfoldable pub register_remote_tunnel : Address → Address → ClientHandler Key → ClientHandler Key
  register_remote_tunnel remote target v = record v {
    remote_tunnels = put_tunnel remote target v.remote_tunnels;
  }

  -- The target of `server_channel_open_forwarded_tcpip`; with none the channel is dropped.
  unfoldable pub forward_target : Address → ClientHandler Key → Option Address
  forward_target (host, port) v = elim (get_tunnel (host, port) v.remote_tunnels) [
    | some target ↦ some target
    | none ↦ find_port port v.remote_tunnels
  ]

  -- `ClientHandler::new`
  unfoldable pub new : List ℕ → Option Key → HostKeyPolicy → Disk Key → ClientHandler Key
  new node_id known policy disk = record {
    node_id = node_id;
    known_server = known;
    last_disconnect = none;
    host_key_policy = policy;
    remote_tunnels = [];
    disk = disk;
  }

  -- A connection's handler, from what `connect` loads.
  unfoldable pub open_handler :
      List ℕ → HostKeyPolicy → Disk Key → Result HandlerError (ClientHandler Key)
  open_handler node_id accept_all disk = ok (new node_id none accept_all disk)
  open_handler node_id policy disk = elim (load_known_server node_id disk) [
    | ok known ↦ ok (new node_id known policy disk)
    | err e ↦ err (storage e)
  ]

module _ {Key : Type 0} ⦃e : Eq Key⦄ where
  -- What is done with a key when none is known.
  unfoldable pub first_use : Key → Action (ClientHandler Key) HandlerError Bool
  first_use key v = elim v.host_key_policy [
    | strict ↦ (err server_key_mismatch, v)
    | tofu ↦
        let (r, disk) = write_known_server v.node_id key v.disk in
        elim r [
          | ok event ↦ (ok true, record v { known_server = some key; disk = disk })
          | err x ↦ (err (storage x), record v { disk = disk })
        ]
    | accept_all ↦ (ok true, v)
  ]

  unfoldable pub check_known : Option Key → Key → Action (ClientHandler Key) HandlerError Bool
  check_known (some known) key v =
      if e.beq key known then (ok true, v) else (err server_key_mismatch, v)
  check_known none key v = first_use key v

  unfoldable pub check_server_key : Key → Action (ClientHandler Key) HandlerError Bool
  check_server_key key v = elim v.host_key_policy [
    | accept_all ↦ (ok true, v)
    | _ ↦ check_known v.known_server key v
  ]
