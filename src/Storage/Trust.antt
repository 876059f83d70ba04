-- ===== src/Storage/Trust.antt =====
-- src/storage/trust.rs: the keys that are trusted, one file for each.
pub mod Laws
use irosh.Common.{
  ℕ, Bool, true, false, ◌||◌, ◌==◌, List, [], ◌∷◌, ◌++◌, map, codes, list_eq, Option, none, some,
  Result, ok, err, Action, if◌then◌else◌, ◌>>=◌,
}
use irosh.Storage.Disk.{
  Disk, Files, FileName, KeyFile, holds, malformed, StorageError, directory_read, file_write,
  file_delete, public_key_read, lookup, insert, remove,
}

pub data TrustEventKind : Type 0 where
  server_key_learned client_key_authorized : TrustEventKind

-- The path is given by the file's name.
pub record TrustEvent : Type 0 where
  pub kind : TrustEventKind
  pub path : FileName

-- `replace(['/', '\\', '.', ':'], "_")`
abbrev pub safe_char : ℕ → ℕ
safe_char c = if c == b'/' || c == b'\\' || c == b'.' || c == b':' then b'_' else c

abbrev pub suffix : FileName
suffix = codes ".pub"

-- The file's name in `server_key_path` and `client_key_path`.
unfoldable pub key_path : List ℕ → FileName
key_path node_id = map safe_char node_id ++ suffix

-- `file_stem`, where the extension is `pub`.
unfoldable pub pub_stem : FileName → Option (List ℕ)
pub_stem [] = none
pub_stem (c ∷ s) =
    let longer = pub_stem s in
    if list_eq s suffix then some (c ∷ []) else elim longer [ none ↦ none | some w ↦ some (c ∷ w) ]

module _ {Key : Type 0} where
  abbrev read_openssh_file : KeyFile Key → Result StorageError (Option Key)
  read_openssh_file (holds k) = ok (some k)
  read_openssh_file malformed = err public_key_read

  load_key : FileName → Files Key → Result StorageError (Option Key)
  load_key path files = elim (lookup path files) [ none ↦ ok none | some f ↦ read_openssh_file f ]

  unfoldable pub load_known_server : List ℕ → Disk Key → Result StorageError (Option Key)
  unfolding load_key
  load_known_server node_id d = load_key (key_path node_id) d.servers

  unfoldable pub load_authorized_client : List ℕ → Disk Key → Result StorageError (Option Key)
  unfolding load_key
  load_authorized_client node_id d = load_key (key_path node_id) d.clients

  -- The records of a directory; what is no `.pub` file, or holds no key, is skipped.
  unfoldable pub all_keys : Files Key → List (List ℕ × Key)
  all_keys [] = []
  all_keys ((n, malformed) ∷ fs) = all_keys fs
  all_keys ((n, holds k) ∷ fs) = elim (pub_stem n) [
    | none ↦ all_keys fs
    | some node_id ↦ (node_id, k) ∷ all_keys fs
  ]

  unfoldable pub load_all_authorized_clients : Disk Key → Result StorageError (List (List ℕ × Key))
  load_all_authorized_clients d = if d.readable then ok (all_keys d.clients) else err directory_read

  unfoldable pub write_known_server : List ℕ → Key → Action (Disk Key) StorageError TrustEvent
  write_known_server node_id key d =
      let path = key_path node_id in
      if d.writable
      then (
        ok (record { kind = server_key_learned; path = path }),
        record d { servers = insert path (holds key) d.servers },
      )
      else (err file_write, d)

  unfoldable pub write_authorized_client : List ℕ → Key → Action (Disk Key) StorageError TrustEvent
  write_authorized_client node_id key d =
      let path = key_path node_id in
      if d.writable
      then (
        ok (record { kind = client_key_authorized; path = path }),
        record d { clients = insert path (holds key) d.clients },
      )
      else (err file_write, d)

  -- `remove_if_exists`, on one directory: whether there was a file, and the files left.
  unfoldable pub remove_if_exists :
      Bool → FileName → Files Key → Result StorageError Bool × Files Key
  remove_if_exists writable path files = elim (lookup path files) [
    | none ↦ (ok false, files)
    | some _ ↦ if writable then (ok true, remove path files) else (err file_delete, files)
  ]

  unfoldable pub reset_known_server : List ℕ → Action (Disk Key) StorageError Bool
  reset_known_server node_id d =
      let (r, files) = remove_if_exists d.writable (key_path node_id) d.servers in
      (r, record d { servers = files })

  unfoldable pub reset_authorized_client : List ℕ → Action (Disk Key) StorageError Bool
  reset_authorized_client node_id d =
      let (r, files) = remove_if_exists d.writable (key_path node_id) d.clients in
      (r, record d { clients = files })
