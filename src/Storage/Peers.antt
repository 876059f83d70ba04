-- ===== src/Storage/Peers.antt =====
-- src/storage/peers.rs: the profiles of peers, one JSON file for each name.
-- The files of the directory `peers` are named texts; `malformed` is one that cannot be read.
pub mod Laws
use irosh.Common.{
  ℕ, ◌+◌, Bool, true, false, ◌&&◌, ◌||◌, leb, ltb, ◌==◌, List, [], ◌∷◌, ◌++◌, map, Option, none,
  some, Result, ok, err, Action, ◌>>=◌, ◌>>◌, pure, throw, lift, codes, list_eq, is_empty, length,
  if◌then◌else◌,
}
use irosh.Transfer.Types.{Serde}
use irosh.Connect.Utf8.{into_bytes}
use irosh.Storage.Disk.{
  StorageError, directory_create, file_read, file_write, file_delete, peer_profile_serialize,
  peer_profile_parse, peer_name_invalid, Files, FileName, KeyFile, holds, malformed, lookup, insert,
  remove,
}

abbrev pub Text : Type 0
Text = List ℕ

pub record PeerProfile (Ticket : Type 0) : Type 0 where
  pub name : Text
  pub ticket : Ticket

-- `dir_ok` says whether the directory is there or can be made, `writable` whether its files can be
-- changed.
pub record PeerDisk : Type 0 where
  pub files : Files (List ℕ)
  pub dir_ok : Bool
  pub writable : Bool

abbrev pub max_name_len : ℕ
max_name_len = 128

abbrev pub reserved_names : List Text
reserved_names =
    codes "con"
    ∷ codes "prn"
    ∷ codes "aux"
    ∷ codes "nul"
    ∷ codes "com1"
    ∷ codes "com2"
    ∷ codes "com3"
    ∷ codes "com4"
    ∷ codes "com5"
    ∷ codes "com6"
    ∷ codes "com7"
    ∷ codes "com8"
    ∷ codes "com9"
    ∷ codes "lpt1"
    ∷ codes "lpt2"
    ∷ codes "lpt3"
    ∷ codes "lpt4"
    ∷ codes "lpt5"
    ∷ codes "lpt6"
    ∷ codes "lpt7"
    ∷ codes "lpt8"
    ∷ codes "lpt9"
    ∷ []

-- `to_lowercase`, as far as it can lead to a reserved name: those have only ASCII characters, and
-- outside ASCII only the Kelvin sign has an ASCII lower case, a `k`, which none of them has.
abbrev lower : ℕ → ℕ
lower c = if leb b'A' c && leb c b'Z' then c + 32 else c

abbrev has_char : ℕ → Text → Bool
has_char d [] = false
has_char d (c ∷ s) = c == d || has_char d s

abbrev has_text : Text → List Text → Bool
has_text t [] = false
has_text t (u ∷ us) = list_eq u t || has_text t us

unfoldable pub validate_peer_name : Text → Result StorageError (Unit {0})
validate_peer_name name =
    if is_empty name
    then err (peer_name_invalid name)
    else if ltb max_name_len (length (into_bytes name))
    then err (peer_name_invalid name)
    else if has_char 0 name
    then err (peer_name_invalid name)
    else if has_char b'/' name
        || has_char b'\\' name
        || list_eq name (codes ".")
        || list_eq name (codes "..")
    then err (peer_name_invalid name)
    else if has_text (map lower name) reserved_names
    then err (peer_name_invalid name)
    else ok tt

-- The name of the file in the directory `peers`.
unfoldable pub peer_path : Text → FileName
peer_path name = name ++ codes ".json"

abbrev ensure_peers_dir : Action PeerDisk StorageError (Unit {0})
ensure_peers_dir d = if d.dir_ok then (ok tt, d) else (err directory_create, d)

abbrev atomic_write : FileName → List ℕ → Action PeerDisk StorageError (Unit {0})
atomic_write path text d =
    if d.writable
    then (ok tt, record d { files = insert path (holds text) d.files })
    else (err file_write, d)

-- `fs::remove_file`, and whether there was a file.
unfoldable pub delete_peer : Text → Action PeerDisk StorageError Bool
delete_peer name d = elim (lookup (peer_path name) d.files) [
  | none ↦ (ok false, d)
  | some f ↦
      if d.writable
      then (ok true, record d { files = remove (peer_path name) d.files })
      else (err file_delete, d)
]

abbrev pub has_json_extension : FileName → Bool
has_json_extension [] = false
has_json_extension (c ∷ s) = list_eq s (codes ".json") || has_json_extension s

module _ {Ticket : Type 0} (serde : Serde (PeerProfile Ticket)) where
  abbrev serialized : PeerProfile Ticket → Result StorageError (List ℕ)
  serialized profile = elim (serde.to_vec profile) [
    | ok text ↦ ok text
    | err e ↦ err peer_profile_serialize
  ]

  unfoldable pub save_peer : PeerProfile Ticket → Action PeerDisk StorageError (Unit {0})
  save_peer profile = do
    ensure_peers_dir
    lift (validate_peer_name profile.name)
    text ← lift (serialized profile)
    atomic_write (peer_path profile.name) text

  abbrev parsed : List ℕ → Result StorageError (Option (PeerProfile Ticket))
  parsed text = elim (serde.from_slice text) [
    | ok profile ↦ ok (some profile)
    | err e ↦ err peer_profile_parse
  ]

  unfoldable pub load_peer : Text → PeerDisk → Result StorageError (Option (PeerProfile Ticket))
  load_peer name d = elim (lookup (peer_path name) d.files) [
    | none ↦ ok none
    | some malformed ↦ err file_read
    | some (holds text) ↦ parsed text
  ]

  -- The profiles in the order of the directory.
  unfoldable pub profiles_in : Files (List ℕ) → Result StorageError (List (PeerProfile Ticket))
  profiles_in [] = ok []
  profiles_in ((path, malformed) ∷ rest) =
      let later = profiles_in rest in if has_json_extension path then err file_read else later
  profiles_in ((path, holds text) ∷ rest) =
      let later = profiles_in rest in
      if has_json_extension path
      then elim (serde.from_slice text) [
        | ok profile ↦ elim later [ ok profiles ↦ ok (profile ∷ profiles) | err e ↦ err e ]
        | err e ↦ later
      ]
      else later

  unfoldable pub list_peers : PeerDisk → Result StorageError (List (PeerProfile Ticket))
  list_peers d = if d.dir_ok then profiles_in d.files else err directory_create

  unfoldable pub rename_peer : (old_name new_name : Text) → Action PeerDisk StorageError Bool
  rename_peer old_name new_name = do
    found ← (λ d. (load_peer old_name d, d))
    elim found [
      | none ↦ pure false
      | some profile ↦
          save_peer (record { name = new_name; ticket = profile.ticket })
          >> delete_peer old_name
          >> pure true
    ]
