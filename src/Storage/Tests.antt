-- ===== src/Storage/Tests.antt =====
-- Runs of the trust records and of the peer profiles on concrete disks.
use irosh.Storage.Peers.Laws.{load_peer-save_peer, rename_peer_lem, rename_peer_same}
use irosh.Common.{
  ℕ, nat_Eq, ap, length, true, [], ◌∷◌, ◌≡◌, ◌≢◌, refl, ok, some, contains, codes, arith, List,
  none, Result, err,
}
use irosh.Transfer.Types.{Serde, JsonError}
use irosh.Connect.Utf8.{into_bytes}
use irosh.Storage.Peers.{
  PeerProfile, PeerDisk, peer_path, validate_peer_name, save_peer, load_peer, delete_peer,
  rename_peer,
}
use irosh.Storage.Disk.{Disk, insert, lookup, remove, holds, missing}
use irosh.Storage.Trust.{key_path, load_authorized_client, write_authorized_client, all_keys}
use irosh.Storage.Trust.Laws.{keys_of, write_authorized_client_lem}

-- One client, with the key 5.
abbrev disk : Disk ℕ
disk = record {
  shadow = missing;
  servers = [];
  clients = (key_path (codes "SHA256:a"), holds 5) ∷ [];
  readable = true;
  writable = true;
}

other_file : key_path (codes "SHA256:a") ≢ key_path (codes "SHA256:bb")
unfolding key_path
other_file same = omega (arith, ap length same)

write_authorized_client_lem_example :
    let (r, d') = write_authorized_client (codes "SHA256:bb") 6 disk in
    (load_authorized_client (codes "SHA256:bb") d' ≡ ok (some 6))
    × (load_authorized_client (codes "SHA256:a") d'
        ≡ load_authorized_client (codes "SHA256:a") disk)
    × (contains (keys_of (all_keys d'.clients)) 6 ≡ true)
    × (d'.servers ≡ [])
write_authorized_client_lem_example =
    write_authorized_client_lem b'S' (codes "HA256:bb") (codes "SHA256:a") 6 disk refl other_file

abbrev print : PeerProfile ℕ → List ℕ
print p = p.ticket ∷ p.name

abbrev parse : List ℕ → Result JsonError (PeerProfile ℕ)
parse [] = err []
parse (ticket ∷ name) = ok (record { name = name; ticket = ticket })

parse-print :
    (p : PeerProfile ℕ) (text : List ℕ)
    → ◌≡◌ {A = Result JsonError (List ℕ)} (ok (print p)) (ok text)
    → parse text ≡ ok p
parse-print p text h = let e : print p ≡ text = cc in rw (← e) refl

-- The ticket, one number, before the name.
abbrev serde : Serde (PeerProfile ℕ)
serde = record { to_vec = λ p. ok (print p); from_slice = parse; from_slice-to_vec = parse-print }

abbrev empty : PeerDisk
empty = record { files = []; dir_ok = true; writable = true }

abbrev alpha : PeerProfile ℕ
alpha = record { name = codes "alpha"; ticket = 7 }

abbrev with_alpha : PeerDisk
with_alpha = record empty { files = (codes "alpha.json", holds (7 ∷ codes "alpha")) ∷ [] }

paths_differ : peer_path (codes "box") ≢ peer_path (codes "alpha")
unfolding peer_path
paths_differ same = omega (arith, ap length same)

rename_peer_lem_example :
    (profile : PeerProfile ℕ) × (load_peer serde (codes "alpha") with_alpha ≡ ok (some profile))
    × (load_peer serde
          (codes "alpha")
          (rename_peer serde (codes "alpha") (codes "box") with_alpha).1
        ≡ ok none)
    × (load_peer serde (codes "box") (rename_peer serde (codes "alpha") (codes "box") with_alpha).1
        ≡ ok (some (record { name = codes "box"; ticket = profile.ticket })))
unfolding rename_peer load_peer save_peer delete_peer validate_peer_name peer_path lookup insert
    remove into_bytes
rename_peer_lem_example =
    rename_peer_lem serde (codes "alpha") (codes "box") with_alpha paths_differ refl

rename_peer_same_example :
    let (r, d') = rename_peer serde (codes "alpha") (codes "alpha") with_alpha in
    (r ≡ ok true) × (load_peer serde (codes "alpha") d' ≡ ok none)
unfolding rename_peer load_peer save_peer delete_peer validate_peer_name peer_path lookup insert
    remove into_bytes
rename_peer_same_example = rename_peer_same serde (codes "alpha") alpha with_alpha refl refl

load_peer-save_peer_example :
    (load_peer serde (codes "alpha") with_alpha ≡ ok (some alpha))
    × (load_peer serde (codes "box") with_alpha ≡ load_peer serde (codes "box") empty)
unfolding save_peer validate_peer_name peer_path insert into_bytes
load_peer-save_peer_example =
    load_peer-save_peer serde alpha (codes "box") empty {d' = with_alpha} paths_differ refl
