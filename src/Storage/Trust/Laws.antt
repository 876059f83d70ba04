-- ===== src/Storage/Trust/Laws.antt =====
-- A key that was written is found again, by its node id and among all keys.
use irosh.Common.{
  ℕ, true, false, List, [], ◌∷◌, ◌++◌, map, list_eq, list_eq→eq, list_eq_refl, some, ok, ◌≡◌, refl,
  ap, length, length-append, Bool-cases, inl, inr, arith, Eq, contains, ◌≢◌,
}
use irosh.Storage.Disk.{Disk, Files, holds, malformed, insert, lookup-insert}
use irosh.Storage.Trust.{
  safe_char, suffix, key_path, pub_stem, all_keys, load_authorized_client, write_authorized_client,
}

longer_suffix : (c : ℕ) (w : List ℕ) → list_eq ((c ∷ w) ++ suffix) suffix ≡ false
longer_suffix c w = elim (Bool-cases (list_eq ((c ∷ w) ++ suffix) suffix)) [
  | inl e ↦ absurd (
      omega
        (arith, ap length (list_eq→eq ((c ∷ w) ++ suffix) suffix e), length-append (c ∷ w) suffix))
  | inr e ↦ e
]

pub_stem-append : (c : ℕ) (w : List ℕ) → pub_stem ((c ∷ w) ++ suffix) ≡ some (c ∷ w)
unfolding pub_stem
pub_stem-append c [] = refl
pub_stem-append c (d ∷ w) = rw (longer_suffix d w, pub_stem-append d w)

-- The file of a node is listed under the node's id with its separators replaced.
pub pub_stem-key_path :
    (c : ℕ) (node_id : List ℕ)
    → pub_stem (key_path (c ∷ node_id)) ≡ some (map safe_char (c ∷ node_id))
unfolding key_path
pub_stem-key_path c node_id = pub_stem-append (safe_char c) (map safe_char node_id)

module _ {Key : Type 0} where
  -- The keys without their ids, as `refresh_keys` takes them.
  abbrev pub keys_of : List (List ℕ × Key) → List Key
  keys_of [] = []
  keys_of ((_, k) ∷ l) = k ∷ keys_of l

module _ {Key : Type 0} ⦃e : Eq Key⦄ where
  pub all_keys-insert :
      (n w : List ℕ) (k : Key) (fs : Files Key)
      → pub_stem n ≡ some w
      → contains (keys_of (all_keys (insert n (holds k) fs))) k ≡ true
  unfolding all_keys insert contains
  all_keys-insert n w k [] h = ground (arith, (e.beq_iff k k).1 refl)
  all_keys-insert n w k ((m, holds j) ∷ fs) h =
      ground (arith, (e.beq_iff k k).1 refl, all_keys-insert n w k fs h)
  all_keys-insert n w k ((m, malformed) ∷ fs) h =
      ground (arith, (e.beq_iff k k).1 refl, all_keys-insert n w k fs h)

  -- After a client was authorized, on a disk that can be written, it is found by its node id,
  -- which is not empty, and among all clients; the record of a client with another file has not
  -- changed, and the servers' records have not.
  pub write_authorized_client_lem :
      (c : ℕ) (node_id other : List ℕ) (key : Key) (d : Disk Key)
      → d.writable ≡ true
      → key_path other ≢ key_path (c ∷ node_id)
      → let (r, d') = write_authorized_client (c ∷ node_id) key d in
        (load_authorized_client (c ∷ node_id) d' ≡ ok (some key))
        × (load_authorized_client other d' ≡ load_authorized_client other d)
        × (contains (keys_of (all_keys d'.clients)) key ≡ true)
        × (d'.servers ≡ d.servers)
  unfolding write_authorized_client load_authorized_client
  write_authorized_client_lem c node_id other key d h ne =
      let path = key_path (c ∷ node_id) in
      let listed = all_keys-insert path _ key d.clients (pub_stem-key_path c node_id) in
      (
        ground (arith, lookup-insert path path (holds key) d.clients, list_eq_refl path),
        ground (
          arith,
          lookup-insert path (key_path other) (holds key) d.clients,
          list_eq→eq (key_path other) path,
        ),
        ground (arith, listed),
        ground arith,
      )
