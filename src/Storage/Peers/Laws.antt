-- ===== src/Storage/Peers/Laws.antt =====
-- Saving, loading and renaming of peers.
use irosh.Common.{
  false, refl, ℕ, ◌≡◌, ◌≢◌, ◌∙◌, inl, inr, Bool, true, List, none, some, ok, list_eq→eq,
  list_eq_refl, Result-cases, Option-cases, arith,
}
use irosh.Transfer.Types.{Serde}
use irosh.Storage.Disk.{holds, lookup, insert, lookup-insert, lookup-remove}
use irosh.Storage.Peers.{
  Text, PeerProfile, PeerDisk, peer_path, delete_peer, save_peer, load_peer, rename_peer,
}

module _ {Ticket : Type 0} (serde : Serde (PeerProfile Ticket)) where
  -- The disk after a profile was saved as `text`.
  abbrev written : PeerProfile Ticket → List ℕ → PeerDisk → PeerDisk
  written profile text d = record d { files = insert (peer_path profile.name) (holds text) d.files }

  save_peer_inv :
      (profile : PeerProfile Ticket) (d : PeerDisk) {d' : PeerDisk}
      → save_peer serde profile d ≡ (ok tt, d')
      → (text : List ℕ) × (serde.from_slice text ≡ ok profile) × (d' ≡ written profile text d)
  unfolding save_peer
  save_peer_inv profile d {d'} saved = elim (Result-cases (serde.to_vec profile)) [
    | inr (x, e) ↦ absurd (ground arith)
    | inl (text, e) ↦ (text, serde.from_slice-to_vec profile text e, ground arith)
  ]

  load_written :
      (profile : PeerProfile Ticket) (text : List ℕ) (d : PeerDisk)
      → serde.from_slice text ≡ ok profile
      → load_peer serde profile.name (written profile text d) ≡ ok (some profile)
  unfolding load_peer
  load_written profile text d e =
      let path = peer_path profile.name in
      ground (arith, lookup-insert path path (holds text) d.files, list_eq_refl path)

  load_other :
      (profile : PeerProfile Ticket) (text : List ℕ) (other : Text) (d : PeerDisk)
      → peer_path other ≢ peer_path profile.name
      → load_peer serde other (written profile text d) ≡ load_peer serde other d
  unfolding load_peer
  load_other profile text other d ne =
      let path = peer_path profile.name in
      ground (
        arith,
        lookup-insert path (peer_path other) (holds text) d.files,
        list_eq→eq (peer_path other) path,
      )

  -- A profile that was saved is loaded again by its name; what is loaded by a name with another
  -- file has not changed.
  pub load_peer-save_peer :
      (profile : PeerProfile Ticket) (other : Text) (d : PeerDisk) {d' : PeerDisk}
      → peer_path other ≢ peer_path profile.name
      → save_peer serde profile d ≡ (ok tt, d')
      → (load_peer serde profile.name d' ≡ ok (some profile))
        × (load_peer serde other d' ≡ load_peer serde other d)
  load_peer-save_peer profile other d {d'} ne saved =
      let (text, parses, after) = save_peer_inv profile d saved in
      rw after (load_written profile text d parses, load_other profile text other d ne)

  -- After a name was deleted nothing is loaded by it.
  load_peer-delete_peer :
      (name : Text) (d : PeerDisk) {b : Bool} {d' : PeerDisk}
      → delete_peer name d ≡ (ok b, d')
      → load_peer serde name d' ≡ ok none
  unfolding delete_peer load_peer
  load_peer-delete_peer name d {b} {d'} deleted =
      let path = peer_path name in
      elim (Option-cases (lookup path d.files)) [
        | inl missing ↦ ground arith
        | inr (f, found) ↦ ground (arith, lookup-remove path path d.files, list_eq_refl path)
      ]

  load_kept :
      (name other : Text) (d : PeerDisk) {b : Bool} {d' : PeerDisk}
      → peer_path other ≢ peer_path name
      → delete_peer name d ≡ (ok b, d')
      → load_peer serde other d' ≡ load_peer serde other d
  unfolding delete_peer load_peer
  load_kept name other d {b} {d'} ne deleted =
      let path = peer_path name in
      elim (Option-cases (lookup path d.files)) [
        | inl missing ↦ ground arith
        | inr (f, found) ↦
            ground (
              arith,
              lookup-remove path (peer_path other) d.files,
              list_eq→eq (peer_path other) path,
            )
      ]

  rename_peer_inv :
      (old_name new_name : Text) (d : PeerDisk) {d' : PeerDisk}
      → rename_peer serde old_name new_name d ≡ (ok true, d')
      → (profile : PeerProfile Ticket) × (saved : PeerDisk) × (b : Bool) × (load_peer serde old_name
            d
          ≡ ok (some profile))
        × (save_peer serde (record { name = new_name; ticket = profile.ticket }) d ≡ (ok tt, saved))
        × (delete_peer old_name saved ≡ (ok b, d'))
  unfolding rename_peer
  rename_peer_inv old_name new_name d {d'} renamed =
      elim (Result-cases (load_peer serde old_name d)) [
        | inr (x, e) ↦ absurd (ground arith)
        | inl (none, e) ↦ absurd (ground arith)
        | inl (some profile, e) ↦
            let new : PeerProfile Ticket = record { name = new_name; ticket = profile.ticket } in
            elim (Result-cases (save_peer serde new d).0) [
              | inr (x, bad) ↦ absurd (ground arith)
              | inl (tt, good) ↦
                  let saved = (save_peer serde new d).1 in
                  elim (Result-cases (delete_peer old_name saved).0) [
                    | inr (x, bad) ↦ absurd (ground arith)
                    | inl (b, gone) ↦ (profile, saved, b, e, ground arith, ground arith)
                  ]
            ]
      ]

  -- After a renaming that succeeded the old name loads nothing. If its file is another one than the
  -- new name's, the new name loads the profile that the old one did, under its new name.
  pub rename_peer_lem :
      (old_name new_name : Text) (d : PeerDisk) {d' : PeerDisk}
      → peer_path new_name ≢ peer_path old_name
      → rename_peer serde old_name new_name d ≡ (ok true, d')
      → (profile : PeerProfile Ticket) × (load_peer serde old_name d ≡ ok (some profile))
        × (load_peer serde old_name d' ≡ ok none)
        × (load_peer serde new_name d'
            ≡ ok (some (record { name = new_name; ticket = profile.ticket })))
  rename_peer_lem old_name new_name d {d'} ne renamed =
      let (profile, saved, b, found, was_saved, deleted) =
        rename_peer_inv old_name new_name d renamed in
      let new : PeerProfile Ticket = record { name = new_name; ticket = profile.ticket } in
      (
        profile,
        found,
        load_peer-delete_peer old_name saved deleted,
        load_kept old_name new_name saved ne deleted
            ∙ (let (text, parses, after) = save_peer_inv new d was_saved in
                rw after (load_written new text d parses)),
      )

  save_peer-writable :
      (profile : PeerProfile Ticket) (d : PeerDisk) {d' : PeerDisk}
      → save_peer serde profile d ≡ (ok tt, d')
      → d'.writable ≡ true
  unfolding save_peer
  save_peer-writable profile d {d'} saved = elim (Result-cases (serde.to_vec profile)) [
    | inr (x, e) ↦ absurd (ground arith)
    | inl (text, e) ↦ ground arith
  ]

  deleted :
      (name : Text) (d : PeerDisk)
      → d.writable ≡ true
      → (b : Bool) × ((delete_peer name d).0 ≡ ok b)
  unfolding delete_peer
  deleted name d w = elim (Option-cases (lookup (peer_path name) d.files)) [
    | inl missing ↦ (false, ground arith)
    | inr (f, found) ↦ (true, ground arith)
  ]

  -- Where a peer is stored and its profile can be saved again, to rename it to the name that it has
  -- succeeds and deletes it: the name then loads nothing.
  pub rename_peer_same :
      (name : Text) (profile : PeerProfile Ticket) (d : PeerDisk) {saved : PeerDisk}
      → load_peer serde name d ≡ ok (some profile)
      → save_peer serde (record { name = name; ticket = profile.ticket }) d ≡ (ok tt, saved)
      → let (r, d') = rename_peer serde name name d in
        (r ≡ ok true) × (load_peer serde name d' ≡ ok none)
  unfolding rename_peer
  rename_peer_same name profile d {saved} found save =
      let (b, gone) = deleted name saved (save_peer-writable _ d save) in
      let d' = (delete_peer name saved).1 in
      let renamed : rename_peer serde name name d ≡ (ok true, d') =
        ground (arith, found, save, gone) in
      rw renamed (refl, load_peer-delete_peer name saved {b = b} {d' = d'} (λ i. (gone i, d')))
