-- ===== src/Storage/Shadow.antt =====
-- src/storage/shadow.rs: the hash of the node password.
use irosh.Common.{
  ℕ, Bool, true, false, ◌||◌, ◌&&◌, ◌==◌, leb, List, [], ◌∷◌, Option, none, some, Result, ok, err,
  Action, if◌then◌else◌, reverse,
}
use irosh.Storage.Disk.{
  Disk, StorageError, file_read, file_write, file_delete, missing, unreadable, content,
}

-- `char::is_whitespace`
abbrev is_whitespace : ℕ → Bool
is_whitespace c =
    (leb 9 c && leb c 13)
    || c == 32
    || c == 0x85
    || c == 0xa0
    || c == 0x1680
    || (leb 0x2000 c && leb c 0x200a)
    || c == 0x2028
    || c == 0x2029
    || c == 0x202f
    || c == 0x205f
    || c == 0x3000

abbrev trim_start : List ℕ → List ℕ
trim_start [] = []
trim_start (c ∷ s) = let rest = trim_start s in if is_whitespace c then rest else c ∷ s

-- `str::trim`
unfoldable pub trim : List ℕ → List ℕ
trim s = reverse (trim_start (reverse (trim_start s)))

module _ {Key : Type 0} where
  unfoldable pub load_shadow_file : Disk Key → Result StorageError (Option (List ℕ))
  load_shadow_file d = elim d.shadow [
    | missing ↦ ok none
    | unreadable ↦ err file_read
    | content s ↦ ok (some (trim s))
  ]

  unfoldable pub write_shadow_file : List ℕ → Action (Disk Key) StorageError (Unit {0})
  write_shadow_file hash d =
      if d.writable then (ok tt, record d { shadow = content hash }) else (err file_write, d)

  -- Whether there was a file.
  unfoldable pub delete_shadow_file : Action (Disk Key) StorageError Bool
  delete_shadow_file d = elim d.shadow [
    | missing ↦ (ok false, d)
    | _ ↦ if d.writable then (ok true, record d { shadow = missing }) else (err file_delete, d)
  ]
