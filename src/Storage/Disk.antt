-- ===== src/Storage/Disk.antt =====
-- The files below the state directory: src/storage/trust.rs keeps one file for each trusted key
-- under `trust/servers` and `trust/clients`, src/storage/shadow.rs one file with a password hash.
-- `atomic_write_secure` writes a whole file or fails and writes nothing, so a file is a value.
use irosh.Common.{
  ℕ, Bool, ◌≡◌, refl, List, [], ◌∷◌, Option, none, some, if◌then◌else◌, list_eq, list_eq_refl,
  list_eq→eq, arith,
}

abbrev pub FileName : Type 0
FileName = List ℕ

-- The errors of src/error/storage.rs that reading, writing and deleting these files returns, without
-- the path and the cause that each carries.
pub data StorageError : Type 0 where
  directory_create directory_read file_read file_write file_delete public_key_read : StorageError
  peer_profile_serialize peer_profile_parse : StorageError
  peer_name_invalid : List ℕ → StorageError

-- A file that should hold a key in the OpenSSH format.
pub data KeyFile (Key : Type 0) : Type 0 where
  holds : Key → KeyFile Key
  malformed : KeyFile Key

abbrev pub Files : Type 0 → Type 0
Files Key = List (FileName × KeyFile Key)

pub data ShadowFile : Type 0 where
  missing unreadable : ShadowFile
  content : List ℕ → ShadowFile

-- `readable` and `writable` say whether listing a trust directory, and changing any file, works.
pub record Disk (Key : Type 0) : Type 0 where
  pub shadow : ShadowFile
  pub servers : Files Key
  pub clients : Files Key
  pub readable : Bool
  pub writable : Bool

module _ {Key : Type 0} where
  unfoldable pub lookup : FileName → Files Key → Option (KeyFile Key)
  lookup n [] = none
  lookup n ((m, f) ∷ fs) = if list_eq n m then some f else lookup n fs

  unfoldable pub insert : FileName → KeyFile Key → Files Key → Files Key
  insert n f [] = (n, f) ∷ []
  insert n f ((m, g) ∷ fs) = if list_eq n m then (n, f) ∷ fs else (m, g) ∷ insert n f fs

  unfoldable pub remove : FileName → Files Key → Files Key
  remove n [] = []
  remove n ((m, g) ∷ fs) = if list_eq n m then remove n fs else (m, g) ∷ remove n fs

  pub lookup-insert :
      (n m : FileName) (f : KeyFile Key) (fs : Files Key)
      → lookup m (insert n f fs) ≡ (if list_eq m n then some f else lookup m fs)
  unfolding lookup insert
  lookup-insert n m f [] = refl
  lookup-insert n m f ((k, g) ∷ fs) = ground (
    arith,
    lookup-insert n m f fs,
    list_eq→eq n k,
    list_eq→eq m k,
    list_eq→eq m n,
    list_eq_refl m,
    list_eq_refl n,
    list_eq_refl k,
  )

  pub lookup-remove :
      (n m : FileName) (fs : Files Key)
      → lookup m (remove n fs) ≡ (if list_eq m n then none else lookup m fs)
  unfolding lookup remove
  lookup-remove n m [] = ground arith
  lookup-remove n m ((k, g) ∷ fs) = ground (
    arith,
    lookup-remove n m fs,
    list_eq→eq n k,
    list_eq→eq m k,
    list_eq→eq m n,
    list_eq_refl m,
    list_eq_refl n,
    list_eq_refl k,
  )
