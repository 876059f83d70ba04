-- ===== src/Server/Control/Entries.antt =====
-- The names that `find` prints for a completion are read back as they were printed.
use irosh.Common.{codes, list_eq, ◌==◌, ◌≡◌, Bool, false, ◌||◌, List, [], ◌∷◌, ◌++◌, is_empty}
use irosh.Stream.{Bytes}
use irosh.Transfer.Types.{Text}
use irosh.Connect.Utf8.{from_utf8_lossy}

abbrev has_nul : Bytes → Bool
has_nul [] = false
has_nul (c ∷ s) = (c == 0) || has_nul s

-- What a directory holds, with the bytes of its name and, where it is no directory, its type.
pub data Listed : Type 0 where
  directory : (name : Bytes) → Listed
  other : (name kind : Bytes) → Listed

-- What `-printf '%P\0%y\0'` prints for the entries of a directory.
abbrev pub printed : List Listed → Bytes
printed [] = []
printed (directory name ∷ rest) = name ++ (0 ∷ (codes "d" ++ (0 ∷ printed rest)))
printed (other name kind ∷ rest) = name ++ (0 ∷ (kind ++ (0 ∷ printed rest)))

-- How a completion names an entry.
abbrev pub shown : Listed → Text
shown (directory name) = from_utf8_lossy name ++ codes "/"
shown (other name kind) = from_utf8_lossy name

-- A name is not empty, neither a name nor a type holds a NUL, and only a directory's type is `d`.
abbrev pub IsPrintable : Listed → Type 0
IsPrintable (directory name) = (is_empty name ≡ false) × (has_nul name ≡ false)
IsPrintable (other name kind) =
    (is_empty name ≡ false)
    × (has_nul name ≡ false)
    × (has_nul kind ≡ false)
    × (list_eq kind (codes "d") ≡ false)
