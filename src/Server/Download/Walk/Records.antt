-- ===== src/Server/Download/Walk/Records.antt =====
-- The records that `find` prints for a recursive download are read back one by one.
use irosh.Common.{
  true, codes, list_eq, Option, none, some, ◌^◌, ◌==◌, ◌≡◌, Bool, false, ◌||◌, List, [], ◌∷◌, ◌++◌,
}
use irosh.Stream.{Bytes}
use irosh.Connect.Utf8.{from_utf8_lossy}
use irosh.Transfer.Types.{EntryHeader}
use irosh.Server.Download.Walk.{or_zero, from_str_radix}

abbrev has_nul : Bytes → Bool
has_nul [] = false
has_nul (c ∷ s) = (c == 0) || has_nul s

-- The type of an entry as `find` prints it: a symbolic link, a directory, or another one.
pub data Kind : Type 0 where
  link : Kind
  directory : Kind
  other : Bytes → Kind

abbrev pub letter : Kind → Bytes
letter link = codes "l"
letter directory = codes "d"
letter (other kind) = kind

-- The type, the path, the size and the mode of an entry, as `find` prints them.
pub record Printed : Type 0 where
  pub kind : Kind
  pub path : Bytes
  pub size : Bytes
  pub mode : Bytes

abbrev ended : Bytes → Bytes
ended field = field ++ (0 ∷ [])

-- The frame that announces an entry.
abbrev header_as : (is_dir : Bool) → Printed → EntryHeader
header_as is_dir p = record {
  path = from_utf8_lossy p.path;
  size = or_zero (from_str_radix 10 (2 ^ 64) (from_utf8_lossy p.size));
  mode = from_str_radix 8 (2 ^ 32) (from_utf8_lossy p.mode);
  is_dir = is_dir;
}

-- A symbolic link is passed over.
abbrev pub header : Kind → Printed → Option EntryHeader
header link p = none
header directory p = some (header_as true p)
header (other kind) p = some (header_as false p)

abbrev IsOther : Kind → Type 0
IsOther (other kind) =
    (list_eq (from_utf8_lossy kind) (codes "l") ≡ false)
    × (list_eq (from_utf8_lossy kind) (codes "d") ≡ false)
IsOther kind = Unit {0}

-- What `-printf '%y\0%P\0%s\0%m\0'` prints.
abbrev pub printed : List Printed → Bytes
printed [] = []
printed (p ∷ rest) =
    letter p.kind ++ (0 ∷ (p.path ++ (0 ∷ (p.size ++ (0 ∷ (p.mode ++ (0 ∷ printed rest)))))))

abbrev pub IsPlain : Printed → Type 0
IsPlain p =
    (has_nul (letter p.kind) ≡ false)
    × (has_nul p.path ≡ false)
    × (has_nul p.size ≡ false)
    × (has_nul p.mode ≡ false)
    × IsOther p.kind
