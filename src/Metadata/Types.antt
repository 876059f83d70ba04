-- ===== src/Metadata/Types.antt =====
-- src/transport/metadata/types.rs: the metadata record and the sanitizer of its fields.
use irosh.Common.{ℕ, zero, ◌-◌, ◌||◌, leb, ltb, ◌==◌, [], ◌∷◌, Option, none, some, if◌then◌else◌}
use irosh.Stream.{IoError}
use irosh.Transfer.Types.{Text, JsonError}

abbrev pub max_field_len : ℕ
max_field_len = 255

pub record PeerMetadata : Type 0 where
  pub hostname : Text
  pub user : Text
  pub os : Text

-- The bytes of a character in UTF-8.
abbrev pub len_utf8 : ℕ → ℕ
len_utf8 c = if ltb c 0x80 then 1 else if ltb c 0x800 then 2 else if ltb c 0x10000 then 3 else 4

-- `String::retain(|c| c >= ' ' || c == '\t')`
unfoldable pub retain : Text → Text
retain [] = []
retain (c ∷ s) = let rest = retain s in if leb b' ' c || c == 9 then c ∷ rest else rest

-- `String::truncate(n)`, with `n` in bytes. It panics, here `none`, if `n` falls inside a character.
unfoldable pub truncate : ℕ → Text → Option Text
truncate n [] = some []
truncate zero (c ∷ s) = some []
truncate n (c ∷ s) =
    let rest = truncate (n - len_utf8 c) s in
    if leb (len_utf8 c) n then elim rest [ none ↦ none | some t ↦ some (c ∷ t) ] else none

unfoldable pub sanitize_field : Text → Option Text
unfolding retain truncate
sanitize_field s = truncate max_field_len (retain s)

abbrev pub ◌>>=?◌ : {A B : Type 0} → Option A → (A → Option B) → Option B
◌>>=?◌ none f = none
◌>>=?◌ (some a) f = f a

-- `PeerMetadata::new`; `none` is a panic.
unfoldable pub new_metadata : Text → Text → Text → Option PeerMetadata
new_metadata hostname user os = ◌>>=?◌ (sanitize_field hostname) (λ h.
    ◌>>=?◌ (sanitize_field user)
      (λ u. ◌>>=?◌ (sanitize_field os) (λ o. some (record { hostname = h; user = u; os = o }))))

pub data MetadataError : Type 0 where
  io : IoError → MetadataError
  invalid_magic : MetadataError
  unsupported_version : ℕ → MetadataError
  unsupported_kind : ℕ → MetadataError
  unexpected_kind : (expected actual : ℕ) → MetadataError
  payload_too_large : ℕ → MetadataError
  json : JsonError → MetadataError
