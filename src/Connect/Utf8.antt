-- ===== src/Connect/Utf8.antt =====
-- Strings as the code points of their characters, and their bytes: `String::into_bytes` and
-- `String::from_utf8_lossy` of the standard library, as cli/src/commands/connect calls them.
use irosh.Common.{
  ℕ, ◌+◌, ◌-◌, ◌*◌, ◌/◌, ◌%◌, ◌<◌, ◌≡◌, refl, Bool, ◌&&◌, ltb, leb, ◌==◌, List, [], ◌∷◌, ◌++◌,
  if◌then◌else◌, All, arith,
}

abbrev pub Text : Type 0
Text = List ℕ

abbrev pub Bytes : Type 0
Bytes = List ℕ

abbrev encode : ℕ → Bytes
encode c =
    if ltb c 0x80
    then c ∷ []
    else if ltb c 0x800
    then (0xC0 + c / 64) ∷ (0x80 + c % 64) ∷ []
    else if ltb c 0x10000
    then (0xE0 + c / 4096) ∷ (0x80 + c / 64 % 64) ∷ (0x80 + c % 64) ∷ []
    else (0xF0 + c / 262144) ∷ (0x80 + c / 4096 % 64) ∷ (0x80 + c / 64 % 64) ∷ (0x80 + c % 64) ∷ []

unfoldable pub into_bytes : Text → Bytes
into_bytes [] = []
into_bytes (c ∷ s) = encode c ++ into_bytes s

-- A character of which `left` bytes are missing, the next one between `low` and `high`.
data Decoder : Type 0 where
  start : Decoder
  inside : (left bits low high : ℕ) → Decoder

abbrev replacement : ℕ
replacement = 0xFFFD

abbrev between : ℕ → ℕ → ℕ → Bool
between low high b = leb low b && leb b high

abbrev first_byte : ℕ → Text × Decoder
first_byte b =
    if ltb b 0x80
    then (b ∷ [], start)
    else if between 0xC2 0xDF b
    then ([], inside 1 (b - 0xC0) 0x80 0xBF)
    else if between 0xE0 0xEF b
    then (
      [],
      inside 2 (b - 0xE0) (if b == 0xE0 then 0xA0 else 0x80) (if b == 0xED then 0x9F else 0xBF),
    )
    else if between 0xF0 0xF4 b
    then (
      [],
      inside 3 (b - 0xF0) (if b == 0xF0 then 0x90 else 0x80) (if b == 0xF4 then 0x8F else 0xBF),
    )
    else (replacement ∷ [], start)

abbrev next_byte : Decoder → ℕ → Text × Decoder
next_byte start b = first_byte b
next_byte (inside left bits low high) b =
    let bits' = bits * 64 + (b - 0x80) in
    let (text, d) = first_byte b in
    if between low high b
    then (if left == 1 then (bits' ∷ [], start) else ([], inside (left - 1) bits' 0x80 0xBF))
    else (replacement ∷ text, d)

decode : Decoder → Bytes → Text
decode start [] = []
decode (inside left bits low high) [] = replacement ∷ []
decode d (b ∷ s) = let (text, d') = next_byte d b in text ++ decode d' s

pub from_utf8_lossy : Bytes → Text
from_utf8_lossy s = decode start s

pub from_utf8_lossy-ascii : (s : Bytes) → All (λ b. b < 0x80) s → from_utf8_lossy s ≡ s
unfolding from_utf8_lossy decode
from_utf8_lossy-ascii [] h = refl
from_utf8_lossy-ascii (b ∷ s) h = ground (arith, from_utf8_lossy-ascii s)
