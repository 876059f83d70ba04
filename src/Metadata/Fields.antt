-- ===== src/Metadata/Fields.antt =====
-- What the sanitizer makes of a field, and the fields on which it panics.
use irosh.Common.{
  ℕ, zero, suc, ◌+◌, ◌-◌, ◌≤◌, ◌<◌, ◌≡◌, refl, inl, inr, true, ◌||◌, leb, ◌==◌, [], ◌∷◌, ◌++◌, none,
  some, arith, All, length, Bool-cases, Option-cases, subst, leb→le,
}
use irosh.Transfer.Types.{Text}
use irosh.Metadata.Types.{max_field_len, len_utf8, retain, truncate, sanitize_field}

-- The bytes of a text in UTF-8.
abbrev pub len : Text → ℕ
len [] = 0
len (c ∷ s) = len_utf8 c + len s

-- A space or above, or a tab.
abbrev pub IsKept : ℕ → Type 0
IsKept c = (leb b' ' c || c == 9) ≡ true

retain-IsKept : (s : Text) → All IsKept (retain s)
unfolding retain
retain-IsKept [] = tt
retain-IsKept (c ∷ s) = ground (arith, retain-IsKept s)

retain_id : (s : Text) → All IsKept s → retain s ≡ s
unfolding retain
retain_id [] h = refl
retain_id (c ∷ s) h = ground (arith, retain_id s)

truncate_lem :
    (n : ℕ) (s : Text) {t : Text}
    → All IsKept s
    → truncate n s ≡ some t
    → All IsKept t × (len t ≤ n)
unfolding truncate
truncate_lem n [] {t} k h = let e : [] ≡ t = cc in rw (← e) (tt, omega arith)
truncate_lem zero (c ∷ s) {t} k h = let e : [] ≡ t = cc in rw (← e) (tt, omega arith)
truncate_lem (suc n) (c ∷ s) {t} k h = elim (Bool-cases (leb (len_utf8 c) (suc n))) [
  | inr straddles ↦ cc (rw straddles at h)
  | inl fits ↦ elim (Option-cases (truncate (suc n - len_utf8 c) s)) [
    | inl panics ↦ cc (rw (fits, panics) at h)
    | inr (t', e) ↦
        let (kept, short) = truncate_lem (suc n - len_utf8 c) s k.1 e in
        let same : c ∷ t' ≡ t = cc (rw (fits, e) at h) in
        rw (← same) ((k.0, kept), omega (arith, leb→le (len_utf8 c) (suc n) fits))
  ]
]

truncate_id : (n : ℕ) (s : Text) → len s ≤ n → truncate n s ≡ some s
unfolding truncate
truncate_id n [] h = refl
truncate_id zero (c ∷ s) h = absurd (ground arith)
truncate_id (suc n) (c ∷ s) h = ground (arith, truncate_id (suc n - len_utf8 c) s)

-- A field that came through has at most 255 bytes and no control character below the space but
-- tabs; and sanitizing it again changes nothing.
pub sanitize_field_lem :
    (s t : Text)
    → sanitize_field s ≡ some t
    → All IsKept t × (len t ≤ max_field_len) × (sanitize_field t ≡ some t)
unfolding sanitize_field
sanitize_field_lem s t h =
    let (kept, short) = truncate_lem max_field_len (retain s) (retain-IsKept s) h in
    (kept, short, rw (retain_id t kept) (truncate_id max_field_len t short))

abbrev pub IsAscii : ℕ → Type 0
IsAscii c = (b' ' ≤ c) × (c < 0x80)

truncate_ascii :
    (n : ℕ) (s rest : Text)
    → All IsAscii s
    → length s ≤ n
    → truncate (n - length s) rest ≡ none
    → truncate n (s ++ rest) ≡ none
unfolding truncate
truncate_ascii n [] rest a h e =
    let all_left : n - 0 ≡ n = omega arith in subst (λ m. truncate m rest ≡ none) all_left e
truncate_ascii zero (c ∷ s) rest a h e = absurd (omega arith)
truncate_ascii (suc n) (c ∷ s) rest a h e =
    let one : len_utf8 c ≡ 1 = ground arith in
    let left : suc n - 1 ≡ n = omega arith in
    let same : suc n - suc (length s) ≡ n - length s = omega arith in
    let ih : truncate n (s ++ rest) ≡ none =
      truncate_ascii n s rest a.1 (omega arith) (subst (λ m. truncate m rest ≡ none) same e) in
    rw (one, left, ih) (ground arith)

retain-append : (s r : Text) → All IsAscii s → retain (s ++ r) ≡ s ++ retain r
unfolding retain
retain-append [] r a = refl
retain-append (c ∷ s) r a = ground (arith, retain-append s r a.1)

last_panics :
    (c : ℕ) (rest : Text) (n : ℕ) → n ≡ 1 → 0x80 ≤ c → truncate n (retain (c ∷ rest)) ≡ none
unfolding retain truncate
last_panics c rest n e wide = rw e (ground arith)

-- A field that holds 254 printable ASCII characters and then a character of several bytes makes
-- the sanitizer panic, whatever follows: byte 255 is not where a character ends.
pub sanitize_field_panics :
    (s rest : Text) (c : ℕ)
    → All IsAscii s
    → length s ≡ 254
    → 0x80 ≤ c
    → sanitize_field (s ++ (c ∷ rest)) ≡ none
unfolding sanitize_field
sanitize_field_panics s rest c a e wide = rw (retain-append s (c ∷ rest) a) (
    truncate_ascii max_field_len s (retain (c ∷ rest)) a (omega arith)
      (last_panics c rest (max_field_len - length s) (omega arith) wide))
