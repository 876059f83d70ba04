-- ===== src/Stream/Laws.antt =====
-- The reads and writes of a byte stream against one another.
use irosh.Common.{
  ℕ, ◌+◌, ◌*◌, ◌^◌, ◌<◌, ◌≡◌, [], ◌∷◌, ◌++◌, ok, err, length, arith, length-append,
  take-append_length, drop-append_length, take-append-drop, length-take_le,
}
use irosh.Stream.{Bytes, IsByte, IoError, unexpected_eof, read_exact, read_u32, to_be_bytes}

module _ {E : Type 0} (from : IoError → E) where
  pub read_exact-append : (p rest : Bytes) → read_exact from (length p) (p ++ rest) ≡ (ok p, rest)
  unfolding read_exact
  read_exact-append p rest =
      ground (arith, length-append p rest, take-append_length p rest, drop-append_length p rest)

  pub read_exact_short :
      (n : ℕ) (s : Bytes) → length s < n → read_exact from n s ≡ (err (from unexpected_eof), [])
  unfolding read_exact
  read_exact_short n s h = ground arith

  -- A read that succeeds has split the input.
  pub read_exact_split :
      (n : ℕ) (s : Bytes) {p rest : Bytes}
      → read_exact from n s ≡ (ok p, rest)
      → (s ≡ p ++ rest) × (length p ≡ n)
  unfolding read_exact
  read_exact_split n s {p} {rest} h = ground (arith, take-append-drop n s, length-take_le n s)

  pub read_u32-to_be_bytes :
      (n : ℕ) (rest : Bytes) → n < 2 ^ 32 → read_u32 from (to_be_bytes n ++ rest) ≡ (ok n, rest)
  unfolding read_u32
  read_u32-to_be_bytes n rest h = ground arith

pub to_be_bytes_unique :
    (a b c d : ℕ)
    → IsByte a
    → IsByte b
    → IsByte c
    → IsByte d
    → to_be_bytes (a * 2 ^ 24 + b * 2 ^ 16 + c * 2 ^ 8 + d) ≡ a ∷ b ∷ c ∷ d ∷ []
to_be_bytes_unique a b c d ha hb hc hd = ground arith
