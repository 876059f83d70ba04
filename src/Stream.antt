-- ===== src/Stream.antt =====
-- The byte streams that the codecs read and write: tokio's `AsyncReadExt` and `AsyncWriteExt`
-- as far as src/transport/transfer/codec and src/transport/metadata/codec.rs call them.
-- A reader is the list of the bytes that it still gives before its end; a writer is the list of
-- the bytes written so far. A read past the end takes what is there and fails.
pub mod Laws
use irosh.Common.{
  ℕ, zero, suc, ◌+◌, ◌*◌, ◌/◌, ◌%◌, ◌^◌, ◌<◌, ◌≡◌, List, [], ◌∷◌, ◌++◌, Option, none, some, ok, err,
  Action, ◌>>=◌, pure, length, take, drop, ltb, if◌then◌else◌,
}

abbrev pub Bytes : Type 0
Bytes = List ℕ

abbrev pub IsByte : ℕ → Type 0
IsByte b = b < 256

-- The kinds of `std::io::Error` that the streams report.
pub data IoError : Type 0 where
  unexpected_eof other : IoError

-- What `std::io::Error` is converted to by the `?` of a caller.
module _ {E : Type 0} (from : IoError → E) where
  unfoldable pub read_exact : ℕ → Action Bytes E Bytes
  read_exact n s =
      if ltb (length s) n then (err (from unexpected_eof), []) else (ok (take n s), drop n s)

  unfoldable pub read_u8 : Action Bytes E ℕ
  read_u8 [] = (err (from unexpected_eof), [])
  read_u8 (b ∷ s) = (ok b, s)

  -- Big-endian.
  unfoldable pub read_u32 : Action Bytes E ℕ
  unfolding read_u8
  read_u32 = do
    a ← read_u8
    b ← read_u8
    c ← read_u8
    d ← read_u8
    pure (a * 2 ^ 24 + b * 2 ^ 16 + c * 2 ^ 8 + d)

module _ {E : Type 0} where
  unfoldable pub write_all : Bytes → Action Bytes E (Unit {0})
  write_all p s = (ok tt, s ++ p)

  unfoldable pub write_u8 : ℕ → Action Bytes E (Unit {0})
  write_u8 b s = (ok tt, s ++ (b ∷ []))

abbrev pub to_be_bytes : ℕ → Bytes
to_be_bytes n = n / 2 ^ 24 % 256 ∷ n / 2 ^ 16 % 256 ∷ n / 2 ^ 8 % 256 ∷ n % 256 ∷ []

module _ {E : Type 0} where
  unfoldable pub write_u32 : ℕ → Action Bytes E (Unit {0})
  write_u32 n s = (ok tt, s ++ to_be_bytes n)
