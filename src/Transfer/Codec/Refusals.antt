-- ===== src/Transfer/Codec/Refusals.antt =====
-- What `read_frame` refuses, and how far it has then read.
use irosh.Common.{
  ℕ, zero, suc, ◌≤◌, ◌<◌, ◌≡◌, refl, [], ◌∷◌, ◌++◌, ok, err, length, take, arith, true,
  length-take_lt,
}
use irosh.Stream.{Bytes, unexpected_eof, read_exact, to_be_bytes}
use irosh.Stream.Laws.{read_exact-append, read_exact_short}
use irosh.Transfer.Types.{io}
use irosh.Transfer.Codec.{magic, version, payload_limit}
use irosh.Transfer.Codec.Frames.{frame, payload_limit-le}
use irosh.Transfer.Codec.Reader.{is_known_kind, read_frame}

read_exact_four : (rest : Bytes) → read_exact io 4 (magic ++ rest) ≡ (ok magic, rest)
read_exact_four rest = read_exact-append io magic rest

-- A frame of a known kind and within the limit of its kind that was cut short anywhere is refused
-- as an early end of the input.
pub read_frame-take :
    (kind : ℕ) (payload : Bytes) (n : ℕ)
    → is_known_kind kind ≡ true
    → length payload ≤ payload_limit kind
    → n < length (frame kind payload)
    → read_frame (take n (frame kind payload)) ≡ (err (io unexpected_eof), [])
unfolding read_frame read_exact
read_frame-take kind payload zero known fits h = refl
read_frame-take kind payload (suc zero) known fits h = refl
read_frame-take kind payload (suc (suc zero)) known fits h = refl
read_frame-take kind payload (suc (suc (suc zero))) known fits h = refl
read_frame-take kind payload (suc (suc (suc (suc zero)))) known fits h = refl
read_frame-take kind payload (suc (suc (suc (suc (suc zero))))) known fits h = refl
read_frame-take kind payload (suc (suc (suc (suc (suc (suc zero)))))) known fits h = ground arith
read_frame-take kind payload (suc (suc (suc (suc (suc (suc (suc zero))))))) known fits h =
    ground arith
read_frame-take kind payload (suc (suc (suc (suc (suc (suc (suc (suc zero)))))))) known fits h =
    ground arith
read_frame-take kind payload (suc (suc (suc (suc (suc (suc (suc (suc (suc zero))))))))) known fits
      h =
    ground arith
read_frame-take kind payload (suc (suc (suc (suc (suc (suc (suc (suc (suc (suc n)))))))))) known
      fits h =
    ground (
      arith,
      payload_limit-le kind,
      read_exact_four (version ∷ kind ∷ (to_be_bytes (length payload) ++ take n payload)),
      read_exact_short io (length payload) (take n payload)
          (length-take_lt n payload (omega arith)),
    )
