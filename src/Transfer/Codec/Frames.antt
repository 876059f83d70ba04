-- ===== src/Transfer/Codec/Frames.antt =====
-- The layout of a frame: what `write_frame` appends, and what `read_frame` takes and refuses.
use irosh.Common.{
  ℕ, ◌+◌, ◌*◌, ◌%◌, ◌^◌, ◌≤◌, ◌≡◌, inl, inr, ◌∷◌, ◌++◌, ok, err, length, take-append-drop,
  length-take_le, ltb, Bool-cases, if◌then◌else◌, arith, All, append_assoc, true,
}
use irosh.Stream.{Bytes, IsByte, read_exact, to_be_bytes}
use irosh.Stream.Laws.{read_exact-append}
use irosh.Transfer.Types.{io, payload_too_large}
use irosh.Transfer.Codec.{magic, version, payload_limit, write_frame}
use irosh.Transfer.Codec.Reader.{is_known_kind, read_frame}

-- Magic, version, kind, big-endian length, payload.
abbrev pub frame : ℕ → Bytes → Bytes
frame kind payload = magic ++ (version ∷ kind ∷ (to_be_bytes (length payload) ++ payload))

pub payload_limit-le : (kind : ℕ) → payload_limit kind ≤ 65536
unfolding payload_limit
payload_limit-le kind = ground arith

as_u32 : (n : ℕ) → n ≤ 65536 → n % 2 ^ 32 ≡ n
as_u32 n h = omega arith

-- A payload within the limit of its kind is appended as one frame; a larger one is refused
-- before anything is written.
pub write_frame_lem :
    (kind : ℕ) (payload out : Bytes)
    → write_frame kind payload out ≡ (
        if ltb (payload_limit kind) (length payload)
        then (err (payload_too_large (length payload)), out)
        else (ok tt, out ++ frame kind payload))
unfolding write_frame
write_frame_lem kind payload out = elim (Bool-cases (ltb (payload_limit kind) (length payload))) [
  | inl big ↦ rw big
  | inr fits ↦
      rw fits (simp (append_assoc, as_u32 (length payload) (ground (arith, payload_limit-le kind))))
]

pub read_frame-frame :
    (kind : ℕ) (payload rest : Bytes)
    → is_known_kind kind ≡ true
    → length payload ≤ payload_limit kind
    → read_frame (frame kind payload ++ rest) ≡ (ok (kind, payload), rest)
unfolding read_frame
read_frame-frame kind payload rest known fits = ground (
  arith,
  payload_limit-le kind,
  read_exact-append io magic (version ∷ kind ∷ (to_be_bytes (length payload) ++ (payload ++ rest))),
  read_exact-append io payload rest,
)

-- What was read as a frame was one, within the limit, and nothing behind it was touched.
pub read_frame_sound :
    (s : Bytes) {kind : ℕ} {payload rest : Bytes}
    → All IsByte s
    → read_frame s ≡ (ok (kind, payload), rest)
    → (s ≡ frame kind payload ++ rest)
      × (is_known_kind kind ≡ true)
      × (length payload ≤ payload_limit kind)
unfolding read_frame read_exact
read_frame_sound (m ∷ n ∷ o ∷ p ∷ v ∷ k ∷ a ∷ b ∷ c ∷ d ∷ s) {kind} {payload} {rest} bytes h =
    let n = a * 2 ^ 24 + b * 2 ^ 16 + c * 2 ^ 8 + d in
    ground (arith, take-append-drop n s, length-take_le n s)
read_frame_sound _ bytes h = ground arith
