-- ===== src/Metadata/RoundTrip.antt =====
-- What one peer writes about itself, the other one reads.
use irosh.Common.{
  ℕ, ◌%◌, ◌^◌, ◌≤◌, ◌≡◌, refl, ◌∙◌, ap, inl, inr, true, ◌||◌, ◌==◌, ltb, [], ◌∷◌, ◌++◌, some, ok,
  err, if◌then◌else◌, arith, length, append_assoc, Result-cases, subst, Bool-cases, Option-cases,
  >>=_ok, pure, throw, lift, ◌>>=◌, ◌>>◌, is_empty,
}
use irosh.Stream.{Bytes, read_exact, to_be_bytes}
use irosh.Stream.Laws.{read_exact-append}
use irosh.Transfer.Types.{Serde, Text}
use irosh.Metadata.Types.{
  PeerMetadata, new_metadata, sanitize_field, io, unexpected_kind, payload_too_large,
}
use irosh.Metadata.Fields.{sanitize_field_lem}
use irosh.Metadata.Codec.{
  magic, version, kind_peer_metadata, kind_metadata_request, max_metadata_bytes, write_frame,
  read_frame, write_metadata_request, read_metadata_request, from_json, write_metadata,
  read_metadata,
}

abbrev pub frame : ℕ → Bytes → Bytes
frame kind payload = magic ++ (version ∷ kind ∷ (to_be_bytes (length payload) ++ payload))

as_u32 : (n : ℕ) → n ≤ max_metadata_bytes → n % 2 ^ 32 ≡ n
as_u32 n h = omega arith

-- A payload of at most 8 KiB is appended as one frame; a larger one is refused before anything is
-- written.
pub write_frame_lem :
    (kind : ℕ) (payload out : Bytes)
    → write_frame kind payload out ≡ (
        if ltb max_metadata_bytes (length payload)
        then (err (payload_too_large (length payload)), out)
        else (ok tt, out ++ frame kind payload))
unfolding write_frame
write_frame_lem kind payload out = elim (Bool-cases (ltb max_metadata_bytes (length payload))) [
  | inl big ↦ rw big
  | inr fits ↦ rw fits (simp (append_assoc, as_u32 (length payload) (ground arith)))
]

write_frame_inv :
    (kind : ℕ) (payload out : Bytes) {out' : Bytes}
    → write_frame kind payload out ≡ (ok tt, out')
    → (out' ≡ out ++ frame kind payload) × (length payload ≤ max_metadata_bytes)
write_frame_inv kind payload out h = ground (arith, write_frame_lem kind payload out)

read_frame-frame :
    (kind : ℕ) (payload rest : Bytes)
    → (kind == kind_peer_metadata || kind == kind_metadata_request) ≡ true
    → length payload ≤ max_metadata_bytes
    → read_frame (frame kind payload ++ rest) ≡ (ok (kind, payload), rest)
unfolding read_frame
read_frame-frame kind payload rest known fits = ground (
  arith,
  read_exact-append io magic (version ∷ kind ∷ (to_be_bytes (length payload) ++ (payload ++ rest))),
  read_exact-append io payload rest,
)

-- Metadata whose fields are sanitized is sanitized to itself.
pub new_metadata-new_metadata :
    (h u o : Text) {m : PeerMetadata}
    → new_metadata h u o ≡ some m
    → new_metadata m.hostname m.user m.os ≡ some m
unfolding new_metadata
new_metadata-new_metadata h u o {m} e = elim (Option-cases (sanitize_field h)) [
  | inl none_h ↦ cc (rw none_h at e)
  | inr (h', e_h) ↦ elim (Option-cases (sanitize_field u)) [
    | inl none_u ↦ cc (rw (e_h, none_u) at e)
    | inr (u', e_u) ↦ elim (Option-cases (sanitize_field o)) [
      | inl none_o ↦ cc (rw (e_h, e_u, none_o) at e)
      | inr (o', e_o) ↦
          let same : record { hostname = h'; user = u'; os = o' } ≡ m =
            cc (rw (e_h, e_u, e_o) at e) in
          subst (λ m. new_metadata m.hostname m.user m.os ≡ some m) same
            (rw
              (
                (sanitize_field_lem h h' e_h).2,
                (sanitize_field_lem u u' e_u).2,
                (sanitize_field_lem o o' e_o).2,
              )
              refl)
    ]
  ]
]

read_metadata_lem :
    (serde : Serde PeerMetadata) (input rest : Bytes) (kind : ℕ) (payload : Bytes)
    (m : PeerMetadata)
    → read_frame input ≡ (ok (kind, payload), rest)
    → serde.from_slice payload ≡ ok m
    → read_metadata serde input ≡ (
      if kind == kind_peer_metadata
          then ok (new_metadata m.hostname m.user m.os)
          else err (unexpected_kind kind_peer_metadata kind),
      rest,
    )
unfolding read_metadata
read_metadata_lem serde input rest kind payload m e parsed =
    >>=_ok read_frame
      (λ p.
        (if p.0 == kind_peer_metadata
          then pure tt
          else throw (unexpected_kind kind_peer_metadata p.0))
        >> (lift (from_json (serde.from_slice p.1)) >>= λ raw.
            pure (new_metadata raw.hostname raw.user raw.os)))
      input e
    ∙ ground arith

-- Metadata made by `PeerMetadata::new`, if it is written to an empty stream, is read back as it
-- was, and what follows it on the stream is left there.
pub read_metadata-write_metadata :
    (serde : Serde PeerMetadata) (h u o : Text) (rest : Bytes) {m : PeerMetadata} {sent : Bytes}
    → new_metadata h u o ≡ some m
    → write_metadata serde m [] ≡ (ok tt, sent)
    → read_metadata serde (sent ++ rest) ≡ (ok (some m), rest)
unfolding write_metadata
read_metadata-write_metadata serde h u o rest {m} {sent} made written =
    elim (Result-cases (serde.to_vec m)) [
      | inl (payload, e) ↦
          let (layout, fits) =
            write_frame_inv kind_peer_metadata payload [] {out' = sent} (cc (rw e at written)) in
          let sanitized : new_metadata m.hostname m.user m.os ≡ some m =
            new_metadata-new_metadata h u o made in
          rw layout (
            read_metadata_lem serde (frame kind_peer_metadata payload ++ rest) rest
              kind_peer_metadata payload m
              (read_frame-frame kind_peer_metadata payload rest refl fits)
              (serde.from_slice-to_vec m payload e)
            ∙ ap (λ x. (ok x, rest)) sanitized)
      | inr (f, e) ↦ cc (rw e at written)
    ]

-- A request that was written is read back, and what follows it is left.
pub read_metadata_request-write_metadata_request :
    (rest : Bytes) → (read_metadata_request ((write_metadata_request []).1 ++ rest) ≡ (ok tt, rest))
unfolding write_metadata_request read_metadata_request read_frame read_exact write_frame
read_metadata_request-write_metadata_request rest =
    >>=_ok read_frame
      (λ p.
        (if p.0 == kind_metadata_request
          then pure tt
          else throw (unexpected_kind kind_metadata_request p.0))
        >> (if is_empty p.1 then pure tt else throw (payload_too_large (length p.1))))
      (frame kind_metadata_request [] ++ rest)
      (read_frame-frame kind_metadata_request [] rest refl (omega arith))
    ∙ ground arith
