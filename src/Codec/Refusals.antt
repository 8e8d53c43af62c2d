-- ===== src/Codec/Refusals.antt =====
-- What `decode_frame` refuses, and what it can only return.
use rsh.Prelude.{
  ℕ, ◌+◌, ◌/◌, ◌^◌, ◌≤◌, ◌<◌, ◌≡◌, ◌≢◌, ap, ◌∙◌, ◌++◌, arith, bit_and, bit_and_three, length,
  append_assoc, Option-cases, inl, inr,
}
use rsh.Prelude.Bytes.{Bytes}
use rsh.Error.{ok, err, payload_too_large, unreachable, bind-eq-ok, context, read_first_byte}
use rsh.Io.{Reader, read_exact-cases}
use rsh.Codec.{max_payload, encode_frame, read_u8, header_value, decode_payload, decode_frame}
use rsh.Codec.RoundTrip.{header-ReadsHeader, encode_frame-header}

module _ (reader : Reader) where
  open reader use {R, pending, read_exact}

  -- A payload of more than 50 MB (below 1 GB) is framed by `encode_frame` and refused by
  -- `decode_frame`, before any of it is read.
  decode_frame-encode_frame_large :
      (payload rest : Bytes) (r : R)
      → max_payload < length payload
      → length payload < 2 ^ 30
      → pending r ≡ encode_frame payload ++ rest
      → decode_frame reader r ≡ err payload_too_large
  unfolding decode_frame decode_payload
  decode_frame-encode_frame_large payload rest r large fits p =
      let (b0, r1, value, r2, e0, e1, size, _) =
        header-ReadsHeader reader (length payload) (payload ++ rest) r fits (
          p
          ∙ ap (λ s. s ++ rest) (encode_frame-header payload fits)
          ∙ append_assoc _ payload rest) in
      rw (e0, e1) (ground arith)

  decode_payload-length :
      (value : ℕ) (r r' : R) (payload : Bytes)
      → decode_payload reader value r ≡ ok (payload, r')
      → (length payload ≡ value / 4)
        × (length payload ≤ max_payload)
        × (pending r ≡ payload ++ pending r')
  unfolding decode_payload
  decode_payload-length value r r' payload h = elim (read_exact-cases reader (value / 4) r) [
    | inl (e, _) ↦ ground arith
    | inr (bs, r2, e, l, p) ↦ ground arith
  ]

  header_value-reachable :
      (b0 : ℕ) (r : R) → header_value reader (bit_and b0 3 + 1) b0 r ≢ err unreachable
  unfolding header_value
  header_value-reachable b0 r = ground (arith, bit_and_three b0)

  -- The arm `unreachable!()` of `decode_frame` is never taken, whatever the input.
  decode_frame-ne-unreachable : (r : R) → decode_frame reader r ≢ err unreachable
  unfolding decode_frame decode_payload
  decode_frame-ne-unreachable r = elim (Option-cases (read_u8 reader r)) [
    | inl e ↦ rw e (λ h. cc)
    | inr ((b0, r1), e) ↦ rw e (ground (arith, header_value-reachable b0 r1))
  ]

  -- Whatever the input, a payload that `decode_frame` returns is at most 50 MB long, and stands in
  -- the input right before the place where the reader is left.
  decode_frame-length :
      (payload : Bytes) (r r' : R)
      → decode_frame reader r ≡ ok (payload, r')
      → (length payload ≤ max_payload) × ((r2 : R) × (pending r2 ≡ payload ++ pending r'))
  unfolding decode_frame
  decode_frame-length payload r r' h =
      let ((b0, r1), e0, h1) = bind-eq-ok (context read_first_byte (read_u8 reader r)) _ h in
      let ((value, r2), e1, h2) = bind-eq-ok (header_value reader (bit_and b0 3 + 1) b0 r1) _ h1 in
      let (_, small, p) = decode_payload-length value r2 r' payload h2 in (small, (r2, p))
