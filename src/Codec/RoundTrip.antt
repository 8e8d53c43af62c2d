-- ===== src/Codec/RoundTrip.antt =====
-- `decode_frame` reads back what `encode_frame` framed.
use rsh.Prelude.{
  ℕ, ◌+◌, ◌*◌, ◌/◌, ◌%◌, ◌^◌, ◌≤◌, ◌<◌, ◌≡◌, refl, ap, ◌∙◌, some, [], ◌∷◌, ◌++◌, arith, bit_and,
  bit_and_three, bit_or_tag, bit_or_disjoint, leb, if◌then◌else◌, length, drop, Bool-cases, inl,
  inr, append_assoc, drop-append, leb→le,
}
use rsh.Prelude.Bytes.{Bytes, to_le, from_le}
use rsh.Error.{ok, context-eq-ok, write_frame_failed}
use rsh.Io.{Reader, Writer}
use rsh.Codec.{
  max_payload, encode_frame, read_u8, header_value, decode_payload, decode_frame, write_frame,
}

-- The header of a payload of n bytes, in each of its four sizes.
abbrev pub header_1 : ℕ → Bytes
header_1 n = n * 4 ∷ []

abbrev pub header_2 : ℕ → Bytes
header_2 n = (n * 4 + 1) % 256 ∷ (n * 4 + 1) / 256 % 256 ∷ []

abbrev pub header_3 : ℕ → Bytes
header_3 n = (n * 4 + 2) % 256 ∷ (n * 4 + 2) / 256 % 256 ∷ (n * 4 + 2) / 256 / 256 % 256 ∷ []

abbrev pub header_4 : ℕ → Bytes
header_4 n =
    (n * 4 + 3) % 256
    ∷ (n * 4 + 3) / 256 % 256
    ∷ (n * 4 + 3) / 256 / 256 % 256
    ∷ (n * 4 + 3) / 256 / 256 / 256 % 256
    ∷ []

abbrev pub header : ℕ → Bytes
header n =
    if leb n 0x3F
    then header_1 n
    else if leb n 0x3FFF
    then header_2 n
    else if leb n 0x3F_FFFF
    then header_3 n
    else header_4 n

pub encode_frame-header :
    (payload : Bytes)
    → length payload < 2 ^ 30
    → encode_frame payload ≡ header (length payload) ++ payload
unfolding encode_frame to_le
encode_frame-header payload h = ground (
  arith,
  bit_or_tag (length payload) 1,
  bit_or_tag (length payload) 2,
  bit_or_tag (length payload) 3,
)

module _ (reader : Reader) where
  open reader use {R, pending, read_exact, read_exact_enough}

  pub read_u8_enough :
      (b : ℕ) (rest : Bytes) (r : R)
      → pending r ≡ b ∷ rest
      → (r' : R) × (read_u8 reader r ≡ some (b, r')) × (pending r' ≡ rest)
  read_u8_enough b rest r p =
      let (r', e, p') = read_exact_enough 1 (b ∷ []) rest r refl p in (r', rw (read_u8, e), p')

  -- The header bytes are read back to a number whose quotient by four is n.
  abbrev pub ReadsHeader : ℕ → Bytes → R → Type 0
  ReadsHeader n rest r =
      (b0 : ℕ) × (r1 : R) × (value : ℕ) × (r2 : R) × (read_u8 reader r ≡ some (b0, r1))
      × (header_value reader (bit_and b0 3 + 1) b0 r1 ≡ ok (value, r2))
      × (value / 4 ≡ n)
      × (pending r2 ≡ rest)

  module _ (n : ℕ) (rest : Bytes) (r : R) where
    header_1-ReadsHeader : n ≤ 63 → pending r ≡ header_1 n ++ rest → ReadsHeader n rest r
    unfolding header_value
    header_1-ReadsHeader h p =
        let (r1, e, p1) = read_u8_enough (n * 4) rest r p in
        (n * 4, r1, n * 4, r1, e, rw bit_and_three (ground arith), omega arith, p1)

    header_2-ReadsHeader : n ≤ 0x3FFF → pending r ≡ header_2 n ++ rest → ReadsHeader n rest r
    unfolding header_value from_le
    header_2-ReadsHeader h p =
        let v : ℕ = n * 4 + 1 in
        let (r1, e, p1) = read_u8_enough (v % 256) (v / 256 % 256 ∷ rest) r p in
        let (r2, e2, p2) = read_u8_enough (v / 256 % 256) rest r1 p1 in
        let tag : bit_and (v % 256) 3 + 1 ≡ 2 = omega (arith, bit_and_three (v % 256)) in
        (v % 256, r1, v, r2, e, rw (tag, e2) (ground arith), omega arith, p2)

    header_3-ReadsHeader : n ≤ 0x3F_FFFF → pending r ≡ header_3 n ++ rest → ReadsHeader n rest r
    unfolding header_value
    header_3-ReadsHeader h p =
        let v : ℕ = n * 4 + 2 in
        let tail : Bytes = v / 256 % 256 ∷ v / 256 / 256 % 256 ∷ [] in
        let (r1, e, p1) = read_u8_enough (v % 256) (tail ++ rest) r p in
        let (r2, e2, p2) = read_exact_enough 2 tail rest r1 refl p1 in
        let tag : bit_and (v % 256) 3 + 1 ≡ 3 = omega (arith, bit_and_three (v % 256)) in
        let low =
          bit_or_disjoint 8 (v % 256) (v / 256 % 256) (v / 256 % 256 * 2 ^ 8) (omega arith) refl in
        let all =
          bit_or_disjoint 16 (v % 256 + v / 256 % 256 * 2 ^ 8) (v / 256 / 256 % 256)
            (v / 256 / 256 % 256 * 2 ^ 16) (omega arith) refl in
        (v % 256, r1, v, r2, e, rw (tag, e2, low, all) (ground arith), omega arith, p2)

    header_4-ReadsHeader : n < 2 ^ 30 → pending r ≡ header_4 n ++ rest → ReadsHeader n rest r
    unfolding header_value from_le
    header_4-ReadsHeader h p =
        let v : ℕ = n * 4 + 3 in
        let tail : Bytes = v / 256 % 256 ∷ v / 256 / 256 % 256 ∷ v / 256 / 256 / 256 % 256 ∷ [] in
        let (r1, e, p1) = read_u8_enough (v % 256) (tail ++ rest) r p in
        let (r2, e2, p2) = read_exact_enough 3 tail rest r1 refl p1 in
        let tag : bit_and (v % 256) 3 + 1 ≡ 4 = omega (arith, bit_and_three (v % 256)) in
        (v % 256, r1, v, r2, e, rw (tag, e2) (ground arith), omega arith, p2)

    pub header-ReadsHeader : n < 2 ^ 30 → pending r ≡ header n ++ rest → ReadsHeader n rest r
    header-ReadsHeader h p = elim (Bool-cases (leb n 0x3F)) [
      | inl a ↦ header_1-ReadsHeader (leb→le _ _ a) (rw a at p)
      | inr a ↦ elim (Bool-cases (leb n 0x3FFF)) [
        | inl b ↦ header_2-ReadsHeader (leb→le _ _ b) (rw (a, b) at p)
        | inr b ↦ elim (Bool-cases (leb n 0x3F_FFFF)) [
          | inl c ↦ header_3-ReadsHeader (leb→le _ _ c) (rw (a, b, c) at p)
          | inr c ↦ header_4-ReadsHeader h (rw (a, b, c) at p)
        ]
      ]
    ]

  decode_payload_lem :
      (payload rest : Bytes) (value : ℕ) (r : R)
      → value / 4 ≡ length payload
      → length payload ≤ max_payload
      → pending r ≡ payload ++ rest
      → (r' : R) × (decode_payload reader value r ≡ ok (payload, r')) × (pending r' ≡ rest)
  unfolding decode_payload
  decode_payload_lem [] rest value r e small p = (r, rw e, p)
  decode_payload_lem (b ∷ bs) rest value r e small p =
      let (r', e', p') = read_exact_enough (value / 4) (b ∷ bs) rest r e p in
      (r', ground (arith, e'), p')

  decode_frame-encode_frame :
      (payload rest : Bytes) (r : R)
      → length payload ≤ max_payload
      → pending r ≡ encode_frame payload ++ rest
      → (r' : R) × (decode_frame reader r ≡ ok (payload, r')) × (pending r' ≡ rest)
  unfolding decode_frame
  decode_frame-encode_frame payload rest r small p =
      let framed = encode_frame-header payload (omega arith) in
      let (b0, r1, value, r2, e0, e1, size, p2) =
        header-ReadsHeader (length payload) (payload ++ rest) r (omega arith)
          (p ∙ ap (λ s. s ++ rest) framed ∙ append_assoc _ payload rest) in
      let (r', e2, p') = decode_payload_lem payload rest value r2 size small p2 in
      (r', rw (e0, e1, e2), p')

-- A payload of at most 50 MB that `write_frame` wrote without an error is what `decode_frame`
-- returns, in each of the four header sizes, and the reader is left at the byte behind the frame.
pub decode_frame-write_frame :
    (writer : Writer) (reader : Reader) (payload rest : Bytes) (w w' : Writer.W writer)
    (r : Reader.R reader)
    → length payload ≤ max_payload
    → write_frame writer payload w ≡ ok w'
    → Reader.pending reader r ≡ drop (length (Writer.sent writer w)) (Writer.sent writer w') ++ rest
    → (r' : Reader.R reader) × (decode_frame reader r ≡ ok (payload, r'))
      × (Reader.pending reader r' ≡ rest)
unfolding write_frame
decode_frame-write_frame writer reader payload rest w w' r small h p =
    let wrote =
      Writer.sent-write_all writer (encode_frame payload) w w'
        (context-eq-ok write_frame_failed _ h) in
    let grew =
      ap (drop (length (Writer.sent writer w))) wrote
      ∙ drop-append _ (Writer.sent writer w) (encode_frame payload) refl in
    decode_frame-encode_frame reader payload rest r small (p ∙ ap (λ s. s ++ rest) grew)
