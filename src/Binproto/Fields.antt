-- ===== src/Binproto/Fields.antt =====
-- Each decoder of binproto.rs, at an offset where its encoder's bytes stand: the value comes back,
-- and the offset behind it, where the rest of the message stands.
use rsh.Prelude.{
  ℕ, zero, suc, ◌+◌, ◌%◌, ◌^◌, ◌<◌, ◌≤◌, ◌≡◌, refl, sym, ap, ◌∙◌, [], ◌∷◌, ◌++◌, arith, le→ltb,
  length, drop, append_assoc, length-append, length_at, drop_behind, slice_at, get_or-drop,
}
use rsh.Prelude.Bytes.{
  Bytes, byte_at, to_be, from_be, to_le, length-to_be, length-to_le, from_be-to_be, from_le-to_le,
}
use rsh.Error.{ok}
use rsh.Utf8.{IsUtf8}
use rsh.Binproto.{
  encode_str, encode_blob, bytes_from, decode_str, decode_blob, decode_u32_le, decode_u64_le,
}

abbrev pub str_field : Bytes → Bytes
str_field s = to_be 2 (length s % 2 ^ 16) ++ s

abbrev pub blob_field : Bytes → Bytes
blob_field blob = to_be 4 (length blob % 2 ^ 32) ++ blob

pub encode_str-field : (buf s : Bytes) → encode_str buf s ≡ buf ++ str_field s
unfolding encode_str
encode_str-field buf s = append_assoc buf _ s

pub encode_blob-field : (buf blob : Bytes) → encode_blob buf blob ≡ buf ++ blob_field blob
unfolding encode_blob
encode_blob-field buf blob = append_assoc buf _ blob

pub byte_at_here :
    (bytes rest : Bytes) (b off : ℕ) → drop off bytes ≡ b ∷ rest → byte_at bytes off ≡ b
byte_at_here bytes rest b off h =
    sym (get_or-drop off 0 off 0 bytes (omega arith)) ∙ ap (λ xs. byte_at xs 0) h

pub bytes_from_at :
    (xs bytes rest : Bytes) (n off : ℕ)
    → n ≡ length xs
    → drop off bytes ≡ xs ++ rest
    → bytes_from n bytes off ≡ xs
unfolding bytes_from
bytes_from_at [] bytes rest zero off e h = refl
bytes_from_at [] bytes rest (suc n) off e h = absurd (omega arith)
bytes_from_at (x ∷ xs) bytes rest zero off e h = absurd (omega arith)
bytes_from_at (x ∷ xs) bytes rest (suc n) off e h = rw (byte_at_here bytes (xs ++ rest) x off h) (
    ap (◌∷◌ x) (
      bytes_from_at xs bytes rest n (off + 1) (omega arith)
        (drop_behind bytes (x ∷ []) (xs ++ rest) off (off + 1) h refl)))

module _ (bytes s rest : Bytes) (off : ℕ) where
  pub decode_str_at :
      length s < 2 ^ 16
      → IsUtf8 s
      → drop off bytes ≡ str_field s ++ rest
      → (off' : ℕ) × (decode_str bytes off ≡ ok (s, off')) × (drop off' bytes ≡ rest)
  unfolding decode_str
  decode_str_at small utf8 h =
      let size : Bytes = to_be 2 (length s % 2 ^ 16) in
      let h1 : drop off bytes ≡ size ++ (s ++ rest) = h ∙ append_assoc size s rest in
      let two = length-to_be 2 (length s % 2 ^ 16) in
      let h2 : drop (off + 2) bytes ≡ s ++ rest =
        drop_behind bytes size (s ++ rest) off (off + 2) h1 (omega (arith, two)) in
      let all = length_at bytes size (s ++ rest) off h1 (omega (arith, two)) in
      let len : from_be (bytes_from 2 bytes off) ≡ length s =
        ap from_be (bytes_from_at size bytes (s ++ rest) 2 off (sym two) h1)
        ∙ from_be-to_be 2 (length s % 2 ^ 16) (omega arith)
        ∙ omega arith in
      let room : off + 2 + length s ≤ length bytes = omega (arith, two, length-append s rest) in
      (
        off + 2 + length s,
        rw (
          le→ltb (length bytes) (off + 2) (omega arith),
          len,
          le→ltb (length bytes) (off + 2 + length s) room,
          slice_at bytes s rest (off + 2) (off + 2 + length s) h2 refl,
          utf8,
        ),
        drop_behind bytes s rest (off + 2) (off + 2 + length s) h2 refl,
      )

  pub decode_blob_at :
      length s < 2 ^ 32
      → drop off bytes ≡ blob_field s ++ rest
      → (off' : ℕ) × (decode_blob bytes off ≡ ok (s, off')) × (drop off' bytes ≡ rest)
  unfolding decode_blob
  decode_blob_at small h =
      let size : Bytes = to_be 4 (length s % 2 ^ 32) in
      let h1 : drop off bytes ≡ size ++ (s ++ rest) = h ∙ append_assoc size s rest in
      let four = length-to_be 4 (length s % 2 ^ 32) in
      let h2 : drop (off + 4) bytes ≡ s ++ rest =
        drop_behind bytes size (s ++ rest) off (off + 4) h1 (omega (arith, four)) in
      let all = length_at bytes size (s ++ rest) off h1 (omega (arith, four)) in
      let len : from_be (bytes_from 4 bytes off) ≡ length s =
        ap from_be (bytes_from_at size bytes (s ++ rest) 4 off (sym four) h1)
        ∙ from_be-to_be 4 (length s % 2 ^ 32) (omega arith)
        ∙ omega arith in
      let room : off + 4 + length s ≤ length bytes = omega (arith, four, length-append s rest) in
      (
        off + 4 + length s,
        rw (
          le→ltb (length bytes) (off + 4) (omega arith),
          len,
          le→ltb (length bytes) (off + 4 + length s) room,
          slice_at bytes s rest (off + 4) (off + 4 + length s) h2 refl,
        ),
        drop_behind bytes s rest (off + 4) (off + 4 + length s) h2 refl,
      )

module _ (bytes rest : Bytes) (n off : ℕ) where
  pub decode_u32_le_at :
      n < 2 ^ 32
      → drop off bytes ≡ to_le 4 n ++ rest
      → (decode_u32_le bytes off ≡ ok (n, off + 4)) × (drop (off + 4) bytes ≡ rest)
  unfolding decode_u32_le
  decode_u32_le_at small h =
      let four = length-to_le 4 n in
      let all = length_at bytes (to_le 4 n) rest off h (omega (arith, four)) in
      (
        rw (
          le→ltb (length bytes) (off + 4) (omega (arith, four)),
          bytes_from_at (to_le 4 n) bytes rest 4 off (sym four) h,
          from_le-to_le 4 n (omega arith),
        ),
        drop_behind bytes (to_le 4 n) rest off (off + 4) h (omega (arith, four)),
      )

  pub decode_u64_le_at :
      n < 2 ^ 64
      → drop off bytes ≡ to_le 8 n ++ rest
      → (decode_u64_le bytes off ≡ ok (n, off + 8)) × (drop (off + 8) bytes ≡ rest)
  unfolding decode_u64_le
  decode_u64_le_at small h =
      let eight = length-to_le 8 n in
      let all = length_at bytes (to_le 8 n) rest off h (omega (arith, eight)) in
      (
        rw (
          le→ltb (length bytes) (off + 8) (omega (arith, eight)),
          bytes_from_at (to_le 8 n) bytes rest 8 off (sym eight) h,
          from_le-to_le 8 n (omega arith),
        ),
        drop_behind bytes (to_le 8 n) rest off (off + 8) h (omega (arith, eight)),
      )
