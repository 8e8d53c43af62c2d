-- ===== src/Binproto/Limits.antt =====
-- What the length fields cannot say, and what a decoder can only return.
use rsh.Prelude.{
  ℕ, ◌+◌, ◌%◌, ◌^◌, ◌≤◌, ◌≡◌, sym, ap, ◌∙◌, [], ◌++◌, arith, length, take, drop, slice,
  length-append, length-take, length-drop, take-append-drop, if◌then◌else◌, le→ltb, slice_at,
  drop_behind,
}
use rsh.Prelude.Bytes.{Bytes, to_be, from_be, length-to_be, from_be-to_be}
use rsh.Error.{ok, err, invalid_utf8}
use rsh.Utf8.{from_utf8, IsUtf8}
use rsh.Binproto.{encode_str, bytes_from, decode_str}
use rsh.Binproto.Fields.{encode_str-field, bytes_from_at}

-- What `decode_str` returns lies within the buffer, right behind its two length bytes, and is
-- valid UTF-8; the offset that comes back is the end of it.
decode_str_sound :
    (bytes s : Bytes) (off end : ℕ)
    → decode_str bytes off ≡ ok (s, end)
    → (end ≤ length bytes) × (end ≡ off + 2 + length s) × (slice bytes (off + 2) end ≡ s) × IsUtf8 s
unfolding decode_str
decode_str_sound bytes s off end h = ground (
  arith,
  length-take (from_be (bytes_from 2 bytes off)) (drop (off + 2) bytes),
  length-drop (off + 2) bytes,
)

-- A text of any length that `encode_str` wrote is decoded to its first `length % 2^16` bytes, if
-- those are valid UTF-8, and is an error otherwise. So a text of 64 KB or more never comes back
-- whole.
pub decode_str-encode_str :
    (s : Bytes)
    → decode_str (encode_str [] s) 0 ≡ (
        if from_utf8 (take (length s % 2 ^ 16) s)
        then ok (take (length s % 2 ^ 16) s, 2 + length s % 2 ^ 16)
        else err invalid_utf8)
unfolding decode_str
decode_str-encode_str s =
    let n : ℕ = length s % 2 ^ 16 in
    let bytes : Bytes = encode_str [] s in
    let two = length-to_be 2 n in
    let built : bytes ≡ to_be 2 n ++ s = encode_str-field [] s in
    let behind : drop 2 bytes ≡ s =
      drop_behind bytes (to_be 2 n) s 0 2 built (omega (arith, two)) in
    let len : from_be (bytes_from 2 bytes 0) ≡ n =
      ap from_be (bytes_from_at (to_be 2 n) bytes s 2 0 (sym two) built)
      ∙ from_be-to_be 2 n (omega arith) in
    let size : length bytes ≡ 2 + length s =
      omega (arith, ap length built, length-append (to_be 2 n) s, two) in
    let part : slice bytes 2 (2 + n) ≡ take n s =
      slice_at bytes (take n s) (drop n s) 2 (2 + n) (behind ∙ sym (take-append-drop n s))
        (omega (arith, length-take n s)) in
    rw (
      le→ltb (length bytes) 2 (omega arith),
      len,
      le→ltb (length bytes) (2 + n) (omega arith),
      part,
    )
