-- ===== src/Codec.antt =====
-- crates/mrsh-relay/src/codec.rs: frames with a header of one to four bytes, whose low two bits
-- say how long it is. `usize` has 64 bits.
pub mod RoundTrip
pub mod Refusals
mod Tests
use rsh.Prelude.{
  ℕ, ◌+◌, ◌*◌, ◌/◌, ◌%◌, ◌^◌, Option, none, some, [], ◌∷◌, ◌++◌, bit_and, bit_or, ltb, leb, ◌==◌,
  if◌then◌else◌, length, take,
}
use rsh.Prelude.Bytes.{Bytes, byte_at, to_le, from_le}
use rsh.Error.{
  Result, ok, err, ◌>>=◌, context, read_first_byte, read_header_byte_2, read_header_bytes_2_3,
  read_header_bytes_2_4, payload_too_large, read_payload, write_frame_failed, unreachable,
}
use rsh.Io.{Reader, Writer}

abbrev pub max_payload : ℕ
max_payload = 50 * 1024 * 1024

unfoldable pub encode_frame : Bytes → Bytes
encode_frame payload =
    let len = length payload in
    let shifted = len * 2 ^ 2 % 2 ^ 64 in
    if leb len 0x3F
    then shifted % 2 ^ 8 ∷ payload
    else if leb len 0x3FFF
    then to_le 2 (bit_or shifted 0x01 % 2 ^ 16) ++ payload
    else if leb len 0x3F_FFFF
    then take 3 (to_le 4 (bit_or shifted 0x02 % 2 ^ 32)) ++ payload
    else to_le 4 (bit_or shifted 0x03 % 2 ^ 32) ++ payload

module _ (reader : Reader) where
  open reader use {R, read_exact}

  -- `read_u8` is a read of one byte.
  abbrev pub read_u8 : R → Option (ℕ × R)
  read_u8 r = elim (read_exact 1 r) [ none ↦ none | some (bs, r') ↦ some (byte_at bs 0, r') ]

  -- The `match hdr_size`, whose last arm is `unreachable!()`.
  unfoldable pub header_value : ℕ → ℕ → R → Result (ℕ × R)
  header_value hdr_size b0 r =
      if hdr_size == 1
      then ok (b0, r)
      else if hdr_size == 2
      then (do (b1, r') ← context read_header_byte_2 (read_u8 r); ok (from_le (b0 ∷ b1 ∷ []), r'))
      else if hdr_size == 3
      then (do
        (rest, r') ← context read_header_bytes_2_3 (read_exact 2 r)
        ok (bit_or (bit_or b0 (byte_at rest 0 * 2 ^ 8)) (byte_at rest 1 * 2 ^ 16), r'))
      else if hdr_size == 4
      then (do
        (rest, r') ← context read_header_bytes_2_4 (read_exact 3 r)
        ok (from_le (b0 ∷ byte_at rest 0 ∷ byte_at rest 1 ∷ byte_at rest 2 ∷ []), r'))
      else err unreachable

  -- `decode_frame` behind its header.
  unfoldable pub decode_payload : ℕ → R → Result (Bytes × R)
  decode_payload header_val r =
      let payload_len = header_val / 2 ^ 2 in
      if payload_len == 0
      then ok ([], r)
      else if ltb max_payload payload_len
      then err payload_too_large
      else context read_payload (read_exact payload_len r)

  unfoldable pub decode_frame : R → Result (Bytes × R)
  decode_frame r = do
    (b0, r1) ← context read_first_byte (read_u8 r)
    let hdr_size = bit_and b0 0x03 + 1
    (header_val, r2) ← header_value hdr_size b0 r1
    decode_payload header_val r2

module _ (writer : Writer) where
  open writer use {W, write_all}

  unfoldable pub write_frame : Bytes → W → Result W
  write_frame payload w = context write_frame_failed (write_all (encode_frame payload) w)
