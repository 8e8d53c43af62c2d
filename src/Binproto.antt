-- ===== src/Binproto.antt =====
-- crates/mrsh-core/src/binproto.rs: fields with a length in front, and typed messages. A `str` is
-- its UTF-8 bytes; offsets stay below 2^64, since they never pass the end of a buffer by more than
-- a length field can say.
pub mod TypeIds
pub mod Messages
pub mod Fields
pub mod Lists
pub mod RoundTrip
pub mod Plain
pub mod AuthOk
pub mod Limits
mod Tests
use rsh.Prelude.{
  ℕ, zero, suc, ◌+◌, ◌%◌, ◌^◌, List, [], ◌∷◌, ◌++◌, ltb, if◌then◌else◌, length, slice,
}
use rsh.Prelude.Bytes.{Bytes, byte_at, to_be, from_be, from_le}
use rsh.Error.{
  Result, ok, err, ◌>>=◌, truncated_length, truncated_data, invalid_utf8, empty_binary_message,
}
use rsh.Utf8.{from_utf8}
use rsh.Io.{Reader, Writer}
use rsh.Wire.{send_message, recv_message}

unfoldable pub encode_str : Bytes → Bytes → Bytes
encode_str buf s = (buf ++ to_be 2 (length s % 2 ^ 16)) ++ s

unfoldable pub encode_blob : Bytes → Bytes → Bytes
encode_blob buf blob = (buf ++ to_be 4 (length blob % 2 ^ 32)) ++ blob

-- `[bytes[off], bytes[off + 1], ...]`, n of them
unfoldable pub bytes_from : ℕ → Bytes → ℕ → Bytes
bytes_from zero bytes off = []
bytes_from (suc n) bytes off = byte_at bytes off ∷ bytes_from n bytes (off + 1)

unfoldable pub decode_str : Bytes → ℕ → Result (Bytes × ℕ)
unfolding bytes_from
decode_str bytes offset =
    if ltb (length bytes) (offset + 2)
    then err truncated_length
    else let len = from_be (bytes_from 2 bytes offset) in
      let start = offset + 2 in
      let end = start + len in
      if ltb (length bytes) end
      then err truncated_data
      else if from_utf8 (slice bytes start end)
      then ok (slice bytes start end, end)
      else err invalid_utf8

unfoldable pub decode_blob : Bytes → ℕ → Result (Bytes × ℕ)
unfolding bytes_from
decode_blob bytes offset =
    if ltb (length bytes) (offset + 4)
    then err truncated_length
    else let len = from_be (bytes_from 4 bytes offset) in
      let start = offset + 4 in
      let end = start + len in
      if ltb (length bytes) end then err truncated_data else ok (slice bytes start end, end)

unfoldable pub decode_u32_le : Bytes → ℕ → Result (ℕ × ℕ)
unfolding bytes_from
decode_u32_le bytes offset =
    if ltb (length bytes) (offset + 4)
    then err truncated_length
    else ok (from_le (bytes_from 4 bytes offset), offset + 4)

unfoldable pub decode_u64_le : Bytes → ℕ → Result (ℕ × ℕ)
unfolding bytes_from
decode_u64_le bytes offset =
    if ltb (length bytes) (offset + 8)
    then err truncated_length
    else ok (from_le (bytes_from 8 bytes offset), offset + 8)

module _ (writer : Writer) where
  open writer use {W}

  unfoldable pub send_msg : ℕ → Bytes → W → Result W
  send_msg type_id payload w = send_message writer (type_id ∷ payload) w

  unfoldable pub send_empty : ℕ → W → Result W
  send_empty type_id w = send_message writer (type_id ∷ []) w

-- The message split at its type byte.
unfoldable pub split_type : Bytes → Result (ℕ × Bytes)
split_type [] = err empty_binary_message
split_type (type_id ∷ payload) = ok (type_id, payload)

module _ (reader : Reader) where
  open reader use {R}

  unfoldable pub recv_msg : R → Result (ℕ × Bytes × R)
  unfolding split_type
  recv_msg r = do
    (bytes, r') ← recv_message reader r
    (type_id, payload) ← split_type bytes
    ok (type_id, payload, r')
