-- ===== src/Wire.antt =====
-- crates/mrsh-core/src/wire.rs: messages with a 4-byte big-endian length in front, and the
-- JSON and compressed-JSON messages over them. `serde_json` and `zstd` are parameters.
pub mod RoundTrip
pub mod Refusals
mod Tests
use rsh.Prelude.{
  ℕ, ◌+◌, ◌*◌, ◌%◌, ◌^◌, ◌≡◌, Option, some, [], ◌∷◌, ◌++◌, ltb, ◌==◌, if◌then◌else◌, length,
}
use rsh.Prelude.Bytes.{Bytes, to_be, from_be}
use rsh.Error.{
  Result, ok, err, ◌>>=◌, context, write_header, write_body, flush_failed, read_header, read_body,
  too_large, serialize, deserialize, compress, decompress, empty_message,
}
use rsh.Io.{Reader, Writer}

abbrev pub max_message_size : ℕ
max_message_size = 50 * 1024 * 1024

abbrev pub zstd_flag : ℕ
zstd_flag = 0x01

abbrev pub raw_flag : ℕ
raw_flag = 0x00

abbrev pub compress_threshold : ℕ
compress_threshold = 256

-- `serde_json` at one type of values: what is printed is parsed back.
pub record Json : Type 1 where
  pub T : Type 0
  pub to_vec : T → Option Bytes
  pub from_slice : Bytes → Option T
  pub from_slice-to_vec : (v : T) (text : Bytes) → to_vec v ≡ some text → from_slice text ≡ some v

-- `zstd::encode_all` at level 3 and `zstd::decode_all`: what is compressed is restored.
pub record Zstd : Type 0 where
  pub encode_all : Bytes → Option Bytes
  pub decode_all : Bytes → Option Bytes
  pub decode_all-encode_all :
      (bs packed : Bytes) → encode_all bs ≡ some packed → decode_all packed ≡ some bs

module _ (writer : Writer) where
  open writer use {W, write_all, flush}

  unfoldable pub send_message : Bytes → W → Result W
  send_message bytes w = do
    let header = to_be 4 (length bytes % 2 ^ 32)
    w1 ← context write_header (write_all header w)
    w2 ← context write_body (write_all bytes w1)
    context flush_failed (flush w2)

module _ (reader : Reader) where
  open reader use {R, read_exact}

  unfoldable pub recv_message : R → Result (Bytes × R)
  recv_message r = do
    (header, r1) ← context read_header (read_exact 4 r)
    let size = from_be header
    if ltb max_message_size size then err too_large else context read_body (read_exact size r1)

module _ (writer : Writer) (json : Json) where
  open writer use {W}
  open json use {T, to_vec}

  unfoldable pub send_json : T → W → Result W
  send_json value w = do text ← context serialize (to_vec value); send_message writer text w

module _ (reader : Reader) (json : Json) where
  open reader use {R}
  open json use {T, from_slice}

  unfoldable pub recv_json : R → Result (T × R)
  recv_json r = do
    (text, r') ← recv_message reader r
    value ← context deserialize (from_slice text)
    ok (value, r')

-- The payload of a compressed-JSON message: the flag byte and the text, compressed only if that
-- is shorter.
unfoldable pub pack : Zstd → Bytes → Result Bytes
pack zstd text =
    if ltb compress_threshold (length text)
    then (do
      packed ← context compress (zstd.encode_all text)
      ok (if ltb (length packed) (length text) then zstd_flag ∷ packed else raw_flag ∷ text))
    else ok (raw_flag ∷ text)

module _ (writer : Writer) (json : Json) (zstd : Zstd) where
  open writer use {W}
  open json use {T, to_vec}

  unfoldable pub send_json_compressed : T → W → Result W
  unfolding pack
  send_json_compressed value w = do
    text ← context serialize (to_vec value)
    message ← pack zstd text
    send_message writer message w

module _ (json : Json) (zstd : Zstd) where
  open json use {T, from_slice}

  -- The match on the first byte, behind the test for an empty message.
  unfoldable pub unpack : Bytes → Result T
  unpack [] = err empty_message
  unpack (flag ∷ rest) =
      if flag == zstd_flag
      then (do
        text ← context decompress (zstd.decode_all rest)
        context deserialize (from_slice text))
      else if flag == raw_flag
      then context deserialize (from_slice rest)
      else context deserialize (from_slice (flag ∷ rest))

module _ (reader : Reader) (json : Json) (zstd : Zstd) where
  open reader use {R}
  open json use {T}

  unfoldable pub recv_json_compressed : R → Result (T × R)
  unfolding unpack
  recv_json_compressed r = do
    (message, r') ← recv_message reader r
    value ← unpack json zstd message
    ok (value, r')
