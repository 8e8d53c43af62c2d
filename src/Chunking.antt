-- ===== src/Chunking.antt =====
-- crates/mrsh-transfer/src/chunking.rs: content-defined chunks by a rolling hash of 64 bits. The
-- SHA-256 digest is a parameter; its hexadecimal text is the program's own.
pub mod Cover
pub mod Content
pub mod Hex
mod Tests
use rsh.Prelude.{
  ℕ, zero, suc, ◌+◌, ◌-◌, ◌*◌, ◌/◌, ◌%◌, ◌^◌, Bool, Option, none, some, List, [], ◌∷◌, ◌++◌, map,
  min, bit_and, bit_xor, ltb, leb, ◌==◌, if◌then◌else◌, length, slice, get_or,
}
use rsh.Prelude.Bytes.{Bytes, byte_at}

abbrev pub min_chunk_size : ℕ
min_chunk_size = 2 * 1024

abbrev pub avg_chunk_size : ℕ
avg_chunk_size = 64 * 1024

abbrev pub max_chunk_size : ℕ
max_chunk_size = 256 * 1024

abbrev pub window_size : ℕ
window_size = 48

abbrev pub rabin_poly : ℕ
rabin_poly = 0x3DA3358B4DC173

abbrev pub chunk_mask : ℕ
chunk_mask = avg_chunk_size - 1

pub record Chunk : Type 0 where
  pub offset : ℕ
  pub length : ℕ
  pub hash : Bytes

pub record RabinTables : Type 0 where
  pub out : List ℕ
  pub modtab : List ℕ

-- `for _ in 0..rounds`
iterate : ℕ → (ℕ → ℕ) → ℕ → ℕ
iterate zero step hash = hash
iterate (suc rounds) step hash = iterate rounds step (step hash)

out_step : ℕ → ℕ
out_step hash = bit_xor (hash * 2 % 2 ^ 64) (hash / 2 ^ 63 * rabin_poly)

mod_step : ℕ → ℕ
mod_step hash = if bit_and hash 1 == 0 then hash / 2 else bit_xor (hash / 2) rabin_poly

-- The entries i, i + 1, ... of a table.
fill : ℕ → ℕ → (ℕ → ℕ) → List ℕ
fill zero i entry = []
fill (suc n) i entry = entry i ∷ fill n (i + 1) entry

-- `RabinTables::new`
unfoldable pub new_tables : RabinTables
unfolding fill iterate out_step mod_step
new_tables = record {
  out = fill 256 0 (iterate window_size out_step);
  modtab = fill 256 0 (iterate 8 mod_step);
}

unfoldable pub roll_in : RabinTables → ℕ → ℕ → ℕ
roll_in tables hash b =
    bit_xor (bit_xor (hash * 2 ^ 8 % 2 ^ 64) (get_or tables.modtab (hash / 2 ^ 56 % 2 ^ 8) 0)) b

unfoldable pub roll : RabinTables → ℕ → ℕ → ℕ → ℕ
unfolding roll_in
roll tables hash out inp = roll_in tables (bit_xor hash (get_or tables.out out 0)) inp

-- `for i in i..i + count { hash = roll_in(hash, data[i]) }`
pub absorb : RabinTables → ℕ → Bytes → ℕ → ℕ → ℕ
absorb tables zero bytes i hash = hash
absorb tables (suc count) bytes i hash =
    absorb tables count bytes (i + 1) (roll_in tables hash (byte_at bytes i))

-- The loop up to a boundary or to max_pos; the end of the chunk comes back. The rounds left are
-- the fuel.
pub scan : RabinTables → ℕ → Bytes → ℕ → ℕ → ℕ → ℕ → ℕ
scan tables zero bytes start max_pos pos hash = pos
scan tables (suc fuel) bytes start max_pos pos hash =
    let out_byte = if leb (window_size + start) pos then byte_at bytes (pos - window_size) else 0 in
    let hash' = roll tables hash out_byte (byte_at bytes pos) in
    let rest = scan tables fuel bytes start max_pos (pos + 1) hash' in
    if ltb pos max_pos
    then (if leb (length bytes) pos
        then pos
        else if bit_and hash' chunk_mask == 0
        then pos + 1
        else rest)
    else pos

-- The end of the chunk that begins at `start`.
pub chunk_end : RabinTables → Bytes → ℕ → ℕ
unfolding absorb scan
chunk_end tables bytes start =
    let min_pos = min (start + min_chunk_size) (length bytes) in
    let max_pos = min (start + max_chunk_size) (length bytes) in
    let window_start = if leb (window_size + start) min_pos then min_pos - window_size else start in
    let hash = absorb tables (min min_pos (length bytes) - window_start) bytes window_start 0 in
    scan tables (max_pos - min_pos) bytes start max_pos min_pos hash

hex_digit : ℕ → ℕ
hex_digit d = if ltb d 10 then b'0' + d else b'a' + (d - 10)

-- `mod hex`: `{:02x}` for each byte.
unfoldable pub hex_encode : Bytes → Bytes
unfolding hex_digit
hex_encode [] = []
hex_encode (b ∷ bs) = hex_digit (b / 16) ∷ hex_digit (b % 16) ∷ hex_encode bs

module _ (sha256 : Bytes → Bytes) where
  unfoldable pub hash_sha256 : Bytes → Bytes
  unfolding hex_encode
  hash_sha256 bytes = hex_encode (sha256 bytes)

  -- `RabinChunker::next`: the chunk at `pos`, and the position behind it.
  unfoldable pub next : RabinTables → Bytes → ℕ → Option (Chunk × ℕ)
  unfolding chunk_end
  next tables bytes pos =
      if leb (length bytes) pos
      then none
      else let end = chunk_end tables bytes pos in
        some (
          record {
            offset = pos;
            length = length (slice bytes pos end);
            hash = hash_sha256 (slice bytes pos end);
          },
          end,
        )

  -- `collect`; each chunk has at least one byte, so the length of the data is fuel enough.
  pub chunks_from : RabinTables → ℕ → Bytes → ℕ → List Chunk
  chunks_from tables zero bytes pos = []
  chunks_from tables (suc fuel) bytes pos = elim (next tables bytes pos) [
    | none ↦ []
    | some (chunk, end) ↦ chunk ∷ chunks_from tables fuel bytes end
  ]

  unfoldable pub chunk_data : Bytes → List Chunk
  unfolding chunks_from next
  chunk_data bytes = chunks_from new_tables (length bytes) bytes 0

  unfoldable pub file_hashes : Bytes → Bytes × List Bytes
  unfolding chunk_data
  file_hashes bytes = (hash_sha256 bytes, map (λ (c : Chunk). c.hash) (chunk_data bytes))
