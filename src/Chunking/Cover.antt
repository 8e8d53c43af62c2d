-- ===== src/Chunking/Cover.antt =====
-- The chunks of a file cover it without a gap, and their sizes are in bounds.
use rsh.Prelude.{
  ℕ, zero, suc, ◌+◌, ◌-◌, ◌≤◌, ◌<◌, ◌≡◌, refl, true, false, List, [], ◌∷◌, arith, min, ltb, leb,
  if◌then◌else◌, length, slice, length-slice, Bool-cases, inl, inr, leb→le, le→ltb, ◌⊎◌,
}
use rsh.Prelude.Bytes.{Bytes, byte_at}
use rsh.Chunking.{
  window_size, roll, min_chunk_size, max_chunk_size, Chunk, RabinTables, new_tables, scan,
  chunk_end, hash_sha256, next, chunks_from, chunk_data,
}

-- From `pos` on the chunks are those of the file: one begins where the last ended, none is empty
-- or longer than 256 KB, only the last may be shorter than 2 KB, each carries the hash of its
-- bytes, and the last ends with the file.
abbrev pub IsChunking : (Bytes → Bytes) → Bytes → ℕ → List Chunk → Type 0
IsChunking sha256 bytes pos [] = pos ≡ length bytes
IsChunking sha256 bytes pos (c ∷ cs) =
    (c.offset ≡ pos)
    × (0 < c.length)
    × (c.length ≤ max_chunk_size)
    × ((min_chunk_size ≤ c.length) ⊎ (pos + c.length ≡ length bytes))
    × (c.hash ≡ hash_sha256 sha256 (slice bytes pos (pos + c.length)))
    × IsChunking sha256 bytes (pos + c.length) cs

scan_bounds :
    (tables : RabinTables) (fuel : ℕ) (bytes : Bytes) (start max_pos pos hash : ℕ)
    → pos ≤ max_pos
    → (pos ≤ scan tables fuel bytes start max_pos pos hash)
      × (scan tables fuel bytes start max_pos pos hash ≤ max_pos)
unfolding scan
scan_bounds tables zero bytes start max_pos pos hash h = (omega arith, h)
scan_bounds tables (suc fuel) bytes start max_pos pos hash h =
    let out_byte : ℕ =
      if leb (window_size + start) pos then byte_at bytes (pos - window_size) else 0 in
    let rolled : ℕ = roll tables hash out_byte (byte_at bytes pos) in
    elim (Bool-cases (ltb pos max_pos)) [
      | inl inside ↦
          rw inside (ground (arith, scan_bounds tables fuel bytes start max_pos (pos + 1) rolled))
      | inr reached ↦ rw reached (omega arith)
    ]

-- More rounds than there are positions left change nothing.
pub scan_enough :
    (tables : RabinTables) (fuel more : ℕ) (bytes : Bytes) (start max_pos pos hash : ℕ)
    → max_pos ≤ pos + fuel
    → fuel ≤ more
    → scan tables more bytes start max_pos pos hash ≡ scan tables fuel bytes start max_pos pos hash
unfolding scan
scan_enough tables zero zero bytes start max_pos pos hash h e = refl
scan_enough tables zero (suc more) bytes start max_pos pos hash h e =
    rw (le→ltb pos max_pos (omega arith))
scan_enough tables (suc fuel) zero bytes start max_pos pos hash h e = absurd (omega arith)
scan_enough tables (suc fuel) (suc more) bytes start max_pos pos hash h e =
    rw (scan_enough tables fuel more bytes start max_pos (pos + 1) _ (omega arith) (omega arith))

pub chunk_end_bounds :
    (tables : RabinTables) (bytes : Bytes) (start : ℕ)
    → (min (start + min_chunk_size) (length bytes) ≤ chunk_end tables bytes start)
      × (chunk_end tables bytes start ≤ min (start + max_chunk_size) (length bytes))
unfolding chunk_end
chunk_end_bounds tables bytes start = scan_bounds tables _ bytes start _ _ _ (omega arith)

module _ (sha256 : Bytes → Bytes) where
  module _ (tables : RabinTables) (fuel : ℕ) (bytes : Bytes) (pos : ℕ) where
    pub chunks_from_end :
        leb (length bytes) pos ≡ true → chunks_from sha256 tables (suc fuel) bytes pos ≡ []
    unfolding chunks_from next
    chunks_from_end done = rw (done, chunks_from)

    pub chunks_from_more :
        leb (length bytes) pos ≡ false
        → chunks_from sha256 tables (suc fuel) bytes pos
          ≡ record {
            offset = pos;
            length = length (slice bytes pos (chunk_end tables bytes pos));
            hash = hash_sha256 sha256 (slice bytes pos (chunk_end tables bytes pos));
          }
            ∷ chunks_from sha256 tables fuel bytes (chunk_end tables bytes pos)
    unfolding chunks_from next
    chunks_from_more more = rw (more, chunks_from)

  chunks_from-IsChunking :
      (tables : RabinTables) (fuel : ℕ) (bytes : Bytes) (pos : ℕ)
      → pos ≤ length bytes
      → length bytes ≤ pos + fuel
      → IsChunking sha256 bytes pos (chunks_from sha256 tables fuel bytes pos)
  chunks_from-IsChunking tables zero bytes pos within enough = unfold chunks_from in omega arith
  chunks_from-IsChunking tables (suc fuel) bytes pos within enough =
      elim (Bool-cases (leb (length bytes) pos)) [
        | inl done ↦
            rw (chunks_from_end tables fuel bytes pos done) (omega (arith, leb→le _ _ done))
        | inr more ↦
            let end : ℕ = chunk_end tables bytes pos in
            let (low, high) = chunk_end_bounds tables bytes pos in
            let before : pos < length bytes = ground arith in
            let size = length-slice bytes pos end (omega arith) in
            let there : pos + length (slice bytes pos end) ≡ end = omega arith in
            rw (chunks_from_more tables fuel bytes pos more) (
              refl,
              omega arith,
              omega arith,
              omega arith,
              rw there refl,
              rw there (chunks_from-IsChunking tables fuel bytes end (omega arith) (omega arith)),
            )
      ]

-- The chunks of a file cover it from the first byte to the last: each begins where the one before
-- ended, has at least one byte and at most 256 KB, at least 2 KB unless it ends the file, and
-- carries the SHA-256 text of its bytes.
pub chunk_data-IsChunking :
    (sha256 : Bytes → Bytes) (bytes : Bytes) → IsChunking sha256 bytes 0 (chunk_data sha256 bytes)
unfolding chunk_data
chunk_data-IsChunking sha256 bytes =
    chunks_from-IsChunking sha256 new_tables (length bytes) bytes 0 (omega arith) (omega arith)
