-- ===== src/Chunking/Tests.antt =====
-- chunking.rs on small files, with a digest that tells lengths.
use rsh.Prelude.{◌%◌, ◌≡◌, ◌↔◌, refl, [], ◌∷◌, ◌++◌, arith, length, map, replicate}
use rsh.Prelude.Bytes.{Bytes}
use rsh.Chunking.{Chunk, new_tables, hash_sha256, roll, chunk_data}
use rsh.Chunking.Cover.{IsChunking, chunk_data-IsChunking}
use rsh.Chunking.Content.{moved, chunk_data_behind}
use rsh.Chunking.Hex.{hash_sha256_iff}

abbrev digest : Bytes → Bytes
digest bs = length bs % 256 ∷ []

abbrev zeros : Bytes
zeros = replicate 2049 0

abbrev first_chunk : Chunk
first_chunk = record { offset = 0; length = 2049; hash = b'0' ∷ b'1' ∷ [] }

abbrev last_chunk : Chunk
last_chunk = record { offset = 2049; length = 1; hash = b'0' ∷ b'1' ∷ [] }

-- A run of zeros keeps the hash at 0, so the chunk ends at the first byte that is rolled.
zeros_then_one : chunk_data digest (zeros ++ (1 ∷ [])) ≡ (first_chunk ∷ []) ++ (last_chunk ∷ [])
unfolding chunk_data roll new_tables hash_sha256
zeros_then_one = refl

chunk_data_behind_example :
    last_chunk ∷ [] ≡ map (moved (length zeros)) (chunk_data digest (1 ∷ []))
chunk_data_behind_example =
    chunk_data_behind digest zeros (1 ∷ []) (first_chunk ∷ []) (last_chunk ∷ []) zeros_then_one refl

chunk_data-IsChunking_example : IsChunking digest (1 ∷ 2 ∷ []) 0 (chunk_data digest (1 ∷ 2 ∷ []))
chunk_data-IsChunking_example = chunk_data-IsChunking digest (1 ∷ 2 ∷ [])

hash_sha256_iff_example :
    (hash_sha256 digest (7 ∷ []) ≡ hash_sha256 digest (8 ∷ 9 ∷ []))
    ↔ (digest (7 ∷ []) ≡ digest (8 ∷ 9 ∷ []))
hash_sha256_iff_example = hash_sha256_iff digest (7 ∷ []) (8 ∷ 9 ∷ []) (omega arith) (omega arith)
