-- ===== src/Chunking/Content.antt =====
-- Where a chunk ends depends only on the bytes from its start on: bytes put in front of a file
-- move its chunks and change nothing else.
use rsh.Prelude.{
  ℕ, zero, suc, ◌+◌, ◌-◌, ◌≤◌, ◌<◌, ◌≡◌, refl, sym, ap, ◌∙◌, true, false, List, [], ◌∷◌, ◌++◌, map,
  arith, min, leb, if◌then◌else◌, length, slice, drop, length-append, length-slice, drop-append,
  drop-drop, get_or-drop, Bool-cases, inl, inr, leb→le, le→leb,
}
use rsh.Prelude.Bytes.{Bytes, byte_at}
use rsh.Chunking.{
  window_size, min_chunk_size, max_chunk_size, Chunk, RabinTables, new_tables, roll, absorb, scan,
  chunk_end, hash_sha256, chunks_from, chunk_data,
}
use rsh.Chunking.Cover.{chunk_end_bounds, chunks_from_end, chunks_from_more}

module _ (front bytes : Bytes) where
  abbrev whole : Bytes
  whole = front ++ bytes

  byte_at-whole : (i k : ℕ) → k ≡ length front + i → byte_at whole k ≡ byte_at bytes i
  byte_at-whole i k e =
      sym (get_or-drop (length front) i k 0 whole e)
      ∙ ap (λ (s : Bytes). byte_at s i) (drop-append (length front) front bytes refl)

  slice-whole :
      (a b a' b' : ℕ)
      → a' ≡ length front + a
      → b' ≡ length front + b
      → slice whole a' b' ≡ slice bytes a b
  slice-whole a b a' b' e f =
      let cut : drop a' whole ≡ drop a bytes =
        sym (drop-drop (length front) a a' whole e)
        ∙ ap (drop a) (drop-append (length front) front bytes refl) in
      let width : b' - a' ≡ b - a = omega arith in rw (cut, width)

  absorb-whole :
      (tables : RabinTables) (count i k hash : ℕ)
      → k ≡ length front + i
      → absorb tables count whole k hash ≡ absorb tables count bytes i hash
  unfolding absorb
  absorb-whole tables zero i k hash e = refl
  absorb-whole tables (suc count) i k hash e =
      rw (byte_at-whole i k e) (absorb-whole tables count (i + 1) (k + 1) _ (omega arith))

  out_byte-whole :
      (start pos start' pos' : ℕ)
      → start' ≡ length front + start
      → pos' ≡ length front + pos
      → (if leb (window_size + start') pos' then byte_at whole (pos' - window_size) else 0)
        ≡ (if leb (window_size + start) pos then byte_at bytes (pos - window_size) else 0)
  out_byte-whole start pos start' pos' a c = elim (Bool-cases (leb (window_size + start) pos)) [
    | inl full ↦
        let room = leb→le (window_size + start) pos full in
        let full' = le→leb (window_size + start') pos' (omega arith) in
        rw (full, full') (byte_at-whole (pos - window_size) (pos' - window_size) (omega arith))
    | inr short ↦
        let short' : leb (window_size + start') pos' ≡ false = ground arith in rw (short, short')
  ]

  scan-whole :
      (tables : RabinTables) (fuel start max_pos pos start' max_pos' pos' hash : ℕ)
      → start' ≡ length front + start
      → max_pos' ≡ length front + max_pos
      → pos' ≡ length front + pos
      → scan tables fuel whole start' max_pos' pos' hash
        ≡ length front + scan tables fuel bytes start max_pos pos hash
  unfolding scan
  scan-whole tables zero start max_pos pos start' max_pos' pos' hash a b c = c
  scan-whole tables (suc fuel) start max_pos pos start' max_pos' pos' hash a b c =
      let out_byte : ℕ =
        if leb (window_size + start) pos then byte_at bytes (pos - window_size) else 0 in
      let rolled : ℕ = roll tables hash out_byte (byte_at bytes pos) in
      rw (out_byte-whole start pos start' pos' a c, byte_at-whole pos pos' c)
        (ground (
          arith,
          length-append front bytes,
          scan-whole tables fuel start max_pos (pos + 1) start' max_pos' (pos' + 1) rolled a b
              (omega arith),
        ))

  chunk_end-whole :
      (tables : RabinTables) (start start' : ℕ)
      → start' ≡ length front + start
      → chunk_end tables whole start' ≡ length front + chunk_end tables bytes start
  unfolding chunk_end
  chunk_end-whole tables start start' a =
      let total = length-append front bytes in
      let low : ℕ = min (start + min_chunk_size) (length bytes) in
      let low' : ℕ = min (start' + min_chunk_size) (length whole) in
      let high : ℕ = min (start + max_chunk_size) (length bytes) in
      let high' : ℕ = min (start' + max_chunk_size) (length whole) in
      let moved_low : low' ≡ length front + low = omega arith in
      let moved_high : high' ≡ length front + high = omega arith in
      let window : ℕ = if leb (window_size + start) low then low - window_size else start in
      let window' : ℕ = if leb (window_size + start') low' then low' - window_size else start' in
      let moved_window : window' ≡ length front + window = ground arith in
      let rounds : high' - low' ≡ high - low = omega arith in
      let count : min low' (length whole) - window' ≡ min low (length bytes) - window =
        omega arith in
      let hash =
        absorb-whole tables (min low (length bytes) - window) window window' 0 moved_window in
      rw (rounds, count, hash)
        (scan-whole tables (high - low) start high low start' high' low' _ a moved_high moved_low)

-- A chunk that stands n bytes further on.
abbrev pub moved : ℕ → Chunk → Chunk
moved n c = record c { offset = n + c.offset }

-- The bytes that some chunks span.
abbrev pub span : List Chunk → ℕ
span [] = 0
span (c ∷ cs) = c.length + span cs

module _ (sha256 : Bytes → Bytes) (tables : RabinTables) where
  chunks_from-whole :
      (front bytes : Bytes) (fuel start start' : ℕ)
      → start' ≡ length front + start
      → chunks_from sha256 tables fuel (front ++ bytes) start'
        ≡ map (moved (length front)) (chunks_from sha256 tables fuel bytes start)
  chunks_from-whole front bytes zero start start' a = unfold chunks_from in refl
  chunks_from-whole front bytes (suc fuel) start start' a =
      elim (Bool-cases (leb (length bytes) start)) [
        | inl done ↦
            let done' : leb (length (front ++ bytes)) start' ≡ true =
              le→leb _ _ (omega (arith, leb→le _ _ done, length-append front bytes)) in
            rw (
              chunks_from_end sha256 tables fuel bytes start done,
              chunks_from_end sha256 tables fuel (front ++ bytes) start' done',
            )
        | inr more ↦
            let more' : leb (length (front ++ bytes)) start' ≡ false =
              ground (arith, length-append front bytes) in
            let end : ℕ = chunk_end tables bytes start in
            let moved_end = chunk_end-whole front bytes tables start start' a in
            let same : slice (front ++ bytes) start' (chunk_end tables (front ++ bytes) start')
                ≡ slice bytes start end =
              slice-whole front bytes start end start' _ a moved_end in
            rw (
              chunks_from_more sha256 tables fuel bytes start more,
              chunks_from_more sha256 tables fuel (front ++ bytes) start' more',
              same,
              moved_end,
              a,
              chunks_from-whole front bytes fuel end (length front + end) refl,
            )
      ]

  chunks_from_empty : (bytes : Bytes) (pos : ℕ) → chunks_from sha256 tables zero bytes pos ≡ []
  unfolding chunks_from
  chunks_from_empty bytes pos = refl

  -- More fuel than there are bytes left changes nothing.
  chunks_from_enough :
      (bytes : Bytes) (fuel more pos : ℕ)
      → length bytes ≤ pos + fuel
      → fuel ≤ more
      → chunks_from sha256 tables more bytes pos ≡ chunks_from sha256 tables fuel bytes pos
  chunks_from_enough bytes zero zero pos h e = refl
  chunks_from_enough bytes zero (suc more) pos h e =
      chunks_from_end sha256 tables more bytes pos (le→leb _ _ (omega arith))
      ∙ sym (chunks_from_empty bytes pos)
  chunks_from_enough bytes (suc fuel) zero pos h e = absurd (omega arith)
  chunks_from_enough bytes (suc fuel) (suc more) pos h e =
      elim (Bool-cases (leb (length bytes) pos)) [
        | inl done ↦ rw (
          chunks_from_end sha256 tables fuel bytes pos done,
          chunks_from_end sha256 tables more bytes pos done,
        )
        | inr left ↦
            let bounds = chunk_end_bounds tables bytes pos in
            let before : pos < length bytes = ground arith in
            rw (
              chunks_from_more sha256 tables fuel bytes pos left,
              chunks_from_more sha256 tables more bytes pos left,
              chunks_from_enough bytes fuel more (chunk_end tables bytes pos) (omega arith)
                  (omega arith),
            )
      ]

  -- The chunks behind the first few are those from the place that the first few reach.
  chunks_from_behind :
      (bytes : Bytes) (before behind : List Chunk) (fuel pos : ℕ)
      → pos ≤ length bytes
      → length bytes ≤ pos + fuel
      → chunks_from sha256 tables fuel bytes pos ≡ before ++ behind
      → behind ≡ chunks_from sha256 tables fuel bytes (pos + span before)
  chunks_from_behind bytes [] behind fuel pos within enough h =
      sym h ∙ ap (chunks_from sha256 tables fuel bytes) (omega arith)
  chunks_from_behind bytes (c ∷ before) behind zero pos within enough h =
      cc (chunks_from_empty bytes pos)
  chunks_from_behind bytes (c ∷ before) behind (suc fuel) pos within enough h =
      elim (Bool-cases (leb (length bytes) pos)) [
        | inl done ↦ cc (chunks_from_end sha256 tables fuel bytes pos done)
        | inr left ↦
            let bounds = chunk_end_bounds tables bytes pos in
            let room : pos < length bytes = ground arith in
            let end : ℕ = chunk_end tables bytes pos in
            let step = chunks_from_more sha256 tables fuel bytes pos left in
            let rest : chunks_from sha256 tables fuel bytes end ≡ before ++ behind = cc in
            let chunk : Chunk = record {
              offset = pos;
              length = length (slice bytes pos end);
              hash = hash_sha256 sha256 (slice bytes pos end);
            } in
            let first : chunk ≡ c = cc in
            let size : c.length ≡ end - pos =
              sym (ap (λ (k : Chunk). k.length) first) ∙ length-slice bytes pos end (omega arith) in
            chunks_from_behind bytes before behind fuel end (omega arith) (omega arith) rest
            ∙ sym (
                chunks_from_enough bytes fuel (suc fuel) (end + span before) (omega arith)
                  (omega arith))
            ∙ ap (chunks_from sha256 tables (suc fuel) bytes) (omega arith)
      ]

-- Where a chunk ends inside a file, the chunks behind that place are the chunks of the rest of
-- the file taken alone, moved to that place: what stands in front of it does not matter.
pub chunk_data_behind :
    (sha256 : Bytes → Bytes) (front bytes : Bytes) (before behind : List Chunk)
    → chunk_data sha256 (front ++ bytes) ≡ before ++ behind
    → span before ≡ length front
    → behind ≡ map (moved (length front)) (chunk_data sha256 bytes)
unfolding chunk_data
chunk_data_behind sha256 front bytes before behind h e =
    let total = length-append front bytes in
    let all : ℕ = length (front ++ bytes) in
    let place : 0 + span before ≡ length front + 0 = omega arith in
    chunks_from_behind sha256 new_tables (front ++ bytes) before behind all 0 (omega arith)
      (omega arith) h
    ∙ chunks_from-whole sha256 new_tables front bytes all 0 (0 + span before) place
    ∙ ap (map (moved (length front))) (
        chunks_from_enough sha256 new_tables bytes (length bytes) all 0 (omega arith) (omega arith))
