-- ===== src/FsTransport/Drain.antt =====
-- A reader that goes on reads everything that lies in the directory, and then sees the end.
use mathlib.Core.Path.{subst}
use rsh.Prelude.{
  ℕ, zero, suc, ◌+◌, ◌≤◌, ◌<◌, ◌≡◌, refl, sym, ap, ◌∙◌, Bool, true, false, Option, none, some, List,
  [], ◌∷◌, ◌++◌, if◌then◌else◌, lt→ltb, length, take, drop, replicate, take-append-drop,
  append_assoc, append-nil, length-drop, arith,
}
use rsh.Prelude.Bytes.{Bytes}
use rsh.FsTransport.{
  Chunk, Phase, looking, checked, Direction, take_file, give, look, read_chunk, next_chunk, serve,
  poll_read, Event, read, Log, step, run,
}
use rsh.FsTransport.Chunks.{concat}

-- The chunks from a number on, each in its file, in whatever order the files stand.
abbrev pub Stored : ℕ → List Chunk → List Bytes → Type 0
Stored seq files [] = take_file seq files ≡ none
Stored seq files (c ∷ cs) =
    (others : List Chunk) × (take_file seq files ≡ some (c, others)) × Stored (seq + 1) others cs

-- How many rounds a phase takes before the reader looks at the sentinel.
abbrev pub steps : Phase → ℕ
steps looking = 2
steps (checked none) = 3
steps (checked (some n)) = 1

abbrev pub rounds_for : List Bytes → ℕ
rounds_for [] = 0
rounds_for (c ∷ cs) = length c + 3 + rounds_for cs

abbrev pub Knows : Phase → ℕ → Type 0
Knows looking n = Unit
Knows (checked none) n = Unit
Knows (checked (some m)) n = m ≡ n

-- The state of a direction whose writer is done and whose files have arrived.
pub record Settled (s : Direction) (chunks : List Bytes) : Type 0 where
  pub last : ℕ
  pub running : s.read_eof ≡ false
  pub sentinel_there : s.sentinel ≡ some (some last)
  pub last_chunk : last + 1 ≡ s.read_seq + length chunks
  pub knows : Knows s.phase last
  pub stored : Stored s.read_seq s.files chunks

abbrev pub enough : Direction → List Bytes → ℕ
enough s chunks = length s.read_buffer + steps s.phase + rounds_for chunks

abbrev pub reads : ℕ → ℕ → List Event
reads fuel room = replicate fuel (read room)

-- The end of the file, with these bytes given out.
abbrev pub Drained : Direction × Log → Bytes → Type 0
Drained (s, log) bytes = (s.read_eof ≡ true) × (log.received ≡ bytes)

steps_pos : (p : Phase) → 0 < steps p
steps_pos looking = omega arith
steps_pos (checked none) = omega arith
steps_pos (checked (some n)) = omega arith

module _ (room : ℕ) (s : Direction) where
  poll_read-buffer :
      (buffer : Bytes) → s.read_buffer ≡ buffer → poll_read room s ≡ serve buffer room s
  poll_read-buffer buffer e = ap (λ (b : Bytes). serve b room s) e

  poll_read-next :
      (r : Option (Bytes × List Chunk))
      → s.read_buffer ≡ []
      → s.read_eof ≡ false
      → take_file s.read_seq s.files ≡ r
      → poll_read room s ≡ read_chunk room s.phase r s
  poll_read-next r empty running found =
      poll_read-buffer [] empty
      ∙ ap (λ (eof : Bool). next_chunk eof room s) running
      ∙ ap (λ (x : Option (Bytes × List Chunk)). read_chunk room s.phase x s) found

  read_chunk-some :
      (p : Phase) (c : Bytes) (others : List Chunk)
      → read_chunk room p (some (c, others)) s ≡ give room c others s
  read_chunk-some looking c others = refl
  read_chunk-some (checked o) c others = refl

module _ (room : ℕ) where
  advance :
      (fuel : ℕ) (s s1 : Direction) (log : Log) (b bytes bytes' : Bytes)
      → poll_read room s ≡ (s1, b)
      → bytes ≡ bytes'
      → Drained (run (reads fuel room) s1 (record log { received = log.received ++ b })) bytes
      → Drained (run (reads (suc fuel) room) s log) bytes'
  unfolding run step
  advance fuel s s1 log b bytes bytes' e same drained =
      subst
        (λ (r : Direction × Bytes).
          Drained (run (reads fuel room) r.0 (record log { received = log.received ++ r.1 }))
            bytes')
        (sym e)
        (subst
          (λ (x : Bytes).
            Drained (run (reads fuel room) s1 (record log { received = log.received ++ b })) x)
          same drained)

  ended :
      (fuel : ℕ) (s : Direction) (log : Log)
      → s.read_eof ≡ true
      → s.read_buffer ≡ []
      → Drained (run (reads fuel room) s log) log.received
  unfolding run
  ended zero s log eof empty = (eof, refl)
  ended (suc fuel) s log eof empty =
      advance fuel s s log [] _ _
        (poll_read-buffer room s [] empty ∙ ap (λ (x : Bool). next_chunk x room s) eof)
        (append-nil log.received)
        (ended fuel s (record log { received = log.received ++ [] }) eof empty)

module _ (room : ℕ) (space : 0 < room) where
  abbrev Continues : ℕ → Type 0
  Continues fuel =
      (s : Direction) (log : Log) (chunks : List Bytes)
      → Settled s chunks
      → enough s chunks ≤ fuel
      → Drained (run (reads fuel room) s log) (log.received ++ (s.read_buffer ++ concat chunks))

  buffer_drains :
      (fuel : ℕ) (s : Direction) (log : Log) (chunks : List Bytes) (b : ℕ) (bs : Bytes)
      → Continues fuel
      → Settled s chunks
      → s.read_buffer ≡ b ∷ bs
      → enough s chunks ≤ suc fuel
      → Drained
          (run (reads (suc fuel) room) s log)
          (log.received ++ (s.read_buffer ++ concat chunks))
  buffer_drains fuel s log chunks b bs next settled e short =
      let s1 : Direction = record s { read_buffer = drop room (b ∷ bs) } in
      let log1 : Log = record log { received = log.received ++ take room (b ∷ bs) } in
      advance room fuel s s1 log (take room (b ∷ bs)) _ _ (poll_read-buffer room s (b ∷ bs) e)
        (append_assoc log.received (take room (b ∷ bs)) (drop room (b ∷ bs) ++ concat chunks)
          ∙ ap (λ (x : Bytes). log.received ++ x)
              (sym (append_assoc (take room (b ∷ bs)) (drop room (b ∷ bs)) (concat chunks))
                ∙ ap (λ (x : Bytes). x ++ concat chunks) (take-append-drop room (b ∷ bs) ∙ sym e)))
        (next s1 log1 chunks
          (record {
            last = settled.last;
            running = settled.running;
            sentinel_there = settled.sentinel_there;
            last_chunk = settled.last_chunk;
            knows = settled.knows;
            stored = settled.stored;
          })
          (omega (arith, length-drop room (b ∷ bs), ap length e)))

  chunk_drains :
      (fuel : ℕ) (s : Direction) (log : Log) (c : Bytes) (cs : List Bytes)
      → Continues fuel
      → Settled s (c ∷ cs)
      → s.read_buffer ≡ []
      → enough s (c ∷ cs) ≤ suc fuel
      → Drained
          (run (reads (suc fuel) room) s log)
          (log.received ++ (s.read_buffer ++ concat (c ∷ cs)))
  chunk_drains fuel s log c cs next settled empty short =
      let (others, found, stored') = settled.stored in
      let s1 : Direction = (give room c others s).0 in
      let log1 : Log = record log { received = log.received ++ take room c } in
      advance room fuel s s1 log (take room c) _ _
        (poll_read-next room s (some (c, others)) empty settled.running found
          ∙ read_chunk-some room s s.phase c others)
        (append_assoc log.received (take room c) (drop room c ++ concat cs)
          ∙ ap (λ (x : Bytes). log.received ++ x)
              (sym (append_assoc (take room c) (drop room c) (concat cs))
                ∙ ap (λ (x : Bytes). x ++ concat cs) (take-append-drop room c)
                ∙ ap (λ (x : Bytes). x ++ (c ++ concat cs)) (sym empty)))
        (next s1 log1 cs
          (record {
            last = settled.last;
            running = settled.running;
            sentinel_there = settled.sentinel_there;
            last_chunk = omega (arith, settled.last_chunk);
            knows = tt;
            stored = stored';
          })
          (omega (arith, length-drop room c, steps_pos s.phase)))

  -- No chunk is left: the reader looks at the sentinel, and then once more at the file.
  end_drains :
      (fuel : ℕ) (s : Direction) (log : Log) (p : Phase)
      → Continues fuel
      → Settled s []
      → s.phase ≡ p
      → s.read_buffer ≡ []
      → enough s [] ≤ suc fuel
      → Drained (run (reads (suc fuel) room) s log) (log.received ++ (s.read_buffer ++ []))
  end_drains fuel s log looking next settled e empty short =
      let s1 : Direction = record s { phase = checked (some settled.last) } in
      let log1 : Log = record log { received = log.received ++ [] } in
      advance room fuel s s1 log [] _ _
        (poll_read-next room s none empty settled.running settled.stored
          ∙ ap (λ (x : Phase). read_chunk room x none s) e
          ∙ ap (λ (x : Option (Option ℕ)). look x s) settled.sentinel_there)
        (append_assoc log.received [] (s.read_buffer ++ []))
        (next s1 log1 []
          (record {
            last = settled.last;
            running = settled.running;
            sentinel_there = settled.sentinel_there;
            last_chunk = settled.last_chunk;
            knows = refl;
            stored = settled.stored;
          })
          (omega (arith, ap steps e)))
  end_drains fuel s log (checked none) next settled e empty short =
      let s1 : Direction = record s { phase = looking } in
      let log1 : Log = record log { received = log.received ++ [] } in
      advance room fuel s s1 log [] _ _
        (poll_read-next room s none empty settled.running settled.stored
          ∙ ap (λ (x : Phase). read_chunk room x none s) e)
        (append_assoc log.received [] (s.read_buffer ++ []))
        (next s1 log1 []
          (record {
            last = settled.last;
            running = settled.running;
            sentinel_there = settled.sentinel_there;
            last_chunk = settled.last_chunk;
            knows = tt;
            stored = settled.stored;
          })
          (omega (arith, ap steps e)))
  end_drains fuel s log (checked (some m)) next settled e empty short =
      let s1 : Direction = record s { phase = looking; read_eof = true } in
      let log1 : Log = record log { received = log.received ++ [] } in
      let same : m ≡ settled.last = subst (λ (x : Phase). Knows x settled.last) e settled.knows in
      let past = lt→ltb m s.read_seq (omega (arith, settled.last_chunk)) in
      advance room fuel s s1 log [] _ _
        (poll_read-next room s none empty settled.running settled.stored
          ∙ ap (λ (x : Phase). read_chunk room x none s) e
          ∙ ap (λ (b : Bool). if b then (s1, []) else (record s { phase = looking }, [])) past)
        (ap (λ (x : Bytes). log.received ++ (x ++ [])) (sym empty))
        (ended room fuel s1 log1 refl empty)

  by_chunks :
      (fuel : ℕ) (s : Direction) (log : Log) (chunks : List Bytes)
      → Continues fuel
      → Settled s chunks
      → s.read_buffer ≡ []
      → enough s chunks ≤ suc fuel
      → Drained
          (run (reads (suc fuel) room) s log)
          (log.received ++ (s.read_buffer ++ concat chunks))
  by_chunks fuel s log [] next settled empty short =
      end_drains fuel s log s.phase next settled refl empty short
  by_chunks fuel s log (c ∷ cs) next settled empty short =
      chunk_drains fuel s log c cs next settled empty short

  by_buffer :
      (fuel : ℕ) (s : Direction) (log : Log) (chunks : List Bytes) (buffer : Bytes)
      → Continues fuel
      → Settled s chunks
      → s.read_buffer ≡ buffer
      → enough s chunks ≤ suc fuel
      → Drained
          (run (reads (suc fuel) room) s log)
          (log.received ++ (s.read_buffer ++ concat chunks))
  by_buffer fuel s log chunks [] next settled e short =
      by_chunks fuel s log chunks next settled e short
  by_buffer fuel s log chunks (b ∷ bs) next settled e short =
      buffer_drains fuel s log chunks b bs next settled e short

-- Once the writer is done and its files have arrived, in whatever order they stand, enough reads
-- with room for at least a byte give out everything that is left, in order, and then the end of the
-- file. There are enough if their number is that of the bytes and three for each chunk and the
-- sentinel.
pub run-Settled :
    (room : ℕ)
    → 0 < room
    → (fuel : ℕ) (s : Direction) (log : Log) (chunks : List Bytes) → Settled s chunks
    → enough s chunks ≤ fuel
    → Drained (run (reads fuel room) s log) (log.received ++ (s.read_buffer ++ concat chunks))
run-Settled room space zero s log chunks settled short =
    absurd (let pos = steps_pos s.phase in omega arith)
run-Settled room space (suc fuel) s log chunks settled short =
    by_buffer room space fuel s log chunks s.read_buffer (run-Settled room space fuel) settled refl
      short
