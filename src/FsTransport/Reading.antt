-- ===== src/FsTransport/Reading.antt =====
-- Each piece of a read keeps the account of the chunks.
use mathlib.Core.Path.{subst}
use rsh.Prelude.{
  ℕ, suc, ◌≤◌, ◌≡◌, refl, sym, ap, ◌∙◌, ◌⊎◌, inl, inr, Bool, true, false, Option, none, some, List,
  [], ◌∷◌, ◌++◌, ltb, take, drop, take-append-drop, append_assoc, append-nil, Bool-cases, arith,
}
use rsh.Prelude.Bytes.{Bytes}
use rsh.FsTransport.{
  Chunk, Phase, looking, checked, Direction, arrive, take_file, give, look, read_chunk, next_chunk,
  serve, next_chunk, serve, Log,
}
use rsh.FsTransport.Chunks.{
  concat, nth, IsChunk, AllChunks, OptionFinal, contents, said, AtEnd, Open, Explained, Inv,
  take-suc, Picked, Taken, take_file-Taken,
}

module _ (all : List Bytes) (s : Direction) (log : Log) (k : ℕ) (inv : Inv all s log k) where
  pub arrive-Inv : (r : Option (Chunk × List Chunk)) → Picked all r → Inv all (arrive r s) log k
  arrive-Inv none p = inv
  arrive-Inv (some (c, cs)) p = record {
    accepted = inv.accepted;
    write_next = inv.write_next;
    read_next = inv.read_next;
    given = inv.given;
    within = inv.within;
    pending = inv.pending;
    travelling = p.1;
    visible = (p.0, inv.visible);
    final_on_way = inv.final_on_way;
    final_visible = inv.final_visible;
    final_read = inv.final_read;
    at_end = inv.at_end;
    still_open = inv.still_open;
  }

  give-Inv :
      (room : ℕ) (chunk : Bytes) (others : List Chunk)
      → s.read_buffer ≡ []
      → s.read_eof ≡ false
      → IsChunk all (s.read_seq, chunk)
      → AllChunks all others
      → (let (s', bytes) = give room chunk others s in
          Inv all s' (record log { received = log.received ++ bytes }) (suc k))
  give-Inv room chunk others empty running (i, e, found) rest =
      let same : i ≡ k = omega (arith, e, inv.read_next) in
      let (more, less) =
        take-suc all k chunk (subst (λ (j : ℕ). nth all j ≡ some chunk) same found) in
      let before : log.received ≡ concat (take k all) =
        sym (append-nil log.received)
        ∙ subst (λ (b : Bytes). log.received ++ b ≡ concat (take k all)) empty inv.given in
      record {
        accepted = inv.accepted;
        write_next = inv.write_next;
        read_next = omega (arith, inv.read_next);
        given =
            append_assoc log.received (take room chunk) (drop room chunk)
            ∙ ap (λ (b : Bytes). log.received ++ b) (take-append-drop room chunk)
            ∙ ap (λ (b : Bytes). b ++ chunk) before
            ∙ sym more;
        within = less;
        pending = inv.pending;
        travelling = inv.travelling;
        visible = rest;
        final_on_way = inv.final_on_way;
        final_visible = inv.final_visible;
        final_read = tt;
        at_end = inl running;
        still_open = reopen inv.still_open;
      }
    where
      reopen :
          (s.shutdown_done ≡ true) ⊎ Open s
          → (s.shutdown_done ≡ true) ⊎ Open (give room chunk others s).0
      reopen (inl closed) = inl closed
      reopen (inr (a, b, c, d)) = inr (a, b, refl, d)

  -- A step of the reader that gives out nothing.
  nothing-Inv :
      (phase : Phase) (eof : Bool)
      → OptionFinal all log (said phase)
      → AtEnd all (record s { phase = phase; read_eof = eof }) log k
      → (s.shutdown_done ≡ true) ⊎ Open (record s { phase = phase; read_eof = eof })
      → Inv all
          (record s { phase = phase; read_eof = eof })
          (record log { received = log.received ++ [] })
          k
  nothing-Inv phase eof final end open_ = record {
    accepted = inv.accepted;
    write_next = inv.write_next;
    read_next = inv.read_next;
    given = ap (λ (b : Bytes). b ++ s.read_buffer) (append-nil log.received) ∙ inv.given;
    within = inv.within;
    pending = inv.pending;
    travelling = inv.travelling;
    visible = inv.visible;
    final_on_way = inv.final_on_way;
    final_visible = inv.final_visible;
    final_read = final;
    at_end = end;
    still_open = open_;
  }

  -- The shutdown has been seen, or nothing of it is there.
  seen :
      (n : ℕ)
      → OptionFinal all log (some n)
      → (s.shutdown_done ≡ true) ⊎ Open s
      → contents s.sentinel ≡ some n ⊎ said s.phase ≡ some n
      → s.shutdown_done ≡ true
  seen n final (inl closed) there = closed
  seen n final (inr (a, b, c, d)) (inl there) = absurd (let never = sym b ∙ there in cc)
  seen n final (inr (a, b, c, d)) (inr there) = absurd (let never = sym c ∙ there in cc)

  look-Inv :
      (o : Option (Option ℕ))
      → s.sentinel ≡ o
      → s.phase ≡ looking
      → s.read_eof ≡ false
      → Explained
          (let (s', bytes) = look o s in (s', record log { received = log.received ++ bytes }))
  look-Inv none e at_start running =
      (all, k, nothing-Inv s.phase s.read_eof inv.final_read inv.at_end inv.still_open)
  look-Inv (some none) e at_start running =
      (all, k, nothing-Inv (checked none) s.read_eof tt (inl running) (reopen inv.still_open))
    where
      reopen :
          (s.shutdown_done ≡ true) ⊎ Open s
          → (s.shutdown_done ≡ true) ⊎ Open (record s { phase = checked none })
      reopen (inl closed) = inl closed
      reopen (inr (a, b, c, d)) = inr (a, b, refl, d)
  look-Inv (some (some n)) e at_start running =
      let there = ap contents e in
      let final = subst (OptionFinal all log) there inv.final_visible in
      (
        all,
        k,
        nothing-Inv (checked (some n)) s.read_eof final (inl running)
            (inl (seen n final inv.still_open (inl there))),
      )

  read_chunk-Inv :
      (room : ℕ) (phase : Phase) (r : Option (Bytes × List Chunk))
      → s.phase ≡ phase
      → Taken all s.read_seq r
      → s.read_buffer ≡ []
      → s.read_eof ≡ false
      → Explained (
          let (s', bytes) = read_chunk room phase r s in
          (s', record log { received = log.received ++ bytes }))
  read_chunk-Inv room looking (some (chunk, others)) e p empty running =
      (all, suc k, give-Inv room chunk others empty running p.0 p.1)
  read_chunk-Inv room (checked o) (some (chunk, others)) e p empty running =
      (all, suc k, give-Inv room chunk others empty running p.0 p.1)
  read_chunk-Inv room looking none e p empty running = look-Inv s.sentinel refl e running
  read_chunk-Inv room (checked none) none e p empty running =
      (all, k, nothing-Inv looking s.read_eof tt (inl running) (reopen inv.still_open))
    where
      reopen :
          (s.shutdown_done ≡ true) ⊎ Open s
          → (s.shutdown_done ≡ true) ⊎ Open (record s { phase = looking })
      reopen (inl closed) = inl closed
      reopen (inr (a, b, c, d)) = inr (a, b, refl, d)
  read_chunk-Inv room (checked (some max)) none e p empty running =
      let there = ap said e in
      let final = subst (OptionFinal all log) there inv.final_read in
      let closed = seen max final inv.still_open (inr there) in
      elim (Bool-cases (ltb max s.read_seq)) [
        | inl past ↦
            let le : max ≤ k = ground (arith, inv.read_next) in
            rw past (all, k, nothing-Inv looking true tt (inr (max, final, le, empty)) (inl closed))
        | inr waits ↦
            rw waits (all, k, nothing-Inv looking s.read_eof tt (inl running) (inl closed))
      ]

  -- The reader's buffer gives out what fits.
  buffer-Inv :
      (room : ℕ) (b : ℕ) (bs : Bytes)
      → s.read_buffer ≡ b ∷ bs
      → Inv all
          (record s { read_buffer = drop room (b ∷ bs) })
          (record log { received = log.received ++ take room (b ∷ bs) })
          k
  buffer-Inv room b bs e = record {
    accepted = inv.accepted;
    write_next = inv.write_next;
    read_next = inv.read_next;
    given =
        append_assoc log.received (take room (b ∷ bs)) (drop room (b ∷ bs))
        ∙ ap (λ (x : Bytes). log.received ++ x) (take-append-drop room (b ∷ bs) ∙ sym e)
        ∙ inv.given;
    within = inv.within;
    pending = inv.pending;
    travelling = inv.travelling;
    visible = inv.visible;
    final_on_way = inv.final_on_way;
    final_visible = inv.final_visible;
    final_read = inv.final_read;
    at_end = running inv.at_end;
    still_open = inv.still_open;
  }
    where
      running : AtEnd all s log k → AtEnd all (record s { read_buffer = drop room (b ∷ bs) }) log k
      running (inl no_end) = inl no_end
      running (inr (n, final, le, empty)) = absurd (let never = sym e ∙ empty in cc)

  next_chunk-Inv :
      (eof : Bool)
      → s.read_eof ≡ eof
      → s.read_buffer ≡ []
      → (room : ℕ)
      → Explained (
          let (s', bytes) = next_chunk eof room s in
          (s', record log { received = log.received ++ bytes }))
  next_chunk-Inv true e empty room =
      (all, k, nothing-Inv s.phase s.read_eof inv.final_read inv.at_end inv.still_open)
  next_chunk-Inv false e empty room =
      read_chunk-Inv room s.phase (take_file s.read_seq s.files) refl
        (take_file-Taken all s.read_seq s.files inv.visible) empty e

  pub serve-Inv :
      (buffer : Bytes) (room : ℕ)
      → s.read_buffer ≡ buffer
      → Explained (
          let (s', bytes) = serve buffer room s in
          (s', record log { received = log.received ++ bytes }))
  serve-Inv (b ∷ bs) room e = (all, k, buffer-Inv room b bs e)
  serve-Inv [] room e = next_chunk-Inv s.read_eof refl e room
