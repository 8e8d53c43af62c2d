-- ===== src/FsTransport/Order.antt =====
-- Whatever the order of the events, the reader gets the writer's bytes in order, and an end of file
-- only behind the last of them.
use rsh.Prelude.{
  ℕ, zero, suc, ◌≤◌, ◌≡◌, refl, sym, ap, ◌∙◌, ◌⊎◌, inl, inr, false, none, some, List, [], ◌∷◌, ◌++◌,
  take, drop, append_assoc, append-nil, arith,
}
use rsh.Prelude.Bytes.{Bytes}
use rsh.FsTransport.{
  Direction, opened, pick, Event, write, written, shutdown, chunk_arrives, sentinel_created,
  sentinel_arrives, read, Log, step, run,
}
use rsh.FsTransport.Chunks.{concat, Explained, Inv, pick-Picked}
use rsh.FsTransport.Reading.{arrive-Inv, serve-Inv}
use rsh.FsTransport.Writing.{poll_write-Inv, finish-Inv, close-Inv, create-Inv, fill-Inv}

module _ (all : List Bytes) (s : Direction) (log : Log) (k : ℕ) (inv : Inv all s log k) where
  step-Explained : (e : Event) → Explained (step e s log)
  unfolding step
  step-Explained (write bytes) = poll_write-Inv all s log k inv bytes
  step-Explained (written renamed) = (all, k, finish-Inv all s log k inv s.write_fut renamed refl)
  step-Explained shutdown = (all, k, close-Inv all s log k inv s.write_fut s.shutdown_done refl)
  step-Explained (chunk_arrives i) = (
    all,
    k,
    arrive-Inv all s log k inv (pick i s.on_way) (pick-Picked all i s.on_way inv.travelling),
  )
  step-Explained sentinel_created = (all, k, create-Inv all s log k inv s.sentinel refl)
  step-Explained sentinel_arrives = (all, k, fill-Inv all s log k inv s.sentinel_on_way refl)
  step-Explained (read room) = serve-Inv all s log k inv s.read_buffer room refl

abbrev pub new_log : Log
new_log = record { sent = []; received = []; closed = none }

opened-Inv : Inv [] opened new_log 0
opened-Inv = record {
  accepted = refl;
  write_next = refl;
  read_next = refl;
  given = refl;
  within = omega arith;
  pending = tt;
  travelling = tt;
  visible = tt;
  final_on_way = tt;
  final_visible = tt;
  final_read = tt;
  at_end = inl refl;
  still_open = inr (refl, refl, refl, refl);
}

run-Explained :
    (events : List Event) (s : Direction) (log : Log)
    → Explained (s, log)
    → Explained (run events s log)
unfolding run
run-Explained [] s log explained = explained
run-Explained (e ∷ events) s log (all, k, inv) =
    run-Explained events (step e s log).0 (step e s log).1 (step-Explained all s log k inv e)

concat-take-drop :
    (n : ℕ) (all : List Bytes) → concat (take n all) ++ concat (drop n all) ≡ concat all
concat-take-drop zero all = refl
concat-take-drop (suc n) [] = refl
concat-take-drop (suc n) (c ∷ cs) =
    append_assoc c (concat (take n cs)) (concat (drop n cs))
    ∙ ap (λ (b : Bytes). c ++ b) (concat-take-drop n cs)

take-take : (n k : ℕ) (all : List Bytes) → n ≤ k → take n (take k all) ≡ take n all
take-take zero k all le = refl
take-take (suc n) zero all le = absurd (omega arith)
take-take (suc n) (suc k) [] le = refl
take-take (suc n) (suc k) (c ∷ cs) le =
    ap (λ (l : List Bytes). c ∷ l) (take-take n k cs (omega arith))

-- What the reader was given, and what it knows at the end of the file.
abbrev pub Delivered : Direction × Log → Type 0
Delivered (s, log) =
    ((rest : Bytes) × (log.received ++ rest ≡ log.sent))
    × ((s.read_eof ≡ false)
        ⊎ ((before : Bytes) × (more : Bytes) × (log.closed ≡ some before)
            × (log.received ≡ before ++ more)))

Explained-Delivered : (state : Direction × Log) → Explained state → Delivered state
Explained-Delivered (s, log) (all, k, inv) = (
  (
    s.read_buffer ++ concat (drop k all),
    sym (append_assoc log.received s.read_buffer (concat (drop k all)))
        ∙ ap (λ (b : Bytes). b ++ concat (drop k all)) inv.given
        ∙ concat-take-drop k all
        ∙ sym inv.accepted,
  ),
  elim inv.at_end [
    | inl running ↦ inl running
    | inr (n, final, le, empty) ↦ inr (
      concat (take n all),
      concat (drop n (take k all)),
      final.1,
      sym (append-nil log.received)
          ∙ ap (λ (b : Bytes). log.received ++ b) (sym empty)
          ∙ inv.given
          ∙ sym (concat-take-drop n (take k all))
          ∙ ap (λ (l : List Bytes). concat l ++ concat (drop n (take k all)))
              (take-take n k all le),
    )
  ],
)

-- Over any sequence of writes, reads, a shutdown, and arrivals of chunks and of the sentinel in any
-- order, the reader has been given the beginning of what the writer accepted, byte for byte; and
-- once it reports the end of the file, it has been given everything that was accepted before the
-- shutdown.
pub run_lem : (events : List Event) → Delivered (run events opened new_log)
run_lem events =
    Explained-Delivered (run events opened new_log)
      (run-Explained events opened new_log ([], 0, opened-Inv))
