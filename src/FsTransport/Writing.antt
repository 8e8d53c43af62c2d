-- ===== src/FsTransport/Writing.antt =====
-- Each piece of a write, of the shutdown and of the sentinel keeps the account of the chunks.
use mathlib.Core.Path.{subst}
use rsh.Prelude.{
  ℕ, ◌+◌, ◌-◌, ◌≡◌, refl, sym, ap, ◌∙◌, ◌⊎◌, inl, inr, Bool, true, false, Option, none, some, List,
  [], ◌∷◌, ◌++◌, length, length-append, take_all, append-nil, arith,
}
use rsh.Prelude.Bytes.{Bytes}
use rsh.FsTransport.{
  Chunk, Direction, poll_write, accept, finish, accept, finish, Log, close, create, fill,
}
use rsh.FsTransport.Chunks.{
  concat, OptionChunk, OptionChunk, OptionFinal, contents, said, AtEnd, Open, Explained, Inv,
  nth_last, take-snoc, concat-snoc, AllChunks-snoc, IsFinal-snoc, OptionFinal-snoc,
}

module _ (all : List Bytes) (s : Direction) (log : Log) (k : ℕ) (inv : Inv all s log k) where
  accept-Inv :
      (fut : Option Chunk) (bytes : Bytes)
      → Explained
          (let (s', taken) = accept fut bytes s in (s', record log { sent = log.sent ++ taken }))
  accept-Inv (some _) bytes = (
    all,
    k,
    record {
      accepted = append-nil log.sent ∙ inv.accepted;
      write_next = inv.write_next;
      read_next = inv.read_next;
      given = inv.given;
      within = inv.within;
      pending = inv.pending;
      travelling = inv.travelling;
      visible = inv.visible;
      final_on_way = inv.final_on_way;
      final_visible = inv.final_visible;
      final_read = inv.final_read;
      at_end = inv.at_end;
      still_open = inv.still_open;
    },
  )
  accept-Inv none bytes =
      let log' : Log = record log { sent = log.sent ++ bytes } in
      (
        all ++ (bytes ∷ []),
        k,
        record {
          accepted = ap (λ (b : Bytes). b ++ bytes) inv.accepted ∙ sym (concat-snoc all bytes);
          write_next = omega (arith, inv.write_next, length-append all (bytes ∷ []));
          read_next = inv.read_next;
          given = inv.given ∙ ap concat (sym (take-snoc k all bytes inv.within));
          within = omega (arith, inv.within, length-append all (bytes ∷ []));
          pending = (length all, inv.write_next, nth_last all bytes);
          travelling = AllChunks-snoc all bytes s.on_way inv.travelling;
          visible = AllChunks-snoc all bytes s.files inv.visible;
          final_on_way =
              OptionFinal-snoc all bytes log log' refl s.sentinel_on_way inv.final_on_way;
          final_visible =
              OptionFinal-snoc all bytes log log' refl (contents s.sentinel) inv.final_visible;
          final_read = OptionFinal-snoc all bytes log log' refl (said s.phase) inv.final_read;
          at_end = longer inv.at_end;
          still_open = inv.still_open;
        },
      )
    where
      longer :
          AtEnd all s log k
          → AtEnd
              (all ++ (bytes ∷ []))
              (record s { write_seq = s.write_seq + 1; write_fut = some (s.write_seq, bytes) })
              (record log { sent = log.sent ++ bytes })
              k
      longer (inl running) = inl running
      longer (inr (n, final, le, empty)) = inr (
        n,
        IsFinal-snoc all bytes log (record log { sent = log.sent ++ bytes }) refl n final,
        le,
        empty,
      )

  pub poll_write-Inv :
      (bytes : Bytes)
      → Explained
          (let (s', taken) = poll_write bytes s in (s', record log { sent = log.sent ++ taken }))
  poll_write-Inv [] = accept-Inv (some (0, [])) []
  poll_write-Inv (b ∷ bs) = accept-Inv s.write_fut (b ∷ bs)

  pub finish-Inv :
      (fut : Option Chunk) (renamed : Bool)
      → s.write_fut ≡ fut
      → Inv all (finish fut renamed s) log k
  finish-Inv none renamed e = inv
  finish-Inv (some chunk) true e = record {
    accepted = inv.accepted;
    write_next = inv.write_next;
    read_next = inv.read_next;
    given = inv.given;
    within = inv.within;
    pending = tt;
    travelling = (subst (OptionChunk all) e inv.pending, inv.travelling);
    visible = inv.visible;
    final_on_way = inv.final_on_way;
    final_visible = inv.final_visible;
    final_read = inv.final_read;
    at_end = inv.at_end;
    still_open = inv.still_open;
  }
  finish-Inv (some chunk) false e = record {
    accepted = inv.accepted;
    write_next = inv.write_next;
    read_next = inv.read_next;
    given = inv.given;
    within = inv.within;
    pending = tt;
    travelling = inv.travelling;
    visible = inv.visible;
    final_on_way = inv.final_on_way;
    final_visible = inv.final_visible;
    final_read = inv.final_read;
    at_end = inv.at_end;
    still_open = inv.still_open;
  }

  pub close-Inv :
      (fut : Option Chunk) (done : Bool)
      → s.shutdown_done ≡ done
      → Inv all (close fut done s log).0 (close fut done s log).1 k
  close-Inv (some _) done e = inv
  close-Inv none true e = inv
  close-Inv none false e = opening inv.still_open
    where
      opening :
          (s.shutdown_done ≡ true) ⊎ Open s
          → Inv all (close none false s log).0 (close none false s log).1 k
      opening (inl closed) = absurd (let never = sym e ∙ closed in cc)
      opening (inr (a, b, c, d)) = record {
        accepted = inv.accepted;
        write_next = inv.write_next;
        read_next = inv.read_next;
        given = inv.given;
        within = inv.within;
        pending = inv.pending;
        travelling = inv.travelling;
        visible = inv.visible;
        final_on_way = (
          omega (arith, inv.write_next),
          ap some (
              inv.accepted
              ∙ ap concat (sym (take_all (s.write_seq - 1) all (omega (arith, inv.write_next))))),
        );
        final_visible = subst (OptionFinal all (record log { closed = some log.sent })) (sym b) tt;
        final_read = subst (OptionFinal all (record log { closed = some log.sent })) (sym c) tt;
        at_end = inl d;
        still_open = inl refl;
      }

  pub create-Inv : (o : Option (Option ℕ)) → s.sentinel ≡ o → Inv all (create o s) log k
  create-Inv (some _) e = inv
  create-Inv none e = record {
    accepted = inv.accepted;
    write_next = inv.write_next;
    read_next = inv.read_next;
    given = inv.given;
    within = inv.within;
    pending = inv.pending;
    travelling = inv.travelling;
    visible = inv.visible;
    final_on_way = inv.final_on_way;
    final_visible = tt;
    final_read = inv.final_read;
    at_end = inv.at_end;
    still_open = reopen inv.still_open;
  }
    where
      reopen :
          (s.shutdown_done ≡ true) ⊎ Open s
          → (s.shutdown_done ≡ true) ⊎ Open (record s { sentinel = some none })
      reopen (inl closed) = inl closed
      reopen (inr (a, b, c, d)) = inr (a, refl, c, d)

  pub fill-Inv : (o : Option ℕ) → s.sentinel_on_way ≡ o → Inv all (fill o s) log k
  fill-Inv none e = inv
  fill-Inv (some n) e = record {
    accepted = inv.accepted;
    write_next = inv.write_next;
    read_next = inv.read_next;
    given = inv.given;
    within = inv.within;
    pending = inv.pending;
    travelling = inv.travelling;
    visible = inv.visible;
    final_on_way = tt;
    final_visible = subst (OptionFinal all log) e inv.final_on_way;
    final_read = inv.final_read;
    at_end = inv.at_end;
    still_open = closed inv.still_open;
  }
    where
      closed : (s.shutdown_done ≡ true) ⊎ Open s → (s.shutdown_done ≡ true) ⊎ Open (fill (some n) s)
      closed (inl done) = inl done
      closed (inr (a, b, c, d)) = absurd (let never = sym a ∙ e in cc)
