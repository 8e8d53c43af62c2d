-- ===== src/FsTransport/Tests.antt =====
-- fs_transport.rs on a concrete run.
use rsh.Prelude.{arith, some, ◌≡◌, refl, true, [], ◌∷◌, ◌++◌, List}
use rsh.FsTransport.{
  Direction, Event, write, written, shutdown, chunk_arrives, sentinel_created, sentinel_arrives,
  read, opened, step, run,
}
use rsh.FsTransport.Drain.{Settled, Drained, reads, run-Settled}
use rsh.FsTransport.Order.{new_log, Delivered, run_lem}

-- Two chunks that arrive in the wrong order, behind the sentinel.
abbrev late_chunks : List Event
late_chunks =
    write (1 ∷ 2 ∷ 3 ∷ [])
    ∷ written true
    ∷ write (4 ∷ [])
    ∷ written true
    ∷ shutdown
    ∷ sentinel_created
    ∷ sentinel_arrives
    ∷ read 2
    ∷ chunk_arrives 0
    ∷ read 2
    ∷ chunk_arrives 0
    ∷ read 2
    ∷ read 2
    ∷ read 2
    ∷ []

all_received : (run late_chunks opened new_log).1.received ≡ 1 ∷ 2 ∷ 3 ∷ 4 ∷ []
unfolding run step
all_received = refl

end_seen : (run (late_chunks ++ (read 2 ∷ read 2 ∷ [])) opened new_log).0.read_eof ≡ true
unfolding run step
end_seen = refl

run_lem_example : Delivered (run late_chunks opened new_log)
run_lem_example = run_lem late_chunks

-- Two chunks and the sentinel, all of it arrived.
abbrev arrived : List Event
arrived =
    write (1 ∷ 2 ∷ 3 ∷ [])
    ∷ written true
    ∷ write (4 ∷ [])
    ∷ written true
    ∷ shutdown
    ∷ chunk_arrives 1
    ∷ chunk_arrives 0
    ∷ sentinel_created
    ∷ sentinel_arrives
    ∷ []

abbrev at_rest : Direction
at_rest = record opened {
  write_seq = 3;
  shutdown_done = true;
  files = (2, 4 ∷ []) ∷ (1, 1 ∷ 2 ∷ 3 ∷ []) ∷ [];
  sentinel = some (some 2);
}

all_arrived : (run arrived opened new_log).0 ≡ at_rest
unfolding run step
all_arrived = refl

at_rest-Settled : Settled at_rest ((1 ∷ 2 ∷ 3 ∷ []) ∷ (4 ∷ []) ∷ [])
at_rest-Settled = record {
  last = 2;
  running = refl;
  sentinel_there = refl;
  last_chunk = refl;
  knows = tt;
  stored = ((2, 4 ∷ []) ∷ [], refl, ([], refl, refl));
}

run-Settled_example : Drained (run (reads 12 2) at_rest new_log) (1 ∷ 2 ∷ 3 ∷ 4 ∷ [])
run-Settled_example =
    run-Settled 2 (omega arith) 12 at_rest new_log ((1 ∷ 2 ∷ 3 ∷ []) ∷ (4 ∷ []) ∷ [])
      at_rest-Settled (omega arith)
