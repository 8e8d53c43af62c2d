-- ===== src/FsTransport.antt =====
-- crates/mrsh-core/src/fs_transport.rs: one direction of an FsStream. The writer's fields, the shared
-- directory and the reader's fields are one state; each poll, and each thing that the directory or a
-- future does in between, is one event. What was written reaches the reader's view of the directory
-- later, in any order. Read errors of the file system are not modelled.
pub mod Chunks
pub mod Reading
pub mod Writing
pub mod Order
pub mod Drain
mod Tests
use rsh.Prelude.{
  ℕ, zero, suc, ◌+◌, ◌-◌, Bool, true, false, ◌&&◌, Option, none, some, List, [], ◌∷◌, ◌++◌, ◌==◌,
  ltb, if◌then◌else◌, take, drop,
}
use rsh.Prelude.Bytes.{Bytes}

-- `NNNNNNNN.bin`: a sequence number and the content
abbrev pub Chunk : Type 0
Chunk = ℕ × Bytes

-- Where the loop of `read_chunk_fut` stands: before its first read of the file, or behind the read
-- of the sentinel, with what that said.
pub data Phase : Type 0 where
  looking : Phase
  checked : Option ℕ → Phase

pub record Direction : Type 0 where
  pub write_seq : ℕ
  pub write_fut : Option Chunk
  pub shutdown_done : Bool
  -- renamed by the writer, and not yet seen by the reader
  pub on_way : List Chunk
  pub sentinel_on_way : Option ℕ
  -- what the reader sees
  pub files : List Chunk
  -- the sentinel file; an empty one carries no number
  pub sentinel : Option (Option ℕ)
  pub read_seq : ℕ
  pub read_eof : Bool
  -- `read_buffer` from `read_cursor` on
  pub read_buffer : Bytes
  pub phase : Phase

-- `FsStream::open`
abbrev pub opened : Direction
opened = record {
  write_seq = 1;
  write_fut = none;
  shutdown_done = false;
  on_way = [];
  sentinel_on_way = none;
  files = [];
  sentinel = none;
  read_seq = 1;
  read_eof = false;
  read_buffer = [];
  phase = looking;
}

-- `poll_write`, and what it accepts. A write that is under way makes it pend.
abbrev pub accept : Option Chunk → Bytes → Direction → Direction × Bytes
accept (some _) bytes s = (s, [])
accept none bytes s =
    (record s { write_seq = s.write_seq + 1; write_fut = some (s.write_seq, bytes) }, bytes)

abbrev pub poll_write : Bytes → Direction → Direction × Bytes
poll_write [] s = (s, [])
poll_write (b ∷ bs) s = accept s.write_fut (b ∷ bs) s

-- The future of `write_chunk_fut` is done: the file is renamed, or lost with an error.
abbrev pub finish : Option Chunk → Bool → Direction → Direction
finish none renamed s = s
finish (some chunk) true s = record s { write_fut = none; on_way = chunk ∷ s.on_way }
finish (some chunk) false s = record s { write_fut = none }

abbrev pub finish_write : Bool → Direction → Direction
finish_write renamed s = finish s.write_fut renamed s

-- The chunk at a place of the list, and the others.
abbrev pub pick : ℕ → List Chunk → Option (Chunk × List Chunk)
pick i [] = none
pick zero (c ∷ cs) = some (c, cs)
pick (suc i) (c ∷ cs) = elim (pick i cs) [ none ↦ none | some (d, ds) ↦ some (d, c ∷ ds) ]

abbrev pub arrive : Option (Chunk × List Chunk) → Direction → Direction
arrive none s = s
arrive (some (c, cs)) s = record s { on_way = cs; files = c ∷ s.files }

-- The file of a number, read and removed.
abbrev pub take_file : ℕ → List Chunk → Option (Bytes × List Chunk)
take_file seq [] = none
take_file seq ((q, bytes) ∷ cs) =
    if q == seq
    then some (bytes, cs)
    else elim (take_file seq cs) [ none ↦ none | some (d, ds) ↦ some (d, (q, bytes) ∷ ds) ]

-- `Poll::Ready(Ok(Some(chunk)))`: as much as fits goes out, the rest is buffered.
abbrev pub give : ℕ → Bytes → List Chunk → Direction → Direction × Bytes
give room chunk others s = (
  record s {
    files = others;
    read_seq = s.read_seq + 1;
    read_buffer = drop room chunk;
    phase = looking;
  },
  take room chunk,
)

-- After a miss: `try_exists(&sentinel)`, and what it says.
abbrev pub look : Option (Option ℕ) → Direction → Direction × Bytes
look none s = (s, [])
look (some final_seq) s = (record s { phase = checked final_seq }, [])

-- One piece of the loop of `read_chunk_fut`; a miss before the sentinel ends in the sleep.
abbrev pub read_chunk : ℕ → Phase → Option (Bytes × List Chunk) → Direction → Direction × Bytes
read_chunk room _ (some (chunk, others)) s = give room chunk others s
read_chunk room looking none s = look s.sentinel s
read_chunk room (checked none) none s = (record s { phase = looking }, [])
read_chunk room (checked (some max)) none s =
    if ltb max s.read_seq
    then (record s { phase = looking; read_eof = true }, [])
    else (record s { phase = looking }, [])

-- `poll_read` with room for some bytes, and what it gives out.
abbrev pub next_chunk : Bool → ℕ → Direction → Direction × Bytes
next_chunk true room s = (s, [])
next_chunk false room s = read_chunk room s.phase (take_file s.read_seq s.files) s

abbrev pub serve : Bytes → ℕ → Direction → Direction × Bytes
serve (b ∷ bs) room s = (record s { read_buffer = drop room (b ∷ bs) }, take room (b ∷ bs))
serve [] room s = next_chunk s.read_eof room s

abbrev pub poll_read : ℕ → Direction → Direction × Bytes
poll_read room s = serve s.read_buffer room s

pub data Event : Type 0 where
  write : Bytes → Event
  written : Bool → Event
  shutdown : Event
  chunk_arrives : ℕ → Event
  sentinel_created sentinel_arrives : Event
  read : ℕ → Event

-- The bytes that were accepted, those that were given out, and those accepted before the shutdown.
pub record Log : Type 0 where
  pub sent : Bytes
  pub received : Bytes
  pub closed : Option Bytes

-- `poll_shutdown`, which pends while a write is under way. The future of `signal_eof_fut` is one step;
-- its file reaches the reader later.
abbrev pub close : Option Chunk → Bool → Direction → Log → Direction × Log
close (some _) done s log = (s, log)
close none true s log = (s, log)
close none false s log = (
  record s { shutdown_done = true; sentinel_on_way = some (s.write_seq - 1) },
  record log { closed = some log.sent },
)

abbrev pub poll_shutdown : Direction → Log → Direction × Log
poll_shutdown s log = close s.write_fut s.shutdown_done s log

-- The reader sees the sentinel before its content.
abbrev pub create : Option (Option ℕ) → Direction → Direction
create (some _) s = s
create none s = record s { sentinel = some none }

-- The reader sees the content.
abbrev pub fill : Option ℕ → Direction → Direction
fill none s = s
fill (some n) s = record s { sentinel_on_way = none; sentinel = some (some n) }

unfoldable pub step : Event → Direction → Log → Direction × Log
step (write bytes) s log =
    let (s', accepted) = poll_write bytes s in (s', record log { sent = log.sent ++ accepted })
step (written renamed) s log = (finish_write renamed s, log)
step shutdown s log = poll_shutdown s log
step (chunk_arrives i) s log = (arrive (pick i s.on_way) s, log)
step sentinel_created s log = (create s.sentinel s, log)
step sentinel_arrives s log = (fill s.sentinel_on_way s, log)
step (read room) s log =
    let (s', bytes) = poll_read room s in (s', record log { received = log.received ++ bytes })

unfoldable pub run : List Event → Direction → Log → Direction × Log
unfolding step
run [] s log = (s, log)
run (e ∷ events) s log = let (s', log') = step e s log in run events s' log'
