-- ===== src/Io/Memory.antt =====
-- In-memory streams, which meet the interfaces: the reader and the writer are their bytes, and
-- nothing fails but a read past the end.
use rsh.Prelude.{
  ℕ, ◌≤◌, ◌<◌, ◌≡◌, refl, Option, none, some, ◌++◌, arith, leb, lt→leb, if◌then◌else◌, length, take,
  drop, take-append, drop-append, length-append, le→leb,
}
use rsh.Prelude.Bytes.{Bytes}
use rsh.Io.{Reader, Writer}

abbrev pub read_bytes : ℕ → Bytes → Option (Bytes × Bytes)
read_bytes n bs = if leb n (length bs) then some (take n bs, drop n bs) else none

pub read_bytes-append :
    (n : ℕ) (bs rest r : Bytes)
    → n ≡ length bs
    → r ≡ bs ++ rest
    → (r' : Bytes) × (read_bytes n r ≡ some (bs, r')) × (r' ≡ rest)
read_bytes-append n bs rest r l e =
    (rest, rw (e, le→leb n _ fits, take-append n bs rest l, drop-append n bs rest l), refl)
  where
    fits : n ≤ length (bs ++ rest)
    fits = omega (arith, length-append bs rest)

pub read_bytes_short : (n : ℕ) (r : Bytes) → length r < n → read_bytes n r ≡ none
read_bytes_short n r h = rw (lt→leb n (length r) h)

abbrev pub memory_reader : Reader
memory_reader = record {
  R = Bytes;
  pending = λ r. r;
  read_exact = read_bytes;
  read_exact_enough = read_bytes-append;
  read_exact_short = read_bytes_short;
}

pub memory_sent : (bs w w' : Bytes) → some (w ++ bs) ≡ some w' → w' ≡ w ++ bs
memory_sent bs w w' e = cc

pub memory_flushed : (w w' : Bytes) → some w ≡ some w' → w' ≡ w
memory_flushed w w' e = cc

abbrev pub memory_writer : Writer
memory_writer = record {
  W = Bytes;
  sent = λ w. w;
  write_all = λ bs w. some (w ++ bs);
  flush = some;
  sent-write_all = memory_sent;
  sent-flush = memory_flushed;
}
