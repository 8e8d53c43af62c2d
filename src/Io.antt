-- ===== src/Io.antt =====
-- The byte streams that the program reads and writes (`tokio::io::AsyncRead` and `AsyncWrite`),
-- as parameters: operations with their documented behaviour. `pending r` are the bytes that `r`
-- still delivers before its end or its first error, `sent w` those that `w` has taken so far.
pub mod Memory
use rsh.Prelude.{
  ℕ, ◌<◌, ◌≡◌, sym, ◌⊎◌, inl, inr, Option, none, some, ◌++◌, arith, length, take, drop,
  take-append-drop, length-take,
}
use rsh.Prelude.Bytes.{Bytes}
use native.Mathlib.Decide.{dec_lt}

pub record Reader : Type 1 where
  pub R : Type 0
  pub pending : R → Bytes
  -- `read_exact` into a buffer of n bytes; `none` is an error, an early end included
  pub read_exact : ℕ → R → Option (Bytes × R)
  pub read_exact_enough :
      (n : ℕ) (bs rest : Bytes) (r : R)
      → n ≡ length bs
      → pending r ≡ bs ++ rest
      → (r' : R) × (read_exact n r ≡ some (bs, r')) × (pending r' ≡ rest)
  pub read_exact_short : (n : ℕ) (r : R) → length (pending r) < n → read_exact n r ≡ none

pub record Writer : Type 1 where
  pub W : Type 0
  pub sent : W → Bytes
  pub write_all : Bytes → W → Option W
  pub flush : W → Option W
  pub sent-write_all : (bs : Bytes) (w w' : W) → write_all bs w ≡ some w' → sent w' ≡ sent w ++ bs
  pub sent-flush : (w w' : W) → flush w ≡ some w' → sent w' ≡ sent w

module _ (reader : Reader) where
  open reader use {R, pending, read_exact, read_exact_enough, read_exact_short}

  -- A read of n bytes either fails, with fewer than n bytes left, or delivers the next n bytes.
  pub read_exact-cases :
      (n : ℕ) (r : R)
      → (read_exact n r ≡ none) × (length (pending r) < n)
        ⊎ ((bs : Bytes) × (r' : R) × (read_exact n r ≡ some (bs, r'))
            × (length bs ≡ n)
            × (pending r ≡ bs ++ pending r'))
  read_exact-cases n r = elim (dec_lt (length (pending r)) n) [
    | yes h ↦ inl (read_exact_short n r h, h)
    | no h ↦
        let l : n ≡ length (take n (pending r)) = omega (arith, length-take n (pending r)) in
        let (r', e, p) =
          read_exact_enough n (take n (pending r)) (drop n (pending r)) r l
            (sym (take-append-drop n (pending r))) in
        inr (take n (pending r), r', e, sym l, rw p (sym (take-append-drop n (pending r))))
  ]
