-- ===== src/Wire/Refusals.antt =====
-- What `recv_message` refuses, and what it can only return.
use rsh.Prelude.{
  ℕ, ◌%◌, ◌^◌, ◌≤◌, ◌<◌, ◌≡◌, sym, ap, ◌∙◌, inl, inr, ◌++◌, arith, lt→ltb, length, drop,
  append_assoc,
}
use rsh.Prelude.Bytes.{Bytes, to_be, from_be, length-to_be, from_be-to_be}
use rsh.Error.{ok, err, too_large, read_body}
use rsh.Io.{Reader, Writer, read_exact-cases}
use rsh.Wire.{max_message_size, send_message, recv_message}
use rsh.Wire.RoundTrip.{grew}

module _ (reader : Reader) where
  open reader use {R, pending, read_exact, read_exact_enough, read_exact_short}

  -- A header that announces more than 50 MB is refused, whatever follows it.
  recv_message-too_large :
      (n : ℕ) (rest : Bytes) (r : R)
      → max_message_size < n
      → n < 2 ^ 32
      → pending r ≡ to_be 4 n ++ rest
      → recv_message reader r ≡ err too_large
  unfolding recv_message
  recv_message-too_large n rest r large fits p =
      let (r1, e1, p1) = read_exact_enough 4 (to_be 4 n) rest r (sym (length-to_be 4 n)) p in
      rw (e1, from_be-to_be 4 n fits, lt→ltb max_message_size n large)

  -- A body that ends early is an error.
  recv_message_cut :
      (n : ℕ) (body : Bytes) (r : R)
      → n ≤ max_message_size
      → length body < n
      → pending r ≡ to_be 4 n ++ body
      → recv_message reader r ≡ err read_body
  unfolding recv_message
  recv_message_cut n body r small short p =
      let (r1, e1, p1) = read_exact_enough 4 (to_be 4 n) body r (sym (length-to_be 4 n)) p in
      let e2 = read_exact_short n r1 (rw p1 short) in
      rw (e1, from_be-to_be 4 n (omega arith)) (ground (arith, e2))

  -- What `recv_message` returns is at most 50 MB long and stands in the input behind four bytes
  -- that spell its length; the reader is left at the byte behind it.
  pub recv_message_sound :
      (bytes : Bytes) (r r' : R)
      → recv_message reader r ≡ ok (bytes, r')
      → (length bytes ≤ max_message_size)
        × ((header : Bytes) × (length header ≡ 4)
            × (from_be header ≡ length bytes)
            × (pending r ≡ header ++ (bytes ++ pending r')))
  unfolding recv_message
  recv_message_sound bytes r r' h = elim (read_exact-cases reader 4 r) [
    | inl (e, _) ↦ cc
    | inr (header, r1, e, l, p) ↦ elim (read_exact-cases reader (from_be header) r1) [
      | inl (e2, _) ↦ ground arith
      | inr (body, r2, e2, l2, p2) ↦
          (ground arith, (header, l, ground arith, ground (arith, p, p2)))
    ]
  ]

-- `send_message` takes a message of more than 50 MB (below 4 GB), and `recv_message` refuses it.
recv_message-send_message_large :
    (writer : Writer) (reader : Reader) (bytes rest : Bytes) (w w' : Writer.W writer)
    (r : Reader.R reader)
    → max_message_size < length bytes
    → length bytes < 2 ^ 32
    → send_message writer bytes w ≡ ok w'
    → Reader.pending reader r ≡ drop (length (Writer.sent writer w)) (Writer.sent writer w') ++ rest
    → recv_message reader r ≡ err too_large
recv_message-send_message_large writer reader bytes rest w w' r large fits h p =
    recv_message-too_large reader (length bytes % 2 ^ 32) (bytes ++ rest) r (omega arith)
      (omega arith) (p ∙ ap (λ s. s ++ rest) (grew writer bytes w w' h) ∙ append_assoc _ bytes rest)
