-- ===== src/Wire/RoundTrip.antt =====
-- What a writer was given by the senders of wire.rs, the receivers of wire.rs give back.
use rsh.Prelude.{
  ℕ, ◌+◌, ◌%◌, ◌^◌, ◌≤◌, ◌≡◌, refl, sym, ap, ◌∙◌, inl, inr, some, ◌∷◌, ◌++◌, arith, append_assoc,
  le→ltb, length, drop, drop-append, Option-cases, ◌<◌,
}
use rsh.Prelude.Bytes.{Bytes, to_be, from_be, length-to_be, from_be-to_be}
use rsh.Error.{ok, context, context-eq-ok, bind-eq-ok, write_header, write_body, flush_failed}
use rsh.Io.{Reader, Writer}
use rsh.Wire.{
  max_message_size, Json, Zstd, send_message, recv_message, send_json, recv_json, pack, unpack,
  send_json_compressed, recv_json_compressed,
}

-- The bytes of one message on the wire.
abbrev pub framed : Bytes → Bytes
framed bytes = to_be 4 (length bytes % 2 ^ 32) ++ bytes

module _ (writer : Writer) where
  open writer use {W, sent, write_all, flush, sent-write_all, sent-flush}

  pub sent-send_message :
      (bytes : Bytes) (w w' : W)
      → send_message writer bytes w ≡ ok w'
      → sent w' ≡ sent w ++ framed bytes
  unfolding send_message
  sent-send_message bytes w w' h =
      let header : Bytes = to_be 4 (length bytes % 2 ^ 32) in
      let (w1, e1, h1) = bind-eq-ok (context write_header (write_all header w)) _ h in
      let (w2, e2, h2) = bind-eq-ok (context write_body (write_all bytes w1)) _ h1 in
      sent-flush w2 w' (context-eq-ok flush_failed _ h2)
      ∙ sent-write_all bytes w1 w2 (context-eq-ok write_body _ e2)
      ∙ ap (λ s. s ++ bytes) (sent-write_all header w w1 (context-eq-ok write_header _ e1))
      ∙ append_assoc (sent w) header bytes

  pub grew :
      (bytes : Bytes) (w w' : W)
      → send_message writer bytes w ≡ ok w'
      → drop (length (sent w)) (sent w') ≡ framed bytes
  grew bytes w w' h =
      ap (drop (length (sent w))) (sent-send_message bytes w w' h)
      ∙ drop-append (length (sent w)) (sent w) (framed bytes) refl

module _ (reader : Reader) where
  open reader use {R, pending, read_exact, read_exact_enough}

  pub recv_message-framed :
      (bytes rest : Bytes) (r : R)
      → length bytes ≤ max_message_size
      → pending r ≡ framed bytes ++ rest
      → (r' : R) × (recv_message reader r ≡ ok (bytes, r')) × (pending r' ≡ rest)
  unfolding recv_message
  recv_message-framed bytes rest r small p =
      let header : Bytes = to_be 4 (length bytes % 2 ^ 32) in
      let (r1, e1, p1) =
        read_exact_enough 4 header (bytes ++ rest) r (sym (length-to_be 4 _))
          (p ∙ append_assoc header bytes rest) in
      let (r2, e2, p2) = read_exact_enough (length bytes) bytes rest r1 refl p1 in
      let size : from_be header ≡ length bytes =
        from_be-to_be 4 (length bytes % 2 ^ 32) (omega arith) ∙ omega arith in
      (r2, rw (e1, size, le→ltb max_message_size (length bytes) small, e2), p2)

-- A message of at most 50 MB that `send_message` wrote without an error is what `recv_message`
-- returns, and the reader is left at the byte behind it. The reader's bytes are those by which the
-- writer grew, with anything behind them.
pub recv_message-send_message :
    (writer : Writer) (reader : Reader) (bytes rest : Bytes) (w w' : Writer.W writer)
    (r : Reader.R reader)
    → length bytes ≤ max_message_size
    → send_message writer bytes w ≡ ok w'
    → Reader.pending reader r ≡ drop (length (Writer.sent writer w)) (Writer.sent writer w') ++ rest
    → (r' : Reader.R reader) × (recv_message reader r ≡ ok (bytes, r'))
      × (Reader.pending reader r' ≡ rest)
recv_message-send_message writer reader bytes rest w w' r small h p =
    recv_message-framed reader bytes rest r small
      (p ∙ ap (λ s. s ++ rest) (grew writer bytes w w' h))

module _ (json : Json) (zstd : Zstd) where
  open json use {T, to_vec, from_slice, from_slice-to_vec}

  -- The packed form of a text is at most one byte longer, and unpacks to what the text stands for.
  unpack-pack :
      (v : T) (text message : Bytes)
      → to_vec v ≡ some text
      → pack zstd text ≡ ok message
      → (unpack json zstd message ≡ ok v) × (length message ≤ length text + 1)
  unfolding pack unpack
  unpack-pack v text message printed packed = elim (Option-cases (zstd.encode_all text)) [
    | inl failed ↦ ground (arith, from_slice-to_vec v text printed)
    | inr (short, e) ↦
        ground (arith, from_slice-to_vec v text printed, zstd.decode_all-encode_all text short e)
  ]

module _ (writer : Writer) (reader : Reader) (json : Json) where
  open json use {T, to_vec, from_slice, from_slice-to_vec}

  -- A value whose JSON text is at most 50 MB long, sent by `send_json` without an error, is what
  -- `recv_json` returns, and the reader is left behind it.
  recv_json-send_json :
      (v : T) (text rest : Bytes) (w w' : Writer.W writer) (r : Reader.R reader)
      → to_vec v ≡ some text
      → length text ≤ max_message_size
      → send_json writer json v w ≡ ok w'
      → Reader.pending reader r
        ≡ drop (length (Writer.sent writer w)) (Writer.sent writer w') ++ rest
      → (r' : Reader.R reader) × (recv_json reader json r ≡ ok (v, r'))
        × (Reader.pending reader r' ≡ rest)
  unfolding send_json recv_json
  recv_json-send_json v text rest w w' r printed small h p =
      let (r', e, p') =
        recv_message-send_message writer reader text rest w w' r small (rw printed at h) p in
      (r', rw (e, from_slice-to_vec v text printed), p')

  -- The same for `send_json_compressed` and `recv_json_compressed`, compressed or not, where the
  -- JSON text is shorter than 50 MB: the flag takes one byte.
  pub recv_json_compressed-send_json_compressed :
      (zstd : Zstd) (v : T) (text rest : Bytes) (w w' : Writer.W writer) (r : Reader.R reader)
      → to_vec v ≡ some text
      → length text < max_message_size
      → send_json_compressed writer json zstd v w ≡ ok w'
      → Reader.pending reader r
        ≡ drop (length (Writer.sent writer w)) (Writer.sent writer w') ++ rest
      → (r' : Reader.R reader) × (recv_json_compressed reader json zstd r ≡ ok (v, r'))
        × (Reader.pending reader r' ≡ rest)
  unfolding send_json_compressed recv_json_compressed
  recv_json_compressed-send_json_compressed zstd v text rest w w' r printed small h p =
      let (message, packed, sends) = bind-eq-ok (pack zstd text) _ (rw printed at h) in
      let (unpacked, fits) = unpack-pack json zstd v text message printed packed in
      let (r', e, p') =
        recv_message-send_message writer reader message rest w w' r (omega arith) sends p in
      (r', rw (e, unpacked), p')

  -- `recv_json_compressed` reads what a peer that knows no flag byte sends by `send_json`, as long
  -- as the JSON text begins with neither flag, which no JSON text does.
  recv_json_compressed-send_json :
      (zstd : Zstd) (v : T) (b : ℕ) (tail rest : Bytes) (w w' : Writer.W writer)
      (r : Reader.R reader)
      → to_vec v ≡ some (b ∷ tail)
      → 1 < b
      → length (b ∷ tail) ≤ max_message_size
      → send_json writer json v w ≡ ok w'
      → Reader.pending reader r
        ≡ drop (length (Writer.sent writer w)) (Writer.sent writer w') ++ rest
      → (r' : Reader.R reader) × (recv_json_compressed reader json zstd r ≡ ok (v, r'))
        × (Reader.pending reader r' ≡ rest)
  unfolding send_json recv_json_compressed unpack
  recv_json_compressed-send_json zstd v b tail rest w w' r printed lead small h p =
      let (r', e, p') =
        recv_message-send_message writer reader (b ∷ tail) rest w w' r small (rw printed at h) p in
      (r', rw e (ground (arith, from_slice-to_vec v (b ∷ tail) printed)), p')
