-- ===== src/Codec/Tests.antt =====
-- codec.rs on concrete frames.
use rsh.Prelude.{ℕ, ◌≡◌, refl, [], ◌∷◌, ◌++◌, arith, replicate, length, length-replicate}
use rsh.Prelude.Bytes.{Bytes, to_le, from_le}
use rsh.Error.{ok}
use rsh.Io.Memory.{memory_reader, memory_writer}
use rsh.Codec.{encode_frame, header_value, decode_payload, decode_frame, write_frame}
use rsh.Codec.RoundTrip.{decode_frame-write_frame}

abbrev hello : Bytes
hello = b'h' ∷ b'e' ∷ b'l' ∷ b'l' ∷ b'o' ∷ []

abbrev hello_frame : Bytes
hello_frame = 20 ∷ b'h' ∷ b'e' ∷ b'l' ∷ b'l' ∷ b'o' ∷ []

hello_written : write_frame memory_writer hello [] ≡ ok hello_frame
unfolding write_frame encode_frame
hello_written = refl

hello_decoded : decode_frame memory_reader hello_frame ≡ ok (hello, [])
unfolding decode_frame header_value decode_payload
hello_decoded = refl

two_byte_header : encode_frame (replicate 100 0xAB) ≡ 145 ∷ 1 ∷ replicate 100 0xAB
unfolding encode_frame to_le
two_byte_header = refl

two_byte_header_decoded :
    decode_frame memory_reader (145 ∷ 1 ∷ replicate 100 0xAB) ≡ ok (replicate 100 0xAB, [])
unfolding decode_frame header_value decode_payload from_le
two_byte_header_decoded = refl

decode_frame-write_frame_example :
    (r' : Bytes) × (decode_frame memory_reader (hello_frame ++ (9 ∷ [])) ≡ ok (hello, r'))
    × (r' ≡ 9 ∷ [])
decode_frame-write_frame_example =
    decode_frame-write_frame memory_writer memory_reader hello (9 ∷ []) [] hello_frame
      (hello_frame ++ (9 ∷ [])) (omega arith) hello_written refl

-- A long payload, kept shut: nothing walks it.
blanks : ℕ → Bytes
blanks n = replicate n 0

length-blanks : (n : ℕ) → length (blanks n) ≡ n
unfolding blanks
length-blanks n = length-replicate n 0
