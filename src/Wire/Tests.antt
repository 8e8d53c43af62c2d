-- ===== src/Wire/Tests.antt =====
-- wire.rs on concrete messages: tests, and the theorems at inputs that meet their hypotheses.
use rsh.Prelude.{
  ℕ, ◌≡◌, refl, some, [], ◌∷◌, ◌++◌, arith, ◌≤◌, Option, none, replicate, length, length-replicate,
  if◌then◌else◌, ◌==◌, ◌%◌, ◌^◌,
}
use rsh.Prelude.Bytes.{Bytes, to_be, from_be}
use rsh.Error.{ok}
use rsh.Io.Memory.{memory_reader, memory_writer}
use rsh.Wire.{
  max_message_size, Json, Zstd, send_message, recv_message, send_json, send_json_compressed,
  recv_json_compressed,
}
use rsh.Wire.RoundTrip.{recv_message-send_message, recv_json_compressed-send_json_compressed}
use rsh.Wire.Refusals.{recv_message_sound}

abbrev hello : Bytes
hello = b'h' ∷ b'i' ∷ []

abbrev hello_frame : Bytes
hello_frame = 0 ∷ 0 ∷ 0 ∷ 2 ∷ b'h' ∷ b'i' ∷ []

hello_sent : send_message memory_writer hello [] ≡ ok hello_frame
unfolding send_message to_be
hello_sent = refl

hello_received : recv_message memory_reader hello_frame ≡ ok (hello, [])
unfolding recv_message from_be
hello_received = refl

recv_message-send_message_example :
    (r' : Bytes) × (recv_message memory_reader (hello_frame ++ (7 ∷ [])) ≡ ok (hello, r'))
    × (r' ≡ 7 ∷ [])
recv_message-send_message_example =
    recv_message-send_message memory_writer memory_reader hello (7 ∷ []) [] hello_frame
      (hello_frame ++ (7 ∷ [])) (omega arith) hello_sent refl

-- A type of values with two members, and their texts.
data Flag : Type 0 where
  off on : Flag

abbrev flag_text : Flag → Option Bytes
flag_text off = some (b'0' ∷ [])
flag_text on = some (b'1' ∷ [])

abbrev flag_of : Bytes → Option Flag
flag_of [] = none
flag_of (b ∷ bs) = if b == b'0' then some off else if b == b'1' then some on else none

flag_of-flag_text : (v : Flag) (text : Bytes) → flag_text v ≡ some text → flag_of text ≡ some v
flag_of-flag_text v text h = ground arith

abbrev flag_json : Json
flag_json = record {
  T = Flag;
  to_vec = flag_text;
  from_slice = flag_of;
  from_slice-to_vec = flag_of-flag_text;
}

-- A compressor that stores the bytes as they are.
stored_back : (bs packed : Bytes) → some bs ≡ some packed → some packed ≡ some bs
stored_back bs packed h = cc

abbrev stored : Zstd
stored = record { encode_all = some; decode_all = some; decode_all-encode_all = stored_back }

abbrev on_json : Bytes
on_json = 0 ∷ 0 ∷ 0 ∷ 1 ∷ b'1' ∷ []

abbrev on_compressed : Bytes
on_compressed = 0 ∷ 0 ∷ 0 ∷ 2 ∷ 0 ∷ b'1' ∷ []

on_sent : send_json memory_writer flag_json on [] ≡ ok on_json
unfolding send_json send_message to_be
on_sent = refl

on_sent_compressed : send_json_compressed memory_writer flag_json stored on [] ≡ ok on_compressed
unfolding send_json_compressed send_message to_be
on_sent_compressed = refl

recv_json_compressed-send_json_compressed_example :
    (r' : Bytes) × (recv_json_compressed memory_reader flag_json stored on_compressed ≡ ok (on, r'))
    × (r' ≡ [])
recv_json_compressed-send_json_compressed_example =
    recv_json_compressed-send_json_compressed memory_writer memory_reader flag_json stored on
      (b'1' ∷ []) [] [] on_compressed on_compressed refl (omega arith) on_sent_compressed refl

recv_message_sound_example :
    (length hello ≤ max_message_size)
    × ((header : Bytes) × (length header ≡ 4)
        × (from_be header ≡ length hello)
        × (hello_frame ≡ header ++ (hello ++ [])))
recv_message_sound_example = recv_message_sound memory_reader hello hello_frame [] hello_received

-- A long message, kept shut: nothing walks it.
zeros : ℕ → Bytes
zeros n = replicate n 0

length-zeros : (n : ℕ) → length (zeros n) ≡ n
unfolding zeros
length-zeros n = length-replicate n 0

abbrev zeros_frame : Bytes
zeros_frame = to_be 4 (length (zeros 52428801) % 2 ^ 32) ++ zeros 52428801

zeros_sent : send_message memory_writer (zeros 52428801) [] ≡ ok zeros_frame
unfolding send_message
zeros_sent = refl
