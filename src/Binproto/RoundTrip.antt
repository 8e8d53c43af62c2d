-- ===== src/Binproto/RoundTrip.antt =====
-- Each message of binproto.rs is parsed back to what it was built from.
use rsh.Prelude.{
  ℕ, zero, suc, ◌+◌, ◌%◌, ◌^◌, ◌<◌, ◌≤◌, ◌≡◌, refl, sym, ap, ◌∙◌, List, [], ◌∷◌, ◌++◌, arith, min,
  take, drop, length, append_assoc, append-nil, length-append, length-take, le→ltb, slice, slice_at,
  drop_behind, length_at,
}
use rsh.Prelude.Bytes.{Bytes, to_be, from_be, to_le, length-to_be, from_be-to_be}
use rsh.Error.{ok}
use rsh.Io.{Reader, Writer}
use rsh.Wire.{max_message_size}
use rsh.Wire.RoundTrip.{recv_message-send_message}
use rsh.Binproto.{send_msg, recv_msg}
use rsh.Binproto.Messages.{
  build_auth_request, parse_auth_request, build_exec, parse_exec, build_exec_result,
  parse_exec_result, build_push_start, parse_push_start, build_log_query, parse_log_query,
  build_log_end, parse_log_end,
}
use rsh.Binproto.Fields.{
  str_field, blob_field, encode_str-field, encode_blob-field, byte_at_here, decode_str_at,
  decode_blob_at, decode_u32_le_at, decode_u64_le_at,
}
use rsh.Binproto.Lists.{Fits, AllFit, strs_field, encode_strs-field, counted_strs_at}

strs_field-take-drop :
    (n : ℕ) (ss : List Bytes) → strs_field ss ≡ strs_field (take n ss) ++ strs_field (drop n ss)
strs_field-take-drop zero ss = refl
strs_field-take-drop (suc n) [] = refl
strs_field-take-drop (suc n) (s ∷ ss) =
    ap (λ f. str_field s ++ f) (strs_field-take-drop n ss)
    ∙ sym (append_assoc (str_field s) (strs_field (take n ss)) (strs_field (drop n ss)))

AllFit-take : (n : ℕ) (ss : List Bytes) → AllFit ss → AllFit (take n ss)
AllFit-take zero ss all = tt
AllFit-take (suc n) [] all = tt
AllFit-take (suc n) (s ∷ ss) all = (all.0, AllFit-take n ss all.1)

-- `parse_auth_request` gives back the key and the version that `build_auth_request` was given, and
-- as many of the capabilities, from the front, as their number modulo 256 says: all of them if
-- there are at most 255. The key is below 4 GB and the strings below 64 KB.
pub parse-build_auth_request :
    (pubkey version : Bytes) (caps : List Bytes)
    → length pubkey < 2 ^ 32
    → Fits version
    → AllFit caps
    → parse_auth_request (build_auth_request pubkey version caps)
      ≡ ok (pubkey, version, take (length caps % 2 ^ 8) caps)
unfolding parse_auth_request build_auth_request
parse-build_auth_request pubkey version caps key fits all =
    let n : ℕ = length caps % 2 ^ 8 in
    let bytes : Bytes = build_auth_request pubkey version caps in
    let built : bytes ≡ blob_field pubkey ++ (str_field version ++ (n ∷ strs_field caps)) =
      simp (encode_strs-field, encode_str-field, encode_blob-field, append_assoc) in
    let (off1, e1, h1) = decode_blob_at bytes pubkey _ 0 key built in
    let (off2, e2, h2) = decode_str_at bytes version _ off1 fits.0 fits.1 h1 in
    let (off3, e3, _) =
      counted_strs_at (take n caps) n bytes (strs_field (drop n caps)) off2
        (omega (arith, length-take n caps)) (AllFit-take n caps all)
        (h2 ∙ ap (◌∷◌ n) (strs_field-take-drop n caps)) in
    rw (e1, e2, e3)

-- `parse_exec` gives back the command and the first 255 of the environment variables that
-- `build_exec` was given, however many those are, for strings below 64 KB.
pub parse-build_exec :
    (command : Bytes) (env_vars : List Bytes)
    → Fits command
    → AllFit env_vars
    → parse_exec (build_exec command env_vars) ≡ ok (command, take 255 env_vars)
unfolding parse_exec build_exec
parse-build_exec command env_vars fits all =
    let kept : List Bytes = take 255 env_vars in
    let n : ℕ = min (length env_vars) 255 % 2 ^ 8 in
    let bytes : Bytes = build_exec command env_vars in
    let built : bytes ≡ str_field command ++ (n ∷ (strs_field kept ++ [])) =
      simp (encode_strs-field, encode_str-field, append_assoc, append-nil) in
    let (off1, e1, h1) = decode_str_at bytes command _ 0 fits.0 fits.1 built in
    let (off2, e2, _) =
      counted_strs_at kept n bytes [] off1 (omega (arith, length-take 255 env_vars))
        (AllFit-take 255 env_vars all) h1 in
    rw (e1, e2)

-- `parse_exec_result` gives back the exit code and the output that `build_exec_result` was given,
-- for an output below 4 GB.
pub parse-build_exec_result :
    (exit_code : ℕ) (output : Bytes)
    → exit_code < 2 ^ 32
    → length output < 2 ^ 32
    → parse_exec_result (build_exec_result exit_code output) ≡ ok (exit_code, output)
unfolding parse_exec_result build_exec_result
parse-build_exec_result exit_code output code small =
    let bytes : Bytes = build_exec_result exit_code output in
    let built : bytes ≡ to_le 4 exit_code ++ (blob_field output ++ []) =
      encode_blob-field (to_le 4 exit_code) output
      ∙ ap (λ s. to_le 4 exit_code ++ s) (sym (append-nil (blob_field output))) in
    let (e1, h1) = decode_u32_le_at bytes _ exit_code 0 code built in
    let (off2, e2, _) = decode_blob_at bytes output [] 4 small h1 in rw (e1, e2)

-- `parse_push_start` gives back the size and the path that `build_push_start` was given, for a
-- path below 64 KB.
pub parse-build_push_start :
    (file_size : ℕ) (remote_path : Bytes)
    → file_size < 2 ^ 64
    → Fits remote_path
    → parse_push_start (build_push_start file_size remote_path) ≡ ok (file_size, remote_path)
unfolding parse_push_start build_push_start
parse-build_push_start file_size remote_path small fits =
    let bytes : Bytes = build_push_start file_size remote_path in
    let built : bytes ≡ to_le 8 file_size ++ (str_field remote_path ++ []) =
      encode_str-field (to_le 8 file_size) remote_path
      ∙ ap (λ s. to_le 8 file_size ++ s) (sym (append-nil (str_field remote_path))) in
    let (e1, h1) = decode_u64_le_at bytes _ file_size 0 small built in
    let (off2, e2, _) = decode_str_at bytes remote_path [] 8 fits.0 fits.1 h1 in rw (e1, e2)

-- A big-endian number at an offset, read by a slice.
slice_be :
    (w n : ℕ) (bytes rest : Bytes) (off end : ℕ)
    → n < 256 ^ w
    → end ≡ off + w
    → drop off bytes ≡ to_be w n ++ rest
    → (from_be (slice bytes off end) ≡ n) × (drop end bytes ≡ rest)
slice_be w n bytes rest off end small e h =
    let width = length-to_be w n in
    (
      ap from_be (slice_at bytes (to_be w n) rest off end h (omega (arith, width)))
          ∙ from_be-to_be w n small,
      drop_behind bytes (to_be w n) rest off end h (omega (arith, width)),
    )

-- `parse_log_query` gives back the six fields that `build_log_query` was given, for strings below
-- 64 KB.
parse-build_log_query :
    (path pattern_text : Bytes) (flags tail_lines byte_offset max_matches : ℕ)
    → Fits path
    → Fits pattern_text
    → tail_lines < 2 ^ 32
    → byte_offset < 2 ^ 64
    → max_matches < 2 ^ 32
    → parse_log_query (build_log_query path pattern_text flags tail_lines byte_offset max_matches)
      ≡ ok (path, pattern_text, flags, tail_lines, byte_offset, max_matches)
unfolding parse_log_query build_log_query
parse-build_log_query path pattern_text flags tail_lines byte_offset max_matches fits1 fits2 t b m =
    let bytes : Bytes =
      build_log_query path pattern_text flags tail_lines byte_offset max_matches in
    let numbers : Bytes =
      to_be 4 tail_lines ++ (to_be 8 byte_offset ++ (to_be 4 max_matches ++ [])) in
    let built : bytes ≡ str_field path ++ (str_field pattern_text ++ (flags ∷ numbers)) =
      simp (encode_str-field, append_assoc, append-nil) in
    let (off1, e1, h1) = decode_str_at bytes path _ 0 fits1.0 fits1.1 built in
    let (off, e2, h2) = decode_str_at bytes pattern_text _ off1 fits2.0 fits2.1 h1 in
    let h3 = drop_behind bytes (flags ∷ []) numbers off (off + 1) h2 refl in
    let (n1, h4) = slice_be 4 tail_lines bytes _ (off + 1) (off + 5) t (omega arith) h3 in
    let (n2, h5) = slice_be 8 byte_offset bytes _ (off + 5) (off + 13) b (omega arith) h4 in
    let (n3, h6) = slice_be 4 max_matches bytes _ (off + 13) (off + 17) m (omega arith) h5 in
    let room : off + 1 + 4 + 8 + 4 ≤ length bytes = omega (
      arith,
      length_at bytes (flags ∷ numbers) [] off (h2 ∙ sym (append-nil _)) (omega arith),
      length-append (to_be 4 tail_lines) (to_be 8 byte_offset ++ (to_be 4 max_matches ++ [])),
      length-append (to_be 8 byte_offset) (to_be 4 max_matches ++ []),
      length-append (to_be 4 max_matches) [],
      length-to_be 4 tail_lines,
      length-to_be 8 byte_offset,
      length-to_be 4 max_matches,
    ) in
    rw (
      e1,
      e2,
      byte_at_here bytes numbers flags off h2,
      n1,
      n2,
      n3,
      le→ltb (length bytes) (off + 1 + 4 + 8 + 4) room,
    )

-- `parse_log_end` gives back the three counts that `build_log_end` was given.
pub parse-build_log_end :
    (lines_scanned matches_found final_offset : ℕ)
    → lines_scanned < 2 ^ 64
    → matches_found < 2 ^ 64
    → final_offset < 2 ^ 64
    → parse_log_end (build_log_end lines_scanned matches_found final_offset)
      ≡ ok (lines_scanned, matches_found, final_offset)
unfolding parse_log_end build_log_end
parse-build_log_end lines_scanned matches_found final_offset a b c =
    let bytes : Bytes = build_log_end lines_scanned matches_found final_offset in
    let (n1, h1) = slice_be 8 lines_scanned bytes _ 0 8 a refl refl in
    let (n2, h2) =
      slice_be 8 matches_found bytes (to_be 8 final_offset ++ []) 8 16 b refl
        (h1 ∙ ap (λ s. to_be 8 matches_found ++ s) (sym (append-nil _))) in
    let (n3, _) = slice_be 8 final_offset bytes [] 16 24 c refl h2 in
    let room : 24 ≤ length bytes = omega (
      arith,
      length-append (to_be 8 lines_scanned) (to_be 8 matches_found ++ to_be 8 final_offset),
      length-append (to_be 8 matches_found) (to_be 8 final_offset),
      length-to_be 8 lines_scanned,
      length-to_be 8 matches_found,
      length-to_be 8 final_offset,
    ) in
    rw (le→ltb (length bytes) 24 room, n1, n2, n3)

-- A typed message with a payload of less than 50 MB that `send_msg` sent without an error is what
-- `recv_msg` returns, type and payload, and the reader is left at the byte behind it.
recv_msg-send_msg :
    (writer : Writer) (reader : Reader) (type_id : ℕ) (payload rest : Bytes)
    (w w' : Writer.W writer) (r : Reader.R reader)
    → length payload < max_message_size
    → send_msg writer type_id payload w ≡ ok w'
    → Reader.pending reader r ≡ drop (length (Writer.sent writer w)) (Writer.sent writer w') ++ rest
    → (r' : Reader.R reader) × (recv_msg reader r ≡ ok (type_id, payload, r'))
      × (Reader.pending reader r' ≡ rest)
unfolding send_msg recv_msg
recv_msg-send_msg writer reader type_id payload rest w w' r small h p =
    let (r', e, p') =
      recv_message-send_message writer reader (type_id ∷ payload) rest w w' r (omega arith) h p in
    (r', rw e, p')
