-- ===== src/Binproto/Messages.antt =====
-- The builders and parsers of binproto.rs, one pair to a message.
use rsh.Prelude.{
  ℕ, zero, suc, ◌+◌, ◌%◌, ◌^◌, ◌&&◌, Option, none, some, List, [], ◌∷◌, ◌++◌, ltb, leb, ◌==◌,
  if◌then◌else◌, length, take, slice, min,
}
use rsh.Prelude.Bytes.{Bytes, byte_at, to_be, from_be, to_le}
use rsh.Error.{Result, ok, err, ◌>>=◌, payload_too_short}
use rsh.Binproto.{encode_str, encode_blob, decode_str, decode_blob, decode_u32_le, decode_u64_le}

-- `for s in list { encode_str(&mut buf, s) }`
unfoldable pub encode_strs : Bytes → List Bytes → Bytes
encode_strs buf [] = buf
encode_strs buf (s ∷ ss) = encode_strs (encode_str buf s) ss

-- `for _ in 0..count { ... decode_str ... }`, from an offset; the offset behind the last comes back.
unfoldable pub decode_strs : ℕ → Bytes → ℕ → Result (List Bytes × ℕ)
decode_strs zero bytes off = ok ([], off)
decode_strs (suc n) bytes off = do
  (s, off') ← decode_str bytes off
  (ss, end) ← decode_strs n bytes off'
  ok (s ∷ ss, end)

unfoldable pub build_auth_request : Bytes → Bytes → List Bytes → Bytes
unfolding encode_strs
build_auth_request pubkey version caps =
    encode_strs (encode_str (encode_blob [] pubkey) version ++ (length caps % 2 ^ 8 ∷ [])) caps

-- A list of strings behind a count byte; a message that ends before the count has none.
unfoldable pub counted_strs : Bytes → ℕ → Result (List Bytes × ℕ)
unfolding decode_strs
counted_strs bytes off =
    if leb (length bytes) off then ok ([], off) else decode_strs (byte_at bytes off) bytes (off + 1)

unfoldable pub parse_auth_request : Bytes → Result (Bytes × Bytes × List Bytes)
unfolding counted_strs
parse_auth_request bytes = do
  (pubkey, off1) ← decode_blob bytes 0
  (version, off2) ← decode_str bytes off1
  (caps, _) ← counted_strs bytes off2
  ok (pubkey, version, caps)

-- `buf.push(1); encode_str(..)` for `Some`, `buf.push(0)` for `None`
unfoldable pub encode_optional : Bytes → Option Bytes → Bytes
encode_optional buf none = buf ++ (0 ∷ [])
encode_optional buf (some s) = encode_str (buf ++ (1 ∷ [])) s

unfoldable pub build_auth_ok_full :
    Bytes → List Bytes → Option Bytes → Option Bytes → Option Bytes → Bytes
unfolding encode_strs encode_optional
build_auth_ok_full version caps banner device_id rendezvous_server =
    let head = encode_strs (encode_str [] version ++ (length caps % 2 ^ 8 ∷ [])) caps in
    encode_optional (encode_optional (encode_optional head banner) device_id) rendezvous_server

unfoldable pub build_auth_ok : Bytes → List Bytes → Option Bytes → Bytes
unfolding build_auth_ok_full
build_auth_ok version caps banner = build_auth_ok_full version caps banner none none

pub record AuthOkFields : Type 0 where
  pub version : Bytes
  pub caps : List Bytes
  pub banner : Option Bytes
  pub device_id : Option Bytes
  pub rendezvous_server : Option Bytes

-- A flag byte 1 and a string, or any other flag byte, or the end of the message.
unfoldable pub decode_optional : Bytes → ℕ → Result (Option Bytes × ℕ)
decode_optional bytes off =
    if ltb off (length bytes) && byte_at bytes off == 1
    then (do (s, off') ← decode_str bytes (off + 1); ok (some s, off'))
    else ok (none, if ltb off (length bytes) then off + 1 else off)

unfoldable pub parse_auth_ok_full : Bytes → Result AuthOkFields
unfolding decode_strs decode_optional
parse_auth_ok_full bytes = do
  (version, off) ← decode_str bytes 0
  let rest : Result AuthOkFields = do
    (caps, off1) ← decode_strs (byte_at bytes off) bytes (off + 1)
    (banner, off2) ← decode_optional bytes off1
    (device_id, off3) ← decode_optional bytes off2
    (rendezvous_server, _) ← decode_optional bytes off3
    ok (record {
      version = version;
      caps = caps;
      banner = banner;
      device_id = device_id;
      rendezvous_server = rendezvous_server;
    })
  if leb (length bytes) off
      then ok (record {
        version = version;
        caps = [];
        banner = none;
        device_id = none;
        rendezvous_server = none;
      })
      else rest

unfoldable pub parse_auth_ok : Bytes → Result (Bytes × List Bytes × Option Bytes)
unfolding parse_auth_ok_full
parse_auth_ok bytes = do
  fields ← parse_auth_ok_full bytes
  ok (fields.version, fields.caps, fields.banner)

unfoldable pub build_exec : Bytes → List Bytes → Bytes
unfolding encode_strs
build_exec command env_vars =
    encode_strs (encode_str [] command ++ (min (length env_vars) 255 % 2 ^ 8 ∷ []))
      (take 255 env_vars)

unfoldable pub parse_exec : Bytes → Result (Bytes × List Bytes)
unfolding counted_strs
parse_exec bytes = do
  (command, off) ← decode_str bytes 0
  (env_vars, _) ← counted_strs bytes off
  ok (command, env_vars)

unfoldable pub build_exec_result : ℕ → Bytes → Bytes
build_exec_result exit_code output = encode_blob (to_le 4 exit_code) output

unfoldable pub parse_exec_result : Bytes → Result (ℕ × Bytes)
parse_exec_result bytes = do
  (exit_code, off) ← decode_u32_le bytes 0
  (output, _) ← decode_blob bytes off
  ok (exit_code, output)

unfoldable pub build_push_start : ℕ → Bytes → Bytes
build_push_start file_size remote_path = encode_str (to_le 8 file_size) remote_path

unfoldable pub parse_push_start : Bytes → Result (ℕ × Bytes)
parse_push_start bytes = do
  (file_size, off) ← decode_u64_le bytes 0
  (path, _) ← decode_str bytes off
  ok (file_size, path)

unfoldable pub build_pull_req : Bytes → Bytes
build_pull_req remote_path = encode_str [] remote_path

unfoldable pub parse_pull_req : Bytes → Result Bytes
parse_pull_req bytes = do (path, _) ← decode_str bytes 0; ok path

unfoldable pub build_error : Bytes → Bytes
build_error error = encode_str [] error

unfoldable pub parse_error : Bytes → Result Bytes
parse_error bytes = do (error, _) ← decode_str bytes 0; ok error

unfoldable pub build_log_query : Bytes → Bytes → ℕ → ℕ → ℕ → ℕ → Bytes
build_log_query path pattern_text flags tail_lines byte_offset max_matches =
    encode_str (encode_str [] path) pattern_text
    ++ (flags ∷ (to_be 4 tail_lines ++ (to_be 8 byte_offset ++ to_be 4 max_matches)))

unfoldable pub parse_log_query : Bytes → Result (Bytes × Bytes × ℕ × ℕ × ℕ × ℕ)
parse_log_query bytes = do
  (path, off1) ← decode_str bytes 0
  (pattern_text, off) ← decode_str bytes off1
  let fields : Bytes × Bytes × ℕ × ℕ × ℕ × ℕ = (
    path,
    pattern_text,
    byte_at bytes off,
    from_be (slice bytes (off + 1) (off + 5)),
    from_be (slice bytes (off + 5) (off + 13)),
    from_be (slice bytes (off + 13) (off + 17)),
  )
  if ltb (length bytes) (off + 1 + 4 + 8 + 4) then err payload_too_short else ok fields

unfoldable pub build_log_end : ℕ → ℕ → ℕ → Bytes
build_log_end lines_scanned matches_found final_offset =
    to_be 8 lines_scanned ++ (to_be 8 matches_found ++ to_be 8 final_offset)

unfoldable pub parse_log_end : Bytes → Result (ℕ × ℕ × ℕ)
parse_log_end bytes =
    if ltb (length bytes) 24
    then err payload_too_short
    else ok (from_be (slice bytes 0 8), from_be (slice bytes 8 16), from_be (slice bytes 16 24))
