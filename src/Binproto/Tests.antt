-- ===== src/Binproto/Tests.antt =====
-- binproto.rs on concrete messages.
use rsh.Binproto.TypeIds.{type_ids}
use rsh.Prelude.{
  List, Bool, false, not, ◌||◌, ◌&&◌, ◌==◌, ltb, ℕ, ◌+◌, ◌%◌, ◌^◌, ◌≡◌, refl, true, false, [], ◌∷◌,
  arith, none, some, take, if◌then◌else◌,
}
use rsh.Prelude.Bytes.{Bytes, to_be, from_be}
use rsh.Error.{ok, err, invalid_utf8}
use rsh.Utf8.{from_utf8}
use rsh.Io.Memory.{memory_writer}
use rsh.Wire.{send_message}
use rsh.Binproto.{encode_str, encode_blob, decode_str, send_msg}
use rsh.Binproto.Messages.{
  build_auth_request, parse_auth_request, build_auth_ok_full, parse_auth_ok_full,
}
use rsh.Binproto.Lists.{Fits}
use rsh.Binproto.RoundTrip.{parse-build_auth_request}
use rsh.Binproto.AuthOk.{parse-build_auth_ok_full}
use rsh.Binproto.Limits.{decode_str-encode_str}

-- "1.4", "é" and "zstd"
abbrev version : Bytes
version = b'1' ∷ b'.' ∷ b'4' ∷ []

abbrev accent : Bytes
accent = 0xC3 ∷ 0xA9 ∷ []

abbrev zstd_cap : Bytes
zstd_cap = b'z' ∷ b's' ∷ b't' ∷ b'd' ∷ []

utf8_tests :
    (from_utf8 version ≡ true)
    × (from_utf8 (0xE2 ∷ 0x82 ∷ 0xAC ∷ []) ≡ true)
    × (from_utf8 (0xC0 ∷ 0x80 ∷ []) ≡ false)
    × (from_utf8 (0xED ∷ 0xA0 ∷ 0x80 ∷ []) ≡ false)
    × (from_utf8 (0xC3 ∷ []) ≡ false)
    × (from_utf8 (0xF0 ∷ 0x9F ∷ 0x98 ∷ 0x80 ∷ []) ≡ true)
unfolding from_utf8
utf8_tests = (refl, refl, refl, refl, refl, refl)

version-Fits : Fits version
unfolding from_utf8
version-Fits = (omega arith, refl)

accent-Fits : Fits accent
unfolding from_utf8
accent-Fits = (omega arith, refl)

zstd-Fits : Fits zstd_cap
unfolding from_utf8
zstd-Fits = (omega arith, refl)

auth_request_bytes :
    build_auth_request (7 ∷ 8 ∷ []) version (zstd_cap ∷ [])
    ≡ 0 ∷ 0 ∷ 0 ∷ 2 ∷ 7 ∷ 8 ∷ 0 ∷ 3 ∷ b'1' ∷ b'.' ∷ b'4' ∷ 1 ∷ 0 ∷ 4 ∷ zstd_cap
unfolding build_auth_request encode_str encode_blob to_be
auth_request_bytes = refl

parse-build_auth_request_example :
    parse_auth_request (build_auth_request (7 ∷ 8 ∷ []) version (zstd_cap ∷ accent ∷ []))
    ≡ ok (7 ∷ 8 ∷ [], version, take (2 % 2 ^ 8) (zstd_cap ∷ accent ∷ []))
parse-build_auth_request_example =
    parse-build_auth_request (7 ∷ 8 ∷ []) version (zstd_cap ∷ accent ∷ []) (omega arith)
      version-Fits (zstd-Fits, (accent-Fits, tt))

parse-build_auth_ok_full_example :
    parse_auth_ok_full
      (build_auth_ok_full version (zstd_cap ∷ []) (some accent) none (some version))
    ≡ ok (record {
      version = version;
      caps = zstd_cap ∷ [];
      banner = some accent;
      device_id = none;
      rendezvous_server = some version;
    })
parse-build_auth_ok_full_example =
    parse-build_auth_ok_full version (zstd_cap ∷ []) version-Fits (zstd-Fits, tt) (omega arith)
      (some accent) none (some version) accent-Fits tt version-Fits

abbrev framed_accent : Bytes
framed_accent = 0 ∷ 2 ∷ 0xC3 ∷ 0xA9 ∷ 5 ∷ []

accent_decoded : decode_str framed_accent 0 ≡ ok (accent, 4)
unfolding decode_str from_be from_utf8
accent_decoded = refl

decode_str-encode_str_example : decode_str (encode_str [] accent) 0 ≡ (
    if from_utf8 (take (2 % 2 ^ 16) accent)
    then ok (take (2 % 2 ^ 16) accent, 2 + 2 % 2 ^ 16)
    else err invalid_utf8)
decode_str-encode_str_example = decode_str-encode_str accent

ping_sent : send_msg memory_writer 0x50 [] [] ≡ ok (0 ∷ 0 ∷ 0 ∷ 1 ∷ 0x50 ∷ [])
unfolding send_msg send_message to_be
ping_sent = refl

-- No two messages begin with the same byte, and each is one byte.
occurs : ℕ → List ℕ → Bool
occurs n [] = false
occurs n (x ∷ xs) = x == n || occurs n xs

distinct_bytes : List ℕ → Bool
unfolding occurs
distinct_bytes [] = true
distinct_bytes (x ∷ xs) = ltb x 256 && not (occurs x xs) && distinct_bytes xs

type_ids_distinct : distinct_bytes type_ids ≡ true
unfolding distinct_bytes
type_ids_distinct = refl
