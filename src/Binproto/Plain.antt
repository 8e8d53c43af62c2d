-- ===== src/Binproto/Plain.antt =====
-- The messages of binproto.rs without repeated fields are parsed back.
use rsh.Prelude.{ℕ, ◌<◌, ◌^◌, ◌≡◌, refl, sym, ◌∙◌, length, [], append-nil}
use rsh.Prelude.Bytes.{Bytes}
use rsh.Binproto.{encode_str}
use rsh.Error.{ok}
use rsh.Binproto.Lists.{Fits}
use rsh.Binproto.Fields.{str_field, encode_str-field, decode_str_at}
use rsh.Binproto.Messages.{
  build_exec_result, parse_exec_result, build_push_start, parse_push_start, build_pull_req,
  parse_pull_req, build_error, parse_error, build_log_end, parse_log_end,
}
use rsh.Binproto.RoundTrip.{parse-build_exec_result, parse-build_push_start, parse-build_log_end}

-- Each of `parse_exec_result`, `parse_push_start`, `parse_pull_req`, `parse_error` and
-- `parse_log_end` gives back the fields that the builder of its message was given: an output below
-- 4 GB, strings below 64 KB, and numbers in the range of their fields.
parse-build_plain :
    (exit_code size scanned found offset : ℕ) (output text : Bytes)
    → exit_code < 2 ^ 32
    → length output < 2 ^ 32
    → Fits text
    → size < 2 ^ 64
    → scanned < 2 ^ 64
    → found < 2 ^ 64
    → offset < 2 ^ 64
    → (parse_exec_result (build_exec_result exit_code output) ≡ ok (exit_code, output))
      × (parse_push_start (build_push_start size text) ≡ ok (size, text))
      × (parse_pull_req (build_pull_req text) ≡ ok text)
      × (parse_error (build_error text) ≡ ok text)
      × (parse_log_end (build_log_end scanned found offset) ≡ ok (scanned, found, offset))
unfolding parse_pull_req build_pull_req parse_error build_error
parse-build_plain exit_code size scanned found offset output text code small fits s a b c =
    let (_, e, _) =
      decode_str_at (encode_str [] text) text [] 0 fits.0 fits.1
        (encode_str-field [] text ∙ sym (append-nil (str_field text))) in
    (
      parse-build_exec_result exit_code output code small,
      parse-build_push_start size text s fits,
      rw e refl,
      rw e refl,
      parse-build_log_end scanned found offset a b c,
    )
