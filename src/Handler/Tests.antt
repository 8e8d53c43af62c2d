-- ===== src/Handler/Tests.antt =====
-- handler.rs and dispatch.rs on concrete requests and peers.
use rsh.Prelude.{
  ◌+◌, ◌≡◌, refl, true, false, none, some, [], ◌∷◌, inr, arith, ltb, if◌then◌else◌, replicate,
}
use rsh.Prelude.Bytes.{Bytes}
use rsh.Error.{ok, err, recv_auth_message}
use rsh.Utf8.{from_utf8}
use rsh.Text.{Text, chars, text_eq}
use rsh.Text.Number.{show_nat, parse_digits}
use rsh.Auth.{default, restricted, Capability, AuthorizedKey, parse_key_options, split_options}
use rsh.Auth.Options.{mention, last_word}
use rsh.Binproto.Lists.{Fits}
use rsh.RateLimit.{Records, is_banned, record_failure}
use rsh.RateLimit.Sliding.{fail_all}
use rsh.Handler.{Request, check_permission, admit}
use rsh.Handler.Access.{is_allowed, grants, needs, check_permission-parse_key_options}
use rsh.Handler.Native.{run, dispatch_native}
use rsh.Handler.Native.Commands.{dispatch_native-space}
use rsh.Handler.Caps.{negotiate}
use rsh.Handler.Handshake.{Libraries, ServerContext, Peer, ClientInfo, authenticate}
use rsh.Handler.Handshake.Honest.{honest, authenticate-honest}
use rsh.Binproto.TypeIds.{exec_id}
use rsh.Binproto.Messages.{build_exec}
use rsh.Handler.Binary.{binary_action, run_exec, binary_action-build_exec}
use rsh.Handler.Connection.{in_time, attempt, connect, connect-connect}

abbrev ask : Text → Text → Request
ask req_type command = record { req_type = req_type; command = some command; sync_type = none }

exec_denied :
    check_permission (ask (chars "exec") (chars "ls")) restricted
    ≡ some (chars "exec not permitted for this key")
unfolding check_permission
exec_denied = refl

command_forced :
    admit (ask (chars "exec") (chars "ls")) (record default { forced_command = some (chars "who") })
    ≡ inr (ask (chars "exec") (chars "who"))
unfolding admit
command_forced = refl

-- The permission is asked for the whole text, and the command is its first word.
screenshot_allowed :
    check_permission (ask (chars "native") (chars "screenshot 0")) restricted ≡ none
unfolding check_permission
screenshot_allowed = refl

tail_quoted :
    dispatch_native (ask (chars "native") (chars " tail  it's 5"))
    ≡ run (chars "Get-Content 'it''s' -Tail 5")
unfolding dispatch_native show_nat parse_digits
tail_quoted = refl

abbrev pull_only : Text
pull_only = chars "restrict,permit-pull"

pull_only_parsed :
    parse_key_options (some pull_only) ≡ some (record restricted { allow_pull = true })
unfolding parse_key_options
pull_only_parsed = refl

check_permission-parse_key_options_example :
    is_allowed
      (check_permission (ask (chars "cat") (chars "")) (record restricted { allow_pull = true }))
    ≡ grants
        (λ (c : Capability). last_word (mention c) (split_options pull_only) true)
        (needs (ask (chars "cat") (chars "")))
check_permission-parse_key_options_example =
    check_permission-parse_key_options pull_only (record restricted { allow_pull = true })
      (ask (chars "cat") (chars "")) pull_only_parsed

dispatch_native-space_example :
    (check_permission (ask (chars "native") (chars " clip-get")) restricted ≡ none)
    × (dispatch_native (ask (chars "native") (chars " clip-get"))
        ≡ dispatch_native (ask (chars "native") (chars "clip-get")))
dispatch_native-space_example = dispatch_native-space restricted (chars "clip-get")

abbrev client_raw : Bytes
client_raw = replicate 32 5

abbrev sign_test : Bytes → Bytes
sign_test challenge = replicate 64 7

-- Libraries in which a signature is 64 sevens.
abbrev test_libraries : Libraries
test_libraries = record {
  auth_request = λ (message : Bytes). none;
  auth_response = λ (message : Bytes). none;
  totp_response = λ (message : Bytes). none;
  base64 = λ (text : Text). none;
  encode = λ (hash : Bytes). hash;
  sha256 = λ (raw : Bytes). raw;
  hex_sha256 = λ (code : Text). code;
  verify_strict = λ (key challenge sig : Bytes). some (text_eq sig (replicate 64 7));
  verify_totp = λ (secret code : Text). false;
  windows = false;
}

abbrev client_key : AuthorizedKey
client_key = record {
  key_type = chars "ssh-ed25519";
  key_data = client_raw;
  comment = none;
  permissions = restricted;
}

abbrev test_server : ServerContext
test_server = record {
  authorized_keys = [];
  revoked_keys = chars "other" ∷ [];
  caps = chars "zstd" ∷ chars "linux" ∷ [];
  totp_secrets = [];
  key_files = none ∷ some (client_key ∷ []) ∷ [];
}

abbrev test_client : Peer
test_client = honest client_raw (chars "1.4") (chars "zstd" ∷ []) sign_test

abbrev test_info : ClientInfo
test_info = record {
  key_comment = none;
  client_version = some (chars "1.4");
  caps = negotiate test_server.caps (chars "zstd" ∷ []);
  permissions = restricted;
  mux_enabled = false;
}

version-Fits : Fits (chars "1.4")
unfolding from_utf8
version-Fits = (omega arith, refl)

zstd-Fits : Fits (chars "zstd")
unfolding from_utf8
zstd-Fits = (omega arith, refl)

caps_negotiated : test_info.caps ≡ chars "zstd" ∷ chars "linux" ∷ []
unfolding negotiate
caps_negotiated = refl

authenticate-honest_example :
    authenticate test_libraries true test_server (9 ∷ []) test_client none ≡ ok (test_info, none)
authenticate-honest_example =
    authenticate-honest test_libraries true test_server (9 ∷ []) client_raw (chars "1.4")
      (chars "zstd" ∷ []) sign_test client_key none refl version-Fits (zstd-Fits, tt) (omega arith)
      refl refl refl refl refl

abbrev stranger : Peer
stranger = record { hello = none; response = λ (challenge : Bytes). none; code = none }

stranger_refused :
    authenticate test_libraries true test_server (1 ∷ 2 ∷ []) stranger none ≡ err recv_auth_message
unfolding authenticate
stranger_refused = refl

abbrev four_failures : Records
four_failures = fail_all 7 (100 ∷ 110 ∷ 120 ∷ 130 ∷ []) []

not_banned : is_banned 150 7 four_failures ≡ false
unfolding is_banned record_failure
not_banned = refl

not_banned_yet : is_banned 151 7 four_failures ≡ false
unfolding is_banned record_failure
not_banned_yet = refl

fifth_failure : (record_failure 151 7 four_failures).1 ≡ true
unfolding record_failure
fifth_failure = refl

connect-connect_example :
    (let (_, records', recovery') =
        connect test_libraries true test_server in_time 150 151
          (some 7)
          (1 ∷ 2 ∷ [])
          stranger
          four_failures
          none in
      connect test_libraries true test_server in_time 200 201
        (some 7)
        (3 ∷ [])
        test_client
        records'
        recovery')
    ≡ (if ltb 200 (151 + 300)
        then (none, (record_failure 151 7 four_failures).0, none)
        else attempt test_libraries true test_server in_time 201
            (some 7)
            (3 ∷ [])
            test_client
            (record_failure 151 7 four_failures).0
            none)
connect-connect_example =
    connect-connect test_libraries true test_server in_time 150 151 200 201 7 (1 ∷ 2 ∷ []) (3 ∷ [])
      stranger test_client four_failures none recv_auth_message not_banned not_banned_yet
      stranger_refused fifth_failure

binary_action-build_exec_example :
    (check_permission (ask (chars "exec") (chars "ls")) restricted
      ≡ some (chars "exec not permitted for this key"))
    × (binary_action
          (λ (text : Text). text)
          (λ (payload : Bytes). none)
          restricted
          exec_id
          (build_exec (chars "1.4") (chars "zstd" ∷ []))
        ≡ ok (run_exec (chars "1.4") (chars "zstd" ∷ [])))
binary_action-build_exec_example =
    binary_action-build_exec (λ (text : Text). text) (λ (payload : Bytes). none) restricted
      (chars "1.4") (chars "zstd" ∷ []) (some (chars "ls")) refl refl version-Fits (zstd-Fits, tt)
