-- ===== src/Config/Tests.antt =====
-- config.rs on small files.
use rsh.Prelude.{◌⊎◌, ◌≡◌, refl, ℕ, true, false, Option, none, some, [], ◌∷◌, ◌++◌, arith}
use rsh.Text.{Text, chars, trim, trim_matches, is_whitespace}
use rsh.Config.{
  HostConfig, Config, lan_yes, new_host, default_config, default_host, ascii_lower,
  update_host_relay_info, update_in, track_for, auto_upgrade_for, regex_body,
}
use rsh.Config.Parse.{parse, is_quote, key_value}
use rsh.Config.Print.{to_string}
use rsh.Config.Values.{IsClean}
use rsh.Config.Fields.{Lowers}
use rsh.Config.Lines.{lacks, lacks-AllNot}
use rsh.Config.HostBlock.{IsValidHost}
use rsh.Config.Valid.{IsValid}
use rsh.Config.RoundTrip.{parse-to_string}
use rsh.Config.Untracked.{track_for-parse}
use rsh.Config.RelayInfo.{update-update}

clean :
    (text front : Text) (last : ℕ)
    → text ≡ front ++ (last ∷ [])
    → trim text ≡ text
    → trim_matches is_quote text ≡ text
    → is_whitespace last ≡ false
    → lacks text ≡ true
    → IsClean text
clean text front last e t q w l = record {
  trimmed = t;
  unquoted = q;
  front = front;
  last = last;
  is_text = e;
  last_kept = w;
  one_line = lacks-AllNot text l;
}

abbrev no_home : Text → Option Text
no_home rest = none

ascii_lower-Lowers : Lowers ascii_lower
ascii_lower-Lowers t h = refl

abbrev web : HostConfig
web = record (new_host (chars "web-*")) {
  hostname = some (chars "10.0.0.7");
  port = 22;
  session_log = some false;
  quic_port = some 4433;
  rendezvous_servers = chars "r1" ∷ chars "r2" ∷ [];
  lan_first = lan_yes;
}

abbrev small : Config
small = record default_config { hosts = web ∷ []; session_log = false; session_log_retain = 30 }

web-IsValidHost : IsValidHost web
unfolding lacks
web-IsValidHost = record {
  pattern = clean (chars "web-*") (chars "web-") b'*' refl refl refl refl refl;
  hostname = clean (chars "10.0.0.7") (chars "10.0.0.") b'7' refl refl refl refl refl;
  port = omega arith;
  identity_file = tt;
  identity_path = tt;
  user = tt;
  mac = tt;
  device_id = tt;
  description = tt;
  tailscale_ip = tt;
  rendezvous_server = tt;
  rendezvous_servers = (
    ((refl, (refl, tt)), ((refl, (refl, tt)), tt)),
    clean (chars "r1, r2") (chars "r1, r") b'2' refl refl refl refl refl,
  );
  rendezvous_key = tt;
}

small-IsValid : IsValid small
small-IsValid = record {
  hosts = (web-IsValidHost, tt);
  device_id = tt;
  rendezvous_server = tt;
  rendezvous_servers = tt;
  rendezvous_key = tt;
  enrollment_token = tt;
  session_log_dir = tt;
  session_log_dir_path = tt;
  session_log_retain = omega arith;
  fs_spool = tt;
  fs_spool_path = tt;
}

-- The QUIC port is gone.
parse-to_string_example : parse ascii_lower no_home (to_string small) ≡ record default_config {
  hosts = record web { quic_port = none } ∷ [];
  session_log = false;
  session_log_retain = 30;
}
parse-to_string_example = parse-to_string ascii_lower no_home ascii_lower-Lowers small small-IsValid

track_for-parse_example :
    (track_for (parse ascii_lower no_home (chars "Host a\n    Track canary\n")) (chars "a") ≡ none)
    × (auto_upgrade_for (parse ascii_lower no_home (chars "Host a\n    Track canary\n")) (chars "a")
        ≡ none)
track_for-parse_example =
    track_for-parse ascii_lower no_home (chars "Host a\n    Track canary\n") (chars "a")

update-update_example :
    (update_host_relay_info
        (update_host_relay_info small (chars "Web-*") (some (chars "7")) none).0
        (chars "Web-*")
        (some (chars "7"))
        none
      ≡ ((update_host_relay_info small (chars "Web-*") (some (chars "7")) none).0, false))
    × (((update_host_relay_info small (chars "Web-*") (some (chars "7")) none).1 ≡ true)
        ⊎ ((update_host_relay_info small (chars "Web-*") (some (chars "7")) none).0 ≡ small))
update-update_example = update-update small (chars "Web-*") (some (chars "7")) none

-- A host that is made for an answer has port 0.
new_block : update_in (chars "b") (some (chars "7")) none [] ≡ (
  record default_host { pattern = chars "b"; device_id = some (chars "7"); port = 0 } ∷ [],
  true,
)
unfolding update_in
new_block = refl

-- With spaces around it, the `=` is part of the value.
equals_sign :
    (key_value (chars "Port=22") ≡ some (chars "Port", chars "22"))
    × (key_value (chars "Port = 22") ≡ some (chars "Port", chars "= 22"))
unfolding key_value
equals_sign = (refl, refl)

special_characters : regex_body (chars "a.b*?") ≡ chars "a\\.b.*."
unfolding regex_body
special_characters = refl
