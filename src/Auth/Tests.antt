-- ===== src/Auth/Tests.antt =====
-- auth.rs on concrete lines.
use rsh.Prelude.{◌≡◌, refl, true, false, Option, none, some, [], ◌∷◌, ◌++◌}
use rsh.Prelude.Bytes.{Bytes}
use rsh.Text.{Text, chars}
use rsh.Text.Split.{cut_space}
use rsh.Auth.{
  KeyPermissions, default, restricted, exec, AuthorizedKey, split_options, parse_key_options,
  parse_authorized_key_line,
}
use rsh.Auth.Options.{allows, mention, mention_totp, last_word, parse_key_options_lem}
use rsh.Auth.Panics.{
  is_none, cut_off, is_none-parse_key_options, parse_authorized_key_line-ssh_command,
}
use rsh.Auth.Secrets.{
  RecoveryMap, authorized_keys_of, load_totp_recovery, save_totp_recovery, check_recovery_code,
}
use rsh.Auth.Secrets.Recovery.{Used, check_recovery_code-Used}

abbrev options : Text
options = chars "restrict, permit-exec,command=\"echo a,b\",totp"

abbrev echo_only : KeyPermissions
echo_only = record restricted {
  allow_exec = true;
  forced_command = some (chars "echo a,b");
  require_totp = true;
}

options_parsed : parse_key_options (some options) ≡ some echo_only
unfolding parse_key_options
options_parsed = refl

-- `restrict` also drops the TOTP code and the forced command that stand before it.
restrict_last : parse_key_options (some (chars "totp,command=\"ls\",restrict")) ≡ some restricted
unfolding parse_key_options
restrict_last = refl

abbrev no_base64 : Text → Option Bytes
no_base64 text = some text

abbrev plain_key : AuthorizedKey
plain_key = record {
  key_type = chars "ecdsa-x";
  key_data = chars "QUJD";
  comment = some (chars "me at home");
  permissions = record default { allow_push = false };
}

line_parsed :
    parse_authorized_key_line no_base64 (chars "no-push ecdsa-x QUJD me at home")
    ≡ some (some plain_key)
unfolding parse_authorized_key_line
line_parsed = refl

keys_loaded :
    authorized_keys_of no_base64 (
      chars "# keys"
      ++ (0x0A ∷ (chars "no-push ecdsa-x QUJD me at home" ++ (0x0D ∷ 0x0A ∷ chars "bad"))))
    ≡ some (plain_key ∷ [])
unfolding authorized_keys_of
keys_loaded = refl

parse_key_options_lem_example :
    (allows exec echo_only ≡ last_word (mention exec) (split_options options) true)
    × (echo_only.require_totp ≡ last_word mention_totp (split_options options) false)
parse_key_options_lem_example = parse_key_options_lem options echo_only exec options_parsed

is_none-parse_key_options_example :
    is_none (parse_key_options (some (chars "totp,command=\"")))
    ≡ cut_off (split_options (chars "totp,command=\""))
is_none-parse_key_options_example = is_none-parse_key_options (chars "totp,command=\"")

ssh_add_cut :
    cut_space (chars "ssh-add\" ssh-ed25519 AAAA")
    ≡ some (chars "ssh-add\"", chars "ssh-ed25519 AAAA")
unfolding cut_space
ssh_add_cut = refl

parse_authorized_key_line-ssh_command_example :
    parse_authorized_key_line no_base64 (chars "command=\"ssh-add\" ssh-ed25519 AAAA") ≡ none
parse_authorized_key_line-ssh_command_example =
    parse_authorized_key_line-ssh_command no_base64 (chars "add\" ssh-ed25519 AAAA")
      (chars "ssh-add\"") (chars "ssh-ed25519 AAAA") ssh_add_cut

abbrev identity : Text → Text
identity text = text

abbrev recovery_codes : RecoveryMap
recovery_codes = (chars "k1", chars "aa" ∷ chars "bb" ∷ []) ∷ (chars "k2", chars "aa" ∷ []) ∷ []

codes_saved : load_totp_recovery (save_totp_recovery recovery_codes) ≡ recovery_codes
unfolding load_totp_recovery save_totp_recovery
codes_saved = refl

check_recovery_code-Used_example :
    Used
      (chars "aa")
      (chars "k1")
      recovery_codes
      (check_recovery_code identity (chars "aa") (chars "k1") recovery_codes)
check_recovery_code-Used_example =
    check_recovery_code-Used identity (chars "aa") (chars "k1") recovery_codes
