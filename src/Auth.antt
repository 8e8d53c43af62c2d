-- ===== src/Auth.antt =====
-- crates/mrsh-core/src/auth.rs: the lines of authorized_keys and the permissions in them. A `String`
-- is the list of its characters. Where the source panics, the result is `none`.
pub mod Options
pub mod Panics
pub mod Secrets
mod Tests
use rsh.Prelude.{
  ℕ, ◌-◌, Bool, true, false, ◌&&◌, Option, none, some, List, [], ◌∷◌, ◌==◌, leb, if◌then◌else◌,
  length, take, drop, reverse,
}
use rsh.Prelude.Bytes.{Bytes}
use rsh.Text.{Text, chars, text_eq, trim}
use rsh.Text.Split.{starts_with, ends_with, find, splitn, arm}

pub record KeyPermissions : Type 0 where
  pub allow_exec : Bool
  pub allow_push : Bool
  pub allow_pull : Bool
  pub allow_shell : Bool
  pub allow_tunnel : Bool
  pub allow_gui : Bool
  pub allow_clipboard : Bool
  pub allow_reboot : Bool
  pub allow_screenshot : Bool
  pub allow_self_update : Bool
  pub forced_command : Option Text
  pub require_totp : Bool

-- `KeyPermissions::default`
abbrev pub default : KeyPermissions
default = record {
  allow_exec = true;
  allow_push = true;
  allow_pull = true;
  allow_shell = true;
  allow_tunnel = true;
  allow_gui = true;
  allow_clipboard = true;
  allow_reboot = true;
  allow_screenshot = true;
  allow_self_update = true;
  forced_command = none;
  require_totp = false;
}

abbrev pub restricted : KeyPermissions
restricted = record {
  allow_exec = false;
  allow_push = false;
  allow_pull = false;
  allow_shell = false;
  allow_tunnel = false;
  allow_gui = false;
  allow_clipboard = false;
  allow_reboot = false;
  allow_screenshot = false;
  allow_self_update = false;
  forced_command = none;
  require_totp = false;
}

-- What the options name: the fields `allow_*`.
pub data Capability : Type 0 where
  exec push pull shell tunnel gui clipboard reboot screenshot self_update : Capability

abbrev pub set : Capability → Bool → KeyPermissions → KeyPermissions
set exec b perms = record perms { allow_exec = b }
set push b perms = record perms { allow_push = b }
set pull b perms = record perms { allow_pull = b }
set shell b perms = record perms { allow_shell = b }
set tunnel b perms = record perms { allow_tunnel = b }
set gui b perms = record perms { allow_gui = b }
set clipboard b perms = record perms { allow_clipboard = b }
set reboot b perms = record perms { allow_reboot = b }
set screenshot b perms = record perms { allow_screenshot = b }
set self_update b perms = record perms { allow_self_update = b }

-- The options without an argument.
pub data Word : Type 0 where
  restrict totp : Word
  permit forbid : Capability → Word

-- The literals of the `match`, in the order of its arms.
abbrev pub words : List (Text × Word)
words =
    (chars "restrict", restrict)
    ∷ (chars "permit-exec", permit exec)
    ∷ (chars "permit-push", permit push)
    ∷ (chars "permit-pull", permit pull)
    ∷ (chars "permit-shell", permit shell)
    ∷ (chars "permit-tunnel", permit tunnel)
    ∷ (chars "permit-gui", permit gui)
    ∷ (chars "permit-clipboard", permit clipboard)
    ∷ (chars "permit-reboot", permit reboot)
    ∷ (chars "permit-screenshot", permit screenshot)
    ∷ (chars "permit-self-update", permit self_update)
    ∷ (chars "totp", totp)
    ∷ (chars "no-exec", forbid exec)
    ∷ (chars "no-push", forbid push)
    ∷ (chars "no-pull", forbid pull)
    ∷ (chars "no-shell", forbid shell)
    ∷ (chars "no-tunnel", forbid tunnel)
    ∷ (chars "no-gui", forbid gui)
    ∷ (chars "no-clipboard", forbid clipboard)
    ∷ (chars "no-reboot", forbid reboot)
    ∷ (chars "no-screenshot", forbid screenshot)
    ∷ (chars "no-self-update", forbid self_update)
    ∷ []

abbrev pub obey : Word → KeyPermissions → KeyPermissions
obey restrict perms = restricted
obey totp perms = record perms { require_totp = true }
obey (permit c) perms = set c true perms
obey (forbid c) perms = set c false perms

abbrev pub command_is : Text
command_is = chars "command=\""

abbrev pub is_forced : Text → Bool
is_forced opt = starts_with opt command_is && ends_with opt (b'"' ∷ [])

-- The last two arms. The slice `opt[9..opt.len() - 1]` panics on `command="`.
abbrev pub apply_other : Text → KeyPermissions → Option KeyPermissions
apply_other opt perms =
    if is_forced opt
    then (if leb 10 (length opt)
        then some (record perms { forced_command = some (drop 9 (take (length opt - 1) opt)) })
        else none)
    else some perms

abbrev pub apply_arm : Option Word → Text → KeyPermissions → Option KeyPermissions
apply_arm none opt perms = apply_other opt perms
apply_arm (some word) opt perms = some (obey word perms)

unfoldable pub apply_option : Text → KeyPermissions → Option KeyPermissions
apply_option opt perms = apply_arm (arm words opt) opt perms

abbrev push_part : Text → List Text → List Text
push_part [] parts = parts
push_part (c ∷ cs) parts = (c ∷ cs) ∷ parts

-- The loop of `split_options`; the part read so far stands with its last character first.
pub options_from : Text → Bool → Text → List Text
options_from part in_quotes [] = push_part (trim (reverse part)) []
options_from part in_quotes (c ∷ cs) =
    let cut = c == b',' && (if in_quotes then false else true) in
    let quotes = if c == b'"' then (if in_quotes then false else true) else in_quotes in
    let next = options_from [] in_quotes cs in
    let longer = options_from (c ∷ part) quotes cs in
    if cut then push_part (trim (reverse part)) next else longer

unfoldable pub split_options : Text → List Text
unfolding options_from
split_options = options_from [] false

-- The loop of `parse_key_options`.
pub apply_options : List Text → KeyPermissions → Option KeyPermissions
unfolding apply_option
apply_options [] perms = some perms
apply_options (opt ∷ opts) perms = elim (apply_option (trim opt) perms) [
  | none ↦ none
  | some next ↦ apply_options opts next
]

unfoldable pub parse_key_options : Option Text → Option KeyPermissions
unfolding apply_options split_options
parse_key_options none = some default
parse_key_options (some []) = some default
parse_key_options (some (c ∷ cs)) = apply_options (split_options (c ∷ cs)) default

pub record AuthorizedKey : Type 0 where
  pub key_type : Text
  pub key_data : Bytes
  pub comment : Option Text
  pub permissions : KeyPermissions

-- Where the key type starts: the options in front of it, and the rest of the line.
abbrev pub from_type : Text → Option (Text × Text) → Option (Option Text × Text)
from_type line none = elim (find line (chars "ecdsa-")) [
  | none ↦ none
  | some (before, rest) ↦ some (some (trim before), rest)
]
from_type line (some (before, rest)) = some (some (trim before), rest)

unfoldable pub split_line : Text → Option (Option Text × Text)
unfolding find
split_line line =
    if starts_with line (chars "ssh-")
    then some (none, line)
    else if starts_with line (chars "ecdsa-")
    then some (none, line)
    else from_type line (find line (chars "ssh-"))

-- `key_data[key_data.len() - 32..]` for an ed25519 key
abbrev pub raw_key : Text → Bytes → Bytes
raw_key key_type bytes =
    if text_eq key_type (chars "ssh-ed25519") && leb 32 (length bytes)
    then drop (length bytes - 32) bytes
    else bytes

-- `base64` decodes the key; the rest of the line after it is the comment.
module _ (base64 : Text → Option Bytes) where
  abbrev pub key_of : Text → Text → Option Text → KeyPermissions → Option AuthorizedKey
  key_of key_type key_b64 comment permissions = elim (base64 key_b64) [
    | none ↦ none
    | some bytes ↦ some (record {
      key_type = key_type;
      key_data = raw_key key_type bytes;
      comment = comment;
      permissions = permissions;
    })
  ]

  -- The parts of `splitn(3, char::is_whitespace)`, and the options.
  abbrev pub parse_parts : Option Text → List Text → Option (Option AuthorizedKey)
  parse_parts options [] = some none
  parse_parts options (key_type ∷ []) = some none
  parse_parts options (key_type ∷ key_b64 ∷ more) = elim (parse_key_options options) [
    | none ↦ none
    | some permissions ↦ some (key_of key_type key_b64 (first more) permissions)
  ]
    where
      first : List Text → Option Text
      first [] = none
      first (comment ∷ _) = some comment

  unfoldable pub parse_authorized_key_line : Text → Option (Option AuthorizedKey)
  unfolding split_line splitn parse_key_options
  parse_authorized_key_line line = elim (split_line line) [
    | none ↦ some none
    | some (options, rest) ↦ parse_parts options (splitn 2 rest)
  ]
