-- ===== src/Config.antt =====
-- crates/mrsh-core/src/config.rs: the records of the configuration file and what is looked up in
-- them. A path below the home directory, the lower case of a text and regular expressions are
-- parameters.
pub mod Parse
pub mod Print
pub mod Values
pub mod Labels
pub mod Fields
pub mod HostBlock
pub mod Valid
pub mod Lines
pub mod RoundTrip
pub mod Untracked
pub mod RelayInfo
mod Tests
use rsh.Prelude.{
  ℕ, ◌≡◌, Bool, true, false, ◌||◌, Option, none, some, List, [], ◌∷◌, ◌++◌, if◌then◌else◌, ◌==◌,
  map, leb, ◌+◌, ◌&&◌,
}
use rsh.Text.{Text, text_eq, chars}

-- `LanFirst`
pub data LanFirst : Type 0 where
  lan_auto lan_yes lan_no : LanFirst

pub record HostConfig : Type 0 where
  pub pattern : Text
  pub hostname : Option Text
  pub port : ℕ
  pub identity_file : Option Text
  pub user : Option Text
  pub mac : Option Text
  pub device_id : Option Text
  pub description : Option Text
  pub tailscale_ip : Option Text
  pub rendezvous_server : Option Text
  pub rendezvous_servers : List Text
  pub rendezvous_key : Option Text
  pub session_log : Option Bool
  pub quic_port : Option ℕ
  pub platform : Option Text
  pub track : Option Text
  pub auto_upgrade : Option Bool
  pub lan_first : LanFirst

-- The derived `Default`
abbrev pub default_host : HostConfig
default_host = record {
  pattern = [];
  hostname = none;
  port = 0;
  identity_file = none;
  user = none;
  mac = none;
  device_id = none;
  description = none;
  tailscale_ip = none;
  rendezvous_server = none;
  rendezvous_servers = [];
  rendezvous_key = none;
  session_log = none;
  quic_port = none;
  platform = none;
  track = none;
  auto_upgrade = none;
  lan_first = lan_auto;
}

-- `HostConfig::new`
abbrev pub new_host : Text → HostConfig
new_host pattern = record default_host { pattern = pattern; port = 8822 }

pub record Config : Type 0 where
  pub hosts : List HostConfig
  pub device_id : Option Text
  pub rendezvous_server : Option Text
  pub rendezvous_servers : List Text
  pub rendezvous_key : Option Text
  pub enrollment_token : Option Text
  pub session_log : Bool
  pub session_log_dir : Option Text
  pub session_log_retain : ℕ
  pub fs_spool : Option Text

abbrev pub default_config : Config
default_config = record {
  hosts = [];
  device_id = none;
  rendezvous_server = none;
  rendezvous_servers = [];
  rendezvous_key = none;
  enrollment_token = none;
  session_log = true;
  session_log_dir = none;
  session_log_retain = 90;
  fs_spool = none;
}

-- `get_rendezvous_servers`, of a host and of the whole file
abbrev pub merged : Option Text → List Text → List Text
merged none servers = servers
merged (some s) servers = s ∷ servers

unfoldable pub host_servers : HostConfig → List Text
host_servers h = merged h.rendezvous_server h.rendezvous_servers

unfoldable pub global_servers : Config → List Text
global_servers cfg = merged cfg.rendezvous_server cfg.rendezvous_servers

-- The first host with the pattern, for `track_for` and `auto_upgrade_for`.
unfoldable pub host_named : Text → List HostConfig → Option HostConfig
host_named name [] = none
host_named name (h ∷ hosts) =
    let later = host_named name hosts in if text_eq h.pattern name then some h else later

abbrev pub and_then {ℓ} : {A : Type ℓ} → (HostConfig → Option A) → Option HostConfig → Option A
and_then field none = none
and_then field (some h) = field h

unfoldable pub track_for : Config → Text → Option Text
track_for cfg name = and_then (λ h. h.track) (host_named name cfg.hosts)

unfoldable pub auto_upgrade_for : Config → Text → Option Bool
auto_upgrade_for cfg name = and_then (λ h. h.auto_upgrade) (host_named name cfg.hosts)

-- `load`, given what the three files hold, parsed.
abbrev pub or_else {ℓ} : {A : Type ℓ} → Option A → Option A → Option A
or_else none later = later
or_else (some a) later = some a

unfoldable pub load : Option Config → Option Config → Option Config → Config
load (some u) (some e) legacy = record u {
  rendezvous_server = or_else u.rendezvous_server e.rendezvous_server;
  rendezvous_key = or_else u.rendezvous_key e.rendezvous_key;
  enrollment_token = or_else u.enrollment_token e.enrollment_token;
}
load (some u) none legacy = u
load none (some e) legacy = e
load none none (some l) = l
load none none none = default_config

-- The regular expression of a pattern, between its anchors.
abbrev is_special : ℕ → Bool
is_special c =
    c == b'.'
    || c == b'+'
    || c == b'('
    || c == b')'
    || c == b'['
    || c == b']'
    || c == b'{'
    || c == b'}'
    || c == b'^'
    || c == b'$'
    || c == b'|'
    || c == 0x5C

unfoldable pub regex_body : Text → Text
regex_body [] = []
regex_body (c ∷ cs) =
    let later = regex_body cs in
    if c == b'*'
    then b'.' ∷ b'*' ∷ later
    else if c == b'?'
    then b'.' ∷ later
    else if is_special c
    then 0x5C ∷ c ∷ later
    else c ∷ later

-- `Regex::new` gives the test, or refuses the expression.
module _ (regex : Text → Option (Text → Bool)) where
  unfoldable pub match_pattern : Text → Text → Bool
  unfolding regex_body
  match_pattern pattern name = elim (regex (b'^' ∷ (regex_body pattern ++ (b'$' ∷ [])))) [
    | none ↦ text_eq pattern name
    | some test ↦ test name
  ]

  unfoldable pub find_host_in : Text → List HostConfig → Option HostConfig
  find_host_in name [] = none
  find_host_in name (h ∷ hosts) =
      let later = find_host_in name hosts in if match_pattern h.pattern name then some h else later

  unfoldable pub find_host : Config → Text → Option HostConfig
  find_host cfg name = find_host_in name cfg.hosts

  unfoldable pub resolve_identity_file : Config → Text → Option Text → Option Text
  resolve_identity_file cfg name cli_key =
      or_else cli_key (and_then (λ h. h.identity_file) (find_host cfg name))

  abbrev pub or_global : Bool → Option Bool → Bool
  or_global global none = global
  or_global global (some enabled) = enabled

  unfoldable pub is_session_log_enabled : Config → Text → Bool
  is_session_log_enabled cfg name =
      or_global cfg.session_log (and_then (λ h. h.session_log) (find_host cfg name))

-- `to_ascii_lowercase` and `eq_ignore_ascii_case`
abbrev pub lower_char : ℕ → ℕ
lower_char c = if leb b'A' c && leb c b'Z' then c + 32 else c

abbrev pub ascii_lower : Text → Text
ascii_lower = map lower_char

abbrev pub same_name : Text → Text → Bool
same_name a b = text_eq (ascii_lower a) (ascii_lower b)

-- `update_host_relay_info`: a field that is given and differs is set.
abbrev pub differs : Option Text → Option Text → Bool
differs none old = false
differs (some given) none = true
differs (some given) (some old) = if text_eq old given then false else true

abbrev pub is_for : Text → HostConfig → Bool
is_for name h = same_name h.pattern name || named h.hostname
  where
    named : Option Text → Bool
    named none = false
    named (some n) = same_name n name

abbrev pub relay_info : Option Text → Option Text → HostConfig → HostConfig
relay_info device_id server h = record h {
  device_id = or_else device_id h.device_id;
  rendezvous_server = or_else server h.rendezvous_server;
}

-- The hosts after the change, and whether one changed.
unfoldable pub update_in :
    Text → Option Text → Option Text → List HostConfig → List HostConfig × Bool
update_in name device_id server [] =
    (relay_info device_id server (record default_host { pattern = name }) ∷ [], true)
update_in name device_id server (h ∷ hosts) =
    let (later, changed) = update_in name device_id server hosts in
    if is_for name h
    then (
      relay_info device_id server h ∷ hosts,
      differs device_id h.device_id || differs server h.rendezvous_server,
    )
    else (h ∷ later, changed)

unfoldable pub update_host_relay_info : Config → Text → Option Text → Option Text → Config × Bool
unfolding update_in
update_host_relay_info cfg name none none = (cfg, false)
update_host_relay_info cfg name (some id) server =
    let (hosts, changed) = update_in name (some id) server cfg.hosts in
    (record cfg { hosts = hosts }, changed)
update_host_relay_info cfg name none (some server) =
    let (hosts, changed) = update_in name none (some server) cfg.hosts in
    (record cfg { hosts = hosts }, changed)
