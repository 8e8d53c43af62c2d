-- ===== src/Config/Parse.antt =====
-- `Config::parse`: the lines of the file, and the host block that is open.
use rsh.Prelude.{
  ℕ, Bool, true, false, ◌||◌, Option, none, some, List, [], ◌∷◌, ◌++◌, if◌then◌else◌, ◌==◌, drop,
  map,
}
use rsh.Text.{Text, text_eq, chars, is_whitespace, trim, trim_matches}
use rsh.Text.Split.{starts_with, split_once, split_whitespace, lines, arm}
use rsh.Text.Number.{parse_u16, parse_u32}
use rsh.Config.{
  LanFirst, lan_auto, lan_yes, lan_no, HostConfig, new_host, Config, default_config, ascii_lower,
}

pub data Key : Type 0 where
  host_key hostname_key port_key identity_file_key user_key mac_key description_key : Key
  tailscale_ip_key device_id_key rendezvous_server_key rendezvous_servers_key : Key
  rendezvous_key_key quic_port_key platform_key lan_first_key enrollment_token_key : Key
  session_log_key session_log_dir_key session_log_retain_key fs_spool_key : Key

abbrev pub keys : List (Text × Key)
keys =
    (chars "host", host_key)
    ∷ (chars "hostname", hostname_key)
    ∷ (chars "port", port_key)
    ∷ (chars "identityfile", identity_file_key)
    ∷ (chars "user", user_key)
    ∷ (chars "mac", mac_key)
    ∷ (chars "macaddress", mac_key)
    ∷ (chars "description", description_key)
    ∷ (chars "tailscaleip", tailscale_ip_key)
    ∷ (chars "deviceid", device_id_key)
    ∷ (chars "rendezvousserver", rendezvous_server_key)
    ∷ (chars "rendezvous", rendezvous_server_key)
    ∷ (chars "rendezvousservers", rendezvous_servers_key)
    ∷ (chars "rendezvouskey", rendezvous_key_key)
    ∷ (chars "quicport", quic_port_key)
    ∷ (chars "platform", platform_key)
    ∷ (chars "lanfirst", lan_first_key)
    ∷ (chars "enrollmenttoken", enrollment_token_key)
    ∷ (chars "sessionlog", session_log_key)
    ∷ (chars "sessionlogdir", session_log_dir_key)
    ∷ (chars "sessionlogretain", session_log_retain_key)
    ∷ (chars "fsspool", fs_spool_key)
    ∷ []

-- The configuration so far, and the host block that is open.
abbrev pub Parsing : Type 0
Parsing = Config × Option HostConfig

abbrev pub on_host : (HostConfig → HostConfig) → (Config → Config) → Parsing → Parsing
on_host host global (cfg, none) = (global cfg, none)
on_host host global (cfg, some h) = (cfg, some (host h))

abbrev pub close : Parsing → Config
close (cfg, none) = cfg
close (cfg, some h) = record cfg { hosts = cfg.hosts ++ (h ∷ []) }

abbrev pub same {ℓ} : {A : Type ℓ} → A → A
same a = a

abbrev pub is_quote : ℕ → Bool
is_quote c = c == 0x22 || c == 0x27

abbrev pub comma_to_space : ℕ → ℕ
comma_to_space c = if c == b',' then 0x20 else c

abbrev pub parse_server_list : Text → List Text
parse_server_list value = split_whitespace (map comma_to_space value)

-- `LanFirst::from_str`
abbrev pub is_one_of : List Text → Text → Bool
is_one_of [] text = false
is_one_of (t ∷ ts) text = text_eq text t || is_one_of ts text

unfoldable pub lan_first_of : Text → LanFirst
lan_first_of value =
    let word = ascii_lower value in
    if is_one_of (chars "yes" ∷ chars "true" ∷ chars "1" ∷ []) word
    then lan_yes
    else if is_one_of (chars "no" ∷ chars "false" ∷ chars "0" ∷ []) word
    then lan_no
    else lan_auto

abbrev pub with_port : Option ℕ → HostConfig → HostConfig
with_port none h = h
with_port (some p) h = record h { port = p }

abbrev pub with_quic_port : Option ℕ → HostConfig → HostConfig
with_quic_port none h = h
with_quic_port (some p) h = record h { quic_port = some p }

abbrev pub with_retain : Option ℕ → Config → Config
with_retain none cfg = cfg
with_retain (some days) cfg = record cfg { session_log_retain = days }

-- The part of the line before and behind the first whitespace, or else the first `=`.
abbrev pub trim_both : Option (Text × Text) → Option (Text × Text)
trim_both none = none
trim_both (some (key, value)) = some (trim key, trim value)

abbrev pub or_equals : Text → Option (Text × Text) → Option (Text × Text)
or_equals line none = trim_both (split_once (λ c. c == b'=') line)
or_equals line (some split) = trim_both (some split)

unfoldable pub key_value : Text → Option (Text × Text)
unfolding split_once
key_value line = or_equals line (split_once is_whitespace line)

abbrev pub is_skipped : Text → Bool
is_skipped [] = true
is_skipped (c ∷ cs) = c == b'#'

-- `home_join` is a path below the home directory, where there is one; `to_lowercase` is Unicode's.
module _ (to_lowercase : Text → Text) (home_join : Text → Option Text) where
  abbrev pub or_value : Text → Option Text → Text
  or_value value none = value
  or_value value (some path) = path

  unfoldable pub expand : Text → Text
  expand value =
      if starts_with value (chars "~/") then or_value value (home_join (drop 2 value)) else value

  abbrev pub is_enabled : Text → Bool
  is_enabled value = is_one_of (chars "true" ∷ chars "yes" ∷ chars "1" ∷ []) (to_lowercase value)

  -- The arms of the `match` on the key.
  unfoldable pub set_key : Key → Text → Parsing → Parsing
  unfolding expand lan_first_of
  set_key host_key value s = (close s, some (new_host value))
  set_key hostname_key value s = on_host (λ h. record h { hostname = some value }) same s
  set_key port_key value s = on_host (with_port (parse_u16 value)) same s
  set_key identity_file_key value s =
      on_host (λ h. record h { identity_file = some (expand value) }) same s
  set_key user_key value s = on_host (λ h. record h { user = some value }) same s
  set_key mac_key value s = on_host (λ h. record h { mac = some value }) same s
  set_key description_key value s = on_host (λ h. record h { description = some value }) same s
  set_key tailscale_ip_key value s = on_host (λ h. record h { tailscale_ip = some value }) same s
  set_key device_id_key value s =
      on_host (λ h. record h { device_id = some value }) (λ g. record g { device_id = some value })
        s
  set_key rendezvous_server_key value s =
      on_host (λ h. record h { rendezvous_server = some value })
        (λ g. record g { rendezvous_server = some value }) s
  set_key rendezvous_servers_key value s =
      on_host (λ h. record h { rendezvous_servers = parse_server_list value })
        (λ g. record g { rendezvous_servers = parse_server_list value }) s
  set_key rendezvous_key_key value s =
      on_host (λ h. record h { rendezvous_key = some value })
        (λ g. record g { rendezvous_key = some value }) s
  set_key quic_port_key value s = on_host (with_quic_port (parse_u16 value)) same s
  set_key platform_key value s =
      on_host (λ h. record h { platform = some (to_lowercase value) }) same s
  set_key lan_first_key value s = on_host (λ h. record h { lan_first = lan_first_of value }) same s
  set_key enrollment_token_key value s =
      on_host same (λ g. record g { enrollment_token = some value }) s
  set_key session_log_key value s =
      on_host (λ h. record h { session_log = some (is_enabled value) })
        (λ g. record g { session_log = is_enabled value }) s
  set_key session_log_dir_key value s =
      on_host same (λ g. record g { session_log_dir = some (expand value) }) s
  set_key session_log_retain_key value s = on_host same (with_retain (parse_u32 value)) s
  set_key fs_spool_key value s = on_host same (λ g. record g { fs_spool = some (expand value) }) s

  abbrev pub set_known : Option Key → Text → Parsing → Parsing
  set_known none value s = s
  set_known (some key) value s = set_key key value s

  abbrev pub set_pair : Option (Text × Text) → Parsing → Parsing
  set_pair none s = s
  set_pair (some (key, value)) s =
      set_known (arm keys (to_lowercase key)) (trim_matches is_quote value) s

  unfoldable pub parse_line : Text → Parsing → Parsing
  unfolding key_value
  parse_line text s =
      let line = trim text in if is_skipped line then s else set_pair (key_value line) s

  unfoldable pub parse_lines : List Text → Parsing → Parsing
  unfolding parse_line
  parse_lines [] s = s
  parse_lines (line ∷ rest) s = parse_lines rest (parse_line line s)

  unfoldable pub parse : Text → Config
  unfolding parse_lines
  parse content = close (parse_lines (lines content) (default_config, none))
