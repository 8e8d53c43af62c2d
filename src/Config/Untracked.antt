-- ===== src/Config/Untracked.antt =====
-- The release track and the flag for automatic upgrades are never read from a file.
use rsh.Prelude.{◌≡◌, refl, ℕ, Option, none, some, List, [], ◌∷◌, ◌++◌, Bool-cases, inl, inr}
use rsh.Text.{Text, text_eq, trim, trim_matches}
use rsh.Text.Split.{lines, arm}
use rsh.Text.Number.{parse_u16, parse_u32}
use rsh.Config.{
  HostConfig, Config, default_config, host_named, and_then, track_for, auto_upgrade_for,
}
use rsh.Config.Parse.{
  Parsing, Key, host_key, hostname_key, port_key, identity_file_key, user_key, mac_key,
  description_key, tailscale_ip_key, device_id_key, rendezvous_server_key, rendezvous_servers_key,
  rendezvous_key_key, quic_port_key, platform_key, lan_first_key, enrollment_token_key,
  session_log_key, session_log_dir_key, session_log_retain_key, fs_spool_key, keys, close, is_quote,
  with_port, with_quic_port, with_retain, key_value, is_skipped, set_key, set_known, set_pair,
  parse_line, parse_lines, parse,
}
use rsh.Config.Fields.{IfSome}

abbrev Untracked : HostConfig → Type 0
Untracked h = (h.track ≡ none) × (h.auto_upgrade ≡ none)

abbrev AllUntracked : List HostConfig → Type 0
AllUntracked [] = Unit
AllUntracked (h ∷ hosts) = Untracked h × AllUntracked hosts

abbrev StateUntracked : Parsing → Type 0
StateUntracked (cfg, open_host) = AllUntracked cfg.hosts × IfSome Untracked open_host

AllUntracked-snoc :
    (hosts : List HostConfig) (h : HostConfig)
    → AllUntracked hosts
    → Untracked h
    → AllUntracked (hosts ++ (h ∷ []))
AllUntracked-snoc [] h a u = (u, tt)
AllUntracked-snoc (x ∷ hosts) h a u = (a.0, AllUntracked-snoc hosts h a.1 u)

close-AllUntracked : (s : Parsing) → StateUntracked s → AllUntracked (close s).hosts
close-AllUntracked (cfg, none) u = u.0
close-AllUntracked (cfg, some h) u = AllUntracked-snoc cfg.hosts h u.0 u.1

with_port-Untracked : (p : Option ℕ) (h : HostConfig) → Untracked h → Untracked (with_port p h)
with_port-Untracked none h u = u
with_port-Untracked (some p) h u = u

with_quic_port-Untracked :
    (p : Option ℕ) (h : HostConfig) → Untracked h → Untracked (with_quic_port p h)
with_quic_port-Untracked none h u = u
with_quic_port-Untracked (some p) h u = u

with_retain-AllUntracked :
    (p : Option ℕ) (cfg : Config) → AllUntracked cfg.hosts → AllUntracked (with_retain p cfg).hosts
with_retain-AllUntracked none cfg u = u
with_retain-AllUntracked (some p) cfg u = u

module _ (to_lowercase : Text → Text) (home_join : Text → Option Text) where
  set_key-StateUntracked :
      (key : Key) (value : Text) (s : Parsing)
      → StateUntracked s
      → StateUntracked (set_key to_lowercase home_join key value s)
  unfolding set_key
  set_key-StateUntracked host_key value s u = (close-AllUntracked s u, (refl, refl))
  set_key-StateUntracked hostname_key value (cfg, none) u = u
  set_key-StateUntracked hostname_key value (cfg, some h) u = u
  set_key-StateUntracked port_key value (cfg, none) u = u
  set_key-StateUntracked port_key value (cfg, some h) u =
      (u.0, with_port-Untracked (parse_u16 value) h u.1)
  set_key-StateUntracked identity_file_key value (cfg, none) u = u
  set_key-StateUntracked identity_file_key value (cfg, some h) u = u
  set_key-StateUntracked user_key value (cfg, none) u = u
  set_key-StateUntracked user_key value (cfg, some h) u = u
  set_key-StateUntracked mac_key value (cfg, none) u = u
  set_key-StateUntracked mac_key value (cfg, some h) u = u
  set_key-StateUntracked description_key value (cfg, none) u = u
  set_key-StateUntracked description_key value (cfg, some h) u = u
  set_key-StateUntracked tailscale_ip_key value (cfg, none) u = u
  set_key-StateUntracked tailscale_ip_key value (cfg, some h) u = u
  set_key-StateUntracked device_id_key value (cfg, none) u = u
  set_key-StateUntracked device_id_key value (cfg, some h) u = u
  set_key-StateUntracked rendezvous_server_key value (cfg, none) u = u
  set_key-StateUntracked rendezvous_server_key value (cfg, some h) u = u
  set_key-StateUntracked rendezvous_servers_key value (cfg, none) u = u
  set_key-StateUntracked rendezvous_servers_key value (cfg, some h) u = u
  set_key-StateUntracked rendezvous_key_key value (cfg, none) u = u
  set_key-StateUntracked rendezvous_key_key value (cfg, some h) u = u
  set_key-StateUntracked quic_port_key value (cfg, none) u = u
  set_key-StateUntracked quic_port_key value (cfg, some h) u =
      (u.0, with_quic_port-Untracked (parse_u16 value) h u.1)
  set_key-StateUntracked platform_key value (cfg, none) u = u
  set_key-StateUntracked platform_key value (cfg, some h) u = u
  set_key-StateUntracked lan_first_key value (cfg, none) u = u
  set_key-StateUntracked lan_first_key value (cfg, some h) u = u
  set_key-StateUntracked enrollment_token_key value (cfg, none) u = u
  set_key-StateUntracked enrollment_token_key value (cfg, some h) u = u
  set_key-StateUntracked session_log_key value (cfg, none) u = u
  set_key-StateUntracked session_log_key value (cfg, some h) u = u
  set_key-StateUntracked session_log_dir_key value (cfg, none) u = u
  set_key-StateUntracked session_log_dir_key value (cfg, some h) u = u
  set_key-StateUntracked session_log_retain_key value (cfg, none) u =
      (with_retain-AllUntracked (parse_u32 value) cfg u.0, tt)
  set_key-StateUntracked session_log_retain_key value (cfg, some h) u = u
  set_key-StateUntracked fs_spool_key value (cfg, none) u = u
  set_key-StateUntracked fs_spool_key value (cfg, some h) u = u

  set_known-StateUntracked :
      (key : Option Key) (value : Text) (s : Parsing)
      → StateUntracked s
      → StateUntracked (set_known to_lowercase home_join key value s)
  set_known-StateUntracked none value s u = u
  set_known-StateUntracked (some key) value s u = set_key-StateUntracked key value s u

  set_pair-StateUntracked :
      (pair : Option (Text × Text)) (s : Parsing)
      → StateUntracked s
      → StateUntracked (set_pair to_lowercase home_join pair s)
  set_pair-StateUntracked none s u = u
  set_pair-StateUntracked (some (key, value)) s u =
      set_known-StateUntracked (arm keys (to_lowercase key)) (trim_matches is_quote value) s u

  parse_line-StateUntracked :
      (line : Text) (s : Parsing)
      → StateUntracked s
      → StateUntracked (parse_line to_lowercase home_join line s)
  unfolding parse_line
  parse_line-StateUntracked line s u = elim (Bool-cases (is_skipped (trim line))) [
    | inl skipped ↦ rw skipped u
    | inr read ↦ rw read (set_pair-StateUntracked (key_value (trim line)) s u)
  ]

  parse_lines-StateUntracked :
      (text : List Text) (s : Parsing)
      → StateUntracked s
      → StateUntracked (parse_lines to_lowercase home_join text s)
  unfolding parse_lines
  parse_lines-StateUntracked [] s u = u
  parse_lines-StateUntracked (line ∷ rest) s u =
      parse_lines-StateUntracked rest _ (parse_line-StateUntracked line s u)

host_named_untracked :
    (name : Text) (hosts : List HostConfig)
    → AllUntracked hosts
    → (and_then (λ h. h.track) (host_named name hosts) ≡ none)
      × (and_then (λ h. h.auto_upgrade) (host_named name hosts) ≡ none)
unfolding host_named
host_named_untracked name [] u = (refl, refl)
host_named_untracked name (h ∷ hosts) u = elim (Bool-cases (text_eq h.pattern name)) [
  | inl here ↦ rw here u.0
  | inr other ↦ rw other (host_named_untracked name hosts u.1)
]

-- Whatever the file says, a configuration that was read gives no host a release track and no host
-- a flag for automatic upgrades.
pub track_for-parse :
    (to_lowercase : Text → Text) (home_join : Text → Option Text) (content name : Text)
    → (track_for (parse to_lowercase home_join content) name ≡ none)
      × (auto_upgrade_for (parse to_lowercase home_join content) name ≡ none)
unfolding track_for auto_upgrade_for parse
track_for-parse to_lowercase home_join content name =
    host_named_untracked name (parse to_lowercase home_join content).hosts (
      close-AllUntracked _ (
        parse_lines-StateUntracked to_lowercase home_join (lines content) (default_config, none)
          (tt, tt)))
