-- ===== src/Config/Print.antt =====
-- `Config::to_string`: the lines of the text, each pushed with its line feed.
use rsh.Prelude.{
  Bool, true, false, ◌||◌, ◌&&◌, not, Option, none, some, List, [], ◌∷◌, ◌++◌, ◌==◌, ltb,
}
use rsh.Text.{Text, chars}
use rsh.Text.Number.{show_nat}
use rsh.Config.{LanFirst, lan_auto, lan_yes, lan_no, HostConfig, Config}

-- A line with its label, if there is a value.
abbrev pub opt_line : Text → Option Text → List Text
opt_line label none = []
opt_line label (some value) = (label ++ value) ∷ []

abbrev pub line_if : Bool → Text → List Text
line_if true line = line ∷ []
line_if false line = []

-- `join(", ")`
abbrev pub join : List Text → Text
join [] = []
join (s ∷ []) = s
join (s ∷ t ∷ rest) = s ++ (b',' ∷ 0x20 ∷ join (t ∷ rest))

abbrev pub list_line : Text → List Text → List Text
list_line label [] = []
list_line label (s ∷ servers) = (label ++ join (s ∷ servers)) ∷ []

abbrev pub bool_text : Bool → Text
bool_text true = chars "true"
bool_text false = chars "false"

abbrev pub bool_line : Text → Option Bool → List Text
bool_line label none = []
bool_line label (some b) = (label ++ bool_text b) ∷ []

abbrev pub lan_line : LanFirst → List Text
lan_line lan_yes = chars "    LanFirst yes" ∷ []
lan_line lan_no = chars "    LanFirst no" ∷ []
lan_line lan_auto = []

unfoldable pub host_fields : HostConfig → List Text
host_fields h =
    opt_line (chars "    Hostname ") h.hostname
    ++ (line_if (ltb 0 h.port) (chars "    Port " ++ show_nat h.port)
        ++ (opt_line (chars "    IdentityFile ") h.identity_file
            ++ (opt_line (chars "    User ") h.user
                ++ (opt_line (chars "    MAC ") h.mac
                    ++ (opt_line (chars "    DeviceID ") h.device_id
                        ++ (opt_line (chars "    Description ") h.description
                            ++ (opt_line (chars "    TailscaleIP ") h.tailscale_ip
                                ++ (opt_line (chars "    RendezvousServer ") h.rendezvous_server
                                    ++ (list_line (chars "    RendezvousServers ")
                                          h.rendezvous_servers
                                        ++ (opt_line (chars "    RendezvousKey ") h.rendezvous_key
                                            ++ (bool_line (chars "    SessionLog ") h.session_log
                                                ++ lan_line h.lan_first)))))))))))

unfoldable pub host_lines : HostConfig → List Text
unfolding host_fields
host_lines h = (chars "Host " ++ h.pattern) ∷ host_fields h

-- The blocks, with an empty line between two.
unfoldable pub more_blocks : List HostConfig → List Text
unfolding host_lines
more_blocks [] = []
more_blocks (h ∷ hosts) = [] ∷ (host_lines h ++ more_blocks hosts)

unfoldable pub blocks : List HostConfig → List Text
unfolding more_blocks
blocks [] = []
blocks (h ∷ hosts) = host_lines h ++ more_blocks hosts

unfoldable pub global_lines : Config → List Text
global_lines cfg =
    opt_line (chars "DeviceID ") cfg.device_id
    ++ (opt_line (chars "RendezvousServer ") cfg.rendezvous_server
        ++ (list_line (chars "RendezvousServers ") cfg.rendezvous_servers
            ++ (opt_line (chars "RendezvousKey ") cfg.rendezvous_key
                ++ (opt_line (chars "EnrollmentToken ") cfg.enrollment_token
                    ++ (line_if (not cfg.session_log) (chars "SessionLog false")
                        ++ (opt_line (chars "SessionLogDir ") cfg.session_log_dir
                            ++ (line_if (not (cfg.session_log_retain == 90))
                                  (chars "SessionLogRetain " ++ show_nat cfg.session_log_retain)
                                ++ opt_line (chars "FsSpool ") cfg.fs_spool)))))))

abbrev is_some {ℓ} : {A : Type ℓ} → Option A → Bool
is_some none = false
is_some (some a) = true

abbrev is_filled {ℓ} : {A : Type ℓ} → List A → Bool
is_filled [] = false
is_filled (x ∷ xs) = true

abbrev pub has_global : Config → Bool
has_global cfg =
    is_some cfg.device_id
    || is_some cfg.rendezvous_server
    || is_filled cfg.rendezvous_servers
    || is_some cfg.rendezvous_key
    || is_some cfg.enrollment_token
    || not cfg.session_log
    || is_some cfg.fs_spool

unfoldable pub config_lines : Config → List Text
unfolding global_lines blocks
config_lines cfg =
    global_lines cfg ++ (line_if (has_global cfg && is_filled cfg.hosts) [] ++ blocks cfg.hosts)

unfoldable pub unlines : List Text → Text
unlines [] = []
unlines (line ∷ rest) = line ++ (0x0A ∷ unlines rest)

unfoldable pub to_string : Config → Text
unfolding config_lines unlines
to_string cfg = unlines (config_lines cfg)
