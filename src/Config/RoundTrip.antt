-- ===== src/Config/RoundTrip.antt =====
-- A configuration is read back from its text.
use rsh.Prelude.{
  ℕ, ◌<◌, ◌^◌, ◌≡◌, refl, sym, ap, ◌∙◌, Bool, true, false, not, Option, none, some, List, [], ◌∷◌,
  ◌++◌, ◌==◌, map, ==_iff, append_assoc, append-nil,
}
use rsh.Text.{Text, chars}
use rsh.Text.Number.{show_nat, parse_u32-show_nat}
use rsh.Config.{HostConfig, Config, new_host, default_config}
use rsh.Config.Parse.{
  Parsing, host_key, device_id_key, rendezvous_server_key, rendezvous_servers_key,
  rendezvous_key_key, enrollment_token_key, session_log_key, session_log_dir_key,
  session_log_retain_key, fs_spool_key, close, set_key, with_retain, parse_line, parse_lines, parse,
}
use rsh.Config.Print.{
  line_if, bool_text, host_fields, host_lines, global_lines, more_blocks, blocks, config_lines,
  to_string,
}
use rsh.Config.Labels.{show_nat-IsClean}
use rsh.Config.Fields.{
  Lowers, L, both_parts, both, Part, opt_part, path_part, list_part, line_sets, line_if_sets,
  bool_text-IsClean,
}
use rsh.Config.HostBlock.{
  IsValidHost, kept_host, expand-IsPath, is_enabled-bool_text, parse_lines-host_fields,
}
use rsh.Config.Valid.{IsValid, AllValid}
use rsh.Config.Lines.{lines-unlines, config_lines-AllLines}

-- What is left of a configuration.
abbrev pub kept : Config → Config
kept cfg = record cfg { hosts = map kept_host cfg.hosts }

not_injective : (b c : Bool) → not b ≡ not c → b ≡ c
not_injective true true e = refl
not_injective false false e = refl
not_injective true false e = cc
not_injective false true e = cc

module _ (to_lowercase : Text → Text) (home_join : Text → Option Text)
    (lowers : Lowers to_lowercase) where
  abbrev read_lines : List Text → Parsing → Parsing
  read_lines = L to_lowercase home_join lowers

  host_block :
      (h : HostConfig) (s : Parsing)
      → IsValidHost h
      → read_lines (host_lines h) s ≡ (close s, some (kept_host h))
  unfolding host_lines set_key
  host_block h s valid =
      both_parts to_lowercase home_join lowers ((chars "Host " ++ h.pattern) ∷ []) (host_fields h) s
        (close s, some (new_host h.pattern)) (close s, some (kept_host h))
        (line_sets to_lowercase home_join lowers 0 (chars "Host") host_key h.pattern s refl refl
          refl valid.pattern)
        (parse_lines-host_fields to_lowercase home_join lowers (close s) h valid)

  blank : (rest : List Text) (s : Parsing) → read_lines ([] ∷ rest) s ≡ read_lines rest s
  unfolding parse_lines parse_line
  blank rest s = refl

  other_blocks :
      (hosts : List HostConfig) (s : Parsing)
      → AllValid hosts
      → close (read_lines (more_blocks hosts) s)
        ≡ record (close s) { hosts = (close s).hosts ++ map kept_host hosts }
  unfolding more_blocks
  other_blocks [] s valid =
      unfold parse_lines in
      ap (λ (hs : List HostConfig). record (close s) { hosts = hs })
        (sym (append-nil (close s).hosts))
  other_blocks (h ∷ hosts) s valid =
      ap close (
        blank (host_lines h ++ more_blocks hosts) s
        ∙ both_parts to_lowercase home_join lowers (host_lines h) (more_blocks hosts) s
            (close s, some (kept_host h)) _ (host_block h s valid.0) refl)
      ∙ other_blocks hosts (close s, some (kept_host h)) valid.1
      ∙ ap (λ (hs : List HostConfig). record (close s) { hosts = hs })
          (append_assoc (close s).hosts (kept_host h ∷ []) (map kept_host hosts))

  unfoldable log_part :
      (g : Config) (session_log : Bool)
      → g.session_log ≡ true
      → Part to_lowercase home_join lowers (g, none) (record g { session_log = session_log }, none)
  unfolding set_key
  log_part g session_log start = record {
    lines = line_if (not session_log) (chars "SessionLog " ++ bool_text false);
    reads =
        line_if_sets to_lowercase home_join lowers 0 (chars "SessionLog") session_log_key refl refl
          refl (not session_log) (bool_text false) (g, none) _ (bool_text-IsClean false)
          (λ off.
            ap (λ (b : Bool). (record g { session_log = b }, none))
              (is_enabled-bool_text to_lowercase home_join lowers false
                ∙ sym (not_injective session_log false off)))
          (λ on.
            ap (λ (b : Bool). (record g { session_log = b }, none))
              (start ∙ sym (not_injective session_log true on)));
  }

  unfoldable retain_part :
      (g : Config) (days : ℕ)
      → days < 2 ^ 32
      → g.session_log_retain ≡ 90
      → Part to_lowercase home_join lowers (g, none) (record g { session_log_retain = days }, none)
  unfolding set_key
  retain_part g days fits start = record {
    lines = line_if (not (days == 90)) (chars "SessionLogRetain " ++ show_nat days);
    reads =
        line_if_sets to_lowercase home_join lowers 0 (chars "SessionLogRetain")
          session_log_retain_key refl refl refl (not (days == 90)) (show_nat days) (g, none) _
          (show_nat-IsClean days)
          (λ other. ap (λ (p : Option ℕ). (with_retain p g, none)) (parse_u32-show_nat days fits))
          (λ ninety.
            ap (λ (n : ℕ). (record g { session_log_retain = n }, none))
              (start ∙ sym ((==_iff days 90).0 (not_injective (days == 90) true ninety))));
  }

  parse_lines-global_lines :
      (cfg : Config)
      → IsValid cfg
      → read_lines (global_lines cfg) (default_config, none) ≡ (record cfg { hosts = [] }, none)
  unfolding global_lines set_key log_part retain_part
  parse_lines-global_lines cfg valid =
      let g0 : Config = default_config in
      let g1 : Config = record g0 { device_id = cfg.device_id } in
      let g2 : Config = record g1 { rendezvous_server = cfg.rendezvous_server } in
      let g3 : Config = record g2 { rendezvous_servers = cfg.rendezvous_servers } in
      let g4 : Config = record g3 { rendezvous_key = cfg.rendezvous_key } in
      let g5 : Config = record g4 { enrollment_token = cfg.enrollment_token } in
      let g6 : Config = record g5 { session_log = cfg.session_log } in
      let g7 : Config = record g6 { session_log_dir = cfg.session_log_dir } in
      let g8 : Config = record g7 { session_log_retain = cfg.session_log_retain } in
      ((both to_lowercase home_join lowers
        (opt_part to_lowercase home_join lowers 0 (chars "DeviceID") device_id_key refl refl refl
          cfg.device_id (λ o. (record g0 { device_id = o }, none)) valid.device_id (λ v. refl))
        (both to_lowercase home_join lowers
          (opt_part to_lowercase home_join lowers 0 (chars "RendezvousServer") rendezvous_server_key
            refl refl refl cfg.rendezvous_server (λ o. (record g1 { rendezvous_server = o }, none))
            valid.rendezvous_server (λ v. refl))
          (both to_lowercase home_join lowers
            (list_part to_lowercase home_join lowers 0 (chars "RendezvousServers")
              rendezvous_servers_key refl refl refl cfg.rendezvous_servers
              (λ o. (record g2 { rendezvous_servers = o }, none)) valid.rendezvous_servers
              (λ v. refl))
            (both to_lowercase home_join lowers
              (opt_part to_lowercase home_join lowers 0 (chars "RendezvousKey") rendezvous_key_key
                refl refl refl cfg.rendezvous_key (λ o. (record g3 { rendezvous_key = o }, none))
                valid.rendezvous_key (λ v. refl))
              (both to_lowercase home_join lowers
                (opt_part to_lowercase home_join lowers 0 (chars "EnrollmentToken")
                  enrollment_token_key refl refl refl cfg.enrollment_token
                  (λ o. (record g4 { enrollment_token = o }, none)) valid.enrollment_token
                  (λ v. refl))
                (both to_lowercase home_join lowers (log_part g5 cfg.session_log refl) (
                  both to_lowercase home_join lowers
                    (path_part to_lowercase home_join lowers 0 (chars "SessionLogDir")
                      session_log_dir_key refl refl refl cfg.session_log_dir
                      (λ o. (record g6 { session_log_dir = o }, none)) valid.session_log_dir
                      valid.session_log_dir_path
                      (λ v p.
                        ap (λ (t : Text). (record g6 { session_log_dir = some t }, none))
                          (expand-IsPath to_lowercase home_join v p)))
                    (both to_lowercase home_join lowers
                      (retain_part g7 cfg.session_log_retain valid.session_log_retain refl)
                      (path_part to_lowercase home_join lowers 0 (chars "FsSpool") fs_spool_key refl
                        refl refl cfg.fs_spool (λ o. (record g8 { fs_spool = o }, none))
                        valid.fs_spool valid.fs_spool_path
                        (λ v p.
                          ap (λ (t : Text). (record g8 { fs_spool = some t }, none))
                            (expand-IsPath to_lowercase home_join v p)))))))))))).reads

  all_blocks :
      (hosts : List HostConfig) (cfg : Config)
      → AllValid hosts
      → close (read_lines (blocks hosts) (record cfg { hosts = [] }, none))
        ≡ record cfg { hosts = map kept_host hosts }
  unfolding blocks
  all_blocks [] cfg valid = unfold parse_lines in refl
  all_blocks (h ∷ hosts) cfg valid =
      let start : Parsing = (record cfg { hosts = [] }, none) in
      ap close (
        both_parts to_lowercase home_join lowers (host_lines h) (more_blocks hosts) start
          (record cfg { hosts = [] }, some (kept_host h)) _ (host_block h start valid.0) refl)
      ∙ other_blocks hosts (record cfg { hosts = [] }, some (kept_host h)) valid.1

  spaced_blocks :
      (b : Bool) (hosts : List HostConfig) (cfg : Config)
      → AllValid hosts
      → close (read_lines (line_if b [] ++ blocks hosts) (record cfg { hosts = [] }, none))
        ≡ record cfg { hosts = map kept_host hosts }
  spaced_blocks true hosts cfg valid =
      ap close (blank (blocks hosts) (record cfg { hosts = [] }, none)) ∙ all_blocks hosts cfg valid
  spaced_blocks false hosts cfg valid = all_blocks hosts cfg valid

-- A configuration is read back from the text that `to_string` makes of it, but for four fields of
-- each host, which are lost: the QUIC port, the platform, the release track and the flag for
-- automatic upgrades. A port of 0 is read back as 8822. Each value must be a text of one line that
-- neither begins nor ends with whitespace or a quote, paths must not begin with `~/`, the server
-- lists must hold names without whitespace and commas, ports must fit 16 bits and the days to
-- retain 32 bits; `to_lowercase` must lower the case of ASCII texts.
pub parse-to_string :
    (to_lowercase : Text → Text) (home_join : Text → Option Text)
    → Lowers to_lowercase
    → (cfg : Config) → IsValid cfg
    → parse to_lowercase home_join (to_string cfg) ≡ kept cfg
unfolding parse to_string config_lines
parse-to_string to_lowercase home_join lowers cfg valid =
    ap (λ (ls : List Text). close (parse_lines to_lowercase home_join ls (default_config, none)))
      (lines-unlines (config_lines cfg) (config_lines-AllLines cfg valid))
    ∙ ap close (
        both_parts to_lowercase home_join lowers (global_lines cfg) _ (default_config, none)
          (record cfg { hosts = [] }, none) _
          (parse_lines-global_lines to_lowercase home_join lowers cfg valid) refl)
    ∙ spaced_blocks to_lowercase home_join lowers _ cfg.hosts cfg valid.hosts
