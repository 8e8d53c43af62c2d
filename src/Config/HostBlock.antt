-- ===== src/Config/HostBlock.antt =====
-- A host block is read back, without the fields that are never written.
use rsh.Prelude.{
  ℕ, ◌<◌, ◌^◌, ◌≡◌, refl, ap, ◌∙◌, Bool, true, false, Option, none, some, [], ◌∷◌, ◌++◌,
  if◌then◌else◌, ltb,
}
use rsh.Text.{Text, chars}
use rsh.Text.Number.{show_nat, parse_u16-show_nat}
use rsh.Config.{HostConfig, Config, LanFirst, lan_auto, lan_yes, lan_no, new_host}
use rsh.Config.Parse.{
  hostname_key, port_key, identity_file_key, user_key, mac_key, device_id_key, description_key,
  tailscale_ip_key, rendezvous_server_key, rendezvous_servers_key, rendezvous_key_key,
  session_log_key, lan_first_key, set_key, lan_first_of, expand, is_one_of, with_port, parse_lines,
}
use rsh.Config.Print.{line_if, bool_line, bool_text, lan_line, host_fields}
use rsh.Config.Values.{IsClean}
use rsh.Config.Labels.{show_nat-IsClean}
use rsh.Config.Fields.{
  IfSome, IsList, Lowers, IsPath, L, both, Part, opt_part, path_part, list_part, line_sets,
  line_if_sets, bool_line_sets,
}

pub record IsValidHost (h : HostConfig) : Type 0 where
  pub pattern : IsClean h.pattern
  pub hostname : IfSome IsClean h.hostname
  pub port : h.port < 2 ^ 16
  pub identity_file : IfSome IsClean h.identity_file
  pub identity_path : IfSome IsPath h.identity_file
  pub user : IfSome IsClean h.user
  pub mac : IfSome IsClean h.mac
  pub device_id : IfSome IsClean h.device_id
  pub description : IfSome IsClean h.description
  pub tailscale_ip : IfSome IsClean h.tailscale_ip
  pub rendezvous_server : IfSome IsClean h.rendezvous_server
  pub rendezvous_servers : IsList h.rendezvous_servers
  pub rendezvous_key : IfSome IsClean h.rendezvous_key

-- What is left of a host: a port of 0 becomes the default, and four fields are lost.
abbrev pub kept_host : HostConfig → HostConfig
kept_host h = record h {
  port = if ltb 0 h.port then h.port else 8822;
  quic_port = none;
  platform = none;
  track = none;
  auto_upgrade = none;
}

module _ (to_lowercase : Text → Text) (home_join : Text → Option Text) where
  pub expand-IsPath : (value : Text) → IsPath value → expand to_lowercase home_join value ≡ value
  unfolding expand
  expand-IsPath value h = rw h refl

module _ (to_lowercase : Text → Text) (home_join : Text → Option Text)
    (lowers : Lowers to_lowercase) where
  pub is_enabled-bool_text :
      (b : Bool)
      → is_one_of (chars "true" ∷ chars "yes" ∷ chars "1" ∷ []) (to_lowercase (bool_text b)) ≡ b
  is_enabled-bool_text true =
      ap (is_one_of (chars "true" ∷ chars "yes" ∷ chars "1" ∷ [])) (lowers (chars "true") refl)
  is_enabled-bool_text false =
      ap (is_one_of (chars "true" ∷ chars "yes" ∷ chars "1" ∷ [])) (lowers (chars "false") refl)

  lan_line_sets :
      (lan : LanFirst) (cfg : Config) (h : HostConfig)
      → L to_lowercase home_join lowers
          (lan_line lan)
          (cfg, some (record h { lan_first = lan_auto }))
        ≡ (cfg, some (record h { lan_first = lan }))
  unfolding set_key lan_first_of
  lan_line_sets lan_auto cfg h = unfold parse_lines in refl
  lan_line_sets lan_yes cfg h =
      line_sets to_lowercase home_join lowers 4 (chars "LanFirst") lan_first_key (chars "yes")
        (cfg, some (record h { lan_first = lan_auto })) refl refl refl
        (record {
          trimmed = refl;
          unquoted = refl;
          front = chars "ye";
          last = b's';
          is_text = refl;
          last_kept = refl;
          one_line = (refl, (refl, (refl, tt)));
        })
  lan_line_sets lan_no cfg h =
      line_sets to_lowercase home_join lowers 4 (chars "LanFirst") lan_first_key (chars "no")
        (cfg, some (record h { lan_first = lan_auto })) refl refl refl
        (record {
          trimmed = refl;
          unquoted = refl;
          front = chars "n";
          last = b'o';
          is_text = refl;
          last_kept = refl;
          one_line = (refl, (refl, tt));
        })

  unfoldable port_part :
      (cfg : Config) (g : HostConfig) (port : ℕ)
      → port < 2 ^ 16
      → g.port ≡ 8822
      → Part to_lowercase home_join lowers
          (cfg, some g)
          (cfg, some (record g { port = if ltb 0 port then port else 8822 }))
  unfolding set_key
  port_part cfg g port fits start = record {
    lines = line_if (ltb 0 port) (chars "    Port " ++ show_nat port);
    reads =
        line_if_sets to_lowercase home_join lowers 4 (chars "Port") port_key refl refl refl
          (ltb 0 port) (show_nat port) (cfg, some g) _ (show_nat-IsClean port)
          (λ there.
            ap (λ (p : Option ℕ). (cfg, some (with_port p g))) (parse_u16-show_nat port fits)
            ∙ rw there refl)
          (λ gone. rw gone (ap (λ (p : ℕ). (cfg, some (record g { port = p }))) start));
  }

  -- The lines of the fields fill a new host.
  pub parse_lines-host_fields :
      (cfg : Config) (h : HostConfig)
      → IsValidHost h
      → L to_lowercase home_join lowers (host_fields h) (cfg, some (new_host h.pattern))
        ≡ (cfg, some (kept_host h))
  unfolding host_fields set_key port_part
  parse_lines-host_fields cfg h valid =
      let g0 : HostConfig = new_host h.pattern in
      let g1 : HostConfig = record g0 { hostname = h.hostname } in
      let g2 : HostConfig = record g1 { port = (if ltb 0 h.port then h.port else 8822) } in
      let g3 : HostConfig = record g2 { identity_file = h.identity_file } in
      let g4 : HostConfig = record g3 { user = h.user } in
      let g5 : HostConfig = record g4 { mac = h.mac } in
      let g6 : HostConfig = record g5 { device_id = h.device_id } in
      let g7 : HostConfig = record g6 { description = h.description } in
      let g8 : HostConfig = record g7 { tailscale_ip = h.tailscale_ip } in
      let g9 : HostConfig = record g8 { rendezvous_server = h.rendezvous_server } in
      let g10 : HostConfig = record g9 { rendezvous_servers = h.rendezvous_servers } in
      let g11 : HostConfig = record g10 { rendezvous_key = h.rendezvous_key } in
      let g12 : HostConfig = record g11 { session_log = h.session_log } in
      ((both to_lowercase home_join lowers
        (opt_part to_lowercase home_join lowers 4 (chars "Hostname") hostname_key refl refl refl
          h.hostname (λ o. (cfg, some (record g0 { hostname = o }))) valid.hostname (λ v. refl))
        (both to_lowercase home_join lowers (port_part cfg g1 h.port valid.port refl) (
          both to_lowercase home_join lowers
            (path_part to_lowercase home_join lowers 4 (chars "IdentityFile") identity_file_key refl
              refl refl h.identity_file (λ o. (cfg, some (record g2 { identity_file = o })))
              valid.identity_file valid.identity_path
              (λ v p.
                ap (λ (t : Text). (cfg, some (record g2 { identity_file = some t })))
                  (expand-IsPath to_lowercase home_join v p)))
            (both to_lowercase home_join lowers
              (opt_part to_lowercase home_join lowers 4 (chars "User") user_key refl refl refl
                h.user (λ o. (cfg, some (record g3 { user = o }))) valid.user (λ v. refl))
              (both to_lowercase home_join lowers
                (opt_part to_lowercase home_join lowers 4 (chars "MAC") mac_key refl refl refl h.mac
                  (λ o. (cfg, some (record g4 { mac = o }))) valid.mac (λ v. refl))
                (both to_lowercase home_join lowers
                  (opt_part to_lowercase home_join lowers 4 (chars "DeviceID") device_id_key refl
                    refl refl h.device_id (λ o. (cfg, some (record g5 { device_id = o })))
                    valid.device_id (λ v. refl))
                  (both to_lowercase home_join lowers
                    (opt_part to_lowercase home_join lowers 4 (chars "Description") description_key
                      refl refl refl h.description
                      (λ o. (cfg, some (record g6 { description = o }))) valid.description
                      (λ v. refl))
                    (both to_lowercase home_join lowers
                      (opt_part to_lowercase home_join lowers 4 (chars "TailscaleIP")
                        tailscale_ip_key refl refl refl h.tailscale_ip
                        (λ o. (cfg, some (record g7 { tailscale_ip = o }))) valid.tailscale_ip
                        (λ v. refl))
                      (both to_lowercase home_join lowers
                        (opt_part to_lowercase home_join lowers 4 (chars "RendezvousServer")
                          rendezvous_server_key refl refl refl h.rendezvous_server
                          (λ o. (cfg, some (record g8 { rendezvous_server = o })))
                          valid.rendezvous_server (λ v. refl))
                        (both to_lowercase home_join lowers
                          (list_part to_lowercase home_join lowers 4 (chars "RendezvousServers")
                            rendezvous_servers_key refl refl refl h.rendezvous_servers
                            (λ o. (cfg, some (record g9 { rendezvous_servers = o })))
                            valid.rendezvous_servers (λ v. refl))
                          (both to_lowercase home_join lowers
                            (opt_part to_lowercase home_join lowers 4 (chars "RendezvousKey")
                              rendezvous_key_key refl refl refl h.rendezvous_key
                              (λ o. (cfg, some (record g10 { rendezvous_key = o })))
                              valid.rendezvous_key (λ v. refl))
                            (both to_lowercase home_join lowers
                              (record {
                                lines = bool_line (chars "    SessionLog ") h.session_log;
                                reads =
                                    bool_line_sets to_lowercase home_join lowers 4
                                      (chars "SessionLog") session_log_key refl refl refl
                                      h.session_log
                                      (λ o. (cfg, some (record g11 { session_log = o })))
                                      (λ b.
                                        ap
                                          (λ (e : Bool).
                                            (cfg, some (record g11 { session_log = some e })))
                                          (is_enabled-bool_text b));
                              })
                              (record {
                                lines = lan_line h.lan_first;
                                reads = lan_line_sets h.lan_first cfg g12;
                              })))))))))))))).reads
