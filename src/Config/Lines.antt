-- ===== src/Config/Lines.antt =====
-- `lines` gives back the lines that `to_string` pushed.
use mathlib.Core.List.{reverse-append, reverse-reverse}
use rsh.Prelude.{
  ℕ, ◌≡◌, refl, sym, ap, ◌∙◌, Bool, true, false, not, ◌&&◌, Option, none, some, List, [], ◌∷◌, ◌++◌,
  reverse, arith, ltb, ◌==◌, Bool-cases, inl, inr, append_assoc, append-nil,
}
use rsh.Text.{Text, chars, is_whitespace, AllNot, AllNot-append, reverse-snoc}
use rsh.Text.Split.{lines, lines_from, without_return}
use rsh.Text.Number.{show_nat}
use rsh.Config.{HostConfig, Config, LanFirst, lan_auto, lan_yes, lan_no}
use rsh.Config.Print.{
  opt_line, line_if, list_line, join, bool_line, bool_text, lan_line, host_fields, host_lines,
  global_lines, more_blocks, blocks, config_lines, unlines,
}
use rsh.Config.Values.{IsClean, is_newline}
use rsh.Config.Labels.{show_nat-IsClean}
use rsh.Config.Fields.{IfSome, IsList, bool_text-IsClean}
use rsh.Config.HostBlock.{IsValidHost}
use rsh.Config.Valid.{IsValid, AllValid}

-- No line feed, and no carriage return at the end.
pub record IsLine (line : Text) : Type 0 where
  pub whole : AllNot is_newline line
  pub ends : without_return (reverse line) ≡ reverse line

abbrev pub AllLines : List Text → Type 0
AllLines [] = Unit
AllLines (line ∷ rest) = IsLine line × AllLines rest

lines_from-line :
    (l line rest : Text)
    → AllNot is_newline l
    → lines_from line (l ++ (0x0A ∷ rest))
      ≡ reverse (without_return (reverse l ++ line)) ∷ lines_from [] rest
unfolding lines_from
lines_from-line [] [] rest a = refl
lines_from-line [] (c ∷ line) rest a = refl
lines_from-line (x ∷ l) [] rest a = rw a.0 (
    lines_from-line l (x ∷ []) rest a.1
    ∙ ap (λ (t : Text). reverse (without_return t) ∷ lines_from [] rest)
        (sym (
          ap (λ (t : Text). t ++ []) (reverse-append (x ∷ []) l)
          ∙ append_assoc (reverse l) (x ∷ []) [])))
lines_from-line (x ∷ l) (c ∷ line) rest a = rw a.0 (
    lines_from-line l (x ∷ c ∷ line) rest a.1
    ∙ ap (λ (t : Text). reverse (without_return t) ∷ lines_from [] rest)
        (sym (
          ap (λ (t : Text). t ++ (c ∷ line)) (reverse-append (x ∷ []) l)
          ∙ append_assoc (reverse l) (x ∷ []) (c ∷ line))))

pub lines-unlines : (ls : List Text) → AllLines ls → lines (unlines ls) ≡ ls
unfolding lines unlines lines_from
lines-unlines [] a = refl
lines-unlines (l ∷ ls) a =
    lines_from-line l [] (unlines ls) a.0.whole
    ∙ ap (λ (t : Text). reverse (without_return t) ∷ lines (unlines ls)) (append-nil (reverse l))
    ∙ ap (λ (t : Text). reverse t ∷ lines (unlines ls)) a.0.ends
    ∙ ap (λ (t : Text). t ∷ lines (unlines ls)) (reverse-reverse l)
    ∙ ap (◌∷◌ l) (lines-unlines ls a.1)

unfoldable pub lacks : Text → Bool
lacks [] = true
lacks (c ∷ cs) = not (is_newline c) && lacks cs

pub lacks-AllNot : (t : Text) → lacks t ≡ true → AllNot is_newline t
unfolding lacks
lacks-AllNot [] h = tt
lacks-AllNot (c ∷ cs) h = let (a, b) = both (is_newline c) (lacks cs) h in (a, lacks-AllNot cs b)
  where
    both : (a b : Bool) → not a && b ≡ true → (a ≡ false) × (b ≡ true)
    both true b e = cc
    both false b e = (refl, e)

without_return_kept : (c : ℕ) (t : Text) → is_whitespace c ≡ false → without_return (c ∷ t) ≡ c ∷ t
without_return_kept c t h = elim (Bool-cases (c == 0x0D)) [
  | inl return ↦ absurd (ground arith)
  | inr other ↦ rw other refl
]

value-IsLine : (text value : Text) → lacks text ≡ true → IsClean value → IsLine (text ++ value)
value-IsLine text value h clean =
    let whole_text : text ++ value ≡ (text ++ clean.front) ++ (clean.last ∷ []) =
      ap (λ (t : Text). text ++ t) clean.is_text
      ∙ sym (append_assoc text clean.front (clean.last ∷ [])) in
    let reversed : reverse (text ++ value) ≡ clean.last ∷ reverse (text ++ clean.front) =
      ap reverse whole_text ∙ reverse-snoc (text ++ clean.front) clean.last in
    record {
      whole = AllNot-append is_newline text value (lacks-AllNot text h) clean.one_line;
      ends =
          ap without_return reversed
          ∙ without_return_kept clean.last (reverse (text ++ clean.front)) clean.last_kept
          ∙ sym reversed;
    }

AllLines-append : (xs ys : List Text) → AllLines xs → AllLines ys → AllLines (xs ++ ys)
AllLines-append [] ys a b = b
AllLines-append (x ∷ xs) ys a b = (a.0, AllLines-append xs ys a.1 b)

module _ (text : Text) (h : lacks text ≡ true) where
  opt_line-AllLines : (o : Option Text) → IfSome IsClean o → AllLines (opt_line text o)
  opt_line-AllLines none c = tt
  opt_line-AllLines (some v) c = (value-IsLine text v h c, tt)

  list_line-AllLines : (servers : List Text) → IsList servers → AllLines (list_line text servers)
  list_line-AllLines [] c = tt
  list_line-AllLines (s ∷ servers) c = (value-IsLine text (join (s ∷ servers)) h c.1, tt)

  bool_line-AllLines : (o : Option Bool) → AllLines (bool_line text o)
  bool_line-AllLines none = tt
  bool_line-AllLines (some b) = (value-IsLine text (bool_text b) h (bool_text-IsClean b), tt)

  line_if-AllLines :
      (b : Bool) (value : Text) → IsClean value → AllLines (line_if b (text ++ value))
  line_if-AllLines true value c = (value-IsLine text value h c, tt)
  line_if-AllLines false value c = tt

blank-AllLines : (b : Bool) → AllLines (line_if b [])
blank-AllLines true = (record { whole = tt; ends = refl }, tt)
blank-AllLines false = tt

lan_line-AllLines : (lan : LanFirst) → AllLines (lan_line lan)
unfolding lacks
lan_line-AllLines lan_auto = tt
lan_line-AllLines lan_yes =
    (record { whole = lacks-AllNot (chars "    LanFirst yes") refl; ends = refl }, tt)
lan_line-AllLines lan_no =
    (record { whole = lacks-AllNot (chars "    LanFirst no") refl; ends = refl }, tt)

host_lines-AllLines : (h : HostConfig) → IsValidHost h → AllLines (host_lines h)
unfolding host_lines host_fields lacks
host_lines-AllLines h valid = (
  value-IsLine (chars "Host ") h.pattern refl valid.pattern,
  (AllLines-append _ _ (opt_line-AllLines (chars "    Hostname ") refl h.hostname valid.hostname) (
      AllLines-append _ _
        (line_if-AllLines (chars "    Port ") refl (ltb 0 h.port) (show_nat h.port)
          (show_nat-IsClean h.port))
        (AllLines-append _ _
          (opt_line-AllLines (chars "    IdentityFile ") refl h.identity_file valid.identity_file)
          (AllLines-append _ _ (opt_line-AllLines (chars "    User ") refl h.user valid.user) (
            AllLines-append _ _ (opt_line-AllLines (chars "    MAC ") refl h.mac valid.mac) (
              AllLines-append _ _
                (opt_line-AllLines (chars "    DeviceID ") refl h.device_id valid.device_id)
                (AllLines-append _ _
                  (opt_line-AllLines (chars "    Description ") refl h.description
                    valid.description)
                  (AllLines-append _ _
                    (opt_line-AllLines (chars "    TailscaleIP ") refl h.tailscale_ip
                      valid.tailscale_ip)
                    (AllLines-append _ _
                      (opt_line-AllLines (chars "    RendezvousServer ") refl h.rendezvous_server
                        valid.rendezvous_server)
                      (AllLines-append _ _
                        (list_line-AllLines (chars "    RendezvousServers ") refl
                          h.rendezvous_servers valid.rendezvous_servers)
                        (AllLines-append _ _
                          (opt_line-AllLines (chars "    RendezvousKey ") refl h.rendezvous_key
                            valid.rendezvous_key)
                          (AllLines-append _ _
                            (bool_line-AllLines (chars "    SessionLog ") refl h.session_log)
                            (lan_line-AllLines h.lan_first))))))))))))),
)

global_lines-AllLines : (cfg : Config) → IsValid cfg → AllLines (global_lines cfg)
unfolding global_lines lacks
global_lines-AllLines cfg valid =
    (AllLines-append _ _ (opt_line-AllLines (chars "DeviceID ") refl cfg.device_id valid.device_id)
      (AllLines-append _ _
        (opt_line-AllLines (chars "RendezvousServer ") refl cfg.rendezvous_server
          valid.rendezvous_server)
        (AllLines-append _ _
          (list_line-AllLines (chars "RendezvousServers ") refl cfg.rendezvous_servers
            valid.rendezvous_servers)
          (AllLines-append _ _
            (opt_line-AllLines (chars "RendezvousKey ") refl cfg.rendezvous_key
              valid.rendezvous_key)
            (AllLines-append _ _
              (opt_line-AllLines (chars "EnrollmentToken ") refl cfg.enrollment_token
                valid.enrollment_token)
              (AllLines-append _ _
                (line_if-AllLines (chars "SessionLog ") refl (not cfg.session_log) (bool_text false)
                  (bool_text-IsClean false))
                (AllLines-append _ _
                  (opt_line-AllLines (chars "SessionLogDir ") refl cfg.session_log_dir
                    valid.session_log_dir)
                  (AllLines-append _ _
                    (line_if-AllLines (chars "SessionLogRetain ") refl
                      (not (cfg.session_log_retain == 90)) (show_nat cfg.session_log_retain)
                      (show_nat-IsClean cfg.session_log_retain))
                    (opt_line-AllLines (chars "FsSpool ") refl cfg.fs_spool valid.fs_spool)))))))))

more_blocks-AllLines : (hosts : List HostConfig) → AllValid hosts → AllLines (more_blocks hosts)
unfolding more_blocks
more_blocks-AllLines [] valid = tt
more_blocks-AllLines (h ∷ hosts) valid = (
  record { whole = tt; ends = refl },
  AllLines-append (host_lines h) _ (host_lines-AllLines h valid.0)
      (more_blocks-AllLines hosts valid.1),
)

blocks-AllLines : (hosts : List HostConfig) → AllValid hosts → AllLines (blocks hosts)
unfolding blocks
blocks-AllLines [] valid = tt
blocks-AllLines (h ∷ hosts) valid =
    AllLines-append (host_lines h) _ (host_lines-AllLines h valid.0)
      (more_blocks-AllLines hosts valid.1)

pub config_lines-AllLines : (cfg : Config) → IsValid cfg → AllLines (config_lines cfg)
unfolding config_lines
config_lines-AllLines cfg valid =
    AllLines-append (global_lines cfg) _ (global_lines-AllLines cfg valid) (
      AllLines-append _ (blocks cfg.hosts) (blank-AllLines _)
        (blocks-AllLines cfg.hosts valid.hosts))
