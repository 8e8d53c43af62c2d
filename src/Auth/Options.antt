-- ===== src/Auth/Options.antt =====
-- What the options of a key allow: the last word on each capability counts.
use mathlib.Core.Option.{some-injective}
use rsh.Prelude.{
  ◌≡◌, refl, sym, ap, ◌∙◌, Bool, true, false, Option, none, some, List, [], ◌∷◌, ◌++◌, ◌-◌, leb,
  length, take, drop, Bool-cases, Option-cases, inl, inr, if◌then◌else◌, arith,
}
use rsh.Text.{Text, chars, text_eq, text_eq_iff, trim}
use rsh.Text.Split.{arm, arm-spells}
use rsh.Auth.{
  KeyPermissions, default, Capability, exec, push, pull, shell, tunnel, gui, clipboard, reboot,
  screenshot, self_update, Word, restrict, totp, permit, forbid, words, obey, is_forced,
  apply_other, apply_option, options_from, split_options, apply_options, parse_key_options,
}

abbrev pub allows : Capability → KeyPermissions → Bool
allows exec perms = perms.allow_exec
allows push perms = perms.allow_push
allows pull perms = perms.allow_pull
allows shell perms = perms.allow_shell
allows tunnel perms = perms.allow_tunnel
allows gui perms = perms.allow_gui
allows clipboard perms = perms.allow_clipboard
allows reboot perms = perms.allow_reboot
allows screenshot perms = perms.allow_screenshot
allows self_update perms = perms.allow_self_update

abbrev pub name : Capability → Text
name exec = chars "exec"
name push = chars "push"
name pull = chars "pull"
name shell = chars "shell"
name tunnel = chars "tunnel"
name gui = chars "gui"
name clipboard = chars "clipboard"
name reboot = chars "reboot"
name screenshot = chars "screenshot"
name self_update = chars "self-update"

abbrev spelling : Word → Text
spelling restrict = chars "restrict"
spelling totp = chars "totp"
spelling (permit c) = chars "permit-" ++ name c
spelling (forbid c) = chars "no-" ++ name c

-- What one option says of a capability, if it says anything.
abbrev pub mention : Capability → Text → Option Bool
mention c opt =
    if text_eq opt (chars "restrict")
    then some false
    else if text_eq opt (chars "permit-" ++ name c)
    then some true
    else if text_eq opt (chars "no-" ++ name c)
    then some false
    else none

abbrev pub else_ : Option Bool → Bool → Bool
else_ none b = b
else_ (some a) b = a

-- What one option says of the TOTP code.
abbrev pub mention_totp : Text → Option Bool
mention_totp opt =
    if text_eq opt (chars "restrict")
    then some false
    else if text_eq opt (chars "totp")
    then some true
    else none

-- The last thing that the options say, or `b` if none says anything.
abbrev pub last_word : (Text → Option Bool) → List Text → Bool → Bool
last_word mentions [] b = b
last_word mentions (opt ∷ opts) b = last_word mentions opts (else_ (mentions (trim opt)) b)

allows-obey :
    (c : Capability) (w : Word) (perms : KeyPermissions)
    → allows c (obey w perms) ≡ else_ (mention c (spelling w)) (allows c perms)
allows-obey c w perms = ground arith

totp-obey :
    (w : Word) (perms : KeyPermissions)
    → (obey w perms).require_totp ≡ else_ (mention_totp (spelling w)) perms.require_totp
totp-obey w perms = ground arith

arm-spelling : (w : Word) → arm words (spelling w) ≡ some w
arm-spelling w = ground arith

unspelled : (opt : Text) (w : Word) → arm words opt ≡ none → text_eq opt (spelling w) ≡ false
unspelled opt w h = elim (Bool-cases (text_eq opt (spelling w))) [
  | inl same ↦
      let e = (text_eq_iff opt (spelling w)).0 same in
      let found = ap (arm words) e ∙ arm-spelling w in cc
  | inr other ↦ other
]

mention-unspelled : (c : Capability) (opt : Text) → arm words opt ≡ none → mention c opt ≡ none
mention-unspelled c opt h =
    rw (unspelled opt restrict h, unspelled opt (permit c) h, unspelled opt (forbid c) h) refl

mention_totp-unspelled : (opt : Text) → arm words opt ≡ none → mention_totp opt ≡ none
mention_totp-unspelled opt h = rw (unspelled opt restrict h, unspelled opt totp h) refl

-- A reading of the permissions that the options without an argument set as `mentions` says.
module _ (reads : KeyPermissions → Bool) (mentions : Text → Option Bool)
    (reads-obey : (w : Word) (perms : KeyPermissions)
      → reads (obey w perms) ≡ else_ (mentions (spelling w)) (reads perms))
    (mentions-unspelled : (opt : Text) → arm words opt ≡ none → mentions opt ≡ none)
    (reads_forced : (perms : KeyPermissions) (command : Option Text)
      → reads (record perms { forced_command = command }) ≡ reads perms) where
  reads-apply_other :
      (opt : Text) (perms next : KeyPermissions)
      → apply_other opt perms ≡ some next
      → reads next ≡ reads perms
  reads-apply_other opt perms next h = elim (Bool-cases (is_forced opt)) [
    | inl forced ↦ elim (Bool-cases (leb 10 (length opt))) [
      | inl long ↦
          let h' : some
                (record perms { forced_command = some (drop 9 (take (length opt - 1) opt)) })
              ≡ some next =
            rw (forced, long) at h in
          ap reads (sym (some-injective _ _ h'))
          ∙ reads_forced perms (some (drop 9 (take (length opt - 1) opt)))
      | inr short ↦ let never : none ≡ some next = rw (forced, short) at h in cc
    ]
    | inr other ↦
        let h' : some perms ≡ some next = rw other at h in ap reads (sym (some-injective _ _ h'))
  ]

  reads-apply_option :
      (opt : Text) (perms next : KeyPermissions)
      → apply_option opt perms ≡ some next
      → reads next ≡ else_ (mentions opt) (reads perms)
  unfolding apply_option
  reads-apply_option opt perms next h = elim (Option-cases (arm words opt)) [
    | inl unread ↦
        let h' : apply_other opt perms ≡ some next = rw unread at h in
        reads-apply_other opt perms next h'
        ∙ sym (ap (λ (m : Option Bool). else_ m (reads perms)) (mentions-unspelled opt unread))
    | inr (w, found) ↦
        let e = arm-spells spelling words opt w refl found in
        let h' : some (obey w perms) ≡ some next = rw found at h in
        rw (sym (some-injective _ _ h'), e) (reads-obey w perms)
  ]

  reads-apply_options :
      (opts : List Text) (perms next : KeyPermissions)
      → apply_options opts perms ≡ some next
      → reads next ≡ last_word mentions opts (reads perms)
  unfolding apply_options
  reads-apply_options [] perms next h = ap reads (sym (some-injective _ _ h))
  reads-apply_options (opt ∷ opts) perms next h =
      elim (Option-cases (apply_option (trim opt) perms)) [
        | inl unread ↦ let never = rw (apply_options, unread) at h in cc
        | inr (mid, found) ↦
            let h' : apply_options opts mid ≡ some next = rw (apply_options, found) at h in
            reads-apply_options opts mid next h'
            ∙ ap (last_word mentions opts) (reads-apply_option (trim opt) perms mid found)
      ]

forced-allows :
    (c : Capability) (perms : KeyPermissions) (command : Option Text)
    → allows c (record perms { forced_command = command }) ≡ allows c perms
forced-allows c perms command = ground arith

allows-default : (c : Capability) → allows c default ≡ true
allows-default c = ground arith

-- What a key may do: if its options are parsed, a capability is what the last option that mentions
-- it says, and granted if none does; `restrict` mentions every capability. A TOTP code is required
-- if `totp` stands behind the last `restrict`.
pub parse_key_options_lem :
    (opts : Text) (perms : KeyPermissions) (c : Capability)
    → parse_key_options (some opts) ≡ some perms
    → (allows c perms ≡ last_word (mention c) (split_options opts) true)
      × (perms.require_totp ≡ last_word mention_totp (split_options opts) false)
unfolding parse_key_options split_options options_from
parse_key_options_lem [] perms c h =
    let e = some-injective _ _ h in (rw (sym e) (allows-default c), rw (sym e) refl)
parse_key_options_lem (o ∷ os) perms c h = (
  reads-apply_options (allows c) (mention c) (allows-obey c) (mention-unspelled c) (forced-allows c)
        (split_options (o ∷ os)) default perms h
      ∙ ap (last_word (mention c) (split_options (o ∷ os))) (allows-default c),
  reads-apply_options (λ (p : KeyPermissions). p.require_totp) mention_totp totp-obey
      mention_totp-unspelled (λ perms command. refl) (split_options (o ∷ os)) default perms h,
)
