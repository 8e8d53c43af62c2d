-- ===== src/Handler/Access.antt =====
-- What a key may ask for, from the options in its line.
use rsh.Prelude.{
  ◌≡◌, refl, sym, ap, ◌∙◌, Bool, Bool-cases, inl, inr, true, false, ◌&&◌, ◌||◌, not, Option, none,
  some, List, [], ◌∷◌, ◌++◌, if◌then◌else◌, arith,
}
use rsh.Text.{Text, chars, text_eq}
use rsh.Text.Split.{starts_with, arm}
use rsh.Auth.{
  KeyPermissions, Capability, exec, push, pull, shell, tunnel, gui, clipboard, reboot, screenshot,
  self_update, parse_key_options, split_options,
}
use rsh.Auth.Options.{allows, mention, last_word, parse_key_options_lem}
use rsh.Handler.{
  Request, or_empty, Kind, run_command, write_file, read_file, open_shell, open_tunnel, sync_files,
  native_command, gui_input, take_screenshot, update_self, start_tray, utility, kinds, is_power,
  deny_unless, check_kind, check_permission,
}

abbrev pub is_allowed : Option Text → Bool
is_allowed none = true
is_allowed (some denial) = false

abbrev when : Bool → Capability → List Capability
when true c = c ∷ []
when false c = []

abbrev power_commands : List Text
power_commands = chars "reboot" ∷ chars "shutdown" ∷ chars "sleep" ∷ chars "lock" ∷ []

abbrev is_among : List Text → Text → Bool
is_among [] cmd = false
is_among (t ∷ ts) cmd = text_eq cmd t || is_among ts cmd

abbrev needs_native : Text → List Capability
needs_native cmd =
    when (starts_with cmd (chars "clip-")) clipboard
    ++ when (is_among power_commands cmd) reboot
    ++ when (text_eq cmd (chars "screenshot")) screenshot

abbrev needs_sync : Text → List Capability
needs_sync sync_type =
    if text_eq sync_type (chars "pull-delta")
    then pull ∷ []
    else if text_eq sync_type (chars "batch-patch-bin")
    then push ∷ []
    else push ∷ pull ∷ []

abbrev Needs : Type 0
Needs = Request → List Capability

abbrev always : List Capability → Needs
always cs req = cs

abbrev native_needs : Needs
native_needs req = needs_native (or_empty req.command)

abbrev sync_needs : Needs
sync_needs req = needs_sync (or_empty req.sync_type)

-- The capabilities that a request of each type needs, from the types as they stand in the protocol.
abbrev requirements : List (Text × Needs)
requirements =
    (chars "exec", always (exec ∷ []))
    ∷ (chars "exec-as-user", always (exec ∷ []))
    ∷ (chars "write", always (push ∷ []))
    ∷ (chars "ls", always (pull ∷ []))
    ∷ (chars "read", always (pull ∷ []))
    ∷ (chars "cat", always (pull ∷ []))
    ∷ (chars "shell", always (shell ∷ []))
    ∷ (chars "shell-persistent", always (shell ∷ []))
    ∷ (chars "connect", always (tunnel ∷ []))
    ∷ (chars "sync", sync_needs)
    ∷ (chars "native", native_needs)
    ∷ (chars "input", always (gui ∷ []))
    ∷ (chars "screenshot", always (screenshot ∷ []))
    ∷ (chars "self-update", always (self_update ∷ []))
    ∷ (chars "self-update-from-rdv", always (self_update ∷ []))
    ∷ (chars "tray-start", always (exec ∷ []))
    ∷ (chars "ping", always [])
    ∷ (chars "session", always [])
    ∷ (chars "info", always [])
    ∷ []

abbrev of_request : Request → Option Needs → Option (List Capability)
of_request req none = none
of_request req (some f) = some (f req)

-- `none` is a request of a type that no key may use.
abbrev pub needs : Request → Option (List Capability)
needs req = of_request req (arm requirements req.req_type)

-- The same for the kinds of request that the code tells apart.
abbrev kind_needs : Kind → Needs
kind_needs run_command = always (exec ∷ [])
kind_needs write_file = always (push ∷ [])
kind_needs read_file = always (pull ∷ [])
kind_needs open_shell = always (shell ∷ [])
kind_needs open_tunnel = always (tunnel ∷ [])
kind_needs sync_files = sync_needs
kind_needs native_command = native_needs
kind_needs gui_input = always (gui ∷ [])
kind_needs take_screenshot = always (screenshot ∷ [])
kind_needs update_self = always (self_update ∷ [])
kind_needs start_tray = always (exec ∷ [])
kind_needs utility = always []

abbrev of_kind : Option Kind → Option Needs
of_kind none = none
of_kind (some kind) = some (kind_needs kind)

abbrev with_needs : List (Text × Kind) → List (Text × Needs)
with_needs [] = []
with_needs ((literal, kind) ∷ arms) = (literal, kind_needs kind) ∷ with_needs arms

arm-with_needs :
    (arms : List (Text × Kind)) (text : Text) → arm (with_needs arms) text ≡ of_kind (arm arms text)
arm-with_needs [] text = refl
arm-with_needs ((literal, kind) ∷ arms) text = elim (Bool-cases (text_eq text literal)) [
  | inl same ↦ rw same refl
  | inr other ↦ rw other (arm-with_needs arms text)
]

arm-requirements : (text : Text) → arm requirements text ≡ of_kind (arm kinds text)
arm-requirements text = arm-with_needs kinds text

is_power-is_among : (cmd : Text) → is_power cmd ≡ is_among power_commands cmd
is_power-is_among cmd =
    any_of_four (text_eq cmd (chars "reboot")) (text_eq cmd (chars "shutdown"))
      (text_eq cmd (chars "sleep")) (text_eq cmd (chars "lock"))
  where
    any_of_four : (a b c d : Bool) → (a || b || c || d) ≡ (a || (b || (c || (d || false))))
    any_of_four a b c d = ground arith

abbrev all_granted : (Capability → Bool) → List Capability → Bool
all_granted granted [] = true
all_granted granted (c ∷ cs) = granted c && all_granted granted cs

abbrev pub grants : (Capability → Bool) → Option (List Capability) → Bool
grants granted none = false
grants granted (some cs) = all_granted granted cs

all_granted-cong :
    (f g : Capability → Bool) (cs : List Capability)
    → ((c : Capability) → f c ≡ g c)
    → all_granted f cs ≡ all_granted g cs
all_granted-cong f g [] same = refl
all_granted-cong f g (c ∷ cs) same = rw (same c, all_granted-cong f g cs same) refl

grants-cong :
    (f g : Capability → Bool) (cs : Option (List Capability))
    → ((c : Capability) → f c ≡ g c)
    → grants f cs ≡ grants g cs
grants-cong f g none same = refl
grants-cong f g (some cs) same = all_granted-cong f g cs same

check_native-needs :
    (clip power shot : Bool) (a b c : Text) (perms : KeyPermissions)
    → is_allowed (
        deny_unless (not clip || perms.allow_clipboard) a (
          deny_unless
            (not power || perms.allow_reboot)
            b
            (deny_unless (not shot || perms.allow_screenshot) c none)))
      ≡ all_granted
          (λ (c : Capability). allows c perms)
          (when clip clipboard ++ when power reboot ++ when shot screenshot)
check_native-needs clip power shot a b c perms = ground arith

check_kind-needs :
    (kind : Option Kind) (req : Request) (perms : KeyPermissions)
    → is_allowed (check_kind kind req perms)
      ≡ grants (λ (c : Capability). allows c perms) (of_request req (of_kind kind))
check_kind-needs none req perms = refl
check_kind-needs (some sync_files) req perms = ground arith
check_kind-needs (some native_command) req perms =
    let cmd = or_empty req.command in
    rw (is_power-is_among cmd) (
      check_native-needs (starts_with cmd (chars "clip-")) (is_among power_commands cmd)
        (text_eq cmd (chars "screenshot")) _ _ _ perms)
check_kind-needs (some _) req perms = ground arith

-- A request is allowed exactly if the last word of the key's options on each capability that it
-- needs is not a denial; a request of an unknown type is never allowed.
pub check_permission-parse_key_options :
    (opts : Text) (perms : KeyPermissions) (req : Request)
    → parse_key_options (some opts) ≡ some perms
    → is_allowed (check_permission req perms)
      ≡ grants (λ (c : Capability). last_word (mention c) (split_options opts) true) (needs req)
unfolding check_permission
check_permission-parse_key_options opts perms req h =
    check_kind-needs (arm kinds req.req_type) req perms
    ∙ ap (λ (n : Option Needs). grants (λ (c : Capability). allows c perms) (of_request req n))
        (sym (arm-requirements req.req_type))
    ∙ grants-cong _ _ (needs req) (λ c. (parse_key_options_lem opts perms c h).0)
