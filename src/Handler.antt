-- ===== src/Handler.antt =====
-- crates/mrsh-server/src/handler.rs: what a request needs of the key's permissions, in a build
-- without the `no-*` features.
pub mod Access
pub mod Native
pub mod Ed25519
pub mod Caps
pub mod Handshake
pub mod Connection
pub mod Binary
mod Tests
use rsh.Prelude.{
  Bool, true, false, not, ◌&&◌, ◌||◌, Option, none, some, List, [], ◌∷◌, ◌++◌, if◌then◌else◌, ◌⊎◌,
  inl, inr,
}
use rsh.Text.{Text, chars, text_eq}
use rsh.Text.Split.{starts_with, arm}
use rsh.Auth.{KeyPermissions}

-- The fields of crates/mrsh-core/src/protocol.rs that decide about a request.
pub record Request : Type 0 where
  pub req_type : Text
  pub command : Option Text
  pub sync_type : Option Text

-- `as_deref().unwrap_or("")`
abbrev pub or_empty : Option Text → Text
or_empty none = []
or_empty (some text) = text

-- The arms of the `match` on `req_type`.
pub data Kind : Type 0 where
  run_command write_file read_file open_shell open_tunnel sync_files native_command : Kind
  gui_input take_screenshot update_self start_tray utility : Kind

abbrev pub kinds : List (Text × Kind)
kinds =
    (chars "exec", run_command)
    ∷ (chars "exec-as-user", run_command)
    ∷ (chars "write", write_file)
    ∷ (chars "ls", read_file)
    ∷ (chars "read", read_file)
    ∷ (chars "cat", read_file)
    ∷ (chars "shell", open_shell)
    ∷ (chars "shell-persistent", open_shell)
    ∷ (chars "connect", open_tunnel)
    ∷ (chars "sync", sync_files)
    ∷ (chars "native", native_command)
    ∷ (chars "input", gui_input)
    ∷ (chars "screenshot", take_screenshot)
    ∷ (chars "self-update", update_self)
    ∷ (chars "self-update-from-rdv", update_self)
    ∷ (chars "tray-start", start_tray)
    ∷ (chars "ping", utility)
    ∷ (chars "session", utility)
    ∷ (chars "info", utility)
    ∷ []

-- `if !allowed { return Some(reason) }`, and what follows.
abbrev pub deny_unless : Bool → Text → Option Text → Option Text
deny_unless true reason next = next
deny_unless false reason next = some reason

abbrev pub is_power : Text → Bool
is_power cmd =
    text_eq cmd (chars "reboot")
    || text_eq cmd (chars "shutdown")
    || text_eq cmd (chars "sleep")
    || text_eq cmd (chars "lock")

abbrev pub check_sync : Text → KeyPermissions → Option Text
check_sync sync_type perms =
    if text_eq sync_type (chars "pull-delta")
    then deny_unless perms.allow_pull (chars "pull/read not permitted for this key") none
    else if text_eq sync_type (chars "batch-patch-bin")
    then deny_unless perms.allow_push (chars "push/write not permitted for this key") none
    else deny_unless (not (not perms.allow_push || not perms.allow_pull))
        (chars "sync not permitted for this key") none

abbrev pub check_native : Text → KeyPermissions → Option Text
check_native cmd perms =
    deny_unless (not (starts_with cmd (chars "clip-")) || perms.allow_clipboard)
      (chars "clipboard not permitted for this key")
      (deny_unless (not (is_power cmd) || perms.allow_reboot)
        (chars "reboot/shutdown not permitted for this key")
        (deny_unless (not (text_eq cmd (chars "screenshot")) || perms.allow_screenshot)
          (chars "screenshot not permitted for this key") none))

abbrev pub check_kind : Option Kind → Request → KeyPermissions → Option Text
check_kind none req perms =
    some (chars "unknown request type '" ++ req.req_type ++ chars "' denied by default")
check_kind (some run_command) req perms =
    deny_unless perms.allow_exec (chars "exec not permitted for this key") none
check_kind (some write_file) req perms =
    deny_unless perms.allow_push (chars "push/write not permitted for this key") none
check_kind (some read_file) req perms =
    deny_unless perms.allow_pull (chars "pull/read not permitted for this key") none
check_kind (some open_shell) req perms =
    deny_unless perms.allow_shell (chars "shell not permitted for this key") none
check_kind (some open_tunnel) req perms =
    deny_unless perms.allow_tunnel (chars "tunnel not permitted for this key") none
check_kind (some sync_files) req perms = check_sync (or_empty req.sync_type) perms
check_kind (some native_command) req perms = check_native (or_empty req.command) perms
check_kind (some gui_input) req perms =
    deny_unless perms.allow_gui (chars "GUI automation not permitted for this key") none
check_kind (some take_screenshot) req perms =
    deny_unless perms.allow_screenshot (chars "screenshot not permitted for this key") none
check_kind (some update_self) req perms =
    deny_unless perms.allow_self_update (chars "self-update not permitted for this key") none
check_kind (some start_tray) req perms =
    deny_unless perms.allow_exec (chars "tray-start not permitted for this key") none
check_kind (some utility) req perms = none

unfoldable pub check_permission : Request → KeyPermissions → Option Text
check_permission req perms = check_kind (arm kinds req.req_type) req perms

abbrev pub is_exec : Request → Bool
is_exec req = text_eq req.req_type (chars "exec") || text_eq req.req_type (chars "exec-as-user")

abbrev pub force : Option Text → Request → Request
force none req = req
force (some forced) req = if is_exec req then record req { command = some forced } else req

-- A request in JSON: denied with a reason, or handed to `dispatch`.
unfoldable pub admit : Request → KeyPermissions → Text ⊎ Request
unfolding check_permission
admit req perms = elim (check_permission req perms) [
  | some denial ↦ inl denial
  | none ↦ inr (force perms.forced_command req)
]
