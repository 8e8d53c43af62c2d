-- ===== src/Handler/Caps.antt =====
-- crates/mrsh-server/src/handler.rs: the capabilities that a client is granted.
use rsh.Prelude.{not, ◌&&◌, List, [], ◌∷◌, ◌++◌, if◌then◌else◌}
use rsh.Prelude.Bytes.{Bytes}
use rsh.Text.{chars}
use rsh.Auth.Secrets.{has_text}

abbrev pub both : List Bytes → List Bytes → List Bytes
both [] client = []
both (c ∷ caps) client = if has_text client c then c ∷ both caps client else both caps client

abbrev pub info_caps : List Bytes
info_caps =
    chars "tray"
    ∷ chars "system"
    ∷ chars "screenshot"
    ∷ chars "window"
    ∷ chars "mouse"
    ∷ chars "keyboard"
    ∷ chars "linux"
    ∷ chars "linux-musl"
    ∷ chars "linux-aarch64"
    ∷ chars "linux-x86_64"
    ∷ chars "windows-aarch64"
    ∷ chars "windows-x86_64"
    ∷ []

-- The loop over the informational capabilities.
abbrev pub add_info : List Bytes → List Bytes → List Bytes → List Bytes
add_info [] caps final = final
add_info (i ∷ infos) caps final =
    add_info infos caps
      (if has_text caps i && not (has_text final i) then final ++ (i ∷ []) else final)

unfoldable pub negotiate : List Bytes → List Bytes → List Bytes
negotiate caps client =
    let granted = both caps client in
    add_info info_caps caps (
      if has_text client (chars "binary-proto")
      then granted ++ (chars "binary-proto" ∷ [])
      else granted)
