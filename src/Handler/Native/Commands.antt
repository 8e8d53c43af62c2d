-- ===== src/Handler/Native/Commands.antt =====
-- What a `native` request can run, and what it needs of the key.
use rsh.Prelude.{
  ℕ, ◌<◌, ◌^◌, ◌≡◌, refl, ap, none, some, List, ◌∷◌, ◌++◌, ◌⊎◌, inl, inr, Option-cases,
}
use rsh.Text.{Text, chars}
use rsh.Text.Number.{show_nat, parse_u32, parse_u32-lt}
use rsh.Text.Split.{split_whitespace, words_from}
use rsh.Auth.{KeyPermissions}
use rsh.Handler.{check_permission, or_empty}
use rsh.Handler.Native.{run, refuse, kill_pid, argument, handle_native_command, dispatch_native}

-- A space in front of a native command: every key is allowed to send it, and the server does what
-- it does for the command without the space.
pub dispatch_native-space :
    (perms : KeyPermissions) (command : Text)
    → (check_permission
          (record { req_type = chars "native"; command = some (b' ' ∷ command); sync_type = none })
          perms
        ≡ none)
      × (dispatch_native (record {
        req_type = chars "native";
        command = some (b' ' ∷ command);
        sync_type = none;
      })
          ≡ dispatch_native
              (record { req_type = chars "native"; command = some command; sync_type = none }))
unfolding check_permission dispatch_native split_whitespace words_from
dispatch_native-space perms command = (refl, refl)

-- `native kill` runs nothing but Stop-Process on one number.
kill_runs :
    (args : List Text)
    → (handle_native_command (chars "kill") args
        ≡ refuse (chars "invalid pid: must be a positive integer"))
      ⊎ ((pid : ℕ) × (pid < 2 ^ 32)
          × (handle_native_command (chars "kill") args
              ≡ run (chars "Stop-Process -Id " ++ show_nat pid ++ chars " -Force")))
unfolding handle_native_command
kill_runs args = elim (Option-cases (parse_u32 (or_empty (argument 0 args)))) [
  | inl invalid ↦ inl (ap kill_pid invalid)
  | inr (pid, parsed) ↦
      inr (pid, parse_u32-lt pid (or_empty (argument 0 args)) parsed, ap kill_pid parsed)
]
