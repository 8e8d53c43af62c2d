-- ===== src/Handler/Native.antt =====
-- crates/mrsh-server/src/dispatch.rs: the requests of type `native`, up to the command line that
-- they run.
pub mod Commands
use rsh.Prelude.{
  ℕ, zero, suc, ◌-◌, ◌^◌, Option, none, some, List, [], ◌∷◌, ◌++◌, ◌==◌, if◌then◌else◌,
}
use rsh.Text.{Text, chars}
use rsh.Text.Number.{show_nat, parse_digits, parse_u32}
use rsh.Text.Split.{arm, split_whitespace}
use rsh.Handler.{Request, or_empty}

-- What the handler goes on with: a screenshot, a command for the shell, or an answer.
pub data Native : Type 0 where
  shot : ℕ → ℕ → ℕ → Native
  run : Text → Native
  answer refuse : Text → Native

pub data Command : Type 0 where
  screenshot screenshot_diag ps kill tail info clip_get clip_set : Command

abbrev pub commands : List (Text × Command)
commands =
    (chars "screenshot", screenshot)
    ∷ (chars "screenshot-diag", screenshot_diag)
    ∷ (chars "ps", ps)
    ∷ (chars "kill", kill)
    ∷ (chars "tail", tail)
    ∷ (chars "info", info)
    ∷ (chars "clip-get", clip_get)
    ∷ (chars "clip-set", clip_set)
    ∷ []

-- `args.get(i)`, with `unwrap_or(&"")` where the source has it
abbrev pub argument : ℕ → List Text → Option Text
argument i [] = none
argument zero (a ∷ args) = some a
argument (suc i) (a ∷ args) = argument i args

-- `from_str` of an unsigned integer up to max
abbrev pub parse_up_to : ℕ → Text → Option ℕ
parse_up_to max [] = none
parse_up_to max (c ∷ cs) = if c == b'+' then parse_digits max cs else parse_digits max (c ∷ cs)

-- `.and_then(|s| s.parse().ok()).unwrap_or(default)`
abbrev pub number_or : ℕ → ℕ → Option Text → ℕ
number_or max default none = default
number_or max default (some s) = elim (parse_up_to max s) [ none ↦ default | some n ↦ n ]

-- `replace('\'', "''")`
abbrev pub double_quotes : Text → Text
double_quotes [] = []
double_quotes (c ∷ cs) = let rest = double_quotes cs in if c == 0x27 then c ∷ c ∷ rest else c ∷ rest

-- `join(" ")`
abbrev pub join_spaces : List Text → Text
join_spaces [] = []
join_spaces (word ∷ []) = word
join_spaces (word ∷ next ∷ words) = word ++ (b' ' ∷ join_spaces (next ∷ words))

abbrev pub kill_pid : Option ℕ → Native
kill_pid none = refuse (chars "invalid pid: must be a positive integer")
kill_pid (some pid) = run (chars "Stop-Process -Id " ++ show_nat pid ++ chars " -Force")

abbrev pub run_native : Option Command → Text → List Text → Native
run_native none cmd args = refuse (chars "unknown native command: " ++ cmd)
run_native (some screenshot) cmd args =
    shot (number_or (2 ^ 32 - 1) 0 (argument 0 args)) (number_or (2 ^ 8 - 1) 80 (argument 1 args))
      (number_or (2 ^ 8 - 1) 100 (argument 2 args))
run_native (some screenshot_diag) cmd args = answer (chars "screenshot diagnostics: rust server")
run_native (some ps) cmd args =
    run (chars "Get-Process | Select-Object Id,ProcessName,CPU,WorkingSet64 | ConvertTo-Json")
run_native (some kill) cmd args = kill_pid (parse_u32 (or_empty (argument 0 args)))
run_native (some tail) cmd args = run (
    chars "Get-Content '"
    ++ double_quotes (or_empty (argument 0 args))
    ++ chars "' -Tail "
    ++ show_nat (number_or (2 ^ 64 - 1) 100 (argument 1 args)))
run_native (some info) cmd args = run (
    chars "[PSCustomObject]@{Hostname=$env:COMPUTERNAME; "
    ++ chars "OS=[Environment]::OSVersion.VersionString; "
    ++ chars "Arch=[Environment]::Is64BitOperatingSystem} | ConvertTo-Json")
run_native (some clip_get) cmd args = run (chars "Get-Clipboard")
run_native (some clip_set) cmd args =
    run (chars "Set-Clipboard -Value '" ++ double_quotes (join_spaces args) ++ chars "'")

unfoldable pub handle_native_command : Text → List Text → Native
handle_native_command cmd args = run_native (arm commands cmd) cmd args

abbrev pub dispatch_words : List Text → Native
dispatch_words [] = refuse (chars "native requires: <command> [args...]")
dispatch_words (cmd ∷ args) = handle_native_command cmd args

unfoldable pub dispatch_native : Request → Native
unfolding handle_native_command split_whitespace
dispatch_native req = dispatch_words (split_whitespace (or_empty req.command))
