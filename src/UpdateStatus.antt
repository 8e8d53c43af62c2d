-- ===== src/UpdateStatus.antt =====
-- crates/mrsh-server/src/update_status.rs: the record of the last self-update and its JSON text.
-- A `String` is the list of its characters. The read of the clock is an argument `now`.
pub mod Fields
pub mod RoundTrip
pub mod Store
pub mod Watchdog
pub mod Rollback
mod Tests
use rsh.Prelude.{
  ℕ, ◌+◌, ◌-◌, Bool, true, false, not, ◌&&◌, ◌||◌, Option, none, some, List, [], ◌∷◌, ◌++◌, ltb,
  ◌==◌, if◌then◌else◌, length, take, get_or, slice,
}
use rsh.Text.{Text, chars, text_eq, trim, trim_matches}
use rsh.Text.Number.{ℤ, pos, show_nat, show_int, parse_u32, parse_i64}

pub record UpdateStatus : Type 0 where
  pub status : Text
  pub ts : ℤ
  pub watchdog_active : Bool
  pub watchdog_started_at : ℤ
  pub consecutive_heartbeat_failures : ℕ
  pub previous_binary_path : Text

-- `Default` and `never`
abbrev pub never : UpdateStatus
never = record {
  status = chars "never";
  ts = pos 0;
  watchdog_active = false;
  watchdog_started_at = pos 0;
  consecutive_heartbeat_failures = 0;
  previous_binary_path = [];
}

abbrev pub is_quote : ℕ → Bool
is_quote c = c == b'"'

abbrev is_unsafe : ℕ → Bool
is_unsafe c = is_quote c || c == 0x5C || c == 0x0A || c == 0x0D || c == 0x09

pub without_unsafe : Text → Text
without_unsafe [] = []
without_unsafe (c ∷ cs) = let rest = without_unsafe cs in if is_unsafe c then rest else c ∷ rest

unfoldable pub sanitize_reason : Text → Text
unfolding without_unsafe
sanitize_reason reason = take 80 (without_unsafe reason)

unfoldable pub success_now : ℤ → UpdateStatus
success_now now = record never { status = chars "success"; ts = now }

unfoldable pub failed_now : ℤ → Text → UpdateStatus
failed_now now reason = record never {
  status = chars "failed:" ++ sanitize_reason reason;
  ts = now;
}

abbrev pub show_bool : Bool → Text
show_bool true = chars "true"
show_bool false = chars "false"

-- The text between the braces, from the texts of the values.
abbrev pub object_body : Text → Text → Text → Text → Text → Text → Text
object_body status ts active started failures prev =
    chars "\"status\": \""
    ++ (status
        ++ (chars "\", \"ts\": "
            ++ (ts
                ++ (chars ", \"watchdog_active\": "
                    ++ (active
                        ++ (chars ", \"watchdog_started_at\": "
                            ++ (started
                                ++ (chars ", \"consecutive_heartbeat_failures\": "
                                    ++ (failures
                                        ++ (chars ", \"previous_binary_path\": \""
                                            ++ (prev ++ chars "\"")))))))))))

unfoldable pub encode : UpdateStatus → Text
encode status =
    chars "{"
    ++ (object_body status.status (show_int status.ts) (show_bool status.watchdog_active)
          (show_int status.watchdog_started_at) (show_nat status.consecutive_heartbeat_failures)
          (sanitize_reason status.previous_binary_path)
        ++ chars "}")

-- `split_top_level_commas` from a character on: `part` is what has been read of the part, and
-- `in_quotes` the flag.
pub split_from : Text → Text → Bool → List Text
split_from [] [] in_quotes = []
split_from [] (c ∷ cs) in_quotes = (c ∷ cs) ∷ []
split_from (c ∷ cs) part in_quotes =
    let cut = c == b',' && not in_quotes in
    let rest =
      split_from cs (if cut then [] else part ++ (c ∷ []))
        (if is_quote c then not in_quotes else in_quotes) in
    if cut then part ∷ rest else rest

unfoldable pub split_top_level_commas : Text → List Text
unfolding split_from
split_top_level_commas s = split_from s [] false

-- `p.find(':')` with the texts before and behind it
abbrev pub split_colon : Text → Option (Text × Text)
split_colon [] = none
split_colon (c ∷ cs) =
    if c == b':'
    then some ([], cs)
    else elim (split_colon cs) [ none ↦ none | some (key, val) ↦ some (c ∷ key, val) ]

-- The variables of `parse`.
pub record Parsed : Type 0 where
  pub status : Option Text
  pub ts : Option ℤ
  pub watchdog_active : Bool
  pub watchdog_started_at : ℤ
  pub consecutive_heartbeat_failures : ℕ
  pub previous_binary_path : Text

abbrev pub unparsed : Parsed
unparsed = record {
  status = none;
  ts = none;
  watchdog_active = false;
  watchdog_started_at = pos 0;
  consecutive_heartbeat_failures = 0;
  previous_binary_path = [];
}

abbrev pub or_else {ℓ} : {A : Type ℓ} → A → Option A → A
or_else a none = a
or_else a (some x) = x

-- The `match key`.
abbrev pub assign : Text → Text → Parsed → Parsed
assign key val p =
    if text_eq key (chars "status")
    then record p { status = some (trim_matches is_quote val) }
    else if text_eq key (chars "ts")
    then record p { ts = parse_i64 val }
    else if text_eq key (chars "watchdog_active")
    then record p { watchdog_active = text_eq val (chars "true") }
    else if text_eq key (chars "watchdog_started_at")
    then record p { watchdog_started_at = or_else (pos 0) (parse_i64 val) }
    else if text_eq key (chars "consecutive_heartbeat_failures")
    then record p { consecutive_heartbeat_failures = or_else 0 (parse_u32 val) }
    else if text_eq key (chars "previous_binary_path")
    then record p { previous_binary_path = trim_matches is_quote val }
    else p

-- The loop over the parts.
abbrev pub assign_pair : Option (Text × Text) → Parsed → Option Parsed
assign_pair none p = none
assign_pair (some (key, val)) p = some (assign (trim_matches is_quote (trim key)) (trim val) p)

abbrev pub parse_part : Text → Parsed → Option Parsed
parse_part part p = assign_pair (split_colon (trim part)) p

abbrev pub parse_parts : List Text → Parsed → Option Parsed
parse_parts [] p = some p
parse_parts (part ∷ parts) p = elim (parse_part part p) [
  | none ↦ none
  | some p' ↦ parse_parts parts p'
]

abbrev pub finish : Parsed → Option UpdateStatus
finish p = elim p.status [
  | none ↦ none
  | some status ↦ some (record {
    status = status;
    ts = or_else (pos 0) p.ts;
    watchdog_active = p.watchdog_active;
    watchdog_started_at = p.watchdog_started_at;
    consecutive_heartbeat_failures = p.consecutive_heartbeat_failures;
    previous_binary_path = p.previous_binary_path;
  })
]

-- The text between the braces, if it has them.
abbrev pub inner : Text → Option Text
inner s =
    if get_or s 0 0 == b'{' && get_or s (length s - 1) 0 == b'}'
    then some (slice s 1 (length s - 1))
    else none

unfoldable pub parse : Text → Option UpdateStatus
unfolding split_top_level_commas
parse text = elim (inner (trim text)) [
  | none ↦ none
  | some s ↦ elim (parse_parts (split_top_level_commas s) unparsed) [
    | none ↦ none
    | some p ↦ finish p
  ]
]
