-- ===== src/UpdateStatus/Tests.antt =====
-- update_status.rs on concrete records.
use rsh.UpdateStatus.RoundTrip.{IsValid, parse-encode}
use rsh.UpdateStatus.Store.{Files, read, written, arm_watchdog}
use rsh.UpdateStatus.Watchdog.{run, expected, run-expected}
use rsh.UpdateStatus.Rollback.{triggers, triggers-arm_watchdog, begins_with_three_failures}
use rsh.Prelude.{[], ◌∷◌, List, Bool, false, none, arith, ◌≡◌, refl, some, true}
use rsh.Text.{chars}
use rsh.Text.Number.{pos, negsuc, show_int, show_nat, parse_i64, parse_u32, parse_digits}
use rsh.UpdateStatus.{UpdateStatus, sanitize_reason, encode, parse}

abbrev armed : UpdateStatus
armed = record {
  status = chars "failed: a, b: c";
  ts = negsuc 16;
  watchdog_active = true;
  watchdog_started_at = pos 1750;
  consecutive_heartbeat_failures = 2;
  previous_binary_path = chars "/opt/mrsh.bak";
}

armed_text :
    encode armed
    ≡ chars
        "{\"status\": \"failed: a, b: c\", \"ts\": -17, \"watchdog_active\": true, \"watchdog_started_at\": 1750, \"consecutive_heartbeat_failures\": 2, \"previous_binary_path\": \"/opt/mrsh.bak\"}"
unfolding encode show_int show_nat sanitize_reason
armed_text = refl

armed_parsed : parse (encode armed) ≡ some armed
unfolding encode parse show_int show_nat sanitize_reason parse_i64 parse_u32 parse_digits
armed_parsed = refl

-- A Windows path loses its backslashes.
windows_path : sanitize_reason (chars "C:\\mrsh\\mrsh.bak") ≡ chars "C:mrshmrsh.bak"
unfolding sanitize_reason
windows_path = refl

armed-IsValid : IsValid armed
armed-IsValid = record {
  status_clean = ground arith;
  ts_fits = omega arith;
  started_fits = omega arith;
  failures_fit = omega arith;
}

parse-encode_example :
    parse (encode armed)
    ≡ some (record armed { previous_binary_path = sanitize_reason armed.previous_binary_path })
parse-encode_example = parse-encode armed armed-IsValid

abbrev fresh : Files
fresh = record { status_file = none; pending = false }

fresh-IsValid : IsValid (read fresh)
unfolding read
fresh-IsValid = record {
  status_clean = ground arith;
  ts_fits = omega arith;
  started_fits = omega arith;
  failures_fit = omega arith;
}

abbrev three_failures : List Bool
three_failures = false ∷ false ∷ false ∷ true ∷ []

run-expected_example :
    (run three_failures fresh).1
    ≡ expected
        (read fresh).watchdog_active
        (read fresh).consecutive_heartbeat_failures
        three_failures
run-expected_example = run-expected three_failures fresh fresh-IsValid

triggers-arm_watchdog_example :
    triggers (run three_failures (arm_watchdog (pos 1750) written (chars "mrsh.bak") fresh)).1
    ≡ begins_with_three_failures three_failures
triggers-arm_watchdog_example =
    triggers-arm_watchdog (pos 1750) (chars "mrsh.bak") fresh three_failures fresh-IsValid
      (omega arith)
