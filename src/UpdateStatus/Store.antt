-- ===== src/UpdateStatus/Store.antt =====
-- crates/mrsh-server/src/update_status.rs: the files of the data directory and the watchdog. An
-- argument says what the file system does with each write of the status, and whether it lets the
-- marker be written or removed.
use rsh.Prelude.{ℕ, ◌+◌, ◌-◌, ◌^◌, Bool, true, false, Option, none, some, min, leb, if◌then◌else◌}
use rsh.Text.{Text, chars}
use rsh.Text.Number.{ℤ}
use rsh.UpdateStatus.{UpdateStatus, never, encode, parse, failed_now}

abbrev pub rollback_failure_threshold : ℕ
rollback_failure_threshold = 3

-- `last_update.json`, if it can be read, and whether `last_update.pending` is there.
pub record Files : Type 0 where
  pub status_file : Option Text
  pub pending : Bool

-- `unwrap_or_default`
abbrev pub or_never : Option UpdateStatus → UpdateStatus
or_never none = never
or_never (some s) = s

abbrev pub parsed : Option Text → Option UpdateStatus
parsed none = none
parsed (some text) = parse text

unfoldable pub read : Files → UpdateStatus
read files = or_never (parsed files.status_file)

pub data WriteResult : Type 0 where
  -- By the rename or, if that fails, by the direct write.
  written : WriteResult
  -- The temporary file cannot be written: the old file stays.
  not_begun : WriteResult
  -- The rename fails and the direct write as well, which leaves this of the file.
  cut_off : Option Text → WriteResult

unfoldable pub write : WriteResult → UpdateStatus → Files → Files
write written s files = record files { status_file = some (encode s) }
write not_begun s files = files
write (cut_off rest) s files = record files { status_file = rest }

unfoldable pub write_pending : Bool → Files → Files
write_pending marked files = if marked then record files { pending = true } else files

unfoldable pub clear_pending : Bool → Files → Files
clear_pending removed files = if removed then record files { pending = false } else files

-- The record that `reconcile_on_startup` writes over `prior`.
abbrev pub reconciled : ℤ → UpdateStatus → UpdateStatus
reconciled now prior = record {
  status = chars "success";
  ts = now;
  watchdog_active = prior.watchdog_active;
  watchdog_started_at = prior.watchdog_started_at;
  consecutive_heartbeat_failures = 0;
  previous_binary_path = prior.previous_binary_path;
}

unfoldable pub reconcile_on_startup : ℤ → WriteResult → Bool → Files → Files × UpdateStatus
reconcile_on_startup now result removed files =
    let s = reconciled now (read files) in
    if files.pending then (clear_pending removed (write result s files), s) else (files, read files)

unfoldable pub record_failure : ℤ → WriteResult → Bool → Text → Files → Files
record_failure now result removed reason files =
    write result (failed_now now reason) (clear_pending removed files)

unfoldable pub arm_watchdog : ℤ → WriteResult → Text → Files → Files
arm_watchdog now result prev_bak_path files =
    write result
      (record (read files) {
        watchdog_active = true;
        watchdog_started_at = now;
        consecutive_heartbeat_failures = 0;
        previous_binary_path = prev_bak_path;
      })
      files

pub data WatchdogAction : Type 0 where
  continue clear_watchdog rollback_triggered : WatchdogAction

-- The failure path: the record to write, and the action.
abbrev pub after_failure : UpdateStatus → UpdateStatus × WatchdogAction
after_failure s =
    let failures = min (s.consecutive_heartbeat_failures + 1) (2 ^ 32 - 1) in
    if leb rollback_failure_threshold failures
    then (
      record s { watchdog_active = false; consecutive_heartbeat_failures = 0 },
      rollback_triggered,
    )
    else (record s { consecutive_heartbeat_failures = failures }, continue)

abbrev pub after_heartbeat : Bool → UpdateStatus → UpdateStatus × WatchdogAction
after_heartbeat success s =
    if success
    then (record s { watchdog_active = false; consecutive_heartbeat_failures = 0 }, clear_watchdog)
    else after_failure s

unfoldable pub record_heartbeat_outcome : WriteResult → Bool → Files → Files × WatchdogAction
record_heartbeat_outcome result success files =
    let (s, action) = after_heartbeat success (read files) in
    if (read files).watchdog_active then (write result s files, action) else (files, continue)
