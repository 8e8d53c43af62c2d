-- ===== src/UpdateStatus/Rollback.antt =====
-- When the watchdog rolls an update back.
use mathlib.Core.Path.{subst}
use rsh.Prelude.{◌≡◌, refl, sym, ap, ◌∙◌, Bool, true, false, List, [], ◌∷◌, ℕ, arith}
use rsh.Text.{Text}
use rsh.Text.Number.{ℤ, InI64}
use rsh.UpdateStatus.{UpdateStatus, sanitize_reason}
use rsh.UpdateStatus.RoundTrip.{IsValid}
use rsh.UpdateStatus.Store.{
  Files, read, written, arm_watchdog, WatchdogAction, continue, clear_watchdog, rollback_triggered,
}
use rsh.UpdateStatus.Watchdog.{read-write, run, expected, run-expected}

-- Whether a rollback is among the actions.
pub triggers : List WatchdogAction → Bool
triggers [] = false
triggers (continue ∷ rest) = triggers rest
triggers (clear_watchdog ∷ rest) = triggers rest
triggers (rollback_triggered ∷ rest) = true

unfoldable pub begins_with_three_failures : List Bool → Bool
begins_with_three_failures (false ∷ (false ∷ (false ∷ rest))) = true
begins_with_three_failures _ = false

triggers-idle : (n : ℕ) (os : List Bool) → triggers (expected false n os) ≡ false
unfolding triggers expected
triggers-idle n [] = refl
triggers-idle n (o ∷ os) = triggers-idle n os

triggers-expected : (os : List Bool) → triggers (expected true 0 os) ≡ begins_with_three_failures os
unfolding triggers expected begins_with_three_failures
triggers-expected [] = refl
triggers-expected (true ∷ os) = triggers-idle 0 os
triggers-expected (false ∷ []) = refl
triggers-expected (false ∷ (true ∷ os)) = triggers-idle 0 os
triggers-expected (false ∷ (false ∷ [])) = refl
triggers-expected (false ∷ (false ∷ (true ∷ os))) = triggers-idle 0 os
triggers-expected (false ∷ (false ∷ (false ∷ os))) = refl

-- What is read after the watchdog has been armed: the path of the previous binary is the given
-- one without quotes, backslashes, line breaks and tabs, cut at 80 characters. The rest of the
-- record is valid, the clock fits i64 and the write succeeds.
read-arm_watchdog :
    (now : ℤ) (prev : Text) (files : Files)
    → IsValid (read files)
    → InI64 now
    → read (arm_watchdog now written prev files) ≡ record (read files) {
      watchdog_active = true;
      watchdog_started_at = now;
      consecutive_heartbeat_failures = 0;
      previous_binary_path = sanitize_reason prev;
    }
unfolding arm_watchdog
read-arm_watchdog now prev files valid fits = read-write _ files (record {
  status_clean = valid.status_clean;
  ts_fits = valid.ts_fits;
  started_fits = fits;
  failures_fit = omega arith;
})

-- Once the watchdog is armed, a run of heartbeats triggers the rollback exactly if its first
-- three heartbeats fail: one success before that ends the watch for good. The record before is
-- valid, the clock fits i64 and every write succeeds.
pub triggers-arm_watchdog :
    (now : ℤ) (prev : Text) (files : Files) (os : List Bool)
    → IsValid (read files)
    → InI64 now
    → triggers (run os (arm_watchdog now written prev files)).1 ≡ begins_with_three_failures os
triggers-arm_watchdog now prev files os valid fits =
    let stored = read-arm_watchdog now prev files valid fits in
    let valid' : IsValid (read (arm_watchdog now written prev files)) =
      subst IsValid (sym stored) (record {
        status_clean = valid.status_clean;
        ts_fits = valid.ts_fits;
        started_fits = fits;
        failures_fit = omega arith;
      }) in
    ap triggers (
      run-expected os (arm_watchdog now written prev files) valid'
      ∙ ap (λ (t : UpdateStatus). expected t.watchdog_active t.consecutive_heartbeat_failures os)
          stored)
    ∙ triggers-expected os
